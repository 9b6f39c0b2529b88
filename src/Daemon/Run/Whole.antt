-- ===== src/Daemon/Run/Whole.antt =====
-- A run as a whole: its lines, its ticks and its end.
use logstat.Prelude.{List}
use logstat.Text.{Text}
use logstat.Store.{Store}
