-- ===== src/Daemon/Start/Delivery.antt =====
-- A daemon that is new, from the first line of Run to its last.
use logstat.Prelude.{if◌then◌else◌}
use logstat.Text.{Text}
use logstat.Config.{Config}
use logstat.Store.Redis.{Client}
use logstat.Store.{Store}
use logstat.Store.Available.{Available}
use logstat.Daemon.{World, say, starting, log_found, log_missing}
use logstat.Daemon.Run.{run}
use logstat.Daemon.Start.{Outside, Course, Daemon, say_of, start_metrics, scheduling}

module _ (to_lower : Text → Text) (c : Client) (st : Store) (cfg : Config) (out : Outside) where
  -- The world in which the tailer is attached, of a daemon that starts.
  abbrev pub entered : Daemon c.Server → World c.Server
  entered d =
      say (if out.is_there cfg.log_path then log_found cfg.log_path else log_missing cfg.log_path)
        (start_metrics out.listen cfg (say_of starting d)).1.world

  -- The run behind an attached tailer, whose events are those of the course.
  abbrev ran : Course → World c.Server → World c.Server
  ran x w =
      run to_lower c st cfg.actions (scheduling to_lower c st cfg out) x.start_now x.events x.end
        x.stop_ok x.lines x.init_now x.now w
