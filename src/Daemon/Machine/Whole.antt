-- ===== src/Daemon/Machine/Whole.antt =====
-- A run as a whole, with its scheduled resets, follows the machine of each action.
use logstat.Prelude.{ℕ, List}
use logstat.Text.{Text}
use logstat.Store.Redis.{Client, Books, IsLedger}
use logstat.Store.{Store}
use logstat.Daemon.{World}
use logstat.Daemon.Machine.Steps.{Ready, Step}

module _ (to_lower : Text → Text) (c : Client) (d : Books c) (st : Store) (actions : List Text)
    (whole : IsLedger c d) (b : Text) where
  -- The steps of this action.
  abbrev Goes : List Text → ℕ → World c.Server → World c.Server → Type 0
  Goes lines asks w w' = Step to_lower c d st actions whole b lines asks w w'

  abbrev pub IsReady : ℕ → World c.Server → Type 0
  IsReady k w = Ready to_lower c d st actions whole b k w
