-- ===== src/Cli/Setup.antt =====
-- setup, and the messages of the commands.
use logstat.Prelude.{ℕ, Bool, List, [], ◌∷◌, Option}
use logstat.Text.{Text}
use logstat.Os.{Os}
use logstat.Config.{Config}
use logstat.Config.Overlaps.{Warning}
use logstat.Config.Load.{DecodeError, loaded, not_loaded, load, PathError}
use logstat.Lockfile.{LockError}
use logstat.Logging.Output.{LogError, Logger, Made, made, not_made, new_logger}
use logstat.Store.{Error}

pub data Message : Type 0 where
  configuration_loaded : Text → Message
  warned : Warning → Message
  bad_paths : PathError → Message
  not_locked : LockError → Message
  daemon_failed both_selected none_selected : Message
  log_reopened : Message
  not_reopened : LogError → Message
  not_listed : Text → Message
  not_cleared : Text → Error → Message
  cleared : Text → Message

-- What setup returns: the configuration with the logger and what it has logged, or the exit code.
pub data Setup (os : Os) : Type 0 where
  ready : Config → Logger os → List Message → Setup os
  exits : ℕ → Setup os

abbrev pub says : List Warning → List Message → List Message
says [] log = log
says (w ∷ ws) log = says ws (warned w ∷ log)

-- What a command uses of the program's surroundings but the system and the Redis client: the YAML
-- decoder, os.ReadFile, strings.ToLower, cron.ParseStandard, filepath.Dir and store.ShortHostname().
pub record Surroundings : Type 0 where
  pub decode : Text → Config → Config × Option DecodeError
  pub read_file : Text → Option Text
  pub to_lower : Text → Text
  pub cron_accepts : Text → Bool
  pub dir_of : Text → Text
  pub host : Text

module _ (os : Os) (env : Surroundings) where
  abbrev pub logger_setup : Text → Config → List Warning → Made os × os.State → Setup os × os.State
  logger_setup path cfg warnings (not_made _, s) = (exits 1, s)
  logger_setup path cfg warnings (made lg, s) =
      (ready cfg lg (says warnings (configuration_loaded path ∷ [])), s)

  -- setup
  unfoldable pub setup : Text → os.State → Setup os × os.State
  setup [] s = (exits 2, s)
  setup (ch ∷ rest) s =
      let path = ch ∷ rest in
      elim (load env.decode env.to_lower env.cron_accepts env.read_file path) [
        | not_loaded _ ↦ (exits 1, s)
        | loaded cfg warnings ↦
            logger_setup path cfg warnings (new_logger os env.to_lower cfg.logging s)
      ]
