-- ===== src/Cli/Run.antt =====
-- cmdRun, and the choice of the command in run.
--
-- What happens while the daemon runs is a Session: its events, and the number of SIGHUP signals. The
-- log is reopened for each signal; the daemon's own messages are those of Daemon.Run.
use logstat.Prelude.{ℕ, zero, suc, ◌||◌, false, List, [], ◌∷◌, Option, none, some, if◌then◌else◌}
use logstat.Text.{Text, codes, text_eq}
use logstat.Os.{Os}
use logstat.Config.{Config}
use logstat.Config.Load.{PathError, check_paths}
use logstat.Lockfile.{Acquired, acquired, refused, acquire, release}
use logstat.Logging.Output.{LogError, Output, reopen, close}
use logstat.Store.Redis.{Client}
use logstat.Daemon.Start.{Outside, Course, RunError, Daemon, new_daemon, run_daemon}
use logstat.Cli.Flags.{no_flags, parsed, unparsed, parse_exit, parse_flags}
use logstat.Cli.Setup.{
  Message, bad_paths, not_locked, daemon_failed, log_reopened, not_reopened, Setup, ready, exits,
  Surroundings, setup,
}
use logstat.Cli.Clear.{new_store, cmd_clear}

-- outside and course are what Daemon.Run finds, and what happens while it runs.
pub record Session : Type 0 where
  pub outside : Outside
  pub hang_ups : ℕ
  pub course : Course

module _ (os : Os) (env : Surroundings) (c : Client) where
  -- The exit code, the messages, the system and the server.
  abbrev pub Exit : Type 0
  Exit = ℕ × (List Message × (os.State × c.Server))

  abbrev pub reopen_message : Option LogError → Message
  reopen_message none = log_reopened
  reopen_message (some e) = not_reopened e

  -- The goroutine that reopens the log, once for each SIGHUP.
  unfoldable pub hang_up :
      ℕ → List Message → Output os × os.State → List Message × (Output os × os.State)
  hang_up zero log w = (log, w)
  hang_up (suc n) log (o, s) =
      let ((err, o1), s1) = reopen os o s in hang_up n (reopen_message err ∷ log) (o1, s1)

  -- daemon.New(...).Run(ctx)
  abbrev pub daemon_run : Config → Session → c.Server → Option RunError × Daemon c.Server
  daemon_run cfg x server =
      run_daemon env.to_lower c (new_store env.host cfg) cfg x.outside x.course
        (new_daemon env.to_lower cfg server)

  -- cmdRun behind Acquire.
  unfoldable pub run_locked :
      Config → Session → List Message → c.Server → Output os → Acquired os × os.State → Exit
  unfolding hang_up
  run_locked cfg x log server o (refused e, s) =
      (1, (not_locked e ∷ log, ((close os o s).1, server)))
  run_locked cfg x log server o (acquired l, s) =
      let (log1, (o1, s1)) = hang_up x.hang_ups log (o, s) in
      let (err, d) = daemon_run cfg x server in
      let s2 = (close os o1 (release os env.dir_of l s1).1).1 in
      elim err [
        | none ↦ (0, (log1, (s2, d.world.server)))
        | some _ ↦ (1, (daemon_failed ∷ log1, (s2, d.world.server)))
      ]

  -- cmdRun behind CheckPaths.
  unfoldable pub run_checked :
      Config → Session → List Message → c.Server → Output os → Option PathError × os.State → Exit
  unfolding run_locked
  run_checked cfg x log server o (some e, s) = (1, (bad_paths e ∷ log, ((close os o s).1, server)))
  run_checked cfg x log server o (none, s) =
      run_locked cfg x log server o (acquire os env.dir_of cfg.lock_file s)

  -- cmdRun behind setup.
  unfoldable pub run_ready : Session → c.Server → Setup os × os.State → Exit
  unfolding run_checked
  run_ready x server (exits code, s) = (code, ([], (s, server)))
  run_ready x server (ready cfg lg log, s) =
      run_checked cfg x log server lg.out (check_paths os env.dir_of cfg s)

  -- cmdRun
  unfoldable pub cmd_run : List Text → Session → os.State → c.Server → Exit
  unfolding run_ready
  cmd_run args x s server = elim (parse_flags false args no_flags) [
    | unparsed e ↦ (parse_exit e, ([], (s, server)))
    | parsed f ↦ run_ready x server (setup os env f.cfg_path s)
  ]

  -- run
  unfoldable pub run_command : List Text → Session → os.State → c.Server → Exit
  unfolding cmd_run cmd_clear
  run_command [] x s server = (2, ([], (s, server)))
  run_command (command ∷ args) x s server =
      let ran = cmd_run args x s server in
      let cleared = cmd_clear os env c args x.course.now s server in
      if text_eq command (codes "run")
      then ran
      else if text_eq command (codes "clear")
      then cleared
      else if text_eq command (codes "version")
      then (0, ([], (s, server)))
      else if text_eq command (codes "-h")
          || text_eq command (codes "--help")
          || text_eq command (codes "help")
      then (0, ([], (s, server)))
      else (2, ([], (s, server)))
