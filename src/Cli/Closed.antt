-- ===== src/Cli/Closed.antt =====
-- The command run closes all files that it opens, whichever way it ends.
use mathlib.Core.Path.{subst}
use logstat.Prelude.{
  ◌≡◌, refl, sym, ap, ◌∙◌, inl, inr, Bool, false, List, [], ◌∷◌, some, arith, Option-cases,
}
use logstat.Text.{Text}
use logstat.Os.{Os, FilesDocumented, LocksDocumented}
use logstat.Config.{Config}
use logstat.Config.Load.Closed.{check_paths-open, Loaded-cases}
use logstat.Config.Load.{load, check_paths}
use logstat.Config.Overlaps.{Warning}
use logstat.Lockfile.{Lock, Acquired, acquired, acquire, release}
use logstat.Lockfile.Effects.{acquire_result, release-GivenUp}
use logstat.Logging.Output.{Output, Logger, Made, made, not_made, new_logger, close}
use logstat.Logging.OneFile.{Owns}
use logstat.Logging.NoLeak.{same-Owns, MadeOwns, new_logger-MadeOwns}
use logstat.Store.Redis.{Client}
use logstat.Cli.Flags.{Parsed-cases, no_flags, parse_flags}
use logstat.Cli.Setup.{Message, ready, Surroundings, setup, logger_setup}
use logstat.Cli.Owned.{Only, with_lock_file, hang_up-Owns, close-Only, Taken-Owns, GivenUp-Owns}
use logstat.Cli.Run.{Session, hang_up, daemon_run, run_locked, run_checked, run_ready, cmd_run}

module _ (os : Os) (files : FilesDocumented os) (locks : LocksDocumented os files)
    (env : Surroundings) (c : Client) where
  open files use {file_eq, file_eq_iff, is_open}

  locked_state :
      (cfg : Config) (x : Session) (log : List Message) (server : c.Server) (o : Output os)
      (l : Lock os) (s : os.State)
      → let (_, (o1, s1)) = hang_up os env c x.hang_ups log (o, s) in
        (run_locked os env c cfg x log server o (acquired l, s)).1.1.0
        ≡ (close os o1 (release os env.dir_of l s1).1).1
  unfolding run_locked
  locked_state cfg x log server o l s = elim (Option-cases (daemon_run os env c cfg x server).0) [
    | inl e ↦ rw (run_locked, e) refl
    | inr (_, e) ↦ rw (run_locked, e) refl
  ]

  locked-Only :
      (base : os.File → Bool) (cfg : Config) (x : Session) (log : List Message) (server : c.Server)
      (o : Output os) (f : os.File) (s : os.State)
      → base f ≡ false
      → Owns os files (with_lock_file os files locks env c f base) (o, s)
      → Only os files locks env c base
          (run_locked os env c cfg x log server o
            (acquired (record { path = cfg.lock_file; held = some f }), s)).1.1.0
  locked-Only base cfg x log server o f s new w g =
      let l : Lock os = record { path = cfg.lock_file; held = some f } in
      let (_, (o1, s1)) = hang_up os env c x.hang_ups log (o, s) in
      let over =
        hang_up-Owns os files locks env c (with_lock_file os files locks env c f base) x.hang_ups
          log o s w in
      let freed = release-GivenUp os env.dir_of files locks cfg.lock_file f s1 in
      let owned =
        GivenUp-Owns os files locks env c base f o1 s1 (release os env.dir_of l s1).1 new freed
          over in
      ap (λ t. is_open t g) (locked_state cfg x log server o l s)
      ∙ close-Only os files locks env c base o1 (release os env.dir_of l s1).1 owned g

  run_locked-Only :
      (base : os.File → Bool) (cfg : Config) (x : Session) (log : List Message) (server : c.Server)
      (o : Output os) (s : os.State)
      → Owns os files base (o, s)
      → Only os files locks env c base
          (run_locked os env c cfg x log server o (acquire os env.dir_of cfg.lock_file s)).1.1.0
  unfolding run_locked
  run_locked-Only base cfg x log server o s w =
      let s1 = (acquire os env.dir_of cfg.lock_file s).1 in
      let left : Acquired os → Type 0 = λ a.
        Only os files locks env c base (run_locked os env c cfg x log server o (a, s1)).1.1.0 in
      elim (acquire_result os env.dir_of files locks cfg.lock_file s) [
        | inr (e, r, u) ↦ subst left (sym r) (
            close-Only os files locks env c base o s1
              (same-Owns os files base o s s1 u.same_open w))
        | inl (f, r, t) ↦ subst left (sym r) (
            locked-Only base cfg x log server o f s1 (ground (arith, w.now_open f, t.was_new))
              (Taken-Owns os files locks env c base cfg.lock_file f o s s1 t w))
      ]

  run_ready-Only :
      (base : os.File → Bool) (x : Session) (server : c.Server) (cfg : Config) (lg : Logger os)
      (log : List Message) (s : os.State)
      → Owns os files base (lg.out, s)
      → Only os files locks env c base (run_ready os env c x server (ready cfg lg log, s)).1.1.0
  unfolding run_ready run_checked
  run_ready-Only base x server cfg lg log s w =
      let s1 = (check_paths os env.dir_of cfg s).1 in
      let w1 = same-Owns os files base lg.out s s1 (check_paths-open os files env.dir_of cfg s) w in
      elim (Option-cases (check_paths os env.dir_of cfg s).0) [
        | inr (e, h) ↦
            rw (run_ready, run_checked, h) (close-Only os files locks env c base lg.out s1 w1)
        | inl h ↦
            rw (run_ready, run_checked, h) (run_locked-Only base cfg x log server lg.out s1 w1)
      ]

  made-Only :
      (x : Session) (server : c.Server) (path : Text) (cfg : Config) (warnings : List Warning)
      (base : os.File → Bool) (s1 : os.State) (m : Made os)
      → MadeOwns os files base (m, s1)
      → Only os files locks env c base
          (run_ready os env c x server (logger_setup os env path cfg warnings (m, s1))).1.1.0
  unfolding run_ready
  made-Only x server path cfg warnings base s1 (not_made _) w = w
  made-Only x server path cfg warnings base s1 (made lg) w =
      run_ready-Only base x server cfg lg _ s1 w

  setup-Only :
      (x : Session) (server : c.Server) (path : Text) (s : os.State)
      → Only os files locks env c
          (is_open s)
          (run_ready os env c x server (setup os env path s)).1.1.0
  unfolding setup run_ready
  setup-Only x server [] s = λ g. refl
  setup-Only x server (ch ∷ rest) s =
      elim (Loaded-cases
        (load env.decode env.to_lower env.cron_accepts env.read_file (ch ∷ rest))) [
          | inl (cfg, warnings, e) ↦
              rw (setup, e)
                (made-Only x server (ch ∷ rest) cfg warnings (is_open s)
                  (new_logger os env.to_lower cfg.logging s).1
                  (new_logger os env.to_lower cfg.logging s).0
                  (new_logger-MadeOwns os files env.to_lower cfg.logging s))
          | inr (x, e) ↦ rw (setup, e) (λ g. refl)
        ]

  -- Whichever way the command run ends - its flags do not parse, the configuration does not load, the
  -- log cannot be opened, a path cannot be used, the lock is taken, the daemon fails or is stopped -
  -- and however often the log is reopened meanwhile, exactly the files are open that were open before.
  -- The condition: the system keeps to its manual.
  pub cmd_run_closes_files :
      (args : List Text) (x : Session) (s : os.State) (server : c.Server) (g : os.File)
      → is_open (cmd_run os env c args x s server).1.1.0 g ≡ is_open s g
  unfolding cmd_run
  cmd_run_closes_files args x s server g = elim (Parsed-cases (parse_flags false args no_flags)) [
    | inl (f, e) ↦ rw (cmd_run, e) (setup-Only x server f.cfg_path s g)
    | inr (err, e) ↦ rw (cmd_run, e) refl
  ]
