-- ===== src/Cli/Outcome.antt =====
-- The command clear over all its outcomes.
use mathlib.Core.Path.{subst}
use logstat.Prelude.{ℕ, ◌≡◌, ◌≢◌, refl, ap, ◌⊎◌, inl, inr, true, List, [], ◌∷◌, arith}
use logstat.Text.{Text}
use logstat.Os.{Os}
use logstat.Config.{Config}
use logstat.Config.Load.{load}
use logstat.Config.Load.Closed.{Loaded-cases}
use logstat.Config.Overlaps.{Warning}
use logstat.Logging.Output.{Logger, Made, made, not_made, new_logger}
use logstat.Store.Redis.{Client, Books}
use logstat.Store.Keys.{Time}
use logstat.Cli.Flags.{
  Flags, no_flags, FlagError, help, bad_syntax, not_defined, no_argument, bad_boolean, parsed,
  unparsed, Parsed-cases, parse_exit, parse_flags,
}
use logstat.Cli.Setup.{Message, Setup, ready, exits, Surroundings, logger_setup, setup}
use logstat.Cli.Clear.{new_store, select, cmd_clear}
use logstat.Cli.Zeroed.{Cleared, cmd_clear-Cleared}

module _ (os : Os) (env : Surroundings) (c : Client) (d : Books c) where
  parse_exit_help : (e : FlagError) → parse_exit e ≡ 0 → e ≡ help
  parse_exit_help help z = refl
  parse_exit_help bad_syntax z = ground (arith, z)
  parse_exit_help not_defined z = ground (arith, z)
  parse_exit_help no_argument z = ground (arith, z)
  parse_exit_help bad_boolean z = ground (arith, z)

  -- The exit code of setup, where it gives one.
  abbrev Exits : Setup os → Type 0
  Exits (exits code) = code ≢ 0
  Exits (ready _ _ _) = Unit

  logger_setup-Exits :
      (path : Text) (cfg : Config) (warnings : List Warning) (m : Made os) (s : os.State)
      → Exits (logger_setup os env path cfg warnings (m, s)).0
  logger_setup-Exits path cfg warnings (made _) s = tt
  logger_setup-Exits path cfg warnings (not_made _) s = λ z. ground (arith, z)

  setup-Exits : (path : Text) (s : os.State) → Exits (setup os env path s).0
  unfolding setup
  setup-Exits [] s = λ z. ground (arith, z)
  setup-Exits (ch ∷ rest) s =
      elim (Loaded-cases
        (load env.decode env.to_lower env.cron_accepts env.read_file (ch ∷ rest))) [
          | inl (cfg, warnings, e) ↦
              let (m, s1) = new_logger os env.to_lower cfg.logging s in
              rw (setup, e) (logger_setup-Exits (ch ∷ rest) cfg warnings m s1)
          | inr (x, e) ↦ rw (setup, e) (λ z. ground (arith, z))
        ]

  Setup-cases :
      (x : Setup os)
      → ((cfg : Config) × (lg : Logger os) × (log : List Message) × (x ≡ ready cfg lg log))
        ⊎ ((code : ℕ) × (x ≡ exits code))
  Setup-cases (ready cfg lg log) = inl (cfg, lg, log, refl)
  Setup-cases (exits code) = inr (code, refl)

  -- The command clear in full. Where its flags parse and the configuration and its log are there:
  -- with exit code 0 the flags select actions, and the counter of each of them is zero in Redis; and
  -- whatever the code is, the counters of all other actions are as before. Otherwise Redis is as
  -- before, and the code is 0 only where the flags ask for help. The totals are those of
  -- the keys of a Redis that expires none meanwhile, or of a ledger.
  pub cmd_clear_result :
      (args : List Text) (now : Time) (s : os.State) (server : c.Server)
      → let (code, (_, (_, server'))) = cmd_clear os env c args now s server in
        ((f : Flags) × (parse_flags true args no_flags ≡ parsed f)
          × (cfg : Config) × (lg : Logger os) × (log : List Message) × ((setup os env f.cfg_path
                s).0
              ≡ ready cfg lg log)
          × Cleared c d (new_store env.host cfg) (select f cfg.actions) code server server')
        ⊎ ((server' ≡ server) × (code ≡ 0 → parse_flags true args no_flags ≡ unparsed help))
  unfolding cmd_clear
  cmd_clear_result args now s server = elim (Parsed-cases (parse_flags true args no_flags)) [
    | inr (e, p) ↦ inr (rw (cmd_clear, p) (refl, λ z. ap unparsed (parse_exit_help e z)))
    | inl (f, p) ↦ elim (Setup-cases (setup os env f.cfg_path s).0) [
      | inr (code, e) ↦ inr (
          rw (cmd_clear, p, e)
            (refl, λ z. ground (arith, subst Exits e (setup-Exits f.cfg_path s) z)))
      | inl (cfg, lg, log, e) ↦ inl (
        f,
        p,
        cfg,
        lg,
        log,
        e,
        cmd_clear-Cleared os env c d args now s (setup os env f.cfg_path s).1 server f cfg lg log p
            (λ i. (e i, (setup os env f.cfg_path s).1)),
      )
    ]
  ]
