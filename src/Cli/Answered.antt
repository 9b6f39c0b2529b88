-- ===== src/Cli/Answered.antt =====
-- The command clear where Redis answers.
use mathlib.Core.Path.{subst}
use logstat.Prelude.{◌≡◌, refl, sym, ◌∙◌, true, List, [], ◌∷◌, arith}
use logstat.Text.{Text, text_elem}
use logstat.Os.{Os}
use logstat.Config.{Config}
use logstat.Store.Redis.{Client, Books}
use logstat.Store.Keys.{Time}
use logstat.Store.{Store}
use logstat.Store.Effects.{total}
use logstat.Store.Available.{Available, reset-Works}
use logstat.Logging.Output.{Logger}
use logstat.Cli.Flags.{Flags, no_flags, parsed, parse_flags}
use logstat.Cli.Setup.{Message, ready, Surroundings, setup}
use logstat.Cli.Clear.{
  new_store, selected, select, Clearing, clear_step, clear_loop, clear_with, cmd_clear,
}
use logstat.Cli.Zeroed.{cmd_clear-Cleared}

module _ (c : Client) (d : Books c) (st : Store) (up : c.Server → Type 0) (av : Available c d st up)
    (now : Time) where
  clear_step-up :
      (a : Text) (w : Clearing c.Server)
      → up w.server
      → let w' = clear_step c st now a w in (w'.failed ≡ w.failed) × up w'.server
  unfolding clear_step
  clear_step-up a w h = ground (arith, reset-Works c d st up av a now w.server h)

  clear_loop-up :
      (actions : List Text) (w : Clearing c.Server)
      → up w.server
      → (clear_loop c st now actions w).failed ≡ w.failed
  unfolding clear_loop
  clear_loop-up [] w h = refl
  clear_loop-up (a ∷ actions) w h =
      let (same, up') = clear_step-up a w h in
      clear_loop-up actions (clear_step c st now a w) up' ∙ same

module _ (os : Os) (env : Surroundings) (c : Client) (d : Books c) where
  clear_with-code :
      (f : Flags) (cfg : Config) (now : Time) (log : List Message) (s : c.Server)
      (actions : List Text) (up : c.Server → Type 0)
      → Available c d (new_store env.host cfg) up
      → up s
      → select f cfg.actions ≡ selected actions
      → (clear_with os env c f cfg now log s).0 ≡ 0
  unfolding clear_with
  clear_with-code f cfg now log s actions up av h e =
      let w : Clearing c.Server = record { failed = 0; log = log; server = s } in
      rw (clear_with, e, clear_loop-up c d (new_store env.host cfg) up av now actions w h) refl

  cmd_clear-code :
      (args : List Text) (now : Time) (s : os.State) (server : c.Server) (f : Flags) (cfg : Config)
      (lg : Logger os) (log : List Message) (actions : List Text) (up : c.Server → Type 0)
      → parse_flags true args no_flags ≡ parsed f
      → (s1 : os.State) → setup os env f.cfg_path s ≡ (ready cfg lg log, s1)
      → Available c d (new_store env.host cfg) up
      → up server
      → select f cfg.actions ≡ selected actions
      → (cmd_clear os env c args now s server).0 ≡ 0
  unfolding cmd_clear
  cmd_clear-code args now s server f cfg lg log actions up p s1 r av h e =
      rw (cmd_clear, p, r) (clear_with-code f cfg now log server actions up av h e)

  -- Where its flags parse and select actions, the configuration and its log are there, and Redis
  -- answers, the command clear succeeds: its exit code is 0, and the counter of each action that the
  -- flags select is zero in Redis. The conditions: the operations of the store are answered by a
  -- server that is up, an increment where it does not overflow, and it is up before. The totals are
  -- those of the keys of a Redis that expires none meanwhile.
  pub cmd_clear_succeeds :
      (args : List Text) (now : Time) (s s1 : os.State) (server : c.Server) (f : Flags)
      (cfg : Config) (lg : Logger os) (log : List Message) (actions : List Text)
      (up : c.Server → Type 0)
      → parse_flags true args no_flags ≡ parsed f
      → setup os env f.cfg_path s ≡ (ready cfg lg log, s1)
      → Available c d (new_store env.host cfg) up
      → up server
      → select f cfg.actions ≡ selected actions
      → let (code, (_, (_, server'))) = cmd_clear os env c args now s server in
        (code ≡ 0)
        × ((a : Text)
            → text_elem a actions ≡ true
            → total c d (new_store env.host cfg) server' a ≡ 0)
  cmd_clear_succeeds args now s s1 server f cfg lg log actions up p r av h e =
      let code = cmd_clear-code args now s server f cfg lg log actions up p s1 r av h e in
      let (same, k, zero) =
        (cmd_clear-Cleared os env c d args now s s1 server f cfg lg log p r).zeroed code in
      let eq : same ≡ actions = ground (arith, k, e) in
      (code, λ a i. zero a (subst (λ l. text_elem a l ≡ true) (sym eq) i))
