-- ===== src/Cli/Zeroed.antt =====
-- What the command clear leaves in Redis.
use logstat.Prelude.{
  ℕ, ◌≡◌, refl, sym, ap, ◌∙◌, ◌⊎◌, inl, inr, true, false, List, [], ◌∷◌, arith, Bool-cases,
}
use logstat.Text.{Text, text_eq, text_eq_refl, text_eq_iff, text_elem}
use logstat.Os.{Os}
use logstat.Config.{Config}
use logstat.Store.Redis.{Client, Books}
use logstat.Store.Keys.{Time}
use logstat.Store.{Store, reset}
use logstat.Store.Effects.{total, total-reset, Result-cases}
use logstat.Logging.Output.{Logger}
use logstat.Cli.Flags.{Flags, no_flags, parsed, parse_flags}
use logstat.Cli.Setup.{Message, ready, Surroundings, setup}
use logstat.Cli.Clear.{
  new_store, Selected, selected, complaint, select, Clearing, clear_step, clear_loop, clear_with,
  cmd_clear,
}

module _ (c : Client) (d : Books c) (st : Store) (now : Time) where
  -- A step that is not counted as failed has zeroed its action, and no step raises a total.
  step_zeroes :
      (a : Text) (w : Clearing c.Server)
      → let w' = clear_step c st now a w in
        ((b : Text) → text_eq a b ≡ false → total c d st w'.server b ≡ total c d st w.server b)
        × ((b : Text) → total c d st w.server b ≡ 0 → total c d st w'.server b ≡ 0)
        × (w'.failed ≡ 0 → (w.failed ≡ 0) × (total c d st w'.server a ≡ 0))
  unfolding clear_step
  step_zeroes a w =
      let t = total-reset c d st a now w.server in
      elim (Result-cases (reset c st a now w.server).0) [
        | inl (_, e) ↦
            rw (clear_step, e)
              (
                (λ b ne. ground (arith, ne, t b)),
                (λ b z. ground (arith, z, t b)),
                λ f. (f, ground (arith, e, t a, text_eq_refl a)),
              )
        | inr (_, e) ↦
            rw (clear_step, e)
              (
                (λ b ne. ground (arith, ne, t b)),
                (λ b z. ground (arith, z, t b)),
                λ f. ground (arith, f),
              )
      ]

  loop_keeps_zero :
      (actions : List Text) (w : Clearing c.Server) (b : Text)
      → total c d st w.server b ≡ 0
      → total c d st (clear_loop c st now actions w).server b ≡ 0
  unfolding clear_loop
  loop_keeps_zero [] w b z = z
  loop_keeps_zero (a ∷ actions) w b z =
      let (_, keeps, _) = step_zeroes a w in
      loop_keeps_zero actions (clear_step c st now a w) b (keeps b z)

  loop_keeps_others :
      (actions : List Text) (w : Clearing c.Server) (b : Text)
      → text_elem b actions ≡ false
      → total c d st (clear_loop c st now actions w).server b ≡ total c d st w.server b
  unfolding clear_loop text_elem
  loop_keeps_others [] w b n = refl
  loop_keeps_others (a ∷ actions) w b n =
      let (others, _, _) = step_zeroes a w in
      loop_keeps_others actions (clear_step c st now a w) b (ground (arith, n))
      ∙ others b (ground (arith, n))

  -- Where no step of the loop failed, every action of the loop is zero.
  loop_zeroes :
      (actions : List Text) (w : Clearing c.Server)
      → (clear_loop c st now actions w).failed ≡ 0
      → (w.failed ≡ 0)
        × ((a : Text)
            → text_elem a actions ≡ true
            → total c d st (clear_loop c st now actions w).server a ≡ 0)
  unfolding clear_loop text_elem
  loop_zeroes [] w f = (f, λ a e. ground (arith, e))
  loop_zeroes (b ∷ actions) w f =
      let w' = clear_step c st now b w in
      let (_, _, zeroed) = step_zeroes b w in
      let (f', all) = loop_zeroes actions w' f in
      let (f0, z) = zeroed f' in
      (
        f0,
        λ a e. elim (Bool-cases (text_eq b a)) [
          | inl same ↦
              loop_keeps_zero actions w' a
                (ap (total c d st w'.server) (sym ((text_eq_iff b a).0 same)) ∙ z)
          | inr other ↦ all a (ground (arith, e, other))
        ],
      )

Selected-cases :
    (x : Selected)
    → ((actions : List Text) × (x ≡ selected actions)) ⊎ ((m : Message) × (x ≡ complaint m))
Selected-cases (selected actions) = inl (actions, refl)
Selected-cases (complaint m) = inr (m, refl)

-- What clear promises of an exit code, over the actions that the flags select: with 0 all of them are
-- zero, and an action that is not among them keeps its total.
pub record Cleared (c : Client) (d : Books c) (st : Store) (x : Selected) (code : ℕ)
    (s s' : c.Server) : Type 0 where
  pub zeroed :
      code ≡ 0
      → (actions : List Text) × (x ≡ selected actions)
        × ((a : Text) → text_elem a actions ≡ true → total c d st s' a ≡ 0)
  pub kept :
      (b : Text)
      → ((actions : List Text) → x ≡ selected actions → text_elem b actions ≡ false)
      → total c d st s' b ≡ total c d st s b

module _ (os : Os) (env : Surroundings) (c : Client) (d : Books c) where
  clear_with-Cleared :
      (f : Flags) (cfg : Config) (now : Time) (log : List Message) (s : c.Server)
      → let (code, (_, s')) = clear_with os env c f cfg now log s in
        Cleared c d (new_store env.host cfg) (select f cfg.actions) code s s'
  unfolding clear_with
  clear_with-Cleared f cfg now log s =
      let st = new_store env.host cfg in
      let w : Clearing c.Server = record { failed = 0; log = log; server = s } in
      elim (Selected-cases (select f cfg.actions)) [
        | inr (m, e) ↦
            rw (clear_with, e) (record { zeroed = λ z. ground (arith, z); kept = λ b n. refl })
        | inl (actions, e) ↦
            rw (clear_with, e)
              (record {
                zeroed =
                    λ z. (actions, refl, (loop_zeroes c d st now actions w (ground (arith, z))).1);
                kept = λ b n. loop_keeps_others c d st now actions w b (n actions refl);
              })
      ]

  -- What clear does where the flags parse and the configuration and its log are there.
  pub cmd_clear-Cleared :
      (args : List Text) (now : Time) (s s1 : os.State) (server : c.Server) (f : Flags)
      (cfg : Config) (lg : Logger os) (log : List Message)
      → parse_flags true args no_flags ≡ parsed f
      → setup os env f.cfg_path s ≡ (ready cfg lg log, s1)
      → let (code, (_, (_, server'))) = cmd_clear os env c args now s server in
        Cleared c d (new_store env.host cfg) (select f cfg.actions) code server server'
  unfolding cmd_clear
  cmd_clear-Cleared args now s s1 server f cfg lg log p e =
      rw (cmd_clear, p, e) (clear_with-Cleared f cfg now log server)
