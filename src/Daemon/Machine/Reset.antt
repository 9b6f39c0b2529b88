-- ===== src/Daemon/Machine/Reset.antt =====
-- A scheduled reset, as moves of the machine of one action.
use mathlib.Core.Path.{subst}
use logstat.Prelude.{
  ◌^◌, ◌<◌, ◌≡◌, refl, sym, ◌∙◌, ap, Bool, true, false, ◌⊎◌, List, [], ◌∷◌, arith, inl, inr,
  Bool-cases,
}
use logstat.Text.{Text, text_eq, text_eq_iff, text_elem, Distinct}
use logstat.Dict.{IsMap}
use logstat.Dict.Totals.{get64}
use logstat.Counter.{Counter, IsValid, process_lines}
use logstat.Counter.Buffer.{hits}
use logstat.Store.Redis.{Client, Books, IsLedger}
use logstat.Store.Keys.{Time}
use logstat.Store.{Store}
use logstat.Store.Effects.{total, total-reset}
use logstat.Daemon.{World, reset_due, note_error, note_ok}
use logstat.Daemon.Flush.{flush}
use logstat.Daemon.Reset.{Resetting, reset_step, reset_loop, finish_reset, reset_counters}
use logstat.Daemon.Resets.{insert_due, erase_due, erase_not_due}
use logstat.Daemon.Recovery.Maps.{HasMaps, reset_step-HasMaps, flush-HasMaps}
use logstat.Daemon.Machine.{
  zeroed, View, Reaches, Reaches-append, Reaches-asked, Reaches-none, Reaches-to, Reaches-lines,
  View-eq, view,
}
use logstat.Daemon.Machine.Flush.{flush-Reaches}

module _ (c : Client) (st : Store) (actions : List Text) where
  reset_step-cnt :
      (now : Time) (l : Resetting c.Server) (a : Text)
      → (reset_step c st actions now l a).world.cnt ≡ l.world.cnt
  unfolding reset_step note_error
  reset_step-cnt now l a = ground arith

  reset_loop-cnt :
      (now : Time) (rest : List Text) (l : Resetting c.Server)
      → (reset_loop c st actions now rest l).world.cnt ≡ l.world.cnt
  unfolding reset_loop
  reset_loop-cnt now [] l = refl
  reset_loop-cnt now (a ∷ rest) l =
      reset_loop-cnt now rest (reset_step c st actions now l a) ∙ reset_step-cnt now l a

  finish_reset-cnt : (l : Resetting c.Server) → (finish_reset c st actions l).cnt ≡ l.world.cnt
  unfolding finish_reset note_ok
  finish_reset-cnt l = ground arith

  -- A reset leaves the counter to its flush.
  pub reset_counters-cnt :
      (meanwhile : Counter → Counter) (init_now flush_now now : Time) (w : World c.Server)
      → (reset_counters c st actions meanwhile init_now flush_now now w).cnt
        ≡ (flush c st actions meanwhile init_now flush_now w).cnt
  unfolding reset_counters
  reset_counters-cnt meanwhile init_now flush_now now w =
      let l : Resetting c.Server = record {
        world = flush c st actions meanwhile init_now flush_now w;
        errs = 0;
        unreachable = false;
      } in
      finish_reset-cnt (reset_loop c st actions now actions l) ∙ reset_loop-cnt now actions l

module _ (c : Client) (d : Books c) (st : Store) (actions : List Text) (b : Text) where
  reset_step_self :
      (now : Time) (l : Resetting c.Server)
      → IsMap l.world.pending_resets
      → let w' = (reset_step c st actions now l b).world in
        (w'.cnt ≡ l.world.cnt)
        × (((reset_due w'.pending_resets b ≡ true)
              × (total c d st w'.server b ≡ total c d st l.world.server b))
            ⊎ ((reset_due w'.pending_resets b ≡ true) × (total c d st w'.server b ≡ 0))
            ⊎ ((reset_due w'.pending_resets b ≡ false) × (total c d st w'.server b ≡ 0)))
  unfolding reset_step note_error
  reset_step_self now l m = ground (
    arith,
    insert_due b b l.world.pending_resets,
    erase_not_due b l.world.pending_resets m,
    text_eq_iff b b,
    total-reset c d st b now l.world.server b,
  )

  zeroed-Reaches :
      (due : Bool) (v : View) → v.due ≡ true → Reaches 0 0 v (record v { total = 0; due = due })
  zeroed-Reaches due v h = record {
    moves = zeroed due ∷ [];
    leads = (h, refl);
    lines_counted = refl;
    resets_asked = refl;
  }

  reset_step-Reaches :
      (now : Time) (l : Resetting c.Server)
      → IsMap l.world.pending_resets
      → Reaches 0 1 (view c d st b l.world) (view c d st b (reset_step c st actions now l b).world)
  reset_step-Reaches now l m =
      let (same, how) = reset_step_self now l m in
      let waiting = ap (λ n. get64 b n.pending) (sym same) in
      let v = view c d st b l.world in
      elim how [
        | inl (u, t) ↦
            Reaches-asked _ _ _ (View-eq _ _ _ _ _ _ (sym t) waiting (sym u))
              (Reaches-none _ _ refl)
        | inr (inl (u, t)) ↦ Reaches-asked _ _ _ refl (
            Reaches-to _ _ _ _ _ (View-eq _ _ _ _ _ _ (sym t) waiting (sym u))
              (zeroed-Reaches true (record v { due = true }) refl))
        | inr (inr (u, t)) ↦ Reaches-asked _ _ _ refl (
            Reaches-to _ _ _ _ _ (View-eq _ _ _ _ _ _ (sym t) waiting (sym u))
              (zeroed-Reaches false (record v { due = true }) refl))
      ]

  reset_step_other :
      (now : Time) (a : Text) (l : Resetting c.Server)
      → text_eq a b ≡ false
      → let w' = (reset_step c st actions now l a).world in
        (w'.cnt ≡ l.world.cnt)
        × (reset_due w'.pending_resets b ≡ reset_due l.world.pending_resets b)
        × (total c d st w'.server b ≡ total c d st l.world.server b)
  unfolding reset_step note_error
  reset_step_other now a l ne = ground (
    arith,
    ne,
    insert_due a b l.world.pending_resets,
    erase_due a b l.world.pending_resets,
    total-reset c d st a now l.world.server b,
  )

  reset_step_other-view :
      (now : Time) (a : Text) (l : Resetting c.Server)
      → text_eq a b ≡ false
      → view c d st b (reset_step c st actions now l a).world ≡ view c d st b l.world
  reset_step_other-view now a l ne =
      let (same, due, totals) = reset_step_other now a l ne in
      View-eq _ _ _ _ _ _ totals (ap (λ n. get64 b n.pending) same) due

  -- Over the actions that are left, each is asked for once.
  reset_loop-Reaches :
      (now : Time) (rest : List Text) (l : Resetting c.Server)
      → Distinct rest
      → HasMaps l.world
      → let l' = reset_loop c st actions now rest l in
        (text_elem b rest ≡ true → Reaches 0 1 (view c d st b l.world) (view c d st b l'.world))
        × (text_elem b rest ≡ false → view c d st b l'.world ≡ view c d st b l.world)
  unfolding reset_loop text_elem
  reset_loop-Reaches now [] l ds m = (λ e. cc, λ e. refl)
  reset_loop-Reaches now (a ∷ rest) l ds m =
      let l1 = reset_step c st actions now l a in
      let (later, absent) =
        reset_loop-Reaches now rest l1 ds.1 (reset_step-HasMaps c st actions now l a m) in
      elim (Bool-cases (text_eq a b)) [
        | inl same ↦
            let eq : a ≡ b = (text_eq_iff a b).0 same in
            let none_left = subst (λ x. text_elem x rest ≡ false) eq ds.0 in
            (
              (λ e. Reaches-to _ _ _ _ _ (sym (absent none_left)) (
                  subst
                    (λ x.
                      Reaches 0 1 (view c d st b l.world)
                        (view c d st b (reset_step c st actions now l x).world))
                    (sym eq) (reset_step-Reaches now l m.resets))),
              (λ e. ground (arith, same, e)),
            )
        | inr ne ↦
            let kept = reset_step_other-view now a l ne in
            (
              (λ e.
                  subst
                    (λ v. Reaches 0 1 v (view c d st b (reset_loop c st actions now rest l1).world))
                    kept (later (ground (arith, ne, e)))),
              (λ e. absent (ground (arith, ne, e)) ∙ kept),
            )
      ]

  finish_reset-view :
      (l : Resetting c.Server) → view c d st b (finish_reset c st actions l) ≡ view c d st b l.world
  unfolding finish_reset note_ok
  finish_reset-view l = View-eq _ _ _ _ _ _ (ground arith) (ground arith) (ground arith)

  module _ (whole : IsLedger c d) (to_lower : Text → Text) where
    pub reset_counters-Reaches :
        (lines : List Text) (init_now flush_now now : Time) (w : World c.Server)
        → Distinct actions
        → text_elem b actions ≡ true
        → IsValid to_lower w.cnt
        → w.cnt.lines < 2 ^ 64
        → get64 b w.cnt.pending < 2 ^ 63
        → HasMaps w
        → let w' =
            reset_counters c st actions
              (λ n. process_lines to_lower n lines)
              init_now
              flush_now
              now
              w in
          Reaches (hits to_lower w.cnt b lines) 1 (view c d st b w) (view c d st b w')
    unfolding reset_counters
    reset_counters-Reaches lines init_now flush_now now w ds el v n f m =
        let meanwhile = λ (x : Counter). process_lines to_lower x lines in
        let l : Resetting c.Server = record {
          world = flush c st actions meanwhile init_now flush_now w;
          errs = 0;
          unreachable = false;
        } in
        let h = hits to_lower w.cnt b lines in
        let flushed =
          flush-Reaches c d st actions whole b to_lower lines init_now flush_now w ds el v n f m in
        let (each, _) =
          reset_loop-Reaches now actions l ds
            (flush-HasMaps c st actions meanwhile init_now flush_now w m) in
        Reaches-to _ _ _ _ _ (sym (finish_reset-view (reset_loop c st actions now actions l)))
          (Reaches-lines _ _ _ _ _ (omega arith) (Reaches-append h 0 0 1 _ _ _ flushed (each el)))
