-- ===== src/Daemon/Machine/Loop.antt =====
-- The loop of a flush, as moves of the machine of one action.
use mathlib.Core.Path.{subst}
use logstat.Prelude.{
  ◌^◌, ◌<◌, ◌≡◌, refl, sym, ◌∙◌, ap, true, false, List, [], ◌∷◌, none, arith, inl, inr, Bool-cases,
}
use logstat.Text.{Text, text_eq, text_eq_iff, text_elem, Distinct}
use logstat.Int64.{Int64, add64}
use logstat.Dict.{Dict, IsMap, erase}
use logstat.Dict.Totals.{get64, get64-insert}
use logstat.Store.Redis.{Client, Books, IsLedger}
use logstat.Store.Keys.{Time}
use logstat.Store.{Store, reset}
use logstat.Store.Effects.{total}
use logstat.Daemon.{World, reset_due, note_error}
use logstat.Daemon.Flush.{Outcome, Flushing, flush_action, settle, flush_step, flush_loop}
use logstat.Daemon.Keeping.{write_delta-Written}
use logstat.Daemon.Balance.Loop.{not_positive}
use logstat.Daemon.Recovery.Maps.{HasMaps, flush_step-HasMaps}
use logstat.Daemon.Machine.{View, Reaches, Reaches-none, Reaches-to, View-eq, view_of}
use logstat.Daemon.Machine.Write.{given_back, flush_action-Reaches, flush_action_other}

module _ (c : Client) (d : Books c) (st : Store) (actions : List Text) (whole : IsLedger c d)
    (b : Text) where
  flush_action_kept :
      (a : Text) (delta : Int64) (now : Time) (w : World c.Server)
      → let o = (flush_action c st actions a delta now w).0 in
        o.error ≡ none → o.retry_delta ≡ false
  unfolding flush_action
  flush_action_kept a delta now w =
      let w1 : World c.Server = record w {
        server = (reset c st a now w.server).1;
        pending_resets = erase a w.pending_resets;
        pending_heartbeats = erase a w.pending_heartbeats;
      } in
      ground (
        arith,
        write_delta-Written c d st actions whole a a delta now w,
        write_delta-Written c d st actions whole a a delta now w1,
      )

  settle_world :
      (a : Text) (delta : Int64) (l : Flushing c.Server) (o : Outcome) (w : World c.Server)
      → let w' = (settle c st actions a delta l o w).world in
        (w'.server ≡ w.server) × (w'.pending_resets ≡ w.pending_resets)
  unfolding settle note_error
  settle_world a delta l o w = ground arith

  settle_returns :
      (delta : Int64) (l : Flushing c.Server) (o : Outcome) (w : World c.Server)
      → get64 b l.unwritten ≡ 0
      → (o.error ≡ none → o.retry_delta ≡ false)
      → get64 b (settle c st actions b delta l o w).unwritten ≡ given_back o delta
  unfolding settle
  settle_returns delta l o w e k =
      ground (arith, e, k, get64-insert b b delta l.unwritten, text_eq_iff b b)

  settle_other :
      (a : Text) (delta : Int64) (l : Flushing c.Server) (o : Outcome) (w : World c.Server)
      → text_eq a b ≡ false
      → get64 b (settle c st actions a delta l o w).unwritten ≡ get64 b l.unwritten
  unfolding settle
  settle_other a delta l o w ne = ground (arith, ne, get64-insert a b delta l.unwritten)

  -- The action in the loop, where q lines wait beside those of the flush.
  abbrev pub view_in : Int64 → Flushing c.Server → View
  view_in q l = view_of c d st b l.world (add64 q (get64 b l.unwritten))

  -- Before its turn, where delta lines of the flush wait.
  abbrev pub view_before : Int64 → Int64 → Flushing c.Server → View
  view_before q delta l = view_of c d st b l.world (add64 q delta)

  flush_step_down :
      (now : Time) (deltas : Dict Int64) (l : Flushing c.Server)
      → get64 b l.unwritten ≡ 0
      → get64 b deltas < 2 ^ 63
      → l.unreachable ≡ true
      → let l' = flush_step c st actions now deltas l b in
        (l'.world ≡ l.world) × (get64 b l'.unwritten ≡ get64 b deltas)
  unfolding flush_step
  flush_step_down now deltas l e f down = ground (
    arith,
    down,
    e,
    get64-insert b b (get64 b deltas) l.unwritten,
    text_eq_iff b b,
    not_positive (get64 b deltas) f,
  )

  flush_step_up :
      (now : Time) (deltas : Dict Int64) (l : Flushing c.Server)
      → get64 b l.unwritten ≡ 0
      → l.unreachable ≡ false
      → let (o, w) = flush_action c st actions b (get64 b deltas) now l.world in
        let l' = flush_step c st actions now deltas l b in
        (l'.world.server ≡ w.server)
        × (l'.world.pending_resets ≡ w.pending_resets)
        × (get64 b l'.unwritten ≡ given_back o (get64 b deltas))
  unfolding flush_step
  flush_step_up now deltas l e up =
      let delta = get64 b deltas in
      let (o, w) = flush_action c st actions b delta now l.world in
      ground (
        arith,
        up,
        settle_world b delta l o w,
        settle_returns delta l o w e (flush_action_kept b delta now l.world),
      )

  flush_step_self :
      (now : Time) (deltas : Dict Int64) (q : Int64) (l : Flushing c.Server)
      → IsMap l.world.pending_resets
      → get64 b l.unwritten ≡ 0
      → get64 b deltas < 2 ^ 63
      → Reaches 0 0
          (view_before q (get64 b deltas) l)
          (view_in q (flush_step c st actions now deltas l b))
  flush_step_self now deltas q l m e f = elim (Bool-cases l.unreachable) [
    | inl down ↦
        let (same, back) = flush_step_down now deltas l e f down in
        Reaches-none _ _ (rw (same, back) refl)
    | inr up ↦
        let (server, resets, back) = flush_step_up now deltas l e up in
        Reaches-to _ _ _ _ _
          (View-eq _ _ _ _ _ _ (ap (λ s. total c d st s b) (sym server)) (ap (add64 q) (sym back))
            (ap (λ m. reset_due m b) (sym resets)))
          (flush_action-Reaches c d st actions whole b (get64 b deltas) q now l.world m f)
  ]

  flush_step_other :
      (now : Time) (deltas : Dict Int64) (a : Text) (l : Flushing c.Server)
      → text_eq a b ≡ false
      → let l' = flush_step c st actions now deltas l a in
        (total c d st l'.world.server b ≡ total c d st l.world.server b)
        × (reset_due l'.world.pending_resets b ≡ reset_due l.world.pending_resets b)
        × (get64 b l'.unwritten ≡ get64 b l.unwritten)
  unfolding flush_step
  flush_step_other now deltas a l ne =
      let delta = get64 a deltas in
      let (o, w) = flush_action c st actions a delta now l.world in
      ground (
        arith,
        ne,
        flush_action_other c d st actions whole a b delta now l.world ne,
        settle_world a delta l o w,
        settle_other a delta l o w ne,
        get64-insert a b delta l.unwritten,
      )

  -- Over the actions that are left, of which none stands twice, the writes for an action are made
  -- once if it is one of them, and else not.
  pub flush_loop-Reaches :
      (now : Time) (deltas : Dict Int64) (q : Int64) (rest : List Text) (l : Flushing c.Server)
      → Distinct rest
      → HasMaps l.world
      → get64 b deltas < 2 ^ 63
      → let l' = flush_loop c st actions now deltas rest l in
        (text_elem b rest ≡ true
          → get64 b l.unwritten ≡ 0
          → Reaches 0 0 (view_before q (get64 b deltas) l) (view_in q l'))
        × (text_elem b rest ≡ false → view_in q l' ≡ view_in q l)
  unfolding flush_loop text_elem
  flush_loop-Reaches now deltas q [] l ds m f = (λ e. cc, λ e. refl)
  flush_loop-Reaches now deltas q (a ∷ rest) l ds m f =
      let l1 = flush_step c st actions now deltas l a in
      let (later, absent) =
        flush_loop-Reaches now deltas q rest l1 ds.1
          (flush_step-HasMaps c st actions now deltas l a m) f in
      elim (Bool-cases (text_eq a b)) [
        | inl same ↦
            let eq : a ≡ b = (text_eq_iff a b).0 same in
            let none_left : text_elem b rest ≡ false =
              subst (λ x. text_elem x rest ≡ false) eq ds.0 in
            let turn = flush_step_self now deltas q l m.resets in
            (
              (λ e z. Reaches-to _ _ _ _ _ (sym (absent none_left)) (
                  subst
                    (λ x.
                      Reaches 0 0 (view_before q (get64 b deltas) l)
                        (view_in q (flush_step c st actions now deltas l x)))
                    (sym eq) (turn z f))),
              (λ e. ground (arith, same, e)),
            )
        | inr ne ↦
            let (t, u, back) = flush_step_other now deltas a l ne in
            (
              (λ e z.
                  subst
                    (λ v. Reaches 0 0 v (view_in q (flush_loop c st actions now deltas rest l1)))
                    (View-eq _ _ _ _ _ _ t refl u) (later (ground (arith, ne, e)) (back ∙ z))),
              (λ e. absent (ground (arith, ne, e)) ∙ View-eq _ _ _ _ _ _ t (ap (add64 q) back) u),
            )
      ]
