-- ===== src/Daemon/Machine/Flush.antt =====
-- A flush, as moves of the machine of one action.
use mathlib.Core.Path.{subst}
use logstat.Prelude.{
  ◌^◌, ◌<◌, ◌≡◌, refl, sym, ◌∙◌, ap, true, ◌&&◌, List, [], ◌∷◌, arith, inl, inr, Bool-cases,
  and_left,
}
use logstat.Text.{Text, text_elem, Distinct}
use logstat.Int64.{Int64, add64, add64_zero}
use logstat.Dict.{Dict, IsMap}
use logstat.Dict.Totals.{Fits, get64, get64-nil, get64-lt}
use logstat.Counter.{IsValid, process_lines, restore, drain}
use logstat.Counter.Buffer.{hits, process_lines-drain, process_lines_totals}
use logstat.Counter.Totals.{drain_lem}
use logstat.Store.Redis.{Client, Books, IsLedger}
use logstat.Store.Keys.{Time}
use logstat.Store.{Store}
use logstat.Store.Effects.{total}
use logstat.Daemon.{World, reset_due, note_ok}
use logstat.Daemon.Flush.{
  Flushing, ensure_init, flush_loop, finish_flush, is_empty, flush_idle, flush_drained, flush,
}
use logstat.Daemon.Balance.{refresh_ttl_keeps, ensure_init_keeps, restored}
use logstat.Daemon.Run.Counting.{start_loop, flush_loop-cnt}
use logstat.Daemon.Recovery.Maps.{HasMaps, ensure_init_maps, same-HasMaps}
use logstat.Daemon.Machine.{
  Reaches, Reaches-counted, Reaches-none, Reaches-to, View-eq, view_of, view,
}
use logstat.Daemon.Machine.Loop.{view_in, flush_loop-Reaches}

nothing_waits : (b : Text) (deltas : Dict Int64) → is_empty deltas ≡ true → get64 b deltas ≡ 0
nothing_waits b [] e = get64-nil b
nothing_waits b (_ ∷ _) e = cc

two_sums : (n m : Int64) → add64 (add64 0 n) m ≡ add64 m n
unfolding add64
two_sums n m = omega arith

module _ (c : Client) (d : Books c) (st : Store) (actions : List Text) (whole : IsLedger c d)
    (b : Text) where
  finish_flush-view :
      (l : Flushing c.Server)
      → Fits l.world.cnt.pending
      → IsMap l.unwritten
      → view c d st b (finish_flush c st actions l)
        ≡ view_in c d st actions whole b (get64 b l.world.cnt.pending) l
  unfolding finish_flush note_ok
  finish_flush-view l f m =
      let w : World c.Server = record l.world { cnt = restore l.unwritten l.world.cnt } in
      let kept = refresh_ttl_keeps c d st actions whole w b in
      View-eq _ _ _ _ _ _ (ground (arith, kept))
        (ground (arith, kept, restored c d st actions whole b l f m)) (ground (arith, kept))

  flush_idle-view :
      (w : World c.Server) → view c d st b (flush_idle c st actions w) ≡ view c d st b w
  unfolding flush_idle note_ok
  flush_idle-view w =
      let kept = refresh_ttl_keeps c d st actions whole w b in
      View-eq _ _ _ _ _ _ (ground (arith, kept)) (ground (arith, kept)) (ground (arith, kept))

  -- What a flush that has this increment for the action reaches.
  abbrev Reached : World c.Server → Int64 → World c.Server → Type 0
  Reached w delta w' =
      Reaches 0 0 (view_of c d st b w (add64 (get64 b w.cnt.pending) delta)) (view c d st b w')

  flush_loop-Reached :
      (now : Time) (deltas : Dict Int64) (w : World c.Server)
      → Distinct actions
      → text_elem b actions ≡ true
      → HasMaps w
      → get64 b deltas < 2 ^ 63
      → Fits w.cnt.pending
      → Reached w (get64 b deltas) (
          finish_flush c st actions
            (flush_loop c st actions now deltas actions (start_loop c d st actions whole w)))
  flush_loop-Reached now deltas w ds el m f p =
      let l = start_loop c d st actions whole w in
      let l' = flush_loop c st actions now deltas actions l in
      let (same, maps) = flush_loop-cnt c d st actions whole now deltas actions l in
      let q = get64 b w.cnt.pending in
      let (writes, _) = flush_loop-Reaches c d st actions whole b now deltas q actions l ds m f in
      let ended = finish_flush-view l' (subst (λ n. Fits n.pending) (sym same) p) (maps tt) in
      Reaches-to _ _ _ _ _
        (sym (ended ∙ ap (λ n. view_in c d st actions whole b (get64 b n.pending) l') same))
        (writes el (get64-nil b))

  flush_drained-Reached :
      (now : Time) (deltas : Dict Int64) (w : World c.Server)
      → Distinct actions
      → text_elem b actions ≡ true
      → HasMaps w
      → get64 b deltas < 2 ^ 63
      → Fits w.cnt.pending
      → Reached w (get64 b deltas) (flush_drained c st actions now deltas w)
  unfolding flush_drained
  flush_drained-Reached now deltas w ds el m f p =
      let quiet = is_empty w.pending_heartbeats && is_empty w.pending_resets in
      elim (Bool-cases (is_empty deltas && quiet)) [
        | inl e ↦
            let q = get64 b w.cnt.pending in
            let zero = nothing_waits b deltas (and_left (is_empty deltas) quiet e) in
            Reaches-none _ _ (
              View-eq _ _ _ _ _ _ refl
                (ap (add64 q) zero ∙ add64_zero q (get64-lt b w.cnt.pending p)) refl
              ∙ rw (flush_drained, e) (sym (flush_idle-view w)))
        | inr e ↦ rw (flush_drained, e) (flush_loop-Reached now deltas w ds el m f p)
      ]

  module _ (to_lower : Text → Text) where
    -- Lines that are only counted.
    pub counted-Reaches :
        (lines : List Text) (w w' : World c.Server)
        → IsValid to_lower w.cnt
        → w.cnt.lines < 2 ^ 64
        → w'.cnt ≡ process_lines to_lower w.cnt lines
        → total c d st w'.server b ≡ total c d st w.server b
        → w'.pending_resets ≡ w.pending_resets
        → Reaches (hits to_lower w.cnt b lines) 0 (view c d st b w) (view c d st b w')
    counted-Reaches lines w w' v n e t r =
        let (p, _, _) = process_lines_totals to_lower w.cnt lines b v n in
        Reaches-counted _ _ _ _
          (View-eq _ _ _ _ _ _ (sym t) (sym (ap (λ x. get64 b x.pending) e ∙ p))
            (ap (λ x. reset_due x b) (sym r)))
          (Reaches-none _ _ refl)

    flush_drains-Reaches :
        (lines : List Text) (now : Time) (w w1 w' : World c.Server)
        → Distinct actions
        → text_elem b actions ≡ true
        → IsValid to_lower w.cnt
        → w.cnt.lines < 2 ^ 64
        → get64 b w.cnt.pending < 2 ^ 63
        → HasMaps w1
        → w1.cnt ≡ process_lines to_lower (drain w.cnt).1 lines
        → total c d st w1.server b ≡ total c d st w.server b
        → w1.pending_resets ≡ w.pending_resets
        → w' ≡ flush_drained c st actions now w.cnt.pending w1
        → Reaches (hits to_lower w.cnt b lines) 0 (view c d st b w) (view c d st b w')
    flush_drains-Reaches lines now w w1 w' ds el v n f m e t r k =
        let (p, valid) = process_lines-drain to_lower w.cnt lines b v n in
        let q = get64 b w.cnt.pending in
        let h = hits to_lower w.cnt b lines in
        let waiting : add64 (get64 b w1.cnt.pending) q ≡ add64 q h =
          ap (λ x. add64 (get64 b x.pending) q) e ∙ ap (λ x. add64 x q) p ∙ two_sums h q in
        let fits = subst (λ x. Fits x.pending) (sym e) valid.pending_Fits in
        subst (λ x. Reaches h 0 (view c d st b w) (view c d st b x)) (sym k)
          (Reaches-counted _ _ _ _
            (View-eq _ _ _ _ _ _ (sym t) (sym waiting) (ap (λ x. reset_due x b) (sym r)))
            (flush_drained-Reached now w.cnt.pending w1 ds el m f fits))

    pub flush-Reaches :
        (lines : List Text) (init_now now : Time) (w : World c.Server)
        → Distinct actions
        → text_elem b actions ≡ true
        → IsValid to_lower w.cnt
        → w.cnt.lines < 2 ^ 64
        → get64 b w.cnt.pending < 2 ^ 63
        → HasMaps w
        → let w' = flush c st actions (λ n. process_lines to_lower n lines) init_now now w in
          Reaches (hits to_lower w.cnt b lines) 0 (view c d st b w) (view c d st b w')
    unfolding flush
    flush-Reaches lines init_now now w ds el v n f m =
        let w1 = (ensure_init c st actions init_now w).1 in
        let (kept, resets, totals) = ensure_init_keeps c d st actions whole init_now w b in
        let maps = same-HasMaps c st actions w w1 (ensure_init_maps c st actions init_now w) m in
        elim (Bool-cases (ensure_init c st actions init_now w).0) [
          | inl e ↦
              let w2 : World c.Server = record w1 {
                cnt = process_lines to_lower (drain w.cnt).1 lines;
              } in
              flush_drains-Reaches lines now w w2
                (flush c st actions (λ x. process_lines to_lower x lines) init_now now w) ds el v n
                f (record { resets = maps.resets; heartbeats = maps.heartbeats }) refl totals resets
                (rw (e, kept, (drain_lem w.cnt).0) refl)
          | inr e ↦
              counted-Reaches lines w
                (flush c st actions (λ x. process_lines to_lower x lines) init_now now w) v n
                (rw (e, kept) refl) (rw e totals) (rw e resets)
        ]
