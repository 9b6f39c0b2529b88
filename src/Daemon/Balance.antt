-- ===== src/Daemon/Balance.antt =====
-- A flush, as to the sum of an action's total in Redis and of what is buffered for it.
pub mod Loop
use logstat.Prelude.{
  ap, ◌^◌, ◌<◌, ◌≡◌, refl, ◌∙◌, true, false, List, [], ◌∷◌, arith, inl, inr, Bool-cases,
  if◌then◌else◌,
}
use logstat.Text.{Text, text_eq, text_eq_iff, text_elem, Distinct}
use logstat.Int64.{Int64, add64, add64_zeros, is_positive}
use logstat.Dict.{Dict, IsMap, insert-IsMap}
use logstat.Dict.Totals.{Fits, get64, get64-insert, get64-nil, get64-add_all}
use logstat.Counter.{Counter, IsValid, process_lines, restore, drain}
use logstat.Counter.Buffer.{hits, process_lines-drain, process_lines_totals}
use logstat.Counter.Totals.{restore_lem, drain_lem}
use logstat.Store.Redis.{Client, Books, IsLedger}
use logstat.Store.Keys.{Time}
use logstat.Store.{Store, init}
use logstat.Store.Effects.{total}
use logstat.Store.Effects.Init.{total-touch, total-init}
use logstat.Daemon.{World, reset_due, note_error, note_ok}
use logstat.Daemon.Flush.{
  Outcome, Flushing, ensure_init, refresh_ttl, flush_action, settle, flush_step, flush_loop,
  finish_flush, flush_idle, flush_drained, flush,
}
use logstat.Daemon.Keeping.{Written, flush_action-Written}
use logstat.Daemon.Balance.Loop.{account, Kept, flush_loop-Kept, account-flush_loop}

added_later : (n m : Int64) → add64 (add64 (add64 n 0) 0) m ≡ add64 n m
unfolding add64
added_later n m = omega arith

added_last :
    (n m k : Int64)
    → (add64 (add64 n m) (add64 0 k) ≡ add64 (add64 n m) k)
      × (add64 n (add64 m k) ≡ add64 (add64 n m) k)
unfolding add64
added_last n m k = (omega arith, omega arith)

module _ (c : Client) (d : Books c) (st : Store) (actions : List Text) (whole : IsLedger c d) where
  pub refresh_ttl_keeps :
      (w : World c.Server) (b : Text)
      → let w' = (refresh_ttl c st actions w).1 in
        (w'.cnt ≡ w.cnt)
        × (w'.pending_resets ≡ w.pending_resets)
        × (total c d st w'.server b ≡ total c d st w.server b)
  unfolding refresh_ttl note_error
  refresh_ttl_keeps w b = ground (arith, total-touch c d st actions w.server b)

  pub ensure_init_keeps :
      (init_now : Time) (w : World c.Server) (b : Text)
      → let w' = (ensure_init c st actions init_now w).1 in
        (w'.cnt ≡ w.cnt)
        × (w'.pending_resets ≡ w.pending_resets)
        × (total c d st w'.server b ≡ total c d st w.server b)
  unfolding ensure_init note_error note_ok
  ensure_init_keeps now w b = ground (
    arith,
    total-init c d st actions now w.server b,
    total-touch c d st actions (init c st actions now w.server).1 b,
  )

  -- The lines of an action that are in Redis or wait for it.
  unfoldable pub counted_lines : World c.Server → Text → Int64
  counted_lines w b = add64 (total c d st w.server b) (get64 b w.cnt.pending)

  pub restored :
      (b : Text) (l : Flushing c.Server)
      → Fits l.world.cnt.pending
      → IsMap l.unwritten
      → get64 b (restore l.unwritten l.world.cnt).pending
        ≡ add64 (get64 b l.world.cnt.pending) (get64 b l.unwritten)
  restored b l f m =
      rw (restore_lem l.unwritten l.world.cnt, get64-add_all b l.unwritten l.world.cnt.pending m f)
        refl

  finish_flush-account :
      (b : Text) (l : Flushing c.Server)
      → Fits l.world.cnt.pending
      → IsMap l.unwritten
      → counted_lines (finish_flush c st actions l) b
        ≡ add64 (account c d st actions whole b l) (get64 b l.world.cnt.pending)
  unfolding finish_flush counted_lines account note_ok add64
  finish_flush-account b l e m = ground (
    arith,
    restored b l e m,
    refresh_ttl_keeps (record l.world { cnt = restore l.unwritten l.world.cnt }) b,
  )

  flush_drained-account :
      (now : Time) (deltas : Dict Int64) (w : World c.Server) (b : Text)
      → Distinct actions
      → text_elem b actions ≡ true
      → reset_due w.pending_resets b ≡ false
      → get64 b deltas < 2 ^ 63
      → Fits w.cnt.pending
      → counted_lines (flush_drained c st actions now deltas w) b
        ≡ add64 (add64 (total c d st w.server b) (get64 b deltas)) (get64 b w.cnt.pending)
  unfolding flush_drained flush_idle account counted_lines note_ok
  flush_drained-account now deltas w b ds el h f p =
      let l : Flushing c.Server = record {
        world = w;
        unwritten = [];
        written = 0;
        errs = 0;
        unreachable = false;
      } in
      let k = flush_loop-Kept c d st actions whole now deltas b actions l h in
      let done = flush_loop c st actions now deltas actions l in
      ground (
        arith,
        el,
        h,
        get64-nil b,
        refresh_ttl_keeps w b,
        finish_flush-account b done (rw k.cnt p) (k.unwritten_IsMap tt),
        account-flush_loop c d st actions whole now deltas b actions l ds h f (λ _. get64-nil b),
        k.cnt,
        add64_zeros (total c d st w.server b) (get64 b deltas),
        added_later (total c d st w.server b) (get64 b w.cnt.pending),
      )

  module _ (to_lower : Text → Text) where
    pub flush_keeps_lines :
        (lines : List Text) (init_now now : Time) (w : World c.Server) (b : Text)
        → Distinct actions
        → text_elem b actions ≡ true
        → IsValid to_lower w.cnt
        → w.cnt.lines < 2 ^ 64
        → reset_due w.pending_resets b ≡ false
        → get64 b w.cnt.pending < 2 ^ 63
        → let meanwhile = λ (n : Counter). process_lines to_lower n lines in
          counted_lines (flush c st actions meanwhile init_now now w) b
          ≡ add64 (counted_lines w b) (hits to_lower w.cnt b lines)
    unfolding flush counted_lines
    flush_keeps_lines lines init_now now w b ds el v n h f =
        let w1 = (ensure_init c st actions init_now w).1 in
        let deltas = (drain w1.cnt).0 in
        let later = process_lines to_lower (drain w1.cnt).1 lines in
        let w2 : World c.Server = record w1 { cnt = later } in
        let (kept, resets, totals) = ensure_init_keeps init_now w b in
        let (undrained, _, _) =
          process_lines_totals to_lower w1.cnt lines b (rw kept v) (rw kept n) in
        let (new, valid) = process_lines-drain to_lower w1.cnt lines b (rw kept v) (rw kept n) in
        ground (
          arith,
          el,
          h,
          f,
          kept,
          resets,
          totals,
          undrained,
          new,
          drain_lem w1.cnt,
          flush_drained-account now deltas w2 b ds el,
          valid.pending_Fits,
          added_last (total c d st w.server b) (get64 b w.cnt.pending)
              (hits to_lower w.cnt b lines),
        )
