-- ===== src/Daemon/Run/Conserved.antt =====
-- What a run keeps of an action's lines, in Redis and in the buffer, from one world to a later one.
use logstat.Prelude.{
  ℕ, ap, ◌^◌, ◌<◌, ◌≤◌, ◌+◌, ◌≡◌, refl, ◌∙◌, true, false, List, ◌++◌, arith, ◌⊎◌, inl, inr,
  Bool-cases, length, length-append,
}
use logstat.Text.{Text, text_elem, Distinct}
use logstat.Int64.{Int64, add64, add64-lt}
use logstat.Dict.{Dict, IsMap}
use logstat.Dict.Totals.{Fits, get64, get64-add_all}
use logstat.Counter.{Counter, IsValid, process_lines, drain, restore}
use logstat.Counter.Totals.{drain_lem, drain-IsValid, restore_lem, restore-IsValid}
use logstat.Counter.Buffer.{
  hits, process_lines-IsValid, process_lines_totals, process_lines-drain, hits-same,
  process_lines-mode, hits-append, hits-le,
}
use logstat.Store.Redis.{Client, Books, IsLedger}
use logstat.Store.Keys.{Time}
use logstat.Store.{Store}
use logstat.Daemon.{World, reset_due}
use logstat.Daemon.Flush.{ensure_init, flush}
use logstat.Daemon.Balance.{ensure_init_keeps, counted_lines, flush_keeps_lines}
use logstat.Daemon.Run.Counting.{Returned, flush_drained-Returned, flush_drained_due}

pub add64_twice : (x n m k : ℕ) → k ≡ n + m → add64 (add64 x n) m ≡ add64 x k
unfolding add64
add64_twice x n m k e = omega (arith, e)

small_sum : (n m k : ℕ) → m ≤ k → add64 (add64 0 m) n ≤ n + k
unfolding add64
small_sum n m k h = omega (arith, h)

pub small_sum_right : (n m k : ℕ) → m ≤ k → add64 n m ≤ n + k
unfolding add64
small_sum_right n m k h = omega (arith, h)

-- What a counter has in the buffer for an action after a flush gave back nothing, or the whole.
returned_bound :
    (b : Text) (u : Dict Int64) (old m k : ℕ) (n : Counter)
    → IsMap u
    → Fits n.pending
    → get64 b n.pending ≡ add64 0 m
    → m ≤ k
    → (get64 b u ≡ 0) ⊎ (get64 b u ≡ old)
    → get64 b (restore u n).pending ≤ old + k
returned_bound b u old m k n map fits e h r =
    rw (restore_lem u n, get64-add_all b u n.pending map fits, e)
      (ground (arith, r, small_sum old m k h, small_sum 0 m k h))

module _ (to_lower : Text → Text) (c : Client) (d : Books c) (st : Store) (actions : List Text)
    (whole : IsLedger c d) (b : Text) where
  abbrev pub lines_of_action : World c.Server → Int64
  lines_of_action w = counted_lines c d st actions whole w b

  -- The counter after these lines, of which a flush may have written any.
  pub record Counted (lines : List Text) (n n' : Counter) : Type 0 where
    pub valid : IsValid to_lower n'
    pub number : n'.lines < 2 ^ 64
    pub bound : get64 b n'.pending ≤ get64 b n.pending + length lines
    pub same_actions : n'.actions ≡ n.actions
    pub same_mode : n'.case_sensitive ≡ n.case_sensitive

  -- From w to w' these lines were read, and each that counts the action was counted once.
  pub record Conserved (lines : List Text) (w w' : World c.Server) : Type 0 where
    pub grown : lines_of_action w' ≡ add64 (lines_of_action w) (hits to_lower w.cnt b lines)
    pub valid : IsValid to_lower w'.cnt
    pub number : w'.cnt.lines < 2 ^ 64
    pub due : reset_due w'.pending_resets b ≡ false
    pub bound : get64 b w'.cnt.pending ≤ get64 b w.cnt.pending + length lines
    pub same_actions : w'.cnt.actions ≡ w.cnt.actions
    pub same_mode : w'.cnt.case_sensitive ≡ w.cnt.case_sensitive

  pub Conserved-append :
      (lines more : List Text) (w w1 w2 : World c.Server)
      → Conserved lines w w1
      → Conserved more w1 w2
      → Conserved (lines ++ more) w w2
  Conserved-append lines more w w1 w2 p q = record {
    grown =
        q.grown
        ∙ rw (p.grown, hits-same to_lower w.cnt w1.cnt b more p.same_actions p.same_mode)
            (add64_twice (lines_of_action w) (hits to_lower w.cnt b lines)
              (hits to_lower w.cnt b more) (hits to_lower w.cnt b (lines ++ more))
              (hits-append to_lower w.cnt b lines more));
    valid = q.valid;
    number = q.number;
    due = q.due;
    bound = omega (arith, p.bound, q.bound, length-append lines more);
    same_actions = q.same_actions ∙ p.same_actions;
    same_mode = q.same_mode ∙ p.same_mode;
  }

  flush_restored :
      (lines : List Text) (init_now now : Time) (w : World c.Server)
      → let w' = flush c st actions (λ n. process_lines to_lower n lines) init_now now w in
        (w'.cnt ≡ process_lines to_lower w.cnt lines)
        ⊎ Returned c d st actions whole b w.cnt.pending
            (process_lines to_lower (drain w.cnt).1 lines)
            w'.cnt
  unfolding flush
  flush_restored lines init_now now w =
      let w1 = (ensure_init c st actions init_now w).1 in
      let (kept, _, _) = ensure_init_keeps c d st actions whole init_now w b in
      elim (Bool-cases (ensure_init c st actions init_now w).0) [
        | inl e ↦
            let w2 : World c.Server = record w1 {
              cnt = process_lines to_lower (drain w.cnt).1 lines;
            } in
            rw (e, kept, (drain_lem w.cnt).0)
              (inr (flush_drained-Returned c d st actions whole now w.cnt.pending w2 b))
        | inr e ↦ rw (e, kept) (inl refl)
      ]

  flush_due :
      (lines : List Text) (init_now now : Time) (w : World c.Server)
      → reset_due w.pending_resets b ≡ false
      → let w' = flush c st actions (λ n. process_lines to_lower n lines) init_now now w in
        reset_due w'.pending_resets b ≡ false
  unfolding flush
  flush_due lines init_now now w h =
      let w1 = (ensure_init c st actions init_now w).1 in
      let (deltas, cnt) = drain w1.cnt in
      let w2 : World c.Server = record w1 { cnt = process_lines to_lower cnt lines } in
      ground (
        arith,
        h,
        ensure_init_keeps c d st actions whole init_now w b,
        flush_drained_due c d st actions whole now deltas w2 b,
      )

  Returned-mode :
      (deltas : Dict Int64) (n n' : Counter)
      → Returned c d st actions whole b deltas n n'
      → IsValid to_lower n
      → IsValid to_lower n'
        × (n'.lines ≡ n.lines)
        × (n'.actions ≡ n.actions)
        × (n'.case_sensitive ≡ n.case_sensitive)
  Returned-mode deltas n n' r v =
      let e = r.after_restored in
      let f = restore_lem r.unwritten n in
      (
        rw e (restore-IsValid to_lower r.unwritten n v),
        ap (λ m. m.lines) (e ∙ f),
        ap (λ m. m.actions) (e ∙ f),
        ap (λ m. m.case_sensitive) (e ∙ f),
      )

  pub process_lines-Counted :
      (lines : List Text) (n n' : Counter)
      → IsValid to_lower n
      → n.lines < 2 ^ 64
      → n' ≡ process_lines to_lower n lines
      → Counted lines n n'
  process_lines-Counted lines n n' v k e =
      let (p, _, l) = process_lines_totals to_lower n lines b v k in
      let (acts, mode) = process_lines-mode to_lower n lines in
      record {
        valid = rw e (process_lines-IsValid to_lower n lines v);
        number = rw (e, l) (add64-lt n.lines (length lines));
        bound =
            rw (e, p)
              (small_sum_right (get64 b n.pending) (hits to_lower n b lines) (length lines)
                (hits-le to_lower n b lines));
        same_actions = ap (λ m. m.actions) e ∙ acts;
        same_mode = ap (λ m. m.case_sensitive) e ∙ mode;
      }

  pub flush-Counted :
      (lines : List Text) (init_now now : Time) (w : World c.Server)
      → IsValid to_lower w.cnt
      → w.cnt.lines < 2 ^ 64
      → let w' = flush c st actions (λ n. process_lines to_lower n lines) init_now now w in
        Counted lines w.cnt w'.cnt
  flush-Counted lines init_now now w v n =
      let few = hits-le to_lower w.cnt b lines in
      elim (flush_restored lines init_now now w) [
        | inl e ↦ process_lines-Counted lines w.cnt _ v n e
        | inr r ↦
            let fresh = (drain w.cnt).1 in
            let later = process_lines to_lower fresh lines in
            let (p, valid) = process_lines-drain to_lower w.cnt lines b v n in
            let (acts, mode) = process_lines-mode to_lower fresh lines in
            let (_, _, l) =
              process_lines_totals to_lower fresh lines b (drain-IsValid to_lower w.cnt v)
                (rw (drain_lem w.cnt).1 n) in
            let (valid', number, acts', mode') = Returned-mode w.cnt.pending later _ r valid in
            record {
              valid = valid';
              number = rw (number, l) (add64-lt fresh.lines (length lines));
              bound = rw r.after_restored (
                  returned_bound b r.unwritten (get64 b w.cnt.pending) (hits to_lower w.cnt b lines)
                    (length lines) later r.unwritten_IsMap valid.pending_Fits p few
                    r.whole_or_none);
              same_actions = acts' ∙ acts ∙ ap (λ m. m.actions) (drain_lem w.cnt).1;
              same_mode = mode' ∙ mode ∙ ap (λ m. m.case_sensitive) (drain_lem w.cnt).1;
            }
      ]

  pub flush-Conserved :
      (lines : List Text) (init_now now : Time) (w : World c.Server)
      → Distinct actions
      → text_elem b actions ≡ true
      → IsValid to_lower w.cnt
      → w.cnt.lines < 2 ^ 64
      → reset_due w.pending_resets b ≡ false
      → get64 b w.cnt.pending < 2 ^ 63
      → Conserved lines w (flush c st actions (λ n. process_lines to_lower n lines) init_now now w)
  flush-Conserved lines init_now now w ds el v n h f =
      let k = flush-Counted lines init_now now w v n in
      record {
        grown =
            flush_keeps_lines c d st actions whole to_lower lines init_now now w b ds el v n h f;
        valid = k.valid;
        number = k.number;
        due = flush_due lines init_now now w h;
        bound = k.bound;
        same_actions = k.same_actions;
        same_mode = k.same_mode;
      }
