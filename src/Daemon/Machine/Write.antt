-- ===== src/Daemon/Machine/Write.antt =====
-- The writes of one action, as moves of the machine.
use mathlib.Core.Path.{subst}
use logstat.Prelude.{
  ◌^◌, ◌<◌, ◌≡◌, refl, sym, true, false, not, ◌&&◌, List, [], ◌∷◌, arith, inl, inr, ◌⊎◌, Bool-cases,
  if◌then◌else◌,
}
use logstat.Text.{Text, codes, text_eq, text_eq_iff}
use logstat.Int64.{Int64, add64, is_positive}
use logstat.Dict.{IsMap, erase}
use logstat.Store.Redis.{Client, Books, IsLedger}
use logstat.Store.Keys.{Time, counter_key}
use logstat.Store.{Store, reset}
use logstat.Store.Effects.{total, total-reset, succeeded, Result-cases}
use logstat.Daemon.{World, reset_due}
use logstat.Daemon.Flush.{Outcome, write_delta, flush_action}
use logstat.Daemon.Keeping.{Written, write_delta-Written}
use logstat.Daemon.Resets.{erase_due, erase_not_due}
use logstat.Daemon.Balance.Loop.{not_positive}
use logstat.Daemon.Machine.{
  zeroed, written, Reaches, Reaches-append, Reaches-none, View-eq, view_of,
}

-- What the outcome of a write gives back of an increment.
abbrev pub given_back : Outcome → Int64 → Int64
given_back o delta = if o.retry_delta && is_positive delta then delta else 0

added_none : (q n : Int64) → n ≡ 0 → add64 q n ≡ add64 q 0
added_none q n e = rw e refl

split_sum : (q n : Int64) → add64 q n ≡ add64 (add64 q 0) n
unfolding add64
split_sum q n = omega arith

module _ (c : Client) (d : Books c) (st : Store) (actions : List Text) (whole : IsLedger c d) where
  -- An increment of an action whose reset is not due is written, or given back.
  Written-Reaches :
      (b : Text) (delta q : Int64) (w w' : World c.Server) (o : Outcome)
      → Written c d st actions whole b b delta w o w'
      → reset_due w.pending_resets b ≡ false
      → delta < 2 ^ 63
      → Reaches 0 0
          (view_of c d st b w (add64 q delta))
          (view_of c d st b w' (add64 q (given_back o delta)))
  Written-Reaches b delta q w w' o h u f =
      elim (Bool-cases (is_positive delta && not o.retry_delta)) [
        | inl e ↦ record {
          moves = written delta (add64 q 0) ∷ [];
          leads = (
            (u, split_sum q delta),
            View-eq _ _ _ _ _ _ (ground (arith, e, h.added, text_eq_iff b b)) (ground (arith, e))
                (sym h.due),
          );
          lines_counted = refl;
          resets_asked = refl;
        }
        | inr e ↦ Reaches-none _ _ (
            View-eq _ _ _ _ _ _ (ground (arith, e, h.added))
              (ground (arith, e, not_positive delta f)) (sym h.due))
      ]

  -- What an outcome of the writes for the action reaches.
  abbrev Served : Text → Int64 → Int64 → World c.Server → Outcome × World c.Server → Type 0
  Served b delta q w r =
      Reaches 0 0 (view_of c d st b w (add64 q delta))
        (view_of c d st b r.1 (add64 q (given_back r.0 delta)))

  -- The world in which the reset of the action is done.
  abbrev reset_done : Text → Time → World c.Server → World c.Server
  reset_done b now w = record w {
    server = (reset c st b now w.server).1;
    pending_resets = erase b w.pending_resets;
    pending_heartbeats = erase b w.pending_heartbeats;
  }

  -- The three ways of flushAction.
  ways :
      (b : Text) (delta : Int64) (now : Time) (w : World c.Server)
      → let r = flush_action c st actions b delta now w in
        ((reset_due w.pending_resets b ≡ false) × (r ≡ write_delta c st actions b delta now w))
        ⊎ ((reset_due w.pending_resets b ≡ true)
            × (succeeded (reset c st b now w.server).0 ≡ true)
            × (r ≡ write_delta c st actions b delta now (reset_done b now w)))
        ⊎ ((reset_due w.pending_resets b ≡ true)
            × (r.0.retry_delta ≡ true)
            × (r.1 ≡ record w { server = (reset c st b now w.server).1 }))
  unfolding flush_action
  ways b delta now w = elim (Bool-cases (reset_due w.pending_resets b)) [
    | inr u ↦ inl (u, rw (flush_action, u) refl)
    | inl u ↦ elim (Result-cases (reset c st b now w.server).0) [
      | inl (x, e) ↦ inr (inl (u, rw e refl, rw (flush_action, u, e) refl))
      | inr (x, e) ↦ inr (inr (u, rw (flush_action, u, e) refl, rw (flush_action, u, e) refl))
    ]
  ]

  -- A reset that is due and done zeroes the total.
  reset_done-Reaches :
      (b : Text) (n : Int64) (now : Time) (w : World c.Server)
      → IsMap w.pending_resets
      → reset_due w.pending_resets b ≡ true
      → succeeded (reset c st b now w.server).0 ≡ true
      → Reaches 0 0 (view_of c d st b w n) (view_of c d st b (reset_done b now w) n)
  reset_done-Reaches b n now w m u e = record {
    moves = zeroed false ∷ [];
    leads = (
      u,
      View-eq _ _ _ _ _ _ (ground (arith, e, total-reset c d st b now w.server b, text_eq_iff b b))
          refl (sym (erase_not_due b w.pending_resets m)),
    );
    lines_counted = refl;
    resets_asked = refl;
  }

  -- One that is due and fails may have zeroed it, and stays due.
  reset_failed-Reaches :
      (b : Text) (n : Int64) (now : Time) (w : World c.Server)
      → reset_due w.pending_resets b ≡ true
      → Reaches 0 0
          (view_of c d st b w n)
          (view_of c d st b (record w { server = (reset c st b now w.server).1 }) n)
  reset_failed-Reaches b n now w u =
      let put = d.did_set (counter_key st.host b) (codes "0") st.ttl w.server in
      let totals = total-reset c d st b now w.server b in
      elim (Bool-cases put) [
        | inl e ↦ record {
          moves = zeroed true ∷ [];
          leads =
              (u, View-eq _ _ _ _ _ _ (ground (arith, e, totals, text_eq_iff b b)) refl (sym u));
          lines_counted = refl;
          resets_asked = refl;
        }
        | inr e ↦ Reaches-none _ _ (View-eq _ _ _ _ _ _ (ground (arith, e, totals)) refl refl)
      ]

  -- What flushAction does for its action, of which delta lines wait beside q others.
  pub flush_action-Reaches :
      (b : Text) (delta q : Int64) (now : Time) (w : World c.Server)
      → IsMap w.pending_resets
      → delta < 2 ^ 63
      → Served b delta q w (flush_action c st actions b delta now w)
  flush_action-Reaches b delta q now w m f =
      let (o, w') = flush_action c st actions b delta now w in
      let wrote = λ (w1 : World c.Server) (u : reset_due w1.pending_resets b ≡ false).
        Written-Reaches b delta q w1 _ _ (write_delta-Written c d st actions whole b b delta now w1)
          u f in
      elim (ways b delta now w) [
        | inl (u, r) ↦ subst (Served b delta q w) (sym r) (wrote w u)
        | inr (inl (u, e, r)) ↦ subst (Served b delta q w) (sym r) (
            Reaches-append 0 0 0 0 _ _ _ (reset_done-Reaches b (add64 q delta) now w m u e)
              (wrote (reset_done b now w) (erase_not_due b w.pending_resets m)))
        | inr (inr (u, e, r)) ↦
            let kept : add64 q delta ≡ add64 q (given_back o delta) =
              ground (arith, e, not_positive delta f) in
            subst
              (λ x.
                Reaches 0 0 (view_of c d st b w (add64 q delta))
                  (view_of c d st b x (add64 q (given_back o delta))))
              (sym r)
              (subst
                (λ n.
                  Reaches 0 0 (view_of c d st b w (add64 q delta))
                    (view_of c d st b (record w { server = (reset c st b now w.server).1 }) n))
                kept (reset_failed-Reaches b (add64 q delta) now w u))
      ]

  -- The writes for another action leave this one.
  pub flush_action_other :
      (a b : Text) (delta : Int64) (now : Time) (w : World c.Server)
      → text_eq a b ≡ false
      → let (o, w') = flush_action c st actions a delta now w in
        (total c d st w'.server b ≡ total c d st w.server b)
        × (reset_due w'.pending_resets b ≡ reset_due w.pending_resets b)
  unfolding flush_action
  flush_action_other a b delta now w ne = ground (
    arith,
    ne,
    write_delta-Written c d st actions whole a b delta now w,
    write_delta-Written c d st actions whole a b delta now (reset_done a now w),
    erase_due a b w.pending_resets,
    total-reset c d st a now w.server b,
  )
