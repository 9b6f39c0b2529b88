-- ===== src/Daemon/Resets.antt =====
-- What a scheduled reset leaves of each action, and how a flush catches up on one that failed.
use mathlib.Core.Path.{subst}
use logstat.Prelude.{
  ◌≡◌, sym, Bool, true, false, List, [], ◌∷◌, some, arith, ◌⊎◌, inl, inr, if◌then◌else◌, Bool-cases,
}
use logstat.Text.{Text, text_eq, text_eq_iff, text_elem}
use logstat.Int64.{Int64, add64, is_positive}
use logstat.Dict.{
  Dict, insert, erase, lookup_or, IsMap, lookup-insert, lookup-erase_ne, lookup-erase_self,
}
use logstat.Counter.{Counter}
use logstat.Store.Redis.{ClientError, Client, Books, Documented, is_ok}
use logstat.Store.Keys.{Time}
use logstat.Store.{Store, incr, incr_commands}
use logstat.Store.Effects.{total, total-reset}
use logstat.Store.Effects.Incr.{total-incr, counted}
use logstat.Daemon.{World, reset_due, note_error, note_ok}
use logstat.Daemon.Flush.{write_delta, flush_action, flush}
use logstat.Daemon.Reset.{Resetting, reset_step, reset_loop, finish_reset, reset_counters}

pub insert_due :
    (a b : Text) (m : Dict Bool)
    → reset_due (insert a true m) b ≡ (if text_eq a b then true else reset_due m b)
unfolding lookup_or
insert_due a b m = ground (arith, lookup-insert a b true m)

pub erase_due :
    (a b : Text) (m : Dict Bool) → text_eq a b ≡ false → reset_due (erase a m) b ≡ reset_due m b
unfolding lookup_or
erase_due a b m h = ground (arith, lookup-erase_ne a b m)

pub erase_not_due : (a : Text) (m : Dict Bool) → IsMap m → reset_due (erase a m) a ≡ false
unfolding lookup_or
erase_not_due a m h = ground (arith, lookup-erase_self a m h)

module _ (c : Client) (d : Books c) (st : Store) (actions : List Text) where
  -- The counter of an action is zero in Redis, or its reset is still due.
  abbrev pub IsZeroedOrDue : World c.Server → Text → Type 0
  IsZeroedOrDue w b = (total c d st w.server b ≡ 0) ⊎ (reset_due w.pending_resets b ≡ true)

  reset_step_self :
      (now : Time) (l : Resetting c.Server) (b : Text)
      → IsZeroedOrDue (reset_step c st actions now l b).world b
  unfolding reset_step note_error
  reset_step_self now l b =
      let w = l.world in
      ground (
        arith,
        insert_due b b w.pending_resets,
        text_eq_iff b b,
        total-reset c d st b now w.server b,
      )

  reset_step_other :
      (now : Time) (l : Resetting c.Server) (a b : Text)
      → text_eq a b ≡ false
      → IsZeroedOrDue l.world b
      → IsZeroedOrDue (reset_step c st actions now l a).world b
  unfolding reset_step note_error
  reset_step_other now l a b e h =
      let w = l.world in
      ground (
        arith,
        e,
        h,
        insert_due a b w.pending_resets,
        erase_due a b w.pending_resets e,
        total-reset c d st a now w.server b,
      )

  reset_step_kept :
      (now : Time) (l : Resetting c.Server) (a b : Text)
      → IsZeroedOrDue l.world b
      → IsZeroedOrDue (reset_step c st actions now l a).world b
  reset_step_kept now l a b h =
      ground (arith, reset_step_self now l a, reset_step_other now l a b, h, text_eq_iff a b)

  reset_loop_kept :
      (now : Time) (rest : List Text) (l : Resetting c.Server) (b : Text)
      → IsZeroedOrDue l.world b
      → IsZeroedOrDue (reset_loop c st actions now rest l).world b
  unfolding reset_loop
  reset_loop_kept now [] l b h = h
  reset_loop_kept now (a ∷ rest) l b h = reset_loop_kept now rest _ b (reset_step_kept now l a b h)

  reset_loop_each :
      (now : Time) (rest : List Text) (l : Resetting c.Server) (b : Text)
      → text_elem b rest ≡ true
      → IsZeroedOrDue (reset_loop c st actions now rest l).world b
  unfolding reset_loop text_elem
  reset_loop_each now [] l b h = cc
  reset_loop_each now (a ∷ rest) l b h = elim (Bool-cases (text_eq a b)) [
    | inl e ↦
        let same : a ≡ b = (text_eq_iff a b).0 e in
        reset_loop_kept now rest (reset_step c st actions now l a) b (
          subst (λ x. IsZeroedOrDue (reset_step c st actions now l x).world b) (sym same)
            (reset_step_self now l b))
    | inr e ↦ reset_loop_each now rest (reset_step c st actions now l a) b (ground (arith, e, h))
  ]

  -- After a reset, each configured action has the total zero in Redis, or its reset is due, to be
  -- written by a later flush. The total is that of the keys of a Redis that expires none meanwhile,
  -- whichever of the failed calls it has carried out, or of a ledger.
  pub reset_zeroes :
      (meanwhile : Counter → Counter) (init_now flush_now now : Time) (w : World c.Server)
      (b : Text)
      → text_elem b actions ≡ true
      → IsZeroedOrDue (reset_counters c st actions meanwhile init_now flush_now now w) b
  unfolding reset_counters finish_reset note_ok
  reset_zeroes meanwhile init_now flush_now now w b h =
      let l : Resetting c.Server = record {
        world = flush c st actions meanwhile init_now flush_now w;
        errs = 0;
        unreachable = false;
      } in
      ground (arith, reset_loop_each now actions l b h)

module _ (c : Client) (d : Books c) (doc : Documented c d) (st : Store) (actions : List Text) where
  -- Where the expiry of the key is refused after the increment was carried out, the action's flush
  -- asks for the increment to be kept for the next flush although the total in Redis has it. The
  -- conditions: the increment is positive, no reset is due, an expiry is configured, and the
  -- pipeline's error comes with a successful INCRBY, which a Redis that keeps to its documentation has
  -- then carried out.
  pub refused_expiry_counts_twice :
      (a : Text) (delta : Int64) (now : Time) (w : World c.Server) (x : ClientError)
      → is_positive st.ttl ≡ true
      → is_positive delta ≡ true
      → reset_due w.pending_resets a ≡ false
      → (c.exec (incr_commands st a delta) w.server).0.error ≡ some x
      → is_ok ((c.exec (incr_commands st a delta) w.server).0.result 0) ≡ true
      → let (o, w') = flush_action c st actions a delta now w in
        (o.retry_delta ≡ true) × (total c d st w'.server a ≡ add64 (total c d st w.server a) delta)
  unfolding flush_action write_delta incr counted is_positive
  refused_expiry_counts_twice a delta now w x ttl pos due e k = ground (
    arith,
    ttl,
    pos,
    due,
    e,
    k,
    doc.exec_done (incr_commands st a delta) w.server 0 k,
    total-incr c d st a delta w.server a,
    text_eq_iff a a,
  )
