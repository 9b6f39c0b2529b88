-- ===== src/Daemon/Keeping.antt =====
-- What the writes of one action leave: the buffer, the resets that are due, and the totals.
use logstat.Prelude.{
  ◌≡◌, Bool, true, false, not, ◌&&◌, List, none, arith, inl, inr, Bool-cases, if◌then◌else◌,
}
use logstat.Text.{Text, text_eq, text_eq_iff}
use logstat.Int64.{Int64, add64, is_positive}
use logstat.Dict.{Dict, lookup, lookup_or, erase, lookup-erase_ne}
use logstat.Store.Redis.{Client, Books, IsLedger}
use logstat.Store.Keys.{Time}
use logstat.Store.{Error, Store, done, err, incr, reset}
use logstat.Store.Effects.{total, total-set_heartbeat, total-reset, Result-cases}
use logstat.Store.Effects.Incr.{total-incr, counted-succeeded}
use logstat.Daemon.{World, reset_due}
use logstat.Daemon.Flush.{Outcome, total_or_zero, write_heartbeat, write_delta, flush_action}

module _ (c : Client) (d : Books c) (st : Store) (actions : List Text) (whole : IsLedger c d) where
  -- What a write for action a, of an increment delta, means for action b.
  pub record Written (a b : Text) (delta : Int64) (w : World c.Server) (o : Outcome)
      (w' : World c.Server) : Type 0 where
    pub cnt : w'.cnt ≡ w.cnt
    pub due : reset_due w'.pending_resets b ≡ reset_due w.pending_resets b
    pub added : total c d st w'.server b ≡ (
        if text_eq a b && (is_positive delta && not o.retry_delta)
        then add64 (total c d st w.server b) delta
        else total c d st w.server b)
    pub kept : o.error ≡ none → o.retry_delta ≡ false

  heartbeat_kept :
      (a : Text) (n : Int64) (now : Time) (w : World c.Server) (b : Text)
      → let (o, w') = write_heartbeat c st actions a n now w in
        (w'.cnt ≡ w.cnt)
        × (w'.pending_resets ≡ w.pending_resets)
        × (total c d st w'.server b ≡ total c d st w.server b)
        × (o.retry_delta ≡ false)
  unfolding write_heartbeat
  heartbeat_kept a n now w b = ground (arith, total-set_heartbeat c d st a n now w.server b)

  incr_done :
      (a b : Text) (delta n : Int64) (s : c.Server)
      → (incr c st a delta s).0 ≡ done n
      → total c d st (incr c st a delta s).1 b
        ≡ (if text_eq a b then add64 (total c d st s b) delta else total c d st s b)
  incr_done a b delta n s e = ground (
    arith,
    total-incr c d st a delta s b,
    counted-succeeded c d st whole a delta s,
    text_eq_iff a b,
  )

  incr_err :
      (a b : Text) (delta : Int64) (x : Error) (s : c.Server)
      → (incr c st a delta s).0 ≡ err x
      → total c d st (incr c st a delta s).1 b ≡ total c d st s b
  incr_err a b delta x s e =
      ground (arith, total-incr c d st a delta s b, counted-succeeded c d st whole a delta s)

  pub write_delta-Written :
      (a b : Text) (delta : Int64) (now : Time) (w : World c.Server)
      → let (o, w') = write_delta c st actions a delta now w in Written a b delta w o w'
  unfolding write_delta is_positive
  write_delta-Written a b delta now w =
      let s = w.server in
      elim (Result-cases (incr c st a delta s).0) [
        | inl (n, e) ↦ ground (
          arith,
          e,
          heartbeat_kept a n now (record w { server = (incr c st a delta s).1 }) b,
          heartbeat_kept a (total_or_zero (lookup a w.pending_heartbeats)) now w b,
          incr_done a b delta n s e,
        )
        | inr (x, e) ↦ ground (
          arith,
          e,
          heartbeat_kept a (total_or_zero (lookup a w.pending_heartbeats)) now w b,
          incr_err a b delta x s e,
        )
      ]

  erased_due :
      (a b : Text) (m : Dict Bool)
      → reset_due m b ≡ false
      → reset_due m a ≡ true
      → reset_due (erase a m) b ≡ false
  unfolding lookup_or
  erased_due a b m h r = ground (arith, lookup-erase_ne a b m, text_eq_iff a b)

  reset_kept :
      (a b : Text) (now : Time) (s : c.Server)
      → text_eq a b ≡ false
      → total c d st (reset c st a now s).1 b ≡ total c d st s b
  reset_kept a b now s h = ground (arith, total-reset c d st a now s b)

  pub flush_action-Written :
      (a b : Text) (delta : Int64) (now : Time) (w : World c.Server)
      → reset_due w.pending_resets b ≡ false
      → let (o, w') = flush_action c st actions a delta now w in Written a b delta w o w'
  unfolding flush_action
  flush_action-Written a b delta now w h = elim (Bool-cases (reset_due w.pending_resets a)) [
    | inr e ↦ rw e (write_delta-Written a b delta now w)
    | inl e ↦ elim (Result-cases (reset c st a now w.server).0) [
      | inl (x, r) ↦
          let w' = record w {
            server = (reset c st a now w.server).1;
            pending_resets = erase a w.pending_resets;
            pending_heartbeats = erase a w.pending_heartbeats;
          } in
          ground (
            arith,
            e,
            r,
            h,
            write_delta-Written a b delta now w',
            erased_due a b w.pending_resets h e,
            reset_kept a b now w.server,
            text_eq_iff a b,
          )
      | inr (x, r) ↦ ground (arith, e, r, h, reset_kept a b now w.server, text_eq_iff a b)
    ]
  ]
