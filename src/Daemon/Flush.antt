-- ===== src/Daemon/Flush.antt =====
-- internal/daemon/daemon.go: Flush, and what it does for the keys and for each action.
use logstat.Prelude.{
  ℕ, suc, Bool, true, false, not, ◌&&◌, ◌||◌, List, [], ◌∷◌, Option, none, some, length, ◌==◌,
  if◌then◌else◌,
}
use logstat.Text.{Text}
use logstat.Int64.{Int64, is_positive}
use logstat.Dict.{Dict, lookup, insert, erase}
use logstat.Dict.Totals.{get64}
use logstat.Counter.{Counter, drain, restore, pending_total}
use logstat.Store.Redis.{Client}
use logstat.Store.Keys.{Time}
use logstat.Store.{Error, done, err, Store, is_unavailable, init, touch, incr, set_heartbeat, reset}
use logstat.Daemon.{
  op_flush, op_init, op_ttl, flush_nothing, flush_deferred, flush_stopped_early, flush_done,
  keys_initialised, World, reset_due, say, note_error, note_ok,
}

-- What flushAction reports: whether it wrote, whether delta goes back to the buffer, the error.
pub record Outcome : Type 0 where
  pub written : Bool
  pub retry_delta : Bool
  pub error : Option Error

-- The variables of the loop of Flush.
pub record Flushing (S : Type 0) : Type 0 where
  pub world : World S
  pub unwritten : Dict Int64
  pub written : ℕ
  pub errs : ℕ
  pub unreachable : Bool

abbrev pub is_empty {ℓ} : {A : Type ℓ} → List A → Bool
is_empty [] = true
is_empty (_ ∷ _) = false

abbrev pub total_or_zero : Option Int64 → Int64
total_or_zero none = 0
total_or_zero (some n) = n

abbrev pub has_total : Option Int64 → Bool
has_total none = false
has_total (some _) = true

module _ (c : Client) (st : Store) (actions : List Text) where
  -- What ensureInit does once the keys are there.
  abbrev pub after_init : World c.Server → World c.Server
  after_init w =
      let w1 =
        say (keys_initialised (length actions)) (note_ok (record w { initialized = true })) in
      let (r, s) = touch c st actions w1.server in
      let w2 = record w1 { server = s } in elim r [ done _ ↦ w2 | err e ↦ note_error op_ttl e w2 ]

  -- ensureInit
  unfoldable pub ensure_init : Time → World c.Server → Bool × World c.Server
  ensure_init now w =
      if w.initialized
      then (true, w)
      else (let (r, s) = init c st actions now w.server in
          let w1 = record w { server = s } in
          elim r [ err e ↦ (false, note_error op_init e w1) | done _ ↦ (true, after_init w1) ])

  -- refreshTTL
  unfoldable pub refresh_ttl : World c.Server → Bool × World c.Server
  refresh_ttl w =
      if not (is_positive st.ttl) || not w.initialized
      then (false, w)
      else (let (r, s) = touch c st actions w.server in
          let w1 = record w { server = s } in
          elim r [ err e ↦ (false, note_error op_ttl e w1) | done _ ↦ (true, w1) ])

  -- The end of flushAction: the heartbeat value of a total.
  unfoldable pub write_heartbeat : Text → Int64 → Time → World c.Server → Outcome × World c.Server
  write_heartbeat action total now w =
      let (r, s) = set_heartbeat c st action total now w.server in
      elim r [
        | err e ↦ (
          record { written = false; retry_delta = false; error = some e },
          record w { server = s; pending_heartbeats = insert action total w.pending_heartbeats },
        )
        | done _ ↦ (
          record { written = true; retry_delta = false; error = none },
          record w { server = s; pending_heartbeats = erase action w.pending_heartbeats },
        )
      ]

  -- flushAction behind the pending reset.
  unfoldable pub write_delta : Text → Int64 → Time → World c.Server → Outcome × World c.Server
  write_delta action delta now w =
      let pending = lookup action w.pending_heartbeats in
      if delta == 0 && not (has_total pending)
      then (record { written = false; retry_delta = false; error = none }, w)
      else if is_positive delta
      then (let (r, s) = incr c st action delta w.server in
          elim r [
            | err e ↦ (
              record { written = false; retry_delta = true; error = some e },
              record w { server = s },
            )
            | done n ↦ write_heartbeat action n now (record w { server = s })
          ])
      else write_heartbeat action (total_or_zero pending) now w

  -- flushAction
  unfoldable pub flush_action : Text → Int64 → Time → World c.Server → Outcome × World c.Server
  flush_action action delta now w =
      if reset_due w.pending_resets action
      then (let (r, s) = reset c st action now w.server in
          elim r [
            | err e ↦ (
              record { written = false; retry_delta = true; error = some e },
              record w { server = s },
            )
            | done _ ↦ write_delta action delta now (record w {
              server = s;
              pending_resets = erase action w.pending_resets;
              pending_heartbeats = erase action w.pending_heartbeats;
            })
          ])
      else write_delta action delta now w

  -- What the loop of Flush makes of the result of flushAction.
  unfoldable pub settle :
      Text → Int64 → Flushing c.Server → Outcome → World c.Server → Flushing c.Server
  settle action delta l o w = elim o.error [
    | some e ↦
        let noted = note_error op_flush e w in
        let down = is_unavailable (some e) in
        record l {
          errs = suc l.errs;
          unwritten =
              if o.retry_delta && is_positive delta
              then insert action delta l.unwritten
              else l.unwritten;
          unreachable = down;
          world = if down then say (flush_stopped_early action) noted else noted;
        }
    | none ↦ record l { world = w; written = if o.written then suc l.written else l.written }
  ]

  -- The body of the loop of Flush.
  unfoldable pub flush_step : Time → Dict Int64 → Flushing c.Server → Text → Flushing c.Server
  unfolding settle
  flush_step now deltas l action =
      let delta = get64 action deltas in
      if l.unreachable
      then (if is_positive delta
          then record l { unwritten = insert action delta l.unwritten }
          else l)
      else (let (o, w) = flush_action action delta now l.world in settle action delta l o w)

  -- The loop of Flush, over the actions that are left.
  unfoldable pub flush_loop : Time → Dict Int64 → List Text → Flushing c.Server → Flushing c.Server
  flush_loop now deltas [] l = l
  flush_loop now deltas (a ∷ rest) l = flush_loop now deltas rest (flush_step now deltas l a)

  -- Flush behind its loop.
  unfoldable pub finish_flush : Flushing c.Server → World c.Server
  finish_flush l =
      let w1 = record l.world { cnt = restore l.unwritten l.world.cnt } in
      let w2 = if l.unreachable then w1 else (refresh_ttl w1).1 in
      let w3 = if l.errs == 0 then note_ok w2 else w2 in
      say (flush_done l.written l.errs (pending_total w3.cnt)) w3

  -- Flush with nothing to write.
  unfoldable pub flush_idle : World c.Server → World c.Server
  flush_idle w =
      let (reached, w1) = refresh_ttl w in say flush_nothing (if reached then note_ok w1 else w1)

  -- Flush, once the keys are there and the buffer is drained.
  unfoldable pub flush_drained : Time → Dict Int64 → World c.Server → World c.Server
  flush_drained now deltas w =
      if is_empty deltas && (is_empty w.pending_heartbeats && is_empty w.pending_resets)
      then flush_idle w
      else finish_flush (
          flush_loop now deltas actions
            (record { world = w; unwritten = []; written = 0; errs = 0; unreachable = false }))

  -- Flush; init_now is the time that ensureInit reads. meanwhile is what the goroutine that counts the
  -- lines makes of the counter
  -- during the call, after Drain if there is one: the writes that follow do not touch the counter until
  -- Restore, which adds to what stands there, so what comes between is one change.
  unfoldable pub flush : (Counter → Counter) → Time → Time → World c.Server → World c.Server
  flush meanwhile init_now now w =
      let (ready, w1) = ensure_init init_now w in
      if ready
      then (let (deltas, cnt) = drain w1.cnt in
          flush_drained now deltas (record w1 { cnt = meanwhile cnt }))
      else say (flush_deferred (pending_total w1.cnt)) (record w1 { cnt = meanwhile w1.cnt })
