-- ===== src/Daemon.antt =====
-- internal/daemon/daemon.go: the state of the daemon, the flush, the scheduled reset, and what they
-- remember of a Redis outage.
--
-- World is the Daemon with the server behind its store; a method returns the world that it leaves.
-- time.Now() is an argument of each method that calls it. The log is the list of the messages, the
-- latest first. The parameters are the client library c, the store st and cfg.Actions.
pub mod Flush
pub mod Reset
pub mod Keeping
pub mod Balance
pub mod Resets
pub mod Recovery
pub mod Run
pub mod Machine
pub mod Start
pub mod Tests
use logstat.Prelude.{
  ℕ, suc, ◌≡◌, Bool, true, false, not, ◌&&◌, ◌||◌, List, [], ◌∷◌, Option, none, some, length, ◌==◌,
  if◌then◌else◌,
}
use logstat.Text.{Text}
use logstat.Int64.{Int64, is_positive}
use logstat.Dict.{Dict, lookup, lookup_or, insert, erase}
use logstat.Dict.Totals.{get64}
use logstat.Counter.{Counter, drain, restore, pending_total, process_line}
use logstat.Store.Redis.{canceled, Client}
use logstat.Store.Keys.{Time}
use logstat.Store.{
  Error, client, Result, done, err, Store, is_unavailable, init, touch, incr, set_heartbeat, reset,
}

-- The operations that noteRedisError names.
pub data Op : Type 0 where
  op_flush op_reset op_init op_ttl : Op

-- The messages of the methods below.
pub data Message : Type 0 where
  redis_unavailable redis_still_unavailable : Op → Error → Message
  redis_back flush_nothing : Message
  flush_deferred : Int64 → Message
  flush_stopped_early : Text → Message
  flush_done : ℕ → ℕ → Int64 → Message
  keys_initialised counters_reset : ℕ → Message
  reset_incomplete : ℕ → Message
  line_matched : List Text → Text → Message
  starting metrics_disabled metrics_not_shut reset_disabled : Message
  metrics_listening : Text → Text → Message
  metrics_stopped log_found log_missing reset_scheduled : Text → Message
  tail_failed stop_failed metrics_failed reset_fired shutting_down stopped : Message

pub record World (S : Type 0) : Type 0 where
  pub cnt : Counter
  pub initialized : Bool
  pub pending_heartbeats : Dict Int64
  pub pending_resets : Dict Bool
  pub redis_down : Bool
  pub log : List Message
  pub server : S

-- d.pendingResets[action]
abbrev pub reset_due : Dict Bool → Text → Bool
reset_due resets action = lookup_or false action resets

-- errors.Is(err, context.Canceled)
abbrev pub is_canceled : Error → Bool
is_canceled e = elim e.cause [ client r ↦ elim r [ canceled ↦ true | _ ↦ false ] | _ ↦ false ]

module _ {S : Type 0} where
  abbrev pub say : Message → World S → World S
  say m w = record w { log = m ∷ w.log }

  -- noteRedisError
  unfoldable pub note_error : Op → Error → World S → World S
  note_error op e w =
      if is_canceled e
      then w
      else if w.redis_down
      then say (redis_still_unavailable op e) w
      else record w { redis_down = true; log = redis_unavailable op e ∷ w.log }

  -- noteRedisOK
  unfoldable pub note_ok : World S → World S
  note_ok w = if w.redis_down then record w { redis_down = false; log = redis_back ∷ w.log } else w
