-- ===== src/Daemon/Recovery/Maps.antt =====
-- The maps of the daemon: no action is noted twice as due, or with two heartbeats to be written.
use logstat.Prelude.{◌≡◌, true, false, List, [], ◌∷◌, arith, inl, inr}
use logstat.Text.{Text}
use logstat.Int64.{Int64}
use logstat.Dict.{Dict, IsMap, erase, lookup, insert-IsMap, erase-IsMap}
use logstat.Dict.Totals.{get64}
use logstat.Counter.{Counter, drain, restore}
use logstat.Store.Redis.{Client}
use logstat.Store.Keys.{Time}
use logstat.Store.{Store, incr, reset}
use logstat.Store.Effects.{Result-cases}
use logstat.Daemon.{World, note_error, note_ok}
use logstat.Daemon.Flush.{
  Flushing, total_or_zero, ensure_init, refresh_ttl, write_heartbeat, write_delta, flush_action,
  settle, flush_step, flush_loop, finish_flush, flush_idle, flush_drained, flush,
}
use logstat.Daemon.Reset.{Resetting, reset_step, reset_loop, finish_reset, reset_counters}

pub record HasMaps {S : Type 0} (w : World S) : Type 0 where
  pub resets : IsMap w.pending_resets
  pub heartbeats : IsMap w.pending_heartbeats

module _ (c : Client) (st : Store) (actions : List Text) where
  write_heartbeat-HasMaps :
      (a : Text) (n : Int64) (now : Time) (w : World c.Server)
      → HasMaps w
      → HasMaps (write_heartbeat c st actions a n now w).1
  unfolding write_heartbeat
  write_heartbeat-HasMaps a n now w h = ground (
    arith,
    h.resets,
    insert-IsMap a n w.pending_heartbeats h.heartbeats,
    erase-IsMap a w.pending_heartbeats h.heartbeats,
  )

  write_delta-HasMaps :
      (a : Text) (delta : Int64) (now : Time) (w : World c.Server)
      → HasMaps w
      → HasMaps (write_delta c st actions a delta now w).1
  unfolding write_delta
  write_delta-HasMaps a delta now w h =
      let s' = (incr c st a delta w.server).1 in
      let later : World c.Server = record w { server = s' } in
      let h' : HasMaps later = record { resets = h.resets; heartbeats = h.heartbeats } in
      let idle =
        write_heartbeat-HasMaps a (total_or_zero (lookup a w.pending_heartbeats)) now w h in
      elim (Result-cases (incr c st a delta w.server).0) [
        | inl (n, e) ↦ ground (arith, e, h, idle, write_heartbeat-HasMaps a n now later h')
        | inr (x, e) ↦ ground (arith, e, h, h', idle)
      ]

  flush_action-HasMaps :
      (a : Text) (delta : Int64) (now : Time) (w : World c.Server)
      → HasMaps w
      → HasMaps (flush_action c st actions a delta now w).1
  unfolding flush_action
  flush_action-HasMaps a delta now w h =
      let s' = (reset c st a now w.server).1 in
      let failed : World c.Server = record w { server = s' } in
      let done : World c.Server = record w {
        server = s';
        pending_resets = erase a w.pending_resets;
        pending_heartbeats = erase a w.pending_heartbeats;
      } in
      let kept : HasMaps failed = record { resets = h.resets; heartbeats = h.heartbeats } in
      let erased : HasMaps done = record {
        resets = erase-IsMap a w.pending_resets h.resets;
        heartbeats = erase-IsMap a w.pending_heartbeats h.heartbeats;
      } in
      ground (
        arith,
        kept,
        write_delta-HasMaps a delta now w h,
        write_delta-HasMaps a delta now done erased,
      )

  pub flush_step-HasMaps :
      (now : Time) (deltas : Dict Int64) (l : Flushing c.Server) (a : Text)
      → HasMaps l.world
      → HasMaps (flush_step c st actions now deltas l a).world
  unfolding flush_step settle note_error
  flush_step-HasMaps now deltas l a h =
      ground (arith, h, flush_action-HasMaps a (get64 a deltas) now l.world h)

  flush_loop-HasMaps :
      (now : Time) (deltas : Dict Int64) (rest : List Text) (l : Flushing c.Server)
      → HasMaps l.world
      → HasMaps (flush_loop c st actions now deltas rest l).world
  unfolding flush_loop
  flush_loop-HasMaps now deltas [] l h = h
  flush_loop-HasMaps now deltas (a ∷ rest) l h =
      flush_loop-HasMaps now deltas rest _ (flush_step-HasMaps now deltas l a h)

  -- The maps are the same.
  abbrev pub SameMaps : World c.Server → World c.Server → Type 0
  SameMaps w w' =
      (w'.pending_resets ≡ w.pending_resets) × (w'.pending_heartbeats ≡ w.pending_heartbeats)

  pub same-HasMaps : (w w' : World c.Server) → SameMaps w w' → HasMaps w → HasMaps w'
  same-HasMaps w w' e h = record { resets = rw e.0 h.resets; heartbeats = rw e.1 h.heartbeats }

  pub ensure_init_maps :
      (now : Time) (w : World c.Server) → SameMaps w (ensure_init c st actions now w).1
  unfolding ensure_init note_error note_ok
  ensure_init_maps now w = ground arith

  refresh_ttl_maps : (w : World c.Server) → SameMaps w (refresh_ttl c st actions w).1
  unfolding refresh_ttl note_error
  refresh_ttl_maps w = ground arith

  finish_flush_maps : (l : Flushing c.Server) → SameMaps l.world (finish_flush c st actions l)
  unfolding finish_flush note_ok
  finish_flush_maps l =
      let w : World c.Server = record l.world { cnt = restore l.unwritten l.world.cnt } in
      ground (arith, refresh_ttl_maps w)

  flush_idle_maps : (w : World c.Server) → SameMaps w (flush_idle c st actions w)
  unfolding flush_idle note_ok
  flush_idle_maps w = ground (arith, refresh_ttl_maps w)

  flush_drained-HasMaps :
      (now : Time) (deltas : Dict Int64) (w : World c.Server)
      → HasMaps w
      → HasMaps (flush_drained c st actions now deltas w)
  unfolding flush_drained
  flush_drained-HasMaps now deltas w h =
      let l : Flushing c.Server = record {
        world = w;
        unwritten = [];
        written = 0;
        errs = 0;
        unreachable = false;
      } in
      let l' = flush_loop c st actions now deltas actions l in
      let done =
        same-HasMaps l'.world (finish_flush c st actions l') (finish_flush_maps l')
          (flush_loop-HasMaps now deltas actions l h) in
      let idle = same-HasMaps w (flush_idle c st actions w) (flush_idle_maps w) h in
      ground (arith, done, idle)

  pub flush-HasMaps :
      (meanwhile : Counter → Counter) (init_now now : Time) (w : World c.Server)
      → HasMaps w
      → HasMaps (flush c st actions meanwhile init_now now w)
  unfolding flush
  flush-HasMaps meanwhile init_now now w h =
      let w1 = (ensure_init c st actions init_now w).1 in
      let (deltas, cnt) = drain w1.cnt in
      let w2 : World c.Server = record w1 { cnt = meanwhile cnt } in
      let h1 = same-HasMaps w w1 (ensure_init_maps init_now w) h in
      let h2 : HasMaps w2 = record { resets = h1.resets; heartbeats = h1.heartbeats } in
      ground (arith, h1, flush_drained-HasMaps now deltas w2 h2)

  pub reset_step-HasMaps :
      (now : Time) (l : Resetting c.Server) (a : Text)
      → HasMaps l.world
      → HasMaps (reset_step c st actions now l a).world
  unfolding reset_step note_error
  reset_step-HasMaps now l a h = ground (
    arith,
    h,
    insert-IsMap a true l.world.pending_resets h.resets,
    erase-IsMap a l.world.pending_resets h.resets,
    erase-IsMap a l.world.pending_heartbeats h.heartbeats,
  )

  reset_loop-HasMaps :
      (now : Time) (rest : List Text) (l : Resetting c.Server)
      → HasMaps l.world
      → HasMaps (reset_loop c st actions now rest l).world
  unfolding reset_loop
  reset_loop-HasMaps now [] l h = h
  reset_loop-HasMaps now (a ∷ rest) l h =
      reset_loop-HasMaps now rest _ (reset_step-HasMaps now l a h)

  finish_reset_maps : (l : Resetting c.Server) → SameMaps l.world (finish_reset c st actions l)
  unfolding finish_reset note_ok
  finish_reset_maps l = ground arith

  pub reset_counters-HasMaps :
      (meanwhile : Counter → Counter) (init_now flush_now now : Time) (w : World c.Server)
      → HasMaps w
      → HasMaps (reset_counters c st actions meanwhile init_now flush_now now w)
  unfolding reset_counters
  reset_counters-HasMaps meanwhile init_now flush_now now w h =
      let l : Resetting c.Server = record {
        world = flush c st actions meanwhile init_now flush_now w;
        errs = 0;
        unreachable = false;
      } in
      let l' = reset_loop c st actions now actions l in
      same-HasMaps l'.world (finish_reset c st actions l') (finish_reset_maps l')
        (reset_loop-HasMaps now actions l (flush-HasMaps meanwhile init_now flush_now w h))
