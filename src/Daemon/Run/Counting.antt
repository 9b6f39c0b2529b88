-- ===== src/Daemon/Run/Counting.antt =====
-- What a flush leaves of the counter, for the runs of many.
use logstat.Prelude.{
  ap, ◌≡◌, refl, ◌∙◌, false, ◌&&◌, List, [], ◌∷◌, arith, ◌⊎◌, inl, inr, Bool-cases,
}
use logstat.Text.{Text}
use logstat.Int64.{Int64}
use logstat.Dict.{Dict, IsMap, erase, insert-IsMap}
use logstat.Dict.Totals.{get64, get64-nil}
use logstat.Counter.{Counter, restore}
use logstat.Store.Redis.{Client, Books, IsLedger}
use logstat.Store.Keys.{Time}
use logstat.Store.{Store, reset}
use logstat.Daemon.{World, reset_due, note_ok, note_error}
use logstat.Daemon.Flush.{
  Flushing, flush_action, settle, flush_step, flush_loop, finish_flush, is_empty, flush_idle,
  flush_drained,
}
use logstat.Daemon.Keeping.{write_delta-Written}
use logstat.Daemon.Balance.{refresh_ttl_keeps}
use logstat.Daemon.Balance.Loop.{flush_loop-Kept, flush_loop-IsWhole, IsWhole}

module _ (c : Client) (d : Books c) (st : Store) (actions : List Text) (whole : IsLedger c d) where
  -- What a flush gives back to the buffer, as far as action b goes: nothing, or its whole increment.
  pub record Returned (b : Text) (deltas : Dict Int64) (before after : Counter) : Type 0 where
    pub unwritten : Dict Int64
    pub unwritten_IsMap : IsMap unwritten
    pub after_restored : after ≡ restore unwritten before
    pub whole_or_none : (get64 b unwritten ≡ 0) ⊎ (get64 b unwritten ≡ get64 b deltas)

  -- The variables of the loop of Flush at its start.
  abbrev pub start_loop : World c.Server → Flushing c.Server
  start_loop w = record { world = w; unwritten = []; written = 0; errs = 0; unreachable = false }

  -- No write touches the counter.
  flush_action-cnt :
      (a : Text) (delta : Int64) (now : Time) (w : World c.Server)
      → (flush_action c st actions a delta now w).1.cnt ≡ w.cnt
  unfolding flush_action
  flush_action-cnt a delta now w =
      let w1 : World c.Server = record w {
        server = (reset c st a now w.server).1;
        pending_resets = erase a w.pending_resets;
        pending_heartbeats = erase a w.pending_heartbeats;
      } in
      ground (
        arith,
        write_delta-Written c d st actions whole a a delta now w,
        write_delta-Written c d st actions whole a a delta now w1,
      )

  flush_step-cnt :
      (now : Time) (deltas : Dict Int64) (l : Flushing c.Server) (a : Text)
      → let l' = flush_step c st actions now deltas l a in
        (l'.world.cnt ≡ l.world.cnt) × (IsMap l.unwritten → IsMap l'.unwritten)
  unfolding flush_step settle note_error
  flush_step-cnt now deltas l a =
      let delta = get64 a deltas in
      ground (arith, flush_action-cnt a delta now l.world, insert-IsMap a delta l.unwritten)

  pub flush_loop-cnt :
      (now : Time) (deltas : Dict Int64) (rest : List Text) (l : Flushing c.Server)
      → let l' = flush_loop c st actions now deltas rest l in
        (l'.world.cnt ≡ l.world.cnt) × (IsMap l.unwritten → IsMap l'.unwritten)
  unfolding flush_loop
  flush_loop-cnt now deltas [] l = (refl, λ m. m)
  flush_loop-cnt now deltas (a ∷ rest) l =
      let (e, f) = flush_step-cnt now deltas l a in
      let (e', f') = flush_loop-cnt now deltas rest (flush_step c st actions now deltas l a) in
      (e' ∙ e, λ m. f' (f m))

  finish_flush-cnt :
      (b : Text) (l : Flushing c.Server)
      → ((finish_flush c st actions l).cnt ≡ restore l.unwritten l.world.cnt)
        × ((finish_flush c st actions l).pending_resets ≡ l.world.pending_resets)
  unfolding finish_flush note_ok
  finish_flush-cnt b l = ground (
    arith,
    refresh_ttl_keeps c d st actions whole
        (record l.world { cnt = restore l.unwritten l.world.cnt }) b,
  )

  flush_idle-cnt :
      (b : Text) (w : World c.Server)
      → ((flush_idle c st actions w).cnt ≡ w.cnt)
        × ((flush_idle c st actions w).pending_resets ≡ w.pending_resets)
  unfolding flush_idle note_ok
  flush_idle-cnt b w = ground (arith, refresh_ttl_keeps c d st actions whole w b)

  loop-Returned :
      (now : Time) (deltas : Dict Int64) (w : World c.Server) (b : Text)
      → let w' =
          finish_flush c st actions (flush_loop c st actions now deltas actions (start_loop w)) in
        Returned b deltas w.cnt w'.cnt
  loop-Returned now deltas w b =
      let done = flush_loop c st actions now deltas actions (start_loop w) in
      let (same, maps) = flush_loop-cnt now deltas actions (start_loop w) in
      let any : IsWhole c d st actions whole b deltas (start_loop w) done =
        flush_loop-IsWhole c d st actions whole now deltas b actions (start_loop w) in
      record {
        unwritten = done.unwritten;
        unwritten_IsMap = maps tt;
        after_restored = (finish_flush-cnt b done).0 ∙ ap (restore done.unwritten) same;
        whole_or_none = unfold IsWhole in ground (arith, any, get64-nil b);
      }

  nothing-Returned : (b : Text) (deltas : Dict Int64) (n : Counter) → Returned b deltas n n
  nothing-Returned b deltas n = record {
    unwritten = [];
    unwritten_IsMap = tt;
    after_restored = unfold restore in refl;
    whole_or_none = inl (get64-nil b);
  }

  pub flush_drained-Returned :
      (now : Time) (deltas : Dict Int64) (w : World c.Server) (b : Text)
      → Returned b deltas w.cnt (flush_drained c st actions now deltas w).cnt
  unfolding flush_drained
  flush_drained-Returned now deltas w b =
      let idle = is_empty deltas && (is_empty w.pending_heartbeats && is_empty w.pending_resets) in
      elim (Bool-cases idle) [
        | inl e ↦ rw (e, (flush_idle-cnt b w).0) (nothing-Returned b deltas w.cnt)
        | inr e ↦ rw e (loop-Returned now deltas w b)
      ]

  pub flush_drained_due :
      (now : Time) (deltas : Dict Int64) (w : World c.Server) (b : Text)
      → reset_due w.pending_resets b ≡ false
      → reset_due (flush_drained c st actions now deltas w).pending_resets b ≡ false
  unfolding flush_drained
  flush_drained_due now deltas w b h =
      let done = flush_loop c st actions now deltas actions (start_loop w) in
      ground (
        arith,
        h,
        flush_idle-cnt b w,
        finish_flush-cnt b done,
        (flush_loop-Kept c d st actions whole now deltas b actions (start_loop w) h).due,
      )
