-- ===== src/Daemon/Recovery/Room.antt =====
-- The writes of a flush for one action leave the totals of the others, whatever the calls reply.
use logstat.Prelude.{◌≡◌, false, List, arith, inl, inr}
use logstat.Text.{Text, text_eq}
use logstat.Int64.{Int64}
use logstat.Dict.{Dict, erase, lookup}
use logstat.Dict.Totals.{get64}
use logstat.Store.Redis.{Client, Books}
use logstat.Store.Keys.{Time}
use logstat.Store.{Store, incr, reset, init}
use logstat.Store.Effects.{total, total-set_heartbeat, total-reset, Result-cases}
use logstat.Store.Effects.Incr.{total-incr}
use logstat.Store.Effects.Init.{total-init, total-touch}
use logstat.Daemon.{World, note_error, note_ok}
use logstat.Daemon.Flush.{
  Outcome, Flushing, total_or_zero, ensure_init, write_heartbeat, write_delta, flush_action, settle,
  flush_step,
}

module _ (c : Client) (d : Books c) (st : Store) (actions : List Text) where
  -- The total of an action is the same.
  abbrev pub SameTotal : Text → World c.Server → World c.Server → Type 0
  SameTotal b w w' = total c d st w'.server b ≡ total c d st w.server b

  write_heartbeat_total :
      (a b : Text) (n : Int64) (now : Time) (w : World c.Server)
      → SameTotal b w (write_heartbeat c st actions a n now w).1
  unfolding write_heartbeat
  write_heartbeat_total a b n now w = ground (arith, total-set_heartbeat c d st a n now w.server b)

  write_delta_total :
      (a b : Text) (delta : Int64) (now : Time) (w : World c.Server)
      → text_eq a b ≡ false
      → SameTotal b w (write_delta c st actions a delta now w).1
  unfolding write_delta
  write_delta_total a b delta now w ne =
      let later : World c.Server = record w { server = (incr c st a delta w.server).1 } in
      let raised = total-incr c d st a delta w.server b in
      elim (Result-cases (incr c st a delta w.server).0) [
        | inl (n, e) ↦ ground (
          arith,
          e,
          ne,
          raised,
          write_heartbeat_total a b n now later,
          write_heartbeat_total a b (total_or_zero (lookup a w.pending_heartbeats)) now w,
        )
        | inr (x, e) ↦ ground (
          arith,
          e,
          ne,
          raised,
          write_heartbeat_total a b (total_or_zero (lookup a w.pending_heartbeats)) now w,
        )
      ]

  flush_action_total :
      (a b : Text) (delta : Int64) (now : Time) (w : World c.Server)
      → text_eq a b ≡ false
      → SameTotal b w (flush_action c st actions a delta now w).1
  unfolding flush_action
  flush_action_total a b delta now w ne =
      let done : World c.Server = record w {
        server = (reset c st a now w.server).1;
        pending_resets = erase a w.pending_resets;
        pending_heartbeats = erase a w.pending_heartbeats;
      } in
      ground (
        arith,
        ne,
        write_delta_total a b delta now w,
        write_delta_total a b delta now done,
        total-reset c d st a now w.server b,
      )

  settle_server :
      (a : Text) (delta : Int64) (l : Flushing c.Server) (o : Outcome) (w : World c.Server)
      → (settle c st actions a delta l o w).world.server ≡ w.server
  unfolding settle note_error
  settle_server a delta l o w = ground arith

  pub flush_step_total :
      (now : Time) (deltas : Dict Int64) (l : Flushing c.Server) (a b : Text)
      → text_eq a b ≡ false
      → SameTotal b l.world (flush_step c st actions now deltas l a).world
  unfolding flush_step
  flush_step_total now deltas l a b ne =
      let delta = get64 a deltas in
      let (o, w) = flush_action c st actions a delta now l.world in
      ground (arith, settle_server a delta l o w, flush_action_total a b delta now l.world ne)

  pub ensure_init_total :
      (now : Time) (w : World c.Server) (b : Text)
      → SameTotal b w (ensure_init c st actions now w).1
  unfolding ensure_init note_error note_ok
  ensure_init_total now w b =
      let s = (init c st actions now w.server).1 in
      ground (arith, total-init c d st actions now w.server b, total-touch c d st actions s b)
