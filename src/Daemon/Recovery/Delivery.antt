-- ===== src/Daemon/Recovery/Delivery.antt =====
-- The end of a run while Redis answers.
use logstat.Prelude.{◌≡◌, refl, Bool, true, List, [], arith, if◌then◌else◌}
use logstat.Text.{Text, text_elem, Distinct}
use logstat.Counter.Totals.{drain_lem}
use logstat.Store.Redis.{Client, Books}
use logstat.Store.Keys.{Time}
use logstat.Store.{Store}
use logstat.Store.Available.{Available, AllRoom}
use logstat.Daemon.{Message, World, say, stop_failed, metrics_failed, shutting_down}
use logstat.Daemon.Flush.{ensure_init}
use logstat.Daemon.Run.{
  Line, Event, End, cancelled, exporter_died, consume, handle_all, drain_lines, finish, run,
}
use logstat.Daemon.Recovery.Maps.{HasMaps}
use logstat.Daemon.Recovery.Loop.{consume_rest, consume_same, loop-HasMaps}
use logstat.Daemon.Recovery.{Clear}
use logstat.Daemon.Recovery.Serving.{flush_recovers}

module _ (to_lower : Text → Text) (c : Client) (st : Store) (actions : List Text) where
  -- The world in which the loop of Run ends.
  abbrev pub at_end : Message → Time → List Event → World c.Server → World c.Server
  at_end scheduling start_now events w =
      handle_all to_lower c st actions events
        (say scheduling (ensure_init c st actions start_now w).1)

module _ (to_lower : Text → Text) (c : Client) (r : Books c) (st : Store)
    (actions : List Text) where
  -- By the keys r, the total of each action has room for what waits once the last lines are counted,
  -- in the world in which the loop ends.
  abbrev pub HasRoomLeft : List Line → World c.Server → Type 0
  HasRoomLeft lines w =
      AllRoom c r st actions (consume to_lower c st actions lines w).cnt.pending w.server

module _ (to_lower : Text → Text) (c : Client) (r : Books c) (st : Store) (actions : List Text)
    (up : c.Server → Type 0) (av : Available c r st up) (ds : Distinct actions) where
  -- Nothing waits to be written, for this action or in the buffer.
  abbrev pub Delivered : World c.Server → Text → Type 0
  Delivered w b = (w.cnt.pending ≡ []) × Clear w b × up w.server

  HasRoomLeft-say :
      (m : Message) (lines : List Line) (w : World c.Server)
      → HasRoomLeft to_lower c r st actions lines w
      → HasRoomLeft to_lower c r st actions lines (say m w)
  HasRoomLeft-say m lines w room x f =
      let same = consume_same to_lower c st actions lines w (say m w) refl in
      ground (arith, room x f, same)

  drain_lines-Delivered :
      (stop_ok : Bool) (lines : List Line) (init_now now : Time) (w : World c.Server) (b : Text)
      → up w.server
      → HasMaps w
      → text_elem b actions ≡ true
      → HasRoomLeft to_lower c r st actions lines w
      → Delivered (drain_lines to_lower c st actions stop_ok lines init_now now w) b
  unfolding drain_lines
  drain_lines-Delivered stop_ok lines init_now now w b h m e room =
      let w0 = if stop_ok then w else say stop_failed w in
      let w1 = consume to_lower c st actions lines w0 in
      let rest = consume_rest to_lower c st actions lines w0 in
      let same = consume_same to_lower c st actions lines w w0 (ground arith) in
      let fits : AllRoom c r st actions w1.cnt.pending w1.server =
        λ x f. ground (arith, room x f, rest, same) in
      let flushed = λ (u : up w1.server) (v : HasMaps w1).
        flush_recovers c r st actions up av (λ n. n) init_now now w1 b u v e ds fits in
      ground (arith, h, m, e, rest, flushed, drain_lem w1.cnt)

  finish-Delivered :
      (end : End) (stop_ok : Bool) (lines : List Line) (init_now now : Time) (w : World c.Server)
      (b : Text)
      → up w.server
      → HasMaps w
      → text_elem b actions ≡ true
      → HasRoomLeft to_lower c r st actions lines w
      → Delivered (finish to_lower c st actions end stop_ok lines init_now now w) b
  unfolding finish
  finish-Delivered cancelled stop_ok lines init_now now w b h m e room =
      drain_lines-Delivered stop_ok lines init_now now (say shutting_down w) b h
        (record { resets = m.resets; heartbeats = m.heartbeats }) e
        (HasRoomLeft-say shutting_down lines w room)
  finish-Delivered exporter_died stop_ok lines init_now now w b h m e room =
      drain_lines-Delivered stop_ok lines init_now now (say metrics_failed w) b h
        (record { resets = m.resets; heartbeats = m.heartbeats }) e
        (HasRoomLeft-say metrics_failed lines w room)

  -- However a run goes, with all its outages and resets, if Redis answers when it ends then it leaves
  -- nothing to be written: the buffer is empty, and for each configured action no reset is due and no
  -- heartbeat waits. The conditions: the operations of the store are answered by a server that is up,
  -- an increment where it does not overflow; when the loop ends it is up, and has room in each total
  -- for all that waits with the last lines; the actions are distinct; and at the start none stands
  -- twice in the maps of what is due.
  pub run_delivers :
      (scheduling : Message) (start_now : Time) (events : List Event) (end : End) (stop_ok : Bool)
      (lines : List Line) (init_now now : Time) (w : World c.Server) (b : Text)
      → up (at_end to_lower c st actions scheduling start_now events w).server
      → HasMaps w
      → text_elem b actions ≡ true
      → HasRoomLeft to_lower c r st actions lines
          (at_end to_lower c st actions scheduling start_now events w)
      → Delivered
          (run to_lower c st actions scheduling start_now events end stop_ok lines init_now now w)
          b
  unfolding run
  run_delivers scheduling start_now events end stop_ok lines init_now now w b h m e room =
      finish-Delivered end stop_ok lines init_now now
        (at_end to_lower c st actions scheduling start_now events w) b h
        (loop-HasMaps to_lower c st actions scheduling start_now events w m) e room
