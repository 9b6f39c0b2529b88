-- ===== src/Daemon/Run.antt =====
-- internal/daemon/daemon.go: the select loop of Run with the goroutine of consume, and drain.
--
-- A run is a sequence of events in the order in which they take effect. The ticker and the schedule
-- fire in the loop, one at a time; a line of the tailer comes between two of them or while a flush
-- runs. The tail library, the ticker and the scheduler decide on the events, and are not modelled.
pub mod Counting
pub mod Conserved
pub mod Lines
pub mod Whole
use logstat.Prelude.{Bool, true, false, List, [], ◌∷◌, ◌++◌, if◌then◌else◌}
use logstat.Text.{Text}
use logstat.Counter.{Counter, process_line, process_lines}
use logstat.Store.Redis.{Client}
use logstat.Store.Keys.{Time}
use logstat.Store.{Store}
use logstat.Daemon.{
  Message, World, say, line_matched, tail_failed, stop_failed, metrics_failed, reset_fired,
  shutting_down, stopped,
}
use logstat.Daemon.Flush.{ensure_init, flush}
use logstat.Daemon.Reset.{reset_counters}

-- What the tailer hands to consume: the text of a line, or an error.
pub data Line : Type 0 where
  text : Text → Line
  failed : Line

-- What the loop of Run waits for, with the times that the handler reads and the lines that come in
-- while it runs.
pub data Event : Type 0 where
  read : Line → Event
  tick : Time → Time → List Text → Event
  scheduled : Time → Time → Time → List Text → Event

-- What ends the loop: the context, or the metrics exporter.
pub data End : Type 0 where
  cancelled exporter_died : End

module _ (to_lower : Text → Text) (c : Client) (st : Store) (actions : List Text) where
  -- The body of the loop of consume.
  unfoldable pub consume_line : Line → World c.Server → World c.Server
  consume_line failed w = say tail_failed w
  consume_line (text t) w =
      let (matched, cnt) = process_line to_lower w.cnt t in
      elim matched [
        | [] ↦ record w { cnt = cnt }
        | a ∷ rest ↦ say (line_matched (a ∷ rest) t) (record w { cnt = cnt })
      ]

  -- consume
  unfoldable pub consume : List Line → World c.Server → World c.Server
  consume [] w = w
  consume (l ∷ lines) w = consume lines (consume_line l w)

  -- One turn of the loop of Run, or one line.
  unfoldable pub handle : Event → World c.Server → World c.Server
  handle (read l) w = consume_line l w
  handle (tick init_now now lines) w =
      flush c st actions (λ n. process_lines to_lower n lines) init_now now w
  handle (scheduled init_now flush_now now lines) w =
      reset_counters c st actions (λ n. process_lines to_lower n lines) init_now flush_now now
        (say reset_fired w)

  unfoldable pub handle_all : List Event → World c.Server → World c.Server
  handle_all [] w = w
  handle_all (e ∷ events) w = handle_all events (handle e w)

  -- drain: the tailer is stopped, what it has read already is counted, and then all is written out.
  unfoldable pub drain_lines : Bool → List Line → Time → Time → World c.Server → World c.Server
  drain_lines stop_ok lines init_now now w =
      flush c st actions (λ n. n) init_now now
        (consume lines (if stop_ok then w else say stop_failed w))

  -- The end of Run.
  unfoldable pub finish : End → Bool → List Line → Time → Time → World c.Server → World c.Server
  finish cancelled stop_ok lines init_now now w =
      say stopped (drain_lines stop_ok lines init_now now (say shutting_down w))
  finish exporter_died stop_ok lines init_now now w =
      drain_lines stop_ok lines init_now now (say metrics_failed w)

  -- Run behind the start of the tailer; scheduling is the message on the schedule.
  unfoldable pub run :
      Message
      → Time
      → List Event
      → End
      → Bool
      → List Line
      → Time
      → Time
      → World c.Server
      → World c.Server
  run scheduling start_now events end stop_ok lines init_now now w =
      finish end stop_ok lines init_now now
        (handle_all events (say scheduling (ensure_init c st actions start_now w).1))
