-- ===== src/Daemon/Recovery/Tests.antt =====
-- A flush and a run on a Redis that answers.
use logstat.Prelude.{map, ap, ◌∙◌, Bool, ◌≡◌, refl, true, false, List, [], ◌∷◌, arith}
use logstat.Text.{Text, codes, text_eq, text_elem}
use logstat.Int64.{add64}
use logstat.Dict.{Dict, insert, lookup, lookup_or}
use logstat.Dict.Totals.{get64, add_at}
use logstat.Counter.{drain, process_line}
use logstat.Store.Toy.Steady.{steady, steady_books, steady-Available, Integers, empty_total}
use logstat.Daemon.{Message, say, reset_scheduled, World}
use logstat.Daemon.Flush.{ensure_init, flush}
use logstat.Daemon.Run.{
  text, failed, Line, Event, read, exporter_died, consume, consume_line, handle, handle_all, run,
}
use logstat.Daemon.Tests.{get, put, both, web, noon, buffered, same, both-Distinct, meanwhile}
use logstat.Store.Available.{AllRoom}
use logstat.Daemon.Recovery.Maps.{HasMaps}
use logstat.Daemon.Recovery.Serving.{Flushed, flush_recovers, ensure_init-up}
use logstat.Daemon.Recovery.Room.{ensure_init_total}
use logstat.Daemon.Recovery.Loop.{consume_rest, consume_same}
use logstat.Text.Search.{contains}
use logstat.Daemon.Recovery.Delivery.{at_end, HasRoomLeft, Delivered, run_delivers}

-- A daemon in an outage with a reset that is due and a heartbeat that waits, before a Redis that is
-- back and has no keys.
abbrev behind : Dict Bool → World (Dict Text)
behind resets = record {
  cnt = buffered;
  initialized = false;
  pending_heartbeats = (put, 4) ∷ [];
  pending_resets = resets;
  redis_down = true;
  log = [];
  server = [];
}

behind-HasMaps : HasMaps (behind ((get, true) ∷ []))
unfolding lookup
behind-HasMaps = record { resets = (refl, tt); heartbeats = (refl, tt) }

empty-Integers : Integers web []
unfolding lookup
empty-Integers a = refl

-- What is buffered has room in the totals, which are all zero.
buffered-AllRoom : AllRoom steady steady_books web both buffered.pending []
unfolding get64 lookup_or lookup
buffered-AllRoom a e = ground (arith, empty_total web a)

flush_recovers_example :
    Flushed steady steady_books web both
      (Integers web)
      (steady-Available web)
      (meanwhile (drain buffered).1)
      get
      (flush steady web both meanwhile noon noon (behind ((get, true) ∷ [])))
unfolding text_elem text_eq
flush_recovers_example =
    flush_recovers steady steady_books web both (Integers web) (steady-Available web) meanwhile noon
      noon (behind ((get, true) ∷ [])) get empty-Integers behind-HasMaps refl both-Distinct
      buffered-AllRoom

-- A line and an error of the tailer while the daemon runs, and a line at the shutdown.
abbrev pub arrived : List Line
arrived = text (codes "get /c") ∷ failed ∷ []

abbrev pub left : List Line
left = text (codes "get /d") ∷ []

abbrev pub arrivals : List Event
arrivals = map read arrived

abbrev ended : Message → World (Dict Text) → World (Dict Text)
ended scheduling w = at_end same steady web both scheduling noon arrivals w

abbrev started : World (Dict Text) → World (Dict Text)
started w = (ensure_init steady web both noon w).1

-- The lines that arrive and those that are left, counted.
abbrev pub all_counted : World (Dict Text) → World (Dict Text)
all_counted w = consume same steady web both left (consume same steady web both arrived w)

-- The loop counts the lines that arrive.
ended_consumed :
    (scheduling : Message) (w : World (Dict Text))
    → ended scheduling w ≡ consume same steady web both arrived (say scheduling (started w))
unfolding handle_all handle consume
ended_consumed scheduling w = refl

ended_server :
    (scheduling : Message) (w : World (Dict Text))
    → (ended scheduling w).server ≡ (started w).server
ended_server scheduling w =
    ap (λ x. x.server) (ended_consumed scheduling w)
    ∙ (consume_rest same steady web both arrived (say scheduling (started w))).1

pub ended-Integers :
    (scheduling : Message) (w : World (Dict Text))
    → Integers web w.server
    → Integers web (ended scheduling w).server
ended-Integers scheduling w h =
    let initialised =
      ensure_init-up steady steady_books web both (Integers web) (steady-Available web) noon w h in
    rw (ended_server scheduling w) initialised.1

ended_cnt :
    (scheduling : Message) (w : World (Dict Text))
    → Integers web w.server
    → (consume same steady web both left (ended scheduling w)).cnt ≡ (all_counted w).cnt
ended_cnt scheduling w h =
    let initialised =
      ensure_init-up steady steady_books web both (Integers web) (steady-Available web) noon w h in
    consume_same same steady web both left _ (ended scheduling w) (
      ap (λ x. x.cnt) (ended_consumed scheduling w)
      ∙ consume_same same steady web both arrived w (say scheduling (started w)) (initialised.2))

pub ended-HasRoomLeft :
    (scheduling : Message) (w : World (Dict Text))
    → Integers web w.server
    → AllRoom steady steady_books web both (all_counted w).cnt.pending w.server
    → HasRoomLeft same steady steady_books web both left (ended scheduling w)
ended-HasRoomLeft scheduling w h room a e =
    let initialised = ensure_init_total steady steady_books web both noon w a in
    ground (arith, initialised, room a e, ended_server scheduling w, ended_cnt scheduling w h)

behind-AllRoom :
    (resets : Dict Bool)
    → AllRoom steady steady_books web both (all_counted (behind resets)).cnt.pending []
unfolding consume consume_line process_line contains add_at insert text_eq add64 get64 lookup
    lookup_or
behind-AllRoom resets a e = ground (arith, empty_total web a)

run_delivers_example :
    Delivered same steady steady_books web both
      (Integers web)
      (steady-Available web)
      both-Distinct
      (run same steady web both
        (reset_scheduled (codes "0 0 * * *"))
        noon
        arrivals
        exporter_died
        true
        left
        noon
        noon
        (behind ((get, true) ∷ [])))
      put
unfolding text_elem text_eq
run_delivers_example =
    run_delivers same steady steady_books web both (Integers web) (steady-Available web)
      both-Distinct (reset_scheduled (codes "0 0 * * *")) noon arrivals exporter_died true left noon
      noon (behind ((get, true) ∷ [])) put
      (ended-Integers (reset_scheduled (codes "0 0 * * *")) (behind ((get, true) ∷ []))
        empty-Integers)
      behind-HasMaps refl
      (ended-HasRoomLeft (reset_scheduled (codes "0 0 * * *")) (behind ((get, true) ∷ []))
        empty-Integers (behind-AllRoom ((get, true) ∷ [])))
