-- ===== src/Daemon/Start/Tests.antt =====
-- A daemon whose exporter cannot bind, one that runs, and the level of the tailer's messages.
use logstat.Prelude.{◌≡◌, refl, ◌↔◌, true, [], ◌∷◌, none, some}
use logstat.Text.{Text, codes}
use logstat.Config.{Config, default}
use logstat.Store.Toy.{Toy, toy}
use logstat.Daemon.Run.{text, read, tick, cancelled, exporter_died}
use logstat.Daemon.Start.{
  Outside, Course, Daemon, new_daemon, run_daemon, exporter_end, tail_level, fatalf,
}
use logstat.Metrics.Server.{server_closed, other_error}
use logstat.Logging.Level.{level_error}
use logstat.Daemon.Start.Errors.{CanExport, CanTail, CanSchedule, run_daemon_error}
use logstat.Daemon.Recovery.Tests.{arrivals, left}
use logstat.Dict.{Dict}
use logstat.Daemon.Tests.{both, web, noon, same}

-- Every address is in use.
abbrev taken : Outside
taken = record {
  listen = λ _. none;
  is_there = λ _. true;
  can_tail = λ _ _. true;
  can_schedule = λ _. true;
  shuts_down = true;
}

abbrev exporting : Config
exporting = record default { metrics = record default.metrics { enabled = true } }

abbrev short : Course
short = record {
  start_now = noon;
  events = read (text (codes "get-sms")) ∷ tick noon noon [] ∷ [];
  end = cancelled;
  stop_ok = true;
  lines = [];
  init_now = noon;
  now = noon;
}

abbrev fresh : Daemon Toy
fresh = new_daemon same exporting (record { keys = []; calls_left = 50 })

run_daemon_error_example :
    let (err, d) = run_daemon same (toy true) web exporting taken short fresh in
    ((err ≡ none) ↔ (
      CanExport same (toy true) web exporting taken
      × CanTail same (toy true) web exporting taken
      × CanSchedule same (toy true) web exporting taken
      × (short.end ≡ cancelled)))
    × (¬ (
          CanExport same (toy true) web exporting taken
          × CanTail same (toy true) web exporting taken)
        → (d.world.server ≡ fresh.world.server) × (d.world.cnt ≡ fresh.world.cnt))
    × (fresh.metrics_addr ≡ none → d.metrics_addr ≡ none)
run_daemon_error_example = run_daemon_error same (toy true) web exporting taken short fresh

-- A shutdown of the exporter does not end the daemon, and its failure does.
exporter_end_clean : exporter_end server_closed ≡ none
unfolding exporter_end
exporter_end_clean = refl

exporter_end_failed : exporter_end other_error ≡ some exporter_died
unfolding exporter_end
exporter_end_failed = refl

tail_level_fatal : tail_level fatalf ≡ level_error
unfolding tail_level
tail_level_fatal = refl

-- Nothing stands in the way.
abbrev free : Outside
free = record taken { listen = some }

abbrev counting : Config
counting = record default { actions = both }

abbrev begun : Daemon (Dict Text)
begun = new_daemon same counting []

abbrev brief : Course
brief = record short { events = arrivals; lines = left }
