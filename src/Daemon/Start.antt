-- ===== src/Daemon/Start.antt =====
-- internal/daemon/daemon.go: New, MetricsAddr, startMetrics and Run from its first line to its last.
--
-- Outside is what the calls of other packages return. The events of a run, and what ends it, are those
-- of Daemon/Run; the goroutines of the exporter and of the scheduler show there only.
pub mod Errors
pub mod Delivery
pub mod Tests
use logstat.Prelude.{
  Bool, true, false, not, ◌&&◌, List, [], Option, none, some, ◌⊎◌, inl, inr, if◌then◌else◌,
}
use logstat.Text.{Text}
use logstat.Int64.{Int64}
use logstat.Logging.Level.{level_info, level_error}
use logstat.Config.{Config}
use logstat.Counter.{new}
use logstat.Metrics.Server.{ServerError, Server, new_server, ServeEnd, serve, shutdown}
use logstat.Store.Redis.{Client}
use logstat.Store.Keys.{Time}
use logstat.Store.{Store}
use logstat.Daemon.{
  Message, starting, metrics_disabled, metrics_not_shut, reset_disabled, metrics_listening,
  metrics_stopped, log_found, log_missing, reset_scheduled, World, say,
}
use logstat.Daemon.Flush.{ensure_init}
use logstat.Daemon.Run.{Line, Event, End, cancelled, exporter_died, consume, run}

-- io.SeekStart, io.SeekCurrent and io.SeekEnd
pub data Whence : Type 0 where
  seek_start seek_current seek_end : Whence

-- tail.SeekInfo
pub record SeekInfo : Type 0 where
  pub offset : Int64
  pub whence : Whence

-- tail.Config, without its logger.
pub record TailConfig : Type 0 where
  pub location : Option SeekInfo
  pub re_open : Bool
  pub follow : Bool
  pub must_exist : Bool
  pub poll : Bool
  pub complete_lines : Bool

-- The methods of tailLogger, and the level at which each logs.
pub data TailMethod : Type 0 where
  fatal fatalf fatalln panic panicf panicln print printf println : TailMethod

unfoldable pub tail_level : TailMethod → Int64
tail_level fatal = level_error
tail_level fatalf = level_error
tail_level fatalln = level_error
tail_level panic = level_error
tail_level panicf = level_error
tail_level panicln = level_error
tail_level print = level_info
tail_level printf = level_info
tail_level println = level_info

-- net.Listen, whether os.Stat finds a file, whether tail.TailFile and the scheduler's AddFunc accept
-- their arguments, and whether http.Server.Shutdown ends in time.
pub record Outside : Type 0 where
  pub listen : Text → Option Text
  pub is_there : Text → Bool
  pub can_tail : Text → TailConfig → Bool
  pub can_schedule : Text → Bool
  pub shuts_down : Bool

-- What happens to a daemon that runs: the arguments of Daemon.Run.
pub record Course : Type 0 where
  pub start_now : Time
  pub events : List Event
  pub end : End
  pub stop_ok : Bool
  pub lines : List Line
  pub init_now : Time
  pub now : Time

-- What Run returns if not nil.
pub data RunError : Type 0 where
  no_exporter : ServerError → RunError
  no_tail no_schedule exporter_failed : RunError

-- The Daemon: its world, and the address of its exporter.
pub record Daemon (S : Type 0) : Type 0 where
  pub world : World S
  pub metrics_addr : Option Text

-- New
unfoldable pub new_daemon : {S : Type 0} → (Text → Text) → Config → S → Daemon S
new_daemon to_lower cfg server = record {
  world = record {
    cnt = new to_lower cfg.actions cfg.case_sensitive;
    initialized = false;
    pending_heartbeats = [];
    pending_resets = [];
    redis_down = false;
    log = [];
    server = server;
  };
  metrics_addr = none;
}

-- Daemon.MetricsAddr
unfoldable pub metrics_addr_of : {S : Type 0} → Daemon S → Text
metrics_addr_of d = elim d.metrics_addr [ none ↦ [] | some a ↦ a ]

abbrev pub say_of : {S : Type 0} → Message → Daemon S → Daemon S
say_of m d = record d { world = say m d.world }

-- What Run passes to tail.TailFile: an existing file is read from its end.
unfoldable pub tail_config : Config → Bool → TailConfig
tail_config cfg there = record {
  location = if there then some (record { offset = 0; whence = seek_end }) else none;
  re_open = true;
  follow = true;
  must_exist = false;
  poll = cfg.poll;
  complete_lines = true;
}

-- startMetrics: the address that the function it returns takes down, none if that does nothing.
unfoldable pub start_metrics :
    {S : Type 0} → (Text → Option Text) → Config → Daemon S → (ServerError ⊎ Option Text) × Daemon S
start_metrics listen cfg d =
    if cfg.metrics.enabled
    then elim (new_server listen cfg.metrics) [
      | inl e ↦ (inl e, d)
      | inr srv ↦ (
        inr (some srv.addr),
        record d {
          metrics_addr = some srv.addr;
          world = say (metrics_listening srv.addr srv.path) d.world;
        },
      )
    ]
    else (inr none, say_of metrics_disabled d)

-- What the goroutine of the exporter makes of the end of Serve: a clean end is silent.
unfoldable pub exporter_end : ServeEnd → Option End
unfolding serve
exporter_end e = elim (serve e) [ none ↦ none | some _ ↦ some exporter_died ]

-- The function that startMetrics returns.
unfoldable pub stop_metrics : {S : Type 0} → Bool → Option Text → Daemon S → Daemon S
stop_metrics shuts_down none d = d
stop_metrics shuts_down (some addr) d = record d {
  metrics_addr = none;
  world =
      say (metrics_stopped addr)
        (elim (shutdown shuts_down) [ none ↦ d.world | some _ ↦ say metrics_not_shut d.world ]);
}

module _ (to_lower : Text → Text) (c : Client) (st : Store) (cfg : Config) (out : Outside) where
  -- The message on the schedule.
  abbrev pub scheduling : Message
  scheduling = if cfg.reset.enabled then reset_scheduled cfg.reset.schedule else reset_disabled

  -- Run behind TailFile. A schedule that is refused ends it when the lines that were read are counted.
  unfoldable pub run_tailing : Course → World c.Server → Option RunError × World c.Server
  run_tailing x w =
      if cfg.reset.enabled && not (out.can_schedule cfg.reset.schedule)
      then (
        some no_schedule,
        consume to_lower c st cfg.actions x.lines (ensure_init c st cfg.actions x.start_now w).1,
      )
      else (
        elim x.end [ cancelled ↦ none | exporter_died ↦ some exporter_failed ],
        run to_lower c st cfg.actions scheduling x.start_now x.events x.end x.stop_ok x.lines
            x.init_now x.now w,
      )

  -- Run behind startMetrics.
  unfoldable pub run_exporting : Course → World c.Server → Option RunError × World c.Server
  run_exporting x w =
      let there = out.is_there cfg.log_path in
      let w1 = say (if there then log_found cfg.log_path else log_missing cfg.log_path) w in
      if out.can_tail cfg.log_path (tail_config cfg there)
      then run_tailing x w1
      else (some no_tail, w1)

  -- Run
  unfoldable pub run_daemon : Course → Daemon c.Server → Option RunError × Daemon c.Server
  run_daemon x d =
      let (started, d1) = start_metrics out.listen cfg (say_of starting d) in
      elim started [
        | inl e ↦ (some (no_exporter e), d1)
        | inr stop ↦
            let (err, w) = run_exporting x d1.world in
            (err, stop_metrics out.shuts_down stop (record d1 { world = w }))
      ]
