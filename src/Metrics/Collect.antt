-- ===== src/Metrics/Collect.antt =====
-- Collector.Collect and its four parts (internal/metrics/collector.go): the samples of one scrape.
pub mod Lookup
pub mod Scrape
pub mod Accepted
use logstat.Prelude.{
  ◌≡◌, Bool, true, false, not, List, [], ◌∷◌, ◌++◌, map, Option, none, some, length, if◌then◌else◌,
}
use logstat.Text.{Text, text_eq}
use logstat.Text.Decimal.{show64}
use logstat.Int64.{Int64, add64}
use logstat.Dict.{Dict}
use logstat.Counter.{Counter, matched_snapshot, pending_by_action}
use logstat.Config.{Config, addr}
use logstat.Store.{Error, is_unavailable}
use logstat.Metrics.{
  Clock, Reader, Collector, State, Desc, uptime, start_time, config_info, flush_interval, redis_ttl,
  case_sensitive, poll, heartbeat_key, reset_enabled, actions, lines_read, matched_lines, pending,
  redis_counter, redis_up, redis_scrape_errs,
}
use logstat.Metrics.Format.{bool_value, bool_label}

-- prometheus.GaugeValue and CounterValue
pub data Kind : Type 0 where
  gauge counter : Kind

-- The float64 of a sample, by what it is made from: an integer, or a duration in seconds.
pub data Value : Type 0 where
  of_int of_seconds : Int64 → Value

-- prometheus.MustNewConstMetric(desc, kind, value, labels...)
pub record Sample : Type 0 where
  pub desc : Desc
  pub kind : Kind
  pub value : Value
  pub labels : List Text

abbrev pub sample : Desc → Kind → Value → List Text → Sample
sample d k v labels = record { desc = d; kind = k; value = v; labels = labels }

abbrev pub flag : Desc → Bool → Sample
flag d b = sample d gauge (of_int (bool_value b)) []

-- for action, n := range m { ch <- ... }
unfoldable pub per_action : Desc → Kind → Dict Int64 → List Sample
per_action d k [] = []
per_action d k ((a, n) ∷ m) = sample d k (of_int n) (a ∷ []) ∷ per_action d k m

-- Collector.collectProcess
unfoldable pub collect_process : (k : Clock) → Collector k.Instant → k.Instant → List Sample
collect_process k c now =
    sample uptime gauge (of_seconds (k.sub now c.start)) []
    ∷ sample start_time gauge (of_int (k.unix c.start)) []
    ∷ []

-- Collector.collectConfig
unfoldable pub collect_config : Config → Text → List Sample
collect_config cfg host =
    sample config_info gauge (of_int 1) (
      cfg.log_path
      ∷ host
      ∷ addr cfg.redis
      ∷ show64 cfg.redis.db
      ∷ bool_label (not (text_eq cfg.redis.password []))
      ∷ cfg.logging.output
      ∷ cfg.reset.schedule
      ∷ [])
    ∷ sample flush_interval gauge (of_int cfg.flush_interval) []
    ∷ sample redis_ttl gauge (of_int cfg.redis.ttl) []
    ∷ flag case_sensitive cfg.case_sensitive
    ∷ flag poll cfg.poll
    ∷ flag heartbeat_key cfg.heartbeat_key
    ∷ flag reset_enabled cfg.reset.enabled
    ∷ sample actions gauge (of_int (length cfg.actions)) []
    ∷ []

-- Collector.collectCounter
unfoldable pub collect_counter : Counter → List Sample
unfolding per_action
collect_counter cnt =
    sample lines_read counter (of_int cnt.lines) []
    ∷ (per_action matched_lines counter (matched_snapshot cnt)
        ++ per_action pending gauge (pending_by_action cnt))

-- The end of collectRedis, behind the read.
unfoldable pub redis_samples : Dict Int64 → Option Error → Int64 → List Sample
unfolding per_action
redis_samples counters error errors =
    flag redis_up (not (is_unavailable error))
    ∷ (per_action redis_counter gauge counters
        ++ (sample redis_scrape_errs counter (of_int errors) [] ∷ []))

-- c.redisErrors.Add(1) and the message, if the read came with an error.
abbrev pub note_read : Option Error → State → State
note_read none s = s
note_read (some e) s = record { redis_errors = add64 s.redis_errors 1; log = e ∷ s.log }

-- Collector.collectRedis
unfoldable pub collect_redis :
    (r : Reader) → Config → State → r.Server → List Sample × (State × r.Server)
unfolding redis_samples
collect_redis r cfg s server =
    let ((counters, error), server') = r.counters cfg.actions server in
    let s' = note_read error s in (redis_samples counters error s'.redis_errors, (s', server'))

-- Collector.Collect
unfoldable pub collect :
    (k : Clock) (r : Reader)
    → Collector k.Instant
    → Counter
    → k.Instant
    → State
    → r.Server
    → List Sample × (State × r.Server)
unfolding collect_process collect_config collect_counter collect_redis
collect k r c cnt now s server =
    let (samples, after) = collect_redis r c.cfg s server in
    (
      collect_process k c now ++ (collect_config c.cfg r.host ++ (collect_counter cnt ++ samples)),
      after,
    )
