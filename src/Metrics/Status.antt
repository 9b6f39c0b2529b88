-- ===== src/Metrics/Status.antt =====
-- Collector.status (internal/metrics/status.go): the data of the status page. The template that lays
-- them out is not modelled.
pub mod Rows
use logstat.Prelude.{
  ◌≡◌, Bool, true, false, not, ◌&&◌, List, [], ◌∷◌, ◌++◌, map, Option, none, some, if◌then◌else◌,
}
use logstat.Text.{Text, codes, text_eq}
use logstat.Text.Decimal.{show64}
use logstat.Int64.{Int64}
use logstat.Dict.{Dict, lookup}
use logstat.Dict.Totals.{get64}
use logstat.Counter.{Counter, matched_snapshot, pending_by_action}
use logstat.Config.{Config, addr}
use logstat.Store.{Error, is_unavailable}
use logstat.Metrics.{Clock, Reader, Collector}
use logstat.Metrics.Format.{
  yes_no, set_or_not, format_uptime, format_ttl, format_reset, format_logging,
}

-- missing
abbrev pub missing : Text
missing = codes "—"

-- wordRow
pub record WordRow : Type 0 where
  pub action : Text
  pub matched : Int64
  pub pending : Int64
  pub redis : Text

-- statusData. The note is the error whose message it shows.
pub record StatusData : Type 0 where
  pub version : Text
  pub host : Text
  pub uptime : Text
  pub started : Text
  pub rendered : Text
  pub metrics_path : Text
  pub redis_addr : Text
  pub redis_db : Int64
  pub redis_up : Bool
  pub redis_note : Option Error
  pub words : List WordRow
  pub config : List (Text × Text)

-- if err != nil && redisUp { redisNote = ... }
abbrev pub note_of : Option Error → Option Error
note_of error = if is_unavailable error then none else error

-- The text of the total in Redis.
abbrev pub redis_text : Option Int64 → Text
redis_text none = missing
redis_text (some n) = show64 n

-- The body of the loop over the actions.
abbrev pub word_row : Dict Int64 → Dict Int64 → Dict Int64 → Text → WordRow
word_row matched pending counters a = record {
  action = a;
  matched = get64 a matched;
  pending = get64 a pending;
  redis = redis_text (lookup a counters);
}

-- The table of the configuration; duration_text is Duration.String.
unfoldable pub config_table : (Int64 → Text) → Config → List (Text × Text)
config_table duration_text cfg =
    (codes "log_path", cfg.log_path)
    ∷ (codes "lock_file", cfg.lock_file)
    ∷ (codes "case_sensitive", yes_no cfg.case_sensitive)
    ∷ (codes "flush_interval", show64 cfg.flush_interval ++ codes "s")
    ∷ (codes "poll", yes_no cfg.poll)
    ∷ (codes "heartbeat_key", yes_no cfg.heartbeat_key)
    ∷ (codes "redis.ttl", format_ttl duration_text cfg.redis.ttl)
    ∷ (codes "redis.password", set_or_not (not (text_eq cfg.redis.password [])))
    ∷ (codes "reset", format_reset cfg.reset.enabled cfg.reset.schedule)
    ∷ (codes "logging", format_logging cfg.logging.level cfg.logging.output cfg.logging.file)
    ∷ (codes "metrics.listen", cfg.metrics.listen)
    ∷ []

module _ (duration_text : Int64 → Text) (k : Clock) (r : Reader) where
  -- Collector.status, and the server that its read leaves.
  unfoldable pub status :
      Collector k.Instant → Counter → k.Instant → r.Server → StatusData × r.Server
  unfolding config_table
  status c cnt now server =
      let ((counters, error), server') = r.counters c.cfg.actions server in
      (
        record {
          version = c.version;
          host = r.host;
          uptime = format_uptime (k.sub now c.start);
          started = k.human c.start;
          rendered = k.human now;
          metrics_path = c.cfg.metrics.path;
          redis_addr = addr c.cfg.redis;
          redis_db = c.cfg.redis.db;
          redis_up = not (is_unavailable error);
          redis_note = note_of error;
          words =
              map (word_row (matched_snapshot cnt) (pending_by_action cnt) counters) c.cfg.actions;
          config = config_table duration_text c.cfg;
        },
        server',
      )
