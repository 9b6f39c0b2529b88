-- ===== src/Metrics.antt =====
-- internal/metrics/collector.go: the collector, its descriptions, and what it is built from.
--
-- time.Time is the parameter Clock, and the part of the store that the collector reads is the
-- parameter Reader. A collector's atomic error counter and the messages that it logs are its State;
-- the counter and the clock are arguments of each scrape.
pub mod Format
pub mod Collect
pub mod Status
pub mod Secret
pub mod Server
pub mod Uptime
pub mod OfStore
pub mod Tests
use logstat.Prelude.{
  ◌≡◌, Bool, true, false, List, [], ◌∷◌, ◌++◌, Option, none, some, not, if◌then◌else◌,
}
use logstat.Text.{Text, codes, text_eq}
use logstat.Int64.{Int64, is_positive}
use logstat.Dict.{Dict}
use logstat.Config.{Config, second}
use logstat.Config.Route.{RouteProblem}
use logstat.Store.{Error}

-- What the collector uses of package time: Sub, Unix, Format(humanTime), and IsZero.
pub record Clock : Type 1 where
  pub Instant : Type 0
  pub sub : Instant → Instant → Int64
  pub unix : Instant → Int64
  pub human : Instant → Text
  pub is_zero : Instant → Bool

-- Reader, with the server behind it.
pub record Reader : Type 1 where
  pub Server : Type 0
  pub counters : List Text → Server → (Dict Int64 × Option Error) × Server
  pub host : Text

-- defaultTimeout
abbrev pub default_timeout : Int64
default_timeout = 2_000_000_000

-- Options, without the clock and the logger; the first field is Start.
pub record Options (I : Type 0) : Type 0 where
  pub start : I
  pub timeout : Int64
  pub version : Text

-- Collector, without its descriptions, which are the same for all.
pub record Collector (I : Type 0) : Type 0 where
  pub cfg : Config
  pub start : I
  pub timeout : Int64
  pub version : Text

-- What a scrape changes: redisErrors, and the errors that were logged, the latest first.
pub record State : Type 0 where
  pub redis_errors : Int64
  pub log : List Error

-- The fields of Collector that hold a description.
pub data Desc : Type 0 where
  uptime start_time config_info flush_interval redis_ttl case_sensitive poll : Desc
  heartbeat_key reset_enabled actions lines_read matched_lines pending : Desc
  redis_counter redis_up redis_scrape_errs : Desc

-- configInfoLabels
abbrev pub config_info_labels : List Text
config_info_labels =
    codes "log_path"
    ∷ codes "host"
    ∷ codes "redis_addr"
    ∷ codes "redis_db"
    ∷ codes "redis_password_set"
    ∷ codes "logging_output"
    ∷ codes "reset_schedule"
    ∷ []

-- namespace
abbrev pub namespace : Text
namespace = codes "logstat_"

abbrev by_action : List Text
by_action = codes "action" ∷ []

-- The names and the labels that NewCollector gives to the descriptions.
unfoldable pub desc_name : Desc → Text
desc_name uptime = namespace ++ codes "uptime_seconds"
desc_name start_time = namespace ++ codes "start_time_seconds"
desc_name config_info = namespace ++ codes "config_info"
desc_name flush_interval = namespace ++ codes "config_flush_interval_seconds"
desc_name redis_ttl = namespace ++ codes "config_redis_ttl_seconds"
desc_name case_sensitive = namespace ++ codes "config_case_sensitive"
desc_name poll = namespace ++ codes "config_poll"
desc_name heartbeat_key = namespace ++ codes "config_heartbeat_key"
desc_name reset_enabled = namespace ++ codes "config_reset_enabled"
desc_name actions = namespace ++ codes "config_actions"
desc_name lines_read = namespace ++ codes "lines_read_total"
desc_name matched_lines = namespace ++ codes "matched_lines_total"
desc_name pending = namespace ++ codes "pending_increments"
desc_name redis_counter = namespace ++ codes "redis_counter"
desc_name redis_up = namespace ++ codes "redis_up"
desc_name redis_scrape_errs = namespace ++ codes "redis_scrape_errors_total"

unfoldable pub desc_labels : Desc → List Text
desc_labels config_info = config_info_labels
desc_labels matched_lines = by_action
desc_labels pending = by_action
desc_labels redis_counter = by_action
desc_labels _ = []

-- Collector.Describe
abbrev pub describe : List Desc
describe =
    uptime ∷ start_time ∷ config_info ∷ flush_interval ∷ redis_ttl ∷ case_sensitive ∷ poll
    ∷ heartbeat_key ∷ reset_enabled ∷ actions ∷ lines_read ∷ matched_lines ∷ pending ∷ redis_counter
    ∷ redis_up ∷ redis_scrape_errs ∷ []

-- NewCollector; now is what the clock shows.
unfoldable pub new_collector :
    (k : Clock) → Config → Options k.Instant → k.Instant → Collector k.Instant × State
new_collector k cfg opts now = (
  record {
    cfg = cfg;
    start = if k.is_zero opts.start then now else opts.start;
    timeout = if is_positive opts.timeout then opts.timeout else default_timeout;
    version = if text_eq opts.version [] then codes "dev" else opts.version;
  },
  record { redis_errors = 0; log = [] },
)
