-- ===== src/Config.antt =====
-- internal/config/config.go: the configuration record, its defaults, and the checks.
--
-- Parse is yaml.v3 decoding on top of Default; Load and CheckPaths add the file system. The checks
-- are in Config/Validate, Config/Listen, Config/Route and Config/Overlaps.
pub mod Overlaps
pub mod Route
pub mod Listen
pub mod Validate
pub mod Load
pub mod Tests
use logstat.Prelude.{Bool, true, false, List, [], ◌∷◌, ◌++◌}
use logstat.Text.{Text, codes}
use logstat.Text.Decimal.{show64}
use logstat.Int64.{Int64, mul64}

pub record Redis : Type 0 where
  pub host : Text
  pub port : Int64
  pub db : Int64
  pub password : Text
  pub ttl : Int64

-- Redis.Addr
unfoldable pub addr : Redis → Text
addr r = r.host ++ codes ":" ++ show64 r.port

-- time.Second
abbrev pub second : Int64
second = 1_000_000_000

-- Redis.TTLDuration, in nanoseconds.
unfoldable pub ttl_duration : Redis → Int64
ttl_duration r = mul64 r.ttl second

pub record Logging : Type 0 where
  pub level : Text
  pub output : Text
  pub file : Text

pub record Reset : Type 0 where
  pub enabled : Bool
  pub schedule : Text

pub record Metrics : Type 0 where
  pub enabled : Bool
  pub listen : Text
  pub path : Text

pub record Config : Type 0 where
  pub log_path : Text
  pub actions : List Text
  pub case_sensitive : Bool
  pub flush_interval : Int64
  pub poll : Bool
  pub heartbeat_key : Bool
  pub lock_file : Text
  pub redis : Redis
  pub logging : Logging
  pub reset : Reset
  pub metrics : Metrics

-- OutputJournald and OutputFile
abbrev pub output_journald : Text
output_journald = codes "journald"

abbrev pub output_file : Text
output_file = codes "file"

-- Levels
abbrev pub levels : List Text
levels = codes "debug" ∷ codes "info" ∷ codes "warn" ∷ codes "error" ∷ []

-- Default
abbrev pub default : Config
default = record {
  log_path = codes "/var/log/app.log";
  actions = codes "get-number" ∷ codes "get-sms" ∷ codes "getNumber" ∷ codes "getStatus" ∷ [];
  case_sensitive = true;
  flush_interval = 10;
  poll = false;
  heartbeat_key = true;
  lock_file = codes "/run/logstat/logstat.lock";
  redis = record { host = codes "127.0.0.1"; port = 6379; db = 0; password = []; ttl = 86400 };
  logging = record { level = codes "info"; output = output_journald; file = [] };
  reset = record { enabled = true; schedule = codes "0 0 * * *" };
  metrics = record { enabled = false; listen = codes "127.0.0.1:9843"; path = codes "/metrics" };
}
