-- ===== src/Config/Validate.antt =====
-- Config.Validate (internal/config/config.go) and join: every check runs, and the problems are
-- collected. A problem is a value for each message of the source; the text of a message, which quotes
-- with strconv.Quote, is not modelled. cron.ParseStandard is the parameter cron_accepts.
pub mod Sound
pub mod Dedup
use logstat.Prelude.{
  ℕ, zero, suc, ◌+◌, ◌≡◌, refl, Bool, true, false, not, ◌&&◌, ◌||◌, List, [], ◌∷◌, ◌++◌, Option,
  none, some, arith, ltb, leb, if◌then◌else◌,
}
use logstat.Text.{Text, text_eq, text_elem}
use logstat.Text.Trim.{is_blank}
use logstat.Int64.{Int64, is_positive, is_negative, lt64}
use logstat.Config.{Config, output_journald, output_file, levels}
use logstat.Config.Listen.{MetricsProblem, validate_metrics, out_of_port_range}
use logstat.Config.Overlaps.{Warning, duplicate, short_ttl, overlaps}

-- The calls of fail, and the two errors that are passed on.
pub data Problem : Type 0 where
  no_log_path no_actions : Problem
  empty_action : ℕ → Problem
  flush_interval_range : Int64 → Problem
  no_lock_file no_redis_host : Problem
  redis_port_range redis_db_range redis_ttl_range : Int64 → Problem
  unknown_level : Text → Problem
  no_log_file : Problem
  unknown_output : Text → Problem
  empty_schedule : Problem
  bad_schedule : Text → Problem
  bad_metrics : MetricsProblem → Problem

-- The result of join: one error is passed on as it is, several as a multiError.
pub data Failure : Type 0 where
  single : Problem → Failure
  several : List Problem → Failure

-- join
unfoldable pub join : List Problem → Option Failure
join [] = none
join (p ∷ []) = some (single p)
join (p ∷ q ∷ ps) = some (several (p ∷ q ∷ ps))

-- The problems of all checks: errs at the end of Validate.
unfoldable pub append_all : List (List Problem) → List Problem
append_all [] = []
append_all (ps ∷ rest) = ps ++ append_all rest

-- What the loop over the actions has collected.
pub record Scan : Type 0 where
  pub uniq : List Text
  pub warnings : List Warning
  pub problems : List Problem

-- The loop over the actions from index i on, after those in seen.
unfoldable pub scan_actions : ℕ → List Text → List Text → Scan
scan_actions i seen [] = record { uniq = []; warnings = []; problems = [] }
scan_actions i seen (a ∷ actions) =
    let empty = text_eq a [] in
    let known = text_elem a seen in
    let rest = scan_actions (suc i) (if empty || known then seen else a ∷ seen) actions in
    if empty
    then record rest { problems = empty_action i ∷ rest.problems }
    else if known
    then record rest { warnings = duplicate a ∷ rest.warnings }
    else record rest { uniq = a ∷ rest.uniq }

-- if b { fail(p) }
abbrev pub fail_if : Bool → Problem → List Problem
fail_if b p = if b then p ∷ [] else []

abbrev pub is_empty : List Text → Bool
is_empty [] = true
is_empty (_ ∷ _) = false

abbrev pub metrics_problems : Option MetricsProblem → List Problem
metrics_problems none = []
metrics_problems (some p) = bad_metrics p ∷ []

-- The switch on logging.output.
abbrev pub output_problems : Text → Text → List Problem
output_problems output file =
    if text_eq output output_journald
    then []
    else if text_eq output output_file
    then fail_if (is_blank file) no_log_file
    else unknown_output output ∷ []

-- ParseSchedule
abbrev pub schedule_problems : (Text → Bool) → Text → List Problem
schedule_problems cron_accepts expr =
    if is_blank expr
    then empty_schedule ∷ []
    else fail_if (not (cron_accepts expr)) (bad_schedule expr)

-- What Validate returns, and the config that it leaves.
pub record Verdict : Type 0 where
  pub warnings : List Warning
  pub failure : Option Failure
  pub config : Config

module _ (to_lower : Text → Text) (cron_accepts : Text → Bool) where
  -- The problems that each check finds, in the order of the source.
  unfoldable pub checks : Config → List (List Problem)
  unfolding scan_actions
  checks c =
      fail_if (is_blank c.log_path) no_log_path
      ∷ fail_if (is_empty c.actions) no_actions
      ∷ (scan_actions 0 [] c.actions).problems
      ∷ fail_if (not (is_positive c.flush_interval)) (flush_interval_range c.flush_interval)
      ∷ fail_if (is_blank c.lock_file) no_lock_file
      ∷ fail_if (is_blank c.redis.host) no_redis_host
      ∷ fail_if (out_of_port_range c.redis.port) (redis_port_range c.redis.port)
      ∷ fail_if (is_negative c.redis.db) (redis_db_range c.redis.db)
      ∷ fail_if (is_negative c.redis.ttl) (redis_ttl_range c.redis.ttl)
      ∷ fail_if (not (text_elem c.logging.level levels)) (unknown_level c.logging.level)
      ∷ output_problems c.logging.output c.logging.file
      ∷ schedule_problems cron_accepts c.reset.schedule
      ∷ metrics_problems (validate_metrics c.metrics)
      ∷ []

  -- redis.ttl > 0 && flush_interval > 0 && redis.ttl <= flush_interval
  unfoldable pub ttl_warnings : Config → List Warning
  ttl_warnings c =
      if is_positive c.redis.ttl
        && is_positive c.flush_interval
        && not (lt64 c.flush_interval c.redis.ttl)
      then short_ttl c.redis.ttl c.flush_interval ∷ []
      else []

  -- Config.Validate
  unfoldable pub validate : Config → Verdict
  unfolding scan_actions checks append_all
  validate c =
      let scan = scan_actions 0 [] c.actions in
      record {
        warnings =
            scan.warnings ++ (overlaps to_lower scan.uniq c.case_sensitive ++ ttl_warnings c);
        failure = join (append_all (checks c));
        config = record c { actions = scan.uniq };
      }
