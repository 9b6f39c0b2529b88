-- ===== src/Metrics/Tests.antt =====
-- The exporter on a daemon with two words, and on a toy server.
use logstat.Prelude.{
  ℕ, ◌-◌, ◌/◌, ◌%◌, ◌^◌, ◌<◌, ◌≡◌, refl, true, not, List, [], ◌∷◌, ◌++◌, map, none, some, arith,
  ◌==◌, All, ◌⊎◌, inr, if◌then◌else◌,
}
use logstat.Text.{Text, codes, text_eq, text_elem, Distinct}
use logstat.Text.Decimal.{show}
use logstat.Text.Search.{has_prefix, contains_any, contains_func, has_suffix}
use logstat.Text.Trim.{is_space}
use logstat.Int64.{Int64, add64}
use logstat.Dict.{lookup}
use logstat.Counter.{Counter, new, process_lines, matched_snapshot, pending_by_action}
use logstat.Counter.Buffer.{hits}
use logstat.Config.{default}
use logstat.Config.Route.{validate_path}
use logstat.Store.{Store, is_unavailable}
use logstat.Store.Toy.{Toy, toy}
use logstat.Metrics.{
  Clock, Collector, State, matched_lines, pending, redis_counter, redis_up, redis_scrape_errs,
}
use logstat.Metrics.Format.{bool_value, whole_seconds, format_uptime}
use logstat.Metrics.Collect.{of_int, collect}
use logstat.Metrics.Collect.Lookup.{sample_of, integer}
use logstat.Metrics.Collect.Scrape.{scrape_values}
use logstat.Metrics.OfStore.{store_reader, scrape_counts_lines}
use logstat.Metrics.Status.{status}
use logstat.Metrics.Status.Rows.{Agrees, status-Agrees}
use logstat.Metrics.Secret.{with_password, password_hidden}
use logstat.Metrics.Server.{Server, new_server, routes_for}
use logstat.Metrics.Uptime.{TwoUnits, format_uptime_bounds}

abbrev same : Text → Text
same t = t

abbrev pair : List Text
pair = codes "get" ∷ codes "put" ∷ []

abbrev requests : List Text
requests = codes "get /a" ∷ codes "put /b get" ∷ []

abbrev fed : Counter
fed = process_lines same (new same pair true) requests

abbrev ticks : Clock
ticks = record {
  Instant = ℕ;
  sub = λ a b. a - b;
  unix = λ a. a / 1_000_000_000;
  human = show;
  is_zero = λ a. a == 0;
}

abbrev web : Store
web = record { host = codes "web"; heartbeat = true; ttl = 60 }

abbrev exporter : Collector ℕ
exporter = record {
  cfg = record default { actions = pair };
  start = 5_000_000_000;
  timeout = 2_000_000_000;
  version = codes "dev";
}

abbrev unread : State
unread = record { redis_errors = 3; log = [] }

-- One counter key, and one that holds no integer.
abbrev server : Toy
server = record {
  keys =
      (codes "logstat:counter:web:get", codes "41")
      ∷ (codes "logstat:counter:web:put", codes "x")
      ∷ [];
  calls_left = 1;
}

abbrev noon : ℕ
noon = 90_000_000_000

pair-Distinct : Distinct pair
unfolding text_elem text_eq
pair-Distinct = (refl, (refl, tt))

scrape_values_example :
    let r = store_reader (toy true) web in
    let ((counters, error), _) = r.counters pair server in
    let samples = (collect ticks r exporter fed noon unread server).0 in
    (sample_of matched_lines (codes "get" ∷ []) samples
      ≡ integer (lookup (codes "get") (matched_snapshot fed)))
    × (sample_of pending (codes "get" ∷ []) samples
        ≡ integer (lookup (codes "get") (pending_by_action fed)))
    × (sample_of redis_counter (codes "get" ∷ []) samples ≡ integer (lookup (codes "get") counters))
    × (sample_of redis_up [] samples ≡ some (of_int (bool_value (not (is_unavailable error)))))
    × (sample_of redis_scrape_errs [] samples
        ≡ some (of_int (elim error [ none ↦ 3 | some _ ↦ add64 3 1 ])))
scrape_values_example =
    scrape_values ticks (store_reader (toy true) web) exporter fed noon unread server (codes "get")

scrape_counts_lines_example :
    sample_of matched_lines
      (codes "get" ∷ [])
      (collect ticks (store_reader (toy true) web) exporter fed noon unread server).0
    ≡ integer (
        if text_elem (codes "get") pair
        then some (hits same (new same pair true) (codes "get") requests % 2 ^ 64)
        else none)
scrape_counts_lines_example =
    scrape_counts_lines same ticks (store_reader (toy true) web) exporter pair true requests noon
      unread server (codes "get") pair-Distinct

status-Agrees_example :
    let page = (status show ticks (store_reader (toy true) web) exporter fed noon server).0 in
    let samples = (collect ticks (store_reader (toy true) web) exporter fed noon unread server).0 in
    (map (λ row. row.action) page.words ≡ pair)
    × All (Agrees samples) page.words
    × (sample_of redis_up [] samples ≡ some (of_int (bool_value page.redis_up)))
status-Agrees_example =
    status-Agrees ticks (store_reader (toy true) web) exporter fed noon unread server show

password_hidden_example :
    let r = store_reader (toy true) web in
    (collect ticks r (with_password (codes "secret") exporter) fed noon unread server
      ≡ collect ticks r (with_password (codes "other") exporter) fed noon unread server)
    × (status show ticks r (with_password (codes "secret") exporter) fed noon server
        ≡ status show ticks r (with_password (codes "other") exporter) fed noon server)
unfolding text_eq
password_hidden_example =
    password_hidden show ticks (store_reader (toy true) web) exporter fed noon unread server
      (codes "secret") (codes "other") refl

abbrev bound : Server
bound = record {
  addr = codes "127.0.0.1:9843";
  path = codes "/metrics";
  routes = routes_for (codes "/metrics");
}

bound_started : new_server some default.metrics ≡ inr bound
unfolding new_server validate_path has_prefix contains_any contains_func is_space text_eq has_suffix
bound_started = refl

format_uptime_bounds_example :
    let d : Int64 = 90_061_000_000_000 in
    ((whole_seconds d < 60) × (format_uptime d ≡ show (whole_seconds d) ++ codes "s"))
    ⊎ TwoUnits (whole_seconds d) (format_uptime d)
format_uptime_bounds_example = format_uptime_bounds 90_061_000_000_000 (omega arith) (omega arith)
