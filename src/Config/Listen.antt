-- ===== src/Config/Listen.antt =====
-- Metrics.validate (internal/config/config.go), with net.SplitHostPort.
pub mod HostPort
use logstat.Prelude.{
  ℕ, ◌≡◌, refl, Bool, true, false, not, ◌&&◌, ◌||◌, List, [], ◌∷◌, ◌++◌, Option, none, some, arith,
  ◌==◌, if◌then◌else◌,
}
use logstat.Text.{Text, codes, text_eq}
use logstat.Text.Search.{cut_first, contains_func, has_unit}
use logstat.Text.Trim.{trim_space}
use logstat.Text.Decimal.{parse_int}
use logstat.Int64.{Int64, lt64}
use logstat.Config.{Metrics}
use logstat.Config.Route.{RouteProblem, validate_path}

-- The text in front of the last b, and the text behind it.
unfoldable pub cut_last : ℕ → Text → Option (Text × Text)
cut_last b [] = none
cut_last b (c ∷ s) = elim (cut_last b s) [
  | some (u, v) ↦ some (c ∷ u, v)
  | none ↦ if c == b then some ([], s) else none
]

-- The part of net.SplitHostPort behind the search for the last colon: host and colon-free port.
unfoldable pub split_at : Text → Text → Option (Text × Text)
unfolding cut_first
split_at (c ∷ host) port =
    if c == b'['
    then elim (cut_first b']' host) [
      | some (h, []) ↦
          if has_unit b'[' h || has_unit b'[' port || has_unit b']' port
          then none
          else some (h, port)
      | _ ↦ none
    ]
    else if has_unit b':' (c ∷ host)
        || has_unit b'[' (c ∷ host)
        || has_unit b'[' port
        || has_unit b']' (c ∷ host)
        || has_unit b']' port
    then none
    else some (c ∷ host, port)
split_at [] port = if has_unit b'[' port || has_unit b']' port then none else some ([], port)

-- net.SplitHostPort: none is any of its errors.
unfoldable pub split_host_port : Text → Option (Text × Text)
unfolding cut_last split_at
split_host_port s = elim (cut_last b':' s) [ none ↦ none | some (u, v) ↦ split_at u v ]

-- The refusals of Metrics.validate.
pub data MetricsProblem : Type 0 where
  empty_listen : MetricsProblem
  not_host_port : Text → MetricsProblem
  not_numeric : Text → MetricsProblem
  port_range : Int64 → MetricsProblem
  bad_path : RouteProblem → MetricsProblem

-- n < 1 || n > 65535
abbrev pub out_of_port_range : Int64 → Bool
out_of_port_range n = lt64 n 1 || lt64 65535 n

abbrev pub path_problem : Option RouteProblem → Option MetricsProblem
path_problem none = none
path_problem (some p) = some (bad_path p)

abbrev pub check_port : Metrics → Option Int64 → Option MetricsProblem
check_port m none = some (not_numeric m.listen)
check_port m (some n) =
    if out_of_port_range n then some (port_range n) else path_problem (validate_path m)

abbrev pub check_split : Metrics → Option (Text × Text) → Option MetricsProblem
check_split m none = some (not_host_port m.listen)
check_split m (some (_, port)) = check_port m (parse_int port)

-- Metrics.validate
unfoldable pub validate_metrics : Metrics → Option MetricsProblem
validate_metrics m =
    let listen = trim_space m.listen in
    if text_eq listen [] then some empty_listen else check_split m (split_host_port listen)
