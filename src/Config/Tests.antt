-- ===== src/Config/Tests.antt =====
-- The default configuration, and others, under the checks.
use logstat.Prelude.{◌≤◌, ◌≡◌, ◌≢◌, ◌↔◌, refl, Bool, true, List, [], ◌∷◌, none, some, arith}
use logstat.Text.{Text, codes, text_eq, text_elem}
use logstat.Text.Search.{contains_func, has_prefix, contains_any, has_suffix}
use logstat.Text.Trim.{trim_space, is_blank, is_space}
use logstat.Text.Decimal.{parse_int}
use logstat.Int64.{Int64, is_positive, is_negative, lt64}
use logstat.Counter.{fold_case, new}
use logstat.Counter.Totals.{counts}
use logstat.Config.{Config, default}
use logstat.Config.Route.{IsPlain, validate_path}
use logstat.Config.Listen.{split_host_port, validate_metrics}
use logstat.Config.Listen.HostPort.{
  join_host_port, Joins, split_host_port-join, validate_metrics_sound,
}
use logstat.Config.Overlaps.{overlaps}
use logstat.Config.Overlaps.Exact.{warns, overlaps_meaning}
use logstat.Config.Validate.{validate, join}
use logstat.Config.Validate.Sound.{IsSound, validate_iff}
use logstat.Config.Validate.Dedup.{validate-validate, validate_forgets_empty}

abbrev same : Text → Text
same t = t

abbrev any_schedule : Text → Bool
any_schedule _ = true

abbrev with_empty : Config
with_empty = record default { actions = [] ∷ codes "get" ∷ codes "get" ∷ [] }

abbrev names : List Text
names = codes "get" ∷ codes "get-number" ∷ []

validate_iff_example :
    ((validate same any_schedule default).failure ≡ none) ↔ IsSound any_schedule default
validate_iff_example = validate_iff same any_schedule default

default_accepted : (validate same any_schedule default).failure ≡ none
unfolding validate join is_blank is_space text_elem is_positive lt64 is_negative validate_metrics
    split_host_port contains_func parse_int validate_path has_prefix contains_any has_suffix
default_accepted = refl

validate-validate_example :
    let first = (validate same any_schedule default).config in
    let again = validate same any_schedule first in (again.failure ≡ none) × (again.config ≡ first)
validate-validate_example = validate-validate same any_schedule default default_accepted

rest_accepted :
    (validate same any_schedule (validate same any_schedule with_empty).config).failure ≡ none
unfolding validate join is_blank is_space text_elem is_positive lt64 is_negative validate_metrics
    split_host_port contains_func parse_int validate_path has_prefix contains_any has_suffix
rest_accepted = refl

rest-IsSound : IsSound any_schedule (validate same any_schedule with_empty).config
rest-IsSound =
    (validate_iff same any_schedule (validate same any_schedule with_empty).config).0 rest_accepted

validate_forgets_empty_example :
    let first = validate same any_schedule with_empty in
    (first.failure ≢ none) × ((validate same any_schedule first.config).failure ≡ none)
unfolding text_elem text_eq
validate_forgets_empty_example =
    validate_forgets_empty same any_schedule with_empty refl rest-IsSound

overlaps_meaning_example :
    let c = new same names true in
    (warns (codes "get") (codes "get-number") (overlaps same names true) ≡ true) ↔ (
      (line : Text)
      → counts same c line (codes "get-number") ≡ true
      → counts same c line (codes "get") ≡ true)
unfolding text_elem text_eq fold_case
overlaps_meaning_example =
    overlaps_meaning same names true (codes "get") (codes "get-number") refl refl
      (λ e. ground (arith, e)) (λ e. ground (arith, e)) (λ e. ground (arith, e))

split_host_port-join_example :
    split_host_port (join_host_port (codes "::1") (codes "9843")) ≡ some (codes "::1", codes "9843")
unfolding contains_func
split_host_port-join_example =
    split_host_port-join (codes "::1") (codes "9843") refl refl
      (record { no_colon = refl; no_open = refl; no_close = refl })

default_metrics_accepted : validate_metrics default.metrics ≡ none
unfolding validate_metrics text_eq trim_space is_space split_host_port contains_func parse_int lt64
    validate_path has_prefix contains_any has_suffix
default_metrics_accepted = refl

validate_metrics_sound_example :
    (host : Text) × (port : Text) × (n : Int64) × Joins
      (trim_space default.metrics.listen)
      host
      port
    × (parse_int port ≡ some n)
    × (1 ≤ n)
    × (n ≤ 65535)
    × IsPlain default.metrics.path
validate_metrics_sound_example = validate_metrics_sound default.metrics default_metrics_accepted
