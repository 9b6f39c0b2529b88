-- ===== src/Config/Route.antt =====
-- Metrics.ValidatePath (internal/config/config.go): the endpoint path is a plain path.
use logstat.Prelude.{
  ◌≡◌, ◌↔◌, ◌⊎◌, true, false, not, ◌&&◌, Option, none, some, arith, if◌then◌else◌,
}
use logstat.Text.{Text, codes, text_eq, text_eq_iff}
use logstat.Text.Search.{has_prefix, has_suffix, contains_any, contains_func}
use logstat.Text.Trim.{is_space}
use logstat.Config.{Metrics}

-- The four refusals.
pub data RouteProblem : Type 0 where
  no_leading_slash : Text → RouteProblem
  braces : Text → RouteProblem
  whitespace : Text → RouteProblem
  trailing_slash : Text → RouteProblem

abbrev pub slash : Text
slash = codes "/"

-- Metrics.ValidatePath
unfoldable pub validate_path : Metrics → Option RouteProblem
validate_path m =
    if not (has_prefix m.path slash)
    then some (no_leading_slash m.path)
    else if contains_any m.path (codes "{}")
    then some (braces m.path)
    else if contains_func m.path is_space
    then some (whitespace m.path)
    else if not (text_eq m.path slash) && has_suffix m.path slash
    then some (trailing_slash m.path)
    else none

-- A plain path: it begins with a slash, holds no brace and no white space, and ends with a slash
-- only if it is the root.
pub record IsPlain (path : Text) : Type 0 where
  pub leading : has_prefix path slash ≡ true
  pub no_braces : contains_any path (codes "{}") ≡ false
  pub no_space : contains_func path is_space ≡ false
  pub no_trailing : (path ≡ slash) ⊎ (has_suffix path slash ≡ false)

validate_path-IsPlain : (m : Metrics) → validate_path m ≡ none → IsPlain m.path
unfolding validate_path
validate_path-IsPlain m h = ground (arith, text_eq_iff m.path slash)

IsPlain-validate_path : (m : Metrics) → IsPlain m.path → validate_path m ≡ none
unfolding validate_path
IsPlain-validate_path m p = ground (arith, text_eq_iff m.path slash)

-- The path is accepted exactly if it is plain.
pub validate_path_iff : (m : Metrics) → (validate_path m ≡ none) ↔ IsPlain m.path
validate_path_iff m = (λ h. validate_path-IsPlain m h, λ p. IsPlain-validate_path m p)
