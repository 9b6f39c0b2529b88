-- ===== src/Config/Overlaps.antt =====
-- Overlaps (internal/config/config.go): warnings about actions that stand in other actions.
--
-- needle is what is searched for: the action, or its lowercased form (fold_case of Counter).
pub mod Exact
use logstat.Prelude.{
  ℕ, zero, suc, ◌+◌, ◌≡◌, refl, Bool, true, false, not, ◌&&◌, ◌||◌, List, [], ◌∷◌, ◌++◌, Option,
  none, some, arith, ◌==◌, ltb, if◌then◌else◌, Bool-cases, inl, inr,
}
use logstat.Text.{Text, text_eq, text_eq_iff, text_elem}
use logstat.Text.Search.{contains}
use logstat.Int64.{Int64}
use logstat.Counter.{fold_case}

-- The warnings of Validate, those of Overlaps among them.
pub data Warning : Type 0 where
  duplicate : Text → Warning
  same_but_case : Text → Text → Warning
  substring : Text → Text → Warning
  short_ttl : Int64 → Int64 → Warning

module _ (needle : Text → Text) where
  -- The body of the loops, for action a at i and action b at j.
  unfoldable pub overlap : ℕ → Text → ℕ → Text → List Warning
  overlap i a j b =
      if i == j || text_eq a [] || text_eq b []
      then []
      else if text_eq (needle a) (needle b)
      then (if ltb i j then same_but_case a b ∷ [] else [])
      else if contains (needle b) (needle a)
      then substring a b ∷ []
      else []

  -- The inner loop, over the actions from j on.
  unfoldable pub overlaps_with : ℕ → Text → ℕ → List Text → List Warning
  overlaps_with i a j [] = []
  overlaps_with i a j (b ∷ actions) = overlap i a j b ++ overlaps_with i a (suc j) actions

  -- The outer loop, over the actions from i on.
  unfoldable pub overlaps_from : ℕ → List Text → List Text → List Warning
  unfolding overlaps_with
  overlaps_from i [] all = []
  overlaps_from i (a ∷ actions) all = overlaps_with i a 0 all ++ overlaps_from (suc i) actions all

-- Overlaps
unfoldable pub overlaps : (Text → Text) → List Text → Bool → List Warning
unfolding overlaps_from
overlaps to_lower actions case_sensitive =
    overlaps_from (fold_case to_lower case_sensitive) 0 actions actions
