-- ===== src/Counter/Matching.antt =====
-- Which actions a line counts.
use logstat.Prelude.{◌≡◌, refl, ◌&&◌, List, [], ◌∷◌, map, arith, if◌then◌else◌}
use logstat.Text.{Text, text_eq_iff, text_elem, Distinct}
use logstat.Text.Search.{contains}
use logstat.Int64.{Int64, add64}
use logstat.Dict.{Dict}
use logstat.Dict.Totals.{get64, add_at, get64-add_at}
use logstat.Counter.{count_each, match_each}

module _ (fold : Text → Text) (line : Text) where
  pub elem-match_each :
      (a : Text) (actions : List Text)
      → text_elem a (match_each line (map fold actions) actions)
        ≡ (text_elem a actions && contains line (fold a))
  unfolding match_each text_elem
  elem-match_each a [] = refl
  elem-match_each a (b ∷ actions) = ground (arith, elem-match_each a actions, text_eq_iff b a)

  pub match_each-Distinct :
      (actions : List Text)
      → Distinct actions
      → Distinct (match_each line (map fold actions) actions)
  unfolding match_each text_elem
  match_each-Distinct [] d = tt
  match_each-Distinct (b ∷ actions) d =
      ground (arith, elem-match_each b actions, match_each-Distinct actions d.1)

-- Actions that are counted once each raise their own total by one, and no other.
pub get64-count_each :
    (a : Text) (matched : List Text) (totals : Dict Int64)
    → Distinct matched
    → get64 a (count_each matched totals)
      ≡ (if text_elem a matched then add64 (get64 a totals) 1 else get64 a totals)
unfolding count_each text_elem
get64-count_each a [] totals d = refl
get64-count_each a (b ∷ matched) totals d = ground (
  arith,
  get64-count_each a matched (add_at b 1 totals) d.1,
  get64-add_at b a 1 totals,
  text_eq_iff b a,
)
