-- ===== src/Counter.antt =====
-- internal/counter/counter.go: the matching rule and the buffer of pending increments.
--
-- A method returns the counter that it leaves. The mutex makes each critical section one step, so a
-- method is one function; ProcessLine matches outside the lock, on fields that New sets for good.
-- strings.ToLower is the parameter to_lower.
pub mod Matching
pub mod Totals
pub mod Buffer
pub mod Snapshots
pub mod Tests
use logstat.Prelude.{Bool, List, [], ◌∷◌, map, foldl, ◌^◌, ◌<◌, ◌≡◌, if◌then◌else◌}
use logstat.Text.{Text, Distinct}
use logstat.Text.Search.{contains}
use logstat.Int64.{Int64, add64}
use logstat.Dict.{Dict, insert, IsMap}
use logstat.Dict.Totals.{Fits, get64, add_at, add_all, sum64}

pub record Counter : Type 0 where
  pub actions : List Text
  pub case_sensitive : Bool
  pub needles : List Text
  pub pending : Dict Int64
  pub matched : Dict Int64
  pub lines : Int64

-- for _, a := range actions { out[a] = value(a) }
unfoldable pub fill : (Text → Int64) → List Text → Dict Int64 → Dict Int64
fill value [] out = out
fill value (a ∷ actions) out = fill value actions (insert a (value a) out)

-- for _, a := range matched { totals[a]++ }
unfoldable pub count_each : List Text → Dict Int64 → Dict Int64
count_each [] totals = totals
count_each (a ∷ matched) totals = count_each matched (add_at a 1 totals)

-- The loop of match over the needles and the actions that are parallel to them.
unfoldable pub match_each : Text → List Text → List Text → List Text
match_each line (needle ∷ needles) (action ∷ actions) =
    let rest = match_each line needles actions in
    if contains line needle then action ∷ rest else rest
match_each line _ _ = []

module _ (to_lower : Text → Text) where
  -- What is searched for, or in: the text itself, or its lowercased form.
  unfoldable pub fold_case : Bool → Text → Text
  fold_case case_sensitive t = if case_sensitive then t else to_lower t

  -- New
  unfoldable pub new : List Text → Bool → Counter
  unfolding fold_case fill
  new actions case_sensitive = record {
    actions = actions;
    case_sensitive = case_sensitive;
    needles = map (fold_case case_sensitive) actions;
    pending = [];
    matched = fill (λ _. 0) actions [];
    lines = 0;
  }

  -- Counter.match
  unfoldable pub match_line : Counter → Text → List Text
  unfolding fold_case match_each
  match_line c line = match_each (fold_case c.case_sensitive line) c.needles c.actions

  -- Counter.ProcessLine, and the counter's state after it.
  unfoldable pub process_line : Counter → Text → List Text × Counter
  unfolding match_line count_each
  process_line c line =
      let matched = match_line c line in
      (
        matched,
        record c {
          lines = add64 c.lines 1;
          pending = count_each matched c.pending;
          matched = count_each matched c.matched;
        },
      )

  -- The counter after a run of lines.
  unfoldable pub process_lines : Counter → List Text → Counter
  process_lines c [] = c
  process_lines c (line ∷ lines) = process_lines (process_line c line).1 lines

-- Counter.Drain. A nil result is the empty map, which the callers cannot tell apart.
unfoldable pub drain : Counter → Dict Int64 × Counter
drain c = elim c.pending [ [] ↦ ([], c) | _ ∷ _ ↦ (c.pending, record c { pending = [] }) ]

-- Counter.Restore
unfoldable pub restore : Dict Int64 → Counter → Counter
restore [] c = c
restore (delta ∷ deltas) c = record c { pending = add_all (delta ∷ deltas) c.pending }

-- for a, n := range totals { out[a] = n }
unfoldable pub copy_each : Dict Int64 → Dict Int64 → Dict Int64
copy_each [] out = out
copy_each ((a, n) ∷ totals) out = copy_each totals (insert a n out)

-- Counter.Matched
unfoldable pub matched_snapshot : Counter → Dict Int64
unfolding copy_each
matched_snapshot c = copy_each c.matched []

-- Counter.PendingByAction
unfoldable pub pending_by_action : Counter → Dict Int64
unfolding fill
pending_by_action c = fill (λ a. get64 a c.pending) c.actions []

-- Counter.Pending
unfoldable pub pending_total : Counter → Int64
pending_total c = sum64 c.pending

-- The needles are the folded actions, no action stands twice, and both maps are maps of int64.
pub record IsValid (to_lower : Text → Text) (c : Counter) : Type 0 where
  pub needles_folded : c.needles ≡ map (fold_case to_lower c.case_sensitive) c.actions
  pub actions_Distinct : Distinct c.actions
  pub pending_IsMap : IsMap c.pending
  pub pending_Fits : Fits c.pending
  pub matched_IsMap : IsMap c.matched
  pub matched_Fits : Fits c.matched
