-- ===== src/Counter/Snapshots.antt =====
-- What the exporter reads: Matched, PendingByAction and Pending.
use logstat.Prelude.{
  ◌%◌, ◌^◌, ◌<◌, ◌≡◌, refl, ◌∙◌, Bool, true, false, ◌||◌, List, [], ◌∷◌, arith, if◌then◌else◌,
  length, Option, none, some,
}
use logstat.Text.{Text, text_eq, text_eq_iff, text_elem, Distinct}
use logstat.Int64.{Int64, add64, zero-add64}
use logstat.Dict.{Dict, lookup, insert, IsMap, insert-IsMap, lookup-insert}
use logstat.Dict.Totals.{get64, add_at, sum64, get64-nil, sum64-add_at, sum64-lt}
use logstat.Counter.{
  Counter, IsValid, fill, copy_each, count_each, new, match_line, process_line, process_lines,
  matched_snapshot, pending_by_action, pending_total,
}
use logstat.Counter.Totals.{
  fill-IsMap, get64-fill_zero, new-IsValid, elem-match_line, process_line-IsValid,
}
use logstat.Counter.Buffer.{hits, process_lines-IsValid, process_lines_totals}

lookup-copy_each :
    (a : Text) (m out : Dict Int64)
    → IsMap m
    → lookup a (copy_each m out) ≡ elim (lookup a m) [ none ↦ lookup a out | some n ↦ some n ]
unfolding copy_each lookup
lookup-copy_each a [] out h = refl
lookup-copy_each a ((b, n) ∷ m) out h =
    ground
      (arith, lookup-copy_each a m (insert b n out) h.1, lookup-insert b a n out, text_eq_iff b a)

lookup-copy_self : (a : Text) (m : Dict Int64) → IsMap m → lookup a (copy_each m []) ≡ lookup a m
unfolding lookup
lookup-copy_self a m h = ground (arith, lookup-copy_each a m [] h)

lookup-fill :
    (value : Text → Int64) (a : Text) (actions : List Text) (out : Dict Int64)
    → lookup a (fill value actions out)
      ≡ (if text_elem a actions then some (value a) else lookup a out)
unfolding fill text_elem
lookup-fill value a [] out = refl
lookup-fill value a (b ∷ actions) out = ground (
  arith,
  lookup-fill value a actions (insert b (value b) out),
  lookup-insert b a (value b) out,
  text_eq_iff b a,
)

-- Every configured action, and no other, is listed with what is buffered for it.
lookup-pending_by_action :
    (c : Counter) (a : Text)
    → lookup a (pending_by_action c)
      ≡ (if text_elem a c.actions then some (get64 a c.pending) else none)
unfolding pending_by_action
lookup-pending_by_action c a =
    rw (lookup-fill (λ b. get64 b c.pending) a c.actions []) (unfold lookup in refl)

copy_each-IsMap : (m out : Dict Int64) → IsMap out → IsMap (copy_each m out)
unfolding copy_each
copy_each-IsMap [] out h = h
copy_each-IsMap ((a, n) ∷ m) out h = copy_each-IsMap m (insert a n out) (insert-IsMap a n out h)

-- Both snapshots are maps, whatever the counter.
pub snapshots-IsMap : (c : Counter) → IsMap (matched_snapshot c) × IsMap (pending_by_action c)
unfolding matched_snapshot pending_by_action
snapshots-IsMap c = (copy_each-IsMap c.matched [] tt, fill-IsMap _ c.actions [] tt)

abbrev is_some : Option Int64 → Bool
is_some none = false
is_some (some _) = true

lookup-eq-get64 :
    (a : Text) (m : Dict Int64)
    → lookup a m ≡ (if is_some (lookup a m) then some (get64 a m) else none)
unfolding get64
lookup-eq-get64 a m = ground arith

present-add_at :
    (b a : Text) (n : Int64) (m : Dict Int64)
    → is_some (lookup a (add_at b n m)) ≡ (text_eq b a || is_some (lookup a m))
unfolding add_at
present-add_at b a n m = ground (arith, lookup-insert b a (add64 (get64 b m) n) m)

present-count_each :
    (a : Text) (matched : List Text) (m : Dict Int64)
    → is_some (lookup a (count_each matched m)) ≡ (text_elem a matched || is_some (lookup a m))
unfolding count_each text_elem
present-count_each a [] m = refl
present-count_each a (b ∷ matched) m =
    ground (arith, present-count_each a matched (add_at b 1 m), present-add_at b a 1 m)

module _ (to_lower : Text → Text) where
  -- The keys of the totals are the configured actions.
  abbrev IsListed : Counter → Type 0
  IsListed c = (a : Text) → is_some (lookup a c.matched) ≡ text_elem a c.actions

  IsListed-new :
      (actions : List Text) (case_sensitive : Bool) → IsListed (new to_lower actions case_sensitive)
  unfolding new
  IsListed-new actions cs a = rw (lookup-fill (λ _. 0) a actions []) (unfold lookup in ground arith)

  IsListed-process_line :
      (c : Counter) (line : Text)
      → IsValid to_lower c
      → IsListed c
      → IsListed (process_line to_lower c line).1
  unfolding process_line
  IsListed-process_line c line v h a = ground (
    arith,
    present-count_each a (match_line to_lower c line) c.matched,
    elem-match_line to_lower c line a v,
    h a,
  )

  IsListed-process_lines :
      (c : Counter) (lines : List Text)
      → IsValid to_lower c
      → IsListed c
      → IsListed (process_lines to_lower c lines)
  unfolding process_lines
  IsListed-process_lines c [] v h = h
  IsListed-process_lines c (line ∷ lines) v h =
      IsListed-process_lines (process_line to_lower c line).1 lines
        (process_line-IsValid to_lower c line v) (IsListed-process_line c line v h)

  actions-process_lines :
      (c : Counter) (lines : List Text) → (process_lines to_lower c lines).actions ≡ c.actions
  unfolding process_lines process_line
  actions-process_lines c [] = refl
  actions-process_lines c (line ∷ lines) =
      actions-process_lines (process_line to_lower c line).1 lines

  -- After a run of lines from the start, Matched lists every configured action, and no other, with the number of lines
  -- that count it, as an int64. The condition: the actions are distinct.
  pub matched_snapshot-process_lines :
      (actions : List Text) (case_sensitive : Bool) (lines : List Text) (a : Text)
      → Distinct actions
      → let start = new to_lower actions case_sensitive in
        lookup a (matched_snapshot (process_lines to_lower start lines))
        ≡ (if text_elem a actions then some (hits to_lower start a lines % 2 ^ 64) else none)
  unfolding matched_snapshot
  matched_snapshot-process_lines actions cs lines a d =
      let start = new to_lower actions cs in
      let v = new-IsValid to_lower actions cs d in
      let c = process_lines to_lower start lines in
      let (_, m, _) = process_lines_totals to_lower start lines a v (unfold new in omega arith) in
      let zero_at_start : get64 a start.matched ≡ 0 =
        unfold new in get64-fill_zero a actions [] (get64-nil a) in
      let listed = IsListed-process_lines start lines v (IsListed-new actions cs) a in
      let same : c.actions ≡ actions = actions-process_lines start lines ∙ (unfold new in refl) in
      lookup-copy_self a c.matched (process_lines-IsValid to_lower start lines v).matched_IsMap
      ∙ lookup-eq-get64 a c.matched
      ∙ rw (listed, same, m, zero_at_start, zero-add64)

  sum64-count_each :
      (matched : List Text) (m : Dict Int64)
      → sum64 m < 2 ^ 64
      → sum64 (count_each matched m) ≡ add64 (sum64 m) (length matched)
  unfolding count_each add64
  sum64-count_each [] m h = omega arith
  sum64-count_each (a ∷ matched) m h =
      ground (
        arith,
        sum64-count_each matched (add_at a 1 m),
        sum64-add_at a 1 m,
        sum64-lt (add_at a 1 m),
      )

  -- Pending, the sum over all actions, grows by the number of actions that ProcessLine reports.
  pending_total-process_line :
      (c : Counter) (line : Text)
      → let (matched, c') = process_line to_lower c line in
        pending_total c' ≡ add64 (pending_total c) (length matched)
  unfolding process_line pending_total
  pending_total-process_line c line =
      sum64-count_each (match_line to_lower c line) c.pending (sum64-lt c.pending)
