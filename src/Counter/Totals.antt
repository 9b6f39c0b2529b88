-- ===== src/Counter/Totals.antt =====
-- What ProcessLine adds to the totals, and the validity of a counter under its methods.
use logstat.Prelude.{◌≡◌, refl, Bool, ◌&&◌, List, [], ◌∷◌, arith, if◌then◌else◌}
use logstat.Text.{Text, text_elem, Distinct}
use logstat.Text.Search.{contains}
use logstat.Int64.{Int64, add64}
use logstat.Dict.{Dict, IsMap, insert-IsMap}
use logstat.Dict.Totals.{
  Fits, get64, add_at, add_all, get64-insert, insert-Fits, add_at-Fits, add_at-IsMap, add_all-Fits,
  add_all-IsMap,
}
use logstat.Counter.{
  Counter, IsValid, fill, count_each, fold_case, match_line, new, process_line, drain, restore,
}
use logstat.Counter.Matching.{elem-match_each, match_each-Distinct, get64-count_each}

count_each-IsMap : (matched : List Text) (m : Dict Int64) → IsMap m → IsMap (count_each matched m)
unfolding count_each
count_each-IsMap [] m h = h
count_each-IsMap (a ∷ matched) m h = count_each-IsMap matched (add_at a 1 m) (add_at-IsMap a 1 m h)

count_each-Fits : (matched : List Text) (m : Dict Int64) → Fits m → Fits (count_each matched m)
unfolding count_each
count_each-Fits [] m h = h
count_each-Fits (a ∷ matched) m h = count_each-Fits matched (add_at a 1 m) (add_at-Fits a 1 m h)

pub fill-IsMap :
    (v : Text → Int64) (actions : List Text) (m : Dict Int64) → IsMap m → IsMap (fill v actions m)
unfolding fill
fill-IsMap v [] m h = h
fill-IsMap v (a ∷ actions) m h = fill-IsMap v actions _ (insert-IsMap a (v a) m h)

fill_zero-Fits : (actions : List Text) (m : Dict Int64) → Fits m → Fits (fill (λ _. 0) actions m)
unfolding fill
fill_zero-Fits [] m h = h
fill_zero-Fits (a ∷ actions) m h = fill_zero-Fits actions _ (insert-Fits a 0 m (omega arith) h)

pub get64-fill_zero :
    (a : Text) (actions : List Text) (m : Dict Int64)
    → get64 a m ≡ 0
    → get64 a (fill (λ _. 0) actions m) ≡ 0
unfolding fill
get64-fill_zero a [] m h = h
get64-fill_zero a (b ∷ actions) m h =
    get64-fill_zero a actions _ (ground (arith, get64-insert b a 0 m))

-- Drain hands the whole buffer over and leaves it empty.
pub drain_lem :
    (c : Counter) → ((drain c).0 ≡ c.pending) × ((drain c).1 ≡ record c { pending = [] })
unfolding drain
drain_lem c = ground arith

-- Restore adds each increment to what stands in the buffer, and changes nothing else.
pub restore_lem :
    (deltas : Dict Int64) (c : Counter)
    → restore deltas c ≡ record c { pending = add_all deltas c.pending }
unfolding restore add_all
restore_lem [] c = refl
restore_lem (d ∷ deltas) c = refl

module _ (to_lower : Text → Text) where
  pub new-IsValid :
      (actions : List Text) (case_sensitive : Bool)
      → Distinct actions
      → IsValid to_lower (new to_lower actions case_sensitive)
  unfolding new
  new-IsValid actions case_sensitive d = record {
    needles_folded = refl;
    actions_Distinct = d;
    pending_IsMap = tt;
    pending_Fits = tt;
    matched_IsMap = fill-IsMap _ actions [] tt;
    matched_Fits = fill_zero-Fits actions [] tt;
  }

  pub process_line-IsValid :
      (c : Counter) (line : Text)
      → IsValid to_lower c
      → IsValid to_lower (process_line to_lower c line).1
  unfolding process_line
  process_line-IsValid c line v =
      let matched = match_line to_lower c line in
      record {
        needles_folded = v.needles_folded;
        actions_Distinct = v.actions_Distinct;
        pending_IsMap = count_each-IsMap matched c.pending v.pending_IsMap;
        pending_Fits = count_each-Fits matched c.pending v.pending_Fits;
        matched_IsMap = count_each-IsMap matched c.matched v.matched_IsMap;
        matched_Fits = count_each-Fits matched c.matched v.matched_Fits;
      }

  pub drain-IsValid : (c : Counter) → IsValid to_lower c → IsValid to_lower (drain c).1
  unfolding drain
  drain-IsValid c v = ground arith

  pub restore-IsValid :
      (deltas : Dict Int64) (c : Counter) → IsValid to_lower c → IsValid to_lower (restore deltas c)
  unfolding restore
  restore-IsValid [] c v = v
  restore-IsValid (d ∷ deltas) c v = record {
    needles_folded = v.needles_folded;
    actions_Distinct = v.actions_Distinct;
    pending_IsMap = add_all-IsMap (d ∷ deltas) c.pending v.pending_IsMap;
    pending_Fits = add_all-Fits (d ∷ deltas) c.pending v.pending_Fits;
    matched_IsMap = v.matched_IsMap;
    matched_Fits = v.matched_Fits;
  }

  -- The line counts the action: it is configured and stands in the line, both folded.
  abbrev pub counts : Counter → Text → Text → Bool
  counts c line a =
      text_elem a c.actions
      && contains (fold_case to_lower c.case_sensitive line) (fold_case to_lower c.case_sensitive a)

  pub elem-match_line :
      (c : Counter) (line a : Text)
      → IsValid to_lower c
      → text_elem a (match_line to_lower c line) ≡ counts c line a
  unfolding match_line
  elem-match_line c line a v = rw v.needles_folded (elem-match_each _ _ a c.actions)

  match_line-Distinct :
      (c : Counter) (line : Text) → IsValid to_lower c → Distinct (match_line to_lower c line)
  unfolding match_line
  match_line-Distinct c line v =
      rw v.needles_folded (match_each-Distinct _ _ c.actions v.actions_Distinct)

  -- A line raises, by one, the pending and the matched total of each action that it counts, however
  -- often the action occurs in it; the totals of all others stay,
  -- and the number of lines is one more. The condition: the counter is valid.
  pub process_line_totals :
      (c : Counter) (line a : Text)
      → IsValid to_lower c
      → let c' = (process_line to_lower c line).1 in
        let by_one = λ (n : Int64). if counts c line a then add64 n 1 else n in
        (get64 a c'.pending ≡ by_one (get64 a c.pending))
        × (get64 a c'.matched ≡ by_one (get64 a c.matched))
        × (c'.lines ≡ add64 c.lines 1)
        × (text_elem a (process_line to_lower c line).0 ≡ counts c line a)
  unfolding process_line
  process_line_totals c line a v =
      let listed = elem-match_line c line a v in
      let once = match_line-Distinct c line v in
      (
        rw (get64-count_each a _ c.pending once, listed) refl,
        rw (get64-count_each a _ c.matched once, listed) refl,
        refl,
        listed,
      )
