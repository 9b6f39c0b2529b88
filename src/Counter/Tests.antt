-- ===== src/Counter/Tests.antt =====
-- The counter on two actions and a few lines.
use logstat.Prelude.{◌^◌, ◌<◌, ◌≡◌, refl, true, List, [], ◌∷◌, arith, length}
use logstat.Text.{Text, codes, text_eq, text_elem, Distinct}
use logstat.Text.Search.{contains}
use logstat.Int64.{add64}
use logstat.Dict.Totals.{get64}
use logstat.Counter.{Counter, new, process_line, process_lines, drain, restore, IsValid}
use logstat.Counter.Totals.{new-IsValid}
use logstat.Counter.Buffer.{hits, process_lines_totals, restore-drain}

abbrev same : Text → Text
same t = t

abbrev pair : List Text
pair = codes "get" ∷ codes "put" ∷ []

abbrev requests : List Text
requests = codes "get /a" ∷ codes "put /b get" ∷ codes "end" ∷ []

abbrev fresh : Counter
fresh = new same pair true

pair-Distinct : Distinct pair
unfolding text_elem text_eq
pair-Distinct = (refl, (refl, tt))

fresh-IsValid : IsValid same fresh
fresh-IsValid = new-IsValid same pair true pair-Distinct

no_lines_yet : fresh.lines < 2 ^ 64
unfolding new
no_lines_yet = omega arith

process_lines_totals_example :
    let c' = process_lines same fresh requests in
    (get64 (codes "get") c'.pending
      ≡ add64 (get64 (codes "get") fresh.pending) (hits same fresh (codes "get") requests))
    × (get64 (codes "get") c'.matched
        ≡ add64 (get64 (codes "get") fresh.matched) (hits same fresh (codes "get") requests))
    × (c'.lines ≡ add64 fresh.lines (length requests))
process_lines_totals_example =
    process_lines_totals same fresh requests (codes "get") fresh-IsValid no_lines_yet

restore-drain_example :
    let loaded = process_lines same fresh requests in
    let (deltas, rest) = drain fresh in
    let restored = restore deltas (process_lines same rest requests) in
    let undisturbed = loaded in
    (get64 (codes "put") restored.pending ≡ get64 (codes "put") undisturbed.pending)
    × (get64 (codes "put") restored.matched ≡ get64 (codes "put") undisturbed.matched)
    × (restored.lines ≡ undisturbed.lines)
restore-drain_example = restore-drain same fresh requests (codes "put") fresh-IsValid no_lines_yet

-- "put /b get" counts both actions, and "get get" counts one of them once.
both_counted : (process_line same fresh (codes "put /b get")).0 ≡ codes "get" ∷ codes "put" ∷ []
unfolding new process_line contains
both_counted = refl

once_counted : (process_line same fresh (codes "get get")).0 ≡ codes "get" ∷ []
unfolding new process_line contains
once_counted = refl
