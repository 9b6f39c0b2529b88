-- ===== src/Dict/Totals.antt =====
-- Maps of int64 totals, map[string]int64: m[k], m[k] += n, and the sum over a range loop.
use logstat.Prelude.{◌^◌, ◌<◌, ◌≡◌, refl, none, some, [], ◌∷◌, arith, All, if◌then◌else◌}
use logstat.Text.{Text, text_eq, text_eq_iff}
use logstat.Int64.{Int64, add64, add64_zero, add64-lt}
use logstat.Dict.{Dict, lookup, insert, IsMap, lookup-insert, insert-IsMap}

-- m[k], 0 for a key that is missing.
unfoldable pub get64 : Text → Dict Int64 → Int64
get64 k m = elim (lookup k m) [ none ↦ 0 | some v ↦ v ]

-- m[k] += n
unfoldable pub add_at : Text → Int64 → Dict Int64 → Dict Int64
add_at k n m = insert k (add64 (get64 k m) n) m

-- for a, n := range deltas { m[a] += n }
unfoldable pub add_all : Dict Int64 → Dict Int64 → Dict Int64
add_all [] m = m
add_all ((k, n) ∷ deltas) m = add_all deltas (add_at k n m)

-- The sum of all values.
unfoldable pub sum64 : Dict Int64 → Int64
sum64 [] = 0
sum64 ((k, n) ∷ m) = add64 n (sum64 m)

-- Every value is an int64.
abbrev pub Fits : Dict Int64 → Type 0
Fits = All (λ e. e.1 < 2 ^ 64)

pub get64-lt : (k : Text) (m : Dict Int64) → Fits m → get64 k m < 2 ^ 64
unfolding get64 lookup
get64-lt k [] h = omega arith
get64-lt k ((j, v) ∷ m) h = ground (arith, get64-lt k m h.1)

pub get64-insert :
    (k j : Text) (v : Int64) (m : Dict Int64)
    → get64 j (insert k v m) ≡ (if text_eq k j then v else get64 j m)
unfolding get64
get64-insert k j v m = ground (arith, lookup-insert k j v m)

pub get64-add_at :
    (k j : Text) (n : Int64) (m : Dict Int64)
    → get64 j (add_at k n m) ≡ (if text_eq k j then add64 (get64 j m) n else get64 j m)
unfolding add_at
get64-add_at k j n m = ground (arith, get64-insert k j (add64 (get64 k m) n) m, text_eq_iff k j)

pub insert-Fits :
    (k : Text) (v : Int64) (m : Dict Int64) → v < 2 ^ 64 → Fits m → Fits (insert k v m)
unfolding insert
insert-Fits k v [] hv h = (hv, tt)
insert-Fits k v ((j, w) ∷ m) hv h = ground (arith, insert-Fits k v m hv h.1)

pub add_at-Fits : (k : Text) (n : Int64) (m : Dict Int64) → Fits m → Fits (add_at k n m)
unfolding add_at
add_at-Fits k n m h = insert-Fits k _ m (add64-lt (get64 k m) n) h

pub add_at-IsMap : (k : Text) (n : Int64) (m : Dict Int64) → IsMap m → IsMap (add_at k n m)
unfolding add_at
add_at-IsMap k n m h = insert-IsMap k _ m h

pub add_all-Fits : (deltas m : Dict Int64) → Fits m → Fits (add_all deltas m)
unfolding add_all
add_all-Fits [] m h = h
add_all-Fits ((k, n) ∷ deltas) m h = add_all-Fits deltas (add_at k n m) (add_at-Fits k n m h)

pub add_all-IsMap : (deltas m : Dict Int64) → IsMap m → IsMap (add_all deltas m)
unfolding add_all
add_all-IsMap [] m h = h
add_all-IsMap ((k, n) ∷ deltas) m h = add_all-IsMap deltas (add_at k n m) (add_at-IsMap k n m h)

get64-cons :
    (j k : Text) (n : Int64) (m : Dict Int64)
    → get64 j ((k, n) ∷ m) ≡ (if text_eq k j then n else get64 j m)
unfolding get64 lookup
get64-cons j k n m = ground arith

pub get64-nil : (k : Text) → get64 k [] ≡ 0
unfolding get64 lookup
get64-nil k = refl

get64_missing : (k : Text) (m : Dict Int64) → lookup k m ≡ none → get64 k m ≡ 0
unfolding get64
get64_missing k m h = ground arith

-- Each total grows by what the deltas hold under its key.
pub get64-add_all :
    (j : Text) (deltas m : Dict Int64)
    → IsMap deltas
    → Fits m
    → get64 j (add_all deltas m) ≡ add64 (get64 j m) (get64 j deltas)
unfolding add_all
get64-add_all j [] m d h = rw (get64-nil j, add64_zero (get64 j m) (get64-lt j m h))
get64-add_all j ((k, n) ∷ deltas) m d h = ground (
  arith,
  get64-add_all j deltas (add_at k n m) d.1 (add_at-Fits k n m h),
  get64-add_at k j n m,
  get64-cons j k n deltas,
  get64_missing k deltas d.0,
  text_eq_iff k j,
  add64_zero (add64 (get64 j m) n) (add64-lt (get64 j m) n),
)

pub sum64-lt : (m : Dict Int64) → sum64 m < 2 ^ 64
unfolding sum64
sum64-lt [] = omega arith
sum64-lt ((k, n) ∷ m) = add64-lt n (sum64 m)

-- m[k] += n raises the sum by n.
pub sum64-add_at :
    (k : Text) (n : Int64) (m : Dict Int64) → sum64 (add_at k n m) ≡ add64 (sum64 m) n
unfolding add_at sum64 insert add64 get64 lookup
sum64-add_at k n [] = omega arith
sum64-add_at k n ((j, w) ∷ m) = ground (arith, sum64-add_at k n m)
