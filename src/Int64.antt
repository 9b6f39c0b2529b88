-- ===== src/Int64.antt =====
-- Go's int64 and time.Duration: the two's complement pattern, a number below 2 ^ 64.
use logstat.Prelude.{
  ℕ, ◌+◌, ◌*◌, ◌%◌, ◌^◌, ◌<◌, ◌≡◌, Bool, true, false, ◌&&◌, arith, ltb, leb, if◌then◌else◌,
}

abbrev pub Int64 : Type 0
Int64 = ℕ

-- a + b, wrapping around.
unfoldable pub add64 : Int64 → Int64 → Int64
add64 a b = (a + b) % 2 ^ 64

-- a * b, wrapping around.
unfoldable pub mul64 : Int64 → Int64 → Int64
mul64 a b = (a * b) % 2 ^ 64

-- a > 0
unfoldable pub is_positive : Int64 → Bool
is_positive a = ltb 0 a && ltb a (2 ^ 63)

-- a < 0
unfoldable pub is_negative : Int64 → Bool
is_negative a = leb (2 ^ 63) a

-- a < b, as signed numbers.
unfoldable pub lt64 : Int64 → Int64 → Bool
lt64 a b =
    if leb (2 ^ 63) a
    then (if leb (2 ^ 63) b then ltb a b else true)
    else (if leb (2 ^ 63) b then false else ltb a b)

pub add64_comm : (a b : Int64) → add64 a b ≡ add64 b a
unfolding add64
add64_comm a b = omega arith

pub add64_assoc : (a b c : Int64) → add64 (add64 a b) c ≡ add64 a (add64 b c)
unfolding add64
add64_assoc a b c = omega arith

pub add64_zero : (a : Int64) → a < 2 ^ 64 → add64 a 0 ≡ a
unfolding add64
add64_zero a h = omega arith

pub add64-lt : (a b : Int64) → add64 a b < 2 ^ 64
unfolding add64
add64-lt a b = omega arith

pub is_positive_of_lt : (a : Int64) → 0 < a → a < 2 ^ 63 → is_positive a ≡ true
unfolding is_positive
is_positive_of_lt a p h = ground arith

pub add64_from_zero : (a b : Int64) → add64 (add64 0 a) b ≡ add64 b a
unfolding add64
add64_from_zero a b = omega arith

pub zero-add64 : (a : Int64) → add64 0 a ≡ a % 2 ^ 64
unfolding add64
zero-add64 a = omega arith

-- A number that is added once, however a zero stands beside it.
pub add64_zeros :
    (a n : Int64)
    → (add64 (add64 a n) 0 ≡ add64 (add64 a 0) n)
      × (add64 a n ≡ add64 (add64 a 0) n)
      × (add64 a 0 ≡ add64 (add64 a 0) 0)
unfolding add64
add64_zeros a n = (omega arith, omega arith, omega arith)
