-- ===== src/Text/Decimal.antt =====
-- Decimal numbers: fmt's %d and %02d, strconv.Itoa, FormatInt, ParseInt(s, 10, 64) and Atoi, on
-- int64.
use native.Mathlib.Nat.{pow-suc}
use logstat.Prelude.{
  ℕ, zero, suc, ◌+◌, ◌-◌, ◌*◌, ◌/◌, ◌%◌, ◌^◌, ◌<◌, ◌≡◌, refl, Bool, true, false, ◌&&◌, [], ◌∷◌,
  arith, ltb, leb, ◌==◌, Option, none, some, if◌then◌else◌, ◌∙◌, inl, inr, Bool-cases,
}
use logstat.Text.{Text}
use logstat.Int64.{Int64}

-- The digits of n in front of out, at most as many as the fuel.
unfoldable pub digits : ℕ → ℕ → Text → Text
digits zero n out = out
digits (suc fuel) n out =
    let out' = (b'0' + n % 10) ∷ out in
    let rest = digits fuel (n / 10) out' in if ltb n 10 then out' else rest

-- %d of a number that is not negative. Twenty digits hold every number below 2 ^ 64.
unfoldable pub show : ℕ → Text
unfolding digits
show n = digits 20 n []

-- %d of an int64
unfoldable pub show64 : Int64 → Text
unfolding show
show64 n = if ltb n (2 ^ 63) then show n else b'-' ∷ show (2 ^ 64 - n)

-- %02d of a number that is not negative.
unfoldable pub show_two : ℕ → Text
unfolding show
show_two n = if ltb n 10 then b'0' ∷ show n else show n

-- %04d of a number that is not negative.
unfoldable pub show_four : ℕ → Text
unfolding show
show_four n =
    if ltb n 10
    then b'0' ∷ b'0' ∷ b'0' ∷ show n
    else if ltb n 100
    then b'0' ∷ b'0' ∷ show n
    else if ltb n 1000
    then b'0' ∷ show n
    else show n

abbrev pub is_digit : ℕ → Bool
is_digit c = leb b'0' c && leb c b'9'

-- The number that the digits spell behind n; none for any other unit.
unfoldable pub scan : ℕ → Text → Option ℕ
scan n [] = some n
scan n (c ∷ s) = let rest = scan (n * 10 + (c - b'0')) s in if is_digit c then rest else none

-- strconv.ParseUint without its bound: at least one digit, and digits only.
unfoldable pub parse_digits : Text → Option ℕ
unfolding scan
parse_digits [] = none
parse_digits (c ∷ s) = scan 0 (c ∷ s)

abbrev pub positive : Option ℕ → Option Int64
positive none = none
positive (some n) = if ltb n (2 ^ 63) then some n else none

abbrev pub negative : Option ℕ → Option Int64
negative none = none
negative (some n) = if leb n (2 ^ 63) then some ((2 ^ 64 - n) % 2 ^ 64) else none

-- strconv.ParseInt(s, 10, 64) and strconv.Atoi(s): none is any error.
unfoldable pub parse_int : Text → Option Int64
unfolding parse_digits
parse_int [] = none
parse_int (c ∷ s) =
    if c == b'+'
    then positive (parse_digits s)
    else if c == b'-'
    then negative (parse_digits s)
    else positive (parse_digits (c ∷ s))

tenth_lt : (fuel n : ℕ) → n < 10 ^ suc fuel → n / 10 < 10 ^ fuel
tenth_lt fuel n h = let h' = rw (pow-suc 10 fuel) at h in omega arith

scan-digits : (fuel n : ℕ) (out : Text) → n < 10 ^ fuel → scan 0 (digits fuel n out) ≡ scan n out
unfolding scan digits
scan-digits zero n out h = let e : n ≡ 0 = omega arith in rw e
scan-digits (suc fuel) n out h =
    ground (arith, scan-digits fuel (n / 10) ((b'0' + n % 10) ∷ out) (tenth_lt fuel n h))

-- A text that begins with a digit.
abbrev starts_digit : Text → Bool
starts_digit [] = false
starts_digit (c ∷ s) = is_digit c

starts_digit-digits :
    (fuel n : ℕ) (out : Text) → starts_digit out ≡ true → starts_digit (digits fuel n out) ≡ true
unfolding digits
starts_digit-digits zero n out h = h
starts_digit-digits (suc fuel) n out h =
    ground (arith, starts_digit-digits fuel (n / 10) ((b'0' + n % 10) ∷ out))

starts_digit-show : (n : ℕ) → starts_digit (show n) ≡ true
unfolding show
starts_digit-show n = ground (arith, starts_digit-digits 19 (n / 10) ((b'0' + n % 10) ∷ []))

parse_digits-eq-scan : (s : Text) → starts_digit s ≡ true → parse_digits s ≡ scan 0 s
unfolding parse_digits
parse_digits-eq-scan [] h = cc
parse_digits-eq-scan (c ∷ s) h = refl

pub parse_digits-show : (n : ℕ) → n < 10 ^ 20 → parse_digits (show n) ≡ some n
parse_digits-show n h =
    parse_digits-eq-scan (show n) (starts_digit-show n)
    ∙ (unfold show scan in scan-digits 20 n [] h)

parse_int_of_digits : (s : Text) → starts_digit s ≡ true → parse_int s ≡ positive (parse_digits s)
unfolding parse_int
parse_int_of_digits [] h = cc
parse_int_of_digits (c ∷ s) h = ground arith

-- Every int64 is read back from its decimal print.
pub parse_int-show64 : (n : Int64) → n < 2 ^ 64 → parse_int (show64 n) ≡ some n
unfolding show64
parse_int-show64 n h = elim (Bool-cases (ltb n (2 ^ 63))) [
  | inl small ↦ rw small (
      parse_int_of_digits (show n) (starts_digit-show n)
      ∙ rw (parse_digits-show n (omega arith), small))
  | inr large ↦
      rw large
        (unfold parse_int in rw (parse_digits-show (2 ^ 64 - n) (omega arith)) (ground arith))
]

positive-lt : (o : Option ℕ) (n : Int64) → positive o ≡ some n → n < 2 ^ 64
positive-lt o n h = ground arith

negative-lt : (o : Option ℕ) (n : Int64) → negative o ≡ some n → n < 2 ^ 64
negative-lt none n h = cc
negative-lt (some m) n h = ground arith

-- What ParseInt returns is an int64.
pub parse_int-lt : (s : Text) (n : Int64) → parse_int s ≡ some n → n < 2 ^ 64
unfolding parse_int
parse_int-lt [] n h = cc
parse_int-lt (c ∷ s) n h = ground (
  arith,
  h,
  positive-lt (parse_digits s) n,
  negative-lt (parse_digits s) n,
  positive-lt (parse_digits (c ∷ s)) n,
)
