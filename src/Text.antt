-- ===== src/Text.antt =====
-- Go's strings, and the functions of package strings that the program calls.
--
-- A string is the sequence of units that Go's range loop reads from it: a code point for each valid
-- encoding, and 0x110000 + b for a byte b that belongs to none. Search, equality and concatenation
-- agree with those on the bytes for a needle that is valid UTF-8.
pub mod Search
pub mod Trim
pub mod Decimal
use Prim.Native.Char.{code}
use Prim.Native.String.{String}
use logstat.Prelude.{ℕ, ◌≡◌, ◌↔◌, Bool, true, false, ◌&&◌, ◌||◌, List, [], ◌∷◌, arith, ◌==◌}

abbrev pub Text : Type 0
Text = List ℕ

-- The units of a literal.
abbrev pub codes : String → Text
codes String.[] = []
codes (String.◌∷◌ c s) = code c ∷ codes s

-- s == t
unfoldable pub text_eq : Text → Text → Bool
text_eq [] [] = true
text_eq [] (_ ∷ _) = false
text_eq (_ ∷ _) [] = false
text_eq (a ∷ s) (b ∷ t) = a == b && text_eq s t

pub text_eq_iff : (s t : Text) → (text_eq s t ≡ true) ↔ (s ≡ t)
unfolding text_eq
text_eq_iff [] [] = ground arith
text_eq_iff [] (b ∷ t) = ground arith
text_eq_iff (a ∷ s) [] = ground arith
text_eq_iff (a ∷ s) (b ∷ t) = ground (arith, text_eq_iff s t)

pub text_eq_refl : (s : Text) → text_eq s s ≡ true
text_eq_refl s = ground (arith, text_eq_iff s s)

-- slices.Contains(ts, t)
unfoldable pub text_elem : Text → List Text → Bool
text_elem t [] = false
text_elem t (s ∷ ts) = text_eq s t || text_elem t ts

-- No text stands twice.
abbrev pub Distinct : List Text → Type 0
Distinct [] = Unit
Distinct (t ∷ ts) = (text_elem t ts ≡ false) × Distinct ts
