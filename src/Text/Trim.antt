-- ===== src/Text/Trim.antt =====
-- unicode.IsSpace and strings.TrimSpace.
use mathlib.Core.List.{reverse, reverse-append}
use logstat.Prelude.{
  ℕ, ◌≡◌, refl, inl, inr, Bool-cases, Bool, true, false, ◌&&◌, ◌||◌, [], ◌∷◌, ◌++◌, arith, leb,
  ◌==◌, if◌then◌else◌, ap, ◌∙◌,
}
use logstat.Text.{Text, text_eq}

-- unicode.IsSpace: tab to carriage return, the space, U+0085, U+00A0, and the category Z.
unfoldable pub is_space : ℕ → Bool
is_space c =
    leb 0x09 c && leb c 0x0d
    || c == 0x20
    || c == 0x85
    || c == 0xa0
    || c == 0x1680
    || leb 0x2000 c && leb c 0x200a
    || c == 0x2028
    || c == 0x2029
    || c == 0x202f
    || c == 0x205f
    || c == 0x3000

-- strings.TrimLeftFunc(s, unicode.IsSpace)
unfoldable pub trim_left : Text → Text
trim_left [] = []
trim_left (c ∷ s) = let rest = trim_left s in if is_space c then rest else c ∷ s

-- strings.TrimSpace(s)
unfoldable pub trim_space : Text → Text
unfolding trim_left
trim_space s = reverse (trim_left (reverse (trim_left s)))

-- strings.TrimSpace(s) == ""
unfoldable pub is_blank : Text → Bool
unfolding trim_space text_eq
is_blank s = text_eq (trim_space s) []

-- Every unit is white space.
unfoldable pub all_space : Text → Bool
all_space [] = true
all_space (c ∷ s) = is_space c && all_space s

trim_left_all : (s : Text) → all_space s ≡ true → trim_left s ≡ []
unfolding all_space trim_left
trim_left_all [] h = refl
trim_left_all (c ∷ s) h = ground (arith, trim_left_all s)

trim_left_not_all : (s : Text) → all_space s ≡ false → all_space (trim_left s) ≡ false
unfolding all_space trim_left
trim_left_not_all [] h = h
trim_left_not_all (c ∷ s) h = ground (arith, trim_left_not_all s)

all_space-append : (s t : Text) → all_space (s ++ t) ≡ (all_space s && all_space t)
unfolding all_space
all_space-append [] t = refl
all_space-append (c ∷ s) t = ground (arith, all_space-append s t)

all_space-reverse : (s : Text) → all_space (reverse s) ≡ all_space s
unfolding all_space
all_space-reverse [] = refl
all_space-reverse (c ∷ s) =
    ap all_space (reverse-append (c ∷ []) s)
    ∙ all_space-append (reverse s) (c ∷ [])
    ∙ ground (arith, all_space-reverse s)

not_all_space_ne_nil : (s : Text) → all_space s ≡ false → text_eq s [] ≡ false
unfolding all_space text_eq
not_all_space_ne_nil [] h = cc
not_all_space_ne_nil (c ∷ s) h = refl

-- A text is blank exactly when it holds nothing but white space.
pub is_blank-eq-all_space : (s : Text) → is_blank s ≡ all_space s
unfolding is_blank
is_blank-eq-all_space s = elim (Bool-cases (all_space s)) [
  | inl blank ↦ rw (trim_left_all s blank, blank) (unfold trim_left in refl)
  | inr solid ↦
      let inner = rw (← all_space-reverse (trim_left s)) at (trim_left_not_all s solid) in
      let outer = trim_left_not_all (reverse (trim_left s)) inner in
      rw solid
        (not_all_space_ne_nil _ (all_space-reverse (trim_left (reverse (trim_left s))) ∙ outer))
]
