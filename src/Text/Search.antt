-- ===== src/Text/Search.antt =====
-- strings.HasPrefix, HasSuffix, Contains and ContainsAny, and the occurrence that Contains decides.
use mathlib.Core.List.{append_assoc, append-nil, reverse}
use logstat.Prelude.{
  ℕ, ◌≡◌, refl, sym, ap, ◌↔◌, inl, inr, Bool, true, false, ◌&&◌, ◌||◌, [], ◌∷◌, ◌++◌, arith, ◌==◌,
  Option, none, some, if◌then◌else◌, Bool-cases,
}
use logstat.Text.{Text}

-- strings.HasPrefix(s, p)
unfoldable pub has_prefix : Text → Text → Bool
has_prefix s [] = true
has_prefix [] (_ ∷ _) = false
has_prefix (a ∷ s) (b ∷ p) = a == b && has_prefix s p

-- strings.HasSuffix(s, p)
unfoldable pub has_suffix : Text → Text → Bool
unfolding has_prefix
has_suffix s p = has_prefix (reverse s) (reverse p)

-- strings.Contains(s, sub)
unfoldable pub contains : Text → Text → Bool
unfolding has_prefix
contains [] sub = has_prefix [] sub
contains (a ∷ s) sub = has_prefix (a ∷ s) sub || contains s sub

-- strings.ContainsFunc(s, p)
unfoldable pub contains_func : Text → (ℕ → Bool) → Bool
contains_func [] p = false
contains_func (a ∷ s) p = p a || contains_func s p

-- strings.ContainsAny(s, chars)
unfoldable pub contains_any : Text → Text → Bool
unfolding contains_func
contains_any s chars = contains_func s (λ a. contains_func chars (λ b. a == b))

-- The text has the unit b.
abbrev pub has_unit : ℕ → Text → Bool
has_unit b s = contains_func s (λ c. c == b)

-- The text in front of the first b, and the text behind it.
unfoldable pub cut_first : ℕ → Text → Option (Text × Text)
cut_first b [] = none
cut_first b (c ∷ s) =
    let rest = cut_first b s in
    if c == b then some ([], s) else elim rest [ none ↦ none | some (u, v) ↦ some (c ∷ u, v) ]

pub cut_first-append :
    (b : ℕ) (u v : Text) → has_unit b u ≡ false → cut_first b (u ++ (b ∷ v)) ≡ some (u, v)
unfolding cut_first contains_func
cut_first-append b [] v h = ground arith
cut_first-append b (c ∷ u) v h = ground (arith, cut_first-append b u v)

-- sub stands somewhere in s.
abbrev pub Occurs : Text → Text → Type 0
Occurs sub s = (before : Text) × (after : Text) × (s ≡ before ++ (sub ++ after))

has_prefix-append : (p after : Text) → has_prefix (p ++ after) p ≡ true
unfolding has_prefix
has_prefix-append [] after = refl
has_prefix-append (a ∷ p) after = ground (arith, has_prefix-append p after)

has_prefix_split : (s p : Text) → has_prefix s p ≡ true → (after : Text) × (s ≡ p ++ after)
unfolding has_prefix
has_prefix_split s [] h = (s, refl)
has_prefix_split [] (b ∷ p) h = ground arith
has_prefix_split (a ∷ s) (b ∷ p) h =
    let (after, e) = has_prefix_split s p (ground arith) in (after, ground arith)

contains-Occurs : (s sub : Text) → contains s sub ≡ true → Occurs sub s
unfolding contains
contains-Occurs [] sub h = let (after, e) = has_prefix_split [] sub h in ([], after, e)
contains-Occurs (a ∷ s) sub h = elim (Bool-cases (has_prefix (a ∷ s) sub)) [
  | inl here ↦ let (after, e) = has_prefix_split (a ∷ s) sub here in ([], after, e)
  | inr not_here ↦
      let (before, after, e) = contains-Occurs s sub (rw not_here at h) in
      (a ∷ before, after, ap (λ t. a ∷ t) e)
]

contains-append :
    (before rest sub : Text) → contains rest sub ≡ true → contains (before ++ rest) sub ≡ true
unfolding contains
contains-append [] rest sub h = h
contains-append (a ∷ before) rest sub h = ground (arith, contains-append before rest sub h)

contains_of_prefix : (s sub : Text) → has_prefix s sub ≡ true → contains s sub ≡ true
unfolding contains
contains_of_prefix [] sub h = h
contains_of_prefix (a ∷ s) sub h = ground arith

Occurs-contains : (s sub : Text) → Occurs sub s → contains s sub ≡ true
Occurs-contains s sub (before, after, e) = rw e (
    contains-append before (sub ++ after) sub
      (contains_of_prefix (sub ++ after) sub (has_prefix-append sub after)))

-- strings.Contains decides whether sub stands somewhere in s.
pub contains_iff : (s sub : Text) → (contains s sub ≡ true) ↔ Occurs sub s
contains_iff s sub = (contains-Occurs s sub, Occurs-contains s sub)

Occurs-trans : (a b c : Text) → Occurs a b → Occurs b c → Occurs a c
Occurs-trans a b c (x, y, p) (u, v, q) = (u ++ x, y ++ v, rw (q, p) (simp append_assoc))

-- What contains a text contains each text that stands in it.
pub contains_trans :
    (a b c : Text) → contains b a ≡ true → contains c b ≡ true → contains c a ≡ true
contains_trans a b c h k =
    Occurs-contains c a (Occurs-trans a b c (contains-Occurs b a h) (contains-Occurs c b k))

pub contains_self : (s : Text) → contains s s ≡ true
contains_self s = Occurs-contains s s ([], [], sym (append-nil s))
