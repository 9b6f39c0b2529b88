-- ===== src/Config/Overlaps/Exact.antt =====
-- Which substring warnings Overlaps gives, and what they mean for the counting of lines.
use logstat.Prelude.{
  ℕ, suc, ◌+◌, ◌≡◌, ◌≢◌, refl, sym, ◌∙◌, ◌↔◌, Bool, true, false, not, ◌&&◌, ◌||◌, List, [], ◌∷◌,
  ◌++◌, arith, ◌<◌, and_right, length, length-append, ap,
}
use mathlib.Core.List.{append_assoc}
use logstat.Text.{Text, text_eq, text_eq_iff, text_elem}
use logstat.Text.Search.{contains, contains_trans, contains_self}
use logstat.Counter.{fold_case, new}
use logstat.Counter.Totals.{counts}
use logstat.Config.Overlaps.{
  Warning, duplicate, same_but_case, substring, short_ttl, overlap, overlaps_with, overlaps_from,
  overlaps,
}

-- The warning that x is a substring of y is among the warnings.
abbrev pub warns : Text → Text → List Warning → Bool
warns x y [] = false
warns x y (substring a b ∷ ws) = text_eq a x && text_eq b y || warns x y ws
warns x y (duplicate _ ∷ ws) = warns x y ws
warns x y (same_but_case _ _ ∷ ws) = warns x y ws
warns x y (short_ttl _ _ ∷ ws) = warns x y ws

warns-append :
    (x y : Text) (us vs : List Warning) → warns x y (us ++ vs) ≡ (warns x y us || warns x y vs)
warns-append x y [] vs = refl
warns-append x y (substring a b ∷ us) vs = ground (arith, warns-append x y us vs)
warns-append x y (duplicate _ ∷ us) vs = warns-append x y us vs
warns-append x y (same_but_case _ _ ∷ us) vs = warns-append x y us vs
warns-append x y (short_ttl _ _ ∷ us) vs = warns-append x y us vs

-- The actions from j on hold a at index i, if they hold that index.
abbrev InStep : ℕ → Text → ℕ → List Text → Type 0
InStep i a j [] = Unit
InStep i a j (b ∷ actions) = (i ≡ j → b ≡ a) × InStep i a (suc j) actions

-- The actions from i on are a part of all, which begin at index 0.
abbrev Aligned : ℕ → List Text → List Text → Type 0
Aligned i [] all = Unit
Aligned i (a ∷ actions) all = InStep i a 0 all × Aligned (suc i) actions all

module _ (needle : Text → Text) (x y : Text) where
  -- The test of the loop body on two actions that are not equal.
  abbrev pub stands_in : Bool
  stands_in =
      not (text_eq x [])
      && (not (text_eq y [])
          && (not (text_eq (needle x) (needle y)) && contains (needle y) (needle x)))

  warns-overlap :
      (i : ℕ) (a : Text) (j : ℕ) (b : Text)
      → x ≢ y
      → (i ≡ j → b ≡ a)
      → warns x y (overlap needle i a j b) ≡ (text_eq a x && (text_eq b y && stands_in))
  unfolding overlap
  warns-overlap i a j b ne step = ground (arith, text_eq_iff a x, text_eq_iff b y, step)

  warns-overlaps_with :
      (i : ℕ) (a : Text) (j : ℕ) (actions : List Text)
      → x ≢ y
      → InStep i a j actions
      → warns x y (overlaps_with needle i a j actions)
        ≡ (text_eq a x && (text_elem y actions && stands_in))
  unfolding overlaps_with text_elem
  warns-overlaps_with i a j [] ne step = ground arith
  warns-overlaps_with i a j (b ∷ actions) ne step =
      warns-append x y (overlap needle i a j b) (overlaps_with needle i a (suc j) actions)
      ∙ rw (warns-overlap i a j b ne step.0, warns-overlaps_with i a (suc j) actions ne step.1)
          (ground arith)

  warns-overlaps_from :
      (i : ℕ) (actions all : List Text)
      → x ≢ y
      → Aligned i actions all
      → warns x y (overlaps_from needle i actions all)
        ≡ (text_elem x actions && (text_elem y all && stands_in))
  unfolding overlaps_from text_elem
  warns-overlaps_from i [] all ne step = refl
  warns-overlaps_from i (a ∷ actions) all ne step =
      warns-append x y (overlaps_with needle i a 0 all) (overlaps_from needle (suc i) actions all)
      ∙ rw
          (
            warns-overlaps_with i a 0 all ne step.0,
            warns-overlaps_from (suc i) actions all ne step.1,
          )
          (ground arith)

counts-new :
    (to_lower : Text → Text) (actions : List Text) (case_sensitive : Bool) (line a : Text)
    → counts to_lower (new to_lower actions case_sensitive) line a ≡ (
        text_elem a actions
        && contains (fold_case to_lower case_sensitive line) (fold_case to_lower case_sensitive a))
unfolding new
counts-new to_lower actions cs line a = refl

InStep-past : (i j : ℕ) (a : Text) (actions : List Text) → i < j → InStep i a j actions
InStep-past i j a [] h = tt
InStep-past i j a (b ∷ actions) h =
    ((λ e. absurd (omega arith)), InStep-past i (suc j) a actions (omega arith))

InStep-at :
    (i j : ℕ) (a : Text) (before rest : List Text)
    → i ≡ j + length before
    → InStep i a j (before ++ (a ∷ rest))
InStep-at i j a [] rest e = ((λ _. refl), InStep-past i (suc j) a rest (omega arith))
InStep-at i j a (b ∷ before) rest e =
    ((λ same. absurd (omega arith)), InStep-at i (suc j) a before rest (omega arith))

Aligned-at :
    (i : ℕ) (before actions : List Text) → i ≡ length before → Aligned i actions (before ++ actions)
Aligned-at i before [] e = tt
Aligned-at i before (a ∷ actions) e = (
  InStep-at i 0 a before actions (omega arith),
  rw (← append_assoc before (a ∷ []) actions) (
      Aligned-at (suc i) (before ++ (a ∷ [])) actions
        (omega (arith, length-append before (a ∷ [])))),
)

module _ (to_lower : Text → Text) (actions : List Text) (case_sensitive : Bool) where
  -- Of two different actions x and y, Overlaps warns that x is a substring of y exactly if both are
  -- configured, neither is empty, and x, folded, stands in y, folded, and is not equal to it.
  pub overlaps_exact :
      (x y : Text)
      → x ≢ y
      → warns x y (overlaps to_lower actions case_sensitive) ≡ (
          text_elem x actions
          && (text_elem y actions && stands_in (fold_case to_lower case_sensitive) x y))
  unfolding overlaps
  overlaps_exact x y ne =
      warns-overlaps_from (fold_case to_lower case_sensitive) x y 0 actions actions ne
        (Aligned-at 0 [] actions refl)

  -- For two configured, non-empty actions that differ also when folded, the warning is given exactly
  -- if every line that counts y counts x too.
  pub overlaps_meaning :
      (x y : Text)
      → text_elem x actions ≡ true
      → text_elem y actions ≡ true
      → x ≢ []
      → y ≢ []
      → fold_case to_lower case_sensitive x ≢ fold_case to_lower case_sensitive y
      → let c = new to_lower actions case_sensitive in
        (warns x y (overlaps to_lower actions case_sensitive) ≡ true)
        ↔ ((line : Text) → counts to_lower c line y ≡ true → counts to_lower c line x ≡ true)
  overlaps_meaning x y inx iny nx ny ne =
      let fold = fold_case to_lower case_sensitive in
      let exact = overlaps_exact x y (λ e. ne (ap fold e)) in
      let test : stands_in fold x y ≡ contains (fold y) (fold x) =
        ground (arith, text_eq_iff x [], text_eq_iff y [], text_eq_iff (fold x) (fold y)) in
      let in_y = contains (fold y) (fold x) in
      let warned : warns x y (overlaps to_lower actions case_sensitive) ≡ in_y =
        exact ∙ rw (inx, iny, test) in
      let by_line = counts-new to_lower actions case_sensitive in
      (
        (λ w line h.
            let hy = and_right _ _ (sym (by_line line y) ∙ h) in
            by_line line x
            ∙ rw (inx, contains_trans (fold x) (fold y) (fold line) (sym warned ∙ w) hy)),
        (λ all.
            let hx = all y (by_line y y ∙ rw (iny, contains_self (fold y))) in
            warned ∙ and_right _ _ (sym (by_line y x) ∙ hx)),
      )
