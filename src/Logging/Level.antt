-- ===== src/Logging/Level.antt =====
-- ParseLevel, levelName, Enabled, and which records a configured level shows.
use logstat.Prelude.{
  ℕ, ◌<◌, ◌-◌, ◌+◌, ◌^◌, ◌≡◌, refl, ap, ◌∙◌, ◌⊎◌, inl, inr, Bool-cases, Bool, true, false, not,
  ◌&&◌, ◌||◌, List, [], ◌∷◌, Option, none, some, arith, leb, if◌then◌else◌,
}
use logstat.Text.{Text, codes, text_eq, text_eq_iff, text_elem}
use logstat.Text.Trim.{trim_space, trim_left, is_space}
use logstat.Int64.{Int64, lt64}
use logstat.Config.{levels}

-- slog.LevelDebug, LevelInfo, LevelWarn and LevelError: -4, 0, 4 and 8.
abbrev pub level_debug : Int64
level_debug = 2 ^ 64 - 4

abbrev pub level_info : Int64
level_info = 0

abbrev pub level_warn : Int64
level_warn = 4

abbrev pub level_error : Int64
level_error = 8

-- The switch of ParseLevel.
unfoldable pub level_of : Text → Option Int64
unfolding text_eq
level_of name =
    if text_eq name (codes "debug")
    then some level_debug
    else if text_eq name (codes "info")
    then some level_info
    else if text_eq name (codes "warn") || text_eq name (codes "warning")
    then some level_warn
    else if text_eq name (codes "error")
    then some level_error
    else none

-- ParseLevel; none for its error.
unfoldable pub parse_level : (Text → Text) → Text → Option Int64
parse_level to_lower name = level_of (to_lower (trim_space name))

-- levelName
unfoldable pub level_name : Int64 → Text
level_name l =
    if lt64 l level_info
    then codes "DEBUG"
    else if lt64 l level_warn
    then codes "INFO"
    else if lt64 l level_error
    then codes "WARN"
    else codes "ERROR"

pub level_name-cases :
    (l : Int64)
    → (level_name l ≡ codes "DEBUG")
      ⊎ (level_name l ≡ codes "INFO")
      ⊎ (level_name l ≡ codes "WARN")
      ⊎ (level_name l ≡ codes "ERROR")
unfolding level_name
level_name-cases l = ground arith

-- handler.Enabled: l >= h.level
unfoldable pub enabled : Int64 → Int64 → Bool
enabled level l = not (lt64 l level)

-- The place of a text in a list, and the length where it is not there.
unfoldable pub place : Text → List Text → ℕ
place t [] = 0
place t (s ∷ ts) = let rest = place t ts in if text_eq s t then 0 else 1 + rest

-- The names that a line shows, in the order of Levels.
abbrev pub shown_names : List Text
shown_names = codes "DEBUG" ∷ codes "INFO" ∷ codes "WARN" ∷ codes "ERROR" ∷ []

-- The units are letters from a to z.
unfoldable pub all_lower : Text → Bool
all_lower [] = true
all_lower (c ∷ t) = leb 97 c && leb c 122 && all_lower t

listed :
    (name : Text)
    → text_elem name levels ≡ true
    → (name ≡ codes "debug")
      ⊎ (name ≡ codes "info")
      ⊎ (name ≡ codes "warn")
      ⊎ (name ≡ codes "error")
unfolding text_elem
listed name e = ground (
  arith,
  e,
  text_eq_iff (codes "debug") name,
  text_eq_iff (codes "info") name,
  text_eq_iff (codes "warn") name,
  text_eq_iff (codes "error") name,
)

-- The level of the name shows the records whose name is its own or stands behind it.
abbrev Shows : Text → Int64 → Type 0
Shows name l =
    (r : Int64)
    → r < 2 ^ 64
    → lt64 r level_debug ≡ false
    → enabled l r ≡ leb (place name levels) (place (level_name r) shown_names)

-- The place of the name of a level.
unfoldable severity : Int64 → ℕ
severity l =
    if lt64 l level_info
    then 0
    else if lt64 l level_warn
    then 1
    else if lt64 l level_error
    then 2
    else 3

place-level_name : (l : Int64) → place (level_name l) shown_names ≡ severity l
unfolding place level_name severity text_eq
place-level_name l = elim (Bool-cases (lt64 l level_info)) [
  | inl e ↦ rw e refl
  | inr e ↦ rw e (elim (Bool-cases (lt64 l level_warn)) [
    | inl f ↦ rw f refl
    | inr f ↦
        rw f (elim (Bool-cases (lt64 l level_error)) [ inl g ↦ rw g refl | inr g ↦ rw g refl ])
  ])
]

debug-Shows : Shows (codes "debug") level_debug
unfolding enabled severity place lt64 text_eq
debug-Shows r b h = rw (place-level_name r) (ground (arith, h))

info-Shows : Shows (codes "info") level_info
unfolding enabled severity place lt64 text_eq
info-Shows r b h = rw (place-level_name r) (ground (arith, b, h))

warn-Shows : Shows (codes "warn") level_warn
unfolding enabled severity place lt64 text_eq
warn-Shows r b h = rw (place-level_name r) (ground (arith, b, h))

error-Shows : Shows (codes "error") level_error
unfolding enabled severity place lt64 text_eq
error-Shows r b h = rw (place-level_name r) (ground (arith, b, h))

module _ (to_lower : Text → Text) (lower : (t : Text) → all_lower t ≡ true → to_lower t ≡ t) where
  -- What listed_levels_work states of a name.
  abbrev Works : Text → Type 0
  Works name = (l : Int64) × (parse_level to_lower name ≡ some l) × Shows name l

  name-Works :
      (name : Text) (l : Int64)
      → trim_space name ≡ name
      → all_lower name ≡ true
      → level_of name ≡ some l
      → Shows name l
      → Works name
  unfolding parse_level
  name-Works name l t a e s =
      (l, ap (λ x. level_of (to_lower x)) t ∙ ap level_of (lower name a) ∙ e, s)

-- ParseLevel gives each level of Levels, which are the levels that a configuration may name, a level
-- that shows exactly the records whose printed name is its own or a graver one. The conditions: lower
-- case letters stay as they are in strings.ToLower, and the record is at least a debug record.
pub listed_levels_work :
    (to_lower : Text → Text)
    → ((t : Text) → all_lower t ≡ true → to_lower t ≡ t)
    → (name : Text) → text_elem name levels ≡ true
    → (l : Int64) × (parse_level to_lower name ≡ some l) × Shows name l
unfolding all_lower level_of trim_space trim_left is_space text_eq
listed_levels_work to_lower lower name e =
    let works = name-Works to_lower lower in
    elim (listed name e) [
      | inl d ↦ rw d (works (codes "debug") level_debug refl refl refl debug-Shows)
      | inr (inl i) ↦ rw i (works (codes "info") level_info refl refl refl info-Shows)
      | inr (inr (inl w)) ↦ rw w (works (codes "warn") level_warn refl refl refl warn-Shows)
      | inr (inr (inr g)) ↦ rw g (works (codes "error") level_error refl refl refl error-Shows)
    ]
