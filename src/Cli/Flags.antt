-- ===== src/Cli/Flags.antt =====
-- configFlags and parseExit, and package flag's Parse of the flags that the two commands have.
use logstat.Prelude.{
  ◌≡◌, ◌⊎◌, inl, inr, refl, ℕ, Bool, true, false, ◌&&◌, ◌||◌, List, [], ◌∷◌, Option, none, some,
  ◌==◌, if◌then◌else◌,
}
use logstat.Text.{Text, codes, text_eq, text_elem}
use logstat.Text.Search.{cut_first}

-- The variables that the flags set; the command run has only the first.
pub record Flags : Type 0 where
  pub cfg_path : Text
  pub action : Text
  pub all : Bool

abbrev pub no_flags : Flags
no_flags = record { cfg_path = []; action = []; all = false }

-- The errors of Parse; the first is flag.ErrHelp.
pub data FlagError : Type 0 where
  help bad_syntax not_defined no_argument bad_boolean : FlagError

pub data Parsed : Type 0 where
  parsed : Flags → Parsed
  unparsed : FlagError → Parsed

-- parseExit
abbrev pub parse_exit : FlagError → ℕ
parse_exit help = 0
parse_exit bad_syntax = 2
parse_exit not_defined = 2
parse_exit no_argument = 2
parse_exit bad_boolean = 2

-- The variable behind a name; is_clear tells the command clear from run.
pub data Target : Type 0 where
  to_config to_action to_all : Target

unfoldable pub target : Bool → Text → Option Target
unfolding text_eq
target is_clear name =
    if text_eq name (codes "config") || text_eq name (codes "c")
    then some to_config
    else if is_clear && text_eq name (codes "action")
    then some to_action
    else if is_clear && text_eq name (codes "all")
    then some to_all
    else none

-- strconv.ParseBool
unfoldable pub parse_bool : Text → Option Bool
unfolding text_elem
parse_bool t =
    if text_elem t
      (codes "1" ∷ codes "t" ∷ codes "T" ∷ codes "TRUE" ∷ codes "true" ∷ codes "True" ∷ [])
    then some true
    else if text_elem t
        (codes "0" ∷ codes "f" ∷ codes "F" ∷ codes "FALSE" ∷ codes "false" ∷ codes "False" ∷ [])
    then some false
    else none

-- An argument: where flags end, a flag of bad syntax, or a name with the value behind its equals sign.
pub data Word : Type 0 where
  flags_end bad_flag : Word
  named : Text → Option Text → Word

unfoldable pub named_word : Text → Word
unfolding cut_first
named_word [] = bad_flag
named_word (c ∷ t) =
    let cut = cut_first b'=' (c ∷ t) in
    if c == b'-' || c == b'='
    then bad_flag
    else elim cut [ none ↦ named (c ∷ t) none | some (name, value) ↦ named name (some value) ]

unfoldable pub word : Text → Word
unfolding named_word
word [] = flags_end
word (c ∷ []) = flags_end
word (c ∷ d ∷ t) =
    if c == b'-'
    then (if d == b'-'
        then elim t [ [] ↦ flags_end | e ∷ u ↦ named_word (e ∷ u) ]
        else named_word (d ∷ t))
    else flags_end

-- What Parse does with an argument: it ends, or goes on behind it or behind the next one.
pub data Step : Type 0 where
  ends : Parsed → Step
  one two : Flags → Step

abbrev pub assign : Target → Text → Flags → Parsed
assign to_config v f = parsed (record f { cfg_path = v })
assign to_action v f = parsed (record f { action = v })
assign to_all v f = elim (parse_bool v) [
  | none ↦ unparsed bad_boolean
  | some b ↦ parsed (record f { all = b })
]

abbrev go_on : (Flags → Step) → Parsed → Step
go_on k (parsed f) = k f
go_on k (unparsed e) = ends (unparsed e)

-- A flag without an equals sign, with the argument behind it.
abbrev bare : Target → Option Text → Flags → Step
bare to_all next f = one (record f { all = true })
bare to_config none f = ends (unparsed no_argument)
bare to_config (some v) f = go_on two (assign to_config v f)
bare to_action none f = ends (unparsed no_argument)
bare to_action (some v) f = go_on two (assign to_action v f)

unfoldable pub parse_one : Bool → Text → Option Text → Flags → Step
unfolding word target
parse_one is_clear s next f = elim (word s) [
  | flags_end ↦ ends (parsed f)
  | bad_flag ↦ ends (unparsed bad_syntax)
  | named name value ↦ elim (target is_clear name) [
    | none ↦ ends (
        unparsed
          (if text_eq name (codes "help") || text_eq name (codes "h") then help else not_defined))
    | some t ↦ elim value [ some v ↦ go_on one (assign t v f) | none ↦ bare t next f ]
  ]
]

-- FlagSet.Parse
unfoldable pub parse_flags : Bool → List Text → Flags → Parsed
unfolding parse_one
parse_flags is_clear [] f = parsed f
parse_flags is_clear (s ∷ []) f = elim (parse_one is_clear s none f) [
  | ends p ↦ p
  | one g ↦ parsed g
  | two g ↦ parsed g
]
parse_flags is_clear (s ∷ v ∷ rest) f = elim (parse_one is_clear s (some v) f) [
  | ends p ↦ p
  | one g ↦ parse_flags is_clear (v ∷ rest) g
  | two g ↦ parse_flags is_clear rest g
]

pub Parsed-cases :
    (p : Parsed) → ((f : Flags) × (p ≡ parsed f)) ⊎ ((e : FlagError) × (p ≡ unparsed e))
Parsed-cases (parsed f) = inl (f, refl)
Parsed-cases (unparsed e) = inr (e, refl)
