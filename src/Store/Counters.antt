-- ===== src/Store/Counters.antt =====
-- Store.Counters against a description of what each action's value says.
use logstat.Prelude.{
  ◌≡◌, refl, ◌↔◌, Bool, true, false, ◌&&◌, ◌||◌, List, [], ◌∷◌, Option, none, some, arith, length,
  ==_iff, if◌then◌else◌, Option-cases, inl, inr,
}
use logstat.Text.{Text, text_eq, text_eq_iff, text_elem, Distinct}
use logstat.Int64.{Int64}
use logstat.Dict.{Dict, lookup, insert, lookup-insert}
use logstat.Store.Redis.{Value, Reply}
use logstat.Store.{parse_value, is_nil, read_each, read_reply, is_unavailable}

-- The integer that the reply has for an action: none where the key is missing or holds no integer.
abbrev pub assigned : Text → List Text → List Value → Option Int64
assigned b (a ∷ actions) (v ∷ values) =
    if text_eq a b then parse_value v else assigned b actions values
assigned b _ _ = none

abbrev pub is_readable : Value → Bool
is_readable v = is_nil v || elim (parse_value v) [ none ↦ false | some _ ↦ true ]

abbrev pub all_readable : List Value → Bool
all_readable [] = true
all_readable (v ∷ values) = is_readable v && all_readable values

abbrev or_else : Option Int64 → Option Int64 → Option Int64
or_else none n = n
or_else (some n) _ = some n

assigned_absent :
    (b : Text) (actions : List Text) (values : List Value)
    → text_elem b actions ≡ false
    → assigned b actions values ≡ none
unfolding text_elem
assigned_absent b [] values h = refl
assigned_absent b (a ∷ actions) [] h = refl
assigned_absent b (a ∷ actions) (v ∷ values) h = ground (arith, h, assigned_absent b actions values)

nil_value : (v : Value) → is_nil v ≡ true → parse_value v ≡ none
nil_value v h = ground arith

lookup-read_each :
    (b : Text) (actions : List Text) (values : List Value) (out : Dict Int64)
    → Distinct actions
    → lookup b (read_each actions values out).out
      ≡ or_else (assigned b actions values) (lookup b out)
unfolding read_each
lookup-read_each b [] values out d = refl
lookup-read_each b (a ∷ actions) [] out d = refl
lookup-read_each b (a ∷ actions) (v ∷ values) out d = elim (Option-cases (parse_value v)) [
  | inl e ↦ ground (
    arith,
    e,
    lookup-read_each b actions values out d.1,
    assigned_absent b actions values,
    d.0,
    text_eq_iff a b,
  )
  | inr (n, e) ↦ ground (
    arith,
    e,
    nil_value v,
    lookup-read_each b actions values (insert a n out) d.1,
    assigned_absent b actions values,
    d.0,
    text_eq_iff a b,
    lookup-insert a b n out,
  )
]

abbrev no_text : List Text → Bool
no_text [] = true
no_text (_ ∷ _) = false

read_each_malformed :
    (actions : List Text) (values : List Value) (out : Dict Int64)
    → length values ≡ length actions
    → no_text (read_each actions values out).malformed ≡ all_readable values
unfolding read_each
read_each_malformed [] [] out h = refl
read_each_malformed [] (v ∷ values) out h = ground arith
read_each_malformed (a ∷ actions) [] out h = ground arith
read_each_malformed (a ∷ actions) (v ∷ values) out h = elim (Option-cases (parse_value v)) [
  | inl e ↦ ground (arith, e, h, read_each_malformed actions values out)
  | inr (n, e) ↦
      ground (arith, e, h, nil_value v, read_each_malformed actions values (insert a n out))
]

-- On a reply with one value for each of distinct actions, Counters has an entry for exactly the
-- actions whose value is an integer, with that integer; it reports an error exactly if some value is
-- there and no integer, and never one that counts as Redis being unavailable.
pub read_reply_exact :
    (actions : List Text) (values : List Value) (b : Text)
    → Distinct actions
    → length values ≡ length actions
    → let (out, error) = read_reply actions (Reply.ok values) in
      (lookup b out ≡ assigned b actions values)
      × ((error ≡ none) ↔ (all_readable values ≡ true))
      × (is_unavailable error ≡ false)
unfolding read_reply is_unavailable lookup
read_reply_exact actions values b d h = ground (
  arith,
  h,
  ==_iff (length values) (length actions),
  lookup-read_each b actions values [] d,
  read_each_malformed actions values [] h,
)
