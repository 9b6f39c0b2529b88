-- ===== src/Logging/ReadBack.antt =====
-- The attributes of a line can be read back: their dotted names and their values.
use logstat.Prelude.{
  ℕ, suc, zero, ◌≤◌, ◌≡◌, refl, true, false, List, [], ◌∷◌, ◌++◌, Option, none, some, map, length,
  length-append, arith, All,
}
use logstat.Text.{Text}
use logstat.Text.Search.{has_unit, cut_first, cut_first-append}
use logstat.Logging.Record.{Attrs, append_attrs, quote}
use logstat.Logging.Flat.{Leaf, leaf_name, leaves, leaves_text, append_attrs-leaves}
use logstat.Logging.Quote.{QuoteDocumented, read_value, ends_value, read_value-quote}

-- Up to n attributes from the front of a text; none where it is not a list of attributes.
unfoldable pub read_attrs : (Text → Option (Text × Text)) → ℕ → Text → Option (List (Text × Text))
unfolding cut_first
read_attrs read_quoted n [] = some []
read_attrs read_quoted zero (_ ∷ _) = none
read_attrs read_quoted (suc n) (_ ∷ t) = elim (cut_first b'=' t) [
  | none ↦ none
  | some (name, rest) ↦ elim (read_value read_quoted rest) [
    | none ↦ none
    | some (value, more) ↦ elim (read_attrs read_quoted n more) [
      | none ↦ none
      | some others ↦ some ((name, value) ∷ others)
    ]
  ]
]

-- The dotted name and the value of each leaf.
abbrev pub named_value : Leaf → Text × Text
named_value l = (leaf_name l, l.text)

-- No name of the leaf has the unit.
abbrev pub Lacks : ℕ → Leaf → Type 0
Lacks b l = has_unit b (leaf_name l) ≡ false

module _ (go_quote : Text → Text) (read_quoted : Text → Option (Text × Text))
    (doc : QuoteDocumented go_quote read_quoted) where
  leaves_text-ends : (ls : List Leaf) → ends_value (leaves_text go_quote ls) ≡ true
  unfolding ends_value leaves_text
  leaves_text-ends [] = refl
  leaves_text-ends (l ∷ ls) = refl

  -- There is at least a unit for each leaf.
  length-leaves_text : (ls : List Leaf) → length ls ≤ length (leaves_text go_quote ls)
  unfolding leaves_text
  length-leaves_text [] = omega arith
  length-leaves_text (l ∷ ls) =
      let text = quote go_quote l.text in
      let name_len = length-append (leaf_name l) (b'=' ∷ (text ++ leaves_text go_quote ls)) in
      let text_len = length-append text (leaves_text go_quote ls) in
      let ih = length-leaves_text ls in omega arith

  read_attrs-leaves :
      (n : ℕ) (ls : List Leaf)
      → length ls ≤ n
      → All (Lacks b'=') ls
      → read_attrs read_quoted n (leaves_text go_quote ls) ≡ some (map named_value ls)
  unfolding read_attrs leaves_text
  read_attrs-leaves n [] h a = refl
  read_attrs-leaves zero (l ∷ ls) h a = ground arith
  read_attrs-leaves (suc n) (l ∷ ls) h (a, rest_a) =
      let rest = leaves_text go_quote ls in
      let named = cut_first-append b'=' (leaf_name l) (quote go_quote l.text ++ rest) a in
      let valued = read_value-quote go_quote read_quoted doc l.text rest (leaves_text-ends ls) in
      let others = read_attrs-leaves n ls (omega arith) rest_a in
      rw (read_attrs, named, valued, others) refl

  -- What the attributes add to a line can be read back as their dotted names and values, in their
  -- order, whatever the values are. The conditions: no name has an equals sign, and strconv.Quote
  -- is as documented.
  pub attributes_read_back :
      (b : Text) (groups : List Text) (xs : Attrs)
      → All (Lacks b'=') (leaves groups xs)
      → (t : Text) × (append_attrs go_quote b groups xs ≡ b ++ t)
        × (read_attrs read_quoted (length t) t ≡ some (map named_value (leaves groups xs)))
  attributes_read_back b groups xs a =
      let ls = leaves groups xs in
      (
        leaves_text go_quote ls,
        append_attrs-leaves go_quote b groups xs,
        read_attrs-leaves (length (leaves_text go_quote ls)) ls (length-leaves_text ls) a,
      )
