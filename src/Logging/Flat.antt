-- ===== src/Logging/Flat.antt =====
-- The attributes of a line as a list of dotted names and values.
use mathlib.Core.List.{append_assoc, append-nil}
use logstat.Prelude.{
  ◌≡◌, refl, sym, ap, ◌∙◌, List, [], ◌∷◌, ◌++◌, if◌then◌else◌, inl, inr, Bool-cases,
}
use logstat.Text.{Text, codes, text_eq}
use logstat.Logging.Record.{
  Value, nil_value, scalar, group, Attrs, no_attrs, attr, prefix, quote, write_attr, append_attr,
  append_attrs,
}

-- What stands behind a key: the groups around it, the key, and the text of the value.
pub record Leaf : Type 0 where
  pub groups : List Text
  pub key : Text
  pub text : Text

abbrev pub leaf_name : Leaf → Text
leaf_name l = prefix l.groups ++ l.key

unfoldable mutual
  -- The values that are not groups, in the order of the line.
  pub leaves_of : List Text → Text → Value → List Leaf
  leaves_of groups key nil_value =
      if text_eq key []
      then []
      else record { groups = groups; key = key; text = codes "<nil>" } ∷ []
  leaves_of groups key (scalar text) = record { groups = groups; key = key; text = text } ∷ []
  leaves_of groups key (group no_attrs) = []
  leaves_of groups key (group (attr k v xs)) =
      leaves (if text_eq key [] then groups else groups ++ (key ∷ [])) (attr k v xs)

  pub leaves : List Text → Attrs → List Leaf
  leaves groups no_attrs = []
  leaves groups (attr k v xs) = leaves_of groups k v ++ leaves groups xs

module _ (go_quote : Text → Text) where
  -- The leaves as a line has them.
  unfoldable pub leaves_text : List Leaf → Text
  leaves_text [] = []
  leaves_text (l ∷ ls) = b' ' ∷ (leaf_name l ++ (b'=' ∷ (quote go_quote l.text ++ leaves_text ls)))

  leaves_text-append :
      (xs ys : List Leaf) → leaves_text (xs ++ ys) ≡ leaves_text xs ++ leaves_text ys
  unfolding leaves_text
  leaves_text-append [] ys = refl
  leaves_text-append (x ∷ xs) ys = simp (leaves_text-append xs ys, append_assoc)

  write_attr-leaf :
      (b : Text) (groups : List Text) (key text : Text)
      → write_attr go_quote b groups key text
        ≡ b ++ leaves_text (record { groups = groups; key = key; text = text } ∷ [])
  unfolding write_attr leaves_text
  write_attr-leaf b groups key text = simp (append_assoc, append-nil)

  mutual
    unfolding append_attr leaves_of leaves_text

    append_attr-leaves :
        (b : Text) (groups : List Text) (key : Text) (v : Value)
        → append_attr go_quote b groups key v ≡ b ++ leaves_text (leaves_of groups key v)
    append_attr-leaves b groups key nil_value = elim (Bool-cases (text_eq key [])) [
      | inl e ↦ rw e (sym (append-nil b))
      | inr e ↦ rw e (write_attr-leaf b groups key (codes "<nil>"))
    ]
    append_attr-leaves b groups key (scalar text) = write_attr-leaf b groups key text
    append_attr-leaves b groups key (group no_attrs) = sym (append-nil b)
    append_attr-leaves b groups key (group (attr k v xs)) =
        append_attrs-leaves b (if text_eq key [] then groups else groups ++ (key ∷ []))
          (attr k v xs)

    -- A line has exactly its leaves, in their order.
    pub append_attrs-leaves :
        (b : Text) (groups : List Text) (xs : Attrs)
        → append_attrs go_quote b groups xs ≡ b ++ leaves_text (leaves groups xs)
    append_attrs-leaves b groups no_attrs = sym (append-nil b)
    append_attrs-leaves b groups (attr k v xs) =
        append_attrs-leaves (append_attr go_quote b groups k v) groups xs
        ∙ ap (λ t. t ++ leaves_text (leaves groups xs)) (append_attr-leaves b groups k v)
        ∙ append_assoc b (leaves_text (leaves_of groups k v)) (leaves_text (leaves groups xs))
        ∙ ap (λ t. b ++ t) (sym (leaves_text-append (leaves_of groups k v) (leaves groups xs)))
