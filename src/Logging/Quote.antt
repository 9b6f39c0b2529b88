-- ===== src/Logging/Quote.antt =====
-- strconv.Quote and its reading, as documented, and the texts that quote makes of values.
use logstat.Prelude.{
  ℕ, ◌≡◌, refl, sym, ap, ◌∙◌, Bool, true, false, [], ◌∷◌, ◌++◌, Option, some, arith, ◌==◌,
  if◌then◌else◌, inl, inr, Bool-cases,
}
use logstat.Text.{Text, codes}
use logstat.Text.Search.{has_unit, contains_func, contains_any}
use logstat.Logging.Record.{quote}

-- The documentation of strconv: Quote writes a literal in double quotes with escapes for control
-- characters, and strconv.QuotedPrefix with strconv.Unquote reads it off the front of a text.
pub record QuoteDocumented (go_quote : Text → Text) (read_quoted : Text → Option (Text × Text))
    : Type 0 where
  pub quote_nil : go_quote [] ≡ codes "\"\""
  pub opens : (s : Text) → (t : Text) × (go_quote s ≡ b'"' ∷ t)
  pub no_newline : (s : Text) → has_unit b'\n' (go_quote s) ≡ false
  pub reads : (s rest : Text) → read_quoted (go_quote s ++ rest) ≡ some (s, rest)

-- The text up to the first space, and the text from there.
unfoldable pub cut_space : Text → Text × Text
cut_space [] = ([], [])
cut_space (c ∷ t) =
    let (word, rest) = cut_space t in if c == b' ' then ([], c ∷ t) else (c ∷ word, rest)

-- A reader of what quote writes.
unfoldable pub read_value : (Text → Option (Text × Text)) → Text → Option (Text × Text)
read_value read_quoted [] = some ([], [])
read_value read_quoted (c ∷ t) = if c == b'"' then read_quoted (c ∷ t) else some (cut_space (c ∷ t))

-- What may stand behind an attribute: the end, or the next attribute.
unfoldable pub ends_value : Text → Bool
ends_value [] = true
ends_value (c ∷ t) = c == b' '

cut_space-append :
    (s rest : Text)
    → contains_any s (codes " \t\n\"=") ≡ false
    → ends_value rest ≡ true
    → cut_space (s ++ rest) ≡ (s, rest)
unfolding cut_space contains_any contains_func ends_value
cut_space-append [] [] p e = refl
cut_space-append [] (c ∷ rest) p e = ground (arith, e)
cut_space-append (c ∷ s) rest p e =
    let q : contains_any s (codes " \t\n\"=") ≡ false = ground (arith, p) in
    rw (cut_space-append s rest q e) (ground (arith, p))

read_value-append :
    (read_quoted : Text → Option (Text × Text)) (c : ℕ) (s rest : Text)
    → contains_any (c ∷ s) (codes " \t\n\"=") ≡ false
    → ends_value rest ≡ true
    → read_value read_quoted (c ∷ (s ++ rest)) ≡ some (c ∷ s, rest)
unfolding read_value contains_any contains_func
read_value-append read_quoted c s rest q e =
    let open_mark : (c == b'"') ≡ false = ground (arith, q) in
    rw open_mark (ap some (cut_space-append (c ∷ s) rest q e))

plain_one_line : (s : Text) → contains_any s (codes " \t\n\"=") ≡ false → has_unit b'\n' s ≡ false
unfolding contains_any contains_func
plain_one_line [] q = refl
plain_one_line (c ∷ s) q = ground (arith, q, plain_one_line s)

module _ (go_quote : Text → Text) (read_quoted : Text → Option (Text × Text))
    (doc : QuoteDocumented go_quote read_quoted) where
  open doc use {quote_nil, opens, no_newline, reads}

  read_quoted_value : (s rest : Text) → read_value read_quoted (go_quote s ++ rest) ≡ some (s, rest)
  unfolding read_value
  read_quoted_value s rest =
      let (t, o) = opens s in
      let r : read_quoted (b'"' ∷ (t ++ rest)) ≡ some (s, rest) =
        ap (λ x. read_quoted (x ++ rest)) (sym o) ∙ reads s rest in
      rw o r

  -- The reader gets each value back.
  pub read_value-quote :
      (s rest : Text)
      → ends_value rest ≡ true
      → read_value read_quoted (quote go_quote s ++ rest) ≡ some (s, rest)
  unfolding quote
  read_value-quote [] rest e =
      ap (λ x. read_value read_quoted (x ++ rest)) (sym quote_nil) ∙ read_quoted_value [] rest
  read_value-quote (c ∷ s) rest e = elim (Bool-cases (contains_any (c ∷ s) (codes " \t\n\"="))) [
    | inl q ↦ rw q (read_quoted_value (c ∷ s) rest)
    | inr q ↦ rw q (read_value-append read_quoted c s rest q e)
  ]

  -- A value has no line break in its quoted text.
  pub quote_one_line : (s : Text) → has_unit b'\n' (quote go_quote s) ≡ false
  unfolding quote
  quote_one_line [] = unfold contains_func in refl
  quote_one_line (c ∷ s) = elim (Bool-cases (contains_any (c ∷ s) (codes " \t\n\"="))) [
    | inl q ↦ rw q (no_newline (c ∷ s))
    | inr q ↦ rw q (plain_one_line (c ∷ s) q)
  ]
