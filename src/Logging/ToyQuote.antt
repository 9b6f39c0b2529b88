-- ===== src/Logging/ToyQuote.antt =====
-- A quoting that keeps to the documentation of strconv, for the witnesses: it escapes the quote, the
-- backslash and the line break.
use logstat.Prelude.{
  ℕ, ◌≡◌, refl, Bool, true, false, ◌||◌, [], ◌∷◌, ◌++◌, Option, none, some, arith, ◌==◌,
  if◌then◌else◌, inl, inr, Bool-cases,
}
use logstat.Text.{Text}
use logstat.Text.Search.{contains_func, has_unit}
use logstat.Logging.Quote.{QuoteDocumented}

-- The escapes, and the closing quote.
unfoldable pub escape : Text → Text
escape [] = b'"' ∷ []
escape (c ∷ t) =
    let rest = escape t in
    if c == b'\n'
    then b'\\' ∷ b'n' ∷ rest
    else if c == b'"' || c == b'\\'
    then b'\\' ∷ c ∷ rest
    else c ∷ rest

unfoldable pub toy_quote : Text → Text
toy_quote t = b'"' ∷ escape t

abbrev with_unit : ℕ → Option (Text × Text) → Option (Text × Text)
with_unit c none = none
with_unit c (some (t, rest)) = some (c ∷ t, rest)

-- The text up to the closing quote; the flag stands for a backslash in front.
unfoldable pub unescape : Bool → Text → Option (Text × Text)
unescape b [] = none
unescape true (c ∷ t) =
    let rest = unescape false t in with_unit (if c == b'n' then b'\n' else c) rest
unescape false (c ∷ t) =
    let plain = unescape false t in
    let escaped = unescape true t in
    if c == b'\\' then escaped else if c == b'"' then some ([], t) else with_unit c plain

unfoldable pub toy_read : Text → Option (Text × Text)
toy_read [] = none
toy_read (_ ∷ t) = unescape false t

unescape-escape : (t rest : Text) → unescape false (escape t ++ rest) ≡ some (t, rest)
unfolding escape unescape
unescape-escape [] rest = refl
unescape-escape (c ∷ t) rest =
    let ih = unescape-escape t rest in
    elim (Bool-cases (c == b'\n')) [
      | inl e ↦ rw (e, ih) (ground (arith, e))
      | inr e ↦ elim (Bool-cases (c == b'"' || c == b'\\')) [
        | inl f ↦ rw (e, f, ih) (ground (arith, e, f))
        | inr f ↦ rw (e, f, ih) (ground (arith, e, f))
      ]
    ]

escape_line : (t : Text) → has_unit b'\n' (escape t) ≡ false
unfolding escape contains_func
escape_line [] = refl
escape_line (c ∷ t) = ground (arith, escape_line t)

pub toy_quote-QuoteDocumented : QuoteDocumented toy_quote toy_read
unfolding toy_quote toy_read escape contains_func
toy_quote-QuoteDocumented = record {
  quote_nil = refl;
  opens = λ s. (escape s, refl);
  no_newline = λ s. escape_line s;
  reads = λ s rest. unescape-escape s rest;
}
