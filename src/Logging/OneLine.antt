-- ===== src/Logging/OneLine.antt =====
-- A record is one line, whatever its values are.
use logstat.Prelude.{
  ℕ, ◌≡◌, refl, ap, ◌∙◌, false, ◌||◌, List, [], ◌∷◌, ◌++◌, Option, arith, All, inl, inr,
}
use logstat.Text.{Text}
use logstat.Text.Search.{contains_func, has_unit}
use logstat.Int64.{Int64}
use logstat.Logging.Level.{level_name, level_name-cases}
use logstat.Logging.Record.{
  Attrs, Handler, Record, append_attrs, quote, time_text, handle_text, pad5,
}
use logstat.Logging.Flat.{Leaf, leaf_name, leaves, leaves_text, append_attrs-leaves}
use logstat.Logging.Quote.{QuoteDocumented, quote_one_line}
use logstat.Logging.ReadBack.{Lacks}

has_unit-append : (b : ℕ) (s t : Text) → has_unit b (s ++ t) ≡ (has_unit b s || has_unit b t)
unfolding contains_func
has_unit-append b [] t = refl
has_unit-append b (c ∷ s) t = ground (arith, has_unit-append b s t)

no_unit-append :
    (b : ℕ) (s t : Text) → has_unit b s ≡ false → has_unit b t ≡ false → has_unit b (s ++ t) ≡ false
no_unit-append b s t p q = has_unit-append b s t ∙ rw (p, q) refl

level_line : (l : Int64) → has_unit b'\n' (pad5 (level_name l)) ≡ false
unfolding pad5 contains_func
level_line l = elim (level_name-cases l) [
  | inl e ↦ rw e refl
  | inr (inl e) ↦ rw e refl
  | inr (inr (inl e)) ↦ rw e refl
  | inr (inr (inr e)) ↦ rw e refl
]

module _ (go_quote : Text → Text) (read_quoted : Text → Option (Text × Text))
    (doc : QuoteDocumented go_quote read_quoted) where
  leaves_line :
      (ls : List Leaf) → All (Lacks b'\n') ls → has_unit b'\n' (leaves_text go_quote ls) ≡ false
  unfolding leaves_text contains_func
  leaves_line [] a = refl
  leaves_line (l ∷ ls) (a, rest_a) = no_unit-append b'\n' (leaf_name l) _ a (
      no_unit-append b'\n' (quote go_quote l.text) _
        (quote_one_line go_quote read_quoted doc l.text) (leaves_line ls rest_a))

  attrs_line :
      (b : Text) (groups : List Text) (xs : Attrs)
      → has_unit b'\n' b ≡ false
      → All (Lacks b'\n') (leaves groups xs)
      → has_unit b'\n' (append_attrs go_quote b groups xs) ≡ false
  attrs_line b groups xs n a =
      ap (has_unit b'\n') (append_attrs-leaves go_quote b groups xs)
      ∙ no_unit-append b'\n' b _ n (leaves_line (leaves groups xs) a)

  -- The text that Handle writes is one line, its end included, whatever the values of the attributes
  -- are. The conditions: the time, the message and the names have no line break, and strconv.Quote is
  -- as documented.
  pub record_is_one_line :
      (now : Text) (h : Handler) (r : Record)
      → has_unit b'\n' (time_text now r) ≡ false
      → has_unit b'\n' r.message ≡ false
      → All (Lacks b'\n') (leaves h.groups h.attrs)
      → All (Lacks b'\n') (leaves h.groups r.attrs)
      → (line : Text) × (handle_text go_quote now h r ≡ line ++ (b'\n' ∷ []))
        × (has_unit b'\n' line ≡ false)
  unfolding handle_text contains_func
  record_is_one_line now h r t m a c =
      let body =
        no_unit-append b'\n' (time_text now r)
          (b' ' ∷ (pad5 (level_name r.level) ++ (b' ' ∷ r.message))) t
          (no_unit-append b'\n' (pad5 (level_name r.level)) (b' ' ∷ r.message) (level_line r.level)
            m) in
      (_, refl, attrs_line _ h.groups r.attrs (attrs_line _ h.groups h.attrs body a) c)
