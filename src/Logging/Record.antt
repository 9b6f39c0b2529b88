-- ===== src/Logging/Record.antt =====
-- The handler's state, WithAttrs, WithGroup, and the rendering of a record.
--
-- A value is what Value.Resolve leaves of it: a group, the nil of the zero Value, or another value,
-- which is its Value.String(). The rendering of the time and strconv.Quote are parameters.
use logstat.Prelude.{
  ℕ, zero, suc, Option, none, some, ◌-◌, List, [], ◌∷◌, ◌++◌, length, if◌then◌else◌,
}
use logstat.Text.{Text, codes, text_eq}
use logstat.Text.Search.{contains_any}
use logstat.Int64.{Int64}
use logstat.Logging.Level.{level_name}

mutual
  -- slog.Value
  pub data Value : Type 0 where
    nil_value : Value
    scalar : Text → Value
    group : Attrs → Value

  -- []slog.Attr
  pub data Attrs : Type 0 where
    no_attrs : Attrs
    attr : Text → Value → Attrs → Attrs

-- append(xs, ys...) for attributes.
unfoldable pub join_attrs : Attrs → Attrs → Attrs
join_attrs no_attrs ys = ys
join_attrs (attr k v xs) ys = attr k v (join_attrs xs ys)

-- handler; its output is in Logging/Output.
pub record Handler : Type 0 where
  pub level : Int64
  pub attrs : Attrs
  pub groups : List Text

-- slog.Record, with its time rendered by Format(time.RFC3339), or none for the zero time.
pub record Record : Type 0 where
  pub time : Option Text
  pub level : Int64
  pub message : Text
  pub attrs : Attrs

-- handler.WithAttrs and handler.WithGroup
unfoldable pub with_attrs : Attrs → Handler → Handler
unfolding join_attrs
with_attrs no_attrs h = h
with_attrs (attr k v xs) h = record h { attrs = join_attrs h.attrs (attr k v xs) }

unfoldable pub with_group : Text → Handler → Handler
with_group [] h = h
with_group (c ∷ t) h = record h { groups = h.groups ++ ((c ∷ t) ∷ []) }

-- The groups in front of a key.
unfoldable pub prefix : List Text → Text
prefix [] = []
prefix (g ∷ gs) = g ++ (b'.' ∷ prefix gs)

-- fmt's %-5s
unfoldable pub pad5 : Text → Text
pad5 t = t ++ spaces (5 - length t)
  where
    spaces : ℕ → Text
    spaces zero = []
    spaces (suc n) = b' ' ∷ spaces n

-- ts of handler.Handle; now is time.Now(), rendered.
abbrev pub time_text : Text → Record → Text
time_text now r = elim r.time [ none ↦ now | some t ↦ t ]

module _ (go_quote : Text → Text) where
  -- quote
  unfoldable pub quote : Text → Text
  unfolding contains_any
  quote [] = codes "\"\""
  quote (c ∷ t) = if contains_any (c ∷ t) (codes " \t\n\"=") then go_quote (c ∷ t) else c ∷ t

  -- The end of appendAttr, for a value that is not a group.
  unfoldable pub write_attr : Text → List Text → Text → Text → Text
  unfolding quote prefix
  write_attr b groups key text = b ++ (b' ' ∷ (prefix groups ++ (key ++ (b'=' ∷ quote text))))

  unfoldable mutual
    unfolding write_attr

    -- appendAttr
    pub append_attr : Text → List Text → Text → Value → Text
    append_attr b groups key nil_value =
        if text_eq key [] then b else write_attr b groups key (codes "<nil>")
    append_attr b groups key (scalar text) = write_attr b groups key text
    append_attr b groups key (group no_attrs) = b
    append_attr b groups key (group (attr k v xs)) =
        append_attrs b (if text_eq key [] then groups else groups ++ (key ∷ [])) (attr k v xs)

    -- appendAttr for each attribute.
    pub append_attrs : Text → List Text → Attrs → Text
    append_attrs b groups no_attrs = b
    append_attrs b groups (attr k v xs) = append_attrs (append_attr b groups k v) groups xs

  -- The text that handler.Handle writes.
  unfoldable pub handle_text : Text → Handler → Record → Text
  unfolding append_attrs level_name pad5
  handle_text now h r =
      let b = time_text now r ++ (b' ' ∷ (pad5 (level_name r.level) ++ (b' ' ∷ r.message))) in
      append_attrs (append_attrs b h.groups h.attrs) h.groups r.attrs ++ (b'\n' ∷ [])
