-- ===== src/Logging/Derive.antt =====
-- Handlers that WithAttrs and WithGroup derive from another one.
use logstat.Prelude.{List, [], ◌∷◌}
use logstat.Text.{Text}
use logstat.Logging.Record.{Attrs, Handler, with_attrs, with_group}

pub data Derivation : Type 0 where
  adds : Attrs → Derivation
  opens : Text → Derivation

-- The handler after the calls.
unfoldable pub derive : List Derivation → Handler → Handler
derive [] h = h
derive (adds xs ∷ cs) h = derive cs (with_attrs xs h)
derive (opens g ∷ cs) h = derive cs (with_group g h)
