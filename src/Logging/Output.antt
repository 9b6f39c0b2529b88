-- ===== src/Logging/Output.antt =====
-- The output of a logger: its writer, and the file that it can open again.
use logstat.Prelude.{[], Option, none, some, if◌then◌else◌}
use logstat.Text.{Text, text_eq}
use logstat.Os.{OsError, file, failed, Os}
use logstat.Config.{Logging, output_file}
use logstat.Logging.Level.{parse_level, enabled}
use logstat.Logging.Record.{no_attrs, Handler, Record, handle_text}

-- The errors of New and of Reopen.
pub data LogError : Type 0 where
  unknown_level : Text → LogError
  open_failed : Text → OsError → LogError
  close_failed : OsError → LogError

-- output; the writer none is io.Discard.
pub record Output (os : Os) : Type 0 where
  pub w : Option os.File
  pub f : Option os.File
  pub path : Text

-- Logger: its handler and its output.
pub record Logger (os : Os) : Type 0 where
  pub handler : Handler
  pub out : Output os

-- What New returns.
pub data Made (os : Os) : Type 0 where
  made : Logger os → Made os
  not_made : LogError → Made os

module _ (os : Os) where
  abbrev as_log_error : Option OsError → Option LogError
  as_log_error none = none
  as_log_error (some e) = some (close_failed e)

  -- output.open
  unfoldable pub open_output : Output os → os.State → (Option LogError × Output os) × os.State
  open_output o s =
      let (opened, s1) = os.open_append o.path s in
      elim opened [
        | failed e ↦ ((some (open_failed o.path e), o), s1)
        | file f ↦ ((none, record o { w = some f; f = some f }), s1)
      ]

  -- output.Write, with its error.
  unfoldable pub write : Output os → Text → os.State → Option OsError × os.State
  write o text s = elim o.w [ none ↦ (none, s) | some f ↦ os.write f text s ]

  -- The end of output.reopen, which closes the file that was open before.
  unfoldable pub close_old : Option os.File → os.State → Option LogError × os.State
  close_old none s = (none, s)
  close_old (some old) s = let (err, s1) = os.close old s in (as_log_error err, s1)

  -- output.reopen behind the opening of its path.
  unfoldable pub reopened :
      Output os
      → (Option LogError × Output os) × os.State
      → (Option LogError × Output os) × os.State
  unfolding close_old
  reopened o ((some e, o1), s) = ((some e, o1), s)
  reopened o ((none, o1), s) = let (err, s1) = close_old o.f s in ((err, o1), s1)

  -- output.reopen, which Logger.Reopen is.
  unfoldable pub reopen : Output os → os.State → (Option LogError × Output os) × os.State
  unfolding open_output reopened
  reopen o s = if text_eq o.path [] then ((none, o), s) else reopened o (open_output o s)

  -- output.close, which Logger.Close is.
  unfoldable pub close : Output os → os.State → (Option OsError × Output os) × os.State
  close o s = elim o.f [
    | none ↦ ((none, o), s)
    | some f ↦ (let (err, s1) = os.close f s in ((err, record o { f = none; w = none }), s1))
  ]

  abbrev pub opened_logger : Handler → (Option LogError × Output os) × os.State → Made os × os.State
  opened_logger h ((none, o), s) = (made (record { handler = h; out = o }), s)
  opened_logger h ((some e, o), s) = (not_made e, s)

  -- New
  unfoldable pub new_logger : (Text → Text) → Logging → os.State → Made os × os.State
  new_logger to_lower cfg s = elim (parse_level to_lower cfg.level) [
    | none ↦ (not_made (unknown_level cfg.level), s)
    | some level ↦
        (let h : Handler = record { level = level; attrs = no_attrs; groups = [] } in
          if text_eq cfg.output output_file
          then opened_logger h (open_output (record { w = none; f = none; path = cfg.file }) s)
          else (
            made (record { handler = h; out = record { w = some os.stderr; f = none; path = [] } }),
            s,
          ))
  ]

  -- handler.Handle behind Enabled, as slog.Logger calls them; the error goes nowhere.
  unfoldable pub log : (Text → Text) → Text → Handler → Record → Output os → os.State → os.State
  unfolding write
  log go_quote now h r o s =
      if enabled h.level r.level then (write o (handle_text go_quote now h r) s).1 else s
