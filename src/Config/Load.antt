-- ===== src/Config/Load.antt =====
-- Parse, Load, CheckPaths and ensureDir (internal/config/config.go).
--
-- decode is a yaml.Decoder with KnownFields, which changes the configuration that it is given, and
-- read_file is os.ReadFile at the time of the call; none is its error.
pub mod Closed
use logstat.Prelude.{[], Bool, true, false, ◌||◌, List, Option, none, some, if◌then◌else◌}
use logstat.Text.{Text, codes, text_eq}
use logstat.Os.{OsError, Opened, file, failed, Os}
use logstat.Config.{Config, default, output_file}
use logstat.Config.Overlaps.{Warning}
use logstat.Config.Validate.{Failure, validate}

-- The errors of Decode: io.EOF of an empty document, or another one.
pub data DecodeError : Type 0 where
  end_of_file bad_yaml : DecodeError

pub data LoadError : Type 0 where
  cannot_read cannot_parse : LoadError
  invalid : Failure → LoadError

pub data Loaded : Type 0 where
  loaded : Config → List Warning → Loaded
  not_loaded : LoadError → Loaded

module _ (decode : Text → Config → Config × Option DecodeError) where
  -- Parse; none is its error.
  unfoldable pub parse : Text → Option Config
  parse data_ =
      let (cfg, err) = decode data_ default in
      elim err [ none ↦ some cfg | some e ↦ elim e [ end_of_file ↦ some cfg | bad_yaml ↦ none ] ]

  -- Load
  unfoldable pub load : (Text → Text) → (Text → Bool) → (Text → Option Text) → Text → Loaded
  unfolding parse validate
  load to_lower cron_accepts read_file path = elim (read_file path) [
    | none ↦ not_loaded cannot_read
    | some text ↦ elim (parse text) [
      | none ↦ not_loaded cannot_parse
      | some cfg ↦
          (let v = validate to_lower cron_accepts cfg in
            elim v.failure [ none ↦ loaded v.config v.warnings | some f ↦ not_loaded (invalid f) ])
    ]
  ]

-- The errors of CheckPaths: the path that it is about, and what failed.
pub data PathError : Type 0 where
  no_directory not_writable close_error : Text → OsError → PathError

module _ (os : Os) (dir_of : Text → Text) where
  -- ensureDir
  unfoldable pub ensure_dir : Text → os.State → Option OsError × os.State
  ensure_dir dir s =
      if text_eq dir [] || text_eq dir (codes ".") then (none, s) else os.mkdir_all dir s

  -- The part of CheckPaths for the log file, behind its directory.
  unfoldable pub try_log : Text → os.State → Option PathError × os.State
  try_log path s =
      let (opened, s1) = os.open_append path s in
      elim opened [
        | failed e ↦ (some (not_writable path e), s1)
        | file f ↦
            (let (err, s2) = os.close f s1 in
              (elim err [ none ↦ none | some e ↦ some (close_error path e) ], s2))
      ]

  -- Config.CheckPaths
  unfoldable pub check_paths : Config → os.State → Option PathError × os.State
  unfolding ensure_dir try_log
  check_paths c s =
      let (err, s1) = ensure_dir (dir_of c.lock_file) s in
      elim err [
        | some e ↦ (some (no_directory c.lock_file e), s1)
        | none ↦
            (let (lerr, s2) = ensure_dir (dir_of c.logging.file) s1 in
              if text_eq c.logging.output output_file
              then elim lerr [
                | some e ↦ (some (no_directory c.logging.file e), s2)
                | none ↦ try_log c.logging.file s2
              ]
              else (none, s1))
      ]
