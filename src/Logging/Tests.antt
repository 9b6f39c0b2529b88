-- ===== src/Logging/Tests.antt =====
-- The log on a toy system, with a quoting that keeps to the documentation.
use logstat.Prelude.{
  ◌≡◌, ◌<◌, ◌^◌, refl, false, ◌||◌, List, [], ◌∷◌, ◌++◌, none, some, map, length, leb,
}
use logstat.Text.{Text, codes, text_eq, text_elem}
use logstat.Text.Search.{has_unit, contains_func, contains_any}
use logstat.Int64.{Int64, lt64}
use logstat.Config.{Logging, output_file, levels}
use logstat.Os.{is_file}
use logstat.Lockfile.Toy.{ToyFile, toy_os, toy_files, new_state, toy_open}
use logstat.Logging.Level.{
  level_debug, level_info, parse_level, level_of, level_name, enabled, place, shown_names,
  listed_levels_work,
}
use logstat.Logging.Record.{
  scalar, group, Attrs, no_attrs, attr, prefix, Handler, Record, with_attrs, with_group, join_attrs,
  append_attrs, handle_text, quote,
}
use logstat.Logging.Derive.{Derivation, adds, opens, derive}
use logstat.Text.Trim.{trim_space, trim_left, is_space}
use logstat.Logging.Flat.{leaves, leaves_of}
use logstat.Logging.ReadBack.{named_value, read_attrs, attributes_read_back}
use logstat.Logging.OneLine.{record_is_one_line}
use logstat.Logging.Output.{Logger, made, open_output, new_logger, close}
use logstat.Logging.NoLeak.{OutputCall, writes, reopens, output_calls, logger_leaks_no_file}
use logstat.Logging.ToyQuote.{toy_quote, toy_read, toy_quote-QuoteDocumented}

abbrev same : Text → Text
same t = t

listed_levels_work_example :
    (l : Int64) × (parse_level same (codes "warn") ≡ some l)
    × ((r : Int64)
        → r < 2 ^ 64
        → lt64 r level_debug ≡ false
        → enabled l r ≡ leb (place (codes "warn") levels) (place (level_name r) shown_names))
unfolding text_elem text_eq
listed_levels_work_example = listed_levels_work same (λ t e. refl) (codes "warn") refl

-- The attributes of a flush that failed.
abbrev flushed : Attrs
flushed = attr (codes "error") (scalar (codes "dial \"tcp\": i/o\ntimeout")) (
    attr (codes "redis")
      (group (attr (codes "db") (scalar (codes "3")) (attr (codes "key") (scalar []) no_attrs)))
      no_attrs)

attributes_read_back_example :
    (t : Text) × (append_attrs toy_quote (codes "flush failed") [] flushed
      ≡ codes "flush failed" ++ t)
    × (read_attrs toy_read (length t) t ≡ some (map named_value (leaves [] flushed)))
unfolding leaves_of contains_func text_eq prefix
attributes_read_back_example =
    attributes_read_back toy_quote toy_read toy_quote-QuoteDocumented (codes "flush failed") []
      flushed (refl, (refl, (refl, tt)))

abbrev handler : Handler
handler = record { level = level_info; attrs = flushed; groups = codes "daemon" ∷ [] }

abbrev failure : Record
failure = record {
  time = some (codes "2026-01-02T03:04:05Z");
  level = level_info;
  message = codes "flush failed";
  attrs = flushed;
}

record_is_one_line_example :
    (line : Text) × (handle_text toy_quote [] handler failure ≡ line ++ (b'\n' ∷ []))
    × (has_unit b'\n' line ≡ false)
unfolding leaves_of contains_func text_eq prefix
record_is_one_line_example =
    record_is_one_line toy_quote toy_read toy_quote-QuoteDocumented [] handler failure refl refl
      (refl, (refl, (refl, tt))) (refl, (refl, (refl, tt)))

-- TestWithAttrsAndGroup: the attribute that With added is of the group as well.
abbrev connected : Record
connected = record {
  time = none;
  level = level_info;
  message = codes "connected";
  attrs = attr (codes "db") (scalar (codes "3")) no_attrs;
}

abbrev tail_calls : List Derivation
tail_calls =
    adds (attr (codes "component") (scalar (codes "tail")) no_attrs) ∷ opens (codes "redis") ∷ []

abbrev plain_handler : Handler
plain_handler = record { level = level_info; attrs = no_attrs; groups = [] }

component_is_of_the_group :
    handle_text toy_quote (codes "now") (derive tail_calls plain_handler) connected
    ≡ codes "now INFO  connected redis.component=tail redis.db=3\n"
unfolding derive with_attrs with_group join_attrs handle_text quote contains_any contains_func lt64
component_is_of_the_group = refl

abbrev log_path : Text
log_path = codes "logstat.log"

abbrev cfg : Logging
cfg = record { level = codes "info"; output = output_file; file = log_path }

abbrev after_hup : List OutputCall
after_hup = writes (codes "started\n") ∷ reopens ∷ writes (codes "reopened\n") ∷ []

abbrev first_file : ToyFile
first_file = record { path = log_path; number = 0 }

abbrev logger : Logger toy_os
logger = record {
  handler = plain_handler;
  out = record { w = some first_file; f = some first_file; path = log_path };
}

new_logger_made :
    new_logger toy_os same cfg new_state ≡ (made logger, (new_logger toy_os same cfg new_state).1)
unfolding new_logger open_output parse_level level_of trim_space trim_left is_space text_eq toy_open
    new_state
new_logger_made = refl

logger_leaks_no_file_example :
    let s1 = (new_logger toy_os same cfg new_state).1 in
    let (o, s2) = output_calls toy_os after_hup (logger.out, s1) in
    ((g : ToyFile)
      → toy_files.is_open s2 g ≡ (toy_files.is_open new_state g || is_file toy_files.file_eq o.f g))
    × ((g : ToyFile) → toy_files.is_open (close toy_os o s2).1 g ≡ toy_files.is_open new_state g)
logger_leaks_no_file_example =
    logger_leaks_no_file toy_os toy_files same cfg new_state
      (new_logger toy_os same cfg new_state).1 logger after_hup new_logger_made
