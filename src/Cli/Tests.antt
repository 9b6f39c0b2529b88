-- ===== src/Cli/Tests.antt =====
-- The commands on a toy system and a toy server, with the default configuration.
use logstat.Prelude.{◌⊎◌, ◌≡◌, refl, true, false, List, [], ◌∷◌, none, some}
use logstat.Text.{Text, codes, text_eq, text_elem}
use logstat.Text.Search.{contains, contains_func, contains_any, has_prefix, has_suffix, cut_first}
use logstat.Text.Trim.{trim_space, trim_left, is_blank, is_space}
use logstat.Text.Decimal.{parse_int}
use logstat.Int64.{is_positive, is_negative, lt64}
use logstat.Config.{Config, default}
use logstat.Config.Load.{load, parse}
use logstat.Config.Route.{validate_path}
use logstat.Config.Listen.{split_host_port, validate_metrics}
use logstat.Config.Validate.{validate, join, ttl_warnings}
use logstat.Config.Overlaps.{overlaps, overlap}
use logstat.Counter.{fold_case}
use logstat.Lockfile.Toy.{ToyFile, toy_os, toy_files, toy_locks, new_state}
use logstat.Logging.Level.{level_info, parse_level, level_of}
use logstat.Logging.Record.{no_attrs}
use logstat.Logging.Output.{Logger, new_logger}
use logstat.Store.Keys.{Time}
use logstat.Store.Toy.{Toy, toy, toy_books}
use logstat.Daemon.Run.{text, read, tick, cancelled}
use logstat.Cli.Flags.{
  Flags, no_flags, help, not_defined, no_argument, parsed, unparsed, parse_flags, parse_one, word,
  named_word, target,
}
use logstat.Cli.Setup.{Message, configuration_loaded, ready, Surroundings, setup}
use logstat.Cli.Clear.{new_store, select, cmd_clear}
use logstat.Cli.Zeroed.{Cleared}
use logstat.Cli.Outcome.{cmd_clear_result}
use logstat.Cli.Run.{Session, cmd_run}
use logstat.Cli.Answered.{cmd_clear_succeeds}
use logstat.Dict.{lookup}
use logstat.Store.Effects.{total}
use logstat.Store.Toy.Steady.{steady, steady_books, steady-Available, Integers}
use logstat.Cli.Closed.{cmd_run_closes_files}

abbrev env : Surroundings
env = record {
  decode = λ t cfg. (cfg, none);
  read_file = λ path. some [];
  to_lower = λ t. t;
  cron_accepts = λ t. true;
  dir_of = λ path. codes ".";
  host = codes "web";
}

abbrev cfg_path : Text
cfg_path = codes "logstat.yaml"

abbrev clear_all : List Text
clear_all = codes "--all" ∷ codes "--config" ∷ cfg_path ∷ []

abbrev all_flags : Flags
all_flags = record { cfg_path = cfg_path; action = []; all = true }

clear_all_parses : parse_flags true clear_all no_flags ≡ parsed all_flags
unfolding parse_flags parse_one word named_word target cut_first text_eq
clear_all_parses = refl

-- -h and an unknown flag, and a flag without its argument.
help_is_asked_for : parse_flags false (codes "-h" ∷ []) no_flags ≡ unparsed help
unfolding parse_flags parse_one word named_word target cut_first text_eq
help_is_asked_for = refl

action_is_not_of_run : parse_flags false (codes "--action=get" ∷ []) no_flags ≡ unparsed not_defined
unfolding parse_flags parse_one word named_word target cut_first text_eq
action_is_not_of_run = refl

action_wants_a_word : parse_flags true (codes "-action" ∷ []) no_flags ≡ unparsed no_argument
unfolding parse_flags parse_one word named_word target cut_first text_eq
action_wants_a_word = refl

abbrev logger : Logger toy_os
logger = record {
  handler = record { level = level_info; attrs = no_attrs; groups = [] };
  out = record { w = some toy_os.stderr; f = none; path = [] };
}

default_is_ready :
    setup toy_os env cfg_path new_state
    ≡ (ready default logger (configuration_loaded cfg_path ∷ []), new_state)
unfolding setup load parse new_logger parse_level level_of validate join is_blank trim_space
    trim_left is_space text_elem is_positive lt64 is_negative validate_metrics split_host_port
    contains_func parse_int validate_path has_prefix contains_any has_suffix text_eq overlaps
    overlap fold_case contains ttl_warnings
default_is_ready = refl

abbrev dawn : Time
dawn = record {
  year = 2024;
  month = 5;
  day = 1;
  hour = 6;
  minute = 30;
  sec = 0;
  is_west = true;
  offset = 90;
}

abbrev full : Toy
full = record { keys = (codes "logstat:counter:web:get-number", codes "41") ∷ []; calls_left = 50 }

cmd_clear_result_example :
    let (code, (_, (_, server))) = cmd_clear toy_os env (toy true) clear_all dawn new_state full in
    ((f : Flags) × (parse_flags true clear_all no_flags ≡ parsed f)
      × (cfg : Config) × (lg : Logger toy_os) × (log : List Message) × ((setup toy_os env f.cfg_path
            new_state).0
          ≡ ready cfg lg log)
      × Cleared
          (toy true)
          (toy_books true)
          (new_store env.host cfg)
          (select f cfg.actions)
          code
          full
          server)
    ⊎ ((server ≡ full) × (code ≡ 0 → parse_flags true clear_all no_flags ≡ unparsed help))
cmd_clear_result_example =
    cmd_clear_result toy_os env (toy true) (toy_books true) clear_all dawn new_state full

abbrev session : Session
session = record {
  outside = record {
    listen = some;
    is_there = λ _. true;
    can_tail = λ _ _. true;
    can_schedule = λ _. true;
    shuts_down = true;
  };
  hang_ups = 1;
  course = record {
    start_now = dawn;
    events = read (text (codes "get /a")) ∷ tick dawn dawn [] ∷ [];
    end = cancelled;
    stop_ok = true;
    lines = [];
    init_now = dawn;
    now = dawn;
  };
}

abbrev run_args : List Text
run_args = codes "-c=logstat.yaml" ∷ []

abbrev other_file : ToyFile
other_file = record { path = codes "other"; number = 7 }

cmd_run_closes_files_example :
    toy_files.is_open
      (cmd_run toy_os env (toy true) run_args session new_state full).1.1.0
      other_file
    ≡ toy_files.is_open new_state other_file
cmd_run_closes_files_example =
    cmd_run_closes_files toy_os toy_files toy_locks env (toy true) run_args session new_state full
      other_file

default_integers : Integers (new_store env.host default) []
unfolding lookup
default_integers a = refl

cmd_clear_succeeds_example :
    let (code, (_, (_, server))) = cmd_clear toy_os env steady clear_all dawn new_state [] in
    (code ≡ 0)
    × ((a : Text)
        → text_elem a default.actions ≡ true
        → total steady steady_books (new_store env.host default) server a ≡ 0)
unfolding select text_eq
cmd_clear_succeeds_example =
    cmd_clear_succeeds toy_os env steady steady_books clear_all dawn new_state new_state []
      all_flags default logger (configuration_loaded cfg_path ∷ []) default.actions
      (Integers (new_store env.host default)) clear_all_parses default_is_ready
      (steady-Available (new_store env.host default)) default_integers refl
