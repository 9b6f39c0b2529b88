-- ===== src/Daemon/Tests.antt =====
-- The flush and the reset of two actions, on a server that becomes unreachable in the middle.
use logstat.Prelude.{none, ◌≡◌, refl, Bool, true, false, List, [], ◌∷◌, arith}
use logstat.Text.{Text, codes, text_eq, text_elem, Distinct}
use logstat.Int64.{Int64, add64, is_positive}
use logstat.Dict.{Dict, lookup, lookup_or}
use logstat.Counter.{Counter, process_lines, IsValid, fold_case}
use logstat.Store.Redis.{other, Client}
use logstat.Store.Keys.{Time}
use logstat.Store.{Store}
use logstat.Store.Effects.{total}
use logstat.Store.Ledger.{tracked}
use logstat.Store.Toy.{Toy, toy, toy_books, toy-Documented, run_result, run_error}
use logstat.Daemon.{World}
use logstat.Daemon.Flush.{flush_action}
use logstat.Daemon.Reset.{reset_counters}
use logstat.Daemon.Run.{text, failed, Event, read, tick}
use logstat.Daemon.Resets.{IsZeroedOrDue, reset_zeroes, refused_expiry_counts_twice}

abbrev pub get : Text
get = codes "get"

abbrev pub put : Text
put = codes "put"

abbrev pub both : List Text
both = get ∷ put ∷ []

abbrev pub web : Store
web = record { host = codes "web"; heartbeat = true; ttl = 60 }

abbrev pub noon : Time
noon = record {
  year = 2024;
  month = 5;
  day = 1;
  hour = 12;
  minute = 0;
  sec = 0;
  is_west = false;
  offset = 0;
}

abbrev pub buffered : Counter
buffered = record {
  actions = both;
  case_sensitive = true;
  needles = both;
  pending = (get, 2) ∷ (put, 1) ∷ [];
  matched = (get, 2) ∷ (put, 1) ∷ [];
  lines = 2;
}

-- A daemon that has not reached Redis, which answers this many calls more.
abbrev pub world : Dict Bool → Int64 → World Toy
world resets calls = record {
  cnt = buffered;
  initialized = false;
  pending_heartbeats = [];
  pending_resets = resets;
  redis_down = false;
  log = [];
  server = record { keys = []; calls_left = calls };
}

pub both-Distinct : Distinct both
unfolding text_elem text_eq
both-Distinct = (refl, (refl, tt))

abbrev pub same : Text → Text
same t = t

abbrev pub meanwhile : Counter → Counter
meanwhile n = process_lines same n (codes "get /c" ∷ codes "end" ∷ [])

pub buffered-IsValid : IsValid same buffered
unfolding text_elem text_eq lookup fold_case
buffered-IsValid = record {
  needles_folded = refl;
  actions_Distinct = both-Distinct;
  pending_IsMap = (refl, (refl, tt));
  pending_Fits = (omega arith, (omega arith, tt));
  matched_IsMap = (refl, (refl, tt));
  matched_Fits = (omega arith, (omega arith, tt));
}

-- A server that refuses EXPIRE and carries out the INCRBY before it, with a ledger, and 9 calls that
-- it answers.
abbrev refusing : Client
refusing = tracked (toy false)

abbrev unopened : World refusing.Server
unopened = record {
  cnt = buffered;
  initialized = false;
  pending_heartbeats = [];
  pending_resets = [];
  redis_down = false;
  log = [];
  server = (record { keys = []; calls_left = 9 }, λ _. none);
}

reset_zeroes_example :
    IsZeroedOrDue
      (toy true)
      (toy_books true)
      web
      both
      (reset_counters (toy true) web both meanwhile noon noon noon (world [] 13))
      put
unfolding text_elem text_eq
reset_zeroes_example =
    reset_zeroes (toy true) (toy_books true) web both meanwhile noon noon noon (world [] 13) put
      refl

refused_expiry_counts_twice_example :
    let w = world [] 9 in
    let (o, w') = flush_action (toy false) web both get 2 noon w in
    (o.retry_delta ≡ true)
    × (total (toy false) (toy_books false) web w'.server get
        ≡ add64 (total (toy false) (toy_books false) web w.server get) 2)
unfolding text_eq lookup_or lookup is_positive run_result run_error
refused_expiry_counts_twice_example =
    refused_expiry_counts_twice (toy false) (toy_books false) (toy-Documented false) web both get 2
      noon (world [] 9) other refl refl refl refl refl

-- A line, a flush during which a line is read, an error of the tailer, and a line at the shutdown.
abbrev pub morning : List Event
morning =
    read (text (codes "get /a"))
    ∷ tick noon noon (codes "get /b" ∷ codes "put /c" ∷ [])
    ∷ read failed
    ∷ []
