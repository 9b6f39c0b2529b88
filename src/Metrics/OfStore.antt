-- ===== src/Metrics/OfStore.antt =====
-- The store as the Reader of the collector, as Daemon.startMetrics connects them.
use logstat.Prelude.{
  ◌≡◌, ◌∙◌, ap, ◌%◌, ◌^◌, Bool, List, [], ◌∷◌, none, some, arith, length, ◌==◌, inl, inr,
  Option-cases, Bool-cases, if◌then◌else◌,
}
use logstat.Text.{Text, text_elem, Distinct}
use logstat.Int64.{Int64}
use logstat.Dict.{Dict, IsMap, insert, insert-IsMap}
use logstat.Counter.{new, process_lines}
use logstat.Counter.Buffer.{hits}
use logstat.Counter.Snapshots.{matched_snapshot-process_lines}
use logstat.Store.Redis.{Client, Reply, Value}
use logstat.Store.{Store, counters, read_reply, read_result, read_each, parse_value}
use logstat.Metrics.{Clock, Reader, Collector, State, matched_lines}
use logstat.Metrics.Collect.{collect}
use logstat.Metrics.Collect.Lookup.{sample_of, integer}
use logstat.Metrics.Collect.Scrape.{scrape_values}

-- *store.Store as a Reader.
abbrev pub store_reader : Client → Store → Reader
store_reader c st = record { Server = c.Server; counters = counters c st; host = st.host }

read_each-IsMap :
    (actions : List Text) (values : List Value) (out : Dict Int64)
    → IsMap out
    → IsMap (read_each actions values out).out
unfolding read_each
read_each-IsMap [] values out h = h
read_each-IsMap (a ∷ actions) [] out h = h
read_each-IsMap (a ∷ actions) (v ∷ values) out h = elim (Option-cases (parse_value v)) [
  | inl e ↦ ground (arith, e, read_each-IsMap actions values out h)
  | inr (n, e) ↦
      ground (arith, e, read_each-IsMap actions values (insert a n out) (insert-IsMap a n out h))
]

read_result-IsMap :
    (actions : List Text) (values : List Value)
    → IsMap (read_result (read_each actions values [])).0
read_result-IsMap actions values = ground (arith, read_each-IsMap actions values [] tt)

read_reply-IsMap :
    (actions : List Text) (reply : Reply (List Value)) → IsMap (read_reply actions reply).0
unfolding read_reply
read_reply-IsMap actions (Reply.failed e) = tt
read_reply-IsMap actions (Reply.ok values) = elim (Bool-cases (length values == length actions)) [
  | inl e ↦ rw e (read_result-IsMap actions values)
  | inr e ↦ rw e tt
]

counters-IsMap :
    (c : Client) (st : Store) (actions : List Text) (s : c.Server)
    → IsMap (counters c st actions s).0.0
unfolding counters
counters-IsMap c st [] s = tt
counters-IsMap c st (a ∷ actions) s = read_reply-IsMap (a ∷ actions) _

-- After a run of lines from the start, a scrape shows for each configured word, and for no other, the
-- number of lines that count it, as an int64, whatever Redis answers. The condition: the words are
-- distinct.
pub scrape_counts_lines :
    (to_lower : Text → Text) (k : Clock) (r : Reader) (m : Collector k.Instant)
    (actions : List Text) (case_sensitive : Bool) (lines : List Text) (now : k.Instant) (s : State)
    (server : r.Server) (a : Text)
    → Distinct actions
    → let start = new to_lower actions case_sensitive in
      sample_of matched_lines
        (a ∷ [])
        (collect k r m (process_lines to_lower start lines) now s server).0
      ≡ integer (if text_elem a actions then some (hits to_lower start a lines % 2 ^ 64) else none)
scrape_counts_lines to_lower k r m actions case_sensitive lines now s server a d =
    let c = process_lines to_lower (new to_lower actions case_sensitive) lines in
    (scrape_values k r m c now s server a).0
    ∙ ap integer (matched_snapshot-process_lines to_lower actions case_sensitive lines a d)
