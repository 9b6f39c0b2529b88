-- ===== src/Metrics/Status/Rows.antt =====
-- The rows of the status page against the samples of a scrape.
use logstat.Prelude.{◌≡◌, refl, List, [], ◌∷◌, map, Option, none, some, arith, All, ap}
use logstat.Text.{Text}
use logstat.Text.Decimal.{show64}
use logstat.Int64.{Int64}
use logstat.Dict.{Dict, lookup}
use logstat.Dict.Totals.{get64}
use logstat.Counter.{Counter, matched_snapshot, pending_by_action}
use logstat.Metrics.{
  Clock, Reader, Collector, State, matched_lines, pending, redis_counter, redis_up,
}
use logstat.Metrics.Format.{bool_value}
use logstat.Metrics.Collect.{Value, of_int, Sample, collect}
use logstat.Metrics.Collect.Lookup.{sample_of, integer}
use logstat.Metrics.Collect.Scrape.{scrape_values}
use logstat.Metrics.Status.{WordRow, status, redis_text, missing, word_row}

-- The total that a sample shows, 0 for none.
abbrev pub shown : Option Value → Int64
shown none = 0
shown (some (Value.of_int n)) = n
shown (some (Value.of_seconds n)) = n

-- The row of a word says what these samples say of the word.
abbrev pub Agrees : List Sample → WordRow → Type 0
Agrees samples row =
    let redis = sample_of redis_counter (row.action ∷ []) samples in
    (row.matched ≡ shown (sample_of matched_lines (row.action ∷ []) samples))
    × (row.pending ≡ shown (sample_of pending (row.action ∷ []) samples))
    × (row.redis ≡ elim redis [ none ↦ missing | some v ↦ show64 (shown (some v)) ])

shown_integer : (a : Text) (m : Dict Int64) → get64 a m ≡ shown (integer (lookup a m))
unfolding get64
shown_integer a m = ground arith

redis_integer :
    (o : Option Int64)
    → redis_text o ≡ elim (integer o) [ none ↦ missing | some v ↦ show64 (shown (some v)) ]
redis_integer none = refl
redis_integer (some n) = refl

map_actions :
    (m p n : Dict Int64) (words : List Text)
    → map (λ row. row.action) (map (word_row m p n) words) ≡ words
map_actions m p n [] = refl
map_actions m p n (a ∷ words) = ap (λ ws. a ∷ ws) (map_actions m p n words)

module _ (k : Clock) (r : Reader) (c : Collector k.Instant) (cnt : Counter) (now : k.Instant)
    (s : State) (server : r.Server) where
  rows_agree :
      (words : List Text)
      → All (Agrees (collect k r c cnt now s server).0) (
          map
            (word_row
              (matched_snapshot cnt)
              (pending_by_action cnt)
              (r.counters c.cfg.actions server).0.0)
            words)
  rows_agree [] = tt
  rows_agree (a ∷ words) =
      let (m, p, redis, _, _) = scrape_values k r c cnt now s server a in
      (
        (
          rw m (shown_integer a (matched_snapshot cnt)),
          rw p (shown_integer a (pending_by_action cnt)),
          rw redis (redis_integer (lookup a (r.counters c.cfg.actions server).0.0)),
        ),
        rows_agree words,
      )

  -- The status page has a row for each configured word, in their order, and a row shows the same
  -- numbers as a scrape of the same state: lines matched, increments buffered, and the total in
  -- Redis, or the sign for a missing one exactly where the scrape has no sample of it. Both say the
  -- same of whether Redis replied.
  pub status-Agrees :
      (duration_text : Int64 → Text)
      → let page = (status duration_text k r c cnt now server).0 in
        let samples = (collect k r c cnt now s server).0 in
        (map (λ row. row.action) page.words ≡ c.cfg.actions)
        × All (Agrees samples) page.words
        × (sample_of redis_up [] samples ≡ some (of_int (bool_value page.redis_up)))
  unfolding status
  status-Agrees duration_text =
      let (_, _, _, up, _) = scrape_values k r c cnt now s server [] in
      (map_actions _ _ _ c.cfg.actions, rows_agree c.cfg.actions, up)
