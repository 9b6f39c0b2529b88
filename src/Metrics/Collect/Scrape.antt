-- ===== src/Metrics/Collect/Scrape.antt =====
-- What one scrape shows of the counter and of Redis.
use mathlib.Core.List.{append_assoc}
use logstat.Prelude.{◌≡◌, refl, ◌∙◌, false, not, List, [], ◌∷◌, ◌++◌, Option, none, some, arith}
use logstat.Text.{Text}
use logstat.Int64.{Int64, add64}
use logstat.Dict.{Dict, lookup}
use logstat.Counter.{Counter, matched_snapshot, pending_by_action}
use logstat.Store.{Error, is_unavailable}
use logstat.Metrics.{
  Clock, Reader, Collector, State, Desc, matched_lines, pending, redis_counter, redis_up,
  redis_scrape_errs,
}
use logstat.Metrics.Format.{bool_value}
use logstat.Metrics.Collect.{
  Kind, gauge, of_int, Sample, sample, per_action, redis_samples, collect, note_read,
}
use logstat.Metrics.Collect.Lookup.{
  desc_eq, sample_of, labels_eq, integer, sample_of-per_action, sample_of-other,
}

pub past_families :
    (d : Desc) (labels : List Text) (m p : Dict Int64) (tail : List Sample)
    → desc_eq matched_lines d ≡ false
    → desc_eq pending d ≡ false
    → sample_of d labels
        (per_action matched_lines Kind.counter m ++ (per_action pending gauge p ++ tail))
      ≡ sample_of d labels tail
past_families d labels m p tail h h' =
    sample_of-other d matched_lines Kind.counter labels m (per_action pending gauge p ++ tail) h
    ∙ sample_of-other d pending gauge labels p tail h'

module _ (k : Clock) (r : Reader) (c : Collector k.Instant) (cnt : Counter) (now : k.Instant)
    (s : State) (server : r.Server) where
  abbrev samples : List Sample
  samples = (collect k r c cnt now s server).0

  abbrev reading : Dict Int64 × Option Error
  reading = (r.counters c.cfg.actions server).0

  -- One scrape shows, of each word: the lines matched since the start and the increments that are
  -- buffered, as the counter has them; the total in Redis exactly if the read has one; whether the read
  -- failed as one of an unavailable Redis; and the number of reads that failed, this one included.
  pub scrape_values :
      (a : Text)
      → let (counters, error) = reading in
        (sample_of matched_lines (a ∷ []) samples ≡ integer (lookup a (matched_snapshot cnt)))
        × (sample_of pending (a ∷ []) samples ≡ integer (lookup a (pending_by_action cnt)))
        × (sample_of redis_counter (a ∷ []) samples ≡ integer (lookup a counters))
        × (sample_of redis_up [] samples ≡ some (of_int (bool_value (not (is_unavailable error)))))
        × (sample_of redis_scrape_errs [] samples
            ≡ some
                (of_int (elim error [ none ↦ s.redis_errors | some _ ↦ add64 s.redis_errors 1 ])))
  unfolding collect sample_of labels_eq desc_eq redis_samples
  scrape_values a =
      let (counters, error) = reading in
      let m = matched_snapshot cnt in
      let p = pending_by_action cnt in
      let errors = (note_read error s).redis_errors in
      let end = sample redis_scrape_errs Kind.counter (of_int errors) [] ∷ [] in
      let tail = redis_samples counters error errors in
      let families =
        append_assoc (per_action matched_lines Kind.counter m) (per_action pending gauge p) tail in
      (
        rw families (
            sample_of-per_action matched_lines Kind.counter a m (per_action pending gauge p ++ tail)
            ∙ rw
                (
                  sample_of-other matched_lines pending gauge (a ∷ []) p tail refl,
                  sample_of-other matched_lines redis_counter gauge (a ∷ []) counters end refl,
                )
                refl),
        rw families (
            sample_of-other pending matched_lines Kind.counter (a ∷ []) m
              (per_action pending gauge p ++ tail) refl
            ∙ sample_of-per_action pending gauge a p tail
            ∙ rw (sample_of-other pending redis_counter gauge (a ∷ []) counters end refl) refl),
        rw families (
            past_families redis_counter (a ∷ []) m p tail refl refl
            ∙ sample_of-per_action redis_counter gauge a counters end),
        rw families (past_families redis_up [] m p tail refl refl),
        rw families (
            past_families redis_scrape_errs [] m p tail refl refl
            ∙ sample_of-other redis_scrape_errs redis_counter gauge [] counters end refl
            ∙ ground arith),
      )
