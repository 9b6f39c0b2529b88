-- ===== src/Metrics/Collect/Accepted.antt =====
-- What the Prometheus registry demands of a scrape.
use mathlib.Core.List.{append_assoc}
use logstat.Prelude.{
  ◌≡◌, refl, sym, ◌∙◌, Bool, true, false, ◌||◌, List, [], ◌∷◌, ◌++◌, Option, none, length, All,
}
use logstat.Text.{Text}
use logstat.Int64.{Int64}
use logstat.Dict.{Dict, IsMap}
use logstat.Counter.{Counter, matched_snapshot, pending_by_action}
use logstat.Counter.Snapshots.{snapshots-IsMap}
use logstat.Store.{Error}
use logstat.Metrics.{
  Clock, Reader, Collector, State, Desc, uptime, start_time, config_info, flush_interval, redis_ttl,
  case_sensitive, poll, heartbeat_key, reset_enabled, actions, lines_read, matched_lines, pending,
  redis_counter, redis_up, redis_scrape_errs, desc_labels, describe,
}
use logstat.Metrics.Collect.{
  Kind, gauge, of_int, Sample, sample, per_action, redis_samples, collect, note_read,
}
use logstat.Metrics.Collect.Lookup.{
  desc_eq, sample_of, sample_of-other, Unique, absent, per_action-Unique, absent-per_action,
}
use logstat.Metrics.Collect.Scrape.{past_families}

-- slices.Contains on descriptions
unfoldable pub desc_elem : Desc → List Desc → Bool
desc_elem d [] = false
desc_elem d (e ∷ ds) = desc_eq e d || desc_elem d ds

-- The sample has as many labels as its description, which Describe sends.
abbrev pub IsDescribed : Sample → Type 0
IsDescribed s = (length s.labels ≡ length (desc_labels s.desc)) × (desc_elem s.desc describe ≡ true)

All-append :
    (xs ys : List Sample) → All IsDescribed xs → All IsDescribed ys → All IsDescribed (xs ++ ys)
All-append [] ys hx hy = hy
All-append (x ∷ xs) ys hx hy = (hx.0, All-append xs ys hx.1 hy)

per_action-IsDescribed :
    (d : Desc) (kind : Kind) (m : Dict Int64)
    → length (desc_labels d) ≡ 1
    → desc_elem d describe ≡ true
    → All IsDescribed (per_action d kind m)
unfolding per_action
per_action-IsDescribed d kind [] h e = tt
per_action-IsDescribed d kind ((a, n) ∷ m) h e = ((sym h, e), per_action-IsDescribed d kind m h e)

module _ (m p counters : Dict Int64) (error : Option Error) (errors : Int64) where
  abbrev end : List Sample
  end = sample redis_scrape_errs Kind.counter (of_int errors) [] ∷ []

  abbrev families : List Sample
  families =
      per_action matched_lines Kind.counter m
      ++ (per_action pending gauge p ++ redis_samples counters error errors)

  -- No family has this description.
  absent_later :
      (d : Desc) (labels : List Text)
      → desc_eq matched_lines d ≡ false
      → desc_eq pending d ≡ false
      → desc_eq redis_counter d ≡ false
      → desc_eq redis_up d ≡ false
      → desc_eq redis_scrape_errs d ≡ false
      → sample_of d labels families ≡ none
  unfolding redis_samples sample_of
  absent_later d labels h1 h2 h3 h4 h5 =
      past_families d labels m p (redis_samples counters error errors) h1 h2
      ∙ rw h4 (sample_of-other d redis_counter gauge labels counters end h3 ∙ rw h5 refl)

  tail-Unique : IsMap counters → Unique (redis_samples counters error errors)
  unfolding redis_samples sample_of desc_eq absent
  tail-Unique h = (
    sample_of-other redis_up redis_counter gauge [] counters end refl,
    per_action-Unique redis_counter gauge counters end h refl (refl, tt),
  )

  absent_tail :
      (d : Desc)
      → desc_eq redis_counter d ≡ false
      → desc_eq redis_up d ≡ false
      → desc_eq redis_scrape_errs d ≡ false
      → absent d (redis_samples counters error errors) ≡ true
  unfolding redis_samples absent
  absent_tail d h3 h4 h5 =
      rw h4 (absent-per_action d redis_counter gauge counters end h3 ∙ rw h5 refl)

  families-Unique : IsMap m → IsMap p → IsMap counters → Unique families
  unfolding desc_eq
  families-Unique hm hp hc =
      let tail = redis_samples counters error errors in
      per_action-Unique matched_lines Kind.counter m (per_action pending gauge p ++ tail) hm
        (absent-per_action matched_lines pending gauge p tail refl
          ∙ absent_tail matched_lines refl refl refl)
        (per_action-Unique pending gauge p tail hp (absent_tail pending refl refl refl)
          (tail-Unique hc))

  families-IsDescribed : All IsDescribed families
  unfolding redis_samples desc_labels desc_elem desc_eq
  families-IsDescribed =
      All-append (per_action matched_lines Kind.counter m) _
        (per_action-IsDescribed matched_lines Kind.counter m refl refl)
        (All-append (per_action pending gauge p) _
          (per_action-IsDescribed pending gauge p refl refl)
          (
            (refl, refl),
            All-append (per_action redis_counter gauge counters) end
                (per_action-IsDescribed redis_counter gauge counters refl refl) ((refl, refl), tt),
          ))

module _ (k : Clock) (r : Reader) (c : Collector k.Instant) (cnt : Counter) (now : k.Instant)
    (s : State) (server : r.Server) where
  -- The registry accepts a scrape, whatever Redis answers: no description comes with the same labels
  -- twice, and each sample has as many labels as its description, which Describe sends. The
  -- condition: the reader's result holds no word twice.
  pub scrape_accepted :
      IsMap (r.counters c.cfg.actions server).0.0
      → Unique (collect k r c cnt now s server).0
        × All IsDescribed (collect k r c cnt now s server).0
  unfolding collect sample_of desc_eq desc_elem desc_labels
  scrape_accepted hc =
      let (counters, error) = (r.counters c.cfg.actions server).0 in
      let m = matched_snapshot cnt in
      let p = pending_by_action cnt in
      let errors = (note_read error s).redis_errors in
      let tail = redis_samples counters error errors in
      let none_of = absent_later m p counters error errors in
      rw (append_assoc (per_action matched_lines Kind.counter m) (per_action pending gauge p) tail)
        (
          (
            none_of uptime [] refl refl refl refl refl,
            (
              none_of start_time [] refl refl refl refl refl,
              (
                none_of config_info _ refl refl refl refl refl,
                (
                  none_of flush_interval [] refl refl refl refl refl,
                  (
                    none_of redis_ttl [] refl refl refl refl refl,
                    (
                      none_of case_sensitive [] refl refl refl refl refl,
                      (
                        none_of poll [] refl refl refl refl refl,
                        (
                          none_of heartbeat_key [] refl refl refl refl refl,
                          (
                            none_of reset_enabled [] refl refl refl refl refl,
                            (
                              none_of actions [] refl refl refl refl refl,
                              (
                                none_of lines_read [] refl refl refl refl refl,
                                families-Unique m p counters error errors (snapshots-IsMap cnt).0
                                    (snapshots-IsMap cnt).1 hc,
                              ),
                            ),
                          ),
                        ),
                      ),
                    ),
                  ),
                ),
              ),
            ),
          ),
          (
            (refl, refl),
            (
              (refl, refl),
              (
                (refl, refl),
                (
                  (refl, refl),
                  (
                    (refl, refl),
                    (
                      (refl, refl),
                      (
                        (refl, refl),
                        (
                          (refl, refl),
                          (
                            (refl, refl),
                            (
                              (refl, refl),
                              ((refl, refl), families-IsDescribed m p counters error errors),
                            ),
                          ),
                        ),
                      ),
                    ),
                  ),
                ),
              ),
            ),
          ),
        )
