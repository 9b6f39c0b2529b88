-- ===== src/Config/Validate/Sound.antt =====
-- Config.Validate accepts exactly the sound configurations.
use logstat.Prelude.{
  ℕ, suc, ◌≤◌, ◌<◌, ◌^◌, ◌≡◌, ◌≢◌, refl, ◌↔◌, ◌⊎◌, Bool, true, false, not, ◌||◌, List, [], ◌∷◌,
  ◌++◌, Option, none, some, arith, if◌then◌else◌, All,
}
use logstat.Text.{Text, text_eq, text_eq_iff, text_elem}
use logstat.Text.Trim.{all_space, is_blank, is_blank-eq-all_space}
use logstat.Int64.{Int64, is_positive, is_negative, lt64}
use logstat.Config.{Config, output_journald, output_file, levels}
use logstat.Config.Listen.{MetricsProblem, validate_metrics, out_of_port_range}
use logstat.Config.Validate.{
  Problem, empty_action, join, Scan, scan_actions, fail_if, is_empty, metrics_problems,
  output_problems, schedule_problems, append_all, checks, validate,
}

-- What a configuration has to meet, said without the checks.
pub record IsSound (cron_accepts : Text → Bool) (c : Config) : Type 0 where
  pub log_path : all_space c.log_path ≡ false
  pub some_action : c.actions ≢ []
  pub no_empty_action : text_elem [] c.actions ≡ false
  pub flush_interval : (0 < c.flush_interval) × (c.flush_interval < 2 ^ 63)
  pub lock_file : all_space c.lock_file ≡ false
  pub redis_host : all_space c.redis.host ≡ false
  pub redis_port : (1 ≤ c.redis.port) × (c.redis.port ≤ 65535)
  pub redis_db : c.redis.db < 2 ^ 63
  pub redis_ttl : c.redis.ttl < 2 ^ 63
  pub level : text_elem c.logging.level levels ≡ true
  pub output :
      (c.logging.output ≡ output_journald)
      ⊎ ((c.logging.output ≡ output_file) × (all_space c.logging.file ≡ false))
  pub schedule : (all_space c.reset.schedule ≡ false) × (cron_accepts c.reset.schedule ≡ true)
  pub metrics : validate_metrics c.metrics ≡ none

join-none : (ps : List Problem) → (join ps ≡ none) ↔ (ps ≡ [])
unfolding join
join-none [] = ground arith
join-none (p ∷ []) = ground arith
join-none (p ∷ q ∷ ps) = ground arith

append_empty : (ps qs : List Problem) → (ps ++ qs ≡ []) ↔ ((ps ≡ []) × (qs ≡ []))
append_empty [] qs = ((λ h. (refl, h)), (λ h. h.1))
append_empty (p ∷ ps) qs = ((λ h. ground arith), (λ h. ground arith))

-- The scan of the actions behind a.
abbrev pub scan_rest : ℕ → List Text → Text → List Text → Scan
scan_rest i seen a actions =
    scan_actions (suc i) (if text_eq a [] || text_elem a seen then seen else a ∷ seen) actions

scan-problems :
    (i : ℕ) (seen : List Text) (a : Text) (actions : List Text)
    → (scan_actions i seen (a ∷ actions)).problems ≡ (
        if text_eq a []
        then empty_action i ∷ (scan_rest i seen a actions).problems
        else (scan_rest i seen a actions).problems)
unfolding scan_actions
scan-problems i seen a actions = ground arith

head_problem :
    (empty : Bool) (p : Problem) {known : Bool} {ps : List Problem}
    → (ps ≡ []) ↔ (known ≡ false)
    → ((if empty then p ∷ ps else ps) ≡ []) ↔ ((empty || known) ≡ false)
head_problem true p ih = ground arith
head_problem false p ih = ih

scan_no_problem :
    (i : ℕ) (seen actions : List Text)
    → ((scan_actions i seen actions).problems ≡ []) ↔ (text_elem [] actions ≡ false)
unfolding text_elem text_eq
scan_no_problem i seen [] = unfold scan_actions in ground arith
scan_no_problem i seen (a ∷ actions) =
    let ih =
      scan_no_problem (suc i) (if text_eq a [] || text_elem a seen then seen else a ∷ seen)
        actions in
    rw (scan-problems i seen a actions) (head_problem (text_eq a []) (empty_action i) ih)

blank_false : (s : Text) (p : Problem) → (fail_if (is_blank s) p ≡ []) ↔ (all_space s ≡ false)
blank_false s p = rw (is_blank-eq-all_space s) (ground arith)

output_sound :
    (output file : Text)
    → (output_problems output file ≡ [])
      ↔ ((output ≡ output_journald) ⊎ ((output ≡ output_file) × (all_space file ≡ false)))
output_sound output file =
    rw (is_blank-eq-all_space file)
      (ground (arith, text_eq_iff output output_journald, text_eq_iff output output_file))

schedule_sound :
    (accepts : Text → Bool) (expr : Text)
    → (schedule_problems accepts expr ≡ []) ↔ ((all_space expr ≡ false) × (accepts expr ≡ true))
schedule_sound accepts expr = rw (is_blank-eq-all_space expr) (ground arith)

port_sound :
    (n : Int64) (p : Problem) → (fail_if (out_of_port_range n) p ≡ []) ↔ ((1 ≤ n) × (n ≤ 65535))
unfolding lt64
port_sound n p = ground arith

positive_sound :
    (n : Int64) (p : Problem) → (fail_if (not (is_positive n)) p ≡ []) ↔ ((0 < n) × (n < 2 ^ 63))
unfolding is_positive
positive_sound n p = ground arith

non_negative_sound : (n : Int64) (p : Problem) → (fail_if (is_negative n) p ≡ []) ↔ (n < 2 ^ 63)
unfolding is_negative
non_negative_sound n p = ground arith

test_sound : (b : Bool) (p : Problem) → (fail_if (not b) p ≡ []) ↔ (b ≡ true)
test_sound b p = ground arith

some_sound :
    (actions : List Text) (p : Problem) → (fail_if (is_empty actions) p ≡ []) ↔ (actions ≢ [])
some_sound [] p = ((λ h. ground arith), (λ h. absurd (h refl)))
some_sound (a ∷ actions) p = ((λ h. cc), (λ h. refl))

metrics_sound : (o : Option MetricsProblem) → (metrics_problems o ≡ []) ↔ (o ≡ none)
metrics_sound none = ground arith
metrics_sound (some p) = ground arith

append_all_empty : (pss : List (List Problem)) → (append_all pss ≡ []) ↔ All (λ ps. ps ≡ []) pss
unfolding append_all
append_all_empty [] = ((λ _. tt), (λ _. refl))
append_all_empty (ps ∷ pss) =
    let ih = append_all_empty pss in
    let split = append_empty ps (append_all pss) in
    ((λ h. let (now, later) = split.0 h in (now, ih.0 later)), (λ h. split.1 (h.0, ih.1 h.1)))

module _ (to_lower : Text → Text) (cron_accepts : Text → Bool) (c : Config) where
  checks-IsSound : All (λ ps. ps ≡ []) (checks to_lower cron_accepts c) → IsSound cron_accepts c
  unfolding checks
  checks-IsSound h =
      let r = h.1.1.1.1.1.1 in
      record {
        log_path = (blank_false _ _).0 h.0;
        some_action = (some_sound _ _).0 h.1.0;
        no_empty_action = (scan_no_problem 0 [] c.actions).0 h.1.1.0;
        flush_interval = (positive_sound _ _).0 h.1.1.1.0;
        lock_file = (blank_false _ _).0 h.1.1.1.1.0;
        redis_host = (blank_false _ _).0 h.1.1.1.1.1.0;
        redis_port = (port_sound _ _).0 r.0;
        redis_db = (non_negative_sound _ _).0 r.1.0;
        redis_ttl = (non_negative_sound _ _).0 r.1.1.0;
        level = (test_sound _ _).0 r.1.1.1.0;
        output = (output_sound _ _).0 r.1.1.1.1.0;
        schedule = (schedule_sound cron_accepts _).0 r.1.1.1.1.1.0;
        metrics = (metrics_sound _).0 r.1.1.1.1.1.1.0;
      }

  IsSound-checks : IsSound cron_accepts c → All (λ ps. ps ≡ []) (checks to_lower cron_accepts c)
  unfolding checks
  IsSound-checks s = (
    (blank_false _ _).1 s.log_path,
    (
      (some_sound _ _).1 s.some_action,
      (
        (scan_no_problem 0 [] c.actions).1 s.no_empty_action,
        (
          (positive_sound _ _).1 s.flush_interval,
          (
            (blank_false _ _).1 s.lock_file,
            (
              (blank_false _ _).1 s.redis_host,
              (
                (port_sound _ _).1 s.redis_port,
                (
                  (non_negative_sound _ _).1 s.redis_db,
                  (
                    (non_negative_sound _ _).1 s.redis_ttl,
                    (
                      (test_sound _ _).1 s.level,
                      (
                        (output_sound _ _).1 s.output,
                        (
                          (schedule_sound cron_accepts _).1 s.schedule,
                          ((metrics_sound _).1 s.metrics, tt),
                        ),
                      ),
                    ),
                  ),
                ),
              ),
            ),
          ),
        ),
      ),
    ),
  )

  -- Validate reports no error exactly if the configuration is sound.
  pub validate_iff : ((validate to_lower cron_accepts c).failure ≡ none) ↔ IsSound cron_accepts c
  unfolding validate
  validate_iff =
      let empty = append_all_empty (checks to_lower cron_accepts c) in
      let joined = join-none (append_all (checks to_lower cron_accepts c)) in
      ((λ h. checks-IsSound (empty.0 (joined.0 h))), (λ s. joined.1 (empty.1 (IsSound-checks s))))
