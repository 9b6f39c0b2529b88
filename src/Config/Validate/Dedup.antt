-- ===== src/Config/Validate/Dedup.antt =====
-- What Config.Validate makes of the actions, and what a second call says.
use logstat.Prelude.{
  ℕ, suc, ◌≡◌, ◌≢◌, refl, sym, ◌∙◌, ap, inl, inr, Bool, true, false, not, ◌&&◌, ◌||◌, List, [], ◌∷◌,
  none, arith, if◌then◌else◌, Bool-cases,
}
use logstat.Text.{Text, text_eq, text_eq_iff, text_eq_refl, text_elem, Distinct}
use logstat.Config.{Config}
use mathlib.Core.Bool.{true≢false}
use logstat.Config.Validate.{Verdict, scan_actions, validate}
use logstat.Config.Validate.Sound.{IsSound, validate_iff, scan_rest}

module _ (i : ℕ) (seen : List Text) (a : Text) (actions : List Text) where
  scan-uniq : (scan_actions i seen (a ∷ actions)).uniq ≡ (
      if text_eq a [] || text_elem a seen
      then (scan_rest i seen a actions).uniq
      else a ∷ (scan_rest i seen a actions).uniq)
  unfolding scan_actions
  scan-uniq = ground arith

-- The step of elem-scan, for what the scan of the rest keeps.
keep_step :
    (x a : Text) (seen actions kept : List Text)
    → text_elem x kept ≡ (
        text_elem x actions
        && (not (text_eq x [])
            && not (text_elem x (if text_eq a [] || text_elem a seen then seen else a ∷ seen))))
    → text_elem x (if text_eq a [] || text_elem a seen then kept else a ∷ kept)
      ≡ (text_elem x (a ∷ actions) && (not (text_eq x []) && not (text_elem x seen)))
unfolding text_elem
keep_step x a seen actions kept ih =
    ground (arith, text_eq_iff a x, text_eq_iff x [], text_eq_iff a [])

-- What the scan keeps: the actions that are neither empty nor seen before.
elem-scan :
    (x : Text) (i : ℕ) (seen actions : List Text)
    → text_elem x (scan_actions i seen actions).uniq
      ≡ (text_elem x actions && (not (text_eq x []) && not (text_elem x seen)))
elem-scan x i seen [] = unfold scan_actions text_elem in refl
elem-scan x i seen (a ∷ actions) =
    let ih =
      elem-scan x (suc i) (if text_eq a [] || text_elem a seen then seen else a ∷ seen) actions in
    rw (scan-uniq i seen a actions) (keep_step x a seen actions _ ih)

scan-Distinct : (i : ℕ) (seen actions : List Text) → Distinct (scan_actions i seen actions).uniq
scan-Distinct i seen [] = unfold scan_actions in tt
scan-Distinct i seen (a ∷ actions) =
    let known = text_eq a [] || text_elem a seen in
    let rest = scan-Distinct (suc i) (if known then seen else a ∷ seen) actions in
    rw (scan-uniq i seen a actions) (elim (Bool-cases known) [
      | inl dropped ↦ rw dropped (rw dropped at rest)
      | inr fresh ↦ rw fresh (
        elem-scan a (suc i) (a ∷ seen) actions ∙ unfold text_elem in ground (arith, text_eq_refl a),
        rw fresh at rest,
      )
    ])

-- An action list with nothing to drop is kept as it is.
scan_kept :
    (i : ℕ) (seen actions : List Text)
    → Distinct actions
    → text_elem [] actions ≡ false
    → ((x : Text) → text_elem x actions ≡ true → text_elem x seen ≡ false)
    → (scan_actions i seen actions).uniq ≡ actions
unfolding text_elem
scan_kept i seen [] d e f = unfold scan_actions in refl
scan_kept i seen (a ∷ actions) d e f =
    let here : text_elem a seen ≡ false = f a (ground (arith, text_eq_refl a)) in
    let fresh : (text_eq a [] || text_elem a seen) ≡ false = ground arith in
    let rest =
      scan_kept (suc i) (a ∷ seen) actions d.1 (ground arith)
        (λ x h. ground (arith, f x, text_eq_iff a x)) in
    scan-uniq i seen a actions ∙ rw fresh (ap (λ kept. a ∷ kept) rest)

ne_nil_of_elem : (x : Text) (ts : List Text) → text_elem x ts ≡ true → ts ≢ []
unfolding text_elem
ne_nil_of_elem x [] h = cc
ne_nil_of_elem x (t ∷ ts) h = ground arith

some_elem :
    (ts : List Text)
    → ts ≢ []
    → text_elem [] ts ≡ false
    → (x : Text) × (text_elem x ts ≡ true) × (text_eq x [] ≡ false)
unfolding text_elem
some_elem [] n e = absurd (n refl)
some_elem (t ∷ ts) n e = (t, ground (arith, text_eq_refl t), ground arith)

module _ (to_lower : Text → Text) (cron_accepts : Text → Bool) (c : Config) where
  abbrev verdict : Verdict
  verdict = validate to_lower cron_accepts c

  -- The actions that Validate leaves are all different, and are the configured ones but the empty.
  validate-actions :
      Distinct verdict.config.actions
      × ((x : Text)
          → text_elem x verdict.config.actions ≡ (text_elem x c.actions && not (text_eq x [])))
  unfolding validate
  validate-actions = (
    scan-Distinct 0 [] c.actions,
    (λ x. elem-scan x 0 [] c.actions ∙ unfold text_elem in ground arith),
  )

  verdict-IsSound : IsSound cron_accepts c → IsSound cron_accepts verdict.config
  unfolding validate
  verdict-IsSound s =
      let (x, in_all, solid) = some_elem c.actions s.some_action s.no_empty_action in
      record {
        log_path = s.log_path;
        some_action =
            ne_nil_of_elem x _
              (elem-scan x 0 [] c.actions ∙ unfold text_elem in rw (in_all, solid));
        no_empty_action = elem-scan [] 0 [] c.actions ∙ rw s.no_empty_action;
        flush_interval = s.flush_interval;
        lock_file = s.lock_file;
        redis_host = s.redis_host;
        redis_port = s.redis_port;
        redis_db = s.redis_db;
        redis_ttl = s.redis_ttl;
        level = s.level;
        output = s.output;
        schedule = s.schedule;
        metrics = s.metrics;
      }

  verdict_kept : (validate to_lower cron_accepts verdict.config).config ≡ verdict.config
  unfolding validate
  verdict_kept =
      let kept =
        scan_kept 0 [] (scan_actions 0 [] c.actions).uniq (scan-Distinct 0 [] c.actions)
          (elem-scan [] 0 [] c.actions ∙ unfold text_eq in ground arith)
          (λ x h. unfold text_elem in refl) in
      ap (λ kept_actions. record c { actions = kept_actions }) kept

  -- A configuration that Validate accepts is accepted again as Validate leaves it, and a second call
  -- changes nothing.
  pub validate-validate :
      verdict.failure ≡ none
      → let again = validate to_lower cron_accepts verdict.config in
        (again.failure ≡ none) × (again.config ≡ verdict.config)
  validate-validate h =
      let sound = verdict-IsSound ((validate_iff to_lower cron_accepts c).0 h) in
      ((validate_iff to_lower cron_accepts verdict.config).1 sound, verdict_kept)

  -- A configuration with an empty action that is sound without it is refused, and accepted by a
  -- second call on what the first one leaves: the verdict of Validate is not idempotent.
  pub validate_forgets_empty :
      text_elem [] c.actions ≡ true
      → IsSound cron_accepts verdict.config
      → (verdict.failure ≢ none) × ((validate to_lower cron_accepts verdict.config).failure ≡ none)
  validate_forgets_empty e s = (
    (λ h.
        let accepted = (validate_iff to_lower cron_accepts c).0 h in
        true≢false (sym e ∙ accepted.no_empty_action)),
    (validate_iff to_lower cron_accepts verdict.config).1 s,
  )
