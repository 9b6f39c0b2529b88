-- ===== src/Config/Listen/HostPort.antt =====
-- net.SplitHostPort takes apart what net.JoinHostPort joins, and what Metrics.validate accepts.
use logstat.Prelude.{
  ℕ, ◌≤◌, ◌≡◌, refl, ◌⊎◌, inl, inr, false, [], ◌∷◌, ◌++◌, none, some, arith, ◌==◌, if◌then◌else◌,
  Bool-cases, Option-cases,
}
use mathlib.Core.List.{append_assoc}
use logstat.Text.{Text}
use logstat.Text.Search.{contains_func, cut_first, cut_first-append, has_unit}
use logstat.Text.Trim.{trim_space}
use logstat.Text.Decimal.{parse_int}
use logstat.Int64.{Int64, lt64}
use logstat.Config.{Metrics}
use logstat.Config.Route.{IsPlain, validate_path, validate_path_iff}
use logstat.Config.Listen.{cut_last, split_at, split_host_port, check_port, validate_metrics}

cut_last-none : (b : ℕ) (s : Text) → has_unit b s ≡ false → cut_last b s ≡ none
unfolding cut_last contains_func
cut_last-none b [] h = refl
cut_last-none b (c ∷ s) h = ground (arith, cut_last-none b s)

cut_last-append :
    (b : ℕ) (u v : Text) → has_unit b v ≡ false → cut_last b (u ++ (b ∷ v)) ≡ some (u, v)
unfolding cut_last contains_func
cut_last-append b [] v h = ground (arith, cut_last-none b v)
cut_last-append b (c ∷ u) v h = ground (arith, cut_last-append b u v)

cut_first_sound : (b : ℕ) (s : Text) {u v : Text} → cut_first b s ≡ some (u, v) → s ≡ u ++ (b ∷ v)
unfolding cut_first
cut_first_sound b [] h = cc
cut_first_sound b (c ∷ s) {u} {v} h = elim (Option-cases (cut_first b s)) [
  | inl missing ↦ ground arith
  | inr ((u', v'), e) ↦ ground (arith, e, cut_first_sound b s {u = u'} {v = v'} e)
]

cut_last_sound : (b : ℕ) (s : Text) {u v : Text} → cut_last b s ≡ some (u, v) → s ≡ u ++ (b ∷ v)
unfolding cut_last
cut_last_sound b [] h = cc
cut_last_sound b (c ∷ s) {u} {v} h = elim (Option-cases (cut_last b s)) [
  | inl missing ↦ ground arith
  | inr ((u', v'), e) ↦ ground (arith, e, cut_last_sound b s {u = u'} {v = v'} e)
]

-- None of the units that SplitHostPort gives a meaning.
pub record IsBare (s : Text) : Type 0 where
  pub no_colon : has_unit b':' s ≡ false
  pub no_open : has_unit b'[' s ≡ false
  pub no_close : has_unit b']' s ≡ false

-- net.JoinHostPort of the Go library: a host with a colon stands in brackets.
pub join_host_port : Text → Text → Text
join_host_port host port =
    if has_unit b':' host then (b'[' ∷ host) ++ (b']' ∷ b':' ∷ port) else host ++ (b':' ∷ port)

split_at_bracketed :
    (host port : Text)
    → has_unit b'[' host ≡ false
    → has_unit b']' host ≡ false
    → IsBare port
    → split_at (b'[' ∷ (host ++ (b']' ∷ []))) port ≡ some (host, port)
unfolding split_at
split_at_bracketed host port no_open no_close bare =
    rw (cut_first-append b']' host [] no_close, no_open, bare.no_open, bare.no_close)

split_at_plain :
    (host port : Text) → IsBare host → IsBare port → split_at host port ≡ some (host, port)
unfolding split_at contains_func
split_at_plain [] port h bare = ground arith
split_at_plain (c ∷ host) port h bare = ground arith

split_bracketed :
    (host port : Text)
    → has_unit b'[' host ≡ false
    → has_unit b']' host ≡ false
    → IsBare port
    → split_host_port ((b'[' ∷ host) ++ (b']' ∷ b':' ∷ port)) ≡ some (host, port)
unfolding split_host_port
split_bracketed host port no_open no_close bare =
    rw (← append_assoc host (b']' ∷ []) (b':' ∷ port)) (
      rw (cut_last-append b':' (b'[' ∷ (host ++ (b']' ∷ []))) port bare.no_colon)
        (split_at_bracketed host port no_open no_close bare))

split_plain :
    (host port : Text)
    → IsBare host
    → IsBare port
    → split_host_port (host ++ (b':' ∷ port)) ≡ some (host, port)
unfolding split_host_port
split_plain host port h bare =
    rw (cut_last-append b':' host port bare.no_colon, split_host_port)
      (split_at_plain host port h bare)

-- What JoinHostPort has joined SplitHostPort splits, for a host without brackets and a bare port.
pub split_host_port-join :
    (host port : Text)
    → has_unit b'[' host ≡ false
    → has_unit b']' host ≡ false
    → IsBare port
    → split_host_port (join_host_port host port) ≡ some (host, port)
unfolding join_host_port
split_host_port-join host port no_open no_close bare = elim (Bool-cases (has_unit b':' host)) [
  | inl colon ↦ rw colon (split_bracketed host port no_open no_close bare)
  | inr plain ↦ rw plain (
      split_plain host port (record { no_colon = plain; no_open = no_open; no_close = no_close })
        bare)
]

-- s is host and port joined, with the host in brackets or not.
abbrev pub Joins : Text → Text → Text → Type 0
Joins s host port = (s ≡ host ++ (b':' ∷ port)) ⊎ (s ≡ b'[' ∷ (host ++ (b']' ∷ b':' ∷ port)))

split_at_sound_bracketed :
    (u v : Text) {host port : Text}
    → split_at (b'[' ∷ u) v ≡ some (host, port)
    → b'[' ∷ (u ++ (b':' ∷ v)) ≡ b'[' ∷ (host ++ (b']' ∷ b':' ∷ port))
unfolding split_at
split_at_sound_bracketed u v {host} {port} h = elim (Option-cases (cut_first b']' u)) [
  | inl missing ↦ ground arith
  | inr ((u', []), e) ↦
      let u_eq = cut_first_sound b']' u e in
      rw u_eq (rw (append_assoc u' (b']' ∷ []) (b':' ∷ v)) (ground arith))
  | inr ((u', d ∷ w), e) ↦ ground arith
]

split_at_sound :
    (u v : Text) {host port : Text}
    → split_at u v ≡ some (host, port)
    → Joins (u ++ (b':' ∷ v)) host port
split_at_sound [] v h = inl (unfold split_at in ground arith)
split_at_sound (c ∷ u) v h = elim (Bool-cases (c == b'[')) [
  | inl open_bracket ↦
      let e : c ≡ b'[' = ground arith in inr (rw e (split_at_sound_bracketed u v (rw e at h)))
  | inr plain ↦ inl (unfold split_at in ground arith)
]

split_host_port_sound :
    (s : Text) {host port : Text} → split_host_port s ≡ some (host, port) → Joins s host port
unfolding split_host_port
split_host_port_sound s h = elim (Option-cases (cut_last b':' s)) [
  | inl missing ↦ ground arith
  | inr ((u, v), e) ↦
      rw (cut_last_sound b':' s e) (split_at_sound u v (rw (e, split_host_port) at h))
]

check_port_sound :
    (m : Metrics) (n : Int64)
    → check_port m (some n) ≡ none
    → (1 ≤ n) × (n ≤ 65535) × IsPlain m.path
unfolding lt64
check_port_sound m n h = elim (Option-cases (validate_path m)) [
  | inl accepted ↦ (ground arith, ground arith, (validate_path_iff m).0 accepted)
  | inr (p, refused) ↦ ground arith
]

-- An accepted listen address, behind its white space, is a host and a port from 1 to 65535, and the
-- path is plain.
pub validate_metrics_sound :
    (m : Metrics)
    → validate_metrics m ≡ none
    → (host : Text) × (port : Text) × (n : Int64) × Joins (trim_space m.listen) host port
      × (parse_int port ≡ some n)
      × (1 ≤ n)
      × (n ≤ 65535)
      × IsPlain m.path
unfolding validate_metrics
validate_metrics_sound m h = elim (Option-cases (split_host_port (trim_space m.listen))) [
  | inl unsplit ↦ ground arith
  | inr ((host, port), split) ↦ elim (Option-cases (parse_int port)) [
    | inl not_a_number ↦ ground arith
    | inr (n, parsed) ↦
        let (low, high, plain) = check_port_sound m n (ground arith) in
        (host, port, n, split_host_port_sound _ split, parsed, low, high, plain)
  ]
]
