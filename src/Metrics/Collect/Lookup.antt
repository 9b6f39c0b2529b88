-- ===== src/Metrics/Collect/Lookup.antt =====
-- The samples of a scrape, looked up by description and labels.
use logstat.Prelude.{
  ℕ, ◌≡◌, refl, ◌∙◌, Bool, true, false, not, ◌&&◌, List, [], ◌∷◌, ◌++◌, Option, none, some, arith,
  ◌==◌, ==_iff, if◌then◌else◌,
}
use logstat.Text.{Text, text_eq}
use logstat.Int64.{Int64}
use logstat.Dict.{Dict, lookup, IsMap}
use logstat.Metrics.{
  Desc, uptime, start_time, config_info, flush_interval, redis_ttl, case_sensitive, poll,
  heartbeat_key, reset_enabled, actions, lines_read, matched_lines, pending, redis_counter,
  redis_up, redis_scrape_errs,
}
use logstat.Metrics.Collect.{Value, of_int, Kind, Sample, per_action}

abbrev pub index : Desc → ℕ
index uptime = 0
index start_time = 1
index config_info = 2
index flush_interval = 3
index redis_ttl = 4
index case_sensitive = 5
index poll = 6
index heartbeat_key = 7
index reset_enabled = 8
index actions = 9
index lines_read = 10
index matched_lines = 11
index pending = 12
index redis_counter = 13
index redis_up = 14
index redis_scrape_errs = 15

unfoldable pub desc_eq : Desc → Desc → Bool
desc_eq d e = index d == index e

unfoldable pub labels_eq : List Text → List Text → Bool
labels_eq [] [] = true
labels_eq (a ∷ as') (b ∷ bs) = text_eq a b && labels_eq as' bs
labels_eq _ _ = false

-- The value of the first sample with this description and these labels.
unfoldable pub sample_of : Desc → List Text → List Sample → Option Value
sample_of d labels [] = none
sample_of d labels (s ∷ samples) =
    let rest = sample_of d labels samples in
    if desc_eq s.desc d && labels_eq s.labels labels then some s.value else rest

abbrev pub integer_or : Option Value → Option Int64 → Option Value
integer_or v none = v
integer_or v (some n) = some (of_int n)

abbrev pub integer : Option Int64 → Option Value
integer = integer_or none

desc_eq_refl : (d : Desc) → desc_eq d d ≡ true
unfolding desc_eq
desc_eq_refl d = (==_iff (index d) (index d)).1 refl

pub sample_of-per_action :
    (d : Desc) (k : Kind) (a : Text) (m : Dict Int64) (samples : List Sample)
    → sample_of d (a ∷ []) (per_action d k m ++ samples)
      ≡ integer_or (sample_of d (a ∷ []) samples) (lookup a m)
unfolding sample_of per_action labels_eq lookup
sample_of-per_action d k a [] samples = refl
sample_of-per_action d k a ((b, n) ∷ m) samples =
    ground (arith, desc_eq_refl d, sample_of-per_action d k a m samples)

-- A family of another description is passed over.
pub sample_of-other :
    (d e : Desc) (k : Kind) (labels : List Text) (m : Dict Int64) (samples : List Sample)
    → desc_eq e d ≡ false
    → sample_of d labels (per_action e k m ++ samples) ≡ sample_of d labels samples
unfolding sample_of per_action
sample_of-other d e k labels [] samples h = refl
sample_of-other d e k labels ((b, n) ∷ m) samples h =
    ground (arith, h, sample_of-other d e k labels m samples h)

-- No description and labels stand twice: what the registry demands of a scrape.
abbrev pub Unique : List Sample → Type 0
Unique [] = Unit
Unique (s ∷ samples) = (sample_of s.desc s.labels samples ≡ none) × Unique samples

-- No sample has this description.
unfoldable pub absent : Desc → List Sample → Bool
absent d [] = true
absent d (s ∷ samples) = not (desc_eq s.desc d) && absent d samples

absent-none :
    (d : Desc) (labels : List Text) (samples : List Sample)
    → absent d samples ≡ true
    → sample_of d labels samples ≡ none
unfolding absent sample_of
absent-none d labels [] h = refl
absent-none d labels (s ∷ samples) h = ground (arith, h, absent-none d labels samples)

pub per_action-Unique :
    (d : Desc) (k : Kind) (m : Dict Int64) (samples : List Sample)
    → IsMap m
    → absent d samples ≡ true
    → Unique samples
    → Unique (per_action d k m ++ samples)
unfolding per_action
per_action-Unique d k [] samples h n u = u
per_action-Unique d k ((a, x) ∷ m) samples h n u = (
  sample_of-per_action d k a m samples ∙ rw (h.0, absent-none d (a ∷ []) samples n) refl,
  per_action-Unique d k m samples h.1 n u,
)

pub absent-per_action :
    (d e : Desc) (k : Kind) (m : Dict Int64) (samples : List Sample)
    → desc_eq e d ≡ false
    → absent d (per_action e k m ++ samples) ≡ absent d samples
unfolding absent per_action
absent-per_action d e k [] samples h = refl
absent-per_action d e k ((a, x) ∷ m) samples h =
    ground (arith, h, absent-per_action d e k m samples h)
