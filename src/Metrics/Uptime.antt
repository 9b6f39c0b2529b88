-- ===== src/Metrics/Uptime.antt =====
-- The uptime that the status page shows.
use logstat.Prelude.{
  ℕ, ◌+◌, ◌*◌, ◌/◌, ◌%◌, ◌^◌, ◌≤◌, ◌<◌, ◌≡◌, ◌++◌, arith, ltb, ◌⊎◌, inl, inr, Bool-cases,
}
use logstat.Text.{Text, codes}
use logstat.Text.Decimal.{show, show_two}
use logstat.Int64.{Int64, is_negative}
use logstat.Metrics.Format.{whole_seconds, format_units, format_uptime}

-- The two units of a text: their seconds, and what stands behind their numbers.
pub data Scale : Type 0 where
  minutes hours days : Scale

abbrev pub large_unit : Scale → ℕ
large_unit minutes = 60
large_unit hours = 3600
large_unit days = 86400

abbrev pub small_unit : Scale → ℕ
small_unit minutes = 1
small_unit hours = 60
small_unit days = 3600

abbrev pub two_units : Scale → ℕ → ℕ → Text
two_units minutes q r = show q ++ (codes "m " ++ (show_two r ++ codes "s"))
two_units hours q r = show q ++ (codes "h " ++ (show_two r ++ codes "m"))
two_units days q r = show q ++ (codes "d " ++ (show_two r ++ codes "h"))

-- The text of an uptime of a minute or more, of some seconds.
pub record TwoUnits (seconds : ℕ) (t : Text) : Type 0 where
  pub scale : Scale
  pub large : ℕ
  pub small : ℕ
  pub shown : t ≡ two_units scale large small
  pub some_large : 1 ≤ large
  pub small_bound : small * small_unit scale < large_unit scale
  pub not_more : large * large_unit scale + small * small_unit scale ≤ seconds
  pub not_less : seconds < large * large_unit scale + (small + 1) * small_unit scale

-- An uptime is shown in seconds below a minute. From a minute on it is shown in two units, of which
-- the second is less than one of the first, and the first is not zero; the time shown is at most the
-- uptime, and less than one of the second unit below it. The conditions: the
-- duration is not negative, and below 4096 hours, up to which the floats in between are exact enough.
pub format_uptime_bounds :
    (d : Int64)
    → d < 2 ^ 63
    → whole_seconds d < 4096 * 3600
    → ((whole_seconds d < 60) × (format_uptime d ≡ show (whole_seconds d) ++ codes "s"))
      ⊎ TwoUnits (whole_seconds d) (format_uptime d)
unfolding format_uptime format_units is_negative
format_uptime_bounds d h _ = elim (Bool-cases (ltb (whole_seconds d) 60)) [
  | inl e ↦ inl (ground arith)
  | inr e1 ↦ elim (Bool-cases (ltb (whole_seconds d) 3600)) [
    | inl e ↦ inr (record {
      scale = minutes;
      large = whole_seconds d / 60;
      small = whole_seconds d % 60;
      shown = ground arith;
      some_large = ground arith;
      small_bound = omega arith;
      not_more = omega arith;
      not_less = omega arith;
    })
    | inr e2 ↦ elim (Bool-cases (ltb (whole_seconds d) 86400)) [
      | inl e ↦ inr (record {
        scale = hours;
        large = whole_seconds d / 3600;
        small = whole_seconds d / 60 % 60;
        shown = ground arith;
        some_large = ground arith;
        small_bound = omega arith;
        not_more = omega arith;
        not_less = omega arith;
      })
      | inr e ↦ inr (record {
        scale = days;
        large = whole_seconds d / 3600 / 24;
        small = whole_seconds d / 3600 % 24;
        shown = ground arith;
        some_large = ground arith;
        small_bound = omega arith;
        not_more = omega arith;
        not_less = omega arith;
      })
    ]
  ]
]
