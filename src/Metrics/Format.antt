-- ===== src/Metrics/Format.antt =====
-- internal/metrics/format.go: how the exporter shows booleans, durations and settings.
--
-- A time.Duration is an int64 of nanoseconds. int(d.Seconds()), int(d.Minutes()) and int(d.Hours())
-- are taken as the whole units: the float in between is exact enough for that below 4096 hours. From
-- there on the code can show the next hour a nanosecond early, which is not modelled.
use logstat.Prelude.{ℕ, ◌/◌, ◌%◌, Bool, not, [], ◌++◌, ltb, ◌==◌, if◌then◌else◌}
use logstat.Text.{Text, codes, text_eq}
use logstat.Text.Decimal.{show, show_two}
use logstat.Int64.{Int64, is_negative, mul64}
use logstat.Config.{second}

-- boolValue, as the integer.
abbrev pub bool_value : Bool → Int64
bool_value b = if b then 1 else 0

-- boolLabel
abbrev pub bool_label : Bool → Text
bool_label b = if b then codes "true" else codes "false"

-- yesNo
abbrev pub yes_no : Bool → Text
yes_no b = if b then codes "yes" else codes "no"

-- setOrNot
abbrev pub set_or_not : Bool → Text
set_or_not b = if b then codes "set" else codes "not set"

abbrev pub whole_seconds : Int64 → ℕ
whole_seconds d = d / second

-- The two units of a duration that is not negative.
unfoldable pub format_units : Int64 → Text
format_units d =
    let s = whole_seconds d in
    if ltb s 60
    then show s ++ codes "s"
    else if ltb s 3600
    then show (s / 60) ++ (codes "m " ++ (show_two (s % 60) ++ codes "s"))
    else if ltb s 86400
    then show (s / 3600) ++ (codes "h " ++ (show_two (s / 60 % 60) ++ codes "m"))
    else show (s / 3600 / 24) ++ (codes "d " ++ (show_two (s / 3600 % 24) ++ codes "h"))

-- formatUptime
unfoldable pub format_uptime : Int64 → Text
unfolding format_units
format_uptime d = format_units (if is_negative d then 0 else d)

-- formatTTL; duration_text is Duration.String.
unfoldable pub format_ttl : (Int64 → Text) → Int64 → Text
format_ttl duration_text seconds =
    if seconds == 0 then codes "no expiry" else duration_text (mul64 seconds second)

-- formatReset
unfoldable pub format_reset : Bool → Text → Text
format_reset enabled schedule =
    if not enabled then codes "disabled (zeroed externally)" else schedule

-- formatLogging
unfoldable pub format_logging : Text → Text → Text → Text
format_logging level output file =
    let both = level ++ (codes " → " ++ output) in
    if not (text_eq file []) then both ++ (codes " (" ++ (file ++ codes ")")) else both
