-- ===== src/Store/Keys.antt =====
-- The names and the texts of internal/store/store.go: keys, the heartbeat value, the host name.
use logstat.Prelude.{
  ℕ, ◌/◌, ◌%◌, ◌≡◌, ◌≢◌, Bool, false, [], ◌∷◌, ◌++◌, Option, none, some, arith, ◌==◌, if◌then◌else◌,
}
use logstat.Text.{Text, codes, text_eq, text_eq_iff}
use logstat.Text.Search.{cut_first}
use logstat.Text.Decimal.{show64, show_two, show_four}
use logstat.Int64.{Int64}

-- KeyPrefix
abbrev pub key_prefix : Text
key_prefix = codes "logstat:"

-- CounterKey
unfoldable pub counter_key : Text → Text → Text
counter_key host action = key_prefix ++ (codes "counter:" ++ (host ++ (b':' ∷ action)))

-- HeartbeatKey
unfoldable pub heartbeat_key : Text → Text → Text
heartbeat_key host action = key_prefix ++ (codes "heartbeat:" ++ (host ++ (b':' ∷ action)))

-- time.Time as RFC 3339 shows it: the civil time, and the minutes that the zone is west or east of
-- UTC.
pub record Time : Type 0 where
  pub year : ℕ
  pub month : ℕ
  pub day : ℕ
  pub hour : ℕ
  pub minute : ℕ
  pub sec : ℕ
  pub is_west : Bool
  pub offset : ℕ

-- "Z07:00"
abbrev pub zone : Time → Text
zone t =
    if t.offset == 0
    then b'Z' ∷ []
    else (if t.is_west then b'-' else b'+')
      ∷ (show_two (t.offset / 60) ++ (b':' ∷ show_two (t.offset % 60)))

-- "2006-01-02T"
abbrev pub date : Time → Text
date t = show_four t.year ++ (b'-' ∷ (show_two t.month ++ (b'-' ∷ (show_two t.day ++ codes "T"))))

-- "15:04:05"
abbrev pub clock : Time → Text
clock t = show_two t.hour ++ (b':' ∷ (show_two t.minute ++ (b':' ∷ show_two t.sec)))

-- Time.Format(time.RFC3339): "2006-01-02T15:04:05Z07:00".
unfoldable pub rfc3339 : Time → Text
rfc3339 t = date t ++ (clock t ++ zone t)

-- FormatHeartbeat
unfoldable pub format_heartbeat : Text → Time → Text → Int64 → Text
format_heartbeat host ts action lines =
    codes "server="
    ++ (host
        ++ (codes " time="
            ++ (rfc3339 ts ++ (codes " type=" ++ (action ++ (codes " lines=" ++ show64 lines))))))

-- ShortHostname, of what os.Hostname returns; none is an error.
unfoldable pub short_hostname : Option Text → Text
short_hostname none = codes "unknown"
short_hostname (some []) = codes "unknown"
short_hostname (some (c ∷ h)) = elim (cut_first b'.' (c ∷ h)) [
  | none ↦ c ∷ h
  | some ([], _) ↦ c ∷ h
  | some (d ∷ u, _) ↦ d ∷ u
]

append_cancel : (s t u : Text) → s ++ t ≡ s ++ u → t ≡ u
append_cancel [] t u h = h
append_cancel (c ∷ s) t u h = append_cancel s t u (ground arith)

cons_cancel : (c : ℕ) (t u : Text) → c ∷ t ≡ c ∷ u → t ≡ u
cons_cancel c t u h = ground arith

-- On one host, different actions have different counter keys and different heartbeat keys.
pub counter_key-injective : (host a b : Text) → counter_key host a ≡ counter_key host b → a ≡ b
unfolding counter_key
counter_key-injective host a b h =
    cons_cancel b':' a b (
      append_cancel host _ _
        (append_cancel (codes "counter:") _ _ (append_cancel key_prefix _ _ h)))

-- No counter key is a heartbeat key.
pub counter_key-ne-heartbeat_key : (host a b : Text) → counter_key host a ≢ heartbeat_key host b
unfolding counter_key heartbeat_key
counter_key-ne-heartbeat_key host a b h = ground arith

-- The tests on keys, for the rewriting of what the server holds.
pub counter_keys_eq :
    (host a b : Text) → text_eq (counter_key host a) (counter_key host b) ≡ text_eq a b
counter_keys_eq host a b = ground (
  arith,
  text_eq_iff (counter_key host a) (counter_key host b),
  text_eq_iff a b,
  counter_key-injective host a b,
)

pub heartbeat_counter_ne :
    (host a b : Text) → text_eq (heartbeat_key host a) (counter_key host b) ≡ false
heartbeat_counter_ne host a b = ground (
  arith,
  text_eq_iff (heartbeat_key host a) (counter_key host b),
  counter_key-ne-heartbeat_key host b a,
)
