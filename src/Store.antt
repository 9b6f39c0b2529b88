-- ===== src/Store.antt =====
-- internal/store/store.go: the keys of logstat, and what it asks of Redis for each operation.
--
-- An operation is an action on the server: it returns its result and the server that it leaves. An
-- error is its place, a Step, and what errors.Is and errors.As find in it, a Cause. The client
-- library is the parameter c (Store/Redis); contexts show as failed replies only.
pub mod Redis
pub mod Keys
pub mod Counters
pub mod Available
pub mod Blocked
pub mod Effects
pub mod Toy
pub mod Ledger
pub mod Tests
use logstat.Prelude.{
  ℕ, ◌≡◌, Bool, true, false, List, [], ◌∷◌, ◌++◌, map, Option, none, some, length, ◌==◌,
  if◌then◌else◌,
}
use logstat.Text.{Text, codes}
use logstat.Text.Decimal.{parse_int}
use logstat.Int64.{Int64, is_positive}
use logstat.Dict.{Dict, insert}
use logstat.Store.Redis.{
  ClientError, reply, Reply, Command, incr_by, expire, persist, Value, nil, text, foreign, Executed,
  Client,
}
use logstat.Store.Keys.{Time, counter_key, heartbeat_key, format_heartbeat}

-- Where an error was wrapped.
pub data Step : Type 0 where
  init_counter init_heartbeat incrby_step expire_step heartbeat_step reset_step : Text → Step
  refresh_step read_step : Step
  read_step_of : List Text → Step

-- What an error wraps: one of the client's, ErrMalformedValue, or nothing (a count that is wrong).
pub data Cause : Type 0 where
  client : ClientError → Cause
  malformed_value : Cause
  wrong_count : ℕ → ℕ → Cause

pub record Error : Type 0 where
  pub at : Step
  pub cause : Cause

pub data Result (A : Type 0) : Type 0 where
  done : A → Result A
  err : Error → Result A

-- IsUnavailable, of an error or nil.
unfoldable pub is_unavailable : Option Error → Bool
is_unavailable none = false
is_unavailable (some e) = elim e.cause [
  | malformed_value ↦ false
  | client r ↦ elim r [ reply ↦ false | _ ↦ true ]
  | wrong_count _ _ ↦ true
]

abbrev pub Action : Type 0 → Type 0 → Type 0
Action S A = S → Result A × S

abbrev pub pure : {S A : Type 0} → A → Action S A
pure a s = (done a, s)

infixl 5 ◌>>=◌ ◌>>◌
abbrev pub ◌>>=◌ : {S A B : Type 0} → Action S A → (A → Action S B) → Action S B
◌>>=◌ m f s = let (r, s') = m s in elim r [ done a ↦ f a s' | err e ↦ (err e, s') ]

abbrev pub ◌>>◌ : {S A B : Type 0} → Action S A → Action S B → Action S B
m >> k = m >>= λ _. k

-- fmt.Errorf("…: %w", err) on a failed reply.
abbrev pub wrap : {A : Type 0} → Step → Reply A → Result A
wrap step (Reply.ok a) = done a
wrap step (Reply.failed e) = err (record { at = step; cause = client e })

abbrev pub call : {S A : Type 0} → Step → (S → Reply A × S) → Action S A
call step request s = let (r, s') = request s in (wrap step r, s')

-- Store, without the client.
pub record Store : Type 0 where
  pub host : Text
  pub heartbeat : Bool
  pub ttl : Int64

-- Store.keys
unfoldable pub keys : Store → Text → List Text
keys st action =
    if st.heartbeat
    then counter_key st.host action ∷ heartbeat_key st.host action ∷ []
    else counter_key st.host action ∷ []

-- The commands that Touch queues for one key, and for all keys of all actions.
abbrev pub touch_command : Store → Text → Command
touch_command st key = if is_positive st.ttl then expire key st.ttl else persist key

unfoldable pub touch_commands : Store → List Text → List Command
unfolding keys
touch_commands st [] = []
touch_commands st (a ∷ actions) = map (touch_command st) (keys st a) ++ touch_commands st actions

-- The commands that Incr queues.
abbrev pub incr_commands : Store → Text → Int64 → List Command
incr_commands st action delta =
    let key = counter_key st.host action in incr_by key delta ∷ expire key st.ttl ∷ []

module _ (c : Client) (st : Store) where
  -- Store.SetHeartbeat
  unfoldable pub set_heartbeat : Text → Int64 → Time → Action c.Server Unit
  set_heartbeat action lines ts =
      if st.heartbeat
      then call (heartbeat_step action)
          (c.set (heartbeat_key st.host action) (format_heartbeat st.host ts action lines) st.ttl)
      else pure tt

  -- Store.Reset
  unfoldable pub reset : Text → Time → Action c.Server Unit
  reset action ts = do
    call (reset_step action) (c.set (counter_key st.host action) (codes "0") st.ttl)
    set_heartbeat action 0 ts

  -- What Incr makes of the executed pipeline.
  abbrev pub incr_result : Text → Executed → Result Int64
  incr_result action x = elim x.error [
    | some e ↦ err (record { at = incrby_step action; cause = client e })
    | none ↦ elim (x.result 0) [
      | Reply.failed e ↦ err (record { at = incrby_step action; cause = client e })
      | Reply.ok n ↦ elim (x.result 1) [
        | Reply.failed e ↦ err (record { at = expire_step action; cause = client e })
        | Reply.ok _ ↦ done n
      ]
    ]
  ]

  -- Store.Incr
  unfoldable pub incr : Text → Int64 → Action c.Server Int64
  incr action delta s =
      if is_positive st.ttl
      then (let (x, s') = c.exec (incr_commands st action delta) s in (incr_result action x, s'))
      else call (incrby_step action) (c.incr_by (counter_key st.host action) delta) s

  -- The second half of the loop body of Init, for the heartbeat value.
  abbrev pub init_value : Text → Time → Action c.Server Unit
  init_value a ts = do
    n ← call (init_counter a) (c.get_int64 (counter_key st.host a))
    call (init_heartbeat a)
        (c.set_nx (heartbeat_key st.host a) (format_heartbeat st.host ts a n) st.ttl)

  -- The body of the loop of Init.
  unfoldable pub init_action : Text → Time → Action c.Server Unit
  init_action a ts = do
    call (init_counter a) (c.set_nx (counter_key st.host a) (codes "0") st.ttl)
    if st.heartbeat then init_value a ts else pure tt

  -- Store.Init
  unfoldable pub init : List Text → Time → Action c.Server Unit
  init [] ts = pure tt
  init (a ∷ actions) ts = init_action a ts >> init actions ts

  -- What Touch makes of the executed pipeline.
  abbrev pub touch_result : Executed → Result Unit
  touch_result x = elim x.error [
    | some e ↦ err (record { at = refresh_step; cause = client e })
    | none ↦ done tt
  ]

  -- Store.Touch
  unfoldable pub touch : List Text → Action c.Server Unit
  unfolding touch_commands
  touch [] s = pure tt s
  touch (a ∷ actions) s =
      let (x, s') = c.exec (touch_commands st (a ∷ actions)) s in (touch_result x, s')

-- What the loop of Counters has collected.
pub record Read : Type 0 where
  pub out : Dict Int64
  pub malformed : List Text

-- The integer that a value of MGET spells, if any: v.(string) and strconv.ParseInt.
abbrev pub parse_value : Value → Option Int64
parse_value nil = none
parse_value foreign = none
parse_value (text raw) = parse_int raw

abbrev pub is_nil : Value → Bool
is_nil nil = true
is_nil (text _) = false
is_nil foreign = false

-- The loop of Counters, over the actions and the values that are parallel to them.
unfoldable pub read_each : List Text → List Value → Dict Int64 → Read
read_each (a ∷ actions) (v ∷ values) out =
    let rest =
      read_each actions values (elim (parse_value v) [ none ↦ out | some n ↦ insert a n out ]) in
    if is_nil v then rest else elim (parse_value v) [
      | none ↦ record rest { malformed = a ∷ rest.malformed }
      | some _ ↦ rest
    ]
read_each _ _ out = record { out = out; malformed = [] }

-- The end of Counters: the map, and the error beside it.
abbrev pub read_result : Read → Dict Int64 × Option Error
read_result r = elim r.malformed [
  | [] ↦ (r.out, none)
  | a ∷ rest ↦ (r.out, some (record { at = read_step_of (a ∷ rest); cause = malformed_value }))
]

-- What Counters makes of the reply to MGET.
unfoldable pub read_reply : List Text → Reply (List Value) → Dict Int64 × Option Error
unfolding read_each
read_reply actions (Reply.failed e) = ([], some (record { at = read_step; cause = client e }))
read_reply actions (Reply.ok values) =
    if length values == length actions then read_result (read_each actions values []) else (
      [],
      some (record { at = read_step; cause = wrong_count (length values) (length actions) }),
    )

module _ (c : Client) (st : Store) where
  -- Store.Counters
  unfoldable pub counters : List Text → c.Server → (Dict Int64 × Option Error) × c.Server
  unfolding read_reply
  counters [] s = (([], none), s)
  counters (a ∷ actions) s =
      let (r, s') = c.mget (map (counter_key st.host) (a ∷ actions)) s in
      (read_reply (a ∷ actions) r, s')
