-- ===== src/Store/Available.antt =====
-- internal/store/store.go on a Redis that answers: every operation succeeds.
use logstat.Prelude.{◌+◌, ◌^◌, ◌<◌, ◌≡◌, refl, true, List, [], ◌∷◌, none, arith, inl, inr}
use logstat.Text.{Text, codes, text_elem}
use logstat.Int64.{Int64}
use logstat.Dict.{Dict}
use logstat.Dict.Totals.{get64}
use logstat.Store.Redis.{is_ok, Reply, Client, Books}
use logstat.Store.Keys.{Time, counter_key, heartbeat_key, format_heartbeat}
use logstat.Store.{
  Result, call, Store, touch_commands, incr_commands, set_heartbeat, reset, incr, init_value,
  init_action, init, touch, init_counter,
}
use logstat.Store.Effects.{succeeded, Result-cases, total}

-- A call that is answered by a server that keeps answering.
abbrev pub Answered : {S A : Type 0} → (S → Type 0) → Reply A × S → Type 0
Answered up r = (is_ok r.0 ≡ true) × up r.1

-- The total of an action can be raised by n: the sum is no int64 that overflows.
abbrev pub HasRoom : (c : Client) → Books c → Store → Text → Int64 → c.Server → Type 0
HasRoom c d st a n s = total c d st s a + n < 2 ^ 63

-- There is room for the increment of each of these actions.
abbrev pub AllRoom : (c : Client) → Books c → Store → List Text → Dict Int64 → c.Server → Type 0
AllRoom c d st actions deltas s =
    (a : Text) → text_elem a actions ≡ true → HasRoom c d st a (get64 a deltas) s

-- up is a state of the server in which it answers the calls of this store, and which they leave: it is
-- reachable, and no counter key of the host holds anything but an integer. An increment is answered
-- where there is room for it, by the keys d.
pub record Available (c : Client) (d : Books c) (st : Store) (up : c.Server → Type 0) : Type 0 where
  pub set_zero :
      (a : Text) (s : c.Server)
      → up s
      → Answered up (c.set (counter_key st.host a) (codes "0") st.ttl s)
  pub set_value :
      (a v : Text) (s : c.Server) → up s → Answered up (c.set (heartbeat_key st.host a) v st.ttl s)
  pub create_zero :
      (a : Text) (s : c.Server)
      → up s
      → Answered up (c.set_nx (counter_key st.host a) (codes "0") st.ttl s)
  pub create_value :
      (a v : Text) (s : c.Server)
      → up s
      → Answered up (c.set_nx (heartbeat_key st.host a) v st.ttl s)
  -- A counter key that was just created, if it was not there, can be read.
  pub read_created :
      (a : Text) (s : c.Server)
      → up s
      → let s' = (c.set_nx (counter_key st.host a) (codes "0") st.ttl s).1 in
        Answered up (c.get_int64 (counter_key st.host a) s')
  pub raise :
      (a : Text) (n : Int64) (s : c.Server)
      → HasRoom c d st a n s
      → up s
      → Answered up (c.incr_by (counter_key st.host a) n s)
  pub raise_all :
      (a : Text) (n : Int64) (s : c.Server)
      → HasRoom c d st a n s
      → up s
      → let (x, s') = c.exec (incr_commands st a n) s in
        (x.error ≡ none) × (is_ok (x.result 0) ≡ true) × (is_ok (x.result 1) ≡ true) × up s'
  pub touch_all :
      (actions : List Text) (s : c.Server)
      → up s
      → let (x, s') = c.exec (touch_commands st actions) s in (x.error ≡ none) × up s'

-- An operation that succeeds and leaves the server up.
abbrev pub Works : {S A : Type 0} → (S → Type 0) → Result A × S → Type 0
Works up r = (succeeded r.0 ≡ true) × up r.1

module _ (c : Client) (d : Books c) (st : Store) (up : c.Server → Type 0)
    (av : Available c d st up) where
  open av use {
    set_zero, set_value, create_zero, create_value, read_created, raise, raise_all, touch_all,
  }

  pub set_heartbeat-Works :
      (a : Text) (n : Int64) (ts : Time) (s : c.Server)
      → up s
      → Works up (set_heartbeat c st a n ts s)
  unfolding set_heartbeat
  set_heartbeat-Works a n ts s h =
      ground (arith, h, set_value a (format_heartbeat st.host ts a n) s h)

  pub reset-Works : (a : Text) (ts : Time) (s : c.Server) → up s → Works up (reset c st a ts s)
  unfolding reset
  reset-Works a ts s h =
      let s' = (c.set (counter_key st.host a) (codes "0") st.ttl s).1 in
      let zero = set_zero a s h in ground (arith, zero, set_heartbeat-Works a 0 ts s' zero.1)

  pub incr-Works :
      (a : Text) (n : Int64) (s : c.Server)
      → HasRoom c d st a n s
      → up s
      → Works up (incr c st a n s)
  unfolding incr
  incr-Works a n s r h = ground (arith, raise a n s r h, raise_all a n s r h)

  pub touch-Works : (actions : List Text) (s : c.Server) → up s → Works up (touch c st actions s)
  unfolding touch
  touch-Works [] s h = (refl, h)
  touch-Works (a ∷ actions) s h = ground (arith, touch_all (a ∷ actions) s h)

  init_value-Works :
      (a : Text) (ts : Time) (s : c.Server)
      → Answered up (c.get_int64 (counter_key st.host a) s)
      → Works up (init_value c st a ts s)
  init_value-Works a ts s h =
      let s' = (c.get_int64 (counter_key st.host a) s).1 in
      elim (Result-cases (call (init_counter a) (c.get_int64 (counter_key st.host a)) s).0) [
        | inl (n, e) ↦ ground (arith, e, h, create_value a (format_heartbeat st.host ts a n) s' h.1)
        | inr (x, e) ↦ ground (arith, e, h)
      ]

  init_action-Works :
      (a : Text) (ts : Time) (s : c.Server) → up s → Works up (init_action c st a ts s)
  unfolding init_action
  init_action-Works a ts s h =
      let s' = (c.set_nx (counter_key st.host a) (codes "0") st.ttl s).1 in
      let created = create_zero a s h in
      ground (arith, created, init_value-Works a ts s' (read_created a s h))

  pub init-Works :
      (actions : List Text) (ts : Time) (s : c.Server) → up s → Works up (init c st actions ts s)
  unfolding init
  init-Works [] ts s h = (refl, h)
  init-Works (a ∷ actions) ts s h =
      let s1 = (init_action c st a ts s).1 in
      let first = init_action-Works a ts s h in
      ground (arith, first, init-Works actions ts s1 first.1)
