-- ===== src/Store/Effects.antt =====
-- What each operation of the store leaves in the books on a Redis, as the totals:
-- the integers under the counter keys of a host.
pub mod Incr
pub mod Init
use logstat.Prelude.{
  ℕ, suc, ◌<◌, ◌^◌, ◌≡◌, refl, ◌∙◌, ◌⊎◌, inl, inr, Bool, true, false, ◌&&◌, List, [], ◌∷◌, ◌++◌,
  map, Option, none, some, arith, if◌then◌else◌, Bool-cases, Option-cases,
}
use logstat.Text.{Text, codes, text_eq, text_eq_iff}
use logstat.Text.Decimal.{parse_int, show64, parse_int-show64, parse_int-lt}
use logstat.Int64.{Int64, add64, add64-lt, is_positive}
use logstat.Store.Redis.{
  ClientError, Reply, is_ok, Command, incr_by, expire, persist, Client, number, raised,
  carry_out_all, Books,
}
use logstat.Store.Keys.{
  Time, counter_key, heartbeat_key, format_heartbeat, counter_keys_eq, heartbeat_counter_ne,
}
use logstat.Store.{
  Error, Result, done, err, Action, wrap, call, Store, keys, touch_command, touch_commands,
  set_heartbeat, reset, incr, incr_result, incr_commands, init_action, init, touch, init_value,
  incrby_step, init_counter, init_heartbeat, pure, ◌>>=◌,
}

pub number-show64 : (n : Int64) → n < 2 ^ 64 → number (some (show64 n)) ≡ n
unfolding number
number-show64 n h = rw (parse_int-show64 n h, number)

pub number-raised :
    (held : Option Text) (n : Int64) → number (raised held n) ≡ add64 (number held) n
unfolding raised
number-raised held n = number-show64 (add64 (number held) n) (add64-lt (number held) n)

pub number-zero : number (some (codes "0")) ≡ 0
unfolding number parse_int
number-zero = refl

number-lt : (held : Option Text) → number held < 2 ^ 64
unfolding number
number-lt none = omega arith
number-lt (some t) = elim (Option-cases (parse_int t)) [
  | inl e ↦ rw (number, e) (omega arith)
  | inr (n, e) ↦ rw (number, e) (parse_int-lt t n e)
]

pub number-if :
    (b : Bool) (x y : Option Text)
    → number (if b then x else y) ≡ (if b then number x else number y)
number-if true x y = refl
number-if false x y = refl

pub number-created :
    (held : Option Text)
    → number (elim held [ none ↦ some (codes "0") | some w ↦ some w ]) ≡ number held
number-created none = number-zero ∙ (unfold number in refl)
number-created (some w) = refl

abbrev pub succeeded : {A : Type 0} → Result A → Bool
succeeded (done _) = true
succeeded (err _) = false

pub Result-cases :
    {A : Type 0} (r : Result A) → ((a : A) × (r ≡ done a)) ⊎ ((e : Error) × (r ≡ err e))
Result-cases (done a) = inl (a, refl)
Result-cases (err e) = inr (e, refl)

module _ (c : Client) (d : Books c) (st : Store) where
  open d use {held, set_held, did_set, set_done}

  -- The integer under the counter key of an action.
  unfoldable pub total : c.Server → Text → Int64
  total s a = number (held s (counter_key st.host a))

  pub total-lt : (s : c.Server) (a : Text) → total s a < 2 ^ 64
  unfolding total
  total-lt s a = number-lt (held s (counter_key st.host a))

  -- A write under a heartbeat key leaves every total.
  total-set_other :
      (a v : Text) (s : c.Server) (b : Text)
      → total (c.set (heartbeat_key st.host a) v st.ttl s).1 b ≡ total s b
  unfolding total
  total-set_other a v s b =
      rw
        (
          set_held (heartbeat_key st.host a) v st.ttl s (counter_key st.host b),
          heartbeat_counter_ne st.host a b,
        )
        (ground arith)

  pub total-set_heartbeat :
      (a : Text) (n : Int64) (ts : Time) (s : c.Server) (b : Text)
      → total (set_heartbeat c st a n ts s).1 b ≡ total s b
  unfolding set_heartbeat
  total-set_heartbeat a n ts s b =
      ground (arith, total-set_other a (format_heartbeat st.host ts a n) s b)

  -- The write of a zero under a counter key.
  total-set_zero :
      (a : Text) (s : c.Server) (b : Text)
      → let written = c.set (counter_key st.host a) (codes "0") st.ttl s in
        total written.1 b ≡ (
          if did_set (counter_key st.host a) (codes "0") st.ttl s && text_eq a b
          then 0
          else total s b)
  unfolding total
  total-set_zero a s b = rw (
    set_held (counter_key st.host a) (codes "0") st.ttl s (counter_key st.host b),
    number-if,
    counter_keys_eq st.host a b,
    number-zero,
  )

  -- A reset whose first write is entered puts its own total to zero; it touches no other, and
  -- without that write it fails and touches none.
  pub total-reset :
      (a : Text) (ts : Time) (s : c.Server) (b : Text)
      → let written = did_set (counter_key st.host a) (codes "0") st.ttl s in
        let (r, s') = reset c st a ts s in
        (total s' b ≡ (if written && text_eq a b then 0 else total s b))
        × (succeeded r ≡ true → written ≡ true)
  unfolding reset
  total-reset a ts s b = ground (
    arith,
    total-set_zero a s b,
    set_done (counter_key st.host a) (codes "0") st.ttl s,
    total-set_heartbeat a 0 ts (c.set (counter_key st.host a) (codes "0") st.ttl s).1 b,
  )
