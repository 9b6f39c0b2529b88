-- ===== src/Store/Toy/Steady.antt =====
-- A small Redis that always answers: the client library at which the theorems about a Redis that
-- answers are tried.
use logstat.Prelude.{◌≡◌, refl, Bool, true, false, List, [], ◌∷◌, none, some, arith, Option}
use logstat.Text.{Text, codes, text_eq_iff}
use logstat.Text.Decimal.{show64, parse_int, parse_int-show64}
use logstat.Int64.{Int64, add64, add64-lt}
use logstat.Dict.{Dict, lookup, insert, lookup-insert}
use logstat.Store.Redis.{Client, is_ok, Books, Command, incr_by, expire, persist, number, IsLedger}
use logstat.Store.Keys.{counter_key, heartbeat_key, heartbeat_counter_ne}
use logstat.Store.Effects.{total}
use logstat.Store.{Store, touch_commands, incr_commands}
use logstat.Store.Effects.Init.{only_expiry, touch_commands_expiry}
use logstat.Store.Available.{Available, Answered}
use logstat.Store.Toy.{
  Toy, toy, raise, create, read_integer, toy_books, toy-IsLedger, run_result, run_keys, run_error,
}

-- The toy with one call left, before each call.
abbrev ready : Dict Text → Toy
ready m = record { keys = m; calls_left = 1 }

abbrev after : {A : Type 0} → A × Toy → A × Dict Text
after (r, s) = (r, s.keys)

abbrev pub steady : Client
steady = record {
  Server = Dict Text;
  set_nx = λ k v ttl m. after ((toy true).set_nx k v ttl (ready m));
  get_int64 = λ k m. after ((toy true).get_int64 k (ready m));
  set = λ k v ttl m. after ((toy true).set k v ttl (ready m));
  incr_by = λ k n m. after ((toy true).incr_by k n (ready m));
  exec = λ xs m. after ((toy true).exec xs (ready m));
  mget = λ ks m. after ((toy true).mget ks (ready m));
}

pub steady_books : Books steady
unfolding toy_books
steady_books =
    let d = toy_books true in
    record {
      held = λ m k. d.held (ready m) k;
      did_create = λ k v ttl m. d.did_create k v ttl (ready m);
      did_set = λ k v ttl m. d.did_set k v ttl (ready m);
      did_raise = λ k n m. d.did_raise k n (ready m);
      did_run = λ xs m. d.did_run xs (ready m);
      set_nx_held = λ k v ttl m j. d.set_nx_held k v ttl (ready m) j;
      get_int64_held = λ k m j. d.get_int64_held k (ready m) j;
      set_held = λ k v ttl m j. d.set_held k v ttl (ready m) j;
      set_done = λ k v ttl m e. d.set_done k v ttl (ready m) e;
      incr_by_held = λ k n m j. d.incr_by_held k n (ready m) j;
      exec_held = λ xs m j. d.exec_held xs (ready m) j;
    }

pub steady-IsLedger : IsLedger steady steady_books
unfolding steady_books
steady-IsLedger = record {
  raises = λ k n m. toy-IsLedger.raises k n (ready m);
  runs = λ k n ttl m. toy-IsLedger.runs k n ttl (ready m);
}

-- Without keys each total is zero.
pub empty_total : (st : Store) (a : Text) → total steady steady_books st [] a ≡ 0
unfolding total steady_books toy_books number lookup
empty_total st a = refl

-- A key that is not there, or holds an integer.
abbrev pub is_integer : Option Text → Bool
is_integer none = true
is_integer (some t) = elim (parse_int t) [ none ↦ false | some _ ↦ true ]

-- No counter key of the host holds anything but an integer.
abbrev pub Integers : Store → Dict Text → Type 0
Integers st m = (a : Text) → is_integer (lookup (counter_key st.host a) m) ≡ true

is_integer-zero : is_integer (some (codes "0")) ≡ true
unfolding parse_int
is_integer-zero = refl

is_integer-sum : (n m : Int64) → is_integer (some (show64 (add64 n m))) ≡ true
is_integer-sum n m = ground (arith, parse_int-show64 (add64 n m) (add64-lt n m))

insert_integer :
    (st : Store) (k v : Text) (m : Dict Text)
    → Integers st m
    → is_integer (some v) ≡ true
    → Integers st (insert k v m)
insert_integer st k v m h e a = ground (arith, h a, e, lookup-insert k (counter_key st.host a) v m)

insert_value :
    (st : Store) (a v : Text) (m : Dict Text)
    → Integers st m
    → Integers st (insert (heartbeat_key st.host a) v m)
insert_value st a v m h b = ground (
  arith,
  h b,
  lookup-insert (heartbeat_key st.host a) (counter_key st.host b) v m,
  heartbeat_counter_ne st.host a b,
)

raise_answers :
    (st : Store) (a : Text) (n : Int64) (m : Dict Text)
    → Integers st m
    → Answered (Integers st) (raise (counter_key st.host a) n m)
raise_answers st a n m h =
    let total = add64 (number (lookup (counter_key st.host a) m)) n in
    let key = counter_key st.host a in
    let raised : Integers st (insert key (show64 total) m) =
      insert_integer st key (show64 total) m h (is_integer-sum (number (lookup key m)) n) in
    (ground (arith, h a), λ b. ground (arith, h b, raised b))

expiry_answers :
    (commands : List Command) (m : Dict Text)
    → only_expiry commands ≡ true
    → (run_error true commands m ≡ none) × (run_keys true commands m ≡ m)
unfolding run_error run_keys
expiry_answers [] m h = (refl, refl)
expiry_answers (incr_by _ _ ∷ _) m h = cc
expiry_answers (expire _ _ ∷ commands) m h = expiry_answers commands m h
expiry_answers (persist _ ∷ commands) m h = expiry_answers commands m h

create_answers :
    (st : Store) (k v : Text) (m : Dict Text)
    → Integers st m
    → Integers st (insert k v m)
    → Answered (Integers st) (create k v m)
create_answers st k v m h f = (refl, λ b. ground (arith, h b, f b))

created_answers :
    (st : Store) (a : Text) (m : Dict Text)
    → Integers st m
    → let m' = (create (counter_key st.host a) (codes "0") m).1 in
      Answered (Integers st) (read_integer (counter_key st.host a) m')
created_answers st a m h =
    let key = counter_key st.host a in
    let zero = insert_integer st key (codes "0") m h is_integer-zero in
    let kept = create_answers st key (codes "0") m h zero in
    (
      ground (arith, h a, kept.1 a, lookup-insert key key (codes "0") m, text_eq_iff key key),
      kept.1,
    )

raise_all_answers :
    (st : Store) (a : Text) (n : Int64) (m : Dict Text)
    → Integers st m
    → let (x, m') = steady.exec (incr_commands st a n) m in
      (x.error ≡ none) × (is_ok (x.result 0) ≡ true) × (is_ok (x.result 1) ≡ true) × Integers st m'
unfolding run_error run_keys run_result
raise_all_answers st a n m h =
    let (answered, kept) = raise_answers st a n m h in
    (ground (arith, answered), answered, refl, kept)

-- It answers every call.
pub steady-Available : (st : Store) → Available steady steady_books st (Integers st)
steady-Available st = record {
  set_zero =
      λ a m h. (refl, insert_integer st (counter_key st.host a) (codes "0") m h is_integer-zero);
  set_value = λ a v m h. (refl, insert_value st a v m h);
  create_zero = λ a m h.
      create_answers st (counter_key st.host a) (codes "0") m h
        (insert_integer st (counter_key st.host a) (codes "0") m h is_integer-zero);
  create_value =
      λ a v m h. create_answers st (heartbeat_key st.host a) v m h (insert_value st a v m h);
  read_created = λ a m h. created_answers st a m h;
  raise = λ a n m r h. raise_answers st a n m h;
  raise_all = λ a n m r h. raise_all_answers st a n m h;
  touch_all = λ actions m h.
      let (e, k) =
        expiry_answers (touch_commands st actions) m (touch_commands_expiry st actions) in
      (e, λ a. rw k (h a));
}
