-- ===== src/Store/Toy.antt =====
-- A small Redis that wraps around on overflow and becomes unreachable after a number of calls: the
-- client library at which the theorems are tried.
pub mod Steady
use mathlib.Core.Path.{fun_ext}
use logstat.Prelude.{
  ℕ, zero, suc, ◌<◌, ◌≡◌, refl, sym, ap, ◌∙◌, Bool, true, false, ◌&&◌, List, [], ◌∷◌, map, Option,
  none, some, arith, length, if◌then◌else◌,
}
use logstat.Text.{Text, text_eq, text_eq_iff}
use logstat.Text.Decimal.{show64, parse_int}
use logstat.Int64.{Int64, add64}
use logstat.Dict.{Dict, lookup, insert, lookup-insert}
use logstat.Store.Redis.{
  ClientError, reply, other, Reply, ok, failed, is_ok, Command, incr_by, expire, persist, Executed,
  Value, nil, text, Client, number, raised, carry_out, carry_out_all, Books, IsLedger, Documented,
}

pub record Toy : Type 0 where
  pub keys : Dict Text
  pub calls_left : ℕ

-- A call that needs the server: its reply and what it makes of the keys.
abbrev reach : {A : Type 0} → (Dict Text → Reply A × Dict Text) → Toy → Reply A × Toy
reach f s = elim s.calls_left [
  | zero ↦ (failed other, s)
  | suc n ↦ let (r, m) = f s.keys in (r, record { keys = m; calls_left = n })
]

abbrev pub create : Text → Text → Dict Text → Reply Unit × Dict Text
create k v m = (ok tt, elim (lookup k m) [ none ↦ insert k v m | some _ ↦ m ])

abbrev pub read_integer : Text → Dict Text → Reply Int64 × Dict Text
read_integer k m = (
  elim (lookup k m) [
    | none ↦ failed other
    | some t ↦ elim (parse_int t) [ none ↦ failed other | some n ↦ ok n ]
  ],
  m,
)

abbrev pub raise : Text → Int64 → Dict Text → Reply Int64 × Dict Text
raise k n m =
    let total = add64 (number (lookup k m)) n in
    elim (lookup k m) [
      | none ↦ (ok total, insert k (show64 total) m)
      | some t ↦ elim (parse_int t) [
        | none ↦ (failed reply, m)
        | some _ ↦ (ok total, insert k (show64 total) m)
      ]
    ]

abbrev show_value : Option Text → Value
show_value none = nil
show_value (some t) = text t

-- expires is whether the server accepts EXPIRE.
abbrev pub run_one : Bool → Command → Dict Text → Reply Int64 × Dict Text
run_one expires (incr_by k n) m = raise k n m
run_one expires (expire _ _) m = (if expires then ok 1 else failed other, m)
run_one expires (persist _) m = (ok 1, m)

unfoldable pub run_result : Bool → List Command → Dict Text → ℕ → Reply Int64
run_result expires [] m i = failed other
run_result expires (x ∷ xs) m zero = (run_one expires x m).0
run_result expires (x ∷ xs) m (suc i) = run_result expires xs (run_one expires x m).1 i

unfoldable pub run_keys : Bool → List Command → Dict Text → Dict Text
run_keys expires [] m = m
run_keys expires (x ∷ xs) m = run_keys expires xs (run_one expires x m).1

-- The error of the first command that fails.
unfoldable pub run_error : Bool → List Command → Dict Text → Option ClientError
run_error expires [] m = none
run_error expires (x ∷ xs) m =
    let rest = run_error expires xs (run_one expires x m).1 in
    elim (run_one expires x m).0 [ failed e ↦ some e | ok _ ↦ rest ]

abbrev run : Bool → List Command → Toy → Executed × Toy
run expires xs s = elim s.calls_left [
  | zero ↦ (record { error = some other; result = λ _. failed other }, s)
  | suc n ↦ (
    record { error = run_error expires xs s.keys; result = run_result expires xs s.keys },
    record { keys = run_keys expires xs s.keys; calls_left = n },
  )
]

abbrev pub toy : Bool → Client
toy expires = record {
  Server = Toy;
  set_nx = λ k v _ s. reach (create k v) s;
  get_int64 = λ k s. reach (read_integer k) s;
  set = λ k v _ s. reach (λ m. (ok tt, insert k v m)) s;
  incr_by = λ k n s. reach (raise k n) s;
  exec = λ xs s. run expires xs s;
  mget = λ ks s. reach (λ m. (ok (map (λ k. show_value (lookup k m)) ks), m)) s;
}

pub run_one_held :
    (expires : Bool) (x : Command) (m : Dict Text) (j : Text)
    → lookup j (run_one expires x m).1
      ≡ carry_out x (is_ok (run_one expires x m).0) (λ k. lookup k m) j
unfolding raised
run_one_held expires (incr_by k n) m j =
    ground (arith, lookup-insert k j (show64 (add64 (number (lookup k m)) n)) m)
run_one_held expires (expire _ _) m j = refl
run_one_held expires (persist _) m j = refl

carry_out_later :
    (i : ℕ) (xs : List Command) (did : ℕ → Bool) (held : Text → Option Text) (j : Text)
    → carry_out_all (suc i) xs did held j ≡ carry_out_all i xs (λ k. did (suc k)) held j
carry_out_later i [] did held j = refl
carry_out_later i (x ∷ xs) did held j =
    carry_out_later (suc i) xs did (carry_out x (did (suc i)) held) j

-- The commands of a pipeline that have a result.
abbrev pub answers : (ℕ → Reply Int64) → ℕ → Bool
answers result i = is_ok (result i)

run_held :
    (expires : Bool) (xs : List Command) (m : Dict Text) (j : Text)
    → lookup j (run_keys expires xs m)
      ≡ carry_out_all 0 xs (answers (run_result expires xs m)) (λ k. lookup k m) j
unfolding run_keys run_result
run_held expires [] m j = refl
run_held expires (x ∷ xs) m j =
    let later = answers (run_result expires xs (run_one expires x m).1) in
    run_held expires xs (run_one expires x m).1 j
    ∙ ap (λ held. carry_out_all 0 xs later held j) (fun_ext (run_one_held expires x m))
    ∙ sym (
        carry_out_later 0 xs (answers (run_result expires (x ∷ xs) m))
          (carry_out x (is_ok (run_one expires x m).0) (λ k. lookup k m)) j)

pub create_held :
    (k v : Text) (m : Dict Text) (j : Text)
    → lookup j (create k v m).1
      ≡ (if text_eq k j then elim (lookup k m) [ none ↦ some v | some w ↦ some w ] else lookup j m)
create_held k v m j = ground (arith, lookup-insert k j v m, text_eq_iff k j)

pub raise_held :
    (k : Text) (n : Int64) (m : Dict Text) (j : Text)
    → lookup j (raise k n m).1
      ≡ (if is_ok (raise k n m).0 && text_eq k j then raised (lookup k m) n else lookup j m)
unfolding raised
raise_held k n m j = ground (arith, lookup-insert k j (show64 (add64 (number (lookup k m)) n)) m)

carry_out_refused :
    (i : ℕ) (xs : List Command) (held : Text → Option Text) (j : Text)
    → carry_out_all i xs (λ _. false) held j ≡ held j
carry_out_refused i [] held j = refl
carry_out_refused i (incr_by _ _ ∷ xs) held j = carry_out_refused (suc i) xs held j
carry_out_refused i (expire _ _ ∷ xs) held j = carry_out_refused (suc i) xs held j
carry_out_refused i (persist _ ∷ xs) held j = carry_out_refused (suc i) xs held j

pub exec_held :
    (expires : Bool) (xs : List Command) (m : Dict Text) (left : ℕ) (j : Text)
    → let (x, s') = run expires xs (record { keys = m; calls_left = left }) in
      lookup j s'.keys ≡ carry_out_all 0 xs (answers x.result) (λ k. lookup k m) j
exec_held expires xs m zero j = sym (carry_out_refused 0 xs (λ k. lookup k m) j)
exec_held expires xs m (suc _) j = run_held expires xs m j

-- The keys of the toy are books of it, in which the calls that are answered are entered.
pub toy_books : (expires : Bool) → Books (toy expires)
toy_books expires = record {
  held = λ s k. lookup k s.keys;
  did_create = λ k v ttl s. is_ok ((toy expires).set_nx k v ttl s).0;
  did_set = λ k v ttl s. is_ok ((toy expires).set k v ttl s).0;
  did_raise = λ k n s. is_ok ((toy expires).incr_by k n s).0;
  did_run = λ xs s. answers ((toy expires).exec xs s).0.result;
  set_nx_held = λ k v _ s j. ground (arith, create_held k v s.keys j);
  get_int64_held = λ k s j. ground arith;
  set_held = λ k v _ s j. ground (arith, lookup-insert k j v s.keys);
  set_done = λ k v ttl s e. e;
  incr_by_held = λ k n s j. ground (arith, raise_held k n s.keys j);
  exec_held = λ xs s j. exec_held expires xs s.keys s.calls_left j;
}

-- The toy keeps to the documentation.
pub toy-Documented : (expires : Bool) → Documented (toy expires) (toy_books expires)
unfolding toy_books
toy-Documented expires = record {
  get_int64_value = λ k s n h. ground arith;
  exec_done = λ xs s i e. e;
}

-- Where it accepts EXPIRE, its keys are a ledger.
pub toy-IsLedger : IsLedger (toy true) (toy_books true)
unfolding toy_books run_result run_error
toy-IsLedger = record { raises = λ k n s. refl; runs = λ k n ttl s. ground arith }

pub toy_held :
    (expires : Bool) (s : Toy) (k : Text) → (toy_books expires).held s k ≡ lookup k s.keys
unfolding toy_books
toy_held expires s k = refl
