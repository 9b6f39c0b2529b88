-- ===== src/Store/Redis.antt =====
-- What the program uses of go-redis and of the Redis server behind it: a parameter of the model.
--
-- A call returns its reply and the server that it leaves. A context's deadline shows as a failed
-- reply, so contexts are no arguments here.
use logstat.Prelude.{
  ℕ, suc, ◌≡◌, Bool, true, false, ◌&&◌, List, [], ◌∷◌, Option, none, some, if◌then◌else◌,
}
use logstat.Text.{Text, text_eq}
use logstat.Text.Decimal.{show64, parse_int}
use logstat.Int64.{Int64, add64}

-- What the program asks of an error: the server replied with it (redis.Error), it is
-- context.Canceled, or neither.
pub data ClientError : Type 0 where
  reply canceled other : ClientError

pub data Reply (A : Type 0) : Type 0 where
  ok : A → Reply A
  failed : ClientError → Reply A

abbrev pub is_ok : {A : Type 0} → Reply A → Bool
is_ok (ok _) = true
is_ok (failed _) = false

-- A command that is queued in a pipeline.
pub data Command : Type 0 where
  incr_by : Text → Int64 → Command
  expire : Text → Int64 → Command
  persist : Text → Command

-- What Pipeline.Exec leaves: its error, and the result of the command at each index.
pub record Executed : Type 0 where
  pub error : Option ClientError
  pub result : ℕ → Reply Int64

-- One value of MGET: no key, a string, or another type.
pub data Value : Type 0 where
  nil : Value
  text : Text → Value
  foreign : Value

pub record Client : Type 1 where
  pub Server : Type 0
  -- SetNX(key, value, ttl)
  pub set_nx : Text → Text → Int64 → Server → Reply Unit × Server
  -- Get(key).Int64(): a missing key and a value that is no integer are failures.
  pub get_int64 : Text → Server → Reply Int64 × Server
  -- Set(key, value, ttl)
  pub set : Text → Text → Int64 → Server → Reply Unit × Server
  -- IncrBy(key, n).Result()
  pub incr_by : Text → Int64 → Server → Reply Int64 × Server
  -- Pipeline().Exec() of the queued commands
  pub exec : List Command → Server → Executed × Server
  -- MGet(keys).Result()
  pub mget : List Text → Server → Reply (List Value) × Server

-- The integer that a key holds, 0 for none.
unfoldable pub number : Option Text → Int64
number none = 0
number (some t) = elim (parse_int t) [ none ↦ 0 | some n ↦ n ]

-- What INCRBY leaves under a key.
unfoldable pub raised : Option Text → Int64 → Option Text
raised held n = some (show64 (add64 (number held) n))

-- What a queued command leaves under the keys, and whether it is carried out.
abbrev pub carry_out : Command → Bool → (Text → Option Text) → Text → Option Text
carry_out (incr_by k n) did held j = if did && text_eq k j then raised (held k) n else held j
carry_out (expire _ _) _ held j = held j
carry_out (persist _) _ held j = held j

-- The commands of a pipeline are carried out in order; the first has index i.
abbrev pub carry_out_all : ℕ → List Command → (ℕ → Bool) → (Text → Option Text) → Text → Option Text
carry_out_all i [] did held = held
carry_out_all i (command ∷ commands) did held =
    carry_out_all (suc i) commands did (carry_out command (did i) held)

-- Books on a server: the string under a key by the writes that the books enter. A write that is
-- answered is entered where a SET is concerned; else each call may be entered or not, also one that
-- fails. So the keys of a Redis that expires none meanwhile are books of it, whichever of the failed
-- calls it has carried out; and a ledger of the answered writes alone is one for every Redis.
pub record Books (c : Client) : Type 0 where
  pub held : c.Server → Text → Option Text
  pub did_create : Text → Text → Int64 → c.Server → Bool
  pub did_set : Text → Text → Int64 → c.Server → Bool
  pub did_raise : Text → Int64 → c.Server → Bool
  pub did_run : List Command → c.Server → ℕ → Bool
  pub set_nx_held :
      (k v : Text) (ttl : Int64) (s : c.Server) (j : Text)
      → held (c.set_nx k v ttl s).1 j ≡ (
          if did_create k v ttl s && text_eq k j
          then elim (held s k) [ none ↦ some v | some w ↦ some w ]
          else held s j)
  pub get_int64_held : (k : Text) (s : c.Server) (j : Text) → held (c.get_int64 k s).1 j ≡ held s j
  pub set_held :
      (k v : Text) (ttl : Int64) (s : c.Server) (j : Text)
      → held (c.set k v ttl s).1 j ≡ (if did_set k v ttl s && text_eq k j then some v else held s j)
  pub set_done :
      (k v : Text) (ttl : Int64) (s : c.Server)
      → is_ok (c.set k v ttl s).0 ≡ true
      → did_set k v ttl s ≡ true
  pub incr_by_held :
      (k : Text) (n : Int64) (s : c.Server) (j : Text)
      → held (c.incr_by k n s).1 j
        ≡ (if did_raise k n s && text_eq k j then raised (held s k) n else held s j)
  pub exec_held :
      (commands : List Command) (s : c.Server) (j : Text)
      → held (c.exec commands s).1 j ≡ carry_out_all 0 commands (did_run commands s) (held s) j

-- Whether the pipeline of Incr is answered as a whole: no error, and a result for both commands.
abbrev pub answered : Executed → Bool
answered x = elim x.error [ none ↦ is_ok (x.result 0) && is_ok (x.result 1) | some _ ↦ false ]

-- Books that enter an increment exactly if it is answered: a ledger. Every client has one
-- (Store/Ledger).
pub record IsLedger (c : Client) (d : Books c) : Type 0 where
  pub raises : (k : Text) (n : Int64) (s : c.Server) → d.did_raise k n s ≡ is_ok (c.incr_by k n s).0
  pub runs :
      (k : Text) (n ttl : Int64) (s : c.Server)
      → let commands = incr_by k n ∷ expire k ttl ∷ [] in
        d.did_run commands s 0 ≡ answered (c.exec commands s).0

-- What the documentation of Redis says of the keys themselves: GET finds what is there, and a command
-- of a pipeline that has a result is carried out.
pub record Documented (c : Client) (d : Books c) : Type 0 where
  pub get_int64_value :
      (k : Text) (s : c.Server) (n : Int64)
      → (c.get_int64 k s).0 ≡ ok n
      → (t : Text) × (d.held s k ≡ some t) × (parse_int t ≡ some n)
  pub exec_done :
      (commands : List Command) (s : c.Server) (i : ℕ)
      → is_ok ((c.exec commands s).0.result i) ≡ true
      → d.did_run commands s i ≡ true
