-- ===== src/Lockfile/Tests.antt =====
-- The lock on a toy system.
use logstat.Prelude.{◌≡◌, ◌⊎◌, refl, List, [], ◌∷◌, some, arith}
use logstat.Text.{Text, codes, text_eq}
use logstat.Dict.{lookup}
use logstat.Lockfile.{LockError, locked, acquired, refused, lock_file, acquire}
use logstat.Lockfile.Effects.{Untouched, Taken, acquire_result}
use logstat.Lockfile.Exclusive.{Call, acquires, Locked, calls, IsExclusive, calls-IsExclusive}
use logstat.Lockfile.Toy.{
  ToyFile, toy_os, toy_files, toy_locks, new_state, toy_open, toy_flock, toy_close, toy_eq,
}

abbrev dir : Text → Text
dir t = t

abbrev lock_path : Text
lock_path = codes "logstat.lock"

abbrev start : Locked toy_os
start = record { state = new_state; live = [] }

start-IsExclusive : IsExclusive toy_os dir toy_files toy_locks start
unfolding lookup
start-IsExclusive = record { live_IsMap = tt; is_held = λ path f e. ground (arith, e) }

abbrev two_calls : List Call
two_calls = acquires lock_path ∷ acquires lock_path ∷ []

-- A second process is refused, and after a Release the lock is free again.
second_refused :
    let (_, s) = acquire toy_os dir lock_path new_state in
    (acquire toy_os dir lock_path s).0 ≡ refused locked
unfolding acquire lock_file new_state toy_open toy_flock toy_close toy_eq text_eq
second_refused = refl

acquire_result_example :
    let (r, s') = acquire toy_os dir lock_path new_state in
    ((f : ToyFile) × (r ≡ acquired (record { path = lock_path; held = some f }))
      × Taken toy_os dir toy_files toy_locks lock_path f new_state s')
    ⊎ ((e : LockError) × (r ≡ refused e) × Untouched toy_os dir toy_files toy_locks new_state s')
acquire_result_example = acquire_result toy_os dir toy_files toy_locks lock_path new_state

calls-IsExclusive_example :
    IsExclusive toy_os dir toy_files toy_locks (calls toy_os dir two_calls start)
calls-IsExclusive_example =
    calls-IsExclusive toy_os dir toy_files toy_locks two_calls start start-IsExclusive
