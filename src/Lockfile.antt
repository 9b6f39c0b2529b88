-- ===== src/Lockfile.antt =====
-- internal/lockfile/lockfile.go: the lock against a second instance.
--
-- The operating system is the parameter os, and dir_of is filepath.Dir. Each call of the system is
-- one step, so that a process takes its turns between the calls of another one only where Lockfile/
-- Exclusive says so.
pub mod Effects
pub mod Exclusive
pub mod Toy
pub mod Tests
use logstat.Prelude.{◌≡◌, Bool, true, false, List, [], ◌∷◌, ◌++◌, Option, none, some, if◌then◌else◌}
use logstat.Text.{Text}
use logstat.Text.Decimal.{show64}
use logstat.Os.{OsError, would_block, other_error, Opened, file, failed, Os, is_nil}

-- The errors of Acquire: what failed, and ErrLocked.
pub data LockError : Type 0 where
  mkdir_failed open_failed flock_failed : OsError → LockError
  locked : LockError

module _ (os : Os) where
  -- Lock; Release leaves it without a file.
  pub record Lock : Type 0 where
    pub path : Text
    pub held : Option os.File

  pub data Acquired : Type 0 where
    acquired : Lock → Acquired
    refused : LockError → Acquired

-- fmt.Errorf around an error of Flock, with errors.Is(err, syscall.EWOULDBLOCK).
abbrev pub flock_error : OsError → LockError
flock_error would_block = locked
flock_error other_error = LockError.flock_failed other_error

module _ (os : Os) (dir_of : Text → Text) where
  -- What Acquire does with a file that is locked: the process number becomes its content.
  unfoldable pub write_pid : os.File → os.State → os.State
  write_pid f s =
      let (err, s1) = os.truncate f s in
      if is_nil err then (os.write_at f (show64 os.pid ++ (b'\n' ∷ [])) s1).1 else s1

  -- Acquire behind the opening of the file.
  unfoldable pub lock_file : Text → os.File → os.State → Acquired os × os.State
  unfolding write_pid
  lock_file path f s =
      let (err, s1) = os.flock f s in
      elim err [
        | some e ↦ (refused (flock_error e), (os.close f s1).1)
        | none ↦ (acquired (record { path = path; held = some f }), write_pid f s1)
      ]

  -- Acquire
  unfoldable pub acquire : Text → os.State → Acquired os × os.State
  acquire path s =
      let (err, s1) = os.mkdir_all (dir_of path) s in
      elim err [
        | some e ↦ (refused (mkdir_failed e), s1)
        | none ↦
            (let (opened, s2) = os.open_shared path s1 in
              elim opened [
                | failed e ↦ (refused (open_failed e), s2)
                | file f ↦ lock_file path f s2
              ])
      ]

  -- Lock.Release: its error, and the lock that it leaves.
  unfoldable pub release : Lock os → os.State → (Option OsError × Lock os) × os.State
  release l s = elim l.held [
    | none ↦ ((none, l), s)
    | some f ↦
        (let (err, s1) = os.unlock f s in
          let (cerr, s2) = os.close f s1 in
          ((if is_nil err then cerr else err, record l { held = none }), s2))
  ]
