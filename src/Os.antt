-- ===== src/Os.antt =====
-- What the program uses of the operating system's files: a parameter of the model.
--
-- A call returns its error, or none for nil, and the state that it leaves. A File is one open file
-- description.
use logstat.Prelude.{
  refl, inl, inr, ◌≡◌, ◌↔◌, ◌⊎◌, Bool, true, false, not, ◌&&◌, ◌||◌, Option, none, some,
  if◌then◌else◌,
}
use logstat.Text.{Text, text_eq}
use logstat.Int64.{Int64}

-- What the program asks of an error: it is syscall.EWOULDBLOCK, or not.
pub data OsError : Type 0 where
  would_block other_error : OsError

pub data Opened (F : Type 0) : Type 0 where
  file : F → Opened F
  failed : OsError → Opened F

pub Opened-cases :
    {F : Type 0} (o : Opened F) → ((f : F) × (o ≡ file f)) ⊎ ((e : OsError) × (o ≡ failed e))
Opened-cases (file f) = inl (f, refl)
Opened-cases (failed e) = inr (e, refl)

pub record Os : Type 1 where
  pub State : Type 0
  pub File : Type 0
  -- os.MkdirAll(dir, 0o755)
  pub mkdir_all : Text → State → Option OsError × State
  -- os.OpenFile(path, O_CREATE|O_RDWR, 0o644), and with O_CREATE|O_WRONLY|O_APPEND
  pub open_shared : Text → State → Opened File × State
  pub open_append : Text → State → Opened File × State
  -- f.Close()
  pub close : File → State → Option OsError × State
  -- syscall.Flock with LOCK_EX|LOCK_NB, and with LOCK_UN
  pub flock : File → State → Option OsError × State
  pub unlock : File → State → Option OsError × State
  -- f.Truncate(0), f.WriteAt(data, 0) and f.Write(data)
  pub truncate : File → State → Option OsError × State
  pub write_at : File → Text → State → Option OsError × State
  pub write : File → Text → State → Option OsError × State
  -- os.Stderr
  pub stderr : File
  -- os.Getpid()
  pub pid : Int64

-- err == nil
abbrev pub is_nil : Option OsError → Bool
is_nil none = true
is_nil (some _) = false

-- Whether the option is this file.
abbrev pub is_file : {F : Type 0} → (F → F → Bool) → Option F → F → Bool
is_file eq none g = false
is_file eq (some f) g = eq f g

-- The files that are open, as the manual has them: a file that is opened is new, and a file that is
-- closed is closed also where Close reports an error.
pub record FilesDocumented (os : Os) : Type 0 where
  pub file_eq : os.File → os.File → Bool
  pub file_eq_iff : (f g : os.File) → (file_eq f g ≡ true) ↔ (f ≡ g)
  pub is_open : os.State → os.File → Bool
  pub mkdir_open :
      (dir : Text) (s : os.State) (g : os.File) → is_open (os.mkdir_all dir s).1 g ≡ is_open s g
  pub open_shared_ok :
      (path : Text) (s : os.State) (f : os.File)
      → (os.open_shared path s).0 ≡ file f
      → (is_open s f ≡ false)
        × ((g : os.File) → is_open (os.open_shared path s).1 g ≡ (file_eq f g || is_open s g))
  pub open_shared_failed :
      (path : Text) (s : os.State) (e : OsError) (g : os.File)
      → (os.open_shared path s).0 ≡ failed e
      → is_open (os.open_shared path s).1 g ≡ is_open s g
  pub open_append_ok :
      (path : Text) (s : os.State) (f : os.File)
      → (os.open_append path s).0 ≡ file f
      → (is_open s f ≡ false)
        × ((g : os.File) → is_open (os.open_append path s).1 g ≡ (file_eq f g || is_open s g))
  pub open_append_failed :
      (path : Text) (s : os.State) (e : OsError) (g : os.File)
      → (os.open_append path s).0 ≡ failed e
      → is_open (os.open_append path s).1 g ≡ is_open s g
  pub close_open :
      (f : os.File) (s : os.State) (g : os.File)
      → is_open (os.close f s).1 g ≡ (not (file_eq f g) && is_open s g)
  pub flock_open :
      (f : os.File) (s : os.State) (g : os.File) → is_open (os.flock f s).1 g ≡ is_open s g
  pub unlock_open :
      (f : os.File) (s : os.State) (g : os.File) → is_open (os.unlock f s).1 g ≡ is_open s g
  pub truncate_open :
      (f : os.File) (s : os.State) (g : os.File) → is_open (os.truncate f s).1 g ≡ is_open s g
  pub write_at_open :
      (f : os.File) (t : Text) (s : os.State) (g : os.File)
      → is_open (os.write_at f t s).1 g ≡ is_open s g
  pub write_open :
      (f : os.File) (t : Text) (s : os.State) (g : os.File)
      → is_open (os.write f t s).1 g ≡ is_open s g

-- flock(2) on files that are not renamed or removed: a lock belongs to an open file, is refused with
-- EWOULDBLOCK while another file has it, and ends with LOCK_UN or with the close of the file.
pub record LocksDocumented (os : Os) (files : FilesDocumented os) : Type 0 where
  pub path_of : os.File → Text
  pub holder : os.State → Text → Option os.File
  pub open_path :
      (path : Text) (s : os.State) (f : os.File)
      → (os.open_shared path s).0 ≡ file f
      → path_of f ≡ path
  pub mkdir_holder :
      (dir : Text) (s : os.State) (q : Text) → holder (os.mkdir_all dir s).1 q ≡ holder s q
  pub open_holder :
      (path : Text) (s : os.State) (q : Text) → holder (os.open_shared path s).1 q ≡ holder s q
  pub truncate_holder :
      (f : os.File) (s : os.State) (q : Text) → holder (os.truncate f s).1 q ≡ holder s q
  pub write_at_holder :
      (f : os.File) (t : Text) (s : os.State) (q : Text)
      → holder (os.write_at f t s).1 q ≡ holder s q
  pub flock_ok :
      (f : os.File) (s : os.State)
      → (os.flock f s).0 ≡ none
      → (q : Text)
      → holder (os.flock f s).1 q ≡ (if text_eq (path_of f) q then some f else holder s q)
  pub flock_failed :
      (f : os.File) (s : os.State) (e : OsError)
      → (os.flock f s).0 ≡ some e
      → (q : Text) → holder (os.flock f s).1 q ≡ holder s q
  pub flock_busy :
      (f g : os.File) (s : os.State)
      → holder s (path_of f) ≡ some g
      → files.file_eq g f ≡ false
      → (os.flock f s).0 ≡ some would_block
  pub unlock_holder :
      (f : os.File) (s : os.State) (q : Text)
      → holder (os.unlock f s).1 q ≡ (
          if is_nil (os.unlock f s).0 && is_file files.file_eq (holder s q) f
          then none
          else holder s q)
  pub close_holder :
      (f : os.File) (s : os.State) (q : Text)
      → holder (os.close f s).1 q
        ≡ (if is_file files.file_eq (holder s q) f then none else holder s q)
  -- A lock is held by a file that is open.
  pub holder_open :
      (s : os.State) (q : Text) (f : os.File) → holder s q ≡ some f → files.is_open s f ≡ true
