-- ===== src/Lockfile/Toy.antt =====
-- A system of files and locks that keeps to the manual, for the witnesses.
use logstat.Prelude.{
  ℕ, suc, ◌≡◌, ◌↔◌, refl, sym, inl, inr, Bool, true, false, not, ◌&&◌, ◌||◌, ◌==◌, Option, none,
  some, arith, Bool-cases, if◌then◌else◌,
}
use logstat.Text.{Text, codes, text_eq, text_eq_iff, text_eq_refl}
use logstat.Os.{
  OsError, would_block, other_error, Opened, file, failed, Os, is_file, FilesDocumented,
  LocksDocumented,
}

-- An open file: its path, and its number.
pub record ToyFile : Type 0 where
  pub path : Text
  pub number : ℕ

unfoldable pub toy_eq : ToyFile → ToyFile → Bool
toy_eq f g = text_eq f.path g.path && (f.number == g.number)

pub toy_eq_iff : (f g : ToyFile) → (toy_eq f g ≡ true) ↔ (f ≡ g)
unfolding toy_eq
toy_eq_iff f g = (
  λ e.
      let p : f.path ≡ g.path = ground (arith, e, text_eq_iff f.path g.path) in
      let n : f.number ≡ g.number = ground (arith, e) in λ i. record { path = p i; number = n i },
  λ e. rw e (rw (text_eq_refl g.path) (ground arith)),
)

pub record ToyState : Type 0 where
  pub opened : ToyFile → Bool
  pub holding : Text → Option ToyFile
  pub next : ℕ
  pub held_open : (q : Text) (f : ToyFile) → holding q ≡ some f → opened f ≡ true

abbrev with_file : ToyFile → (ToyFile → Bool) → ToyFile → Bool
with_file f opened g = toy_eq f g || opened g

abbrev without : ToyFile → Option ToyFile → Option ToyFile
without f h = if is_file toy_eq h f then none else h

pub without_keeps :
    (f g : ToyFile) (h : Option ToyFile)
    → without f h ≡ some g
    → (h ≡ some g) × (toy_eq f g ≡ false)
without_keeps f g none e = ground (arith, e)
without_keeps f g (some x) e = ground (arith, e, toy_eq_iff x f, toy_eq_iff f g)

pub opened_held :
    (f : ToyFile) (s : ToyState) (q : Text) (g : ToyFile)
    → s.holding q ≡ some g
    → with_file f s.opened g ≡ true
opened_held f s q g e = ground (arith, s.held_open q g e)

pub closed_held :
    (f : ToyFile) (s : ToyState) (q : Text) (g : ToyFile)
    → without f (s.holding q) ≡ some g
    → (not (toy_eq f g) && s.opened g) ≡ true
closed_held f s q g e =
    let (h, ne) = without_keeps f g (s.holding q) e in ground (arith, ne, s.held_open q g h)

pub locked_held :
    (f : ToyFile) (s : ToyState) (q : Text) (g : ToyFile)
    → s.opened f ≡ true
    → (if text_eq f.path q then some f else s.holding q) ≡ some g
    → s.opened g ≡ true
locked_held f s q g o e = ground (arith, o, e, s.held_open q g)

pub nothing_held : (q : Text) (f : ToyFile) → none ≡ some f → false ≡ true
nothing_held q f e = ground (arith, e)

unfoldable pub new_state : ToyState
new_state = record { opened = λ _. false; holding = λ _. none; next = 0; held_open = nothing_held }

unfoldable pub toy_open : Text → ToyState → Opened ToyFile × ToyState
toy_open path s =
    let f : ToyFile = record { path = path; number = s.next } in
    if s.opened f then (failed other_error, s) else (
      file f,
      record {
        opened = with_file f s.opened;
        holding = s.holding;
        next = suc s.next;
        held_open = opened_held f s;
      },
    )

unfoldable pub toy_unlock : ToyFile → ToyState → Option OsError × ToyState
toy_unlock f s = (
  none,
  record {
    opened = s.opened;
    holding = λ q. without f (s.holding q);
    next = s.next;
    held_open = λ q g e. s.held_open q g (without_keeps f g (s.holding q) e).0;
  },
)

unfoldable pub toy_close : ToyFile → ToyState → Option OsError × ToyState
toy_close f s = (
  none,
  record {
    opened = λ g. not (toy_eq f g) && s.opened g;
    holding = λ q. without f (s.holding q);
    next = s.next;
    held_open = closed_held f s;
  },
)

-- The lock of an open file, whose path nobody else has locked.
abbrev toy_take : (f : ToyFile) (s : ToyState) → s.opened f ≡ true → ToyState
toy_take f s o = record {
  opened = s.opened;
  holding = λ q. if text_eq f.path q then some f else s.holding q;
  next = s.next;
  held_open = λ q g e. locked_held f s q g o e;
}

abbrev taken_by_other : ToyFile → Option ToyFile → Bool
taken_by_other f none = false
taken_by_other f (some g) = not (toy_eq g f)

abbrev toy_lock :
    (f : ToyFile) (s : ToyState) (o : Bool) → s.opened f ≡ o → Option OsError × ToyState
toy_lock f s true o = (none, toy_take f s o)
toy_lock f s false o = (some other_error, s)

abbrev toy_try : Bool → ToyFile → ToyState → Option OsError × ToyState
toy_try true f s = (some would_block, s)
toy_try false f s = toy_lock f s (s.opened f) refl

unfoldable pub toy_flock : ToyFile → ToyState → Option OsError × ToyState
toy_flock f s = toy_try (taken_by_other f (s.holding f.path)) f s

abbrev pub toy_os : Os
toy_os = record {
  State = ToyState;
  File = ToyFile;
  mkdir_all = λ _ s. (none, s);
  open_shared = toy_open;
  open_append = toy_open;
  close = toy_close;
  flock = toy_flock;
  unlock = toy_unlock;
  truncate = λ _ s. (none, s);
  write_at = λ _ _ s. (none, s);
  write = λ _ _ s. (none, s);
  stderr = record { path = codes "stderr"; number = 0 };
  pid = 412;
}

abbrev next_file : Text → ToyState → ToyFile
next_file path s = record { path = path; number = s.next }

toy_open_ok :
    (path : Text) (s : ToyState) (f : ToyFile)
    → (toy_open path s).0 ≡ file f
    → (s.opened f ≡ false)
      × ((g : ToyFile) → (toy_open path s).1.opened g ≡ with_file f s.opened g)
      × (f.path ≡ path)
unfolding toy_open
toy_open_ok path s f e = elim (Bool-cases (s.opened (next_file path s))) [
  | inl o ↦ ground (arith, e, o)
  | inr o ↦
      let same : next_file path s ≡ f = ground (arith, e, o) in
      rw (sym same) (o, (λ g. rw o refl), refl)
]

toy_open_failed :
    (path : Text) (s : ToyState) (x : OsError) (g : ToyFile)
    → (toy_open path s).0 ≡ failed x
    → (toy_open path s).1.opened g ≡ s.opened g
unfolding toy_open
toy_open_failed path s x g e = elim (Bool-cases (s.opened (next_file path s))) [
  | inl o ↦ rw o refl
  | inr o ↦ ground (arith, e, o)
]

toy_open_holding :
    (path : Text) (s : ToyState) (q : Text) → (toy_open path s).1.holding q ≡ s.holding q
unfolding toy_open
toy_open_holding path s q = elim (Bool-cases (s.opened (next_file path s))) [
  | inl o ↦ rw o refl
  | inr o ↦ rw o refl
]

toy_lock_opened :
    (f : ToyFile) (s : ToyState) (g : ToyFile) (o : Bool) (e : s.opened f ≡ o)
    → (toy_lock f s o e).1.opened g ≡ s.opened g
toy_lock_opened f s g true e = refl
toy_lock_opened f s g false e = refl

toy_lock_ok :
    (f : ToyFile) (s : ToyState) (q : Text) (o : Bool) (e : s.opened f ≡ o)
    → (toy_lock f s o e).0 ≡ none
    → (toy_lock f s o e).1.holding q ≡ (if text_eq f.path q then some f else s.holding q)
toy_lock_ok f s q true e h = refl
toy_lock_ok f s q false e h = ground (arith, h)

toy_lock_failed :
    (f : ToyFile) (s : ToyState) (x : OsError) (q : Text) (o : Bool) (e : s.opened f ≡ o)
    → (toy_lock f s o e).0 ≡ some x
    → (toy_lock f s o e).1.holding q ≡ s.holding q
toy_lock_failed f s x q true e h = ground (arith, h)
toy_lock_failed f s x q false e h = refl

toy_flock_opened :
    (f : ToyFile) (s : ToyState) (g : ToyFile) → (toy_flock f s).1.opened g ≡ s.opened g
unfolding toy_flock
toy_flock_opened f s g = go (taken_by_other f (s.holding f.path))
  where
    go : (b : Bool) → (toy_try b f s).1.opened g ≡ s.opened g
    go true = refl
    go false = toy_lock_opened f s g (s.opened f) refl

toy_flock_ok :
    (f : ToyFile) (s : ToyState)
    → (toy_flock f s).0 ≡ none
    → (q : Text) → (toy_flock f s).1.holding q ≡ (if text_eq f.path q then some f else s.holding q)
unfolding toy_flock
toy_flock_ok f s e q = go (taken_by_other f (s.holding f.path)) e
  where
    go :
        (b : Bool)
        → (toy_try b f s).0 ≡ none
        → (toy_try b f s).1.holding q ≡ (if text_eq f.path q then some f else s.holding q)
    go true h = ground (arith, h)
    go false h = toy_lock_ok f s q (s.opened f) refl h

toy_flock_failed :
    (f : ToyFile) (s : ToyState) (x : OsError)
    → (toy_flock f s).0 ≡ some x
    → (q : Text) → (toy_flock f s).1.holding q ≡ s.holding q
unfolding toy_flock
toy_flock_failed f s x e q = go (taken_by_other f (s.holding f.path)) e
  where
    go : (b : Bool) → (toy_try b f s).0 ≡ some x → (toy_try b f s).1.holding q ≡ s.holding q
    go true h = refl
    go false h = toy_lock_failed f s x q (s.opened f) refl h

toy_flock_busy :
    (f g : ToyFile) (s : ToyState)
    → s.holding f.path ≡ some g
    → toy_eq g f ≡ false
    → (toy_flock f s).0 ≡ some would_block
unfolding toy_flock
toy_flock_busy f g s h ne = rw (h, ne) refl

pub toy_files : FilesDocumented toy_os
unfolding toy_close toy_unlock
toy_files = record {
  file_eq = toy_eq;
  file_eq_iff = toy_eq_iff;
  is_open = λ s. s.opened;
  mkdir_open = λ _ _ _. refl;
  open_shared_ok = λ path s f e. let (new, now, _) = toy_open_ok path s f e in (new, now);
  open_shared_failed = toy_open_failed;
  open_append_ok = λ path s f e. let (new, now, _) = toy_open_ok path s f e in (new, now);
  open_append_failed = toy_open_failed;
  close_open = λ _ _ _. refl;
  flock_open = toy_flock_opened;
  unlock_open = λ _ _ _. refl;
  truncate_open = λ _ _ _. refl;
  write_at_open = λ _ _ _ _. refl;
  write_open = λ _ _ _ _. refl;
}

pub toy_locks : LocksDocumented toy_os toy_files
unfolding toy_close toy_unlock toy_files
toy_locks = record {
  path_of = λ f. f.path;
  holder = λ s. s.holding;
  open_path = λ path s f e. let (_, _, is) = toy_open_ok path s f e in is;
  mkdir_holder = λ _ _ _. refl;
  open_holder = toy_open_holding;
  truncate_holder = λ _ _ _. refl;
  write_at_holder = λ _ _ _ _. refl;
  flock_ok = toy_flock_ok;
  flock_failed = toy_flock_failed;
  flock_busy = toy_flock_busy;
  unlock_holder = λ _ _ _. refl;
  close_holder = λ _ _ _. refl;
  holder_open = λ s. s.held_open;
}
