-- ===== src/Lockfile/Effects.antt =====
-- What Acquire and Release leave of the open files and of the locks.
use logstat.Prelude.{
  ◌≡◌, refl, sym, ap, ◌∙◌, ◌⊎◌, inl, inr, false, not, ◌&&◌, ◌||◌, none, some, arith, Bool-cases,
  Option-cases, if◌then◌else◌,
}
use logstat.Text.{Text, text_eq}
use logstat.Os.{Opened-cases, file, Os, is_nil, is_file, FilesDocumented, LocksDocumented}
use logstat.Lockfile.{
  LockError, mkdir_failed, open_failed, flock_error, acquired, refused, write_pid, lock_file,
  acquire, release,
}

module _ (os : Os) (dir_of : Text → Text) (files : FilesDocumented os)
    (locks : LocksDocumented os files) where
  open files use {
    file_eq, file_eq_iff, is_open, mkdir_open, open_shared_ok, open_shared_failed, close_open,
    flock_open, unlock_open, truncate_open, write_at_open,
  }
  open locks use {
    path_of, holder, open_path, mkdir_holder, open_holder, truncate_holder, write_at_holder,
    flock_ok, flock_failed, flock_busy, unlock_holder, close_holder, holder_open,
  }

  -- No file is opened or closed, and no lock taken or given up.
  pub record Untouched (s s' : os.State) : Type 0 where
    pub same_open : (g : os.File) → is_open s' g ≡ is_open s g
    pub same_holder : (q : Text) → holder s' q ≡ holder s q

  -- The file f, which is new, has the lock on the path, which nobody had.
  pub record Taken (path : Text) (f : os.File) (s s' : os.State) : Type 0 where
    pub was_free : holder s path ≡ none
    pub was_new : is_open s f ≡ false
    pub is_path : path_of f ≡ path
    pub now_open : (g : os.File) → is_open s' g ≡ (file_eq f g || is_open s g)
    pub now_held : (q : Text) → holder s' q ≡ (if text_eq path q then some f else holder s q)

  Untouched-trans : (s s1 s2 : os.State) → Untouched s s1 → Untouched s1 s2 → Untouched s s2
  Untouched-trans s s1 s2 p q = record {
    same_open = λ g. q.same_open g ∙ p.same_open g;
    same_holder = λ x. q.same_holder x ∙ p.same_holder x;
  }

  Untouched-Taken :
      (path : Text) (f : os.File) (s s1 s2 : os.State)
      → Untouched s s1
      → Taken path f s1 s2
      → Taken path f s s2
  Untouched-Taken path f s s1 s2 p q = record {
    was_free = sym (p.same_holder path) ∙ q.was_free;
    was_new = sym (p.same_open f) ∙ q.was_new;
    is_path = q.is_path;
    now_open = λ g. q.now_open g ∙ ap (λ b. file_eq f g || b) (p.same_open g);
    now_held = λ x. q.now_held x ∙ ap (λ h. if text_eq path x then some f else h) (p.same_holder x);
  }

  mkdir-Untouched : (dir : Text) (s : os.State) → Untouched s (os.mkdir_all dir s).1
  mkdir-Untouched dir s = record { same_open = mkdir_open dir s; same_holder = mkdir_holder dir s }

  write_pid-Untouched : (f : os.File) (s : os.State) → Untouched s (write_pid os dir_of f s)
  unfolding write_pid
  write_pid-Untouched f s =
      let s1 = (os.truncate f s).1 in
      let first : Untouched s s1 = record {
        same_open = truncate_open f s;
        same_holder = truncate_holder f s;
      } in
      elim (Bool-cases (is_nil (os.truncate f s).0)) [
        | inl e ↦ rw e (
            Untouched-trans s s1 _ first
              (record { same_open = write_at_open f _ s1; same_holder = write_at_holder f _ s1 }))
        | inr e ↦ rw e first
      ]

  -- A lock that somebody has is not a lock of a new file.
  held_by_other :
      (f : os.File) (s : os.State) (q : Text)
      → is_open s f ≡ false
      → is_file file_eq (holder s q) f ≡ false
  held_by_other f s q h = elim (Option-cases (holder s q)) [
    | inl e ↦ rw e refl
    | inr (g, e) ↦ rw e (ground (arith, file_eq_iff g f, holder_open s q g e, h))
  ]

  free_of_lock :
      (f : os.File) (s : os.State) (path : Text)
      → is_open s f ≡ false
      → path_of f ≡ path
      → holder (os.open_shared path s).1 path ≡ holder s path
      → (os.flock f (os.open_shared path s).1).0 ≡ none
      → holder s path ≡ none
  free_of_lock f s path new is same e = elim (Option-cases (holder s path)) [
    | inl free ↦ free
    | inr (g, h) ↦
        let other : file_eq g f ≡ false =
          ground (arith, file_eq_iff g f, holder_open s path g h, new) in
        let busy = flock_busy f g (os.open_shared path s).1 (rw is (same ∙ h)) other in
        ground (arith, busy, e)
  ]

  -- What lockFile does with the file that is opened in s.
  lock_file_result :
      (path : Text) (f : os.File) (s : os.State)
      → is_open s f ≡ false
      → path_of f ≡ path
      → let s2 = (os.open_shared path s).1 in
        (os.open_shared path s).0 ≡ file f
        → let (r, s') = lock_file os dir_of path f s2 in
          ((r ≡ acquired (record { path = path; held = some f })) × Taken path f s s')
          ⊎ ((e : LockError) × (r ≡ refused e) × Untouched s s')
  unfolding lock_file
  lock_file_result path f s new is opened =
      let s2 = (os.open_shared path s).1 in
      let s3 = (os.flock f s2).1 in
      let now = (open_shared_ok path s f opened).1 in
      elim (Option-cases (os.flock f s2).0) [
        | inl e ↦
            let kept = write_pid-Untouched f s3 in
            inl (
              rw (e, lock_file)
                (
                  refl,
                  record {
                    was_free = free_of_lock f s path new is (open_holder path s path) e;
                    was_new = new;
                    is_path = is;
                    now_open = λ g. kept.same_open g ∙ flock_open f s2 g ∙ now g;
                    now_held = λ q.
                        kept.same_holder q ∙ flock_ok f s2 e q ∙ rw (is, open_holder path s q) refl;
                  },
                ))
        | inr (x, e) ↦ inr (
            rw (e, lock_file)
              (
                flock_error x,
                refl,
                record {
                  same_open = λ g.
                      close_open f s3 g
                      ∙ ground (arith, flock_open f s2 g, now g, new, file_eq_iff f g);
                  same_holder = λ q.
                      let same = flock_failed f s2 x e q ∙ open_holder path s q in
                      close_holder f s3 q ∙ rw (same, held_by_other f s q new) refl;
                },
              ))
      ]

  -- Acquire takes the lock exactly for a file that is new, on a path whose lock nobody had; where it
  -- is refused, no file stays open and no lock changes hands.
  pub acquire_result :
      (path : Text) (s : os.State)
      → let (r, s') = acquire os dir_of path s in
        ((f : os.File) × (r ≡ acquired (record { path = path; held = some f })) × Taken path f s s')
        ⊎ ((e : LockError) × (r ≡ refused e) × Untouched s s')
  unfolding acquire
  acquire_result path s =
      let s1 = (os.mkdir_all (dir_of path) s).1 in
      let made = mkdir-Untouched (dir_of path) s in
      elim (Option-cases (os.mkdir_all (dir_of path) s).0) [
        | inr (x, e) ↦ inr (rw (e, acquire) (mkdir_failed x, refl, made))
        | inl e ↦ elim (Opened-cases (os.open_shared path s1).0) [
          | inr (x, o) ↦ inr (
              rw (e, o, acquire)
                (
                  open_failed x,
                  refl,
                  Untouched-trans s s1 _ made (record {
                    same_open = λ g. open_shared_failed path s1 x g o;
                    same_holder = open_holder path s1;
                  }),
                ))
          | inl (f, o) ↦
              let new = (open_shared_ok path s1 f o).0 in
              elim (lock_file_result path f s1 new (open_path path s1 f o) o) [
                | inl (r, taken) ↦ inl (
                  f,
                  rw (e, o, acquire) r,
                  rw (e, o, acquire) (Untouched-Taken path f s s1 _ made taken),
                )
                | inr (x, r, same) ↦
                    inr (
                      x,
                      rw (e, o, acquire) r,
                      rw (e, o, acquire) (Untouched-trans s s1 _ made same),
                    )
              ]
        ]
      ]

  unlocked_closed :
      (f : os.File) (s : os.State) (q : Text)
      → holder (os.close f (os.unlock f s).1).1 q
        ≡ (if is_file file_eq (holder s q) f then none else holder s q)
  unlocked_closed f s q =
      let s1 = (os.unlock f s).1 in
      elim (Option-cases (holder s q)) [
        | inl e ↦ ground (arith, e, unlock_holder f s q, close_holder f s1 q)
        | inr (g, e) ↦ ground (arith, e, unlock_holder f s q, close_holder f s1 q)
      ]

  -- What Release leaves of a lock with file f: the file is closed, and no path is locked by it.
  pub record GivenUp (f : os.File) (s s' : os.State) : Type 0 where
    pub now_closed : (g : os.File) → is_open s' g ≡ (not (file_eq f g) && is_open s g)
    pub now_free :
        (q : Text) → holder s' q ≡ (if is_file file_eq (holder s q) f then none else holder s q)

  pub release-GivenUp :
      (path : Text) (f : os.File) (s : os.State)
      → GivenUp f s (release os dir_of (record { path = path; held = some f }) s).1
  unfolding release
  release-GivenUp path f s = record {
    now_closed = λ g.
        close_open f (os.unlock f s).1 g ∙ ap (λ b. not (file_eq f g) && b) (unlock_open f s g);
    now_free = unlocked_closed f s;
  }

  -- Release gives up the lock of its file and closes it, whatever error it reports; a second Release
  -- reports no error and does nothing.
  pub release_twice :
      (path : Text) (f : os.File) (s : os.State)
      → let ((_, l), s') = release os dir_of (record { path = path; held = some f }) s in
        GivenUp f s s' × (release os dir_of l s' ≡ ((none, l), s'))
  release_twice path f s = (release-GivenUp path f s, unfold release in refl)
