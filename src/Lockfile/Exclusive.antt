-- ===== src/Lockfile/Exclusive.antt =====
-- Several processes that take and give up locks in turns.
use logstat.Prelude.{◌≡◌, ◌∙◌, inl, inr, false, List, [], ◌∷◌, none, some, arith, Option-cases}
use logstat.Text.{Text, text_eq, text_eq_iff}
use logstat.Dict.{Dict, lookup, erase, IsMap, lookup-erase_ne, lookup-erase_self, erase-IsMap}
use logstat.Os.{Os, FilesDocumented, LocksDocumented}
use logstat.Lockfile.{Acquired, acquired, refused, acquire, release}
use logstat.Lockfile.Effects.{Untouched, Taken, GivenUp, acquire_result, release-GivenUp}

-- A process calls Acquire, or the one that has the lock of this path calls Release.
pub data Call : Type 0 where
  acquires releases : Text → Call

-- The system, and the locks that were acquired and not released.
pub record Locked (os : Os) : Type 0 where
  pub state : os.State
  pub live : Dict os.File

module _ (os : Os) (dir_of : Text → Text) where
  -- The locks after a call of Acquire.
  abbrev pub with_lock : Text → Acquired os → Dict os.File → Dict os.File
  with_lock path (refused _) live = live
  with_lock path (acquired l) live = elim l.held [ none ↦ live | some f ↦ (path, f) ∷ live ]

  unfoldable pub call : Call → Locked os → Locked os
  call (acquires path) w =
      let (r, s) = acquire os dir_of path w.state in
      record { state = s; live = with_lock path r w.live }
  call (releases path) w = elim (lookup path w.live) [
    | none ↦ w
    | some f ↦ record {
      state = (release os dir_of (record { path = path; held = some f }) w.state).1;
      live = erase path w.live;
    }
  ]

  unfoldable pub calls : List Call → Locked os → Locked os
  calls [] w = w
  calls (x ∷ xs) w = calls xs (call x w)

module _ (os : Os) (dir_of : Text → Text) (files : FilesDocumented os)
    (locks : LocksDocumented os files) where
  open files use {file_eq, file_eq_iff}
  open locks use {path_of, holder}

  -- No path is locked twice, and each lock has its file, which is of its path.
  pub record IsExclusive (w : Locked os) : Type 0 where
    pub live_IsMap : IsMap w.live
    pub is_held :
        (path : Text) (f : os.File)
        → lookup path w.live ≡ some f
        → (holder w.state path ≡ some f) × (path_of f ≡ path)

  acquired-IsExclusive :
      (path : Text) (f : os.File) (w : Locked os) (s' : os.State)
      → Taken os dir_of files locks path f w.state s'
      → IsExclusive w
      → IsExclusive (record { state = s'; live = (path, f) ∷ w.live })
  unfolding lookup
  acquired-IsExclusive path f w s' t x = record {
    live_IsMap = (
      elim (Option-cases (lookup path w.live)) [
        | inl e ↦ e
        | inr (g, e) ↦ ground (arith, e, t.was_free, x.is_held path g e)
      ],
      x.live_IsMap,
    );
    is_held =
        λ q g e. ground (arith, e, t.now_held q, t.is_path, text_eq_iff path q, x.is_held q g);
  }

  kept-IsExclusive :
      (w : Locked os) (s' : os.State)
      → Untouched os dir_of files locks w.state s'
      → IsExclusive w
      → IsExclusive (record { state = s'; live = w.live })
  kept-IsExclusive w s' u x = record {
    live_IsMap = x.live_IsMap;
    is_held = λ q g e. (u.same_holder q ∙ (x.is_held q g e).0, (x.is_held q g e).1);
  }

  lookup_erased :
      (path q : Text) (g : os.File) (live : Dict os.File)
      → IsMap live
      → lookup q (erase path live) ≡ some g
      → (text_eq path q ≡ false) × (lookup q live ≡ some g)
  lookup_erased path q g live m e =
      ground
        (arith, e, lookup-erase_ne path q live, lookup-erase_self path live m, text_eq_iff path q)

  released-IsExclusive :
      (path : Text) (f : os.File) (w : Locked os) (s' : os.State)
      → GivenUp os dir_of files locks f w.state s'
      → lookup path w.live ≡ some f
      → IsExclusive w
      → IsExclusive (record { state = s'; live = erase path w.live })
  released-IsExclusive path f w s' u e x = record {
    live_IsMap = erase-IsMap path w.live x.live_IsMap;
    is_held = λ q g h.
        let (ne, there) = lookup_erased path q g w.live x.live_IsMap h in
        ground (
          arith,
          ne,
          u.now_free q,
          x.is_held q g there,
          x.is_held path f e,
          text_eq_iff path q,
          file_eq_iff g f,
        );
  }

  call-IsExclusive : (x : Call) (w : Locked os) → IsExclusive w → IsExclusive (call os dir_of x w)
  unfolding call
  call-IsExclusive (acquires path) w x = elim (acquire_result os dir_of files locks path w.state) [
    | inl (f, r, t) ↦ rw (call, r) (acquired-IsExclusive path f w _ t x)
    | inr (e, r, u) ↦ rw (call, r) (kept-IsExclusive w _ u x)
  ]
  call-IsExclusive (releases path) w x = elim (Option-cases (lookup path w.live)) [
    | inl e ↦ rw (call, e) x
    | inr (f, e) ↦
        rw (call, e)
          (released-IsExclusive path f w _ (release-GivenUp os dir_of files locks path f w.state) e
            x)
  ]

  -- However processes take and give up locks in turns, no path is locked twice at a time, and each
  -- lock is the system's lock of its path. The conditions: the system keeps to its manual, and at the
  -- start this holds, as it does where no lock is live.
  pub calls-IsExclusive :
      (xs : List Call) (w : Locked os) → IsExclusive w → IsExclusive (calls os dir_of xs w)
  unfolding calls
  calls-IsExclusive [] w x = x
  calls-IsExclusive (y ∷ ys) w x =
      calls-IsExclusive ys (call os dir_of y w) (call-IsExclusive y w x)
