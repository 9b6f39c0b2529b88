-- ===== src/Logging/OneFile.antt =====
-- A logger has at most one file open, and a failed Reopen leaves it as it is.
use logstat.Prelude.{
  ◌≡◌, refl, sym, ap, ◌∙◌, ◌⊎◌, inl, inr, Bool, false, not, ◌&&◌, ◌||◌, [], Option, none, some,
  arith,
}
use logstat.Text.{text_eq}
use logstat.Os.{Opened-cases, OsError, file, failed, Os, is_file, FilesDocumented}
use logstat.Logging.Output.{close_old, open_failed, Output, open_output, reopened, reopen}

module _ (os : Os) (files : FilesDocumented os) where
  open files use {
    file_eq, file_eq_iff, is_open, open_append_ok, open_append_failed, close_open, write_open,
  }

  -- Over the files base, exactly the file of the output is open, and it is written to.
  pub record Owns (base : os.File → Bool) (w : Output os × os.State) : Type 0 where
    pub now_open : (g : os.File) → is_open w.1 g ≡ (base g || is_file file_eq w.0.f g)
    pub is_new : (f : os.File) → w.0.f ≡ some f → base f ≡ false
    pub written : (f : os.File) → w.0.f ≡ some f → w.0.w ≡ some f

  -- The output writes to a file that is new, and its old file is closed.
  pub record Swapped (o o' : Output os) (s s' : os.State) : Type 0 where
    pub new_file : os.File
    pub was_closed : is_open s new_file ≡ false
    pub now_written : o' ≡ record o { w = some new_file; f = some new_file }
    pub now_open :
        (g : os.File)
        → is_open s' g ≡ (not (is_file file_eq o.f g) && (file_eq new_file g || is_open s g))

  pub close_old-open :
      (h : Option os.File) (s : os.State) (g : os.File)
      → is_open (close_old os h s).1 g ≡ (not (is_file file_eq h g) && is_open s g)
  unfolding close_old
  close_old-open none s g = refl
  close_old-open (some f) s g = close_open f s g

  opened :
      (o : Output os) (s : os.State)
      → text_eq o.path [] ≡ false
      → reopen os o s ≡ reopened os o (open_output os o s)
  unfolding reopen
  opened o s p = rw p refl

  pub open_output-file :
      (o : Output os) (s : os.State) (f : os.File)
      → (os.open_append o.path s).0 ≡ file f
      → open_output os o s
        ≡ ((none, record o { w = some f; f = some f }), (os.open_append o.path s).1)
  unfolding open_output
  open_output-file o s f x = rw (open_output, x) refl

  pub open_output-failed :
      (o : Output os) (s : os.State) (e : OsError)
      → (os.open_append o.path s).0 ≡ failed e
      → open_output os o s ≡ ((some (open_failed o.path e), o), (os.open_append o.path s).1)
  unfolding open_output
  open_output-failed o s e x = rw (open_output, x) refl

  reopen-file :
      (o : Output os) (s : os.State) (f : os.File)
      → text_eq o.path [] ≡ false
      → (os.open_append o.path s).0 ≡ file f
      → let (cerr, s2) = close_old os o.f (os.open_append o.path s).1 in
        reopen os o s ≡ ((cerr, record o { w = some f; f = some f }), s2)
  unfolding reopened
  reopen-file o s f p x = opened o s p ∙ ap (reopened os o) (open_output-file o s f x)

  reopen-failed :
      (o : Output os) (s : os.State) (e : OsError)
      → text_eq o.path [] ≡ false
      → (os.open_append o.path s).0 ≡ failed e
      → reopen os o s ≡ ((some (open_failed o.path e), o), (os.open_append o.path s).1)
  unfolding reopened
  reopen-failed o s e p x = opened o s p ∙ ap (reopened os o) (open_output-failed o s e x)

  -- Reopen of a logger with a path either swaps its file for one that is new, and closes the old one;
  -- or it returns the error of the open, and keeps the output and the open files as they were.
  pub reopen_result :
      (o : Output os) (s : os.State)
      → text_eq o.path [] ≡ false
      → let ((err, o'), s') = reopen os o s in
        Swapped o o' s s'
        ⊎ ((e : OsError) × (err ≡ some (open_failed o.path e))
            × (o' ≡ o)
            × ((g : os.File) → is_open s' g ≡ is_open s g))
  reopen_result o s p = elim (Opened-cases (os.open_append o.path s).0) [
    | inr (e, x) ↦
        inr (rw (reopen-failed o s e p x) (e, refl, refl, (λ g. open_append_failed o.path s e g x)))
    | inl (f, x) ↦
        let (new, now) = open_append_ok o.path s f x in
        inl (
          rw (reopen-file o s f p x) (record {
            new_file = f;
            was_closed = new;
            now_written = refl;
            now_open = λ g.
                close_old-open o.f (os.open_append o.path s).1 g
                ∙ ap (λ b. not (is_file file_eq o.f g) && b) (now g);
          }))
  ]

  -- The files that are open after the swap of h, an own file, for the new n.
  swapped_open :
      (h : Option os.File) (n g : os.File) (b bn sg : Bool)
      → (bn || is_file file_eq h n) ≡ false
      → sg ≡ (b || is_file file_eq h g)
      → (h ≡ some g → b ≡ false)
      → (not (is_file file_eq h g) && (file_eq n g || sg)) ≡ (b || file_eq n g)
  swapped_open none n g b bn sg c e i = ground (arith, e)
  swapped_open (some f) n g b bn sg c e i =
      ground (arith, c, e, i, file_eq_iff f g, file_eq_iff n g, file_eq_iff f n)

  pub Swapped-Owns :
      (base : os.File → Bool) (o o' : Output os) (s s' : os.State)
      → Swapped o o' s s'
      → Owns base (o, s)
      → Owns base (o', s')
  Swapped-Owns base o o' s s' x w = rw x.now_written (record {
    now_open = λ g.
        x.now_open g
        ∙ swapped_open o.f x.new_file g (base g) (base x.new_file) (is_open s g)
            (sym (w.now_open x.new_file) ∙ x.was_closed) (w.now_open g) (w.is_new g);
    is_new = λ f e. ground (arith, e, w.now_open f, x.was_closed);
    written = λ f e. e;
  })
