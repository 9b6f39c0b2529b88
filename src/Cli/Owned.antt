-- ===== src/Cli/Owned.antt =====
-- The open files of a command: the log's, and the lock's over them.
use logstat.Prelude.{
  List, ◌∷◌, ℕ, zero, suc, ◌≡◌, refl, sym, ap, ◌∙◌, Bool, true, false, not, ◌&&◌, ◌||◌, Option,
  none, some, arith,
}
use logstat.Text.{Text}
use logstat.Os.{Os, is_file, FilesDocumented, LocksDocumented}
use logstat.Lockfile.Effects.{Taken, GivenUp}
use logstat.Logging.Output.{Output, reopen, close}
use logstat.Logging.OneFile.{Owns}
use logstat.Logging.NoLeak.{reopen-Owns, close-Owns}
use logstat.Store.Redis.{Client}
use logstat.Cli.Setup.{Surroundings, Message}
use logstat.Cli.Run.{hang_up, reopen_message}

module _ (os : Os) (files : FilesDocumented os) (locks : LocksDocumented os files)
    (env : Surroundings) (c : Client) where
  open files use {file_eq, file_eq_iff, is_open}

  pub hang_up-Owns :
      (base : os.File → Bool) (n : ℕ) (log : List Message) (o : Output os) (s : os.State)
      → Owns os files base (o, s)
      → Owns os files base (hang_up os env c n log (o, s)).1
  unfolding hang_up
  hang_up-Owns base zero log o s w = w
  hang_up-Owns base (suc n) log o s w =
      let ((err, o1), s1) = reopen os o s in
      hang_up-Owns base n (reopen_message os env c err ∷ log) o1 s1
        (reopen-Owns os files base o s w)

  -- The files base are open, and no other.
  abbrev pub Only : (os.File → Bool) → os.State → Type 0
  Only base s = (g : os.File) → is_open s g ≡ base g

  pub close-Only :
      (base : os.File → Bool) (o : Output os) (s : os.State)
      → Owns os files base (o, s)
      → Only base (close os o s).1
  close-Only base o s w g =
      let (closed, no_file) = close-Owns os files base o s w in
      closed.now_open g ∙ rw no_file (ground arith)

  -- Over the files base and a lock's file, which is not one of them.
  abbrev pub with_lock_file : os.File → (os.File → Bool) → os.File → Bool
  with_lock_file f base g = file_eq f g || base g

  pub Taken-Owns :
      (base : os.File → Bool) (path : Text) (f : os.File) (o : Output os) (s s1 : os.State)
      → Taken os env.dir_of files locks path f s s1
      → Owns os files base (o, s)
      → Owns os files (with_lock_file f base) (o, s1)
  Taken-Owns base path f o s s1 t w = record {
    now_open = λ g. ground (arith, t.now_open g, w.now_open g);
    is_new = λ g e.
        ground (arith, w.is_new g e, w.now_open g, t.was_new, file_eq_iff f g, e, file_eq_iff g g);
    written = w.written;
  }

  given_up_open :
      (f g : os.File) (h : Option os.File) (base_g : Bool)
      → (file_eq f g ≡ true → base_g ≡ false)
      → ((k : os.File) → h ≡ some k → file_eq f k ≡ false)
      → (not (file_eq f g) && ((file_eq f g || base_g) || is_file file_eq h g))
        ≡ (base_g || is_file file_eq h g)
  given_up_open f g none base_g n k = ground (arith, n)
  given_up_open f g (some h) base_g n k =
      ground (arith, n, k h refl, file_eq_iff f g, file_eq_iff h g, file_eq_iff f h)

  pub GivenUp-Owns :
      (base : os.File → Bool) (f : os.File) (o : Output os) (s s1 : os.State)
      → base f ≡ false
      → GivenUp os env.dir_of files locks f s s1
      → Owns os files (with_lock_file f base) (o, s)
      → Owns os files base (o, s1)
  GivenUp-Owns base f o s s1 n u w = record {
    now_open = λ g.
        u.now_closed g
        ∙ ap (λ b. not (file_eq f g) && b) (w.now_open g)
        ∙ given_up_open f g o.f (base g) (λ e. ap base (sym ((file_eq_iff f g).0 e)) ∙ n)
            (λ k e. ground (arith, w.is_new k e));
    is_new = λ g e. ground (arith, w.is_new g e);
    written = w.written;
  }
