-- ===== src/Config/Load/Closed.antt =====
-- CheckPaths leaves no file open.
use logstat.Config.Overlaps.{Warning}
use logstat.Prelude.{List, ◌⊎◌, ◌≡◌, refl, ◌∙◌, inl, inr, ◌||◌, [], arith, Bool-cases, Option-cases}
use logstat.Text.{Text, codes, text_eq}
use logstat.Os.{Os, FilesDocumented, Opened-cases}
use logstat.Config.{Config, output_file}
use logstat.Config.Load.{LoadError, Loaded, loaded, not_loaded, ensure_dir, try_log, check_paths}

pub Loaded-cases :
    (l : Loaded)
    → ((cfg : Config) × (warnings : List Warning) × (l ≡ loaded cfg warnings))
      ⊎ ((e : LoadError) × (l ≡ not_loaded e))
Loaded-cases (loaded cfg warnings) = inl (cfg, warnings, refl)
Loaded-cases (not_loaded e) = inr (e, refl)

module _ (os : Os) (files : FilesDocumented os) (dir_of : Text → Text) where
  open files use {
    file_eq, file_eq_iff, is_open, mkdir_open, open_append_ok, open_append_failed, close_open,
  }

  ensure_dir-open :
      (dir : Text) (s : os.State) (g : os.File)
      → is_open (ensure_dir os dir_of dir s).1 g ≡ is_open s g
  unfolding ensure_dir
  ensure_dir-open dir s g = elim (Bool-cases (text_eq dir [] || text_eq dir (codes "."))) [
    | inl e ↦ rw e refl
    | inr e ↦ rw e (mkdir_open dir s g)
  ]

  try_log-open :
      (path : Text) (s : os.State) (g : os.File)
      → is_open (try_log os dir_of path s).1 g ≡ is_open s g
  unfolding try_log
  try_log-open path s g = elim (Opened-cases (os.open_append path s).0) [
    | inr (x, e) ↦ rw (try_log, e) (open_append_failed path s x g e)
    | inl (f, e) ↦
        let (new, now) = open_append_ok path s f e in
        rw (try_log, e)
          (close_open f (os.open_append path s).1 g ∙ ground (arith, new, now g, file_eq_iff f g))
  ]

  -- CheckPaths leaves no file open, whatever its error is.
  pub check_paths-open :
      (c : Config) (s : os.State) (g : os.File)
      → is_open (check_paths os dir_of c s).1 g ≡ is_open s g
  unfolding check_paths
  check_paths-open c s g =
      let s1 = (ensure_dir os dir_of (dir_of c.lock_file) s).1 in
      let first = ensure_dir-open (dir_of c.lock_file) s g in
      let second = ensure_dir-open (dir_of c.logging.file) s1 g in
      elim (Option-cases (ensure_dir os dir_of (dir_of c.lock_file) s).0) [
        | inr (x, e) ↦ rw (check_paths, e) first
        | inl e ↦ elim (Bool-cases (text_eq c.logging.output output_file)) [
          | inr o ↦ rw (check_paths, e, o) first
          | inl o ↦ elim (Option-cases (ensure_dir os dir_of (dir_of c.logging.file) s1).0) [
            | inr (x, y) ↦ rw (check_paths, e, o, y) (second ∙ first)
            | inl y ↦
                rw (check_paths, e, o, y)
                  (try_log-open c.logging.file (ensure_dir os dir_of (dir_of c.logging.file) s1).1 g
                    ∙ second
                    ∙ first)
          ]
        ]
      ]
