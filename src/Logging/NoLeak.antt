-- ===== src/Logging/NoLeak.antt =====
-- The files that a logger has open, over all of what a program does with it.
use mathlib.Core.Path.{subst}
use logstat.Logging.Record.{Handler}
use logstat.Prelude.{
  ◌≡◌, refl, ap, ◌∙◌, inl, inr, Bool, not, ◌&&◌, ◌||◌, List, [], ◌∷◌, none, arith, Bool-cases,
  Option-cases,
}
use logstat.Text.{Text, text_eq}
use logstat.Config.{Logging, output_file}
use logstat.Os.{Opened-cases, Os, is_file, FilesDocumented}
use logstat.Logging.Level.{parse_level}
use logstat.Logging.Output.{
  Output, Logger, Made, made, not_made, open_output, opened_logger, write, reopen, close,
  new_logger,
}
use logstat.Logging.OneFile.{
  Owns, Swapped-Owns, reopen_result, open_output-file, open_output-failed,
}

-- What a program does with the output of a logger.
pub data OutputCall : Type 0 where
  writes : Text → OutputCall
  reopens closes : OutputCall

module _ (os : Os) where
  unfoldable pub output_call : OutputCall → Output os × os.State → Output os × os.State
  output_call (writes t) (o, s) = (o, (write os o t s).1)
  output_call reopens (o, s) = let ((_, o1), s1) = reopen os o s in (o1, s1)
  output_call closes (o, s) = let ((_, o1), s1) = close os o s in (o1, s1)

  unfoldable pub output_calls : List OutputCall → Output os × os.State → Output os × os.State
  output_calls [] w = w
  output_calls (c ∷ cs) w = output_calls cs (output_call c w)

module _ (os : Os) (files : FilesDocumented os) where
  open files use {
    file_eq, file_eq_iff, is_open, open_append_ok, open_append_failed, close_open, write_open,
  }

  -- Owns where nothing is opened or closed.
  pub same-Owns :
      (base : os.File → Bool) (o : Output os) (s s' : os.State)
      → ((g : os.File) → is_open s' g ≡ is_open s g)
      → Owns os files base (o, s)
      → Owns os files base (o, s')
  same-Owns base o s s' same w = record {
    now_open = λ g. same g ∙ w.now_open g;
    is_new = w.is_new;
    written = w.written;
  }

  write-Owns :
      (base : os.File → Bool) (t : Text) (o : Output os) (s : os.State)
      → Owns os files base (o, s)
      → Owns os files base (o, (write os o t s).1)
  unfolding write
  write-Owns base t o s w = elim (Option-cases o.w) [
    | inl e ↦ same-Owns base o s _ (λ g. rw (write, e) refl) w
    | inr (f, e) ↦ same-Owns base o s _ (λ g. rw (write, e) (write_open f t s g)) w
  ]

  pub reopen-Owns :
      (base : os.File → Bool) (o : Output os) (s : os.State)
      → Owns os files base (o, s)
      → let ((_, o'), s') = reopen os o s in Owns os files base (o', s')
  reopen-Owns base o s w = elim (Bool-cases (text_eq o.path [])) [
    | inl e ↦ unfold reopen in rw e w
    | inr e ↦ elim (reopen_result os files o s e) [
      | inl x ↦ Swapped-Owns os files base o _ s _ x w
      | inr (_, _, same, now) ↦ rw same (same-Owns base o s _ now w)
    ]
  ]

  pub close-Owns :
      (base : os.File → Bool) (o : Output os) (s : os.State)
      → Owns os files base (o, s)
      → let ((_, o'), s') = close os o s in Owns os files base (o', s') × (o'.f ≡ none)
  unfolding close
  close-Owns base o s w = elim (Option-cases o.f) [
    | inl e ↦ rw (close, e) (w, e)
    | inr (f, e) ↦
        rw (close, e)
          (
            record {
              now_open = λ g.
                  close_open f s g
                  ∙ ap (λ b. not (file_eq f g) && b) (w.now_open g)
                  ∙ rw e (ground (arith, w.is_new f e, file_eq_iff f g));
              is_new = λ g h. ground (arith, h);
              written = λ g h. ground (arith, h);
            },
            refl,
          )
  ]

  output_calls-Owns :
      (base : os.File → Bool) (cs : List OutputCall) (o : Output os) (s : os.State)
      → Owns os files base (o, s)
      → Owns os files base (output_calls os cs (o, s))
  unfolding output_calls output_call
  output_calls-Owns base [] o s w = w
  output_calls-Owns base (writes t ∷ cs) o s w =
      output_calls-Owns base cs o (write os o t s).1 (write-Owns base t o s w)
  output_calls-Owns base (reopens ∷ cs) o s w =
      let ((_, o'), s') = reopen os o s in output_calls-Owns base cs o' s' (reopen-Owns base o s w)
  output_calls-Owns base (closes ∷ cs) o s w =
      let ((_, o'), s') = close os o s in output_calls-Owns base cs o' s' (close-Owns base o s w).0

  -- A logger that is made owns its file, and one that is not leaves no file open.
  abbrev pub MadeOwns : (os.File → Bool) → Made os × os.State → Type 0
  MadeOwns base (not_made _, s) = (g : os.File) → is_open s g ≡ base g
  MadeOwns base (made lg, s) = Owns os files base (lg.out, s)

  opened-MadeOwns :
      (h : Handler) (path : Text) (s : os.State)
      → MadeOwns
          (is_open s)
          (opened_logger os h (open_output os (record { w = none; f = none; path = path }) s))
  opened-MadeOwns h path s =
      let o : Output os = record { w = none; f = none; path = path } in
      elim (Opened-cases (os.open_append path s).0) [
        | inr (x, e) ↦
            rw (open_output-failed os files o s x e) (λ g. open_append_failed path s x g e)
        | inl (f, e) ↦
            let (new, now) = open_append_ok path s f e in
            rw (open_output-file os files o s f e) (record {
              now_open = λ g. now g ∙ ground arith;
              is_new = λ g h. ground (arith, h, new);
              written = λ g h. h;
            })
      ]

  pub new_logger-MadeOwns :
      (to_lower : Text → Text) (cfg : Logging) (s : os.State)
      → MadeOwns (is_open s) (new_logger os to_lower cfg s)
  unfolding new_logger
  new_logger-MadeOwns to_lower cfg s = elim (Option-cases (parse_level to_lower cfg.level)) [
    | inl n ↦ rw (new_logger, n) (λ g. refl)
    | inr (l, p) ↦ elim (Bool-cases (text_eq cfg.output output_file)) [
      | inr out ↦
          rw (new_logger, p, out)
            (record {
              now_open = λ g. ground arith;
              is_new = λ g h. ground (arith, h);
              written = λ g h. ground (arith, h);
            })
      | inl out ↦ rw (new_logger, p, out) (opened-MadeOwns _ cfg.file s)
    ]
  ]

  -- However a logger that New made is written to, reopened and closed, the files that are open are
  -- those that were open before New, and the one file of its output, where it has one; Close leaves
  -- those that were open before New.
  pub logger_leaks_no_file :
      (to_lower : Text → Text) (cfg : Logging) (s s1 : os.State) (lg : Logger os)
      (cs : List OutputCall)
      → new_logger os to_lower cfg s ≡ (made lg, s1)
      → let (o, s2) = output_calls os cs (lg.out, s1) in
        ((g : os.File) → is_open s2 g ≡ (is_open s g || is_file file_eq o.f g))
        × ((g : os.File) → is_open (close os o s2).1 g ≡ is_open s g)
  logger_leaks_no_file to_lower cfg s s1 lg cs e =
      let w =
        output_calls-Owns (is_open s) cs lg.out s1
          (subst (MadeOwns (is_open s)) e (new_logger-MadeOwns to_lower cfg s)) in
      let (o, s2) = output_calls os cs (lg.out, s1) in
      let (closed, no_file) = close-Owns (is_open s) o s2 w in
      (w.now_open, λ g. closed.now_open g ∙ rw no_file (ground arith))
