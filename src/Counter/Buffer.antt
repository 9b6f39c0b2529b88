-- ===== src/Counter/Buffer.antt =====
-- Runs of lines, and what Drain and Restore keep of the buffer while lines go on arriving.
use logstat.Prelude.{
  ◌+◌, ◌≤◌, ◌++◌, ℕ, suc, ◌^◌, ◌<◌, ◌≡◌, refl, sym, Bool, true, List, [], ◌∷◌, arith, if◌then◌else◌,
  length,
}
use logstat.Text.{Text}
use logstat.Int64.{Int64, add64, add64-lt, add64_zero, add64_from_zero}
use logstat.Dict.{Dict, IsMap}
use logstat.Dict.Totals.{get64, get64-lt, get64-add_all, get64-nil}
use logstat.Counter.{Counter, IsValid, process_line, process_lines, drain, restore}
use logstat.Counter.Totals.{
  counts, process_line-IsValid, drain-IsValid, process_line_totals, drain_lem, restore_lem,
}

module _ (to_lower : Text → Text) where
  -- The number of lines that count the action.
  pub hits : Counter → Text → List Text → ℕ
  hits c a [] = 0
  hits c a (line ∷ lines) =
      if counts to_lower c line a then suc (hits c a lines) else hits c a lines

  pub process_lines-IsValid :
      (c : Counter) (lines : List Text)
      → IsValid to_lower c
      → IsValid to_lower (process_lines to_lower c lines)
  unfolding process_lines
  process_lines-IsValid c [] v = v
  process_lines-IsValid c (line ∷ lines) v =
      process_lines-IsValid (process_line to_lower c line).1 lines
        (process_line-IsValid to_lower c line v)

  pub hits-process_line :
      (c : Counter) (line a : Text) (lines : List Text)
      → hits (process_line to_lower c line).1 a lines ≡ hits c a lines
  unfolding hits process_line
  hits-process_line c line a [] = refl
  hits-process_line c line a (l ∷ lines) = rw (hits-process_line c line a lines)

  -- One line, and then a run of n that count the action.
  add64_step :
      (b : Bool) (x : Int64) {y z : Int64} (n : ℕ)
      → y ≡ (if b then add64 x 1 else x)
      → z ≡ add64 y n
      → z ≡ add64 x (if b then suc n else n)
  unfolding add64
  add64_step b x n h k = ground arith

  -- After a run of lines each action's totals have grown by the number of lines that count it, and
  -- the number of lines by their number. The conditions: the counter is valid, and its number of
  -- lines is an int64.
  pub process_lines_totals :
      (c : Counter) (lines : List Text) (a : Text)
      → IsValid to_lower c
      → c.lines < 2 ^ 64
      → let c' = process_lines to_lower c lines in
        (get64 a c'.pending ≡ add64 (get64 a c.pending) (hits c a lines))
        × (get64 a c'.matched ≡ add64 (get64 a c.matched) (hits c a lines))
        × (c'.lines ≡ add64 c.lines (length lines))
  unfolding process_lines hits
  process_lines_totals c [] a v fits = (
    sym (add64_zero _ (get64-lt a c.pending v.pending_Fits)),
    sym (add64_zero _ (get64-lt a c.matched v.matched_Fits)),
    sym (add64_zero _ fits),
  )
  process_lines_totals c (line ∷ lines) a v fits =
      let (p, m, l, _) = process_line_totals to_lower c line a v in
      let c' = (process_line to_lower c line).1 in
      let (rest_p, rest_m, rest_l) =
        process_lines_totals c' lines a (process_line-IsValid to_lower c line v)
          (rw l (add64-lt c.lines 1)) in
      let e = hits-process_line c line a lines in
      (
        add64_step (counts to_lower c line a) _ _ p (rw e at rest_p),
        add64_step (counts to_lower c line a) _ _ m (rw e at rest_m),
        add64_step true _ (length lines) l rest_l,
      )

  -- With an empty buffer in place of the counter's own.
  abbrev emptied : Counter → Counter
  emptied c = record c { pending = [] }

  hits-emptied :
      (c : Counter) (a : Text) (lines : List Text) → hits (emptied c) a lines ≡ hits c a lines
  unfolding hits
  hits-emptied c a [] = refl
  hits-emptied c a (line ∷ lines) = rw (hits-emptied c a lines)

  emptied-IsValid : (c : Counter) → IsValid to_lower c → IsValid to_lower (emptied c)
  emptied-IsValid c v = rw (drain_lem c).1 at (drain-IsValid to_lower c v)

  get64-restore :
      (deltas : Dict Int64) (c : Counter) (a : Text)
      → IsMap deltas
      → IsValid to_lower c
      → get64 a (restore deltas c).pending ≡ add64 (get64 a c.pending) (get64 a deltas)
  get64-restore deltas c a m v =
      rw (restore_lem deltas c) (get64-add_all a deltas c.pending m v.pending_Fits)

  -- A failed flush loses nothing: the increments that Drain took and Restore puts back, with any
  -- lines counted in between, leave the totals that the lines alone would have left. The conditions:
  -- the counter is valid, and its number of lines is an int64.
  pub restore-drain :
      (c : Counter) (lines : List Text) (a : Text)
      → IsValid to_lower c
      → c.lines < 2 ^ 64
      → let (deltas, rest) = drain c in
        let restored = restore deltas (process_lines to_lower rest lines) in
        let undisturbed = process_lines to_lower c lines in
        (get64 a restored.pending ≡ get64 a undisturbed.pending)
        × (get64 a restored.matched ≡ get64 a undisturbed.matched)
        × (restored.lines ≡ undisturbed.lines)
  restore-drain c lines a v fits =
      let ve = emptied-IsValid c v in
      let (p, m, l) = process_lines_totals c lines a v fits in
      let (pe, me, le) = process_lines_totals (emptied c) lines a ve fits in
      let he = hits-emptied c a lines in
      let back =
        get64-restore c.pending (process_lines to_lower (emptied c) lines) a v.pending_IsMap
          (process_lines-IsValid (emptied c) lines ve) in
      rw ((drain_lem c).0, (drain_lem c).1)
        (
          cc (back, pe, he, p, get64-nil a, add64_from_zero (hits c a lines) (get64 a c.pending)),
          rw restore_lem (cc (me, m, he)),
          rw restore_lem (cc (le, l)),
        )

  -- What stands in the buffer of a drained counter after some lines.
  pub process_lines-drain :
      (c : Counter) (lines : List Text) (a : Text)
      → IsValid to_lower c
      → c.lines < 2 ^ 64
      → let c' = process_lines to_lower (drain c).1 lines in
        (get64 a c'.pending ≡ add64 0 (hits c a lines)) × IsValid to_lower c'
  process_lines-drain c lines a v fits =
      let ve = emptied-IsValid c v in
      let (p, _, _) = process_lines_totals (emptied c) lines a ve fits in
      rw (drain_lem c).1
        (cc (p, hits-emptied c a lines, get64-nil a), process_lines-IsValid (emptied c) lines ve)

  -- The number of lines that count an action depends on the actions and the mode only.
  pub hits-same :
      (c c' : Counter) (a : Text) (lines : List Text)
      → c'.actions ≡ c.actions
      → c'.case_sensitive ≡ c.case_sensitive
      → hits c' a lines ≡ hits c a lines
  unfolding hits
  hits-same c c' a [] e k = refl
  hits-same c c' a (l ∷ lines) e k = rw (e, k, hits-same c c' a lines e k)

  pub process_lines-mode :
      (c : Counter) (lines : List Text)
      → ((process_lines to_lower c lines).actions ≡ c.actions)
        × ((process_lines to_lower c lines).case_sensitive ≡ c.case_sensitive)
  unfolding process_lines process_line
  process_lines-mode c [] = (refl, refl)
  process_lines-mode c (l ∷ lines) = process_lines-mode (process_line to_lower c l).1 lines

  pub hits-append :
      (c : Counter) (a : Text) (lines more : List Text)
      → hits c a (lines ++ more) ≡ hits c a lines + hits c a more
  unfolding hits
  hits-append c a [] more = omega arith
  hits-append c a (l ∷ lines) more = ground (arith, hits-append c a lines more)

  pub hits-le : (c : Counter) (a : Text) (lines : List Text) → hits c a lines ≤ length lines
  unfolding hits
  hits-le c a [] = omega arith
  hits-le c a (l ∷ lines) = ground (arith, hits-le c a lines)
