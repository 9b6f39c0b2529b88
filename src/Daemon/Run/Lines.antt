-- ===== src/Daemon/Run/Lines.antt =====
-- The lines that a run reads, and what is only counted.
use logstat.Prelude.{
  ℕ, ap, ◌^◌, ◌<◌, ◌+◌, ◌≡◌, refl, sym, ◌∙◌, Bool, true, false, List, [], ◌∷◌, ◌++◌, arith, length,
  length-append,
}
use logstat.Text.{Text}
use logstat.Int64.{add64_assoc, add64-lt}
use logstat.Dict.Totals.{get64}
use logstat.Counter.{IsValid, process_lines}
use logstat.Counter.Buffer.{
  hits, process_lines-IsValid, process_lines_totals, process_lines-mode, hits-le,
}
use logstat.Store.Redis.{Client, Books, IsLedger}
use logstat.Store.{Store}
use logstat.Store.Effects.{total}
use logstat.Daemon.{World, reset_due}
use logstat.Daemon.Balance.{counted_lines}
use logstat.Daemon.Run.{Line, text, failed, Event, read, tick, scheduled, consume_line, consume}
use logstat.Daemon.Run.Conserved.{Conserved, Conserved-append, small_sum_right}

-- The texts that a line, an event and a run read.
abbrev pub line_texts : Line → List Text
line_texts (text t) = t ∷ []
line_texts failed = []

abbrev pub texts : List Line → List Text
texts [] = []
texts (l ∷ lines) = line_texts l ++ texts lines

abbrev pub event_texts : Event → List Text
event_texts (read l) = line_texts l
event_texts (tick _ _ lines) = lines
event_texts (scheduled _ _ _ lines) = lines

abbrev pub all_texts : List Event → List Text
all_texts [] = []
all_texts (e ∷ events) = event_texts e ++ all_texts events

-- The schedule does not fire.
abbrev pub no_resets : List Event → Bool
no_resets [] = true
no_resets (scheduled _ _ _ _ ∷ _) = false
no_resets (read _ ∷ events) = no_resets events
no_resets (tick _ _ _ ∷ events) = no_resets events

pub no_resets_first :
    (e : Event) (events : List Event) → no_resets (e ∷ events) ≡ true → no_resets (e ∷ []) ≡ true
no_resets_first (read _) events h = refl
no_resets_first (tick _ _ _) events h = refl
no_resets_first (scheduled _ _ _ _) events h = h

pub no_resets_rest :
    (e : Event) (events : List Event) → no_resets (e ∷ events) ≡ true → no_resets events ≡ true
no_resets_rest (read _) events h = h
no_resets_rest (tick _ _ _) events h = h
no_resets_rest (scheduled _ _ _ _) events h = cc

module _ (to_lower : Text → Text) (c : Client) (d : Books c) (st : Store) (actions : List Text)
    (whole : IsLedger c d) (b : Text) where
  -- The worlds in which the counting of action b goes on: with k more lines its buffered total is
  -- still an int64 that is not negative.
  pub record Sound (k : ℕ) (w : World c.Server) : Type 0 where
    pub valid : IsValid to_lower w.cnt
    pub number : w.cnt.lines < 2 ^ 64
    pub due : reset_due w.pending_resets b ≡ false
    pub room : get64 b w.cnt.pending + k < 2 ^ 63

  abbrev pub Same : List Text → World c.Server → World c.Server → Type 0
  Same lines w w' = Conserved to_lower c d st actions whole b lines w w'

  pub Sound-after :
      (lines : List Text) (k : ℕ) (w w' : World c.Server)
      → Sound (length lines + k) w
      → Same lines w w'
      → Sound k w'
  Sound-after lines k w w' s p = record {
    valid = p.valid;
    number = p.number;
    due = p.due;
    room = omega (arith, p.bound, s.room);
  }

  pub Sound-split :
      (lines more : List Text) (k : ℕ) (w : World c.Server)
      → Sound (length (lines ++ more) + k) w
      → Sound (length lines + (length more + k)) w
  Sound-split lines more k w s = record {
    valid = s.valid;
    number = s.number;
    due = s.due;
    room = omega (arith, s.room, length-append lines more);
  }

  pub Sound-none : (k : ℕ) (w : World c.Server) → Sound k w → Sound (length {A = Text} [] + k) w
  Sound-none k w s = record {
    valid = s.valid;
    number = s.number;
    due = s.due;
    room = omega (arith, s.room);
  }

  -- Lines that are only counted.
  counted-Conserved :
      (lines : List Text) (k : ℕ) (w w' : World c.Server)
      → Sound k w
      → w'.cnt ≡ process_lines to_lower w.cnt lines
      → total c d st w'.server b ≡ total c d st w.server b
      → w'.pending_resets ≡ w.pending_resets
      → Same lines w w'
  unfolding counted_lines
  counted-Conserved lines k w w' s e sv r =
      let (p, _, l) = process_lines_totals to_lower w.cnt lines b s.valid s.number in
      let (acts, mode) = process_lines-mode to_lower w.cnt lines in
      record {
        grown =
            rw (sv, e, p)
              (sym (
                add64_assoc (total c d st w.server b) (get64 b w.cnt.pending)
                  (hits to_lower w.cnt b lines)));
        valid = rw e (process_lines-IsValid to_lower w.cnt lines s.valid);
        number = rw (e, l) (add64-lt w.cnt.lines (length lines));
        due = rw r s.due;
        bound =
            rw (e, p)
              (small_sum_right (get64 b w.cnt.pending) (hits to_lower w.cnt b lines) (length lines)
                (hits-le to_lower w.cnt b lines));
        same_actions = ap (λ m. m.actions) e ∙ acts;
        same_mode = ap (λ m. m.case_sensitive) e ∙ mode;
      }

  pub consume_line_parts :
      (l : Line) (w : World c.Server)
      → let w' = consume_line to_lower c st actions l w in
        (w'.cnt ≡ process_lines to_lower w.cnt (line_texts l))
        × (w'.server ≡ w.server)
        × (w'.pending_resets ≡ w.pending_resets)
  unfolding consume_line process_lines
  consume_line_parts failed w = (refl, refl, refl)
  consume_line_parts (text t) w = ground arith

  pub consume_line-Conserved :
      (l : Line) (k : ℕ) (w : World c.Server)
      → Sound k w
      → Same (line_texts l) w (consume_line to_lower c st actions l w)
  consume_line-Conserved l k w s =
      let (cnt, server, resets) = consume_line_parts l w in
      counted-Conserved (line_texts l) k w _ s cnt (ap (λ x. total c d st x b) server) resets

  -- A world that differs in its log and its flags only.
  pub aside-Conserved :
      (k : ℕ) (w w' : World c.Server)
      → Sound k w
      → w'.cnt ≡ w.cnt
      → total c d st w'.server b ≡ total c d st w.server b
      → w'.pending_resets ≡ w.pending_resets
      → Same [] w w'
  aside-Conserved k w w' s e = counted-Conserved [] k w w' s (unfold process_lines in e)

  pub consume-Conserved :
      (lines : List Line) (k : ℕ) (w : World c.Server)
      → Sound (length (texts lines) + k) w
      → Same (texts lines) w (consume to_lower c st actions lines w)
  unfolding consume
  consume-Conserved [] k w s = aside-Conserved (0 + k) w w s refl refl refl
  consume-Conserved (l ∷ lines) k w s =
      let w1 = consume_line to_lower c st actions l w in
      let first = consume_line-Conserved l _ w s in
      let s1 =
        Sound-after (line_texts l) (length (texts lines) + k) w w1
          (Sound-split (line_texts l) (texts lines) k w s) first in
      Conserved-append to_lower c d st actions whole b (line_texts l) (texts lines) w w1
        (consume to_lower c st actions lines w1) first (consume-Conserved lines k w1 s1)
