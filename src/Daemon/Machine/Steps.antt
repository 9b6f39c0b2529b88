-- ===== src/Daemon/Machine/Steps.antt =====
-- What the parts of a run do for one action: its counter, its maps, and the moves of its machine.
use logstat.Prelude.{
  ℕ, ◌+◌, ◌^◌, ◌<◌, ◌≡◌, sym, ◌∙◌, true, List, [], ◌∷◌, ◌++◌, arith, length, length-append,
}
use logstat.Text.{Text, text_elem, Distinct}
use logstat.Dict.Totals.{get64}
use logstat.Counter.{Counter, IsValid, process_lines}
use logstat.Counter.Buffer.{hits, hits-same, hits-append}
use logstat.Store.Redis.{Client, Books, IsLedger}
use logstat.Store.Keys.{Time}
use logstat.Store.{Store}
use logstat.Store.Effects.{total}
use logstat.Daemon.{World}
use logstat.Daemon.Flush.{flush}
use logstat.Daemon.Reset.{reset_counters}
use logstat.Daemon.Run.{Event, read, tick, scheduled}
use logstat.Daemon.Run.Conserved.{Counted, process_lines-Counted, flush-Counted}
use logstat.Daemon.Recovery.Maps.{
  HasMaps, SameMaps, same-HasMaps, flush-HasMaps, reset_counters-HasMaps,
}
use logstat.Daemon.Machine.{Reaches, Reaches-append, view}
use logstat.Daemon.Machine.Flush.{counted-Reaches, flush-Reaches}
use logstat.Daemon.Machine.Reset.{reset_counters-Reaches, reset_counters-cnt}

-- The resets that a run is asked for.
abbrev pub asks_in : List Event → ℕ
asks_in [] = 0
asks_in (read _ ∷ events) = asks_in events
asks_in (tick _ _ _ ∷ events) = asks_in events
asks_in (scheduled _ _ _ _ ∷ events) = 1 + asks_in events

module _ (to_lower : Text → Text) (c : Client) (d : Books c) (st : Store) (actions : List Text)
    (whole : IsLedger c d) (b : Text) where
  -- The worlds that a run starts from: with k more lines the action's buffered total is still an int64
  -- that is not negative.
  pub record Ready (k : ℕ) (w : World c.Server) : Type 0 where
    pub valid : IsValid to_lower w.cnt
    pub number : w.cnt.lines < 2 ^ 64
    pub maps : HasMaps w
    pub room : get64 b w.cnt.pending + k < 2 ^ 63

  -- From w to w' these lines were read, and this number of resets was asked for.
  pub record Step (lines : List Text) (asks : ℕ) (w w' : World c.Server) : Type 0 where
    pub counter : Counted to_lower c d st actions whole b lines w.cnt w'.cnt
    pub maps : HasMaps w'
    pub reaches : Reaches (hits to_lower w.cnt b lines) asks (view c d st b w) (view c d st b w')

  pub Step-append :
      (lines more : List Text) (n m : ℕ) (w w1 w2 : World c.Server)
      → Step lines n w w1
      → Step more m w1 w2
      → Step (lines ++ more) (n + m) w w2
  Step-append lines more n m w w1 w2 p q = record {
    counter = record {
      valid = q.counter.valid;
      number = q.counter.number;
      bound = omega (arith, p.counter.bound, q.counter.bound, length-append lines more);
      same_actions = q.counter.same_actions ∙ p.counter.same_actions;
      same_mode = q.counter.same_mode ∙ p.counter.same_mode;
    };
    maps = q.maps;
    reaches =
        rw
          (
            hits-append to_lower w.cnt b lines more,
            sym (hits-same to_lower w.cnt w1.cnt b more p.counter.same_actions p.counter.same_mode),
          )
          (Reaches-append _ _ _ _ _ _ _ p.reaches q.reaches);
  }

  pub Ready-after :
      (lines : List Text) (k asks : ℕ) (w w' : World c.Server)
      → Ready (length lines + k) w
      → Step lines asks w w'
      → Ready k w'
  Ready-after lines k asks w w' s p = record {
    valid = p.counter.valid;
    number = p.counter.number;
    maps = p.maps;
    room = omega (arith, p.counter.bound, s.room);
  }

  pub Ready-split :
      (lines more : List Text) (k : ℕ) (w : World c.Server)
      → Ready (length (lines ++ more) + k) w
      → Ready (length lines + (length more + k)) w
  Ready-split lines more k w s = record {
    valid = s.valid;
    number = s.number;
    maps = s.maps;
    room = omega (arith, s.room, length-append lines more);
  }

  -- Lines that are only counted.
  pub counted-Step :
      (lines : List Text) (k : ℕ) (w w' : World c.Server)
      → Ready k w
      → w'.cnt ≡ process_lines to_lower w.cnt lines
      → total c d st w'.server b ≡ total c d st w.server b
      → SameMaps c st actions w w'
      → Step lines 0 w w'
  counted-Step lines k w w' s e t m = record {
    counter =
        process_lines-Counted to_lower c d st actions whole b lines w.cnt w'.cnt s.valid s.number e;
    maps = same-HasMaps c st actions w w' m s.maps;
    reaches = counted-Reaches c d st actions whole b to_lower lines w w' s.valid s.number e t m.0;
  }

  -- A world that differs in its log and its flags only.
  pub aside-Step :
      (k : ℕ) (w w' : World c.Server)
      → Ready k w
      → w'.cnt ≡ w.cnt
      → total c d st w'.server b ≡ total c d st w.server b
      → SameMaps c st actions w w'
      → Step [] 0 w w'
  aside-Step k w w' s e = counted-Step [] k w w' s (unfold process_lines in e)

  module _ (distinct : Distinct actions) (listed : text_elem b actions ≡ true) where
    pub flush-Step :
        (lines : List Text) (k : ℕ) (init_now now : Time) (w : World c.Server)
        → Ready k w
        → Step lines 0 w (flush c st actions (λ n. process_lines to_lower n lines) init_now now w)
    flush-Step lines k init_now now w s = record {
      counter = flush-Counted to_lower c d st actions whole b lines init_now now w s.valid s.number;
      maps = flush-HasMaps c st actions (λ n. process_lines to_lower n lines) init_now now w s.maps;
      reaches =
          flush-Reaches c d st actions whole b to_lower lines init_now now w distinct listed s.valid
            s.number (omega (arith, s.room)) s.maps;
    }

    pub reset_counters-Step :
        (lines : List Text) (k : ℕ) (init_now flush_now now : Time) (w : World c.Server)
        → Ready k w
        → Step lines 1 w (
            reset_counters c st actions
              (λ n. process_lines to_lower n lines)
              init_now
              flush_now
              now
              w)
    reset_counters-Step lines k init_now flush_now now w s =
        let meanwhile = λ (n : Counter). process_lines to_lower n lines in
        record {
          counter = rw (reset_counters-cnt c st actions meanwhile init_now flush_now now w) (
              flush-Counted to_lower c d st actions whole b lines init_now flush_now w s.valid
                s.number);
          maps = reset_counters-HasMaps c st actions meanwhile init_now flush_now now w s.maps;
          reaches =
              reset_counters-Reaches c d st actions b whole to_lower lines init_now flush_now now w
                distinct listed s.valid s.number (omega (arith, s.room)) s.maps;
        }
