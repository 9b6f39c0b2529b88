-- ===== src/Daemon/Recovery/Loop.antt =====
-- The maps of the daemon over a run.
use logstat.Prelude.{◌≡◌, refl, ap, sym, ◌∙◌, List, [], ◌∷◌, arith}
use logstat.Text.{Text}
use logstat.Counter.{process_line, process_lines}
use logstat.Store.Redis.{Client}
use logstat.Store.Keys.{Time}
use logstat.Store.{Store}
use logstat.Daemon.{Message, World, say, reset_fired}
use logstat.Daemon.Flush.{ensure_init}
use logstat.Daemon.Run.{
  text, failed, Line, Event, read, tick, scheduled, consume_line, consume, handle, handle_all,
}
use logstat.Daemon.Recovery.Maps.{
  HasMaps, SameMaps, same-HasMaps, ensure_init_maps, flush-HasMaps, reset_counters-HasMaps,
}

module _ (to_lower : Text → Text) (c : Client) (st : Store) (actions : List Text) where
  -- Lines leave everything but the counter and the log.
  pub consume_line_rest :
      (line : Line) (w : World c.Server)
      → let w' = consume_line to_lower c st actions line w in
        SameMaps c st actions w w' × (w'.server ≡ w.server)
  unfolding consume_line
  consume_line_rest failed w = ((refl, refl), refl)
  consume_line_rest (text t) w = ground arith

  pub consume_rest :
      (lines : List Line) (w : World c.Server)
      → let w' = consume to_lower c st actions lines w in
        SameMaps c st actions w w' × (w'.server ≡ w.server)
  unfolding consume
  consume_rest [] w = ((refl, refl), refl)
  consume_rest (line ∷ lines) w =
      let w1 = consume_line to_lower c st actions line w in
      ground (arith, consume_line_rest line w, consume_rest lines w1)

  consume_line_counts :
      (t : Text) (w : World c.Server)
      → (consume_line to_lower c st actions (text t) w).cnt ≡ (process_line to_lower w.cnt t).1
  unfolding consume_line
  consume_line_counts t w = ground arith

  -- What lines make of the counter depends on the counter only.
  consume_line_same :
      (line : Line) (w w' : World c.Server)
      → w'.cnt ≡ w.cnt
      → (consume_line to_lower c st actions line w').cnt
        ≡ (consume_line to_lower c st actions line w).cnt
  unfolding consume_line
  consume_line_same failed w w' e = e
  consume_line_same (text t) w w' e =
      consume_line_counts t w'
      ∙ ap (λ n. (process_line to_lower n t).1) e
      ∙ sym (consume_line_counts t w)

  pub consume_same :
      (lines : List Line) (w w' : World c.Server)
      → w'.cnt ≡ w.cnt
      → (consume to_lower c st actions lines w').cnt ≡ (consume to_lower c st actions lines w).cnt
  unfolding consume
  consume_same [] w w' e = e
  consume_same (line ∷ lines) w w' e = consume_same lines _ _ (consume_line_same line w w' e)

  pub handle-HasMaps :
      (e : Event) (w : World c.Server) → HasMaps w → HasMaps (handle to_lower c st actions e w)
  unfolding handle
  handle-HasMaps (read line) w h =
      let same = consume_line_rest line w in
      same-HasMaps c st actions w (consume_line to_lower c st actions line w) same.0 h
  handle-HasMaps (tick init_now now lines) w h =
      flush-HasMaps c st actions (λ n. process_lines to_lower n lines) init_now now w h
  handle-HasMaps (scheduled init_now flush_now now lines) w h =
      reset_counters-HasMaps c st actions (λ n. process_lines to_lower n lines) init_now flush_now
        now (say reset_fired w) (record { resets = h.resets; heartbeats = h.heartbeats })

  handle_all-HasMaps :
      (events : List Event) (w : World c.Server)
      → HasMaps w
      → HasMaps (handle_all to_lower c st actions events w)
  unfolding handle_all
  handle_all-HasMaps [] w h = h
  handle_all-HasMaps (e ∷ events) w h = handle_all-HasMaps events _ (handle-HasMaps e w h)

  -- From its start to its end a run notes no action twice as due.
  pub loop-HasMaps :
      (scheduling : Message) (start_now : Time) (events : List Event) (w : World c.Server)
      → HasMaps w
      → HasMaps (
          handle_all to_lower c st actions events
            (say scheduling (ensure_init c st actions start_now w).1))
  loop-HasMaps scheduling start_now events w h =
      let w0 = (ensure_init c st actions start_now w).1 in
      let h0 = same-HasMaps c st actions w w0 (ensure_init_maps c st actions start_now w) h in
      handle_all-HasMaps events (say scheduling w0)
        (record { resets = h0.resets; heartbeats = h0.heartbeats })
