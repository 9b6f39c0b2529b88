-- ===== src/Daemon/Reset.antt =====
-- internal/daemon/daemon.go: Reset.
use logstat.Prelude.{ℕ, suc, Bool, true, false, List, [], ◌∷◌, some, length, ◌==◌, if◌then◌else◌}
use logstat.Text.{Text}
use logstat.Dict.{insert, erase}
use logstat.Counter.{Counter}
use logstat.Store.Redis.{Client}
use logstat.Store.Keys.{Time}
use logstat.Store.{done, err, Store, is_unavailable, reset}
use logstat.Daemon.{op_reset, counters_reset, reset_incomplete, World, say, note_error, note_ok}
use logstat.Daemon.Flush.{flush}

-- The variables of the loop of Reset.
pub record Resetting (S : Type 0) : Type 0 where
  pub world : World S
  pub errs : ℕ
  pub unreachable : Bool

module _ (c : Client) (st : Store) (actions : List Text) where
  -- The body of the loop of Reset.
  unfoldable pub reset_step : Time → Resetting c.Server → Text → Resetting c.Server
  reset_step now l action =
      let w = l.world in
      let due = insert action true w.pending_resets in
      if l.unreachable
      then record l { world = record w { pending_resets = due }; errs = suc l.errs }
      else (let (r, s) = reset c st action now w.server in
          elim r [
            | err e ↦ record {
              world = note_error op_reset e (record w { server = s; pending_resets = due });
              errs = suc l.errs;
              unreachable = is_unavailable (some e);
            }
            | done _ ↦ record l {
              world = record w {
                server = s;
                pending_heartbeats = erase action w.pending_heartbeats;
                pending_resets = erase action w.pending_resets;
              };
            }
          ])

  -- The loop of Reset, over the actions that are left.
  unfoldable pub reset_loop : Time → List Text → Resetting c.Server → Resetting c.Server
  reset_loop now [] l = l
  reset_loop now (a ∷ rest) l = reset_loop now rest (reset_step now l a)

  -- Reset behind its loop.
  unfoldable pub finish_reset : Resetting c.Server → World c.Server
  finish_reset l =
      if l.errs == 0
      then say (counters_reset (length actions)) (note_ok l.world)
      else say (reset_incomplete l.errs) l.world

  -- Daemon.Reset; the arguments are those of Flush, and the time that Reset reads.
  unfoldable pub reset_counters :
      (Counter → Counter) → Time → Time → Time → World c.Server → World c.Server
  reset_counters meanwhile init_now flush_now now w = finish_reset (
      reset_loop now actions (record {
        world = flush c st actions meanwhile init_now flush_now w;
        errs = 0;
        unreachable = false;
      }))
