-- ===== src/Daemon/Recovery.antt =====
-- What a flush that Redis answers leaves.
pub mod Maps
pub mod Room
pub mod Loop
pub mod Serving
pub mod Delivery
pub mod Tests
use logstat.Prelude.{
  ◌≡◌, refl, sym, ◌∙◌, Bool, true, false, List, [], ◌∷◌, none, arith, inl, inr, Bool-cases,
  if◌then◌else◌,
}
use logstat.Text.{Text, text_eq, text_eq_iff, text_elem}
use logstat.Int64.{Int64, is_positive}
use logstat.Dict.{
  Dict, IsMap, insert, erase, lookup, lookup_or, lookup-erase_ne, lookup-erase_self, erase-IsMap,
}
use logstat.Store.Redis.{Client, Books}
use logstat.Store.Keys.{Time}
use logstat.Store.{Store, incr, reset, set_heartbeat}
use logstat.Store.Effects.{Result-cases, total-reset}
use logstat.Store.Available.{
  HasRoom, Available, set_heartbeat-Works, reset-Works, incr-Works, touch-Works, init-Works,
}
use logstat.Daemon.{World, reset_due, note_ok}
use logstat.Daemon.Resets.{erase_not_due, erase_due}
use logstat.Daemon.Recovery.Maps.{HasMaps}
use logstat.Daemon.Flush.{Outcome, total_or_zero, write_heartbeat, write_delta, flush_action}

-- Nothing waits for this action beside the buffer: no reset is due, and no heartbeat is to be written.
abbrev pub Clear : {S : Type 0} → World S → Text → Type 0
Clear w b = (reset_due w.pending_resets b ≡ false) × (lookup b w.pending_heartbeats ≡ none)

module _ (c : Client) (d : Books c) (st : Store) (actions : List Text) (up : c.Server → Type 0)
    (av : Available c d st up) where
  -- The writes for action a succeed, settle what waits for it, and leave the rest.
  pub record Settled (a b : Text) (w : World c.Server) (o : Outcome) (w' : World c.Server)
      : Type 0 where
    pub error : o.error ≡ none
    pub retry : o.retry_delta ≡ false
    pub is_up : up w'.server
    pub cnt : w'.cnt ≡ w.cnt
    pub initialized : w'.initialized ≡ w.initialized
    pub cleared : lookup a w'.pending_heartbeats ≡ none
    pub resets : w'.pending_resets ≡ w.pending_resets
    pub other : text_eq a b ≡ false → lookup b w'.pending_heartbeats ≡ lookup b w.pending_heartbeats

  write_heartbeat-Settled :
      (a b : Text) (n : Int64) (now : Time) (w : World c.Server)
      → up w.server
      → IsMap w.pending_heartbeats
      → let (o, w') = write_heartbeat c st actions a n now w in Settled a b w o w'
  unfolding write_heartbeat
  write_heartbeat-Settled a b n now w h m = ground (
    arith,
    set_heartbeat-Works c d st up av a n now w.server h,
    lookup-erase_self a w.pending_heartbeats m,
    lookup-erase_ne a b w.pending_heartbeats,
  )

  write_delta-Settled :
      (a b : Text) (delta : Int64) (now : Time) (w : World c.Server)
      → HasRoom c d st a delta w.server
      → up w.server
      → IsMap w.pending_heartbeats
      → let (o, w') = write_delta c st actions a delta now w in Settled a b w o w'
  unfolding write_delta
  write_delta-Settled a b delta now w r h m =
      let later : World c.Server = record w { server = (incr c st a delta w.server).1 } in
      let counted = incr-Works c d st up av a delta w.server r h in
      let total = total_or_zero (lookup a w.pending_heartbeats) in
      let idle = write_heartbeat-Settled a b total now w h m in
      elim (Result-cases (incr c st a delta w.server).0) [
        | inl (n, e) ↦
            ground (arith, e, h, idle, write_heartbeat-Settled a b n now later counted.1 m)
        | inr (x, e) ↦ ground (arith, e, h, counted, idle)
      ]

  pub flush_action-Settled :
      (a b : Text) (delta : Int64) (now : Time) (w : World c.Server)
      → HasRoom c d st a delta w.server
      → up w.server
      → HasMaps w
      → let (o, w') = flush_action c st actions a delta now w in
        (o.error ≡ none)
        × (o.retry_delta ≡ false)
        × up w'.server
        × (w'.cnt ≡ w.cnt)
        × (w'.initialized ≡ w.initialized)
        × Clear w' a
        × (Clear w b → Clear w' b)
  unfolding flush_action
  flush_action-Settled a b delta now w r h m =
      let s' = (reset c st a now w.server).1 in
      let done : World c.Server = record w {
        server = s';
        pending_resets = erase a w.pending_resets;
        pending_heartbeats = erase a w.pending_heartbeats;
      } in
      let erased = erase-IsMap a w.pending_heartbeats m.heartbeats in
      let works = reset-Works c d st up av a now w.server h in
      let direct = write_delta-Settled a b delta now w r h m.heartbeats in
      let fits : HasRoom c d st a delta s' =
        ground (arith, r, works, total-reset c d st a now w.server a, text_eq_iff a a) in
      let behind = write_delta-Settled a b delta now done fits works.1 erased in
      ground (
        arith,
        works,
        direct,
        behind,
        erase_not_due a w.pending_resets m.resets,
        erase_due a b w.pending_resets,
        lookup-erase_ne a b w.pending_heartbeats,
        text_eq_iff a b,
      )
