-- ===== src/Daemon/Recovery/Serving.antt =====
-- A flush that Redis answers, from its start to its end.
use mathlib.Core.Path.{subst}
use logstat.Prelude.{◌≡◌, refl, true, false, List, [], ◌∷◌, arith, inl, inr, Bool-cases}
use logstat.Text.{Text, text_eq, text_eq_iff, text_elem, Distinct}
use logstat.Int64.{Int64, is_positive}
use logstat.Dict.{Dict, lookup, lookup_or}
use logstat.Dict.Totals.{get64}
use logstat.Counter.{Counter, drain, restore}
use logstat.Store.Redis.{Client, Books}
use logstat.Store.Keys.{Time}
use logstat.Store.{Store, init}
use logstat.Store.Available.{HasRoom, AllRoom, Available, touch-Works, init-Works}
use logstat.Daemon.{World, note_ok}
use logstat.Daemon.Flush.{
  Flushing, ensure_init, refresh_ttl, settle, flush_step, flush_loop, finish_flush, flush_idle,
  flush_drained, flush,
}
use logstat.Daemon.Recovery.Maps.{HasMaps, flush_step-HasMaps}
use logstat.Daemon.Recovery.Room.{flush_step_total, ensure_init_total}
use logstat.Daemon.Recovery.{Clear, flush_action-Settled}
use logstat.Counter.Totals.{drain_lem}

module _ (c : Client) (d : Books c) (st : Store) (actions : List Text) (up : c.Server → Type 0)
    (av : Available c d st up) where
  -- The variables of the loop while all goes well; n is the counter.
  pub record Going (n : Counter) (l : Flushing c.Server) : Type 0 where
    pub is_up : up l.world.server
    pub maps : HasMaps l.world
    pub cnt : l.world.cnt ≡ n
    pub initialized : l.world.initialized ≡ true
    pub unwritten : l.unwritten ≡ []
    pub errs : l.errs ≡ 0
    pub reached : l.unreachable ≡ false

  flush_step-Going :
      (now : Time) (deltas : Dict Int64) (n : Counter) (l : Flushing c.Server) (a b : Text)
      → Going n l
      → HasRoom c d st a (get64 a deltas) l.world.server
      → let l' = flush_step c st actions now deltas l a in
        Going n l' × Clear l'.world a × (Clear l.world b → Clear l'.world b)
  unfolding flush_step settle
  flush_step-Going now deltas n l a b g r =
      let maps = flush_step-HasMaps c st actions now deltas l a g.maps in
      let settled =
        flush_action-Settled c d st actions up av a b (get64 a deltas) now l.world r g.is_up
          g.maps in
      ground (arith, g, maps, settled)

  AllRoom-head :
      (a : Text) (rest : List Text) (deltas : Dict Int64) (s : c.Server)
      → AllRoom c d st (a ∷ rest) deltas s
      → HasRoom c d st a (get64 a deltas) s
  unfolding text_elem
  AllRoom-head a rest deltas s r = r a (ground (arith, text_eq_iff a a))

  -- The writes for an action leave the room of those that are left.
  AllRoom-step :
      (now : Time) (deltas : Dict Int64) (l : Flushing c.Server) (a : Text) (rest : List Text)
      → text_elem a rest ≡ false
      → AllRoom c d st (a ∷ rest) deltas l.world.server
      → AllRoom c d st rest deltas (flush_step c st actions now deltas l a).world.server
  unfolding text_elem
  AllRoom-step now deltas l a rest absent r x e = elim (Bool-cases (text_eq a x)) [
    | inl same ↦
        let eq : a ≡ x = (text_eq_iff a x).0 same in
        let no : text_elem x rest ≡ false = subst (λ y. text_elem y rest ≡ false) eq absent in
        ground (arith, e, no)
    | inr ne ↦
        ground
          (arith, r x (ground (arith, e, ne)), flush_step_total c d st actions now deltas l a x ne)
  ]

  flush_loop-Going :
      (now : Time) (deltas : Dict Int64) (n : Counter) (rest : List Text) (l : Flushing c.Server)
      (b : Text)
      → Going n l
      → Distinct rest
      → AllRoom c d st rest deltas l.world.server
      → let l' = flush_loop c st actions now deltas rest l in
        Going n l'
        × (Clear l.world b → Clear l'.world b)
        × (text_elem b rest ≡ true → Clear l'.world b)
  unfolding flush_loop text_elem
  flush_loop-Going now deltas n [] l b g ds r = (g, (λ k. k), λ e. cc)
  flush_loop-Going now deltas n (a ∷ rest) l b g ds r =
      let l' = flush_step c st actions now deltas l a in
      let first =
        flush_step-Going now deltas n l a b g (AllRoom-head a rest deltas l.world.server r) in
      let later =
        flush_loop-Going now deltas n rest l' b first.0 ds.1
          (AllRoom-step now deltas l a rest ds.0 r) in
      ground (arith, first, later, text_eq_iff a b)

  -- What an answering Redis leaves of a flush: n is the counter.
  pub record Flushed (n : Counter) (b : Text) (w : World c.Server) : Type 0 where
    pub cnt : w.cnt ≡ n
    pub initialized : w.initialized ≡ true
    pub is_up : up w.server
    pub clear : Clear w b
    pub reached : is_positive st.ttl ≡ true → w.redis_down ≡ false

  refresh_ttl-up :
      (w : World c.Server)
      → up w.server
      → w.initialized ≡ true
      → let (reached, w') = refresh_ttl c st actions w in
        up w'.server
        × (w'.cnt ≡ w.cnt)
        × (w'.initialized ≡ w.initialized)
        × (w'.pending_resets ≡ w.pending_resets)
        × (w'.pending_heartbeats ≡ w.pending_heartbeats)
        × (is_positive st.ttl ≡ true → reached ≡ true)
  unfolding refresh_ttl
  refresh_ttl-up w h i = ground (arith, h, i, touch-Works c d st up av actions w.server h)

  pub ensure_init-up :
      (now : Time) (w : World c.Server)
      → up w.server
      → let (ready, w') = ensure_init c st actions now w in
        (ready ≡ true)
        × up w'.server
        × (w'.cnt ≡ w.cnt)
        × (w'.initialized ≡ true)
        × (w'.pending_resets ≡ w.pending_resets)
        × (w'.pending_heartbeats ≡ w.pending_heartbeats)
  unfolding ensure_init note_ok
  ensure_init-up now w h =
      let works = init-Works c d st up av actions now w.server h in
      let s' = (init c st actions now w.server).1 in
      ground (arith, h, works, touch-Works c d st up av actions s' works.1)

  finish_flush-Flushed :
      (n : Counter) (b : Text) (l : Flushing c.Server)
      → Going n l
      → Clear l.world b
      → Flushed n b (finish_flush c st actions l)
  unfolding finish_flush note_ok restore
  finish_flush-Flushed n b l g k =
      let w : World c.Server = record l.world { cnt = restore l.unwritten l.world.cnt } in
      ground (arith, g, k, refresh_ttl-up w g.is_up g.initialized)

  flush_idle-Flushed :
      (b : Text) (w : World c.Server)
      → up w.server
      → w.initialized ≡ true
      → Clear w b
      → Flushed w.cnt b (flush_idle c st actions w)
  unfolding flush_idle note_ok
  flush_idle-Flushed b w h i k = ground (arith, i, k, refresh_ttl-up w h i)

  flush_drained-Flushed :
      (now : Time) (deltas : Dict Int64) (b : Text) (w : World c.Server)
      → up w.server
      → HasMaps w
      → w.initialized ≡ true
      → text_elem b actions ≡ true
      → Distinct actions
      → AllRoom c d st actions deltas w.server
      → Flushed w.cnt b (flush_drained c st actions now deltas w)
  unfolding flush_drained lookup_or lookup
  flush_drained-Flushed now deltas b w h m i e ds r =
      let l : Flushing c.Server = record {
        world = w;
        unwritten = [];
        written = 0;
        errs = 0;
        unreachable = false;
      } in
      let l' = flush_loop c st actions now deltas actions l in
      let going : Going w.cnt l = record {
        is_up = h;
        maps = m;
        cnt = refl;
        initialized = i;
        unwritten = refl;
        errs = refl;
        reached = refl;
      } in
      let looped = flush_loop-Going now deltas w.cnt actions l b going ds r in
      let done = finish_flush-Flushed w.cnt b l' looped.0 (looped.2 e) in
      ground (arith, done, flush_idle-Flushed b w h i)

  -- A flush during which Redis answers leaves nothing to be done for a configured action: all that was
  -- buffered is drained and nothing of it is given back, no reset of the action is due and no
  -- heartbeat is to be written; the keys are initialised; and, with an expiry, the outage is over.
  -- What was counted during the flush stays in the buffer. The conditions: the operations of the
  -- store are answered by a server that is up, an increment where it does not overflow; it is up when
  -- the flush begins; the actions are distinct, and the total of each has room for what is buffered
  -- for it; and no action stands twice in the maps of what is due.
  pub flush_recovers :
      (meanwhile : Counter → Counter) (init_now now : Time) (w : World c.Server) (b : Text)
      → up w.server
      → HasMaps w
      → text_elem b actions ≡ true
      → Distinct actions
      → AllRoom c d st actions w.cnt.pending w.server
      → Flushed (meanwhile (drain w.cnt).1) b (flush c st actions meanwhile init_now now w)
  unfolding flush
  flush_recovers meanwhile init_now now w b h m e ds r =
      let w1 = (ensure_init c st actions init_now w).1 in
      let (deltas, cnt) = drain w1.cnt in
      let w2 : World c.Server = record w1 { cnt = meanwhile cnt } in
      let (ready, is_up, same, initialized, resets, heartbeats) = ensure_init-up init_now w h in
      let maps : HasMaps w2 = record {
        resets = rw resets m.resets;
        heartbeats = rw heartbeats m.heartbeats;
      } in
      let room : AllRoom c d st actions deltas w2.server = λ x f.
        ground
          (arith, r x f, same, drain_lem w1.cnt, ensure_init_total c d st actions init_now w x) in
      rw ready (
        subst (λ n. Flushed (meanwhile (drain n).1) b (flush_drained c st actions now deltas w2))
          same (flush_drained-Flushed now deltas b w2 is_up maps initialized e ds room))
