-- ===== src/Daemon/Balance/Loop.antt =====
-- What the loop of a flush keeps for one action.
use logstat.Prelude.{
  ◌⊎◌, ◌^◌, ◌<◌, ◌≡◌, refl, ◌∙◌, true, false, List, [], ◌∷◌, arith, inl, inr, Bool-cases,
  if◌then◌else◌,
}
use logstat.Text.{Text, text_eq, text_eq_iff, text_elem, Distinct}
use logstat.Int64.{Int64, add64, add64_zeros, is_positive}
use logstat.Dict.{Dict, IsMap, insert-IsMap}
use logstat.Dict.Totals.{get64, get64-insert}
use logstat.Store.Redis.{Client, Books, IsLedger}
use logstat.Store.Keys.{Time}
use logstat.Store.{Store}
use logstat.Store.Effects.{total}
use logstat.Daemon.{World, reset_due, note_error}
use logstat.Daemon.Flush.{Outcome, Flushing, flush_action, settle, flush_step, flush_loop}
use logstat.Daemon.Keeping.{Written, flush_action-Written}

-- A value that is at most zero as an int64, and not negative, is zero.
pub not_positive : (n : Int64) → n < 2 ^ 63 → is_positive n ≡ false → n ≡ 0
unfolding is_positive
not_positive n h e = ground arith

add64-none : (n m : Int64) → m ≡ 0 → n < 2 ^ 64 → add64 n m ≡ n
unfolding add64
add64-none n m e h = omega arith

module _ (c : Client) (d : Books c) (st : Store) (actions : List Text) (whole : IsLedger c d) where
  -- The lines of an action that a flush has written, and those that it will give back.
  unfoldable pub account : Text → Flushing c.Server → Int64
  account b l = add64 (total c d st l.world.server b) (get64 b l.unwritten)

  -- What a flush keeps for action b at each turn of its loop.
  pub record Kept (b : Text) (l l' : Flushing c.Server) : Type 0 where
    pub cnt : l'.world.cnt ≡ l.world.cnt
    pub due : reset_due l'.world.pending_resets b ≡ reset_due l.world.pending_resets b
    pub unwritten_IsMap : IsMap l.unwritten → IsMap l'.unwritten

  settle-Kept :
      (a b : Text) (delta : Int64) (l : Flushing c.Server) (o : Outcome) (w : World c.Server)
      → Written c d st actions whole a b delta l.world o w
      → Kept b l (settle c st actions a delta l o w)
  unfolding settle note_error
  settle-Kept a b delta l o w h = ground (arith, h.cnt, h.due, insert-IsMap a delta l.unwritten)

  settle_other :
      (a b : Text) (delta : Int64) (l : Flushing c.Server) (o : Outcome) (w : World c.Server)
      → Written c d st actions whole a b delta l.world o w
      → text_eq a b ≡ false
      → let l' = settle c st actions a delta l o w in
        (account b l' ≡ account b l) × (get64 b l'.unwritten ≡ get64 b l.unwritten)
  unfolding settle note_error account
  settle_other a b delta l o w h e = ground (arith, e, h.added, get64-insert a b delta l.unwritten)

  settle_self :
      (b : Text) (delta : Int64) (l : Flushing c.Server) (o : Outcome) (w : World c.Server)
      → Written c d st actions whole b b delta l.world o w
      → get64 b l.unwritten ≡ 0
      → delta < 2 ^ 63
      → account b (settle c st actions b delta l o w) ≡ add64 (account b l) delta
  unfolding settle note_error account
  settle_self b delta l o w h e f = ground (
    arith,
    e,
    h.added,
    h.kept,
    text_eq_iff b b,
    get64-insert b b delta l.unwritten,
    not_positive delta f,
    add64_zeros (total c d st l.world.server b) delta,
  )

  flush_step-Kept :
      (now : Time) (deltas : Dict Int64) (b a : Text) (l : Flushing c.Server)
      → reset_due l.world.pending_resets b ≡ false
      → Kept b l (flush_step c st actions now deltas l a)
  unfolding flush_step
  flush_step-Kept now deltas b a l h =
      let delta = get64 a deltas in
      let (o, w) = flush_action c st actions a delta now l.world in
      ground (
        arith,
        settle-Kept a b delta l o w
            (flush_action-Written c d st actions whole a b delta now l.world h),
        insert-IsMap a delta l.unwritten,
      )

  flush_step_other :
      (now : Time) (deltas : Dict Int64) (b a : Text) (l : Flushing c.Server)
      → reset_due l.world.pending_resets b ≡ false
      → text_eq a b ≡ false
      → let l' = flush_step c st actions now deltas l a in
        (account b l' ≡ account b l) × (get64 b l'.unwritten ≡ get64 b l.unwritten)
  unfolding flush_step account
  flush_step_other now deltas b a l h e =
      let delta = get64 a deltas in
      let (o, w) = flush_action c st actions a delta now l.world in
      ground (
        arith,
        settle_other a b delta l o w
            (flush_action-Written c d st actions whole a b delta now l.world h) e,
        get64-insert a b delta l.unwritten,
        e,
      )

  flush_step_self :
      (now : Time) (deltas : Dict Int64) (b : Text) (l : Flushing c.Server)
      → reset_due l.world.pending_resets b ≡ false
      → get64 b l.unwritten ≡ 0
      → get64 b deltas < 2 ^ 63
      → account b (flush_step c st actions now deltas l b) ≡ add64 (account b l) (get64 b deltas)
  unfolding flush_step account
  flush_step_self now deltas b l h e f =
      let delta = get64 b deltas in
      let (o, w) = flush_action c st actions b delta now l.world in
      ground (
        arith,
        settle_self b delta l o w
            (flush_action-Written c d st actions whole b b delta now l.world h) e f,
        get64-insert b b delta l.unwritten,
        e,
        text_eq_iff b b,
        not_positive delta f,
        add64_zeros (total c d st l.world.server b) delta,
      )

  pub flush_loop-Kept :
      (now : Time) (deltas : Dict Int64) (b : Text) (rest : List Text) (l : Flushing c.Server)
      → reset_due l.world.pending_resets b ≡ false
      → Kept b l (flush_loop c st actions now deltas rest l)
  unfolding flush_loop
  flush_loop-Kept now deltas b [] l h = record { cnt = refl; due = refl; unwritten_IsMap = λ m. m }
  flush_loop-Kept now deltas b (a ∷ rest) l h =
      let k = flush_step-Kept now deltas b a l h in
      let k' =
        flush_loop-Kept now deltas b rest (flush_step c st actions now deltas l a) (k.due ∙ h) in
      record {
        cnt = k'.cnt ∙ k.cnt;
        due = k'.due ∙ k.due;
        unwritten_IsMap = λ m. k'.unwritten_IsMap (k.unwritten_IsMap m);
      }

  -- Over the actions that are left, of which none stands twice, action b is accounted for once.
  pub account-flush_loop :
      (now : Time) (deltas : Dict Int64) (b : Text) (rest : List Text) (l : Flushing c.Server)
      → Distinct rest
      → reset_due l.world.pending_resets b ≡ false
      → get64 b deltas < 2 ^ 63
      → (text_elem b rest ≡ true → get64 b l.unwritten ≡ 0)
      → account b (flush_loop c st actions now deltas rest l)
        ≡ (if text_elem b rest then add64 (account b l) (get64 b deltas) else account b l)
  unfolding flush_loop text_elem
  account-flush_loop now deltas b [] l ds h f e = refl
  account-flush_loop now deltas b (a ∷ rest) l ds h f e =
      let l' = flush_step c st actions now deltas l a in
      let h' = (flush_step-Kept now deltas b a l h).due ∙ h in
      elim (Bool-cases (text_eq a b)) [
        | inr ne ↦ ground (
          arith,
          ne,
          e,
          flush_step_other now deltas b a l h ne,
          account-flush_loop now deltas b rest l' ds.1 h' f,
        )
        | inl eq ↦ ground (
          arith,
          eq,
          e,
          text_eq_iff a b,
          ds.0,
          flush_step_self now deltas b l h,
          account-flush_loop now deltas b rest l' ds.1 h' f,
        )
      ]

  -- What a flush would give back of action b is what it was, or the whole increment.
  unfoldable pub IsWhole : Text → Dict Int64 → Flushing c.Server → Flushing c.Server → Type 0
  IsWhole b deltas l l' =
      (get64 b l'.unwritten ≡ get64 b l.unwritten) ⊎ (get64 b l'.unwritten ≡ get64 b deltas)

  flush_step-IsWhole :
      (now : Time) (deltas : Dict Int64) (b a : Text) (l : Flushing c.Server)
      → IsWhole b deltas l (flush_step c st actions now deltas l a)
  unfolding flush_step settle IsWhole
  flush_step-IsWhole now deltas b a l =
      ground (arith, get64-insert a b (get64 a deltas) l.unwritten, text_eq_iff a b)

  pub flush_loop-IsWhole :
      (now : Time) (deltas : Dict Int64) (b : Text) (rest : List Text) (l : Flushing c.Server)
      → IsWhole b deltas l (flush_loop c st actions now deltas rest l)
  unfolding flush_loop IsWhole
  flush_loop-IsWhole now deltas b [] l = inl refl
  flush_loop-IsWhole now deltas b (a ∷ rest) l =
      let first : IsWhole b deltas l (flush_step c st actions now deltas l a) =
        flush_step-IsWhole now deltas b a l in
      let later = flush_loop-IsWhole now deltas b rest (flush_step c st actions now deltas l a) in
      ground (arith, first, later)
