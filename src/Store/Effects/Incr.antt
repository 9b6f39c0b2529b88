-- ===== src/Store/Effects/Incr.antt =====
-- The total of an action behind Incr, and what the result of Incr says of it.
use logstat.Prelude.{◌∙◌, ◌≡◌, inl, inr, Bool, ◌&&◌, arith, if◌then◌else◌, Bool-cases}
use logstat.Text.{Text, text_eq}
use logstat.Int64.{Int64, add64, is_positive}
use logstat.Store.Redis.{is_ok, Client, Books, IsLedger, answered}
use logstat.Store.Keys.{counter_key, counter_keys_eq}
use logstat.Store.{wrap, Store, incr, incr_result, incr_commands, incrby_step}
use logstat.Store.Effects.{number-raised, number-if, succeeded, total}

module _ (c : Client) (d : Books c) (st : Store) where
  open d use {held, incr_by_held, exec_held, did_raise, did_run}

  -- The pipeline of Incr: the increment is entered exactly if its own command is.
  total-exec :
      (a : Text) (n : Int64) (s : c.Server) (b : Text)
      → let (x, s') = c.exec (incr_commands st a n) s in
        total c d st s' b ≡ (
          if did_run (incr_commands st a n) s 0 && text_eq a b
          then add64 (total c d st s a) n
          else total c d st s b)
  unfolding total
  total-exec a n s b = rw (
    exec_held (incr_commands st a n) s (counter_key st.host b),
    number-if,
    number-raised,
    counter_keys_eq st.host a b,
  )

  total-incr_by :
      (a : Text) (n : Int64) (s : c.Server) (b : Text)
      → let (r, s') = c.incr_by (counter_key st.host a) n s in
        total c d st s' b ≡ (
          if did_raise (counter_key st.host a) n s && text_eq a b
          then add64 (total c d st s a) n
          else total c d st s b)
  unfolding total
  total-incr_by a n s b = rw (
    incr_by_held (counter_key st.host a) n s (counter_key st.host b),
    number-if,
    number-raised,
    counter_keys_eq st.host a b,
  )

  -- Whether the books enter the INCRBY of a call of Incr.
  unfoldable pub counted : Text → Int64 → c.Server → Bool
  counted a n s =
      if is_positive st.ttl
      then did_run (incr_commands st a n) s 0
      else did_raise (counter_key st.host a) n s

  pub total-incr :
      (a : Text) (n : Int64) (s : c.Server) (b : Text)
      → total c d st (incr c st a n s).1 b
        ≡ (if counted a n s && text_eq a b then add64 (total c d st s a) n else total c d st s b)
  unfolding incr counted
  total-incr a n s b = elim (Bool-cases (is_positive st.ttl)) [
    | inl expiring ↦ rw expiring (total-exec a n s b)
    | inr lasting ↦ rw lasting (total-incr_by a n s b)
  ]

  answered-succeeded :
      (a : Text) (n : Int64) (s : c.Server)
      → let x = (c.exec (incr_commands st a n) s).0 in answered x ≡ succeeded (incr_result c st a x)
  answered-succeeded a n s = ground arith

  single-succeeded :
      (a : Text) (n : Int64) (s : c.Server)
      → let r = (c.incr_by (counter_key st.host a) n s).0 in
        is_ok r ≡ succeeded (wrap (incrby_step a) r)
  single-succeeded a n s = ground arith

  -- A ledger enters the increment of Incr exactly if Incr succeeds.
  pub counted-succeeded :
      IsLedger c d
      → (a : Text) (n : Int64) (s : c.Server) → counted a n s ≡ succeeded (incr c st a n s).0
  unfolding counted incr
  counted-succeeded whole a n s = elim (Bool-cases (is_positive st.ttl)) [
    | inl expiring ↦
        rw expiring (whole.runs (counter_key st.host a) n st.ttl s ∙ answered-succeeded a n s)
    | inr lasting ↦ rw lasting (whole.raises (counter_key st.host a) n s ∙ single-succeeded a n s)
  ]
