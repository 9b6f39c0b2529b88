-- ===== src/Store/Effects/Init.antt =====
-- The totals of the actions behind Init and Touch.
use logstat.Prelude.{
  ℕ, suc, ◌≡◌, refl, ◌∙◌, inl, inr, Bool, true, false, List, [], ◌∷◌, ◌++◌, map, Option, arith,
  if◌then◌else◌,
}
use logstat.Text.{Text, codes, text_eq_iff}
use logstat.Store.Redis.{Command, incr_by, expire, persist, Client, carry_out_all, Books}
use logstat.Store.Keys.{
  Time, counter_key, heartbeat_key, format_heartbeat, counter_keys_eq, heartbeat_counter_ne,
}
use logstat.Store.{
  Action, call, Store, keys, touch_command, touch_commands, init_action, init, touch, init_value,
  init_counter, init_heartbeat, pure, ◌>>=◌,
}
use logstat.Store.Effects.{number-if, number-created, Result-cases, total}

-- No command of the pipeline is an INCRBY.
abbrev pub only_expiry : List Command → Bool
only_expiry [] = true
only_expiry (incr_by _ _ ∷ _) = false
only_expiry (expire _ _ ∷ commands) = only_expiry commands
only_expiry (persist _ ∷ commands) = only_expiry commands

-- The expiry commands leave every key as it is.
carry_out_expiry :
    (i : ℕ) (commands : List Command) (did : ℕ → Bool) (held : Text → Option Text)
    → only_expiry commands ≡ true
    → carry_out_all i commands did held ≡ held
carry_out_expiry i [] did held h = refl
carry_out_expiry i (incr_by _ _ ∷ _) did held h = cc
carry_out_expiry i (expire _ _ ∷ commands) did held h = carry_out_expiry (suc i) commands did held h
carry_out_expiry i (persist _ ∷ commands) did held h = carry_out_expiry (suc i) commands did held h

touch_keys_expiry :
    (st : Store) (ks : List Text) (rest : List Command)
    → only_expiry rest ≡ true
    → only_expiry (map (touch_command st) ks ++ rest) ≡ true
touch_keys_expiry st [] rest h = h
touch_keys_expiry st (k ∷ ks) rest h = ground (arith, touch_keys_expiry st ks rest h)

pub touch_commands_expiry :
    (st : Store) (actions : List Text) → only_expiry (touch_commands st actions) ≡ true
unfolding touch_commands
touch_commands_expiry st [] = refl
touch_commands_expiry st (a ∷ actions) =
    touch_keys_expiry st (keys st a) _ (touch_commands_expiry st actions)

module _ (c : Client) (d : Books c) (st : Store) where
  open d use {held, set_nx_held, get_int64_held, exec_held}

  pub total-touch :
      (actions : List Text) (s : c.Server) (b : Text)
      → total c d st (touch c st actions s).1 b ≡ total c d st s b
  unfolding total touch
  total-touch [] s b = refl
  total-touch (a ∷ actions) s b =
      let commands = touch_commands st (a ∷ actions) in
      rw (
        exec_held commands s (counter_key st.host b),
        carry_out_expiry 0 commands _ (held s) (touch_commands_expiry st (a ∷ actions)),
      )

  -- A key that is created with a zero has the total that it had without a key.
  total-set_nx_zero :
      (a : Text) (s : c.Server) (b : Text)
      → total c d st (c.set_nx (counter_key st.host a) (codes "0") st.ttl s).1 b ≡ total c d st s b
  unfolding total
  total-set_nx_zero a s b =
      rw
        (
          set_nx_held (counter_key st.host a) (codes "0") st.ttl s (counter_key st.host b),
          number-if,
          counter_keys_eq st.host a b,
        )
        (ground (arith, text_eq_iff a b, number-created (held s (counter_key st.host a))))

  total-set_nx_other :
      (a v : Text) (s : c.Server) (b : Text)
      → total c d st (c.set_nx (heartbeat_key st.host a) v st.ttl s).1 b ≡ total c d st s b
  unfolding total
  total-set_nx_other a v s b =
      rw
        (
          set_nx_held (heartbeat_key st.host a) v st.ttl s (counter_key st.host b),
          heartbeat_counter_ne st.host a b,
        )
        (ground arith)

  total-get :
      (a : Text) (s : c.Server) (b : Text)
      → total c d st (c.get_int64 (counter_key st.host a) s).1 b ≡ total c d st s b
  unfolding total
  total-get a s b = rw (get_int64_held (counter_key st.host a) s (counter_key st.host b))

  -- An action that leaves every total.
  abbrev Keeps : {A : Type 0} → Action c.Server A → Type 0
  Keeps m = (s : c.Server) (b : Text) → total c d st (m s).1 b ≡ total c d st s b

  Keeps-bind :
      {A B : Type 0} (m : Action c.Server A) (f : A → Action c.Server B)
      → Keeps m
      → ((a : A) → Keeps (f a))
      → Keeps (m >>= f)
  Keeps-bind m f km kf s b = elim (Result-cases (m s).0) [
    | inl (a, e) ↦ rw (e, ◌>>=◌) (kf a (m s).1 b ∙ km s b)
    | inr (x, e) ↦ rw (e, ◌>>=◌) (km s b)
  ]

  init_value-Keeps : (a : Text) (ts : Time) → Keeps (init_value c st a ts)
  init_value-Keeps a ts =
      Keeps-bind (call (init_counter a) (c.get_int64 (counter_key st.host a)))
        (λ n.
          call (init_heartbeat a)
            (c.set_nx (heartbeat_key st.host a) (format_heartbeat st.host ts a n) st.ttl))
        (λ s b. total-get a s b)
        (λ n s b. total-set_nx_other a (format_heartbeat st.host ts a n) s b)

  total-init_action : (a : Text) (ts : Time) → Keeps (init_action c st a ts)
  unfolding init_action
  total-init_action a ts =
      Keeps-bind (call (init_counter a) (c.set_nx (counter_key st.host a) (codes "0") st.ttl))
        (λ _. if st.heartbeat then init_value c st a ts else pure tt)
        (λ s b. total-set_nx_zero a s b) (λ _ s b. ground (arith, init_value-Keeps a ts s b))

  pub total-init :
      (actions : List Text) (ts : Time) (s : c.Server) (b : Text)
      → total c d st (init c st actions ts s).1 b ≡ total c d st s b
  unfolding init
  total-init [] ts s b = refl
  total-init (a ∷ actions) ts s b =
      ground
        (arith, total-init_action a ts s b, total-init actions ts (init_action c st a ts s).1 b)
