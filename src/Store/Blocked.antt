-- ===== src/Store/Blocked.antt =====
-- Store.Init on a counter key whose value is no integer.
use logstat.Prelude.{
  ◌≡◌, refl, ◌∙◌, true, false, List, [], ◌∷◌, Option, none, some, arith, inl, inr,
}
use logstat.Text.{Text, codes, text_eq_iff, text_elem}
use logstat.Text.Decimal.{parse_int}
use logstat.Int64.{Int64}
use logstat.Store.Redis.{ok, Reply, Client, Books, Documented, is_ok}
use logstat.Store.Keys.{Time, counter_key, heartbeat_key, format_heartbeat, heartbeat_counter_ne}
use logstat.Store.{Store, init, init_action, init_value, call, init_counter}
use logstat.Store.Effects.{succeeded, Result-cases}

reply_refused :
    (t : Text) (o : Option Text) (r : Reply Int64)
    → o ≡ some t
    → parse_int t ≡ none
    → ((n : Int64) → r ≡ ok n → (u : Text) × (o ≡ some u) × (parse_int u ≡ some n))
    → is_ok r ≡ false
reply_refused t o (Reply.failed x) e p f = refl
reply_refused t o (Reply.ok n) e p f = let (u, k, q) = f n refl in ground (arith, e, k, p, q)

module _ (c : Client) (d : Books c) (doc : Documented c d) (st : Store) where
  open d use {held, set_nx_held, get_int64_held}
  open doc use {get_int64_value}

  -- The counter key of an action holds this value.
  abbrev Holds : Text → Text → c.Server → Type 0
  Holds a t s = held s (counter_key st.host a) ≡ some t

  set_nx_Holds :
      (a b v t : Text) (s : c.Server)
      → Holds a t s
      → Holds a t (c.set_nx (counter_key st.host b) v st.ttl s).1
  set_nx_Holds a b v t s h = ground (
    arith,
    h,
    set_nx_held (counter_key st.host b) v st.ttl s (counter_key st.host a),
    text_eq_iff (counter_key st.host b) (counter_key st.host a),
  )

  init_value-Holds :
      (a b t : Text) (ts : Time) (s : c.Server) → Holds a t s → Holds a t (init_value c st b ts s).1
  init_value-Holds a b t ts s h =
      let s' = (c.get_int64 (counter_key st.host b) s).1 in
      let kept : Holds a t s' =
        get_int64_held (counter_key st.host b) s (counter_key st.host a) ∙ h in
      elim (Result-cases (call (init_counter b) (c.get_int64 (counter_key st.host b)) s).0) [
        | inl (n, e) ↦
            let v = format_heartbeat st.host ts b n in
            ground (
              arith,
              e,
              kept,
              set_nx_held (heartbeat_key st.host b) v st.ttl s' (counter_key st.host a),
              heartbeat_counter_ne st.host b a,
            )
        | inr (x, e) ↦ ground (arith, e, kept)
      ]

  init_action-Holds :
      (a b t : Text) (ts : Time) (s : c.Server)
      → Holds a t s
      → Holds a t (init_action c st b ts s).1
  unfolding init_action
  init_action-Holds a b t ts s h =
      let s' = (c.set_nx (counter_key st.host b) (codes "0") st.ttl s).1 in
      let h' = set_nx_Holds a b (codes "0") t s h in
      ground (arith, h', init_value-Holds a b t ts s' h')

  init_action_refused :
      (a t : Text) (ts : Time) (s : c.Server)
      → st.heartbeat ≡ true
      → parse_int t ≡ none
      → Holds a t s
      → succeeded (init_action c st a ts s).0 ≡ false
  unfolding init_action
  init_action_refused a t ts s hb p h =
      let s' = (c.set_nx (counter_key st.host a) (codes "0") st.ttl s).1 in
      let h' = set_nx_Holds a a (codes "0") t s h in
      ground (
        arith,
        hb,
        reply_refused t (held s' (counter_key st.host a)) (c.get_int64 (counter_key st.host a) s').0
            h' p (get_int64_value (counter_key st.host a) s'),
      )

  -- With the heartbeat on, one counter key whose value is no integer makes the initialisation of all
  -- actions fail, each time. The conditions: the books d are the keys of a Redis that expires none meanwhile, a GET
  -- that is answered with an integer found it there, and the key is that of an action of the list.
  pub init_refuses_foreign :
      (actions : List Text) (a t : Text) (ts : Time) (s : c.Server)
      → st.heartbeat ≡ true
      → parse_int t ≡ none
      → held s (counter_key st.host a) ≡ some t
      → text_elem a actions ≡ true
      → (succeeded (init c st actions ts s).0 ≡ false)
        × (held (init c st actions ts s).1 (counter_key st.host a) ≡ some t)
  unfolding init text_elem
  init_refuses_foreign [] a t ts s hb p h e = cc
  init_refuses_foreign (b ∷ actions) a t ts s hb p h e =
      let s' = (init_action c st b ts s).1 in
      ground (
        arith,
        e,
        text_eq_iff b a,
        init_action-Holds a b t ts s h,
        init_action_refused a t ts s hb p h,
        init_refuses_foreign actions a t ts s' hb p,
      )
