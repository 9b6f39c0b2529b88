-- ===== src/Store/Ledger.antt =====
-- The ledger of a Redis: every client has books that enter exactly the writes that are answered,
-- whatever becomes of the calls that fail and of the keys.
use logstat.Prelude.{refl, ◌&&◌, Bool, Option, none, some, if◌then◌else◌}
use logstat.Text.{Text, text_eq}
use logstat.Int64.{Int64}
use logstat.Store.Redis.{Client, Books, IsLedger, answered, is_ok, raised, carry_out_all}

-- The strings under the keys by the writes that were answered.
abbrev pub Entries : Type 0
Entries = Text → Option Text

abbrev pub enter_create : Bool → Text → Text → Entries → Entries
enter_create did k v held j =
    if did && text_eq k j then elim (held k) [ none ↦ some v | some w ↦ some w ] else held j

abbrev pub enter_set : Bool → Text → Text → Entries → Entries
enter_set did k v held j = if did && text_eq k j then some v else held j

abbrev pub enter_raise : Bool → Text → Int64 → Entries → Entries
enter_raise did k n held j = if did && text_eq k j then raised (held k) n else held j

-- The client c with a ledger beside its server: its calls reply as those of c, and make of the
-- server what those make of it.
abbrev pub tracked : Client → Client
tracked c = record {
  Server = c.Server × Entries;
  set_nx =
      λ k v ttl s. let (r, s') = c.set_nx k v ttl s.0 in (r, (s', enter_create (is_ok r) k v s.1));
  get_int64 = λ k s. let (r, s') = c.get_int64 k s.0 in (r, (s', s.1));
  set = λ k v ttl s. let (r, s') = c.set k v ttl s.0 in (r, (s', enter_set (is_ok r) k v s.1));
  incr_by = λ k n s. let (r, s') = c.incr_by k n s.0 in (r, (s', enter_raise (is_ok r) k n s.1));
  exec = λ xs s. let (x, s') = c.exec xs s.0 in (x, (s', carry_out_all 0 xs (λ _. answered x) s.1));
  mget = λ ks s. let (r, s') = c.mget ks s.0 in (r, (s', s.1));
}

pub tracked_books : (c : Client) → Books (tracked c)
tracked_books c = record {
  held = λ s. s.1;
  did_create = λ k v ttl s. is_ok (c.set_nx k v ttl s.0).0;
  did_set = λ k v ttl s. is_ok (c.set k v ttl s.0).0;
  did_raise = λ k n s. is_ok (c.incr_by k n s.0).0;
  did_run = λ xs s _. answered (c.exec xs s.0).0;
  set_nx_held = λ k v ttl s j. refl;
  get_int64_held = λ k s j. refl;
  set_held = λ k v ttl s j. refl;
  set_done = λ k v ttl s e. e;
  incr_by_held = λ k n s j. refl;
  exec_held = λ xs s j. refl;
}

-- These books are a ledger.
pub tracked-IsLedger : (c : Client) → IsLedger (tracked c) (tracked_books c)
unfolding tracked_books
tracked-IsLedger c = record { raises = λ k n s. refl; runs = λ k n ttl s. refl }
