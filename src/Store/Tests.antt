-- ===== src/Store/Tests.antt =====
-- The store on the toy server.
use logstat.Prelude.{◌≡◌, ◌↔◌, refl, true, false, List, [], ◌∷◌, none, some}
use logstat.Text.{Text, codes, text_eq, text_elem}
use logstat.Text.Decimal.{parse_int}
use logstat.Dict.{lookup}
use logstat.Store.Redis.{Reply, nil, text}
use logstat.Store.Keys.{Time, counter_key}
use logstat.Store.{Store, init, read_reply, is_unavailable}
use logstat.Store.Effects.{succeeded}
use logstat.Store.Counters.{assigned, all_readable, read_reply_exact}
use logstat.Store.Blocked.{init_refuses_foreign}
use logstat.Store.Toy.{Toy, toy, toy_books, toy-Documented, toy_held}

abbrev web : Store
web = record { host = codes "web"; heartbeat = true; ttl = 0 }

abbrev dawn : Time
dawn = record {
  year = 2024;
  month = 5;
  day = 1;
  hour = 6;
  minute = 30;
  sec = 0;
  is_west = true;
  offset = 90;
}

abbrev pair : List Text
pair = codes "get" ∷ codes "put" ∷ []

abbrev holding : Text → Toy
holding value = record { keys = (codes "logstat:counter:web:get", value) ∷ []; calls_left = 5 }

read_reply_exact_example :
    let values = text (codes "41") ∷ nil ∷ [] in
    let (out, error) = read_reply pair (Reply.ok values) in
    (lookup (codes "put") out ≡ assigned (codes "put") pair values)
    × ((error ≡ none) ↔ (all_readable values ≡ true))
    × (is_unavailable error ≡ false)
unfolding text_elem text_eq
read_reply_exact_example =
    read_reply_exact pair (text (codes "41") ∷ nil ∷ []) (codes "put") (refl, (refl, tt)) refl

init_refuses_foreign_example :
    let s = holding (codes "x") in
    let d = toy_books true in
    (succeeded (init (toy true) web pair dawn s).0 ≡ false)
    × (d.held (init (toy true) web pair dawn s).1 (counter_key web.host (codes "get"))
        ≡ some (codes "x"))
unfolding text_elem text_eq counter_key lookup parse_int
init_refuses_foreign_example =
    init_refuses_foreign (toy true) (toy_books true) (toy-Documented true) web pair (codes "get")
      (codes "x") dawn (holding (codes "x")) refl refl
      (toy_held true (holding (codes "x")) (counter_key web.host (codes "get"))) refl
