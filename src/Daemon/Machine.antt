-- ===== src/Daemon/Machine.antt =====
-- What a daemon promises for one action, as a machine of its own: the total in Redis, the lines that
-- wait to be written, and whether a reset is due.
pub mod Write
pub mod Loop
pub mod Flush
pub mod Reset
pub mod Steps
pub mod Whole
pub mod Tests
use mathlib.Core.Path.{subst}
use logstat.Prelude.{ℕ, ◌+◌, ◌≡◌, refl, sym, Bool, true, false, List, [], ◌∷◌, ◌++◌, arith}
use logstat.Text.{Text}
use logstat.Int64.{Int64, add64, is_positive}
use logstat.Dict.Totals.{get64}
use logstat.Store.Redis.{Client, Books}
use logstat.Store.{Store}
use logstat.Store.Effects.{total}
use logstat.Daemon.{World, reset_due}

pub record View : Type 0 where
  pub total : Int64
  pub waiting : Int64
  pub due : Bool

-- A move: lines are counted; a reset is asked for; the total is zeroed, and the reset may stay due;
-- lines that wait are written, and the rest goes on waiting.
pub data Move : Type 0 where
  counted : ℕ → Move
  asked : Move
  zeroed : Bool → Move
  written : Int64 → Int64 → Move

abbrev pub after : Move → View → View
after (counted n) v = record v { waiting = add64 v.waiting n }
after asked v = record v { due = true }
after (zeroed due) v = record v { total = 0; due = due }
after (written n rest) v = record v { total = add64 v.total n; waiting = rest }

-- Only a reset that is due zeroes, and nothing is written while one is due.
abbrev pub Allowed : Move → View → Type 0
Allowed (counted _) v = Unit
Allowed asked v = Unit
Allowed (zeroed _) v = v.due ≡ true
Allowed (written n rest) v = (v.due ≡ false) × (v.waiting ≡ add64 rest n)

-- The moves lead from one view to the other.
abbrev pub Leads : List Move → View → View → Type 0
Leads [] v v' = v ≡ v'
Leads (m ∷ moves) v v' = Allowed m v × Leads moves (after m v) v'

-- The lines that the moves count, and the resets that they ask for.
abbrev pub lines_of : List Move → ℕ
lines_of [] = 0
lines_of (counted n ∷ moves) = n + lines_of moves
lines_of (asked ∷ moves) = lines_of moves
lines_of (zeroed _ ∷ moves) = lines_of moves
lines_of (written _ _ ∷ moves) = lines_of moves

abbrev pub asks_of : List Move → ℕ
asks_of [] = 0
asks_of (counted _ ∷ moves) = asks_of moves
asks_of (asked ∷ moves) = 1 + asks_of moves
asks_of (zeroed _ ∷ moves) = asks_of moves
asks_of (written _ _ ∷ moves) = asks_of moves

-- The machine can go from one view to the other with this number of lines and of resets.
pub record Reaches (lines asks : ℕ) (v v' : View) : Type 0 where
  pub moves : List Move
  pub leads : Leads moves v v'
  pub lines_counted : lines_of moves ≡ lines
  pub resets_asked : asks_of moves ≡ asks

Leads-append :
    (moves more : List Move) (v v1 v2 : View)
    → Leads moves v v1
    → Leads more v1 v2
    → Leads (moves ++ more) v v2
Leads-append [] more v v1 v2 e h = subst (λ x. Leads more x v2) (sym e) h
Leads-append (m ∷ moves) more v v1 v2 p h = (p.0, Leads-append moves more (after m v) v1 v2 p.1 h)

lines_of-append :
    (moves more : List Move) → lines_of (moves ++ more) ≡ lines_of moves + lines_of more
lines_of-append [] more = omega arith
lines_of-append (counted n ∷ moves) more = omega (arith, lines_of-append moves more)
lines_of-append (asked ∷ moves) more = lines_of-append moves more
lines_of-append (zeroed _ ∷ moves) more = lines_of-append moves more
lines_of-append (written _ _ ∷ moves) more = lines_of-append moves more

asks_of-append : (moves more : List Move) → asks_of (moves ++ more) ≡ asks_of moves + asks_of more
asks_of-append [] more = omega arith
asks_of-append (counted _ ∷ moves) more = asks_of-append moves more
asks_of-append (asked ∷ moves) more = omega (arith, asks_of-append moves more)
asks_of-append (zeroed _ ∷ moves) more = asks_of-append moves more
asks_of-append (written _ _ ∷ moves) more = asks_of-append moves more

pub Reaches-append :
    (n r m q : ℕ) (v v1 v2 : View)
    → Reaches n r v v1
    → Reaches m q v1 v2
    → Reaches (n + m) (r + q) v v2
Reaches-append n r m q v v1 v2 p h = record {
  moves = p.moves ++ h.moves;
  leads = Leads-append p.moves h.moves v v1 v2 p.leads h.leads;
  lines_counted = omega (arith, lines_of-append p.moves h.moves, p.lines_counted, h.lines_counted);
  resets_asked = omega (arith, asks_of-append p.moves h.moves, p.resets_asked, h.resets_asked);
}

-- Lines that are counted first.
pub Reaches-counted :
    (n : ℕ) (v v1 v2 : View) → after (counted n) v ≡ v1 → Reaches 0 0 v1 v2 → Reaches n 0 v v2
Reaches-counted n v v1 v2 e p = record {
  moves = counted n ∷ p.moves;
  leads = (tt, subst (λ x. Leads p.moves x v2) (sym e) p.leads);
  lines_counted = omega (arith, p.lines_counted);
  resets_asked = p.resets_asked;
}

-- A reset that is asked for first.
pub Reaches-asked : (v v1 v2 : View) → after asked v ≡ v1 → Reaches 0 0 v1 v2 → Reaches 0 1 v v2
Reaches-asked v v1 v2 e p = record {
  moves = asked ∷ p.moves;
  leads = (tt, subst (λ x. Leads p.moves x v2) (sym e) p.leads);
  lines_counted = p.lines_counted;
  resets_asked = omega (arith, p.resets_asked);
}

pub Reaches-none : (v v' : View) → v ≡ v' → Reaches 0 0 v v'
Reaches-none v v' e = record { moves = []; leads = e; lines_counted = refl; resets_asked = refl }

pub Reaches-to : (n r : ℕ) (v v1 v2 : View) → v1 ≡ v2 → Reaches n r v v1 → Reaches n r v v2
Reaches-to n r v v1 v2 e p = subst (Reaches n r v) e p

pub Reaches-lines : (n m r : ℕ) (v v' : View) → n ≡ m → Reaches n r v v' → Reaches m r v v'
Reaches-lines n m r v v' e p = subst (λ k. Reaches k r v v') e p

pub View-eq :
    (t t' w w' : Int64) (u u' : Bool)
    → t ≡ t'
    → w ≡ w'
    → u ≡ u'
    → ◌≡◌ {A = View}
        (record { total = t; waiting = w; due = u })
        (record { total = t'; waiting = w'; due = u' })
View-eq t t' w w' u u' a b c = rw (a, b, c) refl

module _ (c : Client) (d : Books c) (st : Store) (b : Text) where
  -- The action in a world, where n lines wait.
  abbrev pub view_of : World c.Server → Int64 → View
  view_of w n = record {
    total = total c d st w.server b;
    waiting = n;
    due = reset_due w.pending_resets b;
  }

  abbrev pub view : World c.Server → View
  view w = view_of w (get64 b w.cnt.pending)
