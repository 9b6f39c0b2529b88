-- ===== src/Daemon/Machine/Tests.antt =====
-- A run with a reset, on a server that becomes unreachable in the middle, and the machine by itself.
use logstat.Prelude.{List, refl, ◌++◌, false, [], ◌∷◌}
use logstat.Text.{codes}
use logstat.Int64.{add64}
use logstat.Daemon.Run.{Event, scheduled}
use logstat.Daemon.Tests.{noon, morning}
use logstat.Daemon.Machine.{counted, asked, zeroed, written, Leads}

-- Three lines are written, two more are counted, a reset is asked for and done, and the two are
-- written behind it.
three_then_two :
    Leads
      (counted 3 ∷ written 3 0 ∷ counted 2 ∷ asked ∷ zeroed false ∷ written 2 0 ∷ [])
      (record { total = 40; waiting = 0; due = false })
      (record { total = 2; waiting = 0; due = false })
unfolding add64
three_then_two = (tt, ((refl, refl), (tt, (tt, (refl, ((refl, refl), refl))))))

-- A line, a flush, an error of the tailer, and a reset.
abbrev day : List Event
day = morning ++ (scheduled noon noon noon (codes "put /d" ∷ []) ∷ [])
