-- ===== src/Tests/Coordinators.antt =====
-- core/raddi_coordinator.cpp at concrete requests.
use raddi.Base.{◌-◌, ◌<◌, true, [], ◌∷◌, ◌≡◌, refl, arith, none, some}
use raddi.Coordinator.Limiter.{Request, process}
use raddi.Coordinator.Limiter.Window.{came_since, after, limit_lem}

-- Of a connection that has asked for peers.
abbrev first : Request
first = record { second = 100; peers = some 100 }

abbrev second : Request
second = record { second = 101; peers = none }

second_answered : (process 6 second (after 6 (first ∷ []))).1 ≡ true
unfolding process raddi.Time.older
second_answered = refl

limit_lem_example : came_since (101 - 60) (second ∷ first ∷ []) < 6
limit_lem_example =
    limit_lem 6 second (first ∷ []) (omega arith)
      (
        omega arith,
        omega arith,
        omega arith,
        (omega arith, tt),
        (omega arith, omega arith, omega arith, tt, tt),
      )
      second_answered
