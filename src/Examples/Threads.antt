-- ===== src/Examples/Threads.antt =====
-- A rendezvous of two participants at a concrete run.
use skuld.Prelude.{◌<◌, ◌≡◌, refl, false, true, [], ◌∷◌}
use skuld.Coordination.Rendezvous.{
  World, holding, waiting, dropped, panicked, pending, status, arrives, drops, wakes, rendezvous,
  Reach, here, next, arrive, drop_point, wake, State,
}
use skuld.Coordination.Rendezvous.Counted.{holders, droppers, returners, panickers}
use skuld.Coordination.Rendezvous.Reached.{Reach-waits}

-- The first arrives, the second dies, and the first wakes to panic.
abbrev one_dies : World
one_dies = record {
  points = panicked ∷ dropped ∷ [];
  state = record { participants = 2; arrived = 1; is_aborted = true };
}

abbrev both_hold : State
both_hold = record { participants = 2; arrived = 0; is_aborted = false }

abbrev one_waits : State
one_waits = record { participants = 2; arrived = 1; is_aborted = false }

one_dies_reached : Reach (rendezvous 2) one_dies
unfolding rendezvous arrive drop_point wake status
one_dies_reached =
    next
      (next (next here (arrives [] (holding ∷ []) both_hold _ _ refl refl))
        (drops (waiting ∷ []) [] one_waits _ _ refl refl))
      (wakes [] (dropped ∷ []) one_dies.state _ _ refl refl)

Reach-waits_example :
    (0 < returners one_dies.points → (holders one_dies.points ≡ 0) × (droppers one_dies.points ≡ 0))
    × (0 < panickers one_dies.points → 0 < droppers one_dies.points)
    × (status one_dies.state ≡ pending
        → (0 < holders one_dies.points) × (droppers one_dies.points ≡ 0))
    × (0 < holders one_dies.points → droppers one_dies.points ≡ 0 → status one_dies.state ≡ pending)
Reach-waits_example = Reach-waits 2 one_dies one_dies_reached
