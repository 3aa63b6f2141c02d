-- ===== src/Coordination/Rendezvous.antt =====
-- src/coordination/rendezvous.rs: participants that wait for each other, or for the first that dies. The
-- lock makes each of their calls one step; a thread that waits is woken by every change.
pub mod Counted
pub mod Reached
use skuld.Prelude.{
  ℕ, zero, suc, ◌+◌, ◌≡◌, Bool, true, false, List, [], ◌∷◌, ◌++◌, ◌==◌, if◌then◌else◌, length,
}

pub data Status : Type 0 where
  pending released aborted : Status

pub record State : Type 0 where
  pub participants : ℕ
  pub arrived : ℕ
  pub is_aborted : Bool

unfoldable pub status : State → Status
status s =
    if s.arrived == s.participants then released else if s.is_aborted then aborted else pending

-- A participant: with its point still, in `wait`, dropped without arriving, behind its return from
-- `wait` or behind the panic there.
pub data Point : Type 0 where
  holding waiting dropped returned panicked : Point

-- The counter that `arrive` increments.
unfoldable pub arrive : State → State
arrive s = record s { arrived = s.arrived + 1 }

-- `RendezvousPoint::drop` of a point that has not arrived; of another it does nothing.
unfoldable pub drop_point : State → State
drop_point s = record s { is_aborted = true }

-- `wait_while` and what follows.
unfoldable pub wake : Status → Point
wake pending = waiting
wake released = returned
wake aborted = panicked

pub record World : Type 0 where
  pub points : List Point
  pub state : State

-- The call of one participant, among the others.
pub data Step : World → World → Type 0 where
  arrives :
      (front back : List Point) (s : State) (w w' : World)
      → w ≡ record { points = front ++ holding ∷ back; state = s }
      → w' ≡ record { points = front ++ waiting ∷ back; state = arrive s }
      → Step w w'
  drops :
      (front back : List Point) (s : State) (w w' : World)
      → w ≡ record { points = front ++ holding ∷ back; state = s }
      → w' ≡ record { points = front ++ dropped ∷ back; state = drop_point s }
      → Step w w'
  wakes :
      (front back : List Point) (s : State) (w w' : World)
      → w ≡ record { points = front ++ waiting ∷ back; state = s }
      → w' ≡ record { points = front ++ wake (status s) ∷ back; state = s }
      → Step w w'

abbrev pub replicate : ℕ → Point → List Point
replicate zero x = []
replicate (suc n) x = x ∷ replicate n x

-- `rendezvous(n)`.
unfoldable pub rendezvous : ℕ → World
rendezvous n = record {
  points = replicate n holding;
  state = record { participants = n; arrived = 0; is_aborted = false };
}

pub data Reach (start : World) : World → Type 0 where
  here : Reach start start
  next : {w w' : World} → Reach start w → Step w w' → Reach start w'
