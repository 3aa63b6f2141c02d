-- ===== src/Coordination/Rendezvous/Reached.antt =====
-- src/coordination/rendezvous.rs: who has arrived and who is gone, in whatever order the calls are made.
use skuld.Prelude.{ℕ, zero, suc, ◌<◌, ◌≡◌, refl, arith, Bool-cases, inl, inr}
use skuld.Coordination.Rendezvous.{
  pending, status, Point, holding, World, replicate, rendezvous, Reach, here, next,
}
use skuld.Coordination.Rendezvous.Counted.{
  is_dropped, is_returned, is_panicked, total, holders, droppers, returners, panickers, IsCounted,
  Step-IsCounted,
}

total-replicate : (f : Point → ℕ) (n : ℕ) → f holding ≡ 0 → total f (replicate n holding) ≡ 0
total-replicate f zero h = refl
total-replicate f (suc n) h = omega (arith, h, total-replicate f n h)

holders-replicate : (n : ℕ) → holders (replicate n holding) ≡ n
holders-replicate zero = refl
holders-replicate (suc n) = omega (arith, holders-replicate n)

rendezvous-IsCounted : (n : ℕ) → IsCounted (rendezvous n)
unfolding rendezvous
rendezvous-IsCounted n =
    let gone = total-replicate is_dropped n refl in
    record {
      counted = omega (arith, holders-replicate n, gone);
      flagged = inr gone;
      flag_true = λ e. absurd cc;
      none_early = λ p. absurd (omega (arith, p, total-replicate is_returned n refl));
      none_spurious = λ p. absurd (omega (arith, p, total-replicate is_panicked n refl));
    }

Reach-IsCounted : (n : ℕ) {w : World} → Reach (rendezvous n) w → IsCounted w
Reach-IsCounted n here = rendezvous-IsCounted n
Reach-IsCounted n (next r st) = Step-IsCounted st (Reach-IsCounted n r)

status-pending_iff :
    (w : World)
    → IsCounted w
    → (status w.state ≡ pending → (0 < holders w.points) × (droppers w.points ≡ 0))
      × (0 < holders w.points → droppers w.points ≡ 0 → status w.state ≡ pending)
unfolding status
status-pending_iff w h = (waits, stays)
  where
    waits : status w.state ≡ pending → (0 < holders w.points) × (droppers w.points ≡ 0)
    waits e = elim h.flagged [
      | inl flag ↦ absurd (ground (arith, e, flag))
      | inr none ↦ (ground (arith, e, none, h.counted), none)
    ]

    stays : 0 < holders w.points → droppers w.points ≡ 0 → status w.state ≡ pending
    stays p none = elim (Bool-cases w.state.is_aborted) [
      | inl e ↦ absurd (omega (arith, h.flag_true e, none))
      | inr e ↦ ground (arith, e, h.counted, p)
    ]

-- In whatever order participants of a rendezvous of n arrive, drop their points and wake: `wait` has
-- returned to one only if no point is held and none was dropped without arriving, it has panicked
-- for one only if a point was dropped so, and a participant is kept waiting exactly while a point is
-- held and none was dropped.
pub Reach-waits :
    (n : ℕ) (w : World)
    → Reach (rendezvous n) w
    → (0 < returners w.points → (holders w.points ≡ 0) × (droppers w.points ≡ 0))
      × (0 < panickers w.points → 0 < droppers w.points)
      × (status w.state ≡ pending → (0 < holders w.points) × (droppers w.points ≡ 0))
      × (0 < holders w.points → droppers w.points ≡ 0 → status w.state ≡ pending)
Reach-waits n w r =
    let h = Reach-IsCounted n r in
    let (waits, stays) = status-pending_iff w h in
    (
      λ p. (omega (arith, h.none_early p, h.counted), omega (arith, h.none_early p, h.counted)),
      h.none_spurious,
      waits,
      stays,
    )
