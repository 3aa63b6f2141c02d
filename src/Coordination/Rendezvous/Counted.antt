-- ===== src/Coordination/Rendezvous/Counted.antt =====
-- src/coordination/rendezvous.rs: the counter and the flag against the phases of the points.
use skuld.Prelude.{
  ℕ, zero, suc, ◌+◌, ◌<◌, ◌≡◌, refl, sym, subst, true, List, [], ◌∷◌, ◌++◌, arith, inl, inr, ◌⊎◌,
}
use skuld.Coordination.Rendezvous.{
  Status, pending, released, aborted, State, status, Point, holding, waiting, dropped, returned,
  panicked, arrive, drop_point, wake, World, Step, arrives, drops, wakes,
}

-- How many points are in a phase.
abbrev is_holding : Point → ℕ
is_holding holding = 1
is_holding waiting = 0
is_holding dropped = 0
is_holding returned = 0
is_holding panicked = 0

abbrev pub is_dropped : Point → ℕ
is_dropped holding = 0
is_dropped waiting = 0
is_dropped dropped = 1
is_dropped returned = 0
is_dropped panicked = 0

abbrev pub is_returned : Point → ℕ
is_returned holding = 0
is_returned waiting = 0
is_returned dropped = 0
is_returned returned = 1
is_returned panicked = 0

abbrev pub is_panicked : Point → ℕ
is_panicked holding = 0
is_panicked waiting = 0
is_panicked dropped = 0
is_panicked returned = 0
is_panicked panicked = 1

abbrev pub total : (Point → ℕ) → List Point → ℕ
total f [] = 0
total f (x ∷ xs) = f x + total f xs

abbrev pub holders : List Point → ℕ
holders = total is_holding

abbrev pub droppers : List Point → ℕ
droppers = total is_dropped

abbrev pub returners : List Point → ℕ
returners = total is_returned

abbrev pub panickers : List Point → ℕ
panickers = total is_panicked

total-append : (f : Point → ℕ) (xs ys : List Point) → total f (xs ++ ys) ≡ total f xs + total f ys
total-append f [] ys = omega arith
total-append f (x ∷ xs) ys = omega (arith, total-append f xs ys)

-- The counter counts those that neither hold their point nor dropped it; the flag says whether one
-- was dropped.
pub record IsCounted (w : World) : Type 0 where
  pub counted : w.state.arrived + holders w.points + droppers w.points ≡ w.state.participants
  pub flagged : (w.state.is_aborted ≡ true) ⊎ (droppers w.points ≡ 0)
  pub flag_true : w.state.is_aborted ≡ true → 0 < droppers w.points
  pub none_early : 0 < returners w.points → w.state.arrived ≡ w.state.participants
  pub none_spurious : 0 < panickers w.points → 0 < droppers w.points

zero_or_positive : (n : ℕ) → (n ≡ 0) ⊎ (0 < n)
zero_or_positive zero = inl refl
zero_or_positive (suc n) = inr (omega arith)

module _ (front back : List Point) where
  one_more :
      (f : Point → ℕ) (x : Point) → total f (front ++ x ∷ back) ≡ total f front + f x + total f back
  one_more f x = omega (arith, total-append f front (x ∷ back))

  abbrev among : Point → State → World
  among x s = record { points = front ++ x ∷ back; state = s }

  arrives-IsCounted :
      (s : State) → IsCounted (among holding s) → IsCounted (among waiting (arrive s))
  unfolding arrive
  arrives-IsCounted s h =
      let held = one_more is_holding holding in
      let waits = one_more is_holding waiting in
      let gone = one_more is_dropped holding in
      let gone' = one_more is_dropped waiting in
      record {
        counted = omega (arith, h.counted, held, waits, gone, gone');
        flagged = elim h.flagged [ inl e ↦ inl e | inr e ↦ inr (omega (arith, e, gone, gone')) ];
        flag_true = λ e. omega (arith, h.flag_true e, gone, gone');
        none_early = λ p. absurd (
            omega (
              arith,
              h.none_early
                  (omega (arith, p, one_more is_returned holding, one_more is_returned waiting)),
              h.counted,
              held,
            ));
        none_spurious = λ p. omega (
          arith,
          h.none_spurious
              (omega (arith, p, one_more is_panicked holding, one_more is_panicked waiting)),
          gone,
          gone',
        );
      }

  drops-IsCounted :
      (s : State) → IsCounted (among holding s) → IsCounted (among dropped (drop_point s))
  unfolding drop_point
  drops-IsCounted s h =
      let held = one_more is_holding holding in
      let gone' = one_more is_dropped dropped in
      record {
        counted = omega (
          arith,
          h.counted,
          held,
          one_more is_holding dropped,
          one_more is_dropped holding,
          gone',
        );
        flagged = inl refl;
        flag_true = λ e. omega (arith, gone');
        none_early = λ p. absurd (
            omega (
              arith,
              h.none_early
                  (omega (arith, p, one_more is_returned holding, one_more is_returned dropped)),
              h.counted,
              held,
            ));
        none_spurious = λ p. omega (arith, gone');
      }

  -- A thread that waits and wakes to return or to panic, where it may.
  woken-IsCounted :
      (x : Point) (s : State)
      → is_holding x ≡ 0
      → is_dropped x ≡ 0
      → (0 < is_returned x → s.arrived ≡ s.participants)
      → (0 < is_panicked x → s.is_aborted ≡ true)
      → IsCounted (among waiting s)
      → IsCounted (among x s)
  woken-IsCounted x s nh nd may_return may_panic h =
      let gone = one_more is_dropped waiting in
      let gone' = one_more is_dropped x in
      let back_then = one_more is_returned waiting in
      let back_now = one_more is_returned x in
      let hurt_then = one_more is_panicked waiting in
      let hurt_now = one_more is_panicked x in
      record {
        counted = omega (
          arith,
          h.counted,
          one_more is_holding waiting,
          one_more is_holding x,
          gone,
          gone',
          nh,
          nd,
        );
        flagged = elim h.flagged [
          | inl e ↦ inl e
          | inr e ↦ inr (omega (arith, e, gone, gone', nd))
        ];
        flag_true = λ e. omega (arith, h.flag_true e, gone, gone', nd);
        none_early = λ p. elim (zero_or_positive (is_returned x)) [
          | inl none_new ↦ h.none_early (omega (arith, p, none_new, back_then, back_now))
          | inr new ↦ may_return new
        ];
        none_spurious = λ p. elim (zero_or_positive (is_panicked x)) [
          | inl none_new ↦
              let before = h.none_spurious (omega (arith, p, none_new, hurt_then, hurt_now)) in
              omega (arith, before, gone, gone', nd)
          | inr new ↦
              let before = h.flag_true (may_panic new) in omega (arith, before, gone, gone', nd)
        ];
      }

status_released : (s : State) → status s ≡ released → s.arrived ≡ s.participants
unfolding status
status_released s h = ground arith

status_aborted : (s : State) → status s ≡ aborted → s.is_aborted ≡ true
unfolding status
status_aborted s h = ground arith

wakes-IsCounted :
    (front back : List Point) (s : State) (st : Status)
    → status s ≡ st
    → IsCounted (among front back waiting s)
    → IsCounted (among front back (wake st) s)
unfolding wake
wakes-IsCounted front back s pending e h = h
wakes-IsCounted front back s released e h =
    woken-IsCounted front back returned s refl refl (λ p. status_released s e)
      (λ p. absurd (omega arith)) h
wakes-IsCounted front back s aborted e h =
    woken-IsCounted front back panicked s refl refl (λ p. absurd (omega arith))
      (λ p. status_aborted s e) h

pub Step-IsCounted : {w w' : World} → Step w w' → IsCounted w → IsCounted w'
Step-IsCounted (arrives front back s w w' e e') h =
    subst IsCounted (sym e') (arrives-IsCounted front back s (subst IsCounted e h))
Step-IsCounted (drops front back s w w' e e') h =
    subst IsCounted (sym e') (drops-IsCounted front back s (subst IsCounted e h))
Step-IsCounted (wakes front back s w w' e e') h =
    subst IsCounted (sym e') (wakes-IsCounted front back s (status s) refl (subst IsCounted e h))
