-- ===== src/Fixture/Store/Closed.antt =====
-- src/fixture.rs: the end of a test's scope, where no drop of a value panics.
use skuld.Prelude.{ℕ, ◌+◌, ◌≡◌, refl, sym, ap, Bool, false, List, [], ◌∷◌, none, ◌==◌, arith, subst}
use skuld.Fixture.Store.Ends.{Ended}
use skuld.Fixture.Store.{
  Entry, Stores, FixtureHandle, FixturePanic, drop_value, Outcome, done, panics, no_fuel,
  drop_handles,
}
use skuld.Fixture.Store.Trial.{
  BodyEnd, returns, unwinds, aborts, unfuelled, behind_return, while_unwinding, pop_all, drop_scope,
  close_scope, with_handles,
}
use skuld.Fixture.Store.Account.{
  bit, cached, held, Accounts, Balanced, drop_value-Accounts, drop_handles-Accounts, handles,
  nothing,
}

-- Nothing is owned by a handle.
abbrev pub free : ℕ → ℕ
free p = 0

-- The store of a thread between tests.
abbrev pub Between : Stores → Type 0
Between s = (s.tests ≡ []) × (s.current ≡ none)

-- No drop of a value panics.
abbrev pub DropsReturn : (ℕ → Bool) → Type 0
DropsReturn drop_panics = (p : ℕ) → drop_panics p ≡ false

-- The loop then drops each entry.
abbrev pub drop_all : List Entry → Stores → Stores
drop_all [] s = s
drop_all (e ∷ es) s = drop_value e.ptr (drop_all es s)

pub pop_all_returns :
    (drop_panics : ℕ → Bool) (es : List Entry) (s : Stores)
    → DropsReturn drop_panics
    → pop_all drop_panics es s ≡ record { left = []; stores = drop_all es s; has_panicked = false }
unfolding pop_all
pop_all_returns drop_panics [] s never = refl
pop_all_returns drop_panics (e ∷ es) s never =
    rw (pop_all_returns drop_panics es s never, never e.ptr) refl

pub drop_all-Accounts :
    (es : List Entry) (owned : ℕ → ℕ) (s : Stores)
    → Accounts (λ p. cached p es + owned p) s
    → Accounts owned (drop_all es s)
drop_all-Accounts [] owned s h p = omega (arith, h p)
drop_all-Accounts (e ∷ es) owned s h p =
    drop_value-Accounts e.ptr owned (drop_all es s)
      (drop_all-Accounts es (λ q. bit (e.ptr == q) + owned q) s (λ q. omega (arith, h q))) p

pub drop_all-keeps :
    (es : List Entry) (s : Stores)
    → ((drop_all es s).tests ≡ s.tests)
      × ((drop_all es s).entries ≡ s.entries)
      × ((drop_all es s).next ≡ s.next)
drop_all-keeps [] s = (refl, refl, refl)
drop_all-keeps (e ∷ es) s = drop_all-keeps es s

-- Between two tests, with the accounts in order.
abbrev pub Settled : Stores → Type 0
Settled s = Between s × Accounts free s

abbrev pub Settles : BodyEnd → Type 0
Settles (returns s) = Settled s
Settles (unwinds e s) = Settled s
Settles aborts = ⊥
Settles unfuelled = Unit

-- The stores behind the scope of a test.
abbrev scope_over : Stores → Stores
scope_over s = record (drop_all s.tests (record s { tests = [] })) { tests = []; current = none }

drop_scope_returns :
    (drop_panics : ℕ → Bool) (s : Stores)
    → DropsReturn drop_panics
    → drop_scope drop_panics s ≡ done tt (scope_over s)
unfolding drop_scope
drop_scope_returns drop_panics s never =
    rw (pop_all_returns drop_panics s.tests (record s { tests = [] }) never) refl

scope_over-Settled : (s : Stores) → Accounts free s → Settled (scope_over s)
scope_over-Settled s h = (
  (refl, refl),
  λ p.
      let dropped =
        drop_all-Accounts s.tests free (record s { tests = [] }) (λ q. omega (arith, h q)) p in
      omega (arith, dropped, ap (cached p) (drop_all-keeps s.tests (record s { tests = [] })).0),
)

module _ (drop_panics : ℕ → Bool) (never : DropsReturn drop_panics) where
  behind_return-Settles :
      (s : Stores) → Accounts free s → Settles (behind_return (drop_scope drop_panics s))
  behind_return-Settles s h =
      subst (λ o. Settles (behind_return o)) (sym (drop_scope_returns drop_panics s never))
        (scope_over-Settled s h)

  while_unwinding-Settles :
      (e : FixturePanic) (s : Stores)
      → Accounts free s
      → Settles (while_unwinding e (drop_scope drop_panics s))
  while_unwinding-Settles e s h =
      subst (λ o. Settles (while_unwinding e o)) (sym (drop_scope_returns drop_panics s never))
        (scope_over-Settled s h)

  close_scope-Settles :
      (hs : List FixtureHandle) (m : Outcome (Unit {0}))
      → Balanced nothing (λ p. held p hs + 0) m
      → Settles (close_scope drop_panics hs m)
  close_scope-Settles hs (done u s) h =
      behind_return-Settles (drop_handles hs s)
        (drop_handles-Accounts hs free s (λ p. omega (arith, h p)))
  close_scope-Settles hs (panics e s) h =
      while_unwinding-Settles e (drop_handles hs s) (drop_handles-Accounts hs free s h)
  close_scope-Settles hs no_fuel h = tt

  pub with_handles-Settles :
      (run : List FixtureHandle → Stores → Outcome (Unit {0})) (m : Outcome (List FixtureHandle))
      → Balanced handles free m
      → ((hs : List FixtureHandle) (s : Stores)
          → Accounts (λ p. held p hs + 0) s
          → Balanced nothing (λ p. held p hs + 0) (run hs s))
      → Settles (with_handles drop_panics run m)
  with_handles-Settles run (done hs s) h k = close_scope-Settles hs (run hs s) (k hs s h)
  with_handles-Settles run (panics e s) h k = while_unwinding-Settles e s h
  with_handles-Settles run no_fuel h k = tt

-- The model does not run out of fuel.
abbrev pub HasFuel : BodyEnd → Type 0
HasFuel (returns s) = Unit
HasFuel (unwinds e s) = Unit
HasFuel aborts = Unit
HasFuel unfuelled = ⊥

module _ (drop_panics : ℕ → Bool) (never : DropsReturn drop_panics) where
  close_scope-HasFuel :
      (hs : List FixtureHandle) (m : Outcome (Unit {0}))
      → Ended m
      → HasFuel (close_scope drop_panics hs m)
  close_scope-HasFuel hs (done u s) h =
      subst (λ o. HasFuel (behind_return o))
        (sym (drop_scope_returns drop_panics (drop_handles hs s) never)) tt
  close_scope-HasFuel hs (panics e s) h =
      subst (λ o. HasFuel (while_unwinding e o))
        (sym (drop_scope_returns drop_panics (drop_handles hs s) never)) tt
  close_scope-HasFuel hs no_fuel h = h

  pub with_handles-HasFuel :
      (run : List FixtureHandle → Stores → Outcome (Unit {0})) (m : Outcome (List FixtureHandle))
      → Ended m
      → ((hs : List FixtureHandle) (s : Stores) → Ended (run hs s))
      → HasFuel (with_handles drop_panics run m)
  with_handles-HasFuel run (done hs s) h k = close_scope-HasFuel hs (run hs s) (k hs s)
  with_handles-HasFuel run (panics e s) h k =
      subst (λ o. HasFuel (while_unwinding e o)) (sym (drop_scope_returns drop_panics s never)) tt
  with_handles-HasFuel run no_fuel h k = h
