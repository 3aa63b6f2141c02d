-- ===== src/Fixture/Store/Trial.antt =====
-- src/fixture.rs: `fixture`, `warm_up`, the scope of a test and the cleanup of the process; and the
-- body that macros/src/lib.rs makes of a test that is not `should_panic`.
use skuld.Prelude.{ℕ, Bool, true, false, List, [], ◌∷◌, Option, none, some, Text, if◌then◌else◌}
use skuld.Fixture.Registry.{FixtureScope, process, FixtureDef, find_fixture}
use skuld.Fixture.Store.{
  Entry, Stores, FixtureHandle, unregistered, outside_scope, no_target, nested_scope, drop_panicked,
  FixturePanic, Outcome, done, panics, no_fuel, Code, ◌>>=◌, drop_value, drop_handles, fixture_get,
  ensure_scoped, ensure_process_fixture, get_each,
}

module _ (code : Code) (registry : List FixtureDef) where
  -- `fixture`: the dependencies' requests have this fuel.
  unfoldable pub fixture : ℕ → Text → ℕ → Stores → Outcome ℕ
  unfolding fixture_get ensure_process_fixture
  fixture fuel name target s = elim s.current [
    | none ↦ panics (outside_scope name) s
    | some t ↦ elim (find_fixture name registry) [
      | none ↦ panics (unregistered name) s
      | some d ↦ ensure_scoped code (fixture_get code registry fuel) d.scope d s >>= λ ptr s'.
          if code.casts d.name target then done ptr s' else panics (no_target d.name) s'
    ]
  ]

  abbrev warm_scoped : ℕ → FixtureScope → FixtureDef → Stores → Outcome (Unit {0})
  warm_scoped fuel process d s =
      ensure_process_fixture code (fixture_get code registry fuel) d s >>= λ ptr s'. done tt s'
  warm_scoped fuel scope d s = done tt s

  unfoldable pub warm_up : ℕ → Text → Stores → Outcome (Unit {0})
  unfolding ensure_process_fixture
  warm_up fuel name s = elim (find_fixture name registry) [
    | none ↦ panics (unregistered name) s
    | some d ↦ warm_scoped fuel d.scope d s
  ]

-- `while let Some(entry) = entries.pop()`, the last entry first: the entries left, the stores, and
-- whether a drop panicked, which ends the loop.
pub record Popped : Type 0 where
  pub left : List Entry
  pub stores : Stores
  pub has_panicked : Bool

unfoldable pub pop_all : (ℕ → Bool) → List Entry → Stores → Popped
pop_all drop_panics [] s = record { left = []; stores = s; has_panicked = false }
pop_all drop_panics (e ∷ es) s =
    let later = pop_all drop_panics es s in
    if later.has_panicked
    then record { left = e ∷ later.left; stores = later.stores; has_panicked = true }
    else record {
      left = [];
      stores = drop_value e.ptr later.stores;
      has_panicked = drop_panics e.ptr;
    }

-- `enter_test_scope`, with its debug assertion.
unfoldable pub enter_test_scope : Text → Stores → Outcome (Unit {0})
enter_test_scope name s = elim s.current [
  | some t ↦ panics nested_scope s
  | none ↦ done tt (record s { current = some name })
]

-- `TestScope::drop`: a panic leaves the entries not popped yet, and the current test.
unfoldable pub drop_scope : (ℕ → Bool) → Stores → Outcome (Unit {0})
unfolding pop_all
drop_scope drop_panics s =
    let popped = pop_all drop_panics s.tests (record s { tests = [] }) in
    let cleared = record (popped.stores) { tests = popped.left } in
    if popped.has_panicked
    then panics drop_panicked cleared
    else done tt (record cleared { current = none })

-- `cleanup_process_fixtures`: a panic leaves the entries not popped yet, and the index.
unfoldable pub cleanup_process_fixtures : (ℕ → Bool) → Stores → Outcome (Unit {0})
unfolding pop_all
cleanup_process_fixtures drop_panics s =
    let popped = pop_all drop_panics s.entries (record s { entries = [] }) in
    let cleared = record (popped.stores) { entries = popped.left } in
    if popped.has_panicked
    then panics drop_panicked cleared
    else done tt (record cleared { index = [] })

-- What the test's own code requests by `fixture`, in order.
unfoldable pub call_each :
    Code → List FixtureDef → ℕ → List (Text × ℕ) → Stores → Outcome (Unit {0})
unfolding fixture
call_each code registry fuel [] s = done tt s
call_each code registry fuel ((name, target) ∷ calls) s =
    fixture code registry fuel name target s >>= λ ptr s'. call_each code registry fuel calls s'

-- How a test's body ends: it returns, it unwinds, or a second panic while it unwinds aborts the process.
-- `unfuelled` belongs to the model only.
pub data BodyEnd : Type 0 where
  returns : Stores → BodyEnd
  unwinds : FixturePanic → Stores → BodyEnd
  aborts : BodyEnd
  unfuelled : BodyEnd

-- The end of the test's scope behind a return, and while the body unwinds.
abbrev pub behind_return : Outcome (Unit {0}) → BodyEnd
behind_return (done u s) = returns s
behind_return (panics e s) = unwinds e s
behind_return no_fuel = unfuelled

abbrev pub while_unwinding : FixturePanic → Outcome (Unit {0}) → BodyEnd
while_unwinding e (done u s) = unwinds e s
while_unwinding e (panics e' s) = aborts
while_unwinding e no_fuel = unfuelled

-- The locals of the body are dropped where it returns and where it unwinds.
abbrev pub close_scope : (ℕ → Bool) → List FixtureHandle → Outcome (Unit {0}) → BodyEnd
close_scope drop_panics hs (done u s) = behind_return (drop_scope drop_panics (drop_handles hs s))
close_scope drop_panics hs (panics e s) =
    while_unwinding e (drop_scope drop_panics (drop_handles hs s))
close_scope drop_panics hs no_fuel = unfuelled

-- The handles of the parameters, if all are there.
abbrev pub with_handles :
    (ℕ → Bool)
    → (List FixtureHandle → Stores → Outcome (Unit {0}))
    → Outcome (List FixtureHandle)
    → BodyEnd
with_handles drop_panics run (done hs s) = close_scope drop_panics hs (run hs s)
with_handles drop_panics run (panics e s) = while_unwinding e (drop_scope drop_panics s)
with_handles drop_panics run no_fuel = unfuelled

-- The body behind `enter_test_scope`, whose panic drops no scope.
abbrev pub entered : Outcome (Unit {0}) → (Stores → BodyEnd) → BodyEnd
entered (done u s) body = body s
entered (panics e s) body = unwinds e s
entered no_fuel body = unfuelled

-- A test with these parameters, whose own code makes these requests.
unfoldable pub run_body :
    Code → List FixtureDef → ℕ → Text → (Text → ℕ) → List Text → List (Text × ℕ) → Stores → BodyEnd
unfolding enter_test_scope fixture_get get_each drop_handles drop_scope call_each
run_body code registry fuel name target names calls s = entered (enter_test_scope name s) (λ s'.
    with_handles code.drop_panics (λ hs. call_each code registry fuel calls)
      (get_each code (fixture_get code registry fuel) target names s'))

-- One trial: the test's name, the types that it asks of its parameters, their fixtures, and the
-- requests of its own code.
pub record Trial : Type 0 where
  pub name : Text
  pub target : Text → ℕ
  pub names : List Text
  pub calls : List (Text × ℕ)

-- A panic ends its trial only; an abort ends the process.
abbrev pub behind : BodyEnd → Option Stores
behind (returns s) = some s
behind (unwinds e s) = some s
behind aborts = none
behind unfuelled = none

-- The trials, one after another.
unfoldable pub run_trials : Code → List FixtureDef → ℕ → List Trial → Stores → Option Stores
unfolding run_body
run_trials code registry fuel [] s = some s
run_trials code registry fuel (t ∷ ts) s =
    elim (behind (run_body code registry fuel t.name t.target t.names t.calls s)) [
      | none ↦ none
      | some s' ↦ run_trials code registry fuel ts s'
    ]

abbrev pub empty_stores : Stores
empty_stores = record {
  tests = [];
  entries = [];
  index = [];
  current = none;
  next = 0;
  dropped = [];
}
