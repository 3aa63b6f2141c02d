-- ===== src/Fixture/Store.antt =====
-- src/fixture.rs: the stores of cached fixtures, the requests of `fixture_get`, `fixture` and
-- `warm_up`, and the drops of the test scope and of the process; with what macros/src/lib.rs makes
-- of a fixture's dependencies. A value is an address, and `dropped` logs the drops in order.
pub mod Trial
pub mod Account
pub mod Requests
pub mod Ends
pub mod Bound
pub mod Closed
pub mod Reclaimed
use skuld.Prelude.{
  ℕ, zero, suc, ◌+◌, Bool, true, false, List, [], ◌∷◌, ◌++◌, Option, none, some, Text, text_eq,
  if◌then◌else◌, length,
}
use skuld.Fixture.Registry.{FixtureScope, variable, test, process, FixtureDef, find_fixture}

-- `TestEntry` and `ProcessEntry`.
pub record Entry : Type 0 where
  pub name : Text
  pub ptr : ℕ

-- `TEST_FIXTURES` of the thread, the fields of `ProcessFixtureStore`, `CURRENT_TEST`, the next free
-- address and the addresses dropped so far.
pub record Stores : Type 0 where
  pub tests : List Entry
  pub entries : List Entry
  pub index : List (Text × ℕ)
  pub current : Option Text
  pub next : ℕ
  pub dropped : List ℕ

-- `FixtureHandle`: the value that it owns, if any, and the value that it refers to.
pub record FixtureHandle : Type 0 where
  pub owner : Option ℕ
  pub fixture_ref : ℕ

pub data FixturePanic : Type 0 where
  unregistered outside_scope use_fixture_get setup_failed no_target : Text → FixturePanic
  nested_scope out_of_range drop_panicked : FixturePanic

-- `no_fuel` belongs to the model only.
pub data Outcome (A : Type 0) : Type 0 where
  done : A → Stores → Outcome A
  panics : FixturePanic → Stores → Outcome A
  no_fuel : Outcome A

-- What the fixtures' own code does: whether the function of the fixture of this name returns `Ok`,
-- with the value at this address; whether its `cast` serves a type; the type that a fixture asks of a
-- dependency; and whether the drop of the value at this address panics.
pub record Code : Type 0 where
  pub builds : Text → ℕ → Bool
  pub casts : Text → ℕ → Bool
  pub target : Text → Text → ℕ
  pub drop_panics : ℕ → Bool

infixl 5 ◌>>=◌
abbrev pub ◌>>=◌ : {A B : Type 0} → Outcome A → (A → Stores → Outcome B) → Outcome B
done a s >>= k = k a s
panics e s >>= k = panics e s
no_fuel >>= k = no_fuel

-- A value is dropped. Of the values that handles own, the drop returns.
abbrev pub drop_value : ℕ → Stores → Stores
drop_value ptr s = record s { dropped = s.dropped ++ ptr ∷ [] }

abbrev pub drop_owner : Option ℕ → Stores → Stores
drop_owner none s = s
drop_owner (some ptr) s = drop_value ptr s

abbrev pub drop_handle : FixtureHandle → Stores → Stores
drop_handle h s = drop_owner h.owner s

-- Locals are dropped in the reverse of their order.
unfoldable pub drop_handles : List FixtureHandle → Stores → Stores
drop_handles [] s = s
drop_handles (h ∷ hs) s = drop_handle h (drop_handles hs s)

-- What a block does with the handle when what follows has ended or unwinds.
abbrev pub keep_handle : FixtureHandle → Outcome (List FixtureHandle) → Outcome (List FixtureHandle)
keep_handle h (done hs s) = done (h ∷ hs) s
keep_handle h (panics e s) = panics e (drop_handle h s)
keep_handle h no_fuel = no_fuel

-- `TEST_FIXTURES`' `iter().find(|e| e.name == def.name)`.
unfoldable pub find_entry : Text → List Entry → Option ℕ
find_entry name [] = none
find_entry name (e ∷ es) =
    let rest = find_entry name es in if text_eq e.name name then some e.ptr else rest

-- `index.get(name)`.
unfoldable pub find_index : Text → List (Text × ℕ) → Option ℕ
find_index name [] = none
find_index name ((n, i) ∷ m) =
    let rest = find_index name m in if text_eq n name then some i else rest

-- `store.entries[idx]`, out of range a panic.
unfoldable pub entry_at : List Entry → ℕ → Stores → Outcome ℕ
entry_at [] i s = panics out_of_range s
entry_at (e ∷ es) zero s = done e.ptr s
entry_at (e ∷ es) (suc i) s = entry_at es i s

abbrev pub push_test : FixtureDef → ℕ → Stores → Outcome ℕ
push_test d ptr s =
    done ptr (record s { tests = s.tests ++ record { name = d.name; ptr = ptr } ∷ [] })

-- The second lock: another's entry wins, and the new value is dropped.
unfoldable pub insert_process : FixtureDef → ℕ → Stores → Outcome ℕ
unfolding find_index entry_at
insert_process d ptr s = elim (find_index d.name s.index) [
  | some i ↦ entry_at s.entries i (drop_value ptr s)
  | none ↦ done ptr (record s {
    entries = s.entries ++ record { name = d.name; ptr = ptr } ∷ [];
    index = (d.name, length s.entries) ∷ s.index;
  })
]

-- Only fixtures of the process are to be had outside a test.
abbrev pub in_scope : {A : Type 0} → FixtureScope → Text → Stores → Outcome A → Outcome A
in_scope process name s k = k
in_scope scope name s k = elim s.current [ none ↦ panics (outside_scope name) s | some t ↦ k ]

module _ (code : Code) where
  -- The handle of a cached value, or of one that it owns, which unwinding drops.
  abbrev pub handle_of : FixtureDef → ℕ → Option ℕ → ℕ → Stores → Outcome FixtureHandle
  handle_of d target owner ptr s =
      if code.casts d.name target
      then done (record { owner = owner; fixture_ref = ptr }) s
      else panics (no_target d.name) (drop_owner owner s)

  -- The requests for the dependencies, over what one request does.
  unfoldable pub get_each :
      (Text → ℕ → Stores → Outcome FixtureHandle)
      → (Text → ℕ)
      → List Text
      → Stores
      → Outcome (List FixtureHandle)
  get_each get target [] s = done [] s
  get_each get target (n ∷ ns) s =
      get n (target n) s >>= λ h s'. keep_handle h (get_each get target ns s')

  -- The fixture's function between its dependencies' handles.
  unfoldable pub built : FixtureDef → List FixtureHandle → Stores → Outcome ℕ
  unfolding drop_handles
  built d hs s =
      if code.builds d.name s.next
      then done s.next (drop_handles hs (record s { next = suc s.next }))
      else panics (setup_failed d.name) (drop_handles hs s)

  module _ (get : Text → ℕ → Stores → Outcome FixtureHandle) where
    -- `(def.setup)()`, which panics on an `Err`.
    unfoldable pub setup : FixtureDef → Stores → Outcome ℕ
    unfolding get_each built
    setup d s = get_each get (code.target d.name) d.deps s >>= built d

    unfoldable pub ensure_test_fixture : FixtureDef → Stores → Outcome ℕ
    unfolding find_entry setup
    ensure_test_fixture d s = elim (find_entry d.name s.tests) [
      | some ptr ↦ done ptr s
      | none ↦ setup d s >>= push_test d
    ]

    unfoldable pub ensure_process_fixture : FixtureDef → Stores → Outcome ℕ
    unfolding setup insert_process
    ensure_process_fixture d s = elim (find_index d.name s.index) [
      | some i ↦ entry_at s.entries i s
      | none ↦ setup d s >>= insert_process d
    ]

    unfoldable pub get_variable : FixtureDef → ℕ → Stores → Outcome FixtureHandle
    unfolding setup
    get_variable d target s = setup d s >>= λ ptr s'. handle_of d target (some ptr) ptr s'

    unfoldable pub get_or_create_test : FixtureDef → ℕ → Stores → Outcome FixtureHandle
    unfolding ensure_test_fixture
    get_or_create_test d target s =
        ensure_test_fixture d s >>= λ ptr s'. handle_of d target none ptr s'

    unfoldable pub get_or_create_process : FixtureDef → ℕ → Stores → Outcome FixtureHandle
    unfolding ensure_process_fixture
    get_or_create_process d target s =
        ensure_process_fixture d s >>= λ ptr s'. handle_of d target none ptr s'

    abbrev pub get_scoped : FixtureScope → FixtureDef → ℕ → Stores → Outcome FixtureHandle
    get_scoped variable d target s = get_variable d target s
    get_scoped test d target s = get_or_create_test d target s
    get_scoped process d target s = get_or_create_process d target s

    -- `match def.scope` of `fixture`.
    abbrev pub ensure_scoped : FixtureScope → FixtureDef → Stores → Outcome ℕ
    ensure_scoped variable d s = panics (use_fixture_get d.name) s
    ensure_scoped test d s = ensure_test_fixture d s
    ensure_scoped process d s = ensure_process_fixture d s

  -- A unit of fuel for each dependency inside another.
  unfoldable pub fixture_get : List FixtureDef → ℕ → Text → ℕ → Stores → Outcome FixtureHandle
  unfolding get_variable get_or_create_test get_or_create_process
  fixture_get registry zero name target s = no_fuel
  fixture_get registry (suc fuel) name target s = elim (find_fixture name registry) [
    | none ↦ panics (unregistered name) s
    | some d ↦ in_scope d.scope name s (get_scoped (fixture_get registry fuel) d.scope d target s)
  ]
