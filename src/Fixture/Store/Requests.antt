-- ===== src/Fixture/Store/Requests.antt =====
-- src/fixture.rs: `fixture_get`, a test with its scope, and the cleanup keep the accounts.
use skuld.Prelude.{
  ℕ, zero, suc, ◌+◌, List, [], ◌∷◌, Option, none, some, Text, ◌==◌, if◌then◌else◌, Bool-cases, inl,
  inr, arith,
}
use skuld.Fixture.Registry.{FixtureScope, variable, test, process, FixtureDef, find_fixture}
use skuld.Fixture.Store.{
  Stores, FixtureHandle, Outcome, done, panics, Code, ◌>>=◌, drop_value, find_entry, find_index,
  entry_at, no_target, setup, push_test, ensure_test_fixture, insert_process,
  ensure_process_fixture, handle_of, get_variable, get_or_create_test, get_or_create_process,
  in_scope, get_scoped, ensure_scoped, fixture_get,
}
use skuld.Fixture.Store.Trial.{fixture, call_each}
use skuld.Fixture.Store.Account.{
  bit, owns, Accounts, Balanced, cached-append, bind-Balanced, drop_value-Accounts,
  drop_owner-Accounts, one_value, one_handle, nothing, KeepsAccounts, found-Balanced,
  entry_at-Balanced, setup-Balanced,
}

push_test-Balanced :
    (d : FixtureDef) (ptr : ℕ) (owned : ℕ → ℕ) (s : Stores)
    → Accounts (λ p. bit (ptr == p) + owned p) s
    → Balanced nothing owned (push_test d ptr s)
push_test-Balanced d ptr owned s h =
    λ p. omega (arith, h p, cached-append p s.tests (record { name = d.name; ptr = ptr } ∷ []))

insert_process-Balanced :
    (d : FixtureDef) (ptr : ℕ) (owned : ℕ → ℕ) (s : Stores)
    → Accounts (λ p. bit (ptr == p) + owned p) s
    → Balanced nothing owned (insert_process d ptr s)
unfolding insert_process
insert_process-Balanced d ptr owned s h =
    found-Balanced nothing owned (find_index d.name s.index) _
      (λ i. entry_at s.entries i (drop_value ptr s))
      (λ p.
        omega (arith, h p, cached-append p s.entries (record { name = d.name; ptr = ptr } ∷ [])))
      (λ i.
        entry_at-Balanced s.entries i owned (drop_value ptr s) (drop_value-Accounts ptr owned s h))

module _ (code : Code) where
  -- With the value that the handle is to own, if any.
  handle_of-Balanced :
      (d : FixtureDef) (target : ℕ) (owner : Option ℕ) (ptr : ℕ) (owned : ℕ → ℕ) (s : Stores)
      → Accounts (λ p. owns p owner + owned p) s
      → Balanced one_handle owned (handle_of code d target owner ptr s)
  handle_of-Balanced d target owner ptr owned s h = elim (Bool-cases (code.casts d.name target)) [
    | inl e ↦ rw e h
    | inr e ↦ rw e (drop_owner-Accounts owner owned s h)
  ]

  module _ (get : Text → ℕ → Stores → Outcome FixtureHandle) (keeps : KeepsAccounts get) where
    ensure_test_fixture-Balanced :
        (d : FixtureDef) (owned : ℕ → ℕ) (s : Stores)
        → Accounts owned s
        → Balanced nothing owned (ensure_test_fixture code get d s)
    unfolding ensure_test_fixture
    ensure_test_fixture-Balanced d owned s h =
        found-Balanced nothing owned (find_entry d.name s.tests)
          (setup code get d s >>= push_test d) (λ ptr. done ptr s)
          (bind-Balanced one_value nothing owned (setup code get d s) (push_test d)
            (setup-Balanced code get keeps d owned s h)
            (λ ptr s' a. push_test-Balanced d ptr owned s' a))
          (λ ptr p. omega (arith, h p))

    pub ensure_process_fixture-Balanced :
        (d : FixtureDef) (owned : ℕ → ℕ) (s : Stores)
        → Accounts owned s
        → Balanced nothing owned (ensure_process_fixture code get d s)
    unfolding ensure_process_fixture
    ensure_process_fixture-Balanced d owned s h =
        found-Balanced nothing owned (find_index d.name s.index)
          (setup code get d s >>= insert_process d) (λ i. entry_at s.entries i s)
          (bind-Balanced one_value nothing owned (setup code get d s) (insert_process d)
            (setup-Balanced code get keeps d owned s h)
            (λ ptr s' a. insert_process-Balanced d ptr owned s' a))
          (λ i. entry_at-Balanced s.entries i owned s h)

    get_scoped-Balanced :
        (scope : FixtureScope) (d : FixtureDef) (target : ℕ) (owned : ℕ → ℕ) (s : Stores)
        → Accounts owned s
        → Balanced one_handle owned (get_scoped code get scope d target s)
    unfolding get_variable get_or_create_test get_or_create_process
    get_scoped-Balanced variable d target owned s h =
        bind-Balanced one_value one_handle owned (setup code get d s)
          (λ ptr s'. handle_of code d target (some ptr) ptr s')
          (setup-Balanced code get keeps d owned s h)
          (λ ptr s' a. handle_of-Balanced d target (some ptr) ptr owned s' a)
    get_scoped-Balanced test d target owned s h =
        bind-Balanced nothing one_handle owned (ensure_test_fixture code get d s)
          (λ ptr s'. handle_of code d target none ptr s') (ensure_test_fixture-Balanced d owned s h)
          (λ ptr s' a. handle_of-Balanced d target none ptr owned s' a)
    get_scoped-Balanced process d target owned s h =
        bind-Balanced nothing one_handle owned (ensure_process_fixture code get d s)
          (λ ptr s'. handle_of code d target none ptr s')
          (ensure_process_fixture-Balanced d owned s h)
          (λ ptr s' a. handle_of-Balanced d target none ptr owned s' a)

    ensure_scoped-Balanced :
        (scope : FixtureScope) (d : FixtureDef) (owned : ℕ → ℕ) (s : Stores)
        → Accounts owned s
        → Balanced nothing owned (ensure_scoped code get scope d s)
    ensure_scoped-Balanced variable d owned s h = h
    ensure_scoped-Balanced test d owned s h = ensure_test_fixture-Balanced d owned s h
    ensure_scoped-Balanced process d owned s h = ensure_process_fixture-Balanced d owned s h

in_scope-Balanced :
    (scope : FixtureScope) (name : Text) (owned : ℕ → ℕ) (s : Stores) (k : Outcome FixtureHandle)
    → Accounts owned s
    → Balanced one_handle owned k
    → Balanced one_handle owned (in_scope scope name s k)
in_scope-Balanced process name owned s k h a = a
in_scope-Balanced variable name owned s k h a =
    found-Balanced one_handle owned s.current (panics _ s) (λ t. k) h (λ t. a)
in_scope-Balanced test name owned s k h a =
    found-Balanced one_handle owned s.current (panics _ s) (λ t. k) h (λ t. a)

module _ (code : Code) (registry : List FixtureDef) where
  pub fixture_get-KeepsAccounts : (fuel : ℕ) → KeepsAccounts (fixture_get code registry fuel)
  unfolding fixture_get
  fixture_get-KeepsAccounts zero name target owned s h = tt
  fixture_get-KeepsAccounts (suc fuel) name target owned s h =
      found-Balanced one_handle owned (find_fixture name registry) (panics _ s)
        (λ d.
          in_scope d.scope name s
            (get_scoped code (fixture_get code registry fuel) d.scope d target s))
        h
        (λ d.
          in_scope-Balanced d.scope name owned s
            (get_scoped code (fixture_get code registry fuel) d.scope d target s) h
            (get_scoped-Balanced code (fixture_get code registry fuel)
              (fixture_get-KeepsAccounts fuel) d.scope d target owned s h))

  cast-Balanced :
      (d : FixtureDef) (target ptr : ℕ) (owned : ℕ → ℕ) (s : Stores)
      → Accounts owned s
      → Balanced nothing owned
          (if code.casts d.name target then done ptr s else panics (no_target d.name) s)
  cast-Balanced d target ptr owned s h = elim (Bool-cases (code.casts d.name target)) [
    | inl e ↦ rw e (λ p. omega (arith, h p))
    | inr e ↦ rw e h
  ]

  fixture-Balanced :
      (fuel : ℕ) (name : Text) (target : ℕ) (owned : ℕ → ℕ) (s : Stores)
      → Accounts owned s
      → Balanced nothing owned (fixture code registry fuel name target s)
  unfolding fixture
  fixture-Balanced fuel name target owned s h =
      let get = fixture_get code registry fuel in
      found-Balanced nothing owned s.current (panics _ s) (λ t. _) h
        (λ t.
          found-Balanced nothing owned (find_fixture name registry) (panics _ s) (λ d. _) h
            (λ d.
              bind-Balanced nothing nothing owned (ensure_scoped code get d.scope d s) _
                (ensure_scoped-Balanced code get (fixture_get-KeepsAccounts fuel) d.scope d owned s
                  h)
                (λ ptr s' a. cast-Balanced d target ptr owned s' (λ p. omega (arith, a p)))))

  pub call_each-Balanced :
      (fuel : ℕ) (calls : List (Text × ℕ)) (owned : ℕ → ℕ) (s : Stores)
      → Accounts owned s
      → Balanced nothing owned (call_each code registry fuel calls s)
  unfolding call_each
  call_each-Balanced fuel [] owned s h = λ p. omega (arith, h p)
  call_each-Balanced fuel ((name, target) ∷ calls) owned s h =
      bind-Balanced nothing nothing owned (fixture code registry fuel name target s)
        (λ ptr s'. call_each code registry fuel calls s')
        (fixture-Balanced fuel name target owned s h)
        (λ ptr s' a. call_each-Balanced fuel calls owned s' (λ p. omega (arith, a p)))
