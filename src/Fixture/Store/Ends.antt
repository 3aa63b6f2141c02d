-- ===== src/Fixture/Store/Ends.antt =====
-- src/fixture.rs: in a registry without cycles, every request ends.
use skuld.Prelude.{
  ℕ, zero, suc, ◌≡◌, refl, List, [], ◌∷◌, Option, none, some, Text, In, inl, inr, Bool-cases,
}
use skuld.Fixture.Registry.{FixtureScope, variable, test, process, FixtureDef, find_fixture}
use skuld.Fixture.Store.{
  Entry, Stores, FixtureHandle, Outcome, done, panics, no_fuel, Code, ◌>>=◌, drop_value,
  keep_handle, find_entry, find_index, entry_at, get_each, built, setup, push_test,
  ensure_test_fixture, insert_process, ensure_process_fixture, handle_of, get_variable,
  get_or_create_test, get_or_create_process, in_scope, get_scoped, ensure_scoped, fixture_get,
}

abbrev pub Ended : {A : Type 0} → Outcome A → Type 0
Ended (done a s) = Unit
Ended (panics e s) = Unit
Ended no_fuel = ⊥

pub bind-Ended :
    {A B : Type 0} (m : Outcome A) (k : A → Stores → Outcome B)
    → Ended m
    → ((a : A) (s : Stores) → Ended (k a s))
    → Ended (m >>= k)
bind-Ended (done a s) k h next = next a s
bind-Ended (panics e s) k h next = tt
bind-Ended no_fuel k h next = h

pub found-Ended :
    {X A : Type 0} (found : Option X) (absent : Outcome A) (present : X → Outcome A)
    → Ended absent
    → ((x : X) → found ≡ some x → Ended (present x))
    → Ended (elim found [ none ↦ absent | some x ↦ present x ])
found-Ended none absent present h k = h
found-Ended (some x) absent present h k = k x refl

keep_handle-Ended :
    (h : FixtureHandle) (m : Outcome (List FixtureHandle)) → Ended m → Ended (keep_handle h m)
keep_handle-Ended h (done hs s) k = tt
keep_handle-Ended h (panics e s) k = tt
keep_handle-Ended h no_fuel k = k

entry_at-Ended : (es : List Entry) (i : ℕ) (s : Stores) → Ended (entry_at es i s)
unfolding entry_at
entry_at-Ended [] i s = tt
entry_at-Ended (e ∷ es) zero s = tt
entry_at-Ended (e ∷ es) (suc i) s = entry_at-Ended es i s

-- Requests for these names end.
abbrev pub Serves : (Text → ℕ → Stores → Outcome FixtureHandle) → List Text → Type 0
Serves get names =
    (name : Text) (target : ℕ) (s : Stores) → In name names → Ended (get name target s)

module _ (code : Code) (get : Text → ℕ → Stores → Outcome FixtureHandle) where
  pub get_each-Ended :
      (target : Text → ℕ) (names : List Text) (s : Stores)
      → Serves get names
      → Ended (get_each code get target names s)
  unfolding get_each
  get_each-Ended target [] s h = tt
  get_each-Ended target (n ∷ ns) s h =
      bind-Ended (get n (target n) s) _ (h n (target n) s (inl refl)) (λ x s'.
        keep_handle-Ended x (get_each code get target ns s')
          (get_each-Ended target ns s' (λ m t u at. h m t u (inr at))))

  setup-Ended : (d : FixtureDef) (s : Stores) → Serves get d.deps → Ended (setup code get d s)
  unfolding setup built
  setup-Ended d s h =
      bind-Ended (get_each code get (code.target d.name) d.deps s) (built code d)
        (get_each-Ended (code.target d.name) d.deps s h)
        (λ hs s'. elim (Bool-cases (code.builds d.name s'.next)) [
          | inl e ↦ rw e tt
          | inr e ↦ rw e tt
        ])

  ensure_test_fixture-Ended :
      (d : FixtureDef) (s : Stores) → Serves get d.deps → Ended (ensure_test_fixture code get d s)
  unfolding ensure_test_fixture
  ensure_test_fixture-Ended d s h =
      found-Ended (find_entry d.name s.tests) (setup code get d s >>= push_test d)
        (λ ptr. done ptr s) (bind-Ended (setup code get d s) _ (setup-Ended d s h) (λ ptr s'. tt))
        (λ ptr e. tt)

  pub ensure_process_fixture-Ended :
      (d : FixtureDef) (s : Stores)
      → Serves get d.deps
      → Ended (ensure_process_fixture code get d s)
  unfolding ensure_process_fixture insert_process
  ensure_process_fixture-Ended d s h =
      found-Ended (find_index d.name s.index) (setup code get d s >>= insert_process d)
        (λ i. entry_at s.entries i s)
        (bind-Ended (setup code get d s) (insert_process d) (setup-Ended d s h) (λ ptr s'.
          found-Ended (find_index d.name s'.index) _
            (λ i. entry_at s'.entries i (drop_value ptr s')) tt
            (λ i e. entry_at-Ended s'.entries i (drop_value ptr s'))))
        (λ i e. entry_at-Ended s.entries i s)

  handle_of-Ended :
      (d : FixtureDef) (target : ℕ) (owner : Option ℕ) (ptr : ℕ) (s : Stores)
      → Ended (handle_of code d target owner ptr s)
  handle_of-Ended d target owner ptr s = elim (Bool-cases (code.casts d.name target)) [
    | inl e ↦ rw e tt
    | inr e ↦ rw e tt
  ]

  get_scoped-Ended :
      (scope : FixtureScope) (d : FixtureDef) (target : ℕ) (s : Stores)
      → Serves get d.deps
      → Ended (get_scoped code get scope d target s)
  unfolding get_variable get_or_create_test get_or_create_process
  get_scoped-Ended variable d target s h =
      bind-Ended (setup code get d s) _ (setup-Ended d s h)
        (λ ptr s'. handle_of-Ended d target (some ptr) ptr s')
  get_scoped-Ended test d target s h =
      bind-Ended (ensure_test_fixture code get d s) _ (ensure_test_fixture-Ended d s h)
        (λ ptr s'. handle_of-Ended d target none ptr s')
  get_scoped-Ended process d target s h =
      bind-Ended (ensure_process_fixture code get d s) _ (ensure_process_fixture-Ended d s h)
        (λ ptr s'. handle_of-Ended d target none ptr s')

  pub ensure_scoped-Ended :
      (scope : FixtureScope) (d : FixtureDef) (s : Stores)
      → Serves get d.deps
      → Ended (ensure_scoped code get scope d s)
  ensure_scoped-Ended variable d s h = tt
  ensure_scoped-Ended test d s h = ensure_test_fixture-Ended d s h
  ensure_scoped-Ended process d s h = ensure_process_fixture-Ended d s h

in_scope-Ended :
    (scope : FixtureScope) (name : Text) (s : Stores) (k : Outcome FixtureHandle)
    → Ended k
    → Ended (in_scope scope name s k)
in_scope-Ended process name s k h = h
in_scope-Ended variable name s k h = found-Ended s.current _ (λ t. k) tt (λ t e. h)
in_scope-Ended test name s k h = found-Ended s.current _ (λ t. k) tt (λ t e. h)

module _ (code : Code) (registry : List FixtureDef) where
  pub fixture_get-Ended :
      (fuel : ℕ) (name : Text) (target : ℕ) (s : Stores)
      → ((d : FixtureDef)
          → find_fixture name registry ≡ some d
          → Serves (fixture_get code registry fuel) d.deps)
      → Ended (fixture_get code registry (suc fuel) name target s)
  unfolding fixture_get
  fixture_get-Ended fuel name target s h =
      found-Ended (find_fixture name registry) _
        (λ d.
          in_scope d.scope name s
            (get_scoped code (fixture_get code registry fuel) d.scope d target s))
        tt
        (λ d e.
          in_scope-Ended d.scope name s
            (get_scoped code (fixture_get code registry fuel) d.scope d target s)
            (get_scoped-Ended code (fixture_get code registry fuel) d.scope d target s (h d e)))
