-- ===== src/Examples/Fixtures.antt =====
-- The search for cycles in a registry at a concrete input.
use skuld.Prelude.{
  none, false, ◌==◌, ℕ, suc, ◌≤◌, true, refl, ◌≡◌, List, [], ◌∷◌, some, Text, codes, Result, ok, In,
}
use skuld.Fixture.Registry.{FixtureDef, variable, test, process, find_fixture}
use skuld.Fixture.Scopes.{DependsOn}
use skuld.Fixture.Cycles.{check_cycles}
use skuld.Fixture.Store.{Stores, Code, done, panics, no_fuel, drop_panicked}
use skuld.Fixture.Store.Trial.{
  Trial, run_trials, cleanup_process_fixtures, drop_scope, pop_all, empty_stores,
}
use skuld.Fixture.Store.Closed.{Between}
use skuld.Fixture.Store.Reclaimed.{EachDroppedOnce, run_trials-EachDroppedOnce}
use skuld.Fixture.Cycles.Acyclic.{check_cycles_sound}

abbrev fixture_of : Text → List Text → FixtureDef
fixture_of name deps = record { name = name; scope = test; deps = deps; labels = []; serial = [] }

abbrev temp_registry : List FixtureDef
temp_registry =
    fixture_of (codes "temp_dir") (codes "test_name" ∷ []) ∷ fixture_of (codes "test_name") [] ∷ []

check_cycles_sound_example :
    (r : Result {0, 0} Text Unit) × (check_cycles temp_registry temp_registry ≡ some r)
    × (r ≡ ok tt
        → (d : FixtureDef) → In d temp_registry
        → find_fixture d.name temp_registry ≡ some d
        → ¬ DependsOn temp_registry d d)
check_cycles_sound_example = check_cycles_sound temp_registry

-- A corpus of the process, a directory of the test that needs it, and a fresh file in the directory.
abbrev store_registry : List FixtureDef
store_registry =
    record { name = codes "corpus"; scope = process; deps = []; labels = []; serial = [] }
    ∷ record {
      name = codes "dir";
      scope = test;
      deps = codes "corpus" ∷ [];
      labels = [];
      serial = [];
    }
    ∷ record {
      name = codes "file";
      scope = variable;
      deps = codes "dir" ∷ [];
      labels = [];
      serial = [];
    }
    ∷ []

abbrev no_failures : Code
no_failures = record {
  builds = λ name at. true;
  casts = λ name target. true;
  target = λ name dep. 0;
  drop_panics = λ at. false;
}

abbrev two_trials : List Trial
two_trials =
    record {
      name = codes "reads";
      target = λ name. 0;
      names = codes "file" ∷ codes "dir" ∷ [];
      calls = (codes "corpus", 0) ∷ (codes "file", 0) ∷ [];
    }
    ∷ record { name = codes "writes"; target = λ name. 0; names = codes "dir" ∷ []; calls = [] }
    ∷ []

-- The file goes before the directory that it stands in, the corpus last.
two_trials_drops :
    elim (run_trials no_failures store_registry 4 two_trials empty_stores) [
      | none ↦ []
      | some s ↦ elim (cleanup_process_fixtures (λ at. false) s) [
        | done u s' ↦ s'.dropped
        | panics e s' ↦ []
        | no_fuel ↦ []
      ]
    ]
    ≡ 2 ∷ 1 ∷ 3 ∷ 0 ∷ []
unfolding run_trials cleanup_process_fixtures find_fixture
two_trials_drops = refl

-- A drop that panics leaves the entries below it, and the current test.
abbrev two_cached : Stores
two_cached = record empty_stores {
  tests = record { name = codes "a"; ptr = 0 } ∷ record { name = codes "b"; ptr = 1 } ∷ [];
  current = some (codes "reads");
}

drop_scope_panics :
    drop_scope (λ at. at == 1) two_cached
    ≡ panics drop_panicked
        (record two_cached { tests = record { name = codes "a"; ptr = 0 } ∷ []; dropped = 1 ∷ [] })
unfolding drop_scope pop_all
drop_scope_panics = refl

store_registry_passes : check_cycles store_registry store_registry ≡ some (ok tt)
unfolding check_cycles find_fixture
store_registry_passes = refl

run_trials-EachDroppedOnce_example :
    (k : ℕ) × ((fuel : ℕ)
      → k ≤ fuel
      → (last end : Stores) × (run_trials no_failures store_registry
            (suc fuel)
            two_trials
            empty_stores
          ≡ some last)
        × Between last
        × (cleanup_process_fixtures no_failures.drop_panics last ≡ done tt end)
        × EachDroppedOnce end)
run_trials-EachDroppedOnce_example =
    run_trials-EachDroppedOnce no_failures store_registry two_trials store_registry_passes
      (λ p. refl)
