-- ===== src/Fixture/Store/Reclaimed.antt =====
-- src/fixture.rs: over a whole run, each value that a fixture's function makes is dropped once.
use skuld.Prelude.{
  ℕ, suc, ◌+◌, ◌≡◌, refl, ap, Bool, List, [], ◌∷◌, none, some, Text, ltb, arith, Bool-cases, ok,
  ◌≤◌, inl, inr, subst,
}
use skuld.Fixture.Registry.{FixtureDef, find_fixture}
use skuld.Fixture.Cycles.{check_cycles}
use skuld.Fixture.Store.Ends.{Ended, bind-Ended, found-Ended, get_each-Ended, ensure_scoped-Ended}
use skuld.Fixture.Store.Bound.{fixture_get_ends}
use skuld.Fixture.Store.{Stores, done, panics, Code, get_each, fixture_get, ensure_scoped}
use skuld.Fixture.Store.Trial.{
  BodyEnd, returns, unwinds, aborts, unfuelled, fixture, enter_test_scope, cleanup_process_fixtures,
  call_each, run_body, Trial, behind, run_trials, empty_stores,
}
use skuld.Fixture.Store.Account.{bit, count, cached, held, get_each-Balanced}
use skuld.Fixture.Store.Requests.{fixture_get-KeepsAccounts, call_each-Balanced}
use skuld.Fixture.Store.Closed.{
  free, Between, DropsReturn, drop_all, Settled, Settles, HasFuel, pop_all_returns,
  drop_all-Accounts, drop_all-keeps, with_handles-Settles, with_handles-HasFuel,
}

module _ (code : Code) (registry : List FixtureDef) (fuel : ℕ) where
  run_body-Settles :
      (name : Text) (target : Text → ℕ) (names : List Text) (calls : List (Text × ℕ)) (s : Stores)
      → DropsReturn code.drop_panics
      → Settled s
      → Settles (run_body code registry fuel name target names calls s)
  unfolding run_body enter_test_scope
  run_body-Settles name target names calls s never h =
      let begun = record s { current = some name } in
      rw h.0.1 (
        with_handles-Settles code.drop_panics never (λ hs. call_each code registry fuel calls)
          (get_each code (fixture_get code registry fuel) target names begun)
          (get_each-Balanced code (fixture_get code registry fuel)
            (fixture_get-KeepsAccounts code registry fuel) target names free begun h.1)
          (λ hs s' a. call_each-Balanced code registry fuel calls (λ p. held p hs + 0) s' a))

  behind-Settled : (m : BodyEnd) (s : Stores) → Settles m → behind m ≡ some s → Settled s
  behind-Settled (returns s') s h e = let same : s' ≡ s = cc in subst Settled same h
  behind-Settled (unwinds p s') s h e = let same : s' ≡ s = cc in subst Settled same h
  behind-Settled aborts s h e = absurd h
  behind-Settled unfuelled s h e = absurd cc

module _ (code : Code) (registry : List FixtureDef) (fuel : ℕ)
    (ends : (name : Text) (target : ℕ) (s : Stores)
      → Ended (fixture_get code registry fuel name target s)) where
  fixture-Ended :
      (name : Text) (target : ℕ) (s : Stores) → Ended (fixture code registry fuel name target s)
  unfolding fixture
  fixture-Ended name target s =
      let get = fixture_get code registry fuel in
      found-Ended s.current (panics _ s) (λ t. _) tt
        (λ t e.
          found-Ended (find_fixture name registry) (panics _ s) (λ d. _) tt
            (λ d e'.
              bind-Ended (ensure_scoped code get d.scope d s) _
                (ensure_scoped-Ended code get d.scope d s (λ n t' s' at. ends n t' s'))
                (λ ptr s'. elim (Bool-cases (code.casts d.name target)) [
                  | inl c ↦ rw c tt
                  | inr c ↦ rw c tt
                ])))

  call_each-Ended :
      (calls : List (Text × ℕ)) (s : Stores) → Ended (call_each code registry fuel calls s)
  unfolding call_each
  call_each-Ended [] s = tt
  call_each-Ended ((name, target) ∷ calls) s =
      bind-Ended (fixture code registry fuel name target s) _ (fixture-Ended name target s)
        (λ ptr s'. call_each-Ended calls s')

  run_body-HasFuel :
      (t : Trial) (s : Stores)
      → DropsReturn code.drop_panics
      → s.current ≡ none
      → HasFuel (run_body code registry fuel t.name t.target t.names t.calls s)
  unfolding run_body enter_test_scope
  run_body-HasFuel t s never idle =
      let begun = record s { current = some t.name } in
      rw idle (
        with_handles-HasFuel code.drop_panics never (λ hs. call_each code registry fuel t.calls)
          (get_each code (fixture_get code registry fuel) t.target t.names begun)
          (get_each-Ended code (fixture_get code registry fuel) t.target t.names begun
            (λ n t' s' at. ends n t' s'))
          (λ hs s'. call_each-Ended t.calls s'))

  HasFuel-behind : (m : BodyEnd) → Settles m → HasFuel m → (s : Stores) × (behind m ≡ some s)
  HasFuel-behind (returns s) settles h = (s, refl)
  HasFuel-behind (unwinds e s) settles h = (s, refl)
  HasFuel-behind aborts settles h = absurd settles
  HasFuel-behind unfuelled settles h = absurd h

  run_trials-ends :
      (ts : List Trial) (s : Stores)
      → DropsReturn code.drop_panics
      → Settled s
      → (last : Stores) × (run_trials code registry fuel ts s ≡ some last) × Settled last
  unfolding run_trials
  run_trials-ends [] s never h = (s, refl, h)
  run_trials-ends (t ∷ ts) s never h =
      let m = run_body code registry fuel t.name t.target t.names t.calls s in
      let settles = run_body-Settles code registry fuel t.name t.target t.names t.calls s never h in
      let (s', ended) = HasFuel-behind m settles (run_body-HasFuel t s never h.0.1) in
      let (last, runs, final) =
        run_trials-ends ts s' never (behind-Settled code registry fuel m s' settles ended) in
      (last, rw (ended, run_trials) runs, final)

-- The values that the fixtures' functions made, and no others, are dropped, each once.
abbrev pub EachDroppedOnce : Stores → Type 0
EachDroppedOnce s = (p : ℕ) → count p s.dropped ≡ bit (ltb p s.next)

-- The stores behind the cleanup of the process.
abbrev process_over : Stores → Stores
process_over s = record (drop_all s.entries (record s { entries = [] })) {
  entries = [];
  index = [];
}

cleanup_returns :
    (drop_panics : ℕ → Bool) (s : Stores)
    → DropsReturn drop_panics
    → cleanup_process_fixtures drop_panics s ≡ done tt (process_over s)
unfolding cleanup_process_fixtures
cleanup_returns drop_panics s never =
    rw (pop_all_returns drop_panics s.entries (record s { entries = [] }) never) refl

process_over-EachDroppedOnce : (s : Stores) → Settled s → EachDroppedOnce (process_over s)
process_over-EachDroppedOnce s h p =
    let kept = drop_all-keeps s.entries (record s { entries = [] }) in
    let dropped =
      drop_all-Accounts s.entries free (record s { entries = [] }) (λ q. omega (arith, h.1 q)) p in
    omega (
      arith,
      dropped,
      ap (cached p) kept.0,
      ap (cached p) kept.1,
      ap (cached p) h.0.0,
      ap (λ n. bit (ltb p n)) kept.2,
    )

-- Whichever functions of the fixtures fail and whatever their casts serve, in a registry that passes
-- the check for cycles, where no drop of a fixture's value panics: with any fuel beyond a bound, tests
-- that run one after another all end, each by its return or a panic, and leave no test fixture and no
-- current test. The cleanup of the process then returns, and each value that was made is dropped
-- exactly once, and nothing else.
pub run_trials-EachDroppedOnce :
    (code : Code) (registry : List FixtureDef) (ts : List Trial)
    → check_cycles registry registry ≡ some (ok tt)
    → DropsReturn code.drop_panics
    → (k : ℕ) × ((fuel : ℕ)
        → k ≤ fuel
        → (last end : Stores) × (run_trials code registry (suc fuel) ts empty_stores ≡ some last)
          × Between last
          × (cleanup_process_fixtures code.drop_panics last ≡ done tt end)
          × EachDroppedOnce end)
run_trials-EachDroppedOnce code registry ts fine never =
    let (k, ends) = fixture_get_ends code registry fine in
    (
      k,
      λ fuel le.
          let (last, runs, settled) =
            run_trials-ends code registry (suc fuel) (λ name target s. ends fuel name target s le)
              ts empty_stores never ((refl, refl), λ p. ground arith) in
          (
            last,
            process_over last,
            runs,
            settled.0,
            cleanup_returns code.drop_panics last never,
            process_over-EachDroppedOnce last settled,
          ),
    )
