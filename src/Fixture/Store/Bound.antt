-- ===== src/Fixture/Store/Bound.antt =====
-- src/fixture.rs: one bound on the nesting of requests serves a whole registry without cycles.
use skuld.Prelude.{
  ℕ, zero, suc, ◌≤◌, ◌+◌, ◌≡◌, refl, ap, sym, ◌∙◌, subst, List, [], ◌∷◌, none, some, Text, text_eq,
  text_eq→eq, arith, In, inl, inr, ok, Bool-cases, Option-cases, map,
}
use skuld.Fixture.Registry.{FixtureDef, find_fixture}
use skuld.Fixture.Scopes.{find_fixture-In}
use skuld.Fixture.Cycles.{check_cycles}
use skuld.Fixture.Cycles.Acyclic.{Finite, finite, check_cycles-Finite}
use skuld.Fixture.Store.{Stores, Code, fixture_get}
use skuld.Fixture.Store.Ends.{Ended, Serves, fixture_get-Ended}

pub find_fixture-name :
    (name : Text) (ds : List FixtureDef) (d : FixtureDef)
    → find_fixture name ds ≡ some d
    → d.name ≡ name
unfolding find_fixture
find_fixture-name name [] d h = absurd cc
find_fixture-name name (x ∷ ds) d h = elim (Bool-cases (text_eq x.name name)) [
  | inl e ↦
      let same : x ≡ d = ground (arith, h, e) in
      ap (λ (y : FixtureDef). y.name) (sym same) ∙ text_eq→eq x.name name e
  | inr e ↦ find_fixture-name name ds d (ground (arith, h, e))
]

In-names :
    (d : FixtureDef) (ds : List FixtureDef)
    → In d ds
    → In d.name (map (λ (y : FixtureDef). y.name) ds)
In-names d [] at = at
In-names d (x ∷ ds) (inl e) = inl (ap (λ (y : FixtureDef). y.name) e)
In-names d (x ∷ ds) (inr at) = inr (In-names d ds at)

module _ (code : Code) (registry : List FixtureDef) where
  -- Any fuel above the bound ends every request for a fixture that is found as this one.
  abbrev Bounded : FixtureDef → Type 0
  Bounded d =
      (k : ℕ) × ((fuel : ℕ) (name : Text) (target : ℕ) (s : Stores)
        → k ≤ fuel
        → find_fixture name registry ≡ some d
        → Ended (fixture_get code registry (suc fuel) name target s))

  abbrev AllBounded : List Text → Type 0
  AllBounded names =
      (k : ℕ) × ((fuel : ℕ) → k ≤ fuel → Serves (fixture_get code registry (suc fuel)) names)

  names-AllBounded :
      (names : List Text)
      → ((n : Text) (dep : FixtureDef)
          → In n names
          → find_fixture n registry ≡ some dep
          → Bounded dep)
      → AllBounded names
  names-AllBounded [] h = (0, λ fuel le name target s at. absurd at)
  names-AllBounded (n ∷ ns) h =
      let (k, rest) = names-AllBounded ns (λ m dep at. h m dep (inr at)) in
      elim (Option-cases (find_fixture n registry)) [
        | inl e ↦ (
          k,
          λ fuel le name target s at. elim at [
            | inl same ↦ fixture_get-Ended code registry fuel name target s (λ d found.
                let clash : none ≡ some d =
                  sym e ∙ ap (λ x. find_fixture x registry) (sym same) ∙ found in
                absurd cc)
            | inr later ↦ rest fuel le name target s later
          ],
        )
        | inr (dep, e) ↦
            let (b, first) = h n dep (inl refl) e in
            (
              b + k,
              λ fuel le name target s at. elim at [
                | inl same ↦
                    first fuel name target s (omega arith)
                      (ap (λ x. find_fixture x registry) same ∙ e)
                | inr later ↦ rest fuel (omega arith) name target s later
              ],
            )
      ]

  deps-Bounded : (d : FixtureDef) → AllBounded d.deps → Bounded d
  deps-Bounded d (k, serves) = (suc k, go)
    where
      go :
          (fuel : ℕ) (name : Text) (target : ℕ) (s : Stores)
          → suc k ≤ fuel
          → find_fixture name registry ≡ some d
          → Ended (fixture_get code registry (suc fuel) name target s)
      go zero name target s le found = absurd (omega arith)
      go (suc fuel) name target s le found =
          fixture_get-Ended code registry (suc fuel) name target s (λ d' found'.
            let same : d ≡ d' = cc in
            subst (λ x. Serves (fixture_get code registry (suc fuel)) x.deps) same
              (serves fuel (omega arith)))

  Finite-Bounded : (d : FixtureDef) → Finite registry d → Bounded d
  Finite-Bounded d (finite _ f) =
      deps-Bounded d
        (names-AllBounded d.deps (λ n dep at found. Finite-Bounded dep (f n dep at found)))

  -- Beyond a bound, every request ends, whatever its name.
  pub fixture_get_ends :
      check_cycles registry registry ≡ some (ok tt)
      → (k : ℕ) × ((fuel : ℕ) (name : Text) (target : ℕ) (s : Stores)
          → k ≤ fuel
          → Ended (fixture_get code registry (suc fuel) name target s))
  fixture_get_ends fine =
      let names = map (λ (y : FixtureDef). y.name) registry in
      let (k, serves) = names-AllBounded names (λ n dep at found.
        let same = find_fixture-name n registry dep found in
        Finite-Bounded dep (
          check_cycles-Finite registry dep fine (find_fixture-In n registry dep found)
            (ap (λ x. find_fixture x registry) same ∙ found))) in
      (
        k,
        λ fuel name target s le. elim (Option-cases (find_fixture name registry)) [
          | inl e ↦
              fixture_get-Ended code registry fuel name target s
                (λ d found. let clash : none ≡ some d = sym e ∙ found in absurd cc)
          | inr (d, e) ↦ serves fuel le name target s (
              subst (λ x. In x names) (find_fixture-name name registry d e)
                (In-names d registry (find_fixture-In name registry d e)))
        ],
      )
