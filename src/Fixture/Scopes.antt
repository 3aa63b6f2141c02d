-- ===== src/Fixture/Scopes.antt =====
-- src/fixture.rs: in a registry that passes, no fixture depends on one of a narrower scope, however
-- many steps away.
use skuld.Prelude.{
  ℕ, ◌≤◌, ◌≡◌, sym, subst, List, [], ◌∷◌, Option, none, some, Text, text_eq, ltb, if◌then◌else◌,
  Result, ok, err, >>=-eq-ok, In, inl, inr, arith, Bool-cases,
}
use skuld.Fixture.Registry.{rank, FixtureDef, RegistryPanic, find_fixture, check_deps, check_edges}

-- The fixture that `find_fixture` finds is in the registry.
pub find_fixture-In :
    (name : Text) (ds : List FixtureDef) (d : FixtureDef) → find_fixture name ds ≡ some d → In d ds
unfolding find_fixture
find_fixture-In name [] d h = absurd cc
find_fixture-In name (x ∷ ds) d h = elim (Bool-cases (text_eq x.name name)) [
  | inl e ↦ inl (ground (arith, h, e))
  | inr e ↦ inr (find_fixture-In name ds d (ground (arith, h, e)))
]

-- A fixture depends on another, through one or more edges.
pub data DependsOn (registry : List FixtureDef) : FixtureDef → FixtureDef → Type 0 where
  edge :
      (d dep : FixtureDef) (name : Text)
      → In name d.deps
      → find_fixture name registry ≡ some dep
      → DependsOn registry d dep
  through :
      (d dep : FixtureDef) (name : Text) (far : FixtureDef)
      → In name d.deps
      → find_fixture name registry ≡ some dep
      → DependsOn registry dep far
      → DependsOn registry d far

-- What one passed step of `check_deps` says.
step_cases :
    (missing narrower : RegistryPanic) (n : ℕ) (found : Option FixtureDef)
    (rest : Result {0, 0} RegistryPanic Unit)
    → elim found [
      | none ↦ err missing
      | some dep ↦ if ltb (rank dep.scope) n then err narrower else rest
    ]
      ≡ ok tt
    → (rest ≡ ok tt) × ((dep : FixtureDef) → found ≡ some dep → n ≤ rank dep.scope)
step_cases missing narrower n none rest h = absurd cc
step_cases missing narrower n (some dep) rest h = elim (Bool-cases (ltb (rank dep.scope) n)) [
  | inl e ↦ absurd (ground (arith, h, e))
  | inr e ↦ (
    ground (arith, h, e),
    λ far same. let one : dep ≡ far = cc in subst (λ x. n ≤ rank x.scope) one (ground (arith, e)),
  )
]

check_deps-edge :
    (registry : List FixtureDef) (d dep : FixtureDef) (ns : List Text) (name : Text)
    → check_deps registry d ns ≡ ok tt
    → In name ns
    → find_fixture name registry ≡ some dep
    → rank d.scope ≤ rank dep.scope
unfolding check_deps
check_deps-edge registry d dep [] name h member found = absurd member
check_deps-edge registry d dep (n ∷ ns) name h (inl e) found =
    (step_cases _ _ (rank d.scope) (find_fixture n registry) (check_deps registry d ns) h).1 dep
      (subst (λ m. find_fixture m registry ≡ some dep) e found)
check_deps-edge registry d dep (n ∷ ns) name h (inr member) found =
    check_deps-edge registry d dep ns name
      (step_cases _ _ (rank d.scope) (find_fixture n registry) (check_deps registry d ns) h).0
      member found

check_edges-deps :
    (registry ds : List FixtureDef) (d : FixtureDef)
    → check_edges registry ds ≡ ok tt
    → In d ds
    → check_deps registry d d.deps ≡ ok tt
unfolding check_edges
check_edges-deps registry (x ∷ ds) d h (inl e) =
    let (u, first, rest) = >>=-eq-ok (check_deps registry x x.deps) _ h in
    subst (λ y. check_deps registry y y.deps ≡ ok tt) (sym e) first
check_edges-deps registry (x ∷ ds) d h (inr member) =
    let (u, first, rest) = >>=-eq-ok (check_deps registry x x.deps) _ h in
    check_edges-deps registry ds d rest member
check_edges-deps registry [] d h member = absurd member

-- In a registry whose edges pass the check, a registered fixture depends, directly or through others,
-- only on fixtures of its own or a wider scope.
pub DependsOn-rank :
    (registry : List FixtureDef) (d far : FixtureDef)
    → check_edges registry registry ≡ ok tt
    → In d registry
    → DependsOn registry d far
    → rank d.scope ≤ rank far.scope
DependsOn-rank registry d far h member (edge _ _ name listed found) =
    check_deps-edge registry d far d.deps name (check_edges-deps registry registry d h member)
      listed found
DependsOn-rank registry d far h member (through _ dep name _ listed found rest) =
    let first =
      check_deps-edge registry d dep d.deps name (check_edges-deps registry registry d h member)
        listed found in
    let others = DependsOn-rank registry dep far h (find_fixture-In name registry dep found) rest in
    omega arith
