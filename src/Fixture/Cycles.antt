-- ===== src/Fixture/Cycles.antt =====
-- src/fixture.rs: `detect_cycle`, the depth-first search of `validate_fixture_graph`.
pub mod Acyclic
use skuld.Prelude.{
  ℕ, zero, suc, ◌<◌, ◌≡◌, refl, sym, ap, ◌∙◌, subst, Bool, true, false, List, [], ◌∷◌, Option, none,
  some, Text, contains, contains→In, if◌then◌else◌, length, Result, ok, err, Bool-cases, inl, inr,
  In, All, All-In, arith,
}
use skuld.Fixture.Registry.{FixtureDef, find_fixture}
use skuld.Fixture.Scopes.{DependsOn, edge, through}
use skuld.Fixture.Walk.{unvisited, unvisited_strict, unvisited-nil}

-- The set `visited` then, or the panic with the name; `none` is the lack of fuel.
abbrev pub Detected : Type 0
Detected = Option (Result Text (List Text))

-- `for &dep in def.deps { detect_cycle(..) }`.
unfoldable pub detect_each : (Text → List Text → Detected) → List Text → List Text → Detected
detect_each detect [] visited = some (ok visited)
detect_each detect (n ∷ ns) visited = elim (detect n visited) [
  | none ↦ none
  | some (err name) ↦ some (err name)
  | some (ok v) ↦ detect_each detect ns v
]

-- A name that leaves `visiting` again is one that was not in it before.
unfoldable pub detect_cycle : ℕ → List FixtureDef → Text → List Text → List Text → Detected
unfolding detect_each
detect_cycle zero registry name visiting visited = none
detect_cycle (suc fuel) registry name visiting visited =
    if contains visited name
    then some (ok visited)
    else if contains visiting name
    then some (err name)
    else elim (find_fixture name registry) [
      | none ↦ some (ok (name ∷ visited))
      | some d ↦
          elim (detect_each (λ n v. detect_cycle fuel registry n (name ∷ visiting) v) d.deps
            visited) [
              | none ↦ none
              | some (err cycle) ↦ some (err cycle)
              | some (ok v) ↦ some (ok (name ∷ v))
            ]
    ]

-- The last loop of `validate_fixture_graph`, over these values of the registry.
unfoldable pub check_cycles : List FixtureDef → List FixtureDef → Option (Result {0, 0} Text Unit)
unfolding detect_cycle
check_cycles registry [] = some (ok tt)
check_cycles registry (d ∷ ds) =
    let rest = check_cycles registry ds in
    elim (detect_cycle (suc (length registry)) registry d.name [] []) [
      | none ↦ none
      | some (err cycle) ↦ some (err cycle)
      | some (ok visited) ↦ rest
    ]
