-- ===== src/Fixture/Registry.antt =====
-- src/fixture.rs: the descriptors of fixtures, the registry and the checks of its edges, and
-- `merge_serial_filters`.
use skuld.Prelude.{
  ℕ, ◌||◌, List, [], ◌∷◌, ◌++◌, Option, none, some, Text, codes, text_eq, ltb, if◌then◌else◌,
  Result, ok, err, ◌>>=◌,
}
use skuld.Label.Name.{Label}

-- `FixtureScope`, and its order.
pub data FixtureScope : Type 0 where
  variable : FixtureScope
  test : FixtureScope
  process : FixtureScope

abbrev pub rank : FixtureScope → ℕ
rank variable = 0
rank test = 1
rank process = 2

-- `FixtureDef`, less its closures and the type's name.
pub record FixtureDef : Type 0 where
  pub name : Text
  pub scope : FixtureScope
  pub deps : List Text
  pub labels : List Label
  pub serial : Text

-- The panics of `fixture_registry`.
pub data RegistryPanic : Type 0 where
  duplicate_name : Text → RegistryPanic
  not_registered : Text → Text → RegistryPanic
  narrower_scope : Text → Text → RegistryPanic

-- `registry.get(name)`.
unfoldable pub find_fixture : Text → List FixtureDef → Option FixtureDef
find_fixture name [] = none
find_fixture name (d ∷ ds) =
    let rest = find_fixture name ds in if text_eq d.name name then some d else rest

-- The loop of `fixture_registry`: `seen` holds what is inserted so far.
unfoldable pub insert_all :
    List FixtureDef → List FixtureDef → Result RegistryPanic (List FixtureDef)
insert_all seen [] = ok seen
insert_all seen (d ∷ ds) =
    let rest = insert_all (seen ++ d ∷ []) ds in
    elim (find_fixture d.name seen) [ some prev ↦ err (duplicate_name d.name) | none ↦ rest ]

-- The inner loop of `validate_fixture_graph`.
unfoldable pub check_deps :
    List FixtureDef → FixtureDef → List Text → Result {0, 0} RegistryPanic Unit
check_deps registry d [] = ok tt
check_deps registry d (n ∷ ns) =
    let rest = check_deps registry d ns in
    elim (find_fixture n registry) [
      | none ↦ err (not_registered d.name n)
      | some dep ↦
          if ltb (rank dep.scope) (rank d.scope) then err (narrower_scope d.name n) else rest
    ]

-- The first loop of `validate_fixture_graph`, over these values of the registry.
unfoldable pub check_edges : List FixtureDef → List FixtureDef → Result {0, 0} RegistryPanic Unit
check_edges registry [] = ok tt
check_edges registry (d ∷ ds) = check_deps registry d d.deps >>= (λ _. check_edges registry ds)

-- `merge_serial_filters`.
unfoldable pub merge_serial_filters : Text → Text → Text
merge_serial_filters a b =
    if text_eq a []
    then b
    else if text_eq b []
    then a
    else if text_eq a (codes "*") || text_eq b (codes "*")
    then codes "*"
    else codes "(" ++ a ++ codes ") | (" ++ b ++ codes ")"
