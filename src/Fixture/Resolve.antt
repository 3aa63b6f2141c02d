-- ===== src/Fixture/Resolve.antt =====
-- src/label.rs: `resolve_labels`, the labels of a test with those of its fixtures.
use skuld.Prelude.{
  ◌≡◌, refl, ◌∙◌, Bool, true, false, ◌||◌, List, [], ◌∷◌, Option, none, some, Text, arith,
}
use skuld.Label.Name.{Label}
use skuld.Label.Filter.{has_label}
use skuld.Fixture.Registry.{FixtureDef}
use skuld.Fixture.Labels.{
  ModuleLabels, TestDef, push_unique, own_labels, Distinct, push_unique-Distinct,
  has_label-push_unique,
}
use skuld.Fixture.Walk.{
  ends, depends_on_unregistered, no_fuel, IsClosed, walk_fixture_deps, walk_fixture_deps_ends,
  collect_labels,
}
use skuld.Fixture.Labels.Own.{IsOwn, own_labels-IsOwn}

-- `resolve_labels`, with the registry as an argument; `none` if the walk panics.
unfoldable pub resolve_labels :
    Bool → List FixtureDef → TestDef → List ModuleLabels → Option (List Label)
resolve_labels is_debug registry def module_defaults =
    elim (walk_fixture_deps is_debug registry def.fixture_names) [
      | depends_on_unregistered dependent name ↦ none
      | no_fuel ↦ none
      | ends v ↦
          some
            (push_unique (push_unique [] (own_labels def module_defaults)) (collect_labels [] v.1))
    ]

-- Some of the fixtures has a label of this name.
abbrev pub some_fixture_has : List FixtureDef → Text → Bool
some_fixture_has [] t = false
some_fixture_has (d ∷ ds) t = has_label d.labels t || some_fixture_has ds t

has_label-collect_labels :
    (result : List Label) (ds : List FixtureDef) (t : Text)
    → has_label (collect_labels result ds) t ≡ (has_label result t || some_fixture_has ds t)
unfolding collect_labels
has_label-collect_labels result [] t = ground arith
has_label-collect_labels result (d ∷ ds) t =
    has_label-collect_labels (push_unique result d.labels) ds t
    ∙ ground (arith, has_label-push_unique result d.labels t)

-- `resolve_labels` gives labels that are distinct: those that are the test's own or its module's, and
-- those of the fixtures that the walk from the test's fixtures visits. In a debug build, the registered
-- fixtures depend on registered ones only.
pub resolve_labels_lem :
    (is_debug : Bool) (registry : List FixtureDef) (def : TestDef)
    (module_defaults : List ModuleLabels)
    → (is_debug ≡ true → IsClosed registry)
    → (v : List Text × List FixtureDef) × (own labels : List Label) × (walk_fixture_deps is_debug
          registry def.fixture_names
        ≡ ends v)
      × IsOwn def module_defaults own
      × (resolve_labels is_debug registry def module_defaults ≡ some labels)
      × Distinct labels
      × ((t : Text) → has_label labels t ≡ (has_label own t || some_fixture_has (v.1) t))
unfolding resolve_labels has_label
resolve_labels_lem is_debug registry def module_defaults closed =
    let (v, visited) = walk_fixture_deps_ends is_debug registry closed def.fixture_names in
    let own = push_unique [] (own_labels def module_defaults) in
    (
      v,
      own_labels def module_defaults,
      push_unique own (collect_labels [] (v.1)),
      visited,
      own_labels-IsOwn def module_defaults,
      rw (visited, resolve_labels) refl,
      push_unique-Distinct own _ (push_unique-Distinct [] (own_labels def module_defaults) tt),
      λ t.
          has_label-push_unique own (collect_labels [] (v.1)) t
          ∙ ground (
            arith,
            has_label-push_unique [] (own_labels def module_defaults) t,
            has_label-collect_labels [] (v.1) t,
          ),
    )
