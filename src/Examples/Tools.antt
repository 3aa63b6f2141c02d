-- ===== src/Examples/Tools.antt =====
-- The generator of nextest groups, the checks of a release and the fixtures at concrete inputs.
use skuld.Prelude.{
  text_eq, subst, inl, inr, Bool-cases, arith, List, ◌≤◌, ◌≡◌, refl, [], ◌∷◌, ◌++◌, map, Text,
  codes, true, false, not, ◌||◌, none, some, ok, ◌>>=◌, inl, inr, All, ◌↔◌,
}
use skuld.Label.Name.{Label}
use skuld.Label.Filter.{has_label}
use skuld.Coordination.Transaction.{can_start}
use skuld.Nextest.Graph.{TestMetadata, conflicts, alone, conflicts-can_start}
use skuld.Nextest.Emit.{member_filter, read_member, read_member-member_filter}
use skuld.Xtask.Version.{
  Version, is_strict, TagInfo, validate_cargo_against_nearest, Package, is_publishable,
  publishable_members, shared_version, check_pins, check_packages, assert_intra_workspace_pins,
  workspace_version,
}
use skuld.Xtask.Release.{IsAllowed, validate_cargo_against_nearest_iff}
use skuld.Xtask.Workspace.{HasPins, workspace_version_sound}
use skuld.Fixture.Registry.{test, process, rank, FixtureDef, find_fixture, check_deps, check_edges}
use skuld.Fixture.Scopes.{edge, DependsOn-rank}
use skuld.Fixture.Labels.{Distinct}
use skuld.Runner.Names.{check_duplicate_trial_names}
use skuld.Runner.Duplicates.{DistinctNames, check_duplicate_trial_names_iff}
use skuld.Fixture.Walk.{ends, each, walk, walk_fixture_deps, Registered, IsClosed}
use skuld.Fixture.Labels.Own.{IsOwn}
use skuld.Fixture.Labels.{TestDef, ModuleLabels}
use skuld.Fixture.Resolve.{resolve_labels, some_fixture_has, resolve_labels_lem}
use skuld.Examples.Toy.{toy, docker, slow, not_slow_docker}
use skuld.Examples.Labels.{reads_filter}

abbrev fast_test : TestMetadata
fast_test = record {
  binary_id = codes "a";
  name = codes "fast";
  labels = codes "docker" ∷ [];
  serial_filter = [];
}

abbrev serial_test : TestMetadata
serial_test = record {
  binary_id = codes "b";
  name = codes "serial";
  labels = codes "slow" ∷ [];
  serial_filter = codes "docker & !slow";
}

conflicts-can_start_example :
    can_start toy (slow ∷ []) (codes "docker & !slow") (alone toy fast_test)
    ≡ (conflicts toy fast_test serial_test >>= (λ c. ok (not c)))
conflicts-can_start_example =
    conflicts-can_start toy fast_test serial_test (slow ∷ []) refl (inl refl)
      (inr (inr (not_slow_docker, reads_filter)))

read_member-member_filter_example :
    read_member (member_filter (codes "a::b", codes "x (1, 2) /") ++ codes " or")
    ≡ some ((codes "a::b", codes "x (1, 2) /"), codes " or")
read_member-member_filter_example =
    read_member-member_filter (codes "a::b", codes "x (1, 2) /") (codes " or")

abbrev v_1_2_3 : Version
v_1_2_3 = record { major = 1; minor = 2; patch = 3; pre = []; build = [] }

abbrev v_1_3_0 : Version
v_1_3_0 = record { major = 1; minor = 3; patch = 0; pre = []; build = [] }

abbrev a_tag : TagInfo
a_tag = record { name = codes "v1.2.3"; sha = codes "c0"; version = v_1_2_3 }

validate_cargo_against_nearest_iff_example :
    (validate_cargo_against_nearest v_1_3_0 (a_tag ∷ []) false ≡ ok tt)
    ↔ IsAllowed v_1_3_0 (a_tag ∷ []) false
validate_cargo_against_nearest_iff_example =
    validate_cargo_against_nearest_iff v_1_3_0 (a_tag ∷ []) false refl
      ((omega arith, omega arith, omega arith), tt)

-- A stand-in for `Version`'s `Display`, which the checks take from semver.
abbrev shown : Version → Text
shown v = codes "1.3.0"

abbrev macros : Package
macros = record {
  name = codes "skuld-macros";
  version = v_1_3_0;
  publish = none;
  dependencies = [];
}

abbrev main : Package
main = record {
  name = codes "skuld";
  version = v_1_3_0;
  publish = none;
  dependencies =
      record { name = codes "skuld-macros"; is_development = false; req = codes "=1.3.0" }
      ∷ record { name = codes "skuld"; is_development = true; req = codes "*" }
      ∷ [];
}

abbrev tools : Package
tools = record { name = codes "xtask"; version = v_1_2_3; publish = some []; dependencies = [] }

workspace_passes : workspace_version shown (main ∷ macros ∷ tools ∷ []) ≡ ok v_1_3_0
unfolding workspace_version publishable_members shared_version assert_intra_workspace_pins
    check_packages check_pins
workspace_passes = refl

workspace_version_sound_example :
    All
      (λ p.
        is_publishable p ≡ true
        → ((p.version ≡ v_1_3_0) × (is_strict p.version ≡ true))
          × HasPins
              (map (λ m. m.name) (publishable_members (main ∷ macros ∷ tools ∷ [])))
              (codes "=" ++ shown v_1_3_0)
              p)
      (main ∷ macros ∷ tools ∷ [])
workspace_version_sound_example =
    workspace_version_sound shown (main ∷ macros ∷ tools ∷ []) v_1_3_0 workspace_passes

abbrev image : FixtureDef
image = record {
  name = codes "image";
  scope = process;
  deps = [];
  labels = docker ∷ [];
  serial = [];
}

abbrev container : FixtureDef
container = record {
  name = codes "container";
  scope = test;
  deps = codes "image" ∷ [];
  labels = slow ∷ [];
  serial = [];
}

edges_pass : check_edges (container ∷ image ∷ []) (container ∷ image ∷ []) ≡ ok tt
unfolding check_edges check_deps find_fixture
edges_pass = refl

finds_image : find_fixture (codes "image") (container ∷ image ∷ []) ≡ some image
unfolding find_fixture
finds_image = refl

DependsOn-rank_example : rank test ≤ rank process
DependsOn-rank_example =
    DependsOn-rank (container ∷ image ∷ []) container image edges_pass (inl refl)
      (edge container image (codes "image") (inl refl) finds_image)

-- The walk visits a fixture before what it depends on.
visits_both :
    walk_fixture_deps true (container ∷ image ∷ []) (codes "container" ∷ [])
    ≡ ends (codes "image" ∷ codes "container" ∷ [], container ∷ image ∷ [])
unfolding walk_fixture_deps each walk find_fixture
visits_both = refl

-- Three trials with names of their own.
abbrev trials : List (Text × Text)
trials = (codes "b", codes "m::b") ∷ (codes "a", codes "m::a") ∷ (codes "c", codes "n::c") ∷ []

check_duplicate_trial_names_iff_example :
    (check_duplicate_trial_names trials ≡ ok tt) ↔ DistinctNames trials
check_duplicate_trial_names_iff_example = check_duplicate_trial_names_iff trials

-- A test of a module with a default label, which uses the container.
abbrev contained : TestDef
contained = record {
  module_path = codes "app::db";
  labels = [];
  labels_explicit = false;
  fixture_names = codes "container" ∷ [];
}

abbrev app_default : ModuleLabels
app_default = record { module_path = codes "app"; labels = slow ∷ [] }

fixtures_IsClosed : IsClosed (container ∷ image ∷ [])
unfolding find_fixture
fixtures_IsClosed n d e = elim (Bool-cases (text_eq (codes "container") n)) [
  | inl first ↦
      let here : container ≡ d = ground (arith, e, first) in
      subst (λ x. All (Registered (container ∷ image ∷ [])) x.deps) here ((image, refl), tt)
  | inr other ↦ elim (Bool-cases (text_eq (codes "image") n)) [
    | inl second ↦
        let here : image ≡ d = ground (arith, e, other, second) in
        subst (λ x. All (Registered (container ∷ image ∷ [])) x.deps) here tt
    | inr neither ↦ absurd (ground (arith, e, other, neither))
  ]
]

resolve_labels_lem_example :
    (v : List Text × List FixtureDef) × (own labels : List Label) × (walk_fixture_deps true
        (container ∷ image ∷ [])
        (codes "container" ∷ [])
      ≡ ends v)
    × IsOwn contained (app_default ∷ []) own
    × (resolve_labels true (container ∷ image ∷ []) contained (app_default ∷ []) ≡ some labels)
    × Distinct labels
    × ((t : Text) → has_label labels t ≡ (has_label own t || some_fixture_has (v.1) t))
resolve_labels_lem_example =
    resolve_labels_lem true (container ∷ image ∷ []) contained (app_default ∷ [])
      (λ on. fixtures_IsClosed)
