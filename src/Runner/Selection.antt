-- ===== src/Runner/Selection.antt =====
-- src/runner.rs: the tests that a run is made of, and what is dumped of them for cargo-skuld.
pub mod Dump
use skuld.Prelude.{
  ℕ, ◌≡◌, refl, sym, ap, ap₂, ◌∙◌, subst, Bool, true, false, not, ◌&&◌, ◌||◌, List, [], ◌∷◌, ◌++◌,
  map, Option, none, some, if◌then◌else◌, Text, codes, Result, ok, err, ◌>>=◌, >>=-eq-ok,
  Bool-cases, inl, inr, arith, append_assoc,
}
use skuld.Label.Name.{Label}
use skuld.Label.Build.{ParseError}
use skuld.Label.Filter.{BooleanExpression, LabelFilter, matches, display}
use skuld.Fixture.Registry.{merge_serial_filters}
use skuld.Coordination.Storage.{to_storage, serial_all}
use skuld.Coordination.Conflict.{names}
use skuld.Runner.Names.{effective_trial_name}

-- What the loop over the inventory reads of a test: of its definition, and, for its fixtures, the labels,
-- the filter and the requirements that are collected. A requirement that is not met gives its reason.
pub record InventoryTest : Type 0 where
  pub module_path : Text
  pub name : Text
  pub display_name : Option Text
  pub is_ignored : Bool
  pub serial : Text
  pub requires : List (Option Text)
  pub resolved : List Label
  pub fixture_serial : Text
  pub fixture_requires : List (Option Text)

-- `DynTest`, less its body.
pub record DynTest : Type 0 where
  pub name : Text
  pub ignored : Bool
  pub serial : Text
  pub labels : List Label

-- `TestRunner::add`, `add_serial` and `add_serial_with`.
unfoldable pub add : List DynTest → Text → List Label → Bool → List DynTest
add dynamic name labels ignored =
    dynamic ++ record { name = name; ignored = ignored; serial = []; labels = labels } ∷ []

unfoldable pub add_serial : List DynTest → Text → List Label → Bool → List DynTest
add_serial dynamic name labels ignored =
    dynamic ++ record { name = name; ignored = ignored; serial = codes "*"; labels = labels } ∷ []

unfoldable pub add_serial_with :
    List DynTest → Text → List Label → Bool → LabelFilter → List DynTest
add_serial_with dynamic name labels ignored filter =
    dynamic
    ++ record { name = name; ignored = ignored; serial = display filter; labels = labels } ∷ []

-- What is passed on to libtest-mimic of a test, with what its body brings to `coordinate`.
pub record Trial : Type 0 where
  pub name : Text
  pub labels : List Label
  pub serial : Text
  pub ignored : Bool

pub record NextestTestMetadata : Type 0 where
  pub name : Text
  pub labels : List Text
  pub serial_filter : Text

pub record Collected : Type 0 where
  pub trials : List Trial
  pub unavailable : List (Text × Text)
  pub metadata : List NextestTestMetadata

-- The reasons of the requirements that are not met.
unfoldable pub reasons : List (Option Text) → List Text
reasons [] = []
reasons (none ∷ rs) = reasons rs
reasons (some reason ∷ rs) = reason ∷ reasons rs

-- `reasons.join("; ")`
unfoldable pub join : List Text → Text
join [] = []
join (r ∷ []) = r
join (r ∷ s ∷ rs) = r ++ codes "; " ++ join (s ∷ rs)

-- The ignored flag, and the reason of a test that is unavailable.
unfoldable pub availability : InventoryTest → Bool × Option Text
unfolding reasons join
availability t =
    if t.is_ignored then (true, none) else elim (reasons (t.requires ++ t.fixture_requires)) [
      | [] ↦ (false, none)
      | r ∷ rs ↦ (true, some (join (r ∷ rs)))
    ]

module _ (B : BooleanExpression) where
  abbrev pub is_selected : Option LabelFilter → List Label → Bool
  is_selected none labels = true
  is_selected (some f) labels = matches B f labels

  -- A trial is pushed, and dumped unless it is ignored; `err` is the panic of `to_storage`.
  unfoldable pub push_trial : Trial → Option Text → Collected → Result ParseError Collected
  push_trial t reason c =
      if t.ignored
      then ok (record {
        trials = c.trials ++ t ∷ [];
        unavailable = c.unavailable ++ (elim reason [ none ↦ [] | some r ↦ (t.name, r) ∷ [] ]);
        metadata = c.metadata;
      })
      else do
        stored ← to_storage B t.serial
        ok (record {
          trials = c.trials ++ t ∷ [];
          unavailable = c.unavailable ++ (elim reason [ none ↦ [] | some r ↦ (t.name, r) ∷ [] ]);
          metadata =
              c.metadata
              ++ record { name = t.name; labels = names t.labels; serial_filter = stored } ∷ [];
        })

  abbrev pub inventory_trial : Bool → InventoryTest → Trial
  inventory_trial libtest_names t = record {
    name = effective_trial_name t.module_path t.name t.display_name libtest_names;
    labels = t.resolved;
    serial = merge_serial_filters t.serial t.fixture_serial;
    ignored = (availability t).0;
  }

  unfoldable pub collect_inventory_tests :
      Option LabelFilter → Bool → List InventoryTest → Collected → Result ParseError Collected
  unfolding push_trial availability
  collect_inventory_tests filter libtest_names [] c = ok c
  collect_inventory_tests filter libtest_names (t ∷ ts) c =
      if is_selected filter t.resolved
      then push_trial (inventory_trial libtest_names t) ((availability t).1) c
        >>= collect_inventory_tests filter libtest_names ts
      else collect_inventory_tests filter libtest_names ts c

  abbrev pub dynamic_trial : DynTest → Trial
  dynamic_trial t = record {
    name = t.name;
    labels = t.labels;
    serial = t.serial;
    ignored = t.ignored;
  }

  unfoldable pub collect_dynamic_tests :
      Option LabelFilter → List DynTest → Collected → Result ParseError Collected
  unfolding push_trial
  collect_dynamic_tests filter [] c = ok c
  collect_dynamic_tests filter (t ∷ ts) c =
      if is_selected filter t.labels
      then push_trial (dynamic_trial t) none c >>= collect_dynamic_tests filter ts
      else collect_dynamic_tests filter ts c

  -- The part of `run_tests` that collects.
  unfoldable pub collect_tests :
      Option LabelFilter → Bool → List InventoryTest → List DynTest → Result ParseError Collected
  collect_tests filter libtest_names inventory dynamic =
      collect_inventory_tests filter libtest_names inventory
        (record { trials = []; unavailable = []; metadata = [] })
      >>= collect_dynamic_tests filter dynamic
