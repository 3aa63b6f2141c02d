-- ===== src/Fixture/Walk.antt =====
-- src/fixture.rs: `walk_fixture_deps` and what is collected on the walk.
use skuld.Prelude.{
  ℕ, zero, suc, ◌≤◌, ◌<◌, ◌≡◌, refl, sym, ap, ◌∙◌, subst, Bool, true, false, ◌⊎◌, All, List, [],
  ◌∷◌, ◌++◌, Option, none, some, Text, text_eq, text_eq→eq, text_eq_sym, contains, if◌then◌else◌,
  length, Bool-cases, inl, inr, arith,
}
use skuld.Label.Name.{Label}
use skuld.Fixture.Registry.{FixtureDef, find_fixture, merge_serial_filters}
use skuld.Fixture.Labels.{push_unique}

-- The set `visited`, and the fixtures that `visit` was called with, in order.
abbrev pub Visits : Type 0
Visits = List Text × List FixtureDef

-- How a walk ends; in a debug build, also at a fixture of this name that another depends on and that is
-- not registered. `no_fuel` belongs to the model only.
pub data Walked : Type 0 where
  ends : Visits → Walked
  depends_on_unregistered : Text → Text → Walked
  no_fuel : Walked

abbrev pub and_then : Walked → (Visits → Walked) → Walked
and_then (ends v) next = next v
and_then (depends_on_unregistered dependent name) next = depends_on_unregistered dependent name
and_then no_fuel next = no_fuel

-- `for &dep in def.deps { walk(..) }`.
unfoldable pub each : (Text → Visits → Walked) → List Text → Visits → Walked
each walk [] v = ends v
each walk (n ∷ ns) v = and_then (walk n v) (each walk ns)

-- The name is not registered: a debug build asserts that no fixture depends on it.
unfoldable pub skip : Bool → Option Text → Text → Visits → Walked
skip is_debug none name v = ends v
skip is_debug (some dependent) name v =
    if is_debug then depends_on_unregistered dependent name else ends v

-- `walk`.
unfoldable pub walk : Bool → List FixtureDef → ℕ → Option Text → Text → Visits → Walked
unfolding skip
walk is_debug registry zero dependent name v = no_fuel
walk is_debug registry (suc fuel) dependent name (visited, out) =
    if contains visited name then ends (visited, out) else elim (find_fixture name registry) [
      | none ↦ skip is_debug dependent name (name ∷ visited, out)
      | some d ↦
          each (walk is_debug registry fuel (some d.name)) d.deps (name ∷ visited, out ++ d ∷ [])
    ]

-- `walk_fixture_deps_in`: the fixtures visited. A fixture's depth is below the registry's size.
unfoldable pub walk_fixture_deps : Bool → List FixtureDef → List Text → Walked
unfolding each walk
walk_fixture_deps is_debug registry names =
    each (walk is_debug registry (suc (length registry)) none) names ([], [])

-- `collect_fixture_labels`, over the fixtures visited.
unfoldable pub collect_labels : List Label → List FixtureDef → List Label
collect_labels result [] = result
collect_labels result (d ∷ ds) = collect_labels (push_unique result d.labels) ds

-- `collect_fixture_serial`, over the fixtures visited.
unfoldable pub collect_serial : Text → List FixtureDef → Text
collect_serial merged [] = merged
collect_serial merged (d ∷ ds) =
    collect_serial (if text_eq d.serial [] then merged else merge_serial_filters merged d.serial) ds

-- The registered fixtures whose names are not visited.
abbrev pub unvisited : List FixtureDef → List Text → ℕ
unvisited [] visited = 0
unvisited (d ∷ ds) visited =
    if contains visited d.name then unvisited ds visited else suc (unvisited ds visited)

unvisited_mono :
    (ds : List FixtureDef) (n : Text) (visited : List Text)
    → unvisited ds (n ∷ visited) ≤ unvisited ds visited
unvisited_mono [] n visited = omega arith
unvisited_mono (d ∷ ds) n visited = ground (arith, unvisited_mono ds n visited)

pub unvisited_strict :
    (ds : List FixtureDef) (n : Text) (visited : List Text) (d : FixtureDef)
    → find_fixture n ds ≡ some d
    → contains visited n ≡ false
    → unvisited ds (n ∷ visited) < unvisited ds visited
unfolding find_fixture
unvisited_strict [] n visited d found fresh = absurd cc
unvisited_strict (x ∷ ds) n visited d found fresh = elim (Bool-cases (text_eq x.name n)) [
  | inl e ↦
      let same = text_eq→eq x.name n e in
      let new = subst (λ t. contains visited t ≡ false) (sym same) fresh in
      ground (arith, new, text_eq_sym n x.name, e, unvisited_mono ds n visited)
  | inr e ↦ ground (arith, unvisited_strict ds n visited d (ground (arith, found, e)) fresh)
]

pub unvisited-nil : (ds : List FixtureDef) → unvisited ds [] ≡ length ds
unvisited-nil [] = refl
unvisited-nil (d ∷ ds) = ap suc (unvisited-nil ds)

-- What a registered fixture depends on is registered.
abbrev pub Registered : List FixtureDef → Text → Type 0
Registered registry n = (d : FixtureDef) × (find_fixture n registry ≡ some d)

abbrev pub IsClosed : List FixtureDef → Type 0
IsClosed registry =
    (n : Text) (d : FixtureDef)
    → find_fixture n registry ≡ some d
    → All (Registered registry) d.deps

module _ (is_debug : Bool) (registry : List FixtureDef) where
  -- The walk of a name by this dependent meets no assertion.
  abbrev Passes : Option Text → Text → Type 0
  Passes dependent n = (dependent ≡ none) ⊎ ((is_debug ≡ false) ⊎ Registered registry n)

  -- A walk that ends, and has visited no less.
  abbrev Ends : Visits → Walked → Type 0
  Ends v result =
      (w : Visits) × (result ≡ ends w) × (unvisited registry w.0 ≤ unvisited registry v.0)

  each_step :
      (step : Text → Visits → Walked) (n : Text) (ns : List Text) (v w : Visits)
      → step n v ≡ ends w
      → each step (n ∷ ns) v ≡ each step ns w
  unfolding each
  each_step step n ns v w h = rw (h, each) refl

  each-Ends :
      (dependent : Option Text) (step : Text → Visits → Walked) (size : ℕ)
      → ((n : Text) (v : Visits)
          → Passes dependent n
          → unvisited registry v.0 < size
          → Ends v (step n v))
      → (ns : List Text) (v : Visits) → All (Passes dependent) ns
      → unvisited registry v.0 < size
      → Ends v (each step ns v)
  unfolding each
  each-Ends dependent step size ends_at [] v passes small = (v, refl, omega arith)
  each-Ends dependent step size ends_at (n ∷ ns) v passes small =
      let (w, first, less) = ends_at n v passes.0 small in
      let (u, rest, still) = each-Ends dependent step size ends_at ns w passes.1 (omega arith) in
      (u, each_step step n ns v w first ∙ rest, omega arith)

  skip-Ends :
      (dependent : Option Text) (n : Text) (v : Visits)
      → Passes dependent n
      → find_fixture n registry ≡ none
      → skip is_debug dependent n v ≡ ends v
  unfolding skip
  skip-Ends none n v passes e = refl
  skip-Ends (some x) n v (inl h) e = absurd cc
  skip-Ends (some x) n v (inr (inl off)) e = rw off refl
  skip-Ends (some x) n v (inr (inr (d, found))) e = absurd cc

  deps_pass :
      (b : Bool)
      → is_debug ≡ b
      → (x : Text) (ns : List Text) → (is_debug ≡ true → All (Registered registry) ns)
      → All (Passes (some x)) ns
  deps_pass b e x [] h = tt
  deps_pass false e x (n ∷ ns) h = (inr (inl e), deps_pass false e x ns (λ on. absurd cc))
  deps_pass true e x (n ∷ ns) h = (inr (inr (h e).0), deps_pass true e x ns (λ on. (h e).1))

  from_test : (ns : List Text) → All (Passes none) ns
  from_test [] = tt
  from_test (n ∷ ns) = (inl refl, from_test ns)

  -- The walk of a name that is not visited, where nested walks end.
  lookup-Ends :
      (size : ℕ) (nested : Text → Text → Visits → Walked)
      → ((x n : Text) (v : Visits)
          → Passes (some x) n
          → unvisited registry v.0 < size
          → Ends v (nested x n v))
      → (is_debug ≡ true → IsClosed registry)
      → (dependent : Option Text) (n : Text) (visited : List Text) (out : List FixtureDef)
        (found : Option FixtureDef)
      → find_fixture n registry ≡ found
      → Passes dependent n
      → contains visited n ≡ false
      → unvisited registry visited < suc size
      → Ends
          (visited, out)
          (elim found [
            | none ↦ skip is_debug dependent n (n ∷ visited, out)
            | some d ↦ each (nested d.name) d.deps (n ∷ visited, out ++ d ∷ [])
          ])
  lookup-Ends size nested ends_at closed dependent n visited out none e passes fresh small = (
    (n ∷ visited, out),
    skip-Ends dependent n (n ∷ visited, out) passes e,
    unvisited_mono registry n visited,
  )
  lookup-Ends size nested ends_at closed dependent n visited out (some d) e passes fresh small =
      let fewer = unvisited_strict registry n visited d e fresh in
      let (w, result, less) =
        each-Ends (some d.name) (nested d.name) size (ends_at d.name) d.deps
          (n ∷ visited, out ++ d ∷ [])
          (deps_pass is_debug refl d.name d.deps (λ on. closed on n d e)) (omega arith) in
      (w, result, omega arith)

  walk-Ends :
      (is_debug ≡ true → IsClosed registry)
      → (fuel : ℕ) (dependent : Option Text) (n : Text) (v : Visits) → Passes dependent n
      → unvisited registry v.0 < fuel
      → Ends v (walk is_debug registry fuel dependent n v)
  unfolding walk
  walk-Ends closed zero dependent n v passes small = absurd (omega arith)
  walk-Ends closed (suc fuel) dependent n (visited, out) passes small =
      elim (Bool-cases (contains visited n)) [
        | inl e ↦ rw e ((visited, out), refl, omega arith)
        | inr e ↦ rw e (
            lookup-Ends fuel (λ x. walk is_debug registry fuel (some x))
              (λ x. walk-Ends closed fuel (some x)) closed dependent n visited out
              (find_fixture n registry) refl passes e small)
      ]

  -- The walk from any names ends: its fuel is enough, also where the registry has a cycle, and it meets
  -- no assertion, where in a debug build the registered fixtures depend on registered ones only.
  pub walk_fixture_deps_ends :
      (is_debug ≡ true → IsClosed registry)
      → (names : List Text) → (v : Visits) × (walk_fixture_deps is_debug registry names ≡ ends v)
  unfolding walk_fixture_deps
  walk_fixture_deps_ends closed names =
      let (v, result, less) =
        each-Ends none (walk is_debug registry (suc (length registry)) none) (suc (length registry))
          (walk-Ends closed (suc (length registry)) none) names ([], []) (from_test names)
          (omega (arith, unvisited-nil registry)) in
      (v, result)
