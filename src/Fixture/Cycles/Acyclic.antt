-- ===== src/Fixture/Cycles/Acyclic.antt =====
-- src/fixture.rs: a registry in which `detect_cycle` finds nothing has no cycle.
use skuld.Prelude.{
  ℕ, zero, suc, ◌<◌, ◌≡◌, refl, sym, ap, ◌∙◌, subst, List, [], ◌∷◌, Option, none, some, Text,
  contains, contains→In, length, Result, ok, err, Bool-cases, inl, inr, In, All, All-In, arith,
}
use skuld.Fixture.Registry.{FixtureDef, find_fixture}
use skuld.Fixture.Scopes.{DependsOn, edge, through}
use skuld.Fixture.Walk.{unvisited, unvisited_strict, unvisited-nil}
use skuld.Fixture.Cycles.{Detected, detect_each, detect_cycle, check_cycles}

module _ (registry : List FixtureDef) where
  -- Every name stands before those of its dependencies.
  abbrev Ordered : List Text → Type 0
  Ordered [] = Unit
  Ordered (n ∷ w) =
      ((d : FixtureDef) → find_fixture n registry ≡ some d → All (λ m. In m w) d.deps) × Ordered w

  abbrev Closed : List Text → List Text → Result Text (List Text) → Type 0
  Closed ns v (err name) = Unit
  Closed ns v (ok w) = Ordered w × ((x : Text) → In x v → In x w) × All (λ n. In n w) ns

  abbrev Fine : List Text → List Text → Detected → Type 0
  Fine ns v result = (r : Result Text (List Text)) × (result ≡ some r) × Closed ns v r

  each_cases :
      (detect : Text → List Text → Detected) (n : Text) (ns v : List Text)
      (r : Result Text (List Text))
      → detect n v ≡ some r
      → Closed (n ∷ []) v r
      → ((w : List Text) → Ordered w → Fine ns w (detect_each detect ns w))
      → Fine (n ∷ ns) v (detect_each detect (n ∷ ns) v)
  unfolding detect_each
  each_cases detect n ns v (err name) e h rest = (err name, rw (e, detect_each) refl, tt)
  each_cases detect n ns v (ok w) e (ordered, mono, at) rest =
      let (r, e', closed) = rest w ordered in (r, rw (e, detect_each) e', later r closed)
    where
      later : (r : Result Text (List Text)) → Closed ns w r → Closed (n ∷ ns) v r
      later (err name) h = tt
      later (ok u) (o, m, all) = (o, λ x i. m x (mono x i), (m n at.0, all))

  detect_each-Fine :
      (detect : Text → List Text → Detected)
      → ((n : Text) (v : List Text) → Ordered v → Fine (n ∷ []) v (detect n v))
      → (ns v : List Text) → Ordered v
      → Fine ns v (detect_each detect ns v)
  unfolding detect_each
  detect_each-Fine detect fine [] v h = (ok v, refl, (h, λ x i. i, tt))
  detect_each-Fine detect fine (n ∷ ns) v h =
      let (r, e, closed) = fine n v h in
      each_cases detect n ns v r e closed (λ w o. detect_each-Fine detect fine ns w o)

  found_cases :
      (name : Text) (d : FixtureDef) (v : List Text) (result : Detected)
      → find_fixture name registry ≡ some d
      → Fine d.deps v result
      → Fine (name ∷ []) v (elim result [
        | none ↦ none
        | some (err cycle) ↦ some (err cycle)
        | some (ok w) ↦ some (ok (name ∷ w))
      ])
  found_cases name d v none e (r, same, h) = absurd cc
  found_cases name d v (some (err cycle)) e h = (err cycle, refl, tt)
  found_cases name d v (some (ok w)) e (r, same, h) =
      let one : ok w ≡ r = cc in
      let (ordered, mono, deps) = subst (Closed d.deps v) (sym one) h in
      (
        ok (name ∷ w),
        refl,
        (
          (
            λ d' found. let is_d : d ≡ d' = cc in subst (λ x. All (λ m. In m w) x.deps) is_d deps,
            ordered,
          ),
          λ x i. inr (mono x i),
          (inl refl, tt),
        ),
      )

  looked_up :
      (name : Text) (v : List Text) (found : Option FixtureDef)
      (deps_result : FixtureDef → Detected)
      → find_fixture name registry ≡ found
      → Ordered v
      → ((d : FixtureDef) → find_fixture name registry ≡ some d → Fine d.deps v (deps_result d))
      → Fine (name ∷ []) v (elim found [
        | none ↦ some (ok (name ∷ v))
        | some d ↦ elim (deps_result d) [
          | none ↦ none
          | some (err cycle) ↦ some (err cycle)
          | some (ok w) ↦ some (ok (name ∷ w))
        ]
      ])
  looked_up name v none deps_result e ordered h = (
    ok (name ∷ v),
    refl,
    (
      (λ d found. let clash : none ≡ some d = sym e ∙ found in absurd cc, ordered),
      λ x i. inr i,
      (inl refl, tt),
    ),
  )
  looked_up name v (some d) deps_result e ordered h = found_cases name d v (deps_result d) e (h d e)

  detect_cycle-Fine :
      (fuel : ℕ) (name : Text) (visiting v : List Text)
      → unvisited registry visiting < fuel
      → Ordered v
      → Fine (name ∷ []) v (detect_cycle fuel registry name visiting v)
  unfolding detect_cycle
  detect_cycle-Fine zero name visiting v small ordered = absurd (omega arith)
  detect_cycle-Fine (suc fuel) name visiting v small ordered = elim (Bool-cases (contains v name)) [
    | inl e ↦ rw e (ok v, refl, (ordered, λ x i. i, (contains→In v name e, tt)))
    | inr e ↦ elim (Bool-cases (contains visiting name)) [
      | inl e' ↦ rw (e, e') (err name, refl, tt)
      | inr e' ↦
          rw (e, e')
            (looked_up name v (find_fixture name registry)
              (λ d. detect_each (λ n u. detect_cycle fuel registry n (name ∷ visiting) u) d.deps v)
              refl ordered
              (λ d found.
                let fewer = unvisited_strict registry name visiting d found e' in
                detect_each-Fine (λ n u. detect_cycle fuel registry n (name ∷ visiting) u)
                  (λ n u o. detect_cycle-Fine fuel n (name ∷ visiting) u (omega arith) o) d.deps v
                  ordered))
    ]
  ]

  -- Every chain of dependencies from the fixture ends.
  pub data Finite : FixtureDef → Type 0 where
    finite :
        (d : FixtureDef)
        → ((name : Text) (dep : FixtureDef)
            → In name d.deps
            → find_fixture name registry ≡ some dep
            → Finite dep)
        → Finite d

  Ordered-Finite :
      (w : List Text) (n : Text) (d : FixtureDef)
      → Ordered w
      → In n w
      → find_fixture n registry ≡ some d
      → Finite d
  Ordered-Finite [] n d ordered at found = absurd at
  Ordered-Finite (m ∷ w) n d ordered (inr at) found = Ordered-Finite w n d ordered.1 at found
  Ordered-Finite (m ∷ w) n d ordered (inl same) found =
      let deps = ordered.0 d (ap (λ x. find_fixture x registry) (sym same) ∙ found) in
      finite d (λ name dep i e.
        Ordered-Finite w name dep ordered.1 (All-In (λ x. In x w) name d.deps deps i) e)

  -- One more edge behind a dependency.
  one_further :
      (d e : FixtureDef) (name : Text) (f : FixtureDef)
      → DependsOn registry d e
      → In name e.deps
      → find_fixture name registry ≡ some f
      → DependsOn registry d f
  one_further d e name f (edge _ _ n i found) at found' =
      through d e n f i found (edge e f name at found')
  one_further d e name f (through _ dep n _ i found rest) at found' =
      through d dep n f i found (one_further dep e name f rest at found')

  no_cycle-Finite : (d : FixtureDef) → Finite d → ¬ DependsOn registry d d
  no_cycle-Finite d (finite _ f) (edge _ _ n i found) =
      no_cycle-Finite d (f n d i found) (edge d d n i found)
  no_cycle-Finite d (finite _ f) (through _ dep n _ i found rest) =
      no_cycle-Finite dep (f n dep i found) (one_further dep d n dep rest i found)

  abbrev Checked : List FixtureDef → Option (Result {0, 0} Text Unit) → Type 0
  Checked ds result =
      (r : Result {0, 0} Text Unit) × (result ≡ some r)
      × (r ≡ ok tt → (d : FixtureDef) → In d ds → find_fixture d.name registry ≡ some d → Finite d)

  step-Checked :
      (d : FixtureDef) (ds : List FixtureDef) (detected : Detected)
      (rest : Option (Result {0, 0} Text Unit))
      → Fine (d.name ∷ []) [] detected
      → Checked ds rest
      → Checked (d ∷ ds) (elim detected [
        | none ↦ none
        | some (err cycle) ↦ some (err cycle)
        | some (ok visited) ↦ rest
      ])
  step-Checked d ds none rest (r, same, h) checked = absurd cc
  step-Checked d ds (some (err cycle)) rest h checked = (err cycle, refl, λ e. absurd cc)
  step-Checked d ds (some (ok w)) rest (r, same, h) (r', e, checked) =
      let one : ok w ≡ r = cc in
      let (ordered, mono, at) = subst (Closed (d.name ∷ []) []) (sym one) h in
      (
        r',
        e,
        λ passed x member found. elim member [
          | inl is_d ↦
              let is_found : find_fixture d.name registry ≡ some x =
                subst (λ y. find_fixture y.name registry ≡ some x) is_d found in
              Ordered-Finite w d.name x ordered at.0 is_found
          | inr later ↦ checked passed x later found
        ],
      )

  check_cycles-Checked : (ds : List FixtureDef) → Checked ds (check_cycles registry ds)
  unfolding check_cycles
  check_cycles-Checked [] = (ok tt, refl, λ e d member found. absurd member)
  check_cycles-Checked (d ∷ ds) =
      step-Checked d ds (detect_cycle (suc (length registry)) registry d.name [] [])
        (check_cycles registry ds)
        (detect_cycle-Fine (suc (length registry)) d.name [] []
          (omega (arith, unvisited-nil registry)) tt)
        (check_cycles-Checked ds)

-- The search for cycles over a whole registry ends within its fuel. If it passes, no fixture of the
-- registry that is found by its name depends on itself, however many steps away.
pub check_cycles_sound :
    (registry : List FixtureDef)
    → (r : Result {0, 0} Text Unit) × (check_cycles registry registry ≡ some r)
      × (r ≡ ok tt
          → (d : FixtureDef) → In d registry
          → find_fixture d.name registry ≡ some d
          → ¬ DependsOn registry d d)
check_cycles_sound registry =
    let (r, ends, passed) = check_cycles-Checked registry registry in
    (r, ends, λ fine d member found. no_cycle-Finite registry d (passed fine d member found))

-- A registry that passes holds no endless chain.
pub check_cycles-Finite :
    (registry : List FixtureDef) (d : FixtureDef)
    → check_cycles registry registry ≡ some (ok tt)
    → In d registry
    → find_fixture d.name registry ≡ some d
    → Finite registry d
check_cycles-Finite registry d fine member found =
    let (r, ends, passed) = check_cycles-Checked registry registry in
    let same : r ≡ ok tt = cc in passed same d member found
