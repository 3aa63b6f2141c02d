-- ===== src/Runner/Selection/Dump.antt =====
-- src/runner.rs: what is dumped are the trials that a normal run executes.
use skuld.Prelude.{
  ◌≡◌, refl, sym, ap, ◌∙◌, subst, Bool, true, false, List, [], ◌∷◌, ◌++◌, Option, none,
  if◌then◌else◌, Text, Result, ok, err, ◌>>=◌, Bool-cases, inl, inr, append_assoc, append-nil, All,
}
use skuld.Label.Name.{Label}
use skuld.Label.Build.{ParseError}
use skuld.Label.Filter.{BooleanExpression, LabelFilter}
use skuld.Coordination.Storage.{to_storage}
use skuld.Coordination.Conflict.{names}
use skuld.Runner.Selection.{
  InventoryTest, DynTest, Trial, NextestTestMetadata, Collected, is_selected, push_trial,
  inventory_trial, dynamic_trial, availability, collect_inventory_tests, collect_dynamic_tests,
  collect_tests,
}

-- One trial's part of the dump.
abbrev pub dump_step :
    Trial
    → Result ParseError Text
    → Result ParseError (List NextestTestMetadata)
    → Result ParseError (List NextestTestMetadata)
dump_step t stored rest =
    if t.ignored
    then rest
    else stored >>= (λ s.
      rest
      >>= (λ ms. ok (record { name = t.name; labels = names t.labels; serial_filter = s } ∷ ms)))

step-append :
    (ignored : Bool) (name : Text) (serial : Text) (labels : List Label)
    (stored : Result ParseError Text) (rest tail : Result ParseError (List NextestTestMetadata))
    → dump_step
        (record { name = name; labels = labels; serial = serial; ignored = ignored })
        stored
        (rest >>= (λ ms. tail >>= (λ ns. ok (ms ++ ns))))
      ≡ (dump_step
            (record { name = name; labels = labels; serial = serial; ignored = ignored })
            stored
            rest
          >>= (λ ms. tail >>= (λ ns. ok (ms ++ ns))))
step-append true name serial labels stored rest tail = refl
step-append false name serial labels (err e) rest tail = refl
step-append false name serial labels (ok s) (err e) tail = refl
step-append false name serial labels (ok s) (ok ms) (err e) = refl
step-append false name serial labels (ok s) (ok ms) (ok ns) = refl

nothing_before :
    (tail : Result ParseError (List NextestTestMetadata)) → (tail >>= (λ ns. ok ns)) ≡ tail
nothing_before (err e) = refl
nothing_before (ok ns) = refl

module _ (B : BooleanExpression) where
  -- The metadata of the trials that are not ignored, with the filters that `coordinate` would register.
  abbrev pub dump : List Trial → Result ParseError (List NextestTestMetadata)
  dump [] = ok []
  dump (t ∷ ts) = dump_step t (to_storage B t.serial) (dump ts)

  dump-append :
      (ts us : List Trial)
      → dump (ts ++ us) ≡ (dump ts >>= (λ ms. dump us >>= (λ ns. ok (ms ++ ns))))
  dump-append [] us = sym (nothing_before (dump us))
  dump-append (t ∷ ts) us =
      ap (dump_step t (to_storage B t.serial)) (dump-append ts us)
      ∙ step-append t.ignored t.name t.serial t.labels (to_storage B t.serial) (dump ts) (dump us)

  -- The filter has a storage form.
  abbrev pub CanStore : Trial → Type 0
  CanStore t = (s : Text) × (to_storage B t.serial ≡ ok s)

  -- What is collected so far: these trials, and the dump of them.
  abbrev pub Holds : List Trial → Collected → Type 0
  Holds trials c = (c.trials ≡ trials) × (dump trials ≡ ok c.metadata)

  push_trial-Holds :
      (ignored : Bool) (name serial : Text) (labels : List Label) (reason : Option Text)
      (trials : List Trial) (c : Collected)
      → CanStore (record { name = name; labels = labels; serial = serial; ignored = ignored })
      → Holds trials c
      → (c' : Collected) × (push_trial B
            (record { name = name; labels = labels; serial = serial; ignored = ignored })
            reason
            c
          ≡ ok c')
        × Holds
            (trials
              ++ record { name = name; labels = labels; serial = serial; ignored = ignored } ∷ [])
            c'
  unfolding push_trial
  push_trial-Holds true name serial labels reason trials c (s, e) (same, dumped) = (
    _,
    refl,
    (
      ap
          (λ ts.
            ts ++ (record { name = name; labels = labels; serial = serial; ignored = true } ∷ []))
          same,
      dump-append trials _ ∙ rw dumped (ap ok (append-nil _)),
    ),
  )
  push_trial-Holds false name serial labels reason trials c (s, e) (same, dumped) = rw e (
    _,
    refl,
    (
      ap
          (λ ts.
            ts ++ (record { name = name; labels = labels; serial = serial; ignored = false } ∷ []))
          same,
      dump-append trials _ ∙ rw (dumped, e) refl,
    ),
  )

  abbrev pub selected_inventory : Option LabelFilter → Bool → List InventoryTest → List Trial
  selected_inventory filter libtest_names [] = []
  selected_inventory filter libtest_names (t ∷ ts) =
      if is_selected B filter t.resolved
      then inventory_trial B libtest_names t ∷ selected_inventory filter libtest_names ts
      else selected_inventory filter libtest_names ts

  abbrev pub selected_dynamic : Option LabelFilter → List DynTest → List Trial
  selected_dynamic filter [] = []
  selected_dynamic filter (t ∷ ts) =
      if is_selected B filter t.labels
      then dynamic_trial B t ∷ selected_dynamic filter ts
      else selected_dynamic filter ts

  collect_inventory_tests-Holds :
      (filter : Option LabelFilter) (libtest_names : Bool) (ts : List InventoryTest)
      (trials : List Trial) (c : Collected)
      → All CanStore (selected_inventory filter libtest_names ts)
      → Holds trials c
      → (c' : Collected) × (collect_inventory_tests B filter libtest_names ts c ≡ ok c')
        × Holds (trials ++ selected_inventory filter libtest_names ts) c'
  unfolding collect_inventory_tests
  collect_inventory_tests-Holds filter libtest_names [] trials c can h =
      (c, refl, rw (append-nil trials) h)
  collect_inventory_tests-Holds filter libtest_names (t ∷ ts) trials c can h =
      elim (Bool-cases (is_selected B filter t.resolved)) [
        | inr e ↦
            let can' : All CanStore (selected_inventory filter libtest_names ts) =
              subst
                (λ b. All CanStore (
                  if b
                  then inventory_trial B libtest_names t
                    ∷ selected_inventory filter libtest_names ts
                  else selected_inventory filter libtest_names ts))
                e can in
            rw e (collect_inventory_tests-Holds filter libtest_names ts trials c can' h)
        | inl e ↦
            let can' : All CanStore
                (inventory_trial B libtest_names t ∷ selected_inventory filter libtest_names ts) =
              subst
                (λ b. All CanStore (
                  if b
                  then inventory_trial B libtest_names t
                    ∷ selected_inventory filter libtest_names ts
                  else selected_inventory filter libtest_names ts))
                e can in
            let trial = inventory_trial B libtest_names t in
            let (c1, pushed, held) =
              push_trial-Holds trial.ignored trial.name trial.serial trial.labels
                ((availability t).1) trials c can'.0 h in
            let (c2, rest, last) =
              collect_inventory_tests-Holds filter libtest_names ts (trials ++ trial ∷ []) c1 can'.1
                held in
            rw (e, pushed)
              (c2, rest, subst (λ us. Holds us c2) (append_assoc trials (trial ∷ []) _) last)
      ]

  collect_dynamic_tests-Holds :
      (filter : Option LabelFilter) (ts : List DynTest) (trials : List Trial) (c : Collected)
      → All CanStore (selected_dynamic filter ts)
      → Holds trials c
      → (c' : Collected) × (collect_dynamic_tests B filter ts c ≡ ok c')
        × Holds (trials ++ selected_dynamic filter ts) c'
  unfolding collect_dynamic_tests
  collect_dynamic_tests-Holds filter [] trials c can h = (c, refl, rw (append-nil trials) h)
  collect_dynamic_tests-Holds filter (t ∷ ts) trials c can h =
      elim (Bool-cases (is_selected B filter t.labels)) [
        | inr e ↦
            let can' : All CanStore (selected_dynamic filter ts) =
              subst
                (λ b. All CanStore (
                  if b
                  then dynamic_trial B t ∷ selected_dynamic filter ts
                  else selected_dynamic filter ts))
                e can in
            rw e (collect_dynamic_tests-Holds filter ts trials c can' h)
        | inl e ↦
            let can' : All CanStore (dynamic_trial B t ∷ selected_dynamic filter ts) =
              subst
                (λ b. All CanStore (
                  if b
                  then dynamic_trial B t ∷ selected_dynamic filter ts
                  else selected_dynamic filter ts))
                e can in
            let trial = dynamic_trial B t in
            let (c1, pushed, held) =
              push_trial-Holds trial.ignored trial.name trial.serial trial.labels none trials c
                can'.0 h in
            let (c2, rest, last) =
              collect_dynamic_tests-Holds filter ts (trials ++ trial ∷ []) c1 can'.1 held in
            rw (e, pushed)
              (c2, rest, subst (λ us. Holds us c2) (append_assoc trials (trial ∷ []) _) last)
      ]

  -- Where the filter of every selected test has a storage form, a run collects the selected tests, those of
  -- the inventory first, each in its order. What it dumps are those that are not ignored, with the filters
  -- that `coordinate` would register for them.
  pub collect_tests-dump :
      (filter : Option LabelFilter) (libtest_names : Bool) (inventory : List InventoryTest)
      (dynamic : List DynTest)
      → All CanStore (selected_inventory filter libtest_names inventory)
      → All CanStore (selected_dynamic filter dynamic)
      → (c : Collected) × (collect_tests B filter libtest_names inventory dynamic ≡ ok c)
        × (c.trials
            ≡ selected_inventory filter libtest_names inventory ++ selected_dynamic filter dynamic)
        × (dump c.trials ≡ ok c.metadata)
  unfolding collect_tests
  collect_tests-dump filter libtest_names inventory dynamic can can' =
      let (c1, first, held) =
        collect_inventory_tests-Holds filter libtest_names inventory []
          (record { trials = []; unavailable = []; metadata = [] }) can (refl, refl) in
      let (c2, second, (same, dumped)) =
        collect_dynamic_tests-Holds filter dynamic
          (selected_inventory filter libtest_names inventory) c1 can' held in
      (c2, rw first second, same, rw same dumped)
