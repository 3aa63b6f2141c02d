-- ===== src/Nextest/Graph.antt =====
-- cargo-skuld/src/graph.rs: the conflicts between tests, which mirror `can_start`.
use skuld.Prelude.{
  ◌≡◌, refl, sym, ap, ap₂, ◌∙◌, Bool, true, false, not, ◌||◌, List, [], ◌∷◌, map, Text, text_eq,
  Result, ok, ◌>>=◌, if◌then◌else◌, Bool-cases, inl, inr, arith, text_eq→eq,
}
use skuld.Label.Name.{Label}
use skuld.Label.Build.{ParseError}
use skuld.Label.Filter.{BooleanExpression, parse, matches_names}
use skuld.Coordination.Storage.{serial_none, serial_all}
use skuld.Coordination.Database.{Db, labels_of}
use skuld.Coordination.Transaction.{can_start}
use skuld.Coordination.Conflict.{names, serializes, conflict, IsStorable, can_start-is_blocked}

-- cargo-skuld/src/metadata.rs: what a test binary dumps of a test, as `collect_metadata` keeps it.
pub record TestMetadata : Type 0 where
  pub binary_id : Text
  pub name : Text
  pub labels : List Text
  pub serial_filter : Text

one_row : (b : Bool) → (b || false) ≡ b
one_row true = refl
one_row false = refl

conflict_cases :
    (a_all b_all : Bool) (a_hits b_hits : Result ParseError Bool) (x y : Bool)
    → (a_all ≡ true → x ≡ true)
    → (b_all ≡ true → y ≡ true)
    → (a_all ≡ false → a_hits ≡ ok x)
    → (b_all ≡ false → b_hits ≡ ok y)
    → (if a_all || b_all
        then ok true
        else a_hits >>= (λ hit. elim hit [ true ↦ ok true | false ↦ b_hits ]))
      ≡ ok (x || y)
conflict_cases true b_all a_hits b_hits x y hx hy ha hb = rw (hx refl) refl
conflict_cases false true a_hits b_hits x y hx hy ha hb = ground (arith, hy refl)
conflict_cases false false a_hits b_hits true y hx hy ha hb = rw (ha refl) refl
conflict_cases false false a_hits b_hits false y hx hy ha hb = rw (ha refl) (hb refl)

module _ (B : BooleanExpression) where
  -- A `serial_filter` that is neither `*` nor empty, at the labels of the other test.
  unfoldable pub filter_hits : Text → List Text → Result ParseError Bool
  filter_hits s labels =
      if text_eq s serial_none then ok false else parse B s >>= (λ f. ok (matches_names B f labels))

  -- `conflicts`. `err` is the panic of `expect`.
  unfoldable pub conflicts : TestMetadata → TestMetadata → Result ParseError Bool
  unfolding filter_hits
  conflicts a b =
      if text_eq a.serial_filter serial_all || text_eq b.serial_filter serial_all
      then ok true
      else filter_hits a.serial_filter b.labels
        >>= (λ hit. elim hit [ true ↦ ok true | false ↦ filter_hits b.serial_filter a.labels ])

  filter_hits-serializes :
      (s : Text) (labels : List Text)
      → IsStorable B s
      → text_eq s serial_all ≡ false
      → filter_hits s labels ≡ ok (serializes B s labels)
  unfolding filter_hits
  filter_hits-serializes s labels (inl e) h = rw e refl
  filter_hits-serializes s labels (inr (inl e)) h = ground (arith, e)
  filter_hits-serializes s labels (inr (inr (f, p))) h = elim (Bool-cases (text_eq s serial_none)) [
    | inl n ↦ rw n refl
    | inr n ↦ rw (h, n, p) refl
  ]

  serializes-all :
      (s : Text) (labels : List Text) → text_eq s serial_all ≡ true → serializes B s labels ≡ true
  serializes-all s labels h = rw (text_eq→eq s serial_all h) refl

  -- Two tests whose filters are sentinels or parse conflict in the graph exactly when one of them may
  -- not run beside the other in `coordinate`.
  pub conflicts-conflict :
      (a b : TestMetadata)
      → IsStorable B a.serial_filter
      → IsStorable B b.serial_filter
      → conflicts a b ≡ ok (conflict B a.serial_filter a.labels b.serial_filter b.labels)
  unfolding conflicts
  conflicts-conflict a b ha hb =
      conflict_cases (text_eq a.serial_filter serial_all) (text_eq b.serial_filter serial_all) _ _
        (serializes B a.serial_filter b.labels) (serializes B b.serial_filter a.labels)
        (serializes-all a.serial_filter b.labels) (serializes-all b.serial_filter a.labels)
        (filter_hits-serializes a.serial_filter b.labels ha)
        (filter_hits-serializes b.serial_filter a.labels hb)

  -- The test as a row that runs alone.
  abbrev pub alone : TestMetadata → Db
  alone a = record {
    running =
        record { id = 1; instance_id = []; name = a.name; serial_filter = a.serial_filter } ∷ [];
    labels = map (λ l. (1, l)) a.labels;
    next_id = 2;
  }

  labels_of-alone : (ls : List Text) → labels_of 1 (map (λ l. (1, l)) ls) ≡ ls
  unfolding labels_of
  labels_of-alone [] = refl
  labels_of-alone (l ∷ ls) = ap (λ t. l ∷ t) (labels_of-alone ls)

  -- The graph mirrors `can_start`: where only `a` runs, a test with the labels and the filter of `b`
  -- may start exactly when the graph has no conflict between `a` and `b`, if both filters are
  -- sentinels or parse.
  pub conflicts-can_start :
      (a b : TestMetadata) (labels : List Label)
      → names labels ≡ b.labels
      → IsStorable B a.serial_filter
      → IsStorable B b.serial_filter
      → can_start B labels b.serial_filter (alone a) ≡ (conflicts a b >>= (λ c. ok (not c)))
  conflicts-can_start a b labels same ha hb =
      let hit = conflict B a.serial_filter a.labels b.serial_filter b.labels in
      can_start-is_blocked B labels b.serial_filter (alone a) hb
      ∙ ap (λ c. ok (not c))
          (one_row (
              conflict B a.serial_filter (labels_of 1 (alone a).labels) b.serial_filter
                (names labels))
            ∙ ap₂ (λ ls ms. conflict B a.serial_filter ls b.serial_filter ms)
                (labels_of-alone a.labels) same)
      ∙ sym (ap (λ r. r >>= (λ c. ok (not c))) (conflicts-conflict a b ha hb))
