-- ===== src/Examples/Groups.antt =====
-- The components of the conflict graph at concrete inputs.
use skuld.Prelude.{
  ℕ, ◌≡◌, refl, true, List, [], ◌∷◌, ◌==◌, if◌then◌else◌, Text, codes, ok, ◌⊎◌, In, arith,
}
use skuld.Nextest.Graph.{TestMetadata, conflicts}
use skuld.Nextest.Groups.{UnionFind, join_rows, component}
use skuld.Nextest.Groups.Joined.{Before}
use skuld.Nextest.Groups.Components.{Linked, Decided, join_rows-components}
use skuld.Examples.Toy.{toy}

-- Sets as the function from each element to the one that stands for its set.
abbrev join_sets : ℕ → ℕ → (ℕ → ℕ) → ℕ → ℕ
join_sets i j s k = if s k == s i then s j else s k

join_sets_joins : (i j : ℕ) (s : ℕ → ℕ) → join_sets i j s i ≡ join_sets i j s j
join_sets_joins i j s = ground arith

join_sets_keeps :
    (i j : ℕ) (s : ℕ → ℕ) (a b : ℕ) → s a ≡ s b → join_sets i j s a ≡ join_sets i j s b
join_sets_keeps i j s a b h = ground (arith, h)

join_sets_only :
    (i j : ℕ) (s : ℕ → ℕ) (a b : ℕ)
    → join_sets i j s a ≡ join_sets i j s b
    → (s a ≡ s b) ⊎ (((s a ≡ s i) × (s j ≡ s b)) ⊎ ((s a ≡ s j) × (s i ≡ s b)))
join_sets_only i j s a b h = ground (arith, h)

abbrev sets : UnionFind
sets = record {
  State = ℕ → ℕ;
  new_sets = λ n i. i;
  union = join_sets;
  find = λ s k. s k;
  new_alone = λ n i j h. h;
  union_joins = join_sets_joins;
  union_keeps = join_sets_keeps;
  union_only = join_sets_only;
}

abbrev metadata_of : Text → Text → TestMetadata
metadata_of name serial_filter = record {
  binary_id = codes "bin";
  name = name;
  labels = [];
  serial_filter = serial_filter;
}

-- One test that must run alone, and one that need not.
abbrev two_tests : List TestMetadata
two_tests = metadata_of (codes "a") (codes "*") ∷ metadata_of (codes "b") [] ∷ []

two_tests-Decided : Decided toy sets two_tests
unfolding conflicts
two_tests-Decided = (((true, refl), tt), (tt, tt))

join_rows-components_example :
    (s : ℕ → ℕ) × (join_rows toy sets 0 two_tests (λ i. i) ≡ ok s)
    × ((k l : ℕ) (a b : TestMetadata)
        → Before toy sets 0 two_tests k a l b
        → conflicts toy a b ≡ ok true
        → In k (component toy sets s (s k) 0 two_tests)
          × In l (component toy sets s (s k) 0 two_tests))
    × ((k l : ℕ) → In l (component toy sets s (s k) 0 two_tests) → Linked toy sets two_tests k l)
join_rows-components_example = join_rows-components toy sets 2 two_tests two_tests-Decided
