-- ===== src/Nextest/Groups.antt =====
-- cargo-skuld/src/graph.rs: the components of the conflict graph, which become nextest groups.
pub mod Joined
pub mod Components
use skuld.Prelude.{
  ℕ, suc, ◌≡◌, refl, sym, ap, ◌∙◌, subst, Bool, true, false, List, [], ◌∷◌, ◌==◌, ==_iff,
  if◌then◌else◌, Result, ok, err, ◌>>=◌, >>=-eq-ok, Bool-cases, inl, inr, ◌⊎◌, In, arith,
}
use skuld.Label.Build.{ParseError}
use skuld.Label.Filter.{BooleanExpression}
use skuld.Nextest.Graph.{TestMetadata, conflicts}

-- `petgraph::unionfind::UnionFind`: each element starts alone, and a union joins the sets of two elements
-- and nothing else.
pub record UnionFind : Type 1 where
  pub State : Type 0
  pub new_sets : ℕ → State
  pub union : ℕ → ℕ → State → State
  pub find : State → ℕ → ℕ
  pub new_alone : (n i j : ℕ) → find (new_sets n) i ≡ find (new_sets n) j → i ≡ j
  pub union_joins : (i j : ℕ) (s : State) → find (union i j s) i ≡ find (union i j s) j
  pub union_keeps :
      (i j : ℕ) (s : State) (a b : ℕ)
      → find s a ≡ find s b
      → find (union i j s) a ≡ find (union i j s) b
  pub union_only :
      (i j : ℕ) (s : State) (a b : ℕ)
      → find (union i j s) a ≡ find (union i j s) b
      → (find s a ≡ find s b)
        ⊎ (((find s a ≡ find s i) × (find s j ≡ find s b))
            ⊎ ((find s a ≡ find s j) × (find s i ≡ find s b)))

module _ (B : BooleanExpression) (U : UnionFind) where
  -- The inner loop, over the tests from index `j` on.
  unfoldable pub join_row :
      ℕ → TestMetadata → ℕ → List TestMetadata → U.State → Result ParseError U.State
  join_row i a j [] s = ok s
  join_row i a j (b ∷ bs) s =
      conflicts B a b >>= (λ c. join_row i a (suc j) bs (if c then U.union i j s else s))

  -- The outer loop, over the tests from index `i` on.
  unfoldable pub join_rows : ℕ → List TestMetadata → U.State → Result ParseError U.State
  unfolding join_row
  join_rows i [] s = ok s
  join_rows i (a ∷ rest) s = join_row i a (suc i) rest s >>= join_rows (suc i) rest

  -- The indices of a component, from index `i` on, in order.
  unfoldable pub component : U.State → ℕ → ℕ → List TestMetadata → List ℕ
  component s root i [] = []
  component s root i (a ∷ rest) =
      let others = component s root (suc i) rest in
      if U.find s i == root then i ∷ others else others

  -- The test at an index, where the list begins at index `i`.
  abbrev pub At : ℕ → List TestMetadata → ℕ → TestMetadata → Type 0
  At i [] k t = ⊥
  At i (a ∷ rest) k t = ((k ≡ i) × (t ≡ a)) ⊎ At (suc i) rest k t
