-- ===== src/Nextest/Groups/Components.antt =====
-- cargo-skuld/src/graph.rs: tests that conflict are in one component, which holds no others.
use skuld.Prelude.{
  ℕ, suc, ◌≡◌, refl, sym, ap, ◌∙◌, subst, Bool, true, false, List, [], ◌∷◌, ◌==◌, ==_iff,
  if◌then◌else◌, ok, >>=-eq-ok, Bool-cases, inl, inr, In, All,
}
use skuld.Label.Filter.{BooleanExpression}
use skuld.Nextest.Graph.{TestMetadata, conflicts}
use skuld.Nextest.Groups.{UnionFind, join_row, join_rows, component, At}
use skuld.Nextest.Groups.Joined.{Before, join_rows-joined}

module _ (B : BooleanExpression) (U : UnionFind) where
  -- Tests that are joined by conflicts, one after the other.
  pub data Linked (ts : List TestMetadata) : ℕ → ℕ → Type 0 where
    itself : (k : ℕ) → Linked ts k k
    link :
        (k l : ℕ) (a b : TestMetadata)
        → Before B U 0 ts k a l b
        → conflicts B a b ≡ ok true
        → Linked ts k l
    back : (k l : ℕ) → Linked ts k l → Linked ts l k
    chain : (k l m : ℕ) → Linked ts k l → Linked ts l m → Linked ts k m

  -- Elements of one set are linked.
  abbrev OnlyLinked : List TestMetadata → U.State → Type 0
  OnlyLinked ts s = (x y : ℕ) → U.find s x ≡ U.find s y → Linked ts x y

  OnlyLinked-union :
      (ts : List TestMetadata) (i j : ℕ) (c : Bool) (s : U.State)
      → (c ≡ true → Linked ts i j)
      → OnlyLinked ts s
      → OnlyLinked ts (if c then U.union i j s else s)
  OnlyLinked-union ts i j false s edge h = h
  OnlyLinked-union ts i j true s edge h = λ x y same. elim (U.union_only i j s x y same) [
    | inl e ↦ h x y e
    | inr (inl (e, e')) ↦ chain x i y (h x i e) (chain i j y (edge refl) (h j y e'))
    | inr (inr (e, e')) ↦ chain x j y (h x j e) (chain j i y (back i j (edge refl)) (h i y e'))
  ]

  join_row-OnlyLinked :
      (ts : List TestMetadata) (i : ℕ) (a : TestMetadata) (j : ℕ) (bs : List TestMetadata)
      (s s' : U.State)
      → ((k : ℕ) (b : TestMetadata) → At B U j bs k b → conflicts B a b ≡ ok true → Linked ts i k)
      → join_row B U i a j bs s ≡ ok s'
      → OnlyLinked ts s
      → OnlyLinked ts s'
  unfolding join_row
  join_row-OnlyLinked ts i a j [] s s' edges e h =
      let same : s ≡ s' = cc in subst (OnlyLinked ts) same h
  join_row-OnlyLinked ts i a j (b ∷ bs) s s' edges e h =
      let (c, said, rest) = >>=-eq-ok (conflicts B a b) _ e in
      join_row-OnlyLinked ts i a (suc j) bs (if c then U.union i j s else s) s'
        (λ k b' at. edges k b' (inr at)) rest
        (OnlyLinked-union ts i j c s (λ hit. edges j b (inl (refl, refl)) (said ∙ ap ok hit)) h)

  join_rows-OnlyLinked :
      (ts : List TestMetadata) (i : ℕ) (rest : List TestMetadata) (s s' : U.State)
      → ((k l : ℕ) (a b : TestMetadata) → Before B U i rest k a l b → Before B U 0 ts k a l b)
      → join_rows B U i rest s ≡ ok s'
      → OnlyLinked ts s
      → OnlyLinked ts s'
  unfolding join_rows
  join_rows-OnlyLinked ts i [] s s' part e h =
      let same : s ≡ s' = cc in subst (OnlyLinked ts) same h
  join_rows-OnlyLinked ts i (a ∷ rest) s s' part e h =
      let (s1, row, others) = >>=-eq-ok (join_row B U i a (suc i) rest s) _ e in
      join_rows-OnlyLinked ts (suc i) rest s1 s' (λ k l x y before. part k l x y (inr before))
        others
        (join_row-OnlyLinked ts i a (suc i) rest s s1
          (λ k b at hit. link i k a b (part i k a b (inl (refl, refl, at))) hit) row h)

  -- The comparison of every two tests returns.
  abbrev pub Decided : List TestMetadata → Type 0
  Decided [] = Unit
  Decided (a ∷ rest) = All (λ b. (c : Bool) × (conflicts B a b ≡ ok c)) rest × Decided rest

  join_row_returns :
      (i : ℕ) (a : TestMetadata) (j : ℕ) (bs : List TestMetadata) (s : U.State)
      → All (λ b. (c : Bool) × (conflicts B a b ≡ ok c)) bs
      → (s' : U.State) × (join_row B U i a j bs s ≡ ok s')
  unfolding join_row
  join_row_returns i a j [] s h = (s, refl)
  join_row_returns i a j (b ∷ bs) s ((c, said), h) =
      let (s', rest) = join_row_returns i a (suc j) bs (if c then U.union i j s else s) h in
      (s', rw said rest)

  join_rows_returns :
      (i : ℕ) (ts : List TestMetadata) (s : U.State)
      → Decided ts
      → (s' : U.State) × (join_rows B U i ts s ≡ ok s')
  unfolding join_rows
  join_rows_returns i [] s h = (s, refl)
  join_rows_returns i (a ∷ rest) s (row, h) =
      let (s1, e) = join_row_returns i a (suc i) rest s row in
      let (s', e') = join_rows_returns (suc i) rest s1 h in (s', rw e e')

  In-component :
      (s : U.State) (root i : ℕ) (ts : List TestMetadata) (k : ℕ) (t : TestMetadata)
      → At B U i ts k t
      → U.find s k ≡ root
      → In k (component B U s root i ts)
  unfolding component
  In-component s root i [] k t at e = absurd at
  In-component s root i (a ∷ rest) k t (inl (here, same)) e =
      let is_root : (U.find s i == root) ≡ true =
        (==_iff (U.find s i) root).1 (ap (λ x. U.find s x) (sym here) ∙ e) in
      rw is_root (inl here)
  In-component s root i (a ∷ rest) k t (inr at) e = elim (Bool-cases (U.find s i == root)) [
    | inl is_root ↦ rw is_root (inr (In-component s root (suc i) rest k t at e))
    | inr not_root ↦ rw not_root (In-component s root (suc i) rest k t at e)
  ]

  component_find :
      (s : U.State) (root i : ℕ) (ts : List TestMetadata) (k : ℕ)
      → In k (component B U s root i ts)
      → U.find s k ≡ root
  unfolding component
  component_find s root i [] k at = absurd at
  component_find s root i (a ∷ rest) k at = elim (Bool-cases (U.find s i == root)) [
    | inl is_root ↦
        elim (subst
          (λ b. In k (
            if b then i ∷ component B U s root (suc i) rest else component B U s root (suc i) rest))
          is_root at) [
            | inl here ↦ ap (λ x. U.find s x) here ∙ (==_iff (U.find s i) root).0 is_root
            | inr later ↦ component_find s root (suc i) rest k later
          ]
    | inr not_root ↦ component_find s root (suc i) rest k (
        subst
          (λ b. In k (
            if b then i ∷ component B U s root (suc i) rest else component B U s root (suc i) rest))
          not_root at)
  ]

  Before-At :
      (i : ℕ) (ts : List TestMetadata) (k l : ℕ) (a b : TestMetadata)
      → Before B U i ts k a l b
      → At B U i ts k a × At B U i ts l b
  Before-At i [] k l a b h = absurd h
  Before-At i (t ∷ rest) k l a b (inl (here, same, at)) = (inl (here, same), inr at)
  Before-At i (t ∷ rest) k l a b (inr h) =
      let (first, second) = Before-At (suc i) rest k l a b h in (inr first, inr second)

  -- Where the comparison of every two tests returns, the sets are built. Two tests that conflict are in one
  -- component, and a component holds no test that is not linked to its others by conflicts.
  pub join_rows-components :
      (n : ℕ) (ts : List TestMetadata)
      → Decided ts
      → (s : U.State) × (join_rows B U 0 ts (U.new_sets n) ≡ ok s)
        × ((k l : ℕ) (a b : TestMetadata)
            → Before B U 0 ts k a l b
            → conflicts B a b ≡ ok true
            → In k (component B U s (U.find s k) 0 ts) × In l (component B U s (U.find s k) 0 ts))
        × ((k l : ℕ) → In l (component B U s (U.find s k) 0 ts) → Linked ts k l)
  join_rows-components n ts decided =
      let (s, e) = join_rows_returns 0 ts (U.new_sets n) decided in
      let only =
        join_rows-OnlyLinked ts 0 ts (U.new_sets n) s (λ k l a b h. h) e
          (λ x y same. subst (Linked ts x) (U.new_alone n x y same) (itself x)) in
      (
        s,
        e,
        λ k l a b before hit.
            let (first, second) = Before-At 0 ts k l a b before in
            let same = join_rows-joined B U 0 ts (U.new_sets n) s k l a b e before hit in
            (
              In-component s (U.find s k) 0 ts k a first refl,
              In-component s (U.find s k) 0 ts l b second (sym same),
            ),
        λ k l member. only k l (sym (component_find s (U.find s k) 0 ts l member)),
      )
