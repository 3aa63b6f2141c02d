-- ===== src/Nextest/Groups/Joined.antt =====
-- cargo-skuld/src/graph.rs: tests that conflict get into one set.
use skuld.Prelude.{
  ℕ, suc, ◌≡◌, sym, ◌∙◌, subst, Bool, true, false, List, [], ◌∷◌, if◌then◌else◌, ok, >>=-eq-ok, inl,
  inr, ◌⊎◌,
}
use skuld.Label.Filter.{BooleanExpression}
use skuld.Nextest.Graph.{TestMetadata, conflicts}
use skuld.Nextest.Groups.{UnionFind, join_row, join_rows, At}

module _ (B : BooleanExpression) (U : UnionFind) where
  abbrev Finer : U.State → U.State → Type 0
  Finer s s' = (a b : ℕ) → U.find s a ≡ U.find s b → U.find s' a ≡ U.find s' b

  Finer-union : (i j : ℕ) (c : Bool) (s : U.State) → Finer s (if c then U.union i j s else s)
  Finer-union i j true s a b h = U.union_keeps i j s a b h
  Finer-union i j false s a b h = h

  join_row-Finer :
      (i : ℕ) (a : TestMetadata) (j : ℕ) (bs : List TestMetadata) (s s' : U.State)
      → join_row B U i a j bs s ≡ ok s'
      → Finer s s'
  unfolding join_row
  join_row-Finer i a j [] s s' e x y h =
      let same : s ≡ s' = cc in subst (λ u. U.find u x ≡ U.find u y) same h
  join_row-Finer i a j (b ∷ bs) s s' e x y h =
      let (c, _, rest) = >>=-eq-ok (conflicts B a b) _ e in
      join_row-Finer i a (suc j) bs (if c then U.union i j s else s) s' rest x y
        (Finer-union i j c s x y h)

  joined_if :
      (i j k : ℕ) (c : Bool) (s : U.State)
      → c ≡ true
      → k ≡ j
      → U.find (if c then U.union i j s else s) i ≡ U.find (if c then U.union i j s else s) k
  joined_if i j k true s e here =
      subst (λ x. U.find (U.union i j s) i ≡ U.find (U.union i j s) x) (sym here)
        (U.union_joins i j s)
  joined_if i j k false s e here = cc

  join_row-joined :
      (i : ℕ) (a : TestMetadata) (j : ℕ) (bs : List TestMetadata) (s s' : U.State) (k : ℕ)
      (b : TestMetadata)
      → join_row B U i a j bs s ≡ ok s'
      → At B U j bs k b
      → conflicts B a b ≡ ok true
      → U.find s' i ≡ U.find s' k
  unfolding join_row
  join_row-joined i a j [] s s' k b e at hit = absurd at
  join_row-joined i a j (x ∷ bs) s s' k b e (inr at) hit =
      let (c, _, rest) = >>=-eq-ok (conflicts B a x) _ e in
      join_row-joined i a (suc j) bs (if c then U.union i j s else s) s' k b rest at hit
  join_row-joined i a j (x ∷ bs) s s' k b e (inl (here, same)) hit =
      let (c, said, rest) = >>=-eq-ok (conflicts B a x) _ e in
      let hit' : conflicts B a x ≡ ok true = subst (λ t. conflicts B a t ≡ ok true) same hit in
      let agreed : ok c ≡ ok true = sym said ∙ hit' in
      let is_hit : c ≡ true = cc in
      join_row-Finer i a (suc j) bs (if c then U.union i j s else s) s' rest i k
        (joined_if i j k c s is_hit here)

  join_rows-Finer :
      (i : ℕ) (ts : List TestMetadata) (s s' : U.State) → join_rows B U i ts s ≡ ok s' → Finer s s'
  unfolding join_rows
  join_rows-Finer i [] s s' e x y h =
      let same : s ≡ s' = cc in subst (λ u. U.find u x ≡ U.find u y) same h
  join_rows-Finer i (a ∷ rest) s s' e x y h =
      let (s1, row, others) = >>=-eq-ok (join_row B U i a (suc i) rest s) _ e in
      join_rows-Finer (suc i) rest s1 s' others x y (join_row-Finer i a (suc i) rest s s1 row x y h)

  -- The two tests, the first of them before the second.
  abbrev pub Before : ℕ → List TestMetadata → ℕ → TestMetadata → ℕ → TestMetadata → Type 0
  Before i [] k a l b = ⊥
  Before i (t ∷ rest) k a l b =
      ((k ≡ i) × (a ≡ t) × At B U (suc i) rest l b) ⊎ Before (suc i) rest k a l b

  pub join_rows-joined :
      (i : ℕ) (ts : List TestMetadata) (s s' : U.State) (k l : ℕ) (a b : TestMetadata)
      → join_rows B U i ts s ≡ ok s'
      → Before i ts k a l b
      → conflicts B a b ≡ ok true
      → U.find s' k ≡ U.find s' l
  unfolding join_rows
  join_rows-joined i [] s s' k l a b e at hit = absurd at
  join_rows-joined i (t ∷ rest) s s' k l a b e (inr at) hit =
      let (s1, row, others) = >>=-eq-ok (join_row B U i t (suc i) rest s) _ e in
      join_rows-joined (suc i) rest s1 s' k l a b others at hit
  join_rows-joined i (t ∷ rest) s s' k l a b e (inl (here, same, at)) hit =
      let (s1, row, others) = >>=-eq-ok (join_row B U i t (suc i) rest s) _ e in
      join_rows-Finer (suc i) rest s1 s' others k l (
        subst (λ x. U.find s1 x ≡ U.find s1 l) (sym here)
          (join_row-joined i t (suc i) rest s s1 l b row at
            (subst (λ u. conflicts B u b ≡ ok true) same hit)))
