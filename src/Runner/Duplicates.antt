-- ===== src/Runner/Duplicates.antt =====
-- src/runner.rs and src/label.rs: the checks pass exactly when no two entries have one name.
use skuld.Prelude.{
  ◌≤◌, ◌≡◌, ◌≢◌, refl, sym, ◌∙◌, subst, false≢true, true, List, [], ◌∷◌, map, Text, text_eq,
  text_eq→eq, text_eq_refl, length, ltb, ok, All, In, In-sort, In-dedup, inl, inr, ◌↔◌, arith,
  Bool-cases,
}
use skuld.Runner.Names.{
  bucket, duplicates, sorted_names, ok_if_none, check_duplicate_trial_names, check_label_registry,
  Location,
}

All-In : (P : Text → Type 0) (names : List Text) → All P names → (n : Text) → In n names → P n
All-In P (x ∷ xs) h n (inl e) = subst P (sym e) h.0
All-In P (x ∷ xs) h n (inr member) = All-In P xs h.1 n member
All-In P [] h n member = absurd member

In-All : (P : Text → Type 0) (names : List Text) → ((n : Text) → P n) → All P names
In-All P [] h = tt
In-All P (x ∷ xs) h = (h x, In-All P xs h)

module _ {A : Type 0} where
  -- No two of the entries have one name.
  abbrev pub DistinctNames : List (Text × A) → Type 0
  DistinctNames [] = Unit
  DistinctNames (e ∷ es) = All (λ d. e.0 ≢ d.0) es × DistinctNames es

  -- Every one of the names has one entry at most.
  AtMostOne : List (Text × A) → List Text → Type 0
  AtMostOne entries = All (λ n. length (bucket n entries) ≤ 1)

  duplicates→AtMostOne :
      (entries : List (Text × A)) (names : List Text)
      → duplicates entries names ≡ []
      → AtMostOne entries names
  unfolding duplicates AtMostOne
  duplicates→AtMostOne entries [] h = tt
  duplicates→AtMostOne entries (n ∷ names) h =
      elim (Bool-cases (ltb 1 (length (bucket n entries)))) [
        | inl e ↦ absurd (ground (arith, h, e))
        | inr e ↦ (ground (arith, e), duplicates→AtMostOne entries names (ground (arith, h, e)))
      ]

  AtMostOne→duplicates :
      (entries : List (Text × A)) (names : List Text)
      → AtMostOne entries names
      → duplicates entries names ≡ []
  unfolding duplicates AtMostOne
  AtMostOne→duplicates entries [] h = refl
  AtMostOne→duplicates entries (n ∷ names) h =
      ground (arith, h.0, AtMostOne→duplicates entries names h.1)

  -- A name that no entry has.
  bucket-none : (n : Text) (es : List (Text × A)) → All (λ d. n ≢ d.0) es → length (bucket n es) ≡ 0
  unfolding bucket
  bucket-none n [] h = refl
  bucket-none n ((m, o) ∷ es) h = elim (Bool-cases (text_eq m n)) [
    | inl e ↦ absurd (h.0 (sym (text_eq→eq m n e)))
    | inr e ↦ rw e (bucket-none n es h.1)
  ]

  none-bucket : (n : Text) (es : List (Text × A)) → length (bucket n es) ≤ 0 → All (λ d. n ≢ d.0) es
  unfolding bucket
  none-bucket n [] h = tt
  none-bucket n ((m, o) ∷ es) h = elim (Bool-cases (text_eq m n)) [
    | inl e ↦ absurd (ground (arith, h, e))
    | inr e ↦ (
      λ same. false≢true (sym e ∙ subst (λ x. text_eq m x ≡ true) (sym same) (text_eq_refl m)),
      none-bucket n es (ground (arith, h, e)),
    )
  ]

  DistinctNames→AtMostOne :
      (n : Text) (es : List (Text × A)) → DistinctNames es → length (bucket n es) ≤ 1
  unfolding bucket
  DistinctNames→AtMostOne n [] h = omega arith
  DistinctNames→AtMostOne n ((m, o) ∷ es) h = elim (Bool-cases (text_eq m n)) [
    | inl e ↦
        let none_left =
          subst (λ x. length (bucket x es) ≡ 0) (text_eq→eq m n e) (bucket-none m es h.0) in
        rw e (omega (arith, none_left))
    | inr e ↦ rw e (DistinctNames→AtMostOne n es h.1)
  ]

  bucket_tail :
      (n : Text) (e : Text × A) (es : List (Text × A))
      → length (bucket n es) ≤ length (bucket n (e ∷ es))
  unfolding bucket
  bucket_tail n (m, o) es = ground arith

  bucket_self :
      (m : Text) (o : A) (es : List (Text × A))
      → length (bucket m ((m, o) ∷ es)) ≤ 1
      → length (bucket m es) ≤ 0
  unfolding bucket
  bucket_self m o es h = ground (arith, text_eq_refl m, h)

  AtMostOne→DistinctNames :
      (es : List (Text × A))
      → ((n : Text) → In n (map (λ p. p.0) es) → length (bucket n es) ≤ 1)
      → DistinctNames es
  AtMostOne→DistinctNames [] h = tt
  AtMostOne→DistinctNames ((m, o) ∷ es) h = (
    none-bucket m es (bucket_self m o es (h m (inl refl))),
    AtMostOne→DistinctNames es
        (λ n member. omega (arith, bucket_tail n (m, o) es, h n (inr member))),
  )

  no_duplicates_iff :
      (es : List (Text × A)) → (duplicates es (sorted_names es) ≡ []) ↔ DistinctNames es
  unfolding AtMostOne
  no_duplicates_iff es = (
    λ h. AtMostOne→DistinctNames es (λ n member.
        All-In (λ x. length (bucket x es) ≤ 1) (sorted_names es)
          (duplicates→AtMostOne es (sorted_names es) h) n (In-dedup n _ (In-sort n _ member))),
    λ h. AtMostOne→duplicates es (sorted_names es) (
        In-All (λ x. length (bucket x es) ≤ 1) (sorted_names es)
          (λ n. DistinctNames→AtMostOne n es h)),
  )

  ok_if_none_iff : (ds : List (Text × List A)) → (ok_if_none ds ≡ ok tt) ↔ (ds ≡ [])
  ok_if_none_iff [] = (λ h. refl, λ h. refl)
  ok_if_none_iff (d ∷ ds) = (λ h. absurd cc, λ h. absurd cc)

-- The check of the trials passes exactly when no two trials have one name.
pub check_duplicate_trial_names_iff :
    (es : List (Text × Text)) → (check_duplicate_trial_names es ≡ ok tt) ↔ DistinctNames es
unfolding check_duplicate_trial_names
check_duplicate_trial_names_iff es = (
  λ h. (no_duplicates_iff es).0 ((ok_if_none_iff (duplicates es (sorted_names es))).0 h),
  λ h. (ok_if_none_iff (duplicates es (sorted_names es))).1 ((no_duplicates_iff es).1 h),
)

-- The check of the labels passes exactly when no two labels are declared with one name.
pub check_label_registry_iff :
    (es : List (Text × Location)) → (check_label_registry es ≡ ok tt) ↔ DistinctNames es
unfolding check_label_registry
check_label_registry_iff es = (
  λ h. (no_duplicates_iff es).0 ((ok_if_none_iff (duplicates es (sorted_names es))).0 h),
  λ h. (ok_if_none_iff (duplicates es (sorted_names es))).1 ((no_duplicates_iff es).1 h),
)
