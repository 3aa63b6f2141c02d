-- ===== src/Macros/Outer/Found.antt =====
-- macros/src/lib.rs, `expand_test_def`: what the loop over the attributes finds.
use skuld.Prelude.{
  ◌≡◌, refl, sym, ap, ◌∙◌, subst, true, false, List, [], ◌∷◌, ◌++◌, Option, none, some, Text, codes,
  text_eq, text_eq→eq, if◌then◌else◌, Result, ok, err, Bool-cases, inl, inr, arith, ap₂,
}
use skuld.Macros.Tokens.{SynError, duplicate_attribute}
use skuld.Macros.Outer.{Meta, Attribute, Marks, collect_outer}

-- What the attributes of this name say.
abbrev pub said : Text → List Attribute → List Meta
said name [] = []
said name (a ∷ attrs) =
    let rest = said name attrs in if text_eq a.path name then a.meta ∷ rest else rest

abbrev pub at_most_one : Option Meta → List Meta
at_most_one none = []
at_most_one (some m) = m ∷ []

-- What the loop has found, behind what was found before.
pub record Found (marks found : Marks) (attrs : List Attribute) : Type 0 where
  pub no_test : said (codes "test") attrs ≡ []
  pub ignore : at_most_one marks.0 ++ said (codes "ignore") attrs ≡ at_most_one found.0
  pub should_panic : at_most_one marks.1 ++ said (codes "should_panic") attrs ≡ at_most_one found.1

apart :
    (path : Text)
    → (text_eq path (codes "ignore") ≡ true → text_eq path (codes "should_panic") ≡ false)
      × (text_eq path (codes "test") ≡ true → text_eq path (codes "ignore") ≡ false)
apart path = (
  λ e. rw (text_eq→eq path (codes "ignore") e) refl,
  λ e. rw (text_eq→eq path (codes "test") e) refl,
)

-- The tests of the loop at one attribute, and what they leave of the attributes.
skip_test :
    (a : Attribute) (attrs : List Attribute) (name : Text)
    → text_eq a.path name ≡ false
    → said name (a ∷ attrs) ≡ said name attrs
skip_test a attrs name e = rw e refl

take_test :
    (a : Attribute) (attrs : List Attribute) (name : Text)
    → text_eq a.path name ≡ true
    → said name (a ∷ attrs) ≡ a.meta ∷ said name attrs
take_test a attrs name e = rw e refl

step_ignore :
    (a : Attribute) (attrs : List Attribute) (p : Option Meta) (found : Marks)
    → text_eq a.path (codes "test") ≡ false
    → text_eq a.path (codes "ignore") ≡ true
    → Found (some a.meta, p) found attrs
    → Found (none, p) found (a ∷ attrs)
step_ignore a attrs p found t e ih = record {
  no_test = skip_test a attrs (codes "test") t ∙ ih.no_test;
  ignore = take_test a attrs (codes "ignore") e ∙ ih.ignore;
  should_panic =
      ap (λ l. at_most_one p ++ l) (skip_test a attrs (codes "should_panic") ((apart a.path).0 e))
      ∙ ih.should_panic;
}

step_panic :
    (a : Attribute) (attrs : List Attribute) (i : Option Meta) (found : Marks)
    → text_eq a.path (codes "test") ≡ false
    → text_eq a.path (codes "ignore") ≡ false
    → text_eq a.path (codes "should_panic") ≡ true
    → Found (i, some a.meta) found attrs
    → Found (i, none) found (a ∷ attrs)
step_panic a attrs i found t e e' ih = record {
  no_test = skip_test a attrs (codes "test") t ∙ ih.no_test;
  ignore = ap (λ l. at_most_one i ++ l) (skip_test a attrs (codes "ignore") e) ∙ ih.ignore;
  should_panic = take_test a attrs (codes "should_panic") e' ∙ ih.should_panic;
}

step_other :
    (a : Attribute) (attrs : List Attribute) (marks found : Marks)
    → text_eq a.path (codes "test") ≡ false
    → text_eq a.path (codes "ignore") ≡ false
    → text_eq a.path (codes "should_panic") ≡ false
    → Found marks found attrs
    → Found marks found (a ∷ attrs)
step_other a attrs marks found t e e' ih = record {
  no_test = skip_test a attrs (codes "test") t ∙ ih.no_test;
  ignore = ap (λ l. at_most_one marks.0 ++ l) (skip_test a attrs (codes "ignore") e) ∙ ih.ignore;
  should_panic =
      ap (λ l. at_most_one marks.1 ++ l) (skip_test a attrs (codes "should_panic") e')
      ∙ ih.should_panic;
}

append_nil : (o : Option Meta) → at_most_one o ++ [] ≡ at_most_one o
append_nil none = refl
append_nil (some m) = refl

-- A mark that the loop may still take.
fresh_mark :
    (o : Option Meta) (e : SynError) (rest : Result SynError Marks) (found : Marks)
    → elim o [ some m ↦ err e | none ↦ rest ] ≡ ok found
    → (o ≡ none) × (rest ≡ ok found)
fresh_mark none e rest found h = (refl, h)
fresh_mark (some m) e rest found h = absurd cc

pub collect_outer-Found :
    (attrs : List Attribute) (i p : Option Meta) (found : Marks)
    → collect_outer (i, p) attrs ≡ ok found
    → Found (i, p) found attrs
unfolding collect_outer
collect_outer-Found [] i p found h =
    let same : ◌≡◌ {A = Marks} (i, p) found = ground (arith, h) in
    record {
      no_test = refl;
      ignore = append_nil i ∙ ap (λ (x : Marks). at_most_one x.0) same;
      should_panic = append_nil p ∙ ap (λ (x : Marks). at_most_one x.1) same;
    }
collect_outer-Found (a ∷ attrs) i p found h = elim (Bool-cases (text_eq a.path (codes "test"))) [
  | inl t ↦ absurd (ground (arith, h, t))
  | inr t ↦ elim (Bool-cases (text_eq a.path (codes "ignore"))) [
    | inl e ↦
        let (free, rest) =
          fresh_mark i _ (collect_outer (some a.meta, p) attrs) found (rw (t, e) at h) in
        subst (λ o. Found (o, p) found (a ∷ attrs)) (sym free)
          (step_ignore a attrs p found t e (collect_outer-Found attrs (some a.meta) p found rest))
    | inr e ↦ elim (Bool-cases (text_eq a.path (codes "should_panic"))) [
      | inl e' ↦
          let (free, rest) =
            fresh_mark p _ (collect_outer (i, some a.meta) attrs) found (rw (t, e, e') at h) in
          subst (λ o. Found (i, o) found (a ∷ attrs)) (sym free)
            (step_panic a attrs i found t e e'
              (collect_outer-Found attrs i (some a.meta) found rest))
      | inr e' ↦
          step_other a attrs (i, p) found t e e'
            (collect_outer-Found attrs i p found (rw (t, e, e') at h))
    ]
  ]
]

-- Two things said in one place.
crowded :
    (m : Meta) (o found : Option Meta) (l : List Meta)
    → at_most_one o ++ m ∷ l ≡ at_most_one found
    → o ≡ none
crowded m none found l h = refl
crowded m (some x) none l h = absurd cc
crowded m (some x) (some y) l h = absurd cc

pub Found-collect_outer :
    (attrs : List Attribute) (i p : Option Meta) (found : Marks)
    → Found (i, p) found attrs
    → collect_outer (i, p) attrs ≡ ok found
unfolding collect_outer
Found-collect_outer [] i p found h =
    ap ok (ap₂ (λ x y. (x, y)) (same i found.0 h.ignore) (same p found.1 h.should_panic))
  where
    same : (o o' : Option Meta) → at_most_one o ++ [] ≡ at_most_one o' → o ≡ o'
    same none none e = refl
    same none (some m) e = absurd cc
    same (some m) none e = absurd cc
    same (some m) (some m') e = cc
Found-collect_outer (a ∷ attrs) i p found h = elim (Bool-cases (text_eq a.path (codes "test"))) [
  | inl t ↦
      let clash : a.meta ∷ said (codes "test") attrs ≡ [] =
        sym (take_test a attrs (codes "test") t) ∙ h.no_test in
      absurd cc
  | inr t ↦
      let no_test = sym (skip_test a attrs (codes "test") t) ∙ h.no_test in
      elim (Bool-cases (text_eq a.path (codes "ignore"))) [
        | inl e ↦
            let taken =
              ap (λ l. at_most_one i ++ l) (sym (take_test a attrs (codes "ignore") e))
              ∙ h.ignore in
            let free = crowded a.meta i found.0 (said (codes "ignore") attrs) taken in
            rw (t, e)
              (subst
                (λ o.
                  elim o [
                    | some m ↦ err (duplicate_attribute (codes "ignore"))
                    | none ↦ collect_outer (some a.meta, p) attrs
                  ]
                  ≡ ok found)
                (sym free)
                (Found-collect_outer attrs (some a.meta) p found (record {
                  no_test = no_test;
                  ignore =
                      subst
                        (λ o.
                          at_most_one o ++ a.meta ∷ said (codes "ignore") attrs
                          ≡ at_most_one found.0)
                        free taken;
                  should_panic =
                      ap (λ l. at_most_one p ++ l)
                        (sym (skip_test a attrs (codes "should_panic") ((apart a.path).0 e)))
                      ∙ h.should_panic;
                })))
        | inr e ↦
            let ignore =
              ap (λ l. at_most_one i ++ l) (sym (skip_test a attrs (codes "ignore") e))
              ∙ h.ignore in
            elim (Bool-cases (text_eq a.path (codes "should_panic"))) [
              | inl e' ↦
                  let taken =
                    ap (λ l. at_most_one p ++ l) (sym (take_test a attrs (codes "should_panic") e'))
                    ∙ h.should_panic in
                  let free = crowded a.meta p found.1 (said (codes "should_panic") attrs) taken in
                  rw (t, e, e')
                    (subst
                      (λ o.
                        elim o [
                          | some m ↦ err (duplicate_attribute (codes "should_panic"))
                          | none ↦ collect_outer (i, some a.meta) attrs
                        ]
                        ≡ ok found)
                      (sym free)
                      (Found-collect_outer attrs i (some a.meta) found (record {
                        no_test = no_test;
                        ignore = ignore;
                        should_panic =
                            subst
                              (λ o.
                                at_most_one o ++ a.meta ∷ said (codes "should_panic") attrs
                                ≡ at_most_one found.1)
                              free taken;
                      })))
              | inr e' ↦
                  rw (t, e, e')
                    (Found-collect_outer attrs i p found (record {
                      no_test = no_test;
                      ignore = ignore;
                      should_panic =
                          ap (λ l. at_most_one p ++ l)
                            (sym (skip_test a attrs (codes "should_panic") e'))
                          ∙ h.should_panic;
                    }))
            ]
      ]
]
