-- ===== src/Macros/Outer/Merged.antt =====
-- macros/src/lib.rs, `expand_test_def`: each of `ignore` and `should_panic` is said in one place at most.
use skuld.Prelude.{
  ◌≡◌, refl, sym, ap, ◌∙◌, subst, Bool, List, [], ◌∷◌, Option, none, some, Text, codes, Result, ok,
  >>=-eq-ok, arith, ◌↔◌,
}
use skuld.Macros.Tokens.{SynError}
use skuld.Macros.Args.{
  IgnoreArg, run, ignored, with_reason, ShouldPanicArg, returns, panics, with_message, TestArgs,
}
use skuld.Macros.Outer.{
  Meta, Attribute, absorb_ignore_attr, absorb_should_panic_attr, collect_outer, merge_ignore,
  merge_should_panic, absorb_outer,
}
use skuld.Macros.Outer.Found.{said, at_most_one, collect_outer-Found, Found-collect_outer}

-- Said nowhere outside, the argument stands; said once, where no argument says it, it is taken.
abbrev pub Taken : {A : Type 0} → (Meta → Result SynError A) → A → List Meta → A → A → Type 0
Taken absorb unsaid [] given final = given ≡ final
Taken absorb unsaid (m ∷ []) given final = (given ≡ unsaid) × (absorb m ≡ ok final)
Taken absorb unsaid (m ∷ m' ∷ rest) given final = ⊥

merge_ignore_iff :
    (o : Option Meta) (given final : IgnoreArg)
    → (merge_ignore o given ≡ ok final) ↔ Taken absorb_ignore_attr run (at_most_one o) given final
unfolding merge_ignore
merge_ignore_iff none given final = (λ h. ground (arith, h), λ h. ap ok h)
merge_ignore_iff (some m) run final = (λ h. (refl, h), λ h. h.1)
merge_ignore_iff (some m) ignored final = (λ h. absurd cc, λ h. absurd (ground (arith, h.0)))
merge_ignore_iff (some m) (with_reason s) final =
    (λ h. absurd cc, λ h. absurd (ground (arith, h.0)))

merge_should_panic_iff :
    (is_name : Text → Bool) (o : Option Meta) (given final : ShouldPanicArg)
    → (merge_should_panic is_name o given ≡ ok final)
      ↔ Taken (absorb_should_panic_attr is_name) returns (at_most_one o) given final
unfolding merge_should_panic
merge_should_panic_iff is_name none given final = (λ h. ground (arith, h), λ h. ap ok h)
merge_should_panic_iff is_name (some m) returns final = (λ h. (refl, h), λ h. h.1)
merge_should_panic_iff is_name (some m) panics final =
    (λ h. absurd cc, λ h. absurd (ground (arith, h.0)))
merge_should_panic_iff is_name (some m) (with_message s) final =
    (λ h. absurd cc, λ h. absurd (ground (arith, h.0)))

-- What the attributes and the arguments say together.
pub record Merged (is_name : Text → Bool) (attrs : List Attribute) (args : TestArgs) (i : IgnoreArg)
    (p : ShouldPanicArg) : Type 0 where
  pub no_test : said (codes "test") attrs ≡ []
  pub ignore : Taken absorb_ignore_attr run (said (codes "ignore") attrs) args.ignore i
  pub should_panic :
      Taken
        (absorb_should_panic_attr is_name)
        returns
        (said (codes "should_panic") attrs)
        args.should_panic
        p

module _ (is_name : Text → Bool) (attrs : List Attribute) (args : TestArgs) (i : IgnoreArg)
    (p : ShouldPanicArg) where
  absorb_outer-Merged :
      absorb_outer is_name attrs args ≡ ok (record args { ignore = i; should_panic = p })
      → Merged is_name attrs args i p
  unfolding absorb_outer
  absorb_outer-Merged h =
      let (marks, found, rest) = >>=-eq-ok (collect_outer (none, none) attrs) _ h in
      let (i', ignored', rest') = >>=-eq-ok (merge_ignore marks.0 args.ignore) _ rest in
      let (p', panicked', last) =
        >>=-eq-ok (merge_should_panic is_name marks.1 args.should_panic) _ rest' in
      let f = collect_outer-Found attrs none none marks found in
      let same_i : i' ≡ i = ground (arith, last) in
      let same_p : p' ≡ p = ground (arith, last) in
      record {
        no_test = f.no_test;
        ignore =
            subst (λ l. Taken absorb_ignore_attr run l args.ignore i) (sym f.ignore)
              ((merge_ignore_iff marks.0 args.ignore i).0 (ignored' ∙ ap ok same_i));
        should_panic =
            subst (λ l. Taken (absorb_should_panic_attr is_name) returns l args.should_panic p)
              (sym f.should_panic)
              ((merge_should_panic_iff is_name marks.1 args.should_panic p).0
                (panicked' ∙ ap ok same_p));
      }

-- The attribute of a list of one at most.
the_mark :
    {A : Type 0} (absorb : Meta → Result SynError A) (unsaid : A) (l : List Meta) (given final : A)
    → Taken absorb unsaid l given final
    → (o : Option Meta) × (l ≡ at_most_one o)
the_mark absorb unsaid [] given final h = (none, refl)
the_mark absorb unsaid (m ∷ []) given final h = (some m, refl)
the_mark absorb unsaid (m ∷ m' ∷ rest) given final h = absurd h

module _ (is_name : Text → Bool) (attrs : List Attribute) (args : TestArgs) (i : IgnoreArg)
    (p : ShouldPanicArg) where
  Merged-absorb_outer :
      Merged is_name attrs args i p
      → absorb_outer is_name attrs args ≡ ok (record args { ignore = i; should_panic = p })
  unfolding absorb_outer
  Merged-absorb_outer h =
      let (o, at_i) = the_mark absorb_ignore_attr run _ args.ignore i h.ignore in
      let (o', at_p) =
        the_mark (absorb_should_panic_attr is_name) returns _ args.should_panic p h.should_panic in
      let found : collect_outer (none, none) attrs ≡ ok (o, o') =
        Found-collect_outer attrs none none (o, o')
          (record { no_test = h.no_test; ignore = at_i; should_panic = at_p }) in
      let merged =
        (merge_ignore_iff o args.ignore i).1
          (subst (λ l. Taken absorb_ignore_attr run l args.ignore i) at_i h.ignore) in
      let merged' = (merge_should_panic_iff is_name o' args.should_panic p).1 (
        subst (λ l. Taken (absorb_should_panic_attr is_name) returns l args.should_panic p) at_p
          h.should_panic) in
      rw found (rw merged (rw merged' refl))

-- The attributes outside are merged with the arguments exactly when none is `#[test]` and each of
-- `ignore` and `should_panic` is said once at most: as an argument, which stands, or by one attribute
-- of an accepted form, which is taken.
pub absorb_outer_iff :
    (is_name : Text → Bool) (attrs : List Attribute) (args : TestArgs) (i : IgnoreArg)
    (p : ShouldPanicArg)
    → (absorb_outer is_name attrs args ≡ ok (record args { ignore = i; should_panic = p }))
      ↔ Merged is_name attrs args i p
absorb_outer_iff is_name attrs args i p =
    (absorb_outer-Merged is_name attrs args i p, Merged-absorb_outer is_name attrs args i p)
