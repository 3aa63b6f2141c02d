-- ===== src/Macros/Outer.antt =====
-- macros/src/lib.rs, `expand_test_def`: how `#[test]`, `#[ignore]` and `#[should_panic]` outside are
-- merged with the arguments of `#[skuld::test(..)]`.
pub mod Found
pub mod Merged
use skuld.Prelude.{
  Bool, List, [], ◌∷◌, Option, none, some, Text, codes, text_eq, if◌then◌else◌, Result, ok, err,
  ◌>>=◌,
}
use skuld.Macros.Tokens.{
  Tokens, nil, cons, SynError, attribute_form, duplicate_attribute, conflicting, unexpected_token,
  unknown_argument, Parsed, parsed, refused, no_fuel, expect_punct, parse_ident,
}
use skuld.Macros.Tokens
use skuld.Macros.Args.{
  IgnoreArg, run, ignored, with_reason, ShouldPanicArg, returns, panics, with_message, TestArgs,
  parse_lit_str,
}

-- `syn::Meta`, with what stands behind `=`.
pub data Meta : Type 0 where
  word : Meta
  value_str : Text → Meta
  value_other : Meta
  listed : Tokens → Meta

pub record Attribute : Type 0 where
  pub path : Text
  pub meta : Meta

unfoldable pub absorb_ignore_attr : Meta → Result SynError IgnoreArg
absorb_ignore_attr word = ok ignored
absorb_ignore_attr (value_str s) = ok (with_reason s)
absorb_ignore_attr value_other = err attribute_form
absorb_ignore_attr (listed ts) = err attribute_form

-- The whole of the tokens is parsed; the parsers called never run out of fuel.
abbrev pub whole : {A : Type 0} → Parsed A → Result SynError A
whole (parsed a nil) = ok a
whole (parsed a (cons t ts)) = err unexpected_token
whole (refused e) = err e
whole no_fuel = err unexpected_token

module _ (is_name : Text → Bool) where
  -- `ShouldPanicExpected::parse`.
  unfoldable pub parse_should_panic_expected : Tokens → Parsed Text
  parse_should_panic_expected ts = Tokens.◌>>=◌ (parse_ident is_name ts) (λ key r.
      if text_eq key (codes "expected")
      then Tokens.◌>>=◌ (expect_punct b'=' r) (λ u r'. parse_lit_str r')
      else refused (unknown_argument key))

  unfoldable pub absorb_should_panic_attr : Meta → Result SynError ShouldPanicArg
  unfolding parse_should_panic_expected
  absorb_should_panic_attr word = ok panics
  absorb_should_panic_attr (listed ts) =
      whole (parse_should_panic_expected ts) >>= (λ s. ok (with_message s))
  absorb_should_panic_attr (value_str s) = err attribute_form
  absorb_should_panic_attr value_other = err attribute_form

-- `outer_ignore` and `outer_should_panic`.
abbrev pub Marks : Type 0
Marks = Option Meta × Option Meta

-- The loop over `func.attrs`.
unfoldable pub collect_outer : Marks → List Attribute → Result SynError Marks
collect_outer marks [] = ok marks
collect_outer (i, p) (a ∷ attrs) =
    let behind_ignore = collect_outer (some a.meta, p) attrs in
    let behind_panic = collect_outer (i, some a.meta) attrs in
    let others = collect_outer (i, p) attrs in
    if text_eq a.path (codes "test")
    then err (duplicate_attribute (codes "test"))
    else if text_eq a.path (codes "ignore")
    then elim i [ some m ↦ err (duplicate_attribute (codes "ignore")) | none ↦ behind_ignore ]
    else if text_eq a.path (codes "should_panic")
    then elim p [ some m ↦ err (duplicate_attribute (codes "should_panic")) | none ↦ behind_panic ]
    else others

-- An argument that was not given takes what the attribute says.
unfoldable pub merge_ignore : Option Meta → IgnoreArg → Result SynError IgnoreArg
unfolding absorb_ignore_attr
merge_ignore none given = ok given
merge_ignore (some m) run = absorb_ignore_attr m
merge_ignore (some m) ignored = err (conflicting (codes "ignore"))
merge_ignore (some m) (with_reason s) = err (conflicting (codes "ignore"))

unfoldable pub merge_should_panic :
    (Text → Bool) → Option Meta → ShouldPanicArg → Result SynError ShouldPanicArg
unfolding absorb_should_panic_attr
merge_should_panic is_name none given = ok given
merge_should_panic is_name (some m) returns = absorb_should_panic_attr is_name m
merge_should_panic is_name (some m) panics = err (conflicting (codes "should_panic"))
merge_should_panic is_name (some m) (with_message s) = err (conflicting (codes "should_panic"))

unfoldable pub absorb_outer : (Text → Bool) → List Attribute → TestArgs → Result SynError TestArgs
unfolding collect_outer merge_ignore merge_should_panic
absorb_outer is_name attrs args = collect_outer (none, none) attrs >>= (λ marks.
    merge_ignore marks.0 args.ignore >>= (λ i.
      merge_should_panic is_name marks.1 args.should_panic
      >>= (λ p. ok (record args { ignore = i; should_panic = p }))))
