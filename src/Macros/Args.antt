-- ===== src/Macros/Args.antt =====
-- macros/src/lib.rs: `TestArgs`, `FixtureArgs` and their `Parse`. What syn parses of paths is an
-- argument; a path is its tokens.
pub mod Given
pub mod Read
pub mod Fixture
use skuld.Prelude.{
  ℕ, zero, suc, Bool, true, false, ◌&&◌, not, List, [], ◌∷◌, ◌++◌, Option, none, some, Text, codes,
  text_eq, contains, if◌then◌else◌, Result, ok, err,
}
use skuld.Macros.Tokens.{
  Token, ident, punct, lit_str, lit_other, group, Tokens, nil, cons, SynError, expected_lit,
  expected_group, duplicate_argument, unknown_argument, unknown_scope, Parsed, parsed, refused,
  no_fuel, ◌>>=◌, after_punct, expect_punct, after_group, parse_ident, size,
}
use skuld.Macros.Serial.{parse_serial_expr}

pub data IgnoreArg : Type 0 where
  run : IgnoreArg
  ignored : IgnoreArg
  with_reason : Text → IgnoreArg

pub data ShouldPanicArg : Type 0 where
  returns : ShouldPanicArg
  panics : ShouldPanicArg
  with_message : Text → ShouldPanicArg

pub record TestArgs : Type 0 where
  pub requires : List Tokens
  pub name : Option Text
  pub labels : Option (List Tokens)
  pub ignore : IgnoreArg
  pub serial : Option Text
  pub serial_labels : List Text
  pub should_panic : ShouldPanicArg
  pub runtime : Option Tokens

abbrev pub default_test_args : TestArgs
default_test_args = record {
  requires = [];
  name = none;
  labels = none;
  ignore = run;
  serial = none;
  serial_labels = [];
  should_panic = returns;
  runtime = none;
}

pub record FixtureArgs : Type 0 where
  pub requires : List Tokens
  pub labels : List Tokens
  pub scope : Option Text
  pub name : Option Text
  pub deref : Bool
  pub serial : Option Text
  pub serial_labels : List Text

abbrev pub default_fixture_args : FixtureArgs
default_fixture_args = record {
  requires = [];
  labels = [];
  scope = none;
  name = none;
  deref = false;
  serial = none;
  serial_labels = [];
}

-- What syn parses: identifiers, the paths of a whole bracket, and one path.
pub record Syn : Type 0 where
  pub is_name : Text → Bool
  pub parse_paths : Tokens → Result SynError (List Tokens)
  pub parse_path : Tokens → Parsed Tokens

-- `input.parse::<LitStr>()`.
abbrev pub parse_lit_str : Tokens → Parsed Text
parse_lit_str (cons (lit_str s) ts) = parsed s ts
parse_lit_str (cons (ident n) ts) = refused expected_lit
parse_lit_str (cons (punct c) ts) = refused expected_lit
parse_lit_str (cons lit_other ts) = refused expected_lit
parse_lit_str (cons (group c inner) ts) = refused expected_lit
parse_lit_str nil = refused expected_lit

abbrev pub lift : {A : Type 0} → Tokens → Result SynError A → Parsed A
lift ts (ok a) = parsed a ts
lift ts (err e) = refused e

-- Behind a key that may stand alone: the value behind `=`, or what it is without.
abbrev pub or_alone : {A : Type 0} → A → (Tokens → Parsed A) → Tokens → Parsed A
or_alone alone value ts = elim (after_punct b'=' ts) [ none ↦ parsed alone ts | some r ↦ value r ]

-- `_: Token![=]`, then the value.
abbrev pub behind_eq : {A : Type 0} → (Tokens → Parsed A) → Tokens → Parsed A
behind_eq value ts = expect_punct b'=' ts >>= λ u r. value r

-- The keys so far, with this one.
unfoldable pub reject_duplicate_key : Text → List Text → Tokens → Parsed (List Text)
reject_duplicate_key key seen ts =
    if contains seen key then refused (duplicate_argument key) else parsed (seen ++ key ∷ []) ts

module _ (syn : Syn) where
  -- `bracketed!` and the paths in it.
  abbrev pub bracketed_paths : Tokens → Parsed (List Tokens)
  bracketed_paths ts = elim (after_group b'[' ts) [
    | none ↦ refused expected_group
    | some (content, rest) ↦ lift rest (syn.parse_paths content)
  ]

  -- The `match` of `TestArgs::parse`.
  unfoldable pub test_arg : Text → TestArgs → Tokens → Parsed TestArgs
  unfolding parse_serial_expr
  test_arg key args ts =
      if text_eq key (codes "requires")
      then behind_eq bracketed_paths ts >>= (λ ps r. parsed (record args { requires = ps }) r)
      else if text_eq key (codes "name")
      then behind_eq parse_lit_str ts >>= (λ s r. parsed (record args { name = some s }) r)
      else if text_eq key (codes "labels")
      then behind_eq bracketed_paths ts >>= (λ ps r. parsed (record args { labels = some ps }) r)
      else if text_eq key (codes "ignore")
      then or_alone ignored (λ r. parse_lit_str r >>= λ s r'. parsed (with_reason s) r') ts
        >>= (λ v r. parsed (record args { ignore = v }) r)
      else if text_eq key (codes "serial")
      then or_alone (codes "*", []) (parse_serial_expr syn.is_name) ts
        >>= (λ v r. parsed (record args { serial = some v.0; serial_labels = v.1 }) r)
      else if text_eq key (codes "runtime")
      then behind_eq syn.parse_path ts >>= (λ p r. parsed (record args { runtime = some p }) r)
      else if text_eq key (codes "should_panic")
      then or_alone panics (λ r. parse_lit_str r >>= λ s r'. parsed (with_message s) r') ts
        >>= (λ v r. parsed (record args { should_panic = v }) r)
      else refused (unknown_argument key)

  abbrev pub is_scope : Text → Bool
  is_scope s =
      if text_eq s (codes "variable")
      then true
      else if text_eq s (codes "test")
      then true
      else text_eq s (codes "process")

  abbrev pub parse_scope : Tokens → Parsed Text
  parse_scope ts = parse_ident syn.is_name ts >>= λ s r.
      if is_scope s then parsed s r else refused (unknown_scope s)

  -- The `match` of `FixtureArgs::parse`.
  unfoldable pub fixture_arg : Text → FixtureArgs → Tokens → Parsed FixtureArgs
  unfolding parse_serial_expr
  fixture_arg key args ts =
      if text_eq key (codes "requires")
      then behind_eq bracketed_paths ts >>= (λ ps r. parsed (record args { requires = ps }) r)
      else if text_eq key (codes "labels")
      then behind_eq bracketed_paths ts >>= (λ ps r. parsed (record args { labels = ps }) r)
      else if text_eq key (codes "scope")
      then behind_eq parse_scope ts >>= (λ s r. parsed (record args { scope = some s }) r)
      else if text_eq key (codes "name")
      then behind_eq parse_lit_str ts >>= (λ s r. parsed (record args { name = some s }) r)
      else if text_eq key (codes "deref")
      then parsed (record args { deref = true }) ts
      else if text_eq key (codes "serial")
      then or_alone (codes "*", []) (parse_serial_expr syn.is_name) ts
        >>= (λ v r. parsed (record args { serial = some v.0; serial_labels = v.1 }) r)
      else refused (unknown_argument key)

  -- The loop of both, behind a first test for an empty input; `seen` holds the keys so far.
  unfoldable pub args_loop :
      {A : Type 0} → (Text → A → Tokens → Parsed A) → ℕ → A → List Text → Tokens → Parsed A
  unfolding reject_duplicate_key
  args_loop arg zero args seen ts = no_fuel
  args_loop arg (suc fuel) args seen ts = parse_ident syn.is_name ts >>= λ key r.
      reject_duplicate_key key seen r >>= λ seen' r'. arg key args r' >>= λ args' r''. elim r'' [
        | nil ↦ parsed args' nil
        | cons t more ↦ expect_punct b',' (cons t more) >>= λ u behind. elim behind [
          | nil ↦ parsed args' nil
          | cons t' more' ↦ args_loop arg fuel args' seen' (cons t' more')
        ]
      ]

  unfoldable pub parse_args : {A : Type 0} → (Text → A → Tokens → Parsed A) → A → Tokens → Parsed A
  unfolding args_loop size
  parse_args arg args nil = parsed args nil
  parse_args arg args (cons t ts) = args_loop arg (size (cons t ts)) args [] (cons t ts)

  unfoldable pub parse_test_args : Tokens → Parsed TestArgs
  unfolding parse_args test_arg
  parse_test_args ts = parse_args test_arg default_test_args ts

  unfoldable pub parse_fixture_args : Tokens → Parsed FixtureArgs
  unfolding parse_args fixture_arg
  parse_fixture_args ts = parse_args fixture_arg default_fixture_args ts
