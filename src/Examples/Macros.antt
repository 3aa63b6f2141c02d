-- ===== src/Examples/Macros.antt =====
-- What the macros read, at concrete inputs.
use skuld.Prelude.{◌↔◌, err, false, ◌≡◌, refl, true, Bool, [], ◌∷◌, Text, codes, ok, List}
use skuld.Label.Name.{new, to_ascii_lowercase}
use skuld.Label.Build.{parse_raw_label_expr}
use skuld.Macros.Args.{
  Syn, default_test_args, parse_test_args, default_fixture_args, parse_fixture_args,
}
use skuld.Macros.Args.Given.{tokens_args, applied}
use skuld.Macros.Args.Read.{TestArg, key_of, value_of, says, parse_test_args-applied}
use skuld.Macros.Args.Fixture.{
  FixtureArg, fixture_key, fixture_value, fixture_says, parse_fixture_args-applied,
}
use skuld.Macros.Outer.{Attribute, word, listed, value_str, absorb_outer}
use skuld.Macros.Outer.Merged.{Merged, absorb_outer_iff}
use skuld.Macros.Args.{with_message, ignored}
use skuld.Macros.Tokens.{
  ident, lit_str, refused, expected_ident, duplicate_argument, size, punct, nil, cons, parsed,
}
use skuld.Macros.Serial.{parse_serial_expr}
use skuld.Macros.Serial.Tree.{
  name, not_atom, parens, conj, no_atoms, and_atom, Choice, choice, no_conjs, or_conj,
  tokens_choice, names_choice, meaning_choice, ChoiceNamesLabels,
}
use skuld.Macros.Serial.Meaning.{parse_serial_expr-parse_raw_label_expr}

abbrev any_name : Text → Bool
any_name n = true

-- !(DOCKER | SLOW) & NET
abbrev quiet : Choice
quiet =
    choice
      (conj
        (not_atom (
          parens (
            choice (conj (name (codes "DOCKER")) no_atoms)
              (or_conj (conj (name (codes "SLOW")) no_atoms) no_conjs))))
        (and_atom (name (codes "NET")) no_atoms))
      no_conjs

parse_serial_expr-parse_raw_label_expr_example :
    (text : Text) × (parse_serial_expr any_name (tokens_choice quiet (cons (punct b',') nil))
      ≡ parsed (text, names_choice quiet []) (cons (punct b',') nil))
    × (parse_raw_label_expr text ≡ ok (meaning_choice quiet))
unfolding ChoiceNamesLabels new to_ascii_lowercase
parse_serial_expr-parse_raw_label_expr_example =
    parse_serial_expr-parse_raw_label_expr any_name quiet (cons (punct b',') nil)
      (((((refl, refl), tt), (((refl, refl), tt), tt)), ((refl, refl), tt)), tt) (refl, refl)

-- A syn that takes every word as a name and reads no path.
abbrev no_paths : Syn
no_paths = record {
  is_name = any_name;
  parse_paths = λ ts. err expected_ident;
  parse_path = λ ts. refused expected_ident;
}

parse_test_args-applied_example :
    parse_test_args no_paths (
      tokens_args key_of value_of
        (TestArg.ignore_for (codes "wip"))
        (TestArg.serial_by quiet ∷ TestArg.name (codes "t") ∷ [])
        true)
    ≡ applied key_of says [] default_test_args
        (TestArg.ignore_for (codes "wip"))
        (TestArg.serial_by quiet ∷ TestArg.name (codes "t") ∷ [])
unfolding ChoiceNamesLabels new to_ascii_lowercase
parse_test_args-applied_example =
    parse_test_args-applied no_paths (TestArg.ignore_for (codes "wip"))
      (TestArg.serial_by quiet ∷ TestArg.name (codes "t") ∷ []) true
      (refl, (refl, (refl, (refl, (refl, (refl, (refl, tt)))))))
      (tt, ((((((refl, refl), tt), (((refl, refl), tt), tt)), ((refl, refl), tt)), tt), tt))

-- A second `ignore` is refused.
ignore_twice :
    parse_test_args no_paths (
      tokens_args key_of value_of TestArg.ignore
        (TestArg.serial ∷ TestArg.ignore_for (codes "x") ∷ [])
        false)
    ≡ refused (duplicate_argument (codes "ignore"))
unfolding parse_test_args tokens_args key_of value_of size
ignore_twice = refl

parse_fixture_args-applied_example :
    parse_fixture_args no_paths (
      tokens_args fixture_key fixture_value
        (FixtureArg.scope (codes "process"))
        (FixtureArg.deref ∷ FixtureArg.serial ∷ [])
        false)
    ≡ applied fixture_key fixture_says [] default_fixture_args
        (FixtureArg.scope (codes "process"))
        (FixtureArg.deref ∷ FixtureArg.serial ∷ [])
parse_fixture_args-applied_example =
    parse_fixture_args-applied no_paths (FixtureArg.scope (codes "process"))
      (FixtureArg.deref ∷ FixtureArg.serial ∷ []) false
      (refl, (refl, (refl, (refl, (refl, (refl, tt)))))) ((refl, refl), (tt, tt))

-- #[doc = "x"] #[ignore] #[should_panic(expected = "boom")]
abbrev outside : List Attribute
outside =
    record { path = codes "doc"; meta = value_str (codes "x") }
    ∷ record { path = codes "ignore"; meta = word }
    ∷ record {
      path = codes "should_panic";
      meta =
          listed (
            cons (ident (codes "expected"))
              (cons (punct b'=') (cons (lit_str (codes "boom")) nil)));
    }
    ∷ []

both_taken :
    absorb_outer any_name outside default_test_args
    ≡ ok (record default_test_args { ignore = ignored; should_panic = with_message (codes "boom") })
unfolding absorb_outer
both_taken = refl

absorb_outer_iff_example :
    (absorb_outer any_name outside default_test_args
      ≡ ok (record default_test_args {
        ignore = ignored;
        should_panic = with_message (codes "boom");
      }))
    ↔ Merged any_name outside default_test_args ignored (with_message (codes "boom"))
absorb_outer_iff_example =
    absorb_outer_iff any_name outside default_test_args ignored (with_message (codes "boom"))
