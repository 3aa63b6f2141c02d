-- ===== src/Macros/Args/Fixture.antt =====
-- macros/src/lib.rs: each argument of `#[skuld::fixture(..)]` is read as what it says.
use skuld.Prelude.{◌≤◌, ◌≡◌, refl, Bool, true, List, [], ◌∷◌, some, Text, codes, ok, arith}
use skuld.Macros.Tokens.{ident, lit_str, group, Tokens, cons, parsed, size, size_of}
use skuld.Macros.Serial.{parse_serial_expr}
use skuld.Macros.Serial.Tree.{Choice, tokens_choice, names_choice, text_choice, ChoiceNamesLabels}
use skuld.Macros.Serial.Accepted.{parse_serial_expr-tokens, size-tokens_choice}
use skuld.Macros.Args.{
  FixtureArgs, default_fixture_args, Syn, is_scope, fixture_arg, parse_fixture_args,
}
use skuld.Macros.Args.Given.{
  Behind, last, comma, behind, tokens_args, applied, AllGiven, parse_args-applied,
}
use skuld.Macros.Args.Read.{eq_then, behind-NoOr, TakesKeys}

-- An argument of `#[skuld::fixture(..)]`.
pub data FixtureArg : Type 0 where
  requires labels : Tokens → List Tokens → FixtureArg
  scope name : Text → FixtureArg
  deref serial : FixtureArg
  serial_by : Choice → FixtureArg

unfoldable pub fixture_key : FixtureArg → Text
fixture_key (requires ts ps) = codes "requires"
fixture_key (labels ts ps) = codes "labels"
fixture_key (scope s) = codes "scope"
fixture_key (name s) = codes "name"
fixture_key deref = codes "deref"
fixture_key serial = codes "serial"
fixture_key (serial_by c) = codes "serial"

unfoldable pub fixture_value : FixtureArg → Tokens → Tokens
fixture_value (requires ts ps) rest = eq_then (cons (group b'[' ts) rest)
fixture_value (labels ts ps) rest = eq_then (cons (group b'[' ts) rest)
fixture_value (scope s) rest = eq_then (cons (ident s) rest)
fixture_value (name s) rest = eq_then (cons (lit_str s) rest)
fixture_value deref rest = rest
fixture_value serial rest = rest
fixture_value (serial_by c) rest = eq_then (tokens_choice c rest)

unfoldable pub fixture_says : FixtureArg → FixtureArgs → FixtureArgs
fixture_says (requires ts ps) args = record args { requires = ps }
fixture_says (labels ts ps) args = record args { labels = ps }
fixture_says (scope s) args = record args { scope = some s }
fixture_says (name s) args = record args { name = some s }
fixture_says deref args = record args { deref = true }
fixture_says serial args = record args { serial = some (codes "*"); serial_labels = [] }
fixture_says (serial_by c) args = record args {
  serial = some (text_choice c);
  serial_labels = names_choice c [];
}

abbrev pub IsFixtureArg : Syn → FixtureArg → Type 0
IsFixtureArg syn (requires ts ps) = syn.parse_paths ts ≡ ok ps
IsFixtureArg syn (labels ts ps) = syn.parse_paths ts ≡ ok ps
IsFixtureArg syn (scope s) = (syn.is_name s ≡ true) × (is_scope syn s ≡ true)
IsFixtureArg syn (name s) = Unit
IsFixtureArg syn deref = Unit
IsFixtureArg syn serial = Unit
IsFixtureArg syn (serial_by c) = ChoiceNamesLabels syn.is_name c

fixture_value-grows : (a : FixtureArg) (r : Tokens) → size r ≤ size (fixture_value a r)
unfolding fixture_value size size_of
fixture_value-grows (requires ts ps) r = omega arith
fixture_value-grows (labels ts ps) r = omega arith
fixture_value-grows (scope s) r = omega arith
fixture_value-grows (name s) r = omega arith
fixture_value-grows deref r = omega arith
fixture_value-grows serial r = omega arith
fixture_value-grows (serial_by c) r = omega (arith, size-tokens_choice c r)

fixture_arg-serial :
    (syn : Syn) (args : FixtureArgs) (ts r : Tokens) (text : Text) (names : List Text)
    → parse_serial_expr syn.is_name ts ≡ parsed (text, names) r
    → fixture_arg syn (codes "serial") args (eq_then ts)
      ≡ parsed (record args { serial = some text; serial_labels = names }) r
unfolding fixture_arg
fixture_arg-serial syn args ts r text names h = rw h refl

fixture_arg-says :
    (syn : Syn) (a : FixtureArg) (args : FixtureArgs) (b : Behind)
    → IsFixtureArg syn a
    → fixture_arg syn (fixture_key a) args (fixture_value a (behind b))
      ≡ parsed (fixture_says a args) (behind b)
unfolding fixture_arg fixture_key fixture_value fixture_says
fixture_arg-says syn (requires ts ps) args b h = rw h refl
fixture_arg-says syn (labels ts ps) args b h = rw h refl
fixture_arg-says syn (scope s) args b h = rw h.0 (rw h.1 refl)
fixture_arg-says syn (name s) args b h = refl
fixture_arg-says syn deref args b h = refl
fixture_arg-says syn serial args last h = refl
fixture_arg-says syn serial args (comma ts) h = refl
fixture_arg-says syn (serial_by c) args b h =
    fixture_arg-serial syn args (tokens_choice c (behind b)) (behind b) (text_choice c)
      (names_choice c []) (parse_serial_expr-tokens syn.is_name c (behind b) h (behind-NoOr b))

abbrev pub fixture_keys : List Text
fixture_keys =
    codes "requires"
    ∷ codes "labels"
    ∷ codes "scope"
    ∷ codes "name"
    ∷ codes "deref"
    ∷ codes "serial"
    ∷ []

fixture_key-is_name :
    (syn : Syn) → TakesKeys syn fixture_keys → (a : FixtureArg) → syn.is_name (fixture_key a) ≡ true
unfolding fixture_key
fixture_key-is_name syn h (requires ts ps) = h.0
fixture_key-is_name syn h (labels ts ps) = h.1.0
fixture_key-is_name syn h (scope s) = h.1.1.0
fixture_key-is_name syn h (name s) = h.1.1.1.0
fixture_key-is_name syn h deref = h.1.1.1.1.0
fixture_key-is_name syn h serial = h.1.1.1.1.1.0
fixture_key-is_name syn h (serial_by c) = h.1.1.1.1.1.0

-- The arguments of `#[skuld::fixture(..)]`, one or more in any order, with or without a comma at the
-- end, are read as what they say, unless a key stands twice: the first that does is refused. syn is
-- to take the keys as identifiers, a scope is to be one of the three, the names in a filter are to be
-- labels, and paths are to be read as themselves.
pub parse_fixture_args-applied :
    (syn : Syn) (a : FixtureArg) (more : List FixtureArg) (trailing : Bool)
    → TakesKeys syn fixture_keys
    → AllGiven (IsFixtureArg syn) a more
    → parse_fixture_args syn (tokens_args fixture_key fixture_value a more trailing)
      ≡ applied fixture_key fixture_says [] default_fixture_args a more
unfolding parse_fixture_args
parse_fixture_args-applied syn a more trailing keys h =
    parse_args-applied fixture_key fixture_says fixture_value syn (fixture_arg syn)
      (IsFixtureArg syn) (fixture_key-is_name syn keys) fixture_value-grows (fixture_arg-says syn)
      default_fixture_args a more trailing h
