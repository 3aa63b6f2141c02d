-- ===== src/Macros/Args/Read.antt =====
-- macros/src/lib.rs: each argument of the two macros is read as what it says.
use skuld.Prelude.{◌≤◌, ◌≡◌, refl, Bool, true, List, [], ◌∷◌, none, some, Text, codes, ok, arith}
use skuld.Macros.Tokens.{
  punct, lit_str, group, Tokens, nil, cons, parsed, size, size_of, after_punct,
}
use skuld.Macros.Serial.{parse_serial_expr}
use skuld.Macros.Serial.Tree.{Choice, tokens_choice, names_choice, text_choice, ChoiceNamesLabels}
use skuld.Macros.Serial.Accepted.{NoOr, parse_serial_expr-tokens, size-tokens_choice}
use skuld.Macros.Args.{
  TestArgs, default_test_args, ignored, with_reason, panics, with_message, Syn, test_arg,
  parse_test_args,
}
use skuld.Macros.Args.Given.{
  Behind, last, comma, behind, tokens_args, applied, AllGiven, parse_args-applied,
}

-- An argument of `#[skuld::test(..)]`; paths come with the tokens that syn reads them from.
pub data TestArg : Type 0 where
  requires labels : Tokens → List Tokens → TestArg
  name : Text → TestArg
  ignore should_panic : TestArg
  ignore_for should_panic_with : Text → TestArg
  serial : TestArg
  serial_by : Choice → TestArg
  runtime : Tokens → TestArg

unfoldable pub key_of : TestArg → Text
key_of (requires ts ps) = codes "requires"
key_of (labels ts ps) = codes "labels"
key_of (name s) = codes "name"
key_of ignore = codes "ignore"
key_of (ignore_for s) = codes "ignore"
key_of serial = codes "serial"
key_of (serial_by c) = codes "serial"
key_of (runtime p) = codes "runtime"
key_of should_panic = codes "should_panic"
key_of (should_panic_with s) = codes "should_panic"

abbrev pub eq_then : Tokens → Tokens
eq_then ts = cons (punct b'=') ts

-- Tokens in front of others.
unfoldable pub in_front : Tokens → Tokens → Tokens
in_front nil rest = rest
in_front (cons t ts) rest = cons t (in_front ts rest)

unfoldable pub value_of : TestArg → Tokens → Tokens
unfolding in_front
value_of (requires ts ps) rest = eq_then (cons (group b'[' ts) rest)
value_of (labels ts ps) rest = eq_then (cons (group b'[' ts) rest)
value_of (name s) rest = eq_then (cons (lit_str s) rest)
value_of ignore rest = rest
value_of (ignore_for s) rest = eq_then (cons (lit_str s) rest)
value_of serial rest = rest
value_of (serial_by c) rest = eq_then (tokens_choice c rest)
value_of (runtime p) rest = eq_then (in_front p rest)
value_of should_panic rest = rest
value_of (should_panic_with s) rest = eq_then (cons (lit_str s) rest)

unfoldable pub says : TestArg → TestArgs → TestArgs
says (requires ts ps) args = record args { requires = ps }
says (labels ts ps) args = record args { labels = some ps }
says (name s) args = record args { name = some s }
says ignore args = record args { ignore = ignored }
says (ignore_for s) args = record args { ignore = with_reason s }
says serial args = record args { serial = some (codes "*"); serial_labels = [] }
says (serial_by c) args = record args {
  serial = some (text_choice c);
  serial_labels = names_choice c [];
}
says (runtime p) args = record args { runtime = some p }
says should_panic args = record args { should_panic = panics }
says (should_panic_with s) args = record args { should_panic = with_message s }

-- What a path stands in front of.
abbrev pub ReadsPath : Syn → Tokens → Type 0
ReadsPath syn p = (b : Behind) → syn.parse_path (in_front p (behind b)) ≡ parsed p (behind b)

abbrev pub IsTestArg : Syn → TestArg → Type 0
IsTestArg syn (requires ts ps) = syn.parse_paths ts ≡ ok ps
IsTestArg syn (labels ts ps) = syn.parse_paths ts ≡ ok ps
IsTestArg syn (name s) = Unit
IsTestArg syn ignore = Unit
IsTestArg syn (ignore_for s) = Unit
IsTestArg syn serial = Unit
IsTestArg syn (serial_by c) = ChoiceNamesLabels syn.is_name c
IsTestArg syn (runtime p) = ReadsPath syn p
IsTestArg syn should_panic = Unit
IsTestArg syn (should_panic_with s) = Unit

pub size-in_front : (p r : Tokens) → size r ≤ size (in_front p r)
unfolding in_front size
size-in_front nil r = omega arith
size-in_front (cons t ts) r = omega (arith, size-in_front ts r)

value_of-grows : (a : TestArg) (r : Tokens) → size r ≤ size (value_of a r)
unfolding value_of size size_of
value_of-grows (requires ts ps) r = omega arith
value_of-grows (labels ts ps) r = omega arith
value_of-grows (name s) r = omega arith
value_of-grows ignore r = omega arith
value_of-grows (ignore_for s) r = omega arith
value_of-grows serial r = omega arith
value_of-grows (serial_by c) r = omega (arith, size-tokens_choice c r)
value_of-grows (runtime p) r = omega (arith, size-in_front p r)
value_of-grows should_panic r = omega arith
value_of-grows (should_panic_with s) r = omega arith

pub behind-NoOr : (b : Behind) → NoOr (behind b)
behind-NoOr last = (refl, refl)
behind-NoOr (comma ts) = (refl, refl)

module _ (syn : Syn) where
  test_arg-serial :
      (args : TestArgs) (ts r : Tokens) (text : Text) (names : List Text)
      → parse_serial_expr syn.is_name ts ≡ parsed (text, names) r
      → test_arg syn (codes "serial") args (eq_then ts)
        ≡ parsed (record args { serial = some text; serial_labels = names }) r
  unfolding test_arg
  test_arg-serial args ts r text names h = rw h refl

  alone : (b : Behind) → after_punct b'=' (behind b) ≡ none
  alone last = refl
  alone (comma ts) = refl

  test_arg-says :
      (a : TestArg) (args : TestArgs) (b : Behind)
      → IsTestArg syn a
      → test_arg syn (key_of a) args (value_of a (behind b)) ≡ parsed (says a args) (behind b)
  unfolding test_arg key_of value_of says
  test_arg-says (requires ts ps) args b h = rw h refl
  test_arg-says (labels ts ps) args b h = rw h refl
  test_arg-says (name s) args b h = refl
  test_arg-says ignore args last h = refl
  test_arg-says ignore args (comma ts) h = refl
  test_arg-says (ignore_for s) args b h = refl
  test_arg-says serial args last h = refl
  test_arg-says serial args (comma ts) h = refl
  test_arg-says (serial_by c) args b h =
      test_arg-serial args (tokens_choice c (behind b)) (behind b) (text_choice c)
        (names_choice c []) (parse_serial_expr-tokens syn.is_name c (behind b) h (behind-NoOr b))
  test_arg-says (runtime p) args b h = rw (h b) refl
  test_arg-says should_panic args last h = refl
  test_arg-says should_panic args (comma ts) h = refl
  test_arg-says (should_panic_with s) args b h = refl

-- The keys of the macro are identifiers.
abbrev pub TakesKeys : Syn → List Text → Type 0
TakesKeys syn [] = Unit
TakesKeys syn (k ∷ ks) = (syn.is_name k ≡ true) × TakesKeys syn ks

abbrev pub test_keys : List Text
test_keys =
    codes "requires"
    ∷ codes "labels"
    ∷ codes "name"
    ∷ codes "ignore"
    ∷ codes "serial"
    ∷ codes "runtime"
    ∷ codes "should_panic"
    ∷ []

test_key-is_name :
    (syn : Syn) → TakesKeys syn test_keys → (a : TestArg) → syn.is_name (key_of a) ≡ true
unfolding key_of
test_key-is_name syn h (requires ts ps) = h.0
test_key-is_name syn h (labels ts ps) = h.1.0
test_key-is_name syn h (name s) = h.1.1.0
test_key-is_name syn h ignore = h.1.1.1.0
test_key-is_name syn h (ignore_for s) = h.1.1.1.0
test_key-is_name syn h serial = h.1.1.1.1.0
test_key-is_name syn h (serial_by c) = h.1.1.1.1.0
test_key-is_name syn h (runtime p) = h.1.1.1.1.1.0
test_key-is_name syn h should_panic = h.1.1.1.1.1.1.0
test_key-is_name syn h (should_panic_with s) = h.1.1.1.1.1.1.0

-- The arguments of `#[skuld::test(..)]`, one or more in any order, with or without a comma at the end, are
-- read as what they say, unless a key stands twice: the first that does is refused. syn is to take
-- the keys as identifiers, the names in a filter are to be labels, and paths are to be read as
-- themselves.
pub parse_test_args-applied :
    (syn : Syn) (a : TestArg) (more : List TestArg) (trailing : Bool)
    → TakesKeys syn test_keys
    → AllGiven (IsTestArg syn) a more
    → parse_test_args syn (tokens_args key_of value_of a more trailing)
      ≡ applied key_of says [] default_test_args a more
unfolding parse_test_args
parse_test_args-applied syn a more trailing keys h =
    parse_args-applied key_of says value_of syn (test_arg syn) (IsTestArg syn)
      (test_key-is_name syn keys) value_of-grows (test_arg-says syn) default_test_args a more
      trailing h
