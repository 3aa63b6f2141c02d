-- ===== src/Nextest/Emit.antt =====
-- cargo-skuld/src/emit.rs: the filters of a nextest group, on the bytes of the names.
use skuld.Prelude.{
  ℕ, ◌≡◌, refl, ap, ◌∙◌, Bool, ◌||◌, List, [], ◌∷◌, ◌++◌, Option, none, some, Text, codes, ◌==◌,
  if◌then◌else◌, arith, append_assoc, ==_refl, strip_prefix,
}

-- `escape_nextest_name`.
unfoldable pub escape_char : ℕ → Text
escape_char c =
    if c == 10
    then codes "\\n"
    else if c == 13
    then codes "\\r"
    else if c == 9
    then codes "\\t"
    else if c == b'\\'
    then codes "\\\\"
    else if c == b'/'
    then codes "\\/"
    else if c == b')'
    then codes "\\)"
    else if c == b','
    then codes "\\,"
    else c ∷ []

unfoldable pub escape_nextest_name : Text → Text
unfolding escape_char
escape_nextest_name [] = []
escape_nextest_name (c ∷ s) = escape_char c ++ escape_nextest_name s

-- The clause of a member.
unfoldable pub member_filter : Text × Text → Text
member_filter (binary_id, name) =
    codes "(binary_id(="
    ++ escape_nextest_name binary_id
    ++ codes ") and test(="
    ++ escape_nextest_name name
    ++ codes "))"

-- The clauses, joined by ` or `.
unfoldable pub filter_for_group : List (Text × Text) → Text
unfolding member_filter
filter_for_group [] = []
filter_for_group (m ∷ []) = member_filter m
filter_for_group (m ∷ n ∷ ms) = member_filter m ++ codes " or " ++ filter_for_group (n ∷ ms)

-- The character behind a backslash in nextest's documented escapes.
abbrev pub escaped : ℕ → Option ℕ
escaped c =
    if c == b'n'
    then some 10
    else if c == b'r'
    then some 13
    else if c == b't'
    then some 9
    else if c == b'\\'
    then some b'\\'
    else if c == b'/'
    then some b'/'
    else if c == b')'
    then some b')'
    else if c == b','
    then some b','
    else none

-- What stands in a matcher only behind a backslash.
abbrev pub needs_escape : ℕ → Bool
needs_escape c = c == 10 || c == 13 || c == 9 || c == b'/' || c == b','

-- A reader of an `=` matcher, in the escapes that the documentation of `escape_nextest_name` lists: the
-- name up to the first `)` that no backslash escapes, with the text behind it. It refuses any other of
-- those characters that no backslash escapes.
abbrev pub read_matcher : Text → Option (Text × Text)
read_matcher [] = none
read_matcher (c ∷ []) = if c == b')' then some ([], []) else none
read_matcher (c ∷ d ∷ s) =
    let plain = read_matcher (d ∷ s) in
    let behind = read_matcher s in
    if c == b')'
    then some ([], d ∷ s)
    else if c == b'\\'
    then elim (escaped d) [
      | none ↦ none
      | some x ↦ elim behind [ none ↦ none | some p ↦ some (x ∷ p.0, p.1) ]
    ]
    else if needs_escape c
    then none
    else elim plain [ none ↦ none | some p ↦ some (c ∷ p.0, p.1) ]

-- A character put before what the reader finds.
abbrev pub read_on : ℕ → Option (Text × Text) → Option (Text × Text)
read_on c none = none
read_on c (some p) = some (c ∷ p.0, p.1)

read_matcher-escape_char :
    (c d : ℕ) (s : Text) → read_matcher (escape_char c ++ d ∷ s) ≡ read_on c (read_matcher (d ∷ s))
unfolding escape_char
read_matcher-escape_char c d s = ground arith

-- The reader of a text that does not end.
read_matcher-escape_char_any :
    (c : ℕ) (s t : Text) (d : ℕ)
    → read_matcher (escape_char c ++ (s ++ d ∷ t)) ≡ read_on c (read_matcher (s ++ d ∷ t))
read_matcher-escape_char_any c [] t d = read_matcher-escape_char c d t
read_matcher-escape_char_any c (x ∷ s) t d = read_matcher-escape_char c x (s ++ d ∷ t)

-- Whatever the name, the reader finds exactly it, and the text behind the parenthesis.
read_matcher-escape_nextest_name :
    (name rest : Text) → read_matcher (escape_nextest_name name ++ b')' ∷ rest) ≡ some (name, rest)
unfolding escape_nextest_name
read_matcher-escape_nextest_name [] [] = refl
read_matcher-escape_nextest_name [] (c ∷ rest) = refl
read_matcher-escape_nextest_name (c ∷ name) rest =
    rw (append_assoc (escape_char c) (escape_nextest_name name) (b')' ∷ rest)) (
      read_matcher-escape_char_any c (escape_nextest_name name) rest b')'
      ∙ ap (read_on c) (read_matcher-escape_nextest_name name rest))

strip_prefix-append : (s t : Text) → strip_prefix s (s ++ t) ≡ some t
strip_prefix-append [] t = refl
strip_prefix-append (c ∷ s) t = rw (==_refl c) (strip_prefix-append s t)

abbrev pub and_then {ℓ ℓ'} : {A : Type ℓ} {B : Type ℓ'} → Option A → (A → Option B) → Option B
and_then none f = none
and_then (some x) f = f x

-- A reader of the clause `(binary_id(=<id>) and test(=<name>))`: the two names, with the text behind.
abbrev pub read_member : Text → Option ((Text × Text) × Text)
read_member s = and_then (strip_prefix (codes "(binary_id(=") s) (λ t.
    and_then (read_matcher t) (λ id. and_then (strip_prefix (codes " and test(=") id.1) (λ u.
      and_then (read_matcher u) (λ name.
        and_then (strip_prefix (codes ")") name.1) (λ rest. some ((id.0, name.0), rest))))))

-- A member's clause, before any text, is read as exactly that member.
pub read_member-member_filter :
    (m : Text × Text) (rest : Text) → read_member (member_filter m ++ rest) ≡ some (m, rest)
unfolding member_filter
read_member-member_filter (binary_id, name) rest =
    simp (append_assoc, read_matcher-escape_nextest_name)
