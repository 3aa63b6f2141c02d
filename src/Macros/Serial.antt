-- ===== src/Macros/Serial.antt =====
-- macros/src/lib.rs, `parse_serial_expr`: the filter behind `serial = `, from Rust's tokens to the text
-- that the harness reads. `labels` are the identifiers that the macro makes the compiler resolve.
pub mod Tree
pub mod Accepted
pub mod Meaning
use skuld.Prelude.{ℕ, zero, suc, Bool, List, [], ◌∷◌, ◌++◌, Option, none, some, Text, codes}
use skuld.Macros.Tokens.{
  Token, Tokens, nil, cons, Parsed, parsed, refused, no_fuel, ◌>>=◌, unexpected_token, after_punct,
  after_group, parse_ident, size,
}

-- The text that is written for the tokens, and the labels so far.
abbrev pub Written : Type 0
Written = Text × List Text

abbrev pub Reader : Type 0
Reader = List Text → Tokens → Parsed Written

-- `while input.peek(..)`, with the text of the operator.
unfoldable pub serial_loop : ℕ → ℕ → Text → Reader → Text → Reader
serial_loop zero sep sign item left labels ts = no_fuel
serial_loop (suc fuel) sep sign item left labels ts = elim (after_punct sep ts) [
  | none ↦ parsed (left, labels) ts
  | some rest ↦ item labels rest >>= λ right ts'.
      serial_loop fuel sep sign item (left ++ (sign ++ right.0)) right.1 ts'
]

unfoldable pub parse_serial_and : Reader → Reader
unfolding serial_loop size
parse_serial_and item labels ts = item labels ts >>= λ left ts'.
    serial_loop (suc (size ts')) b'&' (codes " & ") item left.0 left.1 ts'

unfoldable pub parse_serial_or : Reader → Reader
unfolding serial_loop size parse_serial_and
parse_serial_or item labels ts = parse_serial_and item labels ts >>= λ left ts'.
    serial_loop (suc (size ts')) b'|' (codes " | ") (parse_serial_and item) left.0 left.1 ts'

-- syn refuses what is left over in parentheses.
abbrev pub close_group : Tokens → Parsed Written → Parsed Written
close_group rest (parsed inner nil) = parsed (codes "(" ++ (inner.0 ++ codes ")"), inner.1) rest
close_group rest (parsed inner (cons t ts)) = refused unexpected_token
close_group rest (refused e) = refused e
close_group rest no_fuel = no_fuel

module _ (is_name : Text → Bool) where
  unfoldable pub parse_serial_primary : Reader → Reader
  unfolding parse_serial_or
  parse_serial_primary item labels ts = elim (after_group b'(' ts) [
    | some (content, rest) ↦ close_group rest (parse_serial_or item labels content)
    | none ↦ parse_ident is_name ts >>= λ name ts'. parsed (name, labels ++ name ∷ []) ts'
  ]

  -- A unit of fuel for each `!` and each pair of parentheses.
  unfoldable pub parse_serial_not : ℕ → Reader
  unfolding parse_serial_primary
  parse_serial_not zero labels ts = no_fuel
  parse_serial_not (suc fuel) labels ts = elim (after_punct b'!' ts) [
    | some rest ↦
        parse_serial_not fuel labels rest >>= λ inner ts'. parsed (b'!' ∷ inner.0, inner.1) ts'
    | none ↦ parse_serial_primary (parse_serial_not fuel) labels ts
  ]

  unfoldable pub parse_serial_expr : Tokens → Parsed Written
  unfolding parse_serial_or parse_serial_not size
  parse_serial_expr ts = parse_serial_or (parse_serial_not (suc (size ts))) [] ts
