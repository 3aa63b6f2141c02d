-- ===== src/Label/Grammar.antt =====
-- src/label.pest: the filter grammar, as the recursive descent that its rules describe.
-- Between the parts of a rule that is not atomic (`@`), pest skips WHITESPACE, and a repetition
-- that fails is undone. A rule that matches gives a pair: its rule, its text (kept for tokens
-- only, where the source reads it) and the pairs inside.
use skuld.Prelude.{
  ℕ, zero, suc, Bool, true, false, ◌||◌, [], ◌∷◌, ◌==◌, if◌then◌else◌, length, Option, none, some,
  Text, codes,
}
use skuld.Label.Name.{is_ident_start, is_ident_continue, to_ascii_lowercase}

pub data Rule : Type 0 where
  input expr or_expr and_expr not_expr neg primary bool_lit label eoi : Rule

mutual
  pub data Pair : Type 0 where
    pair : Rule → Text → Pairs → Pair

  pub data Pairs : Type 0 where
    nil : Pairs
    cons : Pair → Pairs → Pairs

-- `out_of_fuel` belongs to the model only.
pub data Parse (A : Type 0) : Type 0 where
  matched : A → Text → Parse A
  failed out_of_fuel : Parse A

-- What follows a match.
abbrev pub and_then : {A B : Type 0} → Parse A → (A → Text → Parse B) → Parse B
and_then (matched a rest) k = k a rest
and_then failed k = failed
and_then out_of_fuel k = out_of_fuel

-- Ordered choice.
abbrev pub or_else : {A : Type 0} → Parse A → Parse A → Parse A
or_else (matched a rest) q = matched a rest
or_else failed q = q
or_else out_of_fuel q = out_of_fuel

unfoldable pub is_whitespace : ℕ → Bool
is_whitespace c = c == b' ' || c == b'\t' || c == b'\r'

-- WHITESPACE*
unfoldable pub skip : Text → Text
unfolding is_whitespace
skip [] = []
skip (c ∷ s) = if is_whitespace c then skip s else c ∷ s

-- A literal of one byte: what follows it.
abbrev pub literal : ℕ → Text → Option Text
literal c [] = none
literal c (d ∷ s) = if d == c then some s else none

-- (ASCII_ALPHANUMERIC | "_")*
unfoldable pub ident_rest : Text → Text × Text
unfolding is_ident_continue
ident_rest [] = ([], [])
ident_rest (c ∷ s) =
    let (word, rest) = ident_rest s in if is_ident_continue c then (c ∷ word, rest) else ([], c ∷ s)

unfoldable pub parse_label : Text → Parse Pair
unfolding ident_rest is_ident_start
parse_label [] = failed
parse_label (c ∷ s) =
    let (word, rest) = ident_rest s in
    if is_ident_start c then matched (pair label (c ∷ word) nil) rest else failed

-- pest's `^"..."`: the text matched, in any case, and what follows it.
unfoldable pub insensitive : Text → Text → Option (Text × Text)
unfolding to_ascii_lowercase
insensitive [] s = some ([], s)
insensitive (p ∷ ps) [] = none
insensitive (p ∷ ps) (c ∷ s) =
    let tail = insensitive ps s in
    if to_ascii_lowercase c == p
    then elim tail [ none ↦ none | some (word, rest) ↦ some (c ∷ word, rest) ]
    else none

-- !(ASCII_ALPHANUMERIC | "_")
abbrev pub at_word_end : Text → Bool
at_word_end [] = true
at_word_end (c ∷ s) = if is_ident_continue c then false else true

abbrev pub bool_token : Option (Text × Text) → Parse Pair
bool_token none = failed
bool_token (some (word, rest)) =
    if at_word_end rest then matched (pair bool_lit word nil) rest else failed

unfoldable pub parse_bool_lit : Text → Parse Pair
parse_bool_lit s = elim (insensitive (codes "true") s) [
  | some w ↦ bool_token (some w)
  | none ↦ bool_token (insensitive (codes "false") s)
]

-- One rule around the pair of another.
abbrev pub wrap : Rule → Parse Pair → Parse Pair
wrap r p = and_then p (λ q rest. matched (pair r [] (cons q nil)) rest)

-- (sep ~ item)* behind an item, with the skips: `skip ~ sep ~ skip ~ item`, undone if it fails.
unfoldable pub repeat : ℕ → ℕ → (Text → Parse Pair) → Text → Parse Pairs
repeat zero sep item s = out_of_fuel
repeat (suc f) sep item s = elim (literal sep (skip s)) [
  | none ↦ matched nil s
  | some r ↦ elim (item (skip r)) [
    | failed ↦ matched nil s
    | out_of_fuel ↦ out_of_fuel
    | matched q rest ↦ and_then (repeat f sep item rest) (λ qs rest'. matched (cons q qs) rest')
  ]
]

-- item ~ (sep ~ item)*; the skip before the repetition stays skipped if it matches nothing.
unfoldable pub separated : Rule → ℕ → (Text → Parse Pair) → Text → Parse Pair
separated r sep item s = and_then (item s) (λ q rest.
    and_then (repeat (suc (length rest)) sep item (skip rest))
      (λ qs rest'. matched (pair r [] (cons q qs)) rest'))

-- `expr`, `or_expr` and `and_expr` over a parser of `not_expr`.
unfoldable pub parse_expr : (Text → Parse Pair) → Text → Parse Pair
parse_expr item s = wrap expr (separated or_expr b'|' (separated and_expr b'&' item) s)

-- "(" ~ expr ~ ")"
unfoldable pub parse_group : (Text → Parse Pair) → Text → Parse Pair
parse_group item s = elim (literal b'(' s) [
  | none ↦ failed
  | some r ↦
      and_then (parse_expr item (skip r))
        (λ q rest. elim (literal b')' (skip rest)) [ none ↦ failed | some rest' ↦ matched q rest' ])
]

unfoldable pub parse_primary : (Text → Parse Pair) → Text → Parse Pair
parse_primary item s =
    wrap primary (or_else (parse_group item s) (or_else (parse_bool_lit s) (parse_label s)))

-- `not_expr = { neg | primary }` and `neg = { "!" ~ not_expr }`. A unit of fuel for each nesting.
unfoldable pub parse_not_expr : ℕ → Text → Parse Pair
parse_not_expr zero s = out_of_fuel
parse_not_expr (suc f) s = wrap not_expr (
    or_else
      (elim (literal b'!' s) [ none ↦ failed | some r ↦ wrap neg (parse_not_expr f (skip r)) ])
      (parse_primary (parse_not_expr f) s))

-- `input = { SOI ~ expr ~ EOI }`.
unfoldable pub parse_input : Text → Parse Pair
parse_input s = and_then (parse_expr (parse_not_expr (suc (length s))) (skip s)) (λ q rest.
    elim (skip rest) [
      | [] ↦ matched (pair input [] (cons q (cons (pair eoi [] nil) nil))) []
      | c ∷ r ↦ failed
    ])
