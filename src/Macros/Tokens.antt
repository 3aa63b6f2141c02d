-- ===== src/Macros/Tokens.antt =====
-- macros/src/lib.rs: the token streams that the macros parse, and the parsers of syn that they call.
use skuld.Prelude.{ℕ, suc, ◌+◌, Bool, Option, none, some, Text, ◌==◌, if◌then◌else◌}

mutual
  -- A literal is a string or another; a group is in the delimiter that opens it.
  pub data Token : Type 0 where
    ident : Text → Token
    punct : ℕ → Token
    lit_str : Text → Token
    lit_other : Token
    group : ℕ → Tokens → Token

  pub data Tokens : Type 0 where
    nil : Tokens
    cons : Token → Tokens → Tokens

-- `syn::Error`s; `no_fuel` belongs to the model only.
pub data SynError : Type 0 where
  expected_ident expected_punct expected_lit expected_group unexpected_token : SynError
  duplicate_argument unknown_argument unknown_scope duplicate_attribute conflicting :
      Text → SynError
  attribute_form : SynError

pub data Parsed (A : Type 0) : Type 0 where
  parsed : A → Tokens → Parsed A
  refused : SynError → Parsed A
  no_fuel : Parsed A

infixl 5 ◌>>=◌
abbrev pub ◌>>=◌ : {A B : Type 0} → Parsed A → (A → Tokens → Parsed B) → Parsed B
parsed a ts >>= k = k a ts
refused e >>= k = refused e
no_fuel >>= k = no_fuel

-- `input.peek(Token![c])` followed by its parse: what stands behind.
abbrev pub after_punct : ℕ → Tokens → Option Tokens
after_punct c (cons (punct d) ts) = if d == c then some ts else none
after_punct c (cons (ident n) ts) = none
after_punct c (cons (lit_str s) ts) = none
after_punct c (cons lit_other ts) = none
after_punct c (cons (group d inner) ts) = none
after_punct c nil = none

-- `Token![c]`'s parse.
abbrev pub expect_punct : ℕ → Tokens → Parsed (Unit {0})
expect_punct c ts = elim (after_punct c ts) [ none ↦ refused expected_punct | some r ↦ parsed tt r ]

-- `input.parse::<Ident>()`; `is_name` is whether syn takes the word as an identifier.
abbrev pub parse_ident : (Text → Bool) → Tokens → Parsed Text
parse_ident is_name (cons (ident n) ts) = if is_name n then parsed n ts else refused expected_ident
parse_ident is_name (cons (punct d) ts) = refused expected_ident
parse_ident is_name (cons (lit_str s) ts) = refused expected_ident
parse_ident is_name (cons lit_other ts) = refused expected_ident
parse_ident is_name (cons (group d inner) ts) = refused expected_ident
parse_ident is_name nil = refused expected_ident

-- A group in this delimiter, with what stands in it.
abbrev pub after_group : ℕ → Tokens → Option (Tokens × Tokens)
after_group c (cons (group d inner) ts) = if d == c then some (inner, ts) else none
after_group c (cons (ident n) ts) = none
after_group c (cons (punct d) ts) = none
after_group c (cons (lit_str s) ts) = none
after_group c (cons lit_other ts) = none
after_group c nil = none

-- The tokens, those in groups counted.
unfoldable mutual
  pub size : Tokens → ℕ
  size nil = 0
  size (cons t ts) = suc (size_of t + size ts)

  pub size_of : Token → ℕ
  size_of (ident n) = 0
  size_of (punct c) = 0
  size_of (lit_str s) = 0
  size_of lit_other = 0
  size_of (group c inner) = size inner
