-- ===== src/Label/Name.antt =====
-- src/label.rs, `Label::__new` and what it calls: which texts may name a label.
use skuld.Prelude.{
  ℕ, ◌+◌, Bool, true, false, ◌&&◌, ◌||◌, List, [], ◌∷◌, leb, ◌==◌, if◌then◌else◌, length, Text,
  codes, Result, ok, err, ◌>>=◌,
}

-- The byte classes: `b'a'..=b'z'`, `b'A'..=b'Z'`, `b'0'..=b'9'`.
abbrev pub is_lower : ℕ → Bool
is_lower b = leb b'a' b && leb b b'z'

abbrev pub is_upper : ℕ → Bool
is_upper b = leb b'A' b && leb b b'Z'

abbrev pub is_digit : ℕ → Bool
is_digit b = leb b'0' b && leb b b'9'

-- `[a-zA-Z_]` and `[a-zA-Z0-9_]`.
unfoldable pub is_ident_start : ℕ → Bool
is_ident_start b = is_lower b || is_upper b || b == b'_'

unfoldable pub is_ident_continue : ℕ → Bool
is_ident_continue b = is_lower b || is_upper b || is_digit b || b == b'_'

-- `u8::to_ascii_lowercase`.
unfoldable pub to_ascii_lowercase : ℕ → ℕ
to_ascii_lowercase b = if is_upper b then b + 32 else b

unfoldable pub contains_no_ascii_uppercase : Text → Bool
contains_no_ascii_uppercase [] = true
contains_no_ascii_uppercase (b ∷ s) = if is_upper b then false else contains_no_ascii_uppercase s

abbrev pub reserved_label_names : List Text
reserved_label_names = codes "true" ∷ codes "false" ∷ []

-- The loop of `bytes_eq`, which runs once the lengths agree.
unfoldable pub bytes_eq_loop : Text → Text → Bool
bytes_eq_loop [] b = true
bytes_eq_loop (x ∷ a) [] = true
bytes_eq_loop (x ∷ a) (y ∷ b) = if x == y then bytes_eq_loop a b else false

unfoldable pub bytes_eq : Text → Text → Bool
unfolding bytes_eq_loop
bytes_eq a b = if length a == length b then bytes_eq_loop a b else false

-- The messages that `validate_label_name` and `Label::__new` panic with.
pub data NamePanic : Type 0 where
  must_not_be_empty must_start_with_letter must_be_ident reserved not_lowercase : NamePanic

unfoldable pub check_continue : Text → Result NamePanic (Unit {0})
check_continue [] = ok tt
check_continue (b ∷ s) = if is_ident_continue b then check_continue s else err must_be_ident

unfoldable pub check_reserved : List Text → Text → Result NamePanic (Unit {0})
check_reserved [] name = ok tt
check_reserved (r ∷ rs) name = if bytes_eq name r then err reserved else check_reserved rs name

unfoldable pub validate_label_name : Text → Result NamePanic (Unit {0})
unfolding is_ident_start is_ident_continue check_continue check_reserved bytes_eq
validate_label_name [] = err must_not_be_empty
validate_label_name (first ∷ s) =
    if is_ident_start first
    then check_continue s >>= (λ _. check_reserved reserved_label_names (first ∷ s))
    else err must_start_with_letter

pub record Label : Type 0 where
  pub name : Text

-- `Label::__new`.
unfoldable pub new : Text → Result NamePanic Label
unfolding validate_label_name contains_no_ascii_uppercase
new name = validate_label_name name >>= (λ _.
    if contains_no_ascii_uppercase name then ok (record { name = name }) else err not_lowercase)
