-- ===== src/Label/Print/Words.antt =====
-- What `Label::__new` has checked of a name that it accepts.
use skuld.Prelude.{
  ℕ, ◌≡◌, refl, ap, true, false, [], ◌∷◌, map, Text, codes, All, ok, err, Bool-cases, arith, ◌≢◌,
  inl, inr, ◌⊎◌,
}
use skuld.Label.Name.{
  is_ident_start, is_ident_continue, to_ascii_lowercase, contains_no_ascii_uppercase, bytes_eq_loop,
  bytes_eq, check_continue, validate_label_name, new, is_upper, check_reserved, NamePanic,
  must_be_ident,
}

-- The name is one that `Label::__new` accepts.
abbrev pub IsLabelName : Text → Type 0
IsLabelName n = new n ≡ ok (record { name = n })

abbrev pub Continues : Text → Type 0
Continues = All (λ c. is_ident_continue c ≡ true)

abbrev pub IsLower : Text → Type 0
IsLower = All (λ c. is_upper c ≡ false)

-- What `new` has checked of a name that it accepts.
pub record IsWord (n : Text) : Type 0 where
  pub continues : Continues n
  pub lower : IsLower n
  pub not_true : n ≢ codes "true"
  pub not_false : n ≢ codes "false"

bytes_eq_loop_refl : (s : Text) → bytes_eq_loop s s ≡ true
unfolding bytes_eq_loop
bytes_eq_loop_refl [] = refl
bytes_eq_loop_refl (c ∷ s) = ground (arith, bytes_eq_loop_refl s)

bytes_eq_refl : (s : Text) → bytes_eq s s ≡ true
unfolding bytes_eq
bytes_eq_refl s = ground (arith, bytes_eq_loop_refl s)

check_continue→Continues : (s : Text) → check_continue s ≡ ok tt → Continues s
unfolding check_continue
check_continue→Continues [] h = tt
check_continue→Continues (c ∷ s) h = ground (arith, check_continue→Continues s)

no_uppercase→IsLower : (s : Text) → contains_no_ascii_uppercase s ≡ true → IsLower s
unfolding contains_no_ascii_uppercase
no_uppercase→IsLower [] h = tt
no_uppercase→IsLower (c ∷ s) h = ground (arith, no_uppercase→IsLower s)

start→continue : (c : ℕ) → is_ident_start c ≡ true → is_ident_continue c ≡ true
unfolding is_ident_start is_ident_continue
start→continue c h = ground arith

check_continue-cases :
    (s : Text) → (check_continue s ≡ ok tt) ⊎ ((e : NamePanic) × (check_continue s ≡ err e))
unfolding check_continue
check_continue-cases [] = inl refl
check_continue-cases (c ∷ s) = elim (Bool-cases (is_ident_continue c)) [
  | inl h ↦ rw h (check_continue-cases s)
  | inr h ↦ rw h (inr (must_be_ident, refl))
]

-- `validate_label_name` has passed its three tests.
validated :
    (c : ℕ) (s : Text)
    → validate_label_name (c ∷ s) ≡ ok tt
    → (is_ident_start c ≡ true)
      × (check_continue s ≡ ok tt)
      × (bytes_eq (c ∷ s) (codes "true") ≡ false)
      × (bytes_eq (c ∷ s) (codes "false") ≡ false)
unfolding validate_label_name check_reserved
validated c s h = ground (arith, check_continue-cases s)

new→validated :
    (n : Text)
    → IsLabelName n
    → (validate_label_name n ≡ ok tt) × (contains_no_ascii_uppercase n ≡ true)
unfolding new
new→validated n h = ground arith

-- A name that is accepted begins a word and is one.
pub new→IsWord :
    (c : ℕ) (s : Text) → IsLabelName (c ∷ s) → (is_ident_start c ≡ true) × IsWord (c ∷ s)
new→IsWord c s h =
    let (v, u) = new→validated (c ∷ s) h in
    let (start, rest, t, f) = validated c s v in
    (
      start,
      record {
        continues = (start→continue c start, check_continue→Continues s rest);
        lower = no_uppercase→IsLower (c ∷ s) u;
        not_true = λ e. cc (ap (λ n. bytes_eq n (codes "true")) e, bytes_eq_refl (codes "true"), t);
        not_false =
            λ e. cc (ap (λ n. bytes_eq n (codes "false")) e, bytes_eq_refl (codes "false"), f);
      },
    )

-- An accepted name is lower case already.
pub lower-name : (n : Text) → IsLower n → map to_ascii_lowercase n ≡ n
unfolding to_ascii_lowercase
lower-name [] h = refl
lower-name (c ∷ n) h = ground (arith, lower-name n)

-- The empty name is refused.
pub not-IsLabelName-nil : ¬ IsLabelName []
unfolding new validate_label_name
not-IsLabelName-nil h = cc
