-- ===== src/Label/Print/Tokens.antt =====
-- How the grammar's tokens read a label's name and the two constants.
use skuld.Prelude.{
  none, ℕ, suc, ◌≡◌, refl, ap₂, true, false, [], ◌∷◌, ◌++◌, Option, none, some, Text, codes, All,
  ◌==◌, Bool-cases, arith, ◌≢◌, inl, inr, sym, ◌∙◌, map, ==_iff,
}
use skuld.Label.Name.{is_lower, is_ident_start, is_ident_continue, to_ascii_lowercase}
use skuld.Label.Grammar.{
  literal, Parse, parse_primary, parse_group, Pair, pair, nil, cons, matched, failed, primary,
  label, bool_lit, ident_rest, insensitive, at_word_end, bool_token, parse_bool_lit, parse_label,
  parse_not_expr, or_else, not_expr,
}
use skuld.Label.Print.Words.{IsLabelName, Continues, new→IsWord, lower-name}

ident_rest-word :
    (n rest : Text) → Continues n → at_word_end rest ≡ true → ident_rest (n ++ rest) ≡ (n, rest)
unfolding ident_rest
ident_rest-word [] [] h w = refl
ident_rest-word [] (c ∷ rest) h w = ground arith
ident_rest-word (c ∷ n) rest h w = ground (arith, ident_rest-word n rest h.1 w)

-- A keyword that does not match here, or matches a longer word's beginning only.
abbrev Blocked : Option (Text × Text) → Type 0
Blocked none = Unit
Blocked (some (word, rest)) = at_word_end rest ≡ false

Blocked-cons :
    (c : ℕ) (o : Option (Text × Text))
    → Blocked o
    → Blocked (elim o [ none ↦ none | some (word, rest) ↦ some (c ∷ word, rest) ])
Blocked-cons c none h = tt
Blocked-cons c (some (word, rest)) h = h

end_no_letter :
    (c p : ℕ)
    → is_ident_continue c ≡ false
    → is_lower p ≡ true
    → (to_ascii_lowercase c == p) ≡ false
unfolding to_ascii_lowercase is_ident_continue
end_no_letter c p u h = ground arith

-- A keyword stands at the front of a word only if the word is the keyword, in whatever case.
insensitive-Blocked :
    (p n rest : Text)
    → All (λ c. is_lower c ≡ true) p
    → Continues n
    → at_word_end rest ≡ true
    → map to_ascii_lowercase n ≢ p
    → Blocked (insensitive p (n ++ rest))
unfolding insensitive
insensitive-Blocked [] [] rest hp hn w ne = absurd (ne refl)
insensitive-Blocked [] (c ∷ n) rest hp hn w ne = ground arith
insensitive-Blocked (p ∷ ps) [] [] hp hn w ne = tt
insensitive-Blocked (p ∷ ps) [] (c ∷ rest) hp hn w ne = ground (arith, end_no_letter c p)
insensitive-Blocked (p ∷ ps) (c ∷ n) rest hp hn w ne =
    elim (Bool-cases (to_ascii_lowercase c == p)) [
      | inl h ↦ rw h (
          Blocked-cons c (insensitive ps (n ++ rest)) (
            insensitive-Blocked ps n rest hp.1 hn.1 w
              (λ e. ne (ap₂ ◌∷◌ ((==_iff (to_ascii_lowercase c) p).0 h) e))))
      | inr h ↦ rw h tt
    ]

bool_token-Blocked : (o : Option (Text × Text)) → Blocked o → bool_token o ≡ failed
bool_token-Blocked none h = refl
bool_token-Blocked (some (word, rest)) h = rw h

bool_choice :
    (o o' : Option (Text × Text))
    → Blocked o
    → Blocked o'
    → elim o [ some w ↦ bool_token (some w) | none ↦ bool_token o' ] ≡ failed
bool_choice none o' h k = bool_token-Blocked o' k
bool_choice (some w) o' h k = bool_token-Blocked (some w) h

-- The word is no constant, in whatever case.
pub record IsNoConstant (n : Text) : Type 0 where
  pub not_true : map to_ascii_lowercase n ≢ codes "true"
  pub not_false : map to_ascii_lowercase n ≢ codes "false"

-- A word that is no constant fails as one.
parse_bool_lit-word :
    (n rest : Text)
    → Continues n
    → IsNoConstant n
    → at_word_end rest ≡ true
    → parse_bool_lit (n ++ rest) ≡ failed
unfolding parse_bool_lit
parse_bool_lit-word n rest k h w =
    bool_choice (insensitive (codes "true") (n ++ rest)) (insensitive (codes "false") (n ++ rest))
      (insensitive-Blocked (codes "true") n rest (refl, (refl, (refl, (refl, tt)))) k w h.not_true)
      (insensitive-Blocked (codes "false") n rest (refl, (refl, (refl, (refl, (refl, tt))))) k w
        h.not_false)

parse_label-word :
    (c : ℕ) (n rest : Text)
    → is_ident_start c ≡ true
    → Continues n
    → at_word_end rest ≡ true
    → parse_label (c ∷ (n ++ rest)) ≡ matched (pair label (c ∷ n) nil) rest
unfolding parse_label
parse_label-word c n rest h k w = rw (ident_rest-word n rest k w, h)

-- A word opens no group and is no negation.
pub start_no_punct :
    (c : ℕ) → is_ident_start c ≡ true → ((c == b'(') ≡ false) × ((c == b'!') ≡ false)
unfolding is_ident_start
start_no_punct c h = ground arith

-- The pair that `not_expr` gives for a token.
abbrev pub token_pair : Pair → Pair
token_pair p = pair not_expr [] (cons (pair primary [] (cons p nil)) nil)

parse_group-closed :
    (item : Text → Parse Pair) (s : Text) → literal b'(' s ≡ none → parse_group item s ≡ failed
unfolding parse_group
parse_group-closed item s h = rw (h, parse_group)

-- `not_expr` reads a token that is neither a negation nor a group.
parse_not_expr-token :
    (f : ℕ) (s rest : Text) (p : Pair)
    → literal b'(' s ≡ none
    → literal b'!' s ≡ none
    → or_else (parse_bool_lit s) (parse_label s) ≡ matched p rest
    → parse_not_expr (suc f) s ≡ matched (token_pair p) rest
unfolding parse_not_expr parse_primary
parse_not_expr-token f s rest p g n h =
    rw (n, parse_not_expr, parse_group-closed (parse_not_expr f) s g, h)

-- A word followed by no further word character is read as a label.
pub read_word :
    (f c : ℕ) (n rest : Text)
    → is_ident_start c ≡ true
    → Continues (c ∷ n)
    → IsNoConstant (c ∷ n)
    → at_word_end rest ≡ true
    → parse_not_expr (suc f) (c ∷ (n ++ rest)) ≡ matched (token_pair (pair label (c ∷ n) nil)) rest
read_word f c n rest start k h w =
    let (group, negation) = start_no_punct c start in
    parse_not_expr-token f (c ∷ (n ++ rest)) rest (pair label (c ∷ n) nil) (rw group) (rw negation)
      (rw (parse_bool_lit-word (c ∷ n) rest k h w, parse_label-word c n rest start k.1 w))

-- So is the name of a label.
pub read_name :
    (f c : ℕ) (n rest : Text)
    → IsLabelName (c ∷ n)
    → at_word_end rest ≡ true
    → parse_not_expr (suc f) (c ∷ (n ++ rest)) ≡ matched (token_pair (pair label (c ∷ n) nil)) rest
read_name f c n rest h w =
    let (start, word) = new→IsWord c n h in
    let same = lower-name (c ∷ n) word.lower in
    read_word f c n rest start word.continues
      (record {
        not_true = λ e. word.not_true (sym same ∙ e);
        not_false = λ e. word.not_false (sym same ∙ e);
      })
      w

pub read_true :
    (f : ℕ) (rest : Text)
    → at_word_end rest ≡ true
    → parse_not_expr (suc f) (codes "true" ++ rest)
      ≡ matched (token_pair (pair bool_lit (codes "true") nil)) rest
unfolding parse_bool_lit insensitive
read_true f rest w =
    parse_not_expr-token f (codes "true" ++ rest) rest (pair bool_lit (codes "true") nil) refl refl
      (rw w)

pub read_false :
    (f : ℕ) (rest : Text)
    → at_word_end rest ≡ true
    → parse_not_expr (suc f) (codes "false" ++ rest)
      ≡ matched (token_pair (pair bool_lit (codes "false") nil)) rest
unfolding parse_bool_lit insensitive
read_false f rest w =
    parse_not_expr-token f (codes "false" ++ rest) rest (pair bool_lit (codes "false") nil) refl
      refl (rw w)
