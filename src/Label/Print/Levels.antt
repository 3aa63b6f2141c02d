-- ===== src/Label/Print/Levels.antt =====
-- The three precedence levels of `fmt_expr`, and the rules that read them.
use skuld.Prelude.{
  ℕ, ◌≡◌, refl, Bool, true, false, [], ◌∷◌, ◌++◌, none, Text, arith, append_assoc, codes, ltb,
}
use skuld.Label.Name.{is_ident_start}
use skuld.Label.Expr.{LabelExpr, terminal, const, neg, and, or, fmt_expr, parens}
use skuld.Label.Grammar.{
  pair, nil, cons, skip, literal, is_whitespace, separated, at_word_end, expr, or_expr, and_expr,
  parse_expr, parse_not_expr,
}
use skuld.Label.Build.{build_expr}
use skuld.Label.Print.Words.{not-IsLabelName-nil, IsLabelName, new→IsWord}
use skuld.Label.Print.Regroup.{graft_and, graft_or}
use skuld.Label.Print.Chain.{Reads, Chains, Chains-item}
use skuld.Label.Print.Leads.{Leads, Chains-Leads, separated-Reads}

-- Every label that the expression names is one that `Label::__new` accepts.
abbrev pub HasLabelNames : LabelExpr → Type 0
HasLabelNames (terminal t) = IsLabelName t
HasLabelNames (const b) = Unit
HasLabelNames (neg e) = HasLabelNames e
HasLabelNames (and a b) = HasLabelNames a × HasLabelNames b
HasLabelNames (or a b) = HasLabelNames a × HasLabelNames b

pub start_visible : (c : ℕ) → is_ident_start c ≡ true → is_whitespace c ≡ false
unfolding is_ident_start is_whitespace
start_visible c h = ground arith

pub skip-visible : (c : ℕ) (s : Text) → is_whitespace c ≡ false → skip (c ∷ s) ≡ c ∷ s
unfolding skip
skip-visible c s h = rw h

skip-parens :
    (b : Bool) (t u : Text)
    → ((u : Text) → skip (t ++ u) ≡ t ++ u)
    → skip (parens b t ++ u) ≡ parens b t ++ u
unfolding is_whitespace
skip-parens true t u h = skip-visible b'(' _ refl
skip-parens false t u h = h u

-- What is displayed begins with no whitespace.
pub skip-fmt_expr :
    (e : LabelExpr) (p : ℕ) (u : Text)
    → HasLabelNames e
    → skip (fmt_expr e p ++ u) ≡ fmt_expr e p ++ u
unfolding fmt_expr is_whitespace
skip-fmt_expr (terminal []) p u h = absurd (not-IsLabelName-nil h)
skip-fmt_expr (terminal (c ∷ n)) p u h =
    skip-parens (ltb 2 p) (c ∷ n) u
      (λ u. skip-visible c (n ++ u) (start_visible c (new→IsWord c n h).0))
skip-fmt_expr (const true) p u h =
    skip-parens (ltb 2 p) (codes "true") u (λ u. skip-visible b't' _ refl)
skip-fmt_expr (const false) p u h =
    skip-parens (ltb 2 p) (codes "false") u (λ u. skip-visible b'f' _ refl)
skip-fmt_expr (neg e) p u h = skip-parens (ltb 2 p) _ u (λ u. skip-visible b'!' _ refl)
skip-fmt_expr (and a b) p u h = skip-parens (ltb 1 p) _ u (λ u.
    rw (append_assoc (fmt_expr a 1) (codes " & " ++ fmt_expr b 1) u) (skip-fmt_expr a 1 _ h.0))
skip-fmt_expr (or a b) p u h = skip-parens (ltb 0 p) _ u (λ u.
    rw (append_assoc (fmt_expr a 0) (codes " | " ++ fmt_expr b 0) u) (skip-fmt_expr a 0 _ h.0))

abbrev pub Ends1 : Text → Type 0
Ends1 rest = at_word_end rest ≡ true

abbrev pub Ends0 : Text → Type 0
Ends0 rest = (at_word_end rest ≡ true) × (literal b'&' (skip rest) ≡ none)

-- `not_expr` reads the text.
abbrev pub Unit2 : ℕ → Text → LabelExpr → Type 0
Unit2 f t x = (rest : Text) → at_word_end rest ≡ true → Reads (parse_not_expr f) t x rest

abbrev pub Level1 : ℕ → Text → LabelExpr → Type 0
Level1 f t x = Chains b'&' (parse_not_expr f) and graft_and Ends1 t x

abbrev pub Level0 : ℕ → Text → LabelExpr → Type 0
Level0 f t x = Chains b'|' (separated and_expr b'&' (parse_not_expr f)) or graft_or Ends0 t x

-- A chain of either level that nothing stands before.
abbrev pub Leads1 : ℕ → Text → LabelExpr → Type 0
Leads1 f t x = Leads b'&' (parse_not_expr f) and Ends1 t x

abbrev pub Leads0 : ℕ → Text → LabelExpr → Type 0
Leads0 f t x = Leads b'|' (separated and_expr b'&' (parse_not_expr f)) or Ends0 t x

module _ (f : ℕ) (t : Text) (x : LabelExpr) where
  pub Level1-item : ((acc : LabelExpr) → graft_and acc x ≡ and acc x) → Unit2 f t x → Level1 f t x
  Level1-item whole u = Chains-item b'&' (parse_not_expr f) and graft_and Ends1 t x whole u

  -- `and_expr` reads such a chain.
  pub and_expr-Reads :
      Leads1 f t x
      → (rest : Text) → Ends0 rest
      → Reads (separated and_expr b'&' (parse_not_expr f)) t x rest
  unfolding build_expr
  and_expr-Reads leads rest ends =
      separated-Reads b'&' (parse_not_expr f) and Ends1 and_expr t x rest (λ ps. refl) leads ends.0
        ends.1

  pub Level0-item : ((acc : LabelExpr) → graft_or acc x ≡ or acc x) → Level1 f t x → Level0 f t x
  unfolding build_expr
  Level0-item whole chains =
      Chains-item b'|' (separated and_expr b'&' (parse_not_expr f)) or graft_or Ends0 t x whole
        (and_expr-Reads (Chains-Leads b'&' (parse_not_expr f) and Ends1 graft_and t x chains))

  pub Level0-Leads : Level0 f t x → Leads0 f t x
  Level0-Leads =
      Chains-Leads b'|' (separated and_expr b'&' (parse_not_expr f)) or Ends0 graft_or t x

  -- `or_expr` reads a text of the lowest level.
  pub or_expr-Reads :
      Leads0 f t x
      → (rest : Text) → Ends0 rest
      → literal b'|' (skip rest) ≡ none
      → Reads (separated or_expr b'|' (separated and_expr b'&' (parse_not_expr f))) t x rest
  unfolding build_expr
  or_expr-Reads leads rest ends last =
      separated-Reads b'|' (separated and_expr b'&' (parse_not_expr f)) or Ends0 or_expr t x rest
        (λ ps. refl) leads ends last

  -- `expr` does too.
  pub parse_expr-Reads :
      Leads0 f t x
      → (rest : Text) → Ends0 rest
      → literal b'|' (skip rest) ≡ none
      → Reads (parse_expr (parse_not_expr f)) t x rest
  unfolding parse_expr build_expr
  parse_expr-Reads leads rest ends last =
      let r = or_expr-Reads leads rest ends last in
      record {
        tree = pair expr [] (cons r.tree nil);
        left = r.left;
        reads = rw r.reads;
        builds = r.builds;
        leaves = r.leaves;
        consumes = r.consumes;
      }
