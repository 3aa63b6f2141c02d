-- ===== src/Label/Print/RoundTrip.antt =====
-- What `Display` writes is read back as the same filter: `format_expr`, then
-- `parse_raw_label_expr`.
use skuld.Prelude.{
  ℕ, zero, suc, ◌≤◌, ◌<◌, ◌≡◌, refl, ◌∙◌, true, false, [], ◌∷◌, ◌++◌, none, Text, ok, arith, length,
  length-append, codes, append-nil,
}
use skuld.Label.Name.{is_ident_continue}
use skuld.Label.Expr.{LabelExpr, terminal, const, neg, and, or, fmt_expr, format_expr}
use skuld.Label.Grammar.{
  Rule, Pair, pair, nil, cons, matched, and_then, skip, literal, is_whitespace, separated, expr,
  and_expr, label, bool_lit, parse_expr, parse_not_expr, parse_input,
}
use skuld.Label.Build.{build_expr, parse_raw_label_expr, find_expr}
use skuld.Label.Print.Words.{new→IsWord, lower-name, not-IsLabelName-nil}
use skuld.Label.Print.Tokens.{read_name, read_true, read_false}
use skuld.Label.Print.Regroup.{
  graft_and, graft_or, regroup, graft_and_assoc, graft_or_assoc, graft_and-graft_or,
  graft_or-graft_and,
}
use skuld.Label.Print.Chain.{Chains-op}
use skuld.Label.Print.Levels.{
  HasLabelNames, skip-fmt_expr, Ends1, Ends0, Unit2, Level1, Level0, Level1-item, Level0-item,
  Level0-Leads, Leads0, or_expr-Reads,
}
use skuld.Label.Print.Groups.{Unit2-group, Unit2-neg, Unit2-token}

-- The three levels of one expression, with fuel for the nesting of its text.
abbrev Levels : LabelExpr → Type 0
Levels e =
    ((f : ℕ) → length (fmt_expr e 2) < f → Unit2 f (fmt_expr e 2) (regroup e))
    × ((f : ℕ) → length (fmt_expr e 1) < f → Level1 f (fmt_expr e 1) (regroup e))
    × ((f : ℕ) → length (fmt_expr e 0) < f → Level0 f (fmt_expr e 0) (regroup e))

-- Fuel above any bound is a successor.
spend :
    {size : ℕ} (Reaches : ℕ → Type 0)
    → ((left : ℕ) → size ≤ left → Reaches (suc left))
    → (fuel : ℕ) → size < fuel
    → Reaches fuel
spend Reaches nested (suc left) enough = nested left (omega arith)
spend Reaches nested zero enough = absurd (omega arith)

-- What no operator joins is written alike at every level.
tight :
    (t : Text) (x : LabelExpr)
    → ((acc : LabelExpr) → graft_and acc x ≡ and acc x)
    → ((acc : LabelExpr) → graft_or acc x ≡ or acc x)
    → ((f : ℕ) → length t < f → Unit2 f t x)
    → ((f : ℕ) → length t < f → Unit2 f t x)
      × ((f : ℕ) → length t < f → Level1 f t x)
      × ((f : ℕ) → length t < f → Level0 f t x)
tight t x ga go u = (
  u,
  λ f h. Level1-item f t x ga (u f h),
  λ f h. Level0-item f t x go (Level1-item f t x ga (u f h)),
)

-- Neither separator is whitespace, and a separator ends the item before it.
pub and_separates : (u : Text) → (is_whitespace b'&' ≡ false) × Ends1 (b' ' ∷ b'&' ∷ u)
unfolding is_whitespace is_ident_continue
and_separates u = (refl, refl)

pub or_separates : (u : Text) → (is_whitespace b'|' ≡ false) × Ends0 (b' ' ∷ b'|' ∷ u)
unfolding is_whitespace is_ident_continue skip
or_separates u = (refl, (refl, refl))

module _ (a b : LabelExpr) (names_b : HasLabelNames b) where
  Level1-and :
      (f : ℕ)
      → length (fmt_expr (and a b) 1) < f
      → Levels a
      → Levels b
      → Level1 f (fmt_expr (and a b) 1) (regroup (and a b))
  unfolding fmt_expr
  Level1-and f h la lb =
      let n = length-append (fmt_expr a 1) (codes " & " ++ fmt_expr b 1) in
      Chains-op b'&' (parse_not_expr f) and graft_and Ends1 (fmt_expr a 1) (fmt_expr b 1)
        (regroup a) (regroup b) graft_and_assoc (and_separates []).0 (λ u. (and_separates u).1)
        (λ u. skip-fmt_expr b 1 u names_b) (la.1 f (omega (arith, n))) (lb.1 f (omega (arith, n)))

  Level0-or :
      (f : ℕ)
      → length (fmt_expr (or a b) 0) < f
      → Levels a
      → Levels b
      → Level0 f (fmt_expr (or a b) 0) (regroup (or a b))
  unfolding fmt_expr
  Level0-or f h la lb =
      let n = length-append (fmt_expr a 0) (codes " | " ++ fmt_expr b 0) in
      Chains-op b'|' (separated and_expr b'&' (parse_not_expr f)) or graft_or Ends0 (fmt_expr a 0)
        (fmt_expr b 0) (regroup a) (regroup b) graft_or_assoc (or_separates []).0
        (λ u. (or_separates u).1) (λ u. skip-fmt_expr b 0 u names_b) (la.2 f (omega (arith, n)))
        (lb.2 f (omega (arith, n)))

Levels-and : (a b : LabelExpr) → HasLabelNames (and a b) → Levels a → Levels b → Levels (and a b)
unfolding fmt_expr
Levels-and a b h la lb =
    let level1 =
      λ (f : ℕ) (le : length (fmt_expr (and a b) 1) < f). Level1-and a b h.1 f le la lb in
    let level0 = λ (f : ℕ) (le : length (fmt_expr (and a b) 0) < f).
      Level0-item f (fmt_expr (and a b) 0) (regroup (and a b))
        (λ acc. graft_or-graft_and acc (regroup a) (regroup b)) (level1 f le) in
    (
      spend _ λ f le.
          Unit2-group f (fmt_expr (and a b) 0) (regroup (and a b))
            (λ u. skip-fmt_expr (and a b) 0 u h)
            (Level0-Leads f (fmt_expr (and a b) 0) (regroup (and a b))
              (level0 f (omega (arith, le, length-append (fmt_expr (and a b) 0) (b')' ∷ []))))),
      level1,
      level0,
    )

Levels-or : (a b : LabelExpr) → HasLabelNames (or a b) → Levels a → Levels b → Levels (or a b)
unfolding fmt_expr
Levels-or a b h la lb =
    let level0 = λ (f : ℕ) (le : length (fmt_expr (or a b) 0) < f). Level0-or a b h.1 f le la lb in
    let unit2 : (f : ℕ)
        → length (fmt_expr (or a b) 2) < f
        → Unit2 f (fmt_expr (or a b) 2) (regroup (or a b)) =
      spend _ λ f le.
        Unit2-group f (fmt_expr (or a b) 0) (regroup (or a b)) (λ u. skip-fmt_expr (or a b) 0 u h)
          (Level0-Leads f (fmt_expr (or a b) 0) (regroup (or a b))
            (level0 f (omega (arith, le, length-append (fmt_expr (or a b) 0) (b')' ∷ []))))) in
    (
      unit2,
      λ f le.
          Level1-item f (fmt_expr (or a b) 1) (regroup (or a b))
            (λ acc. graft_and-graft_or acc (regroup a) (regroup b)) (unit2 f le),
      level0,
    )

levels : (e : LabelExpr) → HasLabelNames e → Levels e
unfolding fmt_expr build_expr
levels (terminal []) h = absurd (not-IsLabelName-nil h)
levels (terminal (c ∷ n)) h =
    tight (c ∷ n) (terminal (c ∷ n)) (λ acc. refl) (λ acc. refl)
      (spend _ λ f le.
        Unit2-token (suc f) (c ∷ n) (terminal (c ∷ n)) (pair label (c ∷ n) nil)
          (rw (lower-name (c ∷ n) (new→IsWord c n h).1.lower))
          (λ rest end. read_name f c n rest h end))
levels (const true) h =
    tight (codes "true") (const true) (λ acc. refl) (λ acc. refl)
      (spend _ λ f le.
        Unit2-token (suc f) (codes "true") (const true) (pair bool_lit (codes "true") nil) refl
          (λ rest end. read_true f rest end))
levels (const false) h =
    tight (codes "false") (const false) (λ acc. refl) (λ acc. refl)
      (spend _ λ f le.
        Unit2-token (suc f) (codes "false") (const false) (pair bool_lit (codes "false") nil) refl
          (λ rest end. read_false f rest end))
levels (neg e) h =
    tight (b'!' ∷ fmt_expr e 2) (neg (regroup e)) (λ acc. refl) (λ acc. refl)
      (spend _ λ f le.
        Unit2-neg f (fmt_expr e 2) (regroup e) (λ u. skip-fmt_expr e 2 u h) ((levels e h).0 f le))
levels (and a b) h = Levels-and a b h (levels a h.0) (levels b h.1)
levels (or a b) h = Levels-or a b h (levels a h.0) (levels b h.1)

wrap_expr :
    (f : ℕ) (s left : Text) (q : Pair)
    → separated Rule.or_expr b'|' (separated and_expr b'&' (parse_not_expr f)) s ≡ matched q left
    → parse_expr (parse_not_expr f) s ≡ matched (pair expr [] (cons q nil)) left
unfolding parse_expr
wrap_expr f s left q h = rw h

nothing_left : (skip [] ≡ []) × (literal b'&' (skip []) ≡ none) × (literal b'|' (skip []) ≡ none)
unfolding skip
nothing_left = (refl, refl, refl)

input_reads :
    (s left : Text) (q : Pair)
    → skip s ≡ s
    → parse_expr (parse_not_expr (suc (length s))) s ≡ matched q left
    → skip left ≡ []
    → parse_input s ≡ matched (pair Rule.input [] (cons q (cons (pair Rule.eoi [] nil) nil))) []
unfolding parse_input
input_reads s left q visible h e = rw (visible, h) (rw (e, and_then))

-- A text that begins with no whitespace and reads as a chain of the lowest level is a filter.
pub parse_raw_label_expr-Leads0 :
    (s : Text) (x : LabelExpr)
    → skip (s ++ []) ≡ s ++ []
    → Leads0 (suc (length s)) s x
    → parse_raw_label_expr s ≡ ok x
unfolding parse_raw_label_expr find_expr build_expr
parse_raw_label_expr-Leads0 s x starts leads =
    let f = suc (length s) in
    let r = or_expr-Reads f s x leads [] (refl, nothing_left.1) nothing_left.2 in
    let whole : separated Rule.or_expr b'|' (separated and_expr b'&' (parse_not_expr f)) s
        ≡ matched r.tree r.left =
      rw append-nil at r.reads in
    let visible : skip s ≡ s = rw append-nil at starts in
    let parsed =
      input_reads s r.left (pair expr [] (cons r.tree nil)) visible
        (wrap_expr f s r.left r.tree whole) (r.leaves ∙ nothing_left.0) in
    rw (parsed, parse_raw_label_expr) r.builds

-- The text that a filter is displayed as parses, and gives the filter with its chains grouped to
-- the left, if all the labels that the filter names are names that `Label::__new` accepts.
pub parse_raw_label_expr-format_expr :
    (e : LabelExpr) → HasLabelNames e → parse_raw_label_expr (format_expr e) ≡ ok (regroup e)
unfolding format_expr
parse_raw_label_expr-format_expr e h =
    let s = fmt_expr e 0 in
    parse_raw_label_expr-Leads0 s (regroup e) (skip-fmt_expr e 0 [] h)
      (Level0-Leads (suc (length s)) s (regroup e) ((levels e h).2 (suc (length s)) (omega arith)))
