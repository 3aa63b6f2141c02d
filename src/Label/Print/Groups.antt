-- ===== src/Label/Print/Groups.antt =====
-- src/label.rs and src/label.pest: how what is in parentheses, behind `!`, or one token, is read.
use skuld.Prelude.{
  ℕ, suc, ◌≡◌, refl, ◌∙◌, true, [], ◌∷◌, ◌++◌, none, some, Text, ok, arith, length-append,
  append_assoc,
}
use skuld.Label.Name.{is_ident_continue}
use skuld.Label.Expr.{LabelExpr, neg}
use skuld.Label.Grammar.{
  Rule, Pair, pair, nil, cons, Parse, matched, and_then, skip, literal, is_whitespace, at_word_end,
  not_expr, primary, parse_expr, parse_group, parse_not_expr, parse_primary,
}
use skuld.Label.Build.{build_expr}
use skuld.Label.Print.Tokens.{token_pair}
use skuld.Label.Print.Levels.{Ends0, Unit2, Leads0, parse_expr-Reads}

parse_group-open :
    (item : Text → Parse Pair) (s rest left : Text) (q : Pair)
    → skip s ≡ s
    → parse_expr item s ≡ matched q left
    → skip left ≡ b')' ∷ rest
    → parse_group item (b'(' ∷ s) ≡ matched q rest
unfolding parse_group
parse_group-open item s rest left q e h l =
    let lit : literal b')' (skip left) ≡ some rest = rw l in rw (e, h) (rw (lit, and_then))

closes-Ends0 : (rest : Text) → Ends0 (b')' ∷ rest)
unfolding skip is_whitespace is_ident_continue
closes-Ends0 rest = (refl, refl)

closes_no_bar : (rest : Text) → literal b'|' (skip (b')' ∷ rest)) ≡ none
unfolding skip is_whitespace
closes_no_bar rest = refl

closes_skip : (rest : Text) → skip (b')' ∷ rest) ≡ b')' ∷ rest
unfolding skip is_whitespace
closes_skip rest = refl

-- A group is read as what stands inside it.
pub Unit2-group :
    (f : ℕ) (t : Text) (x : LabelExpr)
    → ((u : Text) → skip (t ++ u) ≡ t ++ u)
    → Leads0 f t x
    → Unit2 (suc f) (b'(' ∷ (t ++ b')' ∷ [])) x
unfolding parse_not_expr parse_primary build_expr
Unit2-group f t x visible leads rest end =
    let r = parse_expr-Reads f t x leads (b')' ∷ rest) (closes-Ends0 rest) (closes_no_bar rest) in
    record {
      tree = pair not_expr [] (cons (pair primary [] (cons r.tree nil)) nil);
      left = rest;
      reads = rw (
        append_assoc t (b')' ∷ []) rest,
        parse_group-open (parse_not_expr f) (t ++ b')' ∷ rest) rest r.left r.tree
            (visible (b')' ∷ rest)) r.reads (r.leaves ∙ closes_skip rest),
      );
      builds = r.builds;
      leaves = refl;
      consumes = omega (arith, length-append (t ++ b')' ∷ []) rest);
    }

pub Unit2-neg :
    (f : ℕ) (t : Text) (x : LabelExpr)
    → ((u : Text) → skip (t ++ u) ≡ t ++ u)
    → Unit2 f t x
    → Unit2 (suc f) (b'!' ∷ t) (neg x)
unfolding parse_not_expr build_expr
Unit2-neg f t x visible u rest end =
    let r = u rest end in
    record {
      tree = pair not_expr [] (cons (pair Rule.neg [] (cons r.tree nil)) nil);
      left = r.left;
      reads = rw (visible rest) (rw r.reads);
      builds = rw r.builds;
      leaves = r.leaves;
      consumes = omega (arith, r.consumes);
    }

-- A token is read as its expression.
pub Unit2-token :
    (f : ℕ) (t : Text) (x : LabelExpr) (p : Pair)
    → build_expr p ≡ ok x
    → ((rest : Text)
        → at_word_end rest ≡ true
        → parse_not_expr f (t ++ rest) ≡ matched (token_pair p) rest)
    → Unit2 f t x
unfolding build_expr
Unit2-token f t x p builds reads rest end = record {
  tree = token_pair p;
  left = rest;
  reads = reads rest end;
  builds = builds;
  leaves = refl;
  consumes = omega (arith, length-append t rest);
}
