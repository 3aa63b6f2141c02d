-- ===== src/Label/Build.antt =====
-- src/label.rs, `parse_raw_label_expr` and `build_expr`: from the grammar's pairs to expressions.
use skuld.Prelude.{Bool, map, Text, codes, text_eq, Result, ok, err, ◌>>=◌}
use skuld.Label.Name.{to_ascii_lowercase}
use skuld.Label.Expr.{LabelExpr, terminal, const, and, or}
use skuld.Label.Grammar.{
  Rule, input, expr, or_expr, and_expr, not_expr, primary, bool_lit, label, eoi, Pair, pair, Pairs,
  nil, cons, matched, failed, out_of_fuel, parse_input,
}

-- `invalid_expression` and `unexpected_rule` are the two `Err`s of the source; `no_inner_pair` is
-- a panic of `unwrap` or `expect`; `no_fuel` belongs to the model only.
pub data ParseError : Type 0 where
  invalid_expression no_inner_pair no_fuel : ParseError
  unexpected_rule : Rule → ParseError

-- `a.eq_ignore_ascii_case(b)`.
abbrev pub eq_ignore_ascii_case : Text → Text → Bool
eq_ignore_ascii_case a b = text_eq (map to_ascii_lowercase a) (map to_ascii_lowercase b)

unfoldable mutual
  unfolding to_ascii_lowercase

  pub build_expr : Pair → Result ParseError LabelExpr
  build_expr (pair expr text inner) = build_first inner
  build_expr (pair or_expr text inner) = build_chain or inner
  build_expr (pair and_expr text inner) = build_chain and inner
  build_expr (pair not_expr text inner) = build_first inner
  build_expr (pair Rule.neg text inner) = build_first inner >>= (λ e. ok (LabelExpr.neg e))
  build_expr (pair primary text inner) = build_first inner
  build_expr (pair bool_lit text inner) = ok (const (eq_ignore_ascii_case text (codes "true")))
  build_expr (pair label text inner) = ok (terminal (map to_ascii_lowercase text))
  build_expr (pair input text inner) = err (unexpected_rule input)
  build_expr (pair eoi text inner) = err (unexpected_rule eoi)

  -- `build_expr(pair.into_inner().next().unwrap())`.
  pub build_first : Pairs → Result ParseError LabelExpr
  build_first nil = err no_inner_pair
  build_first (cons p ps) = build_expr p

  -- `let mut left = build_expr(inner.next().unwrap())?; for right_pair in inner { .. }`.
  pub build_chain : (LabelExpr → LabelExpr → LabelExpr) → Pairs → Result ParseError LabelExpr
  build_chain op nil = err no_inner_pair
  build_chain op (cons p ps) = build_expr p >>= (λ left. build_fold op left ps)

  pub build_fold :
      (LabelExpr → LabelExpr → LabelExpr) → LabelExpr → Pairs → Result ParseError LabelExpr
  build_fold op left nil = ok left
  build_fold op left (cons p ps) = build_expr p >>= (λ right. build_fold op (op left right) ps)

-- `.find(|p| p.as_rule() == Rule::expr)`.
unfoldable pub find_expr : Pairs → Result ParseError Pair
find_expr nil = err no_inner_pair
find_expr (cons (pair expr text inner) ps) = ok (pair expr text inner)
find_expr (cons p ps) = find_expr ps

abbrev pub inner_pairs : Pair → Pairs
inner_pairs (pair r text inner) = inner

unfoldable pub parse_raw_label_expr : Text → Result ParseError LabelExpr
parse_raw_label_expr s = elim (parse_input s) [
  | failed ↦ err invalid_expression
  | out_of_fuel ↦ err no_fuel
  | matched p rest ↦ find_expr (inner_pairs p) >>= build_expr
]
