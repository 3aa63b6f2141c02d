-- ===== src/Label/Expr.antt =====
-- src/label.rs, `LabelExpr`: filter expressions, what they mean, and how they are displayed.
-- The type is `boolean_expression::Expr<String>`, with the constructors the source matches on.
use skuld.Prelude.{not, ℕ, Bool, true, false, ◌&&◌, ◌||◌, List, [], ◌∷◌, ◌++◌, ltb, Text, codes}

pub data LabelExpr : Type 0 where
  terminal : Text → LabelExpr
  const : Bool → LabelExpr
  neg : LabelExpr → LabelExpr
  and : LabelExpr → LabelExpr → LabelExpr
  or : LabelExpr → LabelExpr → LabelExpr

-- The truth value of an expression under a valuation of the labels: the specification that the
-- crate's `evaluate_with` is held to.
abbrev pub eval : (Text → Bool) → LabelExpr → Bool
eval v (terminal t) = v t
eval v (const b) = b
eval v (neg e) = not (eval v e)
eval v (and a b) = eval v a && eval v b
eval v (or a b) = eval v a || eval v b

unfoldable pub collect_terminals : LabelExpr → List Text
collect_terminals (terminal t) = t ∷ []
collect_terminals (const b) = []
collect_terminals (neg e) = collect_terminals e
collect_terminals (and a b) = collect_terminals a ++ collect_terminals b
collect_terminals (or a b) = collect_terminals a ++ collect_terminals b

-- `if needs_parens { write!(f, "(")?; }` before and `")"` after.
abbrev pub parens : Bool → Text → Text
parens true t = b'(' ∷ (t ++ b')' ∷ [])
parens false t = t

-- `fmt_expr`: the text written, with parentheses where the precedence (or 0, and 1, else 2) is
-- below `min_prec`.
unfoldable pub fmt_expr : LabelExpr → ℕ → Text
fmt_expr (terminal name) min_prec = parens (ltb 2 min_prec) name
fmt_expr (const true) min_prec = parens (ltb 2 min_prec) (codes "true")
fmt_expr (const false) min_prec = parens (ltb 2 min_prec) (codes "false")
fmt_expr (neg e) min_prec = parens (ltb 2 min_prec) (b'!' ∷ fmt_expr e 2)
fmt_expr (and a b) min_prec =
    parens (ltb 1 min_prec) (fmt_expr a 1 ++ (codes " & " ++ fmt_expr b 1))
fmt_expr (or a b) min_prec = parens (ltb 0 min_prec) (fmt_expr a 0 ++ (codes " | " ++ fmt_expr b 0))

-- `format_expr`, and `Display for LabelFilter`.
unfoldable pub format_expr : LabelExpr → Text
unfolding fmt_expr
format_expr e = fmt_expr e 0
