-- ===== src/Label/Filter.antt =====
-- src/label.rs, canonical filters: `canonicalize`, `LabelFilter` and its operators, and
-- `LabelSelection`. The crate `boolean_expression` is the parameter `BooleanExpression`.
pub mod Meaning
use skuld.Prelude.{
  ℕ, ◌≡◌, refl, Bool, true, false, ◌&&◌, ◌||◌, List, [], ◌∷◌, ◌++◌, map, Option, none, some, Text,
  codes, text_eq, text_le, contains, In, if◌then◌else◌, Result, ok, err, ◌>>=◌, sort, dedup,
}
use skuld.Label.Name.{Label}
use skuld.Label.Expr.{
  LabelExpr, terminal, const, neg, and, or, eval, collect_terminals, format_expr,
}
use skuld.Label.Build.{ParseError, parse_raw_label_expr}

-- `boolean_expression::{Expr, BDD}`: evaluation, and the round trip through a decision diagram,
-- which keeps the function and makes up no variable.
pub record BooleanExpression : Type 1 where
  pub Bdd : Type 0
  pub Func : Type 0
  pub new_bdd : Bdd
  pub add_terminal : Text → Bdd → Bdd
  pub from_expr : LabelExpr → Bdd → Func × Bdd
  pub to_expr : Bdd → Func → LabelExpr
  pub evaluate_with : LabelExpr → (Text → Bool) → Bool
  pub evaluates : (e : LabelExpr) (v : Text → Bool) → evaluate_with e v ≡ eval v e
  pub preserves :
      (e : LabelExpr) (bdd : Bdd) (v : Text → Bool)
      → eval v (to_expr (from_expr e bdd).1 (from_expr e bdd).0) ≡ eval v e
  pub keeps_names :
      (e : LabelExpr) (bdd : Bdd) (t : Text)
      → In t (collect_terminals (to_expr (from_expr e bdd).1 (from_expr e bdd).0))
      → In t (collect_terminals e)

-- `sort_pair`, with the node put on the result.
unfoldable pub sort_pair : LabelExpr → LabelExpr → LabelExpr × LabelExpr
sort_pair a b = if text_le (format_expr a) (format_expr b) then (a, b) else (b, a)

unfoldable pub sort_children : LabelExpr → LabelExpr
sort_children (neg x) = neg (sort_children x)
sort_children (and a b) = let (lo, hi) = sort_pair (sort_children a) (sort_children b) in and lo hi
sort_children (or a b) = let (lo, hi) = sort_pair (sort_children a) (sort_children b) in or lo hi
sort_children (terminal t) = terminal t
sort_children (const b) = const b

-- `to_sql_expr` as the condition that it writes; `render` gives the text.
pub data SqlCondition : Type 0 where
  exists_label : Text → SqlCondition
  one_is : Bool → SqlCondition
  sql_not : SqlCondition → SqlCondition
  sql_and : SqlCondition → SqlCondition → SqlCondition
  sql_or : SqlCondition → SqlCondition → SqlCondition

unfoldable pub to_sql_expr : LabelExpr → SqlCondition
to_sql_expr (terminal name) = exists_label name
to_sql_expr (const b) = one_is b
to_sql_expr (neg inner) = sql_not (to_sql_expr inner)
to_sql_expr (and a b) = sql_and (to_sql_expr a) (to_sql_expr b)
to_sql_expr (or a b) = sql_or (to_sql_expr a) (to_sql_expr b)

unfoldable pub render : SqlCondition → Text
render (exists_label name) =
    codes "EXISTS (SELECT 1 FROM labels WHERE running_id = r.id AND label = '"
    ++ (name ++ codes "')")
render (one_is true) = codes "1=1"
render (one_is false) = codes "1=0"
render (sql_not c) = codes "NOT (" ++ (render c ++ codes ")")
render (sql_and a b) = codes "(" ++ (render a ++ (codes " AND " ++ (render b ++ codes ")")))
render (sql_or a b) = codes "(" ++ (render a ++ (codes " OR " ++ (render b ++ codes ")")))

pub record LabelFilter : Type 0 where
  pub expr : LabelExpr

-- `impl From<Label> for LabelFilter`.
unfoldable pub from_label : Label → LabelFilter
from_label l = record { expr = terminal l.name }

unfoldable pub is_tautology : LabelFilter → Bool
is_tautology f = elim (f.expr) [ const b ↦ b | _ ↦ false ]

unfoldable pub is_contradiction : LabelFilter → Bool
is_contradiction f = elim (f.expr) [ const true ↦ false | const false ↦ true | _ ↦ false ]

-- `Display for LabelFilter`.
unfoldable pub display : LabelFilter → Text
display f = format_expr f.expr

unfoldable pub to_sql : LabelFilter → SqlCondition
to_sql f = to_sql_expr f.expr

-- `labels.iter().any(|l| l.name() == t)`.
unfoldable pub has_label : List Label → Text → Bool
has_label [] t = false
has_label (l ∷ ls) t = text_eq l.name t || has_label ls t

pub record LabelSelection : Type 0 where
  pub filter : LabelFilter
  pub names : List Text

module _ (B : BooleanExpression) where
  open B use {new_bdd, add_terminal, from_expr, to_expr, evaluate_with}

  -- `for t in &terms { bdd.terminal(t.to_string()); }`.
  unfoldable pub seed : List Text → B.Bdd → B.Bdd
  seed [] bdd = bdd
  seed (t ∷ ts) bdd = seed ts (add_terminal t bdd)

  -- `canonicalize`, once the names are sorted and deduplicated.
  unfoldable pub canonicalize_over : LabelExpr → List Text → LabelExpr
  unfolding seed
  canonicalize_over e [] = const (evaluate_with e (λ _. false))
  canonicalize_over e (t ∷ ts) =
      let (func, bdd) = from_expr e (seed (t ∷ ts) new_bdd) in sort_children (to_expr bdd func)

  unfoldable pub canonicalize : LabelExpr → LabelExpr
  canonicalize e = canonicalize_over e (dedup (sort (collect_terminals e)))

  -- `parse_label_expr`, and `LabelFilter::parse`.
  unfoldable pub parse : Text → Result ParseError LabelFilter
  parse s = parse_raw_label_expr s >>= (λ e. ok (record { expr = canonicalize e }))

  -- `matches_expr`, and `LabelFilter::matches`.
  unfoldable pub matches : LabelFilter → List Label → Bool
  matches f labels = evaluate_with f.expr (has_label labels)

  unfoldable pub matches_names : LabelFilter → List Text → Bool
  matches_names f names = evaluate_with f.expr (contains names)

  -- `!f`, `f & g` and `f | g`.
  unfoldable pub filter_not : LabelFilter → LabelFilter
  filter_not f = record { expr = canonicalize (neg f.expr) }

  unfoldable pub filter_and : LabelFilter → LabelFilter → LabelFilter
  filter_and f g = record { expr = canonicalize (and f.expr g.expr) }

  unfoldable pub filter_or : LabelFilter → LabelFilter → LabelFilter
  filter_or f g = record { expr = canonicalize (or f.expr g.expr) }

  -- `LabelSelection::parse`: the filter, and the names as written.
  unfoldable pub parse_selection : Text → Result ParseError LabelSelection
  parse_selection s = parse_raw_label_expr s >>= (λ raw. ok (record {
    filter = record { expr = canonicalize raw };
    names = dedup (sort (collect_terminals raw));
  }))

-- `unknown_labels_message`: the names that are not declared, or `none` if all are.
unfoldable pub unknown_names : List Text → List Text → List Text
unknown_names [] declared = []
unknown_names (n ∷ ns) declared =
    let rest = unknown_names ns declared in if contains declared n then rest else n ∷ rest

unfoldable pub unknown_labels_message : List Text → List Text → Option (List Text × List Text)
unfolding unknown_names
unknown_labels_message names declared =
    let listed = dedup (sort declared) in
    elim (unknown_names names listed) [ [] ↦ none | n ∷ ns ↦ some (n ∷ ns, listed) ]
