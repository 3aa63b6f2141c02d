-- ===== src/Examples/Toy.antt =====
-- A concrete simplifier in the place of the boolean_expression crate: one that simplifies nothing.
use skuld.Prelude.{refl, codes}
use skuld.Label.Name.{Label}
use skuld.Label.Expr.{LabelExpr, terminal, neg, and, eval}
use skuld.Label.Filter.{BooleanExpression, LabelFilter}

abbrev pub toy : BooleanExpression
toy = record {
  Bdd = Unit {0};
  Func = LabelExpr;
  new_bdd = tt;
  add_terminal = λ t bdd. bdd;
  from_expr = λ e bdd. (e, bdd);
  to_expr = λ bdd e. e;
  evaluate_with = λ e v. eval v e;
  evaluates = λ e v. refl;
  preserves = λ e bdd v. refl;
  keeps_names = λ e bdd t h. h;
}

abbrev pub docker : Label
docker = record { name = codes "docker" }

abbrev pub slow : Label
slow = record { name = codes "slow" }

-- `docker & !slow`, and as `parse` keeps it, its operands in order.
abbrev pub docker_not_slow : LabelExpr
docker_not_slow = and (terminal docker.name) (neg (terminal slow.name))

abbrev pub not_slow_docker : LabelFilter
not_slow_docker = record { expr = and (neg (terminal slow.name)) (terminal docker.name) }
