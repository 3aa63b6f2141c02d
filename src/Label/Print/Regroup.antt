-- ===== src/Label/Print/Regroup.antt =====
-- `Display` writes no parentheses inside a chain of `&` or of `|`, so the parser reads the chain
-- back grouped to the left. `regroup` is the expression it reads.
use skuld.Prelude.{◌≡◌, refl, ap, Bool, ◌&&◌, ◌||◌, Text, arith}
use skuld.Label.Expr.{LabelExpr, terminal, const, neg, and, or, eval}

-- `x & y`, with the chain of `y` grouped onto `x`.
abbrev pub graft_and : LabelExpr → LabelExpr → LabelExpr
graft_and x (and y z) = and (graft_and x y) z
graft_and x (terminal t) = and x (terminal t)
graft_and x (const b) = and x (const b)
graft_and x (neg e) = and x (neg e)
graft_and x (or y z) = and x (or y z)

abbrev pub graft_or : LabelExpr → LabelExpr → LabelExpr
graft_or x (or y z) = or (graft_or x y) z
graft_or x (terminal t) = or x (terminal t)
graft_or x (const b) = or x (const b)
graft_or x (neg e) = or x (neg e)
graft_or x (and y z) = or x (and y z)

abbrev pub regroup : LabelExpr → LabelExpr
regroup (terminal t) = terminal t
regroup (const b) = const b
regroup (neg e) = neg (regroup e)
regroup (and a b) = graft_and (regroup a) (regroup b)
regroup (or a b) = graft_or (regroup a) (regroup b)

pub graft_and_assoc :
    (x y z : LabelExpr) → graft_and (graft_and x y) z ≡ graft_and x (graft_and y z)
graft_and_assoc x y (and z w) = ap (λ u. and u w) (graft_and_assoc x y z)
graft_and_assoc x y (terminal t) = refl
graft_and_assoc x y (const b) = refl
graft_and_assoc x y (neg e) = refl
graft_and_assoc x y (or z w) = refl

pub graft_or_assoc : (x y z : LabelExpr) → graft_or (graft_or x y) z ≡ graft_or x (graft_or y z)
graft_or_assoc x y (or z w) = ap (λ u. or u w) (graft_or_assoc x y z)
graft_or_assoc x y (terminal t) = refl
graft_or_assoc x y (const b) = refl
graft_or_assoc x y (neg e) = refl
graft_or_assoc x y (and z w) = refl

-- What is no chain of `&` grafts as a whole.
pub graft_and-graft_or : (x y z : LabelExpr) → graft_and x (graft_or y z) ≡ and x (graft_or y z)
graft_and-graft_or x y (terminal t) = refl
graft_and-graft_or x y _ = refl

pub graft_or-graft_and : (x y z : LabelExpr) → graft_or x (graft_and y z) ≡ or x (graft_and y z)
graft_or-graft_and x y (terminal t) = refl
graft_or-graft_and x y _ = refl

module _ (v : Text → Bool) where
  eval-graft_and : (x y : LabelExpr) → eval v (graft_and x y) ≡ (eval v x && eval v y)
  eval-graft_and x (and y z) = ground (arith, eval-graft_and x y)
  eval-graft_and x (terminal t) = refl
  eval-graft_and x (const b) = refl
  eval-graft_and x (neg e) = refl
  eval-graft_and x (or y z) = refl

  eval-graft_or : (x y : LabelExpr) → eval v (graft_or x y) ≡ (eval v x || eval v y)
  eval-graft_or x (or y z) = ground (arith, eval-graft_or x y)
  eval-graft_or x (terminal t) = refl
  eval-graft_or x (const b) = refl
  eval-graft_or x (neg e) = refl
  eval-graft_or x (and y z) = refl

  -- Regrouping changes no truth value.
  pub eval-regroup : (e : LabelExpr) → eval v (regroup e) ≡ eval v e
  eval-regroup (terminal t) = refl
  eval-regroup (const b) = refl
  eval-regroup (neg e) = rw (eval-regroup e)
  eval-regroup (and a b) =
      rw (eval-graft_and (regroup a) (regroup b), eval-regroup a, eval-regroup b)
  eval-regroup (or a b) = rw (eval-graft_or (regroup a) (regroup b), eval-regroup a, eval-regroup b)
