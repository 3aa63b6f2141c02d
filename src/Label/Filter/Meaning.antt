-- ===== src/Label/Filter/Meaning.antt =====
-- What canonical filters mean: canonicalization keeps every truth value.
use skuld.Prelude.{
  not, ◌≡◌, refl, ap, ap₂, ◌∙◌, Bool, false, ◌&&◌, ◌||◌, List, [], ◌∷◌, ◌++◌, Text, ok, sort, dedup,
  inl, arith, In-sort,
}
use skuld.Label.Name.{Label}
use skuld.Label.Expr.{LabelExpr, terminal, const, neg, and, or, eval, collect_terminals}
use skuld.Label.Build.{parse_raw_label_expr}
use skuld.Label.Filter.{
  BooleanExpression, sort_pair, sort_children, canonicalize, canonicalize_over, LabelFilter,
  matches, has_label, filter_not, filter_and, filter_or, parse, seed, display,
}
use skuld.Label.Print.Levels.{HasLabelNames}
use skuld.Label.Print.RoundTrip.{parse_raw_label_expr-format_expr}
use skuld.Label.Print.Regroup.{regroup, eval-regroup}

module _ (v : Text → Bool) where
  eval-sort_pair-and :
      (a b : LabelExpr) → eval v (and (sort_pair a b).0 (sort_pair a b).1) ≡ eval v (and a b)
  unfolding sort_pair
  eval-sort_pair-and a b = ground arith

  eval-sort_pair-or :
      (a b : LabelExpr) → eval v (or (sort_pair a b).0 (sort_pair a b).1) ≡ eval v (or a b)
  unfolding sort_pair
  eval-sort_pair-or a b = ground arith

  pub eval-sort_children : (e : LabelExpr) → eval v (sort_children e) ≡ eval v e
  unfolding sort_children
  eval-sort_children (neg x) = rw (eval-sort_children x)
  eval-sort_children (and a b) =
      eval-sort_pair-and (sort_children a) (sort_children b)
      ∙ ap₂ ◌&&◌ (eval-sort_children a) (eval-sort_children b)
  eval-sort_children (or a b) =
      eval-sort_pair-or (sort_children a) (sort_children b)
      ∙ ap₂ ◌||◌ (eval-sort_children a) (eval-sort_children b)
  eval-sort_children (terminal t) = refl
  eval-sort_children (const b) = refl

append-eq-nil : (xs ys : List Text) → xs ++ ys ≡ [] → (xs ≡ []) × (ys ≡ [])
append-eq-nil [] ys h = (refl, h)
append-eq-nil (x ∷ xs) ys h = cc

-- An expression that names no label has one truth value.
eval_closed : (v w : Text → Bool) (e : LabelExpr) → collect_terminals e ≡ [] → eval v e ≡ eval w e
unfolding collect_terminals
eval_closed v w (terminal t) h = cc
eval_closed v w (const b) h = refl
eval_closed v w (neg e) h = rw (eval_closed v w e h)
eval_closed v w (and a b) h =
    let (ha, hb) = append-eq-nil (collect_terminals a) (collect_terminals b) h in
    ap₂ ◌&&◌ (eval_closed v w a ha) (eval_closed v w b hb)
eval_closed v w (or a b) h =
    let (ha, hb) = append-eq-nil (collect_terminals a) (collect_terminals b) h in
    ap₂ ◌||◌ (eval_closed v w a ha) (eval_closed v w b hb)

dedup-nil : (xs : List Text) → dedup xs ≡ [] → xs ≡ []
unfolding dedup
dedup-nil [] h = refl
dedup-nil (x ∷ xs) h = cc

sort-nil : (xs : List Text) → sort xs ≡ [] → xs ≡ []
sort-nil [] h = refl
sort-nil (x ∷ xs) h = absurd (rw h at (In-sort x (x ∷ xs) (inl refl)))

module _ (B : BooleanExpression) where
  eval-canonicalize_over :
      (e : LabelExpr) (ts : List Text) (v : Text → Bool)
      → (ts ≡ [] → collect_terminals e ≡ [])
      → eval v (canonicalize_over B e ts) ≡ eval v e
  unfolding canonicalize_over
  eval-canonicalize_over e [] v closed =
      B.evaluates e (λ _. false) ∙ eval_closed (λ _. false) v e (closed refl)
  eval-canonicalize_over e (t ∷ ts) v closed =
      eval-sort_children v _ ∙ B.preserves e (seed B (t ∷ ts) B.new_bdd) v

  -- `canonicalize` keeps the meaning.
  pub eval-canonicalize : (e : LabelExpr) (v : Text → Bool) → eval v (canonicalize B e) ≡ eval v e
  unfolding canonicalize
  eval-canonicalize e v = eval-canonicalize_over e _ v (λ h. sort-nil _ (dedup-nil _ h))

  -- A filter read from a text selects the label sets under which the text, as the grammar reads
  -- it, is true.
  pub matches-parse :
      (s : Text) (labels : List Label) {e : LabelExpr} {f : LabelFilter}
      → parse_raw_label_expr s ≡ ok e
      → parse B s ≡ ok f
      → matches B f labels ≡ eval (has_label labels) e
  unfolding parse matches
  matches-parse s labels {e} {f} h p =
      let q : LabelFilter.expr f ≡ canonicalize B e = ground (arith, h, p) in
      B.evaluates _ (has_label labels) ∙ ap (eval (has_label labels)) q ∙ eval-canonicalize e _

  -- `!f`, `f & g` and `f | g` select what the operators say.
  pub operators-matches :
      (f g : LabelFilter) (labels : List Label)
      → (matches B (filter_not B f) labels ≡ not (matches B f labels))
        × (matches B (filter_and B f g) labels ≡ (matches B f labels && matches B g labels))
        × (matches B (filter_or B f g) labels ≡ (matches B f labels || matches B g labels))
  unfolding filter_not filter_and filter_or matches
  operators-matches f g labels =
      let v = has_label labels in simp (B.evaluates, eval-canonicalize) (refl, refl, refl)

  -- The text that a filter is displayed as parses, to a filter that selects the same label sets, if the
  -- names in the filter are names of labels.
  pub parse-display :
      (f : LabelFilter)
      → HasLabelNames f.expr
      → (g : LabelFilter) × (parse B (display f) ≡ ok g)
        × ((labels : List Label) → matches B g labels ≡ matches B f labels)
  unfolding parse display matches
  parse-display f h = (
    record { expr = canonicalize B (regroup f.expr) },
    rw (parse_raw_label_expr-format_expr f.expr h),
    λ labels. simp (B.evaluates, eval-canonicalize, eval-regroup),
  )
