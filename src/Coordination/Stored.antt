-- ===== src/Coordination/Stored.antt =====
-- src/coordination.rs: the form in which `to_storage` keeps a filter excludes the same tests.
use skuld.Prelude.{
  ◌≡◌, refl, sym, ap, ◌∙◌, subst, false≢true, Bool, true, false, List, Text, text_eq, text_eq→eq,
  Result, ok, err, >>=-eq-ok, Bool-cases, inl, inr,
}
use skuld.Label.Expr.{LabelExpr, terminal, const, neg, and, or, format_expr}
use skuld.Label.Build.{parse_raw_label_expr, find_expr}
use skuld.Label.Grammar.{
  parse_input, parse_expr, separated, repeat, skip, parse_not_expr, parse_primary, parse_group,
  parse_bool_lit, insensitive, parse_label, ident_rest,
}
use skuld.Label.Filter.{
  BooleanExpression, LabelFilter, parse, matches_names, canonicalize, display, is_tautology,
  is_contradiction,
}
use skuld.Label.Filter.Meaning.{eval-canonicalize}
use skuld.Label.Print.Regroup.{regroup, eval-regroup}
use skuld.Label.Print.RoundTrip.{parse_raw_label_expr-format_expr}
use skuld.Label.Print.Levels.{HasLabelNames}
use skuld.Coordination.Storage.{serial_none, serial_all, stored, to_storage}
use skuld.Coordination.Conflict.{serializes, IsStorable}

abbrev pub is_ok {ℓ κ} : {E : Type ℓ} {A : Type κ} → Result E A → Bool
is_ok (ok a) = true
is_ok (err e) = false

pub sentinels_do_not_parse :
    (is_ok (parse_raw_label_expr serial_none) ≡ false)
    × (is_ok (parse_raw_label_expr serial_all) ≡ false)
unfolding parse_raw_label_expr parse_input parse_expr separated repeat skip parse_not_expr
    parse_primary parse_group parse_bool_lit insensitive parse_label ident_rest find_expr
sentinels_do_not_parse = (refl, refl)

module _ (B : BooleanExpression) where
  -- What the storage form of a parsed filter must be.
  abbrev pub Keeps : LabelFilter → Text → Type 0
  Keeps f t =
      IsStorable B t × ((labels : List Text) → serializes B t labels ≡ matches_names B f labels)

  stored-const : (b : Bool) → Keeps (record { expr = const b }) (stored (record { expr = const b }))
  unfolding stored matches_names is_tautology is_contradiction
  stored-const true = (inr (inl refl), λ labels. sym (B.evaluates (const true) _))
  stored-const false = (inl refl, λ labels. sym (B.evaluates (const false) _))

  -- What a filter displays as parses, to a filter with the same meaning.
  parse-display_names :
      (f : LabelFilter)
      → HasLabelNames f.expr
      → (g : LabelFilter) × (parse B (display f) ≡ ok g)
        × ((labels : List Text) → matches_names B g labels ≡ matches_names B f labels)
  unfolding parse display matches_names
  parse-display_names f h = (
    record { expr = canonicalize B (regroup f.expr) },
    rw (parse_raw_label_expr-format_expr f.expr h),
    λ labels. simp (B.evaluates, eval-canonicalize, eval-regroup),
  )

  -- A text that does not parse is no filter's.
  display-not :
      (f : LabelFilter) (s : Text)
      → HasLabelNames f.expr
      → is_ok (parse_raw_label_expr s) ≡ false
      → text_eq (display f) s ≡ false
  unfolding display
  display-not f s h refused = elim (Bool-cases (text_eq (format_expr f.expr) s)) [
    | inl e ↦
        let same = text_eq→eq (format_expr f.expr) s e in
        let parsed : is_ok (parse_raw_label_expr s) ≡ true =
          subst (λ t. is_ok (parse_raw_label_expr t) ≡ true) same
            (ap is_ok (parse_raw_label_expr-format_expr f.expr h)) in
        absurd (false≢true (sym refused ∙ parsed))
    | inr e ↦ e
  ]

  display-Keeps : (f : LabelFilter) → HasLabelNames f.expr → Keeps f (display f)
  display-Keeps f h =
      let (g, parses, same) = parse-display_names f h in
      let none' = display-not f serial_none h sentinels_do_not_parse.0 in
      let all' = display-not f serial_all h sentinels_do_not_parse.1 in
      (inr (inr (g, parses)), λ labels. rw (none', all', parses) (same labels))

  pub stored-Keeps :
      (e : LabelExpr) → HasLabelNames e → Keeps (record { expr = e }) (stored (record { expr = e }))
  unfolding stored is_tautology is_contradiction
  stored-Keeps (const b) h = stored-const b
  stored-Keeps (terminal t) h = display-Keeps (record { expr = terminal t }) h
  stored-Keeps (neg a) h = display-Keeps (record { expr = neg a }) h
  stored-Keeps (and a b) h = display-Keeps (record { expr = and a b }) h
  stored-Keeps (or a b) h = display-Keeps (record { expr = or a b }) h

  -- A text that parses is no sentinel.
  pub parse-not :
      (s t : Text) (f : LabelFilter)
      → parse B s ≡ ok f
      → is_ok (parse_raw_label_expr t) ≡ false
      → text_eq s t ≡ false
  unfolding parse
  parse-not s t f p refused = elim (Bool-cases (text_eq s t)) [
    | inl e ↦
        let (raw, parsed, rest) = >>=-eq-ok (parse_raw_label_expr s) _ p in
        let same = text_eq→eq s t e in
        absurd (
          false≢true (
            sym refused
            ∙ subst (λ u. is_ok (parse_raw_label_expr u) ≡ true) same (ap is_ok parsed)))
    | inr e ↦ e
  ]

  -- The form in which `to_storage` keeps a filter that parses is one that `can_start` can read, and it
  -- excludes the same tests, if the names in the filter are names of labels.
  pub to_storage-Keeps :
      (s : Text) (f : LabelFilter)
      → parse B s ≡ ok f
      → HasLabelNames f.expr
      → (t : Text) × (to_storage B s ≡ ok t) × Keeps f t
  unfolding to_storage
  to_storage-Keeps s f p h =
      let plain = parse-not s serial_none f p sentinels_do_not_parse.0 in
      let partial = parse-not s serial_all f p sentinels_do_not_parse.1 in
      (stored f, rw (plain, partial, p) refl, stored-Keeps f.expr h)
