-- ===== src/Coordination/Conflict.antt =====
-- When two tests may not run together, stated of their filters and labels alone, and that
-- `can_start` decides it (src/coordination.rs).
use skuld.Prelude.{
  ℕ, ◌≡◌, refl, sym, ap, ap₂, ◌∙◌, Bool, true, false, not, ◌&&◌, ◌||◌, List, [], ◌∷◌, map,
  if◌then◌else◌, Text, text_eq, contains, Result, ok, err, ◌>>=◌, Bool-cases, inl, inr, arith, ◌⊎◌,
  text_eq→eq,
}
use mathlib.Core.Path.{fun_ext}
use skuld.Label.Name.{Label}
use skuld.Label.Expr.{LabelExpr, terminal, const, neg, and, or, eval}
use skuld.Label.Build.{ParseError}
use skuld.Label.Filter.{
  BooleanExpression, LabelFilter, parse, matches, matches_names, to_sql, to_sql_expr, has_label,
}
use skuld.Coordination.Storage.{serial_none, serial_all}
use skuld.Coordination.Database.{Running, Db, labels_of, sql_holds}
use skuld.Coordination.Transaction.{
  global_running, exists_running, is_empty, filter_matches, some_filter_matches, can_start,
}

-- The names of labels.
abbrev pub names : List Label → List Text
names = map (λ l. l.name)

has_label-contains : (ls : List Label) (t : Text) → has_label ls t ≡ contains (names ls) t
unfolding has_label
has_label-contains [] t = refl
has_label-contains (l ∷ ls) t = rw (has_label-contains ls t)

-- The condition that SQLite evaluates at a row says what the filter says of the row's labels.
sql_holds-to_sql_expr :
    (ls : List Text) (e : LabelExpr) → sql_holds ls (to_sql_expr e) ≡ eval (contains ls) e
unfolding sql_holds to_sql_expr
sql_holds-to_sql_expr ls (terminal t) = refl
sql_holds-to_sql_expr ls (const b) = refl
sql_holds-to_sql_expr ls (neg e) = ap not (sql_holds-to_sql_expr ls e)
sql_holds-to_sql_expr ls (and a b) =
    ap₂ ◌&&◌ (sql_holds-to_sql_expr ls a) (sql_holds-to_sql_expr ls b)
sql_holds-to_sql_expr ls (or a b) =
    ap₂ ◌||◌ (sql_holds-to_sql_expr ls a) (sql_holds-to_sql_expr ls b)

abbrev pub any_row : (Running → Bool) → List Running → Bool
any_row p [] = false
any_row p (r ∷ rs) = p r || any_row p rs

none_not_all : (s : Text) → text_eq s serial_none ≡ true → text_eq s serial_all ≡ false
none_not_all [] h = refl
none_not_all (c ∷ s) h = ground arith

any_row-or :
    (p q : Running → Bool) (rs : List Running)
    → any_row (λ r. p r || q r) rs ≡ (any_row p rs || any_row q rs)
any_row-or p q [] = refl
any_row-or p q (r ∷ rs) = rw (any_row-or p q rs) (ground arith)

any_row-false : (rs : List Running) → any_row (λ r. false) rs ≡ false
any_row-false [] = refl
any_row-false (r ∷ rs) = any_row-false rs

is_empty-any : (rs : List Running) → is_empty rs ≡ not (any_row (λ r. true) rs)
is_empty-any [] = refl
is_empty-any (r ∷ rs) = refl

start_cases :
    {m : Result ParseError Bool} (global filtered theirs mine : Bool)
    → (global || filtered) ≡ theirs
    → m ≡ ok (not mine)
    → (if global then ok false else if filtered then ok false else m) ≡ ok (not (theirs || mine))
start_cases global filtered theirs mine h k = ground arith

module _ (B : BooleanExpression) where
  -- A test with filter `s` may not run beside a test with these labels.
  abbrev pub serializes : Text → List Text → Bool
  serializes s labels =
      if text_eq s serial_none
      then false
      else if text_eq s serial_all
      then true
      else elim (parse B s) [ ok f ↦ matches_names B f labels | err e ↦ false ]

  -- One of two tests may not run beside the other.
  abbrev pub conflict : Text → List Text → Text → List Text → Bool
  conflict s labels s' labels' = serializes s labels' || serializes s' labels

  -- Some running test conflicts with a test that has these labels and this filter.
  abbrev pub is_blocked : List Label → Text → Db → Bool
  is_blocked my_labels my_filter db =
      any_row (λ r. conflict r.serial_filter (labels_of r.id db.labels) my_filter (names my_labels))
        db.running

  matches-names :
      (f : LabelFilter) (ls : List Label) → matches B f ls ≡ matches_names B f (names ls)
  unfolding matches matches_names
  matches-names f ls = ap (B.evaluate_with f.expr) (fun_ext (has_label-contains ls))

  filter_matches-parse :
      (s : Text) (ls : List Label)
      → filter_matches B s ls
        ≡ elim (parse B s) [ ok f ↦ matches_names B f (names ls) | err e ↦ false ]
  unfolding filter_matches
  filter_matches-parse s ls =
      ap (λ (g : LabelFilter → Bool). elim (parse B s) [ ok f ↦ g f | err e ↦ false ])
        (fun_ext (λ f. matches-names f ls))

  -- Parts (a) and (b).
  rows_block :
      (ls : List Label) (rs : List Running)
      → (global_running rs || some_filter_matches B ls rs)
        ≡ any_row (λ r. serializes r.serial_filter (names ls)) rs
  unfolding global_running some_filter_matches
  rows_block ls [] = refl
  rows_block ls (r ∷ rs) = ground (
    arith,
    rows_block ls rs,
    filter_matches-parse r.serial_filter ls,
    none_not_all r.serial_filter,
  )

  -- Part (d).
  exists_running-matches :
      (labels : List (ℕ × Text)) (f : LabelFilter) (rs : List Running)
      → exists_running labels (to_sql f) rs
        ≡ any_row (λ r. matches_names B f (labels_of r.id labels)) rs
  unfolding exists_running matches_names to_sql
  exists_running-matches labels f [] = refl
  exists_running-matches labels f (r ∷ rs) =
      ap₂ ◌||◌ (sql_holds-to_sql_expr (labels_of r.id labels) f.expr ∙ sym (B.evaluates f.expr _))
        (exists_running-matches labels f rs)

  -- A filter that `coordinate` brings: a sentinel, or a text that parses.
  abbrev pub IsStorable : Text → Type 0
  IsStorable s = (s ≡ serial_none) ⊎ ((s ≡ serial_all) ⊎ ((f : LabelFilter) × (parse B s ≡ ok f)))

  serializes-none : (labels : List Text) → serializes serial_none labels ≡ false
  serializes-none labels = refl

  -- What the filter asks of the rows: parts (c) and (d).
  my_part : (my_filter : Text) (db : Db) → Result ParseError Bool
  my_part my_filter db =
      if text_eq my_filter serial_all
      then ok (is_empty db.running)
      else if text_eq my_filter serial_none
      then ok true
      else parse B my_filter >>= (λ f. ok (not (exists_running db.labels (to_sql f) db.running)))

  my_part-none :
      (db : Db)
      → my_part serial_none db
        ≡ ok (not (any_row (λ r. serializes serial_none (labels_of r.id db.labels)) db.running))
  unfolding my_part
  my_part-none db = ap (λ b. ok (not b)) (sym (any_row-false db.running))

  my_part-all :
      (db : Db)
      → my_part serial_all db
        ≡ ok (not (any_row (λ r. serializes serial_all (labels_of r.id db.labels)) db.running))
  unfolding my_part
  my_part-all db = ap ok (is_empty-any db.running)

  my_part-any :
      (s : Text) (db : Db)
      → IsStorable s
      → my_part s db ≡ ok (not (any_row (λ r. serializes s (labels_of r.id db.labels)) db.running))
  unfolding my_part
  my_part-any s db (inl e) = rw e (my_part-none db)
  my_part-any s db (inr (inl e)) = rw e (my_part-all db)
  my_part-any s db (inr (inr (f, p))) = elim (Bool-cases (text_eq s serial_all)) [
    | inl a ↦ rw (text_eq→eq s serial_all a) (my_part-all db)
    | inr a ↦ elim (Bool-cases (text_eq s serial_none)) [
      | inl n ↦ rw (text_eq→eq s serial_none n) (my_part-none db)
      | inr n ↦ simp (a, n, p, exists_running-matches)
    ]
  ]

  -- `can_start` says yes exactly when no running test conflicts with this one, if the test's own
  -- filter is a sentinel or parses.
  pub can_start-is_blocked :
      (my_labels : List Label) (my_filter : Text) (db : Db)
      → IsStorable my_filter
      → can_start B my_labels my_filter db ≡ ok (not (is_blocked my_labels my_filter db))
  unfolding can_start my_part
  can_start-is_blocked ls s db h =
      let theirs = λ (r : Running). serializes r.serial_filter (names ls) in
      let mine = λ (r : Running). serializes s (labels_of r.id db.labels) in
      let halves = any_row-or theirs mine db.running in
      let rows = rows_block ls db.running in
      let me = my_part-any s db h in
      start_cases (global_running db.running) (some_filter_matches B ls db.running)
        (any_row theirs db.running) (any_row mine db.running) rows me
      ∙ ap (λ b. ok (not b)) (sym halves)
