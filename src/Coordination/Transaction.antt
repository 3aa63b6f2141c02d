-- ===== src/Coordination/Transaction.antt =====
-- src/coordination.rs, `can_start` and the transaction and loop of `coordinate`.
use skuld.Prelude.{
  ℕ, Bool, true, false, not, ◌&&◌, ◌||◌, List, [], ◌∷◌, Option, none, some, if◌then◌else◌, Text,
  text_eq, Result, ok, err, ◌>>=◌,
}
use skuld.Label.Name.{Label}
use skuld.Label.Build.{ParseError}
use skuld.Label.Filter.{BooleanExpression, SqlCondition, parse, matches, to_sql}
use skuld.Coordination.Storage.{serial_none, serial_all}
use skuld.Coordination.Database.{Running, Db, labels_of, sql_holds, register, clean_stale_entries}

-- SELECT EXISTS(SELECT 1 FROM running WHERE serial_filter = '*')
unfoldable pub global_running : List Running → Bool
global_running [] = false
global_running (r ∷ rs) = text_eq r.serial_filter serial_all || global_running rs

-- SELECT EXISTS (SELECT 1 FROM running r WHERE ...)
unfoldable pub exists_running : List (ℕ × Text) → SqlCondition → List Running → Bool
exists_running labels c [] = false
exists_running labels c (r ∷ rs) = sql_holds (labels_of r.id labels) c || exists_running labels c rs

abbrev pub is_empty : List Running → Bool
is_empty [] = true
is_empty (r ∷ rs) = false

module _ (B : BooleanExpression) where
  -- Whether a stored filter matches; a row that does not parse is skipped with a warning.
  unfoldable pub filter_matches : Text → List Label → Bool
  filter_matches s my_labels = elim (parse B s) [ ok f ↦ matches B f my_labels | err e ↦ false ]

  -- Part (b): some row with a filter of its own matches the labels.
  unfoldable pub some_filter_matches : List Label → List Running → Bool
  some_filter_matches my_labels [] = false
  some_filter_matches my_labels (r ∷ rs) =
      not (text_eq r.serial_filter serial_none)
        && not (text_eq r.serial_filter serial_all)
        && filter_matches r.serial_filter my_labels
      || some_filter_matches my_labels rs

  -- `can_start`. `err` is the panic of `expect` on a filter that does not parse.
  unfoldable pub can_start : List Label → Text → Db → Result ParseError Bool
  can_start my_labels my_filter db =
      if global_running db.running
      then ok false
      else if some_filter_matches my_labels db.running
      then ok false
      else if text_eq my_filter serial_all
      then ok (is_empty db.running)
      else if text_eq my_filter serial_none
      then ok true
      else parse B my_filter >>= (λ f. ok (not (exists_running db.labels (to_sql f) db.running)))

  -- What a test brings to `coordinate`, its filter in storage form.
  pub record Request : Type 0 where
    pub instance_id : Text
    pub name : Text
    pub labels : List Label
    pub serial_filter : Text

  -- The transaction of one round: `some id` after COMMIT, `none` after ROLLBACK, which undoes the
  -- cleaning too.
  unfoldable pub attempt : (ℕ → Bool) → Request → Db → Result ParseError (Option ℕ × Db)
  attempt kill_reports q db =
      let cleaned = clean_stale_entries kill_reports q.instance_id db in
      can_start q.labels q.serial_filter cleaned >>= (λ free. elim free [
        | true ↦
            let (id, db') = register q.instance_id q.name q.labels q.serial_filter cleaned in
            ok (some id, db')
        | false ↦ ok (none, db)
      ])
