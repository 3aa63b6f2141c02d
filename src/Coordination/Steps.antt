-- ===== src/Coordination/Steps.antt =====
-- src/coordination.rs: every transaction that the processes run on the database keeps it sound, so
-- that no two running tests conflict in any interleaving.
use skuld.Prelude.{
  ℕ, ◌≡◌, refl, sym, ap, ◌∙◌, subst, Bool, true, false, List, [], ◌∷◌, Option, none, some, Text,
  Result, ok, err, Bool-cases, inl, inr, ◌==◌, if◌then◌else◌,
}
use skuld.Label.Build.{ParseError}
use skuld.Label.Filter.{BooleanExpression}
use skuld.Coordination.Database.{
  Db, register, clean_stale_entries, unregister, delete_instances, stale_instances,
}
use skuld.Coordination.Transaction.{Request, attempt}
use skuld.Coordination.Conflict.{is_blocked, IsStorable, can_start-is_blocked}
use skuld.Coordination.Exclusion.{IsSound, Exclusive, delete_where-IsSound, register-IsSound}

-- The database that `open_coordination_db` creates.
abbrev pub empty_db : Db
empty_db = record { running = []; labels = []; next_id = 1 }

result_db : Result ParseError (Option ℕ × Db) → Db
result_db (ok (o, db)) = db
result_db (err e) = empty_db

-- What holds at both ends of a round holds at the end it has.
result_cases :
    (P : Db → Type 0) (held : Bool) (outcome : Option ℕ) (db' : Db) (x y : Option ℕ × Db)
    → ◌≡◌ {A = Result ParseError (Option ℕ × Db)} (ok (outcome, db')) (ok (if held then x else y))
    → (held ≡ true → P x.1)
    → (held ≡ false → P y.1)
    → P db'
unfolding result_db
result_cases P true outcome db' x y e h k = subst P (ap result_db (sym e)) (h refl)
result_cases P false outcome db' x y e h k = subst P (ap result_db (sym e)) (k refl)

module _ (B : BooleanExpression) where
  delete_instances-IsSound :
      (iids : List Text) (db : Db) → IsSound B db → IsSound B (delete_instances iids db)
  unfolding delete_instances
  delete_instances-IsSound [] db h = h
  delete_instances-IsSound (iid ∷ iids) db h =
      delete_instances-IsSound iids _ (delete_where-IsSound B _ db h)

  pub clean_stale_entries-IsSound :
      (kill_reports : ℕ → Bool) (ours : Text) (db : Db)
      → IsSound B db
      → IsSound B (clean_stale_entries kill_reports ours db)
  unfolding clean_stale_entries
  clean_stale_entries-IsSound kill_reports ours db h =
      delete_instances-IsSound (stale_instances kill_reports ours db.running) db h

  -- One transaction on the database: a round of `coordinate` in some process, or the end of a test.
  pub data Step : Db → Db → Type 0 where
    tried :
        (kill_reports : ℕ → Bool) (q : Request B) (outcome : Option ℕ) (db db' : Db)
        → IsStorable B q.serial_filter
        → attempt B kill_reports q db ≡ ok (outcome, db')
        → Step db db'
    dropped : (id : ℕ) (db : Db) → Step db (unregister id db)

  pub data Steps : Db → Db → Type 0 where
    stay : (db : Db) → Steps db db
    step : (db db' db'' : Db) → Steps db db' → Step db' db'' → Steps db db''

  -- A round cleans the stale rows away. If a row that stays conflicts with the test, the round changes
  -- nothing, and the cleaning is undone; else the test is registered in the cleaned database. The
  -- test's filter is a sentinel or parses.
  pub attempt-is_blocked :
      (kill_reports : ℕ → Bool) (q : Request B) (db : Db)
      → IsStorable B q.serial_filter
      → let cleaned = clean_stale_entries kill_reports q.instance_id db in
        let r = register q.instance_id q.name q.labels q.serial_filter cleaned in
        attempt B kill_reports q db
        ≡ ok (if is_blocked B q.labels q.serial_filter cleaned then (none, db) else (some r.0, r.1))
  unfolding attempt
  attempt-is_blocked kill_reports q db h =
      let cleaned = clean_stale_entries kill_reports q.instance_id db in
      elim (Bool-cases (is_blocked B q.labels q.serial_filter cleaned)) [
        | inl e ↦ rw (can_start-is_blocked B q.labels q.serial_filter cleaned h, e) refl
        | inr e ↦ rw (can_start-is_blocked B q.labels q.serial_filter cleaned h, e) refl
      ]

  -- A round keeps the database sound.
  attempt-IsSound :
      (kill_reports : ℕ → Bool) (q : Request B) (outcome : Option ℕ) (db db' : Db)
      → IsStorable B q.serial_filter
      → IsSound B db
      → attempt B kill_reports q db ≡ ok (outcome, db')
      → IsSound B db'
  attempt-IsSound kill_reports q outcome db db' storable h e =
      let cleaned = clean_stale_entries kill_reports q.instance_id db in
      let cleaned_sound = clean_stale_entries-IsSound kill_reports q.instance_id db h in
      result_cases (IsSound B) (is_blocked B q.labels q.serial_filter cleaned) outcome db' _ _
        (sym e ∙ attempt-is_blocked kill_reports q db storable) (λ held. h)
        (register-IsSound B q.instance_id q.name q.labels q.serial_filter cleaned cleaned_sound)

  Step-IsSound : (db db' : Db) → IsSound B db → Step db db' → IsSound B db'
  unfolding unregister
  Step-IsSound db db' h (tried kill_reports q outcome _ _ storable e) =
      attempt-IsSound kill_reports q outcome db db' storable h e
  Step-IsSound db db' h (dropped id _) = delete_where-IsSound B (λ r. r.id == id) db h

  Steps-IsSound : (db db' : Db) → IsSound B db → Steps db db' → IsSound B db'
  Steps-IsSound db db' h (stay _) = h
  Steps-IsSound db db'' h (step _ db' _ before last) =
      Step-IsSound db' db'' (Steps-IsSound db db' h before) last

  empty_db-IsSound : IsSound B empty_db
  empty_db-IsSound = record { ids = tt; label_ids = tt; exclusive = tt }

  -- In every database that rounds of `coordinate` and ends of tests lead to from the empty one, in
  -- whatever order, the ids are distinct and no two running tests conflict, if the filters that
  -- the processes bring are sentinels or parse.
  pub Steps-Exclusive : (db : Db) → Steps empty_db db → Exclusive B db.labels db.running
  Steps-Exclusive db h = (Steps-IsSound empty_db db empty_db-IsSound h).exclusive
