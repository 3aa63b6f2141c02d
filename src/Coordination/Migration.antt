-- ===== src/Coordination/Migration.antt =====
-- src/coordination.rs: `migrate_schema`, which rewrites the filters of the rows that older binaries left.
pub mod Scrub
pub mod Outcome
use skuld.Prelude.{
  ℕ, Bool, ◌||◌, List, [], ◌∷◌, Option, none, some, leb, if◌then◌else◌, Text, text_eq, Result, ok,
  err, ◌>>=◌,
}
use skuld.Label.Filter.{BooleanExpression, LabelFilter, parse}
use skuld.Coordination.Database.{Running, Db}
use skuld.Coordination.Storage.{serial_none, serial_all, stored}

-- The database file: its tables, and PRAGMA user_version.
pub record Store : Type 0 where
  pub db : Db
  pub user_version : ℕ

-- The panic of a statement that fails, with SQLite's code, or of a check that finds the file moved.
pub data MigrationPanic : Type 0 where
  failed : ℕ → MigrationPanic
  was_moved : MigrationPanic

-- What panics on the way, if anything does: each field is for one statement, with the checks before it.
pub record Faults : Type 0 where
  pub begin : Option MigrationPanic
  pub re_read : Option MigrationPanic
  pub update : ℕ → Option MigrationPanic
  pub bump : Option MigrationPanic
  pub commit : Option MigrationPanic
  pub check_after : Option MigrationPanic

abbrev pub unless {ℓ} : {A : Type ℓ} → Option MigrationPanic → A → (MigrationPanic → A) → A
unless none next stop = next
unless (some p) next stop = stop p

-- SCHEMA_VERSION.
abbrev pub schema_version : ℕ
schema_version = 1

-- COMMIT: the new store, or a panic behind the rollback to the old one.
unfoldable pub commit_migration : Faults → Store → Store → Store × Option MigrationPanic
commit_migration faults before after = unless faults.commit (after, none) (λ p. (before, some p))

-- The check behind the commit, which comes too late to undo it.
abbrev pub check_after_commit :
    Faults → Store × Option MigrationPanic → Store × Option MigrationPanic
check_after_commit faults (store, some p) = (store, some p)
check_after_commit faults (store, none) = (store, faults.check_after)

module _ (B : BooleanExpression) where
  -- One turn of the loop: the row as it is then. A row that does not parse is left alone.
  unfoldable pub scrub_row : (ℕ → Option MigrationPanic) → Running → Result MigrationPanic Running
  scrub_row update r =
      if text_eq r.serial_filter serial_none || text_eq r.serial_filter serial_all
      then ok r
      else elim (parse B r.serial_filter) [
        | err e ↦ ok r
        | ok filter ↦
            if text_eq (stored filter) r.serial_filter
            then ok r
            else unless (update r.id) (ok (record r { serial_filter = stored filter })) err
      ]

  unfoldable pub scrub_rows :
      (ℕ → Option MigrationPanic) → List Running → Result MigrationPanic (List Running)
  scrub_rows update [] = ok []
  scrub_rows update (r ∷ rs) = do r' ← scrub_row update r; rs' ← scrub_rows update rs; ok (r' ∷ rs')

  unfoldable pub scrub_serial_filters_v1 :
      (ℕ → Option MigrationPanic) → Db → Result MigrationPanic Db
  scrub_serial_filters_v1 update db =
      scrub_rows update db.running >>= (λ rows. ok (record db { running = rows }))

  -- `migrate_schema`, given the version that it first reads and the store that BEGIN IMMEDIATE meets:
  -- the store that is left, and the panic, if there is one. A panic inside the transaction rolls back.
  -- Behind the first test `current < 1` holds, so the scrub is always run.
  unfoldable pub migrate_schema : Faults → ℕ → Store → Store × Option MigrationPanic
  unfolding commit_migration scrub_serial_filters_v1
  migrate_schema faults current store =
      if leb schema_version current
      then (store, none)
      else unless faults.begin
          (unless faults.re_read
            (if leb schema_version store.user_version
              then commit_migration faults store store
              else elim (scrub_serial_filters_v1 faults.update store.db) [
                | err p ↦ (store, some p)
                | ok db ↦
                    unless faults.bump
                      (check_after_commit faults (
                        commit_migration faults store
                          (record { db = db; user_version = schema_version })))
                      (λ p. (store, some p))
              ])
            (λ p. (store, some p)))
          (λ p. (store, some p))
