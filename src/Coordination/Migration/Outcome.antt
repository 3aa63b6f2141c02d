-- ===== src/Coordination/Migration/Outcome.antt =====
-- src/coordination.rs: what a migration leaves, whatever stops it.
use skuld.Prelude.{
  ℕ, ◌≡◌, refl, Bool, true, false, Option, none, some, leb, if◌then◌else◌, Bool-cases, Result, ok,
  err, inl, inr, ◌⊎◌, arith, All, ◌≤◌,
}
use skuld.Label.Filter.{BooleanExpression}
use skuld.Coordination.Database.{Db}
use skuld.Coordination.Exclusion.{IsSound}
use skuld.Coordination.Migration.{
  Store, MigrationPanic, Faults, unless, schema_version, scrub_serial_filters_v1, commit_migration,
  check_after_commit, migrate_schema,
}
use skuld.Coordination.Migration.Scrub.{NamesLabels, scrub_serial_filters_v1-IsSound}

module _ (B : BooleanExpression) where
  -- The store as it was, or scrubbed and of this version; and no panic only at this version.
  abbrev pub Migrated : Faults → Store → Store × Option MigrationPanic → Type 0
  Migrated faults store (store', panic) =
      ((store' ≡ store)
        ⊎ ((scrub_serial_filters_v1 B faults.update store.db ≡ ok store'.db)
            × (store'.user_version ≡ schema_version)))
      × (panic ≡ none → schema_version ≤ store'.user_version)

  stopped :
      (faults : Faults) (store : Store) (p : MigrationPanic) → Migrated faults store (store, some p)
  stopped faults store p = (inl refl, λ h. cc)

  unless-Migrated :
      (faults : Faults) (store : Store) (fault : Option MigrationPanic)
      (next : Store × Option MigrationPanic)
      → Migrated faults store next
      → Migrated faults store (unless fault next (λ p. (store, some p)))
  unless-Migrated faults store none next h = h
  unless-Migrated faults store (some p) next h = stopped faults store p

  checked-Migrated :
      (faults : Faults) (store : Store) (db : Db) (fault : Option MigrationPanic)
      → scrub_serial_filters_v1 B faults.update store.db ≡ ok db
      → Migrated faults store (
          check_after_commit faults (
            unless fault
              (record { db = db; user_version = schema_version }, none)
              (λ p. (store, some p))))
  checked-Migrated faults store db (some p) e = stopped faults store p
  checked-Migrated faults store db none e = (inr (e, refl), λ h. omega arith)

  committed-Migrated :
      (faults : Faults) (store : Store) (scrubbed : Result MigrationPanic Db)
      → scrub_serial_filters_v1 B faults.update store.db ≡ scrubbed
      → Migrated faults store (elim scrubbed [
        | err p ↦ (store, some p)
        | ok db ↦
            unless faults.bump
              (check_after_commit faults
                (commit_migration faults store (record { db = db; user_version = schema_version })))
              (λ p. (store, some p))
      ])
  unfolding commit_migration
  committed-Migrated faults store (err p) e = stopped faults store p
  committed-Migrated faults store (ok db) e =
      unless-Migrated faults store faults.bump
        (check_after_commit faults
          (commit_migration faults store (record { db = db; user_version = schema_version })))
        (checked-Migrated faults store db faults.commit e)

  -- The transaction, once its lock is held.
  inside-Migrated :
      (faults : Faults) (store : Store) (is_done : Bool)
      → leb schema_version store.user_version ≡ is_done
      → Migrated faults store (
          if is_done
          then commit_migration faults store store
          else elim (scrub_serial_filters_v1 B faults.update store.db) [
            | err p ↦ (store, some p)
            | ok db ↦
                unless faults.bump
                  (check_after_commit faults (
                    commit_migration faults store
                      (record { db = db; user_version = schema_version })))
                  (λ p. (store, some p))
          ])
  unfolding commit_migration
  inside-Migrated faults store true e =
      unless-Migrated faults store faults.commit (store, none) (inl refl, λ h. ground (arith, e))
  inside-Migrated faults store false e =
      committed-Migrated faults store (scrub_serial_filters_v1 B faults.update store.db) refl

  -- Versions only grow: where the first read is no later than the store that BEGIN IMMEDIATE meets, a
  -- migration leaves that store, or leaves it scrubbed with the version of this schema, whatever panics on
  -- the way; and it returns only when the store has at least that version.
  pub migrate_schema-Migrated :
      (faults : Faults) (current : ℕ) (store : Store)
      → current ≤ store.user_version
      → Migrated faults store (migrate_schema B faults current store)
  unfolding migrate_schema
  migrate_schema-Migrated faults current store grows =
      elim (Bool-cases (leb schema_version current)) [
        | inl e ↦ rw (e, migrate_schema) (inl refl, λ h. ground (arith, e))
        | inr e ↦
            rw (e, migrate_schema)
              (unless-Migrated faults store faults.begin _ (
                unless-Migrated faults store faults.re_read _
                  (inside-Migrated faults store (leb schema_version store.user_version) refl)))
      ]

  -- A sound database is sound after a migration, whatever panics on the way, if the names in the filters of
  -- its rows that parse are names of labels.
  pub migrate_schema-IsSound :
      (faults : Faults) (current : ℕ) (store : Store)
      → current ≤ store.user_version
      → All (NamesLabels B) store.db.running
      → IsSound B store.db
      → IsSound B ((migrate_schema B faults current store).0.db)
  migrate_schema-IsSound faults current store grows named sound =
      elim (migrate_schema-Migrated faults current store grows).0 [
        | inl same ↦ rw same sound
        | inr (scrubbed, version) ↦
            scrub_serial_filters_v1-IsSound B faults.update store.db _ named scrubbed sound
      ]
