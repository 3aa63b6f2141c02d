-- ===== src/Examples/Files.antt =====
-- The files of the database, its migration, a cleanup and a run's selection at concrete inputs.
use skuld.Prelude.{
  ℕ, ◌+◌, ◌≡◌, ◌≤◌, ◌==◌, refl, sym, ◌∙◌, subst, List, [], ◌∷◌, ◌++◌, true, false, none, some,
  Result, ok, err, Text, Bool, codes, text_eq, if◌then◌else◌, arith, All, ◌↔◌, length,
}
use skuld.Label.Name.{new}
use skuld.Label.Build.{ParseError}
use skuld.Label.Filter.{LabelFilter}
use skuld.Coordination.Storage.{to_storage}
use skuld.Fixture.Registry.{merge_serial_filters}
use skuld.Label.Print.Levels.{HasLabelNames}
use skuld.Coordination.Database.{Running}
use skuld.Coordination.Exclusion.{IsSound}
use skuld.Coordination.Moved.{
  FileIdentity, Moment, Connection, DbIdentity, record_main, with_companions, panic_if_moved,
  wal_suffix, shm_suffix, record_main_identity, own_fd_identity, companion_base, companions_at,
  track, companion_path,
}
use skuld.Coordination.Moved.Recorded.{panic_if_moved-recorded}
use skuld.Coordination.Migration.{Store, Faults, migrate_schema, failed}
use skuld.Coordination.Migration.Scrub.{NamesLabels}
use skuld.Coordination.Migration.Outcome.{Migrated, migrate_schema-Migrated, migrate_schema-IsSound}
use skuld.Coordination.Retry.{Called, Outcome, EndsAs, retry_busy, retry_busy-calls, is_retryable}
use skuld.Coordination.Cleanup.{
  Payload, string, opaque_payload, Conclusion, drops, fail_on_violations, take_violations,
  fail_on_violations-drops,
}
use skuld.Runner.Selection.{InventoryTest, DynTest, Collected, collect_tests}
use skuld.Runner.Selection.Dump.{dump, selected_inventory, selected_dynamic, collect_tests-dump}
use skuld.Examples.Toy.{toy, docker, slow, not_slow_docker}
use skuld.Examples.Labels.{reads_filter}

abbrev file_at : ℕ → FileIdentity
file_at n = record { dev = 1; ino = n }

-- The database and its companions stand at their paths, or another database does.
abbrev moment : ℕ → Moment
moment main = record {
  stat = λ p.
      if text_eq p (codes "db")
      then some (file_at main)
      else if text_eq p (codes "db-wal")
      then some (file_at 22)
      else if text_eq p (codes "db-shm")
      then some (file_at 23)
      else none;
  fstat = λ fd.
      if fd == 3
      then some (file_at 21)
      else if fd == 4
      then some (file_at 22)
      else if fd == 5
      then some (file_at 23)
      else none;
  fcntl_rc = 0;
  fcntl_has_moved = 0;
}

abbrev connection : Connection
connection = record { conn_path = some (codes "db"); main_fd = 3; wal_fd = 4; shm_fd = 5 }

abbrev opened : DbIdentity
opened = record { main = file_at 21; companions = none }

abbrev baseline : DbIdentity
baseline = record {
  main = file_at 21;
  companions = some (record {
    wal = record { path = codes "db-wal"; identity = file_at 22 };
    shm = record { path = codes "db-shm"; identity = file_at 23 };
  });
}

records_main : record_main (moment 21) connection (codes "db") ≡ ok opened
unfolding record_main record_main_identity own_fd_identity companion_base
records_main = refl

records_companions : with_companions (moment 21) connection opened ≡ ok baseline
unfolding with_companions companions_at own_fd_identity companion_base track companion_path
records_companions = refl

panic_if_moved-recorded_example : (panic_if_moved (moment 99) (codes "db") baseline ≡ ok tt) ↔ (
    ((moment 99).fcntl_rc ≡ 0)
    × ((moment 99).fcntl_has_moved ≡ 0)
    × ((moment 99).stat (codes "db") ≡ (moment 21).fstat 3)
    × ((moment 99).stat (codes "db" ++ wal_suffix) ≡ (moment 21).fstat 4)
    × ((moment 99).stat (codes "db" ++ shm_suffix) ≡ (moment 21).fstat 5))
panic_if_moved-recorded_example =
    panic_if_moved-recorded (moment 21) (moment 21) (moment 99) connection (codes "db") (codes "db")
      opened baseline refl records_main records_companions

-- A store of version 0 with one filter that is not in its storage form.
abbrev old_row : Running
old_row = record {
  id = 1;
  instance_id = codes "17:a";
  name = codes "old";
  serial_filter = codes "docker & !slow";
}

abbrev old_store : Store
old_store = record {
  db = record { running = old_row ∷ []; labels = (1, codes "slow") ∷ []; next_id = 2 };
  user_version = 0;
}

-- The commit fails, or nothing does.
abbrev faults : Bool → Faults
faults commit_fails = record {
  begin = none;
  re_read = none;
  update = λ id. none;
  bump = none;
  commit = if commit_fails then some (failed 13) else none;
  check_after = none;
}

migrate_schema-Migrated_example :
    Migrated toy (faults true) old_store (migrate_schema toy (faults true) 0 old_store)
migrate_schema-Migrated_example =
    migrate_schema-Migrated toy (faults true) 0 old_store (omega arith)

old_names : NamesLabels toy old_row
unfolding new
old_names f e =
    let read : ◌≡◌ {A = Result ParseError LabelFilter} (ok not_slow_docker) (ok f) =
      sym reads_filter ∙ e in
    let same : not_slow_docker ≡ f = cc in subst (λ g. HasLabelNames g.expr) same (refl, refl)

old-IsSound : IsSound toy old_store.db
old-IsSound = record {
  ids = (omega arith, tt);
  label_ids = (omega arith, tt);
  exclusive = (tt, tt);
}

migrate_schema-IsSound_example : IsSound toy ((migrate_schema toy (faults false) 0 old_store).0.db)
migrate_schema-IsSound_example =
    migrate_schema-IsSound toy (faults false) 0 old_store (omega arith) (old_names, tt) old-IsSound

-- Two calls meet a lock, and the third returns.
-- Two calls that meet SQLITE_BUSY, and one that meets SQLITE_LOCKED, in a debug build.
abbrev called : ℕ → Called Text ℕ true
called code = record { result = ok (err (record { code = code })); is_autocommit = true }

retry_busy-calls_example :
    (sleeps : List ℕ) × (end : Outcome Text ℕ true) × (retry_busy Text ℕ true true
        (called 5 ∷ called 5 ∷ called 6 ∷ [])
      ≡ some (sleeps, end))
    × EndsAs Text ℕ true (called 6).result end
    × (length sleeps ≡ 2)
    × All (λ ms. ms ≤ 200) sleeps
unfolding is_retryable
retry_busy-calls_example =
    retry_busy-calls Text ℕ true (called 5 ∷ called 5 ∷ []) [] (called 6)
      ((refl, refl), ((refl, refl), tt)) refl

-- A failed cleanup while unwinding, one that succeeds, and a failed one that raises.
abbrev some_drops : List (Bool × Result {0, 0} Payload Unit)
some_drops = (true, err (string (codes "moved"))) ∷ (true, ok tt) ∷ (false, err opaque_payload) ∷ []

abbrev one_failed : Conclusion
one_failed = record { num_failed = 1 }

fail_on_violations-drops_example :
    (fail_on_violations one_failed ((take_violations ((drops some_drops []).1)).0)).num_failed
      + length ((drops some_drops []).0)
    ≡ 1 + 2
fail_on_violations-drops_example = fail_on_violations-drops one_failed some_drops (omega arith)

-- A test of the inventory, and an ignored one that is added at runtime.
abbrev inventory_test : InventoryTest
inventory_test = record {
  module_path = codes "app::t";
  name = codes "a";
  display_name = none;
  is_ignored = false;
  serial = codes "*";
  requires = none ∷ [];
  resolved = docker ∷ [];
  fixture_serial = [];
  fixture_requires = [];
}

abbrev dyn_test : DynTest
dyn_test = record { name = codes "b"; ignored = true; serial = []; labels = slow ∷ [] }

collect_tests-dump_example :
    (c : Collected) × (collect_tests toy none true (inventory_test ∷ []) (dyn_test ∷ []) ≡ ok c)
    × (c.trials
        ≡ selected_inventory toy none true (inventory_test ∷ [])
          ++ selected_dynamic toy none (dyn_test ∷ []))
    × (dump toy c.trials ≡ ok c.metadata)
unfolding to_storage merge_serial_filters
collect_tests-dump_example =
    collect_tests-dump toy none true (inventory_test ∷ []) (dyn_test ∷ []) ((codes "*", refl), tt)
      (([], refl), tt)
