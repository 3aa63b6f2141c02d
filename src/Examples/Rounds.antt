-- ===== src/Examples/Rounds.antt =====
-- The rounds of `coordinate` at concrete databases.
use skuld.Prelude.{
  List, ◌++◌, All, false, ℕ, ◌≡◌, refl, [], ◌∷◌, Text, codes, Bool, true, none, some, ok, ◌==◌,
  text_eq, not, ◌&&◌, if◌then◌else◌, inl, inr,
}
use skuld.Label.Name.{new}
use skuld.Label.Filter.{to_sql, to_sql_expr}
use skuld.Coordination.Storage.{serial_none, serial_all, to_storage}
use skuld.Coordination.Database.{
  Db, labels_of, sql_holds, register, insert_labels, clean_stale_entries, stale_instances, is_stale,
  delete_instances, delete_where, keep_rows, keep_labels, is_deleted, unregister,
  pid_from_instance_id, before_colon, parse_u32, digits_value, is_pid_alive,
}
use skuld.Coordination.Transaction.{
  exists_running, global_running, some_filter_matches, can_start, Request, attempt,
}
use skuld.Coordination.Conflict.{is_blocked, can_start-is_blocked}
use skuld.Coordination.Exclusion.{Exclusive}
use skuld.Coordination.Steps.{
  empty_db, tried, dropped, Steps, stay, step, Steps-Exclusive, attempt-is_blocked,
}
use skuld.Coordination.Stale.{clean_stale_entries-running}
use skuld.Coordination.Waiting.{
  coordinate_loop, Round, busy, free_round, sleeps, Waits, coordinate_loop_starts,
}
use skuld.Coordination.Stored.{Keeps, to_storage-Keeps}
use skuld.Examples.Toy.{toy, docker, slow, not_slow_docker}
use skuld.Examples.Labels.{reads_filter}

-- A test that must run alone, and one that need not.
abbrev alone : Request toy
alone = record {
  instance_id = codes "17:a";
  name = codes "alone";
  labels = docker ∷ [];
  serial_filter = serial_all;
}

abbrev other : Request toy
other = record {
  instance_id = codes "18:b";
  name = codes "other";
  labels = slow ∷ [];
  serial_filter = serial_none;
}

abbrev all_alive : ℕ → Bool
all_alive pid = true

abbrev db_alone : Db
db_alone = record {
  running =
      record {
        id = 1;
        instance_id = codes "17:a";
        name = codes "alone";
        serial_filter = serial_all;
      }
      ∷ [];
  labels = (1, codes "docker") ∷ [];
  next_id = 2;
}

abbrev db_other : Db
db_other = record {
  running =
      record {
        id = 2;
        instance_id = codes "18:b";
        name = codes "other";
        serial_filter = serial_none;
      }
      ∷ [];
  labels = (2, codes "slow") ∷ [];
  next_id = 3;
}

abbrev third : Request toy
third = record {
  instance_id = codes "19:c";
  name = codes "third";
  labels = docker ∷ [];
  serial_filter = codes "docker & !slow";
}

abbrev db_both : Db
db_both = record {
  running =
      record {
        id = 2;
        instance_id = codes "18:b";
        name = codes "other";
        serial_filter = serial_none;
      }
      ∷ record {
        id = 3;
        instance_id = codes "19:c";
        name = codes "third";
        serial_filter = codes "docker & !slow";
      }
      ∷ [];
  labels = (2, codes "slow") ∷ (3, codes "docker") ∷ [];
  next_id = 4;
}

-- The third test's filter spares the labels of the other.
third_runs : attempt toy all_alive third db_other ≡ ok (some 3, db_both)
unfolding attempt clean_stale_entries stale_instances is_stale delete_instances can_start register
    insert_labels delete_where keep_rows keep_labels is_deleted pid_from_instance_id before_colon
    parse_u32 digits_value is_pid_alive global_running some_filter_matches exists_running sql_holds
    to_sql to_sql_expr labels_of
third_runs = rw reads_filter refl

-- The first test starts, the second waits for it, and starts when it has ended.
rounds : Steps toy empty_db db_both
unfolding attempt clean_stale_entries stale_instances is_stale delete_instances can_start register
    unregister insert_labels delete_where keep_rows keep_labels is_deleted pid_from_instance_id
    before_colon parse_u32 digits_value is_pid_alive global_running some_filter_matches
rounds =
    step empty_db db_other db_both
      (step empty_db (unregister 1 db_alone) db_other
        (step empty_db db_alone (unregister 1 db_alone)
          (step empty_db db_alone db_alone
            (step empty_db empty_db db_alone (stay empty_db)
              (tried all_alive alone (some 1) empty_db db_alone (inr (inl refl)) refl))
            (tried all_alive other none db_alone db_alone (inl refl) refl))
          (dropped 1 db_alone))
        (tried all_alive other (some 2) (unregister 1 db_alone) db_other (inl refl) refl))
      (tried all_alive third (some 3) db_other db_both (inr (inr (not_slow_docker, reads_filter)))
        third_runs)

Steps-Exclusive_example : Exclusive toy db_both.labels db_both.running
Steps-Exclusive_example = Steps-Exclusive toy db_both rounds

attempt-is_blocked_example :
    attempt toy all_alive other db_alone
    ≡ ok (
        if is_blocked toy
          (slow ∷ [])
          serial_none
          (clean_stale_entries all_alive (codes "18:b") db_alone)
        then (none, db_alone)
        else (
          some
              (register
                (codes "18:b")
                (codes "other")
                (slow ∷ [])
                serial_none
                (clean_stale_entries all_alive (codes "18:b") db_alone)).0,
          (register
              (codes "18:b")
              (codes "other")
              (slow ∷ [])
              serial_none
              (clean_stale_entries all_alive (codes "18:b") db_alone)).1,
        ))
attempt-is_blocked_example = attempt-is_blocked toy all_alive other db_alone (inl refl)

can_start-is_blocked_example :
    can_start toy (docker ∷ []) (codes "docker & !slow") db_both
    ≡ ok (not (is_blocked toy (docker ∷ []) (codes "docker & !slow") db_both))
can_start-is_blocked_example =
    can_start-is_blocked toy (docker ∷ []) (codes "docker & !slow") db_both
      (inr (inr (not_slow_docker, reads_filter)))

-- Only process 18 is alive.
abbrev only_18 : ℕ → Bool
only_18 pid = pid == 18

clean_stale_entries-running_example :
    (clean_stale_entries only_18 (codes "20:d") db_both).running
    ≡ keep_rows
        (λ r. not (text_eq r.instance_id (codes "20:d")) && is_stale only_18 r.instance_id)
        db_both.running
clean_stale_entries-running_example = clean_stale_entries-running only_18 (codes "20:d") db_both

to_storage-Keeps_example :
    (t : Text) × (to_storage toy (codes "docker & !slow") ≡ ok t) × Keeps toy not_slow_docker t
unfolding new
to_storage-Keeps_example =
    to_storage-Keeps toy (codes "docker & !slow") not_slow_docker reads_filter (refl, refl)

-- The first test blocks the second, and an empty database does not.
abbrev two_rounds : List Round
two_rounds =
    record { has_moved = false; meeting = busy; has_moved_since = false }
    ∷ free_round db_alone false
    ∷ []

waits : All (Waits toy true all_alive other) two_rounds
unfolding clean_stale_entries stale_instances is_stale delete_instances delete_where keep_rows
    keep_labels is_deleted pid_from_instance_id before_colon parse_u32 digits_value is_pid_alive
waits = ((refl, tt), ((refl, refl), tt))

free :
    is_blocked toy (slow ∷ []) serial_none (clean_stale_entries all_alive (codes "18:b") empty_db)
    ≡ false
unfolding clean_stale_entries stale_instances delete_instances
free = refl

-- The second test meets a busy database, then the first test, then a free database.
coordinate_loop_starts_example :
    (id : ℕ) × (db' : Db) × ((id, db')
      ≡ register
          (codes "18:b")
          (codes "other")
          (slow ∷ [])
          serial_none
          (clean_stale_entries all_alive (codes "18:b") empty_db))
    × (coordinate_loop toy true all_alive other (two_rounds ++ free_round empty_db false ∷ []) 10
        ≡ ok (sleeps toy true 10 two_rounds, some (id, db')))
coordinate_loop_starts_example =
    coordinate_loop_starts toy true all_alive other two_rounds [] empty_db false 10 (inl refl) waits
      free
