-- ===== src/Coordination/Database.antt =====
-- src/coordination.rs, the tables `running` and `labels` with the statements run on them:
-- `register`, the guard's DELETE, and `clean_stale_entries`.
use skuld.Prelude.{
  ℕ, suc, ◌+◌, ◌-◌, ◌*◌, ◌^◌, Bool, true, false, not, ◌&&◌, ◌||◌, List, [], ◌∷◌, ◌++◌, Option, none,
  some, ltb, leb, ◌==◌, if◌then◌else◌, Text, text_eq, contains,
}
use skuld.Label.Name.{Label, is_digit}
use skuld.Label.Filter.{SqlCondition, exists_label, one_is, sql_not, sql_and, sql_or}

-- A row of `running`.
pub record Running : Type 0 where
  pub id : ℕ
  pub instance_id : Text
  pub name : Text
  pub serial_filter : Text

-- `labels` holds pairs of a row's id and a label; `next_id` is the AUTOINCREMENT sequence.
pub record Db : Type 0 where
  pub running : List Running
  pub labels : List (ℕ × Text)
  pub next_id : ℕ

-- SELECT label FROM labels WHERE running_id = ?
unfoldable pub labels_of : ℕ → List (ℕ × Text) → List Text
labels_of id [] = []
labels_of id ((i, l) ∷ ls) = let rest = labels_of id ls in if i == id then l ∷ rest else rest

-- The WHERE condition of `to_sql` at a row with these labels.
unfoldable pub sql_holds : List Text → SqlCondition → Bool
sql_holds labels (exists_label name) = contains labels name
sql_holds labels (one_is b) = b
sql_holds labels (sql_not c) = not (sql_holds labels c)
sql_holds labels (sql_and a b) = sql_holds labels a && sql_holds labels b
sql_holds labels (sql_or a b) = sql_holds labels a || sql_holds labels b

-- The `for label in labels` loop of `register`.
unfoldable pub insert_labels : ℕ → List Label → List (ℕ × Text)
insert_labels id [] = []
insert_labels id (l ∷ ls) = (id, l.name) ∷ insert_labels id ls

-- `register`: the row's id, and the database with the row and its labels.
unfoldable pub register : Text → Text → List Label → Text → Db → ℕ × Db
unfolding insert_labels
register instance_id name labels serial_filter db = (
  db.next_id,
  record {
    running =
        db.running
        ++ record {
          id = db.next_id;
          instance_id = instance_id;
          name = name;
          serial_filter = serial_filter;
        }
          ∷ [];
    labels = db.labels ++ insert_labels db.next_id labels;
    next_id = suc db.next_id;
  },
)

-- The rows that a condition on `running` leaves.
unfoldable pub keep_rows : (Running → Bool) → List Running → List Running
keep_rows doomed [] = []
keep_rows doomed (r ∷ rs) = let rest = keep_rows doomed rs in if doomed r then rest else r ∷ rest

-- Whether some row with this id is deleted.
unfoldable pub is_deleted : (Running → Bool) → List Running → ℕ → Bool
is_deleted doomed [] i = false
is_deleted doomed (r ∷ rs) i = doomed r && r.id == i || is_deleted doomed rs i

-- ON DELETE CASCADE
unfoldable pub keep_labels : (ℕ → Bool) → List (ℕ × Text) → List (ℕ × Text)
keep_labels deleted [] = []
keep_labels deleted ((i, l) ∷ ls) =
    let rest = keep_labels deleted ls in if deleted i then rest else (i, l) ∷ rest

-- DELETE FROM running WHERE ...
unfoldable pub delete_where : (Running → Bool) → Db → Db
unfolding keep_rows keep_labels is_deleted
delete_where doomed db = record db {
  running = keep_rows doomed db.running;
  labels = keep_labels (is_deleted doomed db.running) db.labels;
}

-- The DELETE of `TestRegistration::drop`.
unfoldable pub unregister : ℕ → Db → Db
unfolding delete_where
unregister id db = delete_where (λ r. r.id == id) db

-- `instance_id.split(':').next()`.
unfoldable pub before_colon : Text → Text
before_colon [] = []
before_colon (c ∷ s) = let rest = before_colon s in if c == b':' then [] else c ∷ rest

-- The digits of `u32::from_str`, at least one behind an optional `+`, below 2^32.
unfoldable pub digits_value : ℕ → Text → Option ℕ
digits_value acc [] = some acc
digits_value acc (c ∷ s) =
    let rest = digits_value (acc * 10 + (c - b'0')) s in
    if is_digit c && ltb (acc * 10 + (c - b'0')) (2 ^ 32) then rest else none

unfoldable pub parse_u32 : Text → Option ℕ
unfolding digits_value
parse_u32 [] = none
parse_u32 (c ∷ []) = if c == b'+' then none else digits_value 0 (c ∷ [])
parse_u32 (c ∷ d ∷ s) = if c == b'+' then digits_value 0 (d ∷ s) else digits_value 0 (c ∷ d ∷ s)

unfoldable pub pid_from_instance_id : Text → Option ℕ
unfolding before_colon parse_u32
pid_from_instance_id s = parse_u32 (before_colon s)

-- `is_pid_alive` on Unix. `kill_reports` is what `kill(pid, 0)` says: success, or EPERM.
unfoldable pub is_pid_alive : (ℕ → Bool) → ℕ → Bool
is_pid_alive kill_reports pid = if pid == 0 || leb (2 ^ 31) pid then false else kill_reports pid

-- `pid_from_instance_id(iid).is_none_or(|pid| !is_pid_alive(pid))`.
unfoldable pub is_stale : (ℕ → Bool) → Text → Bool
unfolding pid_from_instance_id is_pid_alive
is_stale kill_reports iid = elim (pid_from_instance_id iid) [
  | none ↦ true
  | some pid ↦ not (is_pid_alive kill_reports pid)
]

-- SELECT DISTINCT instance_id FROM running WHERE instance_id != ?, filtered by `is_stale`.
unfoldable pub stale_instances : (ℕ → Bool) → Text → List Running → List Text
unfolding is_stale
stale_instances kill_reports ours [] = []
stale_instances kill_reports ours (r ∷ rs) =
    let rest = stale_instances kill_reports ours rs in
    if not (text_eq r.instance_id ours)
      && is_stale kill_reports r.instance_id
      && not (contains rest r.instance_id)
    then r.instance_id ∷ rest
    else rest

-- `for iid in &stale_instances { DELETE FROM running WHERE instance_id = iid }`.
unfoldable pub delete_instances : List Text → Db → Db
unfolding delete_where
delete_instances [] db = db
delete_instances (iid ∷ iids) db =
    delete_instances iids (delete_where (λ r. text_eq r.instance_id iid) db)

unfoldable pub clean_stale_entries : (ℕ → Bool) → Text → Db → Db
unfolding stale_instances delete_instances
clean_stale_entries kill_reports ours db =
    delete_instances (stale_instances kill_reports ours db.running) db
