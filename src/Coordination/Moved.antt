-- ===== src/Coordination/Moved.antt =====
-- src/coordination/moved_db.rs, on Unix: the identities of the database's files, recorded through the
-- connection's own descriptors, and the check that its paths still name them.
pub mod Recorded
use skuld.Prelude.{
  ℕ, ◌≡◌, refl, sym, ap, ◌∙◌, Bool, true, false, not, ◌&&◌, ◌||◌, List, [], ◌∷◌, ◌++◌, Option, none,
  some, ◌==◌, ==_iff, if◌then◌else◌, Text, codes, Result, ok, err, ◌>>=◌, >>=-eq-ok, ◌↔◌,
  Bool-cases, Option-cases, inl, inr, arith,
}

pub record FileIdentity : Type 0 where
  pub dev : ℕ
  pub ino : ℕ

-- What the operating system and SQLite answer at one moment: `stat` and `fstat`, and the file control
-- SQLITE_FCNTL_HAS_MOVED with its return code and the flag that it sets.
pub record Moment : Type 0 where
  pub stat : Text → Option FileIdentity
  pub fstat : ℕ → Option FileIdentity
  pub fcntl_rc : ℕ
  pub fcntl_has_moved : ℕ

-- The connection: SQLite's own path, and the descriptors that it holds.
pub record Connection : Type 0 where
  pub conn_path : Option Text
  pub main_fd : ℕ
  pub wal_fd : ℕ
  pub shm_fd : ℕ

pub record Tracked : Type 0 where
  pub path : Text
  pub identity : FileIdentity

pub record Companions : Type 0 where
  pub wal : Tracked
  pub shm : Tracked

pub record DbIdentity : Type 0 where
  pub main : FileIdentity
  pub companions : Option Companions

pub data MovedPanic : Type 0 where
  no_path : MovedPanic
  fd_not_open : ℕ → MovedPanic
  sqlite_path_replaced : MovedPanic
  path_retargeted : MovedPanic
  companion_missing : Text → MovedPanic
  companion_replaced : Text → MovedPanic
  file_control_failed : ℕ → MovedPanic
  moved_mid_run : MovedPanic

-- The derived equality, at what `of` gives.
abbrev pub names_it : Option FileIdentity → FileIdentity → Bool
names_it none id = false
names_it (some found) id = found.dev == id.dev && found.ino == id.ino

unfoldable pub own_fd_identity : Moment → ℕ → Result MovedPanic FileIdentity
own_fd_identity now fd = elim (now.fstat fd) [ some id ↦ ok id | none ↦ err (fd_not_open fd) ]

-- `conn.path()`, of which the callers panic without one.
unfoldable pub companion_base : Connection → Result MovedPanic Text
companion_base conn = elim conn.conn_path [ some path ↦ ok path | none ↦ err no_path ]

unfoldable pub record_main_identity : Moment → Connection → Text → Result MovedPanic FileIdentity
record_main_identity now conn path = do
  sqlite_path ← companion_base conn
  identity ← own_fd_identity now conn.main_fd
  if not (names_it (now.stat sqlite_path) identity)
      then err sqlite_path_replaced
      else if not (names_it (now.stat path) identity)
      then err path_retargeted
      else ok identity

unfoldable pub record_main : Moment → Connection → Text → Result MovedPanic DbIdentity
record_main now conn path = do
  main ← record_main_identity now conn path
  ok (record { main = main; companions = none })

unfoldable pub companion_path : Text → Text → Text
companion_path path suffix = path ++ suffix

abbrev pub wal_suffix : Text
wal_suffix = codes "-wal"

abbrev pub shm_suffix : Text
shm_suffix = codes "-shm"

-- The closure `track`, given the identity of the connection's own descriptor.
unfoldable pub track : Moment → Text → Text → FileIdentity → Result MovedPanic Tracked
track now base suffix own =
    let companion = companion_path base suffix in
    elim (now.stat companion) [
      | none ↦ err (companion_missing suffix)
      | some on_disk ↦
          if names_it (some on_disk) own
          then ok (record { path = companion; identity = own })
          else err (companion_replaced suffix)
    ]

-- `with_companions`, with `base` the path that the companions' names extend.
unfoldable pub companions_at :
    Moment → Connection → DbIdentity → Text → Result MovedPanic DbIdentity
companions_at now conn id base = do
  wal_id ← own_fd_identity now conn.wal_fd
  shm_id ← own_fd_identity now conn.shm_fd
  wal ← track now base wal_suffix wal_id
  shm ← track now base shm_suffix shm_id
  ok (record { main = id.main; companions = some (record { wal = wal; shm = shm }) })

unfoldable pub with_companions : Moment → Connection → DbIdentity → Result MovedPanic DbIdentity
unfolding companions_at
with_companions now conn id = companion_base conn >>= companions_at now conn id

unfoldable pub has_moved_via_fcntl : Moment → Result MovedPanic Bool
has_moved_via_fcntl now =
    if now.fcntl_rc == 0
    then ok (not (now.fcntl_has_moved == 0))
    else err (file_control_failed now.fcntl_rc)

-- `Tracked::has_moved`.
unfoldable pub tracked_has_moved : Moment → Tracked → Bool
tracked_has_moved now t = not (names_it (now.stat t.path) t.identity)

unfoldable pub companions_have_moved : Moment → Option Companions → Bool
companions_have_moved now none = false
companions_have_moved now (some c) = tracked_has_moved now c.wal || tracked_has_moved now c.shm

unfoldable pub has_moved : Moment → Text → DbIdentity → Result MovedPanic Bool
has_moved now path id = do
  via_fcntl ← has_moved_via_fcntl now
  ok (
      via_fcntl
      || (not (names_it (now.stat path) id.main) || companions_have_moved now id.companions))

unfoldable pub panic_if_moved : Moment → Text → DbIdentity → Result {0, 0} MovedPanic Unit
panic_if_moved now path id = do
  moved ← has_moved now path id
  if moved then err moved_mid_run else ok tt
