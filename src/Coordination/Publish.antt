-- ===== src/Coordination/Publish.antt =====
-- src/coordination/publish.rs: the atomic publication of the database file on Unix.

pub mod Temp
pub mod Outcome
pub mod Race
use skuld.Prelude.{
  ℕ, ◌/◌, ◌%◌, ◌≡◌, ◌≢◌, refl, Bool, true, false, not, ◌&&◌, List, [], ◌∷◌, Option, none, some, leb,
  ◌==◌, if◌then◌else◌, Text, text_eq, Result, ok, err, inl, inr, arith,
}

pub record File : Type 0 where
  pub inode : ℕ
  pub mode : ℕ

-- What `lstat` finds at a path.
abbrev pub Files : Type 0
Files = Text → Option File

abbrev pub write : Text → Option File → Files → Files
write path file files p = if text_eq path p then file else files p

-- `RenameError`, with the errno.
pub data RenameError : Type 0 where
  already_exists : RenameError
  unsupported : ℕ → RenameError
  kernel_too_old : ℕ → RenameError
  other : ℕ → RenameError

-- EEXIST, EINVAL, ENOTSUP and ENOSYS of Linux.
unfoldable pub classify_rename_errno : ℕ → RenameError
classify_rename_errno errno =
    if errno == 17
    then already_exists
    else if errno == 22
    then unsupported errno
    else if errno == 95
    then unsupported errno
    else if errno == 38
    then kernel_too_old errno
    else other errno

-- The file system: the errno of a call that it refuses, the mode that it keeps of the one asked,
-- the number of a new file, and whether it refuses to remove a file. It answers EEXIST to a rename at nothing but an existing target.
pub record Disk : Type 0 where
  pub open_refuses : Text → Option ℕ
  pub chmod_refuses : Text → Option ℕ
  pub stat_refuses : Text → Option ℕ
  pub rename_refuses : Text → Option ℕ
  pub kept_mode : Text → ℕ → ℕ
  pub new_inode : Text → ℕ
  pub remove_refuses : Text → Bool
  pub refuses_otherwise :
      (from : Text) (errno : ℕ)
      → rename_refuses from ≡ some errno
      → classify_rename_errno errno ≢ already_exists

-- `let _ = remove_file(..)`, whose error is ignored.
abbrev pub remove_file : Disk → Text → Files → Files
remove_file disk path files = if disk.remove_refuses path then files else write path none files

-- `got_mode & 0o666 == 0o666`, with `got_mode` the mode's last nine bits.
unfoldable pub world_writable : ℕ → Bool
world_writable mode = leb 6 (mode / 64 % 8) && (leb 6 (mode / 8 % 8) && leb 6 (mode % 8))

-- The panics, with the files that they leave.
pub data PublishPanic : Type 0 where
  cannot_create : ℕ → Files → PublishPanic
  cannot_chmod : ℕ → Files → PublishPanic
  cannot_stat : ℕ → Files → PublishPanic
  modes_not_kept : ℕ → Files → PublishPanic
  cannot_rename : RenameError → Files → PublishPanic
  not_absolute : Files → PublishPanic

pub data CreateTempOutcome : Type 0 where
  created : Files → CreateTempOutcome
  name_taken : CreateTempOutcome

-- `file.metadata()` and the test of the mode, at a temp whose mode was set.
unfoldable pub verify_mode : Disk → Text → Files → Result PublishPanic CreateTempOutcome
verify_mode disk tmp files = elim (disk.stat_refuses tmp) [
  | some errno ↦ err (cannot_stat errno (remove_file disk tmp files))
  | none ↦
      let got_mode = disk.kept_mode tmp 438 in
      if world_writable got_mode
      then ok (created files)
      else err (modes_not_kept got_mode (remove_file disk tmp files))
]

-- `open` with O_EXCL at 0600, `fchmod` to 0666, and the test that the mode was kept. A temp that fails
-- is removed again, if the file system lets it.
unfoldable pub try_create_publish_temp : Disk → Text → Files → Result PublishPanic CreateTempOutcome
try_create_publish_temp disk tmp files = elim (files tmp) [
  | some file ↦ ok name_taken
  | none ↦ elim (disk.open_refuses tmp) [
    | some errno ↦ err (cannot_create errno files)
    | none ↦
        let opened : File = record { inode = disk.new_inode tmp; mode = disk.kept_mode tmp 384 } in
        let at_0600 = write tmp (some opened) files in
        elim (disk.chmod_refuses tmp) [
          | some errno ↦ err (cannot_chmod errno (remove_file disk tmp at_0600))
          | none ↦
              let set : File = record { inode = opened.inode; mode = disk.kept_mode tmp 438 } in
              verify_mode disk tmp (write tmp (some set) at_0600)
        ]
  ]
]

-- The retry over the candidate names: `none` if every one of them was taken.
unfoldable pub create_publish_temp_with :
    Disk → List Text → Files → Result PublishPanic (Option (Text × Files))
create_publish_temp_with disk [] files = ok none
create_publish_temp_with disk (tmp ∷ candidates) files =
    let retry = create_publish_temp_with disk candidates files in
    elim (try_create_publish_temp disk tmp files) [
      | err e ↦ err e
      | ok (created files') ↦ ok (some (tmp, files'))
      | ok name_taken ↦ retry
    ]

-- `rename` without replacing: an errno, or the files with the temp at the target.
unfoldable pub atomic_rename_no_replace : Disk → Text → Text → Files → Result RenameError Files
atomic_rename_no_replace disk tmp target files = elim (disk.rename_refuses tmp) [
  | some errno ↦ err (classify_rename_errno errno)
  | none ↦ elim (files tmp) [
    | none ↦ err (classify_rename_errno 2)
    | some file ↦ elim (files target) [
      | some old ↦ err (classify_rename_errno 17)
      | none ↦ ok (write tmp none (write target (some file) files))
    ]
  ]
]

unfoldable pub handle_rename_result :
    Disk → Text → Files → Result RenameError Files → Result PublishPanic Files
handle_rename_result disk tmp files (ok renamed) = ok renamed
handle_rename_result disk tmp files (err already_exists) = ok (remove_file disk tmp files)
handle_rename_result disk tmp files (err (unsupported errno)) =
    err (cannot_rename (unsupported errno) (remove_file disk tmp files))
handle_rename_result disk tmp files (err (kernel_too_old errno)) =
    err (cannot_rename (kernel_too_old errno) (remove_file disk tmp files))
handle_rename_result disk tmp files (err (other errno)) =
    err (cannot_rename (other errno) (remove_file disk tmp files))

unfoldable pub rename_publish_temp : Disk → Text → Text → Files → Result PublishPanic Files
rename_publish_temp disk tmp target files =
    handle_rename_result disk tmp files (atomic_rename_no_replace disk tmp target files)

-- `publish_one`: `none` if the candidates were used up.
unfoldable pub publish_one : Disk → List Text → Text → Files → Result PublishPanic (Option Files)
publish_one disk candidates target files = elim (create_publish_temp_with disk candidates files) [
  | err e ↦ err e
  | ok none ↦ ok none
  | ok (some (tmp, files')) ↦ elim (rename_publish_temp disk tmp target files') [
    | err e ↦ err e
    | ok published ↦ ok (some published)
  ]
]

-- `Path::is_absolute` on Unix.
abbrev pub is_absolute : Text → Bool
is_absolute [] = false
is_absolute (c ∷ path) = c == b'/'

-- The fast path: nothing is done at a path where there is something. Else a debug build asserts that the
-- path is absolute.
unfoldable pub ensure_published_with :
    Bool
    → (Files → Result PublishPanic (Option Files))
    → Text
    → Files
    → Result PublishPanic (Option Files)
ensure_published_with is_debug publish target files = elim (files target) [
  | some file ↦ ok (some files)
  | none ↦ if is_debug && not (is_absolute target) then err (not_absolute files) else publish files
]

unfoldable pub ensure_published :
    Bool → Disk → List Text → Text → Files → Result PublishPanic (Option Files)
ensure_published is_debug disk candidates target =
    ensure_published_with is_debug (publish_one disk candidates target) target
