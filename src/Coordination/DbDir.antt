-- ===== src/Coordination/DbDir.antt =====
-- src/coordination/db_dir.rs: the directory that holds the database. An absolute path is the list of
-- its components, the innermost first, each in UTF-8; the root is the empty list.
pub mod Shared
pub mod Usable
use mathlib.Core.List.{reverse}
use skuld.Prelude.{
  ℕ, ◌==◌, ◌≡◌, Bool, true, false, ◌&&◌, ◌||◌, List, [], ◌∷◌, ◌++◌, Option, none, some, Text, codes,
  text_eq, strip_prefix, length, leb, if◌then◌else◌, Result, ok, err, ◌>>=◌,
}
use skuld.Label.Name.{is_digit}

abbrev pub FilePath : Type 0
FilePath = List Text

-- `Path::parent`, `file_name` and `join`.
abbrev pub parent : FilePath → Option FilePath
parent [] = none
parent (name ∷ path) = some path

abbrev pub file_name : FilePath → Option Text
file_name [] = none
file_name (name ∷ path) = some name

abbrev pub maybe {ℓ κ} : {A : Type ℓ} {B : Type κ} → B → (A → B) → Option A → B
maybe b f none = b
maybe b f (some a) = f a

-- `str::strip_suffix` with the `unwrap_or` of the text itself.
unfoldable pub without_suffix : Text → Text → Text
without_suffix s t = maybe t reverse (strip_prefix (reverse s) (reverse t))

-- `str::rsplit_once`: what stands behind the last of these characters.
unfoldable pub behind_last : ℕ → Text → Option Text
behind_last c [] = none
behind_last c (x ∷ t) = elim (behind_last c t) [
  | some hash ↦ some hash
  | none ↦ if x == c then some t else none
]

abbrev pub is_ascii_hexdigit : ℕ → Bool
is_ascii_hexdigit b = is_digit b || (leb b'a' b && leb b b'f') || (leb b'A' b && leb b b'F')

unfoldable pub all_hexdigits : Text → Bool
all_hexdigits [] = true
all_hexdigits (b ∷ t) = is_ascii_hexdigit b && all_hexdigits t

-- `name-<16 hex>`, perhaps with `.exe`, perhaps with ` (deleted)` behind.
unfoldable pub is_cargo_hashed_name : Text → Bool
unfolding without_suffix behind_last all_hexdigits
is_cargo_hashed_name name =
    let stem = without_suffix (codes ".exe") (without_suffix (codes " (deleted)") name) in
    maybe false (λ hash. length hash == 16 && all_hexdigits hash) (behind_last b'-' stem)

unfoldable pub is_cargo_hashed : FilePath → Bool
unfolding is_cargo_hashed_name
is_cargo_hashed exe = maybe false is_cargo_hashed_name (file_name exe)

-- What the file system answers.
pub record Disk : Type 0 where
  pub is_dir : FilePath → Bool
  pub is_file : FilePath → Bool
  pub canonicalize : FilePath → Result ℕ FilePath
  pub metadata_is_dir : FilePath → Result ℕ Bool
  pub access_refuses : FilePath → Option ℕ

unfoldable pub has_cargo_marker : Disk → FilePath → Bool
has_cargo_marker disk profile =
    disk.is_dir (codes ".fingerprint" ∷ profile)
    || maybe false (λ target. disk.is_file (codes "CACHEDIR.TAG" ∷ target)) (parent profile)

abbrev pub named : Text → FilePath → Bool
named name path = maybe false (λ n. text_eq n name) (file_name path)

-- `step_up`.
unfoldable pub step_up : FilePath → (FilePath → Bool) → Option FilePath → Option FilePath
unfolding is_cargo_hashed
step_up exe has_marker none = none
step_up exe has_marker (some profile) =
    if is_cargo_hashed exe || has_marker profile then some profile else none

abbrev pub grandparent : FilePath → Option FilePath
grandparent path = maybe none parent (parent path)

-- The `build` directory above `build/<pkg>/<hash>/out`.
abbrev pub build_of : FilePath → Option FilePath
build_of out =
    maybe none (λ build. if named (codes "build") build then some build else none)
      (maybe none parent (grandparent out))

unfoldable pub layout_dir : FilePath → (FilePath → Bool) → Option FilePath
unfolding step_up
layout_dir [] has_marker = none
layout_dir (name ∷ directory) has_marker =
    let exe = name ∷ directory in
    if named (codes "deps") directory || named (codes "examples") directory
    then some (maybe directory (λ profile. profile) (step_up exe has_marker (parent directory)))
    else if named (codes "out") directory
    then some (
        maybe directory (λ profile. profile)
          (maybe none (λ build. step_up exe has_marker (parent build)) (build_of directory)))
    else some directory

-- ENOENT on Linux.
abbrev pub not_found : ℕ
not_found = 2

unfoldable pub ends_with : Text → Text → Bool
ends_with s t = maybe false (λ rest. true) (strip_prefix (reverse s) (reverse t))

-- On Linux. A binary that was replaced has a directory still.
unfoldable pub canonical_exe : Disk → FilePath → Result ℕ FilePath
unfolding ends_with
canonical_exe disk exe = elim (disk.canonicalize exe) [
  | ok path ↦ ok path
  | err errno ↦
      if errno == not_found && maybe false (ends_with (codes " (deleted)")) (file_name exe)
      then elim exe [
        | [] ↦ err errno
        | file ∷ directory ↦ disk.canonicalize directory >>= (λ path. ok (file ∷ path))
      ]
      else err errno
]

-- The messages of `resolve`.
pub data DirError : Type 0 where
  not_absolute no_current_exe no_canonical no_layout unusable not_created : DirError

unfoldable pub has_nul : FilePath → Bool
has_nul [] = false
has_nul (name ∷ path) = maybe false (λ rest. true) (behind_last 0 name) || has_nul path

-- On Unix: ENOTDIR and EINVAL are the two errors of its own.
unfoldable pub check_usable : Disk → FilePath → Result {0, 0} ℕ Unit
unfolding has_nul
check_usable disk dir = disk.metadata_is_dir dir >>= (λ directory.
    if directory
    then if has_nul dir
      then err 22
      else elim (disk.access_refuses dir) [ none ↦ ok tt | some errno ↦ err errno ]
    else err 20)

abbrev pub or_error : {A : Type 0} → DirError → Result ℕ A → Result DirError A
or_error e (ok a) = ok a
or_error e (err errno) = err e

-- `create` is `create_dir_all_open`, of which the result is kept; `exe` is `current_exe`. A path that is
-- not absolute is `none`.
unfoldable pub resolve :
    Disk
    → (FilePath → Result {0, 0} ℕ Unit)
    → Option (Option FilePath)
    → Result ℕ FilePath
    → Result DirError FilePath
unfolding canonical_exe layout_dir has_cargo_marker check_usable
resolve disk create (some none) exe = err not_absolute
resolve disk create (some (some dir)) exe =
    let created = create dir in
    or_error unusable (check_usable disk dir)
    >>= (λ u. or_error not_created created >>= (λ v. ok dir))
resolve disk create none exe = or_error no_current_exe exe >>= (λ path.
    or_error no_canonical (canonical_exe disk path) >>= (λ real.
      elim (layout_dir real (has_cargo_marker disk)) [
        | none ↦ err no_layout
        | some dir ↦ or_error unusable (check_usable disk dir) >>= (λ u. ok dir)
      ]))
