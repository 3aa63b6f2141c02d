-- ===== src/Coordination/DbDir/Usable.antt =====
-- src/coordination/db_dir.rs, `resolve`: which directory it gives, and when.
use skuld.Prelude.{ℕ, ◌≡◌, Option, none, some, Result, ok}
use skuld.Coordination.DbDir.{FilePath, Disk, has_cargo_marker, layout_dir, canonical_exe}

-- Where the directory comes from: SKULD_DB_DIR names it, and it was made, or it is that of the canonical
-- executable.
abbrev pub ComesFrom :
    Disk
    → (FilePath → Result {0, 0} ℕ Unit)
    → Option (Option FilePath)
    → Result ℕ FilePath
    → FilePath
    → Type 0
ComesFrom disk create none exe d =
    (path : FilePath) × (real : FilePath) × (exe ≡ ok path)
    × (canonical_exe disk path ≡ ok real)
    × (layout_dir real (has_cargo_marker disk) ≡ some d)
ComesFrom disk create (some none) exe d = ⊥
ComesFrom disk create (some (some dir)) exe d = (dir ≡ d) × (create dir ≡ ok tt)
