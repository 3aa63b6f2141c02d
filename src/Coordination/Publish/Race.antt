-- ===== src/Coordination/Publish/Race.antt =====
-- src/coordination/publish.rs: publishers of one database, interleaved.
pub mod Calls
pub mod Turns
use skuld.Prelude.{
  ℕ, ◌≡◌, ◌≢◌, refl, sym, ap, ◌∙◌, subst, Bool, true, false, List, [], ◌∷◌, ◌++◌, Option, none,
  some, Text, text_eq, text_eq→eq, text_eq_refl, ◌==◌, ==_iff, if◌then◌else◌, Bool-cases,
  Option-cases, Result, ok, err, inl, inr, ◌⊎◌, arith, All,
}
use skuld.Coordination.Publish.{
  File, Files, write, Disk, world_writable, PublishPanic, CreateTempOutcome, created, name_taken,
  try_create_publish_temp, rename_publish_temp, RenameError, already_exists, unsupported,
  kernel_too_old, other, classify_rename_errno, atomic_rename_no_replace, handle_rename_result,
}
use skuld.Coordination.Publish.Temp.{files_of, Attempted, try_create_publish_temp-Attempted}

-- Where a publisher is: before its `lstat`, before the next attempt at a temp, before the rename of its
-- temp, behind its return or behind its panic.
pub data Phase : Type 0 where
  checking : Phase
  creating : Phase
  renaming : Text → Phase
  returned : Phase
  panicked : Phase

-- What becomes of the result of a rename.
abbrev after_rename : Result PublishPanic Files → Phase × Files
after_rename (err e) = (panicked, files_of e)
after_rename (ok files') = (returned, files')

-- The next call of a publisher: the phase that it is in then, and the files.
unfoldable pub advance : Disk → Text → Text → Phase → Files → Phase × Files
advance disk target candidate checking files = elim (files target) [
  | some file ↦ (returned, files)
  | none ↦ (creating, files)
]
advance disk target candidate creating files = elim (try_create_publish_temp disk candidate files) [
  | err e ↦ (panicked, files_of e)
  | ok (created files') ↦ (renaming candidate, files')
  | ok name_taken ↦ (creating, files)
]
advance disk target candidate (renaming tmp) files =
    after_rename (rename_publish_temp disk tmp target files)
advance disk target candidate returned files = (returned, files)
advance disk target candidate panicked files = (panicked, files)

-- The publishers, by their numbers, and the files that they share.
pub record World : Type 0 where
  pub phases : ℕ → Phase
  pub files : Files

-- The publisher of this number makes its next call, with this candidate name if it creates a temp.
abbrev pub turn : Disk → Text → ℕ × Text → World → World
turn disk target (i, candidate) w =
    let next = advance disk target candidate (w.phases i) w.files in
    record { phases = λ j. if i == j then next.0 else w.phases j; files = next.1 }

abbrev pub turns : Disk → Text → List (ℕ × Text) → World → World
turns disk target [] w = w
turns disk target (t ∷ ts) w = turns disk target ts (turn disk target t w)
