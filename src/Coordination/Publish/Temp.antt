-- ===== src/Coordination/Publish/Temp.antt =====
-- src/coordination/publish.rs: what the temp and its rename leave of the other files.
use skuld.Prelude.{
  ℕ, ◌≡◌, refl, sym, ap, ◌∙◌, subst, true, List, [], ◌∷◌, In, ◌⊎◌, Option, none, some, Text,
  text_eq, text_eq→eq, Bool-cases, Option-cases, Result, ok, err, inl, inr,
}
use skuld.Coordination.Publish.{
  File, Files, write, Disk, world_writable, PublishPanic, cannot_create, cannot_chmod, cannot_stat,
  modes_not_kept, cannot_rename, not_absolute, remove_file, CreateTempOutcome, created, name_taken,
  verify_mode, try_create_publish_temp,
}

-- The files that a panic leaves.
unfoldable pub files_of : PublishPanic → Files
files_of (cannot_create errno files) = files
files_of (cannot_chmod errno files) = files
files_of (cannot_stat errno files) = files
files_of (modes_not_kept mode files) = files
files_of (cannot_rename e files) = files
files_of (not_absolute files) = files

abbrev pub Same : Files → Files → Type 0
Same files files' = (p : Text) → files' p ≡ files p

-- A temp of these names that was not there before, and that could not be removed.
abbrev pub LeftBehind : Disk → List Text → Files → Text → Type 0
LeftBehind disk candidates files p =
    In p candidates × (files p ≡ none) × (disk.remove_refuses p ≡ true)

-- Every file is as it was, but a temp left behind.
abbrev pub Kept : Disk → List Text → Files → Files → Type 0
Kept disk candidates files files' =
    (p : Text) → (files' p ≡ files p) ⊎ LeftBehind disk candidates files p

-- What one attempt at a temp comes to.
abbrev pub Attempted : Disk → Text → Files → Result PublishPanic CreateTempOutcome → Type 0
Attempted disk tmp files (err e) = Kept disk (tmp ∷ []) files (files_of e)
Attempted disk tmp files (ok name_taken) = (f : File) × (files tmp ≡ some f)
Attempted disk tmp files (ok (created files')) =
    (files tmp ≡ none)
    × ((f : File) × Same (write tmp (some f) files) files' × (world_writable f.mode ≡ true))

-- A temp that is all the files have over what they were, and that is removed, if it can be.
pub remove_file-Kept :
    (disk : Disk) (candidates : List Text) (tmp : Text) (file : Option File) (files files' : Files)
    → In tmp candidates
    → files tmp ≡ none
    → Same (write tmp file files) files'
    → Kept disk candidates files (remove_file disk tmp files')
remove_file-Kept disk candidates tmp file files files' at absent same p =
    elim (Bool-cases (text_eq tmp p)) [
      | inl e ↦
          let here = text_eq→eq tmp p e in
          elim (Bool-cases (disk.remove_refuses tmp)) [
            | inl refused ↦
                inr (subst (λ q. LeftBehind disk candidates files q) here (at, absent, refused))
            | inr removed ↦ rw (removed, e) (inl (sym absent ∙ ap files here))
          ]
      | inr e ↦
          let kept : files' p ≡ files p = same p ∙ rw e refl in
          elim (Bool-cases (disk.remove_refuses tmp)) [
            | inl refused ↦ rw refused (inl kept)
            | inr removed ↦ rw (removed, e) (inl kept)
          ]
    ]

rewritten :
    (tmp : Text) (new old : Option File) (files : Files)
    → Same (write tmp new files) (write tmp new (write tmp old files))
rewritten tmp new old files p = elim (Bool-cases (text_eq tmp p)) [
  | inl e ↦ rw e refl
  | inr e ↦ rw e refl
]

verify_mode-Attempted :
    (disk : Disk) (tmp : Text) (files after : Files) (inode : ℕ)
    → files tmp ≡ none
    → Same (write tmp (some (record { inode = inode; mode = disk.kept_mode tmp 438 })) files) after
    → Attempted disk tmp files (verify_mode disk tmp after)
unfolding verify_mode files_of
verify_mode-Attempted disk tmp files after inode absent set =
    let removed = remove_file-Kept disk (tmp ∷ []) tmp _ files after (inl refl) absent set in
    elim (Option-cases (disk.stat_refuses tmp)) [
      | inr (errno, e) ↦ rw (e, verify_mode) removed
      | inl e ↦ elim (Bool-cases (world_writable (disk.kept_mode tmp 438))) [
        | inl writable ↦ rw (e, verify_mode) (rw writable (absent, (_, set, writable)))
        | inr not_kept ↦ rw (e, verify_mode) (rw not_kept removed)
      ]
    ]

pub try_create_publish_temp-Attempted :
    (disk : Disk) (tmp : Text) (files : Files)
    → Attempted disk tmp files (try_create_publish_temp disk tmp files)
unfolding try_create_publish_temp files_of
try_create_publish_temp-Attempted disk tmp files = elim (Option-cases (files tmp)) [
  | inr (f, e) ↦ rw (e, try_create_publish_temp) (f, e)
  | inl absent ↦ elim (Option-cases (disk.open_refuses tmp)) [
    | inr (errno, e) ↦ rw (absent, try_create_publish_temp) (rw e (λ p. inl refl))
    | inl opens ↦ elim (Option-cases (disk.chmod_refuses tmp)) [
      | inr (errno, e) ↦
          rw (absent, try_create_publish_temp)
            (rw opens
              (rw e (remove_file-Kept disk (tmp ∷ []) tmp _ files _ (inl refl) absent (λ p. refl))))
      | inl chmods ↦
          rw (absent, try_create_publish_temp)
            (rw opens (
              rw chmods (
                verify_mode-Attempted disk tmp files _ (disk.new_inode tmp) absent
                  (rewritten tmp _ _ files))))
    ]
  ]
]
