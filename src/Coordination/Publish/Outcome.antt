-- ===== src/Coordination/Publish/Outcome.antt =====
-- src/coordination/publish.rs: what a whole publication comes to.
use skuld.Prelude.{
  ◌≡◌, ◌≢◌, refl, sym, ap, ◌∙◌, Bool, true, false, not, ◌&&◌, List, [], ◌∷◌, Option, none, some,
  Text, text_eq, text_eq→eq, text_eq_refl, Bool-cases, Option-cases, In, All-In, Result, ok, err,
  inl, inr, ◌⊎◌, arith, All,
}
use skuld.Coordination.Publish.{
  File, Files, write, Disk, world_writable, PublishPanic, CreateTempOutcome, created, name_taken,
  try_create_publish_temp, create_publish_temp_with, RenameError, already_exists, unsupported,
  kernel_too_old, other, classify_rename_errno, atomic_rename_no_replace, handle_rename_result,
  rename_publish_temp, remove_file, is_absolute, publish_one, ensure_published_with,
  ensure_published,
}
use skuld.Coordination.Publish.Temp.{
  files_of, Same, Kept, LeftBehind, remove_file-Kept, Attempted, try_create_publish_temp-Attempted,
}

-- The temp `tmp`, world-writable, is all that `files'` has over `files`.
abbrev pub HasTemp : Text → Files → Files → Type 0
HasTemp tmp files files' =
    (files tmp ≡ none)
    × ((f : File) × Same (write tmp (some f) files) files' × (world_writable f.mode ≡ true))

-- A free candidate was turned into the temp, or there is none.
abbrev pub Created : Disk → List Text → Files → Result PublishPanic (Option (Text × Files)) → Type 0
Created disk candidates files (err e) = Kept disk candidates files (files_of e)
Created disk candidates files (ok none) = All (λ c. (f : File) × (files c ≡ some f)) candidates
Created disk candidates files (ok (some (tmp, files'))) =
    In tmp candidates × HasTemp tmp files files'

-- One temp left behind is among all the candidates.
Kept-weaken :
    (disk : Disk) (few many : List Text) (files files' : Files)
    → ((p : Text) → In p few → In p many)
    → Kept disk few files files'
    → Kept disk many files files'
Kept-weaken disk few many files files' more h p = elim (h p) [
  | inl same ↦ inl same
  | inr (member, absent, refused) ↦ inr (more p member, absent, refused)
]

retry-Created :
    (disk : Disk) (tmp : Text) (candidates : List Text) (files : Files)
    (tried : Result PublishPanic CreateTempOutcome)
    (retry : Result PublishPanic (Option (Text × Files)))
    → Attempted disk tmp files tried
    → Created disk candidates files retry
    → Created disk (tmp ∷ candidates) files (elim tried [
      | err e ↦ err e
      | ok (created files') ↦ ok (some (tmp, files'))
      | ok name_taken ↦ retry
    ])
retry-Created disk tmp candidates files (err e) retry h rest =
    Kept-weaken disk (tmp ∷ []) (tmp ∷ candidates) files (files_of e)
      (λ p member. elim member [ inl first ↦ inl first | inr none_left ↦ absurd none_left ]) h
retry-Created disk tmp candidates files (ok (created files')) retry h rest = (inl refl, h)
retry-Created disk tmp candidates files (ok name_taken) (err e) h rest =
    Kept-weaken disk candidates (tmp ∷ candidates) files (files_of e) (λ p member. inr member) rest
retry-Created disk tmp candidates files (ok name_taken) (ok none) h rest = (h, rest)
retry-Created disk tmp candidates files (ok name_taken) (ok (some (c, files'))) h rest =
    (inr (rest.0), rest.1)

create_publish_temp_with-Created :
    (disk : Disk) (candidates : List Text) (files : Files)
    → Created disk candidates files (create_publish_temp_with disk candidates files)
unfolding create_publish_temp_with
create_publish_temp_with-Created disk [] files = tt
create_publish_temp_with-Created disk (tmp ∷ candidates) files =
    retry-Created disk tmp candidates files (try_create_publish_temp disk tmp files)
      (create_publish_temp_with disk candidates files)
      (try_create_publish_temp-Attempted disk tmp files)
      (create_publish_temp_with-Created disk candidates files)

-- The files elsewhere are as before, but a temp left behind; at the target there is what was there, or
-- else a world-writable file.
abbrev pub Published : Disk → List Text → Text → Files → Files → Type 0
Published disk candidates target files files' =
    ((p : Text) → p ≢ target → (files' p ≡ files p) ⊎ LeftBehind disk candidates files p)
    × ((f : File) × (files' target ≡ some f)
        × ((files target ≡ some f) ⊎ ((files target ≡ none) × (world_writable f.mode ≡ true))))

abbrev pub Renamed : Disk → List Text → Text → Files → Result PublishPanic Files → Type 0
Renamed disk candidates target files (err e) = Kept disk candidates files (files_of e)
Renamed disk candidates target files (ok files') = Published disk candidates target files files'

-- The temp without its name.
unlinked :
    (tmp : Text) (files files' : Files)
    → HasTemp tmp files files'
    → Same files (write tmp none files')
unlinked tmp files files' (absent, (f, same, writable)) p = elim (Bool-cases (text_eq tmp p)) [
  | inl e ↦ rw e (sym absent ∙ ap files (text_eq→eq tmp p e))
  | inr e ↦ rw e (same p ∙ ground (arith, e))
]

removed :
    (disk : Disk) (candidates : List Text) (tmp : Text) (files files' : Files)
    → In tmp candidates
    → HasTemp tmp files files'
    → Kept disk candidates files (remove_file disk tmp files')
removed disk candidates tmp files files' at (absent, (f, same, writable)) =
    remove_file-Kept disk candidates tmp (some f) files files' at absent same

refused-Renamed :
    (disk : Disk) (candidates : List Text) (tmp target : Text) (files files' : Files)
    (e : RenameError)
    → In tmp candidates
    → HasTemp tmp files files'
    → e ≢ already_exists
    → Renamed disk candidates target files (handle_rename_result disk tmp files' (err e))
unfolding handle_rename_result files_of
refused-Renamed disk candidates tmp target files files' already_exists at has ne = absurd (ne refl)
refused-Renamed disk candidates tmp target files files' (unsupported n) at has ne =
    removed disk candidates tmp files files' at has
refused-Renamed disk candidates tmp target files files' (kernel_too_old n) at has ne =
    removed disk candidates tmp files files' at has
refused-Renamed disk candidates tmp target files files' (other n) at has ne =
    removed disk candidates tmp files files' at has

other_text : (p target : Text) → p ≢ target → text_eq target p ≡ false
other_text p target ne = elim (Bool-cases (text_eq target p)) [
  | inl e ↦ absurd (ne (sym (text_eq→eq target p e)))
  | inr e ↦ e
]

moved :
    (tmp target : Text) (f : File) (files files' : Files)
    → HasTemp tmp files files'
    → (p : Text) → p ≢ target
    → write tmp none (write target (some f) files') p ≡ files p
moved tmp target f files files' has p ne =
    let other = other_text p target ne in ground (arith, other) ∙ unlinked tmp files files' has p

-- The removal of the temp leaves the target.
remove_file_apart :
    (disk : Disk) (tmp target : Text) (files : Files)
    → text_eq tmp target ≡ false
    → remove_file disk tmp files target ≡ files target
remove_file_apart disk tmp target files apart = elim (Bool-cases (disk.remove_refuses tmp)) [
  | inl e ↦ rw e refl
  | inr e ↦ rw (e, apart) refl
]

rename_publish_temp-Renamed :
    (disk : Disk) (candidates : List Text) (tmp target : Text) (files files' : Files)
    → In tmp candidates
    → HasTemp tmp files files'
    → text_eq tmp target ≡ false
    → Renamed disk candidates target files (rename_publish_temp disk tmp target files')
unfolding rename_publish_temp atomic_rename_no_replace handle_rename_result classify_rename_errno
rename_publish_temp-Renamed disk candidates tmp target files files' at has apart =
    elim (Option-cases (disk.rename_refuses tmp)) [
      | inr (errno, e) ↦
          rw (e, atomic_rename_no_replace)
            (refused-Renamed disk candidates tmp target files files' (classify_rename_errno errno)
              at has (disk.refuses_otherwise tmp errno e))
      | inl allowed ↦
          let (absent, (f, same, writable)) = has in
          let at_tmp : files' tmp ≡ some f = same tmp ∙ rw (text_eq_refl tmp) refl in
          let at_target : files' target ≡ files target = same target ∙ rw apart refl in
          elim (Option-cases (files target)) [
            | inr (old, there) ↦
                rw (allowed, atomic_rename_no_replace)
                  (rw at_tmp (
                    rw (at_target ∙ there) (
                      λ p ne. removed disk candidates tmp files files' at has p,
                      (
                        old,
                        remove_file_apart disk tmp target files' apart ∙ at_target ∙ there,
                        inl there,
                      ),
                    )))
            | inl free ↦
                rw (allowed, atomic_rename_no_replace)
                  (rw at_tmp (
                    rw (at_target ∙ free) (
                      λ p ne. inl (moved tmp target f files files' has p ne),
                      (f, rw (apart, text_eq_refl target) refl, inr (free, writable)),
                    )))
          ]
    ]

-- What a publication with a free candidate comes to: a panic that leaves the files as they were, but a
-- temp that could not be removed, or a published file.
unfoldable pub Ensured :
    Disk → List Text → Text → Files → Result PublishPanic (Option Files) → Type 0
Ensured disk candidates target files (err e) = Kept disk candidates files (files_of e)
Ensured disk candidates target files (ok none) = ⊥
Ensured disk candidates target files (ok (some files')) =
    Published disk candidates target files files'

rename-Ensured :
    (disk : Disk) (candidates : List Text) (target : Text) (files : Files)
    (renamed : Result PublishPanic Files)
    → Renamed disk candidates target files renamed
    → Ensured disk candidates target files
        (elim renamed [ err e ↦ err e | ok published ↦ ok (some published) ])
unfolding Ensured
rename-Ensured disk candidates target files (err e) h = h
rename-Ensured disk candidates target files (ok published) h = h

Created-Ensured :
    (disk : Disk) (candidates : List Text) (target free : Text) (files : Files)
    (temp : Result PublishPanic (Option (Text × Files)))
    → Created disk candidates files temp
    → All (λ c. text_eq c target ≡ false) candidates
    → In free candidates
    → files free ≡ none
    → Ensured disk candidates target files (elim temp [
      | err e ↦ err e
      | ok none ↦ ok none
      | ok (some (tmp, files')) ↦ elim (rename_publish_temp disk tmp target files') [
        | err e ↦ err e
        | ok published ↦ ok (some published)
      ]
    ])
unfolding Ensured
Created-Ensured disk candidates target free files (err e) h apart at is_free = h
Created-Ensured disk candidates target free files (ok none) h apart at is_free =
    let (f, taken) = All-In _ free candidates h at in absurd cc
Created-Ensured disk candidates target free files (ok (some (tmp, files'))) h apart at is_free =
    rename-Ensured disk candidates target files (rename_publish_temp disk tmp target files') (
      rename_publish_temp-Renamed disk candidates tmp target files files' h.0 h.1
        (All-In _ tmp candidates apart h.0))

-- A publication over candidate names of which one is free, none of them the database's, ends. If it
-- panics, it leaves every file as it was, but a temp that the file system refuses to remove. If it
-- returns, the other files are as they were, but such a temp, and the database is the file that was
-- there before, or a world-writable one if there was none.
pub ensure_published-Ensured :
    (is_debug : Bool) (disk : Disk) (candidates : List Text) (target free : Text) (files : Files)
    → All (λ c. text_eq c target ≡ false) candidates
    → In free candidates
    → files free ≡ none
    → Ensured disk candidates target files (ensure_published is_debug disk candidates target files)
unfolding ensure_published ensure_published_with Ensured publish_one files_of
ensure_published-Ensured is_debug disk candidates target free files apart at is_free =
    elim (Option-cases (files target)) [
      | inr (old, there) ↦
          rw (there, ensure_published_with) (λ p ne. inl refl, (old, there, inl there))
      | inl absent ↦ elim (Bool-cases (is_debug && not (is_absolute target))) [
        | inl asserts ↦ rw (absent, ensure_published_with) (rw asserts (λ p. inl refl))
        | inr passes ↦
            rw (absent, ensure_published_with)
              (rw passes (
                Created-Ensured disk candidates target free files
                  (create_publish_temp_with disk candidates files)
                  (create_publish_temp_with-Created disk candidates files) apart at is_free))
      ]
    ]
