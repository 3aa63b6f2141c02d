-- ===== src/Coordination/Publish/Race/Calls.antt =====
-- src/coordination/publish.rs: what one call of a publisher among others may change.
use skuld.Prelude.{
  ◌≡◌, ◌≢◌, refl, sym, ap, ◌∙◌, subst, true, false, false≢true, [], ◌∷◌, text_eq→eq, Option, none,
  some, Text, text_eq, text_eq_refl, Bool-cases, Option-cases, Result, ok, err, inl, inr, ◌⊎◌,
}
use skuld.Coordination.Publish.{
  File, Files, write, Disk, remove_file, world_writable, PublishPanic, CreateTempOutcome, created,
  name_taken, try_create_publish_temp, rename_publish_temp, RenameError, already_exists,
  unsupported, kernel_too_old, other, classify_rename_errno, atomic_rename_no_replace,
  handle_rename_result,
}
use skuld.Coordination.Publish.Temp.{files_of, Kept, Attempted, try_create_publish_temp-Attempted}
use skuld.Coordination.Publish.Race.{
  Phase, checking, creating, renaming, returned, panicked, after_rename, advance,
}

-- A temp that is about to be renamed is there, is not the target, and is world-writable; a publisher
-- returns only when the database is there, and what is there is world-writable.
abbrev pub WritableAt : Files → Text → Type 0
WritableAt files p = (f : File) → files p ≡ some f → world_writable f.mode ≡ true

abbrev pub HasWritable : Files → Text → Type 0
HasWritable files p = (f : File) × (files p ≡ some f) × (world_writable f.mode ≡ true)

abbrev pub InPhase : Text → Files → Phase → Type 0
InPhase target files checking = Unit
InPhase target files creating = Unit
InPhase target files (renaming tmp) = (text_eq tmp target ≡ false) × HasWritable files tmp
InPhase target files returned = (f : File) × (files target ≡ some f)
InPhase target files panicked = Unit

-- What one call in this phase may do to the files: at the target, nothing, or a world-writable file where
-- there was none; elsewhere it makes files only, but it may remove the temp of its phase.
abbrev pub Changed : Text → Phase → Files → Files → Type 0
Changed target phase files files' =
    ((f : File) → files target ≡ some f → files' target ≡ some f)
    × (WritableAt files target → WritableAt files' target)
    × ((p : Text) → (files' p ≡ files p) ⊎ ((files p ≡ none) ⊎ (phase ≡ renaming p)))

pub InPhase-Changed :
    (target : Text) (files files' : Files) (own phase : Phase)
    → Changed target own files files'
    → ((tmp : Text) → own ≡ renaming tmp → phase ≢ renaming tmp)
    → InPhase target files phase
    → InPhase target files' phase
InPhase-Changed target files files' own checking c apart h = tt
InPhase-Changed target files files' own creating c apart h = tt
InPhase-Changed target files files' own (renaming tmp) c apart (ne, (f, at, writable)) = (
  ne,
  (
    f,
    elim (c.2 tmp) [
      | inl same ↦ same ∙ at
      | inr (inl absent) ↦ let clash : none ≡ some f = sym absent ∙ at in absurd cc
      | inr (inr its) ↦ absurd (apart tmp its refl)
    ],
    writable,
  ),
)
InPhase-Changed target files files' own returned c apart (f, at) = (f, c.0 f at)
InPhase-Changed target files files' own panicked c apart h = tt

-- What a call comes to, from a phase in which the invariant holds; a temp is new where it is created.
abbrev pub Sound : Text → Phase → Files → Phase × Files → Type 0
Sound target phase files next =
    Changed target phase files next.1
    × InPhase target next.1 next.0
    × ((tmp : Text) → next.0 ≡ renaming tmp → files tmp ≡ none)

holding :
    (files : Files) (p : Text) (f : File)
    → files p ≡ some f
    → world_writable f.mode ≡ true
    → WritableAt files p
holding files p f is_f writable g at =
    let same : f ≡ g = cc in subst (λ x. world_writable x.mode ≡ true) same writable

-- The target is as it was.
abbrev AtTarget : Text → Files → Files → Type 0
AtTarget target files files' = files' target ≡ files target

same_target :
    (target : Text) (phase : Phase) (files files' : Files)
    → AtTarget target files files'
    → ((p : Text) → (files' p ≡ files p) ⊎ ((files p ≡ none) ⊎ (phase ≡ renaming p)))
    → Changed target phase files files'
same_target target phase files files' same others =
    (λ f at. same ∙ at, λ writable f at. writable f (sym same ∙ at), others)

pub unchanged : (target : Text) (phase : Phase) (files : Files) → Changed target phase files files
unchanged target phase files = same_target target phase files files refl (λ p. inl refl)

Kept-Changed :
    (disk : Disk) (target candidate : Text) (phase : Phase) (files files' : Files)
    → text_eq candidate target ≡ false
    → Kept disk (candidate ∷ []) files files'
    → Changed target phase files files'
Kept-Changed disk target candidate phase files files' apart kept =
    same_target target phase files files'
      (elim (kept target) [
        | inl same ↦ same
        | inr (inl e, absent, refused) ↦
            let same = text_eq_refl candidate in absurd (false≢true (sym apart ∙ (rw e same)))
        | inr (inr none_left, absent, refused) ↦ absurd none_left
      ])
      (λ p. elim (kept p) [
        | inl same ↦ inl same
        | inr (member, absent, refused) ↦ inr (inl absent)
      ])

tried-Sound :
    (disk : Disk) (target candidate : Text) (files : Files)
    (tried : Result PublishPanic CreateTempOutcome)
    → text_eq candidate target ≡ false
    → Attempted disk candidate files tried
    → Sound target creating files (elim tried [
      | err e ↦ (panicked, files_of e)
      | ok (created files') ↦ (renaming candidate, files')
      | ok name_taken ↦ (creating, files)
    ])
tried-Sound disk target candidate files (err e) apart h = (
  Kept-Changed disk target candidate creating files (files_of e) apart h,
  tt,
  λ tmp e'. absurd cc,
)
tried-Sound disk target candidate files (ok name_taken) apart h =
    (unchanged target creating files, tt, λ tmp e. absurd cc)
tried-Sound disk target candidate files (ok (created files')) apart (absent, (f, same, writable)) =
    let at_temp : files' candidate ≡ some f = same candidate ∙ rw (text_eq_refl candidate) refl in
    let at_target : files' target ≡ files target = same target ∙ rw apart refl in
    (
      same_target target creating files files' at_target (λ p.
          elim (Bool-cases (text_eq candidate p)) [
            | inl e ↦ inr (inl (subst (λ q. files q ≡ none) (text_eq→eq candidate p e) absent))
            | inr e ↦ inl (same p ∙ rw e refl)
          ]),
      (apart, (f, at_temp, writable)),
      λ tmp e. let here : candidate ≡ tmp = cc in subst (λ q. files q ≡ none) here absent,
    )

removed-Changed :
    (disk : Disk) (target tmp : Text) (files : Files)
    → text_eq tmp target ≡ false
    → Changed target (renaming tmp) files (remove_file disk tmp files)
removed-Changed disk target tmp files apart = elim (Bool-cases (disk.remove_refuses tmp)) [
  | inl e ↦ rw e (unchanged target (renaming tmp) files)
  | inr e ↦ rw e (
      same_target target (renaming tmp) files (write tmp none files) (rw apart refl) (λ p.
        elim (Bool-cases (text_eq tmp p)) [
          | inl e' ↦ inr (inr (ap renaming (text_eq→eq tmp p e')))
          | inr e' ↦ inl (rw e' refl)
        ]))
]

refused-Sound :
    (disk : Disk) (target tmp : Text) (files : Files) (e : RenameError)
    → text_eq tmp target ≡ false
    → e ≢ already_exists
    → Sound target (renaming tmp) files (after_rename (handle_rename_result disk tmp files (err e)))
unfolding handle_rename_result files_of
refused-Sound disk target tmp files already_exists apart ne = absurd (ne refl)
refused-Sound disk target tmp files (unsupported n) apart ne =
    (removed-Changed disk target tmp files apart, tt, λ t e. absurd cc)
refused-Sound disk target tmp files (kernel_too_old n) apart ne =
    (removed-Changed disk target tmp files apart, tt, λ t e. absurd cc)
refused-Sound disk target tmp files (other n) apart ne =
    (removed-Changed disk target tmp files apart, tt, λ t e. absurd cc)

renamed-Changed :
    (target tmp : Text) (files : Files) (f : File)
    → text_eq tmp target ≡ false
    → files target ≡ none
    → world_writable f.mode ≡ true
    → Changed target (renaming tmp) files (write tmp none (write target (some f) files))
renamed-Changed target tmp files f apart free writable = (
  λ g at. let clash : none ≡ some g = sym free ∙ at in absurd cc,
  λ h.
      holding (write tmp none (write target (some f) files)) target f
        (rw (apart, text_eq_refl target) refl) writable,
  λ p. elim (Bool-cases (text_eq tmp p)) [
    | inl e ↦ inr (inr (ap renaming (text_eq→eq tmp p e)))
    | inr e ↦ elim (Bool-cases (text_eq target p)) [
      | inl e' ↦ inr (inl (subst (λ q. files q ≡ none) (text_eq→eq target p e') free))
      | inr e' ↦ inl (rw (e, e') refl)
    ]
  ],
)

renaming-Sound :
    (disk : Disk) (target tmp : Text) (files : Files)
    → text_eq tmp target ≡ false
    → HasWritable files tmp
    → Sound target (renaming tmp) files (after_rename (rename_publish_temp disk tmp target files))
unfolding rename_publish_temp atomic_rename_no_replace handle_rename_result classify_rename_errno
    files_of
renaming-Sound disk target tmp files apart (f, at_tmp, writable) =
    elim (Option-cases (disk.rename_refuses tmp)) [
      | inr (errno, e) ↦
          rw (e, atomic_rename_no_replace)
            (refused-Sound disk target tmp files (classify_rename_errno errno) apart
              (disk.refuses_otherwise tmp errno e))
      | inl allowed ↦ elim (Option-cases (files target)) [
        | inr (old, there) ↦
            let lost : rename_publish_temp disk tmp target files ≡ ok (remove_file disk tmp files) =
              rw (allowed, atomic_rename_no_replace) (rw at_tmp (rw there refl)) in
            let changed = removed-Changed disk target tmp files apart in
            subst (λ r. Sound target (renaming tmp) files (after_rename r)) (sym lost)
              (changed, (old, changed.0 old there), λ t e. absurd cc)
        | inl free ↦
            let done : rename_publish_temp disk tmp target files
                ≡ ok (write tmp none (write target (some f) files)) =
              rw (allowed, atomic_rename_no_replace) (rw at_tmp (rw free refl)) in
            subst (λ r. Sound target (renaming tmp) files (after_rename r)) (sym done)
              (
                renamed-Changed target tmp files f apart free writable,
                (f, rw (apart, text_eq_refl target) refl),
                λ t e. absurd cc,
              )
      ]
    ]

-- The database that a check finds is there.
checked-Sound :
    (target : Text) (files : Files) (found : Option File)
    → files target ≡ found
    → Sound target checking files
        (elim found [ some file ↦ (returned, files) | none ↦ (creating, files) ])
checked-Sound target files (some file) e =
    (unchanged target checking files, (file, e), λ t e'. absurd cc)
checked-Sound target files none e = (unchanged target checking files, tt, λ t e'. absurd cc)

pub advance-Sound :
    (disk : Disk) (target candidate : Text) (phase : Phase) (files : Files)
    → text_eq candidate target ≡ false
    → InPhase target files phase
    → Sound target phase files (advance disk target candidate phase files)
unfolding advance
advance-Sound disk target candidate checking files apart h =
    checked-Sound target files (files target) refl
advance-Sound disk target candidate creating files apart h =
    tried-Sound disk target candidate files (try_create_publish_temp disk candidate files) apart
      (try_create_publish_temp-Attempted disk candidate files)
advance-Sound disk target candidate (renaming tmp) files apart h =
    renaming-Sound disk target tmp files h.0 h.1
advance-Sound disk target candidate returned files apart h =
    (unchanged target returned files, h, λ t e. absurd cc)
advance-Sound disk target candidate panicked files apart h =
    (unchanged target panicked files, tt, λ t e. absurd cc)
