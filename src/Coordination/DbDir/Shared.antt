-- ===== src/Coordination/DbDir/Shared.antt =====
-- src/coordination/db_dir.rs: the binaries of one cargo profile share one directory.
use skuld.Prelude.{
  ◌≡◌, refl, sym, ap, subst, Bool, true, ◌||◌, [], ◌∷◌, Option, none, some, Text, codes, text_eq,
  text_eq→eq, if◌then◌else◌, Bool-cases, inl, inr, ◌⊎◌,
}
use skuld.Coordination.DbDir.{
  FilePath, parent, maybe, is_cargo_hashed_name, is_cargo_hashed, named, step_up, build_of,
  layout_dir,
}

-- Where cargo puts the binaries of a profile.
pub data Layout : Type 0 where
  deps : Layout
  examples : Layout
  build : Text → Text → Layout

abbrev pub exe_at : Layout → Text → FilePath → FilePath
exe_at deps name profile = name ∷ codes "deps" ∷ profile
exe_at examples name profile = name ∷ codes "examples" ∷ profile
exe_at (build pkg hash) name profile = name ∷ codes "out" ∷ hash ∷ pkg ∷ codes "build" ∷ profile

-- The positive markers of cargo.
abbrev pub IsCargo : (FilePath → Bool) → Text → FilePath → Type 0
IsCargo has_marker name profile = (is_cargo_hashed_name name || has_marker profile) ≡ true

-- The profile that an executable belongs to.
abbrev pub BelongsTo : (FilePath → Bool) → FilePath → FilePath → Type 0
BelongsTo has_marker exe profile =
    (l : Layout) × (name : Text) × (exe ≡ exe_at l name profile) × IsCargo has_marker name profile

step_up-marked :
    (name : Text) (rest profile : FilePath) (has_marker : FilePath → Bool)
    → IsCargo has_marker name profile
    → step_up (name ∷ rest) has_marker (some profile) ≡ some profile
unfolding step_up is_cargo_hashed
step_up-marked name rest profile has_marker h = rw h refl

layout_dir-exe_at :
    (has_marker : FilePath → Bool) (l : Layout) (name : Text) (profile : FilePath)
    → IsCargo has_marker name profile
    → layout_dir (exe_at l name profile) has_marker ≡ some profile
unfolding layout_dir
layout_dir-exe_at has_marker deps name profile h =
    rw (step_up-marked name (codes "deps" ∷ profile) profile has_marker h) refl
layout_dir-exe_at has_marker examples name profile h =
    rw (step_up-marked name (codes "examples" ∷ profile) profile has_marker h) refl
layout_dir-exe_at has_marker (build pkg hash) name profile h =
    rw
      (step_up-marked name (codes "out" ∷ hash ∷ pkg ∷ codes "build" ∷ profile) profile has_marker
        h)
      refl

-- What one step up gives, or the executable's own directory.
Placed : (FilePath → Bool) → FilePath → FilePath → Option FilePath → Type 0
Placed has_marker exe own none = Unit
Placed has_marker exe own (some d) = (d ≡ own) ⊎ BelongsTo has_marker exe d

stepped :
    (has_marker : FilePath → Bool) (l : Layout) (name : Text) (rest own profile : FilePath)
    → name ∷ rest ≡ exe_at l name profile
    → Placed has_marker
        (name ∷ rest)
        own
        (some (maybe own (λ p. p) (step_up (name ∷ rest) has_marker (some profile))))
unfolding step_up is_cargo_hashed Placed
stepped has_marker l name rest own profile at =
    elim (Bool-cases (is_cargo_hashed_name name || has_marker profile)) [
      | inl e ↦ rw e (inr (l, name, at, e))
      | inr e ↦ rw e (inl refl)
    ]

named-eq : (word n : Text) (path : FilePath) → named word (n ∷ path) ≡ true → n ≡ word
named-eq word n path h = text_eq→eq n word h

under_build :
    (has_marker : FilePath → Bool) (name hash pkg b : Text) (profile : FilePath)
    → Placed has_marker
        (name ∷ codes "out" ∷ hash ∷ pkg ∷ b ∷ profile)
        (codes "out" ∷ hash ∷ pkg ∷ b ∷ profile)
        (some (
          maybe
            (codes "out" ∷ hash ∷ pkg ∷ b ∷ profile)
            (λ p. p)
            (maybe none
              (λ build.
                step_up (name ∷ codes "out" ∷ hash ∷ pkg ∷ b ∷ profile) has_marker (parent build))
              (if text_eq b (codes "build") then some (b ∷ profile) else none))))
unfolding Placed
under_build has_marker name hash pkg b profile = elim (Bool-cases (text_eq b (codes "build"))) [
  | inl e ↦ rw e (
      stepped has_marker (build pkg hash) name (codes "out" ∷ hash ∷ pkg ∷ b ∷ profile)
        (codes "out" ∷ hash ∷ pkg ∷ b ∷ profile) profile
        (ap (λ (x : Text). name ∷ codes "out" ∷ hash ∷ pkg ∷ x ∷ profile)
          (text_eq→eq b (codes "build") e)))
  | inr e ↦ rw e (inl refl)
]

in_out :
    (has_marker : FilePath → Bool) (name : Text) (above : FilePath)
    → Placed has_marker (name ∷ codes "out" ∷ above) (codes "out" ∷ above) (
        some (
          maybe
            (codes "out" ∷ above)
            (λ p. p)
            (maybe none
              (λ build. step_up (name ∷ codes "out" ∷ above) has_marker (parent build))
              (build_of (codes "out" ∷ above)))))
unfolding Placed
in_out has_marker name [] = inl refl
in_out has_marker name (hash ∷ []) = inl refl
in_out has_marker name (hash ∷ pkg ∷ []) = inl refl
in_out has_marker name (hash ∷ pkg ∷ b ∷ profile) = under_build has_marker name hash pkg b profile

layout_dir-Placed :
    (has_marker : FilePath → Bool) (name : Text) (own : FilePath)
    → Placed has_marker (name ∷ own) own (layout_dir (name ∷ own) has_marker)
unfolding layout_dir Placed
layout_dir-Placed has_marker name [] = inl refl
layout_dir-Placed has_marker name (n ∷ above) = elim (Bool-cases (text_eq n (codes "deps"))) [
  | inl e ↦ rw e (
      stepped has_marker deps name (n ∷ above) (n ∷ above) above
        (ap (λ (x : Text). name ∷ x ∷ above) (text_eq→eq n (codes "deps") e)))
  | inr e ↦ elim (Bool-cases (text_eq n (codes "examples"))) [
    | inl e' ↦
        rw (e, e')
          (stepped has_marker examples name (n ∷ above) (n ∷ above) above
            (ap (λ (x : Text). name ∷ x ∷ above) (text_eq→eq n (codes "examples") e')))
    | inr e' ↦ elim (Bool-cases (text_eq n (codes "out"))) [
      | inl e'' ↦
          rw (e, e', e'')
            (subst
              (λ (x : Text). Placed has_marker (name ∷ x ∷ above) (x ∷ above) (
                some (
                  maybe (x ∷ above) (λ p. p)
                    (maybe none (λ build. step_up (name ∷ x ∷ above) has_marker (parent build))
                      (build_of (x ∷ above))))))
              (sym (text_eq→eq n (codes "out") e'')) (in_out has_marker name above))
      | inr e'' ↦ rw (e, e', e'') (inl refl)
    ]
  ]
]

-- The directory of an executable is the cargo profile that it belongs to, whichever of the three
-- places of the profile it stands in, so the binaries of a profile share it; and it is otherwise
-- never another than the executable's own.
pub layout_dir_lem :
    (has_marker : FilePath → Bool) (exe d : FilePath)
    → (BelongsTo has_marker exe d → layout_dir exe has_marker ≡ some d)
      × (layout_dir exe has_marker ≡ some d
          → ((name : Text) × (exe ≡ name ∷ d)) ⊎ BelongsTo has_marker exe d)
unfolding Placed layout_dir
layout_dir_lem has_marker exe d = (shared, sound exe)
  where
    shared : BelongsTo has_marker exe d → layout_dir exe has_marker ≡ some d
    shared (l, name, at, marked) =
        subst (λ x. layout_dir x has_marker ≡ some d) (sym at)
          (layout_dir-exe_at has_marker l name d marked)

    placed :
        (name : Text) (own : FilePath)
        → Placed has_marker (name ∷ own) own (some d)
        → ((n : Text) × (name ∷ own ≡ n ∷ d)) ⊎ BelongsTo has_marker (name ∷ own) d
    placed name own (inl e) = inl (name, ap (λ x. name ∷ x) (sym e))
    placed name own (inr b) = inr b

    sound :
        (e : FilePath)
        → layout_dir e has_marker ≡ some d
        → ((name : Text) × (e ≡ name ∷ d)) ⊎ BelongsTo has_marker e d
    sound [] h = absurd cc
    sound (name ∷ own) h =
        placed name own
          (subst (Placed has_marker (name ∷ own) own) h (layout_dir-Placed has_marker name own))
