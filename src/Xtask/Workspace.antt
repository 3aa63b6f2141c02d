-- ===== src/Xtask/Workspace.antt =====
-- xtask/src/version.rs: what `workspace_version` ensures of the members.
use skuld.Prelude.{
  ◌≡◌, sym, ◌∙◌, subst, false≢true, Bool, true, false, List, [], ◌∷◌, ◌++◌, map, none, some, Text,
  codes, text_eq→eq, contains, if◌then◌else◌, arith, ok, >>=-eq-ok, All,
}
use skuld.Xtask.Version.{
  Version, is_strict, Dependency, Package, is_publishable, publishable_members, shared_version,
  check_pins, check_packages, assert_intra_workspace_pins, workspace_version,
}
use skuld.Xtask.Release.{version_eq→eq}

-- The pins that a member must carry.
abbrev pub HasPins : List Text → Text → Package → Type 0
HasPins names want p =
    All (λ d. d.is_development ≡ false → contains names d.name ≡ true → d.req ≡ want) p.dependencies

check_pins_sound :
    (names : List Text) (want member : Text) (ds : List Dependency)
    → check_pins names want member ds ≡ ok tt
    → All (λ d. d.is_development ≡ false → contains names d.name ≡ true → d.req ≡ want) ds
unfolding check_pins
check_pins_sound names want member [] h = tt
check_pins_sound names want member (d ∷ ds) h = (
  λ normal ours. ground (arith, h, normal, ours, text_eq→eq d.req want),
  check_pins_sound names want member ds (ground (arith, h)),
)

check_packages_sound :
    (names : List Text) (want : Text) (ps : List Package)
    → check_packages names want ps ≡ ok tt
    → All (HasPins names want) ps
unfolding check_packages
check_packages_sound names want [] h = tt
check_packages_sound names want (p ∷ ps) h =
    let (u, first, rest) = >>=-eq-ok (check_pins names want p.name p.dependencies) _ h in
    (
      check_pins_sound names want p.name p.dependencies first,
      check_packages_sound names want ps rest,
    )

shared_version-some :
    (v w : Version) (ps : List Package)
    → shared_version (some v) ps ≡ ok w
    → (v ≡ w) × All (λ p. (p.version ≡ w) × (is_strict p.version ≡ true)) ps
unfolding shared_version
shared_version-some v w [] h = (cc, tt)
shared_version-some v w (p ∷ ps) h =
    let (same, others) = shared_version-some v w ps (ground (arith, h)) in
    let equal = version_eq→eq v p.version (ground (arith, h)) in
    (same, ((sym equal ∙ same, ground (arith, h)), others))

shared_version-none :
    (w : Version) (ps : List Package)
    → shared_version none ps ≡ ok w
    → All (λ p. (p.version ≡ w) × (is_strict p.version ≡ true)) ps
unfolding shared_version
shared_version-none w [] h = tt
shared_version-none w (p ∷ ps) h =
    let (same, others) = shared_version-some p.version w ps (ground (arith, h)) in
    ((same, ground (arith, h)), others)

All-if :
    (P : Package → Type 0) (b : Bool) (p : Package) (ps : List Package)
    → All P (if b then p ∷ ps else ps)
    → (b ≡ true → P p) × All P ps
All-if P true p ps h = (λ _. h.0, h.1)
All-if P false p ps h = (λ e. absurd (false≢true e), h)

All-publishable_members :
    (P : Package → Type 0) (ps : List Package)
    → All P (publishable_members ps)
    → All (λ p. is_publishable p ≡ true → P p) ps
unfolding publishable_members
All-publishable_members P [] h = tt
All-publishable_members P (p ∷ ps) h =
    let (first, rest) = All-if P (is_publishable p) p (publishable_members ps) h in
    (first, All-publishable_members P ps rest)

All-both :
    {A : Type 0} (P Q : A → Type 0) (xs : List A) → All P xs → All Q xs → All (λ x. P x × Q x) xs
All-both P Q [] h k = tt
All-both P Q (x ∷ xs) h k = ((h.0, k.0), All-both P Q xs h.1 k.1)

module _ (display : Version → Text) where
  -- Where `workspace_version` returns a version, every publishable member has exactly that version, a
  -- strict one, and pins each publishable member that it depends on, in other than a development
  -- dependency, to it.
  pub workspace_version_sound :
      (packages : List Package) (v : Version)
      → workspace_version display packages ≡ ok v
      → All
          (λ p.
            is_publishable p ≡ true
            → ((p.version ≡ v) × (is_strict p.version ≡ true))
              × HasPins
                  (map (λ m. m.name) (publishable_members packages))
                  (codes "=" ++ display v)
                  p)
          packages
  unfolding workspace_version assert_intra_workspace_pins
  workspace_version_sound packages v h =
      let ours = publishable_members packages in
      let (w, shared, rest) = >>=-eq-ok (shared_version none ours) _ h in
      let (u, pins, e) = >>=-eq-ok (assert_intra_workspace_pins display ours w) _ rest in
      let same : w ≡ v = cc in
      All-publishable_members _ packages (
        All-both _ _ ours
          (subst (λ x. All (λ p. (p.version ≡ x) × (is_strict p.version ≡ true)) ours) same
            (shared_version-none w ours shared))
          (subst (λ x. All (HasPins (map (λ m. m.name) ours) (codes "=" ++ display x)) ours) same
            (check_packages_sound _ _ ours pins)))
