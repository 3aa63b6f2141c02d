-- ===== src/Xtask/Release.antt =====
-- xtask/src/version.rs: what a version that passes the checks satisfies.
use skuld.Prelude.{
  ℕ, ◌+◌, ◌-◌, ◌^◌, ◌<◌, All, ◌≡◌, refl, subst, false≢true, Bool, true, false, List, [], ◌∷◌,
  text_eq→eq, text_eq_refl, ==_refl, arith, ok, ◌⊎◌, inl, inr, ◌↔◌, Bool-cases, In,
}
use skuld.Xtask.Version.{
  Version, one_up, version_eq, is_strict, is_valid_next, TagInfo, any_tag,
  validate_cargo_against_nearest,
}

abbrev pub bump_patch : Version → Version
bump_patch v = record {
  major = v.major;
  minor = v.minor;
  patch = v.patch + 1;
  pre = [];
  build = [];
}

abbrev pub bump_minor : Version → Version
bump_minor v = record { major = v.major; minor = v.minor + 1; patch = 0; pre = []; build = [] }

abbrev pub bump_major : Version → Version
bump_major v = record { major = v.major + 1; minor = 0; patch = 0; pre = []; build = [] }

abbrev pub IsSuccessor : Version → Version → Type 0
IsSuccessor tag cur =
    (cur ≡ tag) ⊎ ((cur ≡ bump_patch tag) ⊎ ((cur ≡ bump_minor tag) ⊎ (cur ≡ bump_major tag)))

pub version_eq→eq : (a b : Version) → version_eq a b ≡ true → a ≡ b
version_eq→eq a b h = ground (arith, h, text_eq→eq a.pre b.pre, text_eq→eq a.build b.build)

version_eq_refl : (a : Version) → version_eq a a ≡ true
version_eq_refl a = simp (==_refl, text_eq_refl)

-- No number of the version is the last of u64, behind which the code's `+ 1` would overflow.
abbrev pub HasSuccessors : Version → Type 0
HasSuccessors v = (v.major < 2 ^ 64 - 1) × (v.minor < 2 ^ 64 - 1) × (v.patch < 2 ^ 64 - 1)

one_up_below : (n : ℕ) → n < 2 ^ 64 - 1 → one_up n ≡ n + 1
one_up_below n h = omega arith

-- The strict versions that `is_valid_next` allows behind a tag are the tag's own and its three bumps.
pub is_valid_next_iff :
    (tag cur : Version)
    → HasSuccessors tag
    → is_strict cur ≡ true
    → (is_valid_next tag cur ≡ true) ↔ IsSuccessor tag cur
unfolding is_valid_next
is_valid_next_iff tag cur (major, minor, patch) strict =
    rw (one_up_below tag.major major, one_up_below tag.minor minor, one_up_below tag.patch patch)
      (
        λ h. ground (
          arith,
          h,
          strict,
          version_eq→eq cur tag,
          text_eq→eq cur.pre [],
          text_eq→eq cur.build [],
        ),
        λ h. elim h [
          | inl e ↦ rw e (ground (arith, version_eq_refl tag))
          | inr (inl e) ↦ rw e (ground arith)
          | inr (inr (inl e)) ↦ rw e (ground arith)
          | inr (inr (inr e)) ↦ rw e (ground arith)
        ],
      )

-- Some of the tags has the property.
abbrev pub SomeTag : (TagInfo → Type 0) → List TagInfo → Type 0
SomeTag P ts = (t : TagInfo) × In t ts × P t

any_tag→SomeTag :
    (p : TagInfo → Bool) (P : TagInfo → Type 0) (ts : List TagInfo)
    → All (λ t. (p t ≡ true) ↔ P t) ts
    → any_tag p ts ≡ true
    → SomeTag P ts
any_tag→SomeTag p P [] h e = absurd (false≢true e)
any_tag→SomeTag p P (t ∷ ts) h e = elim (Bool-cases (p t)) [
  | inl hit ↦ (t, inl refl, h.0.0 hit)
  | inr miss ↦
      let (u, member, holds) = any_tag→SomeTag p P ts h.1 (ground (arith, e, miss)) in
      (u, inr member, holds)
]

SomeTag→any_tag :
    (p : TagInfo → Bool) (P : TagInfo → Type 0) (ts : List TagInfo)
    → All (λ t. (p t ≡ true) ↔ P t) ts
    → SomeTag P ts
    → any_tag p ts ≡ true
SomeTag→any_tag p P (t ∷ ts) h (u, inl e, holds) =
    let first : p t ≡ true = h.0.1 (subst P e holds) in rw first refl
SomeTag→any_tag p P (t ∷ ts) h (u, inr member, holds) =
    ground (arith, SomeTag→any_tag p P ts h.1 (u, member, holds))
SomeTag→any_tag p P [] h (u, member, holds) = absurd member

each_equal :
    (cur : Version) (ts : List TagInfo)
    → All (λ t. (version_eq t.version cur ≡ true) ↔ (t.version ≡ cur)) ts
each_equal cur [] = tt
each_equal cur (t ∷ ts) =
    ((version_eq→eq t.version cur, λ e. rw e (version_eq_refl cur)), each_equal cur ts)

each_valid_next :
    (cur : Version) (ts : List TagInfo)
    → is_strict cur ≡ true
    → All (λ t. HasSuccessors t.version) ts
    → All (λ t. (is_valid_next t.version cur ≡ true) ↔ IsSuccessor t.version cur) ts
each_valid_next cur [] strict bounded = tt
each_valid_next cur (t ∷ ts) strict bounded =
    (is_valid_next_iff t.version cur bounded.0 strict, each_valid_next cur ts strict bounded.1)

-- What the check asks of the nearest tags.
abbrev pub IsAllowed : Version → List TagInfo → Bool → Type 0
IsAllowed cur nearest true = SomeTag (λ t. t.version ≡ cur) nearest
IsAllowed cur [] false = Unit
IsAllowed cur (t ∷ ts) false = SomeTag (λ u. IsSuccessor u.version cur) (t ∷ ts)

-- A strict workspace version passes exactly when it is allowed: with `exact`, when it is the version
-- of a nearest tag; else when there is no tag, or when it is a nearest tag's version or one bump of it. No
-- number of a nearest tag is u64's last.
pub validate_cargo_against_nearest_iff :
    (cur : Version) (nearest : List TagInfo) (exact : Bool)
    → is_strict cur ≡ true
    → All (λ t. HasSuccessors t.version) nearest
    → (validate_cargo_against_nearest cur nearest exact ≡ ok tt) ↔ IsAllowed cur nearest exact
unfolding validate_cargo_against_nearest
validate_cargo_against_nearest_iff cur [] true strict bounded = (λ e. cc, λ s. absurd s.1)
validate_cargo_against_nearest_iff cur [] false strict bounded = (λ e. tt, λ u. refl)
validate_cargo_against_nearest_iff cur (t ∷ ts) true strict bounded =
    let equal = each_equal cur (t ∷ ts) in
    (
      λ e. any_tag→SomeTag _ _ (t ∷ ts) equal (ground (arith, e)),
      λ s. let hit = SomeTag→any_tag _ _ (t ∷ ts) equal s in ground (arith, hit),
    )
validate_cargo_against_nearest_iff cur (t ∷ ts) false strict bounded =
    let next = each_valid_next cur (t ∷ ts) strict bounded in
    (
      λ e. any_tag→SomeTag _ _ (t ∷ ts) next (ground (arith, e)),
      λ s. let hit = SomeTag→any_tag _ _ (t ∷ ts) next s in ground (arith, hit),
    )
