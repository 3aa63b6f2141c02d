-- ===== src/Xtask/Version.antt =====
-- xtask/src/version.rs: which versions of the workspace may follow the nearest tags.
use skuld.Prelude.{
  ℕ, ◌+◌, ◌%◌, ◌^◌, Bool, true, false, not, ◌&&◌, ◌||◌, List, [], ◌∷◌, ◌++◌, map, Option, none,
  some, Text, codes, text_eq, contains, ◌==◌, if◌then◌else◌, Result, ok, err, ◌>>=◌,
}

-- `semver::Version`; its numbers are u64.
pub record Version : Type 0 where
  pub major : ℕ
  pub minor : ℕ
  pub patch : ℕ
  pub pre : Text
  pub build : Text

-- `==` on `Version`.
abbrev pub version_eq : Version → Version → Bool
version_eq a b =
    a.major == b.major
    && a.minor == b.minor
    && a.patch == b.patch
    && text_eq a.pre b.pre
    && text_eq a.build b.build

abbrev pub is_strict : Version → Bool
is_strict v = text_eq v.pre [] && text_eq v.build []

-- `tag.patch + 1` on u64 in a release build. A debug build panics where it wraps.
abbrev pub one_up : ℕ → ℕ
one_up n = (n + 1) % 2 ^ 64

-- `is_valid_next`.
unfoldable pub is_valid_next : Version → Version → Bool
is_valid_next tag cur =
    version_eq cur tag
    || (cur.major == tag.major && cur.minor == tag.minor && cur.patch == one_up tag.patch)
    || (cur.major == tag.major && cur.minor == one_up tag.minor && cur.patch == 0)
    || (cur.major == one_up tag.major && cur.minor == 0 && cur.patch == 0)

-- A tag's name, the id of its commit, and its version.
pub record TagInfo : Type 0 where
  pub name : Text
  pub sha : Text
  pub version : Version

pub data VersionError : Type 0 where
  no_ancestor_tags : VersionError
  no_matching_tag : List Text → VersionError
  no_valid_successor : List Text → VersionError
  not_strict : Version → VersionError
  disagree : Version → Version → VersionError
  no_members : VersionError
  wrong_pin : Text → Text → VersionError

abbrev pub any_tag : (TagInfo → Bool) → List TagInfo → Bool
any_tag p [] = false
any_tag p (t ∷ ts) = p t || any_tag p ts

abbrev pub is_empty : List TagInfo → Bool
is_empty [] = true
is_empty (t ∷ ts) = false

-- `validate_cargo_against_nearest`.
unfoldable pub validate_cargo_against_nearest :
    Version → List TagInfo → Bool → Result {0, 0} VersionError Unit
validate_cargo_against_nearest cargo_ver nearest exact =
    if is_empty nearest
    then if exact then err no_ancestor_tags else ok tt
    else if exact
    then if not (any_tag (λ t. version_eq t.version cargo_ver) nearest)
      then err (no_matching_tag (map (λ t. t.name) nearest))
      else ok tt
    else if not (any_tag (λ t. is_valid_next t.version cargo_ver) nearest)
    then err (no_valid_successor (map (λ t. t.name) nearest))
    else ok tt

-- `cargo_metadata::Package` and `Dependency`, with what the checks read of them: a requirement is its
-- `to_string`, and `publish` is none or the registries.
pub record Dependency : Type 0 where
  pub name : Text
  pub is_development : Bool
  pub req : Text

pub record Package : Type 0 where
  pub name : Text
  pub version : Version
  pub publish : Option (List Text)
  pub dependencies : List Dependency

abbrev pub is_publishable : Package → Bool
is_publishable p = elim p.publish [
  | none ↦ true
  | some registries ↦ elim registries [ [] ↦ false | r ∷ rs ↦ true ]
]

unfoldable pub publishable_members : List Package → List Package
publishable_members [] = []
publishable_members (p ∷ ps) =
    let rest = publishable_members ps in if is_publishable p then p ∷ rest else rest

-- The loop of `workspace_version`: the first member's version, which the others share.
unfoldable pub shared_version : Option Version → List Package → Result {0, 0} VersionError Version
shared_version none [] = err no_members
shared_version (some v) [] = ok v
shared_version none (p ∷ ps) =
    let rest = shared_version (some p.version) ps in
    if not (is_strict p.version) then err (not_strict p.version) else rest
shared_version (some v) (p ∷ ps) =
    let rest = shared_version (some v) ps in
    if not (is_strict p.version)
    then err (not_strict p.version)
    else if not (version_eq v p.version)
    then err (disagree v p.version)
    else rest

-- The inner loop of `assert_intra_workspace_pins`.
unfoldable pub check_pins :
    List Text → Text → Text → List Dependency → Result {0, 0} VersionError Unit
check_pins names want member [] = ok tt
check_pins names want member (d ∷ ds) =
    let rest = check_pins names want member ds in
    if d.is_development
    then rest
    else if not (contains names d.name)
    then rest
    else if not (text_eq d.req want)
    then err (wrong_pin member d.name)
    else rest

unfoldable pub check_packages : List Text → Text → List Package → Result {0, 0} VersionError Unit
check_packages names want [] = ok tt
check_packages names want (p ∷ ps) =
    check_pins names want p.name p.dependencies >>= (λ _. check_packages names want ps)

module _ (display : Version → Text) where
  unfoldable pub assert_intra_workspace_pins :
      List Package → Version → Result {0, 0} VersionError Unit
  assert_intra_workspace_pins publishable expected =
      check_packages (map (λ p. p.name) publishable) (codes "=" ++ display expected) publishable

  -- `workspace_version`, on the packages that cargo reports.
  unfoldable pub workspace_version : List Package → Result {0, 0} VersionError Version
  workspace_version packages =
      let publishable = publishable_members packages in
      shared_version none publishable
      >>= (λ v. assert_intra_workspace_pins publishable v >>= (λ _. ok v))
