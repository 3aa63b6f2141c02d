-- ===== src/Examples/Directories.antt =====
-- The directory of the database at concrete inputs.
use skuld.Prelude.{◌≡◌, refl, true, false, [], ◌∷◌, none, some, Text, codes, ok, ◌⊎◌}
use skuld.Coordination.DbDir.{FilePath, Disk, is_cargo_hashed_name, layout_dir, resolve}
use skuld.Coordination.DbDir.Shared.{BelongsTo, exe_at, build, deps, layout_dir_lem}

abbrev debug : FilePath
debug = codes "debug" ∷ codes "target" ∷ []

abbrev hashed : Text
hashed = codes "unit-0123456789abcdef.exe"

hashed_is : is_cargo_hashed_name hashed ≡ true
unfolding is_cargo_hashed_name
hashed_is = refl

hash_too_short : is_cargo_hashed_name (codes "unit-0123456789abcde") ≡ false
unfolding is_cargo_hashed_name
hash_too_short = refl

-- A directory that is only called `deps` is no profile's.
only_named_deps :
    layout_dir (exe_at deps (codes "t") debug) (λ p. false) ≡ some (codes "deps" ∷ debug)
unfolding layout_dir is_cargo_hashed_name
only_named_deps = refl

layout_dir_lem_example :
    (BelongsTo (λ p. false) (exe_at (build (codes "skuld") (codes "h")) hashed debug) debug
      → layout_dir (exe_at (build (codes "skuld") (codes "h")) hashed debug) (λ p. false)
        ≡ some debug)
    × (layout_dir (exe_at (build (codes "skuld") (codes "h")) hashed debug) (λ p. false)
          ≡ some debug
        → ((name : Text) × (exe_at (build (codes "skuld") (codes "h")) hashed debug ≡ name ∷ debug))
          ⊎ BelongsTo (λ p. false) (exe_at (build (codes "skuld") (codes "h")) hashed debug) debug)
layout_dir_lem_example =
    layout_dir_lem (λ p. false) (exe_at (build (codes "skuld") (codes "h")) hashed debug) debug

-- A disk with the directories alone, all of them usable, where links are resolved already.
abbrev plain : Disk
plain = record {
  is_dir = λ p. false;
  is_file = λ p. false;
  canonicalize = λ p. ok p;
  metadata_is_dir = λ p. ok true;
  access_refuses = λ p. none;
}

plain_resolves : resolve plain (λ d. ok tt) none (ok (exe_at deps hashed debug)) ≡ ok debug
unfolding resolve is_cargo_hashed_name
plain_resolves = refl
