-- ===== src/Examples/Publishers.antt =====
-- The publication of the database at concrete inputs.
use skuld.Prelude.{
  ℕ, ◌≡◌, ◌≢◌, refl, List, [], ◌∷◌, true, none, some, Text, codes, text_eq, if◌then◌else◌, inl, inr,
}
use skuld.Coordination.Publish.{
  File, Files, Disk, ensure_published, classify_rename_errno, already_exists, world_writable,
}
use skuld.Coordination.Publish.Outcome.{Ensured, ensure_published-Ensured}
use skuld.Coordination.Publish.Race.{World, turns, returned}
use skuld.Coordination.Publish.Race.Turns.{begun, turns_publish}

-- A directory in which one candidate name is taken, on a disk that does not remove one other.
abbrev leftover : Files
leftover p = if text_eq p (codes "t0") then some (record { inode = 7; mode = 384 }) else none

never_refused : (errno : ℕ) → none ≡ some errno → classify_rename_errno errno ≢ already_exists
never_refused errno e = cc

abbrev disk : Disk
disk = record {
  open_refuses = λ p. none;
  chmod_refuses = λ p. none;
  stat_refuses = λ p. none;
  rename_refuses = λ p. none;
  kept_mode = λ p mode. mode;
  new_inode = λ p. 8;
  remove_refuses = λ p. text_eq p (codes "t2");
  refuses_otherwise = λ from. never_refused;
}

abbrev candidates : List Text
candidates = codes "t0" ∷ codes "t1" ∷ []

ensure_published-Ensured_example :
    Ensured disk candidates
      (codes "/db")
      leftover
      (ensure_published true disk candidates (codes "/db") leftover)
ensure_published-Ensured_example =
    ensure_published-Ensured true disk candidates (codes "/db") (codes "t1") leftover
      (refl, (refl, tt)) (inr (inl refl)) refl

-- Two publishers create their temps before either renames, and the first to rename wins.
abbrev calls_before : List (ℕ × Text)
calls_before =
    (0, codes "t1") ∷ (1, codes "t2") ∷ (0, codes "t1") ∷ (1, codes "t2") ∷ (1, codes "t2") ∷ []

abbrev calls_after : List (ℕ × Text)
calls_after = (0, codes "t1") ∷ []

abbrev raced : World
raced = turns disk (codes "db") calls_before (begun leftover)

turns_publish_example :
    ((f : File)
      → raced.files (codes "db") ≡ some f
      → ((turns disk (codes "db") calls_after raced).files (codes "db") ≡ some f)
        × (world_writable f.mode ≡ true))
    × ((i : ℕ) → raced.phases i ≡ returned → (f : File) × (raced.files (codes "db") ≡ some f))
turns_publish_example =
    turns_publish disk (codes "db") leftover calls_before calls_after (λ f e. cc)
      (refl, (refl, (refl, (refl, (refl, tt))))) (refl, tt)
