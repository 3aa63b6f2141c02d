-- ===== src/Coordination/Publish/Race/Turns.antt =====
-- src/coordination/publish.rs: however the calls of publishers interleave, the first file stays.
use skuld.Prelude.{
  ℕ, ◌≡◌, ◌≢◌, false≢true, arith, if◌then◌else◌, sym, ◌∙◌, subst, true, false, List, [], ◌∷◌, none,
  some, Text, text_eq, ◌==◌, Bool-cases, inl, inr, All,
}
use skuld.Coordination.Publish.{File, Files, Disk, world_writable}
use skuld.Coordination.Publish.Race.{
  Phase, creating, renaming, panicked, checking, returned, World, turn, turns,
}
use skuld.Coordination.Publish.Race.Calls.{WritableAt, InPhase, InPhase-Changed, advance-Sound}

-- No two publishers rename one temp.
abbrev pub OwnTemps : (ℕ → Phase) → Type 0
OwnTemps phases =
    (i j : ℕ) (tmp : Text) → phases i ≡ renaming tmp → phases j ≡ renaming tmp → (i == j) ≡ true

-- Each publisher is where it may be, and what is at the target is world-writable.
abbrev pub Holds : Text → World → Type 0
Holds target w =
    ((i : ℕ) → InPhase target w.files (w.phases i)) × WritableAt w.files target × OwnTemps w.phases

abbrev Stays : Text → World → World → Type 0
Stays target w w' = (f : File) → w.files target ≡ some f → w'.files target ≡ some f

-- The phases behind the call of the i-th publisher.
abbrev moved_on : (ℕ → Phase) → ℕ → Phase → ℕ → Phase
moved_on phases i next j = if i == j then next else phases j

-- A temp that another publisher renames is there, so it is not the one created now.
taken_temp :
    (target : Text) (files : Files) (phase : Phase) (tmp : Text)
    → InPhase target files phase
    → phase ≡ renaming tmp
    → files tmp ≢ none
taken_temp target files (renaming t) tmp (ne, (f, at, writable)) e absent =
    let same : t ≡ tmp = cc in
    let clash : none ≡ some f = sym (subst (λ q. files q ≡ none) (sym same) absent) ∙ at in
    absurd cc
taken_temp target files checking tmp h e absent = absurd cc
taken_temp target files creating tmp h e absent = absurd cc
taken_temp target files returned tmp h e absent = absurd cc
taken_temp target files panicked tmp h e absent = absurd cc

moved_on-OwnTemps :
    (target : Text) (files : Files) (phases : ℕ → Phase) (i : ℕ) (next : Phase)
    → ((j : ℕ) → InPhase target files (phases j))
    → ((tmp : Text) → next ≡ renaming tmp → files tmp ≡ none)
    → OwnTemps phases
    → OwnTemps (moved_on phases i next)
moved_on-OwnTemps target files phases i next places fresh own j k tmp at_j at_k =
    elim (Bool-cases (i == j)) [
      | inl is_j ↦ elim (Bool-cases (i == k)) [
        | inl is_k ↦ ground (arith, is_j, is_k)
        | inr not_k ↦ absurd (
            taken_temp target files (phases k) tmp (places k) (ground (arith, at_k, not_k))
              (fresh tmp (ground (arith, at_j, is_j))))
      ]
      | inr not_j ↦ elim (Bool-cases (i == k)) [
        | inl is_k ↦ absurd (
            taken_temp target files (phases j) tmp (places j) (ground (arith, at_j, not_j))
              (fresh tmp (ground (arith, at_k, is_k))))
        | inr not_k ↦ own j k tmp (ground (arith, at_j, not_j)) (ground (arith, at_k, not_k))
      ]
    ]

turn-Holds :
    (disk : Disk) (target : Text) (t : ℕ × Text) (w : World)
    → text_eq t.1 target ≡ false
    → Holds target w
    → Holds target (turn disk target t w) × Stays target w (turn disk target t w)
turn-Holds disk target (i, candidate) w apart (places, writable, own) =
    let (changed, here, fresh) =
      advance-Sound disk target candidate (w.phases i) w.files apart (places i) in
    (
      (
        λ j. elim (Bool-cases (i == j)) [
          | inl e ↦ rw e here
          | inr e ↦ rw e (
              InPhase-Changed target w.files _ (w.phases i) (w.phases j) changed
                (λ tmp at_i at_j. false≢true (sym e ∙ own i j tmp at_i at_j)) (places j))
        ],
        changed.1 writable,
        moved_on-OwnTemps target w.files w.phases i _ places fresh own,
      ),
      changed.0,
    )

turns-Holds :
    (disk : Disk) (target : Text) (ts : List (ℕ × Text)) (w : World)
    → All (λ t. text_eq t.1 target ≡ false) ts
    → Holds target w
    → Holds target (turns disk target ts w) × Stays target w (turns disk target ts w)
turns-Holds disk target [] w apart h = (h, λ f at. at)
turns-Holds disk target (t ∷ ts) w apart h =
    let (held, kept) = turn-Holds disk target t w apart.0 h in
    let (last, stays) = turns-Holds disk target ts (turn disk target t w) apart.1 held in
    (last, λ f at. stays f (kept f at))

abbrev pub begun : Files → World
begun files = record { phases = λ i. checking; files = files }

-- Any number of publishers begin together, over a directory where the database is absent or
-- world-writable, and make their calls in any order, with candidate names that are not the database's.
-- Once the database is there, it stays the same file, and it is world-writable; and where a publisher has
-- returned, it is there.
pub turns_publish :
    (disk : Disk) (target : Text) (files : Files) (before after : List (ℕ × Text))
    → WritableAt files target
    → All (λ t. text_eq t.1 target ≡ false) before
    → All (λ t. text_eq t.1 target ≡ false) after
    → ((f : File)
        → (turns disk target before (begun files)).files target ≡ some f
        → ((turns disk target after (turns disk target before (begun files))).files target ≡ some f)
          × (world_writable f.mode ≡ true))
      × ((i : ℕ)
          → (turns disk target before (begun files)).phases i ≡ returned
          → (f : File) × ((turns disk target before (begun files)).files target ≡ some f))
turns_publish disk target files before after writable apart apart' =
    let (held, stays) =
      turns-Holds disk target before (begun files) apart
        ((λ i. tt), writable, λ i j tmp e e'. absurd cc) in
    let later =
      turns-Holds disk target after (turns disk target before (begun files)) apart' held in
    (
      λ f at. (later.1 f at, held.1 f at),
      λ i e. subst (InPhase target ((turns disk target before (begun files)).files)) e (held.0 i),
    )
