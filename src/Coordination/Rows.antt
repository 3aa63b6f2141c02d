-- ===== src/Coordination/Rows.antt =====
-- src/coordination.rs: what the deletions and insertions of the tables leave of a row's labels.
use skuld.Prelude.{
  ℕ, suc, ◌<◌, ◌≡◌, refl, append-nil, Bool, true, false, List, [], ◌∷◌, ◌++◌, ◌==◌, ==_refl, ==_iff,
  Text, Bool-cases, inl, inr, arith, All, ◌≢◌,
}
use skuld.Label.Name.{Label}
use skuld.Coordination.Database.{
  Running, labels_of, keep_rows, keep_labels, is_deleted, insert_labels,
}
use skuld.Coordination.Conflict.{names, any_row}

abbrev pub IdsBelow : ℕ → List Running → Type 0
IdsBelow n = All (λ r. r.id < n)

abbrev pub LabelsBelow : ℕ → List (ℕ × Text) → Type 0
LabelsBelow n = All (λ p. p.0 < n)

pub labels_of-append :
    (i : ℕ) (ls ms : List (ℕ × Text)) → labels_of i (ls ++ ms) ≡ labels_of i ls ++ labels_of i ms
unfolding labels_of
labels_of-append i [] ms = refl
labels_of-append i ((j, l) ∷ ls) ms = ground (arith, labels_of-append i ls ms)

-- A fresh id has no labels yet.
pub labels_of-fresh : (n : ℕ) (ls : List (ℕ × Text)) → LabelsBelow n ls → labels_of n ls ≡ []
unfolding labels_of
labels_of-fresh n [] h = refl
labels_of-fresh n ((j, l) ∷ ls) h = ground (arith, labels_of-fresh n ls h.1)

pub labels_of-insert_labels_self :
    (n : ℕ) (ls : List Label) → labels_of n (insert_labels n ls) ≡ names ls
unfolding labels_of insert_labels
labels_of-insert_labels_self n [] = refl
labels_of-insert_labels_self n (l ∷ ls) = rw (==_refl n, labels_of-insert_labels_self n ls)

pub labels_of-insert_labels_ne :
    (i n : ℕ) (ls : List Label) → i < n → labels_of i (insert_labels n ls) ≡ []
unfolding labels_of insert_labels
labels_of-insert_labels_ne i n [] h = refl
labels_of-insert_labels_ne i n (l ∷ ls) h = ground (arith, labels_of-insert_labels_ne i n ls h)

-- The deletion of other rows leaves a row's labels alone.
pub labels_of-keep_labels :
    (deleted : ℕ → Bool) (i : ℕ) (ls : List (ℕ × Text))
    → deleted i ≡ false
    → labels_of i (keep_labels deleted ls) ≡ labels_of i ls
unfolding labels_of keep_labels
labels_of-keep_labels deleted i [] h = refl
labels_of-keep_labels deleted i ((j, l) ∷ ls) h = elim (Bool-cases (j == i)) [
  | inl e ↦
      let kept : deleted j ≡ false = rw ((==_iff j i).0 e) h in
      ground (arith, kept, labels_of-keep_labels deleted i ls h)
  | inr ne ↦ ground (arith, labels_of-keep_labels deleted i ls h)
]

pub All-map :
    {A : Type 0} {P Q : A → Type 0} (xs : List A) → ((x : A) → P x → Q x) → All P xs → All Q xs
All-map [] f h = tt
All-map (x ∷ xs) f h = (f x h.0, All-map xs f h.1)

pub All-keep_rows :
    (P : Running → Type 0) (doomed : Running → Bool) (rs : List Running)
    → All (λ r. doomed r ≡ false → P r) rs
    → All P (keep_rows doomed rs)
unfolding keep_rows
All-keep_rows P doomed [] h = tt
All-keep_rows P doomed (r ∷ rs) h = elim (Bool-cases (doomed r)) [
  | inl e ↦ rw e (All-keep_rows P doomed rs h.1)
  | inr e ↦ rw e (h.0 e, All-keep_rows P doomed rs h.1)
]

pub All-keep_labels :
    (P : ℕ × Text → Type 0) (deleted : ℕ → Bool) (ls : List (ℕ × Text))
    → All P ls
    → All P (keep_labels deleted ls)
unfolding keep_labels
All-keep_labels P deleted [] h = tt
All-keep_labels P deleted ((i, l) ∷ ls) h = elim (Bool-cases (deleted i)) [
  | inl e ↦ rw e (All-keep_labels P deleted ls h.1)
  | inr e ↦ rw e (h.0, All-keep_labels P deleted ls h.1)
]

-- A row that stays has no id of a row that goes.
abbrev pub Spares : (Running → Bool) → (ℕ → Bool) → List Running → Type 0
Spares doomed deleted = All (λ r. doomed r ≡ false → deleted r.id ≡ false)

pub is_deleted-fresh :
    (doomed : Running → Bool) (i : ℕ) (rs : List Running)
    → All (λ q. i ≢ q.id) rs
    → is_deleted doomed rs i ≡ false
unfolding is_deleted
is_deleted-fresh doomed i [] h = refl
is_deleted-fresh doomed i (q ∷ rs) h = ground (arith, is_deleted-fresh doomed i rs h.1, h.0)

pub All-zip :
    {A : Type 0} {P Q R : A → Type 0} (xs : List A)
    → ((x : A) → P x → Q x → R x)
    → All P xs
    → All Q xs
    → All R xs
All-zip [] f h k = tt
All-zip (x ∷ xs) f h k = (f x h.0 k.0, All-zip xs f h.1 k.1)

pub is_deleted-other :
    (doomed : Running → Bool) (i : ℕ) (r : Running) (rs : List Running)
    → r.id ≢ i
    → is_deleted doomed rs i ≡ false
    → is_deleted doomed (r ∷ rs) i ≡ false
unfolding is_deleted
is_deleted-other doomed i r rs h k = ground arith

pub is_deleted-kept :
    (doomed : Running → Bool) (r : Running) (rs : List Running)
    → doomed r ≡ false
    → is_deleted doomed rs r.id ≡ false
    → is_deleted doomed (r ∷ rs) r.id ≡ false
unfolding is_deleted
is_deleted-kept doomed r rs h k = rw (h, k)

pub keep_rows-doomed :
    (doomed : Running → Bool) (r : Running) (rs : List Running)
    → doomed r ≡ true
    → keep_rows doomed (r ∷ rs) ≡ keep_rows doomed rs
unfolding keep_rows
keep_rows-doomed doomed r rs h = rw h refl

pub keep_rows-kept :
    (doomed : Running → Bool) (r : Running) (rs : List Running)
    → doomed r ≡ false
    → keep_rows doomed (r ∷ rs) ≡ r ∷ keep_rows doomed rs
unfolding keep_rows
keep_rows-kept doomed r rs h = rw h refl

-- A registration changes the labels of no older row.
pub labels_of-old :
    (i n : ℕ) (ls : List (ℕ × Text)) (new : List Label)
    → i < n
    → labels_of i (ls ++ insert_labels n new) ≡ labels_of i ls
labels_of-old i n ls new h =
    rw (labels_of-append i ls (insert_labels n new), labels_of-insert_labels_ne i n new h)
      (append-nil (labels_of i ls))

pub labels_of-new :
    (n : ℕ) (ls : List (ℕ × Text)) (new : List Label)
    → LabelsBelow n ls
    → labels_of n (ls ++ insert_labels n new) ≡ names new
labels_of-new n ls new h =
    rw (labels_of-append n ls (insert_labels n new), labels_of-fresh n ls h)
      (labels_of-insert_labels_self n new)

pub insert_labels-below : (n : ℕ) (new : List Label) → LabelsBelow (suc n) (insert_labels n new)
unfolding insert_labels
insert_labels-below n [] = tt
insert_labels-below n (l ∷ ls) = (ground arith, insert_labels-below n ls)

pub any_row-none :
    (p : Running → Bool) (rs : List Running) → any_row p rs ≡ false → All (λ r. p r ≡ false) rs
any_row-none p [] h = tt
any_row-none p (r ∷ rs) h = elim (Bool-cases (p r)) [
  | inl e ↦ ground arith
  | inr e ↦ (e, any_row-none p rs (ground arith))
]

pub any_row-tail :
    (p : Running → Bool) (r : Running) (rs : List Running)
    → any_row p (r ∷ rs) ≡ false
    → any_row p rs ≡ false
any_row-tail p r rs h = ground arith

pub IdsBelow-suc : (n : ℕ) (rs : List Running) → IdsBelow n rs → IdsBelow (suc n) rs
IdsBelow-suc n [] h = tt
IdsBelow-suc n (r ∷ rs) (h, k) = (omega arith, IdsBelow-suc n rs k)

pub LabelsBelow-suc : (n : ℕ) (ls : List (ℕ × Text)) → LabelsBelow n ls → LabelsBelow (suc n) ls
LabelsBelow-suc n [] h = tt
LabelsBelow-suc n (l ∷ ls) (h, k) = (omega arith, LabelsBelow-suc n ls k)
