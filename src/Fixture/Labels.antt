-- ===== src/Fixture/Labels.antt =====
-- src/label.rs: the labels of a test, its own or its module's, and `push_unique`.
pub mod Own
use skuld.Prelude.{
  ◌≡◌, refl, sym, ap, ◌∙◌, subst, Bool, true, false, ◌||◌, List, [], ◌∷◌, ◌++◌, Option, none, some,
  Text, codes, text_eq, text_eq→eq, text_eq_sym, strip_prefix, length, leb, if◌then◌else◌, inl, inr,
  arith, Bool-cases,
}
use skuld.Label.Name.{Label}
use skuld.Label.Filter.{has_label}

-- `ModuleLabels`: a `default_labels!`.
pub record ModuleLabels : Type 0 where
  pub module_path : Text
  pub labels : List Label

-- What `resolve_labels` reads of a `TestDef`.
pub record TestDef : Type 0 where
  pub module_path : Text
  pub labels : List Label
  pub labels_explicit : Bool
  pub fixture_names : List Text

-- `push_unique`. Labels are equal when their names are.
unfoldable pub push_unique : List Label → List Label → List Label
push_unique dst [] = dst
push_unique dst (l ∷ src) =
    let kept = push_unique dst src in
    let pushed = push_unique (dst ++ l ∷ []) src in if has_label dst l.name then kept else pushed

-- `rest.starts_with("::")`, on what `strip_prefix` gives.
abbrev pub starts_with_path : Option Text → Bool
starts_with_path none = false
starts_with_path (some rest) = elim (strip_prefix (codes "::") rest) [
  | none ↦ false
  | some r ↦ true
]

-- The closure `covers`.
unfoldable pub covers : TestDef → ModuleLabels → Bool
covers def m =
    text_eq def.module_path m.module_path
    || starts_with_path (strip_prefix m.module_path def.module_path)

-- `filter(covers).max_by_key(|m| m.module_path.len())`, which keeps the last of equal keys: `best` is the
-- maximum so far.
unfoldable pub longest : TestDef → Option ModuleLabels → List ModuleLabels → Option ModuleLabels
longest def best [] = best
longest def best (m ∷ ms) =
    let kept = longest def best ms in
    let taken = longest def (some m) ms in
    if covers def m
    then elim best [
      | none ↦ taken
      | some b ↦ if leb (length b.module_path) (length m.module_path) then taken else kept
    ]
    else kept

-- `own_labels`.
unfoldable pub own_labels : TestDef → List ModuleLabels → List Label
own_labels def module_defaults =
    if def.labels_explicit
    then def.labels
    else elim (longest def none module_defaults) [ some m ↦ m.labels | none ↦ def.labels ]

has_label-append :
    (ls ms : List Label) (t : Text) → has_label (ls ++ ms) t ≡ (has_label ls t || has_label ms t)
unfolding has_label
has_label-append [] ms t = refl
has_label-append (l ∷ ls) ms t = ground (arith, has_label-append ls ms t)

-- No two of the labels have one name.
abbrev pub Distinct : List Label → Type 0
Distinct [] = Unit
Distinct (l ∷ ls) = (has_label ls l.name ≡ false) × Distinct ls

Distinct-snoc :
    (ls : List Label) (l : Label)
    → Distinct ls
    → has_label ls l.name ≡ false
    → Distinct (ls ++ l ∷ [])
unfolding has_label
Distinct-snoc [] l h fresh = (refl, tt)
Distinct-snoc (x ∷ ls) l h fresh = (
  has_label-append ls (l ∷ []) x.name ∙ ground (arith, h.0, fresh, text_eq_sym x.name l.name),
  Distinct-snoc ls l h.1 (ground (arith, fresh)),
)

-- `push_unique` keeps distinct labels distinct.
pub push_unique-Distinct : (dst src : List Label) → Distinct dst → Distinct (push_unique dst src)
unfolding push_unique
push_unique-Distinct dst [] h = h
push_unique-Distinct dst (l ∷ src) h = elim (Bool-cases (has_label dst l.name)) [
  | inl e ↦
      subst Distinct
        (sym (ap (λ b. if b then push_unique dst src else push_unique (dst ++ l ∷ []) src) e))
        (push_unique-Distinct dst src h)
  | inr e ↦
      subst Distinct
        (sym (ap (λ b. if b then push_unique dst src else push_unique (dst ++ l ∷ []) src) e))
        (push_unique-Distinct (dst ++ l ∷ []) src (Distinct-snoc dst l h e))
]

already :
    (dst src : List Label) (l : Label) (t : Text)
    → has_label dst l.name ≡ true
    → (has_label dst t || has_label src t) ≡ (has_label dst t || has_label (l ∷ src) t)
unfolding has_label
already dst src l t h = elim (Bool-cases (text_eq l.name t)) [
  | inl q ↦
      let hit = subst (λ x. has_label dst x ≡ true) (text_eq→eq l.name t q) h in
      ground (arith, hit, q)
  | inr q ↦ ground (arith, q)
]

-- The labels that `push_unique` leaves are those of both lists.
pub has_label-push_unique :
    (dst src : List Label) (t : Text)
    → has_label (push_unique dst src) t ≡ (has_label dst t || has_label src t)
unfolding push_unique has_label
has_label-push_unique dst [] t = ground arith
has_label-push_unique dst (l ∷ src) t = elim (Bool-cases (has_label dst l.name)) [
  | inl e ↦ rw e (has_label-push_unique dst src t ∙ already dst src l t e)
  | inr e ↦ rw e (
      has_label-push_unique (dst ++ l ∷ []) src t ∙ ground (arith, has_label-append dst (l ∷ []) t))
]
