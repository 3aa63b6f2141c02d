-- ===== src/Fixture/Labels/Own.antt =====
-- src/label.rs: which `default_labels!` gives a test its labels.
use skuld.Prelude.{
  ◌≡◌, ◌≤◌, refl, sym, ap, ◌∙◌, subst, true, false, List, [], ◌∷◌, ◌++◌, Option, none, some, Text,
  codes, text_eq, text_eq→eq, text_eq_refl, ==_refl, strip_prefix, length, leb, inl, inr, arith,
  Bool-cases, Option-cases, All, In, ◌↔◌, ◌⊎◌, ◌==◌, false≢true,
}
use skuld.Label.Name.{Label}
use skuld.Fixture.Labels.{ModuleLabels, TestDef, starts_with_path, covers, longest, own_labels}

-- The module of the defaults is the test's, or one around it.
abbrev pub Covers : TestDef → ModuleLabels → Type 0
Covers def m =
    (def.module_path ≡ m.module_path)
    ⊎ ((rest : Text) × (def.module_path ≡ m.module_path ++ (codes "::" ++ rest)))

strip_prefix-some : (s t r : Text) → strip_prefix s t ≡ some r → t ≡ s ++ r
strip_prefix-some [] t r h = cc
strip_prefix-some (c ∷ s) [] r h = absurd cc
strip_prefix-some (c ∷ s) (d ∷ t) r h = elim (Bool-cases (c == d)) [
  | inl e ↦
      let rest = strip_prefix-some s t r (ground (arith, h, e)) in
      let same : c ≡ d = ground (arith, e) in cc
  | inr e ↦ absurd (ground (arith, h, e))
]

strip_prefix-append : (s t : Text) → strip_prefix s (s ++ t) ≡ some t
strip_prefix-append [] t = refl
strip_prefix-append (c ∷ s) t = rw (==_refl c) (strip_prefix-append s t)

starts_with_path_some :
    (found : Option Text) (s t : Text)
    → strip_prefix s t ≡ found
    → starts_with_path found ≡ true
    → (rest : Text) × (t ≡ s ++ (codes "::" ++ rest))
starts_with_path_some none s t e h = absurd cc
starts_with_path_some (some r) s t e h = elim (Option-cases (strip_prefix (codes "::") r)) [
  | inl none_left ↦ absurd (ground (arith, h, none_left))
  | inr (rest, e') ↦ (
    rest,
    strip_prefix-some s t r e ∙ ap (λ x. s ++ x) (strip_prefix-some (codes "::") r rest e'),
  )
]

covers_iff : (def : TestDef) (m : ModuleLabels) → (covers def m ≡ true) ↔ Covers def m
unfolding covers
covers_iff def m = (
  λ h. elim (Bool-cases (text_eq def.module_path m.module_path)) [
    | inl e ↦ inl (text_eq→eq def.module_path m.module_path e)
    | inr e ↦ inr (
        starts_with_path_some (strip_prefix m.module_path def.module_path) m.module_path
          def.module_path refl (ground (arith, h, e)))
  ],
  λ h. elim h [
    | inl e ↦ rw (e, text_eq_refl m.module_path) refl
    | inr (rest, e) ↦
        let inner = strip_prefix-append m.module_path (codes "::" ++ rest) in
        let outer = strip_prefix-append (codes "::") rest in
        rw e (rw (inner, starts_with_path) (ground (arith, outer)))
  ],
)

-- No module of the list that covers the test has a longer path.
abbrev pub IsLongest : TestDef → List ModuleLabels → ModuleLabels → Type 0
IsLongest def ms m = All (λ x. Covers def x → length x.module_path ≤ length m.module_path) ms

-- What the search comes to from this maximum.
abbrev Found : TestDef → Option ModuleLabels → List ModuleLabels → Option ModuleLabels → Type 0
Found def best ms none = (best ≡ none) × All (λ x. covers def x ≡ false) ms
Found def best ms (some m) =
    ((best ≡ some m) ⊎ (In m ms × (covers def m ≡ true)))
    × ((b : ModuleLabels) → best ≡ some b → length b.module_path ≤ length m.module_path)
    × IsLongest def ms m

uncovered : (def : TestDef) (m : ModuleLabels) → covers def m ≡ false → Covers def m → ⊥
uncovered def m off h = let on = (covers_iff def m).1 h in false≢true (sym off ∙ on)

skip-Found :
    (def : TestDef) (best : Option ModuleLabels) (m : ModuleLabels) (ms : List ModuleLabels)
    (r : Option ModuleLabels)
    → covers def m ≡ false
    → Found def best ms r
    → Found def best (m ∷ ms) r
skip-Found def best m ms none off (e, others) = (e, (off, others))
skip-Found def best m ms (some k) off (from, ge, longest_of) = (
  elim from [ inl e ↦ inl e | inr (member, on) ↦ inr (inr member, on) ],
  ge,
  (λ h. absurd (uncovered def m off h), longest_of),
)

take-Found :
    (def : TestDef) (best : Option ModuleLabels) (m : ModuleLabels) (ms : List ModuleLabels)
    (r : Option ModuleLabels)
    → covers def m ≡ true
    → ((b : ModuleLabels) → best ≡ some b → length b.module_path ≤ length m.module_path)
    → Found def (some m) ms r
    → Found def best (m ∷ ms) r
take-Found def best m ms none on below (e, others) = absurd cc
take-Found def best m ms (some k) on below (from, ge, longest_of) =
    let least = ge m refl in
    (
      elim from [
        | inl e ↦
            let same : m ≡ k = cc in inr (inl (sym same), subst (λ x. covers def x ≡ true) same on)
        | inr (member, on') ↦ inr (inr member, on')
      ],
      λ b e. omega (arith, below b e, least),
      (λ h. least, longest_of),
    )

keep-Found :
    (def : TestDef) (b m : ModuleLabels) (ms : List ModuleLabels) (r : Option ModuleLabels)
    → length m.module_path ≤ length b.module_path
    → Found def (some b) ms r
    → Found def (some b) (m ∷ ms) r
keep-Found def b m ms none below (e, others) = absurd cc
keep-Found def b m ms (some k) below (from, ge, longest_of) = (
  elim from [ inl e ↦ inl e | inr (member, on) ↦ inr (inr member, on) ],
  ge,
  (λ h. omega (arith, ge b refl, below), longest_of),
)

longest-Found :
    (def : TestDef) (best : Option ModuleLabels) (ms : List ModuleLabels)
    → Found def best ms (longest def best ms)
unfolding longest
longest-Found def none [] = (refl, tt)
longest-Found def (some b) [] =
    (inl refl, λ x e. let same : b ≡ x = cc in rw same (omega arith), tt)
longest-Found def none (m ∷ ms) = elim (Bool-cases (covers def m)) [
  | inr off ↦ rw off (skip-Found def none m ms _ off (longest-Found def none ms))
  | inl on ↦
      rw on (take-Found def none m ms _ on (λ b e. absurd cc) (longest-Found def (some m) ms))
]
longest-Found def (some b) (m ∷ ms) = elim (Bool-cases (covers def m)) [
  | inr off ↦ rw off (skip-Found def (some b) m ms _ off (longest-Found def (some b) ms))
  | inl on ↦ elim (Bool-cases (leb (length b.module_path) (length m.module_path))) [
    | inl le ↦
        rw (on, le)
          (take-Found def (some b) m ms _ on
            (λ x e. let same : b ≡ x = cc in rw⁻¹ same (ground (arith, le)))
            (longest-Found def (some m) ms))
    | inr gt ↦
        rw (on, gt) (keep-Found def b m ms _ (ground (arith, gt)) (longest-Found def (some b) ms))
  ]
]

-- The labels of a test: its own, if it gives some; else those of the innermost module with defaults
-- that covers it, or its own, if there is none.
abbrev pub IsOwn : TestDef → List ModuleLabels → List Label → Type 0
IsOwn def ms labels =
    ((def.labels_explicit ≡ true) × (labels ≡ def.labels))
    ⊎ ((def.labels_explicit ≡ false)
        × ((All (λ m. Covers def m → ⊥) ms × (labels ≡ def.labels))
            ⊎ ((m : ModuleLabels) × In m ms
                × Covers def m
                × IsLongest def ms m
                × (labels ≡ m.labels))))

All-uncovered :
    (def : TestDef) (ms : List ModuleLabels)
    → All (λ x. covers def x ≡ false) ms
    → All (λ m. Covers def m → ⊥) ms
All-uncovered def [] h = tt
All-uncovered def (m ∷ ms) h = (uncovered def m h.0, All-uncovered def ms h.1)

abbrev chosen : TestDef → Option ModuleLabels → List Label
chosen def r = elim r [ some m ↦ m.labels | none ↦ def.labels ]

default-IsOwn :
    (def : TestDef) (ms : List ModuleLabels) (r : Option ModuleLabels)
    → def.labels_explicit ≡ false
    → Found def none ms r
    → IsOwn def ms (chosen def r)
default-IsOwn def ms none implicit (e, others) =
    inr (implicit, inl (All-uncovered def ms others, refl))
default-IsOwn def ms (some m) implicit (inl e, ge, longest_of) = absurd cc
default-IsOwn def ms (some m) implicit (inr (member, on), ge, longest_of) =
    inr (implicit, inr (m, member, (covers_iff def m).0 on, longest_of, refl))

pub own_labels-IsOwn : (def : TestDef) (ms : List ModuleLabels) → IsOwn def ms (own_labels def ms)
unfolding own_labels
own_labels-IsOwn def ms = elim (Bool-cases def.labels_explicit) [
  | inl e ↦ rw (e, own_labels) (inl (refl, refl))
  | inr e ↦
      let same : own_labels def ms ≡ chosen def (longest def none ms) = rw (e, own_labels) refl in
      subst (IsOwn def ms) (sym same)
        (default-IsOwn def ms (longest def none ms) e (longest-Found def none ms))
]
