-- ===== src/Macros/Serial/Accepted.antt =====
-- macros/src/lib.rs, `parse_serial_expr`: the parser accepts what is written as a tree, and leaves what
-- follows.
use skuld.Prelude.{
  ℕ, zero, suc, ◌+◌, ◌≤◌, ◌≡◌, refl, ◌∙◌, Bool, true, List, [], ◌∷◌, ◌++◌, none, Text, codes, arith,
}
use skuld.Macros.Tokens.{ident, punct, group, Tokens, nil, cons, parsed, after_punct, size, size_of}
use skuld.Macros.Serial.{
  Written, Reader, serial_loop, parse_serial_and, parse_serial_or, parse_serial_primary,
  parse_serial_not, parse_serial_expr,
}
use skuld.Macros.Serial.Tree.{
  Atom, name, not_atom, parens, Conj, conj, Atoms, no_atoms, and_atom, Choice, choice, Conjs,
  no_conjs, or_conj, tokens_atom, tokens_conj, tokens_atoms, tokens_choice, tokens_conjs,
  names_atom, names_conj, names_atoms, names_choice, names_conjs, text_atom, text_conj, text_atoms,
  text_choice, text_conjs, AtomNamesLabels, ConjNamesLabels, AtomsNameLabels, ChoiceNamesLabels,
  ConjsNameLabels,
}

-- The size of a tree's tokens.
mutual
  pub cost_atom : Atom → ℕ
  cost_atom (name n) = 1
  cost_atom (not_atom a) = suc (cost_atom a)
  cost_atom (parens c) = suc (cost_choice c)

  pub cost_conj : Conj → ℕ
  cost_conj (conj a more) = cost_atom a + cost_atoms more

  pub cost_atoms : Atoms → ℕ
  cost_atoms no_atoms = 0
  cost_atoms (and_atom a more) = suc (cost_atom a + cost_atoms more)

  pub cost_choice : Choice → ℕ
  cost_choice (choice j more) = cost_conj j + cost_conjs more

  pub cost_conjs : Conjs → ℕ
  cost_conjs no_conjs = 0
  cost_conjs (or_conj j more) = suc (cost_conj j + cost_conjs more)

mutual
  unfolding size size_of cost_atom cost_conj cost_atoms cost_choice cost_conjs tokens_atom
      tokens_conj tokens_atoms tokens_choice tokens_conjs

  size-tokens_atom : (a : Atom) (r : Tokens) → size (tokens_atom a r) ≡ cost_atom a + size r
  size-tokens_atom (name n) r = omega arith
  size-tokens_atom (not_atom a) r = omega (arith, size-tokens_atom a r)
  size-tokens_atom (parens c) r = omega (arith, size-tokens_choice c nil)

  size-tokens_conj : (j : Conj) (r : Tokens) → size (tokens_conj j r) ≡ cost_conj j + size r
  size-tokens_conj (conj a more) r =
      omega (arith, size-tokens_atom a (tokens_atoms more r), size-tokens_atoms more r)

  size-tokens_atoms : (l : Atoms) (r : Tokens) → size (tokens_atoms l r) ≡ cost_atoms l + size r
  size-tokens_atoms no_atoms r = omega arith
  size-tokens_atoms (and_atom a more) r =
      omega (arith, size-tokens_atom a (tokens_atoms more r), size-tokens_atoms more r)

  pub size-tokens_choice :
      (c : Choice) (r : Tokens) → size (tokens_choice c r) ≡ cost_choice c + size r
  size-tokens_choice (choice j more) r =
      omega (arith, size-tokens_conj j (tokens_conjs more r), size-tokens_conjs more r)

  size-tokens_conjs : (l : Conjs) (r : Tokens) → size (tokens_conjs l r) ≡ cost_conjs l + size r
  size-tokens_conjs no_conjs r = omega arith
  size-tokens_conjs (or_conj j more) r =
      omega (arith, size-tokens_conj j (tokens_conjs more r), size-tokens_conjs more r)

-- What follows goes on with no operator.
abbrev pub NoAnd : Tokens → Type 0
NoAnd r = after_punct b'&' r ≡ none

abbrev pub NoOr : Tokens → Type 0
NoOr r = (after_punct b'&' r ≡ none) × (after_punct b'|' r ≡ none)

module _ (is_name : Text → Bool) where
  -- The step of a loop whose operator and item stand there.
  loop_step :
      (fuel sep : ℕ) (sign : Text) (item : Reader) (left : Text) (labels : List Text)
      (ts ts' : Tokens) (right : Written)
      → item labels ts ≡ parsed right ts'
      → serial_loop (suc fuel) sep sign item left labels (cons (punct sep) ts)
        ≡ serial_loop fuel sep sign item (left ++ (sign ++ right.0)) right.1 ts'
  unfolding serial_loop
  loop_step fuel sep sign item left labels ts ts' right h = ground (arith, h)

  loop_stop :
      (fuel sep : ℕ) (sign : Text) (item : Reader) (left : Text) (labels : List Text) (r : Tokens)
      → after_punct sep r ≡ none
      → serial_loop (suc fuel) sep sign item left labels r ≡ parsed (left, labels) r
  unfolding serial_loop
  loop_stop fuel sep sign item left labels r h = rw (h, serial_loop)

  conjs-NoAnd : (l : Conjs) (r : Tokens) → NoOr r → NoAnd (tokens_conjs l r)
  unfolding tokens_conjs
  conjs-NoAnd no_conjs r h = h.0
  conjs-NoAnd (or_conj j more) r h = refl

  and_step :
      (item : Reader) (labels : List Text) (ts ts' r : Tokens) (first last : Written)
      → item labels ts ≡ parsed first ts'
      → serial_loop (suc (size ts')) b'&' (codes " & ") item first.0 first.1 ts' ≡ parsed last r
      → parse_serial_and item labels ts ≡ parsed last r
  unfolding parse_serial_and
  and_step item labels ts ts' r first last h k = rw h k

  or_step :
      (item : Reader) (labels : List Text) (ts ts' r : Tokens) (first last : Written)
      → parse_serial_and item labels ts ≡ parsed first ts'
      → serial_loop (suc (size ts')) b'|' (codes " | ") (parse_serial_and item) first.0 first.1 ts'
        ≡ parsed last r
      → parse_serial_or item labels ts ≡ parsed last r
  unfolding parse_serial_or
  or_step item labels ts ts' r first last h k = rw h k

  not_step :
      (fuel : ℕ) (labels : List Text) (ts r : Tokens) (inner : Written)
      → parse_serial_not is_name fuel labels ts ≡ parsed inner r
      → parse_serial_not is_name (suc fuel) labels (cons (punct b'!') ts)
        ≡ parsed (b'!' ∷ inner.0, inner.1) r
  unfolding parse_serial_not
  not_step fuel labels ts r inner h = rw h refl

  group_step :
      (fuel : ℕ) (labels : List Text) (content r : Tokens) (inner : Written)
      → parse_serial_or (parse_serial_not is_name fuel) labels content ≡ parsed inner nil
      → parse_serial_not is_name (suc fuel) labels (cons (group b'(' content) r)
        ≡ parsed (codes "(" ++ (inner.0 ++ codes ")"), inner.1) r
  unfolding parse_serial_not parse_serial_primary
  group_step fuel labels content r inner h = rw h refl

  name_step :
      (fuel : ℕ) (labels : List Text) (n : Text) (r : Tokens)
      → is_name n ≡ true
      → parse_serial_not is_name (suc fuel) labels (cons (ident n) r)
        ≡ parsed (n, labels ++ n ∷ []) r
  unfolding parse_serial_not parse_serial_primary
  name_step fuel labels n r h = rw h refl

  mutual
    unfolding cost_atom cost_conj cost_atoms cost_choice cost_conjs tokens_atom tokens_conj
        tokens_atoms tokens_choice tokens_conjs names_atom names_conj names_atoms names_choice
        names_conjs text_atom text_conj text_atoms text_choice text_conjs AtomNamesLabels
        ConjNamesLabels AtomsNameLabels ChoiceNamesLabels ConjsNameLabels

    atom_read :
        (a : Atom) (f : ℕ) (labels : List Text) (r : Tokens)
        → AtomNamesLabels is_name a
        → cost_atom a ≤ f
        → parse_serial_not is_name (suc f) labels (tokens_atom a r)
          ≡ parsed (text_atom a, names_atom a labels) r
    atom_read (name n) f labels r h le = name_step f labels n r h.0
    atom_read (not_atom a) zero labels r h le = absurd (omega arith)
    atom_read (not_atom a) (suc f) labels r h le =
        not_step (suc f) labels (tokens_atom a r) r (text_atom a, names_atom a labels)
          (atom_read a f labels r h (omega arith))
    atom_read (parens c) zero labels r h le = absurd (omega arith)
    atom_read (parens c) (suc f) labels r h le =
        group_step (suc f) labels (tokens_choice c nil) r (text_choice c, names_choice c labels)
          (choice_read c f labels nil h (omega arith) (refl, refl))

    atoms_read :
        (l : Atoms) (f g : ℕ) (left : Text) (labels : List Text) (r : Tokens)
        → AtomsNameLabels is_name l
        → cost_atoms l ≤ f
        → cost_atoms l ≤ g
        → NoAnd r
        → serial_loop
            (suc g)
            b'&'
            (codes " & ")
            (parse_serial_not is_name (suc f))
            left
            labels
            (tokens_atoms l r)
          ≡ parsed (text_atoms left l, names_atoms l labels) r
    atoms_read no_atoms f g left labels r h le le' end =
        loop_stop g b'&' (codes " & ") (parse_serial_not is_name (suc f)) left labels r end
    atoms_read (and_atom a more) f zero left labels r h le le' end = absurd (omega arith)
    atoms_read (and_atom a more) f (suc g) left labels r h le le' end =
        loop_step (suc g) b'&' (codes " & ") (parse_serial_not is_name (suc f)) left labels
          (tokens_atom a (tokens_atoms more r)) (tokens_atoms more r)
          (text_atom a, names_atom a labels)
          (atom_read a f labels (tokens_atoms more r) h.0 (omega arith))
        ∙ atoms_read more f g (left ++ (codes " & " ++ text_atom a)) (names_atom a labels) r h.1
            (omega arith) (omega arith) end

    conj_read :
        (j : Conj) (f : ℕ) (labels : List Text) (r : Tokens)
        → ConjNamesLabels is_name j
        → cost_conj j ≤ f
        → NoAnd r
        → parse_serial_and (parse_serial_not is_name (suc f)) labels (tokens_conj j r)
          ≡ parsed (text_conj j, names_conj j labels) r
    conj_read (conj a more) f labels r h le end =
        and_step (parse_serial_not is_name (suc f)) labels (tokens_atom a (tokens_atoms more r))
          (tokens_atoms more r) r (text_atom a, names_atom a labels)
          (text_conj (conj a more), names_conj (conj a more) labels)
          (atom_read a f labels (tokens_atoms more r) h.0 (omega arith))
          (atoms_read more f (size (tokens_atoms more r)) (text_atom a) (names_atom a labels) r h.1
            (omega arith) (omega (arith, size-tokens_atoms more r)) end)

    conjs_read :
        (l : Conjs) (f g : ℕ) (left : Text) (labels : List Text) (r : Tokens)
        → ConjsNameLabels is_name l
        → cost_conjs l ≤ f
        → cost_conjs l ≤ g
        → NoOr r
        → serial_loop
            (suc g)
            b'|'
            (codes " | ")
            (parse_serial_and (parse_serial_not is_name (suc f)))
            left
            labels
            (tokens_conjs l r)
          ≡ parsed (text_conjs left l, names_conjs l labels) r
    conjs_read no_conjs f g left labels r h le le' end =
        loop_stop g b'|' (codes " | ") (parse_serial_and (parse_serial_not is_name (suc f))) left
          labels r end.1
    conjs_read (or_conj j more) f zero left labels r h le le' end = absurd (omega arith)
    conjs_read (or_conj j more) f (suc g) left labels r h le le' end =
        loop_step (suc g) b'|' (codes " | ") (parse_serial_and (parse_serial_not is_name (suc f)))
          left labels (tokens_conj j (tokens_conjs more r)) (tokens_conjs more r)
          (text_conj j, names_conj j labels)
          (conj_read j f labels (tokens_conjs more r) h.0 (omega arith) (conjs-NoAnd more r end))
        ∙ conjs_read more f g (left ++ (codes " | " ++ text_conj j)) (names_conj j labels) r h.1
            (omega arith) (omega arith) end

    choice_read :
        (c : Choice) (f : ℕ) (labels : List Text) (r : Tokens)
        → ChoiceNamesLabels is_name c
        → cost_choice c ≤ f
        → NoOr r
        → parse_serial_or (parse_serial_not is_name (suc f)) labels (tokens_choice c r)
          ≡ parsed (text_choice c, names_choice c labels) r
    choice_read (choice j more) f labels r h le end =
        or_step (parse_serial_not is_name (suc f)) labels (tokens_conj j (tokens_conjs more r))
          (tokens_conjs more r) r (text_conj j, names_conj j labels)
          (text_choice (choice j more), names_choice (choice j more) labels)
          (conj_read j f labels (tokens_conjs more r) h.0 (omega arith) (conjs-NoAnd more r end))
          (conjs_read more f (size (tokens_conjs more r)) (text_conj j) (names_conj j labels) r h.1
            (omega arith) (omega (arith, size-tokens_conjs more r)) end)

  pub parse_serial_expr-tokens :
      (c : Choice) (r : Tokens)
      → ChoiceNamesLabels is_name c
      → NoOr r
      → parse_serial_expr is_name (tokens_choice c r) ≡ parsed (text_choice c, names_choice c []) r
  unfolding parse_serial_expr
  parse_serial_expr-tokens c r h end =
      choice_read c (size (tokens_choice c r)) [] r h (omega (arith, size-tokens_choice c r)) end
