-- ===== src/Macros/Serial/Tree.antt =====
-- The filters that may stand behind `serial = `, as trees: the tokens that they are written in, their
-- labels, and the filter expression that they mean.
use skuld.Prelude.{◌≡◌, Bool, true, List, [], ◌∷◌, ◌++◌, map, Text, codes}
use skuld.Label.Name.{to_ascii_lowercase}
use skuld.Label.Expr.{LabelExpr, terminal, and, or}
use skuld.Label.Print.Words.{IsLabelName}
use skuld.Macros.Tokens.{ident, punct, group, Tokens, nil, cons}

mutual
  -- A name, a negation, or a choice in parentheses.
  pub data Atom : Type 0 where
    name : Text → Atom
    not_atom : Atom → Atom
    parens : Choice → Atom

  -- One or more atoms joined by `&`.
  pub data Conj : Type 0 where
    conj : Atom → Atoms → Conj

  pub data Atoms : Type 0 where
    no_atoms : Atoms
    and_atom : Atom → Atoms → Atoms

  -- One or more of those joined by `|`.
  pub data Choice : Type 0 where
    choice : Conj → Conjs → Choice

  pub data Conjs : Type 0 where
    no_conjs : Conjs
    or_conj : Conj → Conjs → Conjs

-- The tokens, in front of others.
unfoldable mutual
  pub tokens_atom : Atom → Tokens → Tokens
  tokens_atom (name n) rest = cons (ident n) rest
  tokens_atom (not_atom a) rest = cons (punct b'!') (tokens_atom a rest)
  tokens_atom (parens c) rest = cons (group b'(' (tokens_choice c nil)) rest

  pub tokens_conj : Conj → Tokens → Tokens
  tokens_conj (conj a more) rest = tokens_atom a (tokens_atoms more rest)

  pub tokens_atoms : Atoms → Tokens → Tokens
  tokens_atoms no_atoms rest = rest
  tokens_atoms (and_atom a more) rest = cons (punct b'&') (tokens_atom a (tokens_atoms more rest))

  pub tokens_choice : Choice → Tokens → Tokens
  tokens_choice (choice j js) rest = tokens_conj j (tokens_conjs js rest)

  pub tokens_conjs : Conjs → Tokens → Tokens
  tokens_conjs no_conjs rest = rest
  tokens_conjs (or_conj j js) rest = cons (punct b'|') (tokens_conj j (tokens_conjs js rest))

-- The names, behind others.
unfoldable mutual
  pub names_atom : Atom → List Text → List Text
  names_atom (name n) before = before ++ n ∷ []
  names_atom (not_atom a) before = names_atom a before
  names_atom (parens c) before = names_choice c before

  pub names_conj : Conj → List Text → List Text
  names_conj (conj a more) before = names_atoms more (names_atom a before)

  pub names_atoms : Atoms → List Text → List Text
  names_atoms no_atoms before = before
  names_atoms (and_atom a more) before = names_atoms more (names_atom a before)

  pub names_choice : Choice → List Text → List Text
  names_choice (choice j js) before = names_conjs js (names_conj j before)

  pub names_conjs : Conjs → List Text → List Text
  names_conjs no_conjs before = before
  names_conjs (or_conj j js) before = names_conjs js (names_conj j before)

-- What is meant: of the labels that the constants of these names hold, with `&` and `|` grouped to
-- the left.
unfoldable mutual
  pub meaning_atom : Atom → LabelExpr
  meaning_atom (name n) = terminal (map to_ascii_lowercase n)
  meaning_atom (not_atom a) = LabelExpr.neg (meaning_atom a)
  meaning_atom (parens c) = meaning_choice c

  pub meaning_conj : Conj → LabelExpr
  meaning_conj (conj a more) = meaning_atoms (meaning_atom a) more

  pub meaning_atoms : LabelExpr → Atoms → LabelExpr
  meaning_atoms left no_atoms = left
  meaning_atoms left (and_atom a more) = meaning_atoms (and left (meaning_atom a)) more

  pub meaning_choice : Choice → LabelExpr
  meaning_choice (choice j js) = meaning_conjs (meaning_conj j) js

  pub meaning_conjs : LabelExpr → Conjs → LabelExpr
  meaning_conjs left no_conjs = left
  meaning_conjs left (or_conj j js) = meaning_conjs (or left (meaning_conj j)) js

-- The text that the macro writes.
unfoldable mutual
  pub text_atom : Atom → Text
  text_atom (name n) = n
  text_atom (not_atom a) = b'!' ∷ text_atom a
  text_atom (parens c) = codes "(" ++ (text_choice c ++ codes ")")

  pub text_conj : Conj → Text
  text_conj (conj a more) = text_atoms (text_atom a) more

  pub text_atoms : Text → Atoms → Text
  text_atoms left no_atoms = left
  text_atoms left (and_atom a more) = text_atoms (left ++ (codes " & " ++ text_atom a)) more

  pub text_choice : Choice → Text
  text_choice (choice j js) = text_conjs (text_conj j) js

  pub text_conjs : Text → Conjs → Text
  text_conjs left no_conjs = left
  text_conjs left (or_conj j js) = text_conjs (left ++ (codes " | " ++ text_conj j)) js

-- The names that are identifiers, of constants that `#[skuld::label]` has made.
module _ (is_name : Text → Bool) where
  unfoldable mutual
    pub AtomNamesLabels : Atom → Type 0
    AtomNamesLabels (name n) = (is_name n ≡ true) × IsLabelName (map to_ascii_lowercase n)
    AtomNamesLabels (not_atom a) = AtomNamesLabels a
    AtomNamesLabels (parens c) = ChoiceNamesLabels c

    pub ConjNamesLabels : Conj → Type 0
    ConjNamesLabels (conj a more) = AtomNamesLabels a × AtomsNameLabels more

    pub AtomsNameLabels : Atoms → Type 0
    AtomsNameLabels no_atoms = Unit
    AtomsNameLabels (and_atom a more) = AtomNamesLabels a × AtomsNameLabels more

    pub ChoiceNamesLabels : Choice → Type 0
    ChoiceNamesLabels (choice j js) = ConjNamesLabels j × ConjsNameLabels js

    pub ConjsNameLabels : Conjs → Type 0
    ConjsNameLabels no_conjs = Unit
    ConjsNameLabels (or_conj j js) = ConjNamesLabels j × ConjsNameLabels js
