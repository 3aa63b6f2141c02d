-- ===== src/Macros/Serial/Meaning.antt =====
-- macros/src/lib.rs, `parse_serial_expr`, and src/label.rs, `parse_raw_label_expr`: the harness reads
-- what the macro writes as what is meant.
use skuld.Prelude.{
  ℕ, zero, suc, ◌<◌, ◌≤◌, ◌≡◌, refl, Bool, true, false, [], ◌∷◌, ◌++◌, map, Text, codes, ok, arith,
  length, length-append, append_assoc,
}
use skuld.Label.Name.{is_ident_start, is_ident_continue, to_ascii_lowercase}
use skuld.Label.Expr.{LabelExpr, terminal, and, or}
use skuld.Label.Grammar.{pair, nil, separated, skip, label, and_expr, parse_not_expr, is_whitespace}
use skuld.Label.Build.{build_expr, parse_raw_label_expr}
use skuld.Label.Print.Words.{IsLabelName, Continues, new→IsWord, not-IsLabelName-nil}
use skuld.Label.Print.Tokens.{read_word}
use skuld.Label.Print.Leads.{Leads-item, Leads-op}
use skuld.Label.Print.Levels.{
  start_visible, skip-visible, Ends0, Ends1, Unit2, Leads0, Leads1, and_expr-Reads,
}
use skuld.Label.Print.Groups.{Unit2-group, Unit2-neg, Unit2-token}
use skuld.Label.Print.RoundTrip.{and_separates, or_separates, parse_raw_label_expr-Leads0}
use skuld.Macros.Tokens.{Tokens, parsed}
use skuld.Macros.Serial.{parse_serial_expr}
use skuld.Macros.Serial.Tree.{
  Atom, name, not_atom, parens, Conj, conj, Atoms, no_atoms, and_atom, Choice, choice, Conjs,
  no_conjs, or_conj, tokens_choice, names_choice, text_atom, text_conj, text_atoms, text_choice,
  text_conjs, meaning_atom, meaning_conj, meaning_atoms, meaning_choice, meaning_conjs,
  AtomNamesLabels, ConjNamesLabels, AtomsNameLabels, ChoiceNamesLabels, ConjsNameLabels,
}
use skuld.Macros.Serial.Accepted.{NoOr, parse_serial_expr-tokens}

-- A word that is the name of a label but for its case.
lower_start : (c : ℕ) → is_ident_start (to_ascii_lowercase c) ≡ true → is_ident_start c ≡ true
unfolding is_ident_start to_ascii_lowercase
lower_start c h = ground arith

lower_continue :
    (c : ℕ) → is_ident_continue (to_ascii_lowercase c) ≡ true → is_ident_continue c ≡ true
unfolding is_ident_continue to_ascii_lowercase
lower_continue c h = ground arith

lower-Continues : (n : Text) → Continues (map to_ascii_lowercase n) → Continues n
lower-Continues [] h = tt
lower-Continues (c ∷ n) h = (lower_continue c h.0, lower-Continues n h.1)

abbrev Visible : Text → Type 0
Visible t = (u : Text) → skip (t ++ u) ≡ t ++ u

word_unit :
    (n : Text) (f : ℕ)
    → IsLabelName (map to_ascii_lowercase n)
    → Unit2 (suc f) n (terminal (map to_ascii_lowercase n))
unfolding build_expr
word_unit [] f h = absurd (not-IsLabelName-nil h)
word_unit (c ∷ n) f h =
    let (start, word) = new→IsWord (to_ascii_lowercase c) (map to_ascii_lowercase n) h in
    Unit2-token (suc f) (c ∷ n) (terminal (map to_ascii_lowercase (c ∷ n))) (pair label (c ∷ n) nil)
      refl
      (λ rest end.
        read_word f c n rest (lower_start c start) (lower-Continues (c ∷ n) word.continues)
          (record { not_true = word.not_true; not_false = word.not_false }) end)

word-Visible : (n : Text) → IsLabelName (map to_ascii_lowercase n) → Visible n
word-Visible [] h u = absurd (not-IsLabelName-nil h)
word-Visible (c ∷ n) h u =
    let start = (new→IsWord (to_ascii_lowercase c) (map to_ascii_lowercase n) h).0 in
    skip-visible c (n ++ u) (start_visible c (lower_start c start))

append-Visible : (s t : Text) → Visible s → Visible (s ++ t)
append-Visible s t h u = rw (append_assoc s t u) (h (t ++ u))

punct_visible : (is_whitespace b'!' ≡ false) × (is_whitespace b'(' ≡ false)
unfolding is_whitespace
punct_visible = (refl, refl)

text_atoms-Visible : (l : Atoms) (left : Text) → Visible left → Visible (text_atoms left l)
unfolding text_atoms
text_atoms-Visible no_atoms left h = h
text_atoms-Visible (and_atom a more) left h =
    text_atoms-Visible more (left ++ (codes " & " ++ text_atom a))
      (append-Visible left (codes " & " ++ text_atom a) h)

text_conjs-Visible : (l : Conjs) (left : Text) → Visible left → Visible (text_conjs left l)
unfolding text_conjs
text_conjs-Visible no_conjs left h = h
text_conjs-Visible (or_conj j more) left h =
    text_conjs-Visible more (left ++ (codes " | " ++ text_conj j))
      (append-Visible left (codes " | " ++ text_conj j) h)

-- What a chain begins with and what it goes on by are no longer than it.
text_atoms-grows : (l : Atoms) (left : Text) → length left ≤ length (text_atoms left l)
unfolding text_atoms
text_atoms-grows no_atoms left = omega arith
text_atoms-grows (and_atom a more) left = omega (
  arith,
  text_atoms-grows more (left ++ (codes " & " ++ text_atom a)),
  length-append left (codes " & " ++ text_atom a),
)

text_conjs-grows : (l : Conjs) (left : Text) → length left ≤ length (text_conjs left l)
unfolding text_conjs
text_conjs-grows no_conjs left = omega arith
text_conjs-grows (or_conj j more) left = omega (
  arith,
  text_conjs-grows more (left ++ (codes " | " ++ text_conj j)),
  length-append left (codes " | " ++ text_conj j),
)

module _ (is_name : Text → Bool) where
  atom-Visible : (a : Atom) → AtomNamesLabels is_name a → Visible (text_atom a)
  unfolding text_atom AtomNamesLabels
  atom-Visible (name n) h u = word-Visible n h.1 u
  atom-Visible (not_atom a) h u = skip-visible b'!' (text_atom a ++ u) punct_visible.0
  atom-Visible (parens c) h u =
      skip-visible b'(' ((text_choice c ++ codes ")") ++ u) punct_visible.1

  conj-Visible : (j : Conj) → ConjNamesLabels is_name j → Visible (text_conj j)
  unfolding text_conj ConjNamesLabels
  conj-Visible (conj a more) h = text_atoms-Visible more (text_atom a) (atom-Visible a h.0)

  choice-Visible : (c : Choice) → ChoiceNamesLabels is_name c → Visible (text_choice c)
  unfolding text_choice ChoiceNamesLabels
  choice-Visible (choice j more) h = text_conjs-Visible more (text_conj j) (conj-Visible j h.0)

  mutual
    unfolding text_atom text_conj text_atoms text_choice text_conjs meaning_atom meaning_conj
        meaning_atoms meaning_choice meaning_conjs AtomNamesLabels ConjNamesLabels AtomsNameLabels
        ChoiceNamesLabels ConjsNameLabels

    atom_unit :
        (a : Atom) (f : ℕ)
        → AtomNamesLabels is_name a
        → length (text_atom a) < f
        → Unit2 f (text_atom a) (meaning_atom a)
    atom_unit a zero h le = absurd (omega arith)
    atom_unit (name n) (suc f) h le = word_unit n f h.1
    atom_unit (not_atom a) (suc f) h le =
        Unit2-neg f (text_atom a) (meaning_atom a) (atom-Visible a h)
          (atom_unit a f h (omega arith))
    atom_unit (parens c) (suc f) h le =
        Unit2-group f (text_choice c) (meaning_choice c) (choice-Visible c h)
          (choice_leads c f h (omega (arith, length-append (text_choice c) (codes ")"))))

    atoms_leads :
        (l : Atoms) (f : ℕ) (left : Text) (x : LabelExpr)
        → AtomsNameLabels is_name l
        → length (text_atoms left l) < f
        → Leads1 f left x
        → Leads1 f (text_atoms left l) (meaning_atoms x l)
    atoms_leads no_atoms f left x h le leads = leads
    atoms_leads (and_atom a more) f left x h le leads =
        let longer = left ++ (codes " & " ++ text_atom a) in
        atoms_leads more f longer (and x (meaning_atom a)) h.1 le (
          Leads-op b'&' (parse_not_expr f) and Ends1 left (text_atom a) x (meaning_atom a)
            (and_separates []).0 (λ u. (and_separates u).1) (atom-Visible a h.0) leads
            (atom_unit a f h.0 (
              omega (
                arith,
                text_atoms-grows more longer,
                length-append left (codes " & " ++ text_atom a),
              ))))

    conj_leads :
        (j : Conj) (f : ℕ)
        → ConjNamesLabels is_name j
        → length (text_conj j) < f
        → Leads1 f (text_conj j) (meaning_conj j)
    conj_leads (conj a more) f h le = atoms_leads more f (text_atom a) (meaning_atom a) h.1 le (
        Leads-item b'&' (parse_not_expr f) and Ends1 (text_atom a) (meaning_atom a)
          (atom_unit a f h.0 (omega (arith, text_atoms-grows more (text_atom a)))))

    conjs_leads :
        (l : Conjs) (f : ℕ) (left : Text) (x : LabelExpr)
        → ConjsNameLabels is_name l
        → length (text_conjs left l) < f
        → Leads0 f left x
        → Leads0 f (text_conjs left l) (meaning_conjs x l)
    conjs_leads no_conjs f left x h le leads = leads
    conjs_leads (or_conj j more) f left x h le leads =
        let longer = left ++ (codes " | " ++ text_conj j) in
        conjs_leads more f longer (or x (meaning_conj j)) h.1 le (
          Leads-op b'|' (separated and_expr b'&' (parse_not_expr f)) or Ends0 left (text_conj j) x
            (meaning_conj j) (or_separates []).0 (λ u. (or_separates u).1) (conj-Visible j h.0)
            leads
            (and_expr-Reads f (text_conj j) (meaning_conj j) (
              conj_leads j f h.0 (
                omega (
                  arith,
                  text_conjs-grows more longer,
                  length-append left (codes " | " ++ text_conj j),
                )))))

    choice_leads :
        (c : Choice) (f : ℕ)
        → ChoiceNamesLabels is_name c
        → length (text_choice c) < f
        → Leads0 f (text_choice c) (meaning_choice c)
    choice_leads (choice j more) f h le = conjs_leads more f (text_conj j) (meaning_conj j) h.1 le (
        Leads-item b'|' (separated and_expr b'&' (parse_not_expr f)) or Ends0 (text_conj j)
          (meaning_conj j)
          (and_expr-Reads f (text_conj j) (meaning_conj j)
            (conj_leads j f h.0 (omega (arith, text_conjs-grows more (text_conj j))))))

-- The filter behind `serial = `, over identifiers whose names are labels once in lower case, is
-- accepted in front of tokens that do not go on with `&` or `|`. The macro keeps its identifiers in
-- order, and the harness reads the text that it writes as the filter meant.
pub parse_serial_expr-parse_raw_label_expr :
    (is_name : Text → Bool) (c : Choice) (rest : Tokens)
    → ChoiceNamesLabels is_name c
    → NoOr rest
    → (text : Text) × (parse_serial_expr is_name (tokens_choice c rest)
        ≡ parsed (text, names_choice c []) rest)
      × (parse_raw_label_expr text ≡ ok (meaning_choice c))
parse_serial_expr-parse_raw_label_expr is_name c rest h end = (
  text_choice c,
  parse_serial_expr-tokens is_name c rest h end,
  parse_raw_label_expr-Leads0 (text_choice c) (meaning_choice c) (choice-Visible is_name c h [])
      (choice_leads is_name c (suc (length (text_choice c))) h (omega arith)),
)
