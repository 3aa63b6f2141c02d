-- ===== src/Runner/Names.antt =====
-- src/runner.rs: the names of trials and the check for duplicates, which src/label.rs makes of the
-- declared labels too.
use skuld.Prelude.{
  ℕ, Bool, true, false, List, [], ◌∷◌, ◌++◌, map, Option, none, some, Text, codes, text_eq, sort,
  dedup, strip_prefix, length, ltb, if◌then◌else◌, Result, ok, err,
}

-- What follows the first `::` (`split_once("::")`, its second part).
unfoldable pub behind_path_sep : Text → Option Text
behind_path_sep [] = none
behind_path_sep (c ∷ s) =
    let rest = behind_path_sep s in
    elim (strip_prefix (codes "::") (c ∷ s)) [ some t ↦ some t | none ↦ rest ]

-- `effective_trial_name`.
unfoldable pub effective_trial_name : Text → Text → Option Text → Bool → Text
effective_trial_name module_path name (some d) libtest_names = d
effective_trial_name module_path name none false = name
effective_trial_name module_path name none true = elim (behind_path_sep module_path) [
  | some rest ↦ rest ++ codes "::" ++ name
  | none ↦ name
]

module _ {A : Type 0} where
  -- The entries of one name, in order: a value of the HashMap.
  unfoldable pub bucket : Text → List (Text × A) → List A
  bucket name [] = []
  bucket name ((n, origin) ∷ entries) =
      let rest = bucket name entries in if text_eq n name then origin ∷ rest else rest

  -- The loop over the sorted keys: each name that has more than one entry, with the entries.
  unfoldable pub duplicates : List (Text × A) → List Text → List (Text × List A)
  duplicates entries [] = []
  duplicates entries (name ∷ names) =
      let rest = duplicates entries names in
      if ltb 1 (length (bucket name entries)) then (name, bucket name entries) ∷ rest else rest

  -- The keys of the HashMap, sorted.
  abbrev pub sorted_names : List (Text × A) → List Text
  sorted_names entries = dedup (sort (map (λ p. p.0) entries))

  abbrev pub ok_if_none : List (Text × List A) → Result {0, 0} (List (Text × List A)) Unit
  ok_if_none [] = ok tt
  ok_if_none (e ∷ es) = err (e ∷ es)

-- `check_duplicate_trial_names`. `err` holds what the message is made of.
unfoldable pub check_duplicate_trial_names :
    List (Text × Text) → Result {0, 0} (List (Text × List Text)) Unit
unfolding duplicates
check_duplicate_trial_names entries = ok_if_none (duplicates entries (sorted_names entries))

-- `LabelEntry`, less its name.
pub record Location : Type 0 where
  pub file : Text
  pub line : ℕ
  pub column : ℕ

-- `check_label_registry`, on the labels that are registered.
unfoldable pub check_label_registry :
    List (Text × Location) → Result {0, 0} (List (Text × List Location)) Unit
unfolding duplicates
check_label_registry entries = ok_if_none (duplicates entries (sorted_names entries))
