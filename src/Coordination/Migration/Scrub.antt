-- ===== src/Coordination/Migration/Scrub.antt =====
-- src/coordination.rs: a scrubbed row excludes the tests that it excluded before.
use skuld.Prelude.{
  ℕ, ◌≡◌, ◌≢◌, refl, sym, ap, ap₂, ◌∙◌, subst, Bool, true, false, ◌||◌, List, [], ◌∷◌, Option, none,
  some, if◌then◌else◌, Text, text_eq, Result, ok, err, >>=-eq-ok, All,
}
use skuld.Label.Build.{ParseError}
use skuld.Label.Filter.{BooleanExpression, LabelFilter, parse, matches_names}
use skuld.Label.Print.Levels.{HasLabelNames}
use skuld.Coordination.Database.{Running, Db, labels_of}
use skuld.Coordination.Storage.{serial_none, serial_all, stored}
use skuld.Coordination.Conflict.{serializes}
use skuld.Coordination.Stored.{stored-Keeps, parse-not, sentinels_do_not_parse}
use skuld.Coordination.Exclusion.{IsSound, Exclusive, Apart}
use skuld.Coordination.Migration.{
  MigrationPanic, unless, scrub_row, scrub_rows, scrub_serial_filters_v1,
}

module _ (B : BooleanExpression) where
  -- The names in the row's filter, if it parses, are names of labels.
  abbrev pub NamesLabels : Running → Type 0
  NamesLabels r = (f : LabelFilter) → parse B r.serial_filter ≡ ok f → HasLabelNames f.expr

  -- The row with another filter that excludes the same tests.
  abbrev pub SameRow : Running → Running → Type 0
  SameRow r r' =
      (r'.id ≡ r.id)
      × ((labels : List Text)
          → serializes B r'.serial_filter labels ≡ serializes B r.serial_filter labels)

  serializes-parsed :
      (s : Text) (f : LabelFilter) (labels : List Text)
      → parse B s ≡ ok f
      → serializes B s labels ≡ matches_names B f labels
  serializes-parsed s f labels p =
      rw
        (
          parse-not B s serial_none f p sentinels_do_not_parse.0,
          parse-not B s serial_all f p sentinels_do_not_parse.1,
          p,
        )
        refl

  kept-SameRow :
      (r r' : Running) → ◌≡◌ {A = Result MigrationPanic Running} (ok r) (ok r') → SameRow r r'
  kept-SameRow r r' h = let same : r ≡ r' = cc in subst (SameRow r) same (refl, λ labels. refl)

  stored-SameRow :
      (r : Running) (f : LabelFilter)
      → NamesLabels r
      → parse B r.serial_filter ≡ ok f
      → SameRow r (record r { serial_filter = stored f })
  stored-SameRow r f named p = (
    refl,
    λ labels.
        (stored-Keeps B f.expr (named f p)).1 labels
        ∙ sym (serializes-parsed r.serial_filter f labels p),
  )

  updated-SameRow :
      (r r' : Running) (f : LabelFilter) (canonical : Bool) (fault : Option MigrationPanic)
      → NamesLabels r
      → parse B r.serial_filter ≡ ok f
      → (if canonical then ok r else unless fault (ok (record r { serial_filter = stored f })) err)
        ≡ ok r'
      → SameRow r r'
  updated-SameRow r r' f true fault named p h = kept-SameRow r r' h
  updated-SameRow r r' f false (some panic) named p h = cc
  updated-SameRow r r' f false none named p h =
      let same : record r { serial_filter = stored f } ≡ r' = cc in
      subst (SameRow r) same (stored-SameRow r f named p)

  parsed-SameRow :
      (r r' : Running) (update : ℕ → Option MigrationPanic) (sentinel : Bool)
      (parsed : Result ParseError LabelFilter)
      → NamesLabels r
      → parse B r.serial_filter ≡ parsed
      → (if sentinel then ok r else elim parsed [
        | err e ↦ ok r
        | ok f ↦
            if text_eq (stored f) r.serial_filter
            then ok r
            else unless (update r.id) (ok (record r { serial_filter = stored f })) err
      ])
        ≡ ok r'
      → SameRow r r'
  parsed-SameRow r r' update true parsed named p h = kept-SameRow r r' h
  parsed-SameRow r r' update false (err e) named p h = kept-SameRow r r' h
  parsed-SameRow r r' update false (ok f) named p h =
      updated-SameRow r r' f (text_eq (stored f) r.serial_filter) (update r.id) named p h

  scrub_row-SameRow :
      (update : ℕ → Option MigrationPanic) (r r' : Running)
      → NamesLabels r
      → scrub_row B update r ≡ ok r'
      → SameRow r r'
  unfolding scrub_row
  scrub_row-SameRow update r r' named h =
      parsed-SameRow r r' update
        (text_eq r.serial_filter serial_none || text_eq r.serial_filter serial_all)
        (parse B r.serial_filter) named refl h

  abbrev pub SameRows : List Running → List Running → Type 0
  SameRows [] [] = Unit
  SameRows [] (r' ∷ rs') = ⊥
  SameRows (r ∷ rs) [] = ⊥
  SameRows (r ∷ rs) (r' ∷ rs') = SameRow r r' × SameRows rs rs'

  pub scrub_rows-SameRows :
      (update : ℕ → Option MigrationPanic) (rs rs' : List Running)
      → All NamesLabels rs
      → scrub_rows B update rs ≡ ok rs'
      → SameRows rs rs'
  unfolding scrub_rows
  scrub_rows-SameRows update [] [] named h = tt
  scrub_rows-SameRows update [] (r' ∷ rs') named h = cc
  scrub_rows-SameRows update (r ∷ rs) rs' named h =
      let (first, e, h1) = >>=-eq-ok (scrub_row B update r) _ h in
      let (rest, e', h2) = >>=-eq-ok (scrub_rows B update rs) _ h1 in
      let same : first ∷ rest ≡ rs' = cc in
      subst (SameRows (r ∷ rs)) same
        (scrub_row-SameRow update r first named.0 e, scrub_rows-SameRows update rs rest named.1 e')

  All-SameRows :
      (P Q : Running → Type 0) (rs rs' : List Running)
      → ((r r' : Running) → SameRow r r' → P r → Q r')
      → SameRows rs rs'
      → All P rs
      → All Q rs'
  All-SameRows P Q [] [] f same h = tt
  All-SameRows P Q [] (r' ∷ rs') f same h = absurd same
  All-SameRows P Q (r ∷ rs) [] f same h = absurd same
  All-SameRows P Q (r ∷ rs) (r' ∷ rs') f same h =
      (f r r' same.0 h.0, All-SameRows P Q rs rs' f same.1 h.1)

  SameRow-Apart :
      (ls : List (ℕ × Text)) (r r' q q' : Running)
      → SameRow r r'
      → SameRow q q'
      → (r.id ≢ q.id) × Apart B ls r q
      → (r'.id ≢ q'.id) × Apart B ls r' q'
  SameRow-Apart ls r r' q q' same same' (ne, apart) = (
    λ e. ne (sym same.0 ∙ e ∙ same'.0),
    ap₂ ◌||◌ (same.1 _ ∙ ap (λ i. serializes B r.serial_filter (labels_of i ls)) same'.0)
          (same'.1 _ ∙ ap (λ i. serializes B q.serial_filter (labels_of i ls)) same.0)
        ∙ apart,
  )

  pub Exclusive-SameRows :
      (ls : List (ℕ × Text)) (rs rs' : List Running)
      → SameRows rs rs'
      → Exclusive B ls rs
      → Exclusive B ls rs'
  Exclusive-SameRows ls [] [] same h = tt
  Exclusive-SameRows ls [] (r' ∷ rs') same h = absurd same
  Exclusive-SameRows ls (r ∷ rs) [] same h = absurd same
  Exclusive-SameRows ls (r ∷ rs) (r' ∷ rs') same h = (
    All-SameRows _ _ rs rs' (λ q q' same'. SameRow-Apart ls r r' q q' same.0 same') same.1 h.0,
    Exclusive-SameRows ls rs rs' same.1 h.1,
  )

  -- A scrub that no statement stops keeps the database sound.
  pub scrub_serial_filters_v1-IsSound :
      (update : ℕ → Option MigrationPanic) (db db' : Db)
      → All NamesLabels db.running
      → scrub_serial_filters_v1 B update db ≡ ok db'
      → IsSound B db
      → IsSound B db'
  unfolding scrub_serial_filters_v1
  scrub_serial_filters_v1-IsSound update db db' named h sound =
      let (rows, e, made) = >>=-eq-ok (scrub_rows B update db.running) _ h in
      let same : record db { running = rows } ≡ db' = cc in
      let rows_same = scrub_rows-SameRows update db.running rows named e in
      subst (IsSound B) same (record {
        ids = All-SameRows _ _ db.running rows (λ r r' s below. rw s.0 below) rows_same sound.ids;
        label_ids = sound.label_ids;
        exclusive = Exclusive-SameRows db.labels db.running rows rows_same sound.exclusive;
      })
