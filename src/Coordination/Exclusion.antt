-- ===== src/Coordination/Exclusion.antt =====
-- src/coordination.rs: no two running tests conflict, whatever processes do, as long as every
-- change of the database is one of the transactions of `coordinate` or of its guard.
use skuld.Prelude.{
  ℕ, ◌<◌, ◌≡◌, sym, ap₂, ◌∙◌, subst, Bool, false, List, [], ◌∷◌, ◌++◌, Text, Bool-cases, inl, inr,
  arith, All, All-append, ◌≢◌,
}
use skuld.Label.Name.{Label}
use skuld.Label.Filter.{BooleanExpression}
use skuld.Coordination.Database.{
  Running, Db, labels_of, register, delete_where, keep_rows, is_deleted, insert_labels,
}
use skuld.Coordination.Conflict.{names, any_row, conflict, is_blocked}
use skuld.Coordination.Rows.{
  IdsBelow, LabelsBelow, Spares, labels_of-keep_labels, All-map, All-keep_rows, All-keep_labels,
  is_deleted-fresh, All-zip, is_deleted-other, is_deleted-kept, keep_rows-doomed, keep_rows-kept,
  labels_of-old, labels_of-new, insert_labels-below, any_row-none, any_row-tail, IdsBelow-suc,
  LabelsBelow-suc,
}

module _ (B : BooleanExpression) where
  -- Neither of two rows may not run beside the other.
  abbrev pub Apart : List (ℕ × Text) → Running → Running → Type 0
  Apart ls r q =
      conflict B r.serial_filter (labels_of r.id ls) q.serial_filter (labels_of q.id ls) ≡ false

  -- The rows have distinct ids, and no two of them conflict.
  abbrev pub Exclusive : List (ℕ × Text) → List Running → Type 0
  Exclusive ls [] = Unit
  Exclusive ls (r ∷ rs) = All (λ q. (r.id ≢ q.id) × Apart ls r q) rs × Exclusive ls rs

  -- What holds of the database between transactions.
  pub record IsSound (db : Db) : Type 0 where
    pub ids : IdsBelow db.next_id db.running
    pub label_ids : LabelsBelow db.next_id db.labels
    pub exclusive : Exclusive db.labels db.running

  is_deleted-Spares :
      (doomed : Running → Bool) (ls : List (ℕ × Text)) (rs : List Running)
      → Exclusive ls rs
      → Spares doomed (is_deleted doomed rs) rs
  is_deleted-Spares doomed ls [] h = tt
  is_deleted-Spares doomed ls (r ∷ rs) h =
      let distinct : All (λ q. r.id ≢ q.id) rs = All-map rs (λ q p. p.0) h.0 in
      (
        λ kept. is_deleted-kept doomed r rs kept (is_deleted-fresh doomed r.id rs distinct),
        All-zip rs (λ q ne spared kept. is_deleted-other doomed q.id r rs ne (spared kept)) distinct
            (is_deleted-Spares doomed ls rs h.1),
      )

  -- Two rows that keep their labels stay apart.
  Apart-labels :
      (ls ls' : List (ℕ × Text)) (r q : Running)
      → labels_of r.id ls' ≡ labels_of r.id ls
      → labels_of q.id ls' ≡ labels_of q.id ls
      → Apart ls r q
      → Apart ls' r q
  Apart-labels ls ls' r q e e' h =
      ap₂ (λ a b. conflict B r.serial_filter a q.serial_filter b) e e' ∙ h

  -- Rows that keep their labels stay apart.
  Exclusive-keep_rows :
      (doomed : Running → Bool) (ls ls' : List (ℕ × Text)) (rs : List Running)
      → All (λ r. doomed r ≡ false → labels_of r.id ls' ≡ labels_of r.id ls) rs
      → Exclusive ls rs
      → Exclusive ls' (keep_rows doomed rs)
  unfolding keep_rows
  Exclusive-keep_rows doomed ls ls' [] same h = tt
  Exclusive-keep_rows doomed ls ls' (r ∷ rs) same h = elim (Bool-cases (doomed r)) [
    | inl e ↦
        subst (Exclusive ls') (sym (keep_rows-doomed doomed r rs e))
          (Exclusive-keep_rows doomed ls ls' rs same.1 h.1)
    | inr e ↦ subst (Exclusive ls') (sym (keep_rows-kept doomed r rs e)) (
      All-keep_rows (λ q. (r.id ≢ q.id) × Apart ls' r q) doomed rs
          (All-zip rs
            (λ q p same_q kept. (p.0, Apart-labels ls ls' r q (same.0 e) (same_q kept) p.1)) h.0
            same.1),
      Exclusive-keep_rows doomed ls ls' rs same.1 h.1,
    )
  ]

  -- A deletion keeps the database sound.
  pub delete_where-IsSound :
      (doomed : Running → Bool) (db : Db) → IsSound db → IsSound (delete_where doomed db)
  unfolding delete_where
  delete_where-IsSound doomed db h = record {
    ids =
        All-keep_rows (λ r. r.id < db.next_id) doomed db.running
          (All-map db.running (λ r p e. p) h.ids);
    label_ids =
        All-keep_labels (λ p. p.0 < db.next_id) (is_deleted doomed db.running) db.labels
          h.label_ids;
    exclusive =
        Exclusive-keep_rows doomed db.labels _ db.running
          (All-map db.running
            (λ r spared kept.
              labels_of-keep_labels (is_deleted doomed db.running) r.id db.labels (spared kept))
            (is_deleted-Spares doomed db.labels db.running h.exclusive))
          h.exclusive;
  }

  -- A row that conflicts with none of the others may stand behind them.
  Exclusive-append :
      (ls : List (ℕ × Text)) (rs : List Running) (q : Running)
      → Exclusive ls rs
      → All (λ r. (r.id ≢ q.id) × Apart ls r q) rs
      → Exclusive ls (rs ++ q ∷ [])
  Exclusive-append ls [] q h k = (tt, tt)
  Exclusive-append ls (r ∷ rs) q h k =
      (All-append _ rs (q ∷ []) h.0 (k.0, tt), Exclusive-append ls rs q h.1 k.1)

  -- A larger table of labels, where the rows' own labels are the same.
  Exclusive-labels :
      (ls ls' : List (ℕ × Text)) (rs : List Running)
      → All (λ r. labels_of r.id ls' ≡ labels_of r.id ls) rs
      → Exclusive ls rs
      → Exclusive ls' rs
  Exclusive-labels ls ls' [] same h = tt
  Exclusive-labels ls ls' (r ∷ rs) same h = (
    All-zip rs (λ q p same_q. (p.0, Apart-labels ls ls' r q same.0 same_q p.1)) h.0 same.1,
    Exclusive-labels ls ls' rs same.1 h.1,
  )

  -- A row that nothing blocks, as `register` writes it, is apart from every row before it.
  Apart-register :
      (ls : List (ℕ × Text)) (labels : List Label) (q : Running) (rs : List Running)
      → IdsBelow q.id rs
      → LabelsBelow q.id ls
      → any_row
          (λ r. conflict B r.serial_filter (labels_of r.id ls) q.serial_filter (names labels))
          rs
        ≡ false
      → All (λ r. (r.id ≢ q.id) × Apart (ls ++ insert_labels q.id labels) r q) rs
  Apart-register ls labels q [] below fresh free = tt
  Apart-register ls labels q (r ∷ rs) below fresh free =
      let free_of = λ (r : Running).
        conflict B r.serial_filter (labels_of r.id ls) q.serial_filter (names labels) in
      let apart = any_row-none free_of (r ∷ rs) free in
      let sides = λ (a b : List Text). conflict B r.serial_filter a q.serial_filter b in
      (
        (
          (ground (arith, below.0)),
          ap₂ sides (labels_of-old r.id q.id ls labels below.0) (labels_of-new q.id ls labels fresh)
              ∙ apart.0,
        ),
        Apart-register ls labels q rs below.1 fresh (any_row-tail free_of r rs free),
      )

  -- The registration of a test that nothing blocks keeps the database sound.
  pub register-IsSound :
      (iid name : Text) (labels : List Label) (s : Text) (db : Db)
      → IsSound db
      → is_blocked B labels s db ≡ false
      → IsSound (register iid name labels s db).1
  unfolding register
  register-IsSound iid name labels s db h free =
      let ls' = db.labels ++ insert_labels db.next_id labels in
      let old =
        All-map {Q = λ r. labels_of r.id ls' ≡ labels_of r.id db.labels} db.running
          (λ r below. labels_of-old r.id db.next_id db.labels labels below) h.ids in
      record {
        ids =
            All-append _ db.running _ (IdsBelow-suc db.next_id db.running h.ids) (omega arith, tt);
        label_ids =
            All-append _ db.labels _ (LabelsBelow-suc db.next_id db.labels h.label_ids)
              (insert_labels-below db.next_id labels);
        exclusive =
            Exclusive-append ls' db.running _
              (Exclusive-labels db.labels ls' db.running old h.exclusive)
              (Apart-register db.labels labels
                record { id = db.next_id; instance_id = iid; name = name; serial_filter = s }
                db.running h.ids h.label_ids free);
      }
