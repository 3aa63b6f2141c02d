-- ===== src/Coordination/Stale.antt =====
-- src/coordination.rs: which rows `clean_stale_entries` deletes.
use skuld.Prelude.{
  ℕ, ◌≡◌, refl, sym, ap, ◌∙◌, Bool, true, false, not, ◌&&◌, ◌||◌, List, [], ◌∷◌, Text, text_eq,
  contains, Bool-cases, inl, inr, arith, if◌then◌else◌, text_eq→eq, text_eq_refl, text_eq_sym, All,
}
use mathlib.Core.Path.{fun_ext}
use skuld.Coordination.Database.{
  Running, Db, clean_stale_entries, delete_where, delete_instances, stale_instances, is_stale,
  keep_rows,
}
use skuld.Coordination.Rows.{All-map}
use skuld.Coordination.Conflict.{any_row}

keep_rows-keep_rows :
    (p q : Running → Bool) (rs : List Running)
    → keep_rows q (keep_rows p rs) ≡ keep_rows (λ r. p r || q r) rs
unfolding keep_rows
keep_rows-keep_rows p q [] = refl
keep_rows-keep_rows p q (r ∷ rs) = ground (arith, keep_rows-keep_rows p q rs)

keep_rows_cong :
    (p q : Running → Bool) (rs : List Running)
    → All (λ r. p r ≡ q r) rs
    → keep_rows p rs ≡ keep_rows q rs
unfolding keep_rows
keep_rows_cong p q [] h = refl
keep_rows_cong p q (r ∷ rs) h = rw (h.0, keep_rows_cong p q rs h.1) refl

keep_rows-all : (rs : List Running) → keep_rows (λ r. false) rs ≡ rs
unfolding keep_rows
keep_rows-all [] = refl
keep_rows-all (r ∷ rs) = ap (λ t. r ∷ t) (keep_rows-all rs)

delete_instances-keep_rows :
    (iids : List Text) (db : Db)
    → (delete_instances iids db).running ≡ keep_rows (λ r. contains iids r.instance_id) db.running
unfolding delete_instances delete_where
delete_instances-keep_rows [] db = sym (keep_rows-all db.running)
delete_instances-keep_rows (iid ∷ iids) db =
    delete_instances-keep_rows iids (delete_where (λ r. text_eq r.instance_id iid) db)
    ∙ keep_rows-keep_rows _ _ db.running
    ∙ ap (λ p. keep_rows p db.running)
        (fun_ext (λ r. ap (λ b. b || contains iids r.instance_id) (text_eq_sym r.instance_id iid)))

contains-push :
    (b : Bool) (x y : Text) (xs : List Text)
    → contains (if b then x ∷ xs else xs) y ≡ (b && text_eq x y || contains xs y)
contains-push b x y xs = ground arith

-- A step of the SELECT and the filter.
push_stale :
    (stale : Text → Bool) (ours x iid : Text) (xs : List Text) (occurs : Bool)
    → contains xs iid ≡ (not (text_eq iid ours) && stale iid && occurs)
    → contains (if not (text_eq x ours) && stale x && not (contains xs x) then x ∷ xs else xs) iid
      ≡ (not (text_eq iid ours) && stale iid && (text_eq x iid || occurs))
push_stale stale ours x iid xs occurs h =
    contains-push (not (text_eq x ours) && stale x && not (contains xs x)) x iid xs
    ∙ elim (Bool-cases (text_eq x iid)) [
      | inl e ↦ let eq = text_eq→eq x iid e in rw (eq, text_eq_refl iid) (ground (arith, h))
      | inr e ↦ ground (arith, h, e)
    ]

contains-stale_instances :
    (kill_reports : ℕ → Bool) (ours iid : Text) (rs : List Running)
    → contains (stale_instances kill_reports ours rs) iid ≡ (
        not (text_eq iid ours)
        && is_stale kill_reports iid
        && any_row (λ r. text_eq r.instance_id iid) rs)
unfolding stale_instances
contains-stale_instances k ours iid [] = ground arith
contains-stale_instances k ours iid (r ∷ rs) =
    push_stale (is_stale k) ours r.instance_id iid (stale_instances k ours rs) _
      (contains-stale_instances k ours iid rs)

-- Every row occurs among the rows.
occurs_self :
    (rs : List Running) → All (λ q. any_row (λ r. text_eq r.instance_id q.instance_id) rs ≡ true) rs
occurs_self [] = tt
occurs_self (r ∷ rs) =
    (rw (text_eq_refl r.instance_id) refl, All-map rs (λ q h. ground (arith, h)) (occurs_self rs))

-- `clean_stale_entries` deletes the rows of other instances whose process is gone or whose id holds no
-- process id, and leaves every other row.
pub clean_stale_entries-running :
    (kill_reports : ℕ → Bool) (ours : Text) (db : Db)
    → (clean_stale_entries kill_reports ours db).running
      ≡ keep_rows
          (λ r. not (text_eq r.instance_id ours) && is_stale kill_reports r.instance_id)
          db.running
unfolding clean_stale_entries
clean_stale_entries-running k ours db =
    delete_instances-keep_rows (stale_instances k ours db.running) db
    ∙ keep_rows_cong _ _ db.running (
        All-map db.running
          (λ r h. contains-stale_instances k ours r.instance_id db.running ∙ rw h (ground arith))
          (occurs_self db.running))
