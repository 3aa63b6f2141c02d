-- ===== src/Coordination/Moved/Recorded.antt =====
-- src/coordination/moved_db.rs: a recorded identity is that of the files the connection has open.
use skuld.Prelude.{
  ℕ, ◌≡◌, refl, sym, ap, ◌∙◌, Bool, true, false, not, ◌||◌, ◌++◌, Option, none, some, ◌==◌, ==_iff,
  Text, ap₂, ◌>>=◌, if◌then◌else◌, Result, ok, err, >>=-eq-ok, ◌↔◌, arith,
}
use skuld.Coordination.Moved.{
  file_control_failed, moved_mid_run, companion_missing, sqlite_path_replaced, path_retargeted,
  companion_replaced, FileIdentity, Moment, Connection, Tracked, DbIdentity, MovedPanic,
  fd_not_open, names_it, own_fd_identity, companion_base, record_main_identity, record_main,
  companion_path, wal_suffix, shm_suffix, track, companions_at, with_companions,
  has_moved_via_fcntl, tracked_has_moved, companions_have_moved, has_moved, panic_if_moved,
}

names_it_iff :
    (o : Option FileIdentity) (id : FileIdentity) → (names_it o id ≡ true) ↔ (o ≡ some id)
names_it_iff none id = (λ h. cc, λ h. cc)
names_it_iff (some found) id = (
  λ h.
      let same : (found.dev ≡ id.dev) × (found.ino ≡ id.ino) = ground (arith, h) in
      ap some (ap₂ (λ d i. record { dev = d; ino = i }) same.0 same.1),
  λ h. let same : found ≡ id = cc in rw same (ground arith),
)

own_fd_identity-ok :
    (now : Moment) (fd : ℕ) (id : FileIdentity)
    → own_fd_identity now fd ≡ ok id
    → now.fstat fd ≡ some id
unfolding own_fd_identity
own_fd_identity-ok now fd id h = found (now.fstat fd) h
  where
    found :
        (o : Option FileIdentity)
        → (elim o [ some i ↦ ok i | none ↦ err (fd_not_open fd) ]) ≡ ok id
        → o ≡ some id
    found none e = cc
    found (some i) e = cc

-- Both assertions have passed.
both_passed :
    (b c : Bool) (p q : MovedPanic) (own id : FileIdentity)
    → (if not b then err p else if not c then err q else ok own) ≡ ok id
    → own ≡ id
both_passed true true p q own id h = cc
both_passed true false p q own id h = cc
both_passed false c p q own id h = cc

record_main_identity-ok :
    (now : Moment) (conn : Connection) (path : Text) (id : FileIdentity)
    → record_main_identity now conn path ≡ ok id
    → now.fstat conn.main_fd ≡ some id
unfolding record_main_identity
record_main_identity-ok now conn path id h =
    let (sp, h2, rest) = >>=-eq-ok (companion_base conn) _ h in
    let (own, h3, checked) = >>=-eq-ok (own_fd_identity now conn.main_fd) _ rest in
    own_fd_identity-ok now conn.main_fd own h3
    ∙ ap some (
        both_passed (names_it (now.stat sp) own) (names_it (now.stat path) own) sqlite_path_replaced
          path_retargeted own id checked)

record_main-ok :
    (now : Moment) (conn : Connection) (path : Text) (id : DbIdentity)
    → record_main now conn path ≡ ok id
    → now.fstat conn.main_fd ≡ some id.main
unfolding record_main
record_main-ok now conn path id h =
    let (main, h1, made) = >>=-eq-ok (record_main_identity now conn path) _ h in
    let same : record { main = main; companions = none } ≡ id = cc in
    record_main_identity-ok now conn path main h1 ∙ ap (λ d. some (d.main)) same

chosen :
    (b : Bool) (made t : Tracked) (reason : MovedPanic)
    → (if b then ok made else err reason) ≡ ok t
    → made ≡ t
chosen true made t reason h = cc
chosen false made t reason h = cc

track-ok :
    (now : Moment) (base suffix : Text) (own : FileIdentity) (t : Tracked)
    → track now base suffix own ≡ ok t
    → record { path = base ++ suffix; identity = own } ≡ t
unfolding track companion_path
track-ok now base suffix own t h = found (now.stat (base ++ suffix)) h
  where
    found :
        (o : Option FileIdentity)
        → (elim o [
          | none ↦ err (companion_missing suffix)
          | some on_disk ↦
              if names_it (some on_disk) own
              then ok (record { path = base ++ suffix; identity = own })
              else err (companion_replaced suffix)
        ])
          ≡ ok t
        → record { path = base ++ suffix; identity = own } ≡ t
    found none e = cc
    found (some i) e =
        chosen (names_it (some i) own) (record { path = base ++ suffix; identity = own }) t
          (companion_replaced suffix) e

-- Both calls have returned.
both {ℓ} :
    {A B C : Type ℓ} (r : Result MovedPanic A) (s : Result MovedPanic B)
    (next : A → B → Result MovedPanic C) (c : C)
    → (r >>= (λ a. s >>= (λ b. next a b))) ≡ ok c
    → (a : A) × (b : B) × (r ≡ ok a) × (s ≡ ok b) × (next a b ≡ ok c)
both (err e) s next c h = cc
both (ok a) (err e) next c h = cc
both (ok a) (ok b) next c h = (a, b, refl, refl, h)

abbrev tracked : Text → Text → FileIdentity → Tracked
tracked base suffix own = record { path = base ++ suffix; identity = own }

abbrev recorded : FileIdentity → Text → FileIdentity → FileIdentity → DbIdentity
recorded main base w s = record {
  main = main;
  companions = some (record { wal = tracked base wal_suffix w; shm = tracked base shm_suffix s });
}

tracks-ok :
    (now : Moment) (base : Text) (w s main : FileIdentity) (id' : DbIdentity)
    → (track now base wal_suffix w >>= (λ wal. track now base shm_suffix s >>= (λ shm.
        ok (record { main = main; companions = some (record { wal = wal; shm = shm }) }))))
      ≡ ok id'
    → recorded main base w s ≡ id'
tracks-ok now base w s main id' h =
    let (wal, shm, e1, e2, e3) = both (track now base wal_suffix w) _ _ id' h in
    let same1 = track-ok now base wal_suffix w wal e1 in
    let same2 = track-ok now base shm_suffix s shm e2 in rw (same1, same2) cc

with_companions-ok :
    (now : Moment) (conn : Connection) (base : Text) (id id' : DbIdentity)
    → conn.conn_path ≡ some base
    → with_companions now conn id ≡ ok id'
    → (w : FileIdentity) × (s : FileIdentity) × (now.fstat conn.wal_fd ≡ some w)
      × (now.fstat conn.shm_fd ≡ some s)
      × (recorded id.main base w s ≡ id')
unfolding with_companions companion_base companions_at
with_companions-ok now conn base id id' at h =
    let here : with_companions now conn id ≡ companions_at now conn id base =
      rw (at, companion_base) refl in
    let (w, s, e1, e2, e3) =
      both (own_fd_identity now conn.wal_fd) (own_fd_identity now conn.shm_fd) _ id'
        (sym here ∙ h) in
    (
      w,
      s,
      own_fd_identity-ok now conn.wal_fd w e1,
      own_fd_identity-ok now conn.shm_fd s e2,
      tracks-ok now base w s id.main id' e3,
    )

all_clear :
    (z1 z2 a b c : Bool) (reason : MovedPanic)
    → ((if z1 then ok (not z2) else err reason)
        >>= (λ v. ok (v || (not a || (not b || not c))))
        >>= (λ moved. if moved then err moved_mid_run else ok (tt {0})))
      ≡ ok tt
    → (z1 ≡ true) × (z2 ≡ true) × (a ≡ true) × (b ≡ true) × (c ≡ true)
all_clear false z2 a b c reason h = cc
all_clear true false a b c reason h = cc
all_clear true true false b c reason h = cc
all_clear true true true false c reason h = cc
all_clear true true true true false reason h = cc
all_clear true true true true true reason h = (refl, refl, refl, refl, refl)

-- The check passes just where SQLite says that its file has not moved, and the three paths name the files
-- of the recorded identity.
passes_iff :
    (now : Moment) (path base : Text) (main w s : FileIdentity)
    → (panic_if_moved now path (recorded main base w s) ≡ ok tt) ↔ (
        (now.fcntl_rc ≡ 0)
        × (now.fcntl_has_moved ≡ 0)
        × (now.stat path ≡ some main)
        × (now.stat (base ++ wal_suffix) ≡ some w)
        × (now.stat (base ++ shm_suffix) ≡ some s))
unfolding panic_if_moved has_moved has_moved_via_fcntl companions_have_moved tracked_has_moved
passes_iff now path base main w s =
    let (a1, a2) = names_it_iff (now.stat path) main in
    let (b1, b2) = names_it_iff (now.stat (base ++ wal_suffix)) w in
    let (c1, c2) = names_it_iff (now.stat (base ++ shm_suffix)) s in
    (
      λ h.
          let (z1, z2, a, b, c) =
            all_clear (now.fcntl_rc == 0) (now.fcntl_has_moved == 0) (names_it (now.stat path) main)
              (names_it (now.stat (base ++ wal_suffix)) w)
              (names_it (now.stat (base ++ shm_suffix)) s) (file_control_failed now.fcntl_rc) h in
          ((==_iff now.fcntl_rc 0).0 z1, (==_iff now.fcntl_has_moved 0).0 z2, a1 a, b1 b, c1 c),
      λ h. let (z1, z2, a, b, c) = h in rw (z1, z2, a2 a, b2 b, c2 c) refl,
    )

-- The identity that `record_main` and `with_companions` record of a connection, at whatever moments, is
-- that of the files that the connection has open: a later check panics unless SQLite's own answer is that
-- its file has not moved, and the database's path and the paths of its two companions name those files.
pub panic_if_moved-recorded :
    (at_open at_init later : Moment) (conn : Connection) (path base : Text) (opened id : DbIdentity)
    → conn.conn_path ≡ some base
    → record_main at_open conn path ≡ ok opened
    → with_companions at_init conn opened ≡ ok id
    → (panic_if_moved later path id ≡ ok tt) ↔ (
        (later.fcntl_rc ≡ 0)
        × (later.fcntl_has_moved ≡ 0)
        × (later.stat path ≡ at_open.fstat conn.main_fd)
        × (later.stat (base ++ wal_suffix) ≡ at_init.fstat conn.wal_fd)
        × (later.stat (base ++ shm_suffix) ≡ at_init.fstat conn.shm_fd))
panic_if_moved-recorded at_open at_init later conn path base opened id at h1 h2 =
    let main = record_main-ok at_open conn path opened h1 in
    let (w, s, is_w, is_s, same) = with_companions-ok at_init conn base opened id at h2 in
    rw (main, is_w, is_s, sym same) (passes_iff later path base opened.main w s)
