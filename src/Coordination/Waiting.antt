-- ===== src/Coordination/Waiting.antt =====
-- src/coordination.rs: the loop of `coordinate`, round after round.
use skuld.Prelude.{
  ℕ, ◌*◌, ◌≤◌, ◌≡◌, refl, Bool, true, false, List, [], ◌∷◌, ◌++◌, Option, none, some, ltb,
  if◌then◌else◌, Result, ok, err, ◌>>=◌, All, arith, ◌&&◌, ◌==◌, Bool-cases, inl, inr, false≢true,
}
use skuld.Label.Build.{ParseError}
use skuld.Label.Filter.{BooleanExpression}
use skuld.Coordination.Database.{Db, register, clean_stale_entries}
use skuld.Coordination.Transaction.{Request, attempt}
use skuld.Coordination.Conflict.{is_blocked, IsStorable}
use skuld.Coordination.Steps.{attempt-is_blocked}

-- `(backoff * 2).min(max_backoff)`, in milliseconds.
unfoldable pub next_backoff : ℕ → ℕ
next_backoff backoff = if ltb 200 (backoff * 2) then 200 else backoff * 2

-- What the transaction of a round meets: the database as the other processes left it, a transient busy
-- error, or another error of SQLite, by its code.
pub data Meeting : Type 0 where
  meets : Db → Meeting
  busy : Meeting
  fails : ℕ → Meeting

-- A round: whether `panic_if_moved` panics at its start, and behind its COMMIT.
pub record Round : Type 0 where
  pub has_moved : Bool
  pub meeting : Meeting
  pub has_moved_since : Bool

-- A panic of the loop. The one behind a COMMIT drops the guard of the registration made.
pub data LoopPanic : Type 0 where
  moved : LoopPanic
  moved_since : ℕ → Db → LoopPanic
  met_locked : LoopPanic
  database_error : ℕ → LoopPanic
  bad_filter : ParseError → LoopPanic

-- The arms of the match on the transaction; a debug build asserts that the error is not SQLITE_LOCKED.
unfoldable pub after_commit : Bool → ℕ × Db → Result LoopPanic (Option (ℕ × Db))
after_commit has_moved_since (id, db) =
    if has_moved_since then err (moved_since id db) else ok (some (id, db))

unfoldable pub after_attempt :
    Bool → Result ParseError (Option ℕ × Db) → Result LoopPanic (Option (ℕ × Db))
unfolding after_commit
after_attempt has_moved_since (err e) = err (bad_filter e)
after_attempt has_moved_since (ok (none, db)) = ok none
after_attempt has_moved_since (ok (some id, db)) = after_commit has_moved_since (id, db)

unfoldable pub after_error : Bool → ℕ → Result LoopPanic (Option (ℕ × Db))
after_error is_debug code =
    if is_debug && code == 6 then err met_locked else err (database_error code)

-- A round that meets a database which has not moved at its start.
abbrev pub free_round : Db → Bool → Round
free_round db has_moved_since = record {
  has_moved = false;
  meeting = meets db;
  has_moved_since = has_moved_since;
}

module _ (B : BooleanExpression) (is_debug : Bool) where
  -- One round, up to its sleep: the id with the database, if it registers the test.
  unfoldable pub round_of_loop : (ℕ → Bool) → Request B → Round → Result LoopPanic (Option (ℕ × Db))
  unfolding after_attempt after_error
  round_of_loop kill_reports q r = if r.has_moved then err moved else elim r.meeting [
    | busy ↦ ok none
    | fails code ↦ after_error is_debug code
    | meets db ↦ after_attempt r.has_moved_since (attempt B kill_reports q db)
  ]

  -- The loop of `coordinate` over the rounds it makes: how long it slept behind each, and the id with
  -- the database, if a round registers the test.
  unfoldable pub coordinate_loop :
      (ℕ → Bool) → Request B → List Round → ℕ → Result LoopPanic (List ℕ × Option (ℕ × Db))
  unfolding round_of_loop
  coordinate_loop kill_reports q [] backoff = ok ([], none)
  coordinate_loop kill_reports q (r ∷ rounds) backoff =
      let wait = coordinate_loop kill_reports q rounds (next_backoff backoff) in
      round_of_loop kill_reports q r >>= (λ registered. elim registered [
        | some done ↦ ok ([], some done)
        | none ↦ wait >>= (λ rest. ok (backoff ∷ rest.0, rest.1))
      ])

  -- The sleeps behind as many rounds.
  abbrev pub sleeps : ℕ → List Round → List ℕ
  sleeps backoff [] = []
  sleeps backoff (r ∷ rounds) = backoff ∷ sleeps (next_backoff backoff) rounds

  -- A round in which the test does not start: the database has not moved, and it is busy, or a test
  -- that runs blocks this one.
  abbrev pub WaitsFor : (ℕ → Bool) → Request B → Meeting → Type 0
  WaitsFor kill_reports q busy = Unit
  WaitsFor kill_reports q (fails code) = false ≡ true
  WaitsFor kill_reports q (meets db) =
      is_blocked B q.labels q.serial_filter (clean_stale_entries kill_reports q.instance_id db)
      ≡ true

  abbrev pub Waits : (ℕ → Bool) → Request B → Round → Type 0
  Waits kill_reports q r = (r.has_moved ≡ false) × WaitsFor kill_reports q r.meeting

  round_of_loop-Waits :
      (kill_reports : ℕ → Bool) (q : Request B) (r : Round)
      → IsStorable B q.serial_filter
      → Waits kill_reports q r
      → round_of_loop kill_reports q r ≡ ok none
  unfolding round_of_loop after_attempt
  round_of_loop-Waits kill_reports q r storable (still, waits) = rw still (go r.meeting waits)
    where
      go :
          (m : Meeting)
          → WaitsFor kill_reports q m
          → elim m [
            | busy ↦ ok none
            | fails code ↦ after_error is_debug code
            | meets db ↦ after_attempt r.has_moved_since (attempt B kill_reports q db)
          ]
            ≡ ok none
      go busy waits = refl
      go (fails code) waits = absurd (false≢true waits)
      go (meets db) waits = rw (attempt-is_blocked B kill_reports q db storable, waits) refl

  -- The test starts in the first round in which nothing blocks it, after one sleep for each round
  -- before, if its filter is a sentinel or parses and the database has not moved at the start of these
  -- rounds. If it has moved behind the COMMIT, the loop panics with the registration made.
  pub coordinate_loop_starts :
      (kill_reports : ℕ → Bool) (q : Request B) (before after : List Round) (db : Db)
      (has_moved_since : Bool) (backoff : ℕ)
      → IsStorable B q.serial_filter
      → All (Waits kill_reports q) before
      → is_blocked B q.labels q.serial_filter (clean_stale_entries kill_reports q.instance_id db)
        ≡ false
      → (id : ℕ) × (db' : Db) × ((id, db')
          ≡ register q.instance_id q.name q.labels q.serial_filter
              (clean_stale_entries kill_reports q.instance_id db))
        × (coordinate_loop kill_reports q (before ++ free_round db has_moved_since ∷ after) backoff
            ≡ (if has_moved_since
                then err (moved_since id db')
                else ok (sleeps backoff before, some (id, db'))))
  unfolding coordinate_loop round_of_loop after_attempt after_commit
  coordinate_loop_starts kill_reports q [] after db since backoff storable waits free = (
    _,
    _,
    refl,
    rw (attempt-is_blocked B kill_reports q db storable, free)
        (elim (Bool-cases since) [ inl e ↦ rw e refl | inr e ↦ rw e refl ]),
  )
  coordinate_loop_starts kill_reports q (r ∷ before) after db since backoff storable waits free =
      let (id, db', made, rest) =
        coordinate_loop_starts kill_reports q before after db since (next_backoff backoff) storable
          waits.1 free in
      (
        id,
        db',
        made,
        rw (round_of_loop-Waits kill_reports q r storable waits.0, rest)
            (elim (Bool-cases since) [ inl e ↦ rw e refl | inr e ↦ rw e refl ]),
      )

  next_backoff_bounded : (backoff : ℕ) → next_backoff backoff ≤ 200
  unfolding next_backoff
  next_backoff_bounded backoff = ground arith

  -- No sleep is longer than 200 milliseconds, where the first is not.
  sleeps_bounded :
      (backoff : ℕ) (rounds : List Round)
      → backoff ≤ 200
      → All (λ ms. ms ≤ 200) (sleeps backoff rounds)
  sleeps_bounded backoff [] h = tt
  sleeps_bounded backoff (r ∷ rounds) h =
      (h, sleeps_bounded (next_backoff backoff) rounds (next_backoff_bounded backoff))
