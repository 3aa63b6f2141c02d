-- ===== src/Coordination/Retry.antt =====
-- src/coordination.rs: `retry_busy`, which waits out the locks of other connections.
use skuld.Prelude.{
  ℕ, suc, ◌≤◌, ◌≡◌, ◌≢◌, ◌⊎◌, inl, inr, refl, ap, Bool, true, false, not, ◌&&◌, Bool-cases, List,
  [], ◌∷◌, ◌++◌, Option, none, some, length, ◌==◌, if◌then◌else◌, Result, ok, err, All, arith,
}
use skuld.Coordination.Waiting.{next_backoff}

-- SQLite's primary result code, and the message.
pub record SqlError : Type 0 where
  pub code : ℕ

-- SQLITE_BUSY.
unfoldable pub is_retryable : SqlError → Bool
is_retryable e = e.code == 5

next_backoff_at_most : (backoff : ℕ) → next_backoff backoff ≤ 200
unfolding next_backoff
next_backoff_at_most backoff = ground arith

-- SQLITE_LOCKED.
abbrev pub is_locked : SqlError → Bool
is_locked e = e.code == 6

-- A panic of `retry_busy`: the closure's own, or of one of its debug assertions.
pub data RetryPanic (P : Type 0) : Type 0 where
  own : P → RetryPanic P
  not_autocommit : RetryPanic P
  met_locked : RetryPanic P

-- A debug build asserts.
module _ (P A : Type 0) (is_debug : Bool) where
  -- What one call of the closure does: it panics, or it returns; and whether it leaves the connection in
  -- autocommit mode.
  pub record Called : Type 0 where
    pub result : Result P (Result SqlError A)
    pub is_autocommit : Bool

  abbrev pub Outcome : Type 0
  Outcome = Result (RetryPanic P) (Result SqlError A)

  abbrev pub is_busy : Called → Bool
  is_busy c = elim c.result [
    | err panic ↦ false
    | ok r ↦ elim r [ ok value ↦ false | err e ↦ is_retryable e ]
  ]

  -- The arm `other`.
  unfoldable pub finish : Result P (Result SqlError A) → Outcome
  finish (err panic) = err (own panic)
  finish (ok (ok value)) = ok (ok value)
  finish (ok (err e)) = if is_debug && is_locked e then err met_locked else ok (err e)

  -- The loop over what the calls do, one after the other: the sleeps, and how it ends; `none` if all of
  -- the calls meet a lock.
  unfoldable pub retry_from : ℕ → List Called → Option (List ℕ × Outcome)
  unfolding finish
  retry_from backoff [] = none
  retry_from backoff (c ∷ calls) =
      let rest = retry_from (next_backoff backoff) calls in
      if is_busy c
      then (if is_debug && not c.is_autocommit
          then some ([], err not_autocommit)
          else elim rest [ none ↦ none | some (sleeps, last) ↦ some (backoff ∷ sleeps, last) ])
      else some ([], finish c.result)

  -- `is_autocommit` is of the connection on entry.
  unfoldable pub retry_busy : Bool → List Called → Option (List ℕ × Outcome)
  unfolding retry_from
  retry_busy is_autocommit calls =
      if is_debug && not is_autocommit then some ([], err not_autocommit) else retry_from 10 calls

  -- The sleeps of as many retries.
  abbrev pub backoffs : ℕ → List Called → List ℕ
  backoffs backoff [] = []
  backoffs backoff (c ∷ calls) = backoff ∷ backoffs (next_backoff backoff) calls

  -- A call that meets a lock, outside a transaction.
  abbrev pub MeetsLock : Called → Type 0
  MeetsLock c = (is_busy c ≡ true) × (c.is_autocommit ≡ true)

  retry_from-calls :
      (backoff : ℕ) (before after : List Called) (last : Called)
      → All MeetsLock before
      → is_busy last ≡ false
      → retry_from backoff (before ++ last ∷ after)
        ≡ some (backoffs backoff before, finish last.result)
  unfolding retry_from
  retry_from-calls backoff [] after last h e = rw e refl
  retry_from-calls backoff (c ∷ before) after last h e =
      let rest = retry_from-calls (next_backoff backoff) before after last h.1 e in
      elim (Bool-cases is_debug) [
        | inl on ↦ rw (h.0.0, rest, h.0.1, on) refl
        | inr off ↦ rw (h.0.0, rest, off) refl
      ]

  backoffs_bounded :
      (backoff : ℕ) (calls : List Called)
      → backoff ≤ 200
      → All (λ ms. ms ≤ 200) (backoffs backoff calls)
  backoffs_bounded backoff [] h = tt
  backoffs_bounded backoff (c ∷ calls) h =
      (h, backoffs_bounded (next_backoff backoff) calls (next_backoff_at_most backoff))

  length-backoffs :
      (backoff : ℕ) (calls : List Called) → length (backoffs backoff calls) ≡ length calls
  length-backoffs backoff [] = refl
  length-backoffs backoff (c ∷ calls) = ap suc (length-backoffs (next_backoff backoff) calls)

  -- What a call that meets no lock of another connection makes of the loop.
  abbrev pub EndsAs : Result P (Result SqlError A) → Outcome → Type 0
  EndsAs (err panic) end = end ≡ err (own panic)
  EndsAs (ok (ok value)) end = end ≡ ok (ok value)
  EndsAs (ok (err e)) end =
      (is_debug ≡ true → e.code ≡ 6 → end ≡ err met_locked)
      × ((is_debug ≡ false) ⊎ (e.code ≢ 6) → end ≡ ok (err e))

  finish-EndsAs : (r : Result P (Result SqlError A)) → EndsAs r (finish r)
  unfolding finish
  finish-EndsAs (err panic) = refl
  finish-EndsAs (ok (ok value)) = refl
  finish-EndsAs (ok (err e)) = (
    λ on six. ground (arith, on, six),
    λ h. elim h [ inl off ↦ rw off refl | inr other ↦ ground (arith, other) ],
  )

  -- Outside transactions, `retry_busy` ends with the first call that does not meet a lock of another
  -- connection: as that call ends, whether it succeeds, fails or panics, but that a debug build panics
  -- at SQLITE_LOCKED. It sleeps once for each call before, and never for more than 200 milliseconds.
  pub retry_busy-calls :
      (before after : List Called) (last : Called)
      → All MeetsLock before
      → is_busy last ≡ false
      → (sleeps : List ℕ) × (end : Outcome) × (retry_busy true (before ++ last ∷ after)
          ≡ some (sleeps, end))
        × EndsAs last.result end
        × (length sleeps ≡ length before)
        × All (λ ms. ms ≤ 200) sleeps
  unfolding retry_busy
  retry_busy-calls before after last h e = (
    backoffs 10 before,
    finish last.result,
    ground (arith, retry_from-calls 10 before after last h e),
    finish-EndsAs last.result,
    length-backoffs 10 before,
    backoffs_bounded 10 before (omega arith),
  )
