-- ===== src/Coordination/Cleanup.antt =====
-- src/coordination.rs, `TestRegistration::drop`, with src/coordination/violations.rs and the end of the
-- run in src/runner.rs: what becomes of a cleanup that fails.
use skuld.Prelude.{
  ℕ, suc, ◌+◌, ◌%◌, ◌^◌, ◌<◌, ◌≡◌, ◌∙◌, Bool, true, false, List, [], ◌∷◌, ◌++◌, Option, none, some,
  length, length-append, Text, codes, Result, ok, err, arith,
}
use skuld.Coordination.Retry.{
  SqlError, Called, RetryPanic, own, not_autocommit, met_locked, retry_busy,
}

-- What a panic carries: `&'static str`, `String`, or anything else.
pub data Payload : Type 0 where
  static_str : Text → Payload
  string : Text → Payload
  opaque_payload : Payload

unfoldable pub panic_payload_message : Payload → Text
panic_payload_message (static_str s) = s
panic_payload_message (string s) = s
panic_payload_message opaque_payload = codes "<non-string panic payload>"

unfoldable pub downgraded_warning_message : Payload → Text
unfolding panic_payload_message
downgraded_warning_message payload =
    codes "[skuld] warning: coordination DB cleanup panicked while already unwinding from another "
    ++ codes "panic (not re-raised, to avoid aborting the process): "
    ++ panic_payload_message payload

-- The process's list of violations.
unfoldable pub record_violation : Text → List Text → List Text
record_violation message violations = violations ++ message ∷ []

unfoldable pub take_violations : List Text → List Text × List Text
take_violations violations = (violations, [])

-- What the panic of `retry_busy` carries: its closure's panic, or the message of a debug assertion.
abbrev pub payload_of : Payload → RetryPanic Payload → Payload
payload_of assertion (own payload) = payload
payload_of assertion not_autocommit = assertion
payload_of assertion met_locked = assertion

-- The closure `cleanup`: the DELETE with its checks, retried, then the check behind it. `failure_message`
-- gives the panic of `or_panic`. `none` if the calls are used up.
unfoldable pub cleanup :
    (is_debug is_autocommit : Bool)
    → Payload
    → (SqlError → Payload)
    → List (Called Payload (Unit {0}) is_debug)
    → Option Payload
    → Option (Result {0, 0} Payload Unit)
cleanup is_debug is_autocommit assertion failure_message calls moved_after =
    elim (retry_busy Payload (Unit {0}) is_debug is_autocommit calls) [
      | none ↦ none
      | some (sleeps, err panic) ↦ some (err (payload_of assertion panic))
      | some (sleeps, ok (err e)) ↦ some (err (failure_message e))
      | some (sleeps, ok (ok done)) ↦ elim moved_after [
        | some payload ↦ some (err payload)
        | none ↦ some (ok tt)
      ]
    ]

-- The drop of a registration: what it raises, and the violations then.
unfoldable pub drop_registration :
    Bool → Result {0, 0} Payload Unit → List Text → Option Payload × List Text
unfolding record_violation downgraded_warning_message
drop_registration panicking (ok done) violations = (none, violations)
drop_registration true (err payload) violations =
    (none, record_violation (downgraded_warning_message payload) violations)
drop_registration false (err payload) violations = (some payload, violations)

-- The drops of a process: whether the thread is unwinding, and what the cleanup does. What they raise, and
-- the violations then.
abbrev pub drops : List (Bool × Result {0, 0} Payload Unit) → List Text → List Payload × List Text
drops [] violations = ([], violations)
drops ((panicking, cleaned) ∷ rest) violations =
    let dropped = drop_registration panicking cleaned violations in
    let others = drops rest dropped.1 in
    elim dropped.0 [ none ↦ others | some payload ↦ (payload ∷ others.0, others.1) ]

-- The count of failed tests in `libtest_mimic::Conclusion`, a `u64`.
pub record Conclusion : Type 0 where
  pub num_failed : ℕ

unfoldable pub fail_on_violations : Conclusion → List Text → Conclusion
fail_on_violations conclusion violations = elim violations [
  | [] ↦ conclusion
  | v ∷ vs ↦ record { num_failed = (conclusion.num_failed + length (v ∷ vs)) % 2 ^ 64 }
]

abbrev pub failures : List (Bool × Result {0, 0} Payload Unit) → ℕ
failures [] = 0
failures ((panicking, ok done) ∷ rest) = failures rest
failures ((panicking, err payload) ∷ rest) = suc (failures rest)

drops-failures :
    (ds : List (Bool × Result {0, 0} Payload Unit)) (violations : List Text)
    → length ((drops ds violations).0) + length ((drops ds violations).1)
      ≡ length violations + failures ds
unfolding drop_registration record_violation
drops-failures [] violations = omega arith
drops-failures ((panicking, ok done) ∷ ds) violations = drops-failures ds violations
drops-failures ((true, err payload) ∷ ds) violations = omega (
  arith,
  drops-failures ds (violations ++ downgraded_warning_message payload ∷ []),
  length-append violations (downgraded_warning_message payload ∷ []),
)
drops-failures ((false, err payload) ∷ ds) violations = omega (arith, drops-failures ds violations)

counted :
    (conclusion : Conclusion) (raised failed : ℕ) (vs : List Text)
    → raised + length vs ≡ failed
    → conclusion.num_failed + failed < 2 ^ 64
    → (fail_on_violations conclusion vs).num_failed + raised ≡ conclusion.num_failed + failed
unfolding fail_on_violations
counted conclusion raised failed [] e fits = omega arith
counted conclusion raised failed (v ∷ vs) e fits =
    let small : (conclusion.num_failed + length (v ∷ vs)) % 2 ^ 64
        ≡ conclusion.num_failed + length (v ∷ vs) =
      omega arith in
    omega arith

-- No failed cleanup is lost. Of the drops of a process that starts with no violations, each one whose
-- cleanup fails either raises its panic or adds one to the failed tests of the run, which counts those
-- downgraded; where the count fits a `u64`.
pub fail_on_violations-drops :
    (conclusion : Conclusion) (ds : List (Bool × Result {0, 0} Payload Unit))
    → conclusion.num_failed + failures ds < 2 ^ 64
    → (fail_on_violations conclusion ((take_violations ((drops ds []).1)).0)).num_failed
        + length ((drops ds []).0)
      ≡ conclusion.num_failed + failures ds
unfolding take_violations
fail_on_violations-drops conclusion ds fits =
    counted conclusion (length ((drops ds []).0)) (failures ds) ((drops ds []).1)
      (drops-failures ds [] ∙ omega arith) fits
