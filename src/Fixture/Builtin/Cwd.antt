-- ===== src/Fixture/Builtin/Cwd.antt =====
-- src/fixtures/cwd.rs: the guard that reverts the working directory.
use skuld.Prelude.{
  ◌≡◌, refl, ap, ◌∙◌, Bool, true, false, List, [], ◌∷◌, Option, none, some, Text, if◌then◌else◌,
  Bool-cases, inl, inr, Result, ok, err, ◌⊎◌, arith,
}

-- `CwdGuard`, with the working directory of the process. The stack's first entry is its last here; its
-- mutex is poisoned by a panic while it is locked.
pub record CwdGuard : Type 0 where
  pub stack : List Text
  pub is_poisoned : Bool
  pub cwd : Text

pub data CwdReason : Type 0 where
  unreadable_directory poisoned_lock no_previous_directory cannot_change : CwdReason

-- The panic of a call, which leaves the guard as it then is.
pub record CwdPanic : Type 0 where
  pub reason : CwdReason
  pub guard : CwdGuard

unfoldable pub new_cwd : Text → CwdGuard
new_cwd original = record { stack = original ∷ []; is_poisoned = false; cwd = original }

-- `set_current_dir`, which the operating system may refuse; the lock is released before it.
abbrev pub change_dir : (Text → Bool) → Text → CwdGuard → Result CwdPanic CwdGuard
change_dir accepts path g =
    if accepts path
    then ok (record g { cwd = path })
    else err (record { reason = cannot_change; guard = g })

-- `is_readable` is whether `current_dir` succeeds.
unfoldable pub set_cwd : (Text → Bool) → Bool → Text → CwdGuard → Result CwdPanic CwdGuard
set_cwd accepts is_readable path g =
    if is_readable
    then (if g.is_poisoned
        then err (record { reason = poisoned_lock; guard = g })
        else change_dir accepts path (record g { stack = g.cwd ∷ g.stack }))
    else err (record { reason = unreadable_directory; guard = g })

-- The `expect` on the popped entry panics with the mutex locked.
unfoldable pub back_cwd : (Text → Bool) → CwdGuard → Result CwdPanic CwdGuard
back_cwd accepts g =
    if g.is_poisoned then err (record { reason = poisoned_lock; guard = g }) else elim g.stack [
      | [] ↦
          err (record { reason = no_previous_directory; guard = record g { is_poisoned = true } })
      | prev ∷ stack ↦ change_dir accepts prev (record g { stack = stack })
    ]

abbrev pub first : List Text → Option Text
first [] = none
first (d ∷ []) = some d
first (d ∷ e ∷ ds) = first (e ∷ ds)

-- `CwdGuard::drop`: the working directory it leaves, or its panic on a poisoned mutex. A failed change
-- is ignored.
unfoldable pub drop_cwd : (Text → Bool) → CwdGuard → Result CwdPanic Text
drop_cwd accepts g =
    if g.is_poisoned
    then err (record { reason = poisoned_lock; guard = g })
    else elim (first g.stack) [
      | none ↦ ok g.cwd
      | some original ↦ ok (if accepts original then original else g.cwd)
    ]

-- What a test does with the guard; a `set` with whether the working directory can then be read.
pub data CwdCall : Type 0 where
  sets : Bool → Text → CwdCall
  backs : CwdCall

-- A panic ends the test, and the guard is dropped as it then is.
unfoldable pub unless_panic : Result CwdPanic CwdGuard → (CwdGuard → CwdGuard) → CwdGuard
unless_panic (ok g) next = next g
unless_panic (err p) next = p.guard

unfoldable pub run_cwd : (Text → Bool) → List CwdCall → CwdGuard → CwdGuard
run_cwd accepts [] g = g
run_cwd accepts (sets is_readable path ∷ calls) g =
    unless_panic (set_cwd accepts is_readable path g) (run_cwd accepts calls)
run_cwd accepts (backs ∷ calls) g = unless_panic (back_cwd accepts g) (run_cwd accepts calls)

-- The stack ends in the original directory, or it is empty there.
abbrev pub Holds : Text → CwdGuard → Type 0
Holds original g =
    ((first g.stack ≡ some original) × (g.is_poisoned ≡ false))
    ⊎ ((g.stack ≡ []) × (g.cwd ≡ original))

first-cons :
    (original path : Text) (stack : List Text) (p : Bool) (cwd : Text)
    → Holds original (record { stack = stack; is_poisoned = p; cwd = cwd })
    → first (cwd ∷ stack) ≡ some original
first-cons original path [] p cwd (inl e) = absurd (ground (arith, e.0))
first-cons original path [] p cwd (inr (e, here)) = ap some here
first-cons original path (d ∷ ds) p cwd (inl e) = e.0
first-cons original path (d ∷ ds) p cwd (inr (e, here)) = absurd cc

-- The guard that a call leaves, whether or not it panics.
unfoldable pub left : Result CwdPanic CwdGuard → CwdGuard
left (ok g) = g
left (err p) = p.guard

change_dir-Holds :
    (accepts : Text → Bool) (original path : Text) (g : CwdGuard)
    → g.is_poisoned ≡ false
    → (first g.stack ≡ some original) ⊎ ((g.stack ≡ []) × (path ≡ original) × (accepts path ≡ true))
    → Holds original (left (change_dir accepts path g))
unfolding left
change_dir-Holds accepts original path g clean h = elim (Bool-cases (accepts path)) [
  | inl e ↦
      rw e (elim h [ inl at ↦ inl (at, clean) | inr (none_left, here, _) ↦ inr (none_left, here) ])
  | inr e ↦ rw e (elim h [ inl at ↦ inl (at, clean) | inr (none_left, here, taken) ↦ absurd cc ])
]

set_cwd-Holds :
    (accepts : Text → Bool) (original : Text) (is_readable : Bool) (path : Text) (stack : List Text)
    (p : Bool) (cwd : Text)
    → Holds original (record { stack = stack; is_poisoned = p; cwd = cwd })
    → Holds original (
        left
          (set_cwd accepts is_readable path (record { stack = stack; is_poisoned = p; cwd = cwd })))
unfolding set_cwd left
set_cwd-Holds accepts original false path stack p cwd holds = holds
set_cwd-Holds accepts original true path stack true cwd holds = holds
set_cwd-Holds accepts original true path stack false cwd holds =
    change_dir-Holds accepts original path
      (record { stack = cwd ∷ stack; is_poisoned = false; cwd = cwd }) refl
      (inl (first-cons original path stack false cwd holds))

back_cwd-Holds :
    (accepts : Text → Bool) (original : Text) (stack : List Text) (p : Bool) (cwd : Text)
    → accepts original ≡ true
    → Holds original (record { stack = stack; is_poisoned = p; cwd = cwd })
    → Holds original
        (left (back_cwd accepts (record { stack = stack; is_poisoned = p; cwd = cwd })))
unfolding back_cwd left
back_cwd-Holds accepts original stack true cwd taken holds = holds
back_cwd-Holds accepts original [] false cwd taken (inl e) = absurd (ground (arith, e.0))
back_cwd-Holds accepts original [] false cwd taken (inr (e, here)) = inr (refl, here)
back_cwd-Holds accepts original (d ∷ []) false cwd taken (inl (e, clean)) =
    let here : d ≡ original = cc in
    change_dir-Holds accepts original d (record { stack = []; is_poisoned = false; cwd = cwd }) refl
      (inr (refl, here, ap accepts here ∙ taken))
back_cwd-Holds accepts original (d ∷ e ∷ ds) false cwd taken (inl (at, clean)) =
    change_dir-Holds accepts original d (record { stack = e ∷ ds; is_poisoned = false; cwd = cwd })
      refl (inl at)
back_cwd-Holds accepts original (d ∷ ds) false cwd taken (inr (e, here)) = absurd cc

unless_panic-Holds :
    (original : Text) (r : Result CwdPanic CwdGuard) (next : CwdGuard → CwdGuard)
    → Holds original (left r)
    → ((g : CwdGuard) → Holds original g → Holds original (next g))
    → Holds original (unless_panic r next)
unfolding left unless_panic
unless_panic-Holds original (ok g) next h keeps = keeps g h
unless_panic-Holds original (err p) next h keeps = h

run_cwd-Holds :
    (accepts : Text → Bool) (original : Text) (calls : List CwdCall) (g : CwdGuard)
    → accepts original ≡ true
    → Holds original g
    → Holds original (run_cwd accepts calls g)
unfolding run_cwd
run_cwd-Holds accepts original [] g taken holds = holds
run_cwd-Holds accepts original (sets is_readable path ∷ calls) g taken holds =
    unless_panic-Holds original (set_cwd accepts is_readable path g) (run_cwd accepts calls)
      (set_cwd-Holds accepts original is_readable path g.stack g.is_poisoned g.cwd holds)
      (λ g' h. run_cwd-Holds accepts original calls g' taken h)
run_cwd-Holds accepts original (backs ∷ calls) g taken holds =
    unless_panic-Holds original (back_cwd accepts g) (run_cwd accepts calls)
      (back_cwd-Holds accepts original g.stack g.is_poisoned g.cwd taken holds)
      (λ g' h. run_cwd-Holds accepts original calls g' taken h)

-- What the drop does where the working directory ends: it returns there, or it panics there.
abbrev pub LeavesAt : Text → CwdGuard → Result CwdPanic Text → Type 0
LeavesAt original g dropped =
    ((g.is_poisoned ≡ false) × (dropped ≡ ok original))
    ⊎ ((g.is_poisoned ≡ true)
        × (dropped ≡ err (record { reason = poisoned_lock; guard = g }))
        × (g.cwd ≡ original))

drop_cwd-Holds :
    (accepts : Text → Bool) (original : Text) (g : CwdGuard)
    → accepts original ≡ true
    → Holds original g
    → LeavesAt original g (drop_cwd accepts g)
unfolding drop_cwd
drop_cwd-Holds accepts original g taken (inl (e, clean)) =
    inl (clean, rw (clean, e, drop_cwd) (rw taken refl))
drop_cwd-Holds accepts original g taken (inr (e, here)) = elim (Bool-cases g.is_poisoned) [
  | inl hurt ↦ inr (hurt, rw hurt refl, here)
  | inr clean ↦ inl (clean, rw (clean, e, drop_cwd) (ap ok here))
]

-- Where the operating system accepts the original directory, the process is left there, whatever a
-- test sets and goes back from, up to a call that panics: the drop of the guard returns in that
-- directory, or, if a `back` without a previous directory poisoned the mutex, it panics there.
pub drop_cwd-run_cwd :
    (accepts : Text → Bool) (original : Text) (calls : List CwdCall)
    → accepts original ≡ true
    → LeavesAt original
        (run_cwd accepts calls (new_cwd original))
        (drop_cwd accepts (run_cwd accepts calls (new_cwd original)))
unfolding new_cwd
drop_cwd-run_cwd accepts original calls taken =
    drop_cwd-Holds accepts original (run_cwd accepts calls (new_cwd original)) taken
      (run_cwd-Holds accepts original calls (new_cwd original) taken (inl (refl, refl)))
