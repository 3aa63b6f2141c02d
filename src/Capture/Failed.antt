-- ===== src/Capture/Failed.antt =====
-- src/capture.rs: what a capture that cannot begin leaves of the descriptors.
use skuld.Prelude.{
  ℕ, ◌≡◌, refl, true, false, Option, none, some, Bool-cases, inl, inr, Result, ok, err, arith,
}
use skuld.Capture.{
  Fds, set_fd, Unix, CaptureError, io_error, aborted, save, pipe, redirect_to_pipe, close_saved,
  FdCapture, begin,
}
use skuld.Capture.Restored.{SameFds, saved_table, piped_table, redirected_table, IsFresh, GivesFree}

-- An error that is returned leaves the descriptors as they were, and nothing aborts.
abbrev pub Untouched : Fds → Result CaptureError (FdCapture × Fds) → Type 0
Untouched fds (ok begun) = Unit
Untouched fds (err (io_error fds')) = SameFds fds fds'
Untouched fds (err aborted) = ⊥

closed :
    (n : ℕ) (file : Option ℕ) (fds : Fds) (k : ℕ)
    → fds n ≡ none
    → set_fd n none (set_fd n file fds) k ≡ fds k
closed n file fds k free = ground (arith, free)

first-SameFds :
    (fds : Fds) (a b r w q p k : ℕ)
    → IsFresh fds a b r w q p
    → set_fd r none
        (set_fd b none (set_fd a none (set_fd w none (piped_table r w q p (saved_table a b fds)))))
        k
      ≡ fds k
first-SameFds fds a b r w q p k h =
    let o = h.has_out in
    let e = h.has_error in
    let fa = h.a_free in
    let fb = h.b_free in
    let fr = h.r_free in let fw = h.w_free in ground (arith, o, e, fa, fb, fr, fw)

second-SameFds :
    (fds : Fds) (a b r w q p k : ℕ)
    → IsFresh fds a b r w q p
    → set_fd r none
        (set_fd b none (
          set_fd a none (
            set_fd w none (
              set_fd 1
                (set_fd 1
                  (piped_table r w q p (saved_table a b fds) w)
                  (piped_table r w q p (saved_table a b fds))
                  a)
                (set_fd 1
                  (piped_table r w q p (saved_table a b fds) w)
                  (piped_table r w q p (saved_table a b fds)))))))
        k
      ≡ fds k
second-SameFds fds a b r w q p k h =
    let o = h.has_out in
    let e = h.has_error in
    let fa = h.a_free in
    let fb = h.b_free in
    let fr = h.r_free in let fw = h.w_free in ground (arith, o, e, fa, fb, fr, fw)

-- Where standard output and error are open, and the descriptors given out are free: if the pipe and the
-- thread can be made and the rollback does not fail, a capture that cannot begin leaves every descriptor
-- as it was, at whichever of the copies and redirections it fails.
pub begin-Untouched :
    (os : Unix) (fds : Fds)
    → GivesFree os fds
    → os.pipe_fails ≡ false
    → os.spawn_fails ≡ false
    → os.rollback_fails ≡ false
    → Untouched fds (begin os fds)
unfolding begin save pipe redirect_to_pipe close_saved
begin-Untouched os fds free piped spawned rolled = elim (Bool-cases os.dup_stdout_fails) [
  | inl e ↦ rw (e, begin, save) (λ k. refl)
  | inr e1 ↦ elim (Bool-cases os.dup_stderr_fails) [
    | inl e ↦ rw (e1, e, begin, save) (λ k. closed os.stdout_copy (fds 1) fds k free.a_free)
    | inr e2 ↦ elim (Bool-cases os.dup2_stdout_fails) [
      | inl e ↦
          rw (e1, e2, piped, e, begin, save, pipe, redirect_to_pipe, close_saved)
            (λ k.
              first-SameFds fds os.stdout_copy os.stderr_copy os.reader os.writer os.read_end
                os.write_end k free)
      | inr e3 ↦ elim (Bool-cases os.dup2_stderr_fails) [
        | inl e ↦
            rw (e1, e2, piped, e3, e, rolled, begin, save, pipe, redirect_to_pipe, close_saved)
              (λ k.
                second-SameFds fds os.stdout_copy os.stderr_copy os.reader os.writer os.read_end
                  os.write_end k free)
        | inr e4 ↦
            rw (e1, e2, piped, e3, e4, spawned, begin, save, pipe, redirect_to_pipe, close_saved) tt
      ]
    ]
  ]
]

abandoned_table :
    (fds : Fds) (a b r w q p : ℕ)
    → IsFresh fds a b r w q p
    → (set_fd r none (redirected_table w (piped_table r w q p (saved_table a b fds))) 1 ≡ some p)
      × (set_fd r none (redirected_table w (piped_table r w q p (saved_table a b fds))) 2 ≡ some p)
      × (set_fd r none (redirected_table w (piped_table r w q p (saved_table a b fds))) r ≡ none)
abandoned_table fds a b r w q p h =
    let o = h.has_out in
    let e = h.has_error in
    let fa = h.a_free in
    let fb = h.b_free in
    let fr = h.r_free in let fw = h.w_free in ground (arith, o, e, fa, fb, fr, fw)

-- Where standard output and error are open, and the descriptors given out are free: if only the thread
-- cannot be spawned, `begin` returns an error, but standard output and error stay at the
-- write end of the pipe.
pub begin_abandons :
    (os : Unix) (fds : Fds)
    → GivesFree os fds
    → os.dup_stdout_fails ≡ false
    → os.dup_stderr_fails ≡ false
    → os.pipe_fails ≡ false
    → os.dup2_stdout_fails ≡ false
    → os.dup2_stderr_fails ≡ false
    → os.spawn_fails ≡ true
    → (fds' : Fds) × (begin os fds ≡ err (io_error fds'))
      × (fds' 1 ≡ some os.write_end)
      × (fds' 2 ≡ some os.write_end)
unfolding begin save pipe redirect_to_pipe close_saved
begin_abandons os fds free e1 e2 e3 e4 e5 e6 =
    let (one, two, reader) =
      abandoned_table fds os.stdout_copy os.stderr_copy os.reader os.writer os.read_end os.write_end
        free in
    rw (e1, e2, e3, e4, e5, e6, begin, save, pipe, redirect_to_pipe, close_saved)
      (_, refl, one, two)
