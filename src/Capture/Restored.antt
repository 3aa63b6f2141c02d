-- ===== src/Capture/Restored.antt =====
-- src/capture.rs: a capture that ends leaves the descriptors as they were.
use skuld.Prelude.{ℕ, ◌≡◌, refl, false, none, some, ok, ◌>>=◌, arith}
use skuld.Capture.{
  Fds, set_fd, Unix, save, pipe, redirect_to_pipe, close_saved, begin, restore, end_capture,
}

abbrev pub SameFds : Fds → Fds → Type 0
SameFds fds fds' = (k : ℕ) → fds' k ≡ fds k

-- The tables on the way, from `fds`: with the copies of 1 and 2 at `a` and `b`, with the pipe at `r` and `w`,
-- redirected, and restored.
abbrev pub saved_table : ℕ → ℕ → Fds → Fds
saved_table a b fds = set_fd b (set_fd a (fds 1) fds 2) (set_fd a (fds 1) fds)

abbrev pub piped_table : ℕ → ℕ → ℕ → ℕ → Fds → Fds
piped_table r w q p fds = set_fd w (some p) (set_fd r (some q) fds)

abbrev pub redirected_table : ℕ → Fds → Fds
redirected_table w fds = set_fd w none (set_fd 2 (set_fd 1 (fds w) fds w) (set_fd 1 (fds w) fds))

abbrev restored_table : ℕ → ℕ → Fds → Fds
restored_table a b fds = set_fd 2 (set_fd 1 (fds a) fds b) (set_fd 1 (fds a) fds)

-- The four descriptors are free when they are given out, and 1 and 2 are in use.
pub record IsFresh (fds : Fds) (a b r w q p : ℕ) : Type 0 where
  pub out : ℕ
  pub error : ℕ
  pub has_out : fds 1 ≡ some out
  pub has_error : fds 2 ≡ some error
  pub a_free : fds a ≡ none
  pub b_free : set_fd a (fds 1) fds b ≡ none
  pub r_free : saved_table a b fds r ≡ none
  pub w_free : set_fd r (some q) (saved_table a b fds) w ≡ none

restored-SameFds :
    (fds : Fds) (a b r w q p k : ℕ)
    → IsFresh fds a b r w q p
    → set_fd r none
        (set_fd b none (
          set_fd a none
            (restored_table a b (redirected_table w (piped_table r w q p (saved_table a b fds))))))
        k
      ≡ fds k
restored-SameFds fds a b r w q p k h =
    let o = h.has_out in
    let e = h.has_error in
    let fa = h.a_free in
    let fb = h.b_free in
    let fr = h.r_free in let fw = h.w_free in ground (arith, o, e, fa, fb, fr, fw)

-- What the operating system documents of these calls: a descriptor that it gives out is not in use.
abbrev pub GivesFree : Unix → Fds → Type 0
GivesFree os fds =
    IsFresh fds os.stdout_copy os.stderr_copy os.reader os.writer os.read_end os.write_end

-- Every call on the way succeeds.
pub record Works (os : Unix) : Type 0 where
  pub dup_stdout : os.dup_stdout_fails ≡ false
  pub dup_stderr : os.dup_stderr_fails ≡ false
  pub pipe_made : os.pipe_fails ≡ false
  pub dup2_stdout : os.dup2_stdout_fails ≡ false
  pub dup2_stderr : os.dup2_stderr_fails ≡ false
  pub spawned : os.spawn_fails ≡ false
  pub restore_stdout : os.restore_stdout_fails ≡ false
  pub restore_stderr : os.restore_stderr_fails ≡ false

-- Where standard output and error are open, the descriptors given out are free and every call succeeds,
-- `begin` and then `end` return, and leave every descriptor as it was, with none of their own.
pub end_capture-begin :
    (os : Unix) (fds : Fds)
    → Works os
    → GivesFree os fds
    → (fds' : Fds) × ((begin os fds >>= (λ c. end_capture os c.0 c.1)) ≡ ok fds') × SameFds fds fds'
unfolding begin save pipe redirect_to_pipe restore end_capture close_saved
end_capture-begin os fds works free =
    rw
      (
        works.dup_stdout, works.dup_stderr, works.pipe_made, works.dup2_stdout, works.dup2_stderr,
        works.spawned, works.restore_stdout, works.restore_stderr, begin, save, pipe,
        redirect_to_pipe, restore, end_capture, close_saved,
      )
      (
        _,
        refl,
        λ k.
            restored-SameFds fds os.stdout_copy os.stderr_copy os.reader os.writer os.read_end
              os.write_end k free,
      )
