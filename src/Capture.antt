-- ===== src/Capture.antt =====
-- src/capture.rs, on Unix: the redirection of the process's standard output and error to a pipe.
pub mod Restored
pub mod Failed
use skuld.Prelude.{
  ℕ, ◌≡◌, ◌≢◌, Bool, true, false, Option, none, some, ◌==◌, if◌then◌else◌, Result, ok, err, ◌>>=◌,
}

-- The table of file descriptors: the open file behind each.
abbrev pub Fds : Type 0
Fds = ℕ → Option ℕ

abbrev pub set_fd : ℕ → Option ℕ → Fds → Fds
set_fd fd file fds k = if fd == k then file else fds k

-- The operating system: the descriptors that it gives out, and the calls that fail.
pub record Unix : Type 0 where
  pub stdout_copy : ℕ
  pub stderr_copy : ℕ
  pub reader : ℕ
  pub writer : ℕ
  pub dup_stdout_fails : Bool
  pub dup_stderr_fails : Bool
  pub pipe_fails : Bool
  pub dup2_stdout_fails : Bool
  pub dup2_stderr_fails : Bool
  pub rollback_fails : Bool
  pub spawn_fails : Bool
  pub restore_stdout_fails : Bool
  pub restore_stderr_fails : Bool
  -- The files at the two ends of the pipe.
  pub read_end : ℕ
  pub write_end : ℕ

pub record Saved : Type 0 where
  pub stdout : ℕ
  pub stderr : ℕ

-- An error that is returned, with the descriptors then, or `abort`.
pub data CaptureError : Type 0 where
  io_error : Fds → CaptureError
  aborted : CaptureError

unfoldable pub save : Unix → Fds → Result CaptureError (Saved × Fds)
save os fds =
    if os.dup_stdout_fails
    then err (io_error fds)
    else let with_stdout = set_fd os.stdout_copy (fds 1) fds in
      if os.dup_stderr_fails
      then err (io_error (set_fd os.stdout_copy none with_stdout))
      else let saved : Saved = record { stdout = os.stdout_copy; stderr = os.stderr_copy } in
        ok (saved, set_fd os.stderr_copy (with_stdout 2) with_stdout)

-- `os_pipe::pipe`: the descriptors of the reader and of the writer.
unfoldable pub pipe : Unix → Fds → Result CaptureError (ℕ × ℕ × Fds)
pipe os fds =
    if os.pipe_fails
    then err (io_error fds)
    else let with_reader = set_fd os.reader (some os.read_end) fds in
      ok (os.reader, os.writer, set_fd os.writer (some os.write_end) with_reader)

-- The writer is dropped on every path.
unfoldable pub redirect_to_pipe : Unix → ℕ → Saved → Fds → Result CaptureError Fds
redirect_to_pipe os writer saved fds =
    if os.dup2_stdout_fails
    then err (io_error (set_fd writer none fds))
    else let one = set_fd 1 (fds writer) fds in
      if os.dup2_stderr_fails
      then if os.rollback_fails
        then err aborted
        else err (io_error (set_fd writer none (set_fd 1 (one saved.stdout) one)))
      else ok (set_fd writer none (set_fd 2 (one writer) one))

unfoldable pub close_saved : Saved → Fds → Fds
close_saved saved fds = set_fd saved.stderr none (set_fd saved.stdout none fds)

-- `FdCapture`, with the reader that its thread drains.
pub record FdCapture : Type 0 where
  pub saved : Saved
  pub reader : ℕ

-- What `begin` does with the error of `redirect_to_pipe`; the reader is dropped.
abbrev pub unsaved : Saved → ℕ → CaptureError → CaptureError
unsaved saved reader (io_error fds) = io_error (set_fd reader none (close_saved saved fds))
unsaved saved reader aborted = aborted

-- `FdCapture::begin`. If the thread cannot be spawned, the closure is dropped with the reader in it.
unfoldable pub begin : Unix → Fds → Result CaptureError (FdCapture × Fds)
begin os fds = do
  s ← save os fds
  p ← pipe os s.1
  elim (redirect_to_pipe os p.1 s.0 p.2) [
    | err e ↦ err (unsaved s.0 p.0 e)
    | ok redirected ↦
        if os.spawn_fails
        then err (io_error (set_fd p.0 none redirected))
        else ok (record { saved = s.0; reader = p.0 }, redirected)
  ]

-- Both descriptors are put back even if the first fails; an error is the first one's.
unfoldable pub restore : Unix → Saved → Fds → Result CaptureError Fds
restore os saved fds =
    let one = if os.restore_stdout_fails then fds else set_fd 1 (fds saved.stdout) fds in
    let both = if os.restore_stderr_fails then one else set_fd 2 (one saved.stderr) one in
    if os.restore_stdout_fails
    then err (io_error both)
    else if os.restore_stderr_fails
    then err (io_error both)
    else ok both

-- `FdCapture::end`, and its drop: a failed `restore` aborts. The thread, which reads to the end of the pipe,
-- closes the reader.
unfoldable pub end_capture : Unix → FdCapture → Fds → Result CaptureError Fds
end_capture os capture fds = elim (restore os capture.saved fds) [
  | err e ↦ err aborted
  | ok restored ↦ ok (set_fd capture.reader none (close_saved capture.saved restored))
]
