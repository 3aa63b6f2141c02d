-- ===== src/Examples/Guards.antt =====
-- The guards of the fixtures and the capture at concrete inputs.
use skuld.Prelude.{
  ℕ, ◌≡◌, ◌≤◌, ◌==◌, refl, List, [], ◌∷◌, ◌++◌, true, false, none, some, ok, err, ◌>>=◌, Text, Bool,
  codes, text_eq, not, ◌&&◌, ◌||◌, Bool-cases, inl, inr, subst, if◌then◌else◌, arith, All,
}
use skuld.Fixture.Builtin.Env.{
  EnvCall, EnvGuard, Environment, TakesValues, env_call, env_call-refused, drop_env, run_env,
  new_env, drop_env-run_env-new_env,
}
use skuld.Fixture.Builtin.Cwd.{CwdCall, LeavesAt, drop_cwd, run_cwd, new_cwd, drop_cwd-run_cwd}
use skuld.Fixture.Builtin.Cwd
use skuld.Fixture.Builtin.Env
use skuld.Fixture.Builtin.TempDir.{file_name_safe, utf8_bytes, decomposed_units, is_dos_device}
use skuld.Fixture.Builtin.TempDir.Name.{IsSafe, file_name_safe_fits}
use skuld.Capture.{Fds, Unix, begin, end_capture, io_error}
use skuld.Capture.Restored.{SameFds, GivesFree, Works, end_capture-begin}
use skuld.Capture.Failed.{Untouched, begin-Untouched, begin_abandons}

abbrev home : Environment
home key = if text_eq key (codes "HOME") then some (codes "/root") else none

abbrev env_calls : List EnvCall
env_calls = Env.sets (codes "HOME") (codes "/tmp") ∷ Env.removes (codes "HOME") ∷ []

-- No `=`, and no NUL; and at least one character in a key.
abbrev any_eq : ℕ → List ℕ → Bool
any_eq c [] = false
any_eq c (d ∷ ds) = c == d || any_eq c ds

abbrev has_none : List ℕ → Text → Bool
has_none bad [] = true
has_none bad (c ∷ t) = not (any_eq c bad) && has_none bad t

abbrev some_key : Text → Bool
some_key [] = false
some_key (c ∷ t) = has_none (b'=' ∷ 0 ∷ []) (c ∷ t)

takes_home : TakesValues some_key (has_none (0 ∷ [])) home
takes_home key value e = elim (Bool-cases (text_eq key (codes "HOME"))) [
  | inl same ↦
      let here : codes "/root" ≡ value = ground (arith, e, same) in
      subst (λ v. has_none (0 ∷ []) v ≡ true) here refl
  | inr other ↦ absurd (ground (arith, e, other))
]

drop_env-run_env-new_env_example :
    drop_env some_key
      (has_none (0 ∷ []))
      (run_env some_key (has_none (0 ∷ [])) env_calls (new_env home))
    ≡ ok home
drop_env-run_env-new_env_example =
    drop_env-run_env-new_env some_key (has_none (0 ∷ [])) env_calls home (refl, (refl, tt))
      takes_home

-- The variable HOME is changed, and then a key with a `=` is asked for.
abbrev changed_home : EnvGuard
changed_home = run_env some_key (has_none (0 ∷ [])) env_calls (new_env home)

env_call-refused_example :
    (g : EnvGuard) × (env_call some_key (has_none (0 ∷ [])) (Env.removes (codes "A=B")) changed_home
      ≡ err g)
    × (drop_env some_key (has_none (0 ∷ [])) g ≡ err changed_home.env)
env_call-refused_example =
    env_call-refused some_key (has_none (0 ∷ [])) (Env.removes (codes "A=B")) changed_home refl

-- The operating system accepts no other directory than the root.
abbrev only_root : Text → Bool
only_root d = text_eq d (codes "/")

-- The last call poisons the mutex.
abbrev cwd_calls : List CwdCall
cwd_calls = Cwd.backs ∷ Cwd.sets true (codes "/") ∷ Cwd.backs ∷ Cwd.backs ∷ []

drop_cwd-run_cwd_example :
    LeavesAt
      (codes "/")
      (run_cwd only_root cwd_calls (new_cwd (codes "/")))
      (drop_cwd only_root (run_cwd only_root cwd_calls (new_cwd (codes "/"))))
drop_cwd-run_cwd_example = drop_cwd-run_cwd only_root (codes "/") cwd_calls refl

-- A decomposition that decomposes nothing.
abbrev itself : ℕ → Text
itself c = c ∷ []

file_name_safe_fits_example :
    (utf8_bytes itself
        (file_name_safe itself (codes "con") ++ (b'-' ∷ (codes "42" ++ b'-' ∷ codes "aB3xYz")))
      ≤ 255)
    × (decomposed_units itself
          (file_name_safe itself (codes "con") ++ (b'-' ∷ (codes "42" ++ b'-' ∷ codes "aB3xYz")))
        ≤ 255)
    × All (IsSafe itself) (file_name_safe itself (codes "con"))
    × (is_dos_device (file_name_safe itself (codes "con") ++ b'-' ∷ []) ≡ false)
file_name_safe_fits_example =
    file_name_safe_fits itself (codes "con") (codes "42") (codes "aB3xYz") (λ c small. refl)
      (ground arith) (ground arith) (omega arith) (omega arith)

abbrev open_fds : Fds
open_fds k = if k == 1 then some 11 else if k == 2 then some 12 else none

-- A system on which every call succeeds, unless the second `dup2` or the thread is to fail.
abbrev unix : Bool → Bool → Unix
unix redirect_fails spawn_fails = record {
  stdout_copy = 3;
  stderr_copy = 4;
  reader = 5;
  writer = 6;
  dup_stdout_fails = false;
  dup_stderr_fails = false;
  pipe_fails = false;
  dup2_stdout_fails = false;
  dup2_stderr_fails = redirect_fails;
  rollback_fails = false;
  spawn_fails = spawn_fails;
  restore_stdout_fails = false;
  restore_stderr_fails = false;
  read_end = 20;
  write_end = 21;
}

gives_free :
    (redirect_fails spawn_fails : Bool) → GivesFree (unix redirect_fails spawn_fails) open_fds
gives_free redirect_fails spawn_fails = record {
  out = 11;
  error = 12;
  has_out = refl;
  has_error = refl;
  a_free = refl;
  b_free = refl;
  r_free = refl;
  w_free = refl;
}

unix-Works : Works (unix false false)
unix-Works = record {
  dup_stdout = refl;
  dup_stderr = refl;
  pipe_made = refl;
  dup2_stdout = refl;
  dup2_stderr = refl;
  spawned = refl;
  restore_stdout = refl;
  restore_stderr = refl;
}

end_capture-begin_example :
    (fds' : Fds) × ((begin (unix false false) open_fds
        >>= (λ c. end_capture (unix false false) c.0 c.1))
      ≡ ok fds')
    × SameFds open_fds fds'
end_capture-begin_example =
    end_capture-begin (unix false false) open_fds unix-Works (gives_free false false)

begin-Untouched_example : Untouched open_fds (begin (unix true false) open_fds)
begin-Untouched_example =
    begin-Untouched (unix true false) open_fds (gives_free true false) refl refl refl

begin_abandons_example :
    (fds' : Fds) × (begin (unix false true) open_fds ≡ err (io_error fds'))
    × (fds' 1 ≡ some 21)
    × (fds' 2 ≡ some 21)
begin_abandons_example =
    begin_abandons (unix false true) open_fds (gives_free false true) refl refl refl refl refl refl
