-- ===== src/Fixture/Builtin/Env.antt =====
-- src/fixtures/env.rs: the guard that reverts the environment.
use mathlib.Core.Path.{fun_ext}
use skuld.Prelude.{
  ◌≡◌, refl, sym, ap, ◌∙◌, List, [], ◌∷◌, ◌++◌, Option, none, some, Text, text_eq, text_eq→eq, Bool,
  true, false, ◌&&◌, if◌then◌else◌, Bool-cases, inl, inr, arith, Result, ok, err, ◌>>=◌, All, subst,
}

-- The environment of the process: `var_os`.
abbrev pub Environment : Type 0
Environment = Text → Option Text

abbrev pub put : Text → Option Text → Environment → Environment
put key value env k = if text_eq key k then value else env k

-- `EnvGuard`, with the environment that it changes.
pub record EnvGuard : Type 0 where
  pub original : List (Text × Option Text)
  pub env : Environment

unfoldable pub new_env : Environment → EnvGuard
new_env env = record { original = []; env = env }

>>=-ok : (r : Result Environment Environment) → (r >>= (λ env. ok env)) ≡ r
>>=-ok (ok env) = refl
>>=-ok (err env) = refl

>>=-assoc :
    (r : Result Environment Environment) (f g : Environment → Result Environment Environment)
    → ((r >>= f) >>= g) ≡ (r >>= (λ env. f env >>= g))
>>=-assoc (ok env) f g = refl
>>=-assoc (err env) f g = refl

-- What a test does with the guard.
pub data EnvCall : Type 0 where
  sets : Text → Text → EnvCall
  removes : Text → EnvCall

abbrev pub key_of : EnvCall → Text
key_of (sets key value) = key
key_of (removes key) = key

-- `set_var` and `remove_var` panic at a key or a value that the operating system does not take: a key
-- that is empty or has a `=` or a NUL, a value with a NUL.
module _ (accepts_key accepts_value : Text → Bool) where
  -- `set_var` or `remove_var`; a panic leaves the environment as it is.
  unfoldable pub put_var : Text → Option Text → Environment → Result Environment Environment
  put_var key none env = if accepts_key key then ok (put key none env) else err env
  put_var key (some value) env =
      if accepts_key key && accepts_value value then ok (put key (some value) env) else err env

  -- The guard that the rest of a call leaves, by its return or its panic: the entry is pushed before.
  unfoldable pub changed :
      List (Text × Option Text) → Result Environment Environment → Result EnvGuard EnvGuard
  changed original (ok env) = ok (record { original = original; env = env })
  changed original (err env) = err (record { original = original; env = env })

  unfoldable pub set_env : Text → Text → EnvGuard → Result EnvGuard EnvGuard
  set_env key value g =
      changed (g.original ++ (key, g.env key) ∷ []) (put_var key (some value) g.env)

  unfoldable pub remove_env : Text → EnvGuard → Result EnvGuard EnvGuard
  remove_env key g = changed (g.original ++ (key, g.env key) ∷ []) (put_var key none g.env)

  -- `for (key, old) in entries.iter().rev()`: the last entry first. A panic ends the loop.
  unfoldable pub restore_env :
      List (Text × Option Text) → Environment → Result Environment Environment
  restore_env [] env = ok env
  restore_env ((key, old) ∷ entries) env = restore_env entries env >>= put_var key old

  -- `EnvGuard::drop`: the environment it leaves, by its return or its panic.
  unfoldable pub drop_env : EnvGuard → Result Environment Environment
  unfolding restore_env
  drop_env g = restore_env g.original g.env

  unfoldable pub env_call : EnvCall → EnvGuard → Result EnvGuard EnvGuard
  unfolding set_env remove_env
  env_call (sets key value) g = set_env key value g
  env_call (removes key) g = remove_env key g

  -- The guard behind the calls; a panic ends the test.
  unfoldable pub run_env : List EnvCall → EnvGuard → EnvGuard
  run_env [] g = g
  run_env (c ∷ calls) g = elim (env_call c g) [ ok g' ↦ run_env calls g' | err g' ↦ g' ]

  -- The operating system takes the values that it gives.
  abbrev pub TakesValues : Environment → Type 0
  TakesValues env = (key value : Text) → env key ≡ some value → accepts_value value ≡ true

  restore_env-append :
      (entries : List (Text × Option Text)) (key : Text) (old : Option Text) (env : Environment)
      → restore_env (entries ++ (key, old) ∷ []) env ≡ (put_var key old env >>= restore_env entries)
  unfolding restore_env
  restore_env-append [] key old env = sym (>>=-ok (put_var key old env))
  restore_env-append ((k, o) ∷ entries) key old env =
      ap (λ r. r >>= put_var k o) (restore_env-append entries key old env)
      ∙ >>=-assoc (put_var key old env) (restore_env entries) (put_var k o)

  -- An environment that differs at one key at most.
  abbrev DiffersAt : Text → Environment → Environment → Type 0
  DiffersAt key env env' = put key (env key) env' ≡ env

  put-DiffersAt :
      (key : Text) (value : Option Text) (env : Environment) → DiffersAt key env (put key value env)
  put-DiffersAt key value env = fun_ext (λ k. elim (Bool-cases (text_eq key k)) [
    | inl e ↦ let same = text_eq→eq key k e in rw e (ap env same)
    | inr e ↦ ground (arith, e)
  ])

  same-DiffersAt : (key : Text) (env : Environment) → DiffersAt key env env
  same-DiffersAt key env = fun_ext (λ k. elim (Bool-cases (text_eq key k)) [
    | inl e ↦ let same = text_eq→eq key k e in rw e (ap env same)
    | inr e ↦ ground (arith, e)
  ])

  put_var_back :
      (key : Text) (old : Option Text) (env env' : Environment)
      → accepts_key key ≡ true
      → ((value : Text) → old ≡ some value → accepts_value value ≡ true)
      → put key old env' ≡ env
      → put_var key old env' ≡ ok env
  unfolding put_var
  put_var_back key none env env' taken values back = rw taken (ap ok back)
  put_var_back key (some value) env env' taken values back =
      rw (taken, values value refl) (ap ok back)

  -- The drop of the guard leaves this environment.
  abbrev Restores : Environment → EnvGuard → Type 0
  Restores env g = (drop_env g ≡ ok env) × TakesValues g.env

  pushed-Restores :
      (key : Text) (env env' : Environment) (g : EnvGuard)
      → accepts_key key ≡ true
      → Restores env g
      → DiffersAt key g.env env'
      → TakesValues env'
      → Restores env (record { original = g.original ++ (key, g.env key) ∷ []; env = env' })
  unfolding drop_env
  pushed-Restores key env env' g taken (restored, values) differs values' = (
    restore_env-append g.original key (g.env key) env'
        ∙ ap (λ r. r >>= restore_env g.original)
            (put_var_back key (g.env key) g.env env' taken (values key) differs)
        ∙ restored,
    values',
  )

  put-TakesValues :
      (key : Text) (new : Option Text) (env : Environment)
      → ((value : Text) → new ≡ some value → accepts_value value ≡ true)
      → TakesValues env
      → TakesValues (put key new env)
  put-TakesValues key new env takes values k value e = elim (Bool-cases (text_eq key k)) [
    | inl same ↦ takes value (ground (arith, e, same))
    | inr other ↦ values k value (ground (arith, e, other))
  ]

  -- The guard that a call leaves, whether or not it panics.
  abbrev left : Result EnvGuard EnvGuard → EnvGuard
  left (ok g) = g
  left (err g) = g

  env_call-Restores :
      (c : EnvCall) (env : Environment) (g : EnvGuard)
      → accepts_key (key_of c) ≡ true
      → Restores env g
      → Restores env (left (env_call c g))
  unfolding env_call set_env remove_env put_var changed
  env_call-Restores (removes key) env g taken restores = rw taken (
      pushed-Restores key env (put key none g.env) g taken restores (put-DiffersAt key none g.env)
        (put-TakesValues key none g.env (λ v e. absurd cc) restores.1))
  env_call-Restores (sets key value) env g taken restores =
      elim (Bool-cases (accepts_value value)) [
        | inl e ↦
            rw (taken, e)
              (pushed-Restores key env (put key (some value) g.env) g taken restores
                (put-DiffersAt key (some value) g.env)
                (put-TakesValues key (some value) g.env
                  (λ v same.
                    let here : value ≡ v = cc in subst (λ x. accepts_value x ≡ true) here e)
                  restores.1))
        | inr e ↦
            rw (taken, e)
              (pushed-Restores key env g.env g taken restores (same-DiffersAt key g.env) restores.1)
      ]

  rest-Restores :
      (env : Environment) (r : Result EnvGuard EnvGuard) (rest : EnvGuard → EnvGuard)
      → ((g : EnvGuard) → Restores env g → Restores env (rest g))
      → Restores env (left r)
      → Restores env (elim r [ ok g' ↦ rest g' | err g' ↦ g' ])
  rest-Restores env (ok g') rest keeps h = keeps g' h
  rest-Restores env (err g') rest keeps h = h

  run_env-Restores :
      (calls : List EnvCall) (env : Environment) (g : EnvGuard)
      → All (λ c. accepts_key (key_of c) ≡ true) calls
      → Restores env g
      → Restores env (run_env calls g)
  unfolding run_env
  run_env-Restores [] env g taken restores = restores
  run_env-Restores (c ∷ calls) env g taken restores =
      rest-Restores env (env_call c g) (run_env calls)
        (λ g' h. run_env-Restores calls env g' taken.1 h)
        (env_call-Restores c env g taken.0 restores)

  -- Whatever a test sets and removes through the guard, in whatever order, up to a call that panics at
  -- its value, the drop returns and leaves the environment that the guard was made in, where the
  -- operating system takes the keys of the calls and the values that it gives itself.
  pub drop_env-run_env-new_env :
      (calls : List EnvCall) (env : Environment)
      → All (λ c. accepts_key (key_of c) ≡ true) calls
      → TakesValues env
      → drop_env (run_env calls (new_env env)) ≡ ok env
  unfolding new_env drop_env restore_env
  drop_env-run_env-new_env calls env taken values =
      (run_env-Restores calls env (new_env env) taken (refl, values)).0

  put_var_refused :
      (key : Text) (old : Option Text) (env : Environment)
      → accepts_key key ≡ false
      → put_var key old env ≡ err env
  unfolding put_var
  put_var_refused key none env refused = rw refused refl
  put_var_refused key (some value) env refused = rw refused refl

  -- The drop of a guard whose last entry is such a key.
  pushed_refused :
      (key : Text) (g : EnvGuard)
      → accepts_key key ≡ false
      → drop_env (record { original = g.original ++ (key, g.env key) ∷ []; env = g.env })
        ≡ err g.env
  unfolding drop_env
  pushed_refused key g refused =
      restore_env-append g.original key (g.env key) g.env
      ∙ ap (λ r. r >>= restore_env g.original) (put_var_refused key (g.env key) g.env refused)

  -- A call at a key that the operating system does not take panics, and leaves the guard so that its drop
  -- panics as well, at that key and before it restores any other: the environment stays as the test
  -- left it, whatever it changed before.
  pub env_call-refused :
      (c : EnvCall) (g : EnvGuard)
      → accepts_key (key_of c) ≡ false
      → (g' : EnvGuard) × (env_call c g ≡ err g') × (drop_env g' ≡ err g.env)
  unfolding env_call set_env remove_env changed
  env_call-refused (sets key value) g refused =
      (_, rw (put_var_refused key (some value) g.env refused) refl, pushed_refused key g refused)
  env_call-refused (removes key) g refused =
      (_, rw (put_var_refused key none g.env refused) refl, pushed_refused key g refused)
