-- ===== src/Fixture/Store/Account.antt =====
-- src/fixture.rs: each value that a fixture's function makes is in one place: dropped, cached, or
-- owned by a handle.
use skuld.Prelude.{
  ℕ, zero, suc, ◌+◌, ◌≡◌, Bool, true, false, List, [], ◌∷◌, ◌++◌, Option, none, some, Text, ltb,
  ◌==◌, Bool-cases, inl, inr, arith,
}
use skuld.Fixture.Registry.{FixtureDef}
use skuld.Fixture.Store.{
  Entry, Stores, FixtureHandle, Outcome, done, panics, no_fuel, Code, ◌>>=◌, drop_value, drop_owner,
  drop_handles, keep_handle, entry_at, get_each, built, setup,
}

abbrev pub bit : Bool → ℕ
bit true = 1
bit false = 0

-- How often an address is in a list.
abbrev pub count : ℕ → List ℕ → ℕ
count p [] = 0
count p (x ∷ xs) = bit (x == p) + count p xs

abbrev pub cached : ℕ → List Entry → ℕ
cached p [] = 0
cached p (e ∷ es) = bit (e.ptr == p) + cached p es

abbrev pub owns : ℕ → Option ℕ → ℕ
owns p none = 0
owns p (some x) = bit (x == p)

abbrev pub held : ℕ → List FixtureHandle → ℕ
held p [] = 0
held p (h ∷ hs) = owns p h.owner + held p hs

-- Every address given out is in one place, once, and no other is anywhere; `owned` counts what is
-- neither dropped nor cached.
abbrev pub Accounts : (ℕ → ℕ) → Stores → Type 0
Accounts owned s =
    (p : ℕ)
    → count p s.dropped + cached p s.tests + cached p s.entries + owned p ≡ bit (ltb p s.next)

-- Wherever a request ends, with what it has given counted.
abbrev pub Balanced : {A : Type 0} → (A → ℕ → ℕ) → (ℕ → ℕ) → Outcome A → Type 0
Balanced gives owned (done a s) = Accounts (λ p. gives a p + owned p) s
Balanced gives owned (panics e s) = Accounts owned s
Balanced gives owned no_fuel = Unit

pub count-append : (p : ℕ) (xs ys : List ℕ) → count p (xs ++ ys) ≡ count p xs + count p ys
count-append p [] ys = omega arith
count-append p (x ∷ xs) ys = omega (arith, count-append p xs ys)

pub cached-append : (p : ℕ) (xs ys : List Entry) → cached p (xs ++ ys) ≡ cached p xs + cached p ys
cached-append p [] ys = omega arith
cached-append p (x ∷ xs) ys = omega (arith, cached-append p xs ys)

pub bind-Balanced :
    {A B : Type 0} (gives : A → ℕ → ℕ) (gives' : B → ℕ → ℕ) (owned : ℕ → ℕ) (m : Outcome A)
    (k : A → Stores → Outcome B)
    → Balanced gives owned m
    → ((a : A) (s : Stores) → Accounts (λ p. gives a p + owned p) s → Balanced gives' owned (k a s))
    → Balanced gives' owned (m >>= k)
bind-Balanced gives gives' owned (done a s) k h next = next a s h
bind-Balanced gives gives' owned (panics e s) k h next = h
bind-Balanced gives gives' owned no_fuel k h next = tt

-- A search that may find nothing.
pub found-Balanced :
    {X A : Type 0} (gives : A → ℕ → ℕ) (owned : ℕ → ℕ) (found : Option X) (absent : Outcome A)
    (present : X → Outcome A)
    → Balanced gives owned absent
    → ((x : X) → Balanced gives owned (present x))
    → Balanced gives owned (elim found [ none ↦ absent | some x ↦ present x ])
found-Balanced gives owned none absent present h k = h
found-Balanced gives owned (some x) absent present h k = k x

-- A drop moves a value from what is owned to what is dropped.
pub drop_value-Accounts :
    (ptr : ℕ) (owned : ℕ → ℕ) (s : Stores)
    → Accounts (λ p. bit (ptr == p) + owned p) s
    → Accounts owned (drop_value ptr s)
drop_value-Accounts ptr owned s h p = omega (arith, h p, count-append p s.dropped (ptr ∷ []))

pub drop_owner-Accounts :
    (owner : Option ℕ) (owned : ℕ → ℕ) (s : Stores)
    → Accounts (λ p. owns p owner + owned p) s
    → Accounts owned (drop_owner owner s)
drop_owner-Accounts none owned s h p = omega (arith, h p)
drop_owner-Accounts (some ptr) owned s h p = drop_value-Accounts ptr owned s h p

pub drop_handles-Accounts :
    (hs : List FixtureHandle) (owned : ℕ → ℕ) (s : Stores)
    → Accounts (λ p. held p hs + owned p) s
    → Accounts owned (drop_handles hs s)
unfolding drop_handles
drop_handles-Accounts [] owned s h p = omega (arith, h p)
drop_handles-Accounts (x ∷ hs) owned s h p =
    drop_owner-Accounts x.owner owned (drop_handles hs s)
      (drop_handles-Accounts hs (λ q. owns q x.owner + owned q) s (λ q. omega (arith, h q))) p

abbrev pub one_value : ℕ → ℕ → ℕ
one_value ptr p = bit (ptr == p)

abbrev pub one_handle : FixtureHandle → ℕ → ℕ
one_handle h p = owns p h.owner

abbrev pub handles : List FixtureHandle → ℕ → ℕ
handles hs p = held p hs

-- A cached value is owned by no handle.
abbrev pub nothing {ℓ} : {A : Type ℓ} → A → ℕ → ℕ
nothing a p = 0

-- A request that keeps the accounts, whatever else is owned.
abbrev pub KeepsAccounts : (Text → ℕ → Stores → Outcome FixtureHandle) → Type 0
KeepsAccounts get =
    (name : Text) (target : ℕ) (owned : ℕ → ℕ) (s : Stores)
    → Accounts owned s
    → Balanced one_handle owned (get name target s)

keep_handle-Balanced :
    (h : FixtureHandle) (owned : ℕ → ℕ) (m : Outcome (List FixtureHandle))
    → Balanced handles (λ p. owns p h.owner + owned p) m
    → Balanced handles owned (keep_handle h m)
keep_handle-Balanced h owned (done hs s) k = λ p. omega (arith, k p)
keep_handle-Balanced h owned (panics e s) k = drop_owner-Accounts h.owner owned s k
keep_handle-Balanced h owned no_fuel k = tt

fresh-Accounts :
    (owned : ℕ → ℕ) (s : Stores)
    → Accounts owned s
    → Accounts (λ p. bit (s.next == p) + owned p) (record s { next = suc s.next })
fresh-Accounts owned s h p = ground (arith, h p)

pub entry_at-Balanced :
    (es : List Entry) (i : ℕ) (owned : ℕ → ℕ) (s : Stores)
    → Accounts owned s
    → Balanced nothing owned (entry_at es i s)
unfolding entry_at
entry_at-Balanced [] i owned s h = h
entry_at-Balanced (e ∷ es) zero owned s h = λ p. omega (arith, h p)
entry_at-Balanced (e ∷ es) (suc i) owned s h = entry_at-Balanced es i owned s h

module _ (code : Code) where
  pub get_each-Balanced :
      (get : Text → ℕ → Stores → Outcome FixtureHandle)
      → KeepsAccounts get
      → (target : Text → ℕ) (names : List Text) (owned : ℕ → ℕ) (s : Stores) → Accounts owned s
      → Balanced handles owned (get_each code get target names s)
  unfolding get_each
  get_each-Balanced get keeps target [] owned s h = λ p. omega (arith, h p)
  get_each-Balanced get keeps target (n ∷ ns) owned s h =
      bind-Balanced one_handle handles owned (get n (target n) s)
        (λ x s'. keep_handle x (get_each code get target ns s')) (keeps n (target n) owned s h)
        (λ x s' a.
          keep_handle-Balanced x owned (get_each code get target ns s')
            (get_each-Balanced get keeps target ns (λ p. owns p x.owner + owned p) s' a))

  built-Balanced :
      (d : FixtureDef) (hs : List FixtureHandle) (owned : ℕ → ℕ) (s : Stores)
      → Accounts (λ p. held p hs + owned p) s
      → Balanced one_value owned (built code d hs s)
  unfolding built
  built-Balanced d hs owned s h = elim (Bool-cases (code.builds d.name s.next)) [
    | inl e ↦ rw e (
        drop_handles-Accounts hs (λ p. bit (s.next == p) + owned p) (record s { next = suc s.next })
          (λ p. omega (arith, fresh-Accounts (λ q. held q hs + owned q) s h p)))
    | inr e ↦ rw e (drop_handles-Accounts hs owned s h)
  ]

  module _ (get : Text → ℕ → Stores → Outcome FixtureHandle) (keeps : KeepsAccounts get) where
    pub setup-Balanced :
        (d : FixtureDef) (owned : ℕ → ℕ) (s : Stores)
        → Accounts owned s
        → Balanced one_value owned (setup code get d s)
    unfolding setup
    setup-Balanced d owned s h =
        bind-Balanced handles one_value owned (get_each code get (code.target d.name) d.deps s)
          (built code d) (get_each-Balanced get keeps (code.target d.name) d.deps owned s h)
          (λ hs s' a. built-Balanced d hs owned s' a)
