-- ===== src/Macros/Args/Given.antt =====
-- macros/src/lib.rs: the arguments that may be given to `#[skuld::test(..)]` and `#[skuld::fixture(..)]`,
-- the tokens that they are written in, and what each says.
use skuld.Prelude.{
  ℕ, zero, suc, ◌≤◌, ◌≡◌, refl, sym, ap, ◌∙◌, Bool, true, false, List, [], ◌∷◌, ◌++◌, Text,
  contains, if◌then◌else◌, Bool-cases, inl, inr, arith,
}
use skuld.Macros.Tokens.{
  Token, ident, punct, Tokens, nil, cons, duplicate_argument, Parsed, parsed, refused, size,
}
use skuld.Macros.Args.{Syn, args_loop, parse_args}

-- What follows an argument: nothing, or a comma and more.
pub data Behind : Type 0 where
  last : Behind
  comma : Tokens → Behind

abbrev pub behind : Behind → Tokens
behind last = nil
behind (comma ts) = cons (punct b',') ts

abbrev pub end_of : Bool → Behind
end_of trailing = if trailing then comma nil else last

abbrev pub AllGiven : {Arg : Type 0} → (Arg → Type 0) → Arg → List Arg → Type 0
AllGiven IsGiven a [] = IsGiven a
AllGiven IsGiven a (b ∷ more) = IsGiven a × AllGiven IsGiven b more

module _ {Arg : Type 0} (key : Arg → Text) (value : Arg → Tokens → Tokens) where
  -- One or more arguments, perhaps with a comma at the end.
  unfoldable pub tokens_args : Arg → List Arg → Bool → Tokens
  tokens_args a [] trailing = cons (ident (key a)) (value a (behind (end_of trailing)))
  tokens_args a (b ∷ more) trailing =
      cons (ident (key a)) (value a (behind (comma (tokens_args b more trailing))))

module _ {A Arg : Type 0} (key : Arg → Text) (apply : Arg → A → A) where
  -- What they say, one after another; the first key that stands among those before is refused.
  pub applied : List Text → A → Arg → List Arg → Parsed A
  applied seen args a [] =
      if contains seen (key a)
      then refused (duplicate_argument (key a))
      else parsed (apply a args) nil
  applied seen args a (b ∷ more) =
      let rest = applied (seen ++ key a ∷ []) (apply a args) b more in
      if contains seen (key a) then refused (duplicate_argument (key a)) else rest

  module _ (value : Arg → Tokens → Tokens) (syn : Syn) (arg : Text → A → Tokens → Parsed A)
      (IsGiven : Arg → Type 0) (is_key : (a : Arg) → syn.is_name (key a) ≡ true)
      (grows : (a : Arg) (r : Tokens) → size r ≤ size (value a r))
      (reads : (a : Arg) (args : A) (b : Behind)
        → IsGiven a
        → arg (key a) args (value a (behind b)) ≡ parsed (apply a args) (behind b)) where
    one_left :
        (fuel : ℕ) (args : A) (seen : List Text) (a : Arg) (trailing : Bool)
        → IsGiven a
        → args_loop syn arg
            (suc fuel)
            args
            seen
            (cons (ident (key a)) (value a (behind (end_of trailing))))
          ≡ applied seen args a []
    unfolding args_loop applied
    one_left fuel args seen a true h = rw (is_key a) (elim (Bool-cases (contains seen (key a))) [
      | inl e ↦ rw e refl
      | inr e ↦ rw e (rw (reads a args (comma nil) h) refl)
    ])
    one_left fuel args seen a false h = rw (is_key a) (elim (Bool-cases (contains seen (key a))) [
      | inl e ↦ rw e refl
      | inr e ↦ rw e (rw (reads a args last h) refl)
    ])

    front :
        (a : Arg) (more : List Arg) (trailing : Bool)
        → (r : Tokens) × (tokens_args key value a more trailing ≡ cons (ident (key a)) r)
    unfolding tokens_args
    front a [] trailing = (value a (behind (end_of trailing)), refl)
    front a (b ∷ more) trailing =
        (value a (behind (comma (tokens_args key value b more trailing))), refl)

    loop_again :
        (fuel : ℕ) (args : A) (seen : List Text) (a : Arg) (ts r : Tokens) (t : Token)
        → IsGiven a
        → ts ≡ cons t r
        → contains seen (key a) ≡ false
        → args_loop syn arg
            (suc fuel)
            args
            seen
            (cons (ident (key a)) (value a (behind (comma ts))))
          ≡ args_loop syn arg fuel (apply a args) (seen ++ key a ∷ []) ts
    unfolding args_loop
    loop_again fuel args seen a ts r t h e fresh =
        rw e (rw (is_key a) (rw fresh (rw (reads a args (comma (cons t r)) h) refl)))

    loop_refuses :
        (fuel : ℕ) (args : A) (seen : List Text) (a : Arg) (ts : Tokens)
        → contains seen (key a) ≡ true
        → args_loop syn arg (suc fuel) args seen (cons (ident (key a)) ts)
          ≡ refused (duplicate_argument (key a))
    unfolding args_loop
    loop_refuses fuel args seen a ts e = rw (is_key a) (rw e refl)

    args_loop-applied :
        (fuel : ℕ) (args : A) (seen : List Text) (a : Arg) (more : List Arg) (trailing : Bool)
        → AllGiven IsGiven a more
        → size (tokens_args key value a more trailing) ≤ fuel
        → args_loop syn arg fuel args seen (tokens_args key value a more trailing)
          ≡ applied seen args a more
    unfolding tokens_args applied size
    args_loop-applied zero args seen a [] trailing h le = absurd (omega arith)
    args_loop-applied zero args seen a (b ∷ more) trailing h le = absurd (omega arith)
    args_loop-applied (suc fuel) args seen a [] trailing h le = one_left fuel args seen a trailing h
    args_loop-applied (suc fuel) args seen a (b ∷ more) trailing h le =
        let ts = tokens_args key value b more trailing in
        elim (Bool-cases (contains seen (key a))) [
          | inl e ↦ loop_refuses fuel args seen a (value a (behind (comma ts))) e ∙ sym (rw e refl)
          | inr e ↦
              loop_again fuel args seen a ts (front b more trailing).0 (ident (key b)) h.0
                (front b more trailing).1 e
              ∙ args_loop-applied fuel (apply a args) (seen ++ key a ∷ []) b more trailing h.1
                  (omega (arith, grows a (behind (comma ts))))
              ∙ sym (rw e refl)
        ]

    pub parse_args-applied :
        (args : A) (a : Arg) (more : List Arg) (trailing : Bool)
        → AllGiven IsGiven a more
        → parse_args syn arg args (tokens_args key value a more trailing) ≡ applied [] args a more
    unfolding parse_args
    parse_args-applied args a more trailing h =
        let (r, e) = front a more trailing in
        rw e (
          ap (λ ts. args_loop syn arg (size ts) args [] ts) (sym e)
          ∙ args_loop-applied (size (tokens_args key value a more trailing)) args [] a more trailing
              h (omega arith))
