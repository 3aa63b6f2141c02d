-- ===== src/Label/Print/Chain.antt =====
-- Chains `item (sep item)*`: how a printed chain is read, item by item, and folded to the left.
use skuld.Prelude.{
  ℕ, zero, suc, ◌≤◌, ◌<◌, ◌≡◌, refl, ap, sym, ◌∙◌, false, [], ◌∷◌, ◌++◌, Option, none, some, Text,
  ok, ◌>>=◌, Bool-cases, arith, length, inl, inr, append_assoc,
}
use skuld.Label.Expr.{LabelExpr}
use skuld.Label.Grammar.{
  Pair, Pairs, nil, cons, Parse, matched, skip, literal, is_whitespace, repeat,
}
use skuld.Label.Build.{build_expr, build_fold}

pub skip-skip : (s : Text) → skip (skip s) ≡ skip s
unfolding skip
skip-skip [] = refl
skip-skip (c ∷ s) = elim (Bool-cases (is_whitespace c)) [
  | inl h ↦ rw h (skip-skip s)
  | inr h ↦ rw (h, h)
]

pub length-skip : (s : Text) → length (skip s) ≤ length s
unfolding skip
length-skip [] = omega arith
length-skip (c ∷ s) = ground (arith, length-skip s)

pub length-literal : (c : ℕ) (s r : Text) → literal c s ≡ some r → length s ≡ suc (length r)
length-literal c [] r h = cc
length-literal c (d ∷ s) r h = ground arith

-- The chain that goes on from `s`, with the pairs of its items and the text it leaves.
pub data More (sep : ℕ) (item : Text → Parse Pair) : Text → Pairs → Text → Type 0 where
  stop : {s l : Text} → literal sep (skip s) ≡ none → l ≡ s → More sep item s nil l
  go :
      {s l : Text} {q : Pair} {qs : Pairs} (r rest : Text)
      → literal sep (skip s) ≡ some r
      → item (skip r) ≡ matched q rest
      → length rest ≤ length r
      → More sep item rest qs l
      → More sep item s (cons q qs) l

module _ (sep : ℕ) (item : Text → Parse Pair) where
  repeat-go :
      (f : ℕ) (s r rest : Text) {q : Pair} {qs : Pairs} {l : Text}
      → literal sep (skip s) ≡ some r
      → item (skip r) ≡ matched q rest
      → repeat f sep item rest ≡ matched qs l
      → repeat (suc f) sep item s ≡ matched (cons q qs) l
  unfolding repeat
  repeat-go f s r rest lit it h = ground arith

  -- The repetition reads such a chain: its fuel is enough.
  pub repeat-More :
      (f : ℕ) {s l : Text} {qs : Pairs}
      → More sep item s qs l
      → length s < f
      → repeat f sep item s ≡ matched qs l
  unfolding repeat
  repeat-More zero m h = absurd (omega arith)
  repeat-More (suc f) (stop none_left e) h = rw (none_left, repeat, e)
  repeat-More (suc f) {s} (go r rest lit it le m) h =
      repeat-go f s r rest lit it
        (repeat-More f m (omega (arith, length-skip s, length-literal sep (skip s) r lit)))

  pub More-length : {s l : Text} {qs : Pairs} → More sep item s qs l → length l ≤ length s
  More-length (stop none_left e) = omega (arith, ap length e)
  More-length {s} (go r rest lit it le m) =
      omega (arith, More-length m, length-skip s, length-literal sep (skip s) r lit)

  -- Whitespace in front of a chain changes at most what an empty one leaves.
  pub More-skip :
      {s l : Text} {qs : Pairs} (s' : Text)
      → skip s' ≡ skip s
      → More sep item s qs l
      → (l' : Text) × (skip l' ≡ skip l) × More sep item s' qs l'
  More-skip s' e (stop none_left el) = (s', rw el e, stop (rw e none_left) refl)
  More-skip {l} s' e (go r rest lit it le m) = (l, refl, go r rest (rw e lit) it le m)

-- `item` reads `t` as `x` in front of `rest`, and leaves `rest` up to whitespace.
pub record Reads (item : Text → Parse Pair) (t : Text) (x : LabelExpr) (rest : Text) : Type 0 where
  pub tree : Pair
  pub left : Text
  pub reads : item (t ++ rest) ≡ matched tree left
  pub builds : build_expr tree ≡ ok x
  pub leaves : skip left ≡ skip rest
  pub consumes : length left ≤ length (t ++ rest)

-- What is read before a chain goes on: nothing yet, or an expression that the chain is put on.
abbrev pub join : (LabelExpr → LabelExpr → LabelExpr) → Option LabelExpr → LabelExpr → LabelExpr
join op none x = x
join op (some acc) x = op acc x

pub skip-space : (s : Text) → skip (b' ' ∷ s) ≡ skip s
unfolding skip is_whitespace
skip-space s = refl

pub skip-sep :
    (c : ℕ) (s : Text) → is_whitespace c ≡ false → literal c (skip (b' ' ∷ c ∷ s)) ≡ some s
unfolding skip
skip-sep c s h = rw (skip-space (c ∷ s), h) (ground arith)

pub fold-cons :
    (op : LabelExpr → LabelExpr → LabelExpr) (x : LabelExpr) (p : Pair) (ps : Pairs)
    → build_fold op x (cons p ps) ≡ (build_expr p >>= (λ y. build_fold op (op x y) ps))
unfolding build_fold
fold-cons op x p ps = refl

join-graft :
    (graft : LabelExpr → LabelExpr → LabelExpr) (acc : Option LabelExpr) (x y : LabelExpr)
    → ((x y z : LabelExpr) → graft (graft x y) z ≡ graft x (graft y z))
    → graft (join graft acc x) y ≡ join graft acc (graft x y)
join-graft graft none x y assoc = refl
join-graft graft (some a) x y assoc = assoc a x y

module _ (sep : ℕ) (item : Text → Parse Pair) (op graft : LabelExpr → LabelExpr → LabelExpr)
    (Ends : Text → Type 0) where
  -- The text `t` begins a chain that `qs` goes on: its first item and the pairs that follow it,
  -- which fold to `x` put on what came before.
  pub record ReadsChain (t : Text) (x : LabelExpr) (acc : Option LabelExpr) (rest : Text)
      (qs : Pairs) (l : Text) : Type 0 where
    pub first : Pair
    pub left : Text
    pub more : Pairs
    pub end : Text
    pub reads : item (t ++ rest) ≡ matched first left
    pub goes_on : More sep item left more end
    pub leaves : skip end ≡ skip l
    pub consumes : length left ≤ length (t ++ rest)
    pub folds :
        (build_expr first >>= (λ y. build_fold op (join op acc y) more))
        ≡ build_fold op (join graft acc x) qs

  -- Whatever came before and whatever follows.
  abbrev pub Chains : Text → LabelExpr → Type 0
  Chains t x =
      (acc : Option LabelExpr) (rest : Text) (qs : Pairs) (l : Text)
      → Ends rest
      → More sep item rest qs l
      → ReadsChain t x acc rest qs l

  join-item :
      (acc : Option LabelExpr) (x : LabelExpr)
      → ((a : LabelExpr) → graft a x ≡ op a x)
      → join op acc x ≡ join graft acc x
  join-item none x whole = refl
  join-item (some a) x whole = sym (whole a)

  -- One item is a chain, when its expression is no chain itself.
  pub Chains-item :
      (t : Text) (x : LabelExpr)
      → ((acc : LabelExpr) → graft acc x ≡ op acc x)
      → ((rest : Text) → Ends rest → Reads item t x rest)
      → Chains t x
  Chains-item t x whole reads acc rest qs l ends m =
      let r = reads rest ends in
      let (l', el, m') = More-skip sep item r.left r.leaves m in
      record {
        first = r.tree;
        left = r.left;
        more = qs;
        end = l';
        reads = r.reads;
        goes_on = m';
        leaves = el;
        consumes = r.consumes;
        folds = rw r.builds (ap (λ y. build_fold op y qs) (join-item acc x whole));
      }

  -- Two chains with the separator between them.
  pub Chains-op :
      (ta tb : Text) (xa xb : LabelExpr)
      → ((x y z : LabelExpr) → graft (graft x y) z ≡ graft x (graft y z))
      → is_whitespace sep ≡ false
      → ((u : Text) → Ends (b' ' ∷ sep ∷ u))
      → ((u : Text) → skip (tb ++ u) ≡ tb ++ u)
      → Chains ta xa
      → Chains tb xb
      → Chains (ta ++ b' ' ∷ sep ∷ b' ' ∷ tb) (graft xa xb)
  Chains-op ta tb xa xb assoc visible ends_sep starts ca cb acc rest qs l ends m =
      let second = cb (some (join graft acc xa)) rest qs l ends m in
      let u = b' ' ∷ sep ∷ b' ' ∷ (tb ++ rest) in
      let m' : More sep item u (cons second.first second.more) second.end =
        go (b' ' ∷ (tb ++ rest)) second.left (skip-sep sep (b' ' ∷ (tb ++ rest)) visible)
          (rw (skip-space (tb ++ rest), starts rest) second.reads) (omega (arith, second.consumes))
          second.goes_on in
      let first' = ca acc u (cons second.first second.more) second.end (ends_sep _) m' in
      record {
        first = first'.first;
        left = first'.left;
        more = first'.more;
        end = first'.end;
        reads = rw (append_assoc ta (b' ' ∷ sep ∷ b' ' ∷ tb) rest) first'.reads;
        goes_on = first'.goes_on;
        leaves = first'.leaves ∙ second.leaves;
        consumes = rw (append_assoc ta (b' ' ∷ sep ∷ b' ' ∷ tb) rest) first'.consumes;
        folds =
            first'.folds
            ∙ fold-cons op (join graft acc xa) second.first second.more
            ∙ second.folds
            ∙ ap (λ y. build_fold op y qs) (join-graft graft acc xa xb assoc);
      }
