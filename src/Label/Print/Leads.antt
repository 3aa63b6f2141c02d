-- ===== src/Label/Print/Leads.antt =====
-- Chains that nothing stands before: how each is read whole, and goes on by one more item.
use skuld.Prelude.{
  ℕ, suc, ◌≡◌, refl, ◌∙◌, false, [], ◌∷◌, ◌++◌, none, some, Text, arith, length, append_assoc,
}
use skuld.Label.Expr.{LabelExpr}
use skuld.Label.Grammar.{
  Rule, Pair, pair, Pairs, nil, cons, Parse, skip, literal, is_whitespace, separated,
}
use skuld.Label.Build.{build_expr, build_chain}
use skuld.Label.Print.Chain.{
  skip-skip, length-skip, More, stop, go, repeat-More, More-length, More-skip, Reads, ReadsChain,
  Chains, Chains-item, skip-space, skip-sep, fold-cons,
}

module _ (sep : ℕ) (item : Text → Parse Pair) (op : LabelExpr → LabelExpr → LabelExpr)
    (Ends : Text → Type 0) where
  -- Whatever follows.
  abbrev pub Leads : Text → LabelExpr → Type 0
  Leads t x =
      (rest : Text) (qs : Pairs) (l : Text)
      → Ends rest
      → More sep item rest qs l
      → ReadsChain sep item op op Ends t x none rest qs l

  pub Chains-Leads :
      (graft : LabelExpr → LabelExpr → LabelExpr) (t : Text) (x : LabelExpr)
      → Chains sep item op graft Ends t x
      → Leads t x
  Chains-Leads graft t x chains rest qs l ends m =
      let c = chains none rest qs l ends m in
      record {
        first = c.first;
        left = c.left;
        more = c.more;
        end = c.end;
        reads = c.reads;
        goes_on = c.goes_on;
        leaves = c.leaves;
        consumes = c.consumes;
        folds = c.folds;
      }

  pub Leads-item :
      (t : Text) (x : LabelExpr) → ((rest : Text) → Ends rest → Reads item t x rest) → Leads t x
  Leads-item t x reads rest qs l ends m =
      Chains-item sep item op op Ends t x (λ acc. refl) reads none rest qs l ends m

  -- A chain, the separator and one more item.
  pub Leads-op :
      (ta tb : Text) (xa xb : LabelExpr)
      → is_whitespace sep ≡ false
      → ((u : Text) → Ends (b' ' ∷ sep ∷ u))
      → ((u : Text) → skip (tb ++ u) ≡ tb ++ u)
      → Leads ta xa
      → ((rest : Text) → Ends rest → Reads item tb xb rest)
      → Leads (ta ++ b' ' ∷ sep ∷ b' ' ∷ tb) (op xa xb)
  Leads-op ta tb xa xb visible ends_sep starts la rb rest qs l ends m =
      let second =
        Chains-item sep item op op Ends tb xb (λ acc. refl) rb (some xa) rest qs l ends m in
      let u = b' ' ∷ sep ∷ b' ' ∷ (tb ++ rest) in
      let m' : More sep item u (cons second.first second.more) second.end =
        go (b' ' ∷ (tb ++ rest)) second.left (skip-sep sep (b' ' ∷ (tb ++ rest)) visible)
          (rw (skip-space (tb ++ rest), starts rest) second.reads) (omega (arith, second.consumes))
          second.goes_on in
      let first' = la u (cons second.first second.more) second.end (ends_sep _) m' in
      record {
        first = first'.first;
        left = first'.left;
        more = first'.more;
        end = first'.end;
        reads = rw (append_assoc ta (b' ' ∷ sep ∷ b' ' ∷ tb) rest) first'.reads;
        goes_on = first'.goes_on;
        leaves = first'.leaves ∙ second.leaves;
        consumes = rw (append_assoc ta (b' ' ∷ sep ∷ b' ' ∷ tb) rest) first'.consumes;
        folds = first'.folds ∙ fold-cons op xa second.first second.more ∙ second.folds;
      }

  -- The whole chain, which ends where no separator follows.
  pub separated-Reads :
      (r : Rule) (t : Text) (x : LabelExpr) (rest : Text)
      → ((ps : Pairs) → build_expr (pair r [] ps) ≡ build_chain op ps)
      → Leads t x
      → Ends rest
      → literal sep (skip rest) ≡ none
      → Reads (separated r sep item) t x rest
  unfolding separated build_chain
  separated-Reads r t x rest builds leads ends last =
      let c = leads rest nil rest ends (stop last refl) in
      let (l, el, m) = More-skip sep item (skip c.left) (skip-skip c.left) c.goes_on in
      record {
        tree = pair r [] (cons c.first c.more);
        left = l;
        reads =
            rw c.reads (
              rw
                (repeat-More sep item (suc (length c.left)) m (omega (arith, length-skip c.left))));
        builds = builds (cons c.first c.more) ∙ c.folds;
        leaves = el ∙ c.leaves;
        consumes = omega (arith, More-length sep item m, length-skip c.left, c.consumes);
      }
