-- ===== src/Prelude/Sorting.antt =====
-- `Vec::sort`, `sort_unstable` and `dedup` on texts, which keep the same set of texts.
use mathlib.Core.Logic.{inl, inr}
use mathlib.Core.List.{List, [], ◌∷◌}
use skuld.Prelude.Tests.{if◌then◌else◌, Bool-cases}
use skuld.Prelude.Lists.{In}
use mathlib.Core.Path.{sym, ◌∙◌}
use skuld.Prelude.Texts.{Text, text_eq, text_eq→eq, text_le}

unfoldable pub insert_sorted : Text → List Text → List Text
insert_sorted x [] = x ∷ []
insert_sorted x (y ∷ ys) =
    let rest = insert_sorted x ys in if text_le x y then x ∷ y ∷ ys else y ∷ rest

unfoldable pub sort : List Text → List Text
unfolding insert_sorted
sort [] = []
sort (x ∷ xs) = insert_sorted x (sort xs)

-- What follows `x`, less the copies of the text before each.
unfoldable pub dedup_after : Text → List Text → List Text
dedup_after x [] = []
dedup_after x (y ∷ ys) =
    let same = dedup_after x ys in
    let next = y ∷ dedup_after y ys in if text_eq x y then same else next

unfoldable pub dedup : List Text → List Text
unfolding dedup_after
dedup [] = []
dedup (x ∷ xs) = x ∷ dedup_after x xs

In-insert_sorted : (t x : Text) (ys : List Text) → In t (x ∷ ys) → In t (insert_sorted x ys)
unfolding insert_sorted
In-insert_sorted t x [] h = h
In-insert_sorted t x (y ∷ ys) h = elim (Bool-cases (text_le x y)) [
  | inl e ↦ rw e h
  | inr e ↦ rw e (deeper (In-insert_sorted t x ys) h)
]
  where
    deeper :
        (In t (x ∷ ys) → In t (insert_sorted x ys))
        → In t (x ∷ y ∷ ys)
        → In t (y ∷ insert_sorted x ys)
    deeper k (inl e) = inr (k (inl e))
    deeper k (inr (inl e)) = inl e
    deeper k (inr (inr m)) = inr (k (inr m))

pub In-sort : (t : Text) (xs : List Text) → In t xs → In t (sort xs)
unfolding sort
In-sort t [] h = h
In-sort t (x ∷ xs) (inl e) = In-insert_sorted t x (sort xs) (inl e)
In-sort t (x ∷ xs) (inr h) = In-insert_sorted t x (sort xs) (inr (In-sort t xs h))

In-dedup_after : (t x : Text) (xs : List Text) → In t xs → In t (x ∷ dedup_after x xs)
unfolding dedup_after
In-dedup_after t x [] h = absurd h
In-dedup_after t x (y ∷ ys) (inl e) = elim (Bool-cases (text_eq x y)) [
  | inl same ↦ inl (e ∙ sym (text_eq→eq x y same))
  | inr differ ↦ inr (rw differ (inl e))
]
In-dedup_after t x (y ∷ ys) (inr m) = elim (Bool-cases (text_eq x y)) [
  | inl same ↦ rw same (In-dedup_after t x ys m)
  | inr differ ↦ inr (rw differ (In-dedup_after t y ys m))
]

-- What `dedup` drops, it has kept once.
pub In-dedup : (t : Text) (xs : List Text) → In t xs → In t (dedup xs)
unfolding dedup
In-dedup t (x ∷ xs) (inl e) = inl e
In-dedup t (x ∷ xs) (inr m) = In-dedup_after t x xs m
In-dedup t [] h = h
