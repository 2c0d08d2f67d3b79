-- ===== src/Prelude/Sort.antt =====
-- `sort` with a comparison, stable, as an insertion sort.
use mathlib.Core.Logic.{inl, inr}
use mathlib.Core.Bool.{Bool}
use mathlib.Core.List.{List, [], ◌∷◌}
use code_fleet.Prelude.Tests.{if◌then◌else◌, Bool-cases}
use code_fleet.Prelude.Lists.{All}

module _ {A : Type 0} (before : A → A → Bool) where
  -- An element stands behind those that do not come after it.
  unfoldable pub insert_by : A → List A → List A
  insert_by a [] = a ∷ []
  insert_by a (b ∷ bs) = if before b a then b ∷ insert_by a bs else a ∷ b ∷ bs

  unfoldable pub sort_by : List A → List A
  unfolding insert_by
  sort_by [] = []
  sort_by (a ∷ xs) = insert_by a (sort_by xs)

  pub All-insert_by :
      (P : A → Type 0) (a : A) (xs : List A) → P a → All P xs → All P (insert_by a xs)
  unfolding insert_by
  All-insert_by P a [] p h = (p, tt)
  All-insert_by P a (b ∷ bs) p h = elim (Bool-cases (before b a)) [
    | inl first ↦ rw first (h.0, All-insert_by P a bs p h.1)
    | inr after ↦ rw after (p, h)
  ]

  pub All-sort_by : (P : A → Type 0) (xs : List A) → All P xs → All P (sort_by xs)
  unfolding sort_by
  All-sort_by P [] h = tt
  All-sort_by P (a ∷ xs) h = All-insert_by P a (sort_by xs) h.0 (All-sort_by P xs h.1)

  All-of_insert_by :
      (P : A → Type 0) (a : A) (xs : List A) → All P (insert_by a xs) → P a × All P xs
  unfolding insert_by
  All-of_insert_by P a [] h = (h.0, tt)
  All-of_insert_by P a (b ∷ bs) h = elim (Bool-cases (before b a)) [
    | inl first ↦
        let k : All P (b ∷ insert_by a bs) = rw first at h in
        let (pa, rest) = All-of_insert_by P a bs k.1 in (pa, (k.0, rest))
    | inr after ↦ let k : All P (a ∷ b ∷ bs) = rw after at h in (k.0, k.1)
  ]

  pub All-of_sort_by : (P : A → Type 0) (xs : List A) → All P (sort_by xs) → All P xs
  unfolding sort_by
  All-of_sort_by P [] h = tt
  All-of_sort_by P (a ∷ xs) h =
      let (pa, rest) = All-of_insert_by P a (sort_by xs) h in (pa, All-of_sort_by P xs rest)
