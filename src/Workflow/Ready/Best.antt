-- ===== src/Workflow/Ready/Best.antt =====
-- `nextReady` answers with the first eligible item by priority and id, and with none only if no item
-- is eligible.
use mathlib.Core.Bool.{false≢true}
use code_fleet.Prelude.{
  ◌≡◌, ◌⊎◌, refl, sym, subst, ◌∙◌, inl, inr, Bool, true, false, none, some, List, [], ◌∷◌, Text,
  text_lt, keep, All, All-keep, All-map, All-of_keep, insert_by, sort_by, All-insert_by,
  All-sort_by, All-of_sort_by, Bool-cases, arith,
}
use code_fleet.Workflow.{WorkItem, Workflow, States}
use code_fleet.Workflow.Ready.{is_eligible, comes_before, first, next_ready}

All-first :
    (P : WorkItem → Type 0) (xs : List WorkItem) (n : WorkItem) → All P xs → first xs ≡ some n → P n
All-first P [] n h e = cc
All-first P (x ∷ xs) n h e = let same : x ≡ n = cc in rw same at h.0

-- The item is one of the workflow's, and it is eligible.
pub next_ready-All :
    (P : WorkItem → Type 0) (w : Workflow) (states : States) (n : WorkItem)
    → All P w.items
    → next_ready w states ≡ some n
    → P n × (is_eligible states n ≡ true)
unfolding next_ready
next_ready-All P w states n h e =
    All-first (λ x. P x × (is_eligible states x ≡ true))
      (sort_by comes_before (keep (is_eligible states) w.items)) n
      (All-sort_by comes_before _ (keep (is_eligible states) w.items)
        (All-keep P (is_eligible states) w.items h))
      e

-- Text order is cotransitive.
text_lt_cotrans : (a b c : Text) → text_lt a c ≡ true → (text_lt a b ≡ true) ⊎ (text_lt b c ≡ true)
unfolding text_lt
text_lt_cotrans [] [] c h = inr h
text_lt_cotrans [] (y ∷ b) c h = inl refl
text_lt_cotrans (x ∷ a) b [] h = cc
text_lt_cotrans (x ∷ a) [] (z ∷ c) h = inr refl
text_lt_cotrans (x ∷ a) (y ∷ b) (z ∷ c) h = ground (arith, text_lt_cotrans a b c)

text_lt_asym : (a b : Text) → text_lt a b ≡ true → text_lt b a ≡ false
unfolding text_lt
text_lt_asym [] [] h = cc
text_lt_asym [] (y ∷ b) h = refl
text_lt_asym (x ∷ a) [] h = cc
text_lt_asym (x ∷ a) (y ∷ b) h = ground (arith, text_lt_asym a b)

comes_before_cotrans :
    (a b c : WorkItem)
    → comes_before a c ≡ true
    → (comes_before a b ≡ true) ⊎ (comes_before b c ≡ true)
unfolding comes_before
comes_before_cotrans a b c h = ground (arith, text_lt_cotrans a.id b.id c.id)

comes_before_asym : (a b : WorkItem) → comes_before a b ≡ true → comes_before b a ≡ false
unfolding comes_before
comes_before_asym a b h = ground (arith, text_lt_asym a.id b.id)

-- No other element comes before the first.
abbrev LeastFirst : List WorkItem → Type 0
LeastFirst [] = Unit
LeastFirst (m ∷ xs) = All (λ x. comes_before x m ≡ false) xs

still_after :
    (x m a : WorkItem)
    → comes_before m a ≡ false
    → comes_before x m ≡ false
    → comes_before x a ≡ false
still_after x m a h k = elim (Bool-cases (comes_before x a)) [
  | inl before ↦ elim (comes_before_cotrans x m a before) [ inl p ↦ cc | inr p ↦ cc ]
  | inr after ↦ after
]

LeastFirst-insert :
    (a : WorkItem) (xs : List WorkItem) → LeastFirst xs → LeastFirst (insert_by comes_before a xs)
unfolding insert_by
LeastFirst-insert a [] h = tt
LeastFirst-insert a (b ∷ bs) h = elim (Bool-cases (comes_before b a)) [
  | inl before ↦ rw before (
      All-insert_by comes_before (λ x. comes_before x b ≡ false) a bs (comes_before_asym b a before)
        h)
  | inr after ↦ rw after (after, All-map (λ x k. still_after x b a after k) bs h)
]

LeastFirst-sort : (xs : List WorkItem) → LeastFirst (sort_by comes_before xs)
unfolding sort_by
LeastFirst-sort [] = tt
LeastFirst-sort (a ∷ xs) = LeastFirst-insert a (sort_by comes_before xs) (LeastFirst-sort xs)

first_least :
    (xs : List WorkItem) (m : WorkItem)
    → LeastFirst xs
    → first xs ≡ some m
    → All (λ x. comes_before x m ≡ false) xs
first_least [] m h e = cc
first_least (x ∷ xs) m h e =
    let same : x ≡ m = cc in
    subst (λ y. All (λ z. comes_before z y ≡ false) (x ∷ xs)) same
      (elim (Bool-cases (comes_before x x)) [
        | inl before ↦ absurd (false≢true (sym (comes_before_asym x x before) ∙ before))
        | inr after ↦ (after, h)
      ])

none-first : (P : WorkItem → Type 0) (xs : List WorkItem) → first xs ≡ none → All P xs
none-first P [] e = tt
none-first P (x ∷ xs) e = cc

ne_true : (b : Bool) → (b ≡ true → ⊥) → b ≡ false
ne_true true h = absurd (h refl)
ne_true false h = refl

-- The item stands in the list.
abbrev pub Listed : List WorkItem → WorkItem → Type 0
Listed [] m = ⊥
Listed (x ∷ xs) m = (m ≡ x) ⊎ Listed xs m

All-Listed : (xs : List WorkItem) → All (Listed xs) xs
All-Listed [] = tt
All-Listed (x ∷ xs) = (inl refl, All-map (λ n k. inr k) xs (All-Listed xs))

-- The next item is one of the workflow's and eligible, and no eligible item of the workflow comes
-- before it by priority and id; no item is next only if none is eligible.
pub next_ready_lem :
    (w : Workflow) (states : States)
    → ((m : WorkItem)
        → next_ready w states ≡ some m
        → Listed w.items m
          × (is_eligible states m ≡ true)
          × All (λ n. is_eligible states n ≡ true → comes_before n m ≡ false) w.items)
      × (next_ready w states ≡ none → All (λ n. is_eligible states n ≡ false) w.items)
unfolding next_ready
next_ready_lem w states =
    let eligible = keep (is_eligible states) w.items in
    (
      λ m e. (
        (next_ready-All (Listed w.items) w states m (All-Listed w.items) e).0,
        (next_ready-All (Listed w.items) w states m (All-Listed w.items) e).1,
        All-of_keep (λ n. comes_before n m ≡ false) (is_eligible states) w.items
            (All-of_sort_by comes_before _ eligible
              (first_least (sort_by comes_before eligible) m (LeastFirst-sort eligible) e)),
      ),
      λ e.
          All-map (λ n h. ne_true (is_eligible states n) h) w.items
            (All-of_keep (λ n. ⊥) (is_eligible states) w.items
              (All-of_sort_by comes_before _ eligible
                (none-first (λ n. ⊥) (sort_by comes_before eligible) e))),
    )
