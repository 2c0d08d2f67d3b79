-- ===== src/Workflow/Definition/Graph.antt =====
-- The dependency graph of a workflow: when the walk over its items succeeds.
use code_fleet.Prelude.{
  ℕ, ◌<◌, ◌≡◌, ◌≢◌, subst, inl, inr, true, some, List, [], ◌∷◌, Text, ◌==◌, ==_iff, text_lt, elem,
  elem-cons_self, elem-cons_of, ok, err, All, All-map, All-sort_by, All-of_sort_by, sort_by,
  Bool-cases, Option-cases, arith,
}
use code_fleet.Workflow.{WorkItem, item_of, ids}
use code_fleet.Workflow.Order.{Walk, exhausted}
use code_fleet.Workflow.Order.Total.{walk-ne-exhausted, walk-ok}
use code_fleet.Workflow.Definition.{dependencies_of, walk_items}

All-elem : (xs : List Text) → All (λ k. elem xs k ≡ true) xs
All-elem [] = tt
All-elem (x ∷ xs) = (elem-cons_self x xs, All-map (λ k h. elem-cons_of k x xs h) xs (All-elem xs))

item_of_lem :
    (P : WorkItem → Type 0) (items : List WorkItem) (k : Text) (n : WorkItem)
    → All P items
    → item_of items k ≡ some n
    → P n × (n.id ≡ k)
unfolding item_of
item_of_lem P [] k n h e = cc
item_of_lem P (m ∷ items) k n h e = elim (Bool-cases (m.id == k)) [
  | inl same ↦ let one : m ≡ n = ground arith in (rw one at h.0, rw one at ((==_iff m.id k).0 same))
  | inr other ↦ item_of_lem P items k n h.1 (ground arith)
]

-- The keys of the walk are the ids.
sorted_ids :
    (items : List WorkItem) → All (λ n. elem (sort_by text_lt (ids items)) n.id ≡ true) items
sorted_ids items =
    go items (All-of_sort_by text_lt _ (ids items) (All-elem (sort_by text_lt (ids items))))
  where
    go :
        (ns : List WorkItem)
        → All (λ k. elem (sort_by text_lt (ids items)) k ≡ true) (ids ns)
        → All (λ n. elem (sort_by text_lt (ids items)) n.id ≡ true) ns
    go [] h = tt
    go (n ∷ ns) h = (h.0, go ns h.1)

found_item :
    (items : List WorkItem) (k : Text) (deps : List Text)
    → dependencies_of items k ≡ some deps
    → (n : WorkItem) × (item_of items k ≡ some n) × (n.dependencies ≡ deps)
unfolding dependencies_of
found_item items k deps h = elim (Option-cases (item_of items k)) [
  | inl missing ↦ absurd (ground arith)
  | inr (n, found) ↦ (n, found, ground arith)
]

named :
    (items : List WorkItem) (k : Text) (deps : List Text)
    → dependencies_of items k ≡ some deps
    → elem (sort_by text_lt (ids items)) k ≡ true
named items k deps h =
    let (n, found, _) = found_item items k deps h in
    let (listed, same) = item_of_lem _ items k n (sorted_ids items) found in rw same at listed

-- The walk over the items of a workflow answers, or it names a missing dependency or a cycle.
pub walk_items-ne-exhausted : (items : List WorkItem) → walk_items items ≢ err exhausted
unfolding walk_items
walk_items-ne-exhausted items =
    walk-ne-exhausted (dependencies_of items) (sort_by text_lt (ids items)) (named items)

abbrev pub IsItem : List WorkItem → Text → Type 0
IsItem items k = (deps : List Text) × (dependencies_of items k ≡ some deps)

-- Every dependency is an item, and the rank falls along it.
abbrev pub Falls : (Text → ℕ) → List WorkItem → WorkItem → Type 0
Falls rank items n = All (λ d. IsItem items d × (rank d < rank n.id)) n.dependencies

ranked :
    (rank : Text → ℕ) (items : List WorkItem)
    → All (Falls rank items) items
    → (k : Text) (deps : List Text) → dependencies_of items k ≡ some deps
    → All (λ d. IsItem items d × (rank d < rank k)) deps
ranked rank items falls k deps h =
    let (n, found, own) = found_item items k deps h in
    let (down, same) = item_of_lem (Falls rank items) items k n falls found in
    subst (λ ds. All (λ d. IsItem items d × (rank d < rank k)) ds) own
      (subst (λ j. All (λ d. IsItem items d × (rank d < rank j)) n.dependencies) same down)

IsItem-of_listed : (items : List WorkItem) (k : Text) → elem (ids items) k ≡ true → IsItem items k
unfolding dependencies_of item_of elem
IsItem-of_listed [] k h = cc
IsItem-of_listed (n ∷ ns) k h = elim (Bool-cases (n.id == k)) [
  | inl same ↦ (n.dependencies, ground arith)
  | inr other ↦ let (deps, found) = IsItem-of_listed ns k (ground arith) in (deps, ground arith)
]

IsItem-self : (items : List WorkItem) → All (IsItem items) (ids items)
IsItem-self items = All-map (IsItem-of_listed items) (ids items) (All-elem (ids items))

-- A workflow whose dependencies are all items and admit a rank is never refused as a graph.
pub walk_items-ok :
    (rank : Text → ℕ) (items : List WorkItem)
    → All (Falls rank items) items
    → (v : Walk) × (walk_items items ≡ ok v)
unfolding walk_items
walk_items-ok rank items falls =
    walk-ok (dependencies_of items) (sort_by text_lt (ids items)) (named items) rank
      (ranked rank items falls) (All-sort_by text_lt (IsItem items) (ids items) (IsItem-self items))
