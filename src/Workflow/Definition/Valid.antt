-- ===== src/Workflow/Definition/Valid.antt =====
-- What the validation of a workflow guarantees.
use mathlib.Core.List.{append_assoc}
use code_fleet.Prelude.{
  ◌≤◌, ◌≡◌, refl, sym, ap, fun_ext, ◌∙◌, inl, inr, Bool, true, false, ◌||◌, some, List, [], ◌∷◌,
  ◌++◌, Text, ==_refl, elem, elem-append, any, all, length, Result, ok, err, Result-cases,
  >>=-eq-ok, All, Chain, text_lt, sort_by, All-of_sort_by, arith,
}
use code_fleet.Alpha.Contract.{Contract, validate_contract}
use code_fleet.Workflow.{
  WorkItem, Workflow, is_hybrid, parallel_limit, item_of, ids, files_of, overlap,
}
use code_fleet.Workflow.Order.{Walk, Fault as WalkFault}
use code_fleet.Workflow.Order.Sorted.{IsOrdered, walk-IsOrdered}
use code_fleet.Workflow.Definition.{
  own_files, check_item, check_items, check_header, dependencies_of, walk_items, validate_workflow,
  lift_contract, lift_walk,
}

-- The files of an item are delegated and belong to no item before it; its id is new.
pub record Entry (c : Contract) (before : List WorkItem) (n : WorkItem) : Type 0 where
  pub delegated : all (elem c.files) n.files ≡ true
  pub owned_once : overlap n.files (files_of before) ≡ false
  pub distinct : elem (ids before) n.id ≡ false
  pub tests_within : all (elem c.tests) n.tests ≡ true

overlap-cons :
    (fs owned : List Text) (g : Text) → overlap fs (g ∷ owned) ≡ false → overlap fs owned ≡ false
unfolding elem
overlap-cons [] owned g h = refl
overlap-cons (f ∷ fs) owned g h = ground (arith, overlap-cons fs owned g)

own_files_lem :
    (c : Contract) (owned fs owned' : List Text)
    → own_files c owned fs ≡ ok owned'
    → (all (elem c.files) fs ≡ true)
      × (overlap fs owned ≡ false)
      × ((f : Text) → elem owned' f ≡ (elem owned f || elem fs f))
unfolding own_files elem
own_files_lem c owned [] owned' h = (refl, refl, λ f. ground arith)
own_files_lem c owned (g ∷ fs) owned' h =
    let (inside, apart, same) = own_files_lem c (g ∷ owned) fs owned' (ground arith) in
    (ground arith, ground (arith, overlap-cons fs owned g), λ f. ground (arith, same f))

record Passed (c : Contract) (seen owned owned' : List Text) (n : WorkItem) : Type 0 where
  owns : own_files c owned n.files ≡ ok owned'
  new_id : elem seen n.id ≡ false
  tests_within : all (elem c.tests) n.tests ≡ true

check_item-Passed :
    (c : Contract) (hybrid : Bool) (seen owned owned' : List Text) (n : WorkItem)
    → check_item c hybrid seen owned n ≡ ok owned'
    → Passed c seen owned owned' n
unfolding check_item
check_item-Passed c hybrid seen owned owned' n h = elim (Result-cases (own_files c owned n.files)) [
  | inr (e, refused) ↦ absurd (ground arith)
  | inl (after, owns) ↦ record {
    owns = owns ∙ ground arith;
    new_id = ground arith;
    tests_within = ground arith;
  }
]

ids-snoc :
    (ns : List WorkItem) (n : WorkItem) (k : Text)
    → elem (ids (ns ++ n ∷ [])) k ≡ elem (n.id ∷ ids ns) k
unfolding elem
ids-snoc [] n k = refl
ids-snoc (m ∷ ns) n k = ground (arith, ids-snoc ns n k)

files_of-snoc :
    (ns : List WorkItem) (n : WorkItem) (f : Text)
    → elem (files_of (ns ++ n ∷ [])) f ≡ (elem (files_of ns) f || elem n.files f)
unfolding elem
files_of-snoc [] n f = ground (arith, elem-append n.files [] f)
files_of-snoc (m ∷ ns) n f = ground (
  arith,
  elem-append m.files (files_of ns) f,
  elem-append m.files (files_of (ns ++ n ∷ [])) f,
  files_of-snoc ns n f,
)

-- `seen` and `owned` are the ids and the files of the items before.
check_items-Chain :
    (c : Contract) (hybrid : Bool) (before ns : List WorkItem) (seen owned : List Text)
    → ((k : Text) → elem seen k ≡ elem (ids before) k)
    → ((f : Text) → elem owned f ≡ elem (files_of before) f)
    → check_items c hybrid seen owned ns ≡ ok tt
    → Chain (Entry c) before ns
unfolding check_items elem
check_items-Chain c hybrid before [] seen owned s o h = tt
check_items-Chain c hybrid before (n ∷ ns) seen owned s o h =
    let (owned', first, later) =
      >>=-eq-ok (check_item c hybrid seen owned n)
        (λ owned'. check_items c hybrid (n.id ∷ seen) owned' ns) h in
    let p = check_item-Passed c hybrid seen owned owned' n first in
    let (inside, apart, more) = own_files_lem c owned n.files owned' p.owns in
    (
      record {
        delegated = inside;
        owned_once = sym (ap (λ q. any q n.files) (fun_ext o)) ∙ apart;
        distinct = sym (s n.id) ∙ p.new_id;
        tests_within = p.tests_within;
      },
      check_items-Chain c hybrid (before ++ n ∷ []) ns (n.id ∷ seen) owned'
          (λ k. ground (arith, ids-snoc before n k, s k))
          (λ f. ground (arith, files_of-snoc before n f, o f, more f)) later,
    )

item_of-append :
    (before ns : List WorkItem) (n : WorkItem)
    → elem (ids before) n.id ≡ false
    → item_of (before ++ n ∷ ns) n.id ≡ some n
unfolding item_of elem
item_of-append [] ns n h = ground (arith, ==_refl n.id)
item_of-append (m ∷ before) ns n h = ground (arith, item_of-append before ns n)

All-own :
    (c : Contract) (before ns : List WorkItem)
    → Chain (Entry c) before ns
    → All (λ n. item_of (before ++ ns) n.id ≡ some n) ns
All-own c before [] h = tt
All-own c before (n ∷ ns) h = (
  item_of-append before ns n h.0.distinct,
  rw (append_assoc before (n ∷ []) ns) at (All-own c (before ++ n ∷ []) ns h.1),
)

-- The ids of the items are distinct, their files are delegated and owned once, their tests are the
-- contract's, their dependencies have an order, and the limit of parallel items is from 1 to 3.
pub record IsValid (c : Contract) (w : Workflow) : Type 0 where
  pub own : All (λ n. item_of w.items n.id ≡ some n) w.items
  pub entries : Chain (Entry c) [] w.items
  pub order : List Text
  pub ordered : IsOrdered (dependencies_of w.items) order
  pub complete : All (λ k. elem order k ≡ true) (ids w.items)
  pub some_room : 1 ≤ parallel_limit w
  pub limited : parallel_limit w ≤ 3
  pub some_item : 1 ≤ length w.items
  pub within_attempts : length w.items ≤ c.max_attempts

module _ (hash_body : Workflow → Text) (hash_contract : Contract → Text)
    (hash_policy : Bool → Text) where
  record Steps (w : Workflow) (c : Contract) : Type 0 where
    source_ok : lift_contract (validate_contract c) ≡ ok tt
    header : check_header hash_body hash_contract hash_policy w c ≡ ok tt
    items : check_items c (is_hybrid w) [] [] w.items ≡ ok tt
    walked : lift_walk (walk_items w.items) ≡ ok tt

  validate_workflow-Steps :
      (w w' : Workflow) (c : Contract)
      → validate_workflow hash_body hash_contract hash_policy w c ≡ ok w'
      → Steps w c × (w' ≡ w)
  unfolding validate_workflow
  validate_workflow-Steps w w' c h =
      let (_, a, h₁) = >>=-eq-ok (lift_contract (validate_contract c)) _ h in
      let (_, b, h₂) = >>=-eq-ok (check_header hash_body hash_contract hash_policy w c) _ h₁ in
      let (_, d, h₃) = >>=-eq-ok (check_items c (is_hybrid w) [] [] w.items) _ h₂ in
      let (_, e, h₄) = >>=-eq-ok (lift_walk (walk_items w.items)) _ h₃ in
      (record { source_ok = a; header = b; items = d; walked = e }, cc)

  header_facts :
      (w : Workflow) (c : Contract)
      → check_header hash_body hash_contract hash_policy w c ≡ ok tt
      → (1 ≤ parallel_limit w)
        × (parallel_limit w ≤ 3)
        × (1 ≤ length w.items)
        × (length w.items ≤ c.max_attempts)
  unfolding check_header parallel_limit
  header_facts w c h = (ground arith, ground arith, ground arith, ground arith)

  lift_walk-ok : (r : Result WalkFault Walk) → lift_walk r ≡ ok tt → (v : Walk) × (r ≡ ok v)
  unfolding lift_walk
  lift_walk-ok (ok v) h = (v, refl)
  lift_walk-ok (err e) h = cc

  -- Validation returns the workflow as it was given, and only if the workflow is valid.
  pub validate_workflow-IsValid :
      (w w' : Workflow) (c : Contract)
      → validate_workflow hash_body hash_contract hash_policy w c ≡ ok w'
      → IsValid c w × (w' ≡ w)
  unfolding walk_items
  validate_workflow-IsValid w w' c h =
      let (s, same) = validate_workflow-Steps w w' c h in
      let (room, limited, some_item, few) = header_facts w c s.header in
      let entries =
        check_items-Chain c (is_hybrid w) [] w.items [] [] (λ k. refl) (λ f. refl) s.items in
      let (v, walked) = lift_walk-ok (walk_items w.items) s.walked in
      let (ordered, all_listed) =
        walk-IsOrdered (dependencies_of w.items) (sort_by text_lt (ids w.items)) v walked in
      (
        record {
          own = All-own c [] w.items entries;
          entries = entries;
          order = v.ordered;
          ordered = ordered;
          complete = All-of_sort_by text_lt (λ k. elem v.ordered k ≡ true) (ids w.items) all_listed;
          some_room = room;
          limited = limited;
          some_item = some_item;
          within_attempts = few;
        },
        same,
      )
