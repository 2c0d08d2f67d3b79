-- ===== src/Workflow/Ready.antt =====
-- Which items of a workflow may run next: `nextReady` and `readyBatch` of
-- src/workflow/definition.mjs.
pub mod Best
pub mod Loop
pub mod Batch
use code_fleet.Prelude.{
  ℕ, zero, suc, ◌+◌, Bool, true, false, ◌&&◌, ◌||◌, Option, none, some, List, [], ◌∷◌, ◌++◌, Text,
  ◌==◌, text_lt, elem, any, all, keep, length, nat_eq, ltb_ℤ, sort_by, if◌then◌else◌,
}
use code_fleet.Workflow.{
  WorkItem, Workflow, parallel_limit, ItemState, considered, States, is_ready, is_succeeded,
  overlap,
}

-- READY, and all of its dependencies SUCCEEDED.
abbrev pub is_eligible : States → WorkItem → Bool
is_eligible states n = is_ready (states n.id) && all (λ d. is_succeeded (states d)) n.dependencies

-- The comparison of the sort puts `a` before `b`: by priority, then by id.
unfoldable pub comes_before : WorkItem → WorkItem → Bool
comes_before a b =
    if ltb_ℤ a.priority b.priority
    then true
    else if ltb_ℤ b.priority a.priority
    then false
    else text_lt a.id b.id

abbrev first : List WorkItem → Option WorkItem
first [] = none
first (a ∷ bs) = some a

unfoldable pub next_ready : Workflow → States → Option WorkItem
unfolding sort_by
next_ready w states = first (sort_by comes_before (keep (is_eligible states) w.items))

abbrev pub consider : Text → States → States
consider id states k = if id == k then considered else states k

-- The loop of `readyBatch`: `resources` are those of the items in `chosen`.
pub batch_from : ℕ → Workflow → States → List WorkItem → List Text → List WorkItem
batch_from zero w remaining chosen resources = chosen
batch_from (suc f) w remaining chosen resources = elim (next_ready w remaining) [
  | none ↦ chosen
  | some item ↦
      let remaining' = consider item.id remaining in
      let skipped = batch_from f w remaining' chosen resources in
      let chosen' = chosen ++ item ∷ [] in
      let more = batch_from f w remaining' chosen' (resources ++ item.resources) in
      if overlap item.resources resources
      then skipped
      else if nat_eq (length chosen') (parallel_limit w)
      then chosen'
      else more
]

-- Each round takes one READY item away, so there is a round for every item and one to find none.
unfoldable pub ready_batch : Workflow → States → List WorkItem
unfolding batch_from
ready_batch w states = batch_from (length w.items + 1) w states [] []
