-- ===== src/Workflow/Definition/Tests.antt =====
-- A workflow of three items, and the theorems of the workflow's validation and choice on it.
use code_fleet.Prelude.{
  ℕ, ◌<◌, ◌≡◌, ◌≢◌, refl, true, false, Bool, none, some, List, [], ◌∷◌, Text, text, ◌==◌, elem,
  sort_by, without, text_lt, All, trim, starts_with, ends_with, split, lower, contains, ok, err,
  pos, arith, insert_by, if◌then◌else◌,
}
use code_fleet.Alpha.Paths.{file_path, editable_file, test_file}
use code_fleet.Alpha.Contract.{Contract, local, validate_contract}
use code_fleet.Workflow.{WorkItem, Workflow, ready, succeeded, States, item_of, ids, parallel_limit}
use code_fleet.Workflow.Order.{
  Walk, walk, visit, visit_each, exhausted, cyclic_dag, missing_dependency,
}
use code_fleet.Workflow.Order.Sorted.{IsOrdered, walk-IsOrdered}
use code_fleet.Workflow.Definition.{
  valid_id, check_criteria, check_hybrid, has_duplicates, is_local, is_single, role_ids, valid_base,
  valid_resource, dependencies_of, walk_items, validate_workflow, check_header, check_items,
  check_item, own_files, lift_contract, lift_walk, final_criterion, needed_capabilities,
}
use code_fleet.Workflow.Definition.Graph.{walk_items-ne-exhausted, walk_items-ok, Falls}
use code_fleet.Workflow.Definition.Valid.{IsValid, validate_workflow-IsValid}
use code_fleet.Workflow.Ready.{next_ready, ready_batch, is_eligible, comes_before}
use code_fleet.Workflow.Ready.Best.{Listed, next_ready_lem}
use code_fleet.Workflow.Ready.Batch.{IsBatch, ready_batch-IsBatch}

abbrev item : Text → Text → List Text → List Text → WorkItem
item k file deps locks = record {
  id = k;
  dependencies = deps;
  priority = pos 1;
  files = file ∷ [];
  tests = text "tests/a.test.mjs" ∷ [];
  acceptance_criteria = text "passes" ∷ [];
  roles = some (record {
    planner = text "p";
    architect = text "a";
    executor = text "e";
    reviewer = text "r";
  });
  resources = locks;
}

abbrev parse : WorkItem
parse = item (text "parse") (text "src/a.mjs") [] (text "cpu" ∷ [])

abbrev print : WorkItem
print = item (text "print") (text "src/b.mjs") (text "parse" ∷ []) []

abbrev check : WorkItem
check = item (text "check") (text "src/c.mjs") [] (text "cpu" ∷ [])

abbrev source : Contract
source = record {
  schema_version = 1;
  goal = text "Repair the sum";
  files = text "src/a.mjs" ∷ text "src/b.mjs" ∷ text "src/c.mjs" ∷ [];
  context = text "src/a.mjs" ∷ text "src/b.mjs" ∷ text "src/c.mjs" ∷ [];
  tests = text "tests/a.test.mjs" ∷ [];
  max_attempts = 3;
  timeout_seconds = 60;
  budget_micros = 500000;
  delivery = local;
  verification = none;
}

abbrev plan : Workflow
plan = record {
  schema_version = 2;
  workflow_id = text "plan";
  workflow_version = 1;
  source_contract_ref = text "source";
  base = text "0123456789012345678901234567890123456789";
  items = parse ∷ print ∷ check ∷ [];
  required_capabilities = needed_capabilities;
  acceptance_criteria = final_criterion ∷ [];
  required_verification = true;
  policy_snapshot_ref = text "policy";
  max_parallel = 2;
  workflow_hash = text "hash";
}

abbrev hash_body : Workflow → Text
hash_body w = text "hash"

abbrev hash_contract : Contract → Text
hash_contract c = text "source"

abbrev hash_policy : Bool → Text
hash_policy hybrid = text "policy"

plan-valid : validate_workflow hash_body hash_contract hash_policy plan source ≡ ok plan
unfolding validate_workflow check_header check_items check_item own_files lift_contract lift_walk
    ◌==◌ elem validate_contract trim file_path starts_with split ends_with lower editable_file
    contains test_file valid_id walk_items walk visit_each text_lt dependencies_of item_of insert_by
    sort_by without check_criteria check_hybrid has_duplicates is_local is_single role_ids
    valid_base valid_resource visit
plan-valid = refl

walk-cycle :
    walk_items (item (text "a") [] (text "b" ∷ []) [] ∷ item (text "b") [] (text "a" ∷ []) [] ∷ [])
    ≡ err cyclic_dag
unfolding walk_items walk visit_each visit text_lt dependencies_of item_of insert_by sort_by without
    ◌==◌ elem
walk-cycle = refl

walk-missing : walk_items (item (text "a") [] (text "b" ∷ []) [] ∷ []) ≡ err missing_dependency
unfolding walk_items walk visit_each visit text_lt dependencies_of item_of insert_by sort_by without
    ◌==◌ elem
walk-missing = refl

-- `parse` has succeeded, the others are ready.
abbrev states : States
states k = if k == text "parse" then succeeded else ready

-- All are ready.
abbrev at_start : States
at_start k = ready

ready_batch-start : ready_batch plan at_start ≡ check ∷ []
unfolding ready_batch next_ready comes_before text_lt insert_by sort_by ◌==◌ elem parallel_limit
ready_batch-start = refl

ready_batch-later : ready_batch plan states ≡ check ∷ print ∷ []
unfolding ready_batch next_ready comes_before text_lt insert_by sort_by ◌==◌ elem parallel_limit
ready_batch-later = refl

plan_own : All (λ n. item_of plan.items n.id ≡ some n) plan.items
unfolding item_of ◌==◌
plan_own = (refl, (refl, (refl, tt)))

plan_room : 0 < parallel_limit plan
unfolding parallel_limit
plan_room = omega arith

validate_workflow-IsValid_example : IsValid source plan × (plan ≡ plan)
validate_workflow-IsValid_example =
    validate_workflow-IsValid hash_body hash_contract hash_policy plan plan source plan-valid

ready_batch-IsBatch_example : IsBatch plan at_start (ready_batch plan at_start)
ready_batch-IsBatch_example = ready_batch-IsBatch plan at_start plan_own (λ k e. cc) plan_room

next_ready_lem_example :
    ((m : WorkItem)
      → next_ready plan at_start ≡ some m
      → Listed plan.items m
        × (is_eligible at_start m ≡ true)
        × All (λ n. is_eligible at_start n ≡ true → comes_before n m ≡ false) plan.items)
    × (next_ready plan at_start ≡ none → All (λ n. is_eligible at_start n ≡ false) plan.items)
next_ready_lem_example = next_ready_lem plan at_start

walk_items-ne-exhausted_example : walk_items plan.items ≢ err exhausted
walk_items-ne-exhausted_example = walk_items-ne-exhausted plan.items

-- `print` stands on `parse`.
abbrev rank : Text → ℕ
rank k = if k == text "print" then 1 else 0

plan-Falls : All (Falls rank plan.items) plan.items
unfolding dependencies_of item_of ◌==◌
plan-Falls = (tt, (((([], refl), omega arith), tt), (tt, tt)))

walk_items-ok_example : (v : Walk) × (walk_items plan.items ≡ ok v)
walk_items-ok_example = walk_items-ok rank plan.items plan-Falls

abbrev walked : Walk
walked = record {
  ordered = text "parse" ∷ text "print" ∷ text "check" ∷ [];
  visited = text "check" ∷ text "print" ∷ text "parse" ∷ [];
  visiting = [];
}

plan-walked : walk (dependencies_of plan.items) (ids plan.items) ≡ ok walked
unfolding walk visit_each visit dependencies_of item_of without ◌==◌ elem
plan-walked = refl

walk-IsOrdered_example :
    IsOrdered (dependencies_of plan.items) walked.ordered
    × All (λ k. elem walked.ordered k ≡ true) (ids plan.items)
walk-IsOrdered_example =
    walk-IsOrdered (dependencies_of plan.items) (ids plan.items) walked plan-walked
