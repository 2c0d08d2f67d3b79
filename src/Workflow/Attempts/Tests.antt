-- ===== src/Workflow/Attempts/Tests.antt =====
-- A workflow of two items that runs one after the other, and the theorems of its attempts.
use code_fleet.Prelude.{
  ◌≡◌, ◌≢◌, refl, true, false, Bool, none, some, [], ◌∷◌, Text, text, ◌==◌, elem, Result, ok, err,
  pos, if◌then◌else◌,
}
use code_fleet.Alpha.Contract.{Contract, local}
use code_fleet.Alpha.Store.{run}
use code_fleet.Workflow.{WorkItem, Workflow, ready, item_of, parallel_limit}
use code_fleet.Workflow.Attempts.{
  Fault, active_conflict, terminal_attempt, Run, Row, Db, started, reserve, finish, admit, approval,
  within_limit, row_of, holds_run, may_start, expected, conflicts, clashes, guard_reserve,
  is_guarded, keys_free, insert_attempt, close,
}
use code_fleet.Workflow.Attempts.Admitted.{Admitted}
use code_fleet.Workflow.Attempts.Exclusive.{IsExclusive, Reach, here, next, reserves, finishes}
use code_fleet.Workflow.Attempts.Safe.{Reach-IsExclusive}
use code_fleet.Workflow.Attempts.Once.{reserved_once, finished_once}

abbrev item : Text → Text → WorkItem
item k file = record {
  id = k;
  dependencies = [];
  priority = pos 1;
  files = file ∷ [];
  tests = text "t" ∷ [];
  acceptance_criteria = text "c" ∷ [];
  roles = none;
  resources = [];
}

abbrev source : Contract
source = record {
  schema_version = 1;
  goal = text "g";
  files = text "x" ∷ text "y" ∷ [];
  context = text "x" ∷ text "y" ∷ [];
  tests = text "t" ∷ [];
  max_attempts = 3;
  timeout_seconds = 60;
  budget_micros = 1;
  delivery = local;
  verification = none;
}

abbrev graph : Workflow
graph = record {
  schema_version = 2;
  workflow_id = text "w";
  workflow_version = 1;
  source_contract_ref = text "s";
  base = text "b";
  items = item (text "a") (text "x") ∷ item (text "b") (text "y") ∷ [];
  required_capabilities = [];
  acceptance_criteria = [];
  required_verification = true;
  policy_snapshot_ref = text "p";
  max_parallel = 2;
  workflow_hash = text "h";
}

abbrev plan : Run
plan = record {
  id = text "r";
  contract = graph;
  contract_hash = text "h";
  source = source;
  revision = 1;
  states = λ k. ready;
  state = text "READY";
  is_protected = false;
  task_id = none;
  operator_authorization = none;
}

abbrev leased : Row
leased = record { body = plan; owner = some (text "o"); lease_until = 100; control = run }

abbrev db : Db
db = record {
  rows = λ k. if text "r" == k then some leased else none;
  children = [];
  attempts = [];
  approvals =
      record { run_id = text "r"; revision = 1; digest = text "h"; actor = text "m"; expires = 50 }
      ∷ [];
  log = [];
}

-- The first field stands for the contract.
abbrev hash_contract : Contract → Text
hash_contract c = elim c.files [ [] ↦ [] | f ∷ fs ↦ f ]

abbrev hash_policy : Bool → Text
hash_policy hybrid = text "p"

abbrev contract_of : Text → Contract
contract_of file = record source { files = file ∷ []; max_attempts = 1 }

abbrev try : Text → Text → Text → Db → Result Fault Db
try item_id child file at =
    reserve hash_contract hash_policy none 10 10 plan (text "o") item_id child (contract_of file) at

abbrev reserved : Db
reserved = record db {
  children =
      record {
        id = text "1";
        contract = contract_of (text "x");
        parent = text "r";
        revision = 1;
        graph_hash = text "h";
        item_id = text "a";
        fence = text "o";
      }
      ∷ [];
  attempts =
      record {
        run_id = text "r";
        item_id = text "a";
        child_id = text "1";
        revision = 1;
        status = started;
      }
      ∷ [];
  log = (text "1", text "CREATED") ∷ (text "r", text "ATTEMPT_RESERVED") ∷ [];
}

reserve-first : try (text "a") (text "1") (text "x") db ≡ ok reserved
unfolding reserve admit approval within_limit row_of holds_run may_start expected conflicts clashes
    guard_reserve is_guarded keys_free insert_attempt item_of parallel_limit ◌==◌ elem
reserve-first = refl

reserve-again : try (text "a") (text "2") (text "x") reserved ≡ err active_conflict
unfolding reserve admit approval within_limit row_of holds_run may_start expected conflicts clashes
    guard_reserve is_guarded keys_free insert_attempt item_of parallel_limit ◌==◌ elem
reserve-again = refl

abbrev finished : Db
finished = record reserved {
  rows = λ k. if text "r" == k then some leased else if text "r" == k then some leased else none;
  attempts =
      record {
        run_id = text "r";
        item_id = text "a";
        child_id = text "1";
        revision = 1;
        status = text "SUCCEEDED";
      }
      ∷ [];
  log =
      (text "1", text "CREATED")
      ∷ (text "r", text "ATTEMPT_RESERVED")
      ∷ (text "r", text "ATTEMPT_RECONCILED")
      ∷ [];
}

finish-first : finish 20 plan (text "o") (text "a") (text "SUCCEEDED") reserved ≡ ok finished
unfolding finish row_of close ◌==◌
finish-first = refl

finish-again : finish 20 plan (text "o") (text "a") (text "FAILED") finished ≡ err terminal_attempt
unfolding finish row_of close ◌==◌
finish-again = refl

abbrev graphs : Text → Workflow
graphs k = graph

reserved_then_finished : Reach hash_contract hash_policy none graphs db finished
reserved_then_finished =
    next
      (next here (
        reserves 10 10 plan (text "o") (text "a") (text "1") (contract_of (text "x")) refl
          reserve-first))
      (finishes 20 plan (text "o") (text "a") (text "SUCCEEDED") finish-first)

Reach-IsExclusive_example : IsExclusive graphs finished
Reach-IsExclusive_example =
    Reach-IsExclusive hash_contract hash_policy none graphs db finished
      (record { apart = tt; limited = tt }) reserved_then_finished

reserved_once_example : try (text "a") (text "2") (text "x") finished ≢ ok db
reserved_once_example =
    reserved_once hash_contract hash_policy none graphs 10 10 10 10 plan plan (text "o") (text "o")
      (text "a") (text "1") (text "2") (contract_of (text "x")) (contract_of (text "x")) db reserved
      finished db reserve-first
      (next here (finishes 20 plan (text "o") (text "a") (text "SUCCEEDED") finish-first)) refl

is_final : text "SUCCEEDED" == started ≡ false
unfolding ◌==◌
is_final = refl

finished_once_example : finish 30 plan (text "o") (text "a") (text "FAILED") finished ≢ ok db
finished_once_example =
    finished_once hash_contract hash_policy none graphs 20 30 plan plan (text "o") (text "o")
      (text "a") (text "SUCCEEDED") (text "FAILED") reserved finished finished db is_final
      finish-first here refl
