-- ===== src/Workflow/Attempts.antt =====
-- The attempts of a workflow: src/workflow/persistence.mjs. A coordinator that holds the lease
-- reserves an item, a child run works on it, and the coordinator records how it ended. The tables
-- `runs`, `workflow_attempts` and `workflow_approvals` are explicit state; each function is one
-- transaction, so on an exception the state stays. Hashes are parameters, and so is the guard that
-- an embedding registers for protected workflows.
pub mod Admitted
pub mod Exclusive
pub mod Safe
pub mod Once
mod Tests
use code_fleet.Prelude.{
  ℕ, ◌+◌, Bool, true, false, not, ◌&&◌, ◌||◌, Option, none, some, List, [], ◌∷◌, ◌++◌, map, Text,
  text, ◌==◌, elem, any, all, keep, find?, length, leb, ltb, nat_eq, is_blank, Result, ok, err,
  ◌>>=◌, ◌>>◌, reject_if, if◌then◌else◌,
}
use code_fleet.Alpha.Contract.{Contract}
use code_fleet.Alpha.Store.{Control, is_run, held_by, is_held}
use code_fleet.Workflow.{
  WorkItem, Workflow, is_hybrid, parallel_limit, item_of, States, is_ready, is_succeeded, overlap,
}

pub data Fault : Type 0 where
  unknown_run active_or_terminal protected_workflow fileset_refused approval_required : Fault
  no_runtime guard_refused approval_invalid concurrency lease_changed not_ready : Fault
  contract_differs active_conflict duplicate_key terminal_attempt actor_required : Fault

-- The body of a workflow's run. `source` is the artifact that `sourceRef` names, and
-- `is_protected` tells whether `authorizationMode` is OS_OPERATOR_V1.
pub record Run : Type 0 where
  pub id : Text
  pub contract : Workflow
  pub contract_hash : Text
  pub source : Contract
  pub revision : ℕ
  pub states : States
  pub state : Text
  pub is_protected : Bool
  pub task_id : Option Text
  pub operator_authorization : Option Text

pub record Row : Type 0 where
  pub body : Run
  pub owner : Option Text
  pub lease_until : ℕ
  pub control : Control

pub record Attempt : Type 0 where
  pub run_id : Text
  pub item_id : Text
  pub child_id : Text
  pub revision : ℕ
  pub status : Text

pub record Approval : Type 0 where
  pub run_id : Text
  pub revision : ℕ
  pub digest : Text
  pub actor : Text
  pub expires : ℕ

-- A child run: the fields that tie it to the workflow.
pub record Child : Type 0 where
  pub id : Text
  pub contract : Contract
  pub parent : Text
  pub revision : ℕ
  pub graph_hash : Text
  pub item_id : Text
  pub fence : Text

-- `log` holds the run and the type of each event.
pub record Db : Type 0 where
  pub rows : Text → Option Row
  pub children : List Child
  pub attempts : List Attempt
  pub approvals : List Approval
  pub log : List (Text × Text)

-- What `registerWorkflowGuard` takes: whether each call returns. What the
-- `beforeReserve` of src/hosts/workflow-authorization.mjs consumes and logs is left out.
pub record Guard : Type 0 where
  pub check : Run → Bool
  pub before_reserve : Run → Text → Text → Contract → Bool

abbrev pub started : Text
started = text "STARTED"

abbrev pub final_id : Text
final_id = text "final"

abbrev pub is_started : Attempt → Bool
is_started a = a.status == started

abbrev pub active : Db → List Attempt
active db = keep is_started db.attempts

abbrev pub is_for : Text → Text → Attempt → Bool
is_for run_id item_id a = a.run_id == run_id && a.item_id == item_id

abbrev put_body : Db → Text → Row → Run → Db
put_body db id row body = record db {
  rows = λ k. if id == k then some (record row { body = body }) else db.rows k;
}

abbrev log_event : Text → Text → Db → Db
log_event id type db = record db { log = db.log ++ (id, type) ∷ [] }

-- `store.get(id)`
row_of : Db → Text → Result Fault Row
row_of db id = elim (db.rows id) [ none ↦ err unknown_run | some row ↦ ok row ]

-- `idle`: no worker, no STARTED attempt, and not ended.
idle : Db → Row → Run → Result Fault (Unit {0})
idle db row run =
    reject_if
      (is_held row.owner
        || any (λ a. a.run_id == run.id && is_started a) db.attempts
        || elem (text "COMPLETED" ∷ text "CANCELLED" ∷ []) run.state)
      active_or_terminal

abbrev approves : Text → ℕ → Approval → Bool
approves run_id revision a = a.run_id == run_id && nat_eq a.revision revision

-- `approveWorkflow` at the time `now`. `fileset` is the bootstrap guard's answer for the run's task:
-- none if there is no guard, and otherwise what `authorizeFileset` returns or that it throws.
pub approve_workflow :
    (fileset : Text → Option (Option Text)) (actor workflow_hash : Text) (expires now : ℕ)
    (run_id : Text)
    → Db
    → Result Fault Db
unfolding row_of idle
approve_workflow fileset actor workflow_hash expires now run_id db = do
  row ← row_of db run_id
  let run = row.body
  idle db row run
  reject_if run.is_protected protected_workflow
  run' ← authorize run
  reject_if
      (is_blank actor
        || not (workflow_hash == run.contract_hash)
        || leb expires now
        || ltb (now + 3600000) expires)
      approval_required
  let approved = record db {
    approvals =
        keep (λ a. not (approves run_id run.revision a)) db.approvals
        ++ record {
          run_id = run_id;
          revision = run.revision;
          digest = workflow_hash;
          actor = actor;
          expires = expires;
        }
          ∷ [];
  }
  ok (
      log_event run_id (text "WORKFLOW_AUTHORIZED")
        (put_body approved run_id row (record run' { state = text "READY" })))
  where
    authorize : Run → Result Fault Run
    authorize run = elim run.task_id [
      | none ↦ ok run
      | some task ↦ elim (fileset task) [
        | none ↦ ok run
        | some none ↦ err fileset_refused
        | some (some authorization) ↦
            ok (record run { operator_authorization = some authorization })
      ]
    ]

-- `revokeWorkflow`
unfoldable pub revoke_workflow : (actor run_id : Text) → Db → Result Fault Db
revoke_workflow actor run_id db = do
  reject_if (is_blank actor) actor_required
  ok (
      log_event run_id (text "WORKFLOW_APPROVAL_REVOKED")
        (record db { approvals = keep (λ a. not (a.run_id == run_id)) db.approvals }))

-- `workflowGuard` applies to the run.
pub is_guarded : Run → Db → Bool
is_guarded run db =
    run.is_protected || elim (db.rows run.id) [ none ↦ false | some row ↦ row.body.is_protected ]

-- The item may start: it is READY and its dependencies SUCCEEDED; `final` needs all items.
pub may_start : Run → Text → Bool
may_start run item_id =
    if item_id == final_id
    then all (λ n. is_succeeded (run.states n.id)) run.contract.items
    else elim (item_of run.contract.items item_id) [
      | none ↦ false
      | some n ↦
          is_ready (run.states item_id) && all (λ d. is_succeeded (run.states d)) n.dependencies
    ]

-- The contract that the attempt must have.
pub expected : Run → Text → Contract
expected run item_id =
    if item_id == final_id
    then record (run.source) { max_attempts = 1 }
    else elim (item_of run.contract.items item_id) [
      | none ↦ record (run.source) { max_attempts = 1 }
      | some n ↦ record (run.source) { files = n.files; tests = n.tests; max_attempts = 1 }
    ]

-- `node` cannot run beside the item of an active attempt. Reading the files of an item that is not
-- there throws.
pub clashes : Option WorkItem → Option WorkItem → Bool
clashes none other = false
clashes (some n) none = ltb 0 (length n.files) || ltb 0 (length n.resources)
clashes (some n) (some other) = overlap n.files other.files || overlap n.resources other.resources

pub conflicts : Run → Text → Attempt → Bool
conflicts run item_id a =
    not (nat_eq a.revision run.revision)
    || clashes (item_of run.contract.items item_id) (item_of run.contract.items a.item_id)

-- The limit is not reached, all that is active is this run's, and `final` runs alone.
within_limit : Run → Text → Db → Result Fault (Unit {0})
within_limit run item_id db =
    reject_if
      (any (λ a. not (a.run_id == run.id) || a.item_id == final_id) (active db)
        || leb (parallel_limit run.contract) (length (active db))
        || item_id == final_id && not (nat_eq (length (active db)) 0))
      concurrency

-- The caller still holds the run, at the revision that it has read.
holds_run : ℕ → Run → Text → Row → Result Fault (Unit {0})
holds_run now run owner row =
    reject_if
      (not (held_by row.owner owner)
        || leb row.lease_until now
        || not (is_run row.control)
        || not (nat_eq row.body.revision run.revision))
      lease_changed

-- Both primary keys: the id of the new child run, and the run and item of the attempt.
keys_free : Run → Text → Text → Db → Result Fault (Unit {0})
keys_free run item_id child_id db = do
  reject_if
      (elim (db.rows child_id) [ none ↦ false | some row ↦ true ]
        || any (λ c. c.id == child_id) db.children)
      duplicate_key
  reject_if (any (λ a. is_for run.id item_id a || a.child_id == child_id) db.attempts) duplicate_key

insert_attempt : Run → (owner item_id child_id : Text) → Contract → Db → Db
insert_attempt run owner item_id child_id contract db = log_event run.id (text "ATTEMPT_RESERVED") (
    log_event child_id (text "CREATED") (record db {
      children =
          db.children
          ++ record {
            id = child_id;
            contract = contract;
            parent = run.id;
            revision = run.revision;
            graph_hash = run.contract_hash;
            item_id = item_id;
            fence = owner;
          }
            ∷ [];
      attempts =
          db.attempts
          ++ record {
            run_id = run.id;
            item_id = item_id;
            child_id = child_id;
            revision = run.revision;
            status = started;
          }
            ∷ [];
    }))

module _ (hash_contract : Contract → Text) (hash_policy : Bool → Text) (guard : Option Guard) where
  -- `approval(store, run)` at the time `now`
  approval : ℕ → Run → Db → Result Fault (Unit {0})
  approval now run db =
      if is_guarded run db
      then elim guard [
        | none ↦ err no_runtime
        | some g ↦ reject_if (not (g.check run)) guard_refused
      ]
      else elim (find? (approves run.id run.revision) db.approvals) [
        | none ↦ err approval_invalid
        | some a ↦
            reject_if
              (not (a.digest == run.contract_hash)
                || leb a.expires now
                || not (run.contract.policy_snapshot_ref == hash_policy (is_hybrid run.contract)))
              approval_invalid
      ]

  pub guard_reserve : Run → Text → Text → Contract → Db → Result Fault (Unit {0})
  unfolding is_guarded
  guard_reserve run owner item_id contract db =
      if is_guarded run db
      then elim guard [
        | none ↦ err no_runtime
        | some g ↦ reject_if (not (g.before_reserve run owner item_id contract)) guard_refused
      ]
      else ok tt

  -- The checks of `reserve`; `t₁ t₂` are its readings of the clock.
  admit : (t₁ t₂ : ℕ) → Run → (owner item_id : Text) → Contract → Db → Result Fault (Unit {0})
  unfolding approval row_of within_limit holds_run may_start expected conflicts guard_reserve
  admit t₁ t₂ run owner item_id contract db = do
    approval t₁ run db
    within_limit run item_id db
    row ← row_of db run.id
    holds_run t₂ run owner row
    reject_if (not (may_start run item_id)) not_ready
    reject_if (not (hash_contract (expected run item_id) == hash_contract contract))
        contract_differs
    reject_if (any (conflicts run item_id) (active db)) active_conflict
    guard_reserve run owner item_id contract db

  -- `reserve(store, run, owner, itemId, contract)`; `child_id` is the fresh id of the child run.
  pub reserve :
      (t₁ t₂ : ℕ) → Run → (owner item_id child_id : Text) → Contract → Db → Result Fault Db
  unfolding admit keys_free insert_attempt
  reserve t₁ t₂ run owner item_id child_id contract db = do
    admit t₁ t₂ run owner item_id contract db
    keys_free run item_id child_id db
    ok (insert_attempt run owner item_id child_id contract db)

-- `UPDATE workflow_attempts SET status=? WHERE runId=? AND itemId=? AND status='STARTED'`
unfoldable pub close : Text → Text → Text → Attempt → Attempt
close status run_id item_id a =
    if is_for run_id item_id a && is_started a then record a { status = status } else a

-- `finish(store, run, owner, attempt, status)` at the time `now`
pub finish : (now : ℕ) → Run → (owner item_id status : Text) → Db → Result Fault Db
unfolding row_of close
finish now run owner item_id status db = do
  row ← row_of db run.id
  reject_if
      (not (held_by row.owner owner)
        || leb row.lease_until now
        || not (nat_eq row.body.revision run.revision))
      lease_changed
  reject_if
      (not (nat_eq (length (keep (λ a. is_for run.id item_id a && is_started a) db.attempts)) 1))
      terminal_attempt
  ok (
      log_event run.id (text "ATTEMPT_RECONCILED") (
        put_body (record db { attempts = map (close status run.id item_id) db.attempts }) run.id row
          run))
