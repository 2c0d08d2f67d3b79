-- ===== src/Workflow/Definition.antt =====
-- The validation of a workflow against its source contract: `validateWorkflow` of
-- src/workflow/definition.mjs. The hashes are sha256 of JSON, from node:crypto: parameters.
pub mod Graph
pub mod Valid
mod Tests
use code_fleet.Prelude.{
  ℕ, zero, suc, ◌+◌, Bool, true, false, not, ◌&&◌, ◌||◌, Option, none, some, List, [], ◌∷◌, ◌++◌,
  map, Text, text, ◌==◌, text_lt, elem, any, all, length, sort_by, ltb, nat_eq, between, is_digit,
  is_alpha, is_word, is_blank, Result, ok, err, ◌>>=◌, ◌>>◌, reject_if, if◌then◌else◌, ℤ, pos_part,
  neg_part,
}
use code_fleet.Alpha.Contract.{Contract, Delivery, local, validate_contract, Fault as ContractFault}
use code_fleet.Workflow.{WorkItem, Workflow, Roles, is_hybrid, item_of, ids}
use code_fleet.Workflow.Order.{Walk, walk, Fault as WalkFault}

pub data Fault : Type 0 where
  bad_contract : ContractFault → Fault
  bad_graph : WalkFault → Fault
  identity_mismatch parallel_limit_range bad_id bad_baseline not_local final_criteria : Fault
  bad_capability item_count bad_roles bad_resources duplicate_id bad_priority : Fault
  no_files_or_tests scope_expansion test_expansion bad_criteria : Fault

-- `/^[a-zA-Z][a-zA-Z0-9_-]{0,63}$/`, and not the reserved `final`
unfoldable pub valid_id : Text → Bool
valid_id [] = false
valid_id (c ∷ s) =
    is_alpha c
    && all (λ d. is_word d || nat_eq d b'-') s
    && ltb (length s) 64
    && not (c ∷ s == text "final")

has_duplicates : List Text → Bool
has_duplicates [] = false
has_duplicates (x ∷ xs) = elem xs x || has_duplicates xs

-- `/^[A-Za-z0-9_./:-]{1,100}$/`
valid_resource : Text → Bool
valid_resource r =
    not (r == [])
    && ltb (length r) 101
    && all (λ c. is_word c || nat_eq c b'.' || nat_eq c b'/' || nat_eq c b':' || nat_eq c b'-') r

role_ids : Roles → List Text
role_ids r = r.planner ∷ r.architect ∷ r.executor ∷ r.reviewer ∷ []

check_hybrid : Bool → WorkItem → Result Fault (Unit {0})
unfolding role_ids has_duplicates valid_resource
check_hybrid false n = ok tt
check_hybrid true n = do
  elim n.roles [
    | none ↦ err bad_roles
    | some r ↦ do
      reject_if (not (all valid_id (role_ids r))) bad_id
      reject_if (has_duplicates (role_ids r)) bad_roles
  ]
  reject_if
      (ltb 20 (length n.resources)
        || not (all valid_resource n.resources)
        || has_duplicates n.resources)
      bad_resources

-- Each file is delegated by the contract and owned by one item: the owned files after this item.
own_files : Contract → List Text → List Text → Result Fault (List Text)
own_files c owned [] = ok owned
own_files c owned (f ∷ fs) = do
  reject_if (not (elem c.files f) || elem owned f) scope_expansion
  own_files c (f ∷ owned) fs

lift_contract : Result ContractFault Contract → Result Fault (Unit {0})
lift_contract (ok c) = ok tt
lift_contract (err e) = err (bad_contract e)

check_criteria : List Text → Result Fault (Unit {0})
check_criteria cs =
    reject_if
      (ltb (length cs) 1 || ltb 20 (length cs) || any (λ c. is_blank c || ltb 4000 (length c)) cs)
      bad_criteria

-- One round of the loop over the items: `seen` are the ids before it, `owned` their files.
check_item : Contract → Bool → (seen owned : List Text) → WorkItem → Result Fault (List Text)
unfolding check_hybrid lift_contract check_criteria has_duplicates
check_item c hybrid seen owned n = do
  reject_if (not (valid_id n.id)) bad_id
  check_hybrid hybrid n
  reject_if (elem seen n.id) duplicate_id
  reject_if (ltb 1000 (pos_part n.priority + neg_part n.priority) || has_duplicates n.dependencies)
      bad_priority
  reject_if (ltb (length n.files) 1 || ltb (length n.tests) 1) no_files_or_tests
  owned' ← own_files c owned n.files
  reject_if (not (all (elem c.tests) n.tests)) test_expansion
  check_criteria n.acceptance_criteria
  lift_contract
      (validate_contract (record c { files = n.files; tests = n.tests; max_attempts = 1 }))
  ok owned'

check_items : Contract → Bool → (seen owned : List Text) → List WorkItem → Result Fault (Unit {0})
check_items c hybrid seen owned [] = ok tt
check_items c hybrid seen owned (n ∷ ns) = do
  owned' ← check_item c hybrid seen owned n
  check_items c hybrid (n.id ∷ seen) owned' ns

-- `nodes.get(key).dependencies`
unfoldable pub dependencies_of : List WorkItem → Text → Option (List Text)
dependencies_of items k = elim (item_of items k) [ none ↦ none | some n ↦ some n.dependencies ]

-- `[...nodes.keys()].sort().forEach(visit)`
unfoldable pub walk_items : List WorkItem → Result WalkFault Walk
unfolding sort_by
walk_items items = walk (dependencies_of items) (sort_by text_lt (ids items))

lift_walk : Result WalkFault Walk → Result Fault (Unit {0})
lift_walk (ok w) = ok tt
lift_walk (err e) = err (bad_graph e)

abbrev pub final_criterion : Text
final_criterion = text "All protected source-contract tests pass on the integrated candidate"

-- `CAPABILITIES` of src/providers/capabilities.mjs
abbrev pub capabilities : List Text
capabilities =
    text "non_interactive_execution"
    ∷ text "structured_output"
    ∷ text "proposal_only"
    ∷ text "session_support"
    ∷ text "streaming_output"
    ∷ text "cancellation"
    ∷ text "usage_reporting"
    ∷ text "approval_integration"
    ∷ text "filesystem_restriction"
    ∷ text "network_restriction"
    ∷ []

abbrev pub needed_capabilities : List Text
needed_capabilities =
    text "non_interactive_execution" ∷ text "structured_output" ∷ text "proposal_only" ∷ []

-- `/^[a-f0-9]{40,64}$/`
valid_base : Text → Bool
valid_base b =
    not (ltb (length b) 40)
    && not (ltb 64 (length b))
    && all (λ c. is_digit c || between b'a' b'f' c) b

is_local : Delivery → Bool
is_local local = true
is_local _ = false

is_single : Text → List Text → Bool
is_single t (c ∷ []) = c == t
is_single t _ = false

module _ (hash_body : Workflow → Text) (hash_contract : Contract → Text)
    (hash_policy : Bool → Text) where
  check_header : Workflow → Contract → Result Fault (Unit {0})
  unfolding valid_base is_local is_single
  check_header w c = do
    reject_if
        (not (nat_eq w.schema_version 1 || nat_eq w.schema_version 2)
          || ltb w.workflow_version 1
          || not (hash_body w == w.workflow_hash)
          || not (w.source_contract_ref == hash_contract c)
          || not (w.policy_snapshot_ref == hash_policy (is_hybrid w)))
        identity_mismatch
    reject_if (is_hybrid w && (ltb w.max_parallel 1 || ltb 3 w.max_parallel)) parallel_limit_range
    reject_if (not (valid_id w.workflow_id)) bad_id
    reject_if (not (valid_base w.base)) bad_baseline
    reject_if (not (is_local c.delivery) || not w.required_verification) not_local
    reject_if (not (is_single final_criterion w.acceptance_criteria)) final_criteria
    reject_if
        (not (all (elem capabilities) w.required_capabilities)
          || not (all (elem w.required_capabilities) needed_capabilities))
        bad_capability
    reject_if (ltb (length w.items) 1 || ltb c.max_attempts (length w.items)) item_count

  -- The workflow is returned as it was given (`structuredClone`).
  pub validate_workflow : Workflow → Contract → Result Fault Workflow
  validate_workflow w source = do
    lift_contract (validate_contract source)
    check_header w source
    check_items source (is_hybrid w) [] [] w.items
    lift_walk (walk_items w.items)
    ok w
