-- ===== src/Workflow.antt =====
-- src/workflow/: the data of a workflow and of its work items. `definition.mjs` validates a workflow
-- (`Definition`, over the graph walk of `Order`) and picks the items that may run (`Ready`);
-- `persistence.mjs` reserves and ends attempts (`Attempts`), and `capability-policy.mjs` says what a
-- kind of work needs (`Capability`).
pub mod Order
pub mod Definition
pub mod Ready
pub mod Attempts
pub mod Capability
use code_fleet.Prelude.{
  ℕ, Bool, true, false, Option, List, [], ◌∷◌, ◌++◌, map, elem, any, Text, ◌==◌, find?, nat_eq,
  if◌then◌else◌, ℤ,
}

-- `item.roles`: who plans, designs, executes and reviews an item.
pub record Roles : Type 0 where
  pub planner : Text
  pub architect : Text
  pub executor : Text
  pub reviewer : Text

pub record WorkItem : Type 0 where
  pub id : Text
  pub dependencies : List Text
  pub priority : ℤ
  pub files : List Text
  pub tests : List Text
  pub acceptance_criteria : List Text
  -- Only an item of a hybrid workflow has roles and resources.
  pub roles : Option Roles
  pub resources : List Text

pub record Workflow : Type 0 where
  pub schema_version : ℕ
  pub workflow_id : Text
  pub workflow_version : ℕ
  pub source_contract_ref : Text
  pub base : Text
  pub items : List WorkItem
  pub required_capabilities : List Text
  pub acceptance_criteria : List Text
  pub required_verification : Bool
  pub policy_snapshot_ref : Text
  pub max_parallel : ℕ
  pub workflow_hash : Text

abbrev pub is_hybrid : Workflow → Bool
is_hybrid w = nat_eq w.schema_version 2

-- `parallelLimit`
unfoldable pub parallel_limit : Workflow → ℕ
parallel_limit w = if is_hybrid w then w.max_parallel else 1

-- `items.find(n => n.id === id)`
unfoldable pub item_of : List WorkItem → Text → Option WorkItem
item_of items k = find? (λ n. n.id == k) items

-- The state of an item. `considered` marks, within one call of `readyBatch`, what it has looked at.
pub data ItemState : Type 0 where
  pending ready running succeeded failed blocked considered : ItemState

abbrev pub States : Type 0
States = Text → ItemState

abbrev pub is_ready : ItemState → Bool
is_ready ready = true
is_ready _ = false

abbrev pub is_succeeded : ItemState → Bool
is_succeeded succeeded = true
is_succeeded _ = false

abbrev pub ids : List WorkItem → List Text
ids ns = map (λ n. n.id) ns

abbrev pub files_of : List WorkItem → List Text
files_of [] = []
files_of (n ∷ ns) = n.files ++ files_of ns

-- `xs.some(x => ys.includes(x))`
abbrev pub overlap : List Text → List Text → Bool
overlap xs ys = any (elem ys) xs
