-- ===== src/Lib.antt =====
-- CodeFleet: a coordinator that lets agents propose changes to a repository, and that runs, verifies
-- and accepts these changes itself. Nothing that an agent says is evidence: a contract bounds what a
-- proposal may edit, a lease bounds who may write the state of a run, a workflow bounds what runs side
-- by side, and a judge reads only evidence that the coordinator has bound.
--
-- Parts and files (source paths are from the root of the repository)
--
-- Prelude: tests on numbers, lists with the array methods of the source, texts as lists of code units,
-- string methods, a stable insertion sort for `sort`, and `Result` for code that throws.
--
-- Alpha, for src/alpha/. `Alpha.Paths` and `Alpha.Contract` are contract.mjs: `validate_contract` is
-- validateContract with each regular expression as a test, and `apply_edits` is applyEdits on a map
-- from paths to texts. `Alpha.Judge` is judge.mjs and verification-evidence.mjs. `Alpha.Store` is the
-- run table of store.mjs: `create_run`, `set_control`, `claim`, `heartbeat`, `save` and `release` act
-- on a row, each reading of the clock is an argument of its own, and a transaction that throws leaves
-- the table as it was. The theorems about the lease quantify over every sequence of operations of any
-- workers (`Alpha.Store.Lease.Reach`, and `Alpha.Store.Keep.Kept` for a worker that renews in time).
--
-- Workflow, for src/workflow/. `Workflow.Definition` is validateWorkflow of definition.mjs, over the
-- depth-first walk of `Workflow.Order`; `Workflow.Ready` is nextReady and readyBatch.
-- `Workflow.Attempts` is persistence.mjs: approveWorkflow, revokeWorkflow, reserve and finish as
-- transactions on the tables of runs, attempts and approvals, with `Step` and `Reach` for their
-- sequences. `Workflow.Capability` is capability-policy.mjs.
--
-- Objective, for src/ledger.ts and the actor gate of src/auto-review.ts: `replay` is replayObjective
-- on the events read. Where the source mutates an item object that stands in several lists, an item
-- carries the number of its object, and `update` writes to every entry of that number.
-- `Objective.AutoReview` is evaluateAutoReview.
--
-- Policy, for src/path-policy.ts, command-policy.ts, agent-role.ts and risk.ts. `Policy.Paths` is the
-- matcher of path patterns, with the meaning of a pattern in `Policy.Paths.Segments`, and
-- evaluatePathPolicy. `Policy.Commands` is normalizeCommand, matchesCommand and preflightCommand, and
-- `Policy.Commands.Problems` validateCommandMatchers on parsed JSON (`Prelude.Json`). `Policy.Roles`
-- has the tables and ranks of the roles; `Custom`, `Resolved` and `Guardrails` below it are
-- validateCustomRole, resolveAgentRole and resolveGuardrails. `Policy.Risk` is evaluateRisk, which
-- calls the matchers of the other two, and `Policy.Risk.Rules` validateRiskRules on parsed JSON.
--
-- Task, for src/task-ledger.ts, task-events.ts and task-revision.ts. `Task` replays the events of one
-- task's ledger (replayApproval); `Task.Approval` is approveTask, and `Task.Approval.Invalidation`
-- invalidateApproval, as the steps of a mutation on the ledger and on the documents
-- (`Task.Documents`); `Task.Feasibility` is contractFeasibility, which resolves the role by
-- `Policy.Roles.Resolved`. Mutation, for src/mutation.ts: runMutation over any world, and the lock.
--
-- Interaction. A workflow is validated against a contract and uses `validate_contract` on each item.
-- The coordinator chooses items by `ready_batch`, reserves them by `reserve`, and each child run is a
-- row of the store. A reservation checks the lease that `claim` gave. approveTask runs under
-- `run_mutation`, and its feasibility and the risk rules read the tables and matchers of Policy.
--
-- Fuel. The walk recurses once for each node on its path, so it has one level for every key and one
-- more; it is proved never to run out, whatever the graph. `ready_batch` takes one READY item away in
-- each round, so it has a round for every item and one more.
--
-- Parameters. Hashes (node:crypto), fresh tokens (randomUUID), the clock, the liveness of a process,
-- the guard that an embedding registers, toLowerCase on Unicode, and the equality of two number
-- literals are arguments.
--
-- Not modelled: the SQLite schema and its migrations, artifact files, git worktrees, containers,
-- agents and their adapters, the command line, and file formats. JSON types and unknown fields are the
-- types of the records, but for the validators that are named above as acting on parsed JSON. The
-- ledgers are modelled from the events that were read, not from their lines; the capture of an
-- approval's relations and the text of messages are left out, and so are what the beforeReserve of a
-- registered guard does besides returning or throwing and the attempts and the reason in the event of a
-- save. The budget of a contract is a whole number of millionths.
pub mod Prelude
pub mod Alpha
pub mod Workflow
pub mod Objective
pub mod Policy
pub mod Mutation
pub mod Task
