-- ===== src/Task/Approval/Invalidation.antt =====
-- invalidateApproval of src/task-ledger.ts, as a mutation of the ledger of one task.
use code_fleet.Prelude.{
  ℕ, Bool, true, false, not, Option, none, some, List, [], ◌∷◌, Text, any, is_blank, Result, ok,
  err, if◌then◌else◌,
}
use code_fleet.Task.{task_approved, task_approval_invalidated, Event}
use code_fleet.Mutation.{
  LockHolder, MutationOutcome, Thrown, step_threw, MutationSteps, Machine, run_mutation,
}
use code_fleet.Task.Approval.{
  TaskStore, Refusal, Request, EventFields, event_for, replay_of, approved_elsewhere,
  no_approval_to_invalidate, approval_still_effective, reason_required,
}

module _ (approval_target_of : (revision_hash guardrail_hash : Text) → Text) (sha256 : Text → Text)
    (decimal : ℕ → Text) where
  is_approval : Event → Bool
  is_approval e = elim e.event_type [ task_approved ↦ true | _ ↦ false ]

  -- `[...events].reverse().find`
  last_approval : List Event → Option Event
  unfolding is_approval
  last_approval [] = none
  last_approval (e ∷ es) = elim (last_approval es) [
    | some found ↦ some found
    | none ↦ if is_approval e then some e else none
  ]

  -- M2 to M6 of invalidateApproval
  pub invalidate_precheck : TaskStore → TaskStore × Result Refusal (Unit {0})
  unfolding is_approval
  invalidate_precheck s =
      if not (any is_approval s.events) then (s, err no_approval_to_invalidate) else (s, ok tt)

  pub is_invalidated : Request → TaskStore → TaskStore × Result Refusal Bool
  unfolding replay_of approved_elsewhere
  is_invalidated q s = (
    s,
    ok (
        not (
          approved_elsewhere approval_target_of sha256 decimal
            ((replay_of approval_target_of sha256 decimal q s).replayed).approved_revision)),
  )

  fields_of : Option Event → EventFields
  fields_of none = record {
    of_revision = 0;
    of_hash = [];
    of_target = [];
    of_guardrail = [];
    successor = none;
  }
  fields_of (some e) = record {
    of_revision = e.task_revision;
    of_hash = e.revision_hash;
    of_target = e.approval_target_hash;
    of_guardrail = [];
    successor = none;
  }

  pub invalidate_append : Request → Text → TaskStore → TaskStore × Result Refusal Event
  unfolding last_approval fields_of event_for
  invalidate_append q mutation_id s =
      let (events, event) =
        event_for approval_target_of sha256 decimal q mutation_id s.events task_approval_invalidated
          (fields_of (last_approval s.events)) q.at_created in
      (record { events = events; revisions = s.revisions }, ok event)

  pub invalidate_postcheck : Request → TaskStore → TaskStore × Result Refusal (Unit {0})
  unfolding replay_of approved_elsewhere
  invalidate_postcheck q s =
      if approved_elsewhere approval_target_of sha256 decimal
        ((replay_of approval_target_of sha256 decimal q s).replayed).approved_revision
      then (s, err approval_still_effective)
      else (s, ok tt)

  pub invalidate_steps : Request → Text → MutationSteps TaskStore Refusal Event
  invalidate_steps q mutation_id = record {
    precheck = invalidate_precheck;
    is_already_applied = is_invalidated q;
    append = invalidate_append q mutation_id;
    rebuild = λ s. (s, ok tt);
    postcheck = invalidate_postcheck q;
  }

  -- `invalidateApproval`
  pub invalidate_approval :
      Request
      → LockHolder
      → Machine TaskStore
      → Machine TaskStore × Result (Thrown Refusal) (MutationOutcome Refusal Event)
  invalidate_approval q holder m =
      if is_blank q.request_reason
      then (m, err (step_threw reason_required))
      else run_mutation (invalidate_steps q holder.mutation_id) holder m
