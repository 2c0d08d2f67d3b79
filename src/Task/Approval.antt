-- ===== src/Task/Approval.antt =====
-- approveTask of src/task-ledger.ts, as a mutation of the ledger and of the documents of one task. What
-- is read from files, the clock, whether the contract is feasible, and the snapshot of its relations
-- are fields of the request: a file or the profile that is read again is taken to be unchanged. The
-- decimal form of a number is a parameter, as the hashes are.
pub mod Invalidation
pub mod Order
pub mod Appending
pub mod Effective
mod Tests
use code_fleet.Prelude.{
  ℕ, zero, suc, ◌+◌, ◌-◌, Bool, true, false, not, ◌&&◌, Option, none, some, List, [], ◌∷◌, ◌++◌,
  Text, text, ◌==◌, any, find?, length, ltb, nat_eq, is_blank, Result, ok, err, if◌then◌else◌,
}
use code_fleet.Task.{
  EventType, task_revision_created, task_approved, task_approval_invalidated,
  task_revision_superseded, human, Event, ApprovalState, replay_approval,
}
use code_fleet.Task.Documents.{
  TaskRevisionDocument, RevisionDefect, write_task_revision, read_task_revision,
}
use code_fleet.Mutation.{
  LockHolder, MutationOutcome, Thrown, step_threw, MutationSteps, Machine, run_mutation,
}

pub record TaskStore : Type 0 where
  pub events : List Event
  pub revisions : List TaskRevisionDocument

pub data Refusal : Type 0 where
  not_feasible approved_for_other_content revision_exists approval_without_effect : Refusal
  stored_revision_differs : Refusal
  revision_defect : RevisionDefect → Refusal
  no_approval_to_invalidate approval_still_effective reason_required : Refusal

pub record Request : Type 0 where
  pub request_task_id : Text
  pub request_actor_id : Text
  pub request_reason : Text
  pub current_hash : Text
  pub current_guardrail_hash : Text
  pub feasible : Bool
  pub source_read : Text
  pub relations_read : List Text
  pub at_created : Text
  pub at_approved : Text
  pub at_superseded : Text

-- `slice(4, 12)`, `padStart(6, "0")`
take_text : ℕ → Text → Text
take_text zero s = []
take_text (suc n) [] = []
take_text (suc n) (c ∷ s) = c ∷ take_text n s

drop_text : ℕ → Text → Text
drop_text zero s = s
drop_text (suc n) [] = []
drop_text (suc n) (c ∷ s) = drop_text n s

zeros : ℕ → Text
zeros zero = []
zeros (suc n) = b'0' ∷ zeros n

-- What an event says of the revision
pub record EventFields : Type 0 where
  pub of_revision : ℕ
  pub of_hash : Text
  pub of_target : Text
  pub of_guardrail : Text
  pub successor : Option (ℕ × Text)

module _ (approval_target_of : (revision_hash guardrail_hash : Text) → Text) (sha256 : Text → Text)
    (decimal : ℕ → Text) where
  event_id_of : ℕ → Text → Text
  unfolding take_text drop_text zeros
  event_id_of seq mutation_id =
      text "evt_"
      ++ zeros (6 - length (decimal seq))
      ++ decimal seq
      ++ text "_"
      ++ take_text 8 (drop_text 4 mutation_id)

  -- `appendTaskEvent`: the ledger after it, and the event
  pub append_task_event :
      List Event → Text → Text → EventType → EventFields → Text → Text → Text → List Event × Event
  unfolding event_id_of
  append_task_event events task_id mutation_id event_type fields actor_id reason at =
      let seq = length events + 1 in
      let event : Event = record {
        mutation_id = mutation_id;
        event_id = event_id_of seq mutation_id;
        seq = seq;
        event_type = event_type;
        task_id = task_id;
        task_revision = fields.of_revision;
        revision_hash = fields.of_hash;
        approval_target_hash = fields.of_target;
        guardrail_hash = some fields.of_guardrail;
        superseded_by_task_revision = elim fields.successor [
          | none ↦ none
          | some next ↦ some (next.0)
        ];
        superseded_by_revision_hash = elim fields.successor [
          | none ↦ none
          | some next ↦ some (next.1)
        ];
        actor_kind = human;
        actor_id = actor_id;
        reason = reason;
        at = at;
      } in
      (events ++ event ∷ [], event)

  pub approved_elsewhere : Option ℕ → Bool
  approved_elsewhere none = false
  approved_elsewhere (some r) = true

  pub revision_or_zero : Option ℕ → ℕ
  revision_or_zero none = 0
  revision_or_zero (some r) = r

  pub target_of : Request → Text
  target_of q = approval_target_of q.current_hash q.current_guardrail_hash

  pub replay_of : Request → TaskStore → ApprovalState
  replay_of q s =
      replay_approval approval_target_of s.events q.current_hash q.current_guardrail_hash

  -- M2 of approveTask
  pub approve_precheck : Request → TaskStore → TaskStore × Result Refusal (Unit {0})
  unfolding approved_elsewhere replay_of target_of
  approve_precheck q s =
      let state = (replay_of q s).replayed in
      if not q.feasible
      then (s, err not_feasible)
      else if state.approved_hash == target_of q
      then (s, ok tt)
      else if approved_elsewhere state.approved_revision
      then (s, err approved_for_other_content)
      else (s, ok tt)

  -- M3 of approveTask
  pub is_approved : Request → TaskStore → TaskStore × Result Refusal Bool
  unfolding replay_of target_of
  is_approved q s = (s, ok (((replay_of q s).replayed).approved_hash == target_of q))

  pub document_of : Request → Text → ℕ → Event → TaskRevisionDocument
  unfolding target_of
  document_of q mutation_id revision created = record {
    document_task_id = q.request_task_id;
    document_revision = revision;
    created_at = created.at;
    source = q.source_read;
    content_hash = q.current_hash;
    document_target_hash = target_of q;
    document_guardrail_hash = q.current_guardrail_hash;
    document_mutation_id = mutation_id;
    document_event_id = created.event_id;
    document_actor_id = q.request_actor_id;
    document_reason = q.request_reason;
    objective_relations = q.relations_read;
  }

  -- An event of this request
  pub event_for : Request → Text → List Event → EventType → EventFields → Text → List Event × Event
  event_for q mutation_id events event_type fields at =
      append_task_event events q.request_task_id mutation_id event_type fields q.request_actor_id
        q.request_reason at

  -- What each of the three events says
  pub created_fields : Request → ℕ → EventFields
  created_fields q revision = record {
    of_revision = revision;
    of_hash = q.current_hash;
    of_target = [];
    of_guardrail = [];
    successor = none;
  }

  pub approved_fields : Request → ℕ → EventFields
  unfolding target_of
  approved_fields q revision = record {
    of_revision = revision;
    of_hash = q.current_hash;
    of_target = target_of q;
    of_guardrail = q.current_guardrail_hash;
    successor = none;
  }

  pub superseded_fields : Request → ℕ → Text → EventFields
  superseded_fields q revision latest_hash = record {
    of_revision = revision - 1;
    of_hash = latest_hash;
    of_target = [];
    of_guardrail = [];
    successor = some (revision, q.current_hash);
  }

  -- The succession, recorded if there is a revision before this one
  pub supersede : Request → Text → ℕ → Text → List Event → List Event
  supersede q mutation_id revision latest_hash events =
      if ltb 1 revision
      then (event_for q mutation_id events task_revision_superseded
          (superseded_fields q revision latest_hash) q.at_superseded).0
      else events

  -- M4 of approveTask: the revision, its document, the approval and the succession
  pub approve_append : Request → Text → TaskStore → TaskStore × Result Refusal Event
  approve_append q mutation_id s =
      let state = (replay_of q s).replayed in
      let revision = state.latest_revision + 1 in
      let created =
        event_for q mutation_id s.events task_revision_created (created_fields q revision)
          q.at_created in
      elim (write_task_revision (document_of q mutation_id revision (created.1)) s.revisions) [
        | none ↦ (record { events = created.0; revisions = s.revisions }, err revision_exists)
        | some revisions ↦
            let approved =
              event_for q mutation_id (created.0) task_approved (approved_fields q revision)
                q.at_approved in
            (
              record {
                events = supersede q mutation_id revision state.latest_revision_hash (approved.0);
                revisions = revisions;
              },
              ok (approved.1),
            )
      ]

  -- M6 of approveTask
  pub approve_postcheck : Request → TaskStore → TaskStore × Result Refusal (Unit {0})
  unfolding replay_of revision_or_zero
  approve_postcheck q s =
      let state = replay_of q s in
      elim state.blocked_reason [
        | some reason ↦ (s, err approval_without_effect)
        | none ↦
            elim (read_task_revision sha256 (revision_or_zero (state.replayed).approved_revision)
              s.revisions) [
                | err e ↦ (s, err (revision_defect e))
                | ok stored ↦
                    if not (stored.content_hash == q.current_hash)
                    then (s, err stored_revision_differs)
                    else (s, ok tt)
              ]
      ]

  pub approve_steps : Request → Text → MutationSteps TaskStore Refusal Event
  approve_steps q mutation_id = record {
    precheck = approve_precheck q;
    is_already_applied = is_approved q;
    append = approve_append q mutation_id;
    rebuild = λ s. (s, ok tt);
    postcheck = approve_postcheck q;
  }

  -- `approveTask`
  pub approve_task :
      Request
      → LockHolder
      → Machine TaskStore
      → Machine TaskStore × Result (Thrown Refusal) (MutationOutcome Refusal Event)
  approve_task q holder m =
      if is_blank q.request_reason
      then (m, err (step_threw reason_required))
      else run_mutation (approve_steps q holder.mutation_id) holder m
