-- ===== src/Task.antt =====
-- The approvals of a task, for src/task-events.ts and src/task-ledger.ts: the events of its ledger, and
-- what is replayed from them. Hashes are texts, and `approvalTargetOf` a parameter.
pub mod Standing
pub mod Documents
pub mod Approval
pub mod Feasibility
mod Tests
use code_fleet.Prelude.{
  ℕ, Bool, true, false, not, Option, none, some, List, [], ◌∷◌, Text, ◌==◌, ltb, nat_eq, sort_by,
  if◌then◌else◌,
}

pub data EventType : Type 0 where
  task_revision_created task_approved task_approval_invalidated : EventType
  task_revision_superseded : EventType

pub data ActorKind : Type 0 where
  human system_policy : ActorKind

pub record Event : Type 0 where
  pub mutation_id : Text
  pub event_id : Text
  pub seq : ℕ
  pub event_type : EventType
  pub task_id : Text
  pub task_revision : ℕ
  pub revision_hash : Text
  pub approval_target_hash : Text
  pub guardrail_hash : Option Text
  pub superseded_by_task_revision : Option ℕ
  pub superseded_by_revision_hash : Option Text
  pub actor_kind : ActorKind
  pub actor_id : Text
  pub reason : Text
  pub at : Text

pub data BlockedReason : Type 0 where
  no_revision_created no_valid_approval task_content_changed_after_approval : BlockedReason
  profile_guardrails_changed_after_approval : BlockedReason

-- The variables of the loop of `replayApproval`
pub record Replayed : Type 0 where
  pub latest_revision : ℕ
  pub latest_revision_hash : Text
  pub approved_revision : Option ℕ
  pub approved_hash : Text
  pub approved_revision_hash : Text
  pub approved_guardrail_hash : Text
  pub approved_by : Text
  pub approved_at : Text

pub record ApprovalState : Type 0 where
  pub replayed : Replayed
  pub blocked_reason : Option BlockedReason

abbrev pub nothing_replayed : Replayed
nothing_replayed = record {
  latest_revision = 0;
  latest_revision_hash = [];
  approved_revision = none;
  approved_hash = [];
  approved_revision_hash = [];
  approved_guardrail_hash = [];
  approved_by = [];
  approved_at = [];
}

pub is_revision : Option ℕ → ℕ → Bool
is_revision none r = false
is_revision (some q) r = nat_eq q r

or_empty : Option Text → Text
or_empty none = []
or_empty (some t) = t

without_approval : Replayed → Replayed
without_approval s = record {
  latest_revision = s.latest_revision;
  latest_revision_hash = s.latest_revision_hash;
  approved_revision = none;
  approved_hash = [];
  approved_revision_hash = [];
  approved_guardrail_hash = [];
  approved_by = [];
  approved_at = [];
}

withdraw : Replayed → Event → Replayed
unfolding is_revision without_approval
withdraw s e = if is_revision s.approved_revision e.task_revision then without_approval s else s

-- One round of the loop over the events
pub replay_event : Replayed → Event → Replayed
unfolding withdraw or_empty
replay_event s e = elim e.event_type [
  | task_revision_created ↦ record {
    latest_revision = e.task_revision;
    latest_revision_hash = e.revision_hash;
    approved_revision = s.approved_revision;
    approved_hash = s.approved_hash;
    approved_revision_hash = s.approved_revision_hash;
    approved_guardrail_hash = s.approved_guardrail_hash;
    approved_by = s.approved_by;
    approved_at = s.approved_at;
  }
  | task_approved ↦ record {
    latest_revision = s.latest_revision;
    latest_revision_hash = s.latest_revision_hash;
    approved_revision = some e.task_revision;
    approved_hash = e.approval_target_hash;
    approved_revision_hash = e.revision_hash;
    approved_guardrail_hash = or_empty e.guardrail_hash;
    approved_by = e.actor_id;
    approved_at = e.at;
  }
  | task_approval_invalidated ↦ withdraw s e
  | task_revision_superseded ↦ withdraw s e
]

pub replay_events : Replayed → List Event → Replayed
replay_events s [] = s
replay_events s (e ∷ es) = replay_events (replay_event s e) es

pub earlier : Event → Event → Bool
earlier a b = ltb a.seq b.seq

-- `sort((a, b) => a.seq - b.seq)`
pub by_seq : List Event → List Event
unfolding earlier
by_seq es = sort_by earlier es

module _ (approval_target_of : (revision_hash guardrail_hash : Text) → Text) where
  -- What stands against running the task with this content under these guardrails.
  pub block_of : Replayed → (current_hash guardrail_hash : Text) → Option BlockedReason
  block_of s current_hash guardrail_hash = elim s.approved_revision [
    | none ↦ if nat_eq s.latest_revision 0 then some no_revision_created else some no_valid_approval
    | some revision ↦
        if not (s.approved_revision_hash == current_hash)
        then some task_content_changed_after_approval
        else if not (s.approved_hash == approval_target_of current_hash guardrail_hash)
        then some profile_guardrails_changed_after_approval
        else none
  ]

  -- `replayApproval`, of the events that were read
  pub replay_approval : List Event → (current_hash guardrail_hash : Text) → ApprovalState
  replay_approval events current_hash guardrail_hash =
      let state = replay_events nothing_replayed (by_seq events) in
      record { replayed = state; blocked_reason = block_of state current_hash guardrail_hash }
