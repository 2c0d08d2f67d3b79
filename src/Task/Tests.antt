-- ===== src/Task/Tests.antt =====
-- A ledger with an approval, and the theorem of the replay on it.
use code_fleet.Prelude.{
  ℕ, ◌≡◌, ◌↔◌, refl, none, some, [], ◌∷◌, ◌++◌, List, Text, text, ◌==◌, sort_by, insert_by,
}
use code_fleet.Task.{
  Event, EventType, task_revision_created, task_approved, task_approval_invalidated, human,
  no_valid_approval, task_content_changed_after_approval, profile_guardrails_changed_after_approval,
  by_seq, earlier, replay_event, replay_events, block_of, replay_approval,
}
use code_fleet.Task.Standing.{Stands, replay_approval_iff}

abbrev joined : Text → Text → Text
joined a b = a ++ b

abbrev event : ℕ → EventType → Text → Event
event n t target = record {
  mutation_id = text "m";
  event_id = text "e";
  seq = n;
  event_type = t;
  task_id = text "t1";
  task_revision = 1;
  revision_hash = text "a";
  approval_target_hash = target;
  guardrail_hash = none;
  superseded_by_task_revision = none;
  superseded_by_revision_hash = none;
  actor_kind = human;
  actor_id = text "ann";
  reason = text "r";
  at = text "0";
}

abbrev approved_ledger : List Event
approved_ledger = event 2 task_approved (text "ag") ∷ event 1 task_revision_created [] ∷ []

covered : (replay_approval joined approved_ledger (text "a") (text "g")).blocked_reason ≡ none
unfolding replay_approval block_of replay_events replay_event by_seq sort_by insert_by earlier ◌==◌
covered = refl

edited :
    (replay_approval joined approved_ledger (text "b") (text "g")).blocked_reason
    ≡ some task_content_changed_after_approval
unfolding replay_approval block_of replay_events replay_event by_seq sort_by insert_by earlier ◌==◌
edited = refl

moved_guardrails :
    (replay_approval joined approved_ledger (text "a") (text "h")).blocked_reason
    ≡ some profile_guardrails_changed_after_approval
unfolding replay_approval block_of replay_events replay_event by_seq sort_by insert_by earlier ◌==◌
moved_guardrails = refl

withdrawn :
    (replay_approval joined
      (event 3 task_approval_invalidated [] ∷ approved_ledger)
      (text "a")
      (text "g")).blocked_reason
    ≡ some no_valid_approval
unfolding replay_approval block_of replay_events replay_event by_seq sort_by insert_by earlier ◌==◌
withdrawn = refl

replay_approval_iff_example :
    ((replay_approval joined approved_ledger (text "a") (text "g")).blocked_reason ≡ none) ↔ (
      (revision : ℕ) × Stands
        (by_seq approved_ledger)
        revision
        (text "a")
        (joined (text "a") (text "g")))
replay_approval_iff_example = replay_approval_iff joined approved_ledger (text "a") (text "g")
