-- ===== src/Task/Approval/Tests.antt =====
-- A first approval of a task, and the theorem that it takes effect.
use code_fleet.Prelude.{
  ℕ, ◌+◌, ◌≡◌, refl, true, false, none, some, [], ◌∷◌, ◌++◌, Text, text, ◌==◌, any, ok, sort_by,
  is_blank, is_space,
}
use code_fleet.Task.{Event, replay_approval, replay_events, by_seq}
use code_fleet.Task.Documents.{of_document}
use code_fleet.Task.Approval.{TaskStore, Request, replay_of, target_of, approve_task}
use code_fleet.Task.Approval.Effective.{state_of, approve_task-Effective}
use code_fleet.Mutation.{LockHolder, Machine, success_of}

abbrev joined : Text → Text → Text
joined a b = a ++ b

abbrev same_text : Text → Text
same_text t = t

abbrev digit : ℕ → Text
digit n = (48 + n) ∷ []

abbrev request : Text → Request
request content = record {
  request_task_id = text "t1";
  request_actor_id = text "ann";
  request_reason = text "reviewed";
  current_hash = content;
  current_guardrail_hash = text "g";
  feasible = true;
  source_read = content;
  relations_read = [];
  at_created = text "1";
  at_approved = text "2";
  at_superseded = text "3";
}

abbrev holder : LockHolder
holder = record {
  pid = text "7";
  host = text "h";
  started_at = text "0";
  mutation_id = text "mut_0123456789abcdef";
  mutation_kind = text "TASK_APPROVE";
}

abbrev empty : TaskStore
empty = record { events = []; revisions = [] }

abbrev free : Machine TaskStore
free = record { world = empty; lock = none }

has_reason : is_blank (text "reviewed") ≡ false
unfolding is_space
has_reason = refl

nothing_approved :
    (state_of joined same_text digit (request (text "a")) empty).approved_revision ≡ none
unfolding replay_of replay_approval replay_events by_seq sort_by
nothing_approved = refl

no_target :
    ((state_of joined same_text digit (request (text "a")) empty).approved_hash
      == target_of joined same_text digit (request (text "a")))
    ≡ false
unfolding replay_of replay_approval replay_events by_seq sort_by target_of ◌==◌
no_target = refl

no_document :
    any
      (of_document
        ((state_of joined same_text digit (request (text "a")) empty).latest_revision + 1))
      (empty.revisions)
    ≡ false
no_document = refl

approve_task-Effective_example :
    (after : TaskStore) × (e : Event) × ((approve_task joined same_text digit
          (request (text "a"))
          holder
          free
        ≡ (
          record { world = after; lock = none },
          ok (success_of holder.mutation_id true false (some e)),
        ))
      × ((replay_of joined same_text digit (request (text "a")) after).blocked_reason ≡ none)
      × ((state_of joined same_text digit (request (text "a")) after).approved_revision
          ≡ some
              ((state_of joined same_text digit (request (text "a")) empty).latest_revision + 1)))
approve_task-Effective_example =
    approve_task-Effective joined same_text digit (request (text "a")) holder free has_reason refl
      refl tt nothing_approved no_target no_document refl
