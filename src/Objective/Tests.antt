-- ===== src/Objective/Tests.antt =====
-- A ledger of one reviewed item, and the theorems of the replay on it.
use code_fleet.Prelude.{
  Exists, ℕ, ◌<◌, ◌≡◌, ◌↔◌, refl, true, false, Bool, none, List, [], ◌∷◌, map, Text, text, ◌==◌,
  elem, sort_by, insert_by, All, arith,
}
use code_fleet.Objective.{
  Event, Payload, Decision, objective_created, task_attached, run_review_decided, item_canceled,
  item_unblocked, queue_reordered, sequence, replay, by_seq, is_verified, overturned, verified,
  apply_events, apply_event, apply_payload, apply_transition, apply_reorder, apply_reviews,
  apply_review, allows, update, items_of, allowed_actors, actor_satisfies, or_human, derive,
  derive_each, derive_states, derived_from, cursor_of, id_findings, seq_findings, last_seq, start,
  Progress, Item,
}
use code_fleet.Objective.Objects.{decisions_of}
use code_fleet.Objective.AutoReview.{
  Input, risk_not_low, risk_unknown, blocked_reasons, is_allowed, Accepts, is_allowed-Accepts,
}
use code_fleet.Objective.Verified.{Backs, replay-verified}
use code_fleet.Objective.Ledger.{
  IsSoundLedger, replay-complete_iff, Canceled, apply_events-Canceled,
}

abbrev event : Text → ℕ → Payload → Event
event id seq payload = record {
  event_id = id;
  seq = seq;
  objective_id = text "o";
  payload = payload;
}

abbrev decision : Decision
decision = record {
  item_id = text "q";
  decision_id = text "d";
  supersedes = [];
  invalidates = [];
  bundle_hash = text "h";
  gate = none;
  actor_kind = text "HUMAN";
  decision_basis = text "HUMAN_REVIEW";
  decision = text "ACCEPTED";
  gate_result = text "SATISFIED";
  result = text "DONE";
}

abbrev created : Event
created = event (text "a") 1 (objective_created sequence (text "t"))

abbrev attached : Event
attached = event (text "b") 2 (task_attached (text "q") (text "t") 1 (text "h"))

abbrev attached_too : Event
attached_too = event (text "c") 3 (task_attached (text "r") (text "u") 1 (text "h"))

abbrev events : List Event
events = created ∷ attached ∷ attached_too ∷ event (text "d") 4 (run_review_decided decision) ∷ []

abbrev states : List Event → List (Text × Bool)
states es = map (λ i. (i.id, is_verified i)) (replay (text "o") [] es).queue

replay-events : states events ≡ (text "q", true) ∷ (text "r", false) ∷ []
unfolding replay by_seq is_verified apply_events apply_event apply_payload apply_reviews
    apply_review update allowed_actors actor_satisfies or_human derive derive_each derive_states
    derived_from id_findings seq_findings last_seq overturned sort_by insert_by ◌==◌ elem
replay-events = refl

replay-cursor : (replay (text "o") [] events).cursor ≡ text "r"
unfolding replay by_seq is_verified apply_events apply_event apply_payload apply_reviews
    apply_review update allowed_actors actor_satisfies or_human derive derive_each derive_states
    derived_from cursor_of id_findings seq_findings last_seq overturned sort_by insert_by ◌==◌ elem
replay-cursor = refl

-- A reorder that names an item twice puts it into the queue twice.
reorder-twice :
    map
      (λ (i : Item). i.id)
      (replay (text "o") [] (
        created
        ∷ attached
        ∷ event (text "d") 3 (queue_reordered (text "q" ∷ text "q" ∷ []))
        ∷ [])).queue
    ≡ text "q" ∷ text "q" ∷ []
unfolding replay by_seq apply_events apply_event apply_payload apply_reorder items_of apply_reviews
    update derive derive_each derive_states derived_from is_verified id_findings seq_findings
    last_seq sort_by insert_by ◌==◌ elem
reorder-twice = refl

replay-verified_example :
    All
      (λ i.
        i.derived ≡ verified
        → (is_verified i ≡ true)
          × Exists
              (Backs (overturned (map (λ r. r.0) (decisions_of (by_seq events)))) i)
              (decisions_of (by_seq events)))
      (replay (text "o") [] events).queue
replay-verified_example = replay-verified (text "o") [] events

replay-complete_iff_example :
    ((replay (text "o") [] events).complete ≡ true) ↔ IsSoundLedger (text "o") [] events
replay-complete_iff_example = replay-complete_iff (text "o") [] events

-- The queue after its first item was canceled.
abbrev dropped : Progress
dropped =
    apply_events (created ∷ attached ∷ event (text "c") 3 (item_canceled (text "q")) ∷ []) start

dropped-Canceled : All (Canceled 0) dropped.queue
unfolding apply_events apply_event apply_payload apply_transition update allows ◌==◌
dropped-Canceled = ((λ same. refl), tt)

dropped-attached : 0 < dropped.attached
unfolding apply_events apply_event apply_payload apply_transition update allows ◌==◌
dropped-attached = omega arith

apply_events-Canceled_example :
    All
      (Canceled 0)
      (apply_events (event (text "d") 4 (item_unblocked (text "q")) ∷ []) dropped).queue
apply_events-Canceled_example =
    apply_events-Canceled 0 (event (text "d") 4 (item_unblocked (text "q")) ∷ []) dropped
      dropped-attached dropped-Canceled

abbrev input : Input
input = record {
  auto_advance_on_done = true;
  allowed_actors = text "SYSTEM_POLICY" ∷ [];
  explicit = false;
  normalized_result = text "DONE";
  verification_gate_result = text "SATISFIED";
  computed_risk = text "LOW";
  normalization_status = text "COMPLETE";
  evidence_completeness = text "COMPLETE";
  capability_gaps = 0;
  evidence_defects = 0;
  blocking_findings = 0;
  unresolved_required_fields = 0;
  blocking_needs_review = 0;
  bundle_ref = text "r";
  bundle_hash = text "h";
}

-- An unknown risk fails two conditions.
blocked_reasons-unknown :
    blocked_reasons (record input { computed_risk = text "UNKNOWN" })
    ≡ risk_not_low ∷ risk_unknown ∷ []
unfolding blocked_reasons ◌==◌ elem
blocked_reasons-unknown = refl

input-allowed : is_allowed input ≡ true
unfolding blocked_reasons ◌==◌ elem
input-allowed = refl

is_allowed-Accepts_example : Accepts input
is_allowed-Accepts_example = is_allowed-Accepts input input-allowed
