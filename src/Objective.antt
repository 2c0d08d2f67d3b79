-- ===== src/Objective.antt =====
-- The objective ledger of src/ledger.ts: its events, and the queue that their replay derives. The
-- source puts one item object into several lists and mutates it; here each item carries the number of
-- its object, and a mutation reaches every entry of that number. A missing field of a payload is the
-- default that the replay reads for it.

pub mod Objects
pub mod Verified
pub mod Order
pub mod Ledger
pub mod AutoReview
mod Tests
use code_fleet.Prelude.{
  ℕ, ◌+◌, Bool, true, false, not, ◌&&◌, ◌||◌, Option, none, some, List, [], ◌∷◌, ◌++◌, map, Text,
  text, ◌==◌, elem, any, all, keep, find?, length, ltb, nat_eq, sort_by, if◌then◌else◌,
}

pub data Status : Type 0 where
  status_open status_closed status_canceled : Status

pub data Kind : Type 0 where
  sequence workstream one_off : Kind

pub data StoredState : Type 0 where
  waiting blocked skipped canceled : StoredState

pub data DerivedState : Type 0 where
  next active done failed verified underived : DerivedState

pub record Item : Type 0 where
  pub object : ℕ
  pub id : Text
  pub task_id : Text
  pub task_revision : ℕ
  pub task_revision_hash : Text
  pub stored : StoredState
  pub derived : DerivedState
  pub review_decision_id : Text
  pub decision : Text
  pub gate_result : Text
  pub result : Text

-- `resultReviewGate` of a payload, as read from JSON.
pub record RawGate : Type 0 where
  pub required : Bool
  pub allowed_actors : Option (List Text)
  pub explicit : Bool

pub record Decision : Type 0 where
  pub item_id : Text
  pub decision_id : Text
  pub supersedes : Text
  pub invalidates : Text
  pub bundle_hash : Text
  pub gate : Option RawGate
  pub actor_kind : Text
  pub decision_basis : Text
  pub decision : Text
  pub gate_result : Text
  pub result : Text

pub data Payload : Type 0 where
  objective_created : Kind → Text → Payload
  objective_updated : Option Text → Payload
  objective_closed objective_reopened objective_canceled : Payload
  task_attached : (item_id task_id : Text) → ℕ → (hash : Text) → Payload
  item_blocked item_unblocked item_skipped item_unskipped item_canceled : Text → Payload
  queue_reordered : List Text → Payload
  run_review_decided : Decision → Payload
  run_result_applied : Payload

pub record Event : Type 0 where
  pub event_id : Text
  pub seq : ℕ
  pub objective_id : Text
  pub payload : Payload

pub data FailureClass : Type 0 where
  structural_failure reference_failure policy_failure : FailureClass

pub data CheckId : Type 0 where
  jsonl_parse event_id_unique event_objective_matches seq_contiguous created_present : CheckId
  item_exists transition_allowed reorder_targets_future : CheckId
  review_targets_item review_has_bundle review_actor_allowed : CheckId

pub record Finding : Type 0 where
  pub class : FailureClass
  pub check : CheckId
  pub affected : Option ℕ

abbrev finding : FailureClass → CheckId → ℕ → Finding
finding c k seq = record { class = c; check = k; affected = some seq }

-- `QUEUE_TRANSITIONS`
unfoldable pub allows : StoredState → StoredState → Bool
allows waiting blocked = true
allows waiting skipped = true
allows waiting canceled = true
allows blocked waiting = true
allows blocked skipped = true
allows blocked canceled = true
allows skipped waiting = true
allows skipped canceled = true
allows _ _ = false

-- Every entry of the object is the one object.
unfoldable pub update : (Item → Item) → ℕ → List Item → List Item
update f o [] = []
update f o (i ∷ is) = (if nat_eq i.object o then f i else i) ∷ update f o is

abbrev pub item_with : Text → List Item → Option Item
item_with id queue = find? (λ i. i.id == id) queue

-- `applyQueueTransition`: the queue, and what it found.
pub apply_transition : StoredState → Text → ℕ → List Item → List Item × List Finding
apply_transition target id seq queue = elim (item_with id queue) [
  | none ↦ (queue, finding reference_failure item_exists seq ∷ [])
  | some item ↦
      if allows item.stored target
      then (update (λ i. record i { stored = target }) item.object queue, [])
      else (queue, finding structural_failure transition_allowed seq ∷ [])
]

abbrev is_history : Item → Bool
is_history i = elim i.stored [ skipped ↦ true | canceled ↦ true | _ ↦ false ]

items_of : List Text → List Item → List Item
items_of [] future = []
items_of (id ∷ ids) future =
    let rest = items_of ids future in elim (item_with id future) [ none ↦ rest | some i ↦ i ∷ rest ]

-- `applyReorder`
pub apply_reorder : List Text → ℕ → List Item → List Item × List Finding
unfolding items_of
apply_reorder order seq queue =
    let history = keep is_history queue in
    let future = keep (λ i. not (is_history i)) queue in
    if all (λ id. any (λ i. i.id == id) future) order
    then (history ++ (items_of order future ++ keep (λ i. not (elem order i.id)) future), [])
    else (queue, finding reference_failure reorder_targets_future seq ∷ [])

abbrev human : Text
human = text "HUMAN"

abbrev pub system_policy : Text
system_policy = text "SYSTEM_POLICY"

or_human : List Text → List Text
or_human [] = human ∷ []
or_human (a ∷ rest) = a ∷ rest

-- The allowed actors of `readResultReviewGate`
pub allowed_actors : Option RawGate → List Text
unfolding or_human
allowed_actors none = human ∷ []
allowed_actors (some g) = elim g.allowed_actors [
  | none ↦ human ∷ []
  | some actors ↦ or_human (keep (λ a. a == human || a == system_policy) actors)
]

-- `actorSatisfiesResultReviewGate(…).effective` of src/auto-review.ts
pub actor_satisfies : (actor_kind basis : Text) → (allowed : List Text) → Bool
actor_satisfies actor_kind basis allowed =
    (actor_kind == human || actor_kind == system_policy)
    && elem allowed actor_kind
    && not (actor_kind == human && not (basis == text "HUMAN_REVIEW"))
    && not (actor_kind == system_policy && (basis == [] || basis == text "HUMAN_REVIEW"))

-- The decisions that a later or an earlier decision names as superseded or invalid.
pub overturned : List Decision → List Text
overturned [] = []
overturned (d ∷ ds) =
    let rest = overturned ds in
    let named = if d.invalidates == [] then rest else d.invalidates ∷ rest in
    if d.supersedes == [] then named else d.supersedes ∷ named

abbrev decide : Decision → Item → Item
decide d i = record i {
  review_decision_id = d.decision_id;
  decision = d.decision;
  gate_result = d.gate_result;
  result = d.result;
}

-- One round of `applyReviewDecisions`.
pub apply_review : List Text → Decision → ℕ → List Item → List Item × List Finding
unfolding allowed_actors actor_satisfies
apply_review invalidated d seq queue = elim (item_with d.item_id queue) [
  | none ↦ (queue, finding reference_failure review_targets_item seq ∷ [])
  | some item ↦
      if elem invalidated d.decision_id
      then (queue, [])
      else if d.bundle_hash == []
      then (queue, finding reference_failure review_has_bundle seq ∷ [])
      else if not (actor_satisfies d.actor_kind d.decision_basis (allowed_actors d.gate))
      then (queue, finding policy_failure review_actor_allowed seq ∷ [])
      else (update (decide d) item.object queue, [])
]

pub apply_reviews : List Text → List (Decision × ℕ) → List Item → List Item × List Finding
apply_reviews invalidated [] queue = (queue, [])
apply_reviews invalidated ((d, seq) ∷ ds) queue =
    let (queue', found) = apply_review invalidated d seq queue in
    let (queue'', later) = apply_reviews invalidated ds queue' in (queue'', found ++ later)

pub is_verified : Item → Bool
is_verified i =
    i.decision == text "ACCEPTED"
    && (i.gate_result == text "SATISFIED" || i.gate_result == text "WAIVED_ALLOWED")
    && i.result == text "DONE"

abbrev is_waiting : StoredState → Bool
is_waiting waiting = true
is_waiting _ = false

abbrev is_sequence : Kind → Bool
is_sequence sequence = true
is_sequence _ = false

abbrev is_next : DerivedState → Bool
is_next next = true
is_next _ = false

-- The derived state of an item, and whether NEXT has then been assigned.
derive : Kind → Bool → Item → DerivedState × Bool
unfolding is_verified
derive kind assigned i =
    if is_verified i
    then (verified, assigned)
    else if not (is_waiting i.stored)
    then (underived, assigned)
    else if assigned
    then (underived, assigned)
    else (next, is_sequence kind)

-- `deriveQueueStates`: one round for each entry, each round writing to the object.
derive_each : Kind → Bool → List Item → List Item → List Item
derive_each kind assigned [] queue = queue
derive_each kind assigned (i ∷ is) queue =
    let (state, assigned') = derive kind assigned i in
    derive_each kind assigned' is (update (λ j. record j { derived = state }) i.object queue)

pub derive_states : Kind → List Item → List Item
unfolding derive_each derive
derive_states kind queue = derive_each kind false queue queue

-- `cursorOf`
unfoldable pub cursor_of : List Item → Text
cursor_of queue = elim (find? (λ i. is_next i.derived) queue) [ none ↦ [] | some i ↦ i.id ]

-- What the loop over the events has gathered. `attached` counts the objects made.
pub record Progress : Type 0 where
  pub status : Status
  pub kind : Kind
  pub title : Text
  pub queue : List Item
  pub reviews : List (Decision × ℕ)
  pub findings : List Finding
  pub attached : ℕ

abbrev pub start : Progress
start = record {
  status = status_open;
  kind = one_off;
  title = [];
  queue = [];
  reviews = [];
  findings = [];
  attached = 0;
}

abbrev moved : Progress → List Item × List Finding → Progress
moved p (queue, found) = record p { queue = queue; findings = p.findings ++ found }

abbrev new_item : ℕ → Text → Text → ℕ → Text → Item
new_item object item_id task_id revision hash = record {
  object = object;
  id = item_id;
  task_id = task_id;
  task_revision = revision;
  task_revision_hash = hash;
  stored = waiting;
  derived = underived;
  review_decision_id = [];
  decision = [];
  gate_result = [];
  result = [];
}

abbrev attach : Item → Progress → Progress
attach i p = record p { queue = p.queue ++ i ∷ []; attached = p.attached + 1 }

-- One event of the replay, by its payload.
apply_payload : ℕ → Payload → Progress → Progress
unfolding apply_transition apply_reorder
apply_payload seq (objective_created kind title) p = record p {
  status = status_open;
  kind = kind;
  title = title;
}
apply_payload seq (objective_updated none) p = p
apply_payload seq (objective_updated (some title)) p = record p { title = title }
apply_payload seq objective_closed p = record p { status = status_closed }
apply_payload seq objective_reopened p = record p { status = status_open }
apply_payload seq objective_canceled p = record p { status = status_canceled }
apply_payload seq (task_attached item_id task_id revision hash) p =
    attach (new_item p.attached item_id task_id revision hash) p
apply_payload seq (item_blocked id) p = moved p (apply_transition blocked id seq p.queue)
apply_payload seq (item_unblocked id) p = moved p (apply_transition waiting id seq p.queue)
apply_payload seq (item_skipped id) p = moved p (apply_transition skipped id seq p.queue)
apply_payload seq (item_unskipped id) p = moved p (apply_transition waiting id seq p.queue)
apply_payload seq (item_canceled id) p = moved p (apply_transition canceled id seq p.queue)
apply_payload seq (queue_reordered order) p = moved p (apply_reorder order seq p.queue)
apply_payload seq (run_review_decided d) p = record p { reviews = p.reviews ++ (d, seq) ∷ [] }
apply_payload seq run_result_applied p = p

pub apply_event : Event → Progress → Progress
unfolding apply_payload
apply_event e p = apply_payload e.seq e.payload p

pub apply_events : List Event → Progress → Progress
apply_events [] p = p
apply_events (e ∷ es) p = apply_events es (apply_event e p)

-- The first loop of `replayObjective`: `seen` are the event ids before.
pub id_findings : Text → List Text → List Event → List Finding
id_findings objective_id seen [] = []
id_findings objective_id seen (e ∷ es) =
    let rest = id_findings objective_id (e.event_id ∷ seen) es in
    let foreign =
      if e.objective_id == objective_id
      then rest
      else finding structural_failure event_objective_matches e.seq ∷ rest in
    if elem seen e.event_id
    then finding structural_failure event_id_unique e.seq ∷ foreign
    else foreign

-- The second loop: `expected` is the next number.
pub seq_findings : ℕ → List Event → List Finding
seq_findings expected [] = []
seq_findings expected (e ∷ es) =
    let rest = seq_findings (expected + 1) es in
    if nat_eq e.seq expected then rest else finding structural_failure seq_contiguous e.seq ∷ rest

abbrev is_structural : Finding → Bool
is_structural f = elim f.class [ structural_failure ↦ true | _ ↦ false ]

abbrev is_created : Event → Bool
is_created e = elim e.payload [ objective_created _ _ ↦ true | _ ↦ false ]

pub record Snapshot : Type 0 where
  pub status : Status
  pub kind : Kind
  pub title : Text
  pub queue : List Item
  pub cursor : Text
  pub complete : Bool  -- `replayStatus` is COMPLETE
  pub last_seq : ℕ
  pub findings : List Finding
  pub events_applied : ℕ

last_seq : List Event → ℕ
last_seq [] = 0
last_seq (e ∷ []) = e.seq
last_seq (e ∷ f ∷ es) = last_seq (f ∷ es)

unfoldable pub by_seq : List Event → List Event
by_seq events = sort_by (λ a b. ltb a.seq b.seq) events

-- The queue that a sound ledger derives, and what the derivation found.
pub derived_from : Progress → List Item × List Finding
derived_from p =
    let (queue, found) = apply_reviews (overturned (map (λ r. r.0) p.reviews)) p.reviews p.queue in
    (derive_states p.kind queue, p.findings ++ found)

-- `replayObjective` of the events read, with the findings of their parsing.
pub replay : Text → List Finding → List Event → Snapshot
unfolding last_seq derived_from
replay objective_id parse_findings events =
    let sorted = by_seq events in
    let found = parse_findings ++ (id_findings objective_id [] events ++ seq_findings 1 sorted) in
    let created = any is_created sorted in
    if any is_structural found
    then record {
      status = status_open;
      kind = one_off;
      title = [];
      queue = [];
      cursor = [];
      complete = false;
      last_seq = last_seq sorted;
      findings = found;
      events_applied = 0;
    }
    else if not created
    then record {
      status = status_open;
      kind = one_off;
      title = [];
      queue = [];
      cursor = [];
      complete = false;
      last_seq = last_seq sorted;
      findings =
          found
          ++ record { class = reference_failure; check = created_present; affected = none } ∷ [];
      events_applied = 0;
    }
    else let p = apply_events sorted start in
      let (queue, later) = derived_from p in
      record {
        status = p.status;
        kind = p.kind;
        title = p.title;
        queue = queue;
        cursor = cursor_of queue;
        complete = true;
        last_seq = last_seq sorted;
        findings = found ++ later;
        events_applied = length sorted;
      }
