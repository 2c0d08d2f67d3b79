-- ===== src/Task/Standing.antt =====
-- When the replay of a task's ledger leaves nothing that stands against running the task.
use mathlib.Core.List.{}
use code_fleet.Prelude.{
  ℕ, ◌≡◌, ◌≢◌, ◌⊎◌, ◌↔◌, refl, sym, subst, ap, ◌∙◌, inl, inr, false, none, some, List, [], ◌∷◌,
  ◌++◌, Text, ==_iff, nat_eq, All, Bool-cases, Option-cases, arith,
}
use code_fleet.Task.{
  EventType, task_revision_created, task_approved, task_approval_invalidated,
  task_revision_superseded, Event, Replayed, nothing_replayed, is_revision, withdraw,
  without_approval, replay_event, replay_events, by_seq, block_of, replay_approval,
}

-- The event leaves the approval of the revision as it is: it approves nothing, and it is no
-- invalidation and no supersession of this revision.
abbrev pub Leaves : ℕ → Event → Type 0
Leaves revision e =
    (e.event_type ≢ task_approved)
    × (e.event_type ≡ task_approval_invalidated → e.task_revision ≢ revision)
    × (e.event_type ≡ task_revision_superseded → e.task_revision ≢ revision)

-- What the replay keeps of an approval
abbrev pub Holds : Replayed → ℕ → Text → Text → Type 0
Holds s revision hash target =
    (s.approved_revision ≡ some revision)
    × (s.approved_revision_hash ≡ hash)
    × (s.approved_hash ≡ target)

EventType-cases :
    (t : EventType)
    → ((t ≡ task_revision_created) ⊎ (t ≡ task_approved))
      ⊎ ((t ≡ task_approval_invalidated) ⊎ (t ≡ task_revision_superseded))
EventType-cases task_revision_created = inl (inl refl)
EventType-cases task_approved = inl (inr refl)
EventType-cases task_approval_invalidated = inr (inl refl)
EventType-cases task_revision_superseded = inr (inr refl)

not_equal : (a b : ℕ) → a ≢ b → nat_eq a b ≡ false
not_equal a b h = ground arith

withdraw-other :
    (s : Replayed) (e : Event) (revision : ℕ) (hash target : Text)
    → e.task_revision ≢ revision
    → Holds s revision hash target
    → Holds (withdraw s e) revision hash target
unfolding withdraw is_revision
withdraw-other s e revision hash target other (a, b, c) =
    let differs = not_equal revision e.task_revision (λ k. other (sym k)) in
    (ground arith, ground arith, ground arith)

replay_event-Leaves :
    (s : Replayed) (e : Event) (revision : ℕ) (hash target : Text)
    → Leaves revision e
    → Holds s revision hash target
    → Holds (replay_event s e) revision hash target
unfolding replay_event
replay_event-Leaves s e revision hash target (plain, invalidated, superseded) h =
    elim (EventType-cases e.event_type) [
      | inl (inl created) ↦ let (a, b, c) = h in (ground arith, ground arith, ground arith)
      | inl (inr approved) ↦ absurd (plain approved)
      | inr (inl is) ↦
          let (a, b, c) = withdraw-other s e revision hash target (invalidated is) h in
          (ground arith, ground arith, ground arith)
      | inr (inr is) ↦
          let (a, b, c) = withdraw-other s e revision hash target (superseded is) h in
          (ground arith, ground arith, ground arith)
    ]

replay_events-Leaves :
    (s : Replayed) (es : List Event) (revision : ℕ) (hash target : Text)
    → All (Leaves revision) es
    → Holds s revision hash target
    → Holds (replay_events s es) revision hash target
unfolding replay_events
replay_events-Leaves s [] revision hash target leaves h = h
replay_events-Leaves s (e ∷ es) revision hash target leaves h =
    replay_events-Leaves (replay_event s e) es revision hash target leaves.1
      (replay_event-Leaves s e revision hash target leaves.0 h)

replay_events-append :
    (s : Replayed) (before after : List Event)
    → replay_events s (before ++ after) ≡ replay_events (replay_events s before) after
unfolding replay_events
replay_events-append s [] after = refl
replay_events-append s (e ∷ es) after = replay_events-append (replay_event s e) es after

approval-Holds :
    (s : Replayed) (e : Event)
    → e.event_type ≡ task_approved
    → Holds (replay_event s e) e.task_revision e.revision_hash e.approval_target_hash
unfolding replay_event
approval-Holds s e h = (ground arith, ground arith, ground arith)

-- Some event of the list approves the revision with this content and this target, and those after it
-- leave it.
abbrev pub Stands : List Event → ℕ → Text → Text → Type 0
Stands events revision hash target =
    (before : List Event) × (e : Event) × (after : List Event) × ((events ≡ before ++ e ∷ after)
      × (e.event_type ≡ task_approved)
      × (e.task_revision ≡ revision)
      × (e.revision_hash ≡ hash)
      × (e.approval_target_hash ≡ target)
      × All (Leaves revision) after)

pub Stands-Holds :
    (s : Replayed) (events : List Event) (revision : ℕ) (hash target : Text)
    → Stands events revision hash target
    → Holds (replay_events s events) revision hash target
Stands-Holds s events revision hash target (before, e, after, (split, approved, r, h, t, leaves)) =
    let start = replay_events s before in
    let (a, b, c) = approval-Holds start e approved in
    let at : Holds (replay_event start e) revision hash target = (a ∙ ap some r, b ∙ h, c ∙ t) in
    let tail = replay_events-Leaves (replay_event start e) after revision hash target leaves at in
    let same : replay_events s events ≡ replay_events (replay_event start e) after =
      ap (replay_events s) split
      ∙ replay_events-append s before (e ∷ after)
      ∙ (unfold replay_events in refl) in
    subst (λ z. Holds z revision hash target) (sym same) tail

withdraw-back :
    (s : Replayed) (e : Event) (revision : ℕ) (hash target : Text)
    → Holds (withdraw s e) revision hash target
    → (e.task_revision ≢ revision) × Holds s revision hash target
unfolding withdraw is_revision without_approval
withdraw-back s e revision hash target (a, b, c) =
    elim (Bool-cases (is_revision s.approved_revision e.task_revision)) [
      | inl same ↦ absurd (ground arith)
      | inr other ↦
          let held : s.approved_revision ≡ some revision = ground arith in
          (λ k. ground arith, (held, ground arith, ground arith))
    ]

-- One event, read backwards: it is the approval, or it leaves one that held before.
replay_event-back :
    (s : Replayed) (e : Event) (revision : ℕ) (hash target : Text)
    → Holds (replay_event s e) revision hash target
    → ((e.event_type ≡ task_approved)
        × (e.task_revision ≡ revision)
        × (e.revision_hash ≡ hash)
        × (e.approval_target_hash ≡ target))
      ⊎ (Leaves revision e × Holds s revision hash target)
unfolding replay_event
replay_event-back s e revision hash target (a, b, c) = elim (EventType-cases e.event_type) [
  | inl (inl created) ↦
      inr ((λ k. cc, λ k. cc, λ k. cc), (ground arith, ground arith, ground arith))
  | inl (inr approved) ↦ inl (approved, ground arith, ground arith, ground arith)
  | inr (inl is) ↦
      let (other, held) =
        withdraw-back s e revision hash target (ground arith, ground arith, ground arith) in
      inr ((λ k. cc, λ k. other, λ k. cc), held)
  | inr (inr is) ↦
      let (other, held) =
        withdraw-back s e revision hash target (ground arith, ground arith, ground arith) in
      inr ((λ k. cc, λ k. cc, λ k. other), held)
]

Holds-Stands :
    (s : Replayed) (es : List Event) (revision : ℕ) (hash target : Text)
    → Holds (replay_events s es) revision hash target
    → Stands es revision hash target ⊎ (All (Leaves revision) es × Holds s revision hash target)
unfolding replay_events
Holds-Stands s [] revision hash target h = inr (tt, h)
Holds-Stands s (e ∷ es) revision hash target h =
    elim (Holds-Stands (replay_event s e) es revision hash target h) [
      | inl (before, f, after, (split, is, r, k, t, leaves)) ↦
          inl (e ∷ before, f, after, (ap (λ l. e ∷ l) split, is, r, k, t, leaves))
      | inr (leaves, held) ↦ elim (replay_event-back s e revision hash target held) [
        | inl (approved, r, k, t) ↦ inl ([], e, es, (refl, approved, r, k, t, leaves))
        | inr (leaves_e, before) ↦ inr ((leaves_e, leaves), before)
      ]
    ]

module _ (approval_target_of : (revision_hash guardrail_hash : Text) → Text) where
  block_of-none :
      (s : Replayed) (current_hash guardrail_hash : Text)
      → block_of approval_target_of s current_hash guardrail_hash ≡ none
      → (revision : ℕ) × Holds s revision current_hash
          (approval_target_of current_hash guardrail_hash)
  unfolding block_of
  block_of-none s current_hash guardrail_hash h =
      let (c_to, c_from) = ==_iff s.approved_revision_hash current_hash in
      let (t_to, t_from) =
        ==_iff s.approved_hash (approval_target_of current_hash guardrail_hash) in
      elim (Option-cases s.approved_revision) [
        | inl absent ↦ absurd (ground arith)
        | inr (revision, e) ↦ (revision, (e, c_to (ground arith), t_to (ground arith)))
      ]

  Holds-block_of :
      (s : Replayed) (revision : ℕ) (current_hash guardrail_hash : Text)
      → Holds s revision current_hash (approval_target_of current_hash guardrail_hash)
      → block_of approval_target_of s current_hash guardrail_hash ≡ none
  unfolding block_of
  Holds-block_of s revision current_hash guardrail_hash (a, b, c) =
      let same = (==_iff s.approved_revision_hash current_hash).1 b in
      let target = (==_iff s.approved_hash (approval_target_of current_hash guardrail_hash)).1 c in
      ground arith

  -- Nothing stands against running a task exactly when some event of its ledger, in the order of their
  -- numbers, approves a revision with the hash of the current content and with the target of this
  -- content under the current guardrails, and no later event approves anything or invalidates or
  -- supersedes that revision.
  pub replay_approval_iff :
      (events : List Event) (current_hash guardrail_hash : Text)
      → ((replay_approval approval_target_of events current_hash guardrail_hash).blocked_reason
          ≡ none)
        ↔ ((revision : ℕ) × Stands
              (by_seq events)
              revision
              current_hash
              (approval_target_of current_hash guardrail_hash))
  unfolding replay_approval
  replay_approval_iff events current_hash guardrail_hash =
      let target = approval_target_of current_hash guardrail_hash in
      let state = replay_events nothing_replayed (by_seq events) in
      (
        λ h.
            let (revision, held) = block_of-none state current_hash guardrail_hash h in
            elim (Holds-Stands nothing_replayed (by_seq events) revision current_hash target held) [
              | inl stands ↦ (revision, stands)
              | inr (leaves, before) ↦ let e = before.0 in cc
            ],
        λ k.
            let (revision, stands) = k in
            Holds-block_of state revision current_hash guardrail_hash
              (Stands-Holds nothing_replayed (by_seq events) revision current_hash target stands),
      )
