-- ===== src/Task/Approval/Effective.antt =====
-- An approval that is not refused takes effect.
use code_fleet.Prelude.{
  ℕ, ◌+◌, ◌≡◌, refl, sym, subst, ap, ◌∙◌, inl, inr, true, false, none, some, [], ◌∷◌, ◌++◌, Text,
  ◌==◌, ==_iff, any, Bool-cases, is_blank, ok, arith,
}
use code_fleet.Task.{
  task_revision_created, task_approved, Event, Replayed, nothing_replayed, by_seq, replay_approval,
}
use code_fleet.Task.Standing.{Stands, Stands-Holds, replay_approval_iff}
use code_fleet.Task.Documents.{
  TaskRevisionDocument, of_document, read_task_revision, document-written, document-read,
}
use code_fleet.Task.Approval.{
  TaskStore, Request, event_for, created_fields, approved_fields, document_of, replay_of, target_of,
  approved_elsewhere, revision_or_zero, approve_precheck, is_approved, approve_append,
  approve_postcheck, approve_steps, approve_task,
}
use code_fleet.Task.Approval.Order.{Numbered, by_seq-Numbered}
use code_fleet.Task.Approval.Appending.{appended_events, appended_events-Stands}
use code_fleet.Mutation.{LockHolder, Machine, success_of}
use code_fleet.Mutation.Commits.{run_mutation-done}

module _ (approval_target_of : (revision_hash guardrail_hash : Text) → Text) (sha256 : Text → Text)
    (decimal : ℕ → Text) where
  document_of-fields :
      (q : Request) (id : Text) (revision : ℕ) (created : Event)
      → ((document_of approval_target_of sha256 decimal q id revision created).document_revision
          ≡ revision)
        × ((document_of approval_target_of sha256 decimal q id revision created).content_hash
            ≡ q.current_hash)
        × ((document_of approval_target_of sha256 decimal q id revision created).source
            ≡ q.source_read)
  unfolding document_of
  document_of-fields q id revision created = (refl, refl, refl)

  -- What the replay of the request's ledger says
  abbrev pub state_of : Request → TaskStore → Replayed
  state_of q s = (replay_of approval_target_of sha256 decimal q s).replayed

  precheck_passes :
      (q : Request) (s : TaskStore)
      → q.feasible ≡ true
      → (state_of q s).approved_revision ≡ none
      → approve_precheck approval_target_of sha256 decimal q s ≡ (s, ok tt)
  unfolding approve_precheck approved_elsewhere
  precheck_passes q s f a =
      elim (Bool-cases
        ((state_of q s).approved_hash == target_of approval_target_of sha256 decimal q)) [
          | inl same ↦ ground arith
          | inr other ↦ ground arith
        ]

  not_yet_approved :
      (q : Request) (s : TaskStore)
      → ((state_of q s).approved_hash == target_of approval_target_of sha256 decimal q) ≡ false
      → is_approved approval_target_of sha256 decimal q s ≡ (s, ok false)
  unfolding is_approved
  not_yet_approved q s h = ground arith

  approve_append-written :
      (q : Request) (id : Text) (s : TaskStore)
      → any (of_document ((state_of q s).latest_revision + 1)) s.revisions ≡ false
      → (d : TaskRevisionDocument) × (e : Event) × ((approve_append approval_target_of sha256
              decimal q id s
            ≡ (
              record {
                events =
                    appended_events approval_target_of sha256 decimal q id
                      (state_of q s).latest_revision
                      (state_of q s).latest_revision_hash
                      s.events;
                revisions = s.revisions ++ d ∷ [];
              },
              ok e,
            ))
          × (d.document_revision ≡ (state_of q s).latest_revision + 1)
          × (d.content_hash ≡ q.current_hash)
          × (d.source ≡ q.source_read))
  unfolding approve_append appended_events
  approve_append-written q id s h =
      let revision = (state_of q s).latest_revision + 1 in
      let created =
        event_for approval_target_of sha256 decimal q id s.events task_revision_created
          (created_fields approval_target_of sha256 decimal q revision) q.at_created in
      let approved =
        event_for approval_target_of sha256 decimal q id (created.0) task_approved
          (approved_fields approval_target_of sha256 decimal q revision) q.at_approved in
      let d = document_of approval_target_of sha256 decimal q id revision (created.1) in
      let (r, c, k) = document_of-fields q id revision (created.1) in
      let written =
        document-written d s.revisions
          (subst (λ n. any (of_document n) s.revisions ≡ false) (sym r) h) in
      (d, approved.1, (ground arith, r, c, k))

  state-Holds :
      (q : Request) (s : TaskStore) (revision : ℕ)
      → Numbered 1 s.events
      → Stands s.events revision q.current_hash (target_of approval_target_of sha256 decimal q)
      → ((replay_of approval_target_of sha256 decimal q s).blocked_reason ≡ none)
        × ((state_of q s).approved_revision ≡ some revision)
  unfolding replay_of target_of replay_approval
  state-Holds q s revision n stands =
      let sorted = by_seq-Numbered s.events n in
      let target = approval_target_of q.current_hash q.current_guardrail_hash in
      let in_order = subst (λ l. Stands l revision q.current_hash target) (sym sorted) stands in
      (
        (replay_approval_iff approval_target_of s.events q.current_hash q.current_guardrail_hash).1
            (revision, in_order),
        (Stands-Holds nothing_replayed (by_seq s.events) revision q.current_hash target in_order).0,
      )

  postcheck_passes :
      (q : Request) (s : TaskStore) (revision : ℕ) (d : TaskRevisionDocument)
      → (replay_of approval_target_of sha256 decimal q s).blocked_reason ≡ none
      → (state_of q s).approved_revision ≡ some revision
      → read_task_revision sha256 revision s.revisions ≡ ok d
      → d.content_hash ≡ q.current_hash
      → approve_postcheck approval_target_of sha256 decimal q s ≡ (s, ok tt)
  unfolding approve_postcheck revision_or_zero
  postcheck_passes q s revision d b r k c =
      let same = (==_iff d.content_hash q.current_hash).1 c in ground arith

  -- If the request has a reason, no process holds the lock, the contract is feasible, the ledger is
  -- numbered in the order of its lines, no approval is in force, the last approved target is not this one,
  -- the next revision has no document yet, and the content that is read has the hash that was taken,
  -- then approveTask succeeds and releases the lock; in the ledger that it leaves nothing stands
  -- against running the task, and the approved revision is the one after the latest.
  pub approve_task-Effective :
      (q : Request) (holder : LockHolder) (m : Machine TaskStore)
      → is_blank q.request_reason ≡ false
      → m.lock ≡ none
      → q.feasible ≡ true
      → Numbered 1 (m.world).events
      → (state_of q m.world).approved_revision ≡ none
      → ((state_of q m.world).approved_hash == target_of approval_target_of sha256 decimal q)
        ≡ false
      → any (of_document ((state_of q m.world).latest_revision + 1)) (m.world).revisions ≡ false
      → sha256 q.source_read ≡ q.current_hash
      → (after : TaskStore) × (e : Event) × ((approve_task approval_target_of sha256 decimal q
              holder m
            ≡ (
              record { world = after; lock = none },
              ok (success_of holder.mutation_id true false (some e)),
            ))
          × ((replay_of approval_target_of sha256 decimal q after).blocked_reason ≡ none)
          × ((state_of q after).approved_revision
              ≡ some ((state_of q m.world).latest_revision + 1)))
  unfolding approve_task approve_steps
  approve_task-Effective q holder m reason free feasible numbered unapproved other new content =
      let s = m.world in
      let revision = (state_of q s).latest_revision + 1 in
      let (d, e, (appended, r, c, k)) = approve_append-written q holder.mutation_id s new in
      let after : TaskStore = record {
        events =
            appended_events approval_target_of sha256 decimal q holder.mutation_id
              (state_of q s).latest_revision (state_of q s).latest_revision_hash s.events;
        revisions = s.revisions ++ d ∷ [];
      } in
      let (n, stands) =
        appended_events-Stands approval_target_of sha256 decimal q holder.mutation_id
          (state_of q s).latest_revision (state_of q s).latest_revision_hash s.events numbered in
      let (unblocked, approved) = state-Holds q after revision n stands in
      let read =
        document-read sha256 revision d s.revisions new r (ap sha256 k ∙ content ∙ sym c) in
      let done =
        run_mutation-done (approve_steps approval_target_of sha256 decimal q holder.mutation_id)
          holder m after e free (precheck_passes q s feasible unapproved)
          (not_yet_approved q s other) appended refl
          (postcheck_passes q after revision d unblocked approved read c) in
      (after, e, (rw reason done, unblocked, approved))
