-- ===== src/Task/Approval/Appending.antt =====
-- The ledger that an approval leaves: numbered, with the new revision standing approved.
use mathlib.Core.List.{append_assoc, append-nil}
use code_fleet.Prelude.{
  ℕ, ◌+◌, ◌≡◌, refl, sym, subst, ap, ◌∙◌, inl, inr, true, false, List, [], ◌∷◌, ◌++◌, Text, ltb,
  All, Bool-cases, arith,
}
use code_fleet.Task.{task_revision_created, task_approved, task_revision_superseded, Event}
use code_fleet.Task.Standing.{Leaves, Stands}
use code_fleet.Task.Approval.{
  Request, event_for, created_fields, approved_fields, superseded_fields, supersede, target_of,
}
use code_fleet.Task.Approval.Order.{Numbered, event_for-Appended, Appended-Numbered}

module _ (approval_target_of : (revision_hash guardrail_hash : Text) → Text) (sha256 : Text → Text)
    (decimal : ℕ → Text) where
  supersede-first :
      (q : Request) (id : Text) (revision : ℕ) (latest : Text) (es : List Event)
      → ltb 1 revision ≡ false
      → supersede approval_target_of sha256 decimal q id revision latest es ≡ es
  unfolding supersede
  supersede-first q id revision latest es h = ground arith

  supersede-later :
      (q : Request) (id : Text) (revision : ℕ) (latest : Text) (es : List Event)
      → ltb 1 revision ≡ true
      → supersede approval_target_of sha256 decimal q id revision latest es
        ≡ (event_for approval_target_of sha256 decimal q id es task_revision_superseded
            (superseded_fields approval_target_of sha256 decimal q revision latest)
            q.at_superseded).0
  unfolding supersede
  supersede-later q id revision latest es h = ground arith

  superseded-revision :
      (q : Request) (revision : ℕ) (latest : Text)
      → (superseded_fields approval_target_of sha256 decimal q (revision + 1) latest).of_revision
        ≡ revision
  unfolding superseded_fields
  superseded-revision q revision latest = omega arith

  -- The ledger after the succession is numbered, and its events past the approval leave it.
  supersede-Leaves :
      (q : Request) (id : Text) (revision : ℕ) (latest : Text) (es : List Event)
      → Numbered 1 es
      → (tail : List Event) × ((supersede approval_target_of sha256 decimal q id
              (revision + 1)
              latest
              es
            ≡ es ++ tail)
          × All (Leaves (revision + 1)) tail
          × Numbered 1 (supersede approval_target_of sha256 decimal q id (revision + 1) latest es))
  supersede-Leaves q id revision latest es n =
      let fields = superseded_fields approval_target_of sha256 decimal q (revision + 1) latest in
      let (after, e) =
        event_for approval_target_of sha256 decimal q id es task_revision_superseded fields
          q.at_superseded in
      let a =
        event_for-Appended approval_target_of sha256 decimal q id es task_revision_superseded fields
          q.at_superseded in
      let is_type = a.is_type in
      let of_revision = a.is_revision ∙ superseded-revision q revision latest in
      elim (Bool-cases (ltb 1 (revision + 1))) [
        | inr first ↦
            let same = supersede-first q id (revision + 1) latest es first in
            ([], (same ∙ sym (append-nil es), tt, subst (Numbered 1) (sym same) n))
        | inl later ↦
            let same = supersede-later q id (revision + 1) latest es later in
            (
              e ∷ [],
              (
                same ∙ a.at_end,
                ((λ k. cc, λ k. cc, λ k f. omega (arith, of_revision, f)), tt),
                subst (Numbered 1) (sym same) (
                    Appended-Numbered approval_target_of sha256 decimal es task_revision_superseded
                      fields after e n a),
              ),
            )
      ]

  -- The ledger that the append leaves, with the number of the latest revision and its hash
  unfoldable pub appended_events : Request → Text → ℕ → Text → List Event → List Event
  appended_events q id latest latest_hash es =
      let created =
        event_for approval_target_of sha256 decimal q id es task_revision_created
          (created_fields approval_target_of sha256 decimal q (latest + 1)) q.at_created in
      let approved =
        event_for approval_target_of sha256 decimal q id (created.0) task_approved
          (approved_fields approval_target_of sha256 decimal q (latest + 1)) q.at_approved in
      supersede approval_target_of sha256 decimal q id (latest + 1) latest_hash (approved.0)

  approved-hash :
      (q : Request) (revision : ℕ)
      → ((approved_fields approval_target_of sha256 decimal q revision).of_revision ≡ revision)
        × ((approved_fields approval_target_of sha256 decimal q revision).of_hash ≡ q.current_hash)
        × ((approved_fields approval_target_of sha256 decimal q revision).of_target
            ≡ target_of approval_target_of sha256 decimal q)
  unfolding approved_fields
  approved-hash q revision = (refl, refl, refl)

  pub appended_events-Stands :
      (q : Request) (id : Text) (latest : ℕ) (latest_hash : Text) (es : List Event)
      → Numbered 1 es
      → Numbered 1 (appended_events q id latest latest_hash es)
        × Stands
            (appended_events q id latest latest_hash es)
            (latest + 1)
            q.current_hash
            (target_of approval_target_of sha256 decimal q)
  unfolding appended_events
  appended_events-Stands q id latest latest_hash es n =
      let c_fields = created_fields approval_target_of sha256 decimal q (latest + 1) in
      let (es1, c) =
        event_for approval_target_of sha256 decimal q id es task_revision_created c_fields
          q.at_created in
      let ca =
        event_for-Appended approval_target_of sha256 decimal q id es task_revision_created c_fields
          q.at_created in
      let n1 =
        Appended-Numbered approval_target_of sha256 decimal es task_revision_created c_fields es1 c
          n ca in
      let a_fields = approved_fields approval_target_of sha256 decimal q (latest + 1) in
      let (es2, e) =
        event_for approval_target_of sha256 decimal q id es1 task_approved a_fields q.at_approved in
      let ea =
        event_for-Appended approval_target_of sha256 decimal q id es1 task_approved a_fields
          q.at_approved in
      let n2 =
        Appended-Numbered approval_target_of sha256 decimal es1 task_approved a_fields es2 e n1
          ea in
      let (tail, (same, leaves, n3)) = supersede-Leaves q id latest latest_hash es2 n2 in
      let (r, h, t) = approved-hash q (latest + 1) in
      (
        n3,
        (
          es1,
          e,
          tail,
          (
            same ∙ ap (λ l. l ++ tail) ea.at_end ∙ append_assoc es1 (e ∷ []) tail,
            ea.is_type,
            ea.is_revision ∙ r,
            ea.is_hash ∙ h,
            ea.is_target ∙ t,
            leaves,
          ),
        ),
      )
