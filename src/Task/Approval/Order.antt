-- ===== src/Task/Approval/Order.antt =====
-- A ledger that is numbered from one on, in the order of its lines, and the events that are appended.
use mathlib.Core.List.{}
use code_fleet.Prelude.{
  ℕ, ◌+◌, ◌≡◌, refl, sym, subst, ap, ◌∙◌, List, [], ◌∷◌, ◌++◌, Text, length, sort_by, insert_by,
  arith,
}
use code_fleet.Task.{EventType, Event, earlier, by_seq}
use code_fleet.Task.Standing.{}
use code_fleet.Task.Approval.{Request, EventFields, append_task_event, event_for}

-- The events are numbered from `k` on.
abbrev pub Numbered : ℕ → List Event → Type 0
Numbered k [] = Unit
Numbered k (e ∷ es) = (e.seq ≡ k) × Numbered (k + 1) es

pub Numbered-snoc :
    (k : ℕ) (es : List Event) (e : Event)
    → Numbered k es
    → e.seq ≡ k + length es
    → Numbered k (es ++ e ∷ [])
Numbered-snoc k [] e h s = (omega (arith, s), tt)
Numbered-snoc k (f ∷ es) e h s = (h.0, Numbered-snoc (k + 1) es e h.1 (omega (arith, s)))

insert_first :
    (k : ℕ) (e : Event) (es : List Event)
    → e.seq ≡ k
    → Numbered (k + 1) es
    → insert_by earlier e es ≡ e ∷ es
unfolding insert_by earlier
insert_first k e [] s h = refl
insert_first k e (f ∷ es) s h = let a = h.0 in ground arith

sorted : (k : ℕ) (es : List Event) → Numbered k es → sort_by earlier es ≡ es
unfolding sort_by
sorted k [] h = refl
sorted k (e ∷ es) h = ap (insert_by earlier e) (sorted (k + 1) es h.1) ∙ insert_first k e es h.0 h.1

pub by_seq-Numbered : (es : List Event) → Numbered 1 es → by_seq es ≡ es
unfolding by_seq
by_seq-Numbered es h = sorted 1 es h

module _ (approval_target_of : (revision_hash guardrail_hash : Text) → Text) (sha256 : Text → Text)
    (decimal : ℕ → Text) where
  -- What an appended event is
  pub record Appended (es : List Event) (t : EventType) (fields : EventFields) (after : List Event)
      (e : Event) : Type 0 where
    pub at_end : after ≡ es ++ e ∷ []
    pub next_seq : e.seq ≡ length es + 1
    pub is_type : e.event_type ≡ t
    pub is_revision : e.task_revision ≡ fields.of_revision
    pub is_hash : e.revision_hash ≡ fields.of_hash
    pub is_target : e.approval_target_hash ≡ fields.of_target

  pub event_for-Appended :
      (q : Request) (id : Text) (es : List Event) (t : EventType) (fields : EventFields) (at : Text)
      → Appended es t fields
          ((event_for approval_target_of sha256 decimal q id es t fields at).0)
          ((event_for approval_target_of sha256 decimal q id es t fields at).1)
  unfolding event_for append_task_event
  event_for-Appended q id es t fields at = record {
    at_end = refl;
    next_seq = refl;
    is_type = refl;
    is_revision = refl;
    is_hash = refl;
    is_target = refl;
  }

  pub Appended-Numbered :
      (es : List Event) (t : EventType) (fields : EventFields) (after : List Event) (e : Event)
      → Numbered 1 es
      → Appended es t fields after e
      → Numbered 1 after
  Appended-Numbered es t fields after e h a =
      let next = a.next_seq in
      subst (Numbered 1) (sym a.at_end) (Numbered-snoc 1 es e h (omega (arith, next)))
