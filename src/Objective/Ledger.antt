-- ===== src/Objective/Ledger.antt =====
-- When the replay is complete, and what it never undoes.
use mathlib.Core.Bool.{false≢true}
use code_fleet.Prelude.{
  ℕ, ◌+◌, ◌<◌, ◌≡◌, ◌↔◌, refl, sym, subst, ◌∙◌, inl, inr, true, false, none, some, List, [], ◌∷◌,
  ◌++◌, Text, ==_iff, elem, any, any-append, All, arith,
}
use code_fleet.Objective.{
  Item, StoredState, waiting, blocked, skipped, canceled, Event, Payload, Progress, Finding,
  is_structural, is_created, id_findings, seq_findings, by_seq, replay, allows, apply_transition,
  apply_payload, apply_event, apply_events, new_item, objective_created, objective_updated,
  objective_closed, objective_reopened, objective_canceled, task_attached, item_blocked,
  item_unblocked, item_skipped, item_unskipped, item_canceled, queue_reordered, run_review_decided,
  run_result_applied,
}
use code_fleet.Objective.Order.{
  Numbered, IsNumbering, by_seq-IsNumbering, IsNumbering-by_seq, any-by_seq,
}
use code_fleet.Objective.Objects.{
  All-update, item_with-All, apply_transition-cases, apply_reorder-All, All-append,
}

-- The events belong to the objective, and each id is new.
abbrev pub Fresh : Text → List Text → List Event → Type 0
Fresh objective_id seen [] = Unit
Fresh objective_id seen (e ∷ es) =
    (elem seen e.event_id ≡ false)
    × (e.objective_id ≡ objective_id)
    × Fresh objective_id (e.event_id ∷ seen) es

pub record IsSoundLedger (objective_id : Text) (parse_findings : List Finding) (events : List Event)
    : Type 0 where
  pub parsed : any is_structural parse_findings ≡ false
  pub fresh : Fresh objective_id [] events
  pub numbered : IsNumbering events
  pub created : any is_created events ≡ true

id_findings-Fresh :
    (objective_id : Text) (seen : List Text) (es : List Event)
    → any is_structural (id_findings objective_id seen es) ≡ false
    → Fresh objective_id seen es
unfolding id_findings
id_findings-Fresh objective_id seen [] h = tt
id_findings-Fresh objective_id seen (e ∷ es) h = (
  ground arith,
  (==_iff e.objective_id objective_id).0 (ground arith),
  id_findings-Fresh objective_id (e.event_id ∷ seen) es (ground arith),
)

Fresh-id_findings :
    (objective_id : Text) (seen : List Text) (es : List Event)
    → Fresh objective_id seen es
    → any is_structural (id_findings objective_id seen es) ≡ false
unfolding id_findings
Fresh-id_findings objective_id seen [] h = refl
Fresh-id_findings objective_id seen (e ∷ es) h =
    let own = (==_iff e.objective_id objective_id).1 h.1 in
    let rest = Fresh-id_findings objective_id (e.event_id ∷ seen) es h.2 in
    ground (arith, h.0, own, rest)

seq_findings-Numbered :
    (k : ℕ) (es : List Event) → any is_structural (seq_findings k es) ≡ false → Numbered k es
unfolding seq_findings
seq_findings-Numbered k [] h = tt
seq_findings-Numbered k (e ∷ es) h = (ground arith, seq_findings-Numbered (k + 1) es (ground arith))

Numbered-seq_findings :
    (k : ℕ) (es : List Event) → Numbered k es → any is_structural (seq_findings k es) ≡ false
unfolding seq_findings
Numbered-seq_findings k [] h = refl
Numbered-seq_findings k (e ∷ es) h =
    let rest = Numbered-seq_findings (k + 1) es h.1 in ground (arith, h.0, rest)

-- The replay is complete exactly when every line parsed, the events belong to the objective, their ids
-- are distinct, they are numbered 1, 2, 3 and so on in some order, and one of them created the
-- objective. An illegal transition of the queue is no part of this, although its finding is of the
-- structural class.
pub replay-complete_iff :
    (objective_id : Text) (parse_findings : List Finding) (events : List Event)
    → ((replay objective_id parse_findings events).complete ≡ true)
      ↔ IsSoundLedger objective_id parse_findings events
unfolding replay
replay-complete_iff objective_id parse_findings events =
    let ids = id_findings objective_id [] events in
    let numbers = seq_findings 1 (by_seq events) in
    let split₁ = any-append is_structural parse_findings (ids ++ numbers) in
    let split₂ = any-append is_structural ids numbers in
    (
      λ h. record {
        parsed = ground (arith, split₁, split₂);
        fresh = id_findings-Fresh objective_id [] events (ground (arith, split₁, split₂));
        numbered =
            by_seq-IsNumbering events
              (seq_findings-Numbered 1 (by_seq events) (ground (arith, split₁, split₂)));
        created = sym (any-by_seq is_created events) ∙ ground arith;
      },
      λ l.
          let a = Fresh-id_findings objective_id [] events l.fresh in
          let b = Numbered-seq_findings 1 (by_seq events) (IsNumbering-by_seq events l.numbered) in
          let c = any-by_seq is_created events ∙ l.created in
          ground (arith, split₁, split₂, a, b, c, l.parsed),
    )

-- The object `o` is canceled wherever it stands.
abbrev pub Canceled : ℕ → Item → Type 0
Canceled o i = i.object ≡ o → i.stored ≡ canceled

not_allowed :
    (item : Item) (target : StoredState)
    → item.stored ≡ canceled
    → allows item.stored target ≡ true
    → ⊥
unfolding allows
not_allowed item target gone held =
    let no : allows item.stored target ≡ false = rw gone (never target) in
    false≢true (sym no ∙ held)
  where
    never : (target : StoredState) → allows canceled target ≡ false
    never waiting = refl
    never blocked = refl
    never skipped = refl
    never canceled = refl

transition-Canceled :
    (o : ℕ) (target : StoredState) (id : Text) (seq : ℕ) (queue : List Item)
    → All (Canceled o) queue
    → All (Canceled o) (apply_transition target id seq queue).0
transition-Canceled o target id seq queue h = elim (apply_transition-cases target id seq queue) [
  | inl same ↦ subst (All (Canceled o)) (sym same) h
  | inr (item, found, allowed, changed) ↦ subst (All (Canceled o)) (sym changed) (
      All-update (Canceled o) (Canceled o) (λ i. record i { stored = target }) item.object queue
        (λ i k same here. absurd (
          not_allowed item target
            ((item_with-All (Canceled o) queue id item h found).0 (sym same ∙ here)) allowed))
        (λ i k other. k) h)
]

payload-Canceled :
    (o seq : ℕ) (q : Payload) (p : Progress)
    → o < p.attached
    → All (Canceled o) p.queue
    → (o < (apply_payload seq q p).attached) × All (Canceled o) (apply_payload seq q p).queue
unfolding apply_payload
payload-Canceled o seq (objective_created kind title) p b h = (b, h)
payload-Canceled o seq (objective_updated none) p b h = (b, h)
payload-Canceled o seq (objective_updated (some title)) p b h = (b, h)
payload-Canceled o seq objective_closed p b h = (b, h)
payload-Canceled o seq objective_reopened p b h = (b, h)
payload-Canceled o seq objective_canceled p b h = (b, h)
payload-Canceled o seq (task_attached item_id task_id revision hash) p b h = (
  omega arith,
  All-append (Canceled o) p.queue (new_item p.attached item_id task_id revision hash ∷ []) h
      ((λ same. absurd (omega (arith, same, b))), tt),
)
payload-Canceled o seq (item_blocked id) p b h = (b, transition-Canceled o blocked id seq p.queue h)
payload-Canceled o seq (item_unblocked id) p b h =
    (b, transition-Canceled o waiting id seq p.queue h)
payload-Canceled o seq (item_skipped id) p b h = (b, transition-Canceled o skipped id seq p.queue h)
payload-Canceled o seq (item_unskipped id) p b h =
    (b, transition-Canceled o waiting id seq p.queue h)
payload-Canceled o seq (item_canceled id) p b h =
    (b, transition-Canceled o canceled id seq p.queue h)
payload-Canceled o seq (queue_reordered order) p b h =
    (b, apply_reorder-All (Canceled o) order seq p.queue h)
payload-Canceled o seq (run_review_decided d) p b h = (b, h)
payload-Canceled o seq run_result_applied p b h = (b, h)

-- If every entry of an attached object is CANCELED, it stays so, whatever events follow.
pub apply_events-Canceled :
    (o : ℕ) (es : List Event) (p : Progress)
    → o < p.attached
    → All (Canceled o) p.queue
    → All (Canceled o) (apply_events es p).queue
unfolding apply_events apply_event
apply_events-Canceled o [] p b h = h
apply_events-Canceled o (e ∷ es) p b h =
    let (b', h') = payload-Canceled o e.seq e.payload p b h in
    apply_events-Canceled o es (apply_payload e.seq e.payload p) b' h'
