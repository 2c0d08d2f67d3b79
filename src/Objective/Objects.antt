-- ===== src/Objective/Objects.antt =====
-- The entries of one object are one item, through every operation on the queue.
use mathlib.Core.List.{append-nil, append_assoc}
use code_fleet.Prelude.{
  ℕ, ◌+◌, ◌<◌, ◌≡◌, refl, sym, subst, ◌∙◌, ap, ◌⊎◌, inl, inr, Bool, true, false, not, none, some,
  List, [], ◌∷◌, ◌++◌, Text, ◌==◌, elem, any, all, keep, nat_eq, nat_eq_iff, All, All-map, All-keep,
  Bool-cases, Option-cases, if◌then◌else◌, arith,
}
use code_fleet.Objective.{
  Item, StoredState, waiting, underived, Event, Payload, Progress, Decision, update, item_with,
  allows, apply_transition, items_of, apply_reorder, is_history, apply_payload, apply_event,
  apply_events, new_item, objective_created, objective_updated, objective_closed,
  objective_reopened, objective_canceled, task_attached, item_blocked, item_unblocked, item_skipped,
  item_unskipped, item_canceled, queue_reordered, run_review_decided, run_result_applied, blocked,
  skipped, canceled,
}

pub All-append {ℓ κ} :
    {A : Type ℓ} (P : A → Type κ) (xs ys : List A) → All P xs → All P ys → All P (xs ++ ys)
All-append P [] ys h k = k
All-append P (x ∷ xs) ys h k = (h.0, All-append P xs ys h.1 k)

pub All-update :
    (P Q : Item → Type 0) (f : Item → Item) (o : ℕ) (queue : List Item)
    → ((i : Item) → P i → i.object ≡ o → Q (f i))
    → ((i : Item) → P i → nat_eq i.object o ≡ false → Q i)
    → All P queue
    → All Q (update f o queue)
unfolding update
All-update P Q f o [] hit miss h = tt
All-update P Q f o (i ∷ is) hit miss h = elim (Bool-cases (nat_eq i.object o)) [
  | inl same ↦
      rw same (hit i h.0 ((nat_eq_iff i.object o).0 same), All-update P Q f o is hit miss h.1)
  | inr other ↦ rw other (miss i h.0 other, All-update P Q f o is hit miss h.1)
]

pub item_with-All :
    (P : Item → Type 0) (queue : List Item) (id : Text) (i : Item)
    → All P queue
    → item_with id queue ≡ some i
    → P i × (i.id == id ≡ true)
item_with-All P [] id i h e = cc
item_with-All P (j ∷ queue) id i h e = elim (Bool-cases (j.id == id)) [
  | inl same ↦
      let one : j ≡ i = ground arith in
      (subst P one h.0, ap (λ (x : Item). x.id == id) (sym one) ∙ same)
  | inr other ↦ item_with-All P queue id i h.1 (ground arith)
]

-- `heap` gives the item of each object; an update writes to it.
abbrev pub written : (Item → Item) → ℕ → (ℕ → Item) → ℕ → Item
written f o heap k = if nat_eq k o then f (heap k) else heap k

pub written-hit :
    (f : Item → Item) (o : ℕ) (heap : ℕ → Item) (i : Item)
    → ((j : Item) → (f j).object ≡ j.object)
    → i ≡ heap i.object
    → i.object ≡ o
    → f i ≡ written f o heap (f i).object
written-hit f o heap i keeps e same =
    let at : nat_eq (f i).object o ≡ true = (nat_eq_iff (f i).object o).1 (keeps i ∙ same) in
    rw at (ap f (e ∙ ap heap (sym (keeps i))))

items_of-absent :
    (id : Text) (ids : List Text) (future : List Item)
    → item_with id future ≡ none
    → items_of (id ∷ ids) future ≡ items_of ids future
unfolding items_of
items_of-absent id ids future h = ground arith

items_of-found :
    (id : Text) (ids : List Text) (future : List Item) (i : Item)
    → item_with id future ≡ some i
    → items_of (id ∷ ids) future ≡ i ∷ items_of ids future
unfolding items_of
items_of-found id ids future i h = ground arith

items_of-All :
    (P : Item → Type 0) (ids : List Text) (future : List Item)
    → All P future
    → All P (items_of ids future)
items_of-All P [] future h = unfold items_of in tt
items_of-All P (id ∷ ids) future h = elim (Option-cases (item_with id future)) [
  | inl missing ↦
      subst (All P) (sym (items_of-absent id ids future missing)) (items_of-All P ids future h)
  | inr (i, found) ↦
      subst (All P) (sym (items_of-found id ids future i found))
        ((item_with-All P future id i h found).0, items_of-All P ids future h)
]

All-keep_all :
    (P : Item → Type 0) (p : Item → Bool) (queue : List Item) → All P queue → All P (keep p queue)
All-keep_all P p queue h = All-map (λ i k. k.0) (keep p queue) (All-keep P p queue h)

-- What holds of every item holds of every item after a reorder.
pub apply_reorder-All :
    (P : Item → Type 0) (order : List Text) (seq : ℕ) (queue : List Item)
    → All P queue
    → All P (apply_reorder order seq queue).0
unfolding apply_reorder
apply_reorder-All P order seq queue h =
    let future = keep (λ i. not (is_history i)) queue in
    let h' = All-keep_all P (λ i. not (is_history i)) queue h in
    elim (Bool-cases (all (λ id. any (λ i. i.id == id) future) order)) [
      | inl inside ↦ rw inside (
          All-append P (keep is_history queue)
            (items_of order future ++ keep (λ i. not (elem order i.id)) future)
            (All-keep_all P is_history queue h)
            (All-append P (items_of order future) (keep (λ i. not (elem order i.id)) future)
              (items_of-All P order future h')
              (All-keep_all P (λ i. not (elem order i.id)) future h')))
      | inr outside ↦ rw outside h
    ]

-- A transition leaves the queue or writes the state of one item, where that is allowed.
pub apply_transition-cases :
    (target : StoredState) (id : Text) (seq : ℕ) (queue : List Item)
    → ((apply_transition target id seq queue).0 ≡ queue)
      ⊎ ((item : Item) × (item_with id queue ≡ some item)
          × (allows item.stored target ≡ true)
          × ((apply_transition target id seq queue).0
              ≡ update (λ i. record i { stored = target }) item.object queue))
unfolding apply_transition
apply_transition-cases target id seq queue = elim (Option-cases (item_with id queue)) [
  | inl missing ↦ inl (ground arith)
  | inr (item, found) ↦ elim (Bool-cases (allows item.stored target)) [
    | inl allowed ↦ inr (item, found, allowed, ground arith)
    | inr forbidden ↦ inl (ground arith)
  ]
]

-- The three invariants on a queue.
abbrev Holds : (ℕ → Item) → ℕ → Item → Type 0
Holds heap n i = (i ≡ heap i.object) × (i.object < n) × (i.decision ≡ []) × (i.derived ≡ underived)

pub record Sound (attached : ℕ) (queue : List Item) : Type 0 where
  pub heap : ℕ → Item
  pub holds : All (Holds heap attached) queue

same-Sound : (n : ℕ) (queue queue' : List Item) → queue' ≡ queue → Sound n queue → Sound n queue'
same-Sound n queue queue' same s = subst (Sound n) (sym same) s

transition-Sound :
    (target : StoredState) (id : Text) (seq n : ℕ) (queue : List Item)
    → Sound n queue
    → Sound n (apply_transition target id seq queue).0
transition-Sound target id seq n queue s = elim (apply_transition-cases target id seq queue) [
  | inl same ↦ same-Sound n queue _ same s
  | inr (item, found, allowed, changed) ↦
      let f = λ (i : Item). record i { stored = target } in
      subst (Sound n) (sym changed) (record {
        heap = written f item.object s.heap;
        holds =
            All-update (Holds s.heap n) (Holds (written f item.object s.heap) n) f item.object queue
              (λ i k e. (written-hit f item.object s.heap i (λ j. refl) k.0 e, k.1, k.2, k.3))
              (λ i k e. (rw e k.0, k.1, k.2, k.3)) s.holds;
      })
]

attach-Sound :
    (i : Item) (queue : List Item)
    → i.decision ≡ []
    → i.derived ≡ underived
    → Sound i.object queue
    → Sound (i.object + 1) (queue ++ i ∷ [])
attach-Sound i queue blank early s =
    let heap = λ (k : ℕ). if nat_eq k i.object then i else s.heap k in
    record {
      heap = heap;
      holds =
          All-append (Holds heap (i.object + 1)) queue (i ∷ [])
            (All-map
              (λ (j : Item) (k : Holds s.heap i.object j).
                let other : nat_eq j.object i.object ≡ false = ground (arith, k.1) in
                (rw other k.0, omega (arith, k.1), k.2, k.3))
              queue s.holds)
            ((ground arith, omega arith, blank, early), tt);
    }

-- Each event keeps the entries of an object one item, numbers a new object afresh, and neither
-- decides nor derives.
apply_payload-Sound :
    (seq : ℕ) (q : Payload) (p : Progress)
    → Sound p.attached p.queue
    → Sound (apply_payload seq q p).attached (apply_payload seq q p).queue
unfolding apply_payload
apply_payload-Sound seq (objective_created kind title) p s = s
apply_payload-Sound seq (objective_updated none) p s = s
apply_payload-Sound seq (objective_updated (some title)) p s = s
apply_payload-Sound seq objective_closed p s = s
apply_payload-Sound seq objective_reopened p s = s
apply_payload-Sound seq objective_canceled p s = s
apply_payload-Sound seq (task_attached item_id task_id revision hash) p s =
    attach-Sound (new_item p.attached item_id task_id revision hash) p.queue refl refl s
apply_payload-Sound seq (item_blocked id) p s = transition-Sound blocked id seq p.attached p.queue s
apply_payload-Sound seq (item_unblocked id) p s =
    transition-Sound waiting id seq p.attached p.queue s
apply_payload-Sound seq (item_skipped id) p s = transition-Sound skipped id seq p.attached p.queue s
apply_payload-Sound seq (item_unskipped id) p s =
    transition-Sound waiting id seq p.attached p.queue s
apply_payload-Sound seq (item_canceled id) p s =
    transition-Sound canceled id seq p.attached p.queue s
apply_payload-Sound seq (queue_reordered order) p s = record {
  heap = s.heap;
  holds = apply_reorder-All (Holds s.heap p.attached) order seq p.queue s.holds;
}
apply_payload-Sound seq (run_review_decided d) p s = s
apply_payload-Sound seq run_result_applied p s = s

pub apply_events-Sound :
    (es : List Event) (p : Progress)
    → Sound p.attached p.queue
    → Sound (apply_events es p).attached (apply_events es p).queue
unfolding apply_events apply_event
apply_events-Sound [] p s = s
apply_events-Sound (e ∷ es) p s =
    apply_events-Sound es (apply_payload e.seq e.payload p)
      (apply_payload-Sound e.seq e.payload p s)

-- The review decision of an event, if it is one.
abbrev reviewed : ℕ → Payload → List (Decision × ℕ)
reviewed seq (run_review_decided d) = (d, seq) ∷ []
reviewed seq _ = []

-- The review decisions among the events, in their order.
abbrev pub decisions_of : List Event → List (Decision × ℕ)
decisions_of [] = []
decisions_of (e ∷ es) = reviewed e.seq e.payload ++ decisions_of es

apply_payload-reviews :
    (seq : ℕ) (q : Payload) (p : Progress)
    → (apply_payload seq q p).reviews ≡ p.reviews ++ reviewed seq q
unfolding apply_payload
apply_payload-reviews seq (objective_created kind title) p = sym (append-nil p.reviews)
apply_payload-reviews seq (objective_updated none) p = sym (append-nil p.reviews)
apply_payload-reviews seq (objective_updated (some title)) p = sym (append-nil p.reviews)
apply_payload-reviews seq objective_closed p = sym (append-nil p.reviews)
apply_payload-reviews seq objective_reopened p = sym (append-nil p.reviews)
apply_payload-reviews seq objective_canceled p = sym (append-nil p.reviews)
apply_payload-reviews seq (task_attached a b c d) p = sym (append-nil p.reviews)
apply_payload-reviews seq (item_blocked id) p = sym (append-nil p.reviews)
apply_payload-reviews seq (item_unblocked id) p = sym (append-nil p.reviews)
apply_payload-reviews seq (item_skipped id) p = sym (append-nil p.reviews)
apply_payload-reviews seq (item_unskipped id) p = sym (append-nil p.reviews)
apply_payload-reviews seq (item_canceled id) p = sym (append-nil p.reviews)
apply_payload-reviews seq (queue_reordered order) p = sym (append-nil p.reviews)
apply_payload-reviews seq (run_review_decided d) p = refl
apply_payload-reviews seq run_result_applied p = sym (append-nil p.reviews)

-- The replay gathers the review decisions of the events.
pub reviews-decisions_of :
    (es : List Event) (p : Progress) → (apply_events es p).reviews ≡ p.reviews ++ decisions_of es
unfolding apply_events apply_event
reviews-decisions_of [] p = sym (append-nil p.reviews)
reviews-decisions_of (e ∷ es) p =
    reviews-decisions_of es (apply_payload e.seq e.payload p)
    ∙ ap (λ rs. rs ++ decisions_of es) (apply_payload-reviews e.seq e.payload p)
    ∙ append_assoc p.reviews (reviewed e.seq e.payload) (decisions_of es)
