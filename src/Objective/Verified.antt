-- ===== src/Objective/Verified.antt =====
-- What stands behind an item that the replay reports as VERIFIED.
use code_fleet.Prelude.{
  Exists, ℕ, ◌≡◌, ◌⊎◌, refl, sym, subst, ◌∙◌, ap, inl, inr, Bool, true, false, some, List, [], ◌∷◌,
  ◌++◌, map, Text, text, ◌==◌, ==_iff, elem, any, All, All-map, Bool-cases, Option-cases, arith,
}
use code_fleet.Objective.{
  Item, new_item, DerivedState, verified, underived, Kind, Decision, Event, Finding, Progress,
  update, item_with, decide, overturned, apply_review, apply_reviews, actor_satisfies,
  allowed_actors, is_verified, derive, derive_each, derive_states, derived_from, by_seq,
  apply_events, start, replay, id_findings, seq_findings, is_structural, is_created,
}
use code_fleet.Objective.Objects.{
  All-update, item_with-All, written, written-hit, Sound, apply_events-Sound, decisions_of,
  reviews-decisions_of,
}

-- The decision is not overturned, cites frozen evidence, and was made by an actor that its gate
-- allows.
pub record Effective (invalidated : List Text) (d : Decision) : Type 0 where
  pub standing : elem invalidated d.decision_id ≡ false
  pub evidence : d.bundle_hash == [] ≡ false
  pub actor : actor_satisfies d.actor_kind d.decision_basis (allowed_actors d.gate) ≡ true

-- The item carries this decision, which names it and is effective.
pub record Backs (invalidated : List Text) (i : Item) (r : Decision × ℕ) : Type 0 where
  pub names : i.id ≡ r.0.item_id
  pub same_decision : i.decision ≡ r.0.decision
  pub same_gate : i.gate_result ≡ r.0.gate_result
  pub same_result : i.result ≡ r.0.result
  pub effective : Effective invalidated r.0

apply_review-cases :
    (invalidated : List Text) (d : Decision) (seq : ℕ) (queue : List Item)
    → ((apply_review invalidated d seq queue).0 ≡ queue)
      ⊎ ((item : Item) × (item_with d.item_id queue ≡ some item)
          × Effective invalidated d
          × ((apply_review invalidated d seq queue).0 ≡ update (decide d) item.object queue))
unfolding apply_review
apply_review-cases invalidated d seq queue = elim (Option-cases (item_with d.item_id queue)) [
  | inl missing ↦ inl (ground arith)
  | inr (item, found) ↦ elim (Bool-cases (elem invalidated d.decision_id)) [
    | inl overturned ↦ inl (ground arith)
    | inr standing ↦ elim (Bool-cases (d.bundle_hash == [])) [
      | inl bare ↦ inl (ground arith)
      | inr evidence ↦
          elim (Bool-cases
            (actor_satisfies d.actor_kind d.decision_basis (allowed_actors d.gate))) [
              | inr refused ↦ inl (ground arith)
              | inl actor ↦ inr (
                item,
                found,
                record { standing = standing; evidence = evidence; actor = actor },
                ground arith,
              )
            ]
    ]
  ]
]

module _ (invalidated : List Text) where
  -- What an item is while the decisions are applied.
  abbrev Carries : (Item → Type 0) → (ℕ → Item) → Item → Type 0
  Carries Q heap i = (i ≡ heap i.object) × (i.derived ≡ underived) × Q i

  abbrev Decided : (Item → Type 0) → List Item → Type 0
  Decided Q queue = (heap : ℕ → Item) × All (Carries Q heap) queue

  -- A property that every effective decision gives to the item it names.
  abbrev Given : (Item → Type 0) → Decision × ℕ → Type 0
  Given Q r = (i : Item) → i.id ≡ r.0.item_id → Effective invalidated r.0 → Q (decide r.0 i)

  apply_review-Decided :
      (Q : Item → Type 0) (d : Decision) (seq : ℕ) (queue : List Item)
      → Given Q (d, seq)
      → Decided Q queue
      → Decided Q (apply_review invalidated d seq queue).0
  apply_review-Decided Q d seq queue gives (heap, h) =
      elim (apply_review-cases invalidated d seq queue) [
        | inl same ↦ subst (Decided Q) (sym same) (heap, h)
        | inr (item, found, effective, changed) ↦
            let (own, same_id) = item_with-All (Carries Q heap) queue d.item_id item h found in
            subst (Decided Q) (sym changed) (
              written (decide d) item.object heap,
              All-update (Carries Q heap) (Carries Q (written (decide d) item.object heap))
                  (decide d) item.object queue
                  (λ i k e.
                    let one : i ≡ item = k.0 ∙ ap heap e ∙ sym own.0 in
                    (
                      written-hit (decide d) item.object heap i (λ j. refl) k.0 e,
                      k.1,
                      gives i (ap (λ (x : Item). x.id) one ∙ (==_iff item.id d.item_id).0 same_id)
                          effective,
                    ))
                  (λ i k e. (rw e k.0, k.1, k.2)) h,
            )
      ]

  apply_reviews-Decided :
      (Q : Item → Type 0) (ds : List (Decision × ℕ)) (queue : List Item)
      → All (Given Q) ds
      → Decided Q queue
      → Decided Q (apply_reviews invalidated ds queue).0
  unfolding apply_reviews
  apply_reviews-Decided Q [] queue gives h = h
  apply_reviews-Decided Q ((d, seq) ∷ ds) queue gives h =
      apply_reviews-Decided Q ds (apply_review invalidated d seq queue).0 gives.1
        (apply_review-Decided Q d seq queue gives.0 h)

  abbrev pub Backed : List (Decision × ℕ) → Item → Type 0
  Backed ds i = (i.decision ≡ []) ⊎ Exists (Backs invalidated i) ds

  given_backing :
      (ds : List (Decision × ℕ))
      → All
          (λ r.
            (i : Item)
            → i.id ≡ r.0.item_id
            → Effective invalidated r.0
            → Exists (Backs invalidated (decide r.0 i)) ds)
          ds
  given_backing [] = tt
  given_backing (r ∷ ds) = (
    λ i named effective. inl (record {
      names = named;
      same_decision = refl;
      same_gate = refl;
      same_result = refl;
      effective = effective;
    }),
    All-map (λ q h i named effective. inr (h i named effective)) ds (given_backing ds),
  )

-- VERIFIED is derived only for an item that satisfies the condition.
derive-verified :
    (kind : Kind) (assigned : Bool) (i : Item)
    → (derive kind assigned i).0 ≡ verified
    → is_verified i ≡ true
unfolding derive
derive-verified kind assigned i h = ground arith

abbrev Derived : (Item → Type 0) → (ℕ → Item) → Item → Type 0
Derived Q heap i =
    (is_verified i ≡ is_verified (heap i.object))
    × (i.derived ≡ verified → is_verified i ≡ true)
    × Q i

derive_each-Derived :
    (Q : Item → Type 0) (heap : ℕ → Item) (kind : Kind) (assigned : Bool) (is queue : List Item)
    → ((i : Item) (state : DerivedState) → Q i → Q (record i { derived = state }))
    → All (λ i. i ≡ heap i.object) is
    → All (Derived Q heap) queue
    → All (Derived Q heap) (derive_each kind assigned is queue)
unfolding derive_each is_verified
derive_each-Derived Q heap kind assigned [] queue keeps h k = k
derive_each-Derived Q heap kind assigned (i ∷ is) queue keeps h k =
    let state = (derive kind assigned i).0 in
    derive_each-Derived Q heap kind (derive kind assigned i).1 is
      (update (λ j. record j { derived = state }) i.object queue) keeps h.1
      (All-update (Derived Q heap) (Derived Q heap) (λ j. record j { derived = state }) i.object
        queue
        (λ j q same. (
          q.0,
          λ e. q.0 ∙ ap is_verified (ap heap same ∙ sym h.0) ∙ derive-verified kind assigned i e,
          keeps j state q.2,
        ))
        (λ j q other. q) k)

-- A verified item is accepted, its gate is satisfied or waived, and its result is DONE.
is_verified-accepted : (i : Item) → is_verified i ≡ true → i.decision ≡ text "ACCEPTED"
unfolding is_verified
is_verified-accepted i h = (==_iff i.decision (text "ACCEPTED")).0 (ground arith)

Exists-derived :
    (inv : List Text) (ds : List (Decision × ℕ)) (i : Item) (state : DerivedState)
    → Exists (Backs inv i) ds
    → Exists (Backs inv (record i { derived = state })) ds
Exists-derived inv [] i state e = absurd e
Exists-derived inv (r ∷ ds) i state (inl b) = inl (record {
  names = b.names;
  same_decision = b.same_decision;
  same_gate = b.same_gate;
  same_result = b.same_result;
  effective = b.effective;
})
Exists-derived inv (r ∷ ds) i state (inr later) = inr (Exists-derived inv ds i state later)

Backed-derived :
    (inv : List Text) (ds : List (Decision × ℕ)) (i : Item) (state : DerivedState)
    → Backed inv ds i
    → Backed inv ds (record i { derived = state })
Backed-derived inv ds i state (inl blank) = inl blank
Backed-derived inv ds i state (inr e) = inr (Exists-derived inv ds i state e)

not_accepted : (i : Item) → i.decision ≡ [] → is_verified i ≡ true → ⊥
not_accepted i blank h =
    let accepted : [] ≡ text "ACCEPTED" = sym blank ∙ is_verified-accepted i h in cc

abbrev Answer : List (Decision × ℕ) → Item → Type 0
Answer ds i =
    i.derived ≡ verified
    → (is_verified i ≡ true) × Exists (Backs (overturned (map (λ r. r.0) ds)) i) ds

derived_from-Answer :
    (p : Progress) → Sound p.attached p.queue → All (Answer p.reviews) (derived_from p).0
unfolding derived_from derive_states
derived_from-Answer p s =
    let ds = p.reviews in
    let inv = overturned (map (λ (r : Decision × ℕ). r.0) ds) in
    let (heap, h) =
      apply_reviews-Decided inv (Backed inv ds) ds p.queue
        (All-map (λ r g i named e. inr (g i named e)) ds (given_backing inv ds))
        (s.heap, All-map (λ i k. (k.0, k.3, inl k.2)) p.queue s.holds) in
    let queue = (apply_reviews inv ds p.queue).0 in
    let all_derived =
      derive_each-Derived (Backed inv ds) heap p.kind false queue queue
        (λ i state b. Backed-derived inv ds i state b) (All-map (λ i k. k.0) queue h)
        (All-map (λ i k. (ap is_verified k.0, λ e. cc, k.2)) queue h) in
    All-map {P = Derived (Backed inv ds) heap} {Q = Answer ds}
      (λ i d v. (d.1 v, carried i d.2 (d.1 v))) (derive_states p.kind queue) all_derived
  where
    carried :
        (i : Item)
        → Backed (overturned (map (λ (r : Decision × ℕ). r.0) p.reviews)) p.reviews i
        → is_verified i ≡ true
        → Exists (Backs (overturned (map (λ (r : Decision × ℕ). r.0) p.reviews)) i) p.reviews
    carried i (inl blank) h = absurd (not_accepted i blank h)
    carried i (inr backing) h = backing

-- The queue is empty, or it is derived from the events in the order of their numbers.
replay-cases :
    (objective_id : Text) (parse_findings : List Finding) (events : List Event)
    → ((replay objective_id parse_findings events).queue ≡ [])
      ⊎ ((replay objective_id parse_findings events).queue
          ≡ (derived_from (apply_events (by_seq events) start)).0)
unfolding replay
replay-cases objective_id parse_findings events =
    let found =
      parse_findings ++ (id_findings objective_id [] events ++ seq_findings 1 (by_seq events)) in
    elim (Bool-cases (any is_structural found)) [
      | inl broken ↦ inl (ground arith)
      | inr sound ↦ elim (Bool-cases (any is_created (by_seq events))) [
        | inl created ↦ inr (ground arith)
        | inr absent ↦ inl (ground arith)
      ]
    ]

-- An item that the replay reports as VERIFIED carries the accepting decision of one of the review
-- events: the decision names the item, its gate was satisfied or waived, its result was DONE, no
-- review event overturns it, it cites frozen evidence, and its gate allows the actor that made it.
pub replay-verified :
    (objective_id : Text) (parse_findings : List Finding) (events : List Event)
    → let ds = decisions_of (by_seq events) in
      All
        (λ i.
          i.derived ≡ verified
          → (is_verified i ≡ true) × Exists (Backs (overturned (map (λ r. r.0) ds)) i) ds)
        (replay objective_id parse_findings events).queue
replay-verified objective_id parse_findings events =
    let p = apply_events (by_seq events) start in
    let s =
      apply_events-Sound (by_seq events) start (record { heap = λ k. blank_item; holds = tt }) in
    let answers : All (Answer (decisions_of (by_seq events))) (derived_from p).0 =
      subst (λ ds. All (Answer ds) (derived_from p).0) (reviews-decisions_of (by_seq events) start)
        (derived_from-Answer p s) in
    elim (replay-cases objective_id parse_findings events) [
      | inl empty ↦ subst (All (Answer (decisions_of (by_seq events)))) (sym empty) tt
      | inr same ↦ subst (All (Answer (decisions_of (by_seq events)))) (sym same) answers
    ]
  where
    blank_item : Item
    blank_item = new_item 0 [] [] 0 []
