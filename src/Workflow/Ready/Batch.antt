-- ===== src/Workflow/Ready/Batch.antt =====
-- What `readyBatch` answers with: eligible items that can run side by side, as many as there can be.
use mathlib.Core.List.{}
use code_fleet.Prelude.{
  ℕ, zero, suc, ◌+◌, ◌≤◌, ◌<◌, ◌≡◌, ◌≢◌, ◌⊎◌, refl, ap, subst, inl, inr, true, false, some, List,
  [], ◌∷◌, ◌++◌, Text, ◌==◌, ==_iff, ==_refl, elem, all, length, All, All-map, All-both, Chain,
  Chain-snoc, nat_eq, Bool-cases, Option-cases, arith,
}
use code_fleet.Workflow.{
  WorkItem, Workflow, parallel_limit, item_of, ready, considered, States, is_succeeded, ids,
  overlap,
}
use code_fleet.Workflow.Ready.{is_eligible, next_ready, consider, batch_from, ready_batch}
use code_fleet.Workflow.Ready.Best.{next_ready-All, next_ready_lem}
use code_fleet.Workflow.Ready.Loop.{
  resources_of, resources_of-snoc, overlap-append, ids-snoc, ready_count, ready_count-le_length,
  ready_count-lt, still_room, item_of-any, batch_stop, batch_skip, batch_full, batch_more,
}

module _ (w : Workflow) (states : States) where
  -- What an item of the batch is to the items before it.
  pub record Fits (before : List WorkItem) (n : WorkItem) : Type 0 where
    pub listed : item_of w.items n.id ≡ some n
    pub eligible : is_eligible states n ≡ true
    pub distinct : elem (ids before) n.id ≡ false
    pub apart : overlap n.resources (resources_of before) ≡ false

  -- The item is in the batch, or shares a resource with it.
  abbrev pub Answered : List WorkItem → WorkItem → Type 0
  Answered chosen n =
      (elem (ids chosen) n.id ≡ true) ⊎ (overlap n.resources (resources_of chosen) ≡ true)

  pub record IsBatch (chosen : List WorkItem) : Type 0 where
    pub fits : Chain Fits [] chosen
    pub within_limit : length chosen ≤ parallel_limit w
    pub maximal :
        (length chosen ≡ parallel_limit w)
        ⊎ All (λ n. is_eligible states n ≡ true → Answered chosen n) w.items

  abbrev Drawn : States → Type 0
  Drawn remaining =
      (k : Text) → (remaining k ≡ states k) ⊎ (remaining k ≡ considered) × (states k ≡ ready)

  record Loop (remaining : States) (chosen : List WorkItem) : Type 0 where
    fits : Chain Fits [] chosen
    drawn : Drawn remaining
    marked : (k : Text) → elem (ids chosen) k ≡ true → remaining k ≡ considered
    settled : All (λ n. remaining n.id ≡ considered → Answered chosen n) w.items
    few : length chosen < parallel_limit w

  all-succeeded :
      (s t : States) (ds : List Text)
      → ((d : Text) → is_succeeded (s d) ≡ true → is_succeeded (t d) ≡ true)
      → all (λ d. is_succeeded (s d)) ds ≡ true
      → all (λ d. is_succeeded (t d)) ds ≡ true
  all-succeeded s t [] step h = h
  all-succeeded s t (d ∷ ds) step h = ground (arith, step d, all-succeeded s t ds step)

  Drawn-eligible :
      (remaining : States) (n : WorkItem)
      → Drawn remaining
      → is_eligible remaining n ≡ true
      → is_eligible states n ≡ true
  Drawn-eligible remaining n drawn h = ground (
    arith,
    drawn n.id,
    all-succeeded remaining states n.dependencies (λ d p. ground (arith, drawn d)),
  )

  still_eligible :
      (remaining : States) (n : WorkItem)
      → Drawn remaining
      → is_eligible states n ≡ true
      → (remaining n.id ≡ considered) ⊎ (is_eligible remaining n ≡ true)
  still_eligible remaining n drawn h = ground (
    arith,
    drawn n.id,
    all-succeeded states remaining n.dependencies (λ d p. ground (arith, drawn d)),
  )

  Answered-snoc :
      (chosen : List WorkItem) (m n : WorkItem) → Answered chosen n → Answered (chosen ++ m ∷ []) n
  Answered-snoc chosen m n (inl p) = inl (rw (ids-snoc chosen m n.id) (ground arith))
  Answered-snoc chosen m n (inr p) = inr (
      rw (resources_of-snoc chosen m)
        (overlap-append n.resources (resources_of chosen) m.resources p))

  module _ (remaining : States) (chosen : List WorkItem) (m : WorkItem) (l : Loop remaining chosen)
      (listed : item_of w.items m.id ≡ some m) (takes : is_eligible remaining m ≡ true) where
    Drawn-after : Drawn (consider m.id remaining)
    Drawn-after k =
        ground (arith, ==_iff m.id k, l.drawn k, l.drawn m.id, λ (e : m.id ≡ k). ap states e)

    -- An item of the same id is the same item.
    settled_after :
        (chosen' : List WorkItem)
        → Answered chosen' m
        → ((n : WorkItem) → Answered chosen n → Answered chosen' n)
        → (n : WorkItem)
        → (item_of w.items n.id ≡ some n) × (remaining n.id ≡ considered → Answered chosen n)
        → consider m.id remaining n.id ≡ considered
        → Answered chosen' n
    settled_after chosen' now later n (own, before) h = elim (Bool-cases (m.id == n.id)) [
      | inl same ↦
          let e : m.id ≡ n.id = (==_iff m.id n.id).0 same in
          let one : m ≡ n = cc (ap (item_of w.items) e) in subst (Answered chosen') one now
      | inr other ↦ later n (before (ground arith))
    ]

    fresh_item : elem (ids chosen) m.id ≡ false
    fresh_item = elim (Bool-cases (elem (ids chosen) m.id)) [
      | inl old ↦ absurd (ground (arith, l.marked m.id old))
      | inr new ↦ new
    ]

    Loop-skip :
        All (λ n. item_of w.items n.id ≡ some n) w.items
        → overlap m.resources (resources_of chosen) ≡ true
        → Loop (consider m.id remaining) chosen
    Loop-skip own shared = record {
      fits = l.fits;
      drawn = Drawn-after;
      marked = λ k h. ground (arith, l.marked k h);
      settled =
          All-map (settled_after chosen (inr shared) (λ n a. a)) w.items
            (All-both _ _ w.items own l.settled);
      few = l.few;
    }

    Fits-next : overlap m.resources (resources_of chosen) ≡ false → Fits chosen m
    Fits-next apart = record {
      listed = listed;
      eligible = Drawn-eligible remaining m l.drawn takes;
      distinct = fresh_item;
      apart = apart;
    }

    Loop-take :
        All (λ n. item_of w.items n.id ≡ some n) w.items
        → overlap m.resources (resources_of chosen) ≡ false
        → length (chosen ++ m ∷ []) < parallel_limit w
        → Loop (consider m.id remaining) (chosen ++ m ∷ [])
    Loop-take own apart few = record {
      fits = Chain-snoc Fits [] chosen m l.fits (Fits-next apart);
      drawn = Drawn-after;
      marked = λ k h. ground (arith, ids-snoc chosen m k, l.marked k);
      settled =
          All-map
            (settled_after (chosen ++ m ∷ [])
              (inl (rw (ids-snoc chosen m m.id) (ground (arith, ==_refl m.id))))
              (λ n. Answered-snoc chosen m n))
            w.items (All-both _ _ w.items own l.settled);
      few = few;
    }

    full-IsBatch :
        overlap m.resources (resources_of chosen) ≡ false
        → length (chosen ++ m ∷ []) ≡ parallel_limit w
        → IsBatch (chosen ++ m ∷ [])
    full-IsBatch apart full = record {
      fits = Chain-snoc Fits [] chosen m l.fits (Fits-next apart);
      within_limit = omega arith;
      maximal = inl full;
    }

  exhausted-IsBatch :
      (remaining : States) (chosen : List WorkItem)
      → Loop remaining chosen
      → All (λ n. is_eligible remaining n ≡ false) w.items
      → IsBatch chosen
  exhausted-IsBatch remaining chosen l out = record {
    fits = l.fits;
    within_limit = omega (arith, l.few);
    maximal = inr (
        All-map
          (λ n h e. elim (still_eligible remaining n l.drawn e) [
            | inl taken ↦ h.1 taken
            | inr again ↦ cc
          ])
          w.items (All-both _ _ w.items out l.settled));
  }

  module _ (own : All (λ n. item_of w.items n.id ≡ some n) w.items) where
    batch_from-IsBatch :
        (f : ℕ) (remaining : States) (chosen : List WorkItem)
        → ready_count remaining w.items < f
        → Loop remaining chosen
        → IsBatch (batch_from f w remaining chosen (resources_of chosen))
    batch_from-IsBatch zero remaining chosen h l = absurd (omega arith)
    batch_from-IsBatch (suc f) remaining chosen h l = elim (Option-cases (next_ready w remaining)) [
      | inl stop ↦
          rw (batch_stop f w remaining chosen (resources_of chosen) stop)
            (exhausted-IsBatch remaining chosen l ((next_ready_lem w remaining).1 stop))
      | inr (m, found) ↦
          let (listed, takes) =
            next_ready-All (λ n. item_of w.items n.id ≡ some n) w remaining m own found in
          let fewer =
            ready_count-lt m.id remaining w.items (item_of-any w.items m.id m listed)
              (ground arith) in
          elim (Bool-cases (overlap m.resources (resources_of chosen))) [
            | inl shared ↦
                rw (batch_skip f w remaining chosen (resources_of chosen) m found shared) (
                  batch_from-IsBatch f (consider m.id remaining) chosen (omega arith)
                    (Loop-skip remaining chosen m l listed takes own shared))
            | inr apart ↦
                elim (Bool-cases (nat_eq (length (chosen ++ m ∷ [])) (parallel_limit w))) [
                  | inl full ↦
                      rw (batch_full f w remaining chosen (resources_of chosen) m found apart full)
                        (full-IsBatch remaining chosen m l listed takes apart (ground arith))
                  | inr more ↦
                      rw
                        (
                          batch_more f w remaining chosen (resources_of chosen) m found apart more,
                          ← resources_of-snoc chosen m,
                        )
                        (batch_from-IsBatch f (consider m.id remaining) (chosen ++ m ∷ [])
                          (omega arith)
                          (Loop-take remaining chosen m l listed takes own apart
                            (still_room chosen m (parallel_limit w) l.few more)))
                ]
          ]
    ]

  -- In a workflow whose ids are distinct, the batch holds distinct eligible items of the workflow of
  -- which no two share a resource, at most `parallelLimit` of them. It is filled to the limit, or
  -- every eligible item is in it or shares a resource with it.
  pub ready_batch-IsBatch :
      All (λ n. item_of w.items n.id ≡ some n) w.items
      → ((k : Text) → states k ≢ considered)
      → 0 < parallel_limit w
      → IsBatch (ready_batch w states)
  unfolding ready_batch
  ready_batch-IsBatch own initial room =
      batch_from-IsBatch own (length w.items + 1) states []
        (omega (arith, ready_count-le_length states w.items))
        (record {
          fits = tt;
          drawn = λ k. inl refl;
          marked = λ k h. unfold elem in cc;
          settled = All-map (λ n u h. absurd (initial n.id h)) w.items own;
          few = room;
        })
