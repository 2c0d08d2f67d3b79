-- ===== src/Workflow/Order/Total.antt =====
-- The walk ends: its fuel is enough for every graph, and a graph with no cycle is never refused.
use code_fleet.Prelude.{
  ℕ, zero, suc, ◌+◌, ◌≤◌, ◌<◌, ◌≡◌, ◌≢◌, refl, ap, inl, inr, ◌∙◌, true, false, Option, some, List,
  [], ◌∷◌, Text, ==_iff, elem, length, ok, err, All, Bool-cases, Result-cases, if◌then◌else◌, arith,
}
use code_fleet.Workflow.Order.{exhausted, Walk, start, visit_each, enter, leave, visit, walk}
use code_fleet.Workflow.Order.Path.{Agrees, visit_again, visit_fresh, visit_err, visit-Lists}

-- How many of the keys are not on the path.
room : List Text → List Text → ℕ
room path [] = 0
room path (k ∷ ks) = if elem path k then room path ks else suc (room path ks)

room-cons_le : (key : Text) (path ks : List Text) → room (key ∷ path) ks ≤ room path ks
unfolding room elem
room-cons_le key path [] = omega arith
room-cons_le key path (k ∷ ks) = ground (arith, room-cons_le key path ks)

room-cons_lt :
    (key : Text) (path ks : List Text)
    → elem ks key ≡ true
    → elem path key ≡ false
    → room (key ∷ path) ks < room path ks
unfolding room elem
room-cons_lt key path [] h off = cc
room-cons_lt key path (k ∷ ks) h off =
    ground (arith, ==_iff k key, ==_iff key k, room-cons_le key path ks, room-cons_lt key path ks)

room-le_length : (path ks : List Text) → room path ks ≤ length ks
unfolding room
room-le_length path [] = omega arith
room-le_length path (k ∷ ks) = ground (arith, room-le_length path ks)

module _ (nodes : Text → Option (List Text)) (keys : List Text)
    (named : (k : Text) (deps : List Text) → nodes k ≡ some deps → elem keys k ≡ true) where
  visit_each-ne-exhausted :
      (f : ℕ)
      → ((k : Text) (w : Walk)
          → Agrees w
          → room w.visiting keys < f
          → visit nodes f k w ≢ err exhausted)
      → (ks : List Text) (w : Walk) → Agrees w
      → room w.visiting keys < f
      → visit_each (visit nodes f) ks w ≢ err exhausted
  unfolding visit_each
  visit_each-ne-exhausted f step [] w a h e = cc
  visit_each-ne-exhausted f step (k ∷ ks) w a h e = elim (Result-cases (visit nodes f k w)) [
    | inl (v, p) ↦
        let l = visit-Lists nodes f k w v a p in
        visit_each-ne-exhausted f step ks v l.agrees (rw l.grows.same_path h) (rw p at e)
    | inr (x, p) ↦ step k w a h (p ∙ (rw p at e))
  ]

  visit-ne-exhausted :
      (f : ℕ) (key : Text) (w : Walk)
      → Agrees w
      → room w.visiting keys < f
      → visit nodes f key w ≢ err exhausted
  visit-ne-exhausted zero key w a h e = absurd (omega arith)
  visit-ne-exhausted (suc f) key w a h e = elim (visit_err nodes f key w exhausted e) [
    | inl (_, x) ↦ cc
    | inr (inl (_, x)) ↦ cc
    | inr (inr b) ↦
        visit_each-ne-exhausted f (visit-ne-exhausted f) b.deps (enter key w) a
          (omega (arith, room-cons_lt key w.visiting keys (named key b.deps b.found) b.off_path))
          b.failed
  ]

  -- The fuel of `walk` is never used up, whatever the graph: it answers, or it names the fault.
  pub walk-ne-exhausted : walk nodes keys ≢ err exhausted
  unfolding walk
  walk-ne-exhausted =
      visit_each-ne-exhausted (length keys + 1) (visit-ne-exhausted (length keys + 1)) keys start
        (λ k. refl) (omega (arith, room-le_length [] keys))

  abbrev IsNode : Text → Type 0
  IsNode k = (deps : List Text) × (nodes k ≡ some deps)

  module _ (rank : Text → ℕ)
      (ranked : (k : Text) (deps : List Text)
        → nodes k ≡ some deps
        → All (λ d. IsNode d × (rank d < rank k)) deps) where
    abbrev Above : Text → Walk → Type 0
    Above key w = (j : Text) → elem w.visiting j ≡ true → rank key < rank j

    -- What a call needs in order to succeed.
    abbrev Ready : Text → Walk → Type 0
    Ready key w = IsNode key × Above key w

    Above-same : (v w : Walk) (key : Text) → v.visiting ≡ w.visiting → Above key w → Above key v
    Above-same v w key same above j on = above j (rw same at on)

    Ready-same :
        (v w : Walk) (ks : List Text)
        → v.visiting ≡ w.visiting
        → All (λ k. Ready k w) ks
        → All (λ k. Ready k v) ks
    Ready-same v w [] same r = tt
    Ready-same v w (k ∷ ks) same r =
        ((r.0.0, Above-same v w k same r.0.1), Ready-same v w ks same r.1)

    Ready-deps :
        (key : Text) (w : Walk) (deps : List Text)
        → Above key w
        → All (λ d. IsNode d × (rank d < rank key)) deps
        → All (λ d. Ready d (enter key w)) deps
    unfolding elem
    Ready-deps key w [] above r = tt
    Ready-deps key w (d ∷ ds) above r = (
      (r.0.0, λ j on. ground (arith, ==_iff key j, above j, λ (e : key ≡ j). ap rank e, r.0.1)),
      Ready-deps key w ds above r.1,
    )

    Ready-start : (ks : List Text) → All IsNode ks → All (λ k. Ready k start) ks
    unfolding elem
    Ready-start [] h = tt
    Ready-start (k ∷ ks) h = ((h.0, λ j on. cc), Ready-start ks h.1)

    visit_each-ok :
        (f : ℕ)
        → ((k : Text) (w : Walk)
            → Agrees w
            → room w.visiting keys < f
            → Ready k w
            → (w' : Walk) × (visit nodes f k w ≡ ok w'))
        → (ks : List Text) (w : Walk) → Agrees w
        → room w.visiting keys < f
        → All (λ k. Ready k w) ks
        → (w' : Walk) × (visit_each (visit nodes f) ks w ≡ ok w')
    unfolding visit_each
    visit_each-ok f step [] w a h r = (w, refl)
    visit_each-ok f step (k ∷ ks) w a h r =
        let (v, first) = step k w a h r.0 in
        let l = visit-Lists nodes f k w v a first in
        let (w', rest) =
          visit_each-ok f step ks v l.agrees (rw l.grows.same_path h)
            (Ready-same v w ks l.grows.same_path r.1) in
        (w', rw first rest)

    visit-ok :
        (f : ℕ) (key : Text) (w : Walk)
        → Agrees w
        → room w.visiting keys < f
        → Ready key w
        → (w' : Walk) × (visit nodes f key w ≡ ok w')
    visit-ok zero key w a h r = absurd (omega arith)
    visit-ok (suc f) key w a h ((deps, found), above) = elim (Bool-cases (elem w.visiting key)) [
      | inl on ↦ absurd (omega (arith, above key on))
      | inr off ↦ elim (Bool-cases (elem w.visited key)) [
        | inl old ↦ (w, visit_again nodes f key w found off old)
        | inr new ↦
            let (v, walked) =
              visit_each-ok f (visit-ok f) deps (enter key w) a
                (omega (arith, room-cons_lt key w.visiting keys (named key deps found) off))
                (Ready-deps key w deps above (ranked key deps found)) in
            (leave key v, visit_fresh nodes f key w v found off new walked)
      ]
    ]

    -- If some rank falls along every dependency and every dependency is a node, the walk succeeds.
    pub walk-ok : All IsNode keys → (w : Walk) × (walk nodes keys ≡ ok w)
    unfolding walk
    walk-ok all_nodes =
        visit_each-ok (length keys + 1) (visit-ok (length keys + 1)) keys start (λ k. refl)
          (omega (arith, room-le_length [] keys)) (Ready-start keys all_nodes)
