-- ===== src/Objective/Order.antt =====
-- The order in which the replay of src/ledger.ts reads the events: by their numbers.
use mathlib.Core.List.{Permᴰ}
use mathlib.Core.List.Permᴰ
use mathlib.Core.List.Permᴰ.{nil, cons, swap, trans}
use code_fleet.Prelude.{
  ℕ, ◌+◌, ◌≤◌, ◌≡◌, ◌≢◌, refl, sym, ap, subst, ◌∙◌, inl, inr, Bool, List, [], ◌∷◌, All, All-map,
  any, ◌||◌, ltb, insert_by, sort_by, Bool-cases, arith,
}
use code_fleet.Objective.{Event, by_seq}

-- The events are numbered from `k` on.
abbrev pub Numbered : ℕ → List Event → Type 0
Numbered k [] = Unit
Numbered k (e ∷ es) = (e.seq ≡ k) × Numbered (k + 1) es

-- In some order, the events are numbered 1, 2, 3 and so on.
abbrev pub IsNumbering : List Event → Type 0
IsNumbering events = (order : List Event) × Permᴰ events order × Numbered 1 order

abbrev Distinct : List Event → Type 0
Distinct [] = Unit
Distinct (x ∷ xs) = All (λ y. x.seq ≢ y.seq) xs × Distinct xs

abbrev earlier : Event → Event → Bool
earlier a b = ltb a.seq b.seq

insert_perm : (a : Event) (xs : List Event) → Permᴰ (a ∷ xs) (insert_by earlier a xs)
unfolding insert_by
insert_perm a [] = Permᴰ.refl (a ∷ [])
insert_perm a (b ∷ bs) = elim (Bool-cases (earlier b a)) [
  | inl first ↦ rw first (trans (swap refl refl) (cons refl (insert_perm a bs)))
  | inr after ↦ rw after (Permᴰ.refl (a ∷ b ∷ bs))
]

by_seq-perm : (xs : List Event) → Permᴰ xs (by_seq xs)
unfolding by_seq sort_by
by_seq-perm [] = nil
by_seq-perm (a ∷ xs) = trans (cons refl (by_seq-perm xs)) (insert_perm a (sort_by earlier xs))

-- Two events with different numbers are inserted in either order.
insert_comm :
    (a b : Event) (xs : List Event)
    → a.seq ≢ b.seq
    → insert_by earlier a (insert_by earlier b xs) ≡ insert_by earlier b (insert_by earlier a xs)
unfolding insert_by
insert_comm a b [] h = ground arith
insert_comm a b (c ∷ xs) h = ground (arith, insert_comm a b xs h)

All-perm : (P : Event → Type 0) {xs ys : List Event} → Permᴰ xs ys → All P ys → All P xs
All-perm P nil h = tt
All-perm P (cons e d) h = (subst P (sym e) h.0, All-perm P d h.1)
All-perm P (swap e f) h = (subst P (sym e) h.1.0, (subst P (sym f) h.0, h.1.1))
All-perm P (trans d d') h = All-perm P d (All-perm P d' h)

by_seq_swap :
    (a b : Event) (l : List Event)
    → Distinct (b ∷ a ∷ l)
    → Distinct (a ∷ b ∷ l) × (by_seq (a ∷ b ∷ l) ≡ by_seq (b ∷ a ∷ l))
unfolding by_seq sort_by
by_seq_swap a b l h =
    let apart : a.seq ≢ b.seq = λ k. h.0.0 (sym k) in
    (((apart, h.1.0), (h.0.1, h.1.1)), insert_comm a b (sort_by earlier l) apart)

-- The order of events with distinct numbers is unique.
by_seq_unique :
    {xs ys : List Event} → Permᴰ xs ys → Distinct ys → Distinct xs × (by_seq xs ≡ by_seq ys)
unfolding by_seq sort_by
by_seq_unique nil h = (tt, refl)
by_seq_unique (cons {a} {b} e d) h =
    let (rest, same) = by_seq_unique d h.1 in
    (
      (
        All-map (λ y k l. k (ap (λ x. x.seq) (sym e) ∙ l)) _ (All-perm (λ y. b.seq ≢ y.seq) d h.0),
        rest,
      ),
      rw e (ap (insert_by earlier b) same),
    )
by_seq_unique (swap {a} {b} {a'} {b'} {l} e f) h =
    let h' : Distinct (b ∷ a ∷ l) =
      subst (λ z. Distinct (z ∷ a ∷ l)) (sym f) (subst (λ z. Distinct (a' ∷ z ∷ l)) (sym e) h) in
    let (start, same) = by_seq_swap a b l h' in
    (
      start,
      subst (λ z. by_seq (a ∷ b ∷ l) ≡ by_seq (a' ∷ z ∷ l)) e
          (subst (λ z. by_seq (a ∷ b ∷ l) ≡ by_seq (z ∷ a ∷ l)) f same),
    )
by_seq_unique (trans d d') h =
    let (mid, same) = by_seq_unique d' h in
    let (start, same') = by_seq_unique d mid in (start, same' ∙ same)

Numbered-All : (k : ℕ) (xs : List Event) → Numbered k xs → All (λ x. k ≤ x.seq) xs
Numbered-All k [] h = tt
Numbered-All k (x ∷ xs) h =
    (omega (arith, h.0), All-map (λ y m. omega (arith, m)) xs (Numbered-All (k + 1) xs h.1))

Numbered-Distinct : (k : ℕ) (xs : List Event) → Numbered k xs → Distinct xs
Numbered-Distinct k [] h = tt
Numbered-Distinct k (x ∷ xs) h = (
  All-map (λ y m same. omega (arith, m, same, h.0)) xs (Numbered-All (k + 1) xs h.1),
  Numbered-Distinct (k + 1) xs h.1,
)

insert_first :
    (k : ℕ) (x : Event) (xs : List Event)
    → x.seq ≡ k
    → Numbered (k + 1) xs
    → insert_by earlier x xs ≡ x ∷ xs
unfolding insert_by
insert_first k x [] e h = refl
insert_first k x (y ∷ ys) e h = ground arith

by_seq-Numbered : (k : ℕ) (xs : List Event) → Numbered k xs → by_seq xs ≡ xs
unfolding by_seq sort_by
by_seq-Numbered k [] h = refl
by_seq-Numbered k (x ∷ xs) h =
    ap (insert_by earlier x) (by_seq-Numbered (k + 1) xs h.1) ∙ insert_first k x xs h.0 h.1

-- Sorted by their numbers, the events are numbered from 1 on exactly when they are so in some order.
pub by_seq-IsNumbering : (events : List Event) → Numbered 1 (by_seq events) → IsNumbering events
by_seq-IsNumbering events h = (by_seq events, by_seq-perm events, h)

pub IsNumbering-by_seq : (events : List Event) → IsNumbering events → Numbered 1 (by_seq events)
IsNumbering-by_seq events (order, d, h) =
    let (_, same) = by_seq_unique d (Numbered-Distinct 1 order h) in
    subst (Numbered 1) (sym (same ∙ by_seq-Numbered 1 order h)) h

any-insert :
    (p : Event → Bool) (a : Event) (xs : List Event)
    → any p (insert_by earlier a xs) ≡ any p (a ∷ xs)
unfolding insert_by
any-insert p a [] = refl
any-insert p a (b ∷ bs) = ground (arith, any-insert p a bs)

pub any-by_seq : (p : Event → Bool) (xs : List Event) → any p (by_seq xs) ≡ any p xs
unfolding by_seq sort_by
any-by_seq p [] = refl
any-by_seq p (a ∷ xs) = any-insert p a (sort_by earlier xs) ∙ ap (λ b. p a || b) (any-by_seq p xs)
