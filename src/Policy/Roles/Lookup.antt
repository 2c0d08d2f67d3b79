-- ===== src/Policy/Roles/Lookup.antt =====
-- What `object[key]` finds in a table of the source, for src/agent-role.ts.
use code_fleet.Prelude.{
  ◌≡◌, ◌≢◌, ◌⊎◌, ◌↔◌, refl, inl, inr, true, false, none, some, List, [], ◌∷◌, Text, ◌==◌, ==_iff,
  elem, All, Bool-cases, not_true, arith, if◌then◌else◌,
}
use code_fleet.Policy.Roles.{own, inherited, lookup, object_members}

-- The first entry of the key
abbrev pub Entry : {A : Type 0} → Text → List (Text × A) → A → Type 0
Entry key [] a = ⊥
Entry key (e ∷ es) a = ((e.0 ≡ key) × (a ≡ e.1)) ⊎ ((e.0 ≢ key) × Entry key es a)

-- No entry has the key.
abbrev pub Missing : {A : Type 0} → Text → List (Text × A) → Type 0
Missing key es = All (λ e. e.0 ≢ key) es

pub differs_iff : (a b : Text) → ((a == b) ≡ false) ↔ (a ≢ b)
differs_iff a b =
    let (to, from) = ==_iff a b in
    (λ h e. let k = from e in cc, λ h. not_true (a == b) (λ k. h (to k)))

pub lookup-own :
    {A : Type 0} (key : Text) (es : List (Text × A)) (a : A)
    → lookup key es ≡ some (own a)
    → Entry key es a
unfolding lookup
lookup-own key [] a h = elim (Bool-cases (elem object_members key)) [ inl p ↦ cc | inr p ↦ cc ]
lookup-own key ((k, x) ∷ es) a h = elim (Bool-cases (k == key)) [
  | inl is ↦ inl ((==_iff k key).0 is, ground arith)
  | inr other ↦ inr ((differs_iff k key).0 other, lookup-own key es a (ground arith))
]

pub Entry-lookup :
    {A : Type 0} (key : Text) (es : List (Text × A)) (a : A)
    → Entry key es a
    → lookup key es ≡ some (own a)
unfolding lookup
Entry-lookup key [] a h = absurd h
Entry-lookup key ((k, x) ∷ es) a (inl (is, same)) = let e = (==_iff k key).1 is in ground arith
Entry-lookup key ((k, x) ∷ es) a (inr (other, rest)) =
    let e = (differs_iff k key).1 other in let r = Entry-lookup key es a rest in ground arith

-- What is found and is not the object's own is inherited.
pub lookup-inherited :
    {A : Type 0} (key : Text) (es : List (Text × A))
    → lookup key es ≡ some inherited
    → Missing key es × (elem object_members key ≡ true)
unfolding lookup
lookup-inherited key [] h = (tt, ground arith)
lookup-inherited key ((k, x) ∷ es) h = elim (Bool-cases (k == key)) [
  | inl is ↦ absurd (ground arith)
  | inr other ↦
      let (rest, member) = lookup-inherited key es (ground arith) in
      (((differs_iff k key).0 other, rest), member)
]

pub lookup-none :
    {A : Type 0} (key : Text) (es : List (Text × A))
    → lookup key es ≡ none
    → Missing key es × (elem object_members key ≡ false)
unfolding lookup
lookup-none key [] h = (tt, ground arith)
lookup-none key ((k, x) ∷ es) h = elim (Bool-cases (k == key)) [
  | inl is ↦ absurd (ground arith)
  | inr other ↦
      let (rest, member) = lookup-none key es (ground arith) in
      (((differs_iff k key).0 other, rest), member)
]

pub Missing-lookup :
    {A : Type 0} (key : Text) (es : List (Text × A))
    → Missing key es
    → lookup key es ≡ (if elem object_members key then some inherited else none)
unfolding lookup
Missing-lookup key [] h = refl
Missing-lookup key ((k, x) ∷ es) (other, rest) =
    let e = (differs_iff k key).1 other in rw e (Missing-lookup key es rest)
