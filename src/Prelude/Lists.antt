-- ===== src/Prelude/Lists.antt =====
-- Lists measured by the native numbers, and the array methods that the program calls.
use Prim.Native.Nat.{ℕ, suc, ◌+◌}
use mathlib.Core.Path.{◌≡◌, refl}
use mathlib.Core.Bool.{Bool, true, false, ◌&&◌, ◌||◌}
use mathlib.Core.Option.{Option, none, some}
use mathlib.Core.List.{List, [], ◌∷◌, ◌++◌, append-nil, append_assoc}
use mathlib.Core.Logic.{◌⊎◌, inl, inr, ◌↔◌}
use native.Mathlib.Omega.{arith}
use code_fleet.Prelude.Tests.{if◌then◌else◌, Bool-cases}

module _ {ℓ} {A : Type ℓ} where
  abbrev pub length : List A → ℕ
  length [] = 0
  length (x ∷ xs) = suc (length xs)

  -- `find`
  abbrev pub find? : (A → Bool) → List A → Option A
  find? p [] = none
  find? p (x ∷ xs) = if p x then some x else find? p xs

  -- `some`
  abbrev pub any : (A → Bool) → List A → Bool
  any p [] = false
  any p (x ∷ xs) = p x || any p xs

  -- `every`
  abbrev pub all : (A → Bool) → List A → Bool
  all p [] = true
  all p (x ∷ xs) = p x && all p xs

  -- `filter`
  abbrev pub keep : (A → Bool) → List A → List A
  keep p [] = []
  keep p (x ∷ xs) = if p x then x ∷ keep p xs else keep p xs

  abbrev pub All {κ} : (A → Type κ) → List A → Type κ
  All P [] = Unit
  All P (x ∷ xs) = P x × All P xs

  abbrev pub Exists : (A → Type 0) → List A → Type 0
  Exists P [] = ⊥
  Exists P (x ∷ xs) = P x ⊎ Exists P xs

  pub length-append : (xs ys : List A) → length (xs ++ ys) ≡ length xs + length ys
  length-append [] ys = omega arith
  length-append (x ∷ xs) ys = omega (arith, length-append xs ys)

  pub any-append : (p : A → Bool) (xs ys : List A) → any p (xs ++ ys) ≡ (any p xs || any p ys)
  any-append p [] ys = refl
  any-append p (x ∷ xs) ys = ground (arith, any-append p xs ys)

  -- Each element stands in the relation to the list of those before it.
  abbrev pub Chain {κ} : (List A → A → Type κ) → List A → List A → Type κ
  Chain P before [] = Unit
  Chain P before (x ∷ xs) = P before x × Chain P (before ++ x ∷ []) xs

module _ {ℓ} {A : Type ℓ} where
  pub Chain-snoc {κ} :
      (P : List A → A → Type κ) (before xs : List A) (x : A)
      → Chain P before xs
      → P (before ++ xs) x
      → Chain P before (xs ++ x ∷ [])
  Chain-snoc P before [] x h p = (rw append-nil at p, tt)
  Chain-snoc P before (y ∷ xs) x h p =
      (h.0, Chain-snoc P (before ++ y ∷ []) xs x h.1 (rw (append_assoc before (y ∷ []) xs) p))

  -- `keep` and `All`
  pub All-keep {κ} :
      (P : A → Type κ) (p : A → Bool) (xs : List A)
      → All P xs
      → All (λ x. P x × (p x ≡ true)) (keep p xs)
  All-keep P p [] h = tt
  All-keep P p (x ∷ xs) h = elim (Bool-cases (p x)) [
    | inl yes_x ↦ rw yes_x ((h.0, yes_x), All-keep P p xs h.1)
    | inr no_x ↦ rw no_x (All-keep P p xs h.1)
  ]

  pub All-map {κ μ} :
      {P : A → Type κ} {Q : A → Type μ} (f : (x : A) → P x → Q x) (xs : List A)
      → All P xs
      → All Q xs
  All-map f [] h = tt
  All-map f (x ∷ xs) h = (f x h.0, All-map f xs h.1)

  -- What holds on condition of a test holds of what the test keeps.
  pub All-of_keep {κ} :
      (P : A → Type κ) (p : A → Bool) (xs : List A)
      → All P (keep p xs)
      → All (λ x. p x ≡ true → P x) xs
  All-of_keep P p [] h = tt
  All-of_keep P p (x ∷ xs) h = elim (Bool-cases (p x)) [
    | inl yes_x ↦
        let k : All P (x ∷ keep p xs) = rw yes_x at h in ((λ e. k.0), All-of_keep P p xs k.1)
    | inr no_x ↦ let k : All P (keep p xs) = rw no_x at h in ((λ e. cc), All-of_keep P p xs k)
  ]

  pub All-both {κ μ} :
      (P : A → Type κ) (Q : A → Type μ) (xs : List A)
      → All P xs
      → All Q xs
      → All (λ x. P x × Q x) xs
  All-both P Q [] h k = tt
  All-both P Q (x ∷ xs) h k = ((h.0, k.0), All-both P Q xs h.1 k.1)

  -- `find` and `some`, by what they look for
  pub find?-none_iff :
      (p : A → Bool) (xs : List A) → (find? p xs ≡ none) ↔ All (λ x. p x ≡ false) xs
  find?-none_iff p [] = (λ h. tt, λ h. refl)
  find?-none_iff p (x ∷ xs) =
      let (to, from) = find?-none_iff p xs in
      (
        λ h. (ground arith, to (ground arith)),
        λ h. let rest = from h.1 in ground (arith, h.0, rest),
      )

  pub any-true_iff : (p : A → Bool) (xs : List A) → (any p xs ≡ true) ↔ Exists (λ x. p x ≡ true) xs
  any-true_iff p [] = (λ h. cc, λ h. absurd h)
  any-true_iff p (x ∷ xs) =
      let (to, from) = any-true_iff p xs in
      (
        λ h. elim (Bool-cases (p x)) [ inl now ↦ inl now | inr later ↦ inr (to (ground arith)) ],
        λ h. elim h [
          | inl now ↦ ground (arith, now)
          | inr later ↦ let rest = from later in ground (arith, rest)
        ],
      )

  pub Exists-map :
      {P Q : A → Type 0} (f : (x : A) → P x → Q x) (xs : List A) → Exists P xs → Exists Q xs
  Exists-map f [] h = absurd h
  Exists-map f (x ∷ xs) (inl now) = inl (f x now)
  Exists-map f (x ∷ xs) (inr later) = inr (Exists-map f xs later)

  pub append-nil_iff : (xs ys : List A) → (xs ++ ys ≡ []) ↔ ((xs ≡ []) × (ys ≡ []))
  append-nil_iff [] ys = (λ h. (refl, h), λ h. h.1)
  append-nil_iff (x ∷ xs) ys = (λ h. cc, λ h. cc)

  pub append-nil_both :
      {P Q : Type 0} {xs ys : List A} → (xs ≡ []) ↔ P → (ys ≡ []) ↔ Q → (xs ++ ys ≡ []) ↔ (P × Q)
  append-nil_both {xs = xs} {ys = ys} (p_to, p_from) (q_to, q_from) =
      let (to, from) = append-nil_iff xs ys in
      (λ h. let (a, b) = to h in (p_to a, q_to b), λ h. from (p_from h.0, q_from h.1))

  pub List-cases : (xs : List A) → (xs ≡ []) ⊎ ((x : A) × (rest : List A) × (xs ≡ x ∷ rest))
  List-cases [] = inl refl
  List-cases (x ∷ xs) = inr (x, xs, refl)
