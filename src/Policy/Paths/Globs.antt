-- ===== src/Policy/Paths/Globs.antt =====
-- What a pattern means within one segment, and that the greedy search of `matchSegment` decides it.
use mathlib.Core.List.{}
use code_fleet.Prelude.{
  ℕ, ◌≡◌, ◌≢◌, ◌⊎◌, refl, sym, ap, subst, ◌∙◌, inl, inr, false, List, [], ◌∷◌, ◌++◌, Text, nat_eq,
  nat_eq_iff, split, Bool-cases, arith,
}
use code_fleet.Policy.Paths.{}
use code_fleet.Policy.Paths.Parts.{}

-- The pattern matches the value: a star stands for any text, all else for itself.
abbrev pub Glob : Text → Text → Type 0
Glob [] value = value ≡ []
Glob (c ∷ glob) value =
    ((c ≡ b'*') × (gap : Text) × (tail : Text) × (value ≡ gap ++ tail) × Glob glob tail)
    ⊎ ((c ≢ b'*') × (tail : Text) × (value ≡ c ∷ tail) × Glob glob tail)

-- The parts between the stars stand in the value in this order, the first at its start and the last at
-- its end.
abbrev pub Fits : Text → List Text → Text → Type 0
Fits p [] value = value ≡ p
Fits p (q ∷ qs) value = (gap : Text) × (tail : Text) × (value ≡ p ++ (gap ++ tail)) × Fits q qs tail

abbrev pub AllFit : List Text → Text → Type 0
AllFit [] value = ⊥
AllFit (p ∷ ps) value = Fits p ps value

pub split-parts : (glob : Text) → (p : Text) × (ps : List Text) × (split b'*' glob ≡ p ∷ ps)
unfolding split
split-parts [] = ([], [], refl)
split-parts (c ∷ glob) =
    let (p, ps, e) = split-parts glob in
    elim (Bool-cases (nat_eq c b'*')) [
      | inl star ↦ ([], p ∷ ps, ground arith)
      | inr plain ↦ (c ∷ p, ps, ground arith)
    ]

split-star : (c : ℕ) (glob : Text) → c ≡ b'*' → split b'*' (c ∷ glob) ≡ [] ∷ split b'*' glob
unfolding split
split-star c glob h = ground arith

split-plain :
    (c : ℕ) (glob p : Text) (ps : List Text)
    → c ≢ b'*'
    → split b'*' glob ≡ p ∷ ps
    → split b'*' (c ∷ glob) ≡ (c ∷ p) ∷ ps
unfolding split
split-plain c glob p ps h e = ground arith

Fits-cons :
    (c : ℕ) (p : Text) (ps : List Text) (tail : Text) → Fits p ps tail → Fits (c ∷ p) ps (c ∷ tail)
Fits-cons c p [] tail h = ap (λ t. c ∷ t) h
Fits-cons c p (q ∷ qs) tail (gap, rest, same, h) = (gap, rest, ap (λ t. c ∷ t) same, h)

Fits-uncons :
    (c : ℕ) (p : Text) (ps : List Text) (value : Text)
    → Fits (c ∷ p) ps value
    → (tail : Text) × (value ≡ c ∷ tail) × Fits p ps tail
Fits-uncons c p [] value h = (p, h, refl)
Fits-uncons c p (q ∷ qs) value (gap, rest, same, h) =
    (p ++ (gap ++ rest), same, (gap, rest, refl, h))

pub Glob-AllFit : (glob value : Text) → Glob glob value → AllFit (split b'*' glob) value
Glob-AllFit [] value h = unfold split in h
Glob-AllFit (c ∷ glob) value (inl (star, gap, tail, same, h)) =
    let (p, ps, e) = split-parts glob in
    let fit : Fits p ps tail = subst (λ l. AllFit l tail) e (Glob-AllFit glob tail h) in
    subst (λ l. AllFit l value) (sym (split-star c glob star ∙ ap (λ l. [] ∷ l) e))
      (gap, tail, same, fit)
Glob-AllFit (c ∷ glob) value (inr (plain, tail, same, h)) =
    let (p, ps, e) = split-parts glob in
    let fit : Fits p ps tail = subst (λ l. AllFit l tail) e (Glob-AllFit glob tail h) in
    subst (λ l. AllFit l value) (sym (split-plain c glob p ps plain e))
      (subst (Fits (c ∷ p) ps) (sym same) (Fits-cons c p ps tail fit))

plain_ne : (c : ℕ) → nat_eq c b'*' ≡ false → c ≢ b'*'
plain_ne c h e = ground arith

pub AllFit-Glob : (glob value : Text) → AllFit (split b'*' glob) value → Glob glob value
AllFit-Glob [] value h = unfold split in h
AllFit-Glob (c ∷ glob) value h =
    let (p, ps, e) = split-parts glob in
    elim (Bool-cases (nat_eq c b'*')) [
      | inl star ↦
          let at = (nat_eq_iff c b'*').0 star in
          let (gap, tail, same, fit) : Fits [] (p ∷ ps) value =
            subst (λ l. AllFit l value) (split-star c glob at ∙ ap (λ l. [] ∷ l) e) h in
          inl (at, gap, tail, same, AllFit-Glob glob tail (subst (λ l. AllFit l tail) (sym e) fit))
      | inr plain ↦
          let off : c ≢ b'*' = plain_ne c plain in
          let fit : Fits (c ∷ p) ps value =
            subst (λ l. AllFit l value) (split-plain c glob p ps off e) h in
          let (tail, same, rest) = Fits-uncons c p ps value fit in
          inr (off, tail, same, AllFit-Glob glob tail (subst (λ l. AllFit l tail) (sym e) rest))
    ]
