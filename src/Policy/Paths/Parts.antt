-- ===== src/Policy/Paths/Parts.antt =====
-- Where one text stands in another: prefixes, suffixes and the first occurrence.
use mathlib.Core.List.{append_assoc}
use code_fleet.Prelude.{
  ℕ, ◌≤◌, ◌≡◌, refl, sym, ap, ◌∙◌, inl, inr, true, none, some, [], ◌∷◌, ◌++◌, Text, ◌==◌, ==_iff,
  ==_refl, length, length-append, strip_prefix, strip_prefix_lem, ends_with, cut, Option-cases,
  Bool-cases, arith,
}

pub strip_prefix-append : (p r : Text) → strip_prefix p (p ++ r) ≡ some r
unfolding strip_prefix
strip_prefix-append [] r = refl
strip_prefix-append (c ∷ p) r = ground (arith, strip_prefix-append p r)

-- Of two ends of one text, the shorter is an end of the longer.
pub shorter_end :
    (front rest g e : Text)
    → front ++ rest ≡ g ++ e
    → length e ≤ length rest
    → (gap : Text) × (rest ≡ gap ++ e)
shorter_end [] rest g e h k = (g, h)
shorter_end (c ∷ front) rest [] e h k =
    absurd (omega (arith, ap length h, length-append front rest))
shorter_end (c ∷ front) rest (d ∷ g) e h k = shorter_end front rest g e (cc) k

pub ends_with-suffix : (e s : Text) → ends_with e s ≡ true → (g : Text) × (s ≡ g ++ e)
unfolding ends_with
ends_with-suffix e [] h = ([], sym ((==_iff e []).0 h))
ends_with-suffix e (c ∷ s) h = elim (Bool-cases (e == c ∷ s)) [
  | inl same ↦ ([], sym ((==_iff e (c ∷ s)).0 same))
  | inr other ↦ let (g, q) = ends_with-suffix e s (ground arith) in (c ∷ g, ap (λ t. c ∷ t) q)
]

pub ends_with-append : (g e : Text) → ends_with e (g ++ e) ≡ true
unfolding ends_with
ends_with-append [] [] = ==_refl []
ends_with-append [] (c ∷ e) = ground (arith, ==_refl (c ∷ e))
ends_with-append (c ∷ g) e = ground (arith, ends_with-append g e)

cut_here : (needle s r : Text) → strip_prefix needle s ≡ some r → cut needle s ≡ some ([], r)
unfolding cut
cut_here needle [] r h = ground arith
cut_here needle (c ∷ s) r h = ground arith

cut_later :
    (needle : Text) (c : ℕ) (s a b : Text)
    → strip_prefix needle (c ∷ s) ≡ none
    → cut needle s ≡ some (a, b)
    → cut needle (c ∷ s) ≡ some (c ∷ a, b)
unfolding cut
cut_later needle c s a b h k = ground arith

-- Where the needle occurs, `cut` stops at that occurrence or before it.
pub cut_first :
    (needle a b : Text)
    → (a' : Text) × (b' : Text) × (x : Text) × (cut needle (a ++ (needle ++ b)) ≡ some (a', b'))
      × (b' ≡ x ++ b)
cut_first needle [] b =
    ([], b, [], cut_here needle (needle ++ b) b (strip_prefix-append needle b), refl)
cut_first needle (c ∷ a) b = elim (Option-cases (strip_prefix needle (c ∷ (a ++ (needle ++ b))))) [
  | inr (r, found) ↦
      let same = strip_prefix_lem needle (c ∷ (a ++ (needle ++ b))) r found in
      let (x, later) =
        shorter_end needle r (c ∷ (a ++ needle)) b
          (sym same ∙ sym (ap (λ t. c ∷ t) (append_assoc a needle b)))
          (omega (
            arith,
            ap length same,
            length-append a (needle ++ b),
            length-append needle b,
            length-append needle r,
          )) in
      ([], r, x, cut_here needle (c ∷ (a ++ (needle ++ b))) r found, later)
  | inl missing ↦
      let (a', b', x, later, same) = cut_first needle a b in
      (c ∷ a', b', x, cut_later needle c (a ++ (needle ++ b)) a' b' missing later, same)
]
