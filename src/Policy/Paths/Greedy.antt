-- ===== src/Policy/Paths/Greedy.antt =====
-- The greedy search of `matchSegment` finds the parts of a pattern in a value whenever they are there.
use mathlib.Core.Bool.{false≢true}
use mathlib.Core.List.{append_assoc}
use code_fleet.Prelude.{
  ℕ, ◌≡◌, ◌↔◌, refl, sym, ap, subst, ◌∙◌, inl, inr, Bool, true, false, ◌&&◌, none, some, List, [],
  ◌∷◌, ◌++◌, Text, ◌==◌, ==_iff, ==_refl, length, length-append, leb, strip_prefix,
  strip_prefix_lem, ends_with, cut, cut_lem, split, Option-cases, arith,
}
use code_fleet.Policy.Paths.{skip_parts, split_last, ends_within, match_parts, match_segment}
use code_fleet.Policy.Paths.Parts.{
  strip_prefix-append, shorter_end, ends_with-suffix, ends_with-append, cut_first,
}
use code_fleet.Policy.Paths.Globs.{Glob, Fits, AllFit, Glob-AllFit, AllFit-Glob, split-parts}

-- The parts stand in the rest, after any text.
abbrev Gapped : Text → List Text → Text → Type 0
Gapped q qs rest = (gap : Text) × (tail : Text) × (rest ≡ gap ++ tail) × Fits q qs tail

-- What `skip_parts` and the test at the end come to.
abbrev search_parts : Text → Text → List Text → Text → Bool
search_parts value q qs rest =
    ends_within value (split_last q qs).1 (skip_parts (split_last q qs).0 rest)

search_last :
    (value q rest : Text)
    → search_parts value q [] rest ≡ (leb (length q) (length rest) && ends_with q value)
unfolding skip_parts split_last ends_within
search_last value q rest = refl

search_empty :
    (value q : Text) (qs : List Text) (rest : Text)
    → search_parts value [] (q ∷ qs) rest ≡ search_parts value q qs rest
unfolding skip_parts split_last ends_within
search_empty value q qs rest = ground (arith, ==_refl [])

search_absent :
    (value p q : Text) (qs : List Text) (rest : Text)
    → p == [] ≡ false
    → cut p rest ≡ none
    → search_parts value p (q ∷ qs) rest ≡ false
unfolding skip_parts split_last ends_within
search_absent value p q qs rest h k = ground arith

search_found :
    (value p q : Text) (qs : List Text) (rest a b : Text)
    → p == [] ≡ false
    → cut p rest ≡ some (a, b)
    → search_parts value p (q ∷ qs) rest ≡ search_parts value q qs b
unfolding skip_parts split_last ends_within
search_found value p q qs rest a b h k = ground arith

cons_solid : (c : ℕ) (p : Text) → c ∷ p == [] ≡ false
unfolding ◌==◌
cons_solid c p = refl

moved : (front rest a p b : Text) → rest ≡ a ++ (p ++ b) → front ++ rest ≡ (front ++ (a ++ p)) ++ b
moved front rest a p b at =
    ap (λ t. front ++ t) (at ∙ sym (append_assoc a p b)) ∙ sym (append_assoc front (a ++ p) b)

search-Gapped :
    (value : Text) (q : Text) (qs : List Text) (front rest : Text)
    → value ≡ front ++ rest
    → search_parts value q qs rest ≡ true
    → Gapped q qs rest
search-Gapped value q [] front rest e h =
    let found : (leb (length q) (length rest) && ends_with q value) ≡ true =
      sym (search_last value q rest) ∙ h in
    let (g, ends) = ends_with-suffix q value (ground arith) in
    let (gap, same) = shorter_end front rest g q (sym e ∙ ends) (ground arith) in
    (gap, q, same, refl)
search-Gapped value [] (q ∷ qs) front rest e h =
    let (gap, tail, same, fit) =
      search-Gapped value q qs front rest e (sym (search_empty value q qs rest) ∙ h) in
    ([], rest, refl, (gap, tail, same, fit))
search-Gapped value (c ∷ p) (q ∷ qs) front rest e h = elim (Option-cases (cut (c ∷ p) rest)) [
  | inl absent ↦
      absurd (false≢true (sym (search_absent value (c ∷ p) q qs rest (cons_solid c p) absent) ∙ h))
  | inr ((a, b), found) ↦
      let at = cut_lem (c ∷ p) rest a b found in
      let (gap, tail, same, fit) =
        search-Gapped value q qs (front ++ (a ++ (c ∷ p))) b (e ∙ moved front rest a (c ∷ p) b at)
          (sym (search_found value (c ∷ p) q qs rest a b (cons_solid c p) found) ∙ h) in
      (a, (c ∷ p) ++ b, at, (gap, tail, ap (λ t. (c ∷ p) ++ t) same, fit))
]

Gapped-search :
    (value : Text) (q : Text) (qs : List Text) (front rest : Text)
    → value ≡ front ++ rest
    → Gapped q qs rest
    → search_parts value q qs rest ≡ true
Gapped-search value q [] front rest e (gap, tail, same, fit) =
    let at : rest ≡ gap ++ q = same ∙ ap (λ t. gap ++ t) fit in
    let whole : value ≡ (front ++ gap) ++ q =
      e ∙ ap (λ t. front ++ t) at ∙ sym (append_assoc front gap q) in
    let ends : ends_with q value ≡ true =
      ap (ends_with q) whole ∙ ends_with-append (front ++ gap) q in
    search_last value q rest ∙ ground (arith, ends, ap length at, length-append gap q)
Gapped-search value [] (q ∷ qs) front rest e (gap, tail, same, (gap', tail', same', fit)) =
    search_empty value q qs rest
    ∙ Gapped-search value q qs front rest e (
      gap ++ gap',
      tail',
      same ∙ ap (λ t. gap ++ t) same' ∙ sym (append_assoc gap gap' tail'),
      fit,
    )
Gapped-search value (c ∷ p) (q ∷ qs) front rest e (gap, tail, same, (gap', tail', same', fit)) =
    let (a, b, x, found, later) = cut_first (c ∷ p) gap (gap' ++ tail') in
    let at : rest ≡ gap ++ ((c ∷ p) ++ (gap' ++ tail')) = same ∙ ap (λ t. gap ++ t) same' in
    let here : cut (c ∷ p) rest ≡ some (a, b) = ap (cut (c ∷ p)) at ∙ found in
    search_found value (c ∷ p) q qs rest a b (cons_solid c p) here
    ∙ Gapped-search value q qs (front ++ (a ++ (c ∷ p))) b
        (e ∙ moved front rest a (c ∷ p) b (cut_lem (c ∷ p) rest a b here))
        (x ++ gap', tail', later ∙ sym (append_assoc x gap' tail'), fit)

match_parts-found :
    (value first q : Text) (qs : List Text) (rest : Text)
    → strip_prefix first value ≡ some rest
    → match_parts value first q qs ≡ search_parts value q qs rest
unfolding match_parts skip_parts split_last ends_within
match_parts-found value first q qs rest h = ground arith

match_parts-absent :
    (value first q : Text) (qs : List Text)
    → strip_prefix first value ≡ none
    → match_parts value first q qs ≡ false
unfolding match_parts
match_parts-absent value first q qs h = ground arith

match_parts_iff :
    (value first q : Text) (qs : List Text)
    → (match_parts value first q qs ≡ true) ↔ Fits first (q ∷ qs) value
match_parts_iff value first q qs = (to, from)
  where
    to : match_parts value first q qs ≡ true → Fits first (q ∷ qs) value
    to h = elim (Option-cases (strip_prefix first value)) [
      | inl absent ↦ absurd (false≢true (sym (match_parts-absent value first q qs absent) ∙ h))
      | inr (rest, found) ↦
          let at = strip_prefix_lem first value rest found in
          let (gap, tail, same, fit) =
            search-Gapped value q qs first rest at
              (sym (match_parts-found value first q qs rest found) ∙ h) in
          (gap, tail, at ∙ ap (λ t. first ++ t) same, fit)
    ]

    from : Fits first (q ∷ qs) value → match_parts value first q qs ≡ true
    from (gap, tail, same, fit) =
        let found : strip_prefix first value ≡ some (gap ++ tail) =
          ap (strip_prefix first) same ∙ strip_prefix-append first (gap ++ tail) in
        match_parts-found value first q qs (gap ++ tail) found
        ∙ Gapped-search value q qs first (gap ++ tail) same (gap, tail, refl, fit)

match_segment-parts :
    (value glob first q : Text) (qs : List Text)
    → split b'*' glob ≡ first ∷ q ∷ qs
    → match_segment value glob ≡ match_parts value first q qs
unfolding match_segment
match_segment-parts value glob first q qs h = ground arith

match_segment-plain :
    (value glob first : Text)
    → split b'*' glob ≡ first ∷ []
    → match_segment value glob ≡ (value == glob)
unfolding match_segment
match_segment-plain value glob first h = ground arith

-- A pattern with no star is its own one part.
one_part : (glob p : Text) → split b'*' glob ≡ p ∷ [] → glob ≡ p
unfolding split
one_part [] p h = ground arith
one_part (c ∷ glob) p h =
    let (q, qs, e) = split-parts glob in
    ground (arith, e, λ (k : split b'*' glob ≡ q ∷ []). one_part glob q k)

-- `matchSegment` holds exactly when the pattern matches the value, a star standing for any text.
pub match_segment_iff : (value glob : Text) → (match_segment value glob ≡ true) ↔ Glob glob value
match_segment_iff value glob = let (first, ps, e) = split-parts glob in decide first ps e
  where
    decide :
        (first : Text) (ps : List Text)
        → split b'*' glob ≡ first ∷ ps
        → (match_segment value glob ≡ true) ↔ Glob glob value
    decide first [] e =
        let whole = one_part glob first e in
        let plain = match_segment-plain value glob first e in
        (
          λ h.
              AllFit-Glob glob value (
                subst (λ l. AllFit l value) (sym e)
                  ((==_iff value glob).0 (sym plain ∙ h) ∙ whole)),
          λ g.
              let fit : value ≡ first = subst (λ l. AllFit l value) e (Glob-AllFit glob value g) in
              plain ∙ (==_iff value glob).1 (fit ∙ sym whole),
        )
    decide first (q ∷ qs) e =
        let parts = match_segment-parts value glob first q qs e in
        let (to, from) = match_parts_iff value first q qs in
        (
          λ h. AllFit-Glob glob value (subst (λ l. AllFit l value) (sym e) (to (sym parts ∙ h))),
          λ g. parts ∙ from (subst (λ l. AllFit l value) e (Glob-AllFit glob value g)),
        )
