-- ===== src/Prelude/Strings.antt =====
-- The methods of JavaScript strings that the program calls, on code units.
use Prim.Native.Nat.{ℕ, ◌+◌, ◌≤◌}
use mathlib.Core.Path.{◌≡◌, refl, sym, subst}
use mathlib.Core.Logic.{inl, inr, ◌≢◌}
use mathlib.Core.Bool.{Bool, true, false, ◌&&◌, ◌||◌}
use mathlib.Core.Option.{Option, none, some}
use mathlib.Core.List.{List, [], ◌∷◌, ◌++◌}
use native.Mathlib.Omega.{arith}
use code_fleet.Prelude.Tests.{leb, nat_eq, if◌then◌else◌, Option-cases}
use code_fleet.Prelude.Lists.{all, length}
use code_fleet.Prelude.Texts.{Text, ◌==◌}

abbrev pub between : ℕ → ℕ → ℕ → Bool
between lo hi c = leb lo c && leb c hi

abbrev pub is_digit : ℕ → Bool
is_digit c = between b'0' b'9' c

abbrev pub is_alpha : ℕ → Bool
is_alpha c = between b'a' b'z' c || between b'A' b'Z' c

-- `\w`
abbrev pub is_word : ℕ → Bool
is_word c = is_alpha c || is_digit c || nat_eq c b'_'

-- `/^[A-Z][A-Z0-9_]*$/`
unfoldable pub upper_snake : Text → Bool
upper_snake [] = false
upper_snake (c ∷ s) =
    between b'A' b'Z' c && all (λ d. between b'A' b'Z' d || is_digit d || nat_eq d b'_') s

-- `\s`, and what `trim` removes
unfoldable pub is_space : ℕ → Bool
is_space c =
    between 9 13 c
    || nat_eq c 32
    || nat_eq c 0xa0
    || nat_eq c 0x1680
    || between 0x2000 0x200a c
    || between 0x2028 0x2029 c
    || nat_eq c 0x202f
    || nat_eq c 0x205f
    || nat_eq c 0x3000
    || nat_eq c 0xfeff

-- `s.trim().length === 0`
abbrev pub is_blank : Text → Bool
is_blank s = all is_space s

drop_spaces : Text → Text
drop_spaces [] = []
drop_spaces (c ∷ s) = if is_space c then drop_spaces s else c ∷ s

drop_last_spaces : Text → Text
drop_last_spaces [] = []
drop_last_spaces (c ∷ s) =
    let rest = drop_last_spaces s in
    elim rest [ [] ↦ (if is_space c then [] else c ∷ []) | d ∷ ds ↦ c ∷ d ∷ ds ]

unfoldable pub trim : Text → Text
unfolding drop_spaces drop_last_spaces is_space
trim s = drop_last_spaces (drop_spaces s)

-- `toLowerCase` on ASCII
abbrev pub lower_char : ℕ → ℕ
lower_char c = if between b'A' b'Z' c then c + 32 else c

unfoldable pub lower : Text → Text
lower [] = []
lower (c ∷ s) = lower_char c ∷ lower s

-- What follows the prefix, if it is one.
unfoldable pub strip_prefix : Text → Text → Option Text
strip_prefix [] s = some s
strip_prefix (p ∷ ps) [] = none
strip_prefix (p ∷ ps) (c ∷ s) = if nat_eq p c then strip_prefix ps s else none

abbrev is_some : Option Text → Bool
is_some none = false
is_some (some _) = true

-- `startsWith`
unfoldable pub starts_with : Text → Text → Bool
unfolding strip_prefix
starts_with p s = is_some (strip_prefix p s)

-- `endsWith`
unfoldable pub ends_with : Text → Text → Bool
ends_with e [] = e == []
ends_with e (c ∷ s) = e == c ∷ s || ends_with e s

-- The text before and after the first occurrence of the needle.
unfoldable pub cut : Text → Text → Option (Text × Text)
unfolding strip_prefix
cut needle [] = elim (strip_prefix needle []) [ some rest ↦ some ([], rest) | none ↦ none ]
cut needle (c ∷ s) = elim (strip_prefix needle (c ∷ s)) [
  | some rest ↦ some ([], rest)
  | none ↦ elim (cut needle s) [ some (a, b) ↦ some (c ∷ a, b) | none ↦ none ]
]

-- `includes`, of a substring
unfoldable pub contains : Text → Text → Bool
unfolding cut
contains needle s = elim (cut needle s) [ some _ ↦ true | none ↦ false ]

-- `split` at each occurrence of one code unit
unfoldable pub split : ℕ → Text → List Text
split sep [] = [] ∷ []
split sep (c ∷ s) =
    let rest = split sep s in
    if nat_eq c sep then [] ∷ rest else elim rest [ [] ↦ (c ∷ []) ∷ [] | p ∷ ps ↦ (c ∷ p) ∷ ps ]

pub strip_prefix_lem : (p s : Text) (r : Text) → strip_prefix p s ≡ some r → s ≡ p ++ r
unfolding strip_prefix
strip_prefix_lem [] s r h = ground arith
strip_prefix_lem (p ∷ ps) [] r h = ground arith
strip_prefix_lem (p ∷ ps) (c ∷ s) r h = ground (arith, strip_prefix_lem ps s r)

pub strip_prefix-append : (p q : Text) → strip_prefix p (p ++ q) ≡ some q
unfolding strip_prefix
strip_prefix-append [] q = refl
strip_prefix-append (c ∷ p) q = ground (arith, strip_prefix-append p q)

-- What `cut` finds is an occurrence.
pub cut_lem : (needle s a b : Text) → cut needle s ≡ some (a, b) → s ≡ a ++ (needle ++ b)
unfolding cut
cut_lem needle [] a b h = ground (arith, strip_prefix_lem needle [] b)
cut_lem needle (c ∷ s) a b h = elim (Option-cases (strip_prefix needle (c ∷ s))) [
  | inl no_match ↦ elim (Option-cases (cut needle s)) [
    | inl absent ↦ ground arith
    | inr ((a', b'), found) ↦ ground (arith, cut_lem needle s a' b' found)
  ]
  | inr (r, found) ↦ ground (arith, strip_prefix_lem needle (c ∷ s) r found)
]

-- No occurrence starts before the one that `cut` finds.
pub cut_first :
    (needle s a b p q : Text)
    → cut needle s ≡ some (a, b)
    → s ≡ p ++ (needle ++ q)
    → length a ≤ length p
unfolding cut
cut_first needle s [] b p q h e = omega arith
cut_first needle [] (x ∷ a) b p q h e = elim (Option-cases (strip_prefix needle [])) [
  | inl no_match ↦ absurd (ground arith)
  | inr (r, found) ↦ absurd (ground arith)
]
cut_first needle (c ∷ s) (x ∷ a) b [] q h e =
    let match =
      subst (λ t. strip_prefix needle t ≡ some q) (sym e) (strip_prefix-append needle q) in
    absurd (ground arith)
cut_first needle (c ∷ s) (x ∷ a) b (y ∷ p) q h e =
    elim (Option-cases (strip_prefix needle (c ∷ s))) [
      | inr (r, found) ↦ absurd (ground arith)
      | inl no_match ↦ elim (Option-cases (cut needle s)) [
        | inl absent ↦ absurd (ground arith)
        | inr ((a', b'), found) ↦
            let rest : s ≡ p ++ (needle ++ q) = cc in
            let same : a' ≡ a = ground arith in
            let bound = cut_first needle s a' b' p q found rest in
            let short : length a ≤ length p = subst (λ t. length t ≤ length p) same bound in
            omega arith
      ]
    ]

cut-finds : (needle p q : Text) → cut needle (p ++ (needle ++ q)) ≢ none
unfolding cut
cut-finds [] [] [] h = cc
cut-finds [] [] (c ∷ q) h = cc
cut-finds (n ∷ needle) [] q h = let match = strip_prefix-append (n ∷ needle) q in ground arith
cut-finds needle (c ∷ p) q h = elim (Option-cases (cut needle (p ++ (needle ++ q)))) [
  | inl absent ↦ cut-finds needle p q absent
  | inr (r, found) ↦ elim (Option-cases (strip_prefix needle (c ∷ (p ++ (needle ++ q))))) [
    | inl no_match ↦ ground arith
    | inr (t, match) ↦ ground arith
  ]
]

-- Where `contains` says no, there is no occurrence.
pub contains-absent : (needle s p q : Text) → contains needle s ≡ false → s ≢ p ++ (needle ++ q)
unfolding contains
contains-absent needle s p q h e = elim (Option-cases (cut needle s)) [
  | inl absent ↦ cut-finds needle p q (subst (λ t. cut needle t ≡ none) e absent)
  | inr (r, found) ↦ absurd (ground arith)
]
