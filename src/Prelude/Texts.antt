-- ===== src/Prelude/Texts.antt =====
-- A string of the program is the list of its code units.
use Prim.Native.Char.{code}
use Prim.Native.Nat.{ℕ}
use Prim.Native.String.{String}
use mathlib.Core.Path.{◌≡◌, refl}
use mathlib.Core.Logic.{◌↔◌}
use mathlib.Core.Bool.{Bool, true, false, ◌&&◌, ◌||◌}
use mathlib.Core.List.{List, [], ◌∷◌, ◌++◌}
use native.Mathlib.Omega.{arith}
use code_fleet.Prelude.Tests.{nat_eq, ltb, if◌then◌else◌}

abbrev pub Text : Type 0
Text = List ℕ

abbrev pub text : String → Text
text String.[] = []
text (String.◌∷◌ c s) = code c ∷ text s

infix 50 ◌==◌
unfoldable pub ◌==◌ : Text → Text → Bool
[] == [] = true
(x ∷ xs) == (y ∷ ys) = nat_eq x y && (xs == ys)
_ == _ = false

pub ==_iff : (a b : Text) → ((a == b) ≡ true) ↔ (a ≡ b)
unfolding ◌==◌
==_iff [] [] = ground arith
==_iff [] (y ∷ ys) = ground arith
==_iff (x ∷ xs) [] = ground arith
==_iff (x ∷ xs) (y ∷ ys) = ground (arith, ==_iff xs ys)

pub ==_refl : (a : Text) → (a == a) ≡ true
==_refl a = (==_iff a a).1 refl

-- JavaScript's `a < b` on strings: by code units, a proper prefix first.
unfoldable pub text_lt : Text → Text → Bool
text_lt [] [] = false
text_lt [] (y ∷ ys) = true
text_lt (x ∷ xs) [] = false
text_lt (x ∷ xs) (y ∷ ys) = ltb x y || (nat_eq x y && text_lt xs ys)

-- `includes`, `has`
unfoldable pub elem : List Text → Text → Bool
elem [] a = false
elem (x ∷ xs) a = x == a || elem xs a

-- `delete`
unfoldable pub without : Text → List Text → List Text
without a [] = []
without a (x ∷ xs) = if x == a then without a xs else x ∷ without a xs

pub elem-append : (xs ys : List Text) (a : Text) → elem (xs ++ ys) a ≡ (elem xs a || elem ys a)
unfolding elem
elem-append [] ys a = refl
elem-append (x ∷ xs) ys a = ground (arith, elem-append xs ys a)

-- Every occurrence leaves; what was absent leaves nothing.
pub without-eq_of_absent : (a : Text) (xs : List Text) → elem xs a ≡ false → without a xs ≡ xs
unfolding elem without
without-eq_of_absent a [] h = refl
without-eq_of_absent a (x ∷ xs) h = ground (arith, without-eq_of_absent a xs)

pub elem-cons_self : (a : Text) (xs : List Text) → elem (a ∷ xs) a ≡ true
unfolding elem
elem-cons_self a xs = ground (arith, ==_refl a)

pub elem-cons_of : (a x : Text) (xs : List Text) → elem xs a ≡ true → elem (x ∷ xs) a ≡ true
unfolding elem
elem-cons_of a x xs h = ground arith
