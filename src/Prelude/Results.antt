-- ===== src/Prelude/Results.antt =====
-- A computation that may throw, with its `do` notation.
use mathlib.Core.Path.{◌≡◌, refl}
use mathlib.Core.Logic.{◌⊎◌, inl, inr}
use mathlib.Core.Bool.{Bool, true, false}

-- What the code threw, or what it returned.
pub data Result (E A : Type 0) : Type 0 where
  err : (thrown : E) → Result E A
  ok : (returned : A) → Result E A

-- The next statement of a `do` block runs only if nothing was thrown.
infixl 5 ◌>>=◌ ◌>>◌
abbrev pub ◌>>=◌ : {E A B : Type 0} → Result E A → (A → Result E B) → Result E B
err thrown >>= later = err thrown
ok returned >>= later = later returned

abbrev pub ◌>>◌ : {E B : Type 0} → Result E (Unit {0}) → Result E B → Result E B
statement >> later = statement >>= λ done. later

module _ {E : Type 0} where
  -- `if (test) throw e`
  abbrev pub reject_if : Bool → E → Result E (Unit {0})
  reject_if test e = elim test [ true ↦ err e | false ↦ ok tt ]

  -- A block that returns has returned from its first statement.
  pub >>=-eq-ok :
      {A B : Type 0} (first : Result E A) (later : A → Result E B) {value : B}
      → (first >>= later) ≡ ok value
      → (mid : A) × (first ≡ ok mid) × (later mid ≡ ok value)
  >>=-eq-ok (err thrown) later block = cc
  >>=-eq-ok (ok mid) later block = (mid, refl, block)

  pub Result-cases :
      {A : Type 0} (r : Result E A) → ((a : A) × (r ≡ ok a)) ⊎ ((e : E) × (r ≡ err e))
  Result-cases (ok a) = inl (a, refl)
  Result-cases (err e) = inr (e, refl)

  -- A guarded statement that succeeds was not rejected.
  pub reject_if-ok :
      {A : Type 0} (test : Bool) (e : E) (k : Result E A) {a : A}
      → (reject_if test e >> k) ≡ ok a
      → (test ≡ false) × (k ≡ ok a)
  reject_if-ok true e k h = cc
  reject_if-ok false e k h = (refl, h)
