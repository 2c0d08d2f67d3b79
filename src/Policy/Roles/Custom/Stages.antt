-- ===== src/Policy/Roles/Custom/Stages.antt =====
-- The parts of `validateCustomRole`, when each has no finding.
use mathlib.Core.Bool.{}
use code_fleet.Prelude.{
  ◌≡◌, ◌≢◌, inl, inr, refl, subst, Bool, true, false, not, Option, none, some, List, [], ◌∷◌, ◌++◌,
  Text, text, ◌==◌, elem, keep, append-nil_iff, All, Bool-cases, Option-cases, negsuc, ok, arith,
}
use code_fleet.Prelude.Json.{Json, null, boolean, number, string, array, object}
use code_fleet.Policy.Roles.{
  Property, own, lookup, core_destructive_categories, AgentRole, core_agent_roles, harness_modes,
  mode_rank, exceeds, rank,
}
use code_fleet.Policy.Roles.Modes.{mode_rank-known}
use code_fleet.Policy.Roles.Custom.{
  RoleProblem, unknown_categories, missing_categories, finding, listed, mode_findings,
  categories_of, denied_findings, base_mode, base_of,
}

lookup-All :
    {A : Type 0} (P : A → Type 0) (key : Text) (xs : List (Text × A)) (a : A)
    → All (λ x. P x.1) xs
    → lookup key xs ≡ some (own a)
    → P a
unfolding lookup
lookup-All P key [] a h e = absurd (ground arith)
lookup-All P key ((k, b) ∷ xs) a h e = elim (Bool-cases (k == key)) [
  | inl here ↦ let same : b ≡ a = ground arith in subst P same h.0
  | inr later ↦ lookup-All P key xs a h.1 (ground arith)
]

pub core_mode-known :
    (name : Text) (base : AgentRole)
    → lookup name core_agent_roles ≡ some (own base)
    → elem harness_modes base.default_max_mode ≡ true
unfolding core_agent_roles elem ◌==◌
core_mode-known name base h =
    lookup-All (λ r. elem harness_modes r.default_max_mode ≡ true) name core_agent_roles base
      (refl, (refl, (refl, (refl, (refl, (refl, (refl, tt))))))) h

pub listed-nil :
    (pointer : Text) (problem : List Text → RoleProblem) (names : List Text)
    → listed pointer problem names ≡ []
    → names ≡ []
unfolding listed finding
listed-nil pointer problem [] h = refl
listed-nil pointer problem (n ∷ ns) h = cc

pub keep-not_nil :
    (p : Text → Bool) (xs : List Text) → keep (λ x. not (p x)) xs ≡ [] → All (λ x. p x ≡ true) xs
keep-not_nil p [] h = tt
keep-not_nil p (x ∷ xs) h =
    let here : p x ≡ true = ground arith in (here, keep-not_nil p xs (ground (arith, here)))

pub mode_findings-string :
    (pointer base_mode : Text) (o : Option Json)
    → mode_findings pointer base_mode o ≡ []
    → (mode : Text) × (o ≡ some (string mode))
      × (elem harness_modes mode ≡ true)
      × (exceeds (mode_rank mode) (mode_rank base_mode) ≡ false)
unfolding mode_findings finding
mode_findings-string pointer base_mode none h = cc
mode_findings-string pointer base_mode (some null) h = cc
mode_findings-string pointer base_mode (some (boolean b)) h = cc
mode_findings-string pointer base_mode (some (number n)) h = cc
mode_findings-string pointer base_mode (some (array js)) h = cc
mode_findings-string pointer base_mode (some (object fs)) h = cc
mode_findings-string pointer base_mode (some (string mode)) h =
    (mode, refl, ground arith, ground arith)

undefined_rank : mode_rank (text "undefined") ≡ rank (negsuc 0)
unfolding mode_rank lookup elem ◌==◌
undefined_rank = refl

-- Every mode exceeds what an inherited base has.
pub undefined_exceeded :
    (mode : Text)
    → elem harness_modes mode ≡ true
    → exceeds (mode_rank mode) (mode_rank (text "undefined")) ≡ true
unfolding exceeds
undefined_exceeded mode k =
    let (n, e, bound) = mode_rank-known mode k in let unknown = undefined_rank in ground arith

denied_findings-absent :
    (pointer : Text) (required : List Text) (o : Option Json)
    → categories_of o ≡ none
    → denied_findings pointer (some required) o ≢ ok []
unfolding denied_findings finding
denied_findings-absent pointer required o absent h = ground arith

denied_findings-given :
    (pointer : Text) (required denied : List Text) (o : Option Json)
    → categories_of o ≡ some denied
    → denied_findings pointer (some required) o ≡ ok []
    → listed
          (pointer ++ text "/deniedCommandCategories")
          unknown_categories
          (keep (λ c. not (elem core_destructive_categories c)) denied)
        ++ listed
            (pointer ++ text "/deniedCommandCategories")
            missing_categories
            (keep (λ c. not (elem denied c)) required)
      ≡ []
unfolding denied_findings
denied_findings-given pointer required denied o e h = ground arith

pub denied_findings-own :
    (pointer : Text) (required : List Text) (o : Option Json)
    → denied_findings pointer (some required) o ≡ ok []
    → (denied : List Text) × (categories_of o ≡ some denied)
      × All (λ c. elem core_destructive_categories c ≡ true) denied
      × All (λ c. elem denied c ≡ true) required
denied_findings-own pointer required o h = elim (Option-cases (categories_of o)) [
  | inl absent ↦ absurd (denied_findings-absent pointer required o absent h)
  | inr (denied, e) ↦
      let at = pointer ++ text "/deniedCommandCategories" in
      let (to, from) =
        append-nil_iff
          (listed at unknown_categories
            (keep (λ c. not (elem core_destructive_categories c)) denied))
          (listed at missing_categories (keep (λ c. not (elem denied c)) required)) in
      let (unknown, missing) = to (denied_findings-given pointer required denied o e h) in
      (
        denied,
        e,
        keep-not_nil (elem core_destructive_categories) denied (
            listed-nil at unknown_categories
              (keep (λ c. not (elem core_destructive_categories c)) denied) unknown),
        keep-not_nil (elem denied) required
            (listed-nil at missing_categories (keep (λ c. not (elem denied c)) required) missing),
      )
]

pub base_of-some :
    (o : Option Json) (base : Property AgentRole)
    → base_of o ≡ some base
    → (name : Text) × (o ≡ some (string name)) × (lookup name core_agent_roles ≡ some base)
unfolding base_of
base_of-some none base h = cc
base_of-some (some null) base h = cc
base_of-some (some (boolean b)) base h = cc
base_of-some (some (number n)) base h = cc
base_of-some (some (array js)) base h = cc
base_of-some (some (object fs)) base h = cc
base_of-some (some (string name)) base h = (name, refl, h)
