-- ===== src/Policy/Commands/Problems/Matchers.antt =====
-- What `validateCommandMatchers` accepts.
use code_fleet.Prelude.{
  ℕ, suc, ◌≡◌, ◌≢◌, ◌⊎◌, ◌↔◌, refl, inl, inr, Bool, true, false, Option, none, some, [], ◌∷◌, text,
  ◌==◌, ==_iff, any, append-nil_both, All, upper_snake, Bool-cases, arith, if◌then◌else◌,
}
use code_fleet.Prelude.Json.{
  Json, null, boolean, number, string, array, object, Items, no_items, item, elements, get,
}
use code_fleet.Policy.Commands.Problems.{
  Problem, pattern_char, problems_of, token_problem, token_problems, argv_problems, mode_problems,
  category_problems, entry_problems, entries_problems, validate_command_matchers,
}

-- A token to compare as written: not empty, and with no character of a pattern language.
abbrev pub IsToken : Json → Type 0
IsToken (string t) = (t ≢ []) × (any pattern_char t ≡ false)
IsToken _ = ⊥

abbrev pub HasArgv : Option Json → Type 0
HasArgv (some (array (item token tokens))) = All IsToken (elements (item token tokens))
HasArgv _ = ⊥

abbrev pub HasMode : Option Json → Type 0
HasMode none = Unit
HasMode (some (string mode)) = (mode ≡ text "PREFIX") ⊎ (mode ≡ text "EXACT")
HasMode (some _) = ⊥

abbrev pub HasCategory : Option Json → Type 0
HasCategory (some (string c)) = upper_snake c ≡ true
HasCategory _ = ⊥

-- An object with a list of tokens, a known mode or none, and, if it is destructive, a category.
abbrev pub IsMatcher : Bool → Json → Type 0
IsMatcher destructive (object entry) =
    HasArgv (get (text "argv") entry)
    × (HasMode (get (text "matchMode") entry)
        × (destructive ≡ true → HasCategory (get (text "categoryId") entry)))
IsMatcher destructive _ = ⊥

abbrev pub AreMatchers : Bool → Json → Type 0
AreMatchers destructive (array entries) = All (IsMatcher destructive) (elements entries)
AreMatchers destructive _ = ⊥

token_problem_iff : (j : Json) → (token_problem j ≡ none) ↔ IsToken j
unfolding token_problem
token_problem_iff null = (λ h. cc, λ h. absurd h)
token_problem_iff (boolean b) = (λ h. cc, λ h. absurd h)
token_problem_iff (number n) = (λ h. cc, λ h. absurd h)
token_problem_iff (array js) = (λ h. cc, λ h. absurd h)
token_problem_iff (object fs) = (λ h. cc, λ h. absurd h)
token_problem_iff (string []) = (λ h. cc, λ h. absurd (h.0 refl))
token_problem_iff (string (c ∷ s)) = (λ h. (λ e. cc, ground arith), λ h. ground (arith, h.1))

problems_of_iff :
    {P : Type 0} (index : ℕ) (o : Option Problem) → (o ≡ none) ↔ P → (problems_of index o ≡ []) ↔ P
unfolding problems_of
problems_of_iff index none (to, from) = (λ h. to refl, λ h. refl)
problems_of_iff index (some p) (to, from) = (λ h. cc, λ h. let e = from h in cc)

token_problems_iff :
    (index : ℕ) (tokens : Items)
    → (token_problems index tokens ≡ []) ↔ All IsToken (elements tokens)
unfolding token_problems elements
token_problems_iff index no_items = (λ h. tt, λ h. refl)
token_problems_iff index (item j js) =
    append-nil_both (problems_of_iff index (token_problem j) (token_problem_iff j))
      (token_problems_iff index js)

mode_problems_iff : (index : ℕ) (o : Option Json) → (mode_problems index o ≡ []) ↔ HasMode o
unfolding mode_problems
mode_problems_iff index none = (λ h. tt, λ h. refl)
mode_problems_iff index (some null) = (λ h. cc, λ h. absurd h)
mode_problems_iff index (some (boolean b)) = (λ h. cc, λ h. absurd h)
mode_problems_iff index (some (number n)) = (λ h. cc, λ h. absurd h)
mode_problems_iff index (some (array js)) = (λ h. cc, λ h. absurd h)
mode_problems_iff index (some (object fs)) = (λ h. cc, λ h. absurd h)
mode_problems_iff index (some (string mode)) =
    let (p_to, p_from) = ==_iff mode (text "PREFIX") in
    let (e_to, e_from) = ==_iff mode (text "EXACT") in
    (
      λ h. elim (Bool-cases (mode == text "PREFIX")) [
        | inl is ↦ inl (p_to is)
        | inr other ↦ inr (e_to (ground arith))
      ],
      λ h. elim h [
        | inl is ↦ let e = p_from is in ground arith
        | inr is ↦ let e = e_from is in ground arith
      ],
    )

category_problems_iff :
    (index : ℕ) (o : Option Json) → (category_problems index o ≡ []) ↔ HasCategory o
unfolding category_problems upper_snake
category_problems_iff index none = (λ h. cc, λ h. absurd h)
category_problems_iff index (some null) = (λ h. cc, λ h. absurd h)
category_problems_iff index (some (boolean b)) = (λ h. cc, λ h. absurd h)
category_problems_iff index (some (number n)) = (λ h. cc, λ h. absurd h)
category_problems_iff index (some (array js)) = (λ h. cc, λ h. absurd h)
category_problems_iff index (some (object fs)) = (λ h. cc, λ h. absurd h)
category_problems_iff index (some (string [])) = (λ h. cc, λ h. cc)
category_problems_iff index (some (string (c ∷ s))) = (λ h. ground arith, λ h. ground arith)

argv_problems_iff : (index : ℕ) (o : Option Json) → (argv_problems index o ≡ []) ↔ HasArgv o
unfolding argv_problems
argv_problems_iff index none = (λ h. cc, λ h. absurd h)
argv_problems_iff index (some null) = (λ h. cc, λ h. absurd h)
argv_problems_iff index (some (boolean b)) = (λ h. cc, λ h. absurd h)
argv_problems_iff index (some (number n)) = (λ h. cc, λ h. absurd h)
argv_problems_iff index (some (string s)) = (λ h. cc, λ h. absurd h)
argv_problems_iff index (some (object fs)) = (λ h. cc, λ h. absurd h)
argv_problems_iff index (some (array no_items)) = (λ h. cc, λ h. absurd h)
argv_problems_iff index (some (array (item j js))) = token_problems_iff index (item j js)

category_part_iff :
    (destructive : Bool) (index : ℕ) (o : Option Json)
    → ((if destructive then category_problems index o else []) ≡ [])
      ↔ (destructive ≡ true → HasCategory o)
category_part_iff true index o =
    let (to, from) = category_problems_iff index o in (λ h. λ d. to h, λ h. from (h refl))
category_part_iff false index o = (λ h. λ d. cc, λ h. refl)

entry_problems_iff :
    (destructive : Bool) (index : ℕ) (j : Json)
    → (entry_problems destructive index j ≡ []) ↔ IsMatcher destructive j
unfolding entry_problems
entry_problems_iff destructive index null = (λ h. cc, λ h. absurd h)
entry_problems_iff destructive index (boolean b) = (λ h. cc, λ h. absurd h)
entry_problems_iff destructive index (number n) = (λ h. cc, λ h. absurd h)
entry_problems_iff destructive index (string s) = (λ h. cc, λ h. absurd h)
entry_problems_iff destructive index (array js) = (λ h. cc, λ h. absurd h)
entry_problems_iff destructive index (object entry) =
    append-nil_both (argv_problems_iff index (get (text "argv") entry)) (
      append-nil_both (mode_problems_iff index (get (text "matchMode") entry))
        (category_part_iff destructive index (get (text "categoryId") entry)))

entries_problems_iff :
    (destructive : Bool) (index : ℕ) (js : Items)
    → (entries_problems destructive index js ≡ []) ↔ All (IsMatcher destructive) (elements js)
unfolding entries_problems elements
entries_problems_iff destructive index no_items = (λ h. tt, λ h. refl)
entries_problems_iff destructive index (item j js) =
    append-nil_both (entry_problems_iff destructive index j)
      (entries_problems_iff destructive (suc index) js)

-- The validator reports no problem exactly for a list of objects, each with tokens to compare as
-- written, at least one, with the match mode PREFIX or EXACT or none, and, if the list is the
-- destructive one, with a category identifier in upper snake case.
pub validate_command_matchers_iff :
    (entries : Json) (destructive : Bool)
    → (validate_command_matchers entries destructive ≡ []) ↔ AreMatchers destructive entries
unfolding validate_command_matchers
validate_command_matchers_iff null destructive = (λ h. cc, λ h. absurd h)
validate_command_matchers_iff (boolean b) destructive = (λ h. cc, λ h. absurd h)
validate_command_matchers_iff (number n) destructive = (λ h. cc, λ h. absurd h)
validate_command_matchers_iff (string s) destructive = (λ h. cc, λ h. absurd h)
validate_command_matchers_iff (object fs) destructive = (λ h. cc, λ h. absurd h)
validate_command_matchers_iff (array js) destructive = entries_problems_iff destructive 0 js
