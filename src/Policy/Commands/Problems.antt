-- ===== src/Policy/Commands/Problems.antt =====
-- validateCommandMatchers of src/command-policy.ts, on a parsed value.
pub mod Matchers
mod Tests
use code_fleet.Prelude.{
  ℕ, suc, ◌+◌, Bool, true, false, not, ◌&&◌, ◌||◌, Option, none, some, List, [], ◌∷◌, ◌++◌, map,
  Text, text, ◌==◌, elem, any, find?, length, ltb, nat_eq, upper_snake, ℤ, pos, negsuc,
  if◌then◌else◌,
}
use code_fleet.Prelude.Json.{
  Json, null, boolean, number, string, array, object, Items, no_items, item, Fields, get,
}

pub data Problem : Type 0 where
  not_an_object argv_not_array argv_empty argv_token_not_string argv_token_empty : Problem
  pattern_language_not_allowed unknown_match_mode category_id_missing : Problem
  category_id_malformed : Problem

-- Without its text for the user
pub record MatcherProblem : Type 0 where
  pub index : ℤ
  pub problem : Problem

-- `PATTERN_CHARS`
pub pattern_char : ℕ → Bool
pattern_char c = any (nat_eq c) (text "*?[]{}()|^$\\")

pub token_problem : Json → Option Problem
token_problem (string []) = some argv_token_empty
token_problem (string (c ∷ s)) =
    if any pattern_char (c ∷ s) then some pattern_language_not_allowed else none
token_problem _ = some argv_token_not_string

pub problems_of : ℕ → Option Problem → List MatcherProblem
problems_of index none = []
problems_of index (some p) = record { index = pos index; problem = p } ∷ []

pub token_problems : ℕ → Items → List MatcherProblem
unfolding problems_of
token_problems index no_items = []
token_problems index (item token tokens) =
    problems_of index (token_problem token) ++ token_problems index tokens

-- What the source adds for `entry.argv`, `entry.matchMode` and `entry.categoryId`.
pub argv_problems : ℕ → Option Json → List MatcherProblem
unfolding problems_of
argv_problems index (some (array no_items)) = problems_of index (some argv_empty)
argv_problems index (some (array (item token tokens))) = token_problems index (item token tokens)
argv_problems index _ = problems_of index (some argv_not_array)

pub mode_problems : ℕ → Option Json → List MatcherProblem
unfolding problems_of
mode_problems index none = []
mode_problems index (some (string mode)) =
    if not (mode == text "PREFIX") && not (mode == text "EXACT")
    then problems_of index (some unknown_match_mode)
    else []
mode_problems index (some _) = problems_of index (some unknown_match_mode)

pub category_problems : ℕ → Option Json → List MatcherProblem
unfolding problems_of
category_problems index (some (string [])) = problems_of index (some category_id_missing)
category_problems index (some (string (c ∷ s))) =
    if not (upper_snake (c ∷ s)) then problems_of index (some category_id_malformed) else []
category_problems index _ = problems_of index (some category_id_missing)

pub entry_problems : Bool → ℕ → Json → List MatcherProblem
unfolding problems_of
entry_problems destructive index (object entry) =
    argv_problems index (get (text "argv") entry)
    ++ (mode_problems index (get (text "matchMode") entry)
        ++ (if destructive then category_problems index (get (text "categoryId") entry) else []))
entry_problems destructive index _ = problems_of index (some not_an_object)

pub entries_problems : Bool → ℕ → Items → List MatcherProblem
entries_problems destructive index no_items = []
entries_problems destructive index (item raw entries) =
    entry_problems destructive index raw ++ entries_problems destructive (suc index) entries

-- `validateCommandMatchers(entries, { destructive })`
pub validate_command_matchers : Json → Bool → List MatcherProblem
validate_command_matchers (array entries) destructive = entries_problems destructive 0 entries
validate_command_matchers _ destructive = record { index = negsuc 0; problem = not_an_object } ∷ []
