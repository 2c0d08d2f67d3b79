-- ===== src/Policy/Paths.antt =====
-- The path policy of src/path-policy.ts: patterns of literal segments, `*` within a segment and `**`
-- for whole segments, and the evaluation of the changed paths. `toLowerCase` maps Unicode, by
-- tables of the engine: a parameter. An index into the target is the list that is left from it.
pub mod Parts
pub mod Globs
pub mod Greedy
pub mod Segments
pub mod Permitted
mod Tests
use code_fleet.Prelude.{
  ℕ, ◌≤◌, Bool, true, false, not, ◌&&◌, ◌||◌, Option, none, some, List, [], ◌∷◌, ◌++◌, map, Text,
  text, ◌==◌, elem, any, find?, length, leb, nat_eq, is_alpha, trim, starts_with, ends_with,
  strip_prefix, cut, contains, split, if◌then◌else◌,
}

pub data PatternProblem : Type 0 where
  empty_pattern absolute parent_escape unsupported_syntax : PatternProblem
  globstar_not_whole_segment directory_without_wildcard : PatternProblem

-- `/^[A-Za-z]:/`
unfoldable pub has_drive : Text → Bool
has_drive (c ∷ d ∷ s) = is_alpha c && nat_eq d b':'
has_drive _ = false

abbrev pub stars : Text
stars = text "**"

abbrev star : Text
star = text "*"

last_of : Text → List Text → Text
last_of s [] = s
last_of s (t ∷ ts) = last_of t ts

last_segment : List Text → Text
last_segment [] = []
last_segment (s ∷ ss) = last_of s ss

-- `/[?\[\]{}!()+@]/`
unsupported : ℕ → Bool
unsupported c = any (λ d. nat_eq c d) (text "?[]{}!()+@")

-- `validatePattern`: its problem, if it has one.
unfoldable pub validate_pattern : Text → Option PatternProblem
unfolding last_of last_segment unsupported
validate_pattern pattern_text =
    let value = trim pattern_text in
    let segments = split b'/' value in
    if value == []
    then some empty_pattern
    else if starts_with (text "/") value || has_drive value
    then some absolute
    else if elem segments (text "..")
    then some parent_escape
    else if any unsupported value
    then some unsupported_syntax
    else if any (λ s. contains stars s && not (s == stars)) segments
    then some globstar_not_whole_segment
    else if not (contains star value) && not (contains (text ".") (last_segment segments))
    then some directory_without_wildcard
    else none

-- The loop over the parts between the first and the last: what is left of the value after them.
skip_parts : List Text → Text → Option Text
skip_parts [] rest = some rest
skip_parts (part ∷ parts) rest =
    if part == []
    then skip_parts parts rest
    else elim (cut part rest) [ none ↦ none | some (gap, after) ↦ skip_parts parts after ]

-- The parts without the last, and the last.
split_last : Text → List Text → List Text × Text
split_last p [] = ([], p)
split_last p (q ∷ qs) = let (mids, last) = split_last q qs in (p ∷ mids, last)

-- The end of `matchSegment`: the last part ends the value, within what is left.
ends_within : Text → Text → Option Text → Bool
ends_within value last none = false
ends_within value last (some rest) = leb (length last) (length rest) && ends_with last value

-- `matchSegment` on the parts of the pattern between its stars, of which there are two or more.
match_parts : Text → Text → Text → List Text → Bool
unfolding skip_parts split_last ends_within
match_parts value first q qs = elim (strip_prefix first value) [
  | none ↦ false
  | some rest ↦ let (mids, last) = split_last q qs in ends_within value last (skip_parts mids rest)
]

-- `matchSegment(value, pattern)`
pub match_segment : Text → Text → Bool
unfolding match_parts
match_segment value glob = elim (split b'*' glob) [
  | first ∷ q ∷ qs ↦ match_parts value first q qs
  | other ↦ value == glob
]

-- The loop over `skip`: some suffix, the empty one included, matches.
some_suffix : (List Text → Bool) → List Text → Bool
some_suffix matches [] = matches []
some_suffix matches (t ∷ ts) = let later = some_suffix matches ts in matches (t ∷ ts) || later

abbrev pub is_empty : List Text → Bool
is_empty [] = true
is_empty (_ ∷ _) = false

-- `matchSegments` on what is left of the pattern and of the target.
pub match_segments : List Text → List Text → Bool
unfolding some_suffix
match_segments [] target = is_empty target
match_segments (segment ∷ segments) target =
    let onward = match_segments segments in
    if segment == stars
    then (if is_empty segments
        then elim target [ [] ↦ false | t ∷ ts ↦ some_suffix onward ts ]
        else some_suffix onward target)
    else elim target [ [] ↦ false | t ∷ ts ↦ if match_segment t segment then onward ts else false ]

-- `split("\\").join("/")`
abbrev forward : ℕ → ℕ
forward c = if nat_eq c 92 then b'/' else c

drop_dot : Text → Text
drop_dot s = elim (strip_prefix (text "./") s) [ none ↦ s | some rest ↦ rest ]

pub data ViolationCode : Type 0 where
  path_matches_denied_paths path_outside_allowed_paths : ViolationCode
  path_not_workspace_relative symlink_target_escapes_workspace : ViolationCode

pub record Violation : Type 0 where
  pub path : Text
  pub code : ViolationCode
  pub matched_pattern : Text

pub record Evaluation : Type 0 where
  pub evaluated : Bool
  pub case_sensitive : Bool
  pub allowed_paths : List Text
  pub denied_paths : List Text
  pub checked_paths : List Text
  pub violations : List Violation
  pub nested_repos : List Text  -- what `unavailableReason` lists

-- A path of the workspace: not absolute, and with no `..`.
unfoldable pub is_relative : Text → Bool
is_relative path =
    not (starts_with (text "/") path || has_drive path || elem (split b'/' path) (text ".."))

module _ (to_lower : Text → Text) where
  pub normalize_for_compare : Bool → Text → Text
  unfolding drop_dot
  normalize_for_compare case_sensitive value =
      let normalized = drop_dot (map forward value) in
      if case_sensitive then normalized else to_lower normalized

  -- `matchesPattern(filePath, pattern, caseSensitive)`
  pub matches_pattern : Text → Text → Bool → Bool
  unfolding normalize_for_compare
  matches_pattern path glob case_sensitive =
      match_segments (split b'/' (normalize_for_compare case_sensitive (trim glob)))
        (split b'/' (normalize_for_compare case_sensitive path))

  -- One round of the loop over the changed files.
  check_path : (allowed denied : List Text) → Bool → Text → List Violation
  check_path allowed denied case_sensitive path =
      if not (is_relative path)
      then record { path = path; code = path_not_workspace_relative; matched_pattern = [] } ∷ []
      else elim (find? (λ p. matches_pattern path p case_sensitive) denied) [
        | some p ↦
            record { path = path; code = path_matches_denied_paths; matched_pattern = p } ∷ []
        | none ↦
            if is_empty allowed || any (λ p. matches_pattern path p case_sensitive) allowed
            then []
            else record { path = path; code = path_outside_allowed_paths; matched_pattern = [] }
              ∷ []
      ]

  check_paths : (allowed denied : List Text) → Bool → List Text → List Violation
  check_paths allowed denied case_sensitive [] = []
  check_paths allowed denied case_sensitive (p ∷ ps) =
      check_path allowed denied case_sensitive p ++ check_paths allowed denied case_sensitive ps

  -- `evaluatePathPolicy`
  pub evaluate_path_policy :
      (changed allowed denied : List Text)
      → Bool
      → (symlink_escapes nested_repos : List Text) → Evaluation
  unfolding check_path check_paths
  evaluate_path_policy changed allowed denied case_sensitive symlink_escapes nested_repos = record {
    evaluated = is_empty nested_repos;
    case_sensitive = case_sensitive;
    allowed_paths = allowed;
    denied_paths = denied;
    checked_paths = changed;
    violations =
        map
          (λ p. record { path = p; code = symlink_target_escapes_workspace; matched_pattern = [] })
          symlink_escapes
        ++ check_paths allowed denied case_sensitive changed;
    nested_repos = nested_repos;
  }
