-- ===== src/Policy/Paths/Tests.antt =====
-- Patterns, a set of changed paths, and the theorems of the path policy on them.
use code_fleet.Prelude.{
  ◌≡◌, ◌↔◌, refl, true, false, none, some, [], ◌∷◌, List, map, All, Text, text, ◌==◌, elem, lower,
  trim, split, starts_with, ends_with, strip_prefix, cut, contains,
}
use code_fleet.Policy.Paths.{
  absolute, parent_escape, unsupported_syntax, globstar_not_whole_segment,
  directory_without_wildcard, validate_pattern, has_drive, is_relative, match_segment,
  match_segments, evaluate_path_policy, matches_pattern, path_matches_denied_paths,
  path_outside_allowed_paths, path_not_workspace_relative,
}
use code_fleet.Policy.Paths.Globs.{Glob}
use code_fleet.Policy.Paths.Greedy.{match_segment_iff}
use code_fleet.Policy.Paths.Segments.{GlobPath, match_segments_iff}
use code_fleet.Policy.Paths.Permitted.{IsPermitted, evaluate_path_policy_iff}

directory : validate_pattern (text "src") ≡ some directory_without_wildcard
unfolding validate_pattern ◌==◌ elem trim split starts_with strip_prefix contains cut has_drive
directory = refl

drive : validate_pattern (text "c:/src/*") ≡ some absolute
unfolding validate_pattern ◌==◌ elem trim split starts_with strip_prefix contains cut has_drive
drive = refl

escaping : validate_pattern (text "src/../*") ≡ some parent_escape
unfolding validate_pattern ◌==◌ elem trim split starts_with strip_prefix contains cut has_drive
escaping = refl

alternatives : validate_pattern (text "src/*.{js,ts}") ≡ some unsupported_syntax
unfolding validate_pattern ◌==◌ elem trim split starts_with strip_prefix contains cut has_drive
alternatives = refl

half_globstar : validate_pattern (text "src/**.ts") ≡ some globstar_not_whole_segment
unfolding validate_pattern ◌==◌ elem trim split starts_with strip_prefix contains cut has_drive
half_globstar = refl

valid : validate_pattern (text " src/**/*.ts ") ≡ none
unfolding validate_pattern ◌==◌ elem trim split starts_with strip_prefix contains cut has_drive
valid = refl

source_glob :
    match_segments
      (text "src" ∷ text "**" ∷ text "*.ts" ∷ [])
      (text "src" ∷ text "a" ∷ text "b.ts" ∷ [])
    ≡ true
unfolding match_segments match_segment ◌==◌ split strip_prefix cut ends_with starts_with
source_glob = refl

match_segment_iff_example :
    (match_segment (text "a.test.ts") (text "*.test.*") ≡ true)
    ↔ Glob (text "*.test.*") (text "a.test.ts")
match_segment_iff_example = match_segment_iff (text "a.test.ts") (text "*.test.*")

match_segments_iff_example :
    (match_segments (text "src" ∷ text "**" ∷ []) (text "src" ∷ []) ≡ true)
    ↔ GlobPath (text "src" ∷ text "**" ∷ []) (text "src" ∷ [])
match_segments_iff_example = match_segments_iff (text "src" ∷ text "**" ∷ []) (text "src" ∷ [])

abbrev changed : List Text
changed = text "./src/a.ts" ∷ text "src/secret/k.ts" ∷ text "doc.md" ∷ text "../x" ∷ []

abbrev no_paths : List Text
no_paths = []

abbrev allowed_globs : List Text
allowed_globs = text "src/**" ∷ []

abbrev denied_globs : List Text
denied_globs = text "src/secret/*" ∷ []

found :
    map
      (λ v. v.code)
      ((evaluate_path_policy lower changed allowed_globs denied_globs false [] []).violations)
    ≡ path_matches_denied_paths ∷ path_outside_allowed_paths ∷ path_not_workspace_relative ∷ []
unfolding evaluate_path_policy match_segments match_segment ◌==◌ elem trim split strip_prefix cut
    ends_with starts_with lower has_drive is_relative matches_pattern
found = refl

evaluate_path_policy_iff_example :
    ((evaluate_path_policy lower changed allowed_globs denied_globs false [] []).violations ≡ [])
    ↔ ((no_paths ≡ []) × All (IsPermitted lower allowed_globs denied_globs false) changed)
evaluate_path_policy_iff_example =
    evaluate_path_policy_iff lower changed allowed_globs denied_globs false [] []
