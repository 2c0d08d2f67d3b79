-- ===== src/Policy/Paths/Permitted.antt =====
-- When the path policy finds no violation.
use mathlib.Core.Bool.{false≢true}
use code_fleet.Prelude.{
  ◌≡◌, ◌⊎◌, ◌↔◌, refl, sym, ◌∙◌, inl, inr, Bool, true, false, ◌||◌, none, List, [], ◌∷◌, Text, any,
  find?, find?-none_iff, any-true_iff, append-nil_iff, All, All-map, Exists, Exists-map, split,
  trim, not_true, Option-cases, arith,
}
use code_fleet.Policy.Paths.{
  is_empty, is_relative, matches_pattern, normalize_for_compare, check_path, check_paths,
  evaluate_path_policy,
}
use code_fleet.Policy.Paths.Segments.{GlobPath, match_segments_iff}

module _ (to_lower : Text → Text) where
  -- The pattern, trimmed and normalized, matches the normalized path.
  abbrev pub MatchesPath : Bool → Text → Text → Type 0
  MatchesPath case_sensitive path glob =
      GlobPath (split b'/' (normalize_for_compare to_lower case_sensitive (trim glob)))
        (split b'/' (normalize_for_compare to_lower case_sensitive path))

  matches_pattern_iff :
      (path glob : Text) (case_sensitive : Bool)
      → (matches_pattern to_lower path glob case_sensitive ≡ true)
        ↔ MatchesPath case_sensitive path glob
  unfolding matches_pattern
  matches_pattern_iff path glob case_sensitive =
      match_segments_iff (split b'/' (normalize_for_compare to_lower case_sensitive (trim glob)))
        (split b'/' (normalize_for_compare to_lower case_sensitive path))

  -- The path is of the workspace, no denied pattern matches it, and if there are allowed patterns one
  -- of them matches it.
  pub record IsPermitted (allowed denied : List Text) (case_sensitive : Bool) (path : Text)
      : Type 0 where
    pub relative : is_relative path ≡ true
    pub not_denied : All (λ g. ¬ MatchesPath case_sensitive path g) denied
    pub within : (allowed ≡ []) ⊎ Exists (λ g. MatchesPath case_sensitive path g) allowed

  check_path-relative :
      (allowed denied : List Text) (case_sensitive : Bool) (path : Text)
      → is_relative path ≡ true
      → find? (λ g. matches_pattern to_lower path g case_sensitive) denied ≡ none
      → (check_path to_lower allowed denied case_sensitive path ≡ []) ↔ (
          (is_empty allowed || any (λ g. matches_pattern to_lower path g case_sensitive) allowed)
          ≡ true)
  unfolding check_path
  check_path-relative allowed denied case_sensitive path h k =
      (λ e. ground arith, λ e. ground arith)

  check_path-refused :
      (allowed denied : List Text) (case_sensitive : Bool) (path : Text)
      → check_path to_lower allowed denied case_sensitive path ≡ []
      → (is_relative path ≡ true)
        × (find? (λ g. matches_pattern to_lower path g case_sensitive) denied ≡ none)
  unfolding check_path
  check_path-refused allowed denied case_sensitive path h =
      elim (Option-cases (find? (λ g. matches_pattern to_lower path g case_sensitive) denied)) [
        | inl absent ↦ (ground arith, absent)
        | inr (g, found) ↦ absurd (ground arith)
      ]

  allowed_iff :
      (allowed : List Text) (case_sensitive : Bool) (path : Text)
      → ((is_empty allowed || any (λ g. matches_pattern to_lower path g case_sensitive) allowed)
          ≡ true)
        ↔ ((allowed ≡ []) ⊎ Exists (λ g. MatchesPath case_sensitive path g) allowed)
  allowed_iff [] case_sensitive path = (λ h. inl refl, λ h. refl)
  allowed_iff (a ∷ allowed) case_sensitive path =
      let found =
        any-true_iff (λ g. matches_pattern to_lower path g case_sensitive) (a ∷ allowed) in
      (
        λ h. inr (
            Exists-map (λ g m. (matches_pattern_iff path g case_sensitive).0 m) (a ∷ allowed)
              (found.0 h)),
        λ h. elim h [
          | inl none_allowed ↦ cc
          | inr some_allowed ↦ found.1 (
              Exists-map (λ g m. (matches_pattern_iff path g case_sensitive).1 m) (a ∷ allowed)
                some_allowed)
        ],
      )

  check_path_iff :
      (allowed denied : List Text) (case_sensitive : Bool) (path : Text)
      → (check_path to_lower allowed denied case_sensitive path ≡ [])
        ↔ IsPermitted allowed denied case_sensitive path
  check_path_iff allowed denied case_sensitive path =
      let test = λ (g : Text). matches_pattern to_lower path g case_sensitive in
      let (none_to, none_from) = find?-none_iff test denied in
      let (in_to, in_from) = allowed_iff allowed case_sensitive path in
      (
        λ h.
            let (relative, none_denied) = check_path-refused allowed denied case_sensitive path h in
            record {
              relative = relative;
              not_denied =
                  All-map {P = λ g. test g ≡ false} {Q = λ g. ¬ MatchesPath case_sensitive path g}
                    (λ g off m.
                      false≢true (sym off ∙ (matches_pattern_iff path g case_sensitive).1 m))
                    denied (none_to none_denied);
              within = in_to (
                  (check_path-relative allowed denied case_sensitive path relative none_denied).0
                    h);
            },
        λ p.
            let none_denied = none_from (
              All-map {P = λ g. ¬ MatchesPath case_sensitive path g} {Q = λ g. test g ≡ false}
                (λ g off.
                  not_true (test g) (λ on. off ((matches_pattern_iff path g case_sensitive).0 on)))
                denied p.not_denied) in
            (check_path-relative allowed denied case_sensitive path p.relative none_denied).1
              (in_from p.within),
      )

  check_paths_iff :
      (allowed denied : List Text) (case_sensitive : Bool) (paths : List Text)
      → (check_paths to_lower allowed denied case_sensitive paths ≡ [])
        ↔ All (IsPermitted allowed denied case_sensitive) paths
  unfolding check_paths
  check_paths_iff allowed denied case_sensitive [] = (λ h. tt, λ h. refl)
  check_paths_iff allowed denied case_sensitive (p ∷ ps) =
      let (here_to, here_from) = check_path_iff allowed denied case_sensitive p in
      let (later_to, later_from) = check_paths_iff allowed denied case_sensitive ps in
      let (to, from) =
        append-nil_iff (check_path to_lower allowed denied case_sensitive p)
          (check_paths to_lower allowed denied case_sensitive ps) in
      (λ h. let (a, b) = to h in (here_to a, later_to b), λ h. from (here_from h.0, later_from h.1))

  -- The evaluation finds no violation exactly when no changed symlink leaves the workspace and every
  -- changed path is of the workspace, is matched by no denied pattern, and is matched by an allowed one
  -- if there are any.
  pub evaluate_path_policy_iff :
      (changed allowed denied : List Text) (case_sensitive : Bool)
      (symlink_escapes nested_repos : List Text)
      → ((evaluate_path_policy to_lower changed allowed denied case_sensitive symlink_escapes
            nested_repos).violations
          ≡ [])
        ↔ ((symlink_escapes ≡ []) × All (IsPermitted allowed denied case_sensitive) changed)
  unfolding evaluate_path_policy
  evaluate_path_policy_iff changed allowed denied case_sensitive [] nested_repos =
      let (to, from) = check_paths_iff allowed denied case_sensitive changed in
      (λ h. (refl, to h), λ h. from h.1)
  evaluate_path_policy_iff changed allowed denied case_sensitive (s ∷ ss) nested_repos =
      (λ h. cc, λ h. cc)
