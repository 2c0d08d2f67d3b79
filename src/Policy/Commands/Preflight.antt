-- ===== src/Policy/Commands/Preflight.antt =====
-- When `preflightCommand` allows a command.
use code_fleet.Prelude.{
  ◌≡◌, ◌≢◌, ◌⊎◌, ◌↔◌, refl, sym, subst, ◌∙◌, inl, inr, Bool, true, false, not, ◌&&◌, none, List, [],
  ◌∷◌, Text, elem, any, find?, find?-none_iff, any-true_iff, All, All-map, Exists, Exists-map,
  List-cases, length, ltb, Bool-cases, not_true, Option-cases, arith,
}
use code_fleet.Policy.Commands.{
  CommandMatcher, DestructiveMatcher, NormalizedCommand, allowed, matches_command,
  is_shell_interpreter, unapproved, result_blocked, against_lists, preflight_command,
}
use mathlib.Core.Bool.{false≢true}
use code_fleet.Policy.Commands.Tokens.{MatchesEntry, matches_command_iff}

-- The first element that P holds of, if there is one, has Q.
abbrev pub First : {A : Type 0} → (P Q : A → Type 0) → List A → Type 0
First P Q [] = Unit
First P Q (x ∷ xs) = (P x → Q x) × (¬ P x → First P Q xs)

module _ (to_lower : Text → Text) where
  approved_iff :
      (argv approved : List Text) (destructive : List DestructiveMatcher)
      → (unapproved approved
            (find? (λ d. matches_command to_lower argv d.matcher false) destructive)
          ≡ false)
        ↔ First
            (λ d. MatchesEntry to_lower false argv d.matcher)
            (λ d. elem approved d.category_id ≡ true)
            destructive
  unfolding unapproved
  approved_iff argv approved [] = (λ h. tt, λ h. refl)
  approved_iff argv approved (d ∷ ds) =
      let (to, from) = matches_command_iff to_lower argv d.matcher false in
      let (later_to, later_from) = approved_iff argv approved ds in
      elim (Bool-cases (matches_command to_lower argv d.matcher false)) [
        | inl now ↦ (
          λ h. (λ m. ground arith, λ off. absurd (off (to now))),
          λ h. let k = h.0 (to now) in ground arith,
        )
        | inr later ↦ (
          λ h. (λ m. let now = from m in cc, λ off. later_to (ground arith)),
          λ h. let k = later_from (h.1 (λ m. let now = from m in cc)) in ground arith,
        )
      ]

  -- Execution is on, the program is no shell interpreter, no denied entry matches in any case, an allowed
  -- one matches as written if there are any, and the first destructive entry that matches, in any
  -- case, is of an approved category.
  pub record IsAllowed (argv : List Text) (command_execution : Bool)
      (allowed_commands denied_commands : List CommandMatcher)
      (destructive_commands : List DestructiveMatcher) (approved : List Text) : Type 0 where
    pub program : Text
    pub arguments : List Text
    pub command : argv ≡ program ∷ arguments
    pub enabled : command_execution ≡ true
    pub no_shell : is_shell_interpreter to_lower program ≡ false
    pub not_denied : All (λ e. ¬ MatchesEntry to_lower false argv e) denied_commands
    pub within :
        (allowed_commands ≡ []) ⊎ Exists (λ e. MatchesEntry to_lower true argv e) allowed_commands
    pub first_approved :
        First
          (λ d. MatchesEntry to_lower false argv d.matcher)
          (λ d. elem approved d.category_id ≡ true)
          destructive_commands

  outside : List Text → List CommandMatcher → Bool
  outside argv entries =
      ltb 0 (length entries) && not (any (λ e. matches_command to_lower argv e true) entries)

  outside_iff :
      (argv : List Text) (entries : List CommandMatcher)
      → (outside argv entries ≡ false)
        ↔ ((entries ≡ []) ⊎ Exists (λ e. MatchesEntry to_lower true argv e) entries)
  unfolding outside
  outside_iff argv [] = (λ h. inl refl, λ h. refl)
  outside_iff argv (a ∷ entries) =
      let (to, from) = any-true_iff (λ e. matches_command to_lower argv e true) (a ∷ entries) in
      (
        λ h. inr (
            Exists-map (λ e m. (matches_command_iff to_lower argv e true).0 m) (a ∷ entries)
              (to (ground arith))),
        λ h. elim h [
          | inl none_allowed ↦ cc
          | inr some_allowed ↦
              let k = from (
                Exists-map (λ e m. (matches_command_iff to_lower argv e true).1 m) (a ∷ entries)
                  some_allowed) in
              ground arith
        ],
      )

  denied_iff :
      (argv : List Text) (entries : List CommandMatcher)
      → (find? (λ e. matches_command to_lower argv e false) entries ≡ none)
        ↔ All (λ e. ¬ MatchesEntry to_lower false argv e) entries
  denied_iff argv entries =
      let test = λ (e : CommandMatcher). matches_command to_lower argv e false in
      let (to, from) = find?-none_iff test entries in
      (
        λ h.
            All-map {P = λ e. test e ≡ false} {Q = λ e. ¬ MatchesEntry to_lower false argv e}
              (λ e off m. false≢true (sym off ∙ (matches_command_iff to_lower argv e false).1 m))
              entries (to h),
        λ h. from (
            All-map {P = λ e. ¬ MatchesEntry to_lower false argv e} {Q = λ e. test e ≡ false}
              (λ e off.
                not_true (test e) (λ on. off ((matches_command_iff to_lower argv e false).0 on)))
              entries h),
      )

  against_lists_iff :
      (argv : List Text) (allowed_commands denied_commands : List CommandMatcher)
      (destructive_commands : List DestructiveMatcher) (approved : List Text)
      → ((against_lists to_lower argv allowed_commands denied_commands destructive_commands
            approved).decision
          ≡ allowed)
        ↔ ((find? (λ e. matches_command to_lower argv e false) denied_commands ≡ none)
            × (outside argv allowed_commands ≡ false)
            × (unapproved approved
                  (find? (λ d. matches_command to_lower argv d.matcher false) destructive_commands)
                ≡ false))
  unfolding against_lists outside result_blocked
  against_lists_iff argv allowed_commands denied_commands destructive_commands approved = (
    λ h. elim (Option-cases (find? (λ e. matches_command to_lower argv e false) denied_commands)) [
      | inl none_denied ↦ (none_denied, ground arith, ground arith)
      | inr (e, found) ↦ absurd (ground arith)
    ],
    λ h. let (a, b, c) = h in ground arith,
  )

  preflight-stages :
      (normalized : NormalizedCommand) (command_execution : Bool)
      (allowed_commands denied_commands : List CommandMatcher)
      (destructive_commands : List DestructiveMatcher) (approved : List Text) (program : Text)
      (arguments : List Text)
      → normalized.argv ≡ program ∷ arguments
      → ((preflight_command to_lower normalized command_execution allowed_commands denied_commands
            destructive_commands approved).decision
          ≡ allowed)
        ↔ ((command_execution ≡ true)
            × (is_shell_interpreter to_lower program ≡ false)
            × ((against_lists to_lower
                  (program ∷ arguments)
                  allowed_commands
                  denied_commands
                  destructive_commands
                  approved).decision
                ≡ allowed))
  unfolding preflight_command result_blocked
  preflight-stages normalized command_execution allowed_commands denied_commands
        destructive_commands approved program arguments e =
      (λ h. (ground arith, ground arith, ground arith), λ h. let (a, b, c) = h in ground arith)

  empty_refused :
      (normalized : NormalizedCommand) (command_execution : Bool)
      (allowed_commands denied_commands : List CommandMatcher)
      (destructive_commands : List DestructiveMatcher) (approved : List Text)
      → normalized.argv ≡ []
      → (preflight_command to_lower normalized command_execution allowed_commands denied_commands
          destructive_commands approved).decision
        ≢ allowed
  unfolding preflight_command result_blocked
  empty_refused normalized command_execution allowed_commands denied_commands destructive_commands
        approved e h =
      ground arith

  -- A command is allowed exactly when it is not empty, execution is on, its program is no shell
  -- interpreter, no denied entry matches it in lower case, an allowed entry matches it as written
  -- if there are any, and the first destructive entry that matches it in lower case, if there is
  -- one, is of an approved category.
  pub preflight_command_iff :
      (normalized : NormalizedCommand) (command_execution : Bool)
      (allowed_commands denied_commands : List CommandMatcher)
      (destructive_commands : List DestructiveMatcher) (approved : List Text)
      → ((preflight_command to_lower normalized command_execution allowed_commands denied_commands
            destructive_commands approved).decision
          ≡ allowed)
        ↔ IsAllowed normalized.argv command_execution allowed_commands denied_commands
            destructive_commands approved
  preflight_command_iff normalized command_execution allowed_commands denied_commands
        destructive_commands approved =
      elim (List-cases normalized.argv) [
        | inl empty ↦ (
          λ h. absurd (
              empty_refused normalized command_execution allowed_commands denied_commands
                destructive_commands approved empty h),
          λ r. let e = r.command in cc,
        )
        | inr (program, arguments, e) ↦
            let argv = program ∷ arguments in
            let (stage_to, stage_from) =
              preflight-stages normalized command_execution allowed_commands denied_commands
                destructive_commands approved program arguments e in
            let (lists_to, lists_from) =
              against_lists_iff argv allowed_commands denied_commands destructive_commands
                approved in
            let (denied_to, denied_from) = denied_iff argv denied_commands in
            let (outside_to, outside_from) = outside_iff argv allowed_commands in
            let (approved_to, approved_from) = approved_iff argv approved destructive_commands in
            (
              λ h.
                  let (on, shell, lists) = stage_to h in
                  let (a, b, c) = lists_to lists in
                  subst
                    (λ l.
                      IsAllowed l command_execution allowed_commands denied_commands
                        destructive_commands approved)
                    (sym e)
                    (record {
                      program = program;
                      arguments = arguments;
                      command = refl;
                      enabled = on;
                      no_shell = shell;
                      not_denied = denied_to a;
                      within = outside_to b;
                      first_approved = approved_to c;
                    }),
              λ r.
                  let k =
                    subst
                      (λ l.
                        IsAllowed l command_execution allowed_commands denied_commands
                          destructive_commands approved)
                      e r in
                  let shell = k.no_shell in
                  let same = k.command in
                  stage_from (
                    k.enabled,
                    cc,
                    lists_from (
                      denied_from k.not_denied,
                      outside_from k.within,
                      approved_from k.first_approved,
                    ),
                  ),
            )
      ]
