-- ===== src/Policy/Commands.antt =====
-- The command policy of src/command-policy.ts: commands are lists of tokens, compared as written.
-- `toLowerCase` is a parameter, as for the paths.
pub mod Problems
pub mod Tokens
pub mod Preflight
mod Tests
use code_fleet.Prelude.{
  ℕ, suc, ◌+◌, Bool, true, false, not, ◌&&◌, ◌||◌, Option, none, some, List, [], ◌∷◌, ◌++◌, map,
  Text, text, ◌==◌, elem, any, find?, length, ltb, nat_eq, upper_snake, ℤ, pos, negsuc,
  if◌then◌else◌,
}
use code_fleet.Prelude.Json.{
  Json, null, boolean, number, string, array, object, Items, no_items, item, Fields, get,
}

pub data MatchMode : Type 0 where
  prefix exact : MatchMode

pub record CommandMatcher : Type 0 where
  pub argv : List Text
  pub match_mode : Option MatchMode

pub record DestructiveMatcher : Type 0 where
  pub matcher : CommandMatcher
  pub category_id : Text

pub record NormalizedCommand : Type 0 where
  pub argv : List Text
  pub argv0_original : Text
  pub cwd : Text

pub data CommandDecision : Type 0 where
  allowed blocked : CommandDecision

pub data BlockedReason : Type 0 where
  command_execution_disabled shell_interpreter_denied empty_command : BlockedReason
  matches_denied_commands outside_allowed_commands destructive_without_approval : BlockedReason

pub record PreflightResult : Type 0 where
  pub decision : CommandDecision
  pub blocked_reason : Option BlockedReason
  pub matched_entry : Text
  pub destructive_category_id : Text

abbrev pub shell_interpreters : List Text
shell_interpreters =
    text "sh"
    ∷ text "bash"
    ∷ text "zsh"
    ∷ text "dash"
    ∷ text "ksh"
    ∷ text "fish"
    ∷ text "csh"
    ∷ text "tcsh"
    ∷ text "cmd"
    ∷ text "cmd.exe"
    ∷ text "powershell"
    ∷ text "powershell.exe"
    ∷ text "pwsh"
    ∷ text "pwsh.exe"
    ∷ []

-- What follows the last slash or backslash: `split(/[\\/]/).pop()`
basename_from : Text → Text → Text
basename_from segment [] = segment
basename_from segment (c ∷ s) =
    if nat_eq c b'/' || nat_eq c 92 then basename_from [] s else basename_from (segment ++ c ∷ []) s

-- `normalizeCommand(argv, cwd)`
pub normalize_command : List Text → Text → NormalizedCommand
unfolding basename_from
normalize_command [] cwd = record { argv = []; argv0_original = []; cwd = cwd }
normalize_command (original ∷ arguments) cwd = record {
  argv = basename_from [] original ∷ arguments;
  argv0_original = original;
  cwd = cwd;
}

-- `join(" ")`
joined : List Text → Text
joined [] = []
joined (token ∷ []) = token
joined (token ∷ tokens) = token ++ text " " ++ joined tokens

pub mode_of : CommandMatcher → MatchMode
mode_of entry = elim entry.match_mode [ none ↦ prefix | some mode ↦ mode ]

pub is_exact : MatchMode → Bool
is_exact prefix = false
is_exact exact = true

-- `pattern.every((token, index) => target[index] === token)`
pub every_token : List Text → List Text → Bool
every_token [] target = true
every_token (token ∷ tokens) [] = false
every_token (token ∷ tokens) (t ∷ ts) = t == token && every_token tokens ts

-- The tests of `matchesCommand` on the tokens
pub matches_tokens : MatchMode → (pattern target : List Text) → Bool
unfolding is_exact every_token
matches_tokens mode pattern target =
    if nat_eq (length pattern) 0
    then false
    else if is_exact mode && not (nat_eq (length target) (length pattern))
    then false
    else if ltb (length target) (length pattern)
    then false
    else every_token pattern target

result_blocked : BlockedReason → Text → PreflightResult
result_blocked reason entry = record {
  decision = blocked;
  blocked_reason = some reason;
  matched_entry = entry;
  destructive_category_id = [];
}

category_of : Option DestructiveMatcher → Text
category_of none = []
category_of (some entry) = entry.category_id

pub unapproved : List Text → Option DestructiveMatcher → Bool
unapproved approved none = false
unapproved approved (some entry) = not (elem approved entry.category_id)

module _ (to_lower : Text → Text) where
  pub is_shell_interpreter : Text → Bool
  is_shell_interpreter argv0 = elem shell_interpreters (to_lower argv0)

  pub folded : Bool → List Text → List Text
  folded case_sensitive tokens = if case_sensitive then tokens else map to_lower tokens

  -- `matchesCommand(argv, entry, caseSensitive)`
  pub matches_command : List Text → CommandMatcher → Bool → Bool
  unfolding folded mode_of matches_tokens
  matches_command argv entry case_sensitive =
      matches_tokens (mode_of entry) (folded case_sensitive entry.argv) (folded case_sensitive argv)

  -- The tests of `preflightCommand` that follow those on the command itself.
  against_lists :
      List Text
      → (allowed_commands denied_commands : List CommandMatcher) → List DestructiveMatcher
      → List Text
      → PreflightResult
  unfolding joined category_of unapproved result_blocked
  against_lists argv allowed_commands denied_commands destructive_commands approved_category_ids =
      let destructive = find? (λ d. matches_command argv d.matcher false) destructive_commands in
      elim (find? (λ e. matches_command argv e false) denied_commands) [
        | some denied ↦ result_blocked matches_denied_commands (joined denied.argv)
        | none ↦
            if ltb 0 (length allowed_commands)
              && not (any (λ e. matches_command argv e true) allowed_commands)
            then result_blocked outside_allowed_commands []
            else if unapproved approved_category_ids destructive
            then record {
              decision = blocked;
              blocked_reason = some destructive_without_approval;
              matched_entry = elim destructive [
                | none ↦ []
                | some entry ↦ joined entry.matcher.argv
              ];
              destructive_category_id = category_of destructive;
            }
            else record {
              decision = allowed;
              blocked_reason = none;
              matched_entry = [];
              destructive_category_id = category_of destructive;
            }
      ]

  -- `preflightCommand`
  pub preflight_command :
      NormalizedCommand
      → (command_execution : Bool) → (allowed_commands denied_commands : List CommandMatcher)
      → List DestructiveMatcher
      → List Text
      → PreflightResult
  unfolding against_lists is_shell_interpreter result_blocked
  preflight_command normalized command_execution allowed_commands denied_commands
        destructive_commands approved_category_ids =
      elim normalized.argv [
        | [] ↦ result_blocked empty_command []
        | argv0 ∷ arguments ↦
            if not command_execution
            then result_blocked command_execution_disabled []
            else if is_shell_interpreter argv0
            then result_blocked shell_interpreter_denied []
            else against_lists (argv0 ∷ arguments) allowed_commands denied_commands
                destructive_commands approved_category_ids
      ]
