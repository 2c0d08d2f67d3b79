-- ===== src/Alpha/Contract.antt =====
-- The execution contract, from src/alpha/contract.mjs: what a contract may name, and how a proposal's
-- edits are applied to the files that it delegates. A value that the source takes from JSON is
-- typed here, so the checks of its JSON type and of unknown fields are the types of the records.
pub mod Scope
pub mod Edits
mod Tests
use code_fleet.Prelude.{
  ℕ, Bool, true, false, not, ◌&&◌, ◌||◌, Option, none, some, List, [], ◌∷◌, ◌++◌, map, Text, text,
  ◌==◌, elem, any, all, length, ltb, nat_eq, is_blank, trim, lower, starts_with, cut, contains,
  split, Result, ok, err, ◌>>=◌, ◌>>◌, reject_if, if◌then◌else◌,
}
use code_fleet.Alpha.Paths.{
  file_path, image_id, editable_file, test_file, repository_name, base_name, mail_address,
}

pub data Fault : Type 0 where
  unsafe_path schema_version bad_goal path_count duplicate_paths : Fault
  bad_image module_is_option not_editable not_context not_test protected_asset : Fault
  bad_attempts bad_timeout bad_budget bad_repository bad_base bad_author : Fault
  bad_proposal outside_scope unbounded_edit not_exactly_once : Fault

pub data BuildKind : Type 0 where
  java_gradle java_maven : BuildKind

pub record JavaVerification : Type 0 where
  pub kind : BuildKind
  pub image : Text
  pub module_path : Option Text

pub data Delivery : Type 0 where
  local : Delivery
  pull_request : (repository base author_name author_email : Text) → Delivery

pub record Contract : Type 0 where
  pub schema_version : ℕ
  pub goal : Text
  pub files : List Text
  pub context : List Text
  pub tests : List Text
  pub max_attempts : ℕ
  pub timeout_seconds : ℕ
  pub budget_micros : ℕ  -- `attemptBudgetUsd`, a decimal number, here in millionths of a dollar
  pub delivery : Delivery
  pub verification : Option JavaVerification

has_duplicates : List Text → Bool
has_duplicates [] = false
has_duplicates (x ∷ xs) = elem xs x || has_duplicates xs

-- The loop over `files`, `context` and `tests`.
path_list : List Text → Result Fault (Unit {0})
unfolding has_duplicates
path_list paths = do
  reject_if (ltb (length paths) 1 || ltb 20 (length paths)) path_count
  reject_if (not (all file_path paths)) unsafe_path
  reject_if (has_duplicates (map lower paths)) duplicate_paths

-- The checks of `verification`, and the path prefix that its module gives.
java_prefix : Option JavaVerification → Result Fault Text
java_prefix none = ok []
java_prefix (some v) = do
  reject_if (not (image_id v.image)) bad_image
  elim v.module_path [
    | none ↦ ok []
    | some m ↦ do
      reject_if (not (file_path m)) unsafe_path
      reject_if (any (starts_with (text "-")) (split b'/' m)) module_is_option
      ok (m ++ text "/")
  ]

abbrev is_java : Option JavaVerification → Bool
is_java none = false
is_java (some _) = true

check_each : (Text → Result Fault (Unit {0})) → List Text → Result Fault (Unit {0})
check_each check [] = ok tt
check_each check (x ∷ xs) = do check x; check_each check xs

check_delivery : Delivery → Result Fault (Unit {0})
check_delivery local = ok tt
check_delivery (pull_request repository base author_name author_email) = do
  reject_if (not (repository_name repository)) bad_repository
  reject_if (not (base_name base)) bad_base
  reject_if
      (is_blank author_name
        || any (λ c. nat_eq c 13 || nat_eq c 10 || nat_eq c b'<' || nat_eq c b'>') author_name
        || not (mail_address author_email))
      bad_author

-- The edits that a contract delegates stay inside its scope; its tests are protected.
check_file : Contract → Text → Text → Result Fault (Unit {0})
check_file c prefix file = do
  reject_if (not (editable_file (is_java c.verification) prefix file)) not_editable
  reject_if (not (elem c.context file)) not_context

check_test : Contract → Text → Text → Result Fault (Unit {0})
check_test c prefix test = do
  reject_if (not (test_file (is_java c.verification) prefix test)) not_test
  reject_if (elem c.files test) protected_asset

-- The contract is returned as it was given (`structuredClone`).
unfoldable pub validate_contract : Contract → Result Fault Contract
unfolding path_list java_prefix check_each check_file check_test check_delivery
validate_contract c = do
  reject_if (not (nat_eq c.schema_version 1)) schema_version
  reject_if (ltb (length (trim c.goal)) 10 || ltb 4000 (length c.goal)) bad_goal
  path_list c.files
  path_list c.context
  path_list c.tests
  prefix ← java_prefix c.verification
  check_each (check_file c prefix) c.files
  check_each (check_test c prefix) c.tests
  reject_if (ltb c.max_attempts 1 || ltb 5 c.max_attempts) bad_attempts
  reject_if (ltb c.timeout_seconds 30 || ltb 1800 c.timeout_seconds) bad_timeout
  reject_if (ltb c.budget_micros 1 || ltb 10000000 c.budget_micros) bad_budget
  check_delivery c.delivery
  ok c

-- One edit of a proposal: the old text is replaced where it stands.
pub record Edit : Type 0 where
  pub path : Text
  pub old_text : Text
  pub new_text : Text

-- The contents of the delegated files, by path.
abbrev pub Files : Type 0
Files = Text → Option Text

abbrev pub put : Files → Text → Text → Files
put files path body p = if path == p then some body else files p

-- `source.split(oldText).length === 2`, and the replacement of that one occurrence.
replace_once : Text → Text → Text → Option Text
replace_once old new source = elim (cut old source) [
  | none ↦ none
  | some (a, b) ↦ if contains old b then none else some (a ++ (new ++ b))
]

-- `source` must be a string.
abbrev replace_in : Edit → Option Text → Option Text
replace_in e none = none
replace_in e (some source) = replace_once e.old_text e.new_text source

abbrev not_once : Option Text → Result Fault Text
not_once none = err not_exactly_once
not_once (some t) = ok t

apply_edit : Contract → Edit → Files → Result Fault Files
unfolding replace_once
apply_edit c e files = do
  reject_if (not (file_path e.path)) unsafe_path
  reject_if (not (elem c.files e.path)) outside_scope
  reject_if (e.old_text == [] || ltb 64000 (length e.new_text) || e.old_text == e.new_text)
      unbounded_edit
  body ← not_once (replace_in e (files e.path))
  ok (put files e.path body)

apply_each : Contract → List Edit → Files → Result Fault Files
apply_each c [] files = ok files
apply_each c (e ∷ es) files = do files' ← apply_edit c e files; apply_each c es files'

unfoldable pub apply_edits : Contract → Files → Text → List Edit → Result Fault Files
unfolding apply_each apply_edit
apply_edits c originals summary edits = do
  reject_if (ltb 4000 (length summary) || ltb (length edits) 1 || ltb 30 (length edits))
      bad_proposal
  apply_each c edits originals
