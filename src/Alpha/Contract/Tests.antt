-- ===== src/Alpha/Contract/Tests.antt =====
-- A small contract and a proposal for it, and the theorems of the contract on them.
use code_fleet.Prelude.{
  ◌≡◌, refl, true, none, [], ◌∷◌, Text, text, ◌==◌, elem, trim, starts_with, ends_with, split,
  lower, contains, cut, ok, err,
}
use code_fleet.Alpha.Paths.{file_path, editable_file, test_file}
use code_fleet.Alpha.Contract.{
  Contract, local, outside_scope, Edit, Files, put, validate_contract, apply_edits,
}
use code_fleet.Alpha.Contract.Scope.{IsScoped, validate_contract-IsScoped, apply_edits-keeps_tests}
use code_fleet.Alpha.Contract.Edits.{Contained, Edited, apply_edits-Contained, apply_edits-Edited}

abbrev source_path : Text
source_path = text "src/a.mjs"

abbrev test_path : Text
test_path = text "tests/a.test.mjs"

abbrev contract : Contract
contract = record {
  schema_version = 1;
  goal = text "Repair the sum";
  files = source_path ∷ [];
  context = source_path ∷ test_path ∷ [];
  tests = test_path ∷ [];
  max_attempts = 2;
  timeout_seconds = 60;
  budget_micros = 500000;
  delivery = local;
  verification = none;
}

abbrev originals : Files
originals = put (λ p. none) source_path (text "a - b")

abbrev edit : Edit
edit = record { path = source_path; old_text = text "-"; new_text = text "+" }

abbrev test_edit : Edit
test_edit = record { path = test_path; old_text = text "-"; new_text = text "+" }

contract-valid : validate_contract contract ≡ ok contract
unfolding validate_contract ◌==◌ elem trim file_path starts_with split ends_with lower editable_file
    contains test_file
contract-valid = refl

abbrev result : Files
result = put originals source_path (text "a + b")

edit-applied : apply_edits contract originals [] (edit ∷ []) ≡ ok result
unfolding apply_edits ◌==◌ elem file_path split starts_with ends_with lower cut contains
edit-applied = refl

test_edit-refused : apply_edits contract originals [] (test_edit ∷ []) ≡ err outside_scope
unfolding apply_edits ◌==◌ elem file_path split starts_with ends_with lower
test_edit-refused = refl

is_test : elem contract.tests test_path ≡ true
unfolding elem ◌==◌
is_test = refl

validate_contract-IsScoped_example : IsScoped contract × (contract ≡ contract)
validate_contract-IsScoped_example = validate_contract-IsScoped contract contract contract-valid

apply_edits-keeps_tests_example : result test_path ≡ originals test_path
apply_edits-keeps_tests_example =
    apply_edits-keeps_tests contract contract originals result [] (edit ∷ []) test_path
      contract-valid edit-applied is_test

apply_edits-Contained_example : Contained contract originals result
apply_edits-Contained_example =
    apply_edits-Contained contract originals result [] (edit ∷ []) edit-applied

apply_edits-Edited_example : Edited contract edit originals result
apply_edits-Edited_example = apply_edits-Edited contract originals result [] edit edit-applied
