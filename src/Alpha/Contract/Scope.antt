-- ===== src/Alpha/Contract/Scope.antt =====
-- What a valid contract guarantees about the paths that it names.
use code_fleet.Prelude.{
  ◌≤◌, ◌≡◌, inl, inr, true, false, List, [], ◌∷◌, Text, ==_iff, elem, all, Result, ok, Result-cases,
  ap, arith,
}
use code_fleet.Alpha.Paths.{file_path}
use code_fleet.Alpha.Contract.{
  Contract, Files, Edit, validate_contract, path_list, java_prefix, check_each, check_file,
  check_test, apply_edits,
}
use code_fleet.Alpha.Contract.Edits.{apply_edits-Contained}

check_each-ok :
    (check : Text → Result _ (Unit {0})) (xs : List Text) (x : Text)
    → check_each check xs ≡ ok tt
    → elem xs x ≡ true
    → check x ≡ ok tt
unfolding check_each elem
check_each-ok check [] x h m = cc
check_each-ok check (y ∷ ys) x h m = elim (Result-cases (check y)) [
  | inl (u, first) ↦ ground (arith, ==_iff y x, λ (e : y ≡ x). ap check e, check_each-ok check ys x)
  | inr (e, refused) ↦ absurd (ground arith)
]

-- The paths of a valid contract are safe, its editable files are in its context, and none of its
-- tests is editable.
pub record IsScoped (c : Contract) : Type 0 where
  pub safe_files : all file_path c.files ≡ true
  pub safe_context : all file_path c.context ≡ true
  pub safe_tests : all file_path c.tests ≡ true
  pub in_context : (p : Text) → elem c.files p ≡ true → elem c.context p ≡ true
  pub protected : (p : Text) → elem c.tests p ≡ true → elem c.files p ≡ false
  pub some_attempt : 1 ≤ c.max_attempts
  pub few_attempts : c.max_attempts ≤ 5
  pub bounded_time : c.timeout_seconds ≤ 1800

path_list-safe : (paths : List Text) → path_list paths ≡ ok tt → all file_path paths ≡ true
unfolding path_list
path_list-safe paths h = ground arith

record Checked (c : Contract) : Type 0 where
  files_ok : path_list c.files ≡ ok tt
  context_ok : path_list c.context ≡ ok tt
  tests_ok : path_list c.tests ≡ ok tt
  prefix : Text
  each_file : check_each (check_file c prefix) c.files ≡ ok tt
  each_test : check_each (check_test c prefix) c.tests ≡ ok tt
  some_attempt : 1 ≤ c.max_attempts
  few_attempts : c.max_attempts ≤ 5
  bounded_time : c.timeout_seconds ≤ 1800

validate_contract-Checked : (c c' : Contract) → validate_contract c ≡ ok c' → Checked c × (c' ≡ c)
unfolding validate_contract
validate_contract-Checked c c' h = elim (Result-cases (java_prefix c.verification)) [
  | inr (e, refused) ↦ absurd (ground arith)
  | inl (prefix, found) ↦ (
    record {
      files_ok = ground arith;
      context_ok = ground arith;
      tests_ok = ground arith;
      prefix = prefix;
      each_file = ground arith;
      each_test = ground arith;
      some_attempt = ground arith;
      few_attempts = ground arith;
      bounded_time = ground arith;
    },
    ground arith,
  )
]

check_file-in_context :
    (c : Contract) (prefix file : Text)
    → check_file c prefix file ≡ ok tt
    → elem c.context file ≡ true
unfolding check_file
check_file-in_context c prefix file h = ground arith

check_test-protected :
    (c : Contract) (prefix test : Text)
    → check_test c prefix test ≡ ok tt
    → elem c.files test ≡ false
unfolding check_test
check_test-protected c prefix test h = ground arith

-- Validation returns the contract as it was given, and only if the contract is scoped.
pub validate_contract-IsScoped :
    (c c' : Contract) → validate_contract c ≡ ok c' → IsScoped c × (c' ≡ c)
validate_contract-IsScoped c c' h =
    let (k, same) = validate_contract-Checked c c' h in
    (
      record {
        safe_files = path_list-safe c.files k.files_ok;
        safe_context = path_list-safe c.context k.context_ok;
        safe_tests = path_list-safe c.tests k.tests_ok;
        in_context = λ p m.
            check_file-in_context c k.prefix p
              (check_each-ok (check_file c k.prefix) c.files p k.each_file m);
        protected = λ p m.
            check_test-protected c k.prefix p
              (check_each-ok (check_test c k.prefix) c.tests p k.each_test m);
        some_attempt = k.some_attempt;
        few_attempts = k.few_attempts;
        bounded_time = k.bounded_time;
      },
      same,
    )

-- Under a valid contract no accepted proposal changes a test, whatever its edits are.
pub apply_edits-keeps_tests :
    (c c' : Contract) (originals files : Files) (summary : Text) (edits : List Edit) (test : Text)
    → validate_contract c ≡ ok c'
    → apply_edits c originals summary edits ≡ ok files
    → elem c.tests test ≡ true
    → files test ≡ originals test
apply_edits-keeps_tests c c' originals files summary edits test valid applied m =
    (apply_edits-Contained c originals files summary edits applied).outside test
      ((validate_contract-IsScoped c c' valid).0.protected test m)
