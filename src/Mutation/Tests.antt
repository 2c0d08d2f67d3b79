-- ===== src/Mutation/Tests.antt =====
-- A mutation whose postcheck fails, and one that finds the lock.
use code_fleet.Prelude.{ℕ, suc, ◌≡◌, refl, true, false, none, some, Text, text, ok, err}
use code_fleet.Mutation.{
  LockHolder, MutationOutcome, mutation_lock_held, MutationSteps, Machine, m6_postcheck, failure_of,
  run_mutation, run_steps, after_append, break_lock,
}
use code_fleet.Mutation.Commits.{Says, run_mutation-Appends}

abbrev counting : MutationSteps ℕ Text ℕ
counting = record {
  precheck = λ n. (n, ok tt);
  is_already_applied = λ n. (n, ok false);
  append = λ n. (suc n, ok n);
  rebuild = λ n. (n, ok tt);
  postcheck = λ n. (n, err (text "not valid"));
}

abbrev holder : LockHolder
holder = record {
  pid = text "7";
  host = text "h";
  started_at = text "0";
  mutation_id = text "mut_1";
  mutation_kind = text "COUNT";
}

abbrev free : Machine ℕ
free = record { world = 4; lock = none }

abbrev held : Machine ℕ
held = record { world = 4; lock = some (some holder) }

abbrev invalid : MutationOutcome Text ℕ
invalid = record {
  outcome_id = text "mut_1";
  applied = true;
  already_applied = false;
  failed_phase = some m6_postcheck;
  failure = some (text "not valid");
  result = some 4;
}

refused : run_mutation counting holder held ≡ (held, err (mutation_lock_held (some holder)))
unfolding run_mutation
refused = refl

applied_though_invalid : (run_mutation counting holder free).1 ≡ ok invalid
unfolding run_mutation run_steps after_append failure_of
applied_though_invalid = refl

broken : (break_lock held).1 ≡ some holder
unfolding break_lock
broken = refl

run_mutation-Appends_example :
    (((run_mutation counting holder free).0).lock ≡ none)
    × Says counting 4 (run_mutation counting holder free).1
run_mutation-Appends_example = run_mutation-Appends counting holder free refl
