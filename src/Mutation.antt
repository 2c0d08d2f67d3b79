-- ===== src/Mutation.antt =====
-- The mutation engine of src/mutation.ts: the phases of one change, under the lock of the workspace. A step
-- acts on a world and may throw, and keeps what it did before it threw. The lock file is the holder
-- it names, if that can be read; I/O errors of the lock file itself are left out.
pub mod Commits
mod Tests
use code_fleet.Prelude.{
  Bool, true, false, Option, none, some, List, [], Text, Result, ok, err, if◌then◌else◌,
}

pub data MutationPhase : Type 0 where
  m0_resolve m1_acquire m2_precheck m3_idempotency m4_append m5_rebuild : MutationPhase
  m6_postcheck m7_release : MutationPhase

pub record LockHolder : Type 0 where
  pub pid : Text
  pub host : Text
  pub started_at : Text
  pub mutation_id : Text
  pub mutation_kind : Text

pub record MutationOutcome (E T : Type 0) : Type 0 where
  pub outcome_id : Text
  pub applied : Bool
  pub already_applied : Bool
  pub failed_phase : Option MutationPhase
  pub failure : Option E
  pub result : Option T

-- What is thrown: `MutationLockHeldError`, or the error of a step.
pub data Thrown (E : Type 0) : Type 0 where
  mutation_lock_held : (holder : Option LockHolder) → Thrown E
  step_threw : (error : E) → Thrown E

pub record MutationSteps (W E T : Type 0) : Type 0 where
  pub precheck : W → W × Result E (Unit {0})
  pub is_already_applied : W → W × Result E Bool
  pub append : W → W × Result E T
  pub rebuild : W → W × Result E (Unit {0})
  pub postcheck : W → W × Result E (Unit {0})

-- The world, and the holder of the lock if there is a lock file
pub record Machine (W : Type 0) : Type 0 where
  pub world : W
  pub lock : Option (Option LockHolder)

module _ {E T : Type 0} where
  -- `failure(mutationId, phase, error, appended, result)`
  pub failure_of : Text → MutationPhase → E → Bool → Option T → MutationOutcome E T
  failure_of id phase error appended result = record {
    outcome_id = id;
    applied = appended;
    already_applied = false;
    failed_phase = some phase;
    failure = some error;
    result = result;
  }

  pub success_of : Text → Bool → Bool → Option T → MutationOutcome E T
  success_of id applied already_applied result = record {
    outcome_id = id;
    applied = applied;
    already_applied = already_applied;
    failed_phase = none;
    failure = none;
    result = result;
  }

  step_result : Result E (MutationOutcome E T) → Result (Thrown E) (MutationOutcome E T)
  step_result (ok outcome) = ok outcome
  step_result (err e) = err (step_threw e)

module _ {W E T : Type 0} where
  -- M5 and M6, after the event was appended
  pub after_append : MutationSteps W E T → Text → T → W → W × Result E (MutationOutcome E T)
  unfolding failure_of success_of
  after_append steps id value w =
      let (w1, rebuilt) = steps.rebuild w in
      elim rebuilt [
        | err e ↦ (w1, ok (failure_of id m5_rebuild e true (some value)))
        | ok done ↦
            let (w2, checked) = steps.postcheck w1 in
            elim checked [
              | err e ↦ (w2, ok (failure_of id m6_postcheck e true (some value)))
              | ok valid ↦ (w2, ok (success_of id true false (some value)))
            ]
      ]

  -- M2 to M6, under the lock
  pub run_steps : MutationSteps W E T → Text → W → W × Result E (MutationOutcome E T)
  unfolding failure_of success_of
  run_steps steps id w =
      let (w1, checked) = steps.precheck w in
      elim checked [
        | err e ↦ (w1, ok (failure_of id m2_precheck e false none))
        | ok done ↦
            let (w2, present) = steps.is_already_applied w1 in
            elim present [
              | err e ↦ (w2, err e)
              | ok already ↦ elim already [
                | true ↦ (w2, ok (success_of id false true none))
                | false ↦
                    let (w3, appended) = steps.append w2 in
                    elim appended [
                      | err e ↦ (w3, ok (failure_of id m4_append e false none))
                      | ok value ↦ after_append steps id value w3
                    ]
              ]
            ]
      ]

  -- `runMutation`: the lock is taken if there is none, and removed on every way out.
  pub run_mutation :
      MutationSteps W E T
      → LockHolder
      → Machine W
      → Machine W × Result (Thrown E) (MutationOutcome E T)
  unfolding step_result
  run_mutation steps holder m = elim m.lock [
    | some held ↦ (m, err (mutation_lock_held held))
    | none ↦
        let (w, r) = run_steps steps holder.mutation_id m.world in
        (record { world = w; lock = none }, step_result r)
  ]

-- `breakLock`
pub break_lock : {W : Type 0} → Machine W → Machine W × Option LockHolder
break_lock m =
    (record { world = m.world; lock = none }, elim m.lock [ none ↦ none | some held ↦ held ])
