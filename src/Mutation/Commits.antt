-- ===== src/Mutation/Commits.antt =====
-- When the outcome of a mutation says that it was applied.
use code_fleet.Prelude.{
  ◌≡◌, ◌↔◌, refl, sym, ap, ◌∙◌, inl, inr, true, false, none, some, Text, Result, ok, err,
  Result-cases, Bool-cases, arith,
}
use code_fleet.Mutation.{
  LockHolder, MutationOutcome, Thrown, step_threw, MutationSteps, Machine, failure_of, success_of,
  after_append, run_steps, step_result, run_mutation, m5_rebuild, m6_postcheck,
}

-- The precheck passes, the mutation is not in the ledger, and the append returns.
pub record Appends {W E T : Type 0} (steps : MutationSteps W E T) (w : W) (value : T) : Type 0 where
  pub passed : ((steps.precheck w).1) ≡ ok tt
  pub absent : (steps.is_already_applied ((steps.precheck w).0)).1 ≡ ok false
  pub appended : (steps.append ((steps.is_already_applied ((steps.precheck w).0)).0)).1 ≡ ok value

module _ {W E T : Type 0} where
  after_append-applied :
      (steps : MutationSteps W E T) (id : Text) (value : T) (w : W)
      → (outcome : MutationOutcome E T) × ((after_append steps id value w).1 ≡ ok outcome)
        × (outcome.applied ≡ true)
        × (outcome.result ≡ some value)
  unfolding after_append failure_of success_of
  after_append-applied steps id value w = elim (Result-cases (steps.rebuild w).1) [
    | inr (e, failed) ↦ (failure_of id m5_rebuild e true (some value), ground arith, refl, refl)
    | inl (done, rebuilt) ↦ elim (Result-cases (steps.postcheck (steps.rebuild w).0).1) [
      | inr (e, failed) ↦ (failure_of id m6_postcheck e true (some value), ground arith, refl, refl)
      | inl (valid, checked) ↦ (success_of id true false (some value), ground arith, refl, refl)
    ]
  ]

  run_steps-applied :
      (steps : MutationSteps W E T) (id : Text) (w : W) (outcome : MutationOutcome E T)
      → (run_steps steps id w).1 ≡ ok outcome
      → outcome.applied ≡ true
      → (value : T) × Appends steps w value
  unfolding run_steps failure_of success_of
  run_steps-applied steps id w outcome h applied = elim (Result-cases (steps.precheck w).1) [
    | inr (e, failed) ↦ absurd (ground arith)
    | inl (done, passed) ↦ elim (Result-cases (steps.is_already_applied ((steps.precheck w).0)).1) [
      | inr (e, failed) ↦ absurd (ground arith)
      | inl (already, present) ↦ elim (Bool-cases already) [
        | inl there ↦ absurd (ground arith)
        | inr absent ↦
            elim (Result-cases
              (steps.append ((steps.is_already_applied ((steps.precheck w).0)).0)).1) [
                | inr (e, failed) ↦ absurd (ground arith)
                | inl (value, appended) ↦ (
                  value,
                  record { passed = passed; absent = present ∙ ap ok absent; appended = appended },
                )
              ]
      ]
    ]
  ]

  run_steps-Appends :
      (steps : MutationSteps W E T) (id : Text) (w : W) (value : T)
      → Appends steps w value
      → (run_steps steps id w)
        ≡ after_append steps id value
            ((steps.append ((steps.is_already_applied ((steps.precheck w).0)).0)).0)
  unfolding run_steps
  run_steps-Appends steps id w value a =
      let passed = a.passed in let absent = a.absent in let appended = a.appended in ground arith

  Appends-outcome :
      (steps : MutationSteps W E T) (id : Text) (w : W) (value : T) (outcome : MutationOutcome E T)
      → Appends steps w value
      → (run_steps steps id w).1 ≡ ok outcome
      → (outcome.applied ≡ true) × (outcome.result ≡ some value)
  Appends-outcome steps id w value outcome a h =
      let (found, e, applied, result) =
        after_append-applied steps id value
          ((steps.append ((steps.is_already_applied ((steps.precheck w).0)).0)).0) in
      let same : ◌≡◌ {A = Result E (MutationOutcome E T)} (ok found) (ok outcome) =
        sym e ∙ sym (ap (λ r. r.1) (run_steps-Appends steps id w value a)) ∙ h in
      let is : found ≡ outcome = cc in
      (ap (λ o. o.applied) (sym is) ∙ applied, ap (λ o. o.result) (sym is) ∙ result)

  -- What an answer says: an outcome is applied exactly when the event was appended, and then carries the
  -- result of the append; the only error is the one that the look at the ledger threw.
  abbrev pub Says : MutationSteps W E T → W → Result (Thrown E) (MutationOutcome E T) → Type 0
  Says steps w (ok outcome) =
      (outcome.applied ≡ true)
      ↔ ((value : T) × Appends steps w value × (outcome.result ≡ some value))
  Says steps w (err thrown) =
      ((steps.precheck w).1 ≡ ok tt)
      × ((e : E) × (((steps.is_already_applied ((steps.precheck w).0)).1 ≡ err e)
            × (thrown ≡ step_threw e)))

  run_steps-err :
      (steps : MutationSteps W E T) (id : Text) (w : W) (e : E)
      → (run_steps steps id w).1 ≡ err e
      → ((steps.precheck w).1 ≡ ok tt)
        × ((steps.is_already_applied ((steps.precheck w).0)).1 ≡ err e)
  unfolding run_steps
  run_steps-err steps id w e h = elim (Result-cases (steps.precheck w).1) [
    | inr (e', failed) ↦ absurd (ground arith)
    | inl (done, passed) ↦ elim (Result-cases (steps.is_already_applied ((steps.precheck w).0)).1) [
      | inr (e', failed) ↦ (passed, ground arith)
      | inl (already, present) ↦ elim (Bool-cases already) [
        | inl there ↦ absurd (ground arith)
        | inr absent ↦
            elim (Result-cases
              (steps.append ((steps.is_already_applied ((steps.precheck w).0)).0)).1) [
                | inr (e', failed) ↦ absurd (ground arith)
                | inl (value, appended) ↦
                    let a : Appends steps w value = record {
                      passed = passed;
                      absent = present ∙ ap ok absent;
                      appended = appended;
                    } in
                    let (found, k, applied, result) =
                      after_append-applied steps id value
                        ((steps.append ((steps.is_already_applied ((steps.precheck w).0)).0)).0) in
                    absurd (ground arith)
              ]
      ]
    ]
  ]

  run_steps-Says :
      (steps : MutationSteps W E T) (id : Text) (w : W)
      → Says steps w (step_result (run_steps steps id w).1)
  unfolding step_result
  run_steps-Says steps id w = elim (Result-cases (run_steps steps id w).1) [
    | inl (outcome, r) ↦ rw r (
      λ applied.
          let (value, a) = run_steps-applied steps id w outcome r applied in
          let (now, result) = Appends-outcome steps id w value outcome a r in (value, a, result),
      λ k. let (value, a, result) = k in (Appends-outcome steps id w value outcome a r).0,
    )
    | inr (e, r) ↦
        rw r (let (passed, threw) = run_steps-err steps id w e r in (passed, (e, (threw, refl))))
  ]

  -- A mutation that finds no lock leaves none, whatever its steps do or throw. What it returns is an
  -- outcome that is applied exactly when the precheck passed, the mutation was not in the ledger, and
  -- the append returned, whatever the rebuild and the postcheck did, and that then has the result of the
  -- append; it throws only what the look at the ledger threw after the precheck passed.
  pub run_mutation-Appends :
      (steps : MutationSteps W E T) (holder : LockHolder) (m : Machine W)
      → m.lock ≡ none
      → (((run_mutation steps holder m).0).lock ≡ none)
        × Says steps m.world (run_mutation steps holder m).1
  unfolding run_mutation
  run_mutation-Appends steps holder m free =
      rw free (refl, run_steps-Says steps holder.mutation_id m.world)

  -- A mutation whose every step succeeds
  pub run_mutation-done :
      (steps : MutationSteps W E T) (holder : LockHolder) (m : Machine W) (after : W) (value : T)
      → m.lock ≡ none
      → steps.precheck m.world ≡ (m.world, ok tt)
      → steps.is_already_applied m.world ≡ (m.world, ok false)
      → steps.append m.world ≡ (after, ok value)
      → steps.rebuild after ≡ (after, ok tt)
      → steps.postcheck after ≡ (after, ok tt)
      → run_mutation steps holder m ≡ (
        record { world = after; lock = none },
        ok (success_of holder.mutation_id true false (some value)),
      )
  unfolding run_mutation step_result run_steps after_append
  run_mutation-done steps holder m after value free a b c d e = ground arith
