-- ===== src/Alpha/Judge/Tests.antt =====
-- Verdicts on small evidence, and the theorems of the judge at concrete inputs.
use code_fleet.Prelude.{
  ◌≡◌, ◌≢◌, ◌↔◌, refl, true, false, none, some, [], ◌∷◌, Text, text, ◌==◌, elem,
}
use code_fleet.Alpha.Judge.{
  harness_executed, local_executed, satisfied, unbound, Evidence, Envelope, accept, retry, escalate,
  judge, is_failing_baseline, bind_verification, protected_capabilities, evidence_fields,
  has_every_field,
}
use code_fleet.Alpha.Judge.Verdicts.{
  AllPassed, judge-accept_iff, is_failing_baseline-not_accepted, Trusted, bind_verification-Trusted,
}

abbrev digest : Text
digest = text "0123456789abcdef0123456789abcdef0123456789abcdef0123456789abcdef"

-- The envelope of the docker backend
abbrev docker_envelope : Envelope
docker_envelope = record {
  present = evidence_fields;
  backend = text "docker";
  execution_authority = harness_executed;
  isolation = protected_capabilities;
  protected_inputs = true;
  evidence_integrity = unbound;
  candidate_tree_hash = none;
  gates = record {
    protected_verification = none;
    test_identity = none;
    tree_integrity = none;
    others = satisfied ∷ [];
  };
}

-- What a backend returns, before the coordinator binds it.
abbrev harness_run : Evidence
harness_run = record {
  authority = harness_executed;
  envelope = some docker_envelope;
  exit_code = 0;
  tests = 3;
  passed = 3;
  failed = 0;
  skipped = 0;
  todo = 0;
  interrupted = false;
  truncated = false;
  integrity = false;
  test_identity_match = false;
  contract_hash = none;
  candidate_hash = none;
}

-- The regression, as historical evidence.
abbrev regression : Evidence
regression = record harness_run {
  envelope = none;
  exit_code = 1;
  passed = 2;
  failed = 1;
  integrity = true;
  test_identity_match = true;
}

judge-unbound : judge harness_run ≡ escalate
unfolding judge has_every_field ◌==◌ elem
judge-unbound = refl

-- An envelope with a field missing is refused, although binding fills in three of them.
judge-partial :
    judge (
      bind_verification
        (record harness_run {
          envelope = some (record docker_envelope { present = text "executionAuthority" ∷ [] });
        })
        digest
        digest
        true
        true)
    ≡ escalate
unfolding judge bind_verification has_every_field ◌==◌ elem
judge-partial = refl

judge-regression : judge regression ≡ retry
unfolding judge has_every_field ◌==◌ elem
judge-regression = refl

judge-local : judge (record regression { authority = local_executed }) ≡ escalate
unfolding judge has_every_field ◌==◌ elem
judge-local = refl

judge-bound : judge (bind_verification harness_run digest digest true true) ≡ accept
unfolding judge bind_verification has_every_field ◌==◌ elem
judge-bound = refl

judge-bound_broken : judge (bind_verification harness_run digest digest true false) ≡ escalate
unfolding judge bind_verification has_every_field ◌==◌ elem
judge-bound_broken = refl

regression-fails : is_failing_baseline regression ≡ true
unfolding is_failing_baseline
regression-fails = refl

judge-accept_iff_example :
    (judge (bind_verification harness_run digest digest true true) ≡ accept)
    ↔ AllPassed (bind_verification harness_run digest digest true true)
judge-accept_iff_example = judge-accept_iff (bind_verification harness_run digest digest true true)

is_failing_baseline-not_accepted_example : judge regression ≢ accept
is_failing_baseline-not_accepted_example =
    is_failing_baseline-not_accepted regression regression-fails

bind_verification-Trusted_example : Trusted harness_run digest digest true true
bind_verification-Trusted_example =
    bind_verification-Trusted harness_run digest digest true true judge-bound
