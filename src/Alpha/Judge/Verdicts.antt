-- ===== src/Alpha/Judge/Verdicts.antt =====
-- What each verdict rests on.
use mathlib.Core.Bool.{}
use code_fleet.Prelude.{◌<◌, ◌≡◌, ◌≢◌, ◌↔◌, refl, Bool, true, false, some, Text, arith}
use code_fleet.Alpha.Judge.Envelopes.{Enveloped, gates-Enveloped}
use code_fleet.Alpha.Judge.{
  harness_executed, Evidence, Envelope, accept, judge, is_failing_baseline, bind_verification,
  protected_envelope, is_digest,
}

-- A run of the protected harness in which every declared test ran and passed.
pub record AllPassed (e : Evidence) : Type 0 where
  pub harness : e.authority ≡ harness_executed
  pub protected : Enveloped e e.envelope
  pub not_interrupted : e.interrupted ≡ false
  pub not_truncated : e.truncated ≡ false
  pub tree_intact : e.integrity ≡ true
  pub same_tests : e.test_identity_match ≡ true
  pub exit_zero : e.exit_code ≡ 0
  pub some_test : 0 < e.tests
  pub all_passed : e.passed ≡ e.tests
  pub none_failed : e.failed ≡ 0
  pub none_skipped : e.skipped ≡ 0
  pub none_todo : e.todo ≡ 0

-- The judge accepts exactly the evidence of a harness run that was neither interrupted nor truncated, on an
-- intact tree with the same tests, that ended with zero, ran some test and passed all, none failed,
-- skipped or todo; and whose envelope, if it has one, has every field, names a backend, was executed
-- by the harness with protected inputs and the three capabilities, is matched, has a digest of the
-- contract and one of the tree that is the candidate's, and has every gate satisfied.
pub judge-accept_iff : (e : Evidence) → (judge e ≡ accept) ↔ AllPassed e
unfolding judge
judge-accept_iff e =
    let (to, from) = gates-Enveloped e e.envelope refl in
    (
      λ h. record {
        harness = ground arith;
        protected = to (ground arith);
        not_interrupted = ground arith;
        not_truncated = ground arith;
        tree_intact = ground arith;
        same_tests = ground arith;
        exit_zero = ground arith;
        some_test = ground arith;
        all_passed = ground arith;
        none_failed = ground arith;
        none_skipped = ground arith;
        none_todo = ground arith;
      },
      λ a.
          let g = from a.protected in
          ground (
            arith, a.harness, a.not_interrupted, a.not_truncated, a.tree_intact, a.same_tests,
            a.exit_zero, a.some_test, a.all_passed, a.none_failed, a.none_skipped, a.none_todo,
          ),
    )

-- A baseline that shows the regression is never accepted as a fix.
pub is_failing_baseline-not_accepted :
    (e : Evidence) → is_failing_baseline e ≡ true → judge e ≢ accept
unfolding judge is_failing_baseline
is_failing_baseline-not_accepted e b h = ground arith

-- What acceptance of bound evidence says of the run that produced it and of the coordinator's checks.
pub record Trusted (e : Evidence) (contract_hash candidate_hash : Text) (integrity identity : Bool)
    : Type 0 where
  pub harness : e.authority ≡ harness_executed
  pub tree_intact : integrity ≡ true
  pub same_tests : identity ≡ true
  pub isolated : (v : Envelope) → e.envelope ≡ some v → protected_envelope v ≡ true
  pub digests :
      (v : Envelope)
      → e.envelope ≡ some v
      → (is_digest (some contract_hash) ≡ true) × (is_digest (some candidate_hash) ≡ true)

-- If the judge accepts evidence that the coordinator has bound, then the harness ran it, the tree was
-- intact, the test identities matched, and an envelope was protected and bound to well-formed digests.
pub bind_verification-Trusted :
    (e : Evidence) (contract_hash candidate_hash : Text) (integrity identity : Bool)
    → judge (bind_verification e contract_hash candidate_hash integrity identity) ≡ accept
    → Trusted e contract_hash candidate_hash integrity identity
unfolding judge bind_verification
bind_verification-Trusted e ch dh integrity identity h = record {
  harness = ground arith;
  tree_intact = ground arith;
  same_tests = ground arith;
  isolated = λ v p. ground arith;
  digests = λ v p. ground arith;
}
