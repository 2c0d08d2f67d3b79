-- ===== src/Alpha/Judge.antt =====
-- The verdict on a verification run: src/alpha/judge.mjs and src/alpha/verification-evidence.mjs.
pub mod Envelopes
pub mod Verdicts
mod Tests
use code_fleet.Prelude.{
  ℕ, Bool, true, false, not, ◌&&◌, ◌||◌, Option, none, some, List, [], ◌∷◌, Text, text, ◌==◌, elem,
  all, length, nat_eq, ltb, between, is_digit, if◌then◌else◌,
}

-- `authority` and `executionAuthority`
pub data Authority : Type 0 where
  harness_executed local_executed provider_reported_only : Authority

pub data Gate : Type 0 where
  satisfied unsatisfied : Gate

pub data Integrity : Type 0 where
  unbound matched mismatch : Integrity

-- `requiredGateResults`: the three gates that binding writes, and the backend's others.
pub record Gates : Type 0 where
  pub protected_verification : Option Gate
  pub test_identity : Option Gate
  pub tree_integrity : Option Gate
  pub others : List Gate

abbrev pub evidence_fields : List Text
evidence_fields =
    text "verificationBackend"
    ∷ text "executionAuthority"
    ∷ text "isolationCapabilities"
    ∷ text "verifierIndependence"
    ∷ text "evidenceIntegrity"
    ∷ text "candidateTreeHash"
    ∷ text "requiredGateResults"
    ∷ []

-- The envelope of a current backend: historical evidence, without any of its fields, has none.
-- `present` lists the fields that are there; what stands in a field that is not is never read.
pub record Envelope : Type 0 where
  pub present : List Text
  pub backend : Text
  pub execution_authority : Authority
  pub isolation : List Text
  pub protected_inputs : Bool  -- `verifierIndependence === 'PROTECTED_TEST_INPUTS'`
  pub evidence_integrity : Integrity
  pub candidate_tree_hash : Option Text
  pub gates : Gates

pub record Evidence : Type 0 where
  pub authority : Authority
  pub envelope : Option Envelope
  pub exit_code : ℕ
  pub tests : ℕ
  pub passed : ℕ
  pub failed : ℕ
  pub skipped : ℕ
  pub todo : ℕ
  pub interrupted : Bool
  pub truncated : Bool
  pub integrity : Bool
  pub test_identity_match : Bool
  pub contract_hash : Option Text
  pub candidate_hash : Option Text

abbrev pub is_harness : Authority → Bool
is_harness harness_executed = true
is_harness _ = false

abbrev pub is_satisfied : Gate → Bool
is_satisfied satisfied = true
is_satisfied unsatisfied = false

abbrev pub holds : Option Gate → Bool
holds none = false
holds (some g) = is_satisfied g

abbrev pub is_matched : Integrity → Bool
is_matched matched = true
is_matched _ = false

abbrev pub is_mismatch : Integrity → Bool
is_mismatch mismatch = true
is_mismatch _ = false

abbrev pub protected_capabilities : List Text
protected_capabilities =
    text "network-denied" ∷ text "protected-inputs" ∷ text "bounded-resources" ∷ []

-- `EVIDENCE_FIELDS.every(k => Object.hasOwn(e, k))`
pub has_every_field : Envelope → Bool
has_every_field v = all (elem v.present) evidence_fields

-- `protectedExecution`, of an envelope that is there
abbrev pub protected_envelope : Envelope → Bool
protected_envelope v =
    has_every_field v
    && not (v.backend == [])
    && is_harness v.execution_authority
    && v.protected_inputs
    && all (elem v.isolation) protected_capabilities

unfoldable pub protected_execution : Evidence → Bool
protected_execution e = elim e.envelope [ none ↦ true | some v ↦ protected_envelope v ]

abbrev is_hex : ℕ → Bool
is_hex c = is_digit c || between b'a' b'f' c

-- `/^[a-f0-9]{64}$/`
unfoldable pub is_digest : Option Text → Bool
is_digest none = false
is_digest (some t) = nat_eq (length t) 64 && all is_hex t

abbrev pub same_text : Option Text → Option Text → Bool
same_text none none = true
same_text (some a) (some b) = a == b
same_text _ _ = false

unfoldable pub gates_hold : Gates → Bool
gates_hold g =
    holds g.protected_verification
    && holds g.test_identity
    && holds g.tree_integrity
    && all is_satisfied g.others

unfoldable pub protected_gates : Evidence → Bool
unfolding is_digest gates_hold
protected_gates e = elim e.envelope [
  | none ↦ true
  | some v ↦
      protected_envelope v
      && is_matched v.evidence_integrity
      && is_digest e.contract_hash
      && is_digest v.candidate_tree_hash
      && same_text v.candidate_tree_hash e.candidate_hash
      && gates_hold v.gates
]

unfoldable pub is_failing_baseline : Evidence → Bool
unfolding protected_execution
is_failing_baseline e =
    is_harness e.authority
    && protected_execution e
    && elim e.envelope [ none ↦ true | some v ↦ not (is_mismatch v.evidence_integrity) ]
    && not (nat_eq e.exit_code 0)
    && ltb 0 e.tests
    && ltb 0 e.failed
    && not e.interrupted
    && not e.truncated

pub data Verdict : Type 0 where
  accept retry escalate : Verdict

unfoldable pub judge : Evidence → Verdict
unfolding protected_gates
judge e =
    if not (is_harness e.authority)
    then escalate
    else if not (protected_gates e)
    then escalate
    else if e.interrupted || e.truncated || not e.integrity
    then escalate
    else if not e.test_identity_match
    then escalate
    else if nat_eq e.exit_code 0
        && ltb 0 e.tests
        && nat_eq e.passed e.tests
        && nat_eq e.failed 0
        && nat_eq e.skipped 0
        && nat_eq e.todo 0
    then accept
    else retry

abbrev gate_of : Bool → Option Gate
gate_of b = some (if b then satisfied else unsatisfied)

bind_envelope : Evidence → Text → Bool → Bool → Envelope → Envelope
unfolding protected_execution
bind_envelope e candidate_hash integrity identity v = record v {
  present =
      text "candidateTreeHash" ∷ text "evidenceIntegrity" ∷ text "requiredGateResults" ∷ v.present;
  candidate_tree_hash = some candidate_hash;
  evidence_integrity = if integrity then matched else mismatch;
  gates = record (v.gates) {
    protected_verification = gate_of (is_harness e.authority && protected_envelope v);
    test_identity = gate_of identity;
    tree_integrity = gate_of integrity;
  };
}

-- `bindVerification`: the coordinator writes the identities that it has computed itself.
unfoldable pub bind_verification :
    Evidence → (contract_hash candidate_hash : Text) → (integrity identity : Bool) → Evidence
unfolding bind_envelope
bind_verification e contract_hash candidate_hash integrity identity = record e {
  contract_hash = some contract_hash;
  candidate_hash = some candidate_hash;
  integrity = integrity;
  test_identity_match = identity;
  envelope = elim e.envelope [
    | none ↦ none
    | some v ↦ some (bind_envelope e candidate_hash integrity identity v)
  ];
}
