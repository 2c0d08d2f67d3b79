-- ===== src/Alpha/Judge/Envelopes.antt =====
-- What `protectedGates` requires of the envelope of a current backend.
use mathlib.Core.Bool.{false≢true}
use code_fleet.Prelude.{
  ◌≡◌, ◌≢◌, ◌↔◌, refl, sym, ◌∙◌, ap, subst, Bool, true, false, Option, none, some, List, [], ◌∷◌,
  Text, ◌==◌, ==_iff, ==_refl, elem, all, All, All-map, not_true, arith,
}
use code_fleet.Alpha.Judge.{
  Authority, Gates, harness_executed, local_executed, provider_reported_only, Gate, satisfied,
  unsatisfied, Integrity, unbound, matched, mismatch, Evidence, Envelope, evidence_fields,
  has_every_field, protected_capabilities, is_harness, is_satisfied, holds, is_matched, same_text,
  gates_hold, protected_gates, protected_envelope, is_digest,
}

-- An envelope that is complete and of a protected run, bound to digests and to the candidate's tree, with
-- every gate satisfied.
pub record Protected (e : Evidence) (v : Envelope) : Type 0 where
  pub complete : All (λ k. elem v.present k ≡ true) evidence_fields
  pub named : v.backend ≢ []
  pub executed : v.execution_authority ≡ harness_executed
  pub independent : v.protected_inputs ≡ true
  pub isolated : All (λ c. elem v.isolation c ≡ true) protected_capabilities
  pub intact : v.evidence_integrity ≡ matched
  pub contract_digest : is_digest e.contract_hash ≡ true
  pub candidate : Text
  pub candidate_tree : v.candidate_tree_hash ≡ some candidate
  pub same_candidate : e.candidate_hash ≡ some candidate
  pub candidate_digest : is_digest (some candidate) ≡ true
  pub verified : v.gates.protected_verification ≡ some satisfied
  pub identified : v.gates.test_identity ≡ some satisfied
  pub tree : v.gates.tree_integrity ≡ some satisfied
  pub rest : All (λ g. g ≡ satisfied) v.gates.others

-- Historical evidence has no envelope to check.
abbrev pub Enveloped : Evidence → Option Envelope → Type 0
Enveloped e none = Unit
Enveloped e (some v) = Protected e v

all_iff {ℓ} :
    {A : Type ℓ} (p : A → Bool) (xs : List A) → (all p xs ≡ true) ↔ All (λ x. p x ≡ true) xs
all_iff p [] = (λ h. tt, λ h. refl)
all_iff p (x ∷ xs) =
    let (to, from) = all_iff p xs in
    (λ h. (ground arith, to (ground arith)), λ h. let k = from h.1 in ground (arith, h.0))

is_satisfied_iff : (g : Gate) → (is_satisfied g ≡ true) ↔ (g ≡ satisfied)
is_satisfied_iff satisfied = (λ h. refl, λ h. refl)
is_satisfied_iff unsatisfied = (λ h. cc, λ h. cc)

holds_iff : (o : Option Gate) → (holds o ≡ true) ↔ (o ≡ some satisfied)
holds_iff none = (λ h. cc, λ h. cc)
holds_iff (some satisfied) = (λ h. refl, λ h. refl)
holds_iff (some unsatisfied) = (λ h. cc, λ h. cc)

is_harness_iff : (a : Authority) → (is_harness a ≡ true) ↔ (a ≡ harness_executed)
is_harness_iff harness_executed = (λ h. refl, λ h. refl)
is_harness_iff local_executed = (λ h. cc, λ h. cc)
is_harness_iff provider_reported_only = (λ h. cc, λ h. cc)

is_matched_iff : (i : Integrity) → (is_matched i ≡ true) ↔ (i ≡ matched)
is_matched_iff unbound = (λ h. cc, λ h. cc)
is_matched_iff matched = (λ h. refl, λ h. refl)
is_matched_iff mismatch = (λ h. cc, λ h. cc)

same_digest :
    (a b : Option Text)
    → is_digest a ≡ true
    → same_text a b ≡ true
    → (t : Text) × (a ≡ some t) × (b ≡ some t)
unfolding is_digest
same_digest none b d h = cc
same_digest (some a) none d h = cc
same_digest (some a) (some b) d h = (a, refl, ap some (sym ((==_iff a b).0 h)))

all_satisfied_iff : (gs : List Gate) → (all is_satisfied gs ≡ true) ↔ All (λ g. g ≡ satisfied) gs
all_satisfied_iff gs =
    let (to, from) = all_iff is_satisfied gs in
    (
      λ h. All-map (λ g k. (is_satisfied_iff g).0 k) gs (to h),
      λ h. from (All-map (λ g k. (is_satisfied_iff g).1 k) gs h),
    )

gates_hold-satisfied :
    (g : Gates)
    → gates_hold g ≡ true
    → (g.protected_verification ≡ some satisfied)
      × (g.test_identity ≡ some satisfied)
      × (g.tree_integrity ≡ some satisfied)
      × All (λ o. o ≡ satisfied) g.others
unfolding gates_hold
gates_hold-satisfied g h = (
  (holds_iff g.protected_verification).0 (ground arith),
  (holds_iff g.test_identity).0 (ground arith),
  (holds_iff g.tree_integrity).0 (ground arith),
  (all_satisfied_iff g.others).0 (ground arith),
)

has_every_field-All :
    (v : Envelope) → has_every_field v ≡ true → All (λ k. elem v.present k ≡ true) evidence_fields
unfolding has_every_field
has_every_field-All v h = (all_iff (elem v.present) evidence_fields).0 h

gates-stages :
    (e : Evidence) (v : Envelope)
    → e.envelope ≡ some v
    → protected_gates e ≡ true
    → (protected_envelope v ≡ true)
      × (is_matched v.evidence_integrity ≡ true)
      × (is_digest e.contract_hash ≡ true)
      × (is_digest v.candidate_tree_hash ≡ true)
      × (same_text v.candidate_tree_hash e.candidate_hash ≡ true)
      × (gates_hold v.gates ≡ true)
unfolding protected_gates
gates-stages e v there h =
    (ground arith, ground arith, ground arith, ground arith, ground arith, ground arith)

protected_envelope-stages :
    (v : Envelope)
    → protected_envelope v ≡ true
    → (has_every_field v ≡ true)
      × ((v.backend == []) ≡ false)
      × (is_harness v.execution_authority ≡ true)
      × (v.protected_inputs ≡ true)
      × (all (elem v.isolation) protected_capabilities ≡ true)
protected_envelope-stages v h =
    (ground arith, ground arith, ground arith, ground arith, ground arith)

gates-Protected :
    (e : Evidence) (v : Envelope) → e.envelope ≡ some v → protected_gates e ≡ true → Protected e v
gates-Protected e v there h =
    let (guarded, integrity, contract, tree_digest, same, gates) = gates-stages e v there h in
    let (fields, backend, authority, inputs, capabilities) = protected_envelope-stages v guarded in
    let (t, in_envelope, in_evidence) =
      same_digest v.candidate_tree_hash e.candidate_hash tree_digest same in
    let (verified, identified, tree, rest) = gates_hold-satisfied v.gates gates in
    record {
      complete = has_every_field-All v fields;
      named = λ k. false≢true (sym backend ∙ (==_iff v.backend []).1 k);
      executed = (is_harness_iff v.execution_authority).0 authority;
      independent = inputs;
      isolated = (all_iff (elem v.isolation) protected_capabilities).0 capabilities;
      intact = (is_matched_iff v.evidence_integrity).0 integrity;
      contract_digest = contract;
      candidate = t;
      candidate_tree = in_envelope;
      same_candidate = in_evidence;
      candidate_digest = subst (λ o. is_digest o ≡ true) in_envelope tree_digest;
      verified = verified;
      identified = identified;
      tree = tree;
      rest = rest;
    }

Protected-gates :
    (e : Evidence) (v : Envelope) → e.envelope ≡ some v → Protected e v → protected_gates e ≡ true
unfolding protected_gates gates_hold has_every_field
Protected-gates e v there p =
    let a = (all_iff (elem v.present) evidence_fields).1 p.complete in
    let b = not_true (v.backend == []) (λ k. p.named ((==_iff v.backend []).0 k)) in
    let c = (is_harness_iff v.execution_authority).1 p.executed in
    let d = (all_iff (elem v.isolation) protected_capabilities).1 p.isolated in
    let i = (is_matched_iff v.evidence_integrity).1 p.intact in
    let t = subst (λ o. is_digest o ≡ true) (sym p.candidate_tree) p.candidate_digest in
    let s : same_text v.candidate_tree_hash e.candidate_hash ≡ true =
      rw p.candidate_tree (rw p.same_candidate (==_refl p.candidate)) in
    let g₁ = (holds_iff v.gates.protected_verification).1 p.verified in
    let g₂ = (holds_iff v.gates.test_identity).1 p.identified in
    let g₃ = (holds_iff v.gates.tree_integrity).1 p.tree in
    let g₄ = (all_satisfied_iff v.gates.others).1 p.rest in
    ground (arith, p.independent, p.contract_digest)

-- The gates are open exactly for evidence without an envelope, or with one that is protected.
pub gates-Enveloped :
    (e : Evidence) (o : Option Envelope)
    → e.envelope ≡ o
    → (protected_gates e ≡ true) ↔ Enveloped e o
unfolding protected_gates
gates-Enveloped e none absent = (λ h. tt, λ h. ground arith)
gates-Enveloped e (some v) there = (gates-Protected e v there, Protected-gates e v there)
