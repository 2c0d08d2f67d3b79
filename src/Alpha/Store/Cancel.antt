-- ===== src/Alpha/Store/Cancel.antt =====
-- A cancelled run stays cancelled.
use code_fleet.Prelude.{ℕ, ◌≡◌, ◌≢◌, Bool, true, false, Text, ok, arith}
use code_fleet.Alpha.Store.{
  Row, cancel, completed, cancelled, reconciling, set_control, claim, heartbeat, save, expire,
  commit, release, in_delivery,
}
use code_fleet.Alpha.Store.Lease.{
  Step, controls, claims, beats, saves, expires, commits, releases, Reach, here, next,
}

Step-cancel :
    (A : Text → Type 0) (r r' : Row) → Step A r r' → r.control ≡ cancel → r'.control ≡ cancel
unfolding set_control claim heartbeat save expire commit release
Step-cancel A r r' (controls c e) h = ground arith
Step-cancel A r r' (claims alive token self t₁ t₂ t₃ resume other e) h = ground arith
Step-cancel A r r' (beats token now e) h = ground arith
Step-cancel A r r' (saves token observed now fence type body e) h = ground arith
Step-cancel A r r' (expires token observed e) h = ground arith
Step-cancel A r r' (commits token now fence type body e) h = ground arith
Step-cancel A r r' (releases token e) h = ground arith

Reach-cancel :
    (A : Text → Type 0) (r : Row) {r' : Row}
    → Reach A r r'
    → r.control ≡ cancel
    → r'.control ≡ cancel
Reach-cancel A r here h = h
Reach-cancel A r (next s st) h = Step-cancel A _ _ st (Reach-cancel A r s h)

-- Cancelling an unfinished run leaves it cancelled, or reconciling if its delivery had begun; a
-- completed run keeps its state.
pub set_control-cancel :
    (r r' : Row)
    → set_control cancel r ≡ ok r'
    → (r'.control ≡ cancel)
      × (r.body.state ≡ completed → r'.body.state ≡ completed)
      × (in_delivery r.body.state ≡ true → r'.body.state ≡ reconciling)
      × (in_delivery r.body.state ≡ false → r.body.state ≢ completed → r'.body.state ≡ cancelled)
unfolding set_control
set_control-cancel r r' h =
    (ground arith, λ p. ground arith, λ p. ground arith, λ p q. ground arith)

-- After `cancel`, no sequence of operations sets the control back, and a claim that resumes the run
-- succeeds only to reconcile a delivery.
pub cancel_is_final :
    (r r' r'' : Row)
    → set_control cancel r ≡ ok r'
    → Reach (λ token. Unit {0}) r' r''
    → (r''.control ≡ cancel)
      × ((alive : ℕ → Bool) (token : Text) (self t₁ t₂ t₃ : ℕ) (claimed : Row)
          → claim alive token self t₁ t₂ t₃ true r'' ≡ ok claimed
          → in_delivery r''.body.state ≡ true)
unfolding claim
cancel_is_final r r' r'' e reach =
    let kept = Reach-cancel (λ token. Unit {0}) r' reach (set_control-cancel r r' e).0 in
    (kept, λ alive token self t₁ t₂ t₃ claimed c. ground arith)
