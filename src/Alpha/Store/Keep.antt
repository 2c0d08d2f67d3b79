-- ===== src/Alpha/Store/Keep.antt =====
-- What the lease gives to a worker that renews it in time: src/alpha/store.mjs, beside all other workers.
use code_fleet.Prelude.{
  ℕ, ◌+◌, ◌≤◌, ◌<◌, ◌≡◌, ◌≢◌, sym, Bool, true, false, none, some, [], ◌∷◌, ◌++◌, Text, ◌==◌, ==_iff,
  ==_refl, not_true, ok, arith,
}
use code_fleet.Alpha.Store.{
  Row, Body, Control, lease_ms, set_control, claim, heartbeat, save, saved, release,
}

-- What can happen to a row while the worker `w` keeps its lease, which it last renewed at `t`: it renews the
-- lease or saves before the lease ends, by readings that do not go back; the control is set; others
-- beat, save or release with their own tokens, or claim before the lease ends.
pub data Kept (w : Text) (alive : ℕ → Bool) (first : ℕ) (r : Row) : ℕ → Row → Type 0 where
  held : Kept w alive first r first r
  renews :
      {t : ℕ} {r' : Row} (now : ℕ)
      → t ≤ now
      → now < t + lease_ms
      → Kept w alive first r t r'
      → Kept w alive first r now (heartbeat w now r').0
  saves :
      {t : ℕ} {r' : Row} (observed now : ℕ) (fence : Bool) (type : Text) (body : Body)
      → t ≤ observed
      → observed ≤ now
      → now < t + lease_ms
      → Kept w alive first r t r'
      → Kept w alive first r t (save w observed now fence type body r').0
  controls :
      {t : ℕ} {r' r'' : Row} (c : Control)
      → set_control c r' ≡ ok r''
      → Kept w alive first r t r'
      → Kept w alive first r t r''
  claims :
      {t : ℕ} {r' r'' : Row} (token : Text) (self t₁ t₂ t₃ : ℕ) (resume : Bool)
      → t₂ < t + lease_ms
      → claim alive token self t₁ t₂ t₃ resume r' ≡ ok r''
      → Kept w alive first r t r'
      → Kept w alive first r t r''
  other_beats :
      {t : ℕ} {r' : Row} (token : Text) (now : ℕ)
      → token ≢ w
      → Kept w alive first r t r'
      → Kept w alive first r t (heartbeat token now r').0
  other_saves :
      {t : ℕ} {r' : Row} (token : Text) (observed now : ℕ) (fence : Bool) (type : Text)
      (body : Body)
      → token ≢ w
      → Kept w alive first r t r'
      → Kept w alive first r t (save token observed now fence type body r').0
  other_releases :
      {t : ℕ} {r' : Row} (token : Text)
      → token ≢ w
      → Kept w alive first r t r'
      → Kept w alive first r t (release token r')

-- The worker `w` of the process `p` holds the row, with a lease renewed at `t`.
pub record Holds (w : Text) (p t : ℕ) (r : Row) : Type 0 where
  pub owned : r.owner ≡ some w
  pub process : r.pid ≡ some p
  pub leased : r.lease_until ≡ t + lease_ms

claim-Holds :
    (alive : ℕ → Bool) (w : Text) (p t₁ t₂ t₃ : ℕ) (resume : Bool) (r r' : Row)
    → claim alive w p t₁ t₂ t₃ resume r ≡ ok r'
    → Holds w p t₃ r'
unfolding claim
claim-Holds alive w p t₁ t₂ t₃ resume r r' e = record {
  owned = ground arith;
  process = ground arith;
  leased = ground arith;
}

renew-Holds :
    (w : Text) (p t now : ℕ) (r : Row)
    → t ≤ now
    → now < t + lease_ms
    → Holds w p t r
    → Holds w p now (heartbeat w now r).0
unfolding heartbeat
renew-Holds w p t now r a b h =
    let o = h.owned in
    let q = h.process in
    let l = h.leased in
    let s = ==_refl w in
    record { owned = ground arith; process = ground arith; leased = ground arith }

save-Holds :
    (w : Text) (p t observed now : ℕ) (fence : Bool) (type : Text) (body : Body) (r : Row)
    → t ≤ observed
    → observed ≤ now
    → now < t + lease_ms
    → Holds w p t r
    → Holds w p t (save w observed now fence type body r).0
unfolding save
save-Holds w p t observed now fence type body r a b c h =
    let o = h.owned in
    let q = h.process in
    let l = h.leased in
    let s = ==_refl w in
    record { owned = ground arith; process = ground arith; leased = ground arith }

control-Holds :
    (w : Text) (p t : ℕ) (c : Control) (r r' : Row)
    → set_control c r ≡ ok r'
    → Holds w p t r
    → Holds w p t r'
unfolding set_control
control-Holds w p t c r r' e h =
    let o = h.owned in
    let q = h.process in
    let l = h.leased in
    record { owned = ground arith; process = ground arith; leased = ground arith }

-- A run whose worker's process lives and whose lease has not expired cannot be claimed.
claim_excludes :
    (alive : ℕ → Bool) (token w : Text) (self p t t₁ t₂ t₃ : ℕ) (resume : Bool) (r r' : Row)
    → Holds w p t r
    → 0 < p
    → alive p ≡ true
    → t₂ < t + lease_ms
    → claim alive token self t₁ t₂ t₃ resume r ≢ ok r'
unfolding claim
claim_excludes alive token w self p t t₁ t₂ t₃ resume r r' h pos live current e =
    let o = h.owned in let q = h.process in let l = h.leased in ground arith

other : (token w : Text) → token ≢ w → (w == token) ≡ false
other token w h = not_true (w == token) (λ k. h (sym ((==_iff w token).0 k)))

other_beat-Holds :
    (token w : Text) (p t now : ℕ) (r : Row)
    → token ≢ w
    → Holds w p t r
    → Holds w p t (heartbeat token now r).0
unfolding heartbeat
other_beat-Holds token w p t now r d h =
    let o = h.owned in
    let q = h.process in
    let l = h.leased in
    let n = other token w d in
    record { owned = ground arith; process = ground arith; leased = ground arith }

other_save-Holds :
    (token w : Text) (p t observed now : ℕ) (fence : Bool) (type : Text) (body : Body) (r : Row)
    → token ≢ w
    → Holds w p t r
    → Holds w p t (save token observed now fence type body r).0
unfolding save
other_save-Holds token w p t observed now fence type body r d h =
    let o = h.owned in
    let q = h.process in
    let l = h.leased in
    let n = other token w d in
    record { owned = ground arith; process = ground arith; leased = ground arith }

other_release-Holds :
    (token w : Text) (p t : ℕ) (r : Row) → token ≢ w → Holds w p t r → Holds w p t (release token r)
unfolding release
other_release-Holds token w p t r d h =
    let o = h.owned in
    let q = h.process in
    let l = h.leased in
    let n = other token w d in
    record { owned = ground arith; process = ground arith; leased = ground arith }

Kept-Holds :
    (w : Text) (alive : ℕ → Bool) (p first : ℕ) (r : Row) {t : ℕ} {r' : Row}
    → 0 < p
    → alive p ≡ true
    → Holds w p first r
    → Kept w alive first r t r'
    → Holds w p t r'
Kept-Holds w alive p first r pos live h held = h
Kept-Holds w alive p first r pos live h (renews now a b k) =
    renew-Holds w p _ now _ a b (Kept-Holds w alive p first r pos live h k)
Kept-Holds w alive p first r pos live h (saves observed now fence type body a b c k) =
    save-Holds w p _ observed now fence type body _ a b c
      (Kept-Holds w alive p first r pos live h k)
Kept-Holds w alive p first r pos live h (controls c e k) =
    control-Holds w p _ c _ _ e (Kept-Holds w alive p first r pos live h k)
Kept-Holds w alive p first r pos live h (claims token self t₁ t₂ t₃ resume early e k) = absurd (
    claim_excludes alive token w self p _ t₁ t₂ t₃ resume _ _
      (Kept-Holds w alive p first r pos live h k) pos live early e)
Kept-Holds w alive p first r pos live h (other_beats token now d k) =
    other_beat-Holds token w p _ now _ d (Kept-Holds w alive p first r pos live h k)
Kept-Holds w alive p first r pos live h (other_saves token observed now fence type body d k) =
    other_save-Holds token w p _ observed now fence type body _ d
      (Kept-Holds w alive p first r pos live h k)
Kept-Holds w alive p first r pos live h (other_releases token d k) =
    other_release-Holds token w p _ _ d (Kept-Holds w alive p first r pos live h k)

-- A worker of a living process with a positive id that has claimed a run, and has since renewed its lease
-- and saved only while it lasted, still has the run, whatever others did with their own tokens, with
-- the control, or by claims that read the clock before the lease ended: each of its saves whose fence
-- passes, by readings after its last renewal and before the lease ends, writes the body, logs it and
-- throws nothing.
pub claim-save :
    (alive : ℕ → Bool) (w : Text) (p t₁ t₂ t₃ : ℕ) (resume : Bool) (r r' r'' : Row)
    (t observed now : ℕ) (type : Text) (body : Body)
    → 0 < p
    → alive p ≡ true
    → claim alive w p t₁ t₂ t₃ resume r ≡ ok r'
    → Kept w alive t₃ r' t r''
    → t ≤ observed
    → observed ≤ now
    → now < t + lease_ms
    → let (r₃, thrown) = save w observed now true type body r'' in
      (r₃.body ≡ body) × (r₃.events ≡ r''.events ++ saved type body.state ∷ []) × (thrown ≡ none)
unfolding save
claim-save alive w p t₁ t₂ t₃ resume r r' r'' t observed now type body pos live e k a b c =
    let h = Kept-Holds w alive p t₃ r' pos live (claim-Holds alive w p t₁ t₂ t₃ resume r r' e) k in
    let o = h.owned in
    let l = h.leased in let s = ==_refl w in (ground arith, ground arith, ground arith)
