-- ===== src/Alpha/Store/Lease.antt =====
-- What the lease protects, over every interleaving of workers and every behaviour of the clock.
use code_fleet.Prelude.{ℕ, ◌≡◌, ◌≢◌, ◌⊎◌, inr, Bool, true, false, some, Text, ==_iff, ok, arith}
use code_fleet.Alpha.Store.{
  Row, Body, Control, lease_lost, set_control, claim, heartbeat, save, expire, commit, release,
  held_by,
}

-- One operation on the row of a run, by anyone, at any readings of the clock. A claim uses a token
-- that is allowed. The two statements of a save are also steps of their own, between which others step.
pub data Step (Allowed : Text → Type 0) (r r' : Row) : Type 0 where
  controls : (c : Control) → set_control c r ≡ ok r' → Step Allowed r r'
  claims :
      (alive : ℕ → Bool) (token : Text) (self t₁ t₂ t₃ : ℕ) (resume : Bool)
      → Allowed token
      → claim alive token self t₁ t₂ t₃ resume r ≡ ok r'
      → Step Allowed r r'
  beats : (token : Text) (now : ℕ) → r' ≡ (heartbeat token now r).0 → Step Allowed r r'
  saves :
      (token : Text) (observed now : ℕ) (fence : Bool) (type : Text) (body : Body)
      → r' ≡ (save token observed now fence type body r).0
      → Step Allowed r r'
  expires : (token : Text) (observed : ℕ) → r' ≡ expire token observed r → Step Allowed r r'
  commits :
      (token : Text) (now : ℕ) (fence : Bool) (type : Text) (body : Body)
      → commit token now fence type body r ≡ ok r'
      → Step Allowed r r'
  releases : (token : Text) → r' ≡ release token r → Step Allowed r r'

pub data Reach (Allowed : Text → Type 0) (r : Row) : Row → Type 0 where
  here : Reach Allowed r r
  next : {r' r'' : Row} → Reach Allowed r r' → Step Allowed r' r'' → Reach Allowed r r''

-- No claim gives the run to `w` again: `randomUUID` makes each token fresh.
abbrev pub Others : Text → Text → Type 0
Others w token = token ≢ w

-- The worker has lost the run.
abbrev pub HasLost : Text → Row → Type 0
HasLost w r = (r.lease_until ≡ 0) ⊎ (held_by r.owner w ≡ false)

Step-HasLost : (w : Text) (r r' : Row) → Step (Others w) r r' → HasLost w r → HasLost w r'
unfolding set_control claim heartbeat save expire commit release
Step-HasLost w r r' (controls c e) h = ground arith
Step-HasLost w r r' (claims alive token self t₁ t₂ t₃ resume other e) h =
    inr (ground (arith, ==_iff token w))
Step-HasLost w r r' (beats token now e) h = ground arith
Step-HasLost w r r' (saves token observed now fence type body e) h = ground arith
Step-HasLost w r r' (expires token observed e) h = ground arith
Step-HasLost w r r' (commits token now fence type body e) h = ground arith
Step-HasLost w r r' (releases token e) h = ground arith

pub Reach-HasLost :
    (w : Text) (r : Row) {r' : Row} → Reach (Others w) r r' → HasLost w r → HasLost w r'
Reach-HasLost w r here h = h
Reach-HasLost w r (next s st) h = Step-HasLost w _ _ st (Reach-HasLost w r s h)

-- A worker that has lost the run commits nothing: the body and the log stay, and it is told.
save-HasLost :
    (w : Text) (observed now : ℕ) (type : Text) (body : Body) (r : Row)
    → HasLost w r
    → let (r', thrown) = save w observed now true type body r in
      (r'.body ≡ r.body) × (r'.events ≡ r.events) × (thrown ≡ some lease_lost)
unfolding save
save-HasLost w observed now type body r h = (ground arith, ground arith, ground arith)

-- A heartbeat that is refused ends the lease.
heartbeat_refused :
    (w : Text) (now : ℕ) (r : Row) → (heartbeat w now r).1 ≡ false → HasLost w (heartbeat w now r).0
unfolding heartbeat
heartbeat_refused w now r h = ground arith

-- Once a heartbeat of worker `w` is refused, no later save of `w` whose fence passes changes the run's
-- body or its log, whatever the workers and the clock do in between, if no claim takes the token of
-- `w`: it throws `lease_lost`.
pub lost_lease_is_final :
    (w : Text) (now : ℕ) (r r' : Row) (observed later : ℕ) (type : Text) (body : Body)
    → (heartbeat w now r).1 ≡ false
    → Reach (Others w) (heartbeat w now r).0 r'
    → let (r'', thrown) = save w observed later true type body r' in
      (r''.body ≡ r'.body) × (r''.events ≡ r'.events) × (thrown ≡ some lease_lost)
lost_lease_is_final w now r r' observed later type body refused reach =
    save-HasLost w observed later type body r'
      (Reach-HasLost w (heartbeat w now r).0 reach (heartbeat_refused w now r refused))

-- When another worker has claimed the run, no later save of `w` whose fence passes changes its body or
-- its log, whatever happens in between, if no claim takes the token of `w`: it throws `lease_lost`.
pub claim_fences :
    (w : Text) (alive : ℕ → Bool) (token : Text) (self t₁ t₂ t₃ : ℕ) (resume : Bool)
    (r r' r'' : Row) (observed later : ℕ) (type : Text) (body : Body)
    → token ≢ w
    → claim alive token self t₁ t₂ t₃ resume r ≡ ok r'
    → Reach (Others w) r' r''
    → let (r₃, thrown) = save w observed later true type body r'' in
      (r₃.body ≡ r''.body) × (r₃.events ≡ r''.events) × (thrown ≡ some lease_lost)
unfolding claim
claim_fences w alive token self t₁ t₂ t₃ resume r r' r'' observed later type body other e reach =
    save-HasLost w observed later type body r''
      (Reach-HasLost w r' reach (inr (ground (arith, ==_iff token w))))
