-- ===== src/Workflow/Attempts/Admitted.antt =====
-- What a reservation has checked when it succeeds.
use mathlib.Core.Bool.{false≢true}
use code_fleet.Prelude.{
  ℕ, ◌<◌, ◌≡◌, ◌≢◌, ◌⊎◌, refl, sym, ◌∙◌, inl, inr, Bool, true, false, not, ◌||◌, Option, some, List,
  [], ◌∷◌, All, all, Bool-cases, Text, ◌==◌, ==_iff, any, find?, length, ok, >>=-eq-ok,
  Option-cases, arith,
}
use code_fleet.Alpha.Contract.{Contract}
use code_fleet.Alpha.Store.{is_run, held_by}
use code_fleet.Workflow.{
  parallel_limit, is_hybrid, WorkItem, item_of, ItemState, pending, ready, running, succeeded,
  failed, blocked, considered, is_ready, is_succeeded,
}
use code_fleet.Workflow.Attempts.{
  Run, Row, Attempt, Approval, Db, Guard, active, final_id, approves, row_of, approval,
  within_limit, holds_run, may_start, conflicts, admit, reserve, is_guarded, expected,
  guard_reserve,
}

-- An item that is READY with all of its dependencies SUCCEEDED, or `final` once all items have SUCCEEDED
abbrev pub Startable : Run → Text → Type 0
Startable run item_id =
    ((item_id ≡ final_id) × All (λ n. run.states n.id ≡ succeeded) run.contract.items)
    ⊎ ((item_id ≢ final_id)
        × ((n : WorkItem) × ((item_of run.contract.items item_id ≡ some n)
              × (run.states item_id ≡ ready)
              × All (λ d. run.states d ≡ succeeded) n.dependencies)))

is_succeeded-eq : (s : ItemState) → is_succeeded s ≡ true → s ≡ succeeded
is_succeeded-eq pending h = cc
is_succeeded-eq ready h = cc
is_succeeded-eq running h = cc
is_succeeded-eq succeeded h = refl
is_succeeded-eq failed h = cc
is_succeeded-eq blocked h = cc
is_succeeded-eq considered h = cc

is_ready-eq : (s : ItemState) → is_ready s ≡ true → s ≡ ready
is_ready-eq pending h = cc
is_ready-eq ready h = refl
is_ready-eq running h = cc
is_ready-eq succeeded h = cc
is_ready-eq failed h = cc
is_ready-eq blocked h = cc
is_ready-eq considered h = cc

all-succeeded {ℓ} :
    {A : Type ℓ} (state : A → ItemState) (xs : List A)
    → all (λ x. is_succeeded (state x)) xs ≡ true
    → All (λ x. state x ≡ succeeded) xs
all-succeeded state [] h = tt
all-succeeded state (x ∷ xs) h =
    (is_succeeded-eq (state x) (ground arith), all-succeeded state xs (ground arith))

may_start-Startable :
    (run : Run) (item_id : Text) → may_start run item_id ≡ true → Startable run item_id
unfolding may_start
may_start-Startable run item_id h = elim (Bool-cases (item_id == final_id)) [
  | inl last ↦ inl (
    (==_iff item_id final_id).0 last,
    all-succeeded (λ n. run.states n.id) run.contract.items (ground arith),
  )
  | inr other ↦ elim (Option-cases (item_of run.contract.items item_id)) [
    | inl missing ↦ absurd (ground arith)
    | inr (n, found) ↦ inr (
      λ e. false≢true (sym other ∙ (==_iff item_id final_id).1 e),
      (
        n,
        (
          found,
          is_ready-eq (run.states item_id) (ground arith),
          all-succeeded run.states n.dependencies (ground arith),
        ),
      ),
    )
  ]
]

-- What is active is the run's own, and none of it is `final`.
abbrev pub IsOwn : Run → Attempt → Type 0
IsOwn run a = (a.run_id ≡ run.id) × (a.item_id ≢ final_id)

any-IsOwn :
    (run : Run) (xs : List Attempt)
    → any (λ a. not (a.run_id == run.id) || a.item_id == final_id) xs ≡ false
    → All (IsOwn run) xs
any-IsOwn run [] h = tt
any-IsOwn run (a ∷ xs) h =
    let item : (a.item_id == final_id) ≡ false = ground arith in
    (
      (
        (==_iff a.run_id run.id).0 (ground arith),
        λ e. false≢true (sym item ∙ (==_iff a.item_id final_id).1 e),
      ),
      any-IsOwn run xs (ground arith),
    )

module _ (hash_contract : Contract → Text) (hash_policy : Bool → Text) (guard : Option Guard) where
  -- The approval that authorizes an unprotected run.
  pub record Approved (now : ℕ) (run : Run) (db : Db) : Type 0 where
    pub entry : Approval
    pub found : find? (approves run.id run.revision) db.approvals ≡ some entry
    pub same_digest : entry.digest ≡ run.contract_hash
    pub unexpired : now < entry.expires
    pub same_policy : run.contract.policy_snapshot_ref ≡ hash_policy (is_hybrid run.contract)

  -- What a registered guard has said of a protected run: its check and its reservation both return.
  pub record Guarded (run : Run) (owner item_id : Text) (contract : Contract) : Type 0 where
    pub asked : Guard
    pub registered : guard ≡ some asked
    pub checked : asked.check run ≡ true
    pub reserved : asked.before_reserve run owner item_id contract ≡ true

  -- What holds of the run, the caller, the item and the active attempts.
  pub record Admitted (t₁ t₂ : ℕ) (run : Run) (owner item_id : Text) (contract : Contract) (db : Db)
      : Type 0 where
    pub row : Row
    pub found : db.rows run.id ≡ some row
    pub approved : run.is_protected ≡ false → row.body.is_protected ≡ false → Approved t₁ run db
    pub guarded : is_guarded run db ≡ true → Guarded run owner item_id contract
    pub same_contract : hash_contract (expected run item_id) ≡ hash_contract contract
    pub held : held_by row.owner owner ≡ true
    pub current : t₂ < row.lease_until
    pub not_stopped : is_run row.control ≡ true
    pub same_revision : row.body.revision ≡ run.revision
    pub startable : Startable run item_id
    pub all_own : All (IsOwn run) (active db)
    pub own_only : any (λ a. not (a.run_id == run.id) || a.item_id == final_id) (active db) ≡ false
    pub has_room : length (active db) < parallel_limit run.contract
    pub final_alone : item_id == final_id ≡ true → length (active db) ≡ 0
    pub apart : any (conflicts run item_id) (active db) ≡ false

  approval-Approved :
      (now : ℕ) (run : Run) (db : Db)
      → is_guarded run db ≡ false
      → approval hash_contract hash_policy guard now run db ≡ ok tt
      → Approved now run db
  unfolding approval
  approval-Approved now run db free h =
      elim (Option-cases (find? (approves run.id run.revision) db.approvals)) [
        | inl missing ↦ absurd (ground arith)
        | inr (a, found) ↦ record {
          entry = a;
          found = found;
          same_digest = ground (arith, ==_iff a.digest run.contract_hash);
          unexpired = ground arith;
          same_policy = ground (
            arith,
            ==_iff run.contract.policy_snapshot_ref (hash_policy (is_hybrid run.contract)),
          );
        }
      ]

  guards-Guarded :
      (now : ℕ) (run : Run) (owner item_id : Text) (contract : Contract) (db : Db)
      → is_guarded run db ≡ true
      → approval hash_contract hash_policy guard now run db ≡ ok tt
      → guard_reserve hash_contract hash_policy guard run owner item_id contract db ≡ ok tt
      → Guarded run owner item_id contract
  unfolding approval guard_reserve
  guards-Guarded now run owner item_id contract db protected h k = elim (Option-cases guard) [
    | inl missing ↦ absurd (ground arith)
    | inr (g, found) ↦ record {
      asked = g;
      registered = found;
      checked = ground arith;
      reserved = ground arith;
    }
  ]

  admit-guard_reserve :
      (t₁ t₂ : ℕ) (run : Run) (owner item_id : Text) (contract : Contract) (db : Db)
      → admit hash_contract hash_policy guard t₁ t₂ run owner item_id contract db ≡ ok tt
      → guard_reserve hash_contract hash_policy guard run owner item_id contract db ≡ ok tt
  unfolding admit row_of
  admit-guard_reserve t₁ t₂ run owner item_id contract db h =
      let (_, a, h₁) = >>=-eq-ok (approval hash_contract hash_policy guard t₁ run db) _ h in
      elim (Option-cases (db.rows run.id)) [
        | inl missing ↦ absurd (ground arith)
        | inr (row, found) ↦ ground arith
      ]

  admit-Admitted :
      (t₁ t₂ : ℕ) (run : Run) (owner item_id : Text) (contract : Contract) (db : Db)
      → admit hash_contract hash_policy guard t₁ t₂ run owner item_id contract db ≡ ok tt
      → Admitted t₁ t₂ run owner item_id contract db
  unfolding admit row_of within_limit holds_run
  admit-Admitted t₁ t₂ run owner item_id contract db h =
      let (_, authorized, h₁) =
        >>=-eq-ok (approval hash_contract hash_policy guard t₁ run db) _ h in
      elim (Option-cases (db.rows run.id)) [
        | inl missing ↦ absurd (ground arith)
        | inr (row, found) ↦ record {
          row = row;
          found = found;
          approved =
              λ p q. approval-Approved t₁ run db (unfold is_guarded in ground arith) authorized;
          guarded = λ p.
              guards-Guarded t₁ run owner item_id contract db p authorized
                (admit-guard_reserve t₁ t₂ run owner item_id contract db h);
          same_contract =
              ground
                (arith, ==_iff (hash_contract (expected run item_id)) (hash_contract contract));
          held = ground arith;
          current = ground arith;
          not_stopped = ground arith;
          same_revision = ground arith;
          startable = may_start-Startable run item_id (ground arith);
          all_own = any-IsOwn run (active db) (ground arith);
          own_only = ground arith;
          has_room = ground arith;
          final_alone = λ p. ground arith;
          apart = ground arith;
        }
      ]

  pub reserve-Admitted :
      (t₁ t₂ : ℕ) (run : Run) (owner item_id child_id : Text) (contract : Contract) (db db' : Db)
      → reserve hash_contract hash_policy guard t₁ t₂ run owner item_id child_id contract db
        ≡ ok db'
      → Admitted t₁ t₂ run owner item_id contract db
  unfolding reserve
  reserve-Admitted t₁ t₂ run owner item_id child_id contract db db' h =
      let (_, admitted, _) =
        >>=-eq-ok (admit hash_contract hash_policy guard t₁ t₂ run owner item_id contract db) _ h in
      admit-Admitted t₁ t₂ run owner item_id contract db admitted
