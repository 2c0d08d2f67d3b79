-- ===== src/Workflow/Attempts/Safe.antt =====
-- No sequence of transactions makes two conflicting attempts active, and no item is attempted twice.
use code_fleet.Prelude.{
  ℕ, ◌≤◌, ◌≡◌, refl, sym, subst, ◌∙◌, inl, inr, Bool, false, ◌||◌, Option, List, [], ◌∷◌, ◌++◌, map,
  Text, ◌==◌, ==_iff, ==_refl, any, keep, length, length-append, ok, >>=-eq-ok, All, All-map,
  All-both, Bool-cases, ap, arith,
}
use code_fleet.Alpha.Contract.{Contract}
use code_fleet.Workflow.{Workflow, parallel_limit, item_of}
use code_fleet.Workflow.Attempts.{
  Run, Attempt, Db, Guard, started, final_id, is_started, active, is_for, clashes, conflicts,
  reserve, insert_attempt, admit, keys_free, close, finish, approve_workflow, revoke_workflow,
  row_of,
}
use code_fleet.Workflow.Attempts.Admitted.{reserve-Admitted}
use code_fleet.Workflow.Attempts.Exclusive.{
  Step, reserves, finishes, approvals, revokes, Reach, here, next, After, Apart, IsExclusive,
  All-of_any, All-snoc, keep-snoc, Apart-snoc, Apart-closed, All-closed, length-closed,
}

All-of_empty {ℓ κ} : {A : Type ℓ} (P : A → Type κ) (xs : List A) → length xs ≡ 0 → All P xs
All-of_empty P [] h = tt
All-of_empty P (x ∷ xs) h = absurd (omega arith)

any-left {ℓ} :
    {A : Type ℓ} (p q : A → Bool) (xs : List A)
    → any (λ x. p x || q x) xs ≡ false
    → any p xs ≡ false
any-left p q [] h = refl
any-left p q (x ∷ xs) h = ground (arith, any-left p q xs)

conflicts-apart :
    (run : Run) (item_id : Text) (a : Attempt)
    → conflicts run item_id a ≡ false
    → clashes (item_of run.contract.items item_id) (item_of run.contract.items a.item_id) ≡ false
unfolding conflicts
conflicts-apart run item_id a h = ground arith

abbrev pub attempt_of : Run → Text → Text → Attempt
attempt_of run item_id child_id = record {
  run_id = run.id;
  item_id = item_id;
  child_id = child_id;
  revision = run.revision;
  status = started;
}

pub finish-attempts :
    (now : ℕ) (run : Run) (owner item_id status : Text) (db db' : Db)
    → finish now run owner item_id status db ≡ ok db'
    → db'.attempts ≡ map (close status run.id item_id) db.attempts
unfolding finish
finish-attempts now run owner item_id status db db' h =
    let (row, _, h₁) = >>=-eq-ok (row_of db run.id) _ h in ground arith

pub approve_workflow-attempts :
    (fileset : Text → Option (Option Text)) (actor workflow_hash : Text) (expires now : ℕ)
    (run_id : Text) (db db' : Db)
    → approve_workflow fileset actor workflow_hash expires now run_id db ≡ ok db'
    → db'.attempts ≡ db.attempts
unfolding approve_workflow
approve_workflow-attempts fileset actor workflow_hash expires now run_id db db' h =
    let (row, _, h₁) = >>=-eq-ok (row_of db run_id) _ h in ground arith

pub revoke_workflow-attempts :
    (actor run_id : Text) (db db' : Db)
    → revoke_workflow actor run_id db ≡ ok db'
    → db'.attempts ≡ db.attempts
unfolding revoke_workflow
revoke_workflow-attempts actor run_id db db' h = ground arith

module _ (hash_contract : Contract → Text) (hash_policy : Bool → Text) (guard : Option Guard) where
  pub reserve-attempts :
      (t₁ t₂ : ℕ) (run : Run) (owner item_id child_id : Text) (contract : Contract) (db db' : Db)
      → reserve hash_contract hash_policy guard t₁ t₂ run owner item_id child_id contract db
        ≡ ok db'
      → (db'.attempts ≡ db.attempts ++ attempt_of run item_id child_id ∷ [])
        × (any (is_for run.id item_id) db.attempts ≡ false)
  unfolding reserve keys_free insert_attempt
  reserve-attempts t₁ t₂ run owner item_id child_id contract db db' h =
      let (_, admitted, h₁) =
        >>=-eq-ok (admit hash_contract hash_policy guard t₁ t₂ run owner item_id contract db) _ h in
      (
        ground arith,
        any-left (is_for run.id item_id) (λ a. a.child_id == child_id) db.attempts (ground arith),
      )

  module _ (workflow_of : Text → Workflow) where
    reserve-IsExclusive :
        (t₁ t₂ : ℕ) (run : Run) (owner item_id child_id : Text) (contract : Contract) (db db' : Db)
        → run.contract ≡ workflow_of run.id
        → reserve hash_contract hash_policy guard t₁ t₂ run owner item_id child_id contract db
          ≡ ok db'
        → IsExclusive workflow_of db
        → IsExclusive workflow_of db'
    reserve-IsExclusive t₁ t₂ run owner item_id child_id contract db db' same h e =
        let b = attempt_of run item_id child_id in
        let adm =
          reserve-Admitted hash_contract hash_policy guard t₁ t₂ run owner item_id child_id contract
            db db' h in
        let (grown, _) = reserve-attempts t₁ t₂ run owner item_id child_id contract db db' h in
        let now_active : active db' ≡ active db ++ b ∷ [] =
          ap (keep is_started) grown ∙ keep-snoc db.attempts b (==_refl started) in
        let own = All-of_any _ (active db) adm.own_only in
        let one_run =
          All-map (λ (a : Attempt) q. (==_iff a.run_id run.id).0 (ground arith)) (active db) own in
        let after : All (λ a. After workflow_of a b) (active db) =
          elim (Bool-cases (item_id == final_id)) [
            | inl last ↦ All-of_empty _ (active db) (adm.final_alone last)
            | inr other ↦
                All-map
                  (λ (a : Attempt) (q : _ × _). record {
                    same_run = (==_iff a.run_id run.id).0 (ground (arith, q.0));
                    not_final = ground (arith, q.0);
                    later_not_final = other;
                    apart =
                        subst
                          (λ w.
                            clashes (item_of w.items item_id) (item_of w.items a.item_id) ≡ false)
                          same (conflicts-apart run item_id a q.1);
                  })
                  (active db) (All-both _ _ (active db) own (All-of_any _ (active db) adm.apart))
          ] in
        let room : length (active db ++ b ∷ []) ≤ parallel_limit (workflow_of run.id) =
          omega (arith, adm.has_room, length-append (active db) (b ∷ []), ap parallel_limit same) in
        record {
          apart =
              subst (Apart workflow_of) (sym now_active)
                (Apart-snoc workflow_of (active db) b e.apart after);
          limited =
              subst (λ xs. All (λ a. length xs ≤ parallel_limit (workflow_of a.run_id)) xs)
                (sym now_active)
                (All-snoc _ (active db) b
                  (All-map
                    (λ (a : Attempt) (q : a.run_id ≡ run.id).
                      subst (λ r. length (active db ++ b ∷ []) ≤ parallel_limit (workflow_of r))
                        (sym q) room)
                    (active db) one_run)
                  room);
        }

    same-IsExclusive :
        (db db' : Db)
        → db'.attempts ≡ db.attempts
        → IsExclusive workflow_of db
        → IsExclusive workflow_of db'
    same-IsExclusive db db' same e =
        let kept : active db' ≡ active db = ap (keep is_started) same in
        record {
          apart = subst (Apart workflow_of) (sym kept) e.apart;
          limited =
              subst (λ xs. All (λ a. length xs ≤ parallel_limit (workflow_of a.run_id)) xs)
                (sym kept) e.limited;
        }

    finish-IsExclusive :
        (now : ℕ) (run : Run) (owner item_id status : Text) (db db' : Db)
        → finish now run owner item_id status db ≡ ok db'
        → IsExclusive workflow_of db
        → IsExclusive workflow_of db'
    finish-IsExclusive now run owner item_id status db db' h e =
        let closing = map (close status run.id item_id) db.attempts in
        let kept : active db' ≡ keep is_started closing =
          ap (keep is_started) (finish-attempts now run owner item_id status db db' h) in
        let fewer = length-closed workflow_of status run.id item_id db.attempts in
        record {
          apart =
              subst (Apart workflow_of) (sym kept)
                (Apart-closed workflow_of status run.id item_id db.attempts e.apart);
          limited =
              subst (λ xs. All (λ a. length xs ≤ parallel_limit (workflow_of a.run_id)) xs)
                (sym kept)
                (All-map
                  (λ (a : Attempt) (q : length (active db) ≤ parallel_limit (workflow_of a.run_id)).
                    let shorter : length (keep is_started closing) ≤ length (active db) = fewer in
                    omega (arith, shorter, q))
                  (keep is_started closing)
                  (All-closed workflow_of status run.id item_id
                    (λ r i. length (active db) ≤ parallel_limit (workflow_of r)) db.attempts
                    e.limited));
        }

    Step-IsExclusive :
        (db db' : Db)
        → Step hash_contract hash_policy guard workflow_of db db'
        → IsExclusive workflow_of db
        → IsExclusive workflow_of db'
    Step-IsExclusive db db' (reserves t₁ t₂ run owner item_id child_id contract same h) e =
        reserve-IsExclusive t₁ t₂ run owner item_id child_id contract db db' same h e
    Step-IsExclusive db db' (finishes now run owner item_id status h) e =
        finish-IsExclusive now run owner item_id status db db' h e
    Step-IsExclusive db db' (approvals fileset actor workflow_hash expires now run_id h) e =
        same-IsExclusive db db'
          (approve_workflow-attempts fileset actor workflow_hash expires now run_id db db' h) e
    Step-IsExclusive db db' (revokes actor run_id h) e =
        same-IsExclusive db db' (revoke_workflow-attempts actor run_id db db' h) e

    -- From a state in which the active attempts may stand together and keep to the limit of their run,
    -- every sequence of reservations, ends, approvals and revocations reaches such a state, if each run
    -- keeps its workflow.
    pub Reach-IsExclusive :
        (db db' : Db)
        → IsExclusive workflow_of db
        → Reach hash_contract hash_policy guard workflow_of db db'
        → IsExclusive workflow_of db'
    Reach-IsExclusive db _ e here = e
    Reach-IsExclusive db db' e (next r st) = Step-IsExclusive _ db' st (Reach-IsExclusive db _ e r)
