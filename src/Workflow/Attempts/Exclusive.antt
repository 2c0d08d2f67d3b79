-- ===== src/Workflow/Attempts/Exclusive.antt =====
-- Which attempts can be active together, over every sequence of transactions.
use code_fleet.Prelude.{
  ℕ, ◌≤◌, ◌≡◌, refl, sym, subst, inl, inr, Bool, true, false, Option, List, [], ◌∷◌, ◌++◌, map,
  Text, ◌==◌, any, keep, length, ok, All, Bool-cases, arith,
}
use code_fleet.Alpha.Contract.{Contract}
use code_fleet.Workflow.{Workflow, parallel_limit, item_of}
use code_fleet.Workflow.Attempts.{
  Run, Attempt, Db, Guard, final_id, is_started, active, clashes, reserve, close, finish,
  approve_workflow, revoke_workflow,
}
use code_fleet.Workflow.Attempts.Admitted.{}

pub All-of_any {ℓ} :
    {A : Type ℓ} (p : A → Bool) (xs : List A) → any p xs ≡ false → All (λ x. p x ≡ false) xs
All-of_any p [] h = tt
All-of_any p (x ∷ xs) h = (ground arith, All-of_any p xs (ground arith))

pub All-snoc {ℓ κ} :
    {A : Type ℓ} (P : A → Type κ) (xs : List A) (x : A) → All P xs → P x → All P (xs ++ x ∷ [])
All-snoc P [] x h p = (p, tt)
All-snoc P (y ∷ ys) x h p = (h.0, All-snoc P ys x h.1 p)

pub keep-snoc :
    (xs : List Attempt) (a : Attempt)
    → is_started a ≡ true
    → keep is_started (xs ++ a ∷ []) ≡ keep is_started xs ++ a ∷ []
keep-snoc [] a h = rw h refl
keep-snoc (b ∷ xs) a h = ground (arith, keep-snoc xs a h)

-- What one transaction does; `workflow_of` is the approved workflow of each run.
pub data Step (hash_contract : Contract → Text) (hash_policy : Bool → Text) (guard : Option Guard)
    (workflow_of : Text → Workflow) (db db' : Db) : Type 0 where
  reserves :
      (t₁ t₂ : ℕ) (run : Run) (owner item_id child_id : Text) (contract : Contract)
      → run.contract ≡ workflow_of run.id
      → reserve hash_contract hash_policy guard t₁ t₂ run owner item_id child_id contract db
        ≡ ok db'
      → Step hash_contract hash_policy guard workflow_of db db'
  finishes :
      (now : ℕ) (run : Run) (owner item_id status : Text)
      → finish now run owner item_id status db ≡ ok db'
      → Step hash_contract hash_policy guard workflow_of db db'
  approvals :
      (fileset : Text → Option (Option Text)) (actor workflow_hash : Text) (expires now : ℕ)
      (run_id : Text)
      → approve_workflow fileset actor workflow_hash expires now run_id db ≡ ok db'
      → Step hash_contract hash_policy guard workflow_of db db'
  revokes :
      (actor run_id : Text)
      → revoke_workflow actor run_id db ≡ ok db'
      → Step hash_contract hash_policy guard workflow_of db db'

pub data Reach (hash_contract : Contract → Text) (hash_policy : Bool → Text) (guard : Option Guard)
    (workflow_of : Text → Workflow) (db : Db) : Db → Type 0 where
  here : Reach hash_contract hash_policy guard workflow_of db db
  next :
      {db' db'' : Db}
      → Reach hash_contract hash_policy guard workflow_of db db'
      → Step hash_contract hash_policy guard workflow_of db' db''
      → Reach hash_contract hash_policy guard workflow_of db db''

module _ (workflow_of : Text → Workflow) where
  -- The later attempt `b` may stand beside `a`: they are of one run, neither is its final attempt, and
  -- their items share no file and no resource.
  pub record Beside (a_run a_item b_run b_item : Text) : Type 0 where
    pub same_run : a_run ≡ b_run
    pub not_final : a_item == final_id ≡ false
    pub later_not_final : b_item == final_id ≡ false
    pub apart :
        clashes
          (item_of (workflow_of b_run).items b_item)
          (item_of (workflow_of b_run).items a_item)
        ≡ false

  abbrev pub After : Attempt → Attempt → Type 0
  After a b = Beside a.run_id a.item_id b.run_id b.item_id

  abbrev pub Apart : List Attempt → Type 0
  Apart [] = Unit
  Apart (a ∷ xs) = All (After a) xs × Apart xs

  -- Any two active attempts may stand together, and there are no more than the limit of their run.
  pub record IsExclusive (db : Db) : Type 0 where
    pub apart : Apart (active db)
    pub limited : All (λ a. length (active db) ≤ parallel_limit (workflow_of a.run_id)) (active db)

  pub Apart-snoc :
      (xs : List Attempt) (b : Attempt) → Apart xs → All (λ a. After a b) xs → Apart (xs ++ b ∷ [])
  Apart-snoc [] b h k = (tt, tt)
  Apart-snoc (a ∷ xs) b h k = (All-snoc (After a) xs b h.0 k.0, Apart-snoc xs b h.1 k.1)

  module _ (status run_id item_id : Text) where
    close-run_id : (a : Attempt) → (close status run_id item_id a).run_id ≡ a.run_id
    unfolding close
    close-run_id a = ground arith

    close-item_id : (a : Attempt) → (close status run_id item_id a).item_id ≡ a.item_id
    unfolding close
    close-item_id a = ground arith

    -- An attempt that has ended stays ended.
    close-ended :
        (a : Attempt) → is_started a ≡ false → is_started (close status run_id item_id a) ≡ false
    unfolding close
    close-ended a h = ground arith

    abbrev closed : List Attempt → List Attempt
    closed xs = map (close status run_id item_id) xs

    pub All-closed :
        (P : Text → Text → Type 0) (xs : List Attempt)
        → All (λ a. P a.run_id a.item_id) (keep is_started xs)
        → All (λ a. P a.run_id a.item_id) (keep is_started (closed xs))
    All-closed P [] h = tt
    All-closed P (a ∷ xs) h = elim (Bool-cases (is_started a)) [
      | inr ended ↦ rw (close-ended a ended) (All-closed P xs (rw ended at h))
      | inl going ↦
          let k : P a.run_id a.item_id × All (λ a. P a.run_id a.item_id) (keep is_started xs) =
            rw going at h in
          elim (Bool-cases (is_started (close status run_id item_id a))) [
            | inl still ↦ rw still (
              subst (λ i. P (close status run_id item_id a).run_id i) (sym (close-item_id a))
                  (subst (λ r. P r a.item_id) (sym (close-run_id a)) k.0),
              All-closed P xs k.1,
            )
            | inr done ↦ rw done (All-closed P xs k.1)
          ]
    ]

    pub length-closed :
        (xs : List Attempt) → length (keep is_started (closed xs)) ≤ length (keep is_started xs)
    length-closed [] = omega arith
    length-closed (a ∷ xs) = ground (arith, close-ended a, length-closed xs)

    pub Apart-closed :
        (xs : List Attempt) → Apart (keep is_started xs) → Apart (keep is_started (closed xs))
    Apart-closed [] h = tt
    Apart-closed (a ∷ xs) h = elim (Bool-cases (is_started a)) [
      | inr ended ↦ rw (close-ended a ended) (Apart-closed xs (rw ended at h))
      | inl going ↦
          let k : All (After a) (keep is_started xs) × Apart (keep is_started xs) = rw going at h in
          elim (Bool-cases (is_started (close status run_id item_id a))) [
            | inl still ↦ rw still (
              subst
                  (λ i.
                    All (λ b. Beside (close status run_id item_id a).run_id i b.run_id b.item_id)
                      (keep is_started (closed xs)))
                  (sym (close-item_id a))
                  (subst
                    (λ r.
                      All (λ b. Beside r a.item_id b.run_id b.item_id)
                        (keep is_started (closed xs)))
                    (sym (close-run_id a))
                    (All-closed (λ r i. Beside a.run_id a.item_id r i) xs k.0)),
              Apart-closed xs k.1,
            )
            | inr done ↦ rw done (Apart-closed xs k.1)
          ]
    ]
