-- ===== src/Workflow/Attempts/Once.antt =====
-- An item is reserved at most once, and an attempt ends at most once.
use code_fleet.Prelude.{
  ℕ, ◌≡◌, ◌≢◌, refl, ◌∙◌, Bool, true, false, ◌&&◌, Option, List, [], ◌∷◌, map, Text, ◌==◌, ==_iff,
  ==_refl, any, any-append, keep, length, ok, >>=-eq-ok, ap, arith,
}
use code_fleet.Alpha.Contract.{Contract}
use code_fleet.Workflow.{Workflow}
use code_fleet.Workflow.Attempts.{
  Run, Attempt, Db, Guard, started, is_started, is_for, reserve, close, finish, row_of,
}
use code_fleet.Workflow.Attempts.Exclusive.{
  Step, reserves, finishes, approvals, revokes, Reach, here, next,
}
use code_fleet.Workflow.Attempts.Safe.{
  attempt_of, finish-attempts, approve_workflow-attempts, revoke_workflow-attempts,
  reserve-attempts,
}

abbrev going : Text → Text → Attempt → Bool
going run_id item_id a = is_for run_id item_id a && is_started a

any-closed :
    (status r i r' i' : Text) (xs : List Attempt)
    → any (is_for r i) (map (close status r' i') xs) ≡ any (is_for r i) xs
unfolding close
any-closed status r i r' i' [] = refl
any-closed status r i r' i' (a ∷ xs) = ground (arith, any-closed status r i r' i' xs)

going-closed :
    (status r i r' i' : Text) (xs : List Attempt)
    → any (going r i) xs ≡ false
    → any (going r i) (map (close status r' i') xs) ≡ false
unfolding close
going-closed status r i r' i' [] h = refl
going-closed status r i r' i' (a ∷ xs) h = ground (arith, going-closed status r i r' i' xs)

going-ended :
    (status r i : Text) (xs : List Attempt)
    → status == started ≡ false
    → any (going r i) (map (close status r i) xs) ≡ false
unfolding close
going-ended status r i [] h = refl
going-ended status r i (a ∷ xs) h = ground (arith, going-ended status r i xs)

none_kept : (p : Attempt → Bool) (xs : List Attempt) → any p xs ≡ false → length (keep p xs) ≡ 0
none_kept p [] h = refl
none_kept p (a ∷ xs) h = ground (arith, none_kept p xs)

any-left_of_both :
    (p q : Attempt → Bool) (xs : List Attempt) → any (λ x. p x && q x) xs ≡ true → any p xs ≡ true
any-left_of_both p q [] h = cc
any-left_of_both p q (a ∷ xs) h = ground (arith, any-left_of_both p q xs)

-- A finish has found an attempt to end.
finish-going :
    (now : ℕ) (run : Run) (owner item_id status : Text) (db db' : Db)
    → finish now run owner item_id status db ≡ ok db'
    → any (going run.id item_id) db.attempts ≡ true
unfolding finish
finish-going now run owner item_id status db db' h =
    let (row, _, h₁) = >>=-eq-ok (row_of db run.id) _ h in
    ground (arith, none_kept (going run.id item_id) db.attempts)

module _ (hash_contract : Contract → Text) (hash_policy : Bool → Text) (guard : Option Guard)
    (workflow_of : Text → Workflow) where
  -- The item has been attempted.
  abbrev Attempted : Text → Text → Db → Type 0
  Attempted r i db = any (is_for r i) db.attempts ≡ true

  Step-Attempted :
      (r i : Text) (db db' : Db)
      → Step hash_contract hash_policy guard workflow_of db db'
      → Attempted r i db
      → Attempted r i db'
  Step-Attempted r i db db' (reserves t₁ t₂ run owner item_id child_id contract same h) e =
      let (grown, _) =
        reserve-attempts hash_contract hash_policy guard t₁ t₂ run owner item_id child_id contract
          db db' h in
      rw grown
        (ground (arith, any-append (is_for r i) db.attempts (attempt_of run item_id child_id ∷ [])))
  Step-Attempted r i db db' (finishes now run owner item_id status h) e =
      ap (any (is_for r i)) (finish-attempts now run owner item_id status db db' h)
      ∙ any-closed status r i run.id item_id db.attempts
      ∙ e
  Step-Attempted r i db db' (approvals fileset actor workflow_hash expires now run_id h) e =
      ap (any (is_for r i))
        (approve_workflow-attempts fileset actor workflow_hash expires now run_id db db' h)
      ∙ e
  Step-Attempted r i db db' (revokes actor run_id h) e =
      ap (any (is_for r i)) (revoke_workflow-attempts actor run_id db db' h) ∙ e

  Reach-Attempted :
      (r i : Text) (db db' : Db)
      → Reach hash_contract hash_policy guard workflow_of db db'
      → Attempted r i db
      → Attempted r i db'
  Reach-Attempted r i db _ here e = e
  Reach-Attempted r i db db' (next s st) e =
      Step-Attempted r i _ db' st (Reach-Attempted r i db _ s e)

  -- Once an item of a run has been reserved, no reservation of it succeeds again, whatever
  -- reservations, ends, approvals and revocations come in between, if each run keeps its workflow.
  pub reserved_once :
      (t₁ t₂ u₁ u₂ : ℕ) (run run' : Run) (owner owner' item_id child_id child_id' : Text)
      (contract contract' : Contract) (db db' db'' db''' : Db)
      → reserve hash_contract hash_policy guard t₁ t₂ run owner item_id child_id contract db
        ≡ ok db'
      → Reach hash_contract hash_policy guard workflow_of db' db''
      → run'.id ≡ run.id
      → reserve hash_contract hash_policy guard u₁ u₂ run' owner' item_id child_id' contract' db''
        ≢ ok db'''
  reserved_once t₁ t₂ u₁ u₂ run run' owner owner' item_id child_id child_id' contract contract' db
        db' db'' db''' h reach same again =
      let (grown, _) =
        reserve-attempts hash_contract hash_policy guard t₁ t₂ run owner item_id child_id contract
          db db' h in
      let (_, absent) =
        reserve-attempts hash_contract hash_policy guard u₁ u₂ run' owner' item_id child_id'
          contract' db'' db''' again in
      let made : Attempted run.id item_id db' = rw grown (
        ground (
          arith,
          ==_refl run.id,
          ==_refl item_id,
          any-append (is_for run.id item_id) db.attempts (attempt_of run item_id child_id ∷ []),
        )) in
      let kept = Reach-Attempted run.id item_id db' db'' reach made in
      let gone : any (is_for run.id item_id) db''.attempts ≡ false = rw same at absent in cc

  -- The item's attempt has ended.
  record Ended (r i : Text) (db : Db) : Type 0 where
    attempted : Attempted r i db
    stopped : any (going r i) db.attempts ≡ false

  Step-Ended :
      (r i : Text) (db db' : Db)
      → Step hash_contract hash_policy guard workflow_of db db'
      → Ended r i db
      → Ended r i db'
  Step-Ended r i db db' st e = record {
    attempted = Step-Attempted r i db db' st e.attempted;
    stopped = stopped_after st;
  }
    where
      stopped_after :
          Step hash_contract hash_policy guard workflow_of db db'
          → any (going r i) db'.attempts ≡ false
      stopped_after (reserves t₁ t₂ run owner item_id child_id contract same h) =
          let (grown, absent) =
            reserve-attempts hash_contract hash_policy guard t₁ t₂ run owner item_id child_id
              contract db db' h in
          let was : any (is_for r i) db.attempts ≡ true = e.attempted in
          let off : any (going r i) db.attempts ≡ false = e.stopped in
          rw grown (
            ground (
              arith,
              any-append (going r i) db.attempts (attempt_of run item_id child_id ∷ []),
              ==_iff run.id r,
              ==_iff item_id i,
              λ (p : run.id ≡ r) (q : item_id ≡ i). other_item p q absent was,
            ))
        where
          other_item :
              {a b c d : Text}
              → a ≡ b
              → c ≡ d
              → any (is_for a c) db.attempts ≡ false
              → any (is_for b d) db.attempts ≡ true
              → ⊥
          other_item p q x y = cc (ap is_for p, q)
      stopped_after (finishes now run owner item_id status h) =
          ap (any (going r i)) (finish-attempts now run owner item_id status db db' h)
          ∙ going-closed status r i run.id item_id db.attempts e.stopped
      stopped_after (approvals fileset actor workflow_hash expires now run_id h) =
          ap (any (going r i))
            (approve_workflow-attempts fileset actor workflow_hash expires now run_id db db' h)
          ∙ e.stopped
      stopped_after (revokes actor run_id h) =
          ap (any (going r i)) (revoke_workflow-attempts actor run_id db db' h) ∙ e.stopped

  Reach-Ended :
      (r i : Text) (db db' : Db)
      → Reach hash_contract hash_policy guard workflow_of db db'
      → Ended r i db
      → Ended r i db'
  Reach-Ended r i db _ here e = e
  Reach-Ended r i db db' (next s st) e = Step-Ended r i _ db' st (Reach-Ended r i db _ s e)

  -- Once an attempt has been given a status other than STARTED, no later `finish` of its item succeeds,
  -- whatever reservations, ends, approvals and revocations come in between, if each run keeps its
  -- workflow.
  pub finished_once :
      (now later : ℕ) (run run' : Run) (owner owner' item_id status status' : Text)
      (db db' db'' db''' : Db)
      → status == started ≡ false
      → finish now run owner item_id status db ≡ ok db'
      → Reach hash_contract hash_policy guard workflow_of db' db''
      → run'.id ≡ run.id
      → finish later run' owner' item_id status' db'' ≢ ok db'''
  finished_once now later run run' owner owner' item_id status status' db db' db'' db''' other h
        reach same again =
      let ended = finish-attempts now run owner item_id status db db' h in
      let e = Reach-Ended run.id item_id db' db'' reach (record {
        attempted =
            ap (any (is_for run.id item_id)) ended
            ∙ any-closed status run.id item_id run.id item_id db.attempts
            ∙ any-left_of_both (is_for run.id item_id) is_started db.attempts
                (finish-going now run owner item_id status db db' h);
        stopped =
            ap (any (going run.id item_id)) ended
            ∙ going-ended status run.id item_id db.attempts other;
      }) in
      let busy : any (going run.id item_id) db''.attempts ≡ true =
        rw same at (finish-going later run' owner' item_id status' db'' db''' again) in
      let idle_now = e.stopped in cc
