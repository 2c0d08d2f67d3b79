-- ===== src/Alpha/Store/Tests.antt =====
-- Runs of the lease on small tables, and the theorems of the run table at concrete inputs.
use mathlib.Core.Bool.{false≢true}
use code_fleet.Prelude.{
  ℕ, ◌≡◌, ◌≢◌, refl, subst, Bool, true, false, none, some, [], ◌==◌, ==_iff, ap, ◌∷◌, ◌++◌, Text,
  text, ok, err, arith,
}
use code_fleet.Alpha.Store.{
  Row, Body, run, cancel, RunState, baseline, generating, delivering, reconciling, created,
  control_set, claimed, saved, lease_lost, active_worker, needs_claim, new_row, set_control, claim,
  heartbeat, save, release, in_delivery,
}
use code_fleet.Alpha.Store.Lease.{
  claims, Reach, here, next, Others, lost_lease_is_final, claim_fences,
}
use code_fleet.Alpha.Store.Keep.{Kept, held, renews, other_saves, claim-save}
use code_fleet.Alpha.Store.Cancel.{cancel_is_final}

abbrev body : RunState → Body
body s = record { state = s; rest = text "{}" }

abbrev fresh : Row
fresh = record {
  body = body baseline;
  owner = none;
  lease_until = 0;
  pid = none;
  control = run;
  events = created ∷ [];
}

-- Worker `one` took the run at time 1000.
abbrev taken : Row
taken = record {
  body = body baseline;
  owner = some (text "one");
  lease_until = 31000;
  pid = some 7;
  control = run;
  events = created ∷ claimed false false false ∷ [];
}

-- Its heartbeat at 40000 came too late.
abbrev lapsed : Row
lapsed = record taken { lease_until = 0 }

-- Worker `two` took it at 50000.
abbrev retaken : Row
retaken = record {
  body = body baseline;
  owner = some (text "two");
  lease_until = 80000;
  pid = some 8;
  control = run;
  events = created ∷ claimed false false false ∷ claimed true false false ∷ [];
}

abbrev everyone : ℕ → Bool
everyone p = true

new_row-body : new_row (body baseline) ≡ fresh
unfolding new_row
new_row-body = refl

claim-fresh : claim everyone (text "one") 7 1000 1000 1000 false fresh ≡ ok taken
unfolding claim
claim-fresh = refl

claim-retaken : claim everyone (text "two") 8 50000 50000 50000 false lapsed ≡ ok retaken
unfolding claim
claim-retaken = refl

claim-active : claim everyone (text "two") 8 2000 2000 2000 false taken ≡ err active_worker
unfolding claim
claim-active = refl

set_control-run : set_control run fresh ≡ err needs_claim
unfolding set_control
set_control-run = refl

heartbeat-late : heartbeat (text "one") 40000 taken ≡ (lapsed, false)
unfolding heartbeat ◌==◌
heartbeat-late = refl

heartbeat-renews : heartbeat (text "one") 2000 taken ≡ (record taken { lease_until = 32000 }, true)
unfolding heartbeat ◌==◌
heartbeat-renews = refl

release-other : release (text "two") taken ≡ taken
unfolding release ◌==◌
release-other = refl

two_is_other : text "two" ≢ text "one"
unfolding ◌==◌
two_is_other e = false≢true ((==_iff (text "two") (text "one")).1 e)

late_result : Reach (Others (text "one")) (heartbeat (text "one") 40000 taken).0 retaken
unfolding heartbeat ◌==◌
late_result =
    next here (claims everyone (text "two") 8 50000 50000 50000 false two_is_other claim-retaken)

lost_lease_is_final_example :
    let (r'', thrown) =
      save (text "one") 51000 51000 true (text "PATCH") (body generating) retaken in
    (r''.body ≡ retaken.body) × (r''.events ≡ retaken.events) × (thrown ≡ some lease_lost)
lost_lease_is_final_example =
    lost_lease_is_final (text "one") 40000 taken retaken 51000 51000 (text "PATCH")
      (body generating) (ap (λ (x : Row × Bool). x.1) heartbeat-late) late_result

claim_fences_example :
    let (r'', thrown) =
      save (text "one") 51000 51000 true (text "PATCH") (body generating) retaken in
    (r''.body ≡ retaken.body) × (r''.events ≡ retaken.events) × (thrown ≡ some lease_lost)
claim_fences_example =
    claim_fences (text "one") everyone (text "two") 8 50000 50000 50000 false lapsed retaken retaken
      51000 51000 (text "PATCH") (body generating) two_is_other claim-retaken here

-- Worker `two` tries to save in between, and worker `one` renews at 20000.
renewed_row :
    (heartbeat
      (text "one")
      20000
      (save (text "two") 5000 5000 true (text "PATCH") (body generating) taken).0).0
    ≡ record taken { lease_until = 50000 }
unfolding heartbeat save ◌==◌
renewed_row = refl

renewed : Kept (text "one") everyone 1000 taken 20000 (record taken { lease_until = 50000 })
renewed = subst (Kept (text "one") everyone 1000 taken 20000) renewed_row (
    renews 20000 (omega arith) (omega arith)
      (other_saves (text "two") 5000 5000 true (text "PATCH") (body generating) two_is_other held))

claim-save_example :
    let (r'', thrown) =
      save
        (text "one")
        40000
        40001
        true
        (text "PATCH")
        (body generating)
        (record taken { lease_until = 50000 }) in
    (r''.body ≡ body generating)
    × (r''.events ≡ taken.events ++ saved (text "PATCH") generating ∷ [])
    × (thrown ≡ none)
claim-save_example =
    claim-save everyone (text "one") 7 1000 1000 1000 false fresh taken
      (record taken { lease_until = 50000 }) 20000 40000 40001 (text "PATCH") (body generating)
      (omega arith) refl claim-fresh renewed (omega arith) (omega arith) (omega arith)

-- A run that is cancelled while it delivers.
abbrev sending : Row
sending = record taken { body = body delivering }

abbrev cancelling : Row
cancelling = record taken {
  body = body reconciling;
  control = cancel;
  events = created ∷ claimed false false false ∷ control_set cancel ∷ [];
}

set_control-sending : set_control cancel sending ≡ ok cancelling
unfolding set_control
set_control-sending = refl

cancel_is_final_example :
    (cancelling.control ≡ cancel)
    × ((alive : ℕ → Bool) (token : Text) (self t₁ t₂ t₃ : ℕ) (row : Row)
        → claim alive token self t₁ t₂ t₃ true cancelling ≡ ok row
        → in_delivery reconciling ≡ true)
cancel_is_final_example = cancel_is_final sending cancelling cancelling set_control-sending here
