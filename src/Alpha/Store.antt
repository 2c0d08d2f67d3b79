-- ===== src/Alpha/Store.antt =====
-- The run table of src/alpha/store.mjs: control, and the worker lease that guards every result.
-- Each reading of the clock is an argument of its own, so nothing is assumed of their order. The
-- liveness of a process and the fresh worker token come from outside.
pub mod Lease
pub mod Keep
pub mod Cancel
mod Tests
use code_fleet.Prelude.{
  ℕ, ◌+◌, Bool, true, false, not, ◌&&◌, ◌||◌, Option, none, some, List, [], ◌∷◌, ◌++◌, Text, ◌==◌,
  leb, ltb, nat_eq, Result, ok, err, ◌>>=◌, ◌>>◌, reject_if, if◌then◌else◌,
}

pub data RunState : Type 0 where
  waiting_approval ready baseline generating verifying waiting_human : RunState
  delivering reconciling completed cancelled : RunState

pub data Control : Type 0 where
  run pause cancel : Control

pub data Event : Type 0 where
  created : Event
  control_set : Control → Event
  claimed : (recovered resumed read_only : Bool) → Event
  saved : Text → RunState → Event

-- The JSON body of a run: its state, and all else that the coordinator writes.
pub record Body : Type 0 where
  pub state : RunState
  pub rest : Text

pub record Row : Type 0 where
  pub body : Body
  pub owner : Option Text
  pub lease_until : ℕ
  pub pid : Option ℕ
  pub control : Control
  pub events : List Event

pub data Fault : Type 0 where
  unknown_run duplicate_run not_resumable needs_claim : Fault
  clock_moved_back active_worker lease_lost fenced : Fault

abbrev pub lease_ms : ℕ
lease_ms = 30000

abbrev pub is_cancel : Control → Bool
is_cancel cancel = true
is_cancel _ = false

abbrev pub is_run : Control → Bool
is_run run = true
is_run _ = false

abbrev pub is_cancelled : RunState → Bool
is_cancelled cancelled = true
is_cancelled _ = false

abbrev pub is_completed : RunState → Bool
is_completed completed = true
is_completed _ = false

abbrev pub in_delivery : RunState → Bool
in_delivery delivering = true
in_delivery reconciling = true
in_delivery _ = false

abbrev pub is_held : Option Text → Bool
is_held none = false
is_held (some _) = true

abbrev pub held_by : Option Text → Text → Bool
held_by none w = false
held_by (some o) w = o == w

abbrev record_event : Event → Row → Row
record_event e r = record r { events = r.events ++ e ∷ [] }

-- `create` inserts this row.
unfoldable pub new_row : Body → Row
new_row b = record {
  body = b;
  owner = none;
  lease_until = 0;
  pid = none;
  control = run;
  events = created ∷ [];
}

state_after_cancel : RunState → RunState
state_after_cancel s =
    if is_completed s then s else if in_delivery s then reconciling else cancelled

-- `control(id, control)`
unfoldable pub set_control : Control → Row → Result Fault Row
unfolding state_after_cancel
set_control c r = do
  reject_if ((is_cancel r.control || is_cancelled r.body.state) && not (is_cancel c)) not_resumable
  reject_if (is_run c) needs_claim
  let state = if is_cancel c then state_after_cancel r.body.state else r.body.state
  ok (
      record_event (control_set c)
        (record r { control = c; body = record (r.body) { state = state } }))

worker_alive : (ℕ → Bool) → Option ℕ → Bool
worker_alive alive none = false
worker_alive alive (some p) = not (nat_eq p 0) && alive p

-- `claim(id, { resume })` by the process `self` with the fresh token `token`; `t₁ t₂ t₃` are its
-- readings of the clock.
unfoldable pub claim :
    (alive : ℕ → Bool) (token : Text) (self t₁ t₂ t₃ : ℕ) (resume : Bool) → Row → Result Fault Row
unfolding worker_alive
claim alive token self t₁ t₂ t₃ resume r = do
  reject_if (is_held r.owner && ltb (t₁ + lease_ms) r.lease_until) clock_moved_back
  reject_if (is_held r.owner && worker_alive alive r.pid && ltb t₂ r.lease_until) active_worker
  let gone = is_cancel r.control || is_cancelled r.body.state
  reject_if (resume && gone && not (in_delivery r.body.state)) not_resumable
  ok (
      record_event (claimed (is_held r.owner) resume (resume && gone)) (record r {
        control = if resume && not gone then run else r.control;
        owner = some token;
        lease_until = t₃ + lease_ms;
        pid = some self;
      }))

-- The lease is current: not expired, and not further off than any clock could have set it.
abbrev pub is_current : ℕ → ℕ → Bool
is_current lease_until now = ltb now lease_until && leb lease_until (now + lease_ms)

-- `heartbeat(id, owner)`: the row, and whether the lease was renewed.
unfoldable pub heartbeat : (token : Text) (now : ℕ) → Row → Row × Bool
heartbeat token now r =
    if held_by r.owner token
    then (if is_current r.lease_until now
        then (record r { lease_until = now + lease_ms }, true)
        else (record r { lease_until = 0 }, false))
    else (r, false)

-- The first statement of `save`, on its own, which stays when the rest fails.
pub expire : Text → ℕ → Row → Row
expire token observed r =
    if held_by r.owner token
      && (leb r.lease_until observed || ltb (observed + lease_ms) r.lease_until)
    then record r { lease_until = 0 }
    else r

-- The transaction of `save`; `fence` is the caller's own check. Of the event's data, the state is kept, and
-- the attempts and the reason are left out.
pub commit : Text → ℕ → Bool → Text → Body → Row → Result Fault Row
commit token now fence type body r = do
  reject_if (not fence) fenced
  reject_if (not (held_by r.owner token && is_current r.lease_until now)) lease_lost
  ok (record_event (saved type body.state) (record r { body = body }))

-- `save(run, owner, type, fence)` when no other process writes the row between its two statements: the
-- row after it, and what it throws.
unfoldable pub save :
    (token : Text) (observed now : ℕ) (fence : Bool) (type : Text) → Body → Row → Row × Option Fault
unfolding expire commit
save token observed now fence type body r =
    let seen = expire token observed r in
    elim (commit token now fence type body seen) [ ok r' ↦ (r', none) | err f ↦ (seen, some f) ]

-- `release(id, owner)`
unfoldable pub release : Text → Row → Row
release token r =
    if held_by r.owner token then record r { owner = none; lease_until = 0; pid = none } else r

-- The table `runs`, by run id.
abbrev pub Table : Type 0
Table = Text → Option Row

abbrev put_row : Table → Text → Row → Table
put_row t id r j = if id == j then some r else t j

-- A transaction on one row; on an exception the table stays.
on_row : Text → (Row → Result Fault Row) → Table → Result Fault Table
on_row id f t = elim (t id) [ none ↦ err unknown_run | some r ↦ f r >>= λ r'. ok (put_row t id r') ]

unfoldable pub create_run : Text → Body → Table → Result Fault Table
create_run id b t = elim (t id) [
  | none ↦ ok (put_row t id (new_row b))
  | some _ ↦ err duplicate_run
]

unfoldable pub control_run : Text → Control → Table → Result Fault Table
unfolding on_row
control_run id c t = on_row id (set_control c) t

unfoldable pub claim_run :
    (alive : ℕ → Bool) (token : Text) (self t₁ t₂ t₃ : ℕ) (resume : Bool)
    → Text
    → Table
    → Result Fault Table
unfolding on_row
claim_run alive token self t₁ t₂ t₃ resume id t =
    on_row id (claim alive token self t₁ t₂ t₃ resume) t
