-- ===== src/Subagents/Barrier.antt =====
-- The barrier: its tables and their writes (packages/plugins/subagents/src/store.ts, over the rows of
-- packages/plugins/subagents/src/schema.ts). Each write is one step on its table.
-- `arrival_id` stands for the hash that derives the id of an arrival.
pub mod Once
use busyclaw.Prelude.{
  ℕ, Bool, true, false, ◌&&◌, ◌||◌, not, Option, none, some, List, [], ◌∷◌, ◌==◌, ltb, any, filter,
  length, if◌then◌else◌, Ident, Timestamp, opt_eq,
}
use busyclaw.Storage.Table
use busyclaw.Storage.Table.{get, cas, find_one, find_many, sort_asc, create}

pub data JoinStatus : Type 0 where
  waiting fired timed_out cancelled : JoinStatus

abbrev pub is_waiting : JoinStatus → Bool
is_waiting waiting = true
is_waiting fired = false
is_waiting timed_out = false
is_waiting cancelled = false

pub record AgentJoin : Type 0 where
  pub id : Ident
  pub owner_run_id : Ident
  pub wait_id : Ident
  pub expected : ℕ
  pub threshold : ℕ
  pub members : List Ident
  pub status : JoinStatus
  pub deadline_at : Timestamp
  pub created_at : Timestamp
  pub updated_at : Timestamp

pub data ArrivalOutcome : Type 0 where
  child_completed child_failed child_cancelled child_timed_out : ArrivalOutcome

pub record Arrival : Type 0 where
  pub id : Ident
  pub join_id : Ident
  pub child_run_id : Ident
  pub outcome : ArrivalOutcome
  pub arrived_at : Timestamp

pub data WaitStatus : Type 0 where
  wait_arming wait_armed wait_fired wait_cancelled : WaitStatus

abbrev pub is_arming : WaitStatus → Bool
is_arming wait_arming = true
is_arming wait_armed = false
is_arming wait_fired = false
is_arming wait_cancelled = false

abbrev pub is_armed : WaitStatus → Bool
is_armed wait_arming = false
is_armed wait_armed = true
is_armed wait_fired = false
is_armed wait_cancelled = false

pub data Reason : Type 0 where
  for_children for_inbox for_pause : Reason

pub record AgentWait : Type 0 where
  pub id : Ident
  pub run_id : Ident
  pub reason : Reason
  pub join_id : Option Ident
  pub checkpoint_id : Option Ident
  pub status : WaitStatus
  pub deadline_at : Timestamp
  pub armed_at : Option Timestamp
  pub fired_at : Option Timestamp
  pub created_at : Timestamp
  pub updated_at : Timestamp

abbrev pub join_key : AgentJoin → Ident
join_key r = r.id

abbrev pub arrival_key : Arrival → Ident
arrival_key r = r.id

abbrev pub wait_key : AgentWait → Ident
wait_key r = r.id

-- The row that was inserted, or else the one that is there.
abbrev pub inserted_or : {R : Type 0} → Option R → R → List R → Option (List R) → Option R × List R
inserted_or existing r t none = (existing, t)
inserted_or existing r t (some t') = (some r, t')

pub record OpenJoin : Type 0 where
  pub id : Ident
  pub owner_run_id : Ident
  pub wait_id : Ident
  pub expected : ℕ
  pub threshold : ℕ
  pub members : List Ident
  pub deadline_at : Timestamp
  pub now : Timestamp

abbrev pub new_join : OpenJoin → AgentJoin
new_join input = record {
  id = input.id;
  owner_run_id = input.owner_run_id;
  wait_id = input.wait_id;
  expected = input.expected;
  threshold = input.threshold;
  members = input.members;
  status = waiting;
  deadline_at = input.deadline_at;
  created_at = input.now;
  updated_at = input.now;
}

unfoldable pub open_join : OpenJoin → List AgentJoin → Option AgentJoin × List AgentJoin
open_join input t =
    inserted_or (get join_key input.id t) (new_join input) t (create join_key (new_join input) t)

-- What a barrier may end as.
pub data Ending : Type 0 where
  to_fired to_timed_out to_cancelled : Ending

abbrev pub ended : Ending → JoinStatus
ended to_fired = fired
ended to_timed_out = timed_out
ended to_cancelled = cancelled

unfoldable pub settle_join :
    Ident → Ending → Timestamp → List AgentJoin → Option AgentJoin × List AgentJoin
settle_join id to now t =
    cas join_key id (λ r. is_waiting r.status)
      (λ r. record r { status = ended to; updated_at = now }) t

abbrev pub new_arrival : (id join_id child : Ident) → ArrivalOutcome → Timestamp → Arrival
new_arrival id join_id child outcome now = record {
  id = id;
  join_id = join_id;
  child_run_id = child;
  outcome = outcome;
  arrived_at = now;
}

abbrev pub recorded : List Arrival → Option (List Arrival) → Bool × List Arrival
recorded t none = (false, t)
recorded t (some t') = (true, t')

unfoldable pub record_arrival :
    (arrival_id : Ident → Ident → Ident) (join_id child : Ident)
    → ArrivalOutcome
    → Timestamp
    → List Arrival
    → Bool × List Arrival
record_arrival arrival_id join_id child outcome now t =
    recorded t
      (create arrival_key (new_arrival (arrival_id join_id child) join_id child outcome now) t)

unfoldable pub arrivals : Ident → List Arrival → List Arrival
arrivals join_id t = sort_asc (λ r. r.arrived_at) (find_many (λ r. r.join_id == join_id) t)

pub record OpenWait : Type 0 where
  pub id : Ident
  pub run_id : Ident
  pub reason : Reason
  pub join_id : Ident
  pub deadline_at : Timestamp
  pub now : Timestamp

abbrev pub new_wait : OpenWait → AgentWait
new_wait input = record {
  id = input.id;
  run_id = input.run_id;
  reason = input.reason;
  join_id = some input.join_id;
  checkpoint_id = none;
  status = wait_arming;
  deadline_at = input.deadline_at;
  armed_at = none;
  fired_at = none;
  created_at = input.now;
  updated_at = input.now;
}

unfoldable pub open_wait : OpenWait → List AgentWait → Option AgentWait × List AgentWait
open_wait input t =
    inserted_or (get wait_key input.id t) (new_wait input) t (create wait_key (new_wait input) t)

unfoldable pub arm_wait :
    Ident → Ident → Timestamp → List AgentWait → Option AgentWait × List AgentWait
arm_wait id checkpoint_id now t =
    cas wait_key id (λ r. is_arming r.status)
      (λ r. record r {
        status = wait_armed;
        checkpoint_id = some checkpoint_id;
        armed_at = some now;
        updated_at = now;
      })
      t

abbrev pub is_unspent : WaitStatus → Bool
is_unspent s = is_arming s || is_armed s

unfoldable pub fire_wait : Ident → Timestamp → List AgentWait → Option AgentWait × List AgentWait
fire_wait id now t =
    cas wait_key id (λ r. is_unspent r.status)
      (λ r. record r { status = wait_fired; fired_at = some now; updated_at = now }) t

unfoldable pub wait_for_join : Ident → List AgentWait → Option AgentWait
wait_for_join join_id t = find_one (λ r. opt_eq r.join_id (some join_id)) t

unfoldable pub wait_for_run : Ident → List AgentWait → Option AgentWait
wait_for_run run t = find_one (λ r. r.run_id == run && is_armed r.status) t
