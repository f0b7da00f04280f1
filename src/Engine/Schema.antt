-- ===== src/Engine/Schema.antt =====
-- The tables of the engine: packages/engines/sql/src/store.ts (the record types), and the partition
-- of the run statuses in packages/foundation/contracts/src/run.ts. JSON payloads are numbers.
use busyclaw.Prelude.{
  ℕ, Bool, true, false, ◌&&◌, ◌==◌, Option, some, List, Ident, Timestamp, opt_eq,
}
use busyclaw.Storage.Table.{delete}

pub data RunStatus : Type 0 where
  queued running waiting completed failed cancelled : RunStatus

pub data TaskStatus : Type 0 where
  pending leased completed failed dead : TaskStatus

pub data ControlIntent : Type 0 where
  suspend stop abort : ControlIntent

pub data WaitReason : Type 0 where
  approval suspended : WaitReason

pub data RunMode : Type 0 where
  interactive autonomous : RunMode

-- `nonTerminalRunStatuses`.
abbrev pub is_live : RunStatus → Bool
is_live queued = true
is_live running = true
is_live waiting = true
is_live _ = false

abbrev pub is_queued : RunStatus → Bool
is_queued queued = true
is_queued _ = false

abbrev pub is_parked : RunStatus → Bool
is_parked queued = true
is_parked waiting = true
is_parked _ = false

abbrev pub is_pending : TaskStatus → Bool
is_pending pending = true
is_pending _ = false

abbrev pub is_leased : TaskStatus → Bool
is_leased leased = true
is_leased _ = false

pub record RunRecord : Type 0 where
  pub id : Ident
  pub status : RunStatus
  pub input : Ident
  pub principal : Option Ident
  pub claw_id : Option Ident
  pub thread_id : Option Ident
  pub origin_message_id : Option Ident
  pub model : Option Ident
  pub run_mode : Option RunMode
  pub control_requested_at : Option Timestamp
  pub control_intent : Option ControlIntent
  pub control_requested_by : Option Ident
  pub control_reason : Option Ident
  pub control_seq : Option ℕ
  -- `""`, never swept, is `none`.
  pub pruned_at : Option Timestamp
  pub message_seq : Option ℕ
  pub wait_reason : Option WaitReason
  pub resume_checkpoint_id : Option Ident
  pub created_at : Timestamp
  pub updated_at : Timestamp

-- `lastError`, whose texts are fixed but for the reason of a failure.
pub data TaskError : Type 0 where
  abandoned cancelled_before_claim suspended_before_claim run_ended_before_claim lease_expired :
      TaskError
  reason : Ident → TaskError

pub record RuntimeTask : Type 0 where
  pub id : Ident
  pub run_id : Ident
  pub kind : Ident
  pub status : TaskStatus
  pub payload : Ident
  pub due_at : Timestamp
  pub attempt : ℕ
  pub error_attempt : Option ℕ
  pub max_attempts : ℕ
  pub retry_delay_ms : ℕ
  pub lease_id : Option Ident
  pub worker_id : Option Ident
  pub leased_until : Option Timestamp
  pub last_error : Option TaskError
  pub output : Option Ident
  pub created_at : Timestamp
  pub updated_at : Timestamp
  pub completed_at : Option Timestamp

pub record LeaseRecord : Type 0 where
  pub id : Ident
  pub task_id : Ident
  pub worker_id : Ident
  pub token_hash : Ident
  pub expires_at : Timestamp
  pub last_heartbeat_at : Timestamp
  pub created_at : Timestamp

pub data EventType : Type 0 where
  run_cancelled run_suspended run_control_ignored run_control_requested : EventType

pub record RunEvent : Type 0 where
  pub run_id : Ident
  pub type : EventType
  pub task_id : Option Ident
  pub intent : Option ControlIntent
  pub requested_by : Option Ident
  pub withheld_tasks : Option ℕ
  pub status : Option RunStatus
  pub created_at : Timestamp

-- The state of the store: a table for each model.
pub record Db : Type 0 where
  pub runs : List RunRecord
  pub tasks : List RuntimeTask
  pub leases : List LeaseRecord
  pub events : List RunEvent

abbrev pub run_key : RunRecord → Ident
run_key r = r.id

abbrev pub task_key : RuntimeTask → Ident
task_key r = r.id

abbrev pub lease_key : LeaseRecord → Ident
lease_key r = r.id

-- The task is leased under this lease.
abbrev pub is_held : Ident → RuntimeTask → Bool
is_held lease_id r = is_leased r.status && opt_eq r.lease_id (some lease_id)

-- A lease row is deleted.
abbrev pub drop_lease : Ident → Db → Db
drop_lease lease_id db = record db { leases = delete (λ l. l.id == lease_id) db.leases }

abbrev pub failed_run : RunRecord → RunRecord
failed_run r = record r { status = RunStatus.failed }
