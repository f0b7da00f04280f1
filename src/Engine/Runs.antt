-- ===== src/Engine/Runs.antt =====
-- Runs and tasks: creation and the conditional status write (packages/engines/sql/src/store.ts).
use busyclaw.Prelude.{ℕ, Bool, ◌&&◌, Option, none, some, List, Ident, Timestamp, opt_eq}
use busyclaw.Storage.Table
use busyclaw.Storage.Table.{get, cas, find_many, sort_desc}
use busyclaw.Engine.Schema.{
  RunStatus, queued, RunRecord, RunMode, RuntimeTask, pending, Db, run_key, task_key, is_live,
}

-- A thread, its claw and the message that asked: where the output belongs.
pub record EngineRecording : Type 0 where
  pub claw_id : Ident
  pub thread_id : Option Ident
  pub origin_message_id : Option Ident

pub record CreateRunInput : Type 0 where
  pub id : Ident
  pub input : Ident
  pub principal : Option Ident
  pub recording : Option EngineRecording
  pub claw_id : Option Ident
  pub model : Option Ident
  pub run_mode : Option RunMode

abbrev pub new_run : CreateRunInput → Timestamp → RunRecord
new_run input ts = record {
  id = input.id;
  status = queued;
  input = input.input;
  principal = input.principal;
  claw_id = elim input.recording [ none ↦ input.claw_id | some r ↦ some r.claw_id ];
  thread_id = elim input.recording [ none ↦ none | some r ↦ r.thread_id ];
  origin_message_id = elim input.recording [ none ↦ none | some r ↦ r.origin_message_id ];
  model = input.model;
  run_mode = input.run_mode;
  control_requested_at = none;
  control_intent = none;
  control_requested_by = none;
  control_reason = none;
  control_seq = some 0;
  pruned_at = none;
  message_seq = some 0;
  wait_reason = none;
  resume_checkpoint_id = none;
  created_at = ts;
  updated_at = ts;
}

-- `none` is a conflict on the primary key.
unfoldable pub create_run : CreateRunInput → Timestamp → Db → Option Db
create_run input ts db = elim (Table.create run_key (new_run input ts) db.runs) [
  | none ↦ none
  | some runs ↦ some (record db { runs = runs })
]

-- `updateRunIfStatus`: the guard and the write are one predicate.
unfoldable pub update_run_if_status :
    Ident → (RunStatus → Bool) → (RunRecord → RunRecord) → Timestamp → Db → Option RunRecord × Db
update_run_if_status id from patch now db =
    let (row, runs) =
      cas run_key id (λ r. from r.status) (λ r. record (patch r) { updated_at = now }) db.runs in
    (row, record db { runs = runs })

pub record EnqueueTaskInput : Type 0 where
  pub id : Ident
  pub run_id : Ident
  pub kind : Ident
  pub payload : Ident
  pub due_at : Option Timestamp
  pub max_attempts : Option ℕ
  pub retry_delay_ms : Option ℕ

abbrev pub default_retry_delay_ms : ℕ
default_retry_delay_ms = 1_000

abbrev pub new_task : EnqueueTaskInput → Timestamp → RuntimeTask
new_task input ts = record {
  id = input.id;
  run_id = input.run_id;
  kind = input.kind;
  status = pending;
  payload = input.payload;
  due_at = elim input.due_at [ none ↦ ts | some at ↦ at ];
  attempt = 0;
  error_attempt = some 0;
  max_attempts = elim input.max_attempts [ none ↦ 3 | some n ↦ n ];
  retry_delay_ms = elim input.retry_delay_ms [ none ↦ default_retry_delay_ms | some n ↦ n ];
  lease_id = none;
  worker_id = none;
  leased_until = none;
  last_error = none;
  output = none;
  created_at = ts;
  updated_at = ts;
  completed_at = none;
}

unfoldable pub enqueue_task : EnqueueTaskInput → Timestamp → Db → Option Db
enqueue_task input ts db = elim (Table.create task_key (new_task input ts) db.tasks) [
  | none ↦ none
  | some tasks ↦ some (record db { tasks = tasks })
]

unfoldable pub list_active_for_claw : Ident → Ident → Db → List RunRecord
list_active_for_claw claw_id principal db =
    find_many
      (λ r.
        opt_eq r.claw_id (some claw_id)
        && (opt_eq r.principal (some principal) && is_live r.status))
      db.runs

-- Newest first.
unfoldable pub list_active_for_thread : Ident → Db → List RunRecord
list_active_for_thread thread_id db =
    sort_desc (λ r. r.created_at)
      (find_many (λ r. opt_eq r.thread_id (some thread_id) && is_live r.status) db.runs)
