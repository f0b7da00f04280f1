-- ===== src/Engine/Control.antt =====
-- Control of a run by an operator: `controlRun` and `raises` (packages/engines/sql/src/engine.ts), with
-- `deadLetterPendingTasks` and `updateRun` (packages/engines/sql/src/store.ts). A transaction does not
-- isolate the read of the run from its writes, so a call takes the run as it was read; the writes that
-- follow, each of which selects its rows anew, are taken as one step.
pub mod Settled
pub mod Laws
mod Tests
use busyclaw.Prelude.{
  ℕ, ◌+◌, Bool, true, false, ◌&&◌, not, Option, none, some, List, [], ◌∷◌, ◌==◌, ltb, if◌then◌else◌,
  Ident, Timestamp,
}
use busyclaw.Storage.Table.{get, cas, find_many, insert}
use busyclaw.Engine.Schema.{
  RunStatus, ControlIntent, suspend, stop, abort, RunRecord, RuntimeTask, TaskStatus, TaskError,
  cancelled_before_claim, suspended_before_claim, RunEvent, EventType, run_cancelled, run_suspended,
  run_control_ignored, run_control_requested, Db, run_key, task_key, is_live, is_parked, is_pending,
}
use busyclaw.Engine.Runs.{update_run_if_status}
use busyclaw.Engine.Claim.{settled_run}

pub record ControlRunInput : Type 0 where
  pub run_id : Ident
  pub intent : ControlIntent
  pub requested_by : Option Ident
  pub reason : Option Ident

-- The answer of the call. The first is a thrown state error.
pub data Control : Type 0 where
  no_such_run already_terminal already_requested : Control
  accepted : (settled : Bool) → Control

abbrev pub control_intent_rank : ControlIntent → ℕ
control_intent_rank suspend = 0
control_intent_rank stop = 1
control_intent_rank abort = 2

abbrev pub raises : ControlIntent → ControlIntent → Bool
raises current next = ltb (control_intent_rank current) (control_intent_rank next)

abbrev pub is_refused : Option ControlIntent → ControlIntent → Bool
is_refused none next = false
is_refused (some current) next = not (raises current next)

abbrev pub is_stop : ControlIntent → Bool
is_stop suspend = false
is_stop stop = true
is_stop abort = true

-- `updateRun`: an unconditional write.
unfoldable pub update_run : Ident → (RunRecord → RunRecord) → Timestamp → Db → Option RunRecord × Db
update_run id patch now db =
    let (row, runs) =
      cas run_key id (λ r. true) (λ r. record (patch r) { updated_at = now }) db.runs in
    (row, record db { runs = runs })

abbrev pub dead_row : TaskError → Timestamp → RuntimeTask → RuntimeTask
dead_row why ts r = record r { status = TaskStatus.dead; last_error = some why; updated_at = ts }

abbrev pub updates : Option RuntimeTask → ℕ
updates none = 0
updates (some _) = 1

unfoldable pub dead_letter_all : List RuntimeTask → TaskError → Timestamp → Db → ℕ × Db
dead_letter_all [] why ts db = (0, db)
dead_letter_all (t ∷ rows) why ts db =
    let (updated, tasks) =
      cas task_key t.id (λ r. is_pending r.status) (dead_row why ts) db.tasks in
    let (n, db') = dead_letter_all rows why ts (record db { tasks = tasks }) in
    (updates updated + n, db')

unfoldable pub dead_letter_pending_tasks : Ident → TaskError → Timestamp → Db → ℕ × Db
unfolding dead_letter_all find_many
dead_letter_pending_tasks run_id why ts db =
    dead_letter_all (find_many (λ r. r.run_id == run_id && is_pending r.status) db.tasks) why ts db

abbrev pub or_kept : Option Ident → Option Ident → Option Ident
or_kept none kept = kept
or_kept (some x) kept = some x

abbrev pub next_seq : Option ℕ → Option ℕ
next_seq none = some 1
next_seq (some n) = some (n + 1)

-- The latch only rises, and who asked first is written once. `seen` is the run as it was read.
abbrev pub latch : ControlRunInput → Timestamp → RunRecord → RunRecord → RunRecord
latch input ts seen r =
    let raised : RunRecord = record r {
      control_intent = some input.intent;
      control_seq = next_seq seen.control_seq;
    } in
    elim seen.control_intent [
      | some current ↦ raised
      | none ↦ record raised {
        control_requested_at = some ts;
        control_requested_by = or_kept input.requested_by r.control_requested_by;
        control_reason = or_kept input.reason r.control_reason;
      }
    ]

abbrev pub append_event : RunEvent → Db → Db
append_event event db = record db { events = insert event db.events }

abbrev pub event_of :
    ControlRunInput → EventType → Option ℕ → Option RunStatus → Timestamp → RunEvent
event_of input type withheld status now = record {
  run_id = input.run_id;
  type = type;
  task_id = none;
  intent = some input.intent;
  requested_by = input.requested_by;
  withheld_tasks = withheld;
  status = status;
  created_at = now;
}

-- A run that somebody drives is told to stop at its next control point.
unfoldable pub latch_run : ControlRunInput → (ts now : Timestamp) → RunRecord → Db → Control × Db
unfolding update_run
latch_run input ts now run db = (
  accepted false,
  append_event (event_of input run_control_requested none none now)
      (update_run run.id (latch input ts run) now db).1,
)

abbrev pub settled_or : Option RunRecord → (settled latched : Control × Db) → Control × Db
settled_or none settled latched = latched
settled_or (some _) settled latched = settled

-- A run that nobody drives is settled at once, and its pending tasks are retired.
unfoldable pub settle_run : ControlRunInput → (ts now : Timestamp) → RunRecord → Db → Control × Db
unfolding dead_letter_pending_tasks update_run_if_status latch_run
settle_run input ts now run db =
    let ends = is_stop input.intent in
    let (withheld, db1) =
      dead_letter_pending_tasks run.id
        (if ends then cancelled_before_claim else suspended_before_claim) now db in
    let (settled, db2) =
      update_run_if_status run.id is_parked (λ r. settled_run ends (latch input ts run r)) now
        db1 in
    settled_or settled
      (
        accepted true,
        append_event
            (event_of input (if ends then run_cancelled else run_suspended) (some withheld) none
              now)
            db2,
      )
      (latch_run input ts now run db2)

-- `seen` is the run as the call read it: other processes may have written it since.
unfoldable pub control_run :
    ControlRunInput → (ts now : Timestamp) → (seen : Option RunRecord) → Db → Control × Db
unfolding settle_run latch_run
control_run input ts now none db = (no_such_run, db)
control_run input ts now (some run) db =
    if not (is_live run.status)
    then (
      already_terminal,
      append_event (event_of input run_control_ignored none (some run.status) now) db,
    )
    else if is_refused run.control_intent input.intent
    then (already_requested, db)
    else if is_parked run.status
    then settle_run input ts now run db
    else latch_run input ts now run db
