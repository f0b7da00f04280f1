-- ===== src/Engine/Reap.antt =====
-- The sweep of lapsed leases: `reapExpiredLeases` (packages/engines/sql/src/store.ts).
use busyclaw.Prelude.{
  ℕ, ◌+◌, Bool, true, false, Option, none, some, List, [], ◌∷◌, leb, if◌then◌else◌, Ident,
  Timestamp, add_ms,
}
use busyclaw.Storage.Table.{get, cas, find_many}
use busyclaw.Engine.Schema.{
  is_held, drop_lease, failed_run, RuntimeTask, TaskStatus, abandoned, lease_expired, LeaseRecord,
  Db, task_key, is_live,
}
use busyclaw.Engine.Runs.{update_run_if_status}

abbrev pub max_claims : ℕ
max_claims = 8

-- A task whose lease lapsed goes back to the queue, or is abandoned after its last claim.
abbrev pub lapsed_row : Timestamp → RuntimeTask → RuntimeTask → RuntimeTask
lapsed_row ts seen r =
    if leb max_claims seen.attempt
    then record r {
      status = TaskStatus.dead;
      last_error = some abandoned;
      due_at = seen.due_at;
      lease_id = none;
      worker_id = none;
      leased_until = none;
      updated_at = ts;
    }
    else record r {
      status = TaskStatus.pending;
      last_error = some lease_expired;
      due_at = add_ms ts seen.retry_delay_ms;
      lease_id = none;
      worker_id = none;
      leased_until = none;
      updated_at = ts;
    }

-- The task took the write, and the lease goes; or it is not this sweep's to retire.
abbrev pub retire :
    Option RuntimeTask
    → LeaseRecord
    → RuntimeTask
    → (before after : Db) → Option (Bool × Ident) × Db
retire none lease task before after = (none, before)
retire (some _) lease task before after =
    (some (leb max_claims task.attempt, task.run_id), drop_lease lease.id after)

-- The transaction on one lapsed lease: whether its task is dead, and the task's run.
unfoldable pub reap : LeaseRecord → Timestamp → Db → Option (Bool × Ident) × Db
reap candidate ts db = elim (get task_key candidate.task_id db.tasks) [
  | none ↦ (none, drop_lease candidate.id db)
  | some task ↦
      let (updated, tasks) =
        cas task_key candidate.task_id (is_held candidate.id) (lapsed_row ts task) db.tasks in
      retire updated candidate task db (record db { tasks = tasks })
]

-- The run of an abandoned task fails, once the transaction has committed.
unfoldable pub reap_run : Option (Bool × Ident) → Timestamp → Db → Db
unfolding update_run_if_status
reap_run none now db = db
reap_run (some (false, run_id)) now db = db
reap_run (some (true, run_id)) now db = (update_run_if_status run_id is_live failed_run now db).1

abbrev pub counts : Option (Bool × Ident) → ℕ
counts none = 0
counts (some _) = 1

unfoldable pub reap_all : Timestamp → Timestamp → List LeaseRecord → Db → ℕ × Db
unfolding reap reap_run
reap_all ts now [] db = (0, db)
reap_all ts now (l ∷ ls) db =
    let (reaped, db') = reap l ts db in
    let (n, db'') = reap_all ts now ls (reap_run reaped now db') in (counts reaped + n, db'')

unfoldable pub reap_expired_leases : Timestamp → Timestamp → Db → ℕ × Db
unfolding reap_all find_many
reap_expired_leases ts now db = reap_all ts now (find_many (λ l. leb l.expires_at ts) db.leases) db
