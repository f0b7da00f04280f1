-- ===== src/Engine/Lease.antt =====
-- Holding a claimed task: `validateLease`, `heartbeatLease`, `completeTask`, `failTask`
-- (packages/engines/sql/src/store.ts).
use busyclaw.Prelude.{
  ℕ, ◌+◌, Bool, ◌&&◌, ◌||◌, not, Option, none, some, List, ◌==◌, ltb, leb, if◌then◌else◌, Ident,
  Timestamp, add_ms, opt_eq,
}
use busyclaw.Storage.Table.{get, cas}
use busyclaw.Engine.Schema.{
  is_held, drop_lease, RuntimeTask, TaskStatus, reason, LeaseRecord, Db, task_key, lease_key,
}
use busyclaw.Engine.Claim.{default_lease_ttl_ms}

-- The failures so far, with this one.
abbrev pub next_error : RuntimeTask → ℕ
next_error task = elim task.error_attempt [ none ↦ 0 | some n ↦ n ] + 1

abbrev pub failed_row : RuntimeTask → Ident → Timestamp → RuntimeTask → RuntimeTask
failed_row task why ts r =
    if leb task.max_attempts (next_error task)
    then record r {
      status = TaskStatus.dead;
      error_attempt = some (next_error task);
      last_error = some (reason why);
      due_at = task.due_at;
      lease_id = none;
      worker_id = none;
      leased_until = none;
      updated_at = ts;
    }
    else record r {
      status = TaskStatus.pending;
      error_attempt = some (next_error task);
      last_error = some (reason why);
      due_at = add_ms ts task.retry_delay_ms;
      lease_id = none;
      worker_id = none;
      leased_until = none;
      updated_at = ts;
    }

abbrev pub is_worker : Ident → Ident → RuntimeTask → Bool
is_worker lease_id worker_id r = is_held lease_id r && opt_eq r.worker_id (some worker_id)

abbrev pub beaten_row : Timestamp → Timestamp → RuntimeTask → RuntimeTask
beaten_row until ts r = record r { leased_until = some until; updated_at = ts }

abbrev pub elim_ttl : Option ℕ → ℕ
elim_ttl none = default_lease_ttl_ms
elim_ttl (some ms) = ms

-- The task write is the fence: a lease whose task has stopped naming it is dropped.
abbrev pub beat :
    Option LeaseRecord
    → Option RuntimeTask
    → Ident
    → List RuntimeTask
    → Db
    → Option LeaseRecord × Db
beat none held lease_id tasks db = (none, db)
beat (some lease) none lease_id tasks db = (none, drop_lease lease_id db)
beat (some lease) (some task) lease_id tasks db = (some lease, record db { tasks = tasks })

abbrev pub completed_row : Option Ident → Timestamp → RuntimeTask → RuntimeTask
completed_row output ts r = record r {
  status = TaskStatus.completed;
  output = elim output [ none ↦ r.output | some v ↦ some v ];
  completed_at = some ts;
  updated_at = ts;
}

-- The lease goes once its task is finished.
abbrev pub close : Option RuntimeTask → Ident → Db → Option RuntimeTask × Db
close none lease_id db = (none, db)
close (some r) lease_id db = (some r, drop_lease lease_id db)

module _ (hash_text : Ident → Ident) where
  unfoldable pub validate_lease : RuntimeTask → Ident → Timestamp → Db → Option LeaseRecord
  validate_lease task token now db = elim task.lease_id [
    | none ↦ none
    | some id ↦ elim (get lease_key id db.leases) [
      | none ↦ none
      | some lease ↦
          if lease.task_id == task.id
            && (ltb now lease.expires_at && lease.token_hash == hash_text token)
          then some lease
          else none
    ]
  ]

  -- The write of `heartbeatLease` to the lease, pinned on its token and on its expiry.
  unfoldable pub renew : Ident → Ident → Timestamp → Timestamp → Db → Option LeaseRecord × Db
  renew lease_id token ts until db =
      let (row, leases) =
        cas lease_key lease_id (λ l. l.token_hash == hash_text token && ltb ts l.expires_at)
          (λ l. record l { expires_at = until; last_heartbeat_at = ts }) db.leases in
      (row, record db { leases = leases })

  -- `now` is the reading of the check, `ts` that of the write.
  unfoldable pub heartbeat_lease :
      Ident → Ident → Option ℕ → (now ts : Timestamp) → Db → Option LeaseRecord × Db
  unfolding renew
  heartbeat_lease lease_id token ttl now ts db = elim (get lease_key lease_id db.leases) [
    | none ↦ (none, db)
    | some lease ↦
        let until = add_ms ts (elim_ttl ttl) in
        let (updated, db') = renew lease_id token ts until db in
        let (held, tasks) =
          cas task_key lease.task_id (is_worker lease_id lease.worker_id) (beaten_row until ts)
            db'.tasks in
        if leb lease.expires_at now || not (lease.token_hash == hash_text token)
        then (none, db)
        else beat updated held lease_id tasks db'
  ]

  unfoldable pub complete_task :
      Ident → Ident → Option Ident → (now ts : Timestamp) → Db → Option RuntimeTask × Db
  unfolding validate_lease
  complete_task task_id token output now ts db = elim (get task_key task_id db.tasks) [
    | none ↦ (none, db)
    | some task ↦ elim (validate_lease task token now db) [
      | none ↦ (none, db)
      | some lease ↦
          let (row, tasks) =
            cas task_key task_id (is_held lease.id) (completed_row output ts) db.tasks in
          close row lease.id (record db { tasks = tasks })
    ]
  ]

  unfoldable pub fail_task :
      Ident → Ident → Ident → (now ts : Timestamp) → Db → Option RuntimeTask × Db
  unfolding validate_lease
  fail_task task_id token why now ts db = elim (get task_key task_id db.tasks) [
    | none ↦ (none, db)
    | some task ↦ elim (validate_lease task token now db) [
      | none ↦ (none, db)
      | some lease ↦
          let (row, tasks) =
            cas task_key task_id (is_held lease.id) (failed_row task why ts) db.tasks in
          (row, drop_lease lease.id (record db { tasks = tasks }))
    ]
  ]
