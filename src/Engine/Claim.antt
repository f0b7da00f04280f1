-- ===== src/Engine/Claim.antt =====
-- Claiming a task: `attemptClaim`, `claimDueTasks`, `claimTask` (packages/engines/sql/src/store.ts).
-- `ts` is the instant of the claim, `now` the later readings of the clock; the id and the token of the
-- lease are arguments, and `hash_text` (SHA-256, a third-party function) is a parameter.
use Prim.Native.Nat.{max}
use busyclaw.Prelude.{
  ℕ, ◌+◌, ◌*◌, Bool, true, false, ◌&&◌, Option, none, some, List, [], ◌∷◌, ◌++◌, ◌==◌, ltb, leb,
  if◌then◌else◌, any, take, length, Ident, Timestamp, add_ms,
}
use busyclaw.Storage.Table.{get, cas, insert, find_many, sort_asc}
use busyclaw.Engine.Schema.{
  RunStatus, RunRecord, RuntimeTask, TaskStatus, TaskError, abandoned, cancelled_before_claim,
  suspended_before_claim, run_ended_before_claim, LeaseRecord, RunEvent, Db, run_cancelled,
  run_suspended, suspend, stop, abort, suspended, run_key, task_key, is_live, is_queued, is_parked,
  is_pending, is_leased, is_held, drop_lease, failed_run,
}
use busyclaw.Engine.Runs.{update_run_if_status}
use busyclaw.Engine.Reap.{max_claims, reap_expired_leases}

abbrev pub default_lease_ttl_ms : ℕ
default_lease_ttl_ms = 60_000

pub record ClaimTaskInput : Type 0 where
  pub worker_id : Ident
  pub lease_ttl_ms : Option ℕ
  pub limit : Option ℕ

pub record ClaimedTask : Type 0 where
  pub task : RuntimeTask
  pub lease_id : Ident
  pub lease_token : Ident
  pub expires_at : Timestamp

abbrev pub running_run : RunRecord → RunRecord
running_run r = record r { status = RunStatus.running }

-- A pending task that is retired unclaimed.
abbrev pub retired : TaskError → Timestamp → RuntimeTask → RuntimeTask
retired error ts r = record r { status = TaskStatus.dead; last_error = some error; updated_at = ts }

abbrev pub is_pending_task : RuntimeTask → Bool
is_pending_task r = is_pending r.status

-- A pending task that was claimed too often is retired, and a run that is still queued fails with it.
unfoldable pub abandon : RuntimeTask → Timestamp → Timestamp → Db → Db
abandon candidate ts now db =
    let tasks = (cas task_key candidate.id is_pending_task (retired abandoned ts) db.tasks).1 in
    (update_run_if_status candidate.run_id is_queued failed_run now (record db { tasks = tasks })).1

-- The control latch is set.
abbrev pub is_latched : Option RunRecord → Bool
is_latched none = false
is_latched (some r) = elim r.control_requested_at [ none ↦ false | some _ ↦ true ]

-- Every intent but a suspend ends the run.
abbrev pub stops : Option RunRecord → Bool
stops none = true
stops (some r) = elim r.control_intent [
  | none ↦ true
  | some i ↦ elim i [ suspend ↦ false | stop ↦ true | abort ↦ true ]
]

-- Another task of the run is leased, and its lease has not lapsed.
abbrev pub has_holder : Ident → Timestamp → List RuntimeTask → Bool
has_holder run_id ts tasks =
    any
      (λ r.
        r.run_id == run_id
        && (is_leased r.status && elim r.leased_until [ none ↦ false | some at ↦ ltb ts at ]))
      tasks

abbrev pub settled_run : Bool → RunRecord → RunRecord
settled_run ends r = record r {
  status = if ends then RunStatus.cancelled else RunStatus.waiting;
  wait_reason = if ends then none else some suspended;
  control_requested_at = none;
  control_intent = none;
  control_requested_by = none;
  control_reason = none;
}

abbrev pub note_settled : Option RunRecord → RunEvent → Db → Db
note_settled none event db = db
note_settled (some _) event db = record db { events = insert event db.events }

-- The run is settled on behalf of a withheld task.
unfoldable pub settle : RuntimeTask → Option RunRecord → Bool → Timestamp → Db → Db
settle candidate run ends now db =
    let (settled, db') =
      update_run_if_status candidate.run_id is_parked (settled_run ends) now db in
    note_settled settled
      (record {
        run_id = candidate.run_id;
        type = if ends then run_cancelled else run_suspended;
        task_id = some candidate.id;
        intent = elim run [ none ↦ none | some r ↦ r.control_intent ];
        requested_by = elim run [ none ↦ none | some r ↦ r.control_requested_by ];
        withheld_tasks = none;
        status = none;
        created_at = now;
      })
      db'

-- It is settled only if the task was withheld here, and nobody drives the run.
abbrev pub settle_if : Option RuntimeTask → Bool → (settled unsettled : Db) → Db
settle_if none held settled unsettled = unsettled
settle_if (some _) true settled unsettled = unsettled
settle_if (some _) false settled unsettled = settled

abbrev pub withheld_error : Bool → TaskError
withheld_error true = cancelled_before_claim
withheld_error false = suspended_before_claim

-- The fence: a task of a run that somebody asked to stop is withheld.
unfoldable pub withhold : RuntimeTask → Option RunRecord → Bool → Timestamp → Timestamp → Db → Db
withhold candidate run ends ts now db =
    let (withheld, tasks) =
      cas task_key candidate.id is_pending_task (retired (withheld_error ends) ts) db.tasks in
    let db' : Db = record db { tasks = tasks } in
    settle_if withheld (has_holder candidate.run_id ts tasks) (settle candidate run ends now db')
      db'

abbrev pub is_due : Timestamp → RuntimeTask → Bool
is_due ts r = is_pending r.status && leb r.due_at ts

abbrev pub leased_row :
    RuntimeTask → Ident → Ident → Timestamp → Timestamp → RuntimeTask → RuntimeTask
leased_row candidate lease_id worker_id until ts r = record r {
  status = TaskStatus.leased;
  lease_id = some lease_id;
  worker_id = some worker_id;
  leased_until = some until;
  attempt = candidate.attempt + 1;
  updated_at = ts;
}

abbrev pub unleased : TaskStatus → TaskError → Timestamp → RuntimeTask → RuntimeTask
unleased status error ts r = record r {
  status = status;
  last_error = some error;
  lease_id = none;
  worker_id = none;
  leased_until = none;
  updated_at = ts;
}

-- The run is started, or its task retired and the lease released.
abbrev pub start : Option RunRecord → ClaimedTask → Timestamp → Db → Option ClaimedTask × Db
start (some _) claim ts db = (some claim, db)
start none claim ts db = (
  none,
  drop_lease claim.lease_id (record db {
    tasks =
        (cas task_key claim.task.id (is_held claim.lease_id)
          (unleased TaskStatus.dead run_ended_before_claim ts) db.tasks).1;
  }),
)

-- The task was taken, or the lease is released.
abbrev pub take_on :
    Option RuntimeTask → LeaseRecord → Ident → Timestamp → Timestamp → Db → Option ClaimedTask × Db
take_on none lease token ts now db = (none, drop_lease lease.id db)
take_on (some task) lease token ts now db =
    let (started, db') = update_run_if_status task.run_id is_live running_run now db in
    start started
      (record {
        task = task;
        lease_id = lease.id;
        lease_token = token;
        expires_at = lease.expires_at;
      })
      ts db'

module _ (hash_text : Ident → Ident) where
  abbrev pub new_lease : RuntimeTask → ClaimTaskInput → Ident → Ident → Timestamp → LeaseRecord
  new_lease candidate input lease_id token ts = record {
    id = lease_id;
    task_id = candidate.id;
    worker_id = input.worker_id;
    token_hash = hash_text token;
    expires_at = add_ms ts (elim input.lease_ttl_ms [ none ↦ default_lease_ttl_ms | some ms ↦ ms ]);
    last_heartbeat_at = ts;
    created_at = ts;
  }

  -- The acquisition proper: the lease, the compare-and-set of the task and its unwind, the guard on
  -- the run and its unwind.
  unfoldable pub acquire :
      RuntimeTask
      → ClaimTaskInput
      → (lease_id token : Ident) → (ts now : Timestamp) → Db
      → Option ClaimedTask × Db
  acquire candidate input lease_id token ts now db =
      let lease = new_lease candidate input lease_id token ts in
      let (updated, tasks) =
        cas task_key candidate.id (is_due ts)
          (leased_row candidate lease_id input.worker_id lease.expires_at ts) db.tasks in
      take_on updated lease token ts now
        (record db { leases = insert lease db.leases; tasks = tasks })

  -- `none` is "not claimable". The candidate may be a row as it was read at any earlier time.
  unfoldable pub attempt_claim :
      RuntimeTask
      → ClaimTaskInput
      → (lease_id token : Ident) → (ts now : Timestamp) → Db
      → Option ClaimedTask × Db
  unfolding acquire abandon withhold
  attempt_claim candidate input lease_id token ts now db =
      let run = get run_key candidate.run_id db.runs in
      if leb max_claims candidate.attempt
      then (none, abandon candidate ts now db)
      else if is_latched run
      then (none, withhold candidate run (stops run) ts now db)
      else acquire candidate input lease_id token ts now db

  unfoldable pub claim_task :
      Ident
      → ClaimTaskInput
      → (lease_id token : Ident) → (ts now : Timestamp) → Db
      → Option ClaimedTask × Db
  unfolding attempt_claim
  claim_task task_id input lease_id token ts now db = elim (get task_key task_id db.tasks) [
    | none ↦ (none, db)
    | some candidate ↦ attempt_claim candidate input lease_id token ts now db
  ]

  -- The loop of `claimDueTasks`: down the candidates until `max` are held. `mint` draws the id and the
  -- token of the lease for each candidate.
  unfoldable pub claim_all :
      ClaimTaskInput
      → ℕ
      → (Ident → Ident × Ident)
      → (ts now : Timestamp) → List RuntimeTask
      → List ClaimedTask
      → Db
      → List ClaimedTask × Db
  unfolding attempt_claim
  claim_all input most mint ts now [] held db = (held, db)
  claim_all input most mint ts now (candidate ∷ rest) held db =
      let (taken, db') =
        attempt_claim candidate input (mint candidate.id).0 (mint candidate.id).1 ts now db in
      let held' : List ClaimedTask = elim taken [ none ↦ held | some c ↦ held ++ c ∷ [] ] in
      let next = claim_all input most mint ts now rest held' db' in
      if leb most (length held) then (held, db) else next

  unfoldable pub claim_due_tasks :
      ClaimTaskInput
      → ℕ
      → (Ident → Ident × Ident)
      → (ts now : Timestamp) → Db
      → List ClaimedTask × Db
  unfolding claim_all find_many sort_asc reap_expired_leases
  claim_due_tasks input wanted mint ts now db =
      let most = max 1 wanted in
      let reaped = (reap_expired_leases ts now db).1 in
      let window : ℕ = elim input.limit [ none ↦ max 10 (most * 4) | some n ↦ n ] in
      let candidates =
        take window (sort_asc (λ r. r.due_at) (find_many (is_due ts) reaped.tasks)) in
      claim_all input most mint ts now candidates [] reaped
