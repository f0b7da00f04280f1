-- ===== src/Engine/Invariant/Reach.antt =====
-- Every state that the engine reaches, in whatever order its workers, sweeps and doors act.
use busyclaw.Prelude.{
  ℕ, ◌≡◌, Option, none, some, [], arith, Ident, Timestamp, inl, inr, Option-cases,
}
use busyclaw.Storage.Table
use busyclaw.Storage.Table.{get}
use busyclaw.Storage.Table.Laws.{create-Unique, get-create}
use busyclaw.Engine.Schema.{RunRecord, RuntimeTask, leased, Db, run_key, task_key, lease_key}
use busyclaw.Engine.Runs.{
  CreateRunInput, EnqueueTaskInput, new_run, new_task, create_run, enqueue_task,
}
use busyclaw.Engine.Claim.{ClaimTaskInput, attempt_claim}
use busyclaw.Engine.Lease.{heartbeat_lease, complete_task, fail_task}
use busyclaw.Engine.Reap.{reap_expired_leases}
use busyclaw.Engine.Control.{ControlRunInput, control_run}
use busyclaw.Engine.Control.Laws.{control_run-Inv}
use busyclaw.Engine.Invariant.{Inv, IsHeldBy, Inv-runs}
use busyclaw.Engine.Invariant.Claim.{attempt_claim-Inv}
use busyclaw.Engine.Invariant.Hold.{heartbeat_lease-Inv, complete_task-Inv, fail_task-Inv}
use busyclaw.Engine.Invariant.Sweep.{reap_expired_leases-Inv}

abbrev pub empty : Db
empty = record { runs = []; tasks = []; leases = []; events = [] }

module _ (hash_text : Ident → Ident) where
  -- One operation of any process. A claim may act on a candidate that it read at any earlier time, and
  -- draws a fresh lease id; a control may act on a run that it read at any earlier time.
  pub data Step (db : Db) : Db → Type 0 where
    creates :
        (input : CreateRunInput) (ts : Timestamp) {db' : Db}
        → create_run input ts db ≡ some db'
        → Step db db'
    enqueues :
        (input : EnqueueTaskInput) (ts : Timestamp) {db' : Db}
        → enqueue_task input ts db ≡ some db'
        → Step db db'
    claims :
        (candidate : RuntimeTask) (input : ClaimTaskInput) (lease_id token : Ident)
        (ts now : Timestamp)
        → get lease_key lease_id db.leases ≡ none
        → Step db (attempt_claim hash_text candidate input lease_id token ts now db).1
    beats :
        (lease_id token : Ident) (ttl : Option ℕ) (now ts : Timestamp)
        → Step db (heartbeat_lease hash_text lease_id token ttl now ts db).1
    completes :
        (task_id token : Ident) (output : Option Ident) (now ts : Timestamp)
        → Step db (complete_task hash_text task_id token output now ts db).1
    fails :
        (task_id token why : Ident) (now ts : Timestamp)
        → Step db (fail_task hash_text task_id token why now ts db).1
    sweeps : (ts now : Timestamp) → Step db (reap_expired_leases ts now db).1
    controls :
        (input : ControlRunInput) (ts now : Timestamp) (seen : Option RunRecord)
        → Step db (control_run input ts now seen db).1

  pub data Reach (db : Db) : Db → Type 0 where
    here : Reach db db
    next : {a b : Db} → Reach db a → Step a b → Reach db b

  creates-Inv :
      (input : CreateRunInput) (ts : Timestamp) (db db' : Db)
      → create_run input ts db ≡ some db'
      → Inv db
      → Inv db'
  unfolding create_run
  creates-Inv input ts db db' e v =
      elim (Option-cases (Table.create run_key (new_run input ts) db.runs)) [
        | inl clash ↦ absurd (cc (rw (clash, create_run) at e))
        | inr (runs, made) ↦
            let same : db' ≡ record db { runs = runs } = ground (arith, e, made) in
            rw same (
              Inv-runs db runs db.events
                (create-Unique run_key (new_run input ts) db.runs runs made v.runs) v)
      ]

  enqueues-Inv :
      (input : EnqueueTaskInput) (ts : Timestamp) (db db' : Db)
      → enqueue_task input ts db ≡ some db'
      → Inv db
      → Inv db'
  unfolding enqueue_task
  enqueues-Inv input ts db db' e v =
      elim (Option-cases (Table.create task_key (new_task input ts) db.tasks)) [
        | inl clash ↦ absurd (ground (arith, clash, e))
        | inr (tasks, made) ↦
            let same : db' ≡ record db { tasks = tasks } = ground (arith, e, made) in
            rw same (record {
              runs = v.runs;
              tasks = create-Unique task_key (new_task input ts) db.tasks tasks made v.tasks;
              leases = v.leases;
              held = λ i r there was.
                  let q = get-create task_key i (new_task input ts) db.tasks tasks made in
                  let h = v.held i r (ground (arith, q, there, was)) was in
                  record {
                    lease = h.lease;
                    named = h.named;
                    stored = h.stored;
                    task = h.task;
                    worker = h.worker;
                  };
            })
      ]

  pub Step-Inv : {a b : Db} → Step a b → Inv a → Inv b
  Step-Inv {a} {b} (creates input ts e) v = creates-Inv input ts a b e v
  Step-Inv {a} {b} (enqueues input ts e) v = enqueues-Inv input ts a b e v
  Step-Inv {a} (claims c input lease_id token ts now new) v =
      attempt_claim-Inv hash_text c input lease_id token ts now a v new
  Step-Inv {a} (beats lease_id token ttl now ts) v =
      heartbeat_lease-Inv hash_text lease_id token ttl now ts a v
  Step-Inv {a} (completes task_id token output now ts) v =
      complete_task-Inv hash_text task_id token output now ts a v
  Step-Inv {a} (fails task_id token why now ts) v =
      fail_task-Inv hash_text task_id token why now ts a v
  Step-Inv {a} (sweeps ts now) v = reap_expired_leases-Inv ts now a v
  Step-Inv {a} (controls input ts now seen) v = control_run-Inv input ts now seen a v

  Reach-Inv : {a b : Db} → Inv a → Reach a b → Inv b
  Reach-Inv v here = v
  Reach-Inv v (next r s) = Step-Inv s (Reach-Inv v r)

  empty-Inv : Inv empty
  unfolding Table.find_one
  empty-Inv = record { runs = tt; tasks = tt; leases = tt; held = λ i r e s. absurd (cc e) }

  -- No task is stranded. In every state that the engine reaches from an empty store, by creations,
  -- enqueues, claims (also of stale candidates), heartbeats, completions, failures, sweeps and controls
  -- in any order, a task that is leased names a stored lease row, which names the task and its worker
  -- back.
  pub reached_leased :
      (db : Db) (i : Ident) (r : RuntimeTask)
      → Reach empty db
      → get task_key i db.tasks ≡ some r
      → r.status ≡ leased
      → IsHeldBy db r
  reached_leased db i r reach = (Reach-Inv empty-Inv reach).held i r
