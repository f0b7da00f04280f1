-- ===== src/Engine/Tests.antt =====
-- Runs of the engine on small stores, and the theorems at them. Tokens hash to themselves plus one.
use busyclaw.Prelude.{◌+◌, ◌≡◌, refl, ◌<◌, Option, none, some, [], ◌∷◌, arith, Ident}
use busyclaw.Storage.Table.{get, find_one, find_many, update, delete, create}
use busyclaw.Engine.Schema.{
  stop, RunStatus, RunRecord, RuntimeTask, TaskStatus, LeaseRecord, Db, run_key, task_key,
  lease_key,
}
use busyclaw.Engine.Runs.{
  CreateRunInput, EnqueueTaskInput, new_run, new_task, create_run, enqueue_task,
  update_run_if_status,
}
use busyclaw.Engine.Claim.{ClaimTaskInput, attempt_claim, acquire, abandon, withhold, settle}
use busyclaw.Engine.Lease.{heartbeat_lease, renew, validate_lease, complete_task, fail_task}
use busyclaw.Engine.Reap.{reap, reap_run, reap_all, reap_expired_leases}
use busyclaw.Engine.Invariant.{IsHeldBy, Inv}
use busyclaw.Engine.Invariant.Reach.{
  empty, creates, enqueues, claims, fails, controls, Reach, here, next, reached_leased,
}
use busyclaw.Engine.Control.{ControlRunInput, control_run, latch_run, settle_run, update_run}
use busyclaw.Engine.Control.Laws.{latched_as}
use busyclaw.Engine.Exclusion.{claim_refused}
use busyclaw.Engine.Ended.{ended_final}
use busyclaw.Engine.Sweep.{swept}

abbrev plus_one : Ident → Ident
plus_one n = n + 1

abbrev asked : CreateRunInput
asked = record {
  id = 1;
  input = 5;
  principal = none;
  recording = none;
  claw_id = none;
  model = none;
  run_mode = none;
}

abbrev queued_run : RunRecord
queued_run = new_run asked 10

abbrev work : EnqueueTaskInput
work = record {
  id = 2;
  run_id = 1;
  kind = 6;
  payload = 7;
  due_at = none;
  max_attempts = some 2;
  retry_delay_ms = none;
}

abbrev waiting_task : RuntimeTask
waiting_task = new_task work 20

abbrev worker : ClaimTaskInput
worker = record { worker_id = 8; lease_ttl_ms = some 100; limit = none }

engine : Unit {0}
unfolding control_run latch_run settle_run update_run create_run enqueue_task update_run_if_status
    attempt_claim acquire abandon withhold settle heartbeat_lease renew validate_lease complete_task
    fail_task reap reap_run reap_all reap_expired_leases find_one find_many update delete create
engine = tt

abbrev held_task : RuntimeTask
held_task = record waiting_task {
  status = TaskStatus.leased;
  lease_id = some 9;
  worker_id = some 8;
  leased_until = some 130;
  attempt = 1;
  updated_at = 30;
}

abbrev lease : LeaseRecord
lease = record {
  id = 9;
  task_id = 2;
  worker_id = 8;
  token_hash = 51;
  expires_at = 130;
  last_heartbeat_at = 30;
  created_at = 30;
}

abbrev held_store : Db
held_store = record {
  runs = record queued_run { status = RunStatus.running; updated_at = 31 } ∷ [];
  tasks = held_task ∷ [];
  leases = lease ∷ [];
  events = [];
}

created : create_run asked 10 empty ≡ some (record empty { runs = queued_run ∷ [] })
unfolding engine
created = refl

abbrev queued_store : Db
queued_store = record empty { runs = queued_run ∷ []; tasks = waiting_task ∷ [] }

enqueued : enqueue_task work 20 (record empty { runs = queued_run ∷ [] }) ≡ some queued_store
unfolding engine
enqueued = refl

claimed : (attempt_claim plus_one waiting_task worker 9 50 30 31 queued_store).1 ≡ held_store
unfolding engine
claimed = refl

reached : Reach plus_one empty held_store
unfolding engine
reached =
    next (next (next here (creates asked 10 created)) (enqueues work 20 enqueued))
      (claims waiting_task worker 9 50 30 31 refl)

reached_leased_example : IsHeldBy held_store held_task
unfolding engine
reached_leased_example = reached_leased plus_one held_store 2 held_task reached refl refl

held_store-Inv : Inv held_store
unfolding engine
held_store-Inv = record {
  runs = (tt, tt);
  tasks = (tt, tt);
  leases = (tt, tt);
  held = λ i r e s. record {
    lease = lease;
    named = ground (arith, e);
    stored = refl;
    task = ground (arith, e);
    worker = ground (arith, e);
  };
}

claim_refused_example :
    let (taken, db') = attempt_claim plus_one waiting_task worker 11 60 40 41 held_store in
    (taken ≡ none) × (get task_key 2 db'.tasks ≡ some held_task)
unfolding engine
claim_refused_example =
    claim_refused plus_one waiting_task worker 11 60 40 41 held_store held_task held_store-Inv refl
      refl

swept_example :
    (l : LeaseRecord) × (some 9 ≡ some l.id)
    × (get lease_key l.id (reap_expired_leases 100 101 held_store).1.leases ≡ some l)
    × (100 < l.expires_at)
unfolding engine
swept_example = swept 100 101 held_store 2 held_task held_store-Inv refl refl

-- A task of a run that was cancelled.
abbrev cancelled_run : RunRecord
cancelled_run = record queued_run { status = RunStatus.cancelled }

abbrev cancelled_store : Db
cancelled_store = record held_store { runs = cancelled_run ∷ [] }

cancelled_store-Inv : Inv cancelled_store
unfolding engine
cancelled_store-Inv = record {
  runs = (tt, tt);
  tasks = (tt, tt);
  leases = (tt, tt);
  held = λ i r e s. record {
    lease = lease;
    named = ground (arith, e);
    stored = refl;
    task = ground (arith, e);
    worker = ground (arith, e);
  };
}

abbrev stop_late : ControlRunInput
stop_late = record { run_id = 1; intent = stop; requested_by = some 7; reason = none }

-- The control read the run while it was running.
abbrev seen_running : Option RunRecord
seen_running = some (record queued_run { status = RunStatus.running })

abbrev late_store : Db
unfolding engine
late_store =
    (control_run stop_late 300 301 seen_running
      (fail_task plus_one 2 50 71 60 61 cancelled_store).1).1

latched_late :
    get run_key 1 late_store.runs
    ≡ some (record cancelled_run {
      control_requested_at = some 300;
      control_intent = some stop;
      control_requested_by = some 7;
      control_seq = some 1;
      updated_at = 301;
    })
unfolding engine late_store
latched_late = refl

ended_final_example :
    (x : RunRecord) × ((get run_key 1 late_store.runs ≡ some x) × (x ≡ latched_as x cancelled_run))
unfolding engine late_store
ended_final_example =
    ended_final 1 cancelled_run refl plus_one cancelled_store late_store cancelled_store-Inv refl
      (next (next here (fails 2 50 71 60 61)) (controls stop_late 300 301 seen_running))
