-- ===== src/Engine/Invariant/Claim.antt =====
-- Claims strand no task.
use busyclaw.Prelude.{
  ◌≡◌, refl, ◌≢◌, inl, inr, Bool, true, false, Option, none, some, List, arith, ap, ◌∙◌, subst, leb,
  Ident, Timestamp, Bool-cases,
}
use busyclaw.Storage.Table.{get, cas, insert}
use busyclaw.Storage.Table.Laws.{cas-Unique, get-cas_inv, cas_won, get-insert, get_key, cas_lost}
use busyclaw.Engine.Schema.{
  failed_run, drop_lease, RunStatus, RunRecord, RuntimeTask, TaskStatus, leased, LeaseRecord, Db,
  run_key, task_key, lease_key, is_live, is_queued, is_parked, RunEvent, abandoned,
  run_ended_before_claim,
}
use busyclaw.Engine.Runs.{update_run_if_status}
use busyclaw.Engine.Reap.{max_claims}
use busyclaw.Engine.Claim.{
  ClaimTaskInput, abandon, settle, withhold, acquire, attempt_claim, is_latched, settled_run,
  is_due, leased_row, unleased, new_lease, running_run, retired, is_pending_task, note_settled,
  settle_if, withheld_error, start, take_on,
}
use busyclaw.Engine.Invariant.{Inv, Inv-runs, Inv-tasks, Inv-drop, Inv-insert}
use busyclaw.Engine.Invariant.Release.{release-Inv}

pub update_run-Inv :
    (id : Ident) (from : RunStatus → Bool) (patch : RunRecord → RunRecord) (now : Timestamp)
    (db : Db)
    → ((r : RunRecord) → (patch r).id ≡ r.id)
    → Inv db
    → Inv (update_run_if_status id from patch now db).1
unfolding update_run_if_status
update_run-Inv id from patch now db keeps v =
    Inv-runs db _ db.events
      (cas-Unique run_key id (λ r. from r.status) (λ r. record (patch r) { updated_at = now }) keeps
        db.runs v.runs)
      v

abandon-Inv : (c : RuntimeTask) (ts now : Timestamp) (db : Db) → Inv db → Inv (abandon c ts now db)
unfolding abandon
abandon-Inv c ts now db v =
    update_run-Inv c.run_id is_queued failed_run now _ (λ r. refl)
      (Inv-tasks db c.id is_pending_task (retired abandoned ts) (λ r. refl) (λ r g. inl (λ e. cc))
        v)

note_settled-Inv :
    (o : Option RunRecord) (e : RunEvent) (db : Db) → Inv db → Inv (note_settled o e db)
note_settled-Inv none e db v = v
note_settled-Inv (some r) e db v = Inv-runs db db.runs _ v.runs v

settle-Inv :
    (c : RuntimeTask) (run : Option RunRecord) (ends : Bool) (now : Timestamp) (db : Db)
    → Inv db
    → Inv (settle c run ends now db)
unfolding settle
settle-Inv c run ends now db v =
    note_settled-Inv _ _ _
      (update_run-Inv c.run_id is_parked (settled_run ends) now db (λ r. refl) v)

settle_if-Inv :
    (o : Option RuntimeTask) (held : Bool) (a b : Db) → Inv a → Inv b → Inv (settle_if o held a b)
settle_if-Inv none held a b v w = w
settle_if-Inv (some r) true a b v w = w
settle_if-Inv (some r) false a b v w = v

withhold-Inv :
    (c : RuntimeTask) (run : Option RunRecord) (ends : Bool) (ts now : Timestamp) (db : Db)
    → Inv db
    → Inv (withhold c run ends ts now db)
unfolding withhold
withhold-Inv c run ends ts now db v =
    let v' =
      Inv-tasks db c.id is_pending_task (retired (withheld_error ends) ts) (λ r. refl)
        (λ r g. inl (λ e. cc)) v in
    settle_if-Inv _ _ _ _ (settle-Inv c run ends now _ v') v'

module _ (hash_text : Ident → Ident) where
  module _ (c : RuntimeTask) (lease : LeaseRecord) (ts now : Timestamp) (db : Db) (v : Inv db)
      (new : get lease_key lease.id db.leases ≡ none) (owns : lease.task_id ≡ c.id) where
    abbrev patch : RuntimeTask → RuntimeTask
    patch = leased_row c lease.id lease.worker_id lease.expires_at ts

    abbrev taken : Db
    taken = record db {
      leases = insert lease db.leases;
      tasks = (cas task_key c.id (is_due ts) patch db.tasks).1;
    }

    inserted : get lease_key lease.id (insert lease db.leases) ≡ some lease
    inserted = get-insert lease_key lease.id lease db.leases new ∙ (ground arith)

    -- Whether or not the task was due, every leased task has its lease afterwards.
    taken-Inv : Inv taken
    taken-Inv =
        let w = Inv-insert db lease new v in
        record {
          runs = v.runs;
          tasks = cas-Unique task_key c.id (is_due ts) patch (λ r. refl) db.tasks v.tasks;
          leases = w.leases;
          held = λ j r' e s.
              let (r, there, how) =
                get-cas_inv task_key c.id (is_due ts) patch (λ r. refl) j db.tasks r' v.tasks e in
              elim how [
                | inl (mine, _, same) ↦ record {
                  lease = lease;
                  named = ground (arith, same);
                  stored = inserted;
                  task = ground (arith, same, mine, owns);
                  worker = ground (arith, same);
                }
                | inr same ↦
                    let h = w.held j r there (cc (ap (λ (x : RuntimeTask). x.status) same)) in
                    record {
                      lease = h.lease;
                      named = ground (arith, same, h.named);
                      stored = h.stored;
                      task = ground (arith, same, h.task);
                      worker = ground (arith, same, h.worker);
                    }
              ];
        }

    -- No task names the fresh lease before it is taken.
    unnamed :
        (j : Ident) (r : RuntimeTask)
        → get task_key j db.tasks ≡ some r
        → r.status ≡ leased
        → r.lease_id ≢ some lease.id
    unnamed j r e s q =
        let h = v.held j r e s in
        let same : h.lease.id ≡ lease.id = ground (arith, h.named, q) in
        cc (new, subst (λ k. get lease_key k db.leases ≡ some h.lease) same h.stored)

    -- The unwind when the task was not due.
    untaken-Inv :
        (cas task_key c.id (is_due ts) patch db.tasks).0 ≡ none → Inv (drop_lease lease.id taken)
    untaken-Inv lost =
        Inv-drop taken lease.id
          (λ j r e s.
            unnamed j r
              (subst (λ (t : List RuntimeTask). get task_key j t ≡ some r)
                (cas_lost task_key c.id (is_due ts) patch db.tasks lost) e)
              s)
          taken-Inv

    -- The unwind when the run has ended.
    ended-Inv :
        (task : RuntimeTask)
        → task.id ≡ c.id
        → (r : Option RunRecord) (db' : Db) → db'.tasks ≡ taken.tasks
        → db'.leases ≡ taken.leases
        → Inv db'
        → (token : Ident) (at : Timestamp)
        → Inv
            (start r
              (record { task = task; lease_id = lease.id; lease_token = token; expires_at = at })
              ts
              db').1
    ended-Inv task mine (some r) db' p q w token at = w
    ended-Inv task mine none db' p q w token at =
        release-Inv db' lease.id task.id (unleased TaskStatus.dead run_ended_before_claim ts)
          (λ r. refl) (λ r e. cc)
          (λ l e. ground (arith, e, ap (get lease_key lease.id) q, inserted, mine, owns)) w

    take_on-Inv :
        (o : Option RuntimeTask)
        → (cas task_key c.id (is_due ts) patch db.tasks).0 ≡ o
        → (token : Ident) → Inv (take_on o lease token ts now taken).1
    unfolding update_run_if_status
    take_on-Inv none lost token = untaken-Inv lost
    take_on-Inv (some task) won token =
        let (r, there, _, same, _) =
          cas_won task_key c.id (is_due ts) patch (λ r. refl) db.tasks task v.tasks won in
        ended-Inv task (ground (arith, same, get_key task_key c.id db.tasks r there)) _ _ refl refl
          (update_run-Inv task.run_id is_live running_run now taken (λ r. refl) taken-Inv) token
          lease.expires_at

  -- A claim of any row, read at any earlier time, keeps the invariant: keys stay distinct, and every
  -- leased task has a lease row that names it and its worker. The new lease's id is fresh.
  pub attempt_claim-Inv :
      (c : RuntimeTask) (input : ClaimTaskInput) (lease_id token : Ident) (ts now : Timestamp)
      (db : Db)
      → Inv db
      → get lease_key lease_id db.leases ≡ none
      → Inv (attempt_claim hash_text c input lease_id token ts now db).1
  unfolding attempt_claim acquire
  attempt_claim-Inv c input lease_id token ts now db v new =
      elim (Bool-cases (leb max_claims c.attempt)) [
        | inl old ↦ rw old (abandon-Inv c ts now db v)
        | inr fit ↦ elim (Bool-cases (is_latched (get run_key c.run_id db.runs))) [
          | inl latched ↦ rw (fit, latched) (withhold-Inv c _ _ ts now db v)
          | inr free ↦
              rw (fit, free)
                (take_on-Inv c (new_lease hash_text c input lease_id token ts) ts now db v new refl
                  _ refl token)
        ]
      ]
