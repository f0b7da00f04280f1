-- ===== src/Engine/Ended.antt =====
-- A run that has ended stays as it ended: packages/engines/sql/src/store.ts and `controlRun` of
-- packages/engines/sql/src/engine.ts.
use busyclaw.Prelude.{
  ℕ, ◌≡◌, refl, inl, inr, Bool, true, false, ◌||◌, not, Option, none, some, List, [], ◌∷◌, arith,
  ap, sym, subst, ◌∙◌, leb, ◌==◌, Ident, Timestamp, Bool-cases, Option-cases,
}
use busyclaw.Storage.Table
use busyclaw.Storage.Table.{get, cas, find_many}
use busyclaw.Storage.Table.Laws.{
  cas-Unique, get-cas_at, map_row, get-create, create-Unique, create_used,
}
use busyclaw.Engine.Schema.{
  RunStatus, RunRecord, RuntimeTask, RunEvent, LeaseRecord, Db, run_key, task_key, lease_key,
  is_live, is_queued, is_parked, failed_run,
}
use busyclaw.Engine.Runs.{
  update_run_if_status, create_run, enqueue_task, new_run, new_task, CreateRunInput,
  EnqueueTaskInput,
}
use busyclaw.Engine.Reap.{max_claims, reap, retire, reap_run, reap_all, reap_expired_leases}
use busyclaw.Engine.Lease.{
  heartbeat_lease, beat, complete_task, close, fail_task, validate_lease, renew,
}
use busyclaw.Engine.Claim.{
  ClaimTaskInput, ClaimedTask, abandon, settle, note_settled, settle_if, withhold, acquire,
  attempt_claim, is_latched, start, take_on, running_run, settled_run,
}
use busyclaw.Engine.Control.Laws.{latched_as, Keeps, latched_ended, control_run-Keeps}
use busyclaw.Engine.Invariant.{Inv}
use busyclaw.Engine.Invariant.Reach.{
  Step, creates, enqueues, claims, beats, completes, fails, sweeps, controls, Reach, here, next,
}

module _ (i : Ident) (r : RunRecord) (ended : is_live r.status ≡ false) where
  abbrev Kept : Db → Type 0
  Kept db = Keeps i r ended db

  -- A status write from live statuses only leaves an ended run alone.
  update_run-Keeps :
      (id : Ident) (from : RunStatus → Bool) (patch : RunRecord → RunRecord) (now : Timestamp)
      (db : Db)
      → ((s : RunStatus) → is_live s ≡ false → from s ≡ false)
      → ((x : RunRecord) → (patch x).id ≡ x.id)
      → Kept db
      → Kept (update_run_if_status id from patch now db).1
  unfolding update_run_if_status
  update_run-Keeps id from patch now db narrow keeps (u, (x, (e, same))) =
      let done = narrow x.status (latched_ended i r ended x same) in
      (
        cas-Unique run_key id (λ r. from r.status) (λ r. record (patch r) { updated_at = now })
            keeps db.runs u,
        (
          x,
          (
            get-cas_at run_key id (λ r. from r.status) (λ r. record (patch r) { updated_at = now })
                  keeps i db.runs u
                ∙ ap (map_row run_key _) e
                ∙ (ground (arith, done)),
            same,
          ),
        ),
      )

  queued_live : (s : RunStatus) → is_live s ≡ false → is_queued s ≡ false
  queued_live s e = ground arith

  parked_live : (s : RunStatus) → is_live s ≡ false → is_parked s ≡ false
  parked_live s e = ground arith

  note_settled-Keeps :
      (o : Option RunRecord) (e : RunEvent) (db : Db) → Kept db → Kept (note_settled o e db)
  note_settled-Keeps none e db v = v
  note_settled-Keeps (some x) e db v = v

  settle_if-Keeps :
      (o : Option RuntimeTask) (held : Bool) (a b : Db)
      → Kept a
      → Kept b
      → Kept (settle_if o held a b)
  settle_if-Keeps none held a b v w = w
  settle_if-Keeps (some x) true a b v w = w
  settle_if-Keeps (some x) false a b v w = v

  settle-Keeps :
      (c : RuntimeTask) (run : Option RunRecord) (ends : Bool) (now : Timestamp) (db : Db)
      → Kept db
      → Kept (settle c run ends now db)
  unfolding settle
  settle-Keeps c run ends now db v =
      note_settled-Keeps _ _ _
        (update_run-Keeps c.run_id is_parked (settled_run ends) now db parked_live (λ r. refl) v)

  start-Keeps :
      (o : Option RunRecord) (c : ClaimedTask) (ts : Timestamp) (db : Db)
      → Kept db
      → Kept (start o c ts db).1
  start-Keeps none c ts db v = v
  start-Keeps (some x) c ts db v = v

  take_on-Keeps :
      (o : Option RuntimeTask) (l : LeaseRecord) (token : Ident) (ts now : Timestamp) (db : Db)
      → Kept db
      → Kept (take_on o l token ts now db).1
  take_on-Keeps none l token ts now db v = v
  take_on-Keeps (some t) l token ts now db v =
      start-Keeps _ _ ts _
        (update_run-Keeps t.run_id is_live running_run now db (λ s e. e) (λ r. refl) v)

  reap_run-Keeps :
      (o : Option (Bool × Ident)) (now : Timestamp) (db : Db) → Kept db → Kept (reap_run o now db)
  unfolding reap_run
  reap_run-Keeps none now db v = v
  reap_run-Keeps (some (false, id)) now db v = v
  reap_run-Keeps (some (true, id)) now db v =
      update_run-Keeps id is_live failed_run now db (λ s e. e) (λ r. refl) v

  retire-Keeps :
      (o : Option RuntimeTask) (l : LeaseRecord) (t : RuntimeTask) (a b : Db)
      → Kept a
      → Kept b
      → Kept (retire o l t a b).1
  retire-Keeps none l t a b v w = v
  retire-Keeps (some x) l t a b v w = w

  reap-Keeps : (l : LeaseRecord) (ts : Timestamp) (db : Db) → Kept db → Kept (reap l ts db).1
  unfolding reap
  reap-Keeps l ts db v = elim (Option-cases (get task_key l.task_id db.tasks)) [
    | inl gone ↦ rw (gone, reap) v
    | inr (task, there) ↦ rw (there, reap) (retire-Keeps _ l task db _ v v)
  ]

  reap_all-Keeps :
      (ls : List LeaseRecord) (ts now : Timestamp) (db : Db)
      → Kept db
      → Kept (reap_all ts now ls db).1
  unfolding reap_all
  reap_all-Keeps [] ts now db v = v
  reap_all-Keeps (l ∷ ls) ts now db v =
      reap_all-Keeps ls ts now _ (reap_run-Keeps _ now _ (reap-Keeps l ts db v))

  beat-Keeps :
      (o : Option LeaseRecord) (h : Option RuntimeTask) (id : Ident) (ts : List RuntimeTask)
      (db : Db)
      → Kept db
      → Kept (beat o h id ts db).1
  beat-Keeps none h id ts db v = v
  beat-Keeps (some l) none id ts db v = v
  beat-Keeps (some l) (some t) id ts db v = v

  close-Keeps : (o : Option RuntimeTask) (id : Ident) (db : Db) → Kept db → Kept (close o id db).1
  close-Keeps none id db v = v
  close-Keeps (some t) id db v = v

  module _ (hash_text : Ident → Ident) where
    attempt_claim-Keeps :
        (c : RuntimeTask) (input : ClaimTaskInput) (lease_id token : Ident) (ts now : Timestamp)
        (db : Db)
        → Kept db
        → Kept (attempt_claim hash_text c input lease_id token ts now db).1
    unfolding attempt_claim acquire abandon withhold
    attempt_claim-Keeps c input lease_id token ts now db v =
        elim (Bool-cases (leb max_claims c.attempt)) [
          | inl old ↦
              rw old
                (update_run-Keeps c.run_id is_queued failed_run now _ queued_live (λ r. refl) v)
          | inr fit ↦ elim (Bool-cases (is_latched (get run_key c.run_id db.runs))) [
            | inl latched ↦
                rw (fit, latched) (settle_if-Keeps _ _ _ _ (settle-Keeps c _ _ now _ v) v)
            | inr free ↦ rw (fit, free) (take_on-Keeps _ _ token ts now _ v)
          ]
        ]

    heartbeat_lease-Keeps :
        (lease_id token : Ident) (ttl : Option ℕ) (now ts : Timestamp) (db : Db)
        → Kept db
        → Kept (heartbeat_lease hash_text lease_id token ttl now ts db).1
    unfolding heartbeat_lease renew
    heartbeat_lease-Keeps lease_id token ttl now ts db v =
        elim (Option-cases (get lease_key lease_id db.leases)) [
          | inl absent ↦ rw (absent, heartbeat_lease) v
          | inr (lease, there) ↦
              elim (Bool-cases
                (leb lease.expires_at now || not (lease.token_hash == hash_text token))) [
                  | inl bad ↦ rw (there, heartbeat_lease, bad) v
                  | inr good ↦ rw (there, heartbeat_lease, good) (beat-Keeps _ _ lease_id _ _ v)
                ]
        ]

    complete_task-Keeps :
        (task_id token : Ident) (output : Option Ident) (now ts : Timestamp) (db : Db)
        → Kept db
        → Kept (complete_task hash_text task_id token output now ts db).1
    unfolding complete_task
    complete_task-Keeps task_id token output now ts db v =
        elim (Option-cases (get task_key task_id db.tasks)) [
          | inl absent ↦ rw (absent, complete_task) v
          | inr (task, there) ↦ elim (Option-cases (validate_lease hash_text task token now db)) [
            | inl bad ↦ rw (there, complete_task, bad) v
            | inr (lease, ok) ↦ rw (there, complete_task, ok) (close-Keeps _ lease.id _ v)
          ]
        ]

    fail_task-Keeps :
        (task_id token why : Ident) (now ts : Timestamp) (db : Db)
        → Kept db
        → Kept (fail_task hash_text task_id token why now ts db).1
    unfolding fail_task
    fail_task-Keeps task_id token why now ts db v =
        elim (Option-cases (get task_key task_id db.tasks)) [
          | inl absent ↦ rw (absent, fail_task) v
          | inr (task, there) ↦ elim (Option-cases (validate_lease hash_text task token now db)) [
            | inl bad ↦ rw (there, fail_task, bad) v
            | inr (lease, ok) ↦ rw (there, fail_task, ok) v
          ]
        ]

    creates-Keeps :
        (input : CreateRunInput) (ts : Timestamp) (db db' : Db)
        → create_run input ts db ≡ some db'
        → Kept db
        → Kept db'
    unfolding create_run
    creates-Keeps input ts db db' e (u, (x, (f, like))) =
        elim (Option-cases (Table.create run_key (new_run input ts) db.runs)) [
          | inl clash ↦ absurd (ground (arith, clash, e))
          | inr (runs, made) ↦
              let same : db' ≡ record db { runs = runs } = ground (arith, e, made) in
              rw same (
                create-Unique run_key (new_run input ts) db.runs runs made u,
                (x, (created runs made, like)),
              )
        ]
      where
        created :
            (runs : List RunRecord)
            → Table.create run_key (new_run input ts) db.runs ≡ some runs
            → get run_key i runs ≡ some x
        created runs made = ground (
          arith,
          made,
          get-create run_key i (new_run input ts) db.runs runs made,
          f,
          λ (q : input.id ≡ i).
              create_used run_key (new_run input ts) x db.runs
                (subst (λ k. get run_key k db.runs ≡ some x) (sym q) f),
        )

    enqueues-Keeps :
        (input : EnqueueTaskInput) (ts : Timestamp) (db db' : Db)
        → enqueue_task input ts db ≡ some db'
        → Kept db
        → Kept db'
    unfolding enqueue_task
    enqueues-Keeps input ts db db' e v =
        elim (Option-cases (Table.create task_key (new_task input ts) db.tasks)) [
          | inl clash ↦ absurd (ground (arith, clash, e))
          | inr (tasks, made) ↦
              let same : db' ≡ record db { tasks = tasks } = ground (arith, e, made) in rw same v
        ]

    sweeps-Keeps : (ts now : Timestamp) (db : Db) → Kept db → Kept (reap_expired_leases ts now db).1
    unfolding reap_expired_leases
    sweeps-Keeps ts now db v =
        reap_all-Keeps (find_many (λ l. leb l.expires_at ts) db.leases) ts now db v

    Step-Keeps : {a b : Db} → Step hash_text a b → Kept a → Kept b
    Step-Keeps {a} {b} (creates input ts e) v = creates-Keeps input ts a b e v
    Step-Keeps {a} {b} (enqueues input ts e) v = enqueues-Keeps input ts a b e v
    Step-Keeps {a} (claims c input lease_id token ts now new) v =
        attempt_claim-Keeps c input lease_id token ts now a v
    Step-Keeps {a} (beats lease_id token ttl now ts) v =
        heartbeat_lease-Keeps lease_id token ttl now ts a v
    Step-Keeps {a} (completes task_id token output now ts) v =
        complete_task-Keeps task_id token output now ts a v
    Step-Keeps {a} (fails task_id token why now ts) v = fail_task-Keeps task_id token why now ts a v
    Step-Keeps {a} (sweeps ts now) v = sweeps-Keeps ts now a v
    Step-Keeps {a} (controls input ts now seen) v =
        control_run-Keeps i r ended input ts now seen a v

    Reach-Keeps : {a b : Db} → Reach hash_text a b → Kept a → Kept b
    Reach-Keeps here v = v
    Reach-Keeps (next r s) v = Step-Keeps s (Reach-Keeps r v)

    -- A run that has ended (completed, failed or cancelled) stays as it ended: after any creations,
    -- enqueues, claims, heartbeats, completions, failures, sweeps and controls, where a control may have read
    -- the run while it was live, its row is the same but for its time of update and the latch (when, what,
    -- by whom, why, and the counter of controls). The store starts with distinct keys and with a lease for
    -- every leased task.
    pub ended_final :
        (db db' : Db)
        → Inv db
        → get run_key i db.runs ≡ some r
        → Reach hash_text db db'
        → (x : RunRecord) × ((get run_key i db'.runs ≡ some x) × (x ≡ latched_as x r))
    ended_final db db' v e reach = (Reach-Keeps reach (v.runs, (r, (e, refl)))).1
