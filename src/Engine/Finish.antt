-- ===== src/Engine/Finish.antt =====
-- Finishing a task: the holder of the lease can, and nobody else.
use busyclaw.Prelude.{
  ◌≡◌, refl, ◌<◌, ◌≤◌, ◌+◌, inl, inr, ◌⊎◌, true, Option, none, some, arith, leb, Ident, Timestamp,
  Bool-cases, Option-cases,
}
use busyclaw.Storage.Table.{get, cas}
use busyclaw.Storage.Table.Laws.{get-delete, cas_won, cas_hit}
use busyclaw.Engine.Schema.{
  RuntimeTask, leased, pending, dead, LeaseRecord, Db, task_key, lease_key, is_held,
}
use busyclaw.Engine.Lease.{
  validate_lease, complete_task, close, completed_row, fail_task, failed_row, next_error,
}
use busyclaw.Engine.Invariant.{Inv}
use busyclaw.Engine.Invariant.Hold.{validate_lease_sound}

module _ (hash_text : Ident → Ident) where
  -- A worker's hold on a task: the task is leased under the lease, whose row is stored, has not expired
  -- and carries the hash of the worker's token.
  pub record IsHolder (task_id token : Ident) (now : Timestamp) (db : Db) : Type 0 where
    pub task : RuntimeTask
    pub lease : LeaseRecord
    pub stored : get task_key task_id db.tasks ≡ some task
    pub status : task.status ≡ leased
    pub named : task.lease_id ≡ some lease.id
    pub lease_stored : get lease_key lease.id db.leases ≡ some lease
    pub owns : lease.task_id ≡ task.id
    pub unexpired : now < lease.expires_at
    pub token_hash : lease.token_hash ≡ hash_text token

  holder_valid :
      (task_id token : Ident) (now : Timestamp) (db : Db) (h : IsHolder task_id token now db)
      → validate_lease hash_text h.task token now db ≡ some h.lease
  unfolding validate_lease
  holder_valid task_id token now db h =
      ground (arith, h.named, h.lease_stored, h.owns, h.unexpired, h.token_hash)

  -- The holder of an unexpired lease completes its task: the task is stored as completed with the
  -- output given, or the one it had, and the lease is gone.
  complete_task_held :
      (task_id token : Ident) (output : Option Ident) (now ts : Timestamp) (db : Db)
      (h : IsHolder task_id token now db)
      → Inv db
      → let (done, db') = complete_task hash_text task_id token output now ts db in
        (done ≡ some (completed_row output ts h.task))
        × (get task_key task_id db'.tasks ≡ some (completed_row output ts h.task))
        × (get lease_key h.lease.id db'.leases ≡ none)
  unfolding complete_task
  complete_task_held task_id token output now ts db h v =
      let p = holder_valid task_id token now db h in
      let hit : is_held h.lease.id h.task ≡ true = ground (arith, h.status, h.named) in
      let (won, kept) =
        cas_hit task_key task_id (is_held h.lease.id) (completed_row output ts) (λ r. refl) db.tasks
          h.task v.tasks h.stored hit in
      rw (h.stored, complete_task, p, won)
        (refl, kept, get-delete lease_key h.lease.id db.leases v.leases)

  -- A completion that answers with a task came from the holder of an unexpired lease on it.
  complete_task_sound :
      (task_id token : Ident) (output : Option Ident) (now ts : Timestamp) (db : Db)
      (done : RuntimeTask)
      → Inv db
      → (complete_task hash_text task_id token output now ts db).0 ≡ some done
      → IsHolder task_id token now db
  unfolding complete_task
  complete_task_sound task_id token output now ts db done v e =
      elim (Option-cases (get task_key task_id db.tasks)) [
        | inl absent ↦ absurd (ground (arith, absent, e))
        | inr (task, there) ↦ elim (Option-cases (validate_lease hash_text task token now db)) [
          | inl bad ↦ absurd (cc (rw (there, complete_task, bad) at e))
          | inr (lease, ok) ↦
              held task there lease ok
                (close_won _ lease.id _ done (rw (there, complete_task, ok) at e))
        ]
      ]
    where
      close_won :
          (o : Option RuntimeTask) (id : Ident) (x : Db) (d : RuntimeTask)
          → (close o id x).0 ≡ some d
          → o ≡ some d
      close_won none id x d p = p
      close_won (some r) id x d p = p

      held :
          (task : RuntimeTask)
          → get task_key task_id db.tasks ≡ some task
          → (lease : LeaseRecord) → validate_lease hash_text task token now db ≡ some lease
          → (cas task_key task_id (is_held lease.id) (completed_row output ts) db.tasks).0
            ≡ some done
          → IsHolder task_id token now db
      held task there lease ok p =
          let valid = validate_lease_sound hash_text task token now db lease ok in
          let (r, found, guard, _, _) =
            cas_won task_key task_id (is_held lease.id) (completed_row output ts) (λ r. refl)
              db.tasks done v.tasks p in
          let same : r ≡ task = ground (arith, found, there) in
          record {
            task = task;
            lease = lease;
            stored = there;
            status = ground (arith, same, guard);
            named = valid.named;
            lease_stored = valid.stored;
            owns = valid.owns;
            unexpired = ground (arith, valid.live);
            token_hash = valid.token_hash;
          }

  -- A failure that the holder of an unexpired lease reports is counted apart from the claims, which it
  -- leaves as they were. Below the task's limit of failures the task is pending again and due after its
  -- retry delay; at the limit it is dead. It is leased no longer, and the lease is gone.
  fail_task_held :
      (task_id token why : Ident) (now ts : Timestamp) (db : Db) (h : IsHolder task_id token now db)
      → Inv db
      → (r : RuntimeTask) × ((fail_task hash_text task_id token why now ts db).0 ≡ some r)
        × (get task_key task_id (fail_task hash_text task_id token why now ts db).1.tasks ≡ some r)
        × (get lease_key h.lease.id (fail_task hash_text task_id token why now ts db).1.leases
            ≡ none)
        × (r.error_attempt ≡ some (next_error h.task))
        × (r.attempt ≡ h.task.attempt)
        × (r.lease_id ≡ none)
        × (((next_error h.task < h.task.max_attempts)
              × (r.status ≡ pending)
              × (r.due_at ≡ ts + h.task.retry_delay_ms))
            ⊎ ((h.task.max_attempts ≤ next_error h.task) × (r.status ≡ dead)))
  unfolding fail_task
  fail_task_held task_id token why now ts db h v =
      let p = holder_valid task_id token now db h in
      let hit : is_held h.lease.id h.task ≡ true = ground (arith, h.status, h.named) in
      let (won, kept) =
        cas_hit task_key task_id (is_held h.lease.id) (failed_row h.task why ts) (λ r. ground arith)
          db.tasks h.task v.tasks h.stored hit in
      rw (h.stored, fail_task, p, won)
        (
          failed_row h.task why ts h.task,
          refl,
          kept,
          get-delete lease_key h.lease.id db.leases v.leases,
          ground arith,
          ground arith,
          ground arith,
          verdict,
        )
    where
      verdict :
          ((next_error h.task < h.task.max_attempts)
            × ((failed_row h.task why ts h.task).status ≡ pending)
            × ((failed_row h.task why ts h.task).due_at ≡ ts + h.task.retry_delay_ms))
          ⊎ ((h.task.max_attempts ≤ next_error h.task)
              × ((failed_row h.task why ts h.task).status ≡ dead))
      verdict = elim (Bool-cases (leb h.task.max_attempts (next_error h.task))) [
        | inl end ↦ inr (ground (arith, end), rw end)
        | inr more ↦ inl (ground (arith, more), rw more, rw more)
      ]
