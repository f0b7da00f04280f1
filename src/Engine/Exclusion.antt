-- ===== src/Engine/Exclusion.antt =====
-- A claim takes only a task that is still pending.
use busyclaw.Prelude.{
  ◌≡◌, refl, inl, inr, Bool, true, false, Option, none, some, arith, ap, ◌∙◌, leb, Ident, Timestamp,
  Bool-cases,
}
use busyclaw.Storage.Table.{get, cas}
use busyclaw.Storage.Table.Laws.{cas_returns, cas_result, get-cas, cas_row}
use busyclaw.Engine.Schema.{
  RunRecord, RuntimeTask, RunEvent, Db, run_key, task_key, is_pending, is_queued, failed_run,
}
use busyclaw.Engine.Runs.{update_run_if_status}
use busyclaw.Engine.Reap.{max_claims}
use busyclaw.Engine.Claim.{
  ClaimTaskInput, abandon, settle, note_settled, settle_if, withhold, acquire, attempt_claim,
  is_latched, is_due, leased_row, new_lease, is_pending_task,
}
use busyclaw.Engine.Invariant.{Inv}

-- A write that is guarded by a test that the stored task fails changes nothing and answers null.
missed :
    (i : Ident) (guard : RuntimeTask → Bool) (f : RuntimeTask → RuntimeTask) (db : Db)
    (r : RuntimeTask)
    → ((x : RuntimeTask) → (f x).id ≡ x.id)
    → Inv db
    → get task_key i db.tasks ≡ some r
    → guard r ≡ false
    → ((cas task_key i guard f db.tasks).0 ≡ none)
      × (get task_key i (cas task_key i guard f db.tasks).1 ≡ some r)
missed i guard f db r keeps v e bad = (
  cas_returns task_key i guard f db.tasks v.tasks
      ∙ ap (cas_result task_key guard f) e
      ∙ (ground (arith, bad)),
  get-cas task_key i guard f keeps db.tasks v.tasks
      ∙ ap (cas_row task_key guard f) e
      ∙ (ground (arith, bad)),
)

update_run-tasks :
    (id : Ident) (from : _) (patch : RunRecord → RunRecord) (now : Timestamp) (db : Db)
    → (update_run_if_status id from patch now db).1.tasks ≡ db.tasks
unfolding update_run_if_status
update_run-tasks id from patch now db = refl

note_settled-tasks :
    (o : Option RunRecord) (e : RunEvent) (db : Db) → (note_settled o e db).tasks ≡ db.tasks
note_settled-tasks none e db = refl
note_settled-tasks (some r) e db = refl

settle_if-tasks :
    (o : Option RuntimeTask) (held : Bool) (a b : Db)
    → a.tasks ≡ b.tasks
    → (settle_if o held a b).tasks ≡ b.tasks
settle_if-tasks none held a b e = refl
settle_if-tasks (some r) true a b e = refl
settle_if-tasks (some r) false a b e = e

settle-tasks :
    (c : RuntimeTask) (run : Option RunRecord) (ends : Bool) (now : Timestamp) (db : Db)
    → (settle c run ends now db).tasks ≡ db.tasks
unfolding settle update_run_if_status
settle-tasks c run ends now db = note_settled-tasks _ _ _

module _ (hash_text : Ident → Ident) where
  -- Whoever read a task while it was pending and tries to claim it after somebody else claimed,
  -- finished or retired it gets nothing, and leaves the task as it is: whatever its earlier copy of the
  -- row says, whether the attempt would abandon, withhold or acquire.
  pub claim_refused :
      (c : RuntimeTask) (input : ClaimTaskInput) (lease_id token : Ident) (ts now : Timestamp)
      (db : Db) (r : RuntimeTask)
      → Inv db
      → get task_key c.id db.tasks ≡ some r
      → is_pending r.status ≡ false
      → let (taken, db') = attempt_claim hash_text c input lease_id token ts now db in
        (taken ≡ none) × (get task_key c.id db'.tasks ≡ some r)
  unfolding attempt_claim acquire abandon withhold
  claim_refused c input lease_id token ts now db r v e busy =
      elim (Bool-cases (leb max_claims c.attempt)) [
        | inl old ↦ rw old (
          refl,
          (ap (get task_key c.id) (update_run-tasks c.run_id is_queued failed_run now _))
              ∙ (missed c.id is_pending_task _ db r (λ r. refl) v e busy).1,
        )
        | inr fit ↦ elim (Bool-cases (is_latched (get run_key c.run_id db.runs))) [
          | inl latched ↦
              rw (fit, latched)
                (
                  refl,
                  ap (get task_key c.id) (settle_if-tasks _ _ _ _ (settle-tasks c _ _ now _))
                      ∙ (missed c.id is_pending_task _ db r (λ r. refl) v e busy).1,
                )
          | inr free ↦
              rw (fit, free)
                (let lease = new_lease hash_text c input lease_id token ts in
                  let (lost, same) =
                    missed c.id (is_due ts)
                      (leased_row c lease_id input.worker_id lease.expires_at ts) db r (λ r. refl) v
                      e (ground (arith, busy)) in
                  rw lost (refl, same))
        ]
      ]
