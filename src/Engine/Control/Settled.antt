-- ===== src/Engine/Control/Settled.antt =====
-- A run that nobody drives is settled by its control: packages/engines/sql/src/engine.ts, `controlRun`.
use busyclaw.Prelude.{
  ◌≡◌, refl, inl, inr, Bool, true, false, ◌&&◌, Option, none, some, List, [], ◌∷◌, arith, ap, sym,
  subst, ◌∙◌, ◌==◌, if◌then◌else◌, any, filter, Ident, Timestamp, Bool-cases,
}
use busyclaw.Storage.Table.{get, find_one, cas, find_many}
use busyclaw.Storage.Table.Laws.{
  Unique, cas-Unique, cas_hit, get-cas_inv, get-cas_at, map_row, get_key,
}
use busyclaw.Engine.Schema.{
  suspended, RunStatus, RunRecord, RuntimeTask, TaskError, Db, run_key, task_key, is_live,
  is_parked, is_pending, run_cancelled, run_suspended, cancelled_before_claim,
  suspended_before_claim,
}
use busyclaw.Engine.Runs.{update_run_if_status}
use busyclaw.Engine.Claim.{settled_run}
use busyclaw.Engine.Invariant.{Inv}
use busyclaw.Engine.Control.{
  ControlRunInput, Control, accepted, is_refused, is_stop, dead_row, dead_letter_all,
  dead_letter_pending_tasks, latch, next_seq, append_event, event_of, settled_or, settle_run,
  control_run,
}
use busyclaw.Engine.Control.Laws.{dead_letter_all-Inv, dead_letter_all_runs, latch_id}

-- A task that is still pending after the rows were retired is none of them, and was there.
still_pending :
    (rows : List RuntimeTask) (why : TaskError) (ts : Timestamp) (db : Db)
    → Unique task_key db.tasks
    → (i : Ident) (t : RuntimeTask)
    → get task_key i (dead_letter_all rows why ts db).1.tasks ≡ some t
    → is_pending t.status ≡ true
    → (get task_key i db.tasks ≡ some t) × (any (λ r. r.id == i) rows ≡ false)
unfolding dead_letter_all
still_pending [] why ts db u i t e p = (e, refl)
still_pending (r ∷ rows) why ts db u i t e p =
    let guard : RuntimeTask → Bool = λ x. is_pending x.status in
    let f = dead_row why ts in
    let w = cas-Unique task_key r.id guard f (λ x. refl) db.tasks u in
    let (there, out) =
      still_pending rows why ts (record db { tasks = (cas task_key r.id guard f db.tasks).1 }) w i t
        e p in
    let (old, was, how) = get-cas_inv task_key r.id guard f (λ x. refl) i db.tasks t u there in
    elim how [
      | inl (_, _, same) ↦ absurd (cc (ap (λ (x : RuntimeTask). is_pending x.status) same, p))
      | inr same ↦
          let at =
            get-cas_at task_key r.id guard f (λ x. refl) i db.tasks u
            ∙ ap (map_row task_key _) was in
          let key = get_key task_key i db.tasks old was in
          let apart : (r.id == i) ≡ false = elim (Bool-cases (r.id == i)) [
            | inr miss ↦ miss
            | inl hit ↦
                let pending : is_pending old.status ≡ true =
                  ap (λ (x : RuntimeTask). is_pending x.status) (sym same) ∙ p in
                let dead : t ≡ f old = ground (arith, at, there, key, hit, pending) in
                absurd (cc (ap (λ (x : RuntimeTask). is_pending x.status) dead, p))
          ] in
          (was ∙ ap some (sym same), ground (arith, apart, out))
    ]

-- A pending task of the run is among the rows.
pending_found :
    (p : RuntimeTask → Bool) (i : Ident) (tasks : List RuntimeTask) (t : RuntimeTask)
    → get task_key i tasks ≡ some t
    → p t ≡ true
    → any (λ r. r.id == i) (filter p tasks) ≡ true
unfolding find_one
pending_found p i [] t e h = absurd (cc e)
pending_found p i (r ∷ tasks) t e h = ground (arith, e, h, pending_found p i tasks t)

-- What a settled control leaves of its run.
pub record IsSettled (input : ControlRunInput) (run : RunRecord) (db : Db) : Type 0 where
  pub row : RunRecord
  pub stored : get run_key input.run_id db.runs ≡ some row
  pub status :
      row.status ≡ (if is_stop input.intent then RunStatus.cancelled else RunStatus.waiting)
  pub wait_reason : row.wait_reason ≡ (if is_stop input.intent then none else some suspended)
  pub unlatched : row.control_requested_at ≡ none
  pub no_intent : row.control_intent ≡ none
  pub no_requester : row.control_requested_by ≡ none
  pub no_reason : row.control_reason ≡ none
  pub counted : row.control_seq ≡ next_seq run.control_seq
  pub withheld :
      (i : Ident) (t : RuntimeTask)
      → get task_key i db.tasks ≡ some t
      → t.run_id ≡ input.run_id
      → is_pending t.status ≡ false

settled_or-some :
    (o : Option RunRecord) (r : RunRecord) (a b : Control × Db) → o ≡ some r → settled_or o a b ≡ a
settled_or-some none r a b e = absurd (cc e)
settled_or-some (some x) r a b e = refl

latch_seq :
    (input : ControlRunInput) (ts : Timestamp) (run : RunRecord)
    → (latch input ts run run).control_seq ≡ next_seq run.control_seq
latch_seq input ts run = ground arith

-- A control of a run that is queued or waiting, whose latch it may raise, is accepted and settled in the
-- call: the run is cancelled by a stop or an abort and waits, suspended, after a suspend, all four columns of
-- its latch (when, what, by whom, why) are clear, its control counter has moved on, and none of its tasks is
-- left pending.
-- The store has distinct keys and a lease for every leased task, and the run is as the call read it.
pub control_run_settles :
    (input : ControlRunInput) (ts now : Timestamp) (db : Db) (run : RunRecord)
    → Inv db
    → get run_key input.run_id db.runs ≡ some run
    → is_parked run.status ≡ true
    → is_refused run.control_intent input.intent ≡ false
    → ((control_run input ts now (some run) db).0 ≡ accepted true)
      × IsSettled input run (control_run input ts now (some run) db).1
unfolding control_run settle_run update_run_if_status dead_letter_pending_tasks find_many
control_run_settles input ts now db run v found parked raised =
    let ends = is_stop input.intent in
    let live : is_live run.status ≡ true = ground (arith, parked) in
    let mine = get_key run_key input.run_id db.runs run found in
    let rows = filter (λ r. r.run_id == run.id && is_pending r.status) db.tasks in
    let why : TaskError = if ends then cancelled_before_claim else suspended_before_claim in
    let db1 = (dead_letter_all rows why now db).1 in
    let f : RunRecord → RunRecord =
      λ r. record (settled_run ends (latch input ts run r)) { updated_at = now } in
    let there : get run_key run.id db1.runs ≡ some run =
      ap (get run_key run.id) (dead_letter_all_runs rows why now db)
      ∙ ap (λ k. get run_key k db.runs) mine
      ∙ found in
    let (hit, stored) =
      cas_hit run_key run.id (λ r. is_parked r.status) f (latch_id input ts run) db1.runs run
        (dead_letter_all-Inv rows why now db v).runs there parked in
    let moved : control_run input ts now (some run) db ≡ settle_run input ts now run db =
      rw (control_run, live, raised, parked) refl in
    let event =
      event_of input (if ends then run_cancelled else run_suspended)
        (some (dead_letter_all rows why now db).0) none now in
    let db2 : Db =
      append_event event
        (record db1 { runs = (cas run_key run.id (λ r. is_parked r.status) f db1.runs).1 }) in
    let settled : settle_run input ts now run db ≡ (accepted true, db2) =
      settled_or-some _ (f run) (accepted true, db2) _ hit in
    subst (λ (c : Control × Db). (c.0 ≡ accepted true) × IsSettled input run c.1)
      (sym (moved ∙ settled))
      (
        refl,
        record {
          row = f run;
          stored = ap (λ k. get run_key k db2.runs) (sym mine) ∙ stored;
          status = refl;
          wait_reason = refl;
          unlatched = refl;
          no_intent = refl;
          no_requester = refl;
          no_reason = refl;
          counted = latch_seq input ts run;
          withheld = λ i t there of. elim (Bool-cases (is_pending t.status)) [
            | inr settled ↦ settled
            | inl pending ↦
                let (before, out) = still_pending rows why now db v.tasks i t there pending in
                let among =
                  pending_found (λ r. r.run_id == run.id && is_pending r.status) i db.tasks t before
                    (ground (arith, of, mine, pending)) in
                absurd (cc (among, out))
          ];
        },
      )
