-- ===== src/Engine/Control/Laws.antt =====
-- Control (packages/engines/sql/src/engine.ts, `controlRun`) keeps the invariant of the store, and leaves
-- a run that has ended alone.
use busyclaw.Prelude.{
  ◌≡◌, refl, inl, inr, true, false, ◌&&◌, Option, none, some, List, [], ◌∷◌, arith, ap, sym, subst,
  ◌∙◌, ◌==◌, Ident, Timestamp, if◌then◌else◌, Bool-cases,
}
use busyclaw.Storage.Table.{get, cas, find_many}
use busyclaw.Storage.Table.Laws.{Unique, cas-Unique, get-cas_at, map_row}
use busyclaw.Engine.Schema.{
  RunRecord, RuntimeTask, TaskError, Db, run_key, is_live, is_parked, is_pending,
  cancelled_before_claim, suspended_before_claim,
}
use busyclaw.Engine.Runs.{update_run_if_status}
use busyclaw.Engine.Claim.{settled_run}
use busyclaw.Engine.Invariant.{Inv, Inv-runs, Inv-tasks}
use busyclaw.Engine.Control.{
  ControlRunInput, Control, is_refused, is_stop, update_run, dead_row, dead_letter_all,
  dead_letter_pending_tasks, latch, latch_run, settled_or, settle_run, control_run,
}

pub dead_letter_all-Inv :
    (rows : List RuntimeTask) (why : TaskError) (ts : Timestamp) (db : Db)
    → Inv db
    → Inv (dead_letter_all rows why ts db).1
unfolding dead_letter_all
dead_letter_all-Inv [] why ts db v = v
dead_letter_all-Inv (t ∷ rows) why ts db v = dead_letter_all-Inv rows why ts _ (
    Inv-tasks db t.id (λ r. is_pending r.status) (dead_row why ts) (λ r. refl)
      (λ r e. inl (λ q. cc q)) v)

pub latch_id :
    (input : ControlRunInput) (ts : Timestamp) (run r : RunRecord)
    → (latch input ts run r).id ≡ r.id
latch_id input ts run r = ground arith

latch_run-Inv :
    (input : ControlRunInput) (ts now : Timestamp) (run : RunRecord) (db : Db)
    → Inv db
    → Inv (latch_run input ts now run db).1
unfolding latch_run update_run
latch_run-Inv input ts now run db v =
    Inv-runs db _ _ (cas-Unique run_key run.id (λ r. true) _ (latch_id input ts run) db.runs v.runs)
      v

settled_or-Inv :
    (o : Option RunRecord) (a b : Control × Db) → Inv a.1 → Inv b.1 → Inv (settled_or o a b).1
settled_or-Inv none a b v w = w
settled_or-Inv (some r) a b v w = v

settle_run-Inv :
    (input : ControlRunInput) (ts now : Timestamp) (run : RunRecord) (db : Db)
    → Inv db
    → Inv (settle_run input ts now run db).1
unfolding settle_run update_run_if_status dead_letter_pending_tasks
settle_run-Inv input ts now run db v =
    let ends = is_stop input.intent in
    let rows = find_many (λ r. r.run_id == run.id && is_pending r.status) db.tasks in
    let v1 =
      dead_letter_all-Inv rows (if ends then cancelled_before_claim else suspended_before_claim) now
        db v in
    let db1 =
      (dead_letter_all rows (if ends then cancelled_before_claim else suspended_before_claim) now
        db).1 in
    let f : RunRecord → RunRecord =
      λ r. record (settled_run ends (latch input ts run r)) { updated_at = now } in
    let v2 =
      Inv-runs db1 (cas run_key run.id (λ r. is_parked r.status) f db1.runs).1 db1.events
        (cas-Unique run_key run.id (λ r. is_parked r.status) f (latch_id input ts run) db1.runs
          v1.runs)
        v1 in
    settled_or-Inv _ _ _ (Inv-runs _ _ _ v2.runs v2) (latch_run-Inv input ts now run _ v2)

pub control_run-Inv :
    (input : ControlRunInput) (ts now : Timestamp) (seen : Option RunRecord) (db : Db)
    → Inv db
    → Inv (control_run input ts now seen db).1
unfolding control_run
control_run-Inv input ts now none db v = v
control_run-Inv input ts now (some run) db v = elim (Bool-cases (is_live run.status)) [
  | inl live ↦ elim (Bool-cases (is_refused run.control_intent input.intent)) [
    | inl refused ↦ rw (control_run, live, refused) v
    | inr raised ↦ elim (Bool-cases (is_parked run.status)) [
      | inl parked ↦ rw (control_run, live, raised, parked) (settle_run-Inv input ts now run db v)
      | inr driven ↦ rw (control_run, live, raised, driven) (latch_run-Inv input ts now run db v)
    ]
  ]
  | inr ended ↦ rw (control_run, ended) (Inv-runs db db.runs _ v.runs v)
]

pub dead_letter_all_runs :
    (rows : List RuntimeTask) (why : TaskError) (ts : Timestamp) (db : Db)
    → (dead_letter_all rows why ts db).1.runs ≡ db.runs
unfolding dead_letter_all
dead_letter_all_runs [] why ts db = refl
dead_letter_all_runs (t ∷ rows) why ts db = dead_letter_all_runs rows why ts _

-- The run `r` with the latch and the time of update of `x`.
abbrev pub latched_as : RunRecord → RunRecord → RunRecord
latched_as x r = record r {
  control_requested_at = x.control_requested_at;
  control_intent = x.control_intent;
  control_requested_by = x.control_requested_by;
  control_reason = x.control_reason;
  control_seq = x.control_seq;
  updated_at = x.updated_at;
}

latch-latched :
    (input : ControlRunInput) (ts now : Timestamp) (seen x : RunRecord)
    → let x' : RunRecord = record (latch input ts seen x) { updated_at = now } in
      x' ≡ latched_as x' x
latch-latched input ts now seen x = ground arith

module _ (i : Ident) (r : RunRecord) (ended : is_live r.status ≡ false) where
  -- The run is stored, as `r` but for its latch.
  abbrev pub Keeps : Db → Type 0
  Keeps db =
      Unique run_key db.runs
      × ((x : RunRecord) × ((get run_key i db.runs ≡ some x) × (x ≡ latched_as x r)))

  pub latched_ended : (x : RunRecord) → x ≡ latched_as x r → is_live x.status ≡ false
  latched_ended x same = ap (λ (y : RunRecord). is_live y.status) same ∙ ended

  latch_run-Keeps :
      (input : ControlRunInput) (ts now : Timestamp) (run : RunRecord) (db : Db)
      → Keeps db
      → Keeps (latch_run input ts now run db).1
  unfolding latch_run update_run
  latch_run-Keeps input ts now run db (u, (x, (e, same))) =
      let f : RunRecord → RunRecord = λ y. record (latch input ts run y) { updated_at = now } in
      let at =
        get-cas_at run_key run.id (λ y. true) f (latch_id input ts run) i db.runs u
        ∙ ap (map_row run_key _) e in
      let u' = cas-Unique run_key run.id (λ y. true) f (latch_id input ts run) db.runs u in
      elim (Bool-cases (x.id == run.id)) [
        | inl hit ↦ (
          u',
          (
            f x,
            (at ∙ (rw hit refl), latch-latched input ts now run x ∙ ap (latched_as (f x)) same),
          ),
        )
        | inr miss ↦ (u', (x, (at ∙ (rw miss refl), same)))
      ]

  settled_or-Keeps :
      (o : Option RunRecord) (a b : Control × Db)
      → Keeps a.1
      → Keeps b.1
      → Keeps (settled_or o a b).1
  settled_or-Keeps none a b v w = w
  settled_or-Keeps (some x) a b v w = v

  settle_run-Keeps :
      (input : ControlRunInput) (ts now : Timestamp) (run : RunRecord) (db : Db)
      → Keeps db
      → Keeps (settle_run input ts now run db).1
  unfolding settle_run update_run_if_status dead_letter_pending_tasks
  settle_run-Keeps input ts now run db (u, (x, (e, same))) =
      let ends = is_stop input.intent in
      let rows = find_many (λ x. x.run_id == run.id && is_pending x.status) db.tasks in
      let why = if ends then cancelled_before_claim else suspended_before_claim in
      let db1 = (dead_letter_all rows why now db).1 in
      let kept = dead_letter_all_runs rows why now db in
      let f : RunRecord → RunRecord =
        λ x. record (settled_run ends (latch input ts run x)) { updated_at = now } in
      let u1 = subst (Unique run_key) (sym kept) u in
      let db2 : Db = record db1 {
        runs = (cas run_key run.id (λ x. is_parked x.status) f db1.runs).1;
      } in
      let done : is_parked x.status ≡ false = ground (arith, latched_ended x same) in
      let at =
        get-cas_at run_key run.id (λ x. is_parked x.status) f (latch_id input ts run) i db1.runs u1
        ∙ ap (map_row run_key _) (ap (get run_key i) kept ∙ e)
        ∙ (ground (arith, done)) in
      let w : Keeps db2 = (
        cas-Unique run_key run.id (λ x. is_parked x.status) f (latch_id input ts run) db1.runs u1,
        (x, (at, same)),
      ) in
      settled_or-Keeps _ _ _ w (latch_run-Keeps input ts now run db2 w)

  -- A control that read the run at any time leaves it as it ended, but for its latch.
  pub control_run-Keeps :
      (input : ControlRunInput) (ts now : Timestamp) (seen : Option RunRecord) (db : Db)
      → Keeps db
      → Keeps (control_run input ts now seen db).1
  unfolding control_run
  control_run-Keeps input ts now none db v = v
  control_run-Keeps input ts now (some run) db v = elim (Bool-cases (is_live run.status)) [
    | inl live ↦ elim (Bool-cases (is_refused run.control_intent input.intent)) [
      | inl refused ↦ rw (control_run, live, refused) v
      | inr raised ↦ elim (Bool-cases (is_parked run.status)) [
        | inl parked ↦
            rw (control_run, live, raised, parked) (settle_run-Keeps input ts now run db v)
        | inr driven ↦
            rw (control_run, live, raised, driven) (latch_run-Keeps input ts now run db v)
      ]
    ]
    | inr done ↦ rw (control_run, done) v
  ]
