-- ===== src/Engine/Invariant/Sweep.antt =====
-- The sweep of lapsed leases strands no task.
use busyclaw.Prelude.{
  ◌≡◌, refl, ◌≢◌, inl, inr, Bool, true, false, Option, none, some, List, [], ◌∷◌, arith, subst, leb,
  All, All-filter, All-map, Ident, Timestamp, Option-cases,
}
use busyclaw.Storage.Table.{get, cas, find_many}
use busyclaw.Storage.Table.Laws.{get_key, get-delete_inv, All-get}
use busyclaw.Engine.Schema.{
  is_held, failed_run, RuntimeTask, leased, LeaseRecord, Db, task_key, lease_key, is_live,
}
use busyclaw.Engine.Reap.{lapsed_row, retire, reap, reap_run, reap_all, reap_expired_leases}
use busyclaw.Engine.Runs.{update_run_if_status}
use busyclaw.Engine.Invariant.{Inv, Inv-drop}
use busyclaw.Engine.Invariant.Release.{release-Inv}
use busyclaw.Engine.Invariant.Claim.{update_run-Inv}

-- A lease as it was read names the task that the stored lease of its id names.
abbrev pub Agrees : Db → LeaseRecord → Type 0
Agrees db c = (l : LeaseRecord) → get lease_key c.id db.leases ≡ some l → l.task_id ≡ c.task_id

pub lapsed_row-id : (ts : Timestamp) (task r : RuntimeTask) → (lapsed_row ts task r).id ≡ r.id
lapsed_row-id ts task r = ground arith

pub lapsed_row-frees :
    (ts : Timestamp) (task r : RuntimeTask) → (lapsed_row ts task r).status ≢ leased
lapsed_row-frees ts task r = ground arith

retire-Inv :
    (c : LeaseRecord) (ts : Timestamp) (task : RuntimeTask) (db : Db)
    → Agrees db c
    → Inv db
    → (o : Option RuntimeTask)
    → Inv
        (retire o c task db (record db {
          tasks = (cas task_key c.task_id (is_held c.id) (lapsed_row ts task) db.tasks).1;
        })).1
retire-Inv c ts task db agrees v none = v
retire-Inv c ts task db agrees v (some r) =
    release-Inv db c.id c.task_id (lapsed_row ts task) (lapsed_row-id ts task)
      (lapsed_row-frees ts task) agrees v

pub reap-Inv :
    (c : LeaseRecord) (ts : Timestamp) (db : Db) → Agrees db c → Inv db → Inv (reap c ts db).1
unfolding reap
reap-Inv c ts db agrees v = elim (Option-cases (get task_key c.task_id db.tasks)) [
  | inr (task, there) ↦ rw (there, reap) (retire-Inv c ts task db agrees v _)
  | inl gone ↦ rw (gone, reap) (Inv-drop db c.id (free gone) v)
]
  where
    free :
        get task_key c.task_id db.tasks ≡ none
        → (j : Ident) (r : RuntimeTask) → get task_key j db.tasks ≡ some r
        → r.status ≡ leased
        → r.lease_id ≢ some c.id
    free gone j r there was q =
        let h = v.held j r there was in
        let id : h.lease.id ≡ c.id = ground (arith, h.named, q) in
        let own =
          agrees h.lease (subst (λ k. get lease_key k db.leases ≡ some h.lease) id h.stored) in
        let at : j ≡ c.task_id = ground (arith, get_key task_key j db.tasks r there, h.task, own) in
        cc (gone, subst (λ k. get task_key k db.tasks ≡ some r) at there)

pub reap_run-Inv :
    (o : Option (Bool × Ident)) (now : Timestamp) (db : Db) → Inv db → Inv (reap_run o now db)
unfolding reap_run
reap_run-Inv none now db v = v
reap_run-Inv (some (false, run_id)) now db v = v
reap_run-Inv (some (true, run_id)) now db v =
    update_run-Inv run_id is_live failed_run now db (λ r. refl) v

-- A reap leaves or deletes leases, so what was read before stays in agreement.
reap-Agrees :
    (c d : LeaseRecord) (ts : Timestamp) (db : Db)
    → Inv db
    → Agrees db d
    → Agrees (reap c ts db).1 d
unfolding reap
reap-Agrees c d ts db v agrees = elim (Option-cases (get task_key c.task_id db.tasks)) [
  | inl gone ↦
      rw (gone, reap)
        (λ l e. agrees l (get-delete_inv lease_key c.id d.id db.leases l v.leases e).1)
  | inr (task, there) ↦ rw (there, reap) (retired_agrees task _)
]
  where
    retired_agrees :
        (task : RuntimeTask) (o : Option RuntimeTask)
        → Agrees
            (retire o c task db (record db {
              tasks = (cas task_key c.task_id (is_held c.id) (lapsed_row ts task) db.tasks).1;
            })).1
            d
    retired_agrees task none = agrees
    retired_agrees task (some r) =
        λ l e. agrees l (get-delete_inv lease_key c.id d.id db.leases l v.leases e).1

pub reap_run-leases :
    (o : Option (Bool × Ident)) (now : Timestamp) (db : Db) → (reap_run o now db).leases ≡ db.leases
unfolding reap_run update_run_if_status
reap_run-leases none now db = refl
reap_run-leases (some (false, run_id)) now db = refl
reap_run-leases (some (true, run_id)) now db = refl

pub reap-All-Agrees :
    (c : LeaseRecord) (ds : List LeaseRecord) (ts now : Timestamp) (db : Db)
    → Inv db
    → All (Agrees db) ds
    → All (Agrees (reap_run (reap c ts db).0 now (reap c ts db).1)) ds
reap-All-Agrees c [] ts now db v a = tt
reap-All-Agrees c (d ∷ ds) ts now db v a = (
  λ l e. reap-Agrees c d ts db v a.0 l (
      subst (λ x. get lease_key d.id x ≡ some l)
        (reap_run-leases (reap c ts db).0 now (reap c ts db).1) e),
  reap-All-Agrees c ds ts now db v a.1,
)

reap_all-Inv :
    (cs : List LeaseRecord) (ts now : Timestamp) (db : Db)
    → All (Agrees db) cs
    → Inv db
    → Inv (reap_all ts now cs db).1
unfolding reap_all
reap_all-Inv [] ts now db a v = v
reap_all-Inv (c ∷ cs) ts now db a v =
    reap_all-Inv cs ts now _ (reap-All-Agrees c cs ts now db v a.1)
      (reap_run-Inv _ now _ (reap-Inv c ts db a.0 v))

pub seen-Agrees :
    (ts : Timestamp) (db : Db)
    → Inv db
    → All (Agrees db) (find_many (λ l. leb l.expires_at ts) db.leases)
unfolding find_many
seen-Agrees ts db v =
    All-map (λ c e l p. ground (arith, e, p)) (find_many (λ l. leb l.expires_at ts) db.leases)
      (All-filter _ (λ l. leb l.expires_at ts) db.leases (All-get lease_key db.leases v.leases))

-- A sweep keeps the invariant.
pub reap_expired_leases-Inv :
    (ts now : Timestamp) (db : Db) → Inv db → Inv (reap_expired_leases ts now db).1
unfolding reap_expired_leases find_many
reap_expired_leases-Inv ts now db v = reap_all-Inv _ ts now db (seen-Agrees ts db v) v
