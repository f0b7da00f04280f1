-- ===== src/Engine/Sweep.antt =====
-- After a sweep, no task is leased under a lease that had expired.
use busyclaw.Prelude.{
  ◌≡◌, refl, ◌≢◌, ◌<◌, ◌≤◌, inl, inr, Bool, true, false, Option, none, some, List, [], ◌∷◌, arith,
  ap, sym, subst, ◌∙◌, leb, ◌==◌, Ident, Timestamp, All, any, filter, Option-cases,
}
use busyclaw.Storage.Table.{get, cas, find_many, find_one}
use busyclaw.Storage.Table.Laws.{cas_hit, get-cas_inv, get_key, get-delete_inv}
use busyclaw.Engine.Schema.{RuntimeTask, leased, LeaseRecord, Db, task_key, lease_key, is_held}
use busyclaw.Engine.Runs.{update_run_if_status}
use busyclaw.Engine.Reap.{lapsed_row, retire, reap, reap_run, reap_all, reap_expired_leases}
use busyclaw.Engine.Invariant.{Inv}
use busyclaw.Engine.Invariant.Sweep.{
  Agrees, reap-Inv, reap_run-Inv, reap-All-Agrees, reap_run-leases, lapsed_row-id, lapsed_row-frees,
  seen-Agrees, reap_expired_leases-Inv,
}

-- A task that is leased under the lease stands where the lease says.
home :
    (c : LeaseRecord) (db : Db) (j : Ident) (r : RuntimeTask)
    → Agrees db c
    → Inv db
    → get task_key j db.tasks ≡ some r
    → r.status ≡ leased
    → r.lease_id ≡ some c.id
    → j ≡ c.task_id
home c db j r agrees v there was q =
    let h = v.held j r there was in
    let id : h.lease.id ≡ c.id = ground (arith, h.named, q) in
    let own = agrees h.lease (subst (λ k. get lease_key k db.leases ≡ some h.lease) id h.stored) in
    ground (arith, get_key task_key j db.tasks r there, h.task, own)

-- What a leased task after the reap was before it.
abbrev Was : LeaseRecord → Db → Db → Type 0
Was c db db' =
    (j : Ident) (r : RuntimeTask)
    → get task_key j db'.tasks ≡ some r
    → r.status ≡ leased
    → (r.lease_id ≢ some c.id) × (get task_key j db.tasks ≡ some r)

module _ (c : LeaseRecord) (ts : Timestamp) (task : RuntimeTask) (db : Db) (agrees : Agrees db c)
    (v : Inv db) where
  -- The write of the reap meets a task that is leased under its lease.
  meets :
      (j : Ident) (r : RuntimeTask)
      → get task_key j db.tasks ≡ some r
      → r.status ≡ leased
      → r.lease_id ≡ some c.id
      → (j ≡ c.task_id)
        × ((cas task_key c.task_id (is_held c.id) (lapsed_row ts task) db.tasks).0
            ≡ some (lapsed_row ts task r))
        × (get task_key c.task_id
              (cas task_key c.task_id (is_held c.id) (lapsed_row ts task) db.tasks).1
            ≡ some (lapsed_row ts task r))
  meets j r there was q =
      let at = home c db j r agrees v there was q in
      let hit =
        cas_hit task_key c.task_id (is_held c.id) (lapsed_row ts task) (lapsed_row-id ts task)
          db.tasks r v.tasks (subst (λ k. get task_key k db.tasks ≡ some r) at there)
          (ground (arith, was, q)) in
      (at, hit.0, hit.1)

  retire-Was :
      (o : Option RuntimeTask)
      → (cas task_key c.task_id (is_held c.id) (lapsed_row ts task) db.tasks).0 ≡ o
      → Was c db
          (retire o c task db (record db {
            tasks = (cas task_key c.task_id (is_held c.id) (lapsed_row ts task) db.tasks).1;
          })).1
  retire-Was none e j r there was = (λ q. cc (e, (meets j r there was q).1), there)
  retire-Was (some x) e j r there was =
      let (s, before, how) =
        get-cas_inv task_key c.task_id (is_held c.id) (lapsed_row ts task) (lapsed_row-id ts task) j
          db.tasks r v.tasks there in
      elim how [
        | inl (_, _, lapsed) ↦
            absurd
              (lapsed_row-frees ts task s (cc (was, ap (λ (x : RuntimeTask). x.status) lapsed)))
        | inr same ↦
            let before' : get task_key j db.tasks ≡ some r = before ∙ ap some (sym same) in
            (
              λ q.
                  let (at, _, stored) = meets j r before' was q in
                  let row : r ≡ lapsed_row ts task r = ground (
                    arith,
                    there,
                    subst
                        (λ k.
                          get task_key k
                            (cas task_key c.task_id (is_held c.id) (lapsed_row ts task) db.tasks).1
                          ≡ some (lapsed_row ts task r))
                        (sym at) stored,
                  ) in
                  lapsed_row-frees ts task r (cc (was, ap (λ (x : RuntimeTask). x.status) row)),
              before',
            )
      ]

reap-Was :
    (c : LeaseRecord) (ts : Timestamp) (db : Db) → Agrees db c → Inv db → Was c db (reap c ts db).1
unfolding reap
reap-Was c ts db agrees v j r there was = elim (Option-cases (get task_key c.task_id db.tasks)) [
  | inr (task, found) ↦ retire-Was c ts task db agrees v _ refl j r (rw (found, reap) at there) was
  | inl gone ↦
      let before : get task_key j db.tasks ≡ some r = rw (gone, reap) at there in
      (
        λ q. cc (
          gone,
          subst (λ k. get task_key k db.tasks ≡ some r) (home c db j r agrees v before was q)
              before,
        ),
        before,
      )
]

-- A reap adds no lease.
reap-leases :
    (c : LeaseRecord) (ts : Timestamp) (db : Db) (k : Ident) (l : LeaseRecord)
    → Inv db
    → get lease_key k (reap c ts db).1.leases ≡ some l
    → get lease_key k db.leases ≡ some l
unfolding reap
reap-leases c ts db k l v e = elim (Option-cases (get task_key c.task_id db.tasks)) [
  | inl gone ↦ (get-delete_inv lease_key c.id k db.leases l v.leases (rw (gone, reap) at e)).1
  | inr (task, found) ↦ retired _ task _ (rw (found, reap) at e)
]
  where
    retired :
        (o : Option RuntimeTask) (task : RuntimeTask) (ts : List RuntimeTask)
        → get lease_key k (retire o c task db (record db { tasks = ts })).1.leases ≡ some l
        → get lease_key k db.leases ≡ some l
    retired none task ts p = p
    retired (some x) task ts p = (get-delete_inv lease_key c.id k db.leases l v.leases p).1

-- The expired leases that leased tasks name are among those that the sweep has still to see.
abbrev Covers : Timestamp → List LeaseRecord → Db → Type 0
Covers ts cs db =
    (j : Ident) (r : RuntimeTask) (l : LeaseRecord)
    → get task_key j db.tasks ≡ some r
    → r.status ≡ leased
    → r.lease_id ≡ some l.id
    → get lease_key l.id db.leases ≡ some l
    → l.expires_at ≤ ts
    → any (λ c. c.id == l.id) cs ≡ true

reap_run-tasks :
    (o : Option (Bool × Ident)) (now : Timestamp) (db : Db) → (reap_run o now db).tasks ≡ db.tasks
unfolding reap_run update_run_if_status
reap_run-tasks none now db = refl
reap_run-tasks (some (false, run_id)) now db = refl
reap_run-tasks (some (true, run_id)) now db = refl

reap-Covers :
    (c : LeaseRecord) (cs : List LeaseRecord) (ts now : Timestamp) (db : Db)
    → Agrees db c
    → Inv db
    → Covers ts (c ∷ cs) db
    → Covers ts cs (reap_run (reap c ts db).0 now (reap c ts db).1)
reap-Covers c cs ts now db agrees v covers j r l there was q stored late =
    let (other, before) =
      reap-Was c ts db agrees v j r
        (subst (λ x. get task_key j x ≡ some r)
          (reap_run-tasks (reap c ts db).0 now (reap c ts db).1) there)
        was in
    let stored' = reap-leases c ts db l.id l v (
      subst (λ x. get lease_key l.id x ≡ some l)
        (reap_run-leases (reap c ts db).0 now (reap c ts db).1) stored) in
    let ne : (c.id == l.id) ≡ false = ground (arith, other, q) in
    rw ne at (covers j r l before was q stored' late)

reap_all-Covers :
    (cs : List LeaseRecord) (ts now : Timestamp) (db : Db)
    → All (Agrees db) cs
    → Inv db
    → Covers ts cs db
    → Covers ts [] (reap_all ts now cs db).1
unfolding reap_all
reap_all-Covers [] ts now db a v covers = covers
reap_all-Covers (c ∷ cs) ts now db a v covers =
    reap_all-Covers cs ts now _ (reap-All-Agrees c cs ts now db v a.1)
      (reap_run-Inv _ now _ (reap-Inv c ts db a.0 v)) (reap-Covers c cs ts now db a.0 v covers)

seen-any :
    (ts : Timestamp) (k : Ident) (l : LeaseRecord) (ls : List LeaseRecord)
    → get lease_key k ls ≡ some l
    → l.expires_at ≤ ts
    → any (λ c. c.id == k) (filter (λ l. leb l.expires_at ts) ls) ≡ true
unfolding find_one
seen-any ts k l [] e late = absurd (cc e)
seen-any ts k l (x ∷ ls) e late = ground (arith, e, late, seen-any ts k l ls)

-- After a sweep at an instant, every task that is still leased is held under a stored lease that
-- expires later.
pub swept :
    (ts now : Timestamp) (db : Db) (j : Ident) (r : RuntimeTask)
    → Inv db
    → get task_key j (reap_expired_leases ts now db).1.tasks ≡ some r
    → r.status ≡ leased
    → (l : LeaseRecord) × (r.lease_id ≡ some l.id)
      × (get lease_key l.id (reap_expired_leases ts now db).1.leases ≡ some l)
      × (ts < l.expires_at)
unfolding reap_expired_leases find_many
swept ts now db j r v there was =
    let h = (reap_expired_leases-Inv ts now db v).held j r there was in
    let none_left =
      reap_all-Covers (find_many (λ l. leb l.expires_at ts) db.leases) ts now db
        (seen-Agrees ts db v) v
        (λ j r l t w q stored late. seen-any ts l.id l db.leases stored late) in
    (
      h.lease,
      h.named,
      h.stored,
      ground (
        arith,
        λ (late : h.lease.expires_at ≤ ts). none_left j r h.lease there was h.named h.stored late,
      ),
    )
