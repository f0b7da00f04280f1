-- ===== src/Engine/Invariant.antt =====
-- No task is stranded: a leased task is named by a lease row of its own, which a sweep or its worker
-- can find. The invariant, and the elementary changes of the tables that keep it.
pub mod Release
pub mod Claim
pub mod Hold
pub mod Sweep
pub mod Reach
use busyclaw.Prelude.{
  ℕ, ◌≡◌, refl, ◌≢◌, ◌⊎◌, inl, inr, Bool, true, false, ◌&&◌, Option, none, some, List, arith, ap,
  sym, ◌∙◌, subst, ◌==◌, Ident, Timestamp, Bool-cases,
}
use busyclaw.Storage.Table.{get, cas, delete, insert}
use busyclaw.Storage.Table.Laws.{
  Unique, cas-Unique, get-cas_inv, get-cas_at, map_row, get-delete_inv, get-delete_ne,
  delete-Unique, insert-Unique, get-insert, get_key,
}
use busyclaw.Engine.Schema.{
  drop_lease, RunRecord, RuntimeTask, TaskStatus, leased, LeaseRecord, RunEvent, Db, run_key,
  task_key, lease_key,
}

pub record IsHeldBy (db : Db) (r : RuntimeTask) : Type 0 where
  pub lease : LeaseRecord
  pub named : r.lease_id ≡ some lease.id
  pub stored : get lease_key lease.id db.leases ≡ some lease
  pub task : lease.task_id ≡ r.id
  pub worker : r.worker_id ≡ some lease.worker_id

-- Primary keys are distinct, and every leased task has its lease.
pub record Inv (db : Db) : Type 0 where
  pub runs : Unique run_key db.runs
  pub tasks : Unique task_key db.tasks
  pub leases : Unique lease_key db.leases
  pub held :
      (i : Ident) (r : RuntimeTask)
      → get task_key i db.tasks ≡ some r
      → r.status ≡ leased
      → IsHeldBy db r

-- Runs and events do not matter to the invariant.
pub Inv-runs :
    (db : Db) (rs : List RunRecord) (es : List RunEvent)
    → Unique run_key rs
    → Inv db
    → Inv (record db { runs = rs; events = es })
Inv-runs db rs es u v = record {
  runs = u;
  tasks = v.tasks;
  leases = v.leases;
  held = λ i r e s.
      let h = v.held i r e s in
      record {
        lease = h.lease;
        named = h.named;
        stored = h.stored;
        task = h.task;
        worker = h.worker;
      };
}

-- A patch of a task that leaves it unleased, or leaves its holder.
pub Inv-tasks :
    (db : Db) (i : Ident) (guard : RuntimeTask → Bool) (f : RuntimeTask → RuntimeTask)
    → ((r : RuntimeTask) → (f r).id ≡ r.id)
    → ((r : RuntimeTask)
        → guard r ≡ true
        → ((f r).status ≢ leased)
          ⊎ ((r.status ≡ leased) × ((f r).lease_id ≡ r.lease_id) × ((f r).worker_id ≡ r.worker_id)))
    → Inv db
    → Inv (record db { tasks = (cas task_key i guard f db.tasks).1 })
Inv-tasks db i guard f keeps safe v = record {
  runs = v.runs;
  tasks = cas-Unique task_key i guard f keeps db.tasks v.tasks;
  leases = v.leases;
  held = λ j r' e s.
      let (r, there, how) = get-cas_inv task_key i guard f keeps j db.tasks r' v.tasks e in
      elim how [
        | inr same ↦
            let h = v.held j r there (cc (ap (λ (x : RuntimeTask). x.status) same)) in
            record {
              lease = h.lease;
              named = ground (arith, same, h.named);
              stored = h.stored;
              task = ground (arith, same, h.task);
              worker = ground (arith, same, h.worker);
            }
        | inl (_, ok, same) ↦ elim (safe r ok) [
          | inl free ↦ absurd (free (cc (ap (λ (x : RuntimeTask). x.status) same)))
          | inr (was, l, w) ↦
              let h = v.held j r there was in
              record {
                lease = h.lease;
                named = ground (arith, same, h.named, l);
                stored = h.stored;
                task = ground (arith, same, h.task, keeps r);
                worker = ground (arith, same, h.worker, w);
              }
        ]
      ];
}

-- A lease that no leased task names may go.
pub Inv-drop :
    (db : Db) (l : Ident)
    → ((i : Ident) (r : RuntimeTask)
        → get task_key i db.tasks ≡ some r
        → r.status ≡ leased
        → r.lease_id ≢ some l)
    → Inv db
    → Inv (drop_lease l db)
Inv-drop db l free v = record {
  runs = v.runs;
  tasks = v.tasks;
  leases = delete-Unique lease_key _ db.leases v.leases;
  held = λ i r e s.
      let h = v.held i r e s in
      record {
        lease = h.lease;
        named = h.named;
        stored =
            get-delete_ne lease_key l h.lease.id db.leases (λ q. free i r e s (h.named ∙ ap some q))
            ∙ h.stored;
        task = h.task;
        worker = h.worker;
      };
}

-- A new lease under a fresh id.
pub Inv-insert :
    (db : Db) (l : LeaseRecord)
    → get lease_key l.id db.leases ≡ none
    → Inv db
    → Inv (record db { leases = insert l db.leases })
Inv-insert db l new v = record {
  runs = v.runs;
  tasks = v.tasks;
  leases = insert-Unique lease_key l db.leases new v.leases;
  held = λ i r e s.
      let h = v.held i r e s in
      record {
        lease = h.lease;
        named = h.named;
        stored =
            get-insert lease_key h.lease.id l db.leases new
            ∙ (ground (
              arith,
              h.stored,
              new,
              λ (q : l.id ≡ h.lease.id). ap (λ k. get lease_key k db.leases) q,
            ));
        task = h.task;
        worker = h.worker;
      };
}

-- A patch of a lease that leaves its task and its worker.
pub Inv-leases :
    (db : Db) (i : Ident) (guard : LeaseRecord → Bool) (f : LeaseRecord → LeaseRecord)
    → ((l : LeaseRecord) → (f l).id ≡ l.id)
    → ((l : LeaseRecord) → ((f l).task_id ≡ l.task_id) × ((f l).worker_id ≡ l.worker_id))
    → Inv db
    → Inv (record db { leases = (cas lease_key i guard f db.leases).1 })
Inv-leases db i guard f keeps same v = record {
  runs = v.runs;
  tasks = v.tasks;
  leases = cas-Unique lease_key i guard f keeps db.leases v.leases;
  held = λ j r e s. held_by r (v.held j r e s);
}
  where
    held_by :
        (r : RuntimeTask)
        → IsHeldBy db r
        → IsHeldBy (record db { leases = (cas lease_key i guard f db.leases).1 }) r
    held_by r h =
        let now =
          get-cas_at lease_key i guard f keeps h.lease.id db.leases v.leases
          ∙ ap (map_row lease_key _) h.stored in
        elim (Bool-cases (h.lease.id == i && guard h.lease)) [
          | inl hit ↦ record {
            lease = f h.lease;
            named = ground (arith, h.named, keeps h.lease);
            stored =
                subst
                  (λ k. get lease_key k (cas lease_key i guard f db.leases).1 ≡ some (f h.lease))
                  (sym (keeps h.lease)) (rw hit at now);
            task = ground (arith, h.task, same h.lease);
            worker = ground (arith, h.worker, same h.lease);
          }
          | inr miss ↦ record {
            lease = h.lease;
            named = h.named;
            stored = rw miss at now;
            task = h.task;
            worker = h.worker;
          }
        ]
