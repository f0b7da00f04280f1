-- ===== src/Engine/Invariant/Release.antt =====
-- Releasing a lease together with the task that it names strands no task.
use busyclaw.Prelude.{◌≡◌, ◌≢◌, inl, inr, true, some, arith, ap, subst, Ident}
use busyclaw.Storage.Table.{get, cas}
use busyclaw.Storage.Table.Laws.{get-cas_inv, get_key, get-cas}
use busyclaw.Engine.Schema.{
  is_held, drop_lease, RuntimeTask, leased, LeaseRecord, Db, task_key, lease_key,
}
use busyclaw.Engine.Invariant.{Inv, Inv-tasks, Inv-drop}

module _ (db : Db) (id task_id : Ident) (f : RuntimeTask → RuntimeTask)
    (keeps : (r : RuntimeTask) → (f r).id ≡ r.id)
    (frees : (r : RuntimeTask) → (f r).status ≢ leased)
    (owns : (l : LeaseRecord) → get lease_key id db.leases ≡ some l → l.task_id ≡ task_id)
    (v : Inv db) where
  abbrev pub freed : Db
  freed = record db { tasks = (cas task_key task_id (is_held id) f db.tasks).1 }

  freed-Inv : Inv freed
  freed-Inv = Inv-tasks db task_id (is_held id) f keeps (λ r g. inl (frees r)) v

  -- No leased task names the lease any more.
  unnamed :
      (j : Ident) (r' : RuntimeTask)
      → get task_key j freed.tasks ≡ some r'
      → r'.status ≡ leased
      → r'.lease_id ≢ some id
  unnamed j r' e s q =
      let (r, there, how) =
        get-cas_inv task_key task_id (is_held id) f keeps j db.tasks r' v.tasks e in
      elim how [
        | inl (_, _, same) ↦ frees r (cc (ap (λ (x : RuntimeTask). x.status) same, s))
        | inr same ↦ still r there same
      ]
    where
      still : (r : RuntimeTask) → get task_key j db.tasks ≡ some r → r' ≡ r → ⊥
      still r there same =
          let was : r.status ≡ leased = ground (arith, same, s) in
          let h = v.held j r there was in
          let l : h.lease.id ≡ id = ground (arith, h.named, same, q) in
          let mine : h.lease.task_id ≡ task_id =
            owns h.lease (subst (λ k. get lease_key k db.leases ≡ some h.lease) l h.stored) in
          let at : j ≡ task_id =
            ground (arith, get_key task_key j db.tasks r there, h.task, mine) in
          let before = subst (λ k. get task_key k db.tasks ≡ some r) at there in
          let after = subst (λ k. get task_key k freed.tasks ≡ some r') at e in
          let hit : is_held id r ≡ true = ground (arith, was, h.named, l) in
          let patched : some r' ≡ some (f r) = ground (
            arith,
            after,
            get-cas task_key task_id (is_held id) f keeps db.tasks v.tasks,
            before,
            hit,
          ) in
          frees r (ground (arith, patched, s))

  pub release-Inv : Inv (drop_lease id freed)
  release-Inv = Inv-drop freed id unnamed freed-Inv
