-- ===== src/Engine/Invariant/Hold.antt =====
-- Heartbeats, completions and failures strand no task.
use busyclaw.Prelude.{
  ℕ, ◌≡◌, refl, ◌≢◌, inl, inr, true, ◌&&◌, ◌||◌, not, Option, none, some, arith, ap, sym, ◌∙◌,
  subst, ◌==◌, ltb, leb, if◌then◌else◌, Ident, Timestamp, Bool-cases, Option-cases, add_ms,
}
use busyclaw.Storage.Table.{get, cas}
use busyclaw.Storage.Table.Laws.{cas_result, cas_returns, get_key, get-cas}
use busyclaw.Engine.Schema.{is_held, RuntimeTask, leased, LeaseRecord, Db, task_key, lease_key}
use busyclaw.Engine.Lease.{
  validate_lease, renew, heartbeat_lease, complete_task, fail_task, failed_row, completed_row,
  close, beat, beaten_row, is_worker, elim_ttl,
}
use busyclaw.Engine.Invariant.{Inv, Inv-tasks, Inv-leases, Inv-drop}
use busyclaw.Engine.Invariant.Release.{release-Inv}

-- The lease is dropped only with the task that it names.
close-Inv :
    (db : Db) (id task_id : Ident) (f : RuntimeTask → RuntimeTask)
    → ((r : RuntimeTask) → (f r).id ≡ r.id)
    → ((r : RuntimeTask) → (f r).status ≢ leased)
    → ((l : LeaseRecord) → get lease_key id db.leases ≡ some l → l.task_id ≡ task_id)
    → Inv db
    → (o : Option RuntimeTask)
    → Inv (close o id (record db { tasks = (cas task_key task_id (is_held id) f db.tasks).1 })).1
close-Inv db id task_id f keeps frees owns v none =
    Inv-tasks db task_id (is_held id) f keeps (λ r g. inl (frees r)) v
close-Inv db id task_id f keeps frees owns v (some r) =
    release-Inv db id task_id f keeps frees owns v

failed_row-id :
    (task : RuntimeTask) (why : Ident) (ts : Timestamp) (r : RuntimeTask)
    → (failed_row task why ts r).id ≡ r.id
failed_row-id task why ts r = ground arith

failed_row-frees :
    (task : RuntimeTask) (why : Ident) (ts : Timestamp) (r : RuntimeTask)
    → (failed_row task why ts r).status ≢ leased
failed_row-frees task why ts r = ground arith

module _ (hash_text : Ident → Ident) where
  -- What a lease that was validated is.
  pub record IsValidLease (task : RuntimeTask) (token : Ident) (now : Timestamp) (db : Db)
      (l : LeaseRecord) : Type 0 where
    pub named : task.lease_id ≡ some l.id
    pub stored : get lease_key l.id db.leases ≡ some l
    pub owns : l.task_id ≡ task.id
    pub live : ltb now l.expires_at ≡ true
    pub token_hash : l.token_hash ≡ hash_text token

  pub validate_lease_sound :
      (task : RuntimeTask) (token : Ident) (now : Timestamp) (db : Db) (l : LeaseRecord)
      → validate_lease hash_text task token now db ≡ some l
      → IsValidLease task token now db l
  unfolding validate_lease
  validate_lease_sound task token now db l e = elim (Option-cases task.lease_id) [
    | inl p ↦ absurd (ground (arith, p, e))
    | inr (id, p) ↦ elim (Option-cases (get lease_key id db.leases)) [
      | inl q ↦ absurd (ground (arith, p, q, e))
      | inr (x, q) ↦
          let key : x.id ≡ id = get_key lease_key id db.leases x q in
          let same : x ≡ l = ground (arith, p, q, e) in
          record {
            named = ground (arith, p, key, same);
            stored =
                subst (λ k. get lease_key k db.leases ≡ some l) (sym key ∙ ap lease_key same)
                  (q ∙ ap some same);
            owns = ground (arith, p, q, e);
            live = ground (arith, p, q, e);
            token_hash = ground (arith, p, q, e);
          }
    ]
  ]

  owns :
      {task_id : Ident} (task : RuntimeTask) (lease : LeaseRecord) (token : Ident) (now : Timestamp)
      (db : Db)
      → get task_key task_id db.tasks ≡ some task
      → validate_lease hash_text task token now db ≡ some lease
      → (l : LeaseRecord) → get lease_key lease.id db.leases ≡ some l
      → l.task_id ≡ task_id
  owns {task_id} task lease token now db there ok l e =
      let valid = validate_lease_sound task token now db lease ok in
      ground (arith, e, valid.stored, valid.owns, get_key task_key task_id db.tasks task there)

  -- A completion keeps the invariant.
  pub complete_task-Inv :
      (task_id token : Ident) (output : Option Ident) (now ts : Timestamp) (db : Db)
      → Inv db
      → Inv (complete_task hash_text task_id token output now ts db).1
  unfolding complete_task
  complete_task-Inv task_id token output now ts db v =
      elim (Option-cases (get task_key task_id db.tasks)) [
        | inl absent ↦ rw (absent, complete_task) v
        | inr (task, there) ↦ elim (Option-cases (validate_lease hash_text task token now db)) [
          | inl bad ↦ rw (there, complete_task, bad) v
          | inr (lease, ok) ↦
              rw (there, complete_task, ok)
                (close-Inv db lease.id task_id (completed_row output ts) (λ r. refl) (λ r e. cc)
                  (owns task lease token now db there ok) v _)
        ]
      ]

  pub fail_task-Inv :
      (task_id token why : Ident) (now ts : Timestamp) (db : Db)
      → Inv db
      → Inv (fail_task hash_text task_id token why now ts db).1
  unfolding fail_task
  fail_task-Inv task_id token why now ts db v =
      elim (Option-cases (get task_key task_id db.tasks)) [
        | inl absent ↦ rw (absent, fail_task) v
        | inr (task, there) ↦ elim (Option-cases (validate_lease hash_text task token now db)) [
          | inl bad ↦ rw (there, fail_task, bad) v
          | inr (lease, ok) ↦
              rw (there, fail_task, ok)
                (release-Inv db lease.id task_id (failed_row task why ts)
                  (failed_row-id task why ts) (failed_row-frees task why ts)
                  (owns task lease token now db there ok) v)
        ]
      ]

  renew-Inv :
      (lease_id token : Ident) (ts until : Timestamp) (db : Db)
      → Inv db
      → Inv (renew hash_text lease_id token ts until db).1
  unfolding renew
  renew-Inv lease_id token ts until db v =
      Inv-leases db lease_id (λ l. l.token_hash == hash_text token && ltb ts l.expires_at)
        (λ l. record l { expires_at = until; last_heartbeat_at = ts }) (λ l. refl)
        (λ l. (refl, refl)) v

  -- The lease that a heartbeat found, after its renewal.
  renewed :
      (lease_id token : Ident) (ts until : Timestamp) (db : Db) (lease l : LeaseRecord)
      → Inv db
      → get lease_key lease_id db.leases ≡ some lease
      → get lease_key lease_id (renew hash_text lease_id token ts until db).1.leases ≡ some l
      → (l.task_id ≡ lease.task_id) × (l.worker_id ≡ lease.worker_id)
  unfolding renew
  renewed lease_id token ts until db lease l v e p =
      let q =
        get-cas lease_key lease_id (λ l. l.token_hash == hash_text token && ltb ts l.expires_at)
          (λ l. record l { expires_at = until; last_heartbeat_at = ts }) (λ l. refl) db.leases
          v.leases in
      (ground (arith, p, q, e), ground (arith, p, q, e))

  beat-Inv :
      (lease_id : Ident) (until ts : Timestamp) (db : Db) (lease : LeaseRecord)
      → Inv db
      → ((l : LeaseRecord)
          → get lease_key lease_id db.leases ≡ some l
          → (l.task_id ≡ lease.task_id) × (l.worker_id ≡ lease.worker_id))
      → (o : Option LeaseRecord) (held : Option RuntimeTask)
      → (cas task_key lease.task_id
          (is_worker lease_id lease.worker_id)
          (beaten_row until ts)
          db.tasks).0
        ≡ held
      → Inv
          (beat o held lease_id
            (cas task_key lease.task_id
              (is_worker lease_id lease.worker_id)
              (beaten_row until ts)
              db.tasks).1
            db).1
  beat-Inv lease_id until ts db lease v same none held e = v
  beat-Inv lease_id until ts db lease v same (some l) (some r) e =
      Inv-tasks db lease.task_id (is_worker lease_id lease.worker_id) (beaten_row until ts)
        (λ r. refl) (λ r g. inr (ground (arith, g), refl, refl)) v
  beat-Inv lease_id until ts db lease v same (some l) none e = Inv-drop db lease_id free v
    where
      free :
          (j : Ident) (r : RuntimeTask)
          → get task_key j db.tasks ≡ some r
          → r.status ≡ leased
          → r.lease_id ≢ some lease_id
      free j r there was q =
          let h = v.held j r there was in
          let id : h.lease.id ≡ lease_id = ground (arith, h.named, q) in
          let own =
            same h.lease (subst (λ k. get lease_key k db.leases ≡ some h.lease) id h.stored) in
          let at : j ≡ lease.task_id =
            ground (arith, get_key task_key j db.tasks r there, h.task, own) in
          let there' = subst (λ k. get task_key k db.tasks ≡ some r) at there in
          let hit : is_worker lease_id lease.worker_id r ≡ true =
            ground (arith, was, q, h.worker, own) in
          cc (
            e,
            cas_returns task_key lease.task_id (is_worker lease_id lease.worker_id)
                (beaten_row until ts) db.tasks v.tasks,
            ap (cas_result task_key (is_worker lease_id lease.worker_id) (beaten_row until ts))
                there',
            hit,
            ap (λ b. if b then some (beaten_row until ts r) else none) hit,
          )

  -- A heartbeat keeps the invariant.
  pub heartbeat_lease-Inv :
      (lease_id token : Ident) (ttl : Option ℕ) (now ts : Timestamp) (db : Db)
      → Inv db
      → Inv (heartbeat_lease hash_text lease_id token ttl now ts db).1
  unfolding heartbeat_lease
  heartbeat_lease-Inv lease_id token ttl now ts db v =
      elim (Option-cases (get lease_key lease_id db.leases)) [
        | inl absent ↦ rw (absent, heartbeat_lease) v
        | inr (lease, there) ↦
            elim (Bool-cases
              (leb lease.expires_at now || not (lease.token_hash == hash_text token))) [
                | inl bad ↦ rw (there, heartbeat_lease, bad) v
                | inr good ↦
                    rw (there, heartbeat_lease, good)
                      (beat-Inv lease_id (add_ms ts (elim_ttl ttl)) ts _ lease
                        (renew-Inv lease_id token ts _ db v)
                        (λ l p. renewed lease_id token ts _ db lease l v there p) _ _ refl)
              ]
      ]
