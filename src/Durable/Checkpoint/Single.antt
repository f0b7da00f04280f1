-- ===== src/Durable/Checkpoint/Single.antt =====
-- A checkpoint is resumed once, whatever other writes come between (packages/storage/durable/src/run-checkpoint.ts).
use busyclaw.Prelude.{
  ℕ, ◌≡◌, refl, ◌≢◌, ◌<◌, Bool, false, ◌&&◌, ◌||◌, Option, none, some, List, [], ◌∷◌, ◌==◌, ◌∙◌, ap,
  sym, subst, arith, All, All-map, Ident, Timestamp, add_ms,
}
use busyclaw.Storage.Table.{get, cas}
use busyclaw.Storage.Table.Laws.{Unique, cas_won, cas_lost, cas-Unique}
use busyclaw.Durable.Checkpoint.{
  claimed, consumed, Checkpoint, Checkpoints, key, lease_length, where_pending, where_lapsed, hold,
  or_reclaimed, claim, is_held_by, retire, complete,
}
use busyclaw.Durable.Checkpoint.Rows.{
  update-none, create-All, or_reclaimed-none, claim-All, complete-All, delete_for_runs-All,
  sweep_after-All,
}
use busyclaw.Durable.Checkpoint.History.{
  Call, creates, claims, completes, deletes, step, run, OfRow, only_row,
}

-- The row is held under the lease until an instant, if it is stored.
abbrev IsHeldUntil : Ident → Timestamp → Checkpoint → Type 0
IsHeldUntil l until r =
    (r.status ≡ claimed) × ((r.lease_id ≡ some l) × (r.lease_expires_at ≡ some until))

abbrev IsConsumed : Checkpoint → Type 0
IsConsumed r = r.status ≡ consumed

claim-refused :
    (i l : Ident) (ts : Timestamp) (ms : Option ℕ) (t : Checkpoints)
    → All (OfRow i (λ r. (where_pending r || where_lapsed ts r) ≡ false)) t
    → (claim i l ts ms t).0 ≡ none
unfolding claim
claim-refused i l ts ms t h =
    let until = add_ms ts (lease_length ms) in
    let lost =
      update-none (λ r. key r == i && where_pending r) (hold l until) t
        (All-map (λ r no_hold. ground (arith, no_hold)) t h) in
    or_reclaimed-none (cas key i where_pending (hold l until) t) _ lost (
      ap (λ x. (cas key i (where_lapsed ts) (hold l until) x).0)
        (cas_lost key i where_pending _ t lost)
      ∙ update-none (λ r. key r == i && where_lapsed ts r) (hold l until) t
          (All-map (λ r no_hold. ground (arith, no_hold)) t h))

-- Calls of others while the checkpoint `i` is held under `l` until `until`: no new row takes its id, it is
-- completed under other leases only, and claimed before `until` only.
abbrev pub IsOther : Ident → Ident → Timestamp → Call → Type 0
IsOther i l until (creates input) = input.id ≢ i
IsOther i l until (claims id l' ts ms) = id ≡ i → ts < until
IsOther i l until (completes swept id l' ts) = id ≡ i → l' ≢ l
IsOther i l until (deletes b runs) = Unit

step-held :
    (i l : Ident) (until : Timestamp) (t : Checkpoints) (c : Call)
    → IsOther i l until c
    → All (OfRow i (IsHeldUntil l until)) t
    → All (OfRow i (IsHeldUntil l until)) (step t c)
unfolding step
step-held i l until t (creates input) o h =
    create-All (OfRow i (IsHeldUntil l until)) input t (λ e. absurd (o e)) h
step-held i l until t (claims id l' ts ms) o h =
    claim-All (OfRow i (IsHeldUntil l until)) id l' ts ms
      (λ r e q same. ground (arith, e, q same, same, o)) t h
step-held i l until t (completes swept id l' ts) o h =
    complete-All (OfRow i (IsHeldUntil l until)) swept id l' ts
      (λ r e q same. ground (arith, e, q same, same, o)) t h
step-held i l until t (deletes b runs) o h =
    delete_for_runs-All (OfRow i (IsHeldUntil l until)) b runs t h

run-held :
    (i l : Ident) (until : Timestamp) (cs : List Call) (t : Checkpoints)
    → All (IsOther i l until) cs
    → All (OfRow i (IsHeldUntil l until)) t
    → All (OfRow i (IsHeldUntil l until)) (run t cs)
unfolding run
run-held i l until [] t o h = h
run-held i l until (c ∷ cs) t o h =
    run-held i l until cs (step t c) o.1 (step-held i l until t c o.0 h)

-- What a write that is granted leaves in the table.
abbrev IsTaken : Ident → Ident → Timestamp → Checkpoint → Checkpoints → Type 0
IsTaken i l until held t = IsHeldUntil l until held × (Unique key t × (get key i t ≡ some held))

hold-IsTaken :
    (i l : Ident) (until : Timestamp) (guard : Checkpoint → Bool) (t : Checkpoints)
    (held : Checkpoint)
    → Unique key t
    → (cas key i guard (hold l until) t).0 ≡ some held
    → IsTaken i l until held (cas key i guard (hold l until) t).1
hold-IsTaken i l until guard t held u won =
    let (r, _, _, same, found) = cas_won key i guard (hold l until) (λ r. refl) t held u won in
    (
      (ground (arith, same), (ground (arith, same), ground (arith, same))),
      (cas-Unique key i guard (hold l until) (λ r. refl) t u, found),
    )

or_reclaimed-IsTaken :
    (i l : Ident) (until : Timestamp) (held : Checkpoint)
    (first second : Option Checkpoint × Checkpoints)
    → (first.0 ≡ some held → IsTaken i l until held first.1)
    → (second.0 ≡ some held → IsTaken i l until held second.1)
    → (or_reclaimed first second).0 ≡ some held
    → IsTaken i l until held (or_reclaimed first second).1
or_reclaimed-IsTaken i l until held (none, t) second h k won = k won
or_reclaimed-IsTaken i l until held (some r, t) second h k won = h won

claim-IsTaken :
    (i l : Ident) (ts : Timestamp) (ms : Option ℕ) (t : Checkpoints) (held : Checkpoint)
    → Unique key t
    → (claim i l ts ms t).0 ≡ some held
    → IsTaken i l (add_ms ts (lease_length ms)) held (claim i l ts ms t).1
unfolding claim
claim-IsTaken i l ts ms t held u won =
    let until = add_ms ts (lease_length ms) in
    let u' = cas-Unique key i where_pending (hold l until) (λ r. refl) t u in
    or_reclaimed-IsTaken i l until held (cas key i where_pending (hold l until) t) _
      (hold-IsTaken i l until where_pending t held u)
      (hold-IsTaken i l until (where_lapsed ts) _ held u') won

-- A claim that is granted excludes everybody else while its lease lasts: after any operations of others,
-- none of which completes this checkpoint under this lease, claims it once the lease has lapsed or creates a
-- row with its id, a claim of it before the lease lapses is refused, and so is its completion under another
-- lease.
pub claim_excludes :
    (i l : Ident) (ts : Timestamp) (ms : Option ℕ) (t : Checkpoints) (held : Checkpoint)
    (cs : List Call) (l' : Ident) (ts' : Timestamp) (ms' : Option ℕ) (swept : Bool) (l'' : Ident)
    (ts'' : Timestamp)
    → Unique key t
    → (claim i l ts ms t).0 ≡ some held
    → All (IsOther i l (add_ms ts (lease_length ms))) cs
    → ts' < add_ms ts (lease_length ms)
    → l'' ≢ l
    → let t' = run (claim i l ts ms t).1 cs in
      ((claim i l' ts' ms' t').0 ≡ none) × ((complete swept i l'' ts'' t').0 ≡ none)
unfolding complete
claim_excludes i l ts ms t held cs l' ts' ms' swept l'' ts'' u won others before other =
    let until = add_ms ts (lease_length ms) in
    let row = claim-IsTaken i l ts ms t held u won in
    let kept = run-held i l until cs (claim i l ts ms t).1 others (
      All-map (λ r same e. subst (IsHeldUntil l until) (sym (same e)) row.0) _
        (only_row i _ held row.1.0 row.1.1)) in
    (
      claim-refused i l' ts' ms' _ (All-map (λ r h e. ground (arith, h e, before)) _ kept),
      update-none (λ r. key r == i && is_held_by l'' r) (retire ts'') _
          (All-map (λ r h. ground (arith, h, other)) _ kept),
    )

-- Calls that give the id to no new row.
abbrev pub KeepsId : Ident → Call → Type 0
KeepsId i (creates input) = input.id ≢ i
KeepsId i (claims id l ts ms) = Unit
KeepsId i (completes swept id l ts) = Unit
KeepsId i (deletes b runs) = Unit

step-IsConsumed :
    (i : Ident) (t : Checkpoints) (c : Call)
    → KeepsId i c
    → All (OfRow i IsConsumed) t
    → All (OfRow i IsConsumed) (step t c)
unfolding step
step-IsConsumed i t (creates input) o h =
    create-All (OfRow i IsConsumed) input t (λ e. absurd (o e)) h
step-IsConsumed i t (claims id l ts ms) o h =
    claim-All (OfRow i IsConsumed) id l ts ms (λ r e q same. ground (arith, e, q same)) t h
step-IsConsumed i t (completes swept id l ts) o h =
    complete-All (OfRow i IsConsumed) swept id l ts (λ r e q same. refl) t h
step-IsConsumed i t (deletes b runs) o h = delete_for_runs-All (OfRow i IsConsumed) b runs t h

run-IsConsumed :
    (i : Ident) (cs : List Call) (t : Checkpoints)
    → All (KeepsId i) cs
    → All (OfRow i IsConsumed) t
    → All (OfRow i IsConsumed) (run t cs)
unfolding run
run-IsConsumed i [] t o h = h
run-IsConsumed i (c ∷ cs) t o h = run-IsConsumed i cs (step t c) o.1 (step-IsConsumed i t c o.0 h)

-- A checkpoint is single use: after a completion that was accepted, and any operations that give its id to no
-- new row, every claim of it and every completion of it is refused, under every lease and at any time.
pub complete_once :
    (swept : Bool) (i l : Ident) (ts : Timestamp) (t : Checkpoints) (done : Checkpoint)
    (cs : List Call) (l' : Ident) (ts' : Timestamp) (ms : Option ℕ) (swept' : Bool)
    → Unique key t
    → (complete swept i l ts t).0 ≡ some done
    → All (KeepsId i) cs
    → let t' = run (complete swept i l ts t).1 cs in
      (done.status ≡ consumed)
      × (((claim i l' ts' ms t').0 ≡ none) × ((complete swept' i l' ts' t').0 ≡ none))
unfolding complete
complete_once swept i l ts t done cs l' ts' ms swept' u won keep =
    let (r, _, _, same, found) =
      cas_won key i (is_held_by l) (retire ts) (λ r. refl) t done u won in
    let final : done.status ≡ consumed = ground (arith, same) in
    let u' = cas-Unique key i (is_held_by l) (retire ts) (λ r. refl) t u in
    let rows =
      sweep_after-All (OfRow i IsConsumed) swept i (cas key i (is_held_by l) (retire ts) t) (
        All-map (λ r same' e. subst IsConsumed (sym (same' e)) final) _
          (only_row i _ done u' found)) in
    let kept = run-IsConsumed i cs _ keep rows in
    (
      final,
      (
        claim-refused i l' ts' ms _ (All-map (λ r h e. ground (arith, h e)) _ kept),
        update-none (λ r. key r == i && is_held_by l' r) (retire ts') _
            (All-map (λ r h. ground (arith, h)) _ kept),
      ),
    )
