-- ===== src/Durable/Approval/Fencing.antt =====
-- Who may execute an approval: one taker for each reading, and the current lease only.
use busyclaw.Prelude.{
  ◌≡◌, refl, ◌≢◌, ◌⊎◌, inr, true, false, none, some, List, arith, All, ap, ◌∙◌, Ident, Timestamp,
}
use busyclaw.Contracts.Approval.{ApprovalRecord, pending, approved, denied, executing, completed}
use busyclaw.Storage.Table.{get}
use busyclaw.Storage.Table.Laws.{Unique, cas_won, cas_returns, cas-Unique}
use busyclaw.Storage.Machine.{run, run_keeps, run-Unique}
use busyclaw.Durable.Approval.{
  Approvals, key, claim_admits, claim_write, heartbeat, complete, is_as_seen, is_held_by,
}
use busyclaw.Durable.Approval.Lifecycle.{
  Call, grants, denies, takes, beats, completes, creates, after, machine, run-IsLater,
}

-- The lease is not minted again: fresh ids are random.
abbrev pub Avoids : Ident → Call → Type 0
Avoids l (takes seen lease now now' until) = lease ≢ l
Avoids l _ = Unit

-- The row is finished, or is being executed under another lease than `l`.
abbrev pub HasLost : Ident → ApprovalRecord → Type 0
HasLost l r =
    (r.status ≡ completed)
    ⊎ ((r.status ≡ denied) ⊎ ((r.status ≡ executing) × (r.lease_id ≢ some l)))

after-HasLost :
    (l : Ident) (c : Call) (r : ApprovalRecord) → Avoids l c → HasLost l r → HasLost l (after c r)
unfolding after
after-HasLost l (grants id by) r a h = ground arith
after-HasLost l (denies id by none) r a h = ground arith
after-HasLost l (denies id by (some w)) r a h = ground arith
after-HasLost l (takes seen lease now now' until) r a h = ground arith
after-HasLost l (beats id lease until) r a h = ground arith
after-HasLost l (completes id lease result) r a h = ground arith
after-HasLost l (creates id input) r a h = ground arith

not-held : (l : Ident) (r : ApprovalRecord) → HasLost l r → is_held_by l r ≡ false
not-held l r h = ground arith

-- A lease that the row no longer carries stays refused for ever: after any history that does not
-- mint the same lease id again, `heartbeat` and `complete` under it answer null.
lost_lease_refused :
    (l : Ident) (i : Ident) (cs : List Call) (t : Approvals) (r : ApprovalRecord)
    → Unique key t
    → get key i t ≡ some r
    → HasLost l r
    → All (Avoids l) cs
    → (until : Timestamp) (result : Ident)
    → ((heartbeat i l until (run machine t cs)).0 ≡ none)
      × ((complete i l result (run machine t cs)).0 ≡ none)
unfolding heartbeat complete
lost_lease_refused l i cs t r u e h a until result =
    let (r', found, lost) =
      run_keeps machine (HasLost l) (Avoids l) (after-HasLost l) i cs t r u e a h in
    let u' = run-Unique machine t cs u in
    (
      cas_returns key i _ _ (run machine t cs) u' ∙ (rw (found, not-held l r' lost)),
      cas_returns key i _ _ (run machine t cs) u' ∙ (rw (found, not-held l r' lost)),
    )

-- What a reading that let a claim go on has seen.
claim_admits_status :
    (now now' : Timestamp) (seen : ApprovalRecord)
    → claim_admits now now' seen ≡ true
    → (seen.status ≡ approved) ⊎ (seen.status ≡ executing)
unfolding claim_admits
claim_admits_status now now' seen h = ground arith

-- The reading `seen`, made before another claim won on it, fits the row no more.
abbrev IsOutdated : ApprovalRecord → Ident → ApprovalRecord → Type 0
IsOutdated seen l r =
    (r.status ≢ pending) × (r.status ≢ approved) × (seen.status ≡ executing → HasLost l r)

after-IsOutdated :
    (seen : ApprovalRecord) (l : Ident) (c : Call) (r : ApprovalRecord)
    → Avoids l c
    → IsOutdated seen l r
    → IsOutdated seen l (after c r)
unfolding after claim_admits
after-IsOutdated seen l c r a h =
    (not_pending c r h, not_approved c r h, λ e. after-HasLost l c r a (h.2 e))
  where
    not_pending :
        (c : Call) (r : ApprovalRecord) → IsOutdated seen l r → (after c r).status ≢ pending
    not_pending (grants id by) r h = ground arith
    not_pending (denies id by none) r h = ground arith
    not_pending (denies id by (some w)) r h = ground arith
    not_pending (takes s lease now now' until) r h = ground arith
    not_pending (beats id lease until) r h = ground arith
    not_pending (completes id lease result) r h = ground arith
    not_pending (creates id input) r h = ground arith

    not_approved :
        (c : Call) (r : ApprovalRecord) → IsOutdated seen l r → (after c r).status ≢ approved
    not_approved (grants id by) r h = ground arith
    not_approved (denies id by none) r h = ground arith
    not_approved (denies id by (some w)) r h = ground arith
    not_approved (takes s lease now now' until) r h = ground arith
    not_approved (beats id lease until) r h = ground arith
    not_approved (completes id lease result) r h = ground arith
    not_approved (creates id input) r h = ground arith

outdated-refused :
    (seen : ApprovalRecord) (l : Ident) (r : ApprovalRecord)
    → (seen.status ≡ approved) ⊎ (seen.status ≡ executing)
    → (seen.status ≡ executing → seen.lease_id ≡ some l)
    → IsOutdated seen l r
    → is_as_seen seen r ≡ false
outdated-refused seen l r s e h = ground (arith, e, h.2)

-- One reading yields one execution. Two claims that read the same row `seen`: once the first has
-- written, the second is refused, at once or after any history of calls in between that does not mint
-- the lease id of `seen` again. (An executing row carries the lease id of the claim that took it.)
pub claim_once :
    (seen : ApprovalRecord) (l : Ident) (now now' : Timestamp) (first second : Ident)
    (until until' : Timestamp) (t : Approvals) (taken : ApprovalRecord) (cs : List Call)
    → Unique key t
    → claim_admits now now' seen ≡ true
    → (seen.status ≡ executing → seen.lease_id ≡ some l)
    → first ≢ l
    → (claim_write seen first until t).0 ≡ some taken
    → All (Avoids l) cs
    → (claim_write seen second until' (run machine (claim_write seen first until t).1 cs)).0 ≡ none
unfolding claim_write
claim_once seen l now now' first second until until' t taken cs u ok held fresh won a =
    let (r, _, _, same, found) =
      cas_won key seen.id (is_as_seen seen) _ (λ r. refl) t taken u won in
    let start : IsOutdated seen l taken =
      (ground (arith, same), ground (arith, same), λ _. ground (arith, same)) in
    let u' = cas-Unique key seen.id (is_as_seen seen) _ (λ r. refl) t u in
    let (r', now_there, old) =
      run_keeps machine (IsOutdated seen l) (Avoids l) (after-IsOutdated seen l) seen.id cs _ taken
        u' found a start in
    cas_returns key seen.id _ _ _ (run-Unique machine _ cs u')
    ∙ (rw (now_there, outdated-refused seen l r' (claim_admits_status now now' seen ok) held old))

-- The row after a `complete` that was accepted is completed with that result, and no history changes
-- it: a later `complete`, under any lease, answers null.
complete_final :
    (i l result : Ident) (t : Approvals) (done : ApprovalRecord) (cs : List Call)
    (l' result' : Ident)
    → Unique key t
    → (complete i l result t).0 ≡ some done
    → (done.status ≡ completed)
      × (done.result ≡ some result)
      × (get key i (run machine (complete i l result t).1 cs) ≡ some done)
      × ((complete i l' result' (run machine (complete i l result t).1 cs)).0 ≡ none)
unfolding complete
complete_final i l result t done cs l' result' u won =
    let (r, _, _, same, found) = cas_won key i (is_held_by l) _ (λ r. refl) t done u won in
    let u' = cas-Unique key i (is_held_by l) _ (λ r. refl) t u in
    let (r', there, later) = run-IsLater i cs _ done u' found in
    let final : done.status ≡ completed = ground (arith, same) in
    let same' : r' ≡ done = later.settled (inr final) in
    (
      final,
      ground (arith, same),
      there ∙ ap some same',
      cas_returns key i _ _ _ (run-Unique machine _ cs u')
          ∙ (rw (there, same') (ground (arith, final))),
    )
