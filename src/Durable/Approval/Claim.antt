-- ===== src/Durable/Approval/Claim.antt =====
-- What `claim` answers, on every branch, and the bound of `list`.
use Prim.Native.Nat.{min}
use busyclaw.Prelude.{
  filter, ℕ, ◌≤◌, ◌<◌, ◌≡◌, refl, ◌↔◌, ◌⊎◌, inl, inr, true, Option, none, some, arith, ◌∙◌, Ident,
  Timestamp, add_ms, sym, Option-cases, Bool-cases, length, length-take-le, subst,
}
use busyclaw.Contracts.Approval.{ApprovalRecord, ApprovalStatus, approved, executing}
use busyclaw.Storage.Table.{get}
use busyclaw.Storage.Table.Laws.{Unique, cas_returns, get_key, get-cas}
use busyclaw.Durable.Approval.{
  Approvals, key, claim_admits, claim_write, claim, is_as_seen, list, matches_filter,
}

-- When an approval may be taken: granted and not expired, or in execution under a lease that has
-- lapsed, and not expired.
pub record MayTake (now now' : Timestamp) (r : ApprovalRecord) : Type 0 where
  pub status :
      (r.status ≡ approved)
      ⊎ ((r.status ≡ executing) × ((at : Timestamp) × (r.lease_expires_at ≡ some at) × (at < now)))
  pub unexpired :
      (r.expires_at ≡ none) ⊎ ((at : Timestamp) × (r.expires_at ≡ some at) × (now' ≤ at))

claim_admits_iff :
    (now now' : Timestamp) (r : ApprovalRecord)
    → (claim_admits now now' r ≡ true) ↔ MayTake now now' r
unfolding claim_admits
claim_admits_iff now now' r = (
  λ h. record { status = ground arith; unexpired = ground arith },
  λ m. ground (arith, m.status, m.unexpired),
)

is_as_seen_self : (r : ApprovalRecord) → is_as_seen r r ≡ true
is_as_seen_self r = ground arith

abbrev pub taken_row : ApprovalRecord → Ident → Timestamp → ApprovalRecord
taken_row seen lease until = record seen {
  status = executing;
  lease_id = some lease;
  lease_expires_at = some until;
}

claim_write_taken :
    (seen : ApprovalRecord) (lease : Ident) (until : Timestamp) (t : Approvals)
    → Unique key t
    → get key seen.id t ≡ some seen
    → ((claim_write seen lease until t).0 ≡ some (taken_row seen lease until))
      × (get key seen.id (claim_write seen lease until t).1 ≡ some (taken_row seen lease until))
unfolding claim_write
claim_write_taken seen lease until t u e = (
  cas_returns key seen.id _ _ t u ∙ (rw (e, is_as_seen_self seen)),
  get-cas key seen.id _ _ (λ r. refl) t u ∙ (rw (e, is_as_seen_self seen)),
)

module _ (id : Ident) (lease_ms : ℕ) (lease : Ident) (now now' now'' : Timestamp)
    (t : Approvals) where
  -- A stored approval that may be taken is taken: `claim` answers and stores the row as it was read,
  -- in execution under the new lease for `lease_ms` from now.
  claim_taken :
      (seen : ApprovalRecord)
      → Unique key t
      → get key id t ≡ some seen
      → MayTake now now' seen
      → ((claim id lease_ms lease now now' now'' t).0
          ≡ some (taken_row seen lease (add_ms now'' lease_ms)))
        × (get key id (claim id lease_ms lease now now' now'' t).1
            ≡ some (taken_row seen lease (add_ms now'' lease_ms)))
  unfolding claim
  claim_taken seen u e m =
      let same = get_key key id t seen e in
      let ok = (claim_admits_iff now now' seen).1 m in
      let until = add_ms now'' lease_ms in
      rw (e, claim, ok)
        (subst
          (λ j.
            ((claim_write seen lease until t).0 ≡ some (taken_row seen lease until))
            × (get key j (claim_write seen lease until t).1 ≡ some (taken_row seen lease until)))
          same
          (claim_write_taken seen lease until t u
            (subst (λ j. get key j t ≡ some seen) (sym same) e)))

  refused :
      ¬ ((seen : ApprovalRecord) × (get key id t ≡ some seen) × MayTake now now' seen)
      → ((claim id lease_ms lease now now' now'' t).0 ≡ none)
        × ((claim id lease_ms lease now now' now'' t).1 ≡ t)
  unfolding claim
  refused h = elim (Option-cases (get key id t)) [
    | inl e ↦ rw (e, claim) (refl, refl)
    | inr (seen, e) ↦ elim (Bool-cases (claim_admits now now' seen)) [
      | inl ok ↦ absurd (h (seen, e, (claim_admits_iff now now' seen).0 ok))
      | inr bad ↦ rw (e, claim, bad) (refl, refl)
    ]
  ]

  -- `claim` answers null exactly if the approval is not stored or may not be taken: not granted,
  -- expired, finished, or in execution under a lease that has not lapsed.
  pub claim-none_iff :
      Unique key t
      → ((claim id lease_ms lease now now' now'' t).0 ≡ none)
        ↔ (¬ ((seen : ApprovalRecord) × (get key id t ≡ some seen) × MayTake now now' seen))
  claim-none_iff u = (λ e m. cc (e, (claim_taken m.0 u m.1 m.2).0), λ h. (refused h).0)

-- `list` answers at most 500 rows, with or without a limit, and at most as many as were asked for.
length-list :
    (status : Option ApprovalStatus) (principal : Option Ident) (n : ℕ) (t : Approvals)
    → (length (list status principal none t) ≤ 500)
      × (length (list status principal (some n) t) ≤ 500)
      × (length (list status principal (some n) t) ≤ n)
unfolding list
length-list status principal n t =
    let most = length-take-le (min n 500) (filter (matches_filter status principal) t) in
    (length-take-le 500 _, omega (arith, most), omega (arith, most))
