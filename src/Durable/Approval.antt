-- ===== src/Durable/Approval.antt =====
-- packages/storage/durable/src/approval.ts: the approval store over one table. A method takes the
-- table and returns it with its answer; `now` and fresh ids are arguments, one for each reading.
pub mod Lifecycle
pub mod Fencing
pub mod Claim
mod Tests
use Prim.Native.Nat.{min}
use busyclaw.Prelude.{
  ℕ, Bool, true, false, ◌&&◌, ◌||◌, not, Option, none, some, List, ◌==◌, ltb, leb, if◌then◌else◌,
  take, Ident, Timestamp, add_ms, opt_eq,
}
use busyclaw.Contracts.Approval.{
  ApprovalRecord, ApprovalStatus, pending, approved, denied, executing, completed, has_status,
}
use busyclaw.Storage.Table
use busyclaw.Storage.Table.{get, cas, find_many}

-- The rows of the `approval` model.
abbrev pub Approvals : Type 0
Approvals = List ApprovalRecord

abbrev pub key : ApprovalRecord → Ident
key r = r.id

abbrev pub max_approval_page : ℕ
max_approval_page = 500

unfoldable pub grant : Ident → Ident → Approvals → Option ApprovalRecord × Approvals
grant id by t =
    cas key id (λ r. has_status r.status pending)
      (λ r. record r { status = approved; decided_by = some by }) t

-- The patch of `deny`: the reason is written only if one is given.
abbrev denied_row : Ident → Option Ident → ApprovalRecord → ApprovalRecord
denied_row by none r = record r { status = denied; decided_by = some by }
denied_row by (some why) r = record r { status = denied; decided_by = some by; reason = some why }

unfoldable pub deny : Ident → Ident → Option Ident → Approvals → Option ApprovalRecord × Approvals
deny id by why t = cas key id (λ r. has_status r.status pending) (denied_row by why) t

-- `at` is absent, or not before `now` (`leaseExpiresAt == null || leaseExpiresAt >= now()`).
abbrev pub holds_until : Option Timestamp → Timestamp → Bool
holds_until none now = true
holds_until (some at) now = leb now at

-- `expiresAt != null && expiresAt < now()`.
abbrev pub has_expired : Option Timestamp → Timestamp → Bool
has_expired none now = false
has_expired (some at) now = ltb at now

-- The early returns of `claim`, on the row that it read.
unfoldable pub claim_admits : Timestamp → Timestamp → ApprovalRecord → Bool
claim_admits now now' seen =
    if has_status seen.status completed
    then false
    else if has_status seen.status executing
    then not (holds_until seen.lease_expires_at now) && not (has_expired seen.expires_at now')
    else has_status seen.status approved && not (has_expired seen.expires_at now')

-- The `where` of the write that takes the approval pins what the read saw.
abbrev pub is_as_seen : ApprovalRecord → ApprovalRecord → Bool
is_as_seen seen r =
    has_status r.status seen.status
    && (if has_status seen.status executing
        then elim seen.lease_id [ none ↦ true | some l ↦ opt_eq r.lease_id (some l) ]
        else true)

unfoldable pub claim_write :
    ApprovalRecord → Ident → Timestamp → Approvals → Option ApprovalRecord × Approvals
claim_write seen lease until t =
    cas key seen.id (is_as_seen seen)
      (λ r. record r { status = executing; lease_id = some lease; lease_expires_at = some until }) t

-- `claim`: read, decide, write. The answer is the record as taken; its lease is `lease`.
unfoldable pub claim :
    Ident → ℕ → Ident → (now now' now'' : Timestamp) → Approvals → Option ApprovalRecord × Approvals
unfolding claim_admits claim_write
claim id lease_ms lease now now' now'' t = elim (get key id t) [
  | none ↦ (none, t)
  | some seen ↦
      if claim_admits now now' seen
      then claim_write seen lease (add_ms now'' lease_ms) t
      else (none, t)
]

-- The `where` of `heartbeat` and `complete`: executing, under this lease.
abbrev pub is_held_by : Ident → ApprovalRecord → Bool
is_held_by lease r = has_status r.status executing && opt_eq r.lease_id (some lease)

unfoldable pub heartbeat : Ident → Ident → Timestamp → Approvals → Option ApprovalRecord × Approvals
heartbeat id lease until t =
    cas key id (is_held_by lease) (λ r. record r { lease_expires_at = some until }) t

unfoldable pub complete : Ident → Ident → Ident → Approvals → Option ApprovalRecord × Approvals
complete id lease result t =
    cas key id (is_held_by lease) (λ r. record r { status = completed; result = some result }) t

-- A new row is pending, whatever the caller's columns are.
unfoldable pub create : Ident → ApprovalRecord → Approvals → Option Approvals
create id input t =
    Table.create key (record input { id = id; status = pending; decided_by = none }) t

abbrev matches_filter : Option ApprovalStatus → Option Ident → ApprovalRecord → Bool
matches_filter status principal r =
    elim status [ none ↦ true | some s ↦ has_status r.status s ]
    && elim principal [ none ↦ true | some p ↦ opt_eq r.principal (some p) ]

unfoldable pub list : Option ApprovalStatus → Option Ident → Option ℕ → Approvals → Approvals
unfolding find_many
list status principal limit t =
    take (min (elim limit [ none ↦ max_approval_page | some n ↦ n ]) max_approval_page)
      (find_many (matches_filter status principal) t)
