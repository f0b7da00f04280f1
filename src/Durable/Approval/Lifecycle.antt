-- ===== src/Durable/Approval/Lifecycle.antt =====
-- The life of one approval under any history of calls, stale claims included.
use busyclaw.Prelude.{
  ◌≡◌, refl, ◌⊎◌, inl, inr, Bool, true, false, Option, none, some, ◌&&◌, ◌==◌, List, [], ◌∷◌, arith,
  Ident, Timestamp, All, if◌then◌else◌, Bool-cases, ◌∙◌, ap,
}
use busyclaw.Contracts.Approval.{
  ApprovalRecord, ApprovalStatus, has_status, pending, approved, denied, executing, completed,
}
use busyclaw.Storage.Table.{get, or_keep}
use busyclaw.Storage.Table.Laws.{
  Unique, cas-Unique, get-cas_at, map_row, get-or_keep-create, or_keep-create-Unique,
}
use busyclaw.Storage.Machine.{Machine, run, run_keeps}
use busyclaw.Durable.Approval.{
  Approvals, key, grant, deny, claim_admits, claim_write, heartbeat, complete, create, denied_row,
  is_as_seen, is_held_by,
}

-- One write that reaches the table. `takes` is the second half of a `claim` whose first half read
-- `seen` at any earlier time.
pub data Call : Type 0 where
  grants : (id by : Ident) → Call
  denies : (id by : Ident) (why : Option Ident) → Call
  takes : (seen : ApprovalRecord) (lease : Ident) (now now' until : Timestamp) → Call
  beats : (id lease : Ident) (until : Timestamp) → Call
  completes : (id lease result : Ident) → Call
  creates : (id : Ident) (input : ApprovalRecord) → Call

unfoldable pub step : Approvals → Call → Approvals
step t (grants id by) = (grant id by t).1
step t (denies id by why) = (deny id by why t).1
step t (takes seen lease now now' until) =
    if claim_admits now now' seen then (claim_write seen lease until t).1 else t
step t (beats id lease until) = (heartbeat id lease until t).1
step t (completes id lease result) = (complete id lease result t).1
step t (creates id input) = or_keep t (create id input t)

-- The row that a call addresses, as one approval sees it.
unfoldable pub after : Call → ApprovalRecord → ApprovalRecord
after (grants id by) r =
    if r.id == id && has_status r.status pending
    then record r { status = approved; decided_by = some by }
    else r
after (denies id by why) r =
    if r.id == id && has_status r.status pending then denied_row by why r else r
after (takes seen lease now now' until) r =
    if claim_admits now now' seen && (r.id == seen.id && is_as_seen seen r)
    then record r { status = executing; lease_id = some lease; lease_expires_at = some until }
    else r
after (beats id lease until) r =
    if r.id == id && is_held_by lease r then record r { lease_expires_at = some until } else r
after (completes id lease result) r =
    if r.id == id && is_held_by lease r
    then record r { status = completed; result = some result }
    else r
after (creates id input) r = r

denied_row-id :
    (by : Ident) (why : Option Ident) (r : ApprovalRecord) → (denied_row by why r).id ≡ r.id
denied_row-id by none r = refl
denied_row-id by (some w) r = refl

pub step-Unique : (t : Approvals) (c : Call) → Unique key t → Unique key (step t c)
unfolding step grant deny claim_write heartbeat complete create
step-Unique t (grants id by) u = cas-Unique key id _ _ (λ r. refl) t u
step-Unique t (denies id by why) u = cas-Unique key id _ _ (denied_row-id by why) t u
step-Unique t (takes seen lease now now' until) u = ground (
  arith,
  cas-Unique key seen.id (is_as_seen seen)
      (λ r. record r { status = executing; lease_id = some lease; lease_expires_at = some until })
      (λ r. refl) t u,
)
step-Unique t (beats id lease until) u = cas-Unique key id _ _ (λ r. refl) t u
step-Unique t (completes id lease result) u = cas-Unique key id _ _ (λ r. refl) t u
step-Unique t (creates id input) u = or_keep-create-Unique key _ t u

-- Every write moves each stored approval by `after`, whatever else the table holds.
pub get-step :
    (i : Ident) (t : Approvals) (c : Call) (r : ApprovalRecord)
    → Unique key t
    → get key i t ≡ some r
    → get key i (step t c) ≡ some (after c r)
unfolding step after grant deny claim_write heartbeat complete create
get-step i t (grants id by) r u e = get-cas_at key id _ _ (λ r. refl) i t u ∙ ap (map_row key _) e
get-step i t (denies id by why) r u e =
    get-cas_at key id _ _ (denied_row-id by why) i t u ∙ ap (map_row key _) e
get-step i t (takes seen lease now now' until) r u e =
    elim (Bool-cases (claim_admits now now' seen)) [
      | inl ok ↦ rw ok (get-cas_at key seen.id _ _ (λ r. refl) i t u ∙ ap (map_row key _) e)
      | inr bad ↦ rw bad e
    ]
get-step i t (beats id lease until) r u e =
    get-cas_at key id _ _ (λ r. refl) i t u ∙ ap (map_row key _) e
get-step i t (completes id lease result) r u e =
    get-cas_at key id _ _ (λ r. refl) i t u ∙ ap (map_row key _) e
get-step i t (creates id input) r u e = get-or_keep-create key i _ r t e

abbrev pub machine : Machine ApprovalRecord Call
machine = record { key = key; step = step; after = after; unique = step-Unique; row = get-step }

-- The order in which an approval's status may change.
abbrev pub follows : ApprovalStatus → ApprovalStatus → Bool
follows pending _ = true
follows approved approved = true
follows approved executing = true
follows approved completed = true
follows executing executing = true
follows executing completed = true
follows denied denied = true
follows completed completed = true
follows _ _ = false

-- What no history of calls may change, and what it may change only forward.
pub record IsLater (r r' : ApprovalRecord) : Type 0 where
  pub forward : follows r.status r'.status ≡ true
  pub settled : (r.status ≡ denied) ⊎ (r.status ≡ completed) → r' ≡ r
  pub id : r'.id ≡ r.id
  pub tool_name : r'.tool_name ≡ r.tool_name
  pub args : r'.args ≡ r.args
  pub demands : r'.demands ≡ r.demands
  pub principal : r'.principal ≡ r.principal
  pub scope : r'.scope ≡ r.scope
  pub scope_id : r'.scope_id ≡ r.scope_id
  pub expires_at : r'.expires_at ≡ r.expires_at

after-IsLater : (c : Call) (r : ApprovalRecord) → IsLater r (after c r)
unfolding after claim_admits
after-IsLater (grants id by) r = ground arith
after-IsLater (denies id by none) r = ground arith
after-IsLater (denies id by (some w)) r = ground arith
after-IsLater (takes seen lease now now' until) r = ground arith
after-IsLater (beats id lease until) r = ground arith
after-IsLater (completes id lease result) r = ground arith
after-IsLater (creates id input) r = ground arith

IsLater-trans : (r s u : ApprovalRecord) → IsLater r s → IsLater s u → IsLater r u
IsLater-trans r s u p q = ground (arith, p.settled, q.settled)

All-Unit : (cs : List Call) → All (λ _. Unit {0}) cs
All-Unit [] = tt
All-Unit (c ∷ cs) = (tt, All-Unit cs)

IsLater-refl : (r : ApprovalRecord) → IsLater r r
IsLater-refl r = ground arith

-- Whatever history of calls follows, in whatever order and with claims that read the row at any
-- earlier time: a stored approval stays stored, its status only moves forward (a decision is never
-- taken back, an execution never undone), a denied or completed row is never written again, and the
-- call it authorises, its demands, its requester, its boundary and its expiry stay what they were.
pub run-IsLater :
    (i : Ident) (cs : List Call) (t : Approvals) (r : ApprovalRecord)
    → Unique key t
    → get key i t ≡ some r
    → (r' : ApprovalRecord) × (get key i (run machine t cs) ≡ some r') × IsLater r r'
run-IsLater i cs t r u e =
    run_keeps machine (IsLater r) (λ _. Unit {0})
      (λ c s _ p. IsLater-trans r s (after c s) p (after-IsLater c s)) i cs t r u e (All-Unit cs)
      (IsLater-refl r)
