-- ===== src/Contracts/Approval.antt =====
-- packages/foundation/contracts/src/governance/approval.ts: the approval row. Payloads that no code
-- here looks into (arguments, metadata, results, texts) are numbers.
use busyclaw.Prelude.{Bool, true, false, ◌&&◌, Option, List, Ident, Timestamp, ◌==◌, opt_eq}

-- One question that a gate put: which gate, and under which reason code.
pub record GateDemand : Type 0 where
  pub gate_id : Ident
  pub reason_code : Option Ident

-- `sameDemand` (packages/foundation/core/src/governance.ts).
unfoldable pub same_demand : GateDemand → GateDemand → Bool
same_demand a b = a.gate_id == b.gate_id && opt_eq a.reason_code b.reason_code

pub data ApprovalStatus : Type 0 where
  pending approved denied executing completed : ApprovalStatus

abbrev pub has_status : ApprovalStatus → ApprovalStatus → Bool
has_status pending pending = true
has_status approved approved = true
has_status denied denied = true
has_status executing executing = true
has_status completed completed = true
has_status _ _ = false

pub record ApprovalRecord : Type 0 where
  pub id : Ident
  pub status : ApprovalStatus
  pub gate_id : Ident
  pub demands : List GateDemand
  pub tool_name : Ident
  pub args : Ident
  pub reason_code : Option Ident
  pub principal : Option Ident
  pub claw_id : Option Ident
  pub scope : Ident
  pub scope_id : Ident
  pub reason : Option Ident
  pub metadata : Option Ident
  pub decided_by : Option Ident
  pub created_at : Timestamp
  pub expires_at : Option Timestamp
  pub lease_id : Option Ident
  pub lease_expires_at : Option Timestamp
  pub result : Option Ident
