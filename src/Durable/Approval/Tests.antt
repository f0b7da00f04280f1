-- ===== src/Durable/Approval/Tests.antt =====
-- Runs of the approval store on small tables, and the theorems at them.
use busyclaw.Prelude.{◌≡◌, refl, ◌↔◌, inr, none, some, List, [], ◌∷◌, arith}
use busyclaw.Contracts.Approval.{ApprovalRecord, pending, approved, completed}
use busyclaw.Storage.Table.{get, find_one, update}
use busyclaw.Storage.Machine.{run}
use busyclaw.Durable.Approval.{
  Approvals, key, grant, claim_admits, claim, claim_write, heartbeat, complete,
}
use busyclaw.Durable.Approval.Lifecycle.{
  Call, takes, beats, completes, step, machine, IsLater, run-IsLater,
}
use busyclaw.Durable.Approval.Fencing.{claim_once}
use busyclaw.Durable.Approval.Claim.{claim-none_iff, MayTake, taken_row}

abbrev asked : ApprovalRecord
asked = record {
  id = 1;
  status = pending;
  gate_id = 9;
  demands = [];
  tool_name = 5;
  args = 6;
  reason_code = none;
  principal = some 2;
  claw_id = none;
  scope = 3;
  scope_id = 4;
  reason = none;
  metadata = none;
  decided_by = none;
  created_at = 10;
  expires_at = some 1000;
  lease_id = none;
  lease_expires_at = none;
  result = none;
}

abbrev granted : ApprovalRecord
granted = record asked { status = approved; decided_by = some 7 }

abbrev rows : Approvals
rows = granted ∷ []

abbrev running : ApprovalRecord
running = taken_row granted 77 150

approval : Unit {0}
unfolding claim claim_write complete heartbeat grant run claim_admits step find_one update
approval = tt

claim_runs : (claim 1 50 77 100 100 100 rows).0 ≡ some running
unfolding approval
claim_runs = refl

-- The approval is granted, taken under lease 77, left to lapse, taken again and finished.
abbrev history : List Call
history =
    takes granted 77 100 100 150
    ∷ takes running 78 200 200 250
    ∷ completes 1 77 40
    ∷ completes 1 78 41
    ∷ []

history_result :
    get key 1 (run machine rows history)
    ≡ some (record running {
      status = completed;
      lease_id = some 78;
      lease_expires_at = some 250;
      result = some 41;
    })
unfolding approval
history_result = refl

run-IsLater_example :
    (r' : ApprovalRecord) × (get key 1 (run machine rows history) ≡ some r') × IsLater granted r'
unfolding approval
run-IsLater_example = run-IsLater 1 history rows granted (tt, tt) refl

abbrev retaken : ApprovalRecord
retaken = record running { lease_id = some 78; lease_expires_at = some 250 }

claim_once_example :
    (claim_write running 79 270
      (run machine (claim_write running 78 250 (running ∷ [])).1 (beats 1 78 260 ∷ []))).0
    ≡ none
unfolding approval
claim_once_example =
    claim_once running 77 200 200 78 79 250 270 (running ∷ []) retaken (beats 1 78 260 ∷ [])
      (tt, tt) refl (λ _. refl) (omega arith) refl (tt, tt)

abbrev finished : ApprovalRecord
finished = record running { status = completed; result = some 41 }

abbrev late : Approvals
late = running ∷ []

may_retake : MayTake 200 200 running
may_retake = record {
  status = inr (refl, (150, refl, omega arith));
  unexpired = inr (1000, refl, omega arith);
}

claim-none_iff_example :
    ((claim 1 50 78 140 140 140 late).0 ≡ none)
    ↔ (¬ ((seen : ApprovalRecord) × (get key 1 late ≡ some seen) × MayTake 140 140 seen))
claim-none_iff_example = claim-none_iff 1 50 78 140 140 140 late (tt, tt)
