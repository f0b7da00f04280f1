-- ===== src/Core/Tests.antt =====
-- Small gates, pipelines and logs, and the theorems at them. A call is a number, and so is the state.
use busyclaw.Prelude.{
  ℕ, ◌+◌, ◌*◌, ◌≡◌, refl, ◌↔◌, inl, true, false, Option, none, some, List, [], ◌∷◌, Ident, ◌==◌,
}
use busyclaw.Contracts.Approval.{GateDemand, same_demand}
use busyclaw.Storage.Table.{find_one}
use busyclaw.Core.Gates.{
  deny, needs_approval, Objection, Gate, Denial, Demand, Registry, passes, denied, run_tool_gates,
  run_boundary_gates, run_tool_before_gates, register_gate, add_to, remove_gate, insert_gate,
}
use busyclaw.Core.Gates.Decide.{run_tool_before_gates_lem, approval_covers}
use busyclaw.Core.Gates.Seal.{IsSealedFirst, find_gate, register_gate_sealed}
use busyclaw.Core.Pipeline.{
  AfterGate, Config, output, denial, observe, run_governed, objection_stops,
}
use busyclaw.Core.Audit.{
  Snapshot, AuditEntry, AuditInput, verified, append, append_all, check_chain, verify_audit_chain,
  head_of,
}
use busyclaw.Core.Audit.Laws.{inputs_of, verifies_iff, head_pins}

abbrev no_catalog : Ident → Option Ident
no_catalog i = none

abbrev why : Objection
why = record { reason = some 4; reason_code = some 5; annotations = none; model_annotations = none }

abbrev asking : Gate ℕ
asking = record {
  id = 1;
  matcher = λ c. true;
  handler = λ c. needs_approval why;
  is_sealed = false;
}

abbrev refusing : Gate ℕ
refusing = record { id = 2; matcher = λ c. c == 7; handler = λ c. deny why; is_sealed = true }

abbrev asked_5 : GateDemand
asked_5 = record { gate_id = 1; reason_code = some 5 }

abbrev demand_5 : Demand
demand_5 = record { asks = asked_5; reason = 4; annotations = none; model_annotations = none }

abbrev denial_5 : Denial
denial_5 = record {
  gate_id = 2;
  reason = 4;
  reason_code = some 5;
  annotations = none;
  model_annotations = none;
}

core : Unit {0}
unfolding same_demand run_tool_gates run_boundary_gates register_gate add_to remove_gate insert_gate
    find_one observe run_governed append append_all check_chain verify_audit_chain head_of
core = tt

-- The second gate refuses what an approval covers for the first.
run_tool_before_gates_lem_example :
    run_tool_before_gates no_catalog (asking ∷ refusing ∷ []) 7 (asked_5 ∷ []) ≡ denied denial_5 []
unfolding core
run_tool_before_gates_lem_example =
    run_tool_before_gates_lem no_catalog 7 (asking ∷ refusing ∷ []) (asked_5 ∷ [])
      ((λ e. cc e), ((λ e. cc e), tt))

approval_covers_example :
    run_tool_before_gates no_catalog (asking ∷ refusing ∷ []) 8 (asked_5 ∷ []) ≡ passes
unfolding core
approval_covers_example =
    approval_covers no_catalog 8 (asking ∷ refusing ∷ []) demand_5 (demand_5 ∷ [])
      ((λ e. cc e), ((λ e. cc e), tt)) refl

abbrev registry : Registry ℕ
registry = record {
  boundary = [];
  tool = refusing ∷ asking ∷ [];
  sealed_ids = 2 ∷ [];
  boundary_ids = [];
  tool_ids = 2 ∷ 1 ∷ [];
}

abbrev re_asking : Gate ℕ
re_asking = record asking { is_sealed = true }

abbrev registry' : Registry ℕ
registry' = record registry {
  tool = refusing ∷ re_asking ∷ [];
  sealed_ids = 1 ∷ 2 ∷ [];
  tool_ids = 1 ∷ 2 ∷ 1 ∷ [];
}

register_gate_sealed_example :
    IsSealedFirst (refusing ∷ re_asking ∷ [])
    × ((i : Ident) (g : Gate ℕ)
        → find_gate i (refusing ∷ asking ∷ []) ≡ some g
        → g.is_sealed ≡ true
        → find_gate i (refusing ∷ re_asking ∷ []) ≡ some g)
unfolding core
register_gate_sealed_example =
    register_gate_sealed re_asking registry registry' refl ((λ e. absurd (cc e)), ((λ _. tt), tt))

abbrev counting : AfterGate ℕ ℕ
counting = record { matcher = λ c. true; handler = λ c o s. (none, s + 1) }

abbrev config : Config ℕ ℕ
config = record {
  catalog = no_catalog;
  boundary = [];
  before = refusing ∷ [];
  after = counting ∷ [];
  run_tool = λ c s. (output c, s + 100);
  redact = λ t. t;
  message_of = λ e. 0;
}

objection_stops_example :
    (run_governed config 7 [] 10).1 ≡ (observe (counting ∷ []) 7 (denial denial_5 []) 10).1
unfolding core
objection_stops_example = objection_stops config 7 [] 10 (inl (λ e. cc e))

abbrev sum_hash : Snapshot → Ident
sum_hash s = s.ts + s.content * 10 + s.seq * 100 + s.prev_hash * 1000

abbrev inputs : List AuditInput
inputs = record { ts = 1; content = 2 } ∷ record { ts = 3; content = 4 } ∷ []

abbrev log : List AuditEntry
log =
    record { snapshot = record { ts = 1; content = 2; seq = 0; prev_hash = 0 }; hash = 21 }
    ∷ record { snapshot = record { ts = 3; content = 4; seq = 1; prev_hash = 21 }; hash = 21143 }
    ∷ []

appended : append_all sum_hash inputs [] ≡ log
unfolding core
appended = refl

verifies_iff_example :
    (verify_audit_chain sum_hash log [] ≡ verified 2)
    ↔ (log ≡ append_all sum_hash (inputs_of sum_hash log) [])
verifies_iff_example = verifies_iff sum_hash log

head_pins_example : log ≡ log
unfolding core
head_pins_example = head_pins sum_hash log log 2 2 ((λ e. refl), ((λ e. refl), tt)) refl refl refl
