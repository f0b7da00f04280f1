-- ===== src/Core/Gates.antt =====
-- The gates: packages/foundation/core/src/governance.ts, `resolveReason`, `add`, `runBoundaryBeforeGates`
-- and `runToolBeforeGates`. A call and its context are one value, of a type that the gates share; a
-- gate's matcher and handler (a plugin's) are functions on it. The catalog of reason codes is a function.
pub mod Decide
pub mod Seal
use busyclaw.Prelude.{
  ℕ, Bool, true, false, ◌||◌, ◌&&◌, not, Option, none, some, List, [], ◌∷◌, ◌++◌, ◌==◌,
  if◌then◌else◌, any, filter, Ident,
}
use busyclaw.Contracts.Approval.{GateDemand, same_demand}

-- What a gate says beside its decision.
pub record Objection : Type 0 where
  pub reason : Option Ident
  pub reason_code : Option Ident
  pub annotations : Option Ident
  pub model_annotations : Option Ident

-- `GateDecision`, with the results that do not parse as one.
pub data Verdict : Type 0 where
  permit invalid : Verdict
  deny needs_approval : Objection → Verdict

pub record Gate (C : Type 0) : Type 0 where
  pub id : Ident
  pub matcher : C → Bool
  pub handler : C → Verdict
  pub is_sealed : Bool

pub record Denial : Type 0 where
  pub gate_id : Ident
  pub reason : Ident
  pub reason_code : Option Ident
  pub annotations : Option Ident
  pub model_annotations : Option Ident

pub record Demand : Type 0 where
  pub asks : GateDemand
  pub reason : Ident
  pub annotations : Option Ident
  pub model_annotations : Option Ident

pub data GateError : Type 0 where
  invalid_decision approval_unsupported : Ident → GateError

-- The outcome of the before-gates: nothing objected, a denial, a demand, or a throw.
pub data Before : Type 0 where
  passes : Before
  denied : Denial → List Demand → Before
  demands_approval : Demand → List Demand → Before
  throws : GateError → Before

-- The empty text.
abbrev pub no_text : Ident
no_text = 0

-- The gate's reason, else the catalog's message for its code, else the code. An empty code is no code.
abbrev pub resolve_reason : (Ident → Option Ident) → Objection → Ident
resolve_reason catalog v = elim v.reason [
  | some text ↦ text
  | none ↦ elim v.reason_code [
    | none ↦ no_text
    | some code ↦
        if code == no_text
        then no_text
        else elim (catalog code) [ none ↦ code | some message ↦ message ]
  ]
]

abbrev pub denial_of : (Ident → Option Ident) → Ident → Objection → Denial
denial_of catalog gate_id v = record {
  gate_id = gate_id;
  reason = resolve_reason catalog v;
  reason_code = v.reason_code;
  annotations = v.annotations;
  model_annotations = v.model_annotations;
}

abbrev pub demand_of : (Ident → Option Ident) → Ident → Objection → Demand
demand_of catalog gate_id v = record {
  asks = record { gate_id = gate_id; reason_code = v.reason_code };
  reason = resolve_reason catalog v;
  annotations = v.annotations;
  model_annotations = v.model_annotations;
}

-- The approval that the call resumes with answers the demand.
abbrev pub is_met : List GateDemand → Demand → Bool
is_met satisfied d = any (λ met. same_demand met d.asks) satisfied

-- The first denial is kept.
abbrev pub or_else : Option Denial → Denial → Option Denial
or_else none d = some d
or_else (some e) d = some e

-- What is answered once every gate has spoken.
abbrev pub conclude : Option Denial → List Demand → Before
conclude (some denial) demands = denied denial demands
conclude none [] = passes
conclude none (first ∷ rest) = demands_approval first (first ∷ rest)

module _ {C : Type 0} (catalog : Ident → Option Ident) (satisfied : List GateDemand)
    (call : C) where
  -- The loop of `runBoundaryBeforeGates`, with the denial and the demands so far.
  unfoldable pub run_boundary_gates : Bool → List (Gate C) → Option Denial → List Demand → Before
  unfolding same_demand
  run_boundary_gates allow [] denial demands = conclude denial demands
  run_boundary_gates allow (gate ∷ gates) denial demands =
      if gate.matcher call
      then elim (gate.handler call) [
        | permit ↦ run_boundary_gates allow gates denial demands
        | invalid ↦ throws (invalid_decision gate.id)
        | deny v ↦
            run_boundary_gates allow gates (or_else denial (denial_of catalog gate.id v)) demands
        | needs_approval v ↦
            if not allow
            then throws (approval_unsupported gate.id)
            else if is_met satisfied (demand_of catalog gate.id v)
            then run_boundary_gates allow gates denial demands
            else run_boundary_gates allow gates denial (demands ++ demand_of catalog gate.id v ∷ [])
      ]
      else run_boundary_gates allow gates denial demands

  -- The loop of `runToolBeforeGates`.
  unfoldable pub run_tool_gates : List (Gate C) → Option Denial → List Demand → Before
  unfolding same_demand
  run_tool_gates [] denial demands = conclude denial demands
  run_tool_gates (gate ∷ gates) denial demands =
      if gate.matcher call
      then elim (gate.handler call) [
        | permit ↦ run_tool_gates gates denial demands
        | invalid ↦ throws (invalid_decision gate.id)
        | deny v ↦ run_tool_gates gates (or_else denial (denial_of catalog gate.id v)) demands
        | needs_approval v ↦
            if is_met satisfied (demand_of catalog gate.id v)
            then run_tool_gates gates denial demands
            else run_tool_gates gates denial (demands ++ demand_of catalog gate.id v ∷ [])
      ]
      else run_tool_gates gates denial demands

abbrev pub run_boundary_before_gates :
    {C : Type 0} → (Ident → Option Ident) → List (Gate C) → C → List GateDemand → Bool → Before
run_boundary_before_gates catalog gates call satisfied allow =
    run_boundary_gates catalog satisfied call allow gates none []

abbrev pub run_tool_before_gates :
    {C : Type 0} → (Ident → Option Ident) → List (Gate C) → C → List GateDemand → Before
run_tool_before_gates catalog gates call satisfied =
    run_tool_gates catalog satisfied call gates none []

-- A gate takes its place: a sealed one before the first gate that is not sealed, any other at the end.
unfoldable pub insert_gate : {C : Type 0} → Gate C → List (Gate C) → List (Gate C)
insert_gate gate [] = gate ∷ []
insert_gate gate (g ∷ gs) =
    if gate.is_sealed && not g.is_sealed then gate ∷ g ∷ gs else g ∷ insert_gate gate gs

-- The gate of an id is taken out. `none`: it is sealed, and stays.
unfoldable pub remove_gate : {C : Type 0} → Ident → List (Gate C) → Option (List (Gate C))
remove_gate i [] = some []
remove_gate i (g ∷ gs) =
    let rest = remove_gate i gs in
    if g.id == i
    then (if g.is_sealed then none else some gs)
    else elim rest [ none ↦ none | some gs' ↦ some (g ∷ gs') ]

-- The lists of before-gates and their bookkeeping.
pub record Registry (C : Type 0) : Type 0 where
  pub boundary : List (Gate C)
  pub tool : List (Gate C)
  pub sealed_ids : List Ident
  pub boundary_ids : List Ident
  pub tool_ids : List Ident

abbrev pub has : Ident → List Ident → Bool
has i ids = any (λ j. j == i) ids

abbrev pub note_sealed : Bool → Ident → List Ident → List Ident
note_sealed true i ids = i ∷ ids
note_sealed false i ids = ids

-- `add` on one list: an id that is there and sealed refuses (`sealed` holds the sealed ids of every
-- list, and is asked only if the id is in this one).
unfoldable pub add_to : {C : Type 0} → List Ident → List (Gate C) → Gate C → Option (List (Gate C))
unfolding remove_gate insert_gate
add_to sealed_ids gates gate =
    if any (λ g. g.id == gate.id) gates && has gate.id sealed_ids
    then none
    else elim (remove_gate gate.id gates) [ none ↦ none | some rest ↦ some (insert_gate gate rest) ]

-- `registerBoundaryGate` and `registerGate`: `none` is a thrown state error, which changes nothing.
unfoldable pub register_boundary_gate : {C : Type 0} → Gate C → Registry C → Option (Registry C)
unfolding add_to
register_boundary_gate gate r =
    if has gate.id r.tool_ids then none else elim (add_to r.sealed_ids r.boundary gate) [
      | none ↦ none
      | some gates ↦ some (record r {
        boundary = gates;
        sealed_ids = note_sealed gate.is_sealed gate.id r.sealed_ids;
        boundary_ids = gate.id ∷ r.boundary_ids;
      })
    ]

unfoldable pub register_gate : {C : Type 0} → Gate C → Registry C → Option (Registry C)
unfolding add_to
register_gate gate r =
    if has gate.id r.boundary_ids then none else elim (add_to r.sealed_ids r.tool gate) [
      | none ↦ none
      | some gates ↦ some (record r {
        tool = gates;
        sealed_ids = note_sealed gate.is_sealed gate.id r.sealed_ids;
        tool_ids = gate.id ∷ r.tool_ids;
      })
    ]
