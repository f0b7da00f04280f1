-- ===== src/Core/Gates/Decide.antt =====
-- What the before-gates decide, against a description that looks at every gate's verdict by itself.
use busyclaw.Prelude.{
  zero, suc, Bool, false, ◌&&◌, ◌||◌, ◌==◌, ◌≡◌, refl, ◌≢◌, inl, inr, true, not, Option, none, some,
  List, [], ◌∷◌, ◌++◌, if◌then◌else◌, filter, Ident, arith, ap, sym, ◌∙◌, Bool-cases, All,
  append-nil, append_assoc, map, All-map, opt_eq,
}
use busyclaw.Contracts.Approval.{GateDemand, same_demand}
use busyclaw.Core.Gates.{
  Verdict, permit, invalid, deny, needs_approval, Gate, Denial, Demand, conclude, or_else, is_met,
  denial_of, demand_of, Objection, Before, denied, resolve_reason, passes, demands_approval,
  run_tool_gates, run_boundary_gates, run_tool_before_gates, run_boundary_before_gates,
}

module _ {C : Type 0} (catalog : Ident → Option Ident) (call : C) where
  -- The verdict that the call gets from a gate.
  abbrev pub verdict : Gate C → Verdict
  verdict gate = if gate.matcher call then gate.handler call else permit

  abbrev pub denial_in : Ident → Verdict → Option Denial
  denial_in i (deny v) = some (denial_of catalog i v)
  denial_in i _ = none

  abbrev pub demand_in : Ident → Verdict → List Demand
  demand_in i (needs_approval v) = demand_of catalog i v ∷ []
  demand_in i _ = []

  abbrev pub first_of : Option Denial → Option Denial → Option Denial
  first_of none d = d
  first_of (some e) d = some e

  -- The denial of the first gate that denies.
  abbrev pub first_denial : List (Gate C) → Option Denial
  first_denial [] = none
  first_denial (g ∷ gs) = first_of (denial_in g.id (verdict g)) (first_denial gs)

  -- Everything that the gates want approved.
  abbrev pub wanted : List (Gate C) → List Demand
  wanted [] = []
  wanted (g ∷ gs) = demand_in g.id (verdict g) ++ wanted gs

  abbrev pub IsValid : List (Gate C) → Type 0
  IsValid gates = All (λ g. verdict g ≢ invalid) gates

  module _ (satisfied : List GateDemand) where
    abbrev pub unmet : List Demand → List Demand
    unmet ds = filter (λ d. not (is_met satisfied d)) ds

    first_of-none : (d : Option Denial) → first_of d none ≡ d
    first_of-none none = refl
    first_of-none (some d) = refl

    first_of-or_else :
        (d : Option Denial) (e : Denial) (f : Option Denial)
        → first_of (or_else d e) f ≡ first_of d (some e)
    first_of-or_else none e f = refl
    first_of-or_else (some d) e f = refl

    loop :
        (gates : List (Gate C)) (denial : Option Denial) (demands : List Demand)
        → IsValid gates
        → run_tool_gates catalog satisfied call gates denial demands
          ≡ conclude (first_of denial (first_denial gates)) (demands ++ unmet (wanted gates))
    unfolding run_tool_gates
    loop [] denial demands v = rw (run_tool_gates, first_of-none denial, append-nil demands)
    loop (g ∷ gs) denial demands v = elim (Bool-cases (g.matcher call)) [
      | inr skip ↦ rw (run_tool_gates, skip) (loop gs denial demands v.1)
      | inl runs ↦ by_verdict runs (λ den dem. loop gs den dem v.1) (g.handler call) refl
    ]
      where
        by_verdict :
            g.matcher call ≡ true
            → ((den : Option Denial) (dem : List Demand)
                → run_tool_gates catalog satisfied call gs den dem
                  ≡ conclude (first_of den (first_denial gs)) (dem ++ unmet (wanted gs)))
            → (w : Verdict) → g.handler call ≡ w
            → run_tool_gates catalog satisfied call (g ∷ gs) denial demands
              ≡ conclude
                  (first_of denial (first_denial (g ∷ gs)))
                  (demands ++ unmet (wanted (g ∷ gs)))
        by_verdict runs next permit e = rw (run_tool_gates, runs, e) (next denial demands)
        by_verdict runs next invalid e = absurd (v.0 (rw runs e))
        by_verdict runs next (deny o) e =
            rw (run_tool_gates, runs, e)
              (next _ demands
                ∙ ap (λ d. conclude d (demands ++ unmet (wanted gs)))
                    (first_of-or_else denial _ (first_denial gs)))
        by_verdict runs next (needs_approval o) e =
            elim (Bool-cases (is_met satisfied (demand_of catalog g.id o))) [
              | inl met ↦ rw (run_tool_gates, runs, e, met) (next denial demands)
              | inr new ↦
                  rw (run_tool_gates, runs, e, new)
                    (next denial (demands ++ demand_of catalog g.id o ∷ [])
                      ∙ ap (conclude (first_of denial (first_denial gs))) (
                          append_assoc demands (demand_of catalog g.id o ∷ []) (unmet (wanted gs))))
            ]

    same_loop :
        (gates : List (Gate C)) (denial : Option Denial) (demands : List Demand)
        → run_boundary_gates catalog satisfied call true gates denial demands
          ≡ run_tool_gates catalog satisfied call gates denial demands
    unfolding run_tool_gates run_boundary_gates
    same_loop [] denial demands = refl
    same_loop (g ∷ gs) denial demands = ground (arith, same_loop gs)

  -- The text that an objection gives: its own, else its code's message, else its code.
  abbrev told : (reason code : Option Ident) → Ident
  told (some text) code = text
  told none none = 0
  told none (some zero) = 0
  told none (some (suc code)) = elim (catalog (suc code)) [ none ↦ suc code | some text ↦ text ]

  -- The denials, in the gates' order.
  abbrev pub refusals : List (Gate C) → List Denial
  refusals [] = []
  refusals (g ∷ gs) =
      (if g.matcher call
        then elim (g.handler call) [
          | deny v ↦
              record {
                gate_id = g.id;
                reason = told v.reason v.reason_code;
                reason_code = v.reason_code;
                annotations = v.annotations;
                model_annotations = v.model_annotations;
              }
              ∷ []
          | permit ↦ []
          | invalid ↦ []
          | needs_approval v ↦ []
        ]
        else [])
      ++ refusals gs

  -- Some answer of the approval names the gate and the code.
  abbrev pub is_granted : List GateDemand → Ident → Option Ident → Bool
  is_granted [] gate code = false
  is_granted (a ∷ others) gate code =
      (a.gate_id == gate && opt_eq a.reason_code code) || is_granted others gate code

  abbrev told_demand : Ident → Objection → Demand
  told_demand i v = record {
    asks = record { gate_id = i; reason_code = v.reason_code };
    reason = told v.reason v.reason_code;
    annotations = v.annotations;
    model_annotations = v.model_annotations;
  }

  -- The demands that no answer covers, in the gates' order.
  abbrev pub open_demands : List GateDemand → List (Gate C) → List Demand
  open_demands answers [] = []
  open_demands answers (g ∷ gs) =
      (if g.matcher call
        then elim (g.handler call) [
          | needs_approval v ↦
              if is_granted answers g.id v.reason_code then [] else told_demand g.id v ∷ []
          | permit ↦ []
          | invalid ↦ []
          | deny v ↦ []
        ]
        else [])
      ++ open_demands answers gs

  -- A denial beats every demand.
  abbrev pub ruling : List Denial → List Demand → Before
  ruling (d ∷ ds) demands = denied d demands
  ruling [] (d ∷ demands) = demands_approval d (d ∷ demands)
  ruling [] [] = passes

  resolve_reason-told : (v : Objection) → resolve_reason catalog v ≡ told v.reason v.reason_code
  resolve_reason-told v = by_parts v.reason v.reason_code refl refl
    where
      by_parts :
          (r c : Option Ident)
          → v.reason ≡ r
          → v.reason_code ≡ c
          → resolve_reason catalog v ≡ told v.reason v.reason_code
      by_parts (some text) c p q = rw p refl
      by_parts none none p q = rw (p, q) refl
      by_parts none (some zero) p q = rw (p, q) refl
      by_parts none (some (suc n)) p q = ground (arith, p, q)

  abbrev head_of : List Denial → Option Denial
  head_of [] = none
  head_of (d ∷ ds) = some d

  first_denial-refusals : (gates : List (Gate C)) → first_denial gates ≡ head_of (refusals gates)
  first_denial-refusals [] = refl
  first_denial-refusals (g ∷ gs) = elim (Bool-cases (g.matcher call)) [
    | inr skip ↦ rw skip (first_denial-refusals gs)
    | inl runs ↦ by_verdict runs (first_denial-refusals gs) (g.handler call) refl
  ]
    where
      by_verdict :
          g.matcher call ≡ true
          → first_denial gs ≡ head_of (refusals gs)
          → (w : Verdict) → g.handler call ≡ w
          → first_denial (g ∷ gs) ≡ head_of (refusals (g ∷ gs))
      by_verdict runs rest permit e = rw (runs, e) rest
      by_verdict runs rest invalid e = rw (runs, e) rest
      by_verdict runs rest (deny v) e = rw (runs, e, resolve_reason-told v) refl
      by_verdict runs rest (needs_approval v) e = rw (runs, e) rest

  is_met-granted :
      (answers : List GateDemand) (d : Demand)
      → is_met answers d ≡ is_granted answers d.asks.gate_id d.asks.reason_code
  unfolding same_demand
  is_met-granted [] d = refl
  is_met-granted (a ∷ others) d = ground (arith, is_met-granted others d)

  unmet-open :
      (answers : List GateDemand) (gates : List (Gate C))
      → unmet answers (wanted gates) ≡ open_demands answers gates
  unmet-open answers [] = refl
  unmet-open answers (g ∷ gs) = elim (Bool-cases (g.matcher call)) [
    | inr skip ↦ rw skip (unmet-open answers gs)
    | inl runs ↦ by_verdict runs (unmet-open answers gs) (g.handler call) refl
  ]
    where
      by_verdict :
          g.matcher call ≡ true
          → unmet answers (wanted gs) ≡ open_demands answers gs
          → (w : Verdict) → g.handler call ≡ w
          → unmet answers (wanted (g ∷ gs)) ≡ open_demands answers (g ∷ gs)
      by_verdict runs rest permit e = rw (runs, e) rest
      by_verdict runs rest invalid e = rw (runs, e) rest
      by_verdict runs rest (deny v) e = rw (runs, e) rest
      by_verdict runs rest (needs_approval v) e =
          let same = is_met-granted answers (demand_of catalog g.id v) in
          elim (Bool-cases (is_granted answers g.id v.reason_code)) [
            | inl met ↦ rw (runs, e, same, met) rest
            | inr new ↦
                rw (runs, e, same, new, resolve_reason-told v)
                  (ap (λ ds. told_demand g.id v ∷ ds) rest)
          ]

  conclude-ruling :
      (ds : List Denial) (demands : List Demand) → conclude (head_of ds) demands ≡ ruling ds demands
  conclude-ruling (d ∷ ds) demands = refl
  conclude-ruling [] (d ∷ demands) = refl
  conclude-ruling [] [] = refl

  -- The before-gates decide what their verdicts say one by one, with no gate's verdict hidden behind
  -- another's. If any gate denies, the answer is the denial of the first one, with the demands that the
  -- approval does not answer beside it; else, if there are such demands, they are asked for, in the gates'
  -- order; else the call passes. A demand is answered by an answer of the same gate and code, and an
  -- objection gives its own reason, else the catalog's message for its code, else its code. No gate's
  -- verdict is malformed.
  pub run_tool_before_gates_lem :
      (gates : List (Gate C)) (satisfied : List GateDemand)
      → IsValid gates
      → run_tool_before_gates catalog gates call satisfied
        ≡ ruling (refusals gates) (open_demands satisfied gates)
  run_tool_before_gates_lem gates satisfied v =
      loop satisfied gates none [] v
      ∙ (rw (first_denial-refusals gates, unmet-open satisfied gates)
          (conclude-ruling (refusals gates) (open_demands satisfied gates)))

  -- Where approvals can wait, the boundary gates decide by the same rule as the tool gates.
  boundary_same_as_tool :
      (gates : List (Gate C)) (satisfied : List GateDemand)
      → run_boundary_before_gates catalog gates call satisfied true
        ≡ run_tool_before_gates catalog gates call satisfied
  boundary_same_as_tool gates satisfied = same_loop satisfied gates none []

  abbrev pub asked : List Demand → List GateDemand
  asked ds = map (λ d. d.asks) ds

  same_demand_self : (d : GateDemand) → same_demand d d ≡ true
  unfolding same_demand
  same_demand_self d = ground (arith, opt_eq-self d.reason_code)
    where
      opt_eq-self : (o : Option Ident) → opt_eq o o ≡ true
      opt_eq-self none = refl
      opt_eq-self (some i) = ground arith

  All-met : (ds : List Demand) → All (λ d. is_met (asked ds) d ≡ true) ds
  All-met [] = tt
  All-met (d ∷ ds) =
      (ground (arith, same_demand_self d.asks), All-map (λ e m. ground (arith, m)) ds (All-met ds))

  unmet_none :
      (satisfied : List GateDemand) (ds : List Demand)
      → All (λ d. is_met satisfied d ≡ true) ds
      → unmet satisfied ds ≡ []
  unmet_none satisfied [] a = refl
  unmet_none satisfied (d ∷ ds) a = rw (a.0) (unmet_none satisfied ds a.1)

  unmet_all : (ds : List Demand) → unmet [] ds ≡ ds
  unmet_all [] = refl
  unmet_all (d ∷ ds) = ap (λ x. d ∷ x) (unmet_all ds)

  -- An approval that was granted for everything that a call was parked on lets the same call through
  -- the same gates: no demand that it was shown is asked again.
  pub approval_covers :
      (gates : List (Gate C)) (first : Demand) (ds : List Demand)
      → IsValid gates
      → run_tool_before_gates catalog gates call [] ≡ demands_approval first ds
      → run_tool_before_gates catalog gates call (asked ds) ≡ passes
  approval_covers gates first ds v e =
      let before = sym (loop [] gates none [] v) ∙ e in
      let (free, all) = parked (first_denial gates) (unmet [] (wanted gates)) before in
      loop (asked ds) gates none [] v
      ∙ (rw (free, sym (unmet_all (wanted gates)) ∙ all)
          (ap (conclude none) (unmet_none (asked ds) ds (All-met ds))))
    where
      parked :
          (o : Option Denial) (xs : List Demand)
          → conclude o xs ≡ demands_approval first ds
          → (o ≡ none) × (xs ≡ ds)
      parked none [] p = absurd (cc p)
      parked none (x ∷ xs) p = (refl, ground (arith, p))
      parked (some d) xs p = absurd (cc p)
