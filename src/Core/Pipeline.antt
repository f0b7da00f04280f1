-- ===== src/Core/Pipeline.antt =====
-- One governed call: `runGoverned` (packages/foundation/core/src/governance.ts), over a state of type
-- `S` that the tool and the after-gates (the host's and the plugins') change.
use busyclaw.Prelude.{
  ◌≡◌, ap, sym, ◌∙◌, ◌≢◌, ◌⊎◌, inl, inr, refl, Bool, true, Option, none, some, List, [], ◌∷◌, Ident,
  if◌then◌else◌,
}
use busyclaw.Contracts.Approval.{GateDemand}
use busyclaw.Core.Gates.{
  Gate, GateError, Denial, Demand, Before, passes, denied, demands_approval, throws,
  run_boundary_before_gates, run_tool_before_gates,
}

-- `Outcome`: what the after-gates observe.
pub data Outcome : Type 0 where
  ok error : Ident → Outcome
  denial : Denial → List Demand → Outcome
  approval_wanted : Demand → List Demand → Outcome

-- A tool returns an output, or throws with a reason.
pub data ToolResult : Type 0 where
  output failure : Ident → ToolResult

-- A call returns an outcome, or throws on: the error of a gate, or the tool's reason. What an after-gate
-- throws takes the place of all of these, and stands beside what it replaces.
pub data Governed : Type 0 where
  returns : Outcome → Governed
  gate_throws : GateError → Governed
  tool_throws : Ident → Governed
  after_throws : Ident → Governed → Governed

pub record AfterGate (C S : Type 0) : Type 0 where
  pub matcher : C → Bool
  pub handler : C → Outcome → S → Option Ident × S

-- What the run of a governance is configured with: `redact` is the identity without a redactor, and
-- `message_of` is the text of a gate's error.
pub record Config (C S : Type 0) : Type 0 where
  pub catalog : Ident → Option Ident
  pub boundary : List (Gate C)
  pub before : List (Gate C)
  pub after : List (AfterGate C S)
  pub run_tool : C → S → ToolResult × S
  pub redact : Ident → Ident
  pub message_of : GateError → Ident

abbrev pub replaced : Option Ident → Governed → Governed
replaced none result = result
replaced (some why) result = after_throws why result

module _ {C S : Type 0} where
  -- The after-gates, in order, on the outcome. One that throws is the last.
  unfoldable pub observe : List (AfterGate C S) → C → Outcome → S → Option Ident × S
  observe [] call outcome s = (none, s)
  observe (gate ∷ gates) call outcome s =
      let handled = if gate.matcher call then gate.handler call outcome s else (none, s) in
      let rest = observe gates call outcome handled.1 in
      elim handled.0 [ none ↦ rest | some why ↦ handled ]

  -- The end of the call: the after-gates observe, whether it returns or throws.
  abbrev pub finish : Config C S → C → Governed → Outcome → S → Governed × S
  finish config call result outcome s =
      let (thrown, s') = observe config.after call outcome s in (replaced thrown result, s')

  abbrev pub run_permitted : Config C S → C → ToolResult × S → Governed × S
  run_permitted config call (output v, s) = finish config call (returns (ok v)) (ok v) s
  run_permitted config call (failure why, s) =
      finish config call (tool_throws why) (error (config.redact why)) s

  -- `passed` is what follows when no gate of the group objects.
  abbrev pub after_gates : Config C S → C → Before → S → (passed : Governed × S) → Governed × S
  after_gates config call passes s passed = passed
  after_gates config call (denied d ds) s passed =
      finish config call (returns (denial d ds)) (denial d ds) s
  after_gates config call (demands_approval d ds) s passed =
      finish config call (returns (approval_wanted d ds)) (approval_wanted d ds) s
  after_gates config call (throws e) s passed =
      finish config call (gate_throws e) (error (config.redact (config.message_of e))) s

  unfoldable pub run_governed : Config C S → C → List GateDemand → S → Governed × S
  run_governed config call satisfied s =
      after_gates config call
        (run_boundary_before_gates config.catalog config.boundary call satisfied true) s
        (after_gates config call (run_tool_before_gates config.catalog config.before call satisfied)
          s (run_permitted config call (config.run_tool call s)))

  -- What the after-gates are shown for a result.
  abbrev pub shown : Config C S → Governed → Outcome
  shown config (returns o) = o
  shown config (gate_throws e) = error (config.redact (config.message_of e))
  shown config (tool_throws why) = error (config.redact why)
  shown config (after_throws why replaced) = shown config replaced

  shown-replaced :
      (config : Config C S) (o : Option Ident) (g : Governed)
      → shown config (replaced o g) ≡ shown config g
  shown-replaced config none g = refl
  shown-replaced config (some why) g = refl

  finish-shown :
      (config : Config C S) (call : C) (g : Governed) (o : Outcome) (s : S)
      → shown config g ≡ o
      → (finish config call g o s).1
        ≡ (observe config.after call (shown config (finish config call g o s).0) s).1
  finish-shown config call g o s e =
      ap (λ x. (observe config.after call x s).1)
        (sym (shown-replaced config (observe config.after call o s).0 g ∙ e))

  stopped :
      (config : Config C S) (call : C) (b : Before) (s : S) (passed : Governed × S)
      → b ≢ passes
      → (after_gates config call b s passed).1
        ≡ (observe config.after call (shown config (after_gates config call b s passed).0) s).1
  stopped config call passes s passed h = absurd (h refl)
  stopped config call (denied d ds) s passed h =
      finish-shown config call (returns (denial d ds)) _ s refl
  stopped config call (demands_approval d ds) s passed h =
      finish-shown config call (returns (approval_wanted d ds)) _ s refl
  stopped config call (throws e) s passed h = finish-shown config call (gate_throws e) _ s refl

  -- A call that a gate objects to never runs its tool: the state changes by what the after-gates do with
  -- the outcome, once, and by nothing else. That holds also where an after-gate throws, with the outcome
  -- that its error replaces.
  pub objection_stops :
      (config : Config C S) (call : C) (satisfied : List GateDemand) (s : S)
      → (run_tool_before_gates config.catalog config.before call satisfied ≢ passes)
        ⊎ (run_boundary_before_gates config.catalog config.boundary call satisfied true ≢ passes)
      → (run_governed config call satisfied s).1
        ≡ (observe config.after call (shown config (run_governed config call satisfied s).0) s).1
  unfolding run_governed
  objection_stops config call satisfied s h =
      split (run_boundary_before_gates config.catalog config.boundary call satisfied true)
        (run_tool_before_gates config.catalog config.before call satisfied) h
    where
      split :
          (b t : Before)
          → (t ≢ passes) ⊎ (b ≢ passes)
          → let r =
              after_gates config call b s (
                after_gates config call t s (run_permitted config call (config.run_tool call s))) in
            r.1 ≡ (observe config.after call (shown config r.0) s).1
      split passes t (inl p) = stopped config call t s _ p
      split passes t (inr p) = absurd (p refl)
      split (denied d ds) t p =
          stopped config call (denied d ds) s
            (after_gates config call t s (run_permitted config call (config.run_tool call s)))
            (λ e. cc e)
      split (demands_approval d ds) t p =
          stopped config call (demands_approval d ds) s
            (after_gates config call t s (run_permitted config call (config.run_tool call s)))
            (λ e. cc e)
      split (throws e) t p =
          stopped config call (throws e) s
            (after_gates config call t s (run_permitted config call (config.run_tool call s)))
            (λ e. cc e)

  permitted :
      (config : Config C S) (call : C) (r : ToolResult × S)
      → (run_permitted config call r).1
        ≡ (observe config.after call (shown config (run_permitted config call r).0) r.1).1
  permitted config call (output v, s) = finish-shown config call (returns (ok v)) _ s refl
  permitted config call (failure why, s) = finish-shown config call (tool_throws why) _ s refl

  -- The after-gates observe every call that the gates let through too, once and after the tool: they
  -- are shown the output that is returned, or the redacted reason of what is thrown.
  permitted_observed :
      (config : Config C S) (call : C) (satisfied : List GateDemand) (s : S)
      → run_boundary_before_gates config.catalog config.boundary call satisfied true ≡ passes
      → run_tool_before_gates config.catalog config.before call satisfied ≡ passes
      → let r = run_governed config call satisfied s in
        r.1 ≡ (observe config.after call (shown config r.0) (config.run_tool call s).1).1
  unfolding run_governed
  permitted_observed config call satisfied s b t =
      rw (b, t) (permitted config call (config.run_tool call s))
