-- ===== src/Subagents/Wake/Elected.antt =====
-- One waker for a barrier (packages/plugins/subagents/src/join.ts).
use busyclaw.Prelude.{
  ◌≡◌, refl, Bool, true, false, not, ◌&&◌, Bool-cases, Option, none, some, Option-cases, inl, inr,
  List, ltb, length, if◌then◌else◌, ◌∙◌, ap, subst, arith, Ident, Timestamp,
}
use busyclaw.Storage.Table.{get}
use busyclaw.Storage.Table.Laws.{Unique}
use busyclaw.Storage.Machine.{run}
use busyclaw.Subagents.Barrier.{
  is_waiting, AgentJoin, join_key, Arrival, AgentWait, Ending, to_fired, to_timed_out, settle_join,
  wait_for_join,
}
use busyclaw.Subagents.Barrier.Once.{JoinCall, joins, settled_stays}
use busyclaw.Subagents.Wake.{
  Resumption, Outcome, below_threshold, already_settled, settled, Settlement, unsettled, arrived,
  wake_found, elect, settle_if_met,
}

abbrev pub IsSettled : Outcome → Type 0
IsSettled below_threshold = ⊥
IsSettled already_settled = ⊥
IsSettled (settled woke) = Unit

abbrev ending : Bool → Ending
ending by_deadline = if by_deadline then to_timed_out else to_fired

module _ (engine : Resumption) (latest_for_run : Ident → Option Ident) where
  wake_found-joins :
      (now : Timestamp) (js : List AgentJoin) (w : Option AgentWait) (ws : List AgentWait)
      → (wake_found engine latest_for_run now js w ws).joins ≡ js
  unfolding wake_found
  wake_found-joins now js none ws = refl
  wake_found-joins now js (some w) ws = ground arith

  elect-won :
      (now : Timestamp) (p : Option AgentJoin × List AgentJoin) (w : Option AgentWait)
      (ws : List AgentWait)
      → IsSettled (elect engine latest_for_run now p w ws).outcome
      → ((done : AgentJoin) × (p.0 ≡ some done))
        × ((elect engine latest_for_run now p w ws).joins ≡ p.1)
  unfolding elect
  elect-won now (none, js) w ws h = absurd h
  elect-won now (some j, js) w ws h = ((j, refl), wake_found-joins now js w ws)

  elect-lost :
      (now : Timestamp) (p : Option AgentJoin × List AgentJoin) (w : Option AgentWait)
      (ws : List AgentWait)
      → p.0 ≡ none
      → elect engine latest_for_run now p w ws ≡ unsettled already_settled p.1 ws
  unfolding elect
  elect-lost now (none, js) w ws h = refl
  elect-lost now (some j, js) w ws h = absurd (ground (arith, h))

  module _ (by_deadline : Bool) (i : Ident) (now : Timestamp) (js : List AgentJoin)
      (at : List Arrival) (js' : List AgentJoin) (ws ws' : List AgentWait) where
    abbrev pub settlement : Settlement
    settlement = settle_if_met engine latest_for_run by_deadline i now js at js' ws ws'

    abbrev pub is_below : AgentJoin → Bool
    is_below j = not by_deadline && ltb (length (arrived i j at)) j.threshold

    abbrev pub election : Settlement
    election =
        elect engine latest_for_run now (settle_join i (ending by_deadline) now js')
          (wait_for_join i ws) ws'

    absent-settles : get join_key i js ≡ none → settlement ≡ unsettled already_settled js' ws'
    unfolding settle_if_met
    absent-settles absent = rw (absent, settle_if_met) refl

    closed-settles :
        (j : AgentJoin)
        → get join_key i js ≡ some j
        → is_waiting j.status ≡ false
        → settlement ≡ unsettled already_settled js' ws'
    unfolding settle_if_met
    closed-settles j there closed = rw (there, settle_if_met, closed) refl

    below-settles :
        (j : AgentJoin)
        → get join_key i js ≡ some j
        → is_waiting j.status ≡ true
        → is_below j ≡ true
        → settlement ≡ unsettled below_threshold js' ws'
    unfolding settle_if_met
    below-settles j there live below = rw (there, settle_if_met, live, below) refl

    met-settles :
        (j : AgentJoin)
        → get join_key i js ≡ some j
        → is_waiting j.status ≡ true
        → is_below j ≡ false
        → settlement ≡ election
    unfolding settle_if_met
    met-settles j there live met = rw (there, settle_if_met, live, met) refl

    -- A caller that settled had read the barrier open and, but for the deadline, met.
    pub settled-met :
        IsSettled settlement.outcome
        → ((j : AgentJoin) × ((get join_key i js ≡ some j)
              × ((is_waiting j.status ≡ true) × (is_below j ≡ false))))
          × (settlement ≡ election)
    settled-met h = elim (Option-cases (get join_key i js)) [
      | inl absent ↦
          absurd (subst (λ (x : Settlement). IsSettled x.outcome) (absent-settles absent) h)
      | inr (j, there) ↦ elim (Bool-cases (is_waiting j.status)) [
        | inr closed ↦
            absurd
              (subst (λ (x : Settlement). IsSettled x.outcome) (closed-settles j there closed) h)
        | inl live ↦ elim (Bool-cases (is_below j)) [
          | inl below ↦
              absurd (
                subst (λ (x : Settlement). IsSettled x.outcome) (below-settles j there live below)
                  h)
          | inr met ↦ ((j, (there, (live, met))), met-settles j there live met)
        ]
      ]
    ]

    -- It won the write.
    pub settled-won :
        IsSettled settlement.outcome
        → ((done : AgentJoin) × ((settle_join i (ending by_deadline) now js').0 ≡ some done))
          × (settlement.joins ≡ (settle_join i (ending by_deadline) now js').1)
    settled-won h =
        let same = (settled-met h).1 in
        let won =
          elect-won now (settle_join i (ending by_deadline) now js') (wait_for_join i ws) ws'
            (subst (λ (x : Settlement). IsSettled x.outcome) same h) in
        (won.0, ap (λ (x : Settlement). x.joins) same ∙ won.1)

  -- Only one caller settles a barrier. If one did, then after any writes of others no other caller does, by
  -- count or by deadline, whatever it had read before.
  pub elected_once :
      (by_deadline by_deadline' : Bool) (i : Ident) (now now' : Timestamp)
      (js js' js'' : List AgentJoin) (at at' : List Arrival) (ws ws' vs vs' : List AgentWait)
      (cs : List JoinCall)
      → Unique join_key js'
      → IsSettled (settle_if_met engine latest_for_run by_deadline i now js at js' ws ws').outcome
      → let after =
          run joins
            (settle_if_met engine latest_for_run by_deadline i now js at js' ws ws').joins
            cs in
        ¬ IsSettled
          (settle_if_met engine latest_for_run by_deadline' i now' js'' at' after vs vs').outcome
  elected_once by_deadline by_deadline' i now now' js js' js'' at at' ws ws' vs vs' cs u h again =
      let (done, tables) = settled-won by_deadline i now js at js' ws ws' h in
      let (second, _) = settled-won by_deadline' i now' js'' at' _ vs vs' again in
      let refused =
        (settled_stays i (ending by_deadline) now js' done.0 cs (ending by_deadline') now' u
          done.1).1 in
      cc (refused, second.1)
