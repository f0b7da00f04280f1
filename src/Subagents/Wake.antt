-- ===== src/Subagents/Wake.antt =====
-- What wakes a parked parent: `settleIfMet`, `wakeForInbox` and `wakeArmedWait`
-- (packages/plugins/subagents/src/join.ts), and the arm of a park by `onRunEvent`
-- (packages/plugins/subagents/src/reconcile.ts). Between two statements other callers may write, so a function takes
-- each table as it stands at each of its statements. The engine and the reader of checkpoints are parameters.
pub mod Elected
pub mod Spent
pub mod Race
pub mod Threshold
mod Tests
use busyclaw.Prelude.{
  ℕ, Bool, true, false, ◌&&◌, ◌||◌, not, Option, none, some, List, [], ◌∷◌, ◌==◌, ltb, any, filter,
  length, if◌then◌else◌, Ident, Timestamp, opt_eq,
}
use busyclaw.Storage.Table.{get}
use busyclaw.Subagents.Barrier.{
  arm_wait, to_fired, to_timed_out, is_waiting, to_fired, to_timed_out, AgentJoin, join_key,
  Arrival, AgentWait, settle_join, arrivals, fire_wait, wait_for_join, wait_for_run,
}

-- A call of `resumeRun`.
pub record Resume : Type 0 where
  pub run_id : Ident
  pub checkpoint_id : Ident

-- What becomes of a call of `resumeRun`: the engine does not have it, it returns, it throws an `Error`, or
-- it throws something else.
pub data Resumption : Type 0 where
  without_resume accepting refusing failing : Resumption

-- Whether the parent was woken, the calls of `resumeRun`, and the waits after it. `none`: what `resumeRun`
-- threw is thrown on.
pub record Wake : Type 0 where
  pub woke : Option Bool
  pub resumes : List Resume
  pub waits : List AgentWait

abbrev pub woken : Resumption → Option Bool
woken without_resume = some true
woken accepting = some true
woken refusing = some false
woken failing = none

abbrev pub calls : Resumption → Ident → Ident → List Resume
calls without_resume run checkpoint = []
calls _ run checkpoint = record { run_id = run; checkpoint_id = checkpoint } ∷ []

abbrev pub spent : Resumption → Ident → Ident → Option AgentWait × List AgentWait → Wake
spent engine run checkpoint (none, t) = record { woke = some false; resumes = []; waits = t }
spent engine run checkpoint (some w, t) = record {
  woke = woken engine;
  resumes = calls engine run checkpoint;
  waits = t;
}

unfoldable pub wake_armed_wait :
    (engine : Resumption) (wait_id run checkpoint : Ident) → Timestamp → List AgentWait → Wake
unfolding fire_wait
wake_armed_wait engine wait_id run checkpoint now t =
    spent engine run checkpoint (fire_wait wait_id now t)

-- Why nothing was settled, or whether the parent was woken.
pub data Outcome : Type 0 where
  below_threshold already_settled : Outcome
  settled : (woke : Option Bool) → Outcome

pub record Settlement : Type 0 where
  pub outcome : Outcome
  pub joins : List AgentJoin
  pub resumes : List Resume
  pub waits : List AgentWait

abbrev pub unsettled : Outcome → List AgentJoin → List AgentWait → Settlement
unsettled outcome joins waits = record {
  outcome = outcome;
  joins = joins;
  resumes = [];
  waits = waits;
}

-- The arrivals of members, counted.
abbrev pub arrived : Ident → AgentJoin → List Arrival → List Arrival
unfolding arrivals
arrived join_id j t = filter (λ r. any (λ m. m == r.child_run_id) j.members) (arrivals join_id t)

abbrev pub or_latest : Option Ident → Option Ident → Option Ident
or_latest none latest = latest
or_latest (some c) latest = some c

module _ (engine : Resumption) (latest_for_run : Ident → Option Ident) where
  abbrev pub wake_found :
      Timestamp → List AgentJoin → Option AgentWait → List AgentWait → Settlement
  unfolding wake_armed_wait
  wake_found now joins none waits = unsettled (settled (some false)) joins waits
  wake_found now joins (some w) waits = elim (or_latest w.checkpoint_id (latest_for_run w.run_id)) [
    | none ↦ unsettled (settled (some false)) joins waits
    | some checkpoint ↦
        let wake = wake_armed_wait engine w.id w.run_id checkpoint now waits in
        record {
          outcome = settled wake.woke;
          joins = joins;
          resumes = wake.resumes;
          waits = wake.waits;
        }
  ]

  abbrev pub elect :
      Timestamp → Option AgentJoin × List AgentJoin → Option AgentWait → List AgentWait → Settlement
  unfolding wake_found
  elect now (none, joins) wait waits = unsettled already_settled joins waits
  elect now (some j, joins) wait waits = wake_found now joins wait waits

  -- `by_deadline` is `timed_out` in the source, and the threshold is not asked for then.
  unfoldable pub settle_if_met :
      (by_deadline : Bool)
      → Ident
      → Timestamp
      → (joins_read : List AgentJoin) (arrivals_read : List Arrival)
        (joins_at_write : List AgentJoin) (waits_read waits_at_write : List AgentWait)
      → Settlement
  unfolding elect settle_join wait_for_join arrived
  settle_if_met by_deadline join_id now joins_read arrivals_read joins_at_write waits_read
        waits_at_write =
      elim (get join_key join_id joins_read) [
        | none ↦ unsettled already_settled joins_at_write waits_at_write
        | some j ↦
            if not (is_waiting j.status)
            then unsettled already_settled joins_at_write waits_at_write
            else if not by_deadline && ltb (length (arrived join_id j arrivals_read)) j.threshold
            then unsettled below_threshold joins_at_write waits_at_write
            else elect now
                (settle_join join_id (if by_deadline then to_timed_out else to_fired) now
                  joins_at_write)
                (wait_for_join join_id waits_read) waits_at_write
      ]

-- Whether the run waits is asked of the engine.
abbrev pub wake_waiting :
    (engine : Resumption) → Ident → Timestamp → Option AgentWait → List AgentWait → Wake
unfolding wake_armed_wait
wake_waiting engine run now none waits = record { woke = some false; resumes = []; waits = waits }
wake_waiting engine run now (some w) waits = elim (w.checkpoint_id) [
  | none ↦ record { woke = some false; resumes = []; waits = waits }
  | some checkpoint ↦ wake_armed_wait engine w.id run checkpoint now waits
]

unfoldable pub wake_for_inbox :
    (engine : Resumption) (run_waits : Bool)
    → Ident
    → Timestamp
    → (waits_read waits_at_write : List AgentWait) → Wake
unfolding wake_waiting wait_for_run
wake_for_inbox engine run_waits run now waits_read waits_at_write =
    if run_waits
    then wake_waiting engine run now (wait_for_run run waits_read) waits_at_write
    else record { woke = some false; resumes = []; waits = waits_at_write }

abbrev pub idle : List AgentWait → Wake
idle waits = record { woke = some false; resumes = []; waits = waits }

-- The event `run.awaiting`: the park is armed, and if its barrier was settled already the wake is this caller's.
abbrev pub arm_found :
    (engine : Resumption)
    → Ident
    → Ident
    → Timestamp
    → Option AgentWait
    → List AgentJoin
    → List AgentWait
    → Wake
unfolding wake_armed_wait
arm_found engine wait_id checkpoint now none joins_read waits = idle waits
arm_found engine wait_id checkpoint now (some w) joins_read waits = elim (w.join_id) [
  | none ↦ idle waits
  | some join_id ↦ elim (get join_key join_id joins_read) [
    | none ↦ idle waits
    | some j ↦
        if not (is_waiting j.status)
        then wake_armed_wait engine wait_id w.run_id checkpoint now waits
        else idle waits
  ]
]

unfoldable pub arm_parked :
    (engine : Resumption)
    → (wait_id checkpoint : Ident) → Timestamp
    → (waits_at_arm : List AgentWait) (joins_read : List AgentJoin) (waits_at_wake : List AgentWait)
    → Wake
unfolding arm_found arm_wait
arm_parked engine wait_id checkpoint now waits_at_arm joins_read waits_at_wake =
    arm_found engine wait_id checkpoint now (arm_wait wait_id checkpoint now waits_at_arm).0
      joins_read waits_at_wake
