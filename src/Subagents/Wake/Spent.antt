-- ===== src/Subagents/Wake/Spent.antt =====
-- One resume for a park (packages/plugins/subagents/src/join.ts).
use busyclaw.Prelude.{
  ◌≡◌, refl, ◌≢◌, false, Option, none, some, List, [], ◌∙◌, ap, arith, Ident, Timestamp,
}
use busyclaw.Storage.Table.Laws.{Unique}
use busyclaw.Storage.Machine.{run}
use busyclaw.Subagents.Barrier.{AgentWait, wait_key, fire_wait}
use busyclaw.Subagents.Barrier.Once.{WaitCall, waits, spent_stays}
use busyclaw.Subagents.Wake.{Resumption, spent, wake_armed_wait}

spent-none :
    (engine : Resumption) (run checkpoint : Ident) (p : Option AgentWait × List AgentWait)
    → p.0 ≡ none
    → ((spent engine run checkpoint p).woke ≡ some false)
      × ((spent engine run checkpoint p).resumes ≡ [])
spent-none engine run checkpoint (none, t) h = (refl, refl)
spent-none engine run checkpoint (some w, t) h = absurd (ground (arith, h))

spent-some :
    (engine : Resumption) (run checkpoint : Ident) (p : Option AgentWait × List AgentWait)
    → (spent engine run checkpoint p).resumes ≢ []
    → ((w : AgentWait) × (p.0 ≡ some w)) × ((spent engine run checkpoint p).waits ≡ p.1)
spent-some engine run checkpoint (none, t) h = absurd (h refl)
spent-some engine run checkpoint (some w, t) h = ((w, refl), refl)

-- One park is resumed from once: if a wake called `resumeRun`, then after any writes of others a wake of the same
-- park calls it no more and reports that it woke nobody, whatever run and checkpoint it was given.
pub resumed_once :
    (engine engine' : Resumption) (i r c r' c' : Ident) (now now' : Timestamp) (t : List AgentWait)
    (cs : List WaitCall)
    → Unique wait_key t
    → (wake_armed_wait engine i r c now t).resumes ≢ []
    → let again =
        wake_armed_wait engine' i r' c' now'
          (run waits (wake_armed_wait engine i r c now t).waits cs) in
      (again.woke ≡ some false) × (again.resumes ≡ [])
unfolding wake_armed_wait
resumed_once engine engine' i r c r' c' now now' t cs u h =
    let (won, tables) = spent-some engine r c (fire_wait i now t) h in
    let refused = (spent_stays i now t won.0 cs now' c u won.1).1.0 in
    spent-none engine' r' c'
      (fire_wait i now' (run waits (spent engine r c (fire_wait i now t)).waits cs))
      (ap (λ x. (fire_wait i now' (run waits x cs)).0) tables ∙ refused)
