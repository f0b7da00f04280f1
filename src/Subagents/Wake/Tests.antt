-- ===== src/Subagents/Wake/Tests.antt =====
-- Runs of the barrier on small tables, and the theorems at them. The id of an arrival is `100 * barrier + child`.
use busyclaw.Prelude.{
  ◌≡◌, refl, ◌+◌, ◌*◌, ◌≤◌, true, false, Option, none, some, List, [], ◌∷◌, arith, All, Ident,
  length,
}
use busyclaw.Storage.Table.{get, find_one, find_many, update, create, sort_asc, place}
use busyclaw.Storage.Machine.{run}
use busyclaw.Subagents.Barrier.{
  wait_arming, to_fired, waiting, fired, is_waiting, child_completed, for_children, wait_armed,
  wait_fired, AgentJoin, join_key, Arrival, AgentWait, to_cancelled, settle_join, arrivals,
  arm_wait, fire_wait, wait_for_join,
}
use busyclaw.Subagents.Barrier.Once.{settles, arms, joins, waits, join_step, wait_step}
use busyclaw.Subagents.Wake.Race.{IsSpent, race_closed}
use busyclaw.Subagents.Wake.{
  accepting, arm_parked, wake_found, settled, below_threshold, wake_armed_wait, settle_if_met,
}
use busyclaw.Subagents.Wake.Elected.{IsSettled, elected_once}
use busyclaw.Subagents.Wake.Spent.{resumed_once}
use busyclaw.Subagents.Wake.Threshold.{IsMember, AreDistinct, HasArrived, threshold_met}

-- Barrier 1 of run 5 waits for the children 6 and 7, both of them.
abbrev barrier : AgentJoin
barrier = record {
  id = 1;
  owner_run_id = 5;
  wait_id = 2;
  expected = 2;
  threshold = 2;
  members = 6 ∷ 7 ∷ [];
  status = waiting;
  deadline_at = 900;
  created_at = 10;
  updated_at = 10;
}

abbrev barrier_fired : AgentJoin
barrier_fired = record barrier { status = fired; updated_at = 50 }

abbrev arrival_id : Ident → Ident → Ident
arrival_id join_id child = 100 * join_id + child

abbrev arrived_at : Ident → Arrival
arrived_at child = record {
  id = arrival_id 1 child;
  join_id = 1;
  child_run_id = child;
  outcome = child_completed;
  arrived_at = 40;
}

-- Child 8 is a sibling that the barrier does not name.
abbrev siblings : List Arrival
siblings = arrived_at 6 ∷ arrived_at 8 ∷ []

abbrev both : List Arrival
both = arrived_at 6 ∷ arrived_at 8 ∷ arrived_at 7 ∷ []

abbrev park : AgentWait
park = record {
  id = 2;
  run_id = 5;
  reason = for_children;
  join_id = some 1;
  checkpoint_id = some 3;
  status = wait_armed;
  deadline_at = 900;
  armed_at = some 20;
  fired_at = none;
  created_at = 10;
  updated_at = 20;
}

abbrev park_fired : AgentWait
park_fired = record park { status = wait_fired; fired_at = some 50; updated_at = 50 }

effect : Unit {0}
unfolding find_one find_many update create sort_asc place run settle_join arrivals arm_wait
    fire_wait wait_for_join join_step wait_step wake_armed_wait settle_if_met
effect = tt

abbrev latest : Ident → Option Ident
latest run = none

not_met :
    (settle_if_met accepting latest false 1 50
      (barrier ∷ [])
      siblings
      (barrier ∷ [])
      (park ∷ [])
      (park ∷ [])).outcome
    ≡ below_threshold
unfolding effect
not_met = refl

met :
    settle_if_met accepting latest false 1 50
      (barrier ∷ [])
      both
      (barrier ∷ [])
      (park ∷ [])
      (park ∷ [])
    ≡ record {
      outcome = settled (some true);
      joins = barrier_fired ∷ [];
      resumes = record { run_id = 5; checkpoint_id = 3 } ∷ [];
      waits = park_fired ∷ [];
    }
unfolding effect
met = refl

elected_once_example :
    let after =
      run joins
        (settle_if_met accepting latest false 1 50
          (barrier ∷ [])
          both
          (barrier ∷ [])
          (park ∷ [])
          (park ∷ [])).joins
        (settles 1 to_cancelled 55 ∷ []) in
    ¬ IsSettled
      (settle_if_met accepting latest true 1 60
        (barrier ∷ [])
        both
        after
        (park ∷ [])
        (park ∷ [])).outcome
unfolding effect
elected_once_example =
    elected_once accepting latest false true 1 50 60 (barrier ∷ []) (barrier ∷ []) (barrier ∷ [])
      both both (park ∷ []) (park ∷ []) (park ∷ []) (park ∷ []) (settles 1 to_cancelled 55 ∷ [])
      (tt, tt) tt

resumed_once_example :
    let again =
      wake_armed_wait accepting 2 5 4 60
        (run waits (wake_armed_wait accepting 2 5 3 50 (park ∷ [])).waits (arms 2 4 55 ∷ [])) in
    (again.woke ≡ some false) × (again.resumes ≡ [])
unfolding effect
resumed_once_example =
    resumed_once accepting accepting 2 5 3 5 4 50 60 (park ∷ []) (arms 2 4 55 ∷ []) (tt, tt)
      (λ e. absurd (ground (arith, e)))

threshold_met_example :
    (j : AgentJoin) × ((get join_key 1 (barrier ∷ []) ≡ some j)
      × ((is_waiting j.status ≡ true)
          × ((children : List Ident) × ((j.threshold ≤ length children)
                × ((AreDistinct children)
                    × (All (λ c. (IsMember j.members c) × (HasArrived both 1 c)) children))))))
unfolding effect
threshold_met_example =
    threshold_met accepting latest arrival_id 1 50 (barrier ∷ []) both (barrier ∷ []) (park ∷ [])
      (park ∷ [])
      (
        ((λ e. absurd (omega arith)), ((λ e. absurd (omega arith)), tt)),
        (((λ e. absurd (omega arith)), tt), (tt, tt)),
      )
      (refl, (refl, (refl, tt))) tt

-- The park before it was armed.
abbrev opened : AgentWait
opened = record park {
  checkpoint_id = none;
  status = wait_arming;
  armed_at = none;
  updated_at = 10;
}

race_closed_example :
    IsSpent 2
      (arm_parked accepting 2 3 20
        (opened ∷ [])
        (run joins (settle_join 1 to_fired 50 (barrier ∷ [])).1 [])
        (run waits (arm_wait 2 3 20 (opened ∷ [])).1 [])).waits
    × IsSpent 2
        (wake_found accepting latest 50
          (settle_join 1 to_fired 50 (barrier ∷ [])).1
          (some park)
          (run waits (run waits (arm_wait 2 3 20 (opened ∷ [])).1 []) [])).waits
unfolding effect
race_closed_example =
    race_closed accepting accepting latest 2 3 1 to_fired 50 20 (barrier ∷ []) barrier_fired
      (opened ∷ []) park park [] [] [] [] (tt, tt) (tt, tt) refl refl refl refl refl
