-- ===== src/Subagents/Barrier/Once.antt =====
-- A barrier is settled once and a park is spent once (packages/plugins/subagents/src/store.ts).
use busyclaw.Prelude.{
  ◌≡◌, refl, false, ◌&&◌, Option, none, some, List, [], ◌∷◌, ◌==◌, if◌then◌else◌, ◌∙◌, ap, arith,
  All, Ident, Timestamp,
}
use busyclaw.Storage.Table
use busyclaw.Storage.Table.{get, create}
use busyclaw.Storage.Table.Laws.{
  Unique, cas_returns, cas_won, cas-Unique, get-cas_at, map_row, get-or_keep-create,
  or_keep-create-Unique,
}
use busyclaw.Storage.Machine.{Machine, run, run_keeps, run-Unique}
use busyclaw.Subagents.Barrier.{
  is_waiting, AgentJoin, join_key, OpenJoin, new_join, open_join, Ending, to_fired, to_timed_out,
  to_cancelled, ended, settle_join, AgentWait, wait_key, OpenWait, new_wait, open_wait, arm_wait,
  fire_wait, is_arming, is_unspent, wait_armed, wait_fired, inserted_or,
}

-- The writes on the table of barriers.
pub data JoinCall : Type 0 where
  opens : OpenJoin → JoinCall
  settles : Ident → Ending → Timestamp → JoinCall

unfoldable pub join_step : List AgentJoin → JoinCall → List AgentJoin
join_step t (opens input) = (open_join input t).1
join_step t (settles id to now) = (settle_join id to now t).1

unfoldable pub join_after : JoinCall → AgentJoin → AgentJoin
join_after (opens input) r = r
join_after (settles id to now) r =
    if r.id == id && is_waiting r.status
    then record r { status = ended to; updated_at = now }
    else r

-- The table after an insert that may meet its row.
inserted_or-keep :
    {R : Type 0} (e : Option R) (r : R) (t : List R) (o : Option (List R))
    → (inserted_or e r t o).1 ≡ Table.or_keep t o
inserted_or-keep e r t none = refl
inserted_or-keep e r t (some t') = refl

pub join_step-Unique :
    (t : List AgentJoin) (c : JoinCall) → Unique join_key t → Unique join_key (join_step t c)
unfolding join_step open_join settle_join
join_step-Unique t (opens input) u =
    rw
      (inserted_or-keep (get join_key input.id t) (new_join input) t
        (create join_key (new_join input) t))
      (or_keep-create-Unique join_key (new_join input) t u)
join_step-Unique t (settles id to now) u = cas-Unique join_key id _ _ (λ r. refl) t u

pub get-join_step :
    (i : Ident) (t : List AgentJoin) (c : JoinCall) (r : AgentJoin)
    → Unique join_key t
    → get join_key i t ≡ some r
    → get join_key i (join_step t c) ≡ some (join_after c r)
unfolding join_step join_after open_join settle_join
get-join_step i t (opens input) r u e =
    rw
      (inserted_or-keep (get join_key input.id t) (new_join input) t
        (create join_key (new_join input) t))
      (get-or_keep-create join_key i (new_join input) r t e)
get-join_step i t (settles id to now) r u e =
    get-cas_at join_key id _ _ (λ r. refl) i t u ∙ ap (map_row join_key _) e

abbrev pub joins : Machine AgentJoin JoinCall
joins = record {
  key = join_key;
  step = join_step;
  after = join_after;
  unique = join_step-Unique;
  row = get-join_step;
}

every_call : {C : Type 0} (cs : List C) → All (λ _. Unit {0}) cs
every_call [] = tt
every_call (c ∷ cs) = (tt, every_call cs)

join_after-ended :
    (done : AgentJoin)
    → is_waiting done.status ≡ false
    → (c : JoinCall) (r : AgentJoin) → r ≡ done
    → join_after c r ≡ done
unfolding join_after
join_after-ended done h (opens input) r e = e
join_after-ended done h (settles id to now) r e = rw e (ground (arith, h))

ended-final :
    (to : Ending) (done : AgentJoin) → done.status ≡ ended to → is_waiting done.status ≡ false
ended-final to_fired done e = ap is_waiting e
ended-final to_timed_out done e = ap is_waiting e
ended-final to_cancelled done e = ap is_waiting e

pub settled-ended :
    (i : Ident) (to : Ending) (now : Timestamp) (t : List AgentJoin) (done : AgentJoin)
    → Unique join_key t
    → (settle_join i to now t).0 ≡ some done
    → is_waiting done.status ≡ false
unfolding settle_join
settled-ended i to now t done u won =
    let (r, _, _, same, found) =
      cas_won join_key i (λ r. is_waiting r.status) _ (λ r. refl) t done u won in
    ended-final to done (ap (λ r. r.status) same)

-- Only one caller settles a barrier: after it was settled, and any further writes, it is as it was settled, and
-- every attempt to settle it is refused.
pub settled_stays :
    (i : Ident) (to : Ending) (now : Timestamp) (t : List AgentJoin) (done : AgentJoin)
    (cs : List JoinCall) (to' : Ending) (now' : Timestamp)
    → Unique join_key t
    → (settle_join i to now t).0 ≡ some done
    → let t' = run joins (settle_join i to now t).1 cs in
      (get join_key i t' ≡ some done) × ((settle_join i to' now' t').0 ≡ none)
unfolding settle_join
settled_stays i to now t done cs to' now' u won =
    let (r, _, _, same, found) =
      cas_won join_key i (λ r. is_waiting r.status) _ (λ r. refl) t done u won in
    let u' = cas-Unique join_key i (λ r. is_waiting r.status) _ (λ r. refl) t u in
    let final : is_waiting done.status ≡ false = ended-final to done (ap (λ r. r.status) same) in
    let (r', there, same') =
      run_keeps joins (λ r. r ≡ done) (λ _. Unit {0}) (λ c r _ e. join_after-ended done final c r e)
        i cs _ done u' found (every_call cs) refl in
    let there' = there ∙ ap some same' in
    (there', cas_returns join_key i _ _ _ (run-Unique joins _ cs u') ∙ (rw (there', final)))

-- The writes on the table of parks.
pub data WaitCall : Type 0 where
  opens_wait : OpenWait → WaitCall
  arms : (id checkpoint_id : Ident) → Timestamp → WaitCall
  fires : Ident → Timestamp → WaitCall

unfoldable pub wait_step : List AgentWait → WaitCall → List AgentWait
wait_step t (opens_wait input) = (open_wait input t).1
wait_step t (arms id checkpoint_id now) = (arm_wait id checkpoint_id now t).1
wait_step t (fires id now) = (fire_wait id now t).1

unfoldable pub wait_after : WaitCall → AgentWait → AgentWait
wait_after (opens_wait input) r = r
wait_after (arms id checkpoint_id now) r =
    if r.id == id && is_arming r.status
    then record r {
      status = wait_armed;
      checkpoint_id = some checkpoint_id;
      armed_at = some now;
      updated_at = now;
    }
    else r
wait_after (fires id now) r =
    if r.id == id && is_unspent r.status
    then record r { status = wait_fired; fired_at = some now; updated_at = now }
    else r

pub wait_step-Unique :
    (t : List AgentWait) (c : WaitCall) → Unique wait_key t → Unique wait_key (wait_step t c)
unfolding wait_step open_wait arm_wait fire_wait
wait_step-Unique t (opens_wait input) u =
    rw
      (inserted_or-keep (get wait_key input.id t) (new_wait input) t
        (create wait_key (new_wait input) t))
      (or_keep-create-Unique wait_key (new_wait input) t u)
wait_step-Unique t (arms id checkpoint_id now) u = cas-Unique wait_key id _ _ (λ r. refl) t u
wait_step-Unique t (fires id now) u = cas-Unique wait_key id _ _ (λ r. refl) t u

pub get-wait_step :
    (i : Ident) (t : List AgentWait) (c : WaitCall) (r : AgentWait)
    → Unique wait_key t
    → get wait_key i t ≡ some r
    → get wait_key i (wait_step t c) ≡ some (wait_after c r)
unfolding wait_step wait_after open_wait arm_wait fire_wait
get-wait_step i t (opens_wait input) r u e =
    rw
      (inserted_or-keep (get wait_key input.id t) (new_wait input) t
        (create wait_key (new_wait input) t))
      (get-or_keep-create wait_key i (new_wait input) r t e)
get-wait_step i t (arms id checkpoint_id now) r u e =
    get-cas_at wait_key id _ _ (λ r. refl) i t u ∙ ap (map_row wait_key _) e
get-wait_step i t (fires id now) r u e =
    get-cas_at wait_key id _ _ (λ r. refl) i t u ∙ ap (map_row wait_key _) e

abbrev pub waits : Machine AgentWait WaitCall
waits = record {
  key = wait_key;
  step = wait_step;
  after = wait_after;
  unique = wait_step-Unique;
  row = get-wait_step;
}

wait_after-spent :
    (done : AgentWait)
    → done.status ≡ wait_fired
    → (c : WaitCall) (r : AgentWait) → r ≡ done
    → wait_after c r ≡ done
unfolding wait_after
wait_after-spent done h (opens_wait input) r e = e
wait_after-spent done h (arms id checkpoint_id now) r e = rw e (ground (arith, h))
wait_after-spent done h (fires id now) r e = rw e (ground (arith, h))

-- A park is spent once: after it was spent, and any further writes, it is as it was spent, and every attempt to
-- spend it or to arm it again is refused.
pub spent_stays :
    (i : Ident) (now : Timestamp) (t : List AgentWait) (done : AgentWait) (cs : List WaitCall)
    (now' : Timestamp) (checkpoint : Ident)
    → Unique wait_key t
    → (fire_wait i now t).0 ≡ some done
    → let t' = run waits (fire_wait i now t).1 cs in
      (get wait_key i t' ≡ some done)
      × (((fire_wait i now' t').0 ≡ none) × ((arm_wait i checkpoint now' t').0 ≡ none))
unfolding fire_wait arm_wait
spent_stays i now t done cs now' checkpoint u won =
    let (r, _, _, same, found) =
      cas_won wait_key i (λ r. is_unspent r.status) _ (λ r. refl) t done u won in
    let u' = cas-Unique wait_key i (λ r. is_unspent r.status) _ (λ r. refl) t u in
    let final : done.status ≡ wait_fired = ap (λ r. r.status) same in
    let (r', there, same') =
      run_keeps waits (λ r. r ≡ done) (λ _. Unit {0}) (λ c r _ e. wait_after-spent done final c r e)
        i cs _ done u' found (every_call cs) refl in
    let there' = there ∙ ap some same' in
    let u'' = run-Unique waits _ cs u' in
    (
      there',
      (
        cas_returns wait_key i _ _ _ u'' ∙ (rw (there', final)),
        cas_returns wait_key i _ _ _ u'' ∙ (rw (there', final)),
      ),
    )
