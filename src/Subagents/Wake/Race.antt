-- ===== src/Subagents/Wake/Race.antt =====
-- The race between the last child and the arm of a park (packages/plugins/subagents/src/join.ts and
-- packages/plugins/subagents/src/reconcile.ts).
use busyclaw.Prelude.{
  ◌≡◌, refl, ◌⊎◌, inl, inr, Bool, false, ◌&&◌, ◌==◌, Bool-cases, Option, none, some, List, [], ◌∷◌,
  ◌∙◌, ap, sym, subst, arith, All, Ident, Timestamp,
}
use busyclaw.Storage.Table.{get, find_one}
use busyclaw.Storage.Table.Laws.{
  Unique, cas_won, cas_hit, cas-Unique, cas_returns, cas_lost, get_absent, All-ne,
}
use busyclaw.Storage.Machine.{run, run_keeps, run-Unique}
use busyclaw.Subagents.Barrier.{
  is_waiting, is_arming, is_unspent, wait_armed, wait_fired, AgentJoin, join_key, AgentWait,
  wait_key, Ending, settle_join, arm_wait, fire_wait, wait_for_join,
}
use busyclaw.Subagents.Barrier.Once.{
  JoinCall, WaitCall, opens_wait, arms, fires, wait_after, joins, waits, settled_stays,
  settled-ended,
}
use busyclaw.Subagents.Wake.{
  Resumption, Wake, spent, wake_armed_wait, wake_found, arm_found, arm_parked,
}

-- The park was armed, and may be spent by now.
abbrev WasArmed : AgentWait → Type 0
WasArmed r =
    ((r.status ≡ wait_armed) ⊎ (r.status ≡ wait_fired)) × ((c : Ident) × (r.checkpoint_id ≡ some c))

wait_after-WasArmed : (c : WaitCall) (r : AgentWait) → WasArmed r → WasArmed (wait_after c r)
unfolding wait_after
wait_after-WasArmed (opens_wait input) r h = h
wait_after-WasArmed (arms id checkpoint now) r h =
    elim (Bool-cases (r.id == id && is_arming r.status)) [
      | inl hit ↦ rw hit (inl refl, (checkpoint, refl))
      | inr miss ↦ rw miss h
    ]
wait_after-WasArmed (fires id now) r h = elim (Bool-cases (r.id == id && is_unspent r.status)) [
  | inl hit ↦ rw hit (inr refl, h.1)
  | inr miss ↦ rw miss h
]

every_call : {C : Type 0} (cs : List C) → All (λ _. Unit {0}) cs
every_call [] = tt
every_call (c ∷ cs) = (tt, every_call cs)

run-WasArmed :
    (i : Ident) (cs : List WaitCall) (t : List AgentWait) (w : AgentWait)
    → Unique wait_key t
    → get wait_key i t ≡ some w
    → WasArmed w
    → (v : AgentWait) × (get wait_key i (run waits t cs) ≡ some v) × WasArmed v
run-WasArmed i cs t w u e h =
    run_keeps waits WasArmed (λ _. Unit {0}) (λ c r _ k. wait_after-WasArmed c r k) i cs t w u e
      (every_call cs) h

-- The park is spent.
abbrev pub IsSpent : Ident → List AgentWait → Type 0
IsSpent i t = (v : AgentWait) × ((get wait_key i t ≡ some v) × (v.status ≡ wait_fired))

spent-waits :
    (engine : Resumption) (r c : Ident) (p : Option AgentWait × List AgentWait)
    → (spent engine r c p).waits ≡ p.1
spent-waits engine r c (none, t) = refl
spent-waits engine r c (some w, t) = refl

wake-IsSpent :
    (engine : Resumption) (i r c : Ident) (now : Timestamp) (t : List AgentWait) (w : AgentWait)
    → Unique wait_key t
    → get wait_key i t ≡ some w
    → (w.status ≡ wait_armed) ⊎ (w.status ≡ wait_fired)
    → IsSpent i (wake_armed_wait engine i r c now t).waits
unfolding wake_armed_wait fire_wait
wake-IsSpent engine i r c now t w u e (inl armed) =
    let hit =
      cas_hit wait_key i (λ r. is_unspent r.status) _ (λ r. refl) t w u e
        (ap (λ s. is_unspent s) armed) in
    subst (IsSpent i) (sym (spent-waits engine r c _)) (_, (hit.1, refl))
wake-IsSpent engine i r c now t w u e (inr fired) =
    let refused = cas_returns wait_key i (λ r. is_unspent r.status) _ t u ∙ (rw (e, fired) refl) in
    subst (IsSpent i)
      (sym (spent-waits engine r c _ ∙ cas_lost wait_key i (λ r. is_unspent r.status) _ t refused))
      (w, (e, fired))

abbrev key_is : AgentWait → Ident → Bool
key_is r i = wait_key r == i

-- A read by another column finds the row that a read by its key finds.
find_one-get :
    (p : AgentWait → Bool) (t : List AgentWait) (w : AgentWait)
    → Unique wait_key t
    → find_one p t ≡ some w
    → get wait_key w.id t ≡ some w
unfolding find_one
find_one-get p [] w u e = absurd (ground (arith, e))
find_one-get p (r ∷ t) w u e = elim (Bool-cases (p r)) [
  | inl hit ↦
      let same : r ≡ w = ground (arith, e, hit) in
      subst (λ x. get wait_key x.id (r ∷ t) ≡ some x) same (ground arith)
  | inr miss ↦
      let rest = find_one-get p t w u.1 (ground (arith, e, miss)) in
      elim (Bool-cases (key_is r w.id)) [
        | inr apart ↦ rw apart rest
        | inl clash ↦ absurd (
            cc (
              rest,
              get_absent wait_key w.id t
                  (All-ne wait_key (wait_key r) w.id t (ground (arith, clash)) u.0),
            ))
      ]
]

armed_row :
    (i c : Ident) (now : Timestamp) (ws : List AgentWait) (w : AgentWait)
    → Unique wait_key ws
    → (arm_wait i c now ws).0 ≡ some w
    → (Unique wait_key (arm_wait i c now ws).1)
      × ((get wait_key i (arm_wait i c now ws).1 ≡ some w)
          × ((w.status ≡ wait_armed) × (w.checkpoint_id ≡ some c)))
unfolding arm_wait
armed_row i c now ws w u won =
    let (r, _, _, same, found) =
      cas_won wait_key i (λ r. is_arming r.status) _ (λ r. refl) ws w u won in
    (
      cas-Unique wait_key i (λ r. is_arming r.status) _ (λ r. refl) ws u,
      (found, (ap (λ r. r.status) same, ap (λ r. r.checkpoint_id) same)),
    )

arm_found-wakes :
    (engine : Resumption) (i c j : Ident) (now : Timestamp) (w : AgentWait) (js : List AgentJoin)
    (done : AgentJoin) (t : List AgentWait)
    → w.join_id ≡ some j
    → get join_key j js ≡ some done
    → is_waiting done.status ≡ false
    → arm_found engine i c now (some w) js t ≡ wake_armed_wait engine i w.run_id c now t
unfolding arm_found
arm_found-wakes engine i c j now w js done t names there closed =
    ground (arith, names, there, closed)

arm-IsSpent :
    (engine : Resumption) (i c j : Ident) (now : Timestamp) (o : Option AgentWait) (w : AgentWait)
    (js : List AgentJoin) (done : AgentJoin) (t : List AgentWait) (v : AgentWait)
    → o ≡ some w
    → w.join_id ≡ some j
    → get join_key j js ≡ some done
    → is_waiting done.status ≡ false
    → Unique wait_key t
    → get wait_key i t ≡ some v
    → (v.status ≡ wait_armed) ⊎ (v.status ≡ wait_fired)
    → IsSpent i (arm_found engine i c now o js t).waits
unfolding arm_found
arm-IsSpent engine i c j now none w js done t v arming names there closed u e live =
    absurd (ground (arith, arming))
arm-IsSpent engine i c j now (some w') w js done t v arming names there closed u e live =
    let names' : w'.join_id ≡ some j = ap (λ o. join_of o) arming ∙ names in
    subst (λ (x : Wake). IsSpent i x.waits)
      (sym (arm_found-wakes engine i c j now w' js done t names' there closed))
      (wake-IsSpent engine i w'.run_id c now t v u e live)
  where
    join_of : Option AgentWait → Option Ident
    join_of none = none
    join_of (some w) = w.join_id

settle-IsSpent :
    (engine : Resumption) (latest_for_run : Ident → Option Ident) (i c : Ident) (now : Timestamp)
    (js : List AgentJoin) (found : AgentWait) (t : List AgentWait) (v : AgentWait)
    → found.id ≡ i
    → found.checkpoint_id ≡ some c
    → Unique wait_key t
    → get wait_key i t ≡ some v
    → (v.status ≡ wait_armed) ⊎ (v.status ≡ wait_fired)
    → IsSpent i (wake_found engine latest_for_run now js (some found) t).waits
unfolding wake_found
settle-IsSpent engine latest_for_run i c now js found t v named checkpoint u e live =
    rw (checkpoint, named) (wake-IsSpent engine i found.run_id c now t v u e live)

found-get :
    (i j : Ident) (t : List AgentWait) (w : AgentWait)
    → Unique wait_key t
    → wait_for_join j t ≡ some w
    → w.id ≡ i
    → get wait_key i t ≡ some w
unfolding wait_for_join
found-get i j t w u e named = subst (λ k. get wait_key k t ≡ some w) named (find_one-get _ t w u e)

same_row : (o : Option AgentWait) (a b : AgentWait) → o ≡ some a → o ≡ some b → a ≡ b
same_row o a b h k = ground (arith, h, k)

-- The arm of a park and the settlement of its barrier race, and whichever comes second spends the park. A
-- park that names the barrier is armed, and the barrier is settled. If the arm reads the barriers after the
-- settlement, whatever other writes come before its wake, the park is spent after it. If the settlement
-- finds the park after the arm, whatever other writes come before its wake, the park is spent after it.
pub race_closed :
    (engine engine' : Resumption) (latest_for_run : Ident → Option Ident) (i c j : Ident)
    (to : Ending) (now now' : Timestamp) (js : List AgentJoin) (done : AgentJoin)
    (ws : List AgentWait) (w found : AgentWait) (cs : List JoinCall) (ds ds' es : List WaitCall)
    → Unique join_key js
    → Unique wait_key ws
    → (settle_join j to now js).0 ≡ some done
    → (arm_wait i c now' ws).0 ≡ some w
    → w.join_id ≡ some j
    → wait_for_join j (run waits (arm_wait i c now' ws).1 ds') ≡ some found
    → found.id ≡ i
    → IsSpent i
        (arm_parked engine i c now' ws
          (run joins (settle_join j to now js).1 cs)
          (run waits (arm_wait i c now' ws).1 ds)).waits
      × IsSpent i
          (wake_found engine' latest_for_run now
            (settle_join j to now js).1
            (some found)
            (run waits (run waits (arm_wait i c now' ws).1 ds') es)).waits
unfolding arm_parked
race_closed engine engine' latest_for_run i c j to now now' js done ws w found cs ds ds' es uj uw
      settles arming names at named =
    let (u, (there, (armed, checkpoint))) = armed_row i c now' ws w uw arming in
    let was : WasArmed w = (inl armed, (c, checkpoint)) in
    let (v, there', live) = run-WasArmed i ds _ w u there was in
    let (x, there'', live') = run-WasArmed i ds' _ w u there was in
    let same : found ≡ x =
      same_row _ found x (found-get i j _ found (run-Unique waits _ ds' u) at named) there'' in
    let (y, at_write, live'') = run-WasArmed i es _ x (run-Unique waits _ ds' u) there'' live' in
    (
      arm-IsSpent engine i c j now' _ w _ done _ v arming names
          (settled_stays j to now js done cs to now uj settles).0
          (settled-ended j to now js done uj settles) (run-Unique waits _ ds u) there' live.0,
      settle-IsSpent engine' latest_for_run i (live'.1.0) now _ found _ y named
          (ap (λ r. r.checkpoint_id) same ∙ live'.1.1)
          (run-Unique waits _ es (run-Unique waits _ ds' u)) at_write live''.0,
    )
