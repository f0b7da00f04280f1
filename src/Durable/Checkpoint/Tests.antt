-- ===== src/Durable/Checkpoint/Tests.antt =====
-- Runs of the checkpoint store on small tables, and the theorems at them.
use busyclaw.Prelude.{◌≡◌, refl, true, none, some, [], ◌∷◌, arith, ltb, if◌then◌else◌}
use busyclaw.Storage.Table.{find_one, find_many, update, sort_desc, place_desc, delete_many}
use busyclaw.Durable.Checkpoint.{
  pending, claimed, consumed, Checkpoint, Checkpoints, claim, complete, latest_pending_for_run,
  delete_superseded, delete_for_runs,
}
use busyclaw.Durable.Checkpoint.History.{claims, completes, deletes, step, run}
use busyclaw.Durable.Checkpoint.Single.{claim_excludes, complete_once}
use busyclaw.Durable.Checkpoint.Continue.{latest_pending_for_run-complete}

-- Checkpoint 1 of run 7, parked at 100, and its successor 2, parked at the same instant.
abbrev first : Checkpoint
first = record {
  id = 1;
  status = pending;
  run_id = some 7;
  metadata = 0;
  created_at = 100;
  consumed_at = none;
  lease_id = none;
  lease_expires_at = none;
}

abbrev first_held : Checkpoint
first_held = record first { status = claimed; lease_id = some 50; lease_expires_at = some 60_200 }

abbrev first_done : Checkpoint
first_done = record first_held {
  status = consumed;
  consumed_at = some 300;
  lease_expires_at = none;
}

abbrev second : Checkpoint
second = record first { id = 2 }

abbrev rows : Checkpoints
rows = first_held ∷ second ∷ []

effect : Unit {0}
unfolding claim complete latest_pending_for_run delete_superseded delete_for_runs run step find_one
    find_many update sort_desc place_desc delete_many
effect = tt

claim-first : claim 1 50 200 none (first ∷ []) ≡ (some first_held, first_held ∷ [])
unfolding effect
claim-first = refl

reclaimed :
    (claim 1 51 60_200 none (first_held ∷ [])).0
    ≡ some (record first_held { lease_id = some 51; lease_expires_at = some 120_200 })
unfolding effect
reclaimed = refl

successor_lost : complete true 1 50 300 rows ≡ (some first_done, first_done ∷ [])
unfolding effect
successor_lost = refl

claim_excludes_example :
    let t' =
      run
        (claim 1 50 200 none (first ∷ [])).1
        (claims 1 51 300 none ∷ completes true 1 51 400 ∷ []) in
    ((claim 1 52 500 none t').0 ≡ none) × ((complete true 1 52 600 t').0 ≡ none)
unfolding effect
claim_excludes_example =
    claim_excludes 1 50 200 none (first ∷ []) first_held
      (claims 1 51 300 none ∷ completes true 1 51 400 ∷ []) 52 500 none true 52 600 (tt, tt) refl
      ((λ e. omega arith), ((λ e. omega arith), tt)) (omega arith) (omega arith)

complete_once_example :
    let t' =
      run (complete true 1 50 300 rows).1 (claims 1 51 90_000 none ∷ deletes true (8 ∷ []) ∷ []) in
    (first_done.status ≡ consumed)
    × (((claim 1 50 500 none t').0 ≡ none) × ((complete true 1 50 500 t').0 ≡ none))
unfolding effect
complete_once_example =
    complete_once true 1 50 300 rows first_done
      (claims 1 51 90_000 none ∷ deletes true (8 ∷ []) ∷ []) 50 500 none true
      (((λ e. absurd (omega arith)), tt), (tt, tt)) refl (tt, (tt, tt))

latest_pending_for_run-complete_example :
    latest_pending_for_run 7 (complete true 1 50 300 rows).1
    ≡ (if true then (if ltb 100 100 then some second else none) else some second)
unfolding effect
latest_pending_for_run-complete_example =
    latest_pending_for_run-complete true 1 50 7 300 rows first_done second
      (((λ e. absurd (omega arith)), tt), (tt, tt)) refl refl refl
