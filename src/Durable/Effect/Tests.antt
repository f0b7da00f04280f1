-- ===== src/Durable/Effect/Tests.antt =====
-- Runs of the effect store on small tables, and the theorems at them. Tokens hash to themselves plus one.
use busyclaw.Prelude.{◌+◌, ◌≡◌, refl, ◌≢◌, none, some, List, [], ◌∷◌, arith, Ident}
use busyclaw.Storage.Table.{get, find_one, update, create}
use busyclaw.Storage.Machine.{run}
use busyclaw.Durable.Effect.{
  EffectStatus, started, EffectRecord, Effects, ClaimInput, claimed, in_progress, answers, key,
  claim, complete, fail, heartbeat,
}
use busyclaw.Durable.Effect.Lifecycle.{Call, takes, beats, fails, step, machine}
use busyclaw.Durable.Effect.Lease.{lease_protects}
use busyclaw.Durable.Effect.Claim.{IsHeld, claim_excluded}

abbrev plus_one : Ident → Ident
plus_one n = n + 1

abbrev asked : ClaimInput
asked = record {
  id = 1;
  tool_name = 5;
  input_hash = 6;
  anchors = record { scope = 3; scope_id = 4; claw_id = none; principal = some 2 };
  compensation = none;
  now = 100;
  lease_ttl_ms = some 50;
  reclaim_expired = none;
}

abbrev row : EffectRecord
row = record {
  id = 1;
  status = started;
  principal = some 2;
  claw_id = none;
  scope = 3;
  scope_id = 4;
  tool_name = 5;
  input_hash = 6;
  output = none;
  error = none;
  compensation = none;
  compensation_effect_id = none;
  lease_expires_at = some 150;
  created_at = 100;
  updated_at = 100;
  lease_token_hash = some 78;
}

abbrev rows : Effects
rows = row ∷ []

effect : Unit {0}
unfolding claim complete fail heartbeat run step find_one update create
effect = tt

first_claim : claim plus_one asked 77 [] [] [] [] [] ≡ answers (claimed row 77 150) rows
unfolding effect
first_claim = refl

second_claim :
    claim plus_one (record asked { now = 120 }) 80 rows rows rows rows rows
    ≡ answers (in_progress row (some 150)) rows
unfolding effect
second_claim = refl

abbrev history : List Call
history = beats 1 90 110 none ∷ takes 1 80 120 170 ∷ fails 1 91 130 9 ∷ []

abbrev done : EffectRecord
done = record row {
  status = EffectStatus.completed;
  output = some 40;
  lease_expires_at = none;
  updated_at = 120;
  lease_token_hash = none;
}

lease_protects_example :
    let t' = run (machine plus_one) rows history in
    (get key 1 t' ≡ some row)
    × ((complete plus_one 1 77 140 (some 40) t').0 ≡ some (record done { updated_at = 140 }))
unfolding effect
lease_protects_example =
    lease_protects plus_one 1 77 150 140 (some 40) history rows row (tt, tt) refl refl refl refl
      (omega arith, (omega arith, (omega arith, tt))) (omega arith)

row-IsHeld : IsHeld plus_one 120 row
row-IsHeld = (refl, (150, refl, omega arith))

claim_excluded_example :
    claim plus_one (record asked { now = 120 }) 80 [] rows rows rows rows
    ≢ answers (claimed row 80 170) rows
unfolding effect
claim_excluded_example =
    claim_excluded plus_one (record asked { now = 120 }) 80 row row [] rows rows rows rows row 80
      170 rows (tt, tt) refl refl row-IsHeld

abbrev later : ClaimInput
later = record asked { now = 150 }
