-- ===== src/Durable/Checkpoint/History.antt =====
-- The table of checkpoints under any history of operations (packages/storage/durable/src/run-checkpoint.ts).
use busyclaw.Prelude.{
  ℕ, ◌≡◌, Bool, Option, some, inl, inr, List, [], ◌∷◌, ◌==◌, arith, All, All-map, Bool-cases, Ident,
  Timestamp,
}
use busyclaw.Storage.Table.{get, or_keep, find_one}
use busyclaw.Storage.Table.Laws.{Unique}
use busyclaw.Durable.Checkpoint.{
  Checkpoint, Checkpoints, key, NewCheckpoint, create, claim, complete, delete_for_runs,
}

-- One operation that writes.
pub data Call : Type 0 where
  creates : NewCheckpoint → Call
  claims : (id lease_id : Ident) → Timestamp → Option ℕ → Call
  completes : (swept : Bool) → (id lease_id : Ident) → Timestamp → Call
  deletes : (deletes : Bool) → List Ident → Call

unfoldable pub step : Checkpoints → Call → Checkpoints
step t (creates input) = or_keep t (create input t)
step t (claims id lease_id ts ms) = (claim id lease_id ts ms t).1
step t (completes swept id lease_id ts) = (complete swept id lease_id ts t).1
step t (deletes has_delete_many runs) = (delete_for_runs has_delete_many runs t).1

unfoldable pub run : Checkpoints → List Call → Checkpoints
unfolding step
run t [] = t
run t (c ∷ cs) = run (step t c) cs

-- What holds of the row with this id, if it is stored.
abbrev pub OfRow : Ident → (Checkpoint → Type 0) → Checkpoint → Type 0
OfRow i P r = r.id ≡ i → P r

pub only_row :
    (i : Ident) (t : Checkpoints) (r : Checkpoint)
    → Unique key t
    → get key i t ≡ some r
    → All (OfRow i (λ s. s ≡ r)) t
unfolding find_one
only_row i [] r u e = tt
only_row i (s ∷ t) r u e = elim (Bool-cases (key s == i)) [
  | inl here ↦
      let same : s ≡ r = ground (arith, e, here) in
      (λ q. same, All-map (λ x ne q. absurd (ne (ground (arith, q, here)))) t u.0)
  | inr elsewhere ↦ (
    λ q. absurd (ground (arith, q, elsewhere)),
    only_row i t r u.1 (ground (arith, e, elsewhere)),
  )
]
