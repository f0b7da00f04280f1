-- ===== src/Durable/Checkpoint.antt =====
-- packages/storage/durable/src/run-checkpoint.ts: the checkpoints of runs that yielded, over the row of
-- packages/foundation/contracts/src/run-checkpoint.ts. Every write is one step on the table, but `complete`,
-- which writes and then sweeps; `swept` says whether the sweep was run or threw.
mod Rows
pub mod History
pub mod Single
mod Successor
pub mod Continue
mod Tests
use busyclaw.Prelude.{
  ℕ, Bool, true, false, ◌&&◌, not, Option, none, some, List, [], ◌∷◌, ◌==◌, leb, any, length,
  if◌then◌else◌, Ident, Timestamp, add_ms, opt_eq,
}
use busyclaw.Storage.Table
use busyclaw.Storage.Table.{get, cas, find_many, sort_desc, delete_many}

pub data CheckpointStatus : Type 0 where
  pending claimed consumed : CheckpointStatus

pub record Checkpoint : Type 0 where
  pub id : Ident
  pub status : CheckpointStatus
  pub run_id : Option Ident
  pub metadata : Ident
  pub created_at : Timestamp
  pub consumed_at : Option Timestamp
  pub lease_id : Option Ident
  pub lease_expires_at : Option Timestamp

abbrev pub Checkpoints : Type 0
Checkpoints = List Checkpoint

abbrev pub key : Checkpoint → Ident
key r = r.id

abbrev pub is_pending : CheckpointStatus → Bool
is_pending pending = true
is_pending claimed = false
is_pending consumed = false

abbrev pub is_claimed : CheckpointStatus → Bool
is_claimed pending = false
is_claimed claimed = true
is_claimed consumed = false

abbrev pub default_claim_lease_ms : ℕ
default_claim_lease_ms = 60_000

abbrev pub lease_length : Option ℕ → ℕ
lease_length none = default_claim_lease_ms
lease_length (some ms) = ms

pub record NewCheckpoint : Type 0 where
  pub id : Ident
  pub run_id : Option Ident
  pub metadata : Ident
  pub created_at : Timestamp

abbrev pub new_checkpoint : NewCheckpoint → Checkpoint
new_checkpoint input = record {
  id = input.id;
  status = pending;
  run_id = input.run_id;
  metadata = input.metadata;
  created_at = input.created_at;
  consumed_at = none;
  lease_id = none;
  lease_expires_at = none;
}

-- `none` is the conflict on an id in use.
abbrev pub create : NewCheckpoint → Checkpoints → Option Checkpoints
create input t = Table.create key (new_checkpoint input) t

abbrev pub is_pending_of : Ident → Checkpoint → Bool
is_pending_of run r = opt_eq r.run_id (some run) && is_pending r.status

abbrev pub head : Checkpoints → Option Checkpoint
head [] = none
head (r ∷ t) = some r

unfoldable pub latest_pending_for_run : Ident → Checkpoints → Option Checkpoint
latest_pending_for_run run t =
    head (sort_desc (λ r. r.created_at) (find_many (is_pending_of run) t))

-- The `where` lists of the two writes of a claim.
abbrev pub where_pending : Checkpoint → Bool
where_pending r = is_pending r.status

abbrev pub where_lapsed : Timestamp → Checkpoint → Bool
where_lapsed ts r =
    is_claimed r.status && elim r.lease_expires_at [ none ↦ false | some until ↦ leb until ts ]

abbrev pub hold : Ident → Timestamp → Checkpoint → Checkpoint
hold lease_id until r = record r {
  status = claimed;
  lease_id = some lease_id;
  lease_expires_at = some until;
}

abbrev pub or_reclaimed :
    Option Checkpoint × Checkpoints
    → Option Checkpoint × Checkpoints
    → Option Checkpoint × Checkpoints
or_reclaimed (some fresh, t) reclaimed = (some fresh, t)
or_reclaimed (none, t) reclaimed = reclaimed

-- The claimed row, held under the lease that the caller drew.
unfoldable pub claim :
    (id lease_id : Ident) → Timestamp → Option ℕ → Checkpoints → Option Checkpoint × Checkpoints
claim id lease_id ts ms t =
    let until = add_ms ts (lease_length ms) in
    let fresh = cas key id where_pending (hold lease_id until) t in
    or_reclaimed fresh (cas key id (where_lapsed ts) (hold lease_id until) fresh.1)

abbrev pub is_superseded : Ident → Ident → Timestamp → Checkpoint → Bool
is_superseded run consumed_id created_at r =
    opt_eq r.run_id (some run) && (leb r.created_at created_at && not (r.id == consumed_id))

unfoldable pub delete_superseded :
    (swept : Bool) → Ident → Ident → Timestamp → Checkpoints → Checkpoints
delete_superseded swept run consumed_id created_at t =
    if swept then delete_many (is_superseded run consumed_id created_at) t else t

abbrev pub is_held_by : Ident → Checkpoint → Bool
is_held_by lease_id r = is_claimed r.status && opt_eq r.lease_id (some lease_id)

abbrev pub retire : Timestamp → Checkpoint → Checkpoint
retire ts r = record r { status = consumed; consumed_at = some ts; lease_expires_at = none }

abbrev pub sweep_after : Bool → Ident → Option Checkpoint × Checkpoints → Checkpoints
unfolding delete_superseded
sweep_after swept id (none, t) = t
sweep_after swept id (some r, t) = elim (r.run_id) [
  | none ↦ t
  | some run ↦ delete_superseded swept run id r.created_at t
]

unfoldable pub complete :
    (swept : Bool)
    → (id lease_id : Ident) → Timestamp
    → Checkpoints
    → Option Checkpoint × Checkpoints
unfolding sweep_after
complete swept id lease_id ts t =
    let written = cas key id (is_held_by lease_id) (retire ts) t in
    (written.0, sweep_after swept id written)

abbrev pub is_of : List Ident → Checkpoint → Bool
is_of runs r = any (λ run. opt_eq r.run_id (some run)) runs

-- How many rows went, by the count before; `deletes` says whether the adapter has `deleteMany`.
unfoldable pub delete_for_runs : (deletes : Bool) → List Ident → Checkpoints → ℕ × Checkpoints
delete_for_runs deletes runs t =
    let doomed = find_many (is_of runs) t in
    if length doomed == 0
    then (0, t)
    else (length doomed, (if deletes then delete_many (is_of runs) t else t))
