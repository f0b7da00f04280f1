-- ===== src/Durable/Checkpoint/Rows.antt =====
-- What the writes of packages/storage/durable/src/run-checkpoint.ts keep in every row.
use busyclaw.Prelude.{
  ℕ, ◌≡◌, refl, Bool, true, false, ◌&&◌, ◌||◌, not, Option, none, some, Option-cases, inl, inr,
  List, [], ◌∷◌, ◌==◌, if◌then◌else◌, arith, All, All-append, All-filter, any, Bool-cases, Ident,
  Timestamp, add_ms, length,
}
use busyclaw.Storage.Table
use busyclaw.Storage.Table.{get, cas, or_keep, find_one, update, delete_many}
use busyclaw.Durable.Checkpoint.{
  Checkpoint, Checkpoints, key, lease_length, NewCheckpoint, new_checkpoint, create, where_pending,
  where_lapsed, hold, or_reclaimed, claim, delete_superseded, is_held_by, retire, sweep_after,
  complete, is_of, delete_for_runs,
}

update-All :
    (Q : Checkpoint → Type 0) (p : Checkpoint → Bool) (f : Checkpoint → Checkpoint)
    → ((r : Checkpoint) → p r ≡ true → Q r → Q (f r))
    → (t : Checkpoints) → All Q t
    → All Q (Table.update p f t).1
unfolding update
update-All Q p f keep [] h = tt
update-All Q p f keep (r ∷ t) h = elim (Bool-cases (p r)) [
  | inl yes' ↦ rw yes' (keep r yes' h.0, h.1)
  | inr other ↦ rw other (h.0, update-All Q p f keep t h.1)
]

pub update-none :
    (p : Checkpoint → Bool) (f : Checkpoint → Checkpoint) (t : Checkpoints)
    → All (λ r. p r ≡ false) t
    → (Table.update p f t).0 ≡ none
unfolding update
update-none p f [] h = refl
update-none p f (r ∷ t) h = rw (h.0, update) (update-none p f t h.1)

pub create-All :
    (Q : Checkpoint → Type 0) (input : NewCheckpoint) (t : Checkpoints)
    → Q (new_checkpoint input)
    → All Q t
    → All Q (or_keep t (create input t))
unfolding Table.create
create-All Q input t q h = elim (Bool-cases (any (λ s. key s == key (new_checkpoint input)) t)) [
  | inl used ↦ rw used h
  | inr free ↦ rw free (All-append Q t (new_checkpoint input ∷ []) h (q, tt))
]

pub or_reclaimed-none :
    (first second : Option Checkpoint × Checkpoints)
    → first.0 ≡ none
    → second.0 ≡ none
    → (or_reclaimed first second).0 ≡ none
or_reclaimed-none (none, t) second h k = k
or_reclaimed-none (some r, t) second h k = h

-- A property of rows that the writes of one call keep.
module _ (Q : Checkpoint → Type 0) where
  or_reclaimed-All :
      (first second : Option Checkpoint × Checkpoints)
      → All Q first.1
      → All Q second.1
      → All Q (or_reclaimed first second).1
  or_reclaimed-All (none, t) second h k = k
  or_reclaimed-All (some r, t) second h k = h

  delete_many-All : (p : Checkpoint → Bool) (t : Checkpoints) → All Q t → All Q (delete_many p t)
  unfolding delete_many
  delete_many-All p t h = All-filter Q (λ r. not (p r)) t h

  delete_superseded-All :
      (swept : Bool) (of consumed_id : Ident) (at : Timestamp) (t : Checkpoints)
      → All Q t
      → All Q (delete_superseded swept of consumed_id at t)
  unfolding delete_superseded
  delete_superseded-All false of consumed_id at t h = h
  delete_superseded-All true of consumed_id at t h = delete_many-All _ t h

  pub sweep_after-All :
      (swept : Bool) (id : Ident) (w : Option Checkpoint × Checkpoints)
      → All Q w.1
      → All Q (sweep_after swept id w)
  unfolding sweep_after
  sweep_after-All swept id (none, t) h = h
  sweep_after-All swept id (some r, t) h = elim (Option-cases (r.run_id)) [
    | inl loose ↦ rw loose h
    | inr (of, there) ↦ rw there (delete_superseded-All swept of id r.created_at t h)
  ]

  pub claim-All :
      (id lease_id : Ident) (ts : Timestamp) (ms : Option ℕ)
      → ((r : Checkpoint)
          → (key r == id && (where_pending r || where_lapsed ts r)) ≡ true
          → Q r
          → Q (hold lease_id (add_ms ts (lease_length ms)) r))
      → (t : Checkpoints) → All Q t
      → All Q (claim id lease_id ts ms t).1
  unfolding claim
  claim-All id lease_id ts ms keep t h =
      let first = update-All Q _ _ (λ r e q. keep r (ground (arith, e)) q) t h in
      or_reclaimed-All (cas key id where_pending (hold lease_id (add_ms ts (lease_length ms))) t) _
        first (update-All Q _ _ (λ r e q. keep r (ground (arith, e)) q) _ first)

  pub complete-All :
      (swept : Bool) (id lease_id : Ident) (ts : Timestamp)
      → ((r : Checkpoint) → (key r == id && is_held_by lease_id r) ≡ true → Q r → Q (retire ts r))
      → (t : Checkpoints) → All Q t
      → All Q (complete swept id lease_id ts t).1
  unfolding complete
  complete-All swept id lease_id ts keep t h =
      sweep_after-All swept id (cas key id (is_held_by lease_id) (retire ts) t)
        (update-All Q _ _ keep t h)

  pub delete_for_runs-All :
      (has_delete_many : Bool) (runs : List Ident) (t : Checkpoints)
      → All Q t
      → All Q (delete_for_runs has_delete_many runs t).1
  unfolding delete_for_runs
  delete_for_runs-All has_delete_many runs t h =
      elim (Bool-cases (length (Table.find_many (is_of runs) t) == 0)) [
        | inl idle ↦ rw idle h
        | inr busy ↦ rw busy (kept has_delete_many)
      ]
    where
      kept : (b : Bool) → All Q (if b then delete_many (is_of runs) t else t)
      kept false = h
      kept true = delete_many-All (is_of runs) t h
