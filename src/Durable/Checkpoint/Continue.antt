-- ===== src/Durable/Checkpoint/Continue.antt =====
-- The pending checkpoint that a run continues from, after a completion (packages/storage/durable/src/run-checkpoint.ts).
use busyclaw.Prelude.{
  ◌≡◌, refl, ◌≢◌, ◌<◌, ◌≤◌, Bool, true, false, ◌&&◌, not, Option, none, some, inl, inr, [], ◌∷◌,
  ◌==◌, ltb, filter, if◌then◌else◌, ◌∙◌, ap, sym, subst, arith, All, All-map, Bool-cases, Ident,
  Timestamp,
}
use busyclaw.Storage.Table
use busyclaw.Storage.Table.{get, cas, find_many, update, sort_desc, delete_many}
use busyclaw.Storage.Table.Laws.{Unique, cas_won}
use busyclaw.Durable.Checkpoint.{
  Checkpoint, Checkpoints, key, is_pending_of, latest_pending_for_run, is_superseded,
  delete_superseded, is_held_by, retire, sweep_after, complete,
}
use busyclaw.Durable.Checkpoint.History.{only_row}
use busyclaw.Durable.Checkpoint.Successor.{
  latest, head-sort_desc, latest-filter, latest-none, All-AtMost, AtMost,
}

filter-update :
    (q p : Checkpoint → Bool) (f : Checkpoint → Checkpoint)
    → ((r : Checkpoint) → p r ≡ true → (q r ≡ false) × (q (f r) ≡ false))
    → (t : Checkpoints) → filter q (Table.update p f t).1 ≡ filter q t
unfolding update
filter-update q p f h [] = refl
filter-update q p f h (r ∷ t) = elim (Bool-cases (p r)) [
  | inl hit ↦ rw (hit, (h r hit).0, (h r hit).1) refl
  | inr other ↦ rw (other, filter-update q p f h t) refl
]

filter_swap :
    (p q : Checkpoint → Bool) (t : Checkpoints) → filter p (filter q t) ≡ filter q (filter p t)
filter_swap p q [] = refl
filter_swap p q (r ∷ t) = ground (arith, filter_swap p q t)

latest_pending-latest :
    (run : Ident) (t : Checkpoints)
    → latest_pending_for_run run t ≡ latest (filter (is_pending_of run) t)
unfolding latest_pending_for_run find_many
latest_pending-latest run t = head-sort_desc _

-- The rows that a sweep leaves among some.
abbrev left_of : Bool → Ident → Ident → Timestamp → Checkpoints → Checkpoints
left_of swept run i c t = if swept then filter (λ r. not (is_superseded run i c r)) t else t

pending_swept :
    (swept : Bool) (i run : Ident) (c : Timestamp) (t : Checkpoints)
    → filter (is_pending_of run) (delete_superseded swept run i c t)
      ≡ left_of swept run i c (filter (is_pending_of run) t)
unfolding delete_superseded delete_many
pending_swept false i run c t = refl
pending_swept true i run c t = filter_swap (is_pending_of run) _ t

pending_sweep_after :
    (swept : Bool) (i run : Ident) (done : Checkpoint) (w : Option Checkpoint × Checkpoints)
    → w.0 ≡ some done
    → done.run_id ≡ some run
    → filter (is_pending_of run) (sweep_after swept i w)
      ≡ left_of swept run i done.created_at (filter (is_pending_of run) w.1)
unfolding sweep_after
pending_sweep_after swept i run done (none, t) won of = absurd (ground (arith, won))
pending_sweep_after swept i run done (some r, t) won of =
    let same : r ≡ done = ground (arith, won) in
    subst
      (λ r.
        filter (is_pending_of run) (sweep_after swept i (some r, t))
        ≡ left_of swept run i done.created_at (filter (is_pending_of run) t))
      (sym same) (rw of (pending_swept swept i run done.created_at t))

not-pending :
    (i l run : Ident) (ts : Timestamp) (r : Checkpoint)
    → (key r == i && is_held_by l r) ≡ true
    → (is_pending_of run r ≡ false) × (is_pending_of run (retire ts r) ≡ false)
not-pending i l run ts r h = (ground (arith, h), ground arith)

latest_after :
    (swept : Bool) (i l run : Ident) (ts : Timestamp) (t : Checkpoints) (done : Checkpoint)
    → (complete swept i l ts t).0 ≡ some done
    → done.run_id ≡ some run
    → latest_pending_for_run run (complete swept i l ts t).1
      ≡ latest (left_of swept run i done.created_at (filter (is_pending_of run) t))
unfolding complete
latest_after swept i l run ts t done won of =
    latest_pending-latest run _
    ∙ ap latest
        (pending_sweep_after swept i run done (cas key i (is_held_by l) (retire ts) t) won of)
    ∙ ap (λ x. latest (left_of swept run i done.created_at x))
        (filter-update (is_pending_of run) _ (retire ts) (not-pending i l run ts) t)

kept_if_later :
    (run i : Ident) (c : Timestamp) (r : Checkpoint)
    → c < r.created_at
    → not (is_superseded run i c r) ≡ true
kept_if_later run i c r h = ground arith

doomed :
    (run i : Ident) (c : Timestamp) (r : Checkpoint)
    → is_pending_of run r ≡ true
    → r.id ≢ i
    → r.created_at ≤ c
    → not (is_superseded run i c r) ≡ false
doomed run i c r p ne h = ground arith

-- A row whose completion is accepted is not pending.
pending_others :
    (i run : Ident) (t : Checkpoints)
    → All (λ r. r.id ≡ i → is_pending_of run r ≡ false) t
    → All (λ r. (is_pending_of run r ≡ true) × (r.id ≢ i)) (filter (is_pending_of run) t)
pending_others i run [] h = tt
pending_others i run (r ∷ t) h = elim (Bool-cases (is_pending_of run r)) [
  | inl live ↦ rw live ((live, λ e. cc (live, h.0 e)), pending_others i run t h.1)
  | inr other ↦ rw other (pending_others i run t h.1)
]

doomed-All :
    (i run : Ident) (c : Timestamp) (t : Checkpoints)
    → All (λ r. (is_pending_of run r ≡ true) × (r.id ≢ i)) t
    → All (λ r. r.created_at ≤ c) t
    → All (λ r. not (is_superseded run i c r) ≡ false) t
doomed-All i run c [] h k = tt
doomed-All i run c (r ∷ t) h k = (doomed run i c r h.0.0 h.0.1 k.0, doomed-All i run c t h.1 k.1)

latest_left :
    (swept : Bool) (i run : Ident) (c : Timestamp) (t : Checkpoints) (s : Checkpoint)
    → All (λ r. (is_pending_of run r ≡ true) × (r.id ≢ i)) t
    → latest t ≡ some s
    → latest (left_of swept run i c t)
      ≡ (if swept then (if ltb c s.created_at then some s else none) else some s)
latest_left false i run c t s others before = before
latest_left true i run c t s others before = elim (Bool-cases (ltb c s.created_at)) [
  | inl later ↦
      rw later (latest-filter _ c (kept_if_later run i c) t s before (ground (arith, later)))
  | inr older ↦
      let most = All-AtMost c t (subst (AtMost c) (sym before) (ground (arith, older))) in
      rw older (latest-none _ t (doomed-All i run c t others most))
]

completed-not_pending :
    (i l run : Ident) (ts : Timestamp) (t : Checkpoints) (done : Checkpoint) (swept : Bool)
    → Unique key t
    → (complete swept i l ts t).0 ≡ some done
    → All (λ r. r.id ≡ i → is_pending_of run r ≡ false) t
unfolding complete
completed-not_pending i l run ts t done swept u won =
    let (r, found, held, _, _) =
      cas_won key i (is_held_by l) (retire ts) (λ r. refl) t done u won in
    All-map
      (λ s same e. subst (λ x. is_pending_of run x ≡ false) (sym (same e)) (ground (arith, held))) t
      (only_row i t r u found)

-- What a run continues from after one of its checkpoints was completed and the sweep was run: the pending
-- checkpoint that it would have continued from before, if that is later than the completed one, and no
-- checkpoint otherwise. Where the sweep threw, it is the one before.
pub latest_pending_for_run-complete :
    (swept : Bool) (i l run : Ident) (ts : Timestamp) (t : Checkpoints) (done s : Checkpoint)
    → Unique key t
    → (complete swept i l ts t).0 ≡ some done
    → done.run_id ≡ some run
    → latest_pending_for_run run t ≡ some s
    → latest_pending_for_run run (complete swept i l ts t).1
      ≡ (if swept then (if ltb done.created_at s.created_at then some s else none) else some s)
latest_pending_for_run-complete swept i l run ts t done s u won of before =
    latest_after swept i l run ts t done won of
    ∙ latest_left swept i run done.created_at _ s
        (pending_others i run t (completed-not_pending i l run ts t done swept u won))
        (sym (latest_pending-latest run t) ∙ before)
