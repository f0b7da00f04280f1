-- ===== src/Durable/Checkpoint/Successor.antt =====
-- What the sweep of `complete` leaves of a run (packages/storage/durable/src/run-checkpoint.ts).
use busyclaw.Prelude.{
  ◌≡◌, refl, ◌<◌, ◌≤◌, Bool, true, false, Option, none, some, inl, inr, [], ◌∷◌, leb, filter,
  if◌then◌else◌, ◌∙◌, ap, sym, arith, All, Bool-cases, ◌⊎◌, Timestamp,
}
use busyclaw.Storage.Table.{sort_desc, place_desc}
use busyclaw.Durable.Checkpoint.{Checkpoint, Checkpoints, head}

abbrev at : Checkpoint → Timestamp
at r = r.created_at

abbrev later_of : Checkpoint → Option Checkpoint → Option Checkpoint
later_of r none = some r
later_of r (some s) = if leb s.created_at r.created_at then some r else some s

-- The latest of some rows, the first of several.
abbrev pub latest : Checkpoints → Option Checkpoint
latest [] = none
latest (r ∷ t) = later_of r (latest t)

head-place_desc :
    (r : Checkpoint) (t : Checkpoints)
    → head (place_desc (λ r. r.created_at) r t) ≡ later_of r (head t)
unfolding place_desc
head-place_desc r [] = refl
head-place_desc r (s ∷ t) = ground arith

pub head-sort_desc : (t : Checkpoints) → head (sort_desc (λ r. r.created_at) t) ≡ latest t
unfolding sort_desc
head-sort_desc [] = refl
head-sort_desc (r ∷ t) = head-place_desc r _ ∙ ap (later_of r) (head-sort_desc t)

abbrev pub AtMost : Timestamp → Option Checkpoint → Type 0
AtMost m none = Unit
AtMost m (some r) = r.created_at ≤ m

later_of-AtMost_inv :
    (m : Timestamp) (r : Checkpoint) (o : Option Checkpoint)
    → AtMost m (later_of r o)
    → (r.created_at ≤ m) × AtMost m o
later_of-AtMost_inv m r none h = (h, tt)
later_of-AtMost_inv m r (some s) h = elim (Bool-cases (leb s.created_at r.created_at)) [
  | inl newer ↦ (ground (arith, h, newer), ground (arith, h, newer))
  | inr older ↦ (ground (arith, h, older), ground (arith, h, older))
]

later_of-AtMost :
    (m : Timestamp) (r : Checkpoint) (o : Option Checkpoint)
    → r.created_at ≤ m
    → AtMost m o
    → AtMost m (later_of r o)
later_of-AtMost m r none h k = h
later_of-AtMost m r (some s) h k = elim (Bool-cases (leb s.created_at r.created_at)) [
  | inl newer ↦ rw newer h
  | inr older ↦ rw older k
]

latest-filter-AtMost :
    (q : Checkpoint → Bool) (m : Timestamp) (t : Checkpoints)
    → AtMost m (latest t)
    → AtMost m (latest (filter q t))
latest-filter-AtMost q m [] h = tt
latest-filter-AtMost q m (r ∷ t) h =
    let both = later_of-AtMost_inv m r (latest t) h in
    let rest = latest-filter-AtMost q m t both.1 in
    elim (Bool-cases (q r)) [
      | inl kept ↦ rw kept (later_of-AtMost m r (latest (filter q t)) both.0 rest)
      | inr gone ↦ rw gone rest
    ]

later_of_self :
    (r : Checkpoint) (o : Option Checkpoint) → AtMost r.created_at o → later_of r o ≡ some r
later_of_self r none h = refl
later_of_self r (some s) h = ground (arith, h)

later_of-cases :
    (r s : Checkpoint) (o : Option Checkpoint)
    → later_of r o ≡ some s
    → ((s ≡ r) × AtMost r.created_at o) ⊎ ((o ≡ some s) × (r.created_at < s.created_at))
later_of-cases r s none e = inl (ground (arith, e), tt)
later_of-cases r s (some b) e = elim (Bool-cases (leb b.created_at r.created_at)) [
  | inl newer ↦ inl (ground (arith, e, newer), ground (arith, newer))
  | inr older ↦ inr (ground (arith, e, older), ground (arith, e, older))
]

-- Removing only rows of an instant or before keeps the latest, if it is later.
pub latest-filter :
    (q : Checkpoint → Bool) (c : Timestamp)
    → ((r : Checkpoint) → c < r.created_at → q r ≡ true)
    → (t : Checkpoints) (s : Checkpoint) → latest t ≡ some s
    → c < s.created_at
    → latest (filter q t) ≡ some s
latest-filter q c keep [] s e lt = absurd (ground (arith, e))
latest-filter q c keep (r ∷ t) s e lt = elim (later_of-cases r s (latest t) e) [
  | inl (same, most) ↦
      let kept : q r ≡ true = keep r (ground (arith, same, lt)) in
      rw kept (
        later_of_self r (latest (filter q t)) (latest-filter-AtMost q r.created_at t most)
        ∙ ap some (sym same))
  | inr (there, older) ↦
      let rest = latest-filter q c keep t s there lt in
      elim (Bool-cases (q r)) [
        | inl kept ↦ rw (kept, rest) (ground (arith, older))
        | inr gone ↦ rw gone rest
      ]
]

-- Removing every row leaves none.
pub latest-none :
    (q : Checkpoint → Bool) (t : Checkpoints)
    → All (λ r. q r ≡ false) t
    → latest (filter q t) ≡ none
latest-none q [] h = refl
latest-none q (r ∷ t) h = rw (h.0) (latest-none q t h.1)

pub All-AtMost :
    (m : Timestamp) (t : Checkpoints) → AtMost m (latest t) → All (λ r. r.created_at ≤ m) t
All-AtMost m [] h = tt
All-AtMost m (r ∷ t) h =
    let both = later_of-AtMost_inv m r (latest t) h in (both.0, All-AtMost m t both.1)
