-- ===== src/Subagents/Wake/Threshold.antt =====
-- A barrier fires only for members that arrived (packages/plugins/subagents/src/join.ts).
use busyclaw.Prelude.{
  ℕ, ◌≡◌, refl, ◌≢◌, ◌≤◌, true, false, ◌&&◌, Bool-cases, inl, inr, List, [], ◌∷◌, ◌==◌, ltb, any,
  map, length, subst, arith, All, All-map, All-append, Ident, Timestamp, Option, none, some,
}
use busyclaw.Storage.Table.{get, find_many, create}
use busyclaw.Storage.Table.Laws.{
  Unique, create-Unique, sort_asc-All, sort_asc-Unique, filter-All, filter-Unique,
}
use busyclaw.Subagents.Barrier.{
  new_arrival, recorded, record_arrival, ArrivalOutcome, AgentJoin, join_key, Arrival, arrival_key,
  AgentWait, arrivals, is_waiting,
}
use busyclaw.Subagents.Wake.{Resumption, arrived, settle_if_met}
use busyclaw.Subagents.Wake.Elected.{IsSettled, settled-met}

-- How the store derives the id of an arrival.
abbrev pub IsRecorded : (Ident → Ident → Ident) → Arrival → Type 0
IsRecorded arrival_id r = r.id ≡ arrival_id r.join_id r.child_run_id

abbrev pub IsMember : List Ident → Ident → Type 0
IsMember members child = any (λ m. m == child) members ≡ true

abbrev pub AreDistinct : List Ident → Type 0
AreDistinct [] = Unit
AreDistinct (x ∷ xs) = All (λ y. y ≢ x) xs × AreDistinct xs

abbrev child_of : Arrival → Ident
child_of r = r.child_run_id

length-map : (t : List Arrival) → length (map child_of t) ≡ length t
length-map [] = refl
length-map (r ∷ t) = omega (arith, length-map t)

-- The child has an arrival at the barrier.
abbrev pub HasArrived : List Arrival → Ident → Ident → Type 0
HasArrived t i child = any (λ r. r.join_id == i && r.child_run_id == child) t ≡ true

other_children :
    (arrival_id : Ident → Ident → Ident) (i : Ident) (r : Arrival) (t : List Arrival)
    → (IsRecorded arrival_id r) × (r.join_id ≡ i)
    → All (λ s. s.id ≢ r.id) t
    → All (λ s. (IsRecorded arrival_id s) × (s.join_id ≡ i)) t
    → All (λ y. y ≢ child_of r) (map child_of t)
other_children arrival_id i r [] own u h = tt
other_children arrival_id i r (s ∷ t) own u h = (
  λ same. u.0 (cc (own.0, own.1, h.0.0, h.0.1, same)),
  other_children arrival_id i r t own u.1 h.1,
)

-- Rows with distinct ids that are derived from one barrier and their children have distinct children.
children-AreDistinct :
    (arrival_id : Ident → Ident → Ident) (i : Ident) (t : List Arrival)
    → Unique arrival_key t
    → All (λ r. (IsRecorded arrival_id r) × (r.join_id ≡ i)) t
    → AreDistinct (map child_of t)
children-AreDistinct arrival_id i [] u h = tt
children-AreDistinct arrival_id i (r ∷ t) u h =
    (other_children arrival_id i r t h.0 u.0 h.1, children-AreDistinct arrival_id i t u.1 h.1)

map-child_of-All :
    (P : Ident → Type 0) (t : List Arrival) → All (λ r. P r.child_run_id) t → All P (map child_of t)
map-child_of-All P [] h = tt
map-child_of-All P (r ∷ t) h = (h.0, map-child_of-All P t h.1)

HasArrived-cons :
    (s : Arrival) (t : List Arrival) (i child : Ident)
    → HasArrived t i child
    → HasArrived (s ∷ t) i child
HasArrived-cons s t i child h = ground (arith, h)

HasArrived-self : (t : List Arrival) → All (λ r. HasArrived t r.join_id r.child_run_id) t
HasArrived-self [] = tt
HasArrived-self (r ∷ t) = (
  ground arith,
  All-map (λ s h. HasArrived-cons r t s.join_id s.child_run_id h) t (HasArrived-self t),
)

All-zip : (P Q : Arrival → Type 0) (t : List Arrival) → All P t → All Q t → All (λ r. P r × Q r) t
All-zip P Q [] h k = tt
All-zip P Q (r ∷ t) h k = ((h.0, k.0), All-zip P Q t h.1 k.1)

enough : (n m : ℕ) → (true && ltb m n) ≡ false → n ≤ m
enough n m h = ground arith

-- What is known of an arrival that was counted.
abbrev IsCounted : (Ident → Ident → Ident) → Ident → List Ident → List Arrival → Arrival → Type 0
IsCounted arrival_id i members t r =
    ((IsRecorded arrival_id r) × (r.join_id ≡ i))
    × ((IsMember members r.child_run_id) × (HasArrived t i r.child_run_id))

counted :
    (arrival_id : Ident → Ident → Ident) (i : Ident) (members : List Ident) (t : List Arrival)
    (r : Arrival)
    → IsRecorded arrival_id r
    → HasArrived t r.join_id r.child_run_id
    → r.join_id ≡ i
    → IsMember members r.child_run_id
    → IsCounted arrival_id i members t r
counted arrival_id i members t r recorded has same member =
    ((recorded, same), (member, subst (λ x. HasArrived t x r.child_run_id) same has))

arrived-IsCounted :
    (arrival_id : Ident → Ident → Ident) (i : Ident) (j : AgentJoin) (t : List Arrival)
    → All (IsRecorded arrival_id) t
    → All (IsCounted arrival_id i j.members t) (arrived i j t)
unfolding arrived arrivals find_many
arrived-IsCounted arrival_id i j t recorded =
    let rows =
      All-zip (IsRecorded arrival_id) (λ r. HasArrived t r.join_id r.child_run_id) t recorded
        (HasArrived-self t) in
    let P : Arrival → Type 0 =
      λ r. (IsRecorded arrival_id r) × (HasArrived t r.join_id r.child_run_id) in
    let Q : Arrival → Type 0 = λ r. P r × ((r.join_id == i) ≡ true) in
    let mine = sort_asc-All (λ r. r.arrived_at) Q _ (filter-All P (λ r. r.join_id == i) t rows) in
    All-map (λ r h. counted arrival_id i j.members t r h.0.0.0 h.0.0.1 (here r i h.0.1) h.1) _
      (filter-All Q (λ r. any (λ m. m == r.child_run_id) j.members) _ mine)
  where
    here : (r : Arrival) (i : Ident) → (r.join_id == i) ≡ true → r.join_id ≡ i
    here r i h = ground arith

arrived-Unique :
    (i : Ident) (j : AgentJoin) (t : List Arrival)
    → Unique arrival_key t
    → Unique arrival_key (arrived i j t)
unfolding arrived arrivals find_many
arrived-Unique i j t u = filter-Unique arrival_key _ _ (
    sort_asc-Unique arrival_key (λ r. r.arrived_at) _
      (filter-Unique arrival_key (λ r. r.join_id == i) t u))

-- If the arrivals that a caller reads have distinct ids, each derived from its barrier and its child, then a
-- barrier that it settles by count was read open, and at least as many distinct members of it as its
-- threshold says had arrived: a child of another barrier, or one that it does not name, never counts.
pub threshold_met :
    (engine : Resumption) (latest_for_run : Ident → Option Ident)
    (arrival_id : Ident → Ident → Ident) (i : Ident) (now : Timestamp) (js : List AgentJoin)
    (at : List Arrival) (js' : List AgentJoin) (ws ws' : List AgentWait)
    → Unique arrival_key at
    → All (IsRecorded arrival_id) at
    → IsSettled (settle_if_met engine latest_for_run false i now js at js' ws ws').outcome
    → (j : AgentJoin) × ((get join_key i js ≡ some j)
        × ((is_waiting j.status ≡ true)
            × ((children : List Ident) × ((j.threshold ≤ length children)
                  × ((AreDistinct children)
                      × (All (λ c. (IsMember j.members c) × (HasArrived at i c)) children))))))
threshold_met engine latest_for_run arrival_id i now js at js' ws ws' u recorded h =
    let ((j, (there, (live, met))), _) =
      settled-met engine latest_for_run false i now js at js' ws ws' h in
    let rows = arrived-IsCounted arrival_id i j at recorded in
    (
      j,
      (
        there,
        (
          live,
          (
            map child_of (arrived i j at),
            (
              omega (
                arith,
                length-map (arrived i j at),
                enough j.threshold (length (arrived i j at)) met,
              ),
              (
                children-AreDistinct arrival_id i _ (arrived-Unique i j at u)
                    (All-map (λ r h. h.0) _ rows),
                map-child_of-All _ _ (All-map (λ r h. h.1) _ rows),
              ),
            ),
          ),
        ),
      ),
    )

recorded-All :
    (P : Arrival → Type 0) (t : List Arrival) (o : Option (List Arrival))
    → All P t
    → ((t' : List Arrival) → o ≡ some t' → All P t')
    → All P (recorded t o).1
recorded-All P t none h k = h
recorded-All P t (some t') h k = k t' refl

recorded-Unique :
    (t : List Arrival) (o : Option (List Arrival))
    → Unique arrival_key t
    → ((t' : List Arrival) → o ≡ some t' → Unique arrival_key t')
    → Unique arrival_key (recorded t o).1
recorded-Unique t none h k = h
recorded-Unique t (some t') h k = k t' refl

created-All :
    (P : Arrival → Type 0) (r : Arrival) (t t' : List Arrival)
    → create arrival_key r t ≡ some t'
    → All P t
    → P r
    → All P t'
unfolding create
created-All P r t t' e h p = elim (Bool-cases (any (λ s. arrival_key s == arrival_key r) t)) [
  | inl used ↦ absurd (ground (arith, e, used))
  | inr free ↦ subst (All P) (ground (arith, e, free)) (All-append P t (r ∷ []) h (p, tt))
]

-- What the store records keeps both premises.
record_arrival-IsRecorded :
    (arrival_id : Ident → Ident → Ident) (i child : Ident) (outcome : ArrivalOutcome)
    (now : Timestamp) (t : List Arrival)
    → Unique arrival_key t
    → All (IsRecorded arrival_id) t
    → Unique arrival_key (record_arrival arrival_id i child outcome now t).1
      × All (IsRecorded arrival_id) (record_arrival arrival_id i child outcome now t).1
unfolding record_arrival
record_arrival-IsRecorded arrival_id i child outcome now t u h =
    let r = new_arrival (arrival_id i child) i child outcome now in
    (
      recorded-Unique t (create arrival_key r t) u (λ t' e. create-Unique arrival_key r t t' e u),
      recorded-All (IsRecorded arrival_id) t (create arrival_key r t) h
          (λ t' e. created-All (IsRecorded arrival_id) r t t' e h refl),
    )
