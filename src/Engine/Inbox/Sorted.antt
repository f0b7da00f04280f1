-- ===== src/Engine/Inbox/Sorted.antt =====
-- The queue of a drain is in the order of the numbers, and holds each message once.
use busyclaw.Prelude.{
  ℕ, ◌≢◌, ◌≤◌, inl, inr, Bool, List, [], ◌∷◌, All, Ident, arith, sym, Bool-cases, leb, filter,
  All-filter,
}
use busyclaw.Storage.Table.{find_many, sort_asc, place}
use busyclaw.Storage.Table.Laws.{Unique}
use busyclaw.Engine.Inbox.{RunMessage, message_key, is_drained}
use busyclaw.Engine.Inbox.Queue.{queue}

abbrev pub IsAscending : List RunMessage → Type 0
IsAscending [] = Unit
IsAscending (m ∷ ms) = All (λ n. m.seq ≤ n.seq) ms × IsAscending ms

place-All :
    (k : ℕ) (m : RunMessage) (ms : List RunMessage)
    → k ≤ m.seq
    → All (λ n. k ≤ n.seq) ms
    → All (λ n. k ≤ n.seq) (place (λ m. m.seq) m ms)
unfolding place
place-All k m [] h a = (h, tt)
place-All k m (n ∷ ms) h a = ground (arith, h, a.0, place-All k m ms h a.1)

All-le :
    (j k : ℕ) (ms : List RunMessage) → j ≤ k → All (λ n. k ≤ n.seq) ms → All (λ n. j ≤ n.seq) ms
All-le j k [] h a = tt
All-le j k (m ∷ ms) h a = (omega (arith, h, a.0), All-le j k ms h a.1)

place-IsAscending :
    (m : RunMessage) (ms : List RunMessage) → IsAscending ms → IsAscending (place (λ m. m.seq) m ms)
unfolding place
place-IsAscending m [] a = (tt, tt)
place-IsAscending m (n ∷ ms) a = elim (Bool-cases (leb m.seq n.seq)) [
  | inl le ↦ rw le ((ground (arith, le), All-le m.seq n.seq ms (ground (arith, le)) a.0), a)
  | inr gt ↦ rw gt (place-All n.seq m ms (ground (arith, gt)) a.0, place-IsAscending m ms a.1)
]

sort_asc-IsAscending : (ms : List RunMessage) → IsAscending (sort_asc (λ m. m.seq) ms)
unfolding sort_asc
sort_asc-IsAscending [] = tt
sort_asc-IsAscending (m ∷ ms) = place-IsAscending m _ (sort_asc-IsAscending ms)

pub queue-IsAscending :
    (run_id : Ident) (after_seq : ℕ) (ms : List RunMessage)
    → IsAscending (queue run_id after_seq ms)
unfolding queue
queue-IsAscending run_id after_seq ms =
    sort_asc-IsAscending (find_many (is_drained run_id after_seq) ms)

place-off :
    (k : Ident) (m : RunMessage) (ms : List RunMessage)
    → m.id ≢ k
    → All (λ n. n.id ≢ k) ms
    → All (λ n. n.id ≢ k) (place (λ m. m.seq) m ms)
unfolding place
place-off k m [] h a = (h, tt)
place-off k m (n ∷ ms) h a = ground (arith, h, a.0, place-off k m ms h a.1)

sort_asc-off :
    (k : Ident) (ms : List RunMessage)
    → All (λ n. n.id ≢ k) ms
    → All (λ n. n.id ≢ k) (sort_asc (λ m. m.seq) ms)
unfolding sort_asc
sort_asc-off k [] a = tt
sort_asc-off k (m ∷ ms) a = place-off k m _ a.0 (sort_asc-off k ms a.1)

place-Unique :
    (m : RunMessage) (ms : List RunMessage)
    → All (λ n. n.id ≢ m.id) ms
    → Unique message_key ms
    → Unique message_key (place (λ m. m.seq) m ms)
unfolding place
place-Unique m [] h u = (tt, tt)
place-Unique m (n ∷ ms) h u = elim (Bool-cases (leb m.seq n.seq)) [
  | inl le ↦ rw le (h, u)
  | inr gt ↦ rw gt (place-off n.id m ms (λ e. h.0 (sym e)) u.0, place-Unique m ms h.1 u.1)
]

sort_asc-Unique :
    (ms : List RunMessage) → Unique message_key ms → Unique message_key (sort_asc (λ m. m.seq) ms)
unfolding sort_asc
sort_asc-Unique [] u = tt
sort_asc-Unique (m ∷ ms) u = place-Unique m _ (sort_asc-off m.id ms u.0) (sort_asc-Unique ms u.1)

filter-Unique :
    (q : RunMessage → Bool) (ms : List RunMessage)
    → Unique message_key ms
    → Unique message_key (filter q ms)
filter-Unique q [] u = tt
filter-Unique q (m ∷ ms) u =
    ground (arith, filter-Unique q ms u.1, All-filter (λ n. n.id ≢ m.id) q ms u.0)

pub queue-Unique :
    (run_id : Ident) (after_seq : ℕ) (ms : List RunMessage)
    → Unique message_key ms
    → Unique message_key (queue run_id after_seq ms)
unfolding queue find_many
queue-Unique run_id after_seq ms u =
    sort_asc-Unique (filter (is_drained run_id after_seq) ms)
      (filter-Unique (is_drained run_id after_seq) ms u)
