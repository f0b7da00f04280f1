-- ===== src/Engine/Inbox/Queue.antt =====
-- The messages that a drain reads (packages/engines/sql/src/store.ts, `drainMessages`): which they are, and
-- their order.
use busyclaw.Prelude.{
  ℕ, ◌≡◌, refl, ◌≢◌, ◌<◌, ◌⊎◌, inl, inr, Bool, true, if◌then◌else◌, List, [], ◌∷◌, Ident, arith,
  sym, subst, Bool-cases, leb, filter,
}
use busyclaw.Storage.Table.{find_many, sort_asc, place}
use busyclaw.Engine.Inbox.{MessageMode, at_turn_end, RunMessage, is_drained}

abbrev pub IsIn : RunMessage → List RunMessage → Type 0
IsIn m [] = ⊥
IsIn m (n ∷ ns) = (n ≡ m) ⊎ IsIn m ns

-- A message for the run after the watermark, that does not wait for the next turn.
pub record Waits (run_id : Ident) (after_seq : ℕ) (m : RunMessage) : Type 0 where
  pub to_run : m.to_run_id ≡ run_id
  pub later : after_seq < m.seq
  pub mode : m.mode ≢ at_turn_end

drained-Waits :
    (run_id : Ident) (after_seq : ℕ) (m : RunMessage)
    → is_drained run_id after_seq m ≡ true
    → Waits run_id after_seq m
drained-Waits run_id after_seq m e = record {
  to_run = ground (arith, e);
  later = ground (arith, e);
  mode = ground (arith, e);
}

Waits-drained :
    (run_id : Ident) (after_seq : ℕ) (m : RunMessage)
    → Waits run_id after_seq m
    → is_drained run_id after_seq m ≡ true
Waits-drained run_id after_seq m w = by_mode m.mode refl
  where
    by_mode : (k : MessageMode) → m.mode ≡ k → is_drained run_id after_seq m ≡ true
    by_mode MessageMode.next_step e = ground (arith, e, w.to_run, w.later)
    by_mode MessageMode.interrupt e = ground (arith, e, w.to_run, w.later)
    by_mode at_turn_end e = absurd (w.mode e)

In-filter :
    (q : RunMessage → Bool) (m : RunMessage) (ms : List RunMessage)
    → IsIn m (filter q ms)
    → IsIn m ms × (q m ≡ true)
In-filter q m [] h = absurd h
In-filter q m (n ∷ ms) h = elim (Bool-cases (q n)) [
  | inl kept ↦ elim (subst (λ b. IsIn m (if b then n ∷ filter q ms else filter q ms)) kept h) [
    | inl same ↦ (inl same, subst (λ x. q x ≡ true) same kept)
    | inr later ↦ let (there, ok) = In-filter q m ms later in (inr there, ok)
  ]
  | inr gone ↦
      let (there, ok) =
        In-filter q m ms
          (subst (λ b. IsIn m (if b then n ∷ filter q ms else filter q ms)) gone h) in
      (inr there, ok)
]

filter-In :
    (q : RunMessage → Bool) (m : RunMessage) (ms : List RunMessage)
    → IsIn m ms
    → q m ≡ true
    → IsIn m (filter q ms)
filter-In q m [] h e = absurd h
filter-In q m (n ∷ ms) (inl same) e = rw (subst (λ x. q x ≡ true) (sym same) e) (inl same)
filter-In q m (n ∷ ms) (inr later) e = elim (Bool-cases (q n)) [
  | inl kept ↦ rw kept (inr (filter-In q m ms later e))
  | inr gone ↦ rw gone (filter-In q m ms later e)
]

In-place :
    (m x : RunMessage) (ms : List RunMessage) → IsIn m (place (λ m. m.seq) x ms) → IsIn m (x ∷ ms)
unfolding place
In-place m x [] h = h
In-place m x (n ∷ ms) h = elim (Bool-cases (leb x.seq n.seq)) [
  | inl le ↦ (rw le at h)
  | inr gt ↦ elim (rw gt at h) [
    | inl same ↦ inr (inl same)
    | inr later ↦ elim (In-place m x ms later) [ inl same ↦ inl same | inr there ↦ inr (inr there) ]
  ]
]

place-In :
    (m x : RunMessage) (ms : List RunMessage) → IsIn m (x ∷ ms) → IsIn m (place (λ m. m.seq) x ms)
unfolding place
place-In m x [] h = h
place-In m x (n ∷ ms) h = elim (Bool-cases (leb x.seq n.seq)) [
  | inl le ↦ rw le h
  | inr gt ↦ rw gt (elim h [
    | inl same ↦ inr (place-In m x ms (inl same))
    | inr later ↦ elim later [ inl same ↦ inl same | inr there ↦ inr (place-In m x ms (inr there)) ]
  ])
]

In-sort_asc :
    (m : RunMessage) (ms : List RunMessage) → IsIn m (sort_asc (λ m. m.seq) ms) → IsIn m ms
unfolding sort_asc
In-sort_asc m [] h = h
In-sort_asc m (n ∷ ms) h = elim (In-place m n _ h) [
  | inl same ↦ inl same
  | inr there ↦ inr (In-sort_asc m ms there)
]

sort_asc-In :
    (m : RunMessage) (ms : List RunMessage) → IsIn m ms → IsIn m (sort_asc (λ m. m.seq) ms)
unfolding sort_asc
sort_asc-In m [] h = h
sort_asc-In m (n ∷ ms) (inl same) = place-In m n _ (inl same)
sort_asc-In m (n ∷ ms) (inr there) = place-In m n _ (inr (sort_asc-In m ms there))

-- The messages that wait for the run, in their order.
unfoldable pub queue : Ident → ℕ → List RunMessage → List RunMessage
unfolding find_many sort_asc
queue run_id after_seq messages =
    sort_asc (λ m. m.seq) (find_many (is_drained run_id after_seq) messages)

pub queue-Waits :
    (run_id : Ident) (after_seq : ℕ) (ms : List RunMessage) (m : RunMessage)
    → IsIn m (queue run_id after_seq ms)
    → IsIn m ms × Waits run_id after_seq m
unfolding queue find_many
queue-Waits run_id after_seq ms m h =
    let (there, e) = In-filter (is_drained run_id after_seq) m ms (In-sort_asc m _ h) in
    (there, drained-Waits run_id after_seq m e)

pub Waits-queue :
    (run_id : Ident) (after_seq : ℕ) (ms : List RunMessage) (m : RunMessage)
    → IsIn m ms
    → Waits run_id after_seq m
    → IsIn m (queue run_id after_seq ms)
unfolding queue find_many
Waits-queue run_id after_seq ms m h w =
    sort_asc-In m _
      (filter-In (is_drained run_id after_seq) m ms h (Waits-drained run_id after_seq m w))
