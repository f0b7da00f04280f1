-- ===== src/Engine/Inbox/Prefix.antt =====
-- The longest run of messages of one sender at the head of a queue, and what ends it.
use busyclaw.Prelude.{
  ℕ, ◌≡◌, refl, ◌≢◌, ◌≤◌, ◌⊎◌, inl, inr, true, false, Option, none, some, List, [], ◌∷◌,
  if◌then◌else◌, All, Ident, arith, subst, Bool-cases,
}
use busyclaw.Storage.Table.Laws.{Unique}
use busyclaw.Engine.Inbox.{RunMessage, message_key, is_foreign}
use busyclaw.Engine.Inbox.Queue.{IsIn}
use busyclaw.Engine.Inbox.Sorted.{IsAscending}

abbrev pub own_prefix : Option Ident → List RunMessage → List RunMessage
own_prefix p [] = []
own_prefix p (m ∷ ms) = if is_foreign p m then [] else m ∷ own_prefix p ms

abbrev pub first_foreign : Option Ident → List RunMessage → Option Ident
first_foreign p [] = none
first_foreign p (m ∷ ms) = if is_foreign p m then some m.sender else first_foreign p ms

-- The run acts for a principal, and the message is from another one.
abbrev pub IsForeign : Option Ident → RunMessage → Type 0
IsForeign none m = ⊥
IsForeign (some p) m = m.sender ≢ p

is_foreign-IsForeign : (p : Option Ident) (m : RunMessage) → is_foreign p m ≡ true → IsForeign p m
is_foreign-IsForeign none m e = absurd (cc e)
is_foreign-IsForeign (some p) m e = ground (arith, e)

pub own-IsForeign : (p : Option Ident) (m : RunMessage) → is_foreign p m ≡ false → ¬ IsForeign p m
own-IsForeign none m e f = f
own-IsForeign (some p) m e f = f (ground (arith, e))

pub prefix-In :
    (p : Option Ident) (rows : List RunMessage) (m : RunMessage)
    → IsIn m (own_prefix p rows)
    → IsIn m rows × (is_foreign p m ≡ false)
prefix-In p [] m h = absurd h
prefix-In p (n ∷ rows) m h = elim (Bool-cases (is_foreign p n)) [
  | inl foreign ↦ absurd (subst (λ b. IsIn m (if b then [] else n ∷ own_prefix p rows)) foreign h)
  | inr own ↦ elim (subst (λ b. IsIn m (if b then [] else n ∷ own_prefix p rows)) own h) [
    | inl same ↦ (inl same, subst (λ x. is_foreign p x ≡ false) same own)
    | inr later ↦ let (there, e) = prefix-In p rows m later in (inr there, e)
  ]
]

All-prefix :
    (k : ℕ) (p : Option Ident) (rows : List RunMessage)
    → All (λ n. k ≤ n.seq) rows
    → All (λ n. k ≤ n.seq) (own_prefix p rows)
All-prefix k p [] a = tt
All-prefix k p (m ∷ rows) a = ground (arith, a.0, All-prefix k p rows a.1)

pub prefix-IsAscending :
    (p : Option Ident) (rows : List RunMessage) → IsAscending rows → IsAscending (own_prefix p rows)
prefix-IsAscending p [] a = tt
prefix-IsAscending p (m ∷ rows) a = elim (Bool-cases (is_foreign p m)) [
  | inl foreign ↦ rw foreign tt
  | inr own ↦ rw own (All-prefix m.seq p rows a.0, prefix-IsAscending p rows a.1)
]

All-In :
    (k : ℕ) (m : RunMessage) (rows : List RunMessage)
    → All (λ n. k ≤ n.seq) rows
    → IsIn m rows
    → k ≤ m.seq
All-In k m [] a h = absurd h
All-In k m (n ∷ rows) a (inl same) = subst (λ x. k ≤ x.seq) same a.0
All-In k m (n ∷ rows) a (inr there) = All-In k m rows a.1 there

All-prefix-off :
    (k : Ident) (p : Option Ident) (rows : List RunMessage)
    → All (λ n. n.id ≢ k) rows
    → All (λ n. n.id ≢ k) (own_prefix p rows)
All-prefix-off k p [] a = tt
All-prefix-off k p (m ∷ rows) a = ground (arith, a.0, All-prefix-off k p rows a.1)

pub prefix-Unique :
    (p : Option Ident) (rows : List RunMessage)
    → Unique message_key rows
    → Unique message_key (own_prefix p rows)
prefix-Unique p [] u = tt
prefix-Unique p (m ∷ rows) u = elim (Bool-cases (is_foreign p m)) [
  | inl foreign ↦ rw foreign tt
  | inr own ↦ rw own (All-prefix-off m.id p rows u.0, prefix-Unique p rows u.1)
]

-- A message of another sender, at which the drain stops.
pub record Stop (p : Option Ident) (rows : List RunMessage) : Type 0 where
  pub at : RunMessage
  pub there : IsIn at rows
  pub foreign : IsForeign p at
  pub sender : first_foreign p rows ≡ some at.sender

later_stop :
    (p : Option Ident) (m : RunMessage) (rows : List RunMessage)
    → is_foreign p m ≡ false
    → Stop p rows
    → Stop p (m ∷ rows)
later_stop p m rows own s = record {
  at = s.at;
  there = inr s.there;
  foreign = s.foreign;
  sender = rw own (s.sender);
}

first_stop :
    (p : Option Ident) (m : RunMessage) (rows : List RunMessage)
    → is_foreign p m ≡ true
    → Stop p (m ∷ rows)
first_stop p m rows foreign = record {
  at = m;
  there = inl refl;
  foreign = is_foreign-IsForeign p m foreign;
  sender = rw foreign refl;
}

pub first_foreign-Stop :
    (p : Option Ident) (rows : List RunMessage) (s : Ident)
    → first_foreign p rows ≡ some s
    → Stop p rows
first_foreign-Stop p [] s e = absurd (cc e)
first_foreign-Stop p (m ∷ rows) s e = elim (Bool-cases (is_foreign p m)) [
  | inl foreign ↦ first_stop p m rows foreign
  | inr own ↦ later_stop p m rows own (first_foreign-Stop p rows s (rw own at e))
]

pub In-prefix :
    (p : Option Ident) (rows : List RunMessage) (m : RunMessage)
    → IsAscending rows
    → IsIn m rows
    → IsIn m (own_prefix p rows) ⊎ ((s : Stop p rows) × (s.at.seq ≤ m.seq))
unfolding first_stop later_stop
In-prefix p [] m a h = absurd h
In-prefix p (n ∷ rows) m a h = elim (Bool-cases (is_foreign p n)) [
  | inl foreign ↦ inr (first_stop p n rows foreign, up_to h)
  | inr own ↦ rw own (elim h [
    | inl same ↦ inl (inl same)
    | inr later ↦ elim (In-prefix p rows m a.1 later) [
      | inl there ↦ inl (inr there)
      | inr (s, le) ↦ inr (later_stop p n rows own s, le)
    ]
  ])
]
  where
    up_to : IsIn m (n ∷ rows) → n.seq ≤ m.seq
    up_to (inl same) = subst (λ x. n.seq ≤ x.seq) same (omega arith)
    up_to (inr later) = All-In n.seq m rows a.0 later
