-- ===== src/Engine/Inbox/Adopt/Lossless.antt =====
-- No message is lost when the next run of a thread adopts what was left: `adoptThreadInbox`
-- (packages/engines/sql/src/store.ts).
use busyclaw.Prelude.{
  ◌≡◌, ◌≢◌, ◌⊎◌, inl, inr, true, some, List, [], ◌∷◌, ◌==◌, any, filter, All, All-map, Ident,
  Timestamp, arith, ap, sym, ◌∙◌, subst, Bool-cases,
}
use busyclaw.Storage.Table.{get, find_many, sort_asc}
use busyclaw.Storage.Table.Laws.{
  Unique, All-get, filter-All, sort_asc-All, filter-Unique, sort_asc-Unique,
}
use busyclaw.Engine.Schema.{RunRecord}
use busyclaw.Engine.Inbox.{RunMessage, Mail, message_key}
use busyclaw.Engine.Inbox.Numbering.{IsMail}
use busyclaw.Engine.Inbox.Adopt.{is_prior, is_left, retired, left_messages, adopt_thread_inbox}
use busyclaw.Engine.Inbox.Adopt.Loop.{HasCopy, IsAdoptable, adopt_all-Carries}

-- A prior run is not the run that adopts.
prior_other :
    (thread_id to_run_id k : Ident) (runs : List RunRecord)
    → any (λ r. r.id == k) (filter (is_prior thread_id to_run_id) runs) ≡ true
    → k ≢ to_run_id
prior_other thread_id to_run_id k [] e = absurd (cc e)
prior_other thread_id to_run_id k (r ∷ runs) e =
    ground (arith, e, prior_other thread_id to_run_id k runs)

-- A row of the loop, or a message that the loop does not take.
row_or_not :
    (j : Ident) (rows : List RunMessage)
    → (All (λ m. m.id ≢ j) rows) ⊎ (any (λ m. m.id == j) rows ≡ true)
row_or_not j [] = inl tt
row_or_not j (m ∷ rows) = ground (arith, row_or_not j rows)

pick :
    (Q : RunMessage → Type 0) (j : Ident) (rows : List RunMessage)
    → any (λ m. m.id == j) rows ≡ true
    → All Q rows
    → (m : RunMessage) × (m.id ≡ j) × Q m
pick Q j [] e a = absurd (cc e)
pick Q j (m ∷ rows) e a = elim (Bool-cases (m.id == j)) [
  | inl hit ↦ (m, ground (arith, hit), a.0)
  | inr miss ↦ pick Q j rows (rw miss at e) a.1
]

All-both :
    (P Q : RunMessage → Type 0) (ms : List RunMessage)
    → All P ms
    → All Q ms
    → All (λ m. P m × Q m) ms
All-both P Q [] a b = tt
All-both P Q (m ∷ ms) a b = ((a.0, b.0), All-both P Q ms a.1 b.1)

module _ (row_id : Ident → Ident → Ident → Ident) (to_run_id : Ident) (ts now : Timestamp)
    (thread_id : Ident) (mail : Mail) (v : IsMail mail) where
  -- A message that an ended run of the thread left unread, and that its key reads.
  abbrev pub IsLeft : RunMessage → Type 0
  IsLeft m =
      (get message_key m.id mail.messages ≡ some m)
      × (is_left (filter (is_prior thread_id to_run_id) mail.runs) m ≡ true)

  pub left_messages-IsLeft : All IsLeft (left_messages row_id to_run_id ts now thread_id mail)
  unfolding find_many left_messages sort_asc
  left_messages-IsLeft =
      sort_asc-All (λ m. m.seq) IsLeft _
        (filter-All (λ m. get message_key m.id mail.messages ≡ some m)
          (is_left (filter (is_prior thread_id to_run_id) mail.runs)) mail.messages
          (All-get message_key mail.messages v.messages))

  pub left_messages-Unique :
      Unique message_key (left_messages row_id to_run_id ts now thread_id mail)
  unfolding find_many left_messages sort_asc
  left_messages-Unique =
      sort_asc-Unique message_key (λ m. m.seq) _
        (filter-Unique message_key _ mail.messages v.messages)

  pub left-IsAdoptable : (m : RunMessage) → IsLeft m → IsAdoptable row_id to_run_id ts now mail m
  left-IsAdoptable m (there, left) = (
    there,
    prior_other thread_id to_run_id m.to_run_id mail.runs (ground (arith, left)),
    ground (arith, left),
  )

  -- An adoption loses no message and takes none that is not its own: a message of any run is as it was,
  -- or it was unread in an ended run of the thread, and is then retired with an unread copy in the
  -- inbox of the adopting run, of the same body and sender, that the run will be shown. This holds also
  -- where the adoption throws. Keys are distinct, and no message has a number above its run's counter.
  pub adopt_thread_inbox_lem :
      (j : Ident) (x : RunMessage)
      → get message_key j mail.messages ≡ some x
      → (get message_key j (adopt_thread_inbox row_id to_run_id ts now thread_id mail).1.messages
          ≡ some x)
        ⊎ ((is_left (filter (is_prior thread_id to_run_id) mail.runs) x ≡ true)
            × (get message_key j
                  (adopt_thread_inbox row_id to_run_id ts now thread_id mail).1.messages
                ≡ some (retired row_id to_run_id ts now x))
            × HasCopy row_id to_run_id ts now x
                (adopt_thread_inbox row_id to_run_id ts now thread_id mail).1)
  unfolding adopt_thread_inbox find_many left_messages sort_asc
  adopt_thread_inbox_lem j x e =
      let rows = left_messages row_id to_run_id ts now thread_id mail in
      let final = (adopt_thread_inbox row_id to_run_id ts now thread_id mail).1 in
      let c =
        adopt_all-Carries row_id to_run_id ts now rows 0 mail v
          (All-map left-IsAdoptable rows left_messages-IsLeft) left_messages-Unique in
      elim (row_or_not j rows) [
        | inl apart ↦ inl (c.1 j x apart e)
        | inr row ↦
            let (m, at, (left, carried)) =
              pick _ j rows row (All-both IsLeft _ rows left_messages-IsLeft c.0) in
            let same : m ≡ x =
              ground (arith, left.0, e, ap (λ k. get message_key k mail.messages) at) in
            let found : get message_key j final.messages ≡ get message_key m.id final.messages =
              ap (λ k. get message_key k final.messages) (sym at) in
            elim carried [
              | inl kept ↦ inl (found ∙ kept ∙ ap some same)
              | inr (gone, copy) ↦ inr (
                ap (is_left (filter (is_prior thread_id to_run_id) mail.runs)) (sym same) ∙ left.1,
                found ∙ gone ∙ ap (λ y. some (retired row_id to_run_id ts now y)) same,
                subst (λ y. HasCopy row_id to_run_id ts now y final) same copy,
              )
            ]
      ]
