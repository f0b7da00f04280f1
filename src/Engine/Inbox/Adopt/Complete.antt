-- ===== src/Engine/Inbox/Adopt/Complete.antt =====
-- A live run adopts every message that the ended runs of its thread left: `adoptThreadInbox`
-- (packages/engines/sql/src/store.ts).
use busyclaw.Prelude.{
  ℕ, zero, suc, ◌+◌, ◌≡◌, refl, ◌≢◌, inl, inr, true, Option, none, some, List, [], ◌∷◌, All,
  All-map, length, Ident, Timestamp, arith, ap, sym, ◌∙◌, subst, Option-cases,
}
use busyclaw.Storage.Table.{get}
use busyclaw.Storage.Table.Laws.{Unique, get-create}
use busyclaw.Engine.Schema.{RunRecord, run_key, is_live}
use busyclaw.Engine.Inbox.{
  RunMessage, Mail, AdmitInput, Admission, admitted, message_key, new_message, create_message, seed,
  mint_seq, insert_or_refuse, bounce_or, settle_attempt, max_seq_attempts, admit_message,
}
use busyclaw.Engine.Inbox.Numbering.{IsMail}
use busyclaw.Engine.Inbox.Order.{create_message-create, Says, admit_message-Says}
use busyclaw.Engine.Inbox.Admit.{admit_message_fresh}
use busyclaw.Engine.Inbox.Adopt.{
  adopted_input, retired, retire, adopt_all, left_messages, adopt_thread_inbox,
}
use busyclaw.Engine.Inbox.Adopt.Kept.{admit_message-get}
use busyclaw.Engine.Inbox.Adopt.Loop.{
  IsAdoptable, retire-IsMail, retire-get, retired_now, retire-none, keep_rows, adopt_all-Carries,
}
use busyclaw.Engine.Inbox.Adopt.Lossless.{
  left_messages-IsLeft, left_messages-Unique, left-IsAdoptable,
}

-- An admission adds a message under its own id only.
module _ (input : AdmitInput) (ts : Timestamp) (j : Ident) (other : input.id ≢ j) where
  insert_or_refuse-none :
      (seq : ℕ) (mail : Mail) (o : Option (List RunMessage))
      → create_message (new_message input seq ts) mail.messages ≡ o
      → get message_key j mail.messages ≡ none
      → get message_key j (insert_or_refuse input seq mail o).1.messages ≡ none
  insert_or_refuse-none seq mail none made e = e
  insert_or_refuse-none seq mail (some messages) made e =
      let new = new_message input seq ts in
      let at =
        get-create message_key j new mail.messages messages
          (create_message-create new mail.messages messages made) in
      ground (arith, at, e, other)

  settle_attempt-none :
      (current : ℕ) (o : Option RunRecord) (mail : Mail) (again : Admission × Mail)
      → get message_key j mail.messages ≡ none
      → get message_key j again.1.messages ≡ none
      → get message_key j (settle_attempt input current ts (o, mail) again).1.messages ≡ none
  unfolding settle_attempt
  settle_attempt-none current none mail again e h = by_run (get run_key input.to_run_id mail.runs)
    where
      by_run : (o : Option RunRecord) → get message_key j (bounce_or o mail again).1.messages ≡ none
      by_run none = h
      by_run (some r) = ground (arith, e, h)
  settle_attempt-none current (some r) mail again e h =
      insert_or_refuse-none (current + 1) mail _ refl e

  admit_message-none :
      (n : ℕ) (mail : Mail)
      → get message_key j mail.messages ≡ none
      → get message_key j (admit_message n (λ k m. m) input ts mail).1.messages ≡ none
  unfolding admit_message seed mint_seq
  admit_message-none zero mail e = e
  admit_message-none (suc n) mail e = elim (Option-cases (get run_key input.to_run_id mail.runs)) [
    | inl gone ↦ rw (admit_message, gone) e
    | inr (run, found) ↦ elim (Option-cases run.message_seq) [
      | inl unset ↦
          rw (admit_message, found, unset) (admit_message-none n (seed input.to_run_id mail) e)
      | inr (current, set) ↦
          rw (admit_message, found, set)
            (settle_attempt-none current _ (mint_seq input.to_run_id current ts mail).1 _ e
              (admit_message-none n (mint_seq input.to_run_id current ts mail).1 e))
    ]
  ]

module _ (row_id : Ident → Ident → Ident → Ident) (to_run_id : Ident) (ts now : Timestamp) where
  abbrev pub copy_id : RunMessage → Ident
  copy_id m = (adopted_input row_id to_run_id ts now m).id

  -- The run is there, has not ended and counts its messages.
  abbrev pub IsReceiving : Mail → Type 0
  IsReceiving mail =
      (run : RunRecord) × (current : ℕ) × (get run_key to_run_id mail.runs ≡ some run)
      × (run.message_seq ≡ some current)
      × (is_live run.status ≡ true)

  -- The ids of the copies differ.
  abbrev pub HasApartCopies : List RunMessage → Type 0
  HasApartCopies [] = Unit
  HasApartCopies (m ∷ rows) = All (λ s. copy_id s ≢ copy_id m) rows × HasApartCopies rows

  still_fresh :
      (rows : List RunMessage) (m : RunMessage) (mail mail' : Mail)
      → ((j : Ident)
          → copy_id m ≢ j
          → get message_key j mail.messages ≡ none
          → get message_key j mail'.messages ≡ none)
      → All (λ s. copy_id s ≢ copy_id m) rows
      → All (λ s. get message_key (copy_id s) mail.messages ≡ none) rows
      → All (λ s. get message_key (copy_id s) mail'.messages ≡ none) rows
  still_fresh [] m mail mail' keeps ne fresh = tt
  still_fresh (s ∷ rows) m mail mail' keeps ne fresh = (
    keeps (copy_id s) (λ same. ne.0 (sym same)) fresh.0,
    still_fresh rows m mail mail' keeps ne.1 fresh.1,
  )

  adopt_all_complete :
      (rows : List RunMessage) (adopted : ℕ) (mail : Mail)
      → IsMail mail
      → All (IsAdoptable row_id to_run_id ts now mail) rows
      → Unique message_key rows
      → IsReceiving mail
      → HasApartCopies rows
      → All (λ m. get message_key (copy_id m) mail.messages ≡ none) rows
      → ((adopt_all row_id to_run_id ts now rows adopted mail).0 ≡ some (adopted + length rows))
        × All
            (λ m.
              get message_key m.id (adopt_all row_id to_run_id ts now rows adopted mail).1.messages
              ≡ some (retired row_id to_run_id ts now m))
            rows
  unfolding adopt_all
  adopt_all_complete [] adopted mail v a u r apart fresh = (ap some (omega arith), tt)
  adopt_all_complete (m ∷ rows) adopted mail v a u (run, current, found, set, live) apart fresh =
      let input = adopted_input row_id to_run_id ts now m in
      let mail' = (admit_message max_seq_attempts (λ n x. x) input ts mail).1 in
      let answer : (admit_message max_seq_attempts (λ n x. x) input ts mail).0
          ≡ admitted (current + 1) =
        admit_message_fresh input ts current mail run v found set live 7 fresh.0 in
      let says : Says input ts (admitted (current + 1), mail') =
        subst (λ b. Says input ts (b, mail')) answer
          (admit_message-Says input ts max_seq_attempts (λ n x. x) mail (λ k x h. h) v) in
      let w = retire row_id to_run_id ts now m mail' in
      let keeps : (j : Ident) (x : RunMessage)
          → get message_key j mail.messages ≡ some x
          → get message_key j mail'.messages ≡ some x =
        λ j x e. admit_message-get input ts j x max_seq_attempts mail e in
      let b =
        keep_rows row_id to_run_id ts now rows mail w m
          (λ j x other e. retire-get row_id to_run_id ts now m mail' j x other (keeps j x e)) u.0
          a.1 in
      let v' = retire-IsMail row_id to_run_id ts now m mail' says.0 in
      let free : (j : Ident)
          → copy_id m ≢ j
          → get message_key j mail.messages ≡ none
          → get message_key j w.messages ≡ none =
        λ j other e.
          retire-none row_id to_run_id ts now m mail' j says.0
            (admit_message-none input ts j other max_seq_attempts mail e) in
      let rest =
        adopt_all_complete rows (adopted + 1) w v' b u.1
          (says.1.run, current + 1, says.1.run_found, says.1.counter, says.1.run_live) apart.1
          (still_fresh rows m mail w free apart.0 fresh.1) in
      let mine : get message_key m.id w.messages ≡ some (retired row_id to_run_id ts now m) =
        retired_now row_id to_run_id ts now m mail' says.0 (keeps m.id m a.0.0, a.0.1, a.0.2) in
      let c = adopt_all-Carries row_id to_run_id ts now rows (adopted + 1) w v' b u.1 in
      let moved : adopt_all row_id to_run_id ts now (m ∷ rows) adopted mail
          ≡ adopt_all row_id to_run_id ts now rows (adopted + 1) w =
        rw (adopt_all, answer) refl in
      subst
        (λ (f : Option ℕ × Mail).
          (f.0 ≡ some (adopted + length (m ∷ rows)))
          × All (λ s. get message_key s.id f.1.messages ≡ some (retired row_id to_run_id ts now s))
              (m ∷ rows))
        (sym moved) (rest.0 ∙ ap some (omega arith), (c.1 m.id _ u.0 mine, rest.1))

  -- A run that is live and counts its messages adopts everything that the ended runs of its thread left
  -- unread: the count is the number of those messages, and each of them is retired. The ids of the copies
  -- are new and differ; keys are distinct, and no message has a number above its run's counter.
  pub adopt_thread_inbox_complete :
      (thread_id : Ident) (mail : Mail)
      → IsMail mail
      → IsReceiving mail
      → HasApartCopies (left_messages row_id to_run_id ts now thread_id mail)
      → All
          (λ m. get message_key (copy_id m) mail.messages ≡ none)
          (left_messages row_id to_run_id ts now thread_id mail)
      → ((adopt_thread_inbox row_id to_run_id ts now thread_id mail).0
          ≡ some (length (left_messages row_id to_run_id ts now thread_id mail)))
        × All
            (λ m.
              get message_key m.id
                (adopt_thread_inbox row_id to_run_id ts now thread_id mail).1.messages
              ≡ some (retired row_id to_run_id ts now m))
            (left_messages row_id to_run_id ts now thread_id mail)
  unfolding adopt_thread_inbox
  adopt_thread_inbox_complete thread_id mail v r apart fresh =
      let rows = left_messages row_id to_run_id ts now thread_id mail in
      let done =
        adopt_all_complete rows 0 mail v
          (All-map (left-IsAdoptable row_id to_run_id ts now thread_id mail v) rows
            (left_messages-IsLeft row_id to_run_id ts now thread_id mail v))
          (left_messages-Unique row_id to_run_id ts now thread_id mail v) r apart fresh in
      (done.0 ∙ ap some (omega arith), done.1)
