-- ===== src/Engine/Inbox/Adopt/Kept.antt =====
-- An adoption (packages/engines/sql/src/store.ts, `adoptThreadInbox`) loses no message.
use busyclaw.Prelude.{
  ℕ, zero, suc, ◌+◌, ◌≡◌, refl, inl, inr, Option, none, some, List, Ident, Timestamp, arith, ap,
  sym, ◌∙◌, Option-cases,
}
use busyclaw.Storage.Table.{get, or_keep}
use busyclaw.Storage.Table.Laws.{get-or_keep-create}
use busyclaw.Engine.Schema.{RunRecord, run_key}
use busyclaw.Engine.Inbox.{
  RunMessage, Mail, AdmitInput, Admission, admitted, refused, bounced, no_such_run, contended,
  message_key, new_message, create_message, seed, mint_seq, insert_or_refuse, bounce_or,
  settle_attempt, admit_message,
}
use busyclaw.Engine.Inbox.Numbering.{IsMail}
use busyclaw.Engine.Inbox.Order.{create_message-create, Says}

-- An admission leaves every message that is there as it is.
module _ (input : AdmitInput) (ts : Timestamp) (j : Ident) (x : RunMessage) where
  insert_or_refuse-get :
      (seq : ℕ) (mail : Mail) (o : Option (List RunMessage))
      → create_message (new_message input seq ts) mail.messages ≡ o
      → get message_key j mail.messages ≡ some x
      → get message_key j (insert_or_refuse input seq mail o).1.messages ≡ some x
  insert_or_refuse-get seq mail none made e = e
  insert_or_refuse-get seq mail (some messages) made e =
      let new = new_message input seq ts in
      ap (λ o. get message_key j (or_keep mail.messages o))
        (sym (create_message-create new mail.messages messages made))
      ∙ get-or_keep-create message_key j new x mail.messages e

  bounce_or-get :
      (o : Option RunRecord) (mail : Mail) (again : Admission × Mail)
      → get message_key j mail.messages ≡ some x
      → get message_key j again.1.messages ≡ some x
      → get message_key j (bounce_or o mail again).1.messages ≡ some x
  bounce_or-get none mail again e h = h
  bounce_or-get (some r) mail again e h = ground (arith, e, h)

  settle_attempt-get :
      (current : ℕ) (o : Option RunRecord) (mail : Mail) (again : Admission × Mail)
      → get message_key j mail.messages ≡ some x
      → get message_key j again.1.messages ≡ some x
      → get message_key j (settle_attempt input current ts (o, mail) again).1.messages ≡ some x
  unfolding settle_attempt
  settle_attempt-get current none mail again e h =
      bounce_or-get (get run_key input.to_run_id mail.runs) mail again e h
  settle_attempt-get current (some r) mail again e h =
      insert_or_refuse-get (current + 1) mail _ refl e

  pub admit_message-get :
      (n : ℕ) (mail : Mail)
      → get message_key j mail.messages ≡ some x
      → get message_key j (admit_message n (λ k m. m) input ts mail).1.messages ≡ some x
  unfolding admit_message seed mint_seq
  admit_message-get zero mail e = e
  admit_message-get (suc n) mail e = elim (Option-cases (get run_key input.to_run_id mail.runs)) [
    | inl gone ↦ rw (admit_message, gone) e
    | inr (run, found) ↦ elim (Option-cases run.message_seq) [
      | inl unset ↦
          rw (admit_message, found, unset) (admit_message-get n (seed input.to_run_id mail) e)
      | inr (current, set) ↦
          rw (admit_message, found, set)
            (settle_attempt-get current _ (mint_seq input.to_run_id current ts mail).1 _ e
              (admit_message-get n (mint_seq input.to_run_id current ts mail).1 e))
    ]
  ]

pub Says-IsMail :
    (input : AdmitInput) (ts : Timestamp) (a : Admission × Mail) → Says input ts a → IsMail a.1
Says-IsMail input ts (admitted seq, mail) s = s.0
Says-IsMail input ts (refused seq, mail) s = s
Says-IsMail input ts (bounced status, mail) s = s.0
Says-IsMail input ts (no_such_run, mail) s = s
Says-IsMail input ts (contended, mail) s = s
