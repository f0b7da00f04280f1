-- ===== src/Engine/Inbox/Order.antt =====
-- What an admission of packages/engines/sql/src/store.ts (`admitMessage`) leaves, with the mint and the
-- insert of an attempt taken as one step.
use busyclaw.Prelude.{
  ℕ, zero, suc, ◌+◌, ◌≡◌, refl, ◌≢◌, ◌<◌, inl, inr, ◌⊎◌, Bool, true, false, ◌&&◌, Option, none,
  some, List, ◌==◌, Ident, Timestamp, arith, ap, sym, subst, ◌∙◌, opt_eq, Bool-cases, Option-cases,
}
use busyclaw.Storage.Table.{get, create}
use busyclaw.Storage.Table.Laws.{cas_won, get-create, create-Unique}
use busyclaw.Engine.Schema.{RunRecord, run_key, is_live}
use busyclaw.Engine.Inbox.{
  RunMessage, Mail, AdmitInput, Admission, admitted, refused, bounced, no_such_run, contended,
  message_key, new_message, create_message, mint_seq, insert_or_refuse, bounce_or, settle_attempt,
  admit_message,
}
use busyclaw.Engine.Inbox.Numbering.{IsMail, seed-IsMail, mint_seq-IsMail}

pub create_message-create :
    (m : RunMessage) (ms ms' : List RunMessage)
    → create_message m ms ≡ some ms'
    → create message_key m ms ≡ some ms'
unfolding create_message
create_message-create m ms ms' e = ground (arith, e)

-- What an admission leaves: the message is stored under its number, its run is live with that number on
-- its counter, and every other message of the run has a smaller number.
pub record IsAdmitted (input : AdmitInput) (seq : ℕ) (ts : Timestamp) (mail : Mail) : Type 0 where
  pub stored : get message_key input.id mail.messages ≡ some (new_message input seq ts)
  pub run : RunRecord
  pub run_found : get run_key input.to_run_id mail.runs ≡ some run
  pub run_live : is_live run.status ≡ true
  pub counter : run.message_seq ≡ some seq
  pub last :
      (j : Ident) (m : RunMessage)
      → get message_key j mail.messages ≡ some m
      → m.to_run_id ≡ input.to_run_id
      → m.id ≢ input.id
      → m.seq < seq

module _ (input : AdmitInput) (ts : Timestamp) (current : ℕ) (mail : Mail) (v : IsMail mail) where
  module _ (row : RunRecord) (won : (mint_seq input.to_run_id current ts mail).0 ≡ some row) where
    minted_run :
        (old : RunRecord) × (get run_key input.to_run_id mail.runs ≡ some old)
        × (old.message_seq ≡ some current)
        × (get run_key input.to_run_id (mint_seq input.to_run_id current ts mail).1.runs ≡ some row)
        × (row.message_seq ≡ some (current + 1))
        × (is_live row.status ≡ true)
    unfolding mint_seq
    minted_run =
        let g : RunRecord → Bool = λ r. opt_eq r.message_seq (some current) && is_live r.status in
        let f : RunRecord → RunRecord =
          λ r. record r { message_seq = some (current + 1); updated_at = ts } in
        let (old, found, ok, same, stored) =
          cas_won run_key input.to_run_id g f (λ r. refl) mail.runs row v.runs won in
        (old, found, ground (arith, ok), stored, ground (arith, same), ground (arith, ok, same))

    -- A message after the insert is the new one, or was there before.
    inserted_from :
        (messages : List RunMessage) (j : Ident) (m : RunMessage)
        → create_message (new_message input (current + 1) ts) mail.messages ≡ some messages
        → get message_key j messages ≡ some m
        → (m ≡ new_message input (current + 1) ts) ⊎ (get message_key j mail.messages ≡ some m)
    inserted_from messages j m made e =
        let new = new_message input (current + 1) ts in
        let at =
          get-create message_key j new mail.messages messages
            (create_message-create new mail.messages messages made) in
        elim (Bool-cases (input.id == j)) [
          | inl same ↦ inl (ground (arith, at, e, same))
          | inr other ↦ inr (ground (arith, at, e, other))
        ]

    inserted-IsMail :
        (messages : List RunMessage)
        → create_message (new_message input (current + 1) ts) mail.messages ≡ some messages
        → IsMail (record {
          runs = (mint_seq input.to_run_id current ts mail).1.runs;
          messages = messages;
        })
    unfolding mint_seq
    inserted-IsMail messages made =
        let new = new_message input (current + 1) ts in
        let w = mint_seq-IsMail input.to_run_id current ts mail v in
        let (_, _, _, stored, now, _) = minted_run in
        record {
          runs = w.runs;
          messages =
              create-Unique message_key new mail.messages messages
                (create_message-create new mail.messages messages made) v.messages;
          numbered = λ j m e r there n counter. elim (inserted_from messages j m made e) [
            | inr old ↦ w.numbered j m old r there n counter
            | inl same ↦
                let to : m.to_run_id ≡ input.to_run_id =
                  ap (λ (x : RunMessage). x.to_run_id) same in
                let there' =
                  subst
                    (λ k. get run_key k (mint_seq input.to_run_id current ts mail).1.runs ≡ some r)
                    to there in
                ground (arith, same, there', stored, now, counter)
          ];
        }

    inserted-IsAdmitted :
        (messages : List RunMessage)
        → create_message (new_message input (current + 1) ts) mail.messages ≡ some messages
        → IsAdmitted input (current + 1) ts (record {
          runs = (mint_seq input.to_run_id current ts mail).1.runs;
          messages = messages;
        })
    inserted-IsAdmitted messages made =
        let new = new_message input (current + 1) ts in
        let (old, found, was, stored, now, live) = minted_run in
        record {
          stored =
              get-create message_key input.id new mail.messages messages
                (create_message-create new mail.messages messages made)
              ∙ (ground arith);
          run = row;
          run_found = stored;
          run_live = live;
          counter = now;
          last = λ j m e to other. elim (inserted_from messages j m made e) [
            | inl same ↦ absurd (other (ap (λ (x : RunMessage). x.id) same))
            | inr before ↦
                let le =
                  v.numbered j m before old
                    (subst (λ k. get run_key k mail.runs ≡ some old) (sym to) found) current was in
                omega (arith, le)
          ];
        }

-- What an admission's answer says of the state it leaves.
abbrev pub Says : AdmitInput → Timestamp → Admission × Mail → Type 0
Says input ts (admitted seq, mail) = IsMail mail × IsAdmitted input seq ts mail
Says input ts (refused seq, mail) = IsMail mail
Says input ts (bounced status, mail) = IsMail mail × (is_live status ≡ false)
Says input ts (no_such_run, mail) = IsMail mail
Says input ts (contended, mail) = IsMail mail

bounce_or-Says :
    (input : AdmitInput) (ts : Timestamp) (o : Option RunRecord) (mail : Mail)
    (again : Admission × Mail)
    → IsMail mail
    → Says input ts again
    → Says input ts (bounce_or o mail again)
bounce_or-Says input ts none mail again v w = w
bounce_or-Says input ts (some r) mail again v w = elim (Bool-cases (is_live r.status)) [
  | inl live ↦ rw live w
  | inr ended ↦ rw ended (v, ended)
]

module _ (input : AdmitInput) (ts : Timestamp) where
  insert_or_refuse-Says :
      (current : ℕ) (mail : Mail) (row : RunRecord) (v : IsMail mail)
      → (mint_seq input.to_run_id current ts mail).0 ≡ some row
      → (o : Option (List RunMessage))
      → create_message (new_message input (current + 1) ts) mail.messages ≡ o
      → Says input ts
          (insert_or_refuse input (current + 1) (mint_seq input.to_run_id current ts mail).1 o)
  insert_or_refuse-Says current mail row v won none e =
      mint_seq-IsMail input.to_run_id current ts mail v
  insert_or_refuse-Says current mail row v won (some messages) e = (
    inserted-IsMail input ts current mail v row won messages e,
    inserted-IsAdmitted input ts current mail v row won messages e,
  )

  settle_attempt-Says :
      (current : ℕ) (mail : Mail) (again : Admission × Mail) (v : IsMail mail)
      → Says input ts again
      → (o : Option RunRecord) → (mint_seq input.to_run_id current ts mail).0 ≡ o
      → Says input ts
          (settle_attempt input current ts (o, (mint_seq input.to_run_id current ts mail).1) again)
  unfolding settle_attempt mint_seq
  settle_attempt-Says current mail again v w none e =
      bounce_or-Says input ts _ _ again (mint_seq-IsMail input.to_run_id current ts mail v) w
  settle_attempt-Says current mail again v w (some row) e =
      insert_or_refuse-Says current mail row v e _ refl

  -- What an admission's answer says holds, and it keeps the numbering, if others that write between its
  -- attempts keep it.
  pub admit_message-Says :
      (n : ℕ) (meanwhile : ℕ → Mail → Mail) (mail : Mail)
      → ((k : ℕ) (x : Mail) → IsMail x → IsMail (meanwhile k x))
      → IsMail mail
      → Says input ts (admit_message n meanwhile input ts mail)
  unfolding admit_message
  admit_message-Says zero meanwhile mail keeps v = v
  admit_message-Says (suc n) meanwhile mail keeps v =
      elim (Option-cases (get run_key input.to_run_id mail.runs)) [
        | inl gone ↦ rw (admit_message, gone) v
        | inr (run, found) ↦ elim (Option-cases run.message_seq) [
          | inl unset ↦
              rw (admit_message, found, unset)
                (admit_message-Says n meanwhile _ keeps
                  (seed-IsMail input.to_run_id _ (keeps n mail v)))
          | inr (current, set) ↦
              rw (admit_message, found, set)
                (settle_attempt-Says current (meanwhile n mail) _ (keeps n mail v)
                  (admit_message-Says n meanwhile _ keeps
                    (mint_seq-IsMail input.to_run_id current ts _ (keeps n mail v)))
                  _ refl)
        ]
      ]
