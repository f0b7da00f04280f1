-- ===== src/Engine/Inbox/Adopt/Tests.antt =====
-- A thread whose ended run left a message for the end of the turn (packages/engines/sql/src/store.ts,
-- `adoptThreadInbox`).
use busyclaw.Prelude.{◌≡◌, refl, ◌+◌, ◌⊎◌, none, some, [], ◌∷◌, arith, All, filter, Ident, true}
use busyclaw.Storage.Table.{
  find_one, find_many, sort_asc, place, sort_desc, place_desc, update, create, get,
}
use busyclaw.Engine.Schema.{completed, RunRecord}
use busyclaw.Engine.Runs.{new_run}
use busyclaw.Engine.Inbox.{
  at_turn_end, RunMessage, Mail, message_key, new_message, admit_message, seed, mint_seq,
  settle_attempt, create_message, max_message_seq,
}
use busyclaw.Engine.Inbox.Numbering.{IsMail}
use busyclaw.Engine.Inbox.Adopt.{
  is_prior, is_left, retired, left_messages, adopt_all, adopt_thread_inbox,
}
use busyclaw.Engine.Inbox.Adopt.Loop.{HasCopy}
use busyclaw.Engine.Inbox.Adopt.Lossless.{adopt_thread_inbox_lem}
use busyclaw.Engine.Inbox.Adopt.Complete.{adopt_thread_inbox_complete}

abbrev next_run : RunRecord
next_run =
    new_run
      (record {
        id = 20;
        input = 5;
        principal = none;
        recording = none;
        claw_id = none;
        model = none;
        run_mode = none;
      })
      100

abbrev ended_run : RunRecord
ended_run = record next_run { id = 1; thread_id = some 2; status = completed; message_seq = some 1 }

abbrev words : RunMessage
words =
    new_message
      (record {
        id = 3;
        to_run_id = 1;
        mode = at_turn_end;
        body = 9;
        container_kind = none;
        container_id = none;
        sender = 7;
      })
      1 20

abbrev thread_mail : Mail
thread_mail = record {
  runs = ended_run ∷ record next_run { thread_id = some 2 } ∷ [];
  messages = words ∷ [];
}

abbrev row_id : Ident → Ident → Ident → Ident
row_id run sender id = 1000 + id

adopting : Unit {0}
unfolding find_one find_many sort_asc place sort_desc place_desc update create admit_message seed
    mint_seq settle_attempt create_message max_message_seq adopt_all adopt_thread_inbox
adopting = tt

thread_mail-IsMail : IsMail thread_mail
unfolding adopting
thread_mail-IsMail = record {
  runs = ((λ e. cc e, tt), (tt, tt));
  messages = (tt, tt);
  numbered = λ j m e r f n at. ground (arith, e, f, at);
}

adopted_once : (adopt_thread_inbox row_id 20 30 40 2 thread_mail).0 ≡ some 1
unfolding adopting
adopted_once = refl

adopt_thread_inbox_lem_example :
    (get message_key 3 (adopt_thread_inbox row_id 20 30 40 2 thread_mail).1.messages ≡ some words)
    ⊎ ((is_left (filter (is_prior 2 20) thread_mail.runs) words ≡ true)
        × (get message_key 3 (adopt_thread_inbox row_id 20 30 40 2 thread_mail).1.messages
            ≡ some (retired row_id 20 30 40 words))
        × HasCopy row_id 20 30 40 words (adopt_thread_inbox row_id 20 30 40 2 thread_mail).1)
unfolding adopting
adopt_thread_inbox_lem_example =
    adopt_thread_inbox_lem row_id 20 30 40 2 thread_mail thread_mail-IsMail 3 words refl

adopt_thread_inbox_complete_example :
    ((adopt_thread_inbox row_id 20 30 40 2 thread_mail).0 ≡ some 1)
    × All
        (λ m.
          get message_key m.id (adopt_thread_inbox row_id 20 30 40 2 thread_mail).1.messages
          ≡ some (retired row_id 20 30 40 m))
        (words ∷ [])
unfolding adopting left_messages
adopt_thread_inbox_complete_example =
    adopt_thread_inbox_complete row_id 20 30 40 2 thread_mail thread_mail-IsMail
      (record next_run { thread_id = some 2 }, 0, refl, refl, refl) (tt, tt) (refl, tt)
