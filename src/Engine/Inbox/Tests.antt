-- ===== src/Engine/Inbox/Tests.antt =====
-- Small inboxes, and the theorems at them.
use busyclaw.Prelude.{◌≡◌, refl, arith, none, some, [], ◌∷◌}
use busyclaw.Storage.Table.{
  find_one, find_many, sort_asc, place, sort_desc, place_desc, update, create,
}
use busyclaw.Engine.Schema.{RunRecord}
use busyclaw.Engine.Runs.{new_run}
use busyclaw.Engine.Inbox.{
  MessageMode, Mail, AdmitInput, new_message, admit_message, seed, mint_seq, settle_attempt,
  create_message, max_message_seq, drain_all, drain_messages,
}
use busyclaw.Engine.Inbox.Numbering.{IsMail}
use busyclaw.Engine.Inbox.Order.{admit_message-Says}
use busyclaw.Engine.Inbox.Drain.{IsDrain, drain_messages_lem}

abbrev live_run : RunRecord
live_run =
    new_run
      (record {
        id = 1;
        input = 5;
        principal = none;
        recording = none;
        claw_id = none;
        model = none;
        run_mode = none;
      })
      10

abbrev hello : AdmitInput
hello = record {
  id = 3;
  to_run_id = 1;
  mode = MessageMode.next_step;
  body = 9;
  container_kind = none;
  container_id = none;
  sender = 7;
}

abbrev other : AdmitInput
other = record hello { id = 4; sender = 8 }

abbrev empty_mail : Mail
empty_mail = record { runs = live_run ∷ []; messages = [] }

inbox : Unit {0}
unfolding find_one find_many sort_asc place sort_desc place_desc update create admit_message seed
    mint_seq settle_attempt create_message max_message_seq drain_all drain_messages
inbox = tt

empty_mail-IsMail : IsMail empty_mail
unfolding inbox
empty_mail-IsMail = record {
  runs = (tt, tt);
  messages = tt;
  numbered = λ j m e r f n at. absurd (cc e);
}

abbrev one_mail : Mail
one_mail = record {
  runs = record live_run { message_seq = some 1; updated_at = 20 } ∷ [];
  messages = new_message hello 1 20 ∷ [];
}

one_mail-IsMail : IsMail one_mail
unfolding inbox
one_mail-IsMail =
    (admit_message-Says hello 20 8 (λ k m. m) empty_mail (λ k x v. v) empty_mail-IsMail).0

abbrev two_mail : Mail
two_mail = record one_mail { messages = new_message hello 1 20 ∷ new_message other 2 30 ∷ [] }

drained_one :
    ((drain_messages 1 0 5 (some 7) 40 two_mail).0.delivered ≡ (1, 9) ∷ [])
    × ((drain_messages 1 0 5 (some 7) 40 two_mail).0.handover_to ≡ some 8)
unfolding inbox
drained_one = (refl, refl)

drain_messages_lem_example :
    IsDrain 1 0 (some 7) 5 40 two_mail (drain_messages 1 0 5 (some 7) 40 two_mail)
unfolding inbox
drain_messages_lem_example =
    drain_messages_lem 1 0 (some 7) 5 40 two_mail (((λ e. absurd (omega (arith, e))), tt), (tt, tt))
