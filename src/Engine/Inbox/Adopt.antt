-- ===== src/Engine/Inbox/Adopt.antt =====
-- What the ended runs of a thread left unread goes to its next run: `adoptThreadInbox`
-- (packages/engines/sql/src/store.ts). The engine calls it in the transaction that creates the run, so
-- no other process writes in between. `row_id` is `messageRowId`, a hash.
pub mod Kept
pub mod Loop
pub mod Lossless
pub mod Complete
mod Tests
use busyclaw.Prelude.{
  ℕ, ◌+◌, Bool, true, false, ◌&&◌, not, Option, none, some, List, [], ◌∷◌, ◌==◌, any, Ident,
  Timestamp, opt_eq,
}
use busyclaw.Storage.Table.{cas, find_many, sort_asc}
use busyclaw.Engine.Schema.{RunRecord, is_live}
use busyclaw.Engine.Inbox.{
  MessageMode, next_step, interrupt, at_turn_end, MessageStatus, pending, delivered, dead,
  RunMessage, Mail, AdmitInput, admitted, refused, bounced, no_such_run, contended, message_key,
  max_seq_attempts, admit_message,
}

abbrev pub is_unread : MessageStatus → Bool
is_unread pending = true
is_unread delivered = false
is_unread dead = false

-- The ended runs of the thread.
abbrev pub is_prior : Ident → Ident → RunRecord → Bool
is_prior thread_id to_run_id r =
    opt_eq r.thread_id (some thread_id) && (not (r.id == to_run_id) && not (is_live r.status))

abbrev pub is_left : List RunRecord → RunMessage → Bool
is_left prior_runs m = any (λ r. r.id == m.to_run_id) prior_runs && is_unread m.status

-- A message for the end of the turn is read at a step of the next one.
abbrev pub adopted_mode : MessageMode → MessageMode
adopted_mode next_step = next_step
adopted_mode interrupt = interrupt
adopted_mode at_turn_end = next_step

module _ (row_id : Ident → Ident → Ident → Ident) (to_run_id : Ident) (ts now : Timestamp) where
  abbrev pub adopted_input : RunMessage → AdmitInput
  adopted_input m = record {
    id = row_id to_run_id m.sender m.id;
    to_run_id = to_run_id;
    mode = adopted_mode m.mode;
    body = m.body;
    container_kind = m.container_kind;
    container_id = m.container_id;
    sender = m.sender;
  }

  -- `lastError` names the run that adopted the message.
  abbrev pub retired : RunMessage → RunMessage
  retired m = record m { status = dead; last_error = some to_run_id; updated_at = now }

  abbrev pub retire : RunMessage → Mail → Mail
  retire m mail = record mail {
    messages = (cas message_key m.id (λ x. is_unread x.status) retired mail.messages).1;
  }

  -- The loop down the rows. `none`: an admission threw.
  unfoldable pub adopt_all : List RunMessage → ℕ → Mail → Option ℕ × Mail
  unfolding admit_message
  adopt_all [] adopted mail = (some adopted, mail)
  adopt_all (m ∷ rows) adopted mail =
      let (answer, mail') = admit_message max_seq_attempts (λ n x. x) (adopted_input m) ts mail in
      let taken = adopt_all rows (adopted + 1) (retire m mail') in
      let skipped = adopt_all rows adopted mail' in
      elim answer [
        | admitted seq ↦ taken
        | refused seq ↦ skipped
        | bounced status ↦ skipped
        | no_such_run ↦ (none, mail')
        | contended ↦ (none, mail')
      ]

  abbrev pub left_messages : Ident → Mail → List RunMessage
  unfolding find_many sort_asc
  left_messages thread_id mail =
      let prior_runs = find_many (is_prior thread_id to_run_id) mail.runs in
      sort_asc (λ m. m.seq) (find_many (is_left prior_runs) mail.messages)

  unfoldable pub adopt_thread_inbox : Ident → Mail → Option ℕ × Mail
  unfolding adopt_all left_messages
  adopt_thread_inbox thread_id mail = adopt_all (left_messages thread_id mail) 0 mail
