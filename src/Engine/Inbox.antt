-- ===== src/Engine/Inbox.antt =====
-- The inbox of a run: `maxMessageSeq`, `drainMessages`, `hasPendingInterrupt`, `admitMessage`
-- (packages/engines/sql/src/store.ts), over the row of
-- packages/foundation/contracts/src/run-message.ts.
pub mod Numbering
pub mod Order
pub mod Admit
pub mod Queue
pub mod Sorted
pub mod Prefix
pub mod Drain
pub mod Adopt
mod Tests
use busyclaw.Prelude.{
  ℕ, zero, suc, ◌+◌, Bool, true, false, ◌&&◌, ◌||◌, not, Option, none, some, List, [], ◌∷◌, ◌++◌,
  ◌==◌, ltb, if◌then◌else◌, any, Ident, Timestamp, opt_eq,
}
use busyclaw.Storage.Table.{get, cas, create, find_many, sort_asc, sort_desc, update}
use busyclaw.Engine.Schema.{RunStatus, RunRecord, run_key, is_live}

pub data MessageMode : Type 0 where
  next_step interrupt at_turn_end : MessageMode

pub data MessageStatus : Type 0 where
  pending delivered dead : MessageStatus

pub record RunMessage : Type 0 where
  pub id : Ident
  pub to_run_id : Ident
  pub mode : MessageMode
  pub body : Ident
  pub container_kind : Option Ident
  pub container_id : Option Ident
  pub sender : Ident
  pub seq : ℕ
  pub status : MessageStatus
  pub delivered_at_step : Option ℕ
  pub last_error : Option Ident
  pub created_at : Timestamp
  pub updated_at : Timestamp

-- The two tables that the inbox works on.
pub record Mail : Type 0 where
  pub runs : List RunRecord
  pub messages : List RunMessage

pub record AdmitInput : Type 0 where
  pub id : Ident
  pub to_run_id : Ident
  pub mode : MessageMode
  pub body : Ident
  pub container_kind : Option Ident
  pub container_id : Option Ident
  pub sender : Ident

-- `refused` is the answer to a redelivery. The last two are thrown state errors.
pub data Admission : Type 0 where
  admitted refused : (seq : ℕ) → Admission
  bounced : RunStatus → Admission
  no_such_run contended : Admission

abbrev pub message_key : RunMessage → Ident
message_key m = m.id

abbrev pub is_to : Ident → RunMessage → Bool
is_to run_id m = m.to_run_id == run_id

abbrev pub first_seq : List RunMessage → ℕ
first_seq [] = 0
first_seq (m ∷ ms) = m.seq

unfoldable pub max_message_seq : Ident → List RunMessage → ℕ
unfolding find_many sort_desc
max_message_seq run_id messages =
    first_seq (sort_desc (λ m. m.seq) (find_many (is_to run_id) messages))

abbrev pub new_message : AdmitInput → ℕ → Timestamp → RunMessage
new_message input seq ts = record {
  id = input.id;
  to_run_id = input.to_run_id;
  mode = input.mode;
  body = input.body;
  container_kind = input.container_kind;
  container_id = input.container_id;
  sender = input.sender;
  seq = seq;
  status = pending;
  delivered_at_step = none;
  last_error = none;
  created_at = ts;
  updated_at = ts;
}

-- The insert of a message, which conflicts on its id and on the number within its run.
unfoldable pub create_message : RunMessage → List RunMessage → Option (List RunMessage)
create_message m messages =
    if any (λ n. n.to_run_id == m.to_run_id && n.seq == m.seq) messages
    then none
    else create message_key m messages

-- A counter that is absent is set from the rows, which are read at the write.
unfoldable pub seed : Ident → Mail → Mail
unfolding max_message_seq
seed run_id mail = record mail {
  runs =
      (cas run_key run_id (λ r. true)
        (λ r. record r { message_seq = some (max_message_seq run_id mail.messages) }) mail.runs).1;
}

abbrev pub insert_or_refuse : AdmitInput → ℕ → Mail → Option (List RunMessage) → Admission × Mail
insert_or_refuse input seq mail none = (refused seq, mail)
insert_or_refuse input seq mail (some messages) =
    (admitted seq, record mail { messages = messages })

-- The write that mints the number is the guard on the run's status.
unfoldable pub mint_seq : Ident → ℕ → Timestamp → Mail → Option RunRecord × Mail
mint_seq run_id current ts mail =
    let (moved, runs) =
      cas run_key run_id (λ r. opt_eq r.message_seq (some current) && is_live r.status)
        (λ r. record r { message_seq = some (current + 1); updated_at = ts }) mail.runs in
    (moved, record mail { runs = runs })

-- A run that did not take the write: it has ended, or its number moved and the attempt is repeated.
abbrev pub bounce_or : Option RunRecord → Mail → (again : Admission × Mail) → Admission × Mail
bounce_or none mail again = again
bounce_or (some after) mail again =
    if is_live after.status then again else (bounced after.status, mail)

abbrev pub settle_attempt :
    AdmitInput
    → ℕ
    → Timestamp
    → Option RunRecord × Mail
    → (again : Admission × Mail) → Admission × Mail
unfolding create_message
settle_attempt input current ts (none, mail) again =
    bounce_or (get run_key input.to_run_id mail.runs) mail again
settle_attempt input current ts (some _, mail) again =
    insert_or_refuse input (current + 1) mail
      (create_message (new_message input (current + 1) ts) mail.messages)

-- `n` attempts. Other processes may write between the read of the run and the write of the attempt:
-- `meanwhile` is what they do. The two writes of an attempt (the mint and the insert), and the read and the
-- write of a seed, are each taken as one step.
unfoldable pub admit_message :
    ℕ → (ℕ → Mail → Mail) → AdmitInput → Timestamp → Mail → Admission × Mail
unfolding seed mint_seq settle_attempt
admit_message zero meanwhile input ts mail = (contended, mail)
admit_message (suc n) meanwhile input ts mail =
    let now = meanwhile n mail in
    elim (get run_key input.to_run_id mail.runs) [
      | none ↦ (no_such_run, mail)
      | some run ↦ elim run.message_seq [
        | none ↦ admit_message n meanwhile input ts (seed input.to_run_id now)
        | some current ↦
            let minted = mint_seq input.to_run_id current ts now in
            settle_attempt input current ts minted (admit_message n meanwhile input ts minted.1)
      ]
    ]

abbrev pub max_seq_attempts : ℕ
max_seq_attempts = 8

abbrev pub is_drained : Ident → ℕ → RunMessage → Bool
is_drained run_id after_seq m =
    is_to run_id m
    && (ltb after_seq m.seq
        && elim m.mode [ next_step ↦ true | interrupt ↦ true | at_turn_end ↦ false ])

-- The message is shown to the run at this step.
abbrev pub deliver : RunMessage → ℕ → Timestamp → List RunMessage → List RunMessage
deliver m step ts messages =
    (cas message_key m.id (λ x. true)
      (λ x. record x { status = delivered; delivered_at_step = some step; updated_at = ts })
      messages).1

pub record Drained : Type 0 where
  pub delivered : List (ℕ × Ident)
  pub handover_to : Option Ident

abbrev pub is_foreign : Option Ident → RunMessage → Bool
is_foreign none m = false
is_foreign (some p) m = not (m.sender == p)

-- The loop down the rows: it stops at the first message of another sender.
unfoldable pub drain_all :
    Option Ident → ℕ → Timestamp → List RunMessage → List RunMessage → Drained × List RunMessage
unfolding update
drain_all run_as step ts [] messages = (record { delivered = []; handover_to = none }, messages)
drain_all run_as step ts (m ∷ rows) messages =
    let (rest, messages') = drain_all run_as step ts rows (deliver m step ts messages) in
    if is_foreign run_as m
    then (record { delivered = []; handover_to = some m.sender }, messages)
    else (record rest { delivered = (m.seq, m.body) ∷ rest.delivered }, messages')

unfoldable pub drain_messages : Ident → ℕ → ℕ → Option Ident → Timestamp → Mail → Drained × Mail
unfolding drain_all find_many sort_asc
drain_messages run_id after_seq step run_as ts mail =
    let rows = sort_asc (λ m. m.seq) (find_many (is_drained run_id after_seq) mail.messages) in
    let (drained, messages) = drain_all run_as step ts rows mail.messages in
    (drained, record mail { messages = messages })

unfoldable pub has_pending_interrupt : Ident → Mail → Bool
has_pending_interrupt run_id mail =
    any
      (λ m.
        is_to run_id m
        && (elim m.status [ pending ↦ true | delivered ↦ false | dead ↦ false ]
            && elim m.mode [ interrupt ↦ true | next_step ↦ false | at_turn_end ↦ false ]))
      mail.messages
