-- ===== src/Engine/Inbox/Drain.antt =====
-- What a drain delivers (packages/engines/sql/src/store.ts, `drainMessages`), of the messages that wait.
use busyclaw.Prelude.{
  ℕ, ◌≡◌, refl, ◌≤◌, ◌⊎◌, inl, inr, true, Option, none, some, List, [], ◌∷◌, ◌∙◌, if◌then◌else◌,
  map, any, ◌==◌, ◌&&◌, Ident, Timestamp, arith, ap, sym, Bool-cases, Option-cases,
}
use busyclaw.Storage.Table.{get}
use busyclaw.Storage.Table.Laws.{Unique, cas-Unique, get-cas_at, map_row}
use busyclaw.Engine.Inbox.{
  MessageStatus, RunMessage, Mail, Drained, message_key, is_foreign, deliver, drain_all,
  drain_messages,
}
use busyclaw.Engine.Inbox.Prefix.{
  own_prefix, first_foreign, IsForeign, own-IsForeign, prefix-In, prefix-IsAscending, prefix-Unique,
  Stop, first_foreign-Stop, In-prefix,
}
use busyclaw.Engine.Inbox.Queue.{IsIn, Waits, queue, queue-Waits, Waits-queue}
use busyclaw.Engine.Inbox.Sorted.{IsAscending, queue-IsAscending, queue-Unique}

abbrev pub shown : List RunMessage → List (ℕ × Ident)
shown ms = map (λ m. (m.seq, m.body)) ms

-- The rows are marked one after the other.
abbrev mark_all : ℕ → Timestamp → List RunMessage → List RunMessage → List RunMessage
mark_all step ts [] ms = ms
mark_all step ts (d ∷ ds) ms = mark_all step ts ds (deliver d step ts ms)

drain_all-own :
    (p : Option Ident) (step : ℕ) (ts : Timestamp) (rows ms : List RunMessage)
    → ((drain_all p step ts rows ms).0.delivered ≡ shown (own_prefix p rows))
      × (((drain_all p step ts rows ms).0.handover_to ≡ first_foreign p rows)
          × ((drain_all p step ts rows ms).1 ≡ mark_all step ts (own_prefix p rows) ms))
unfolding drain_all
drain_all-own p step ts [] ms = (refl, (refl, refl))
drain_all-own p step ts (m ∷ rows) ms =
    let rest = drain_all-own p step ts rows (deliver m step ts ms) in
    elim (Bool-cases (is_foreign p m)) [
      | inl foreign ↦ rw (drain_all, foreign) (refl, (refl, refl))
      | inr own ↦ rw (drain_all, own) (ap (λ ds. (m.seq, m.body) ∷ ds) rest.0, (rest.1.0, rest.1.1))
    ]

-- The row of a delivered message names the step.
abbrev pub marked : ℕ → Timestamp → RunMessage → RunMessage
marked step ts m = record m {
  status = MessageStatus.delivered;
  delivered_at_step = some step;
  updated_at = ts;
}

abbrev pub marked_in : ℕ → Timestamp → List RunMessage → RunMessage → RunMessage
marked_in step ts ds m = if any (λ d. d.id == m.id) ds then marked step ts m else m

map_row-marked :
    (step : ℕ) (ts : Timestamp) (d : RunMessage) (ds : List RunMessage) (o : Option RunMessage)
    → map_row message_key
        (marked_in step ts ds)
        (map_row message_key (λ r. if message_key r == d.id && true then marked step ts r else r) o)
      ≡ map_row message_key (marked_in step ts (d ∷ ds)) o
map_row-marked step ts d ds none = refl
map_row-marked step ts d ds (some m) = ground arith

mark_all-get :
    (step : ℕ) (ts : Timestamp) (ds ms : List RunMessage) (i : Ident)
    → Unique message_key ms
    → get message_key i (mark_all step ts ds ms)
      ≡ map_row message_key (marked_in step ts ds) (get message_key i ms)
mark_all-get step ts [] ms i u = elim (Option-cases (get message_key i ms)) [
  | inl absent ↦ rw absent refl
  | inr (m, found) ↦ rw found refl
]
mark_all-get step ts (d ∷ ds) ms i u =
    mark_all-get step ts ds (deliver d step ts ms) i
      (cas-Unique message_key d.id (λ r. true) (marked step ts) (λ r. refl) ms u)
    ∙ ap (map_row message_key (marked_in step ts ds))
        (get-cas_at message_key d.id (λ r. true) (marked step ts) (λ r. refl) i ms u)
    ∙ map_row-marked step ts d ds (get message_key i ms)

module _ (run_id : Ident) (after_seq : ℕ) (p : Option Ident) where
  -- The drain hands over to the sender of a message that waits.
  pub record IsHandover (mail : Mail) (to : Option Ident) : Type 0 where
    pub at : RunMessage
    pub there : IsIn at mail.messages
    pub waits : Waits run_id after_seq at
    pub foreign : IsForeign p at
    pub sender : to ≡ some at.sender

  -- What a drain at a step answers and leaves.
  pub record IsDrain (step : ℕ) (ts : Timestamp) (mail : Mail) (r : Drained × Mail) : Type 0 where
    pub given : List RunMessage
    pub delivered : r.0.delivered ≡ shown given
    pub ascending : IsAscending given
    pub distinct : Unique message_key given
    pub fit :
        (m : RunMessage)
        → IsIn m given
        → IsIn m mail.messages × (Waits run_id after_seq m × (¬ IsForeign p m))
    pub rest :
        (m : RunMessage)
        → IsIn m mail.messages
        → Waits run_id after_seq m
        → IsIn m given ⊎ ((h : IsHandover mail r.0.handover_to) × (h.at.seq ≤ m.seq))
    pub handed : (s : Ident) → r.0.handover_to ≡ some s → IsHandover mail r.0.handover_to
    pub rows :
        (i : Ident)
        → get message_key i r.1.messages
          ≡ map_row message_key (marked_in step ts given) (get message_key i mail.messages)
    pub runs : r.1.runs ≡ mail.runs

  -- A drain delivers messages that wait for the run: of those after the watermark, and not for the next
  -- turn, each once, in the order of their numbers, and none of another sender than the one that the run
  -- acts for. A waiting message that is not delivered is, or has a number no less than that of, a waiting
  -- message of another sender, to whom the drain hands over; it hands over to nobody but the sender of such
  -- a message. Exactly the delivered rows are marked delivered at the step, and all other rows and the runs
  -- stay. Ids are distinct.
  pub drain_messages_lem :
      (step : ℕ) (ts : Timestamp) (mail : Mail)
      → Unique message_key mail.messages
      → IsDrain step ts mail (drain_messages run_id after_seq step p ts mail)
  unfolding drain_messages queue
  drain_messages_lem step ts mail u =
      let rows = queue run_id after_seq mail.messages in
      let (shows, (to, table)) = drain_all-own p step ts rows mail.messages in
      let result = drain_all p step ts rows mail.messages in
      let stop : Stop p rows → IsHandover mail result.0.handover_to = λ s.
        let (there, waits) = queue-Waits run_id after_seq mail.messages s.at s.there in
        record {
          at = s.at;
          there = there;
          waits = waits;
          foreign = s.foreign;
          sender = to ∙ s.sender;
        } in
      record {
        given = own_prefix p rows;
        delivered = shows;
        ascending = prefix-IsAscending p rows (queue-IsAscending run_id after_seq mail.messages);
        distinct = prefix-Unique p rows (queue-Unique run_id after_seq mail.messages u);
        fit = λ m h.
            let (there, own) = prefix-In p rows m h in
            let (stored, waits) = queue-Waits run_id after_seq mail.messages m there in
            (stored, (waits, own-IsForeign p m own));
        rest = λ m h w.
            elim (In-prefix p rows m (queue-IsAscending run_id after_seq mail.messages)
              (Waits-queue run_id after_seq mail.messages m h w)) [
                | inl there ↦ inl there
                | inr (s, le) ↦ inr (stop s, le)
              ];
        handed = λ s e. stop (first_foreign-Stop p rows s (sym to ∙ e));
        rows = λ i.
            ap (get message_key i) table
            ∙ mark_all-get step ts (own_prefix p rows) mail.messages i u;
        runs = refl;
      }
