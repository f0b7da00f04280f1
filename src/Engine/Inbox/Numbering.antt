-- ===== src/Engine/Inbox/Numbering.antt =====
-- The counter of a run bounds the numbers of its messages: the writes to the counter.
use busyclaw.Prelude.{
  ℕ, ◌+◌, ◌≡◌, refl, ◌≤◌, inl, inr, Bool, true, ◌&&◌, some, List, [], ◌∷◌, Ident, Timestamp, arith,
  sym, ◌∙◌, filter, opt_eq,
}
use busyclaw.Storage.Table.{get, find_one, find_many, sort_desc, place_desc}
use busyclaw.Storage.Table.Laws.{Unique, cas-Unique, get-cas_inv, get_key}
use busyclaw.Engine.Schema.{RunRecord, run_key, is_live}
use busyclaw.Engine.Inbox.{
  RunMessage, Mail, message_key, is_to, first_seq, max_message_seq, seed, mint_seq,
}

-- The number of a run's counter is no less than that of any of its messages.
pub record IsMail (mail : Mail) : Type 0 where
  pub runs : Unique run_key mail.runs
  pub messages : Unique message_key mail.messages
  pub numbered :
      (j : Ident) (m : RunMessage)
      → get message_key j mail.messages ≡ some m
      → (r : RunRecord) → get run_key m.to_run_id mail.runs ≡ some r
      → (n : ℕ) → r.message_seq ≡ some n
      → m.seq ≤ n

first-place :
    (m : RunMessage) (ms : List RunMessage)
    → (m.seq ≤ first_seq (place_desc (λ m. m.seq) m ms))
      × (first_seq ms ≤ first_seq (place_desc (λ m. m.seq) m ms))
unfolding place_desc
first-place m [] = (omega arith, omega arith)
first-place m (n ∷ ms) = ground (arith, first-place m ms)

max_message_seq-ge :
    (run_id j : Ident) (ms : List RunMessage) (m : RunMessage)
    → get message_key j ms ≡ some m
    → m.to_run_id ≡ run_id
    → m.seq ≤ max_message_seq run_id ms
unfolding max_message_seq find_many sort_desc find_one
max_message_seq-ge run_id j [] m e to = absurd (cc e)
max_message_seq-ge run_id j (x ∷ ms) m e to = ground (
  arith,
  e,
  to,
  max_message_seq-ge run_id j ms m,
  first-place x (sort_desc (λ m. m.seq) (filter (is_to run_id) ms)),
)

pub seed-IsMail : (run_id : Ident) (mail : Mail) → IsMail mail → IsMail (seed run_id mail)
unfolding seed
seed-IsMail run_id mail v =
    let f : RunRecord → RunRecord =
      λ r. record r { message_seq = some (max_message_seq run_id mail.messages) } in
    record {
      runs = cas-Unique run_key run_id (λ r. true) f (λ r. refl) mail.runs v.runs;
      messages = v.messages;
      numbered = λ j m e r there n at.
          let (old, before, how) =
            get-cas_inv run_key run_id (λ r. true) f (λ r. refl) m.to_run_id mail.runs r v.runs
              there in
          elim how [
            | inl (mine, _, same) ↦
                let to : m.to_run_id ≡ run_id =
                  sym (get_key run_key m.to_run_id mail.runs old before) ∙ mine in
                ground (arith, max_message_seq-ge run_id j mail.messages m e to, same, at)
            | inr same ↦ v.numbered j m e old before n (ground (arith, same, at))
          ];
    }

pub mint_seq-IsMail :
    (run_id : Ident) (current : ℕ) (ts : Timestamp) (mail : Mail)
    → IsMail mail
    → IsMail (mint_seq run_id current ts mail).1
unfolding mint_seq
mint_seq-IsMail run_id current ts mail v =
    let g : RunRecord → Bool = λ r. opt_eq r.message_seq (some current) && is_live r.status in
    let f : RunRecord → RunRecord =
      λ r. record r { message_seq = some (current + 1); updated_at = ts } in
    record {
      runs = cas-Unique run_key run_id g f (λ r. refl) mail.runs v.runs;
      messages = v.messages;
      numbered = λ j m e r there n at.
          let (old, before, how) =
            get-cas_inv run_key run_id g f (λ r. refl) m.to_run_id mail.runs r v.runs there in
          elim how [
            | inl (mine, ok, same) ↦
                let was : old.message_seq ≡ some current = ground (arith, ok) in
                ground (arith, v.numbered j m e old before current was, same, at)
            | inr same ↦ v.numbered j m e old before n (ground (arith, same, at))
          ];
    }
