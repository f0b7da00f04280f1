-- ===== src/Engine/Inbox/Adopt/Loop.antt =====
-- The loop of `adoptThreadInbox` (packages/engines/sql/src/store.ts) down the messages that were left.
use busyclaw.Prelude.{
  ℕ, ◌+◌, ◌≡◌, refl, ◌≢◌, ◌≤◌, ◌⊎◌, inl, inr, Bool, true, ◌&&◌, Option, none, some, List, [], ◌∷◌,
  ◌==◌, if◌then◌else◌, All, All-map, Ident, Timestamp, arith, ap, sym, ◌∙◌, subst,
}
use busyclaw.Storage.Table.{get}
use busyclaw.Storage.Table.Laws.{
  Unique, get-cas_ne, get-cas, get-cas_at, map_row, get-cas_inv, cas-Unique, cas_row,
}
use busyclaw.Engine.Schema.{run_key}
use busyclaw.Engine.Inbox.{
  RunMessage, Mail, Admission, admitted, refused, bounced, no_such_run, contended, message_key,
  new_message, max_seq_attempts, admit_message,
}
use busyclaw.Engine.Inbox.Numbering.{IsMail}
use busyclaw.Engine.Inbox.Order.{Says, admit_message-Says}
use busyclaw.Engine.Inbox.Adopt.{is_unread, adopted_input, retired, retire, adopt_all}
use busyclaw.Engine.Inbox.Adopt.Kept.{admit_message-get}

module _ (row_id : Ident → Ident → Ident → Ident) (to_run_id : Ident) (ts now : Timestamp) where
  -- The new run's inbox has an unread copy of the message, which the drain shows.
  abbrev pub HasCopy : RunMessage → Mail → Type 0
  HasCopy m mail =
      let input = adopted_input row_id to_run_id ts now m in
      (seq : ℕ) × (get message_key input.id mail.messages ≡ some (new_message input seq ts))

  -- A message is as it was, or it is retired for its copy.
  abbrev pub IsCarried : RunMessage → Mail → Type 0
  IsCarried m mail =
      (get message_key m.id mail.messages ≡ some m)
      ⊎ ((get message_key m.id mail.messages ≡ some (retired row_id to_run_id ts now m))
          × HasCopy m mail)

  pub retire-IsMail :
      (m : RunMessage) (mail : Mail) → IsMail mail → IsMail (retire row_id to_run_id ts now m mail)
  retire-IsMail m mail v =
      let g : RunMessage → Bool = λ x. is_unread x.status in
      let f = retired row_id to_run_id ts now in
      record {
        runs = v.runs;
        messages = cas-Unique message_key m.id g f (λ r. refl) mail.messages v.messages;
        numbered = λ j x e r there n at.
            let (old, before, how) =
              get-cas_inv message_key m.id g f (λ r. refl) j mail.messages x v.messages e in
            elim how [
              | inl (_, _, same) ↦
                  subst (λ y. get run_key y.to_run_id mail.runs ≡ some r → y.seq ≤ n) (sym same)
                    (λ t. v.numbered j old before r t n at) there
              | inr same ↦ v.numbered j x (before ∙ ap some (sym same)) r there n at
            ];
      }

  pub retire-get :
      (m : RunMessage) (mail : Mail) (j : Ident) (x : RunMessage)
      → m.id ≢ j
      → get message_key j mail.messages ≡ some x
      → get message_key j (retire row_id to_run_id ts now m mail).messages ≡ some x
  retire-get m mail j x other e =
      get-cas_ne message_key m.id (λ x. is_unread x.status) (retired row_id to_run_id ts now)
        (λ r. refl) j mail.messages (λ same. other (sym same))
      ∙ e

  -- The rows of the loop: read from the table, not yet changed, and of other runs.
  abbrev pub IsAdoptable : Mail → RunMessage → Type 0
  IsAdoptable mail m =
      (get message_key m.id mail.messages ≡ some m)
      × (m.to_run_id ≢ to_run_id)
      × (is_unread m.status ≡ true)

  -- A copy is not among the rows, which are of other runs.
  copy_apart :
      (s c : RunMessage) (mail : Mail)
      → IsAdoptable mail s
      → c.to_run_id ≡ to_run_id
      → (j : Ident) → get message_key j mail.messages ≡ some c
      → s.id ≢ j
  copy_apart s c mail a to j e same =
      let one : s ≡ c = ground (arith, a.0, e, ap (λ k. get message_key k mail.messages) same) in
      a.1 (ap (λ (x : RunMessage). x.to_run_id) one ∙ to)

  pub retired_now :
      (m : RunMessage) (mail : Mail)
      → IsMail mail
      → IsAdoptable mail m
      → get message_key m.id (retire row_id to_run_id ts now m mail).messages
        ≡ some (retired row_id to_run_id ts now m)
  retired_now m mail v a =
      let g : RunMessage → Bool = λ x. is_unread x.status in
      let f = retired row_id to_run_id ts now in
      get-cas message_key m.id g f (λ r. refl) mail.messages v.messages
      ∙ ap (cas_row message_key g f) a.0
      ∙ ap (λ b. if b then some (f m) else some m) a.2

  pub retire-none :
      (m : RunMessage) (mail : Mail) (j : Ident)
      → IsMail mail
      → get message_key j mail.messages ≡ none
      → get message_key j (retire row_id to_run_id ts now m mail).messages ≡ none
  retire-none m mail j v e =
      let f = retired row_id to_run_id ts now in
      get-cas_at message_key m.id (λ x. is_unread x.status) f (λ r. refl) j mail.messages v.messages
      ∙ ap
          (map_row message_key
            (λ r. if message_key r == m.id && is_unread r.status then f r else r))
          e

  pub retire_step :
      (m : RunMessage) (mail : Mail) (seq : ℕ)
      → IsMail mail
      → IsAdoptable mail m
      → get message_key (adopted_input row_id to_run_id ts now m).id mail.messages
        ≡ some (new_message (adopted_input row_id to_run_id ts now m) seq ts)
      → IsCarried m (retire row_id to_run_id ts now m mail)
  retire_step m mail seq v a stored =
      let input = adopted_input row_id to_run_id ts now m in
      inr (
        retired_now m mail v a,
        (
          seq,
          retire-get m mail input.id _
              (copy_apart m (new_message input seq ts) mail a refl input.id stored) stored,
        ),
      )

  -- What the loop down the rows does: every row is carried, and every other message stays.
  abbrev pub Carries : List RunMessage → Mail → Mail → Type 0
  Carries rows mail final =
      All (λ m. IsCarried m final) rows
      × ((j : Ident) (x : RunMessage)
          → All (λ m. m.id ≢ j) rows
          → get message_key j mail.messages ≡ some x
          → get message_key j final.messages ≡ some x)

  pub keep_rows :
      (rows : List RunMessage) (mail mail' : Mail) (m : RunMessage)
      → ((j : Ident) (x : RunMessage)
          → m.id ≢ j
          → get message_key j mail.messages ≡ some x
          → get message_key j mail'.messages ≡ some x)
      → All (λ s. s.id ≢ m.id) rows
      → All (IsAdoptable mail) rows
      → All (IsAdoptable mail') rows
  keep_rows [] mail mail' m keeps ne a = tt
  keep_rows (s ∷ rows) mail mail' m keeps ne a = (
    (keeps s.id s (λ same. ne.0 (sym same)) a.0.0, a.0.1, a.0.2),
    keep_rows rows mail mail' m keeps ne.1 a.1,
  )

  carried :
      (rows : List RunMessage) (m : RunMessage) (mail final : Mail)
      → IsCarried m mail
      → All (λ s. s.id ≢ m.id) rows
      → All (IsAdoptable mail) rows
      → Carries rows mail final
      → IsCarried m final
  carried rows m mail final (inl same) ne a c = inl (c.1 m.id m ne same)
  carried rows m mail final (inr (gone, (seq, copy))) ne a c =
      let input = adopted_input row_id to_run_id ts now m in
      inr (
        c.1 m.id _ ne gone,
        (
          seq,
          c.1 input.id _
              (All-map (λ s h. copy_apart s (new_message input seq ts) mail h refl input.id copy)
                rows a)
              copy,
        ),
      )

  module _ (m : RunMessage) (rows : List RunMessage) (mail : Mail)
      (ne : All (λ s. s.id ≢ m.id) rows) where
    -- The row's message was not admitted: it stays for another adoption.
    passed_over :
        (mail' final : Mail)
        → IsAdoptable mail m
        → ((j : Ident) (x : RunMessage)
            → get message_key j mail.messages ≡ some x
            → get message_key j mail'.messages ≡ some x)
        → Carries rows mail' final
        → Carries (m ∷ rows) mail final
    passed_over mail' final a keeps c =
        ((inl (c.1 m.id m ne (keeps m.id m a.0)), c.0), λ j x h e. c.1 j x h.1 (keeps j x e))

    thrown :
        (mail' : Mail)
        → All (IsAdoptable mail) (m ∷ rows)
        → ((j : Ident) (x : RunMessage)
            → get message_key j mail.messages ≡ some x
            → get message_key j mail'.messages ≡ some x)
        → Carries (m ∷ rows) mail mail'
    thrown mail' a keeps =
        (All-map (λ s h. inl (keeps s.id s h.0)) (m ∷ rows) a, λ j x h e. keeps j x e)

    settled :
        (adopted : ℕ)
        → All (IsAdoptable mail) (m ∷ rows)
        → ((n : ℕ) (w : Mail)
            → IsMail w
            → All (IsAdoptable w) rows
            → Carries rows w (adopt_all row_id to_run_id ts now rows n w).1)
        → (answer : Admission) (mail' : Mail)
        → Says (adopted_input row_id to_run_id ts now m) ts (answer, mail')
        → ((j : Ident) (x : RunMessage)
            → get message_key j mail.messages ≡ some x
            → get message_key j mail'.messages ≡ some x)
        → Carries
            (m ∷ rows)
            mail
            (elim answer as (λ _. Option ℕ × Mail) [
              | admitted seq ↦
                  adopt_all row_id to_run_id ts now rows
                    (adopted + 1)
                    (retire row_id to_run_id ts now m mail')
              | refused seq ↦ adopt_all row_id to_run_id ts now rows adopted mail'
              | bounced status ↦ adopt_all row_id to_run_id ts now rows adopted mail'
              | no_such_run ↦ (none, mail')
              | contended ↦ (none, mail')
            ]).1
    settled adopted a rest (admitted seq) mail' says keeps =
        let w = retire row_id to_run_id ts now m mail' in
        let later : (j : Ident) (x : RunMessage)
            → m.id ≢ j
            → get message_key j mail.messages ≡ some x
            → get message_key j w.messages ≡ some x =
          λ j x other e. retire-get m mail' j x other (keeps j x e) in
        let b = keep_rows rows mail w m later ne a.1 in
        let c = rest (adopted + 1) w (retire-IsMail m mail' says.0) b in
        let mine =
          retire_step m mail' seq says.0 (keeps m.id m a.0.0, a.0.1, a.0.2) says.1.stored in
        (
          (
            carried rows m w (adopt_all row_id to_run_id ts now rows (adopted + 1) w).1 mine ne b c,
            c.0,
          ),
          λ j x h e. c.1 j x h.1 (later j x h.0 e),
        )
    settled adopted a rest (refused seq) mail' says keeps =
        passed_over mail' (adopt_all row_id to_run_id ts now rows adopted mail').1 a.0 keeps
          (rest adopted mail' says (keep_rows rows mail mail' m (λ j x _ e. keeps j x e) ne a.1))
    settled adopted a rest (bounced status) mail' says keeps =
        passed_over mail' (adopt_all row_id to_run_id ts now rows adopted mail').1 a.0 keeps
          (rest adopted mail' says.0 (keep_rows rows mail mail' m (λ j x _ e. keeps j x e) ne a.1))
    settled adopted a rest no_such_run mail' says keeps = thrown mail' a keeps
    settled adopted a rest contended mail' says keeps = thrown mail' a keeps

  pub adopt_all-Carries :
      (rows : List RunMessage) (adopted : ℕ) (mail : Mail)
      → IsMail mail
      → All (IsAdoptable mail) rows
      → Unique message_key rows
      → Carries rows mail (adopt_all row_id to_run_id ts now rows adopted mail).1
  unfolding adopt_all
  adopt_all-Carries [] adopted mail v a u = (tt, λ j x h e. e)
  adopt_all-Carries (m ∷ rows) adopted mail v a u =
      let input = adopted_input row_id to_run_id ts now m in
      let says = admit_message-Says input ts max_seq_attempts (λ n x. x) mail (λ k x h. h) v in
      settled m rows mail u.0 adopted a (λ n w q b. adopt_all-Carries rows n w q b u.1)
        (admit_message max_seq_attempts (λ n x. x) input ts mail).0
        (admit_message max_seq_attempts (λ n x. x) input ts mail).1 says
        (λ j x e. admit_message-get input ts j x max_seq_attempts mail e)
