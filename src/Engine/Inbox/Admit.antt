-- ===== src/Engine/Inbox/Admit.antt =====
-- An admission that nobody interferes with: a new message gets the next number, a repeated one none.
use busyclaw.Prelude.{
  ℕ, suc, ◌+◌, ◌≡◌, refl, ◌≢◌, true, false, ◌&&◌, none, some, List, [], ◌∷◌, ◌==◌, any, All,
  All-map, Ident, Timestamp, arith, sym, subst, ◌∙◌, opt_eq,
}
use busyclaw.Storage.Table.{get}
use busyclaw.Storage.Table.Laws.{cas_hit, create_fresh, create_used, All-get}
use busyclaw.Engine.Schema.{RunRecord, run_key, is_live}
use busyclaw.Engine.Inbox.{
  RunMessage, Mail, AdmitInput, admitted, refused, message_key, new_message, create_message,
  mint_seq, insert_or_refuse, settle_attempt, admit_message,
}
use busyclaw.Engine.Inbox.Numbering.{IsMail}

any_none :
    (run_id : Ident) (seq : ℕ) (ms : List RunMessage)
    → All (λ m. (m.to_run_id ≡ run_id) → m.seq ≢ seq) ms
    → any (λ n. n.to_run_id == run_id && n.seq == seq) ms ≡ false
any_none run_id seq [] a = refl
any_none run_id seq (m ∷ ms) a = ground (arith, a.0, any_none run_id seq ms a.1)

module _ (input : AdmitInput) (ts : Timestamp) (current : ℕ) (mail : Mail) (run : RunRecord)
    (v : IsMail mail) (found : get run_key input.to_run_id mail.runs ≡ some run)
    (set : run.message_seq ≡ some current) (live : is_live run.status ≡ true) where
  mint_hit : (row : RunRecord) × ((mint_seq input.to_run_id current ts mail).0 ≡ some row)
  unfolding mint_seq
  mint_hit = (
    _,
    (cas_hit run_key input.to_run_id (λ r. opt_eq r.message_seq (some current) && is_live r.status)
        (λ r. record r { message_seq = some (current + 1); updated_at = ts }) (λ r. refl) mail.runs
        run v.runs found (ground (arith, set, live))).0,
  )

  unnumbered :
      any (λ n. n.to_run_id == input.to_run_id && n.seq == current + 1) mail.messages ≡ false
  unnumbered = any_none input.to_run_id (current + 1) mail.messages (
      All-map
        (λ m there to same.
          let le =
            v.numbered m.id m there run
              (subst (λ k. get run_key k mail.runs ≡ some run) (sym to) found) current set in
          absurd (omega (arith, le, same)))
        mail.messages (All-get message_key mail.messages v.messages))

  attempted :
      (n : ℕ)
      → (admit_message (suc n) (λ k m. m) input ts mail).0
        ≡ (insert_or_refuse input
            (current + 1)
            (mint_seq input.to_run_id current ts mail).1
            (create_message (new_message input (current + 1) ts) mail.messages)).0
  unfolding admit_message settle_attempt mint_seq
  attempted n = let (row, won) = mint_hit in rw (admit_message, found, set, won) refl

  -- Nothing interferes with the admission, its run is live and its id is new: the first attempt admits
  -- it, under the number after the run's counter.
  pub admit_message_fresh :
      (n : ℕ)
      → get message_key input.id mail.messages ≡ none
      → (admit_message (suc n) (λ k m. m) input ts mail).0 ≡ admitted (current + 1)
  unfolding create_message
  admit_message_fresh n new =
      attempted n
      ∙ (rw
          (
            create_message,
            unnumbered,
            create_fresh message_key (new_message input (current + 1) ts) mail.messages new,
          )
          refl)

  -- A redelivery, whose id is stored already, is refused: there is never a second copy of a message.
  admit_message_again :
      (n : ℕ) (m : RunMessage)
      → get message_key input.id mail.messages ≡ some m
      → (admit_message (suc n) (λ k m. m) input ts mail).0 ≡ refused (current + 1)
  unfolding create_message
  admit_message_again n m there =
      attempted n
      ∙ (rw
          (
            create_message,
            unnumbered,
            create_used message_key (new_message input (current + 1) ts) m mail.messages there,
          )
          refl)
