-- ===== src/Engine/Idempotency.antt =====
-- Idempotent requests: `getIdempotency` and `saveIdempotency` (packages/engines/sql/src/store.ts). The id
-- of a record is the hash of its scope, `id_of`; `request_hash` is the hash of the request's body.
use busyclaw.Prelude.{
  ℕ, ◌≡◌, refl, inl, inr, Option, none, some, List, ◌==◌, if◌then◌else◌, Ident, Timestamp, arith,
  ap, sym, ◌∙◌, Bool-cases, Option-cases,
}
use busyclaw.Storage.Table.{get, create}
use busyclaw.Storage.Table.Laws.{get-create}

pub record IdempotencyInput : Type 0 where
  pub key : Ident
  pub method : Ident
  pub path : Ident
  pub scope : Option Ident
  pub scope_id : Option Ident
  pub principal : Option Ident
  pub request_hash : Ident

pub record IdempotencyRecord : Type 0 where
  pub id : Ident
  pub request : IdempotencyInput
  pub response_status : ℕ
  pub response_body : Ident
  pub created_at : Timestamp

-- `reused`: the key was used for another body, which throws. `conflict`: the error of an insert whose
-- winner cannot be read back.
pub data Lookup : Type 0 where
  missing reused conflict : Lookup
  found : IdempotencyRecord → Lookup

abbrev pub record_key : IdempotencyRecord → Ident
record_key r = r.id

module _ (id_of : IdempotencyInput → Ident) where
  abbrev pub match : IdempotencyInput → Option IdempotencyRecord → Lookup
  match input none = missing
  match input (some r) = if r.request.request_hash == input.request_hash then found r else reused

  unfoldable pub get_idempotency : IdempotencyInput → List IdempotencyRecord → Lookup
  get_idempotency input records = match input (get record_key (id_of input) records)

  abbrev pub new_record : IdempotencyInput → (status body : ℕ) → Timestamp → IdempotencyRecord
  new_record input status body now = record {
    id = id_of input;
    request = input;
    response_status = status;
    response_body = body;
    created_at = now;
  }

  abbrev pub or_conflict : Lookup → Lookup
  or_conflict missing = conflict
  or_conflict reused = reused
  or_conflict conflict = conflict
  or_conflict (found r) = found r

  abbrev pub insert_or_read :
      IdempotencyInput
      → IdempotencyRecord
      → List IdempotencyRecord
      → Option (List IdempotencyRecord)
      → Lookup × List IdempotencyRecord
  unfolding get_idempotency
  insert_or_read input r records (some made) = (found r, made)
  insert_or_read input r records none = (or_conflict (get_idempotency input records), records)

  -- `later` are the rows at the insert, which other processes may have written to since the read.
  unfoldable pub save_idempotency :
      IdempotencyInput
      → (status body : ℕ) → Timestamp
      → (records later : List IdempotencyRecord) → Lookup × List IdempotencyRecord
  unfolding insert_or_read get_idempotency
  save_idempotency input status body now records later = elim (get_idempotency input records) [
    | missing ↦
        insert_or_read input (new_record input status body now) later
          (create record_key (new_record input status body now) later)
    | reused ↦ (reused, later)
    | conflict ↦ (conflict, later)
    | found r ↦ (found r, later)
  ]

  read_back : (l : Lookup) (r : IdempotencyRecord) → or_conflict l ≡ found r → l ≡ found r
  read_back missing r e = absurd (cc e)
  read_back reused r e = absurd (cc e)
  read_back conflict r e = absurd (cc e)
  read_back (found x) r e = e

  -- A save that answers with a record leaves it to be found: a replay of the request finds the same
  -- record, whoever wrote it first, as long as rows that were read are still there.
  save_idempotency_replays :
      (input : IdempotencyInput) (status body : ℕ) (now : Timestamp)
      (records later : List IdempotencyRecord) (r : IdempotencyRecord)
      → ((x : IdempotencyRecord)
          → get record_key (id_of input) records ≡ some x
          → get record_key (id_of input) later ≡ some x)
      → (save_idempotency input status body now records later).0 ≡ found r
      → get_idempotency input (save_idempotency input status body now records later).1 ≡ found r
  unfolding save_idempotency
  save_idempotency_replays input status body now records later r keeps e =
      elim (Option-cases (get record_key (id_of input) records)) [
        | inl absent ↦
            let new = new_record input status body now in
            let tried = create record_key new later in
            let saved : save_idempotency input status body now records later
                ≡ insert_or_read input new later tried =
              rw (save_idempotency, get_idempotency, absent) refl in
            ap (λ (p : Lookup × List IdempotencyRecord). get_idempotency input p.1) saved
            ∙ elim (Option-cases tried) [
              | inl lost ↦
                  ap (λ o. get_idempotency input (insert_or_read input new later o).1) lost
                  ∙ read_back (get_idempotency input later) r (
                      sym (ap (λ o. (insert_or_read input new later o).0) lost)
                      ∙ sym (ap (λ (p : Lookup × List IdempotencyRecord). p.0) saved)
                      ∙ e)
              | inr (made, won) ↦
                  let mine : found new ≡ found r =
                    sym (ap (λ o. (insert_or_read input new later o).0) won)
                    ∙ sym (ap (λ (p : Lookup × List IdempotencyRecord). p.0) saved)
                    ∙ e in
                  let stored : get record_key (id_of input) made ≡ some new =
                    get-create record_key (id_of input) new later made won ∙ ground arith in
                  ap (λ o. get_idempotency input (insert_or_read input new later o).1) won
                  ∙ ap (match input) stored
                  ∙ (ground arith)
                  ∙ mine
            ]
        | inr (x, there) ↦ elim (Bool-cases (x.request.request_hash == input.request_hash)) [
          | inl same ↦
              let saved : save_idempotency input status body now records later ≡ (found x, later) =
                rw (save_idempotency, get_idempotency, there, same) refl in
              ap (λ (p : Lookup × List IdempotencyRecord). get_idempotency input p.1) saved
              ∙ ap (match input) (keeps x there)
              ∙ ground (arith, same)
              ∙ sym (ap (λ (p : Lookup × List IdempotencyRecord). p.0) saved)
              ∙ e
          | inr other ↦
              let saved : save_idempotency input status body now records later ≡ (reused, later) =
                rw (save_idempotency, get_idempotency, there, other) refl in
              absurd (cc (ap (λ (p : Lookup × List IdempotencyRecord). p.0) saved, e))
        ]
      ]
