-- ===== src/Durable/Effect/Claim.antt =====
-- What `claim` answers.
use busyclaw.Prelude.{
  ◌≤◌, ◌<◌, ◌≡◌, refl, ◌≢◌, ◌⊎◌, inl, inr, true, false, none, some, [], ◌∷◌, ◌++◌, arith, ◌∙◌,
  Ident, Timestamp, add_ms, Option-cases,
}
use busyclaw.Storage.Table.{get}
use busyclaw.Storage.Table.Laws.{
  Unique, cas_returns, get-cas, create_fresh, create_used, get-create,
}
use busyclaw.Durable.Effect.{
  started, EffectRecord, Effects, claimed, Outcome, answers, id_reused, ClaimInput, key, ttl,
  new_record, is_same_effect, has_lapsed, take_over, claim_existing, claim,
}

module _ (hash_token : Ident → Ident) where
  -- A started row whose lease lasts beyond `now`.
  abbrev pub IsHeld : Timestamp → EffectRecord → Type 0
  IsHeld now r =
      (r.status ≡ started)
      × ((until : Timestamp) × (r.lease_expires_at ≡ some until) × (now < until))

  held-refused :
      (id tok : Ident) (now until : Timestamp) (t : Effects) (r : EffectRecord)
      → Unique key t
      → get key id t ≡ some r
      → IsHeld now r
      → (take_over hash_token id tok now until t).0 ≡ none
  unfolding take_over
  held-refused id tok now until t r u e h = cas_returns key id _ _ t u ∙ (rw e (ground arith))

  abbrev IsGrant : Outcome → Type 0
  IsGrant (answers (claimed row tok until) t) = Unit
  IsGrant _ = ⊥

  existing-excluded :
      (input : ClaimInput) (tok : Ident) (seen r : EffectRecord) (at_write at_reread : Effects)
      → Unique key at_write
      → get key input.id at_write ≡ some r
      → IsHeld input.now r
      → ¬ IsGrant (claim_existing hash_token input tok seen at_write at_reread)
  unfolding claim_existing
  existing-excluded input tok seen r at_write at_reread u e h g = ground (
    arith,
    held-refused input.id tok input.now (add_ms input.now (ttl input.lease_ttl_ms)) at_write r u e
        h,
  )

  claim-excluded :
      (input : ClaimInput) (tok : Ident) (r r' : EffectRecord)
      (at_read at_create at_raced at_write at_reread : Effects)
      → Unique key at_write
      → get key input.id at_create ≡ some r'
      → get key input.id at_write ≡ some r
      → IsHeld input.now r
      → ¬ IsGrant (claim hash_token input tok at_read at_create at_raced at_write at_reread)
  unfolding claim
  claim-excluded input tok r r' at_read at_create at_raced at_write at_reread u e' e h =
      elim (Option-cases (get key input.id at_read)) [
        | inr (seen, there) ↦
            rw (there, claim) (existing-excluded input tok seen r at_write at_reread u e h)
        | inl absent ↦
            let used = create_used key (new_record hash_token input tok) r' at_create e' in
            elim (Option-cases (get key input.id at_raced)) [
              | inr (seen, there) ↦
                  rw (absent, claim, used, there)
                    (existing-excluded input tok seen r at_write at_reread u e h)
              | inl gone ↦ rw (absent, claim, used, gone) (λ b. b)
            ]
      ]

  -- While a lease lasts, nobody else is granted the effect: if the tables at a claim's two possible
  -- writes hold the row, at the second one started under a lease beyond the claim's `now`, the claim
  -- is not granted, whatever it had read before and whatever it reads later.
  pub claim_excluded :
      (input : ClaimInput) (tok : Ident) (r r' : EffectRecord)
      (at_read at_create at_raced at_write at_reread : Effects) (row : EffectRecord) (tok' : Ident)
      (until : Timestamp) (t' : Effects)
      → Unique key at_write
      → get key input.id at_create ≡ some r'
      → get key input.id at_write ≡ some r
      → IsHeld input.now r
      → claim hash_token input tok at_read at_create at_raced at_write at_reread
        ≢ answers (claimed row tok' until) t'
  claim_excluded input tok r r' at_read at_create at_raced at_write at_reread row tok' until t' u e'
        e h q =
      claim-excluded input tok r r' at_read at_create at_raced at_write at_reread u e' e h (rw q tt)

  -- A claim of an id that stands for another call (another tool, or another input) is an error, at
  -- whatever states the other statements meet, and writes nothing.
  claim_reused :
      (input : ClaimInput) (tok : Ident) (seen : EffectRecord)
      (at_read at_create at_raced at_write at_reread : Effects)
      → get key input.id at_read ≡ some seen
      → (seen.tool_name ≢ input.tool_name) ⊎ (seen.input_hash ≢ input.input_hash)
      → claim hash_token input tok at_read at_create at_raced at_write at_reread
        ≡ id_reused at_write
  unfolding claim
  claim_reused input tok seen at_read at_create at_raced at_write at_reread e other =
      rw (e, claim, differs)
    where
      differs : is_same_effect input seen ≡ false
      differs = ground arith

  -- When a claim may be granted: the effect is new, or it is
  -- the same work, started, with a lease that has lapsed by `now` and that may be taken over.
  pub data MayClaim (input : ClaimInput) (t : Effects) : Type 0 where
    fresh : get key input.id t ≡ none → MayClaim input t
    lapsed :
        (seen : EffectRecord) (until : Timestamp)
        → get key input.id t ≡ some seen
        → seen.tool_name ≡ input.tool_name
        → seen.input_hash ≡ input.input_hash
        → seen.status ≡ started
        → seen.lease_expires_at ≡ some until
        → until ≤ input.now
        → input.reclaim_expired ≢ some false
        → MayClaim input t

  -- The granted row is started, under the token's hash, with a lease of `ttl` from `now`.
  pub record IsGranted (input : ClaimInput) (tok : Ident) (o : Outcome) : Type 0 where
    pub row : EffectRecord
    pub table : Effects
    pub answer : o ≡ answers (claimed row tok (add_ms input.now (ttl input.lease_ttl_ms))) table
    pub stored : get key input.id table ≡ some row
    pub status : row.status ≡ started
    pub work : (row.tool_name ≡ input.tool_name) × (row.input_hash ≡ input.input_hash)
    pub hash : row.lease_token_hash ≡ some (hash_token tok)
    pub lease : row.lease_expires_at ≡ some (add_ms input.now (ttl input.lease_ttl_ms))

  abbrev over : EffectRecord → Ident → Timestamp → Timestamp → EffectRecord
  over r tok now until = record r {
    lease_token_hash = some (hash_token tok);
    lease_expires_at = some until;
    updated_at = now;
  }

  take_over_lapsed :
      (id tok : Ident) (now until : Timestamp) (t : Effects) (r : EffectRecord)
      → Unique key t
      → get key id t ≡ some r
      → has_lapsed now r ≡ true
      → ((take_over hash_token id tok now until t).0 ≡ some (over r tok now until))
        × (get key id (take_over hash_token id tok now until t).1 ≡ some (over r tok now until))
  unfolding take_over
  take_over_lapsed id tok now until t r u e h =
      (cas_returns key id _ _ t u ∙ (rw (e, h)), get-cas key id _ _ (λ r. refl) t u ∙ (rw (e, h)))

  existing_lapsed :
      (input : ClaimInput) (tok : Ident) (seen row : EffectRecord) (until : Timestamp)
      (t t' : Effects)
      → is_same_effect input seen ≡ true
      → seen.status ≡ started
      → seen.lease_expires_at ≡ some until
      → until ≤ input.now
      → input.reclaim_expired ≢ some false
      → (take_over hash_token input.id tok input.now
          (add_ms input.now (ttl input.lease_ttl_ms))
          t).0
        ≡ some row
      → claim_existing hash_token input tok seen t t'
        ≡ answers
            (claimed row tok (add_ms input.now (ttl input.lease_ttl_ms)))
            (take_over hash_token input.id tok input.now
              (add_ms input.now (ttl input.lease_ttl_ms))
              t).1
  unfolding claim_existing
  existing_lapsed input tok seen row until t t' same s l old may won = ground arith

  -- With no other process between its statements, a claim of an effect that is new, or that is the same
  -- work, started, with a lease that has lapsed by `now` and that may be taken over, is granted, and the
  -- row as answered is in the table: started, for the claimed work, under this token's hash and a lease
  -- of `lease_ttl_ms` (a minute by default) from `now`.
  claim-IsGranted :
      (input : ClaimInput) (tok : Ident) (t : Effects)
      → Unique key t
      → MayClaim input t
      → IsGranted input tok (claim hash_token input tok t t t t t)
  unfolding claim take_over
  claim-IsGranted input tok t u (fresh absent) =
      let made = create_fresh key (new_record hash_token input tok) t absent in
      record {
        row = new_record hash_token input tok;
        table = t ++ new_record hash_token input tok ∷ [];
        answer = rw (absent, claim, made);
        stored =
            get-create key input.id (new_record hash_token input tok) t _ made ∙ (ground arith);
        status = refl;
        work = (refl, refl);
        hash = refl;
        lease = refl;
      }
  claim-IsGranted input tok t u (lapsed seen until e p q s l old may) =
      let new = add_ms input.now (ttl input.lease_ttl_ms) in
      let (won, kept) = take_over_lapsed input.id tok input.now new t seen u e (ground arith) in
      record {
        row = over seen tok input.now new;
        table = (take_over hash_token input.id tok input.now new t).1;
        answer =
            rw (e, claim)
              (existing_lapsed input tok seen _ until t t (ground arith) s l old may won);
        stored = kept;
        status = s;
        work = (p, q);
        hash = refl;
        lease = refl;
      }
