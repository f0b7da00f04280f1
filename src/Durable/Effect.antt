-- ===== src/Durable/Effect.antt =====
-- packages/storage/durable/src/effect.ts: the effect store, a durable record of each side effect with
-- a lease on its execution. The lock of `withLock` orders the claims of one process; other processes
-- may write between two statements of a claim, so `claim` takes the table as it stands at each of
-- them. JSON payloads are numbers, and `hash_token` (SHA-256, a third-party function) is a parameter.
pub mod Lifecycle
pub mod Lease
pub mod Claim
mod Tests
use busyclaw.Prelude.{
  ℕ, Bool, true, false, ◌&&◌, not, Option, none, some, List, ◌==◌, ltb, leb, if◌then◌else◌, Ident,
  Timestamp, add_ms, opt_eq,
}
use busyclaw.Storage.Table
use busyclaw.Storage.Table.{get, cas}

pub data EffectStatus : Type 0 where
  started completed failed compensating compensated compensation_failed : EffectStatus

abbrev pub is_started : EffectStatus → Bool
is_started started = true
is_started _ = false

abbrev pub is_completed : EffectStatus → Bool
is_completed completed = true
is_completed _ = false

pub record EffectRecord : Type 0 where
  pub id : Ident
  pub status : EffectStatus
  pub principal : Option Ident
  pub claw_id : Option Ident
  pub scope : Ident
  pub scope_id : Ident
  pub tool_name : Ident
  pub input_hash : Ident
  pub output : Option Ident
  pub error : Option Ident
  pub compensation : Option Ident
  pub compensation_effect_id : Option Ident
  pub lease_expires_at : Option Timestamp
  pub created_at : Timestamp
  pub updated_at : Timestamp
  pub lease_token_hash : Option Ident

abbrev pub Effects : Type 0
Effects = List EffectRecord

abbrev pub key : EffectRecord → Ident
key r = r.id

abbrev pub default_effect_lease_ttl_ms : ℕ
default_effect_lease_ttl_ms = 60_000

pub record EffectAnchors : Type 0 where
  pub scope : Ident
  pub scope_id : Ident
  pub claw_id : Option Ident
  pub principal : Option Ident

pub record ClaimInput : Type 0 where
  pub id : Ident
  pub tool_name : Ident
  pub input_hash : Ident
  pub anchors : EffectAnchors
  pub compensation : Option Ident
  pub now : Timestamp
  pub lease_ttl_ms : Option ℕ
  pub reclaim_expired : Option Bool

pub data EffectClaim : Type 0 where
  claimed : (row : EffectRecord) (lease_token : Ident) (lease_expires_at : Timestamp) → EffectClaim
  completed : EffectRecord → EffectClaim
  in_progress : EffectRecord → Option Timestamp → EffectClaim
  uncertain : EffectRecord → Option Timestamp → EffectClaim
  unavailable : EffectRecord → EffectClaim

-- The answer with the table after it, or the error that is thrown.
pub data Outcome : Type 0 where
  answers : EffectClaim → Effects → Outcome
  id_reused : Effects → Outcome
  conflict : Effects → Outcome

abbrev pub ttl : Option ℕ → ℕ
ttl none = default_effect_lease_ttl_ms
ttl (some ms) = ms

-- `assertSameEffect`.
abbrev pub is_same_effect : ClaimInput → EffectRecord → Bool
is_same_effect input r = r.tool_name == input.tool_name && r.input_hash == input.input_hash

abbrev pub is_after : Option Timestamp → Timestamp → Bool
is_after none now = false
is_after (some at) now = ltb now at

abbrev pub is_not_after : Option Timestamp → Timestamp → Bool
is_not_after none now = false
is_not_after (some at) now = leb at now

abbrev unavailable_claim : EffectRecord → EffectClaim
unavailable_claim r =
    if is_completed r.status
    then EffectClaim.completed r
    else if is_started r.status
    then in_progress r r.lease_expires_at
    else unavailable r

-- The `where` of the write that takes over a lapsed lease.
abbrev pub has_lapsed : Timestamp → EffectRecord → Bool
has_lapsed now r = is_started r.status && is_not_after r.lease_expires_at now

-- The `where` of `heartbeat`, `complete` and `fail`.
abbrev pub is_active : Ident → Timestamp → EffectRecord → Bool
is_active hash now r =
    is_started r.status
    && (opt_eq r.lease_token_hash (some hash) && is_after r.lease_expires_at now)

module _ (hash_token : Ident → Ident) where
  unfoldable pub take_over :
      Ident → Ident → Timestamp → Timestamp → Effects → Option EffectRecord × Effects
  take_over id lease_token now until t =
      cas key id (has_lapsed now)
        (λ r. record r {
          lease_token_hash = some (hash_token lease_token);
          lease_expires_at = some until;
          updated_at = now;
        })
        t

  -- `claimExisting`: the record as read, the table at the write, and the table at the last read.
  unfoldable pub claim_existing :
      ClaimInput → Ident → EffectRecord → (at_write at_reread : Effects) → Outcome
  unfolding take_over
  claim_existing input lease_token seen at_write at_reread =
      let until = add_ms input.now (ttl input.lease_ttl_ms) in
      let written = take_over input.id lease_token input.now until at_write in
      let lost : Outcome = elim (get key input.id at_reread) [
        | none ↦ answers (unavailable seen) at_reread
        | some latest ↦
            if is_same_effect input latest
            then answers (unavailable_claim latest) at_reread
            else id_reused at_reread
      ] in
      if not (is_same_effect input seen)
      then id_reused at_write
      else if is_completed seen.status
      then answers (EffectClaim.completed seen) at_write
      else if not (is_started seen.status)
      then answers (unavailable seen) at_write
      else if is_after seen.lease_expires_at input.now
      then answers (in_progress seen seen.lease_expires_at) at_write
      else elim seen.lease_expires_at [
        | none ↦ answers (in_progress seen none) at_write
        | some at ↦
            if elim input.reclaim_expired [ none ↦ false | some b ↦ not b ]
            then answers (uncertain seen (some at)) at_write
            else elim written.0 [
              | none ↦ lost
              | some row ↦ answers (claimed row lease_token until) written.1
            ]
      ]

  abbrev pub new_record : ClaimInput → Ident → EffectRecord
  new_record input lease_token = record {
    id = input.id;
    status = started;
    principal = input.anchors.principal;
    claw_id = input.anchors.claw_id;
    scope = input.anchors.scope;
    scope_id = input.anchors.scope_id;
    tool_name = input.tool_name;
    input_hash = input.input_hash;
    output = none;
    error = none;
    compensation = input.compensation;
    compensation_effect_id = none;
    lease_expires_at = some (add_ms input.now (ttl input.lease_ttl_ms));
    created_at = input.now;
    updated_at = input.now;
    lease_token_hash = some (hash_token lease_token);
  }

  unfoldable pub claim :
      ClaimInput → Ident → (at_read at_create at_raced at_write at_reread : Effects) → Outcome
  unfolding claim_existing
  claim input lease_token at_read at_create at_raced at_write at_reread =
      elim (get key input.id at_read) [
        | some seen ↦ claim_existing input lease_token seen at_write at_reread
        | none ↦ elim (Table.create key (new_record input lease_token) at_create) [
          | some t ↦
              answers
                (claimed (new_record input lease_token) lease_token
                  (add_ms input.now (ttl input.lease_ttl_ms)))
                t
          | none ↦ elim (get key input.id at_raced) [
            | none ↦ conflict at_raced
            | some raced ↦ claim_existing input lease_token raced at_write at_reread
          ]
        ]
      ]

  unfoldable pub heartbeat :
      Ident → Ident → Timestamp → Option ℕ → Effects → Option EffectRecord × Effects
  heartbeat id lease_token now ms t =
      cas key id (is_active (hash_token lease_token) now)
        (λ r. record r { lease_expires_at = some (add_ms now (ttl ms)); updated_at = now }) t

  -- `none` is the error "effect lease is not active".
  unfoldable pub complete :
      Ident → Ident → Timestamp → Option Ident → Effects → Option EffectRecord × Effects
  complete id lease_token now output t =
      cas key id (is_active (hash_token lease_token) now)
        (λ r. record r {
          status = completed;
          lease_token_hash = none;
          lease_expires_at = none;
          updated_at = now;
          output = elim output [ none ↦ r.output | some v ↦ some v ];
        })
        t

  unfoldable pub fail : Ident → Ident → Timestamp → Ident → Effects → Option EffectRecord × Effects
  fail id lease_token now error t =
      cas key id (is_active (hash_token lease_token) now)
        (λ r. record r {
          status = failed;
          error = some error;
          lease_token_hash = none;
          lease_expires_at = none;
          updated_at = now;
        })
        t
