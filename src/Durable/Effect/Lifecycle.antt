-- ===== src/Durable/Effect/Lifecycle.antt =====
-- One effect under any history of writes by any number of processes.
use busyclaw.Prelude.{
  ℕ, ◌≡◌, refl, ◌&&◌, Option, none, some, ◌==◌, if◌then◌else◌, ◌∙◌, ap, Ident, Timestamp, add_ms,
}
use busyclaw.Storage.Table
use busyclaw.Storage.Table.{get, or_keep}
use busyclaw.Storage.Table.Laws.{
  Unique, cas-Unique, get-cas_at, map_row, get-or_keep-create, or_keep-create-Unique,
}
use busyclaw.Storage.Machine.{Machine}
use busyclaw.Durable.Effect.{
  EffectStatus, failed, EffectRecord, Effects, key, ttl, has_lapsed, is_active, take_over,
  heartbeat, complete, fail,
}

-- One write that reaches the table. A claim writes by `takes` (over a lapsed lease) or `creates`.
pub data Call : Type 0 where
  creates : EffectRecord → Call
  takes : (id lease_token : Ident) (now until : Timestamp) → Call
  beats : (id lease_token : Ident) (now : Timestamp) (ms : Option ℕ) → Call
  completes : (id lease_token : Ident) (now : Timestamp) (output : Option Ident) → Call
  fails : (id lease_token : Ident) (now : Timestamp) (error : Ident) → Call

module _ (hash_token : Ident → Ident) where
  unfoldable pub step : Effects → Call → Effects
  step t (creates r) = or_keep t (Table.create key r t)
  step t (takes id tok now until) = (take_over hash_token id tok now until t).1
  step t (beats id tok now ms) = (heartbeat hash_token id tok now ms t).1
  step t (completes id tok now output) = (complete hash_token id tok now output t).1
  step t (fails id tok now error) = (fail hash_token id tok now error t).1

  -- What a write does to the row that it finds.
  unfoldable pub after : Call → EffectRecord → EffectRecord
  after (creates s) r = r
  after (takes id tok now until) r =
      if r.id == id && has_lapsed now r
      then record r {
        lease_token_hash = some (hash_token tok);
        lease_expires_at = some until;
        updated_at = now;
      }
      else r
  after (beats id tok now ms) r =
      if r.id == id && is_active (hash_token tok) now r
      then record r { lease_expires_at = some (add_ms now (ttl ms)); updated_at = now }
      else r
  after (completes id tok now output) r =
      if r.id == id && is_active (hash_token tok) now r
      then record r {
        status = EffectStatus.completed;
        lease_token_hash = none;
        lease_expires_at = none;
        updated_at = now;
        output = elim output [ none ↦ r.output | some v ↦ some v ];
      }
      else r
  after (fails id tok now error) r =
      if r.id == id && is_active (hash_token tok) now r
      then record r {
        status = failed;
        error = some error;
        lease_token_hash = none;
        lease_expires_at = none;
        updated_at = now;
      }
      else r

  pub step-Unique : (t : Effects) (c : Call) → Unique key t → Unique key (step t c)
  unfolding step take_over heartbeat complete fail
  step-Unique t (creates r) u = or_keep-create-Unique key r t u
  step-Unique t (takes id tok now until) u = cas-Unique key id _ _ (λ r. refl) t u
  step-Unique t (beats id tok now ms) u = cas-Unique key id _ _ (λ r. refl) t u
  step-Unique t (completes id tok now output) u = cas-Unique key id _ _ (λ r. refl) t u
  step-Unique t (fails id tok now error) u = cas-Unique key id _ _ (λ r. refl) t u

  pub get-step :
      (i : Ident) (t : Effects) (c : Call) (r : EffectRecord)
      → Unique key t
      → get key i t ≡ some r
      → get key i (step t c) ≡ some (after c r)
  unfolding step after take_over heartbeat complete fail
  get-step i t (creates s) r u e = get-or_keep-create key i s r t e
  get-step i t (takes id tok now until) r u e =
      get-cas_at key id _ _ (λ r. refl) i t u ∙ ap (map_row key _) e
  get-step i t (beats id tok now ms) r u e =
      get-cas_at key id _ _ (λ r. refl) i t u ∙ ap (map_row key _) e
  get-step i t (completes id tok now output) r u e =
      get-cas_at key id _ _ (λ r. refl) i t u ∙ ap (map_row key _) e
  get-step i t (fails id tok now error) r u e =
      get-cas_at key id _ _ (λ r. refl) i t u ∙ ap (map_row key _) e

  abbrev pub machine : Machine EffectRecord Call
  machine = record { key = key; step = step; after = after; unique = step-Unique; row = get-step }
