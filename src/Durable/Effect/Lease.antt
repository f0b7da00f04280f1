-- ===== src/Durable/Effect/Lease.antt =====
-- The lease on an effect: who may write it, and that it is settled once.
use busyclaw.Prelude.{
  ℕ, ◌<◌, ◌≡◌, refl, ◌≢◌, true, false, Option, none, some, List, [], ◌∷◌, arith, All, ◌∙◌, ap,
  Ident, Timestamp,
}
use busyclaw.Storage.Table.{get}
use busyclaw.Storage.Table.Laws.{Unique, cas_returns, cas_won, cas-Unique}
use busyclaw.Storage.Machine.{run, run_keeps, run-Unique}
use busyclaw.Durable.Effect.{
  EffectStatus, started, EffectRecord, Effects, key, is_active, heartbeat, complete, fail,
}
use busyclaw.Durable.Effect.Lifecycle.{
  Call, creates, takes, beats, completes, fails, after, machine,
}

-- What no write changes: whose work the effect is, and which call of which tool.
pub record IsSameWork (r r' : EffectRecord) : Type 0 where
  pub id : r'.id ≡ r.id
  pub scope : r'.scope ≡ r.scope
  pub scope_id : r'.scope_id ≡ r.scope_id
  pub claw_id : r'.claw_id ≡ r.claw_id
  pub principal : r'.principal ≡ r.principal
  pub tool_name : r'.tool_name ≡ r.tool_name
  pub input_hash : r'.input_hash ≡ r.input_hash
  pub compensation : r'.compensation ≡ r.compensation
  pub created_at : r'.created_at ≡ r.created_at

-- Once an effect is no longer started it is frozen.
pub record IsLater (r r' : EffectRecord) : Type 0 where
  pub work : IsSameWork r r'
  pub open work use *
  pub settled : r.status ≢ started → r' ≡ r

module _ (hash_token : Ident → Ident) where
  after-IsLater : (c : Call) (r s : EffectRecord) → IsLater r s → IsLater r (after hash_token c s)
  unfolding after
  after-IsLater (creates x) r s h = h
  after-IsLater (takes id tok now until) r s h = ground (arith, h.settled)
  after-IsLater (beats id tok now ms) r s h = ground (arith, h.settled)
  after-IsLater (completes id tok now output) r s h = ground (arith, h.settled)
  after-IsLater (fails id tok now error) r s h = ground (arith, h.settled)

  -- Whatever history of writes by any processes follows, a stored effect stays stored; the work it
  -- stands for (tool, input, compensation, anchors) never changes; and once it is completed or failed
  -- no write changes it.
  effect_kept :
      (i : Ident) (cs : List Call) (t : Effects) (r : EffectRecord)
      → Unique key t
      → get key i t ≡ some r
      → (r' : EffectRecord) × (get key i (run (machine hash_token) t cs) ≡ some r') × IsLater r r'
  effect_kept i cs t r u e =
      run_keeps (machine hash_token) (IsLater r) (λ _. Unit {0}) (λ c s _ h. after-IsLater c r s h)
        i cs t r u e (all_unit cs) (ground arith)
    where
      all_unit : (cs : List Call) → All (λ _. Unit {0}) cs
      all_unit [] = tt
      all_unit (c ∷ cs) = (tt, all_unit cs)

  not-active :
      (h : Ident) (now : Timestamp) (r : EffectRecord)
      → r.status ≢ started
      → is_active h now r ≡ false
  not-active h now r s = ground arith

  -- An effect is settled once. After a `complete` that was accepted, and any history of writes, every
  -- further `complete`, `fail` and `heartbeat` is refused under every lease, and the row is the one
  -- that was answered.
  effect_settled :
      (i tok : Ident) (now : Timestamp) (output : Option Ident) (t : Effects) (done : EffectRecord)
      (cs : List Call) (tok' : Ident) (now' : Timestamp) (output' : Option Ident) (error : Ident)
      (ms : Option ℕ)
      → Unique key t
      → (complete hash_token i tok now output t).0 ≡ some done
      → let t' = run (machine hash_token) (complete hash_token i tok now output t).1 cs in
        (get key i t' ≡ some done)
        × (done.status ≡ EffectStatus.completed)
        × ((complete hash_token i tok' now' output' t').0 ≡ none)
        × ((fail hash_token i tok' now' error t').0 ≡ none)
        × ((heartbeat hash_token i tok' now' ms t').0 ≡ none)
  unfolding complete fail heartbeat
  effect_settled i tok now output t done cs tok' now' output' error ms u won =
      let guard = is_active (hash_token tok) now in
      let (r, _, _, same, found) = cas_won key i guard _ (λ r. refl) t done u won in
      let u' = cas-Unique key i guard _ (λ r. refl) t u in
      let (r', there, later) = effect_kept i cs _ done u' found in
      let final : done.status ≡ EffectStatus.completed = ground (arith, same) in
      let same' : r' ≡ done = later.settled (ground (arith, final)) in
      let there' = there ∙ ap some same' in
      let u'' = run-Unique (machine hash_token) _ cs u' in
      let idle = not-active (hash_token tok') now' done (ground (arith, final)) in
      (
        there',
        final,
        cas_returns key i _ _ _ u'' ∙ (rw (there', idle)),
        cas_returns key i _ _ _ u'' ∙ (rw (there', idle)),
        cas_returns key i _ _ _ u'' ∙ (rw (there', idle)),
      )

  -- An attempt to take an effect over that comes while the lease `until` lasts, or another write that is
  -- not under the hash `h`.
  abbrev pub IsForeign : Ident → Timestamp → Call → Type 0
  IsForeign h until (creates r) = Unit
  IsForeign h until (takes id tok now e) = now < until
  IsForeign h until (beats id tok now ms) = hash_token tok ≢ h
  IsForeign h until (completes id tok now output) = hash_token tok ≢ h
  IsForeign h until (fails id tok now error) = hash_token tok ≢ h

  after-foreign :
      (r : EffectRecord) (h : Ident) (until : Timestamp)
      → r.lease_token_hash ≡ some h
      → r.lease_expires_at ≡ some until
      → (c : Call) (s : EffectRecord) → IsForeign h until c
      → s ≡ r
      → after hash_token c s ≡ r
  unfolding after
  after-foreign r h until p q (creates x) s f e = e
  after-foreign r h until p q (takes id tok now e') s f e = rw e (ground arith)
  after-foreign r h until p q (beats id tok now ms) s f e = rw e (ground arith)
  after-foreign r h until p q (completes id tok now output) s f e = rw e (ground arith)
  after-foreign r h until p q (fails id tok now error) s f e = rw e (ground arith)

  -- The lease excludes everybody else while it lasts. If an effect is started under the lease of
  -- `tok` until `until`, then after any history of writes in which every attempt to take an effect
  -- over comes before `until` and every heartbeat, completion and failure is under another token than
  -- `tok`, the row is unchanged, and the holder's `complete` before `until` is accepted. Ids are distinct.
  pub lease_protects :
      (i tok : Ident) (until now : Timestamp) (output : Option Ident) (cs : List Call) (t : Effects)
      (r : EffectRecord)
      → Unique key t
      → get key i t ≡ some r
      → r.status ≡ started
      → r.lease_token_hash ≡ some (hash_token tok)
      → r.lease_expires_at ≡ some until
      → All (IsForeign (hash_token tok) until) cs
      → now < until
      → let t' = run (machine hash_token) t cs in
        (get key i t' ≡ some r)
        × ((complete hash_token i tok now output t').0
            ≡ some (record r {
              status = EffectStatus.completed;
              lease_token_hash = none;
              lease_expires_at = none;
              updated_at = now;
              output = elim output [ none ↦ r.output | some v ↦ some v ];
            }))
  unfolding complete
  lease_protects i tok until now output cs t r u e s h l foreign before =
      let (r', there, same) =
        run_keeps (machine hash_token) (λ x. x ≡ r) (IsForeign (hash_token tok) until)
          (after-foreign r (hash_token tok) until h l) i cs t r u e foreign refl in
      let there' = there ∙ ap some same in
      let active : is_active (hash_token tok) now r ≡ true = ground arith in
      (
        there',
        cas_returns key i _ _ _ (run-Unique (machine hash_token) t cs u) ∙ (rw (there', active)),
      )
