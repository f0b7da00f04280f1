-- ===== src/Core/Redact/Redactor/Lookup.antt =====
-- One placeholder of a redaction: `lookupOrMint` (packages/foundation/core/src/redact.ts).
use busyclaw.Prelude.{
  ℕ, ◌≡◌, refl, inl, inr, Option, none, some, Ident, Timestamp, arith, sym, ◌∙◌, subst,
  Option-cases,
}
use busyclaw.Storage.Table.{find_one}
use busyclaw.Core.Redact.Distance.{Text}
use busyclaw.Core.Redact.Mapping.{PiiMapping, MappingStore, has_key, has_hash, save, find_by_hash}
use busyclaw.Core.Redact.Redactor.{
  PiiSpan, RedactionContext, mint_placeholder, hash_for, minted, known, save_existing,
  lookup_or_mint,
}
use busyclaw.Core.Redact.Redactor.Minting.{
  find_one-true, put_new, put_same, unresolved, IsIndexed, IsFresh, mint-unused, IsStep,
  same-IsStep, new-IsStep,
}

-- Of the values at hand, different ones have different hashes.
abbrev pub HasDistinctHashes : (Ident → Text → Type 0) → Option (Ident → Text → Ident) → Type 0
HasDistinctHashes V hash_of =
    (h : Ident → Text → Ident) (k j : Ident) (x y : Text)
    → V k x
    → V j y
    → hash_of ≡ some h
    → h k x ≡ h j y
    → x ≡ y

module _ (hash_of : Option (Ident → Text → Ident)) (draw : Ident → ℕ → ℕ → Text)
    (ctx : RedactionContext) (V : Ident → Text → Type 0) where
  known_true :
      (o : Option Ident) (m : PiiMapping) (s : MappingStore)
      → known hash_of draw ctx o s ≡ some m
      → (x : Ident) × (o ≡ some x)
        × (find_by_hash x ctx.container s ≡ some m)
        × (m.container ≡ ctx.container)
  unfolding find_by_hash
  known_true none m s e = absurd (cc e)
  known_true (some x) m s e =
      (x, refl, e, ground (arith, find_one-true (has_hash x ctx.container) s.by_key m e))

  hash_for-some :
      (span : PiiSpan) (x : Ident)
      → hash_for hash_of draw span ≡ some x
      → (h : Ident → Text → Ident) × (hash_of ≡ some h) × (x ≡ h span.kind span.value)
  hash_for-some span x e = elim (Option-cases hash_of) [
    | inl absent ↦ absurd (ground (arith, rw (hash_for, absent) at e))
    | inr (h, some_h) ↦ (h, some_h, ground (arith, rw (hash_for, some_h) at e))
  ]

  save_existing_by_key :
      (m : PiiMapping) (s : MappingStore)
      → find_one (has_key m.container m.placeholder) s.by_key ≡ some m
      → (save_existing hash_of draw ctx m s).by_key ≡ s.by_key
  unfolding save
  save_existing_by_key m s e = ground (arith, put_same m s.by_key e)

  module _ (n : ℕ) (s : MappingStore) (span : PiiSpan) (ts : Timestamp) where
    known-IsStep :
        HasDistinctHashes V hash_of
        → V span.kind span.value
        → IsFresh hash_of ctx.container V draw n s
        → IsIndexed hash_of ctx.container V s
        → (m : PiiMapping) → known hash_of draw ctx (hash_for hash_of draw span) s ≡ some m
        → IsStep hash_of ctx.container V draw n s
            (save_existing hash_of draw ctx m s)
            m.placeholder
            span.value
    known-IsStep apart held fresh v m e =
        let (x, o, found, mine) = known_true (hash_for hash_of draw span) m s e in
        let (h, some_h, hashed) = hash_for-some span x o in
        let value : m.original ≡ span.value =
          apart h m.kind span.kind m.original span.value (v.among x m found) held some_h
            (sym (v.hashed x m h some_h found) ∙ hashed) in
        let stored = v.keyed x m found in
        subst
          (λ w.
            IsStep hash_of ctx.container V draw n s (save_existing hash_of draw ctx m s)
              m.placeholder w)
          value
          (same-IsStep hash_of ctx.container V draw n s (save_existing hash_of draw ctx m s) fresh v
            m (save_existing_by_key m s stored) mine stored)

    minted-IsStep :
        V span.kind span.value
        → IsFresh hash_of ctx.container V draw n s
        → IsIndexed hash_of ctx.container V s
        → IsStep hash_of ctx.container V draw n s
            (save (minted hash_of draw ctx span n ts s) ctx.subject_ids s)
            (minted hash_of draw ctx span n ts s).placeholder
            span.value
    unfolding save minted mint_placeholder
    minted-IsStep held fresh v =
        let m = minted hash_of draw ctx span n ts s in
        let (b, (drawn, free)) = mint-unused hash_of ctx.container V draw span.kind n s fresh in
        new-IsStep hash_of ctx.container V draw n s (save m ctx.subject_ids s) fresh v m b refl
          drawn free held (λ x h e some_h. ground (arith, rw (minted, hash_for, some_h) at e))
          (put_new m s.by_key (unresolved ctx.container m.placeholder s free))

    -- The placeholder of a value resolves to it, and no placeholder loses its value.
    pub lookup-IsStep :
        HasDistinctHashes V hash_of
        → V span.kind span.value
        → IsFresh hash_of ctx.container V draw n s
        → IsIndexed hash_of ctx.container V s
        → IsStep hash_of ctx.container V draw n s
            (lookup_or_mint hash_of draw ctx span n ts s).1
            (lookup_or_mint hash_of draw ctx span n ts s).0
            span.value
    unfolding lookup_or_mint
    lookup-IsStep apart held fresh v =
        elim (Option-cases (known hash_of draw ctx (hash_for hash_of draw span) s)) [
          | inl absent ↦ rw (lookup_or_mint, absent) (minted-IsStep held fresh v)
          | inr (m, found) ↦ rw (lookup_or_mint, found) (known-IsStep apart held fresh v m found)
        ]
