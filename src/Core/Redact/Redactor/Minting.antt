-- ===== src/Core/Redact/Redactor/Minting.antt =====
-- The mapping store along a redaction (packages/foundation/core/src/redact.ts): what is resolved stays
-- resolved, and a value is known by its hash.
use busyclaw.Prelude.{
  ℕ, suc, zero, ◌+◌, ◌≡◌, refl, ◌≢◌, ◌⊎◌, ◌≤◌, inl, inr, Bool, true, Option, none, some, List, [],
  ◌∷◌, ◌++◌, if◌then◌else◌, Ident, arith, ap, sym, ◌∙◌, subst, Bool-cases, Option-cases,
}
use busyclaw.Storage.Table.{find_one}
use busyclaw.Core.Redact.Distance.{Text}
use busyclaw.Core.Redact.Mapping.{
  PiiMapping, MappingStore, has_key, has_hash, put, resolve, find_by_hash,
}
use busyclaw.Core.Redact.Mapping.Erasure.{original_of, resolve_original, has_key_iff}
use busyclaw.Core.Redact.Redactor.{mint_from, mint_placeholder}

find_one-append :
    {A : Type 0} (p : A → Bool) (xs : List A) (x : A)
    → find_one p (xs ++ x ∷ [])
      ≡ elim (find_one p xs) [ some y ↦ some y | none ↦ if p x then some x else none ]
unfolding find_one
find_one-append p [] x = refl
find_one-append p (y ∷ xs) x = ground (arith, find_one-append p xs x)

has_key_self : (m : PiiMapping) → has_key m.container m.placeholder m ≡ true
has_key_self m = (has_key_iff m.container m.placeholder m).1 (refl, refl)

-- A mapping under a new key goes to the end, and one that is stored changes nothing.
pub put_new :
    (m : PiiMapping) (ms : List PiiMapping)
    → find_one (has_key m.container m.placeholder) ms ≡ none
    → put m ms ≡ ms ++ m ∷ []
unfolding put find_one
put_new m [] e = refl
put_new m (n ∷ ms) e = ground (arith, e, put_new m ms)

pub put_same :
    (m : PiiMapping) (ms : List PiiMapping)
    → find_one (has_key m.container m.placeholder) ms ≡ some m
    → put m ms ≡ ms
unfolding put find_one
put_same m [] e = absurd (cc e)
put_same m (n ∷ ms) e = ground (arith, e, put_same m ms)

pub find_one-true :
    {A : Type 0} (p : A → Bool) (xs : List A) (x : A) → find_one p xs ≡ some x → p x ≡ true
unfolding find_one
find_one-true p [] x e = absurd (cc e)
find_one-true p (y ∷ xs) x e = ground (arith, e, find_one-true p xs x)

append_some :
    {A : Type 0} (p : A → Bool) (xs : List A) (x y : A)
    → find_one p xs ≡ some y
    → find_one p (xs ++ x ∷ []) ≡ some y
append_some p xs x y e = find_one-append p xs x ∙ rw e refl

append_none :
    {A : Type 0} (p : A → Bool) (xs : List A) (x : A)
    → find_one p xs ≡ none
    → find_one p (xs ++ x ∷ []) ≡ (if p x then some x else none)
append_none p xs x e = find_one-append p xs x ∙ rw e refl

append_cases :
    {A : Type 0} (p : A → Bool) (xs : List A) (x y : A)
    → find_one p (xs ++ x ∷ []) ≡ some y
    → (find_one p xs ≡ some y) ⊎ ((p x ≡ true) × (x ≡ y))
append_cases p xs x y e = ground (arith, e, find_one-append p xs x)

pub unresolved :
    (c : Ident) (p : Text) (s : MappingStore)
    → resolve c p s ≡ none
    → find_one (has_key c p) s.by_key ≡ none
unresolved c p s e = elim (Option-cases (find_one (has_key c p) s.by_key)) [
  | inl absent ↦ absent
  | inr (m, found) ↦ absurd (cc (sym (resolve_original c p s) ∙ e, ap original_of found))
]

-- `V` holds of the values at hand, with their kinds.
module _ (hash_of : Option (Ident → Text → Ident)) (c : Ident) (V : Ident → Text → Type 0) where
  -- The value is what the mapping with its hash in the container holds, and the mapping is the one of
  -- its key. The hash is the keyed hash of the kind and the value, which is one of the values at hand.
  pub record IsIndexed (s : MappingStore) : Type 0 where
    pub keyed :
        (x : Ident) (m : PiiMapping)
        → find_by_hash x c s ≡ some m
        → find_one (has_key m.container m.placeholder) s.by_key ≡ some m
    pub hashed :
        (x : Ident) (m : PiiMapping) (h : Ident → Text → Ident)
        → hash_of ≡ some h
        → find_by_hash x c s ≡ some m
        → x ≡ h m.kind m.original
    pub among : (x : Ident) (m : PiiMapping) → find_by_hash x c s ≡ some m → V m.kind m.original

  module _ (draw : Ident → ℕ → ℕ → Text) where
    -- For every span from the `n`th on, one of the attempts of its mint draws a placeholder that is not
    -- in use and that is drawn for no other span. The other attempts may collide.
    abbrev pub IsFresh : ℕ → MappingStore → Type 0
    IsFresh n s =
        (k : Ident) (m : ℕ)
        → n ≤ m
        → (a : ℕ) × ((a ≤ 24)
            × ((resolve c (draw k m a) s ≡ none)
                × ((j : Ident) (l b : ℕ) → l ≢ m → draw k m a ≢ draw j l b)))

    mint_from-unused :
        (kind : Ident) (n attempt rounds a : ℕ) (s : MappingStore)
        → attempt ≤ a
        → a ≤ attempt + rounds
        → resolve c (draw kind n a) s ≡ none
        → (b : ℕ) × ((mint_from hash_of draw c kind n attempt rounds s ≡ draw kind n b)
            × (resolve c (mint_from hash_of draw c kind n attempt rounds s) s ≡ none))
    unfolding mint_from
    mint_from-unused kind n attempt zero a s lo hi e =
        let same : a ≡ attempt = omega (arith, lo, hi) in
        (attempt, (refl, ap (λ i. resolve c (draw kind n i) s) (sym same) ∙ e))
    mint_from-unused kind n attempt (suc rounds) a s lo hi e =
        elim (Option-cases (resolve c (draw kind n attempt) s)) [
          | inl free ↦ rw (mint_from, free) (attempt, (refl, free))
          | inr (v, taken) ↦
              let apart : attempt ≢ a =
                λ q. absurd (cc (ap (λ i. resolve c (draw kind n i) s) q, taken, e)) in
              rw (mint_from, taken)
                (mint_from-unused kind n (suc attempt) rounds a s (omega (arith, lo, apart))
                  (omega (arith, hi)) e)
        ]

    -- The mint ends at a placeholder of the span that is not in use.
    pub mint-unused :
        (kind : Ident) (n : ℕ) (s : MappingStore)
        → IsFresh n s
        → (b : ℕ) × ((mint_placeholder hash_of draw c kind n s ≡ draw kind n b)
            × (resolve c (mint_placeholder hash_of draw c kind n s) s ≡ none))
    unfolding mint_placeholder
    mint-unused kind n s fresh =
        let (a, (most, (free, _))) = fresh kind n (omega arith) in
        mint_from-unused kind n 0 24 a s (omega arith) (omega (arith, most)) free

    -- What a placeholder that was looked up or minted leaves for the rest of the text.
    pub record IsStep (n : ℕ) (s s' : MappingStore) (placeholder value : Text) : Type 0 where
      pub resolved : resolve c placeholder s' ≡ some value
      pub grows : (p v : Text) → resolve c p s ≡ some v → resolve c p s' ≡ some v
      pub indexed : IsIndexed s'
      pub fresh : IsFresh (suc n) s'

    module _ (n : ℕ) (s s' : MappingStore) (fresh : IsFresh n s) (v : IsIndexed s) where
      pub same-IsStep :
          (m : PiiMapping)
          → s'.by_key ≡ s.by_key
          → m.container ≡ c
          → find_one (has_key m.container m.placeholder) s.by_key ≡ some m
          → IsStep n s s' m.placeholder m.original
      unfolding find_by_hash
      same-IsStep m e mine found =
          let keep : (p : Text) → resolve c p s' ≡ resolve c p s = λ p.
            resolve_original c p s'
            ∙ ap (λ ms. original_of (find_one (has_key c p) ms)) e
            ∙ sym (resolve_original c p s) in
          record {
            resolved =
                resolve_original c m.placeholder s'
                ∙ ap (λ ms. original_of (find_one (has_key c m.placeholder) ms)) e
                ∙ ap (λ d. original_of (find_one (has_key d m.placeholder) s.by_key)) (sym mine)
                ∙ ap original_of found;
            grows = λ p x r. keep p ∙ r;
            indexed = record {
              keyed = λ x m' r.
                  ap (find_one (has_key m'.container m'.placeholder)) e
                  ∙ v.keyed x m' (ap (find_one (has_hash x c)) (sym e) ∙ r);
              hashed = λ x m' h eh r. v.hashed x m' h eh (ap (find_one (has_hash x c)) (sym e) ∙ r);
              among = λ x m' r. v.among x m' (ap (find_one (has_hash x c)) (sym e) ∙ r);
            };
            fresh = λ k j le.
                let (a, (most, (free, other))) = fresh k j (omega (arith, le)) in
                (a, (most, (keep (draw k j a) ∙ free, other)));
          }

      pub new-IsStep :
          (m : PiiMapping) (b : ℕ)
          → m.container ≡ c
          → m.placeholder ≡ draw m.kind n b
          → resolve c m.placeholder s ≡ none
          → V m.kind m.original
          → ((x : Ident) (h : Ident → Text → Ident)
              → m.original_hash ≡ some x
              → hash_of ≡ some h
              → x ≡ h m.kind m.original)
          → s'.by_key ≡ s.by_key ++ m ∷ []
          → IsStep n s s' m.placeholder m.original
      unfolding find_by_hash
      new-IsStep m b mine drawn free held hash e =
          let at_key : (p : Text)
              → resolve c p s' ≡ original_of (find_one (has_key c p) (s.by_key ++ m ∷ [])) =
            λ p. resolve_original c p s' ∙ ap (λ ms. original_of (find_one (has_key c p) ms)) e in
          let unused : find_one (has_key c m.placeholder) s.by_key ≡ none =
            unresolved c m.placeholder s free in
          let own : find_one (has_key c m.placeholder) (s.by_key ++ m ∷ []) ≡ some m =
            append_none (has_key c m.placeholder) s.by_key m unused
            ∙ ground (arith, has_key_self m, mine) in
          let grow : (p x : Text)
              → resolve c p s ≡ some x
              → original_of (find_one (has_key c p) (s.by_key ++ m ∷ [])) ≡ some x =
            λ p x r.
              ground (arith, r, resolve_original c p s, find_one-append (has_key c p) s.by_key m) in
          let later : (k : Ident) (j a : ℕ)
              → resolve c (draw k j a) s ≡ none
              → draw k j a ≢ draw m.kind n b
              → find_one (has_key c (draw k j a)) (s.by_key ++ m ∷ []) ≡ none =
            λ k j a unused other.
              append_none (has_key c (draw k j a)) s.by_key m (unresolved c (draw k j a) s unused)
              ∙ elim (Bool-cases (has_key c (draw k j a) m)) [
                | inl hit ↦
                    absurd (other (sym (sym drawn ∙ ((has_key_iff c (draw k j a) m).0 hit).1)))
                | inr miss ↦ rw miss refl
              ] in
          record {
            resolved = at_key m.placeholder ∙ ap original_of own;
            grows = λ p x r. at_key p ∙ grow p x r;
            indexed = record {
              keyed = λ x m' r.
                  elim (append_cases (has_hash x c) s.by_key m m'
                    (ap (find_one (has_hash x c)) (sym e) ∙ r)) [
                      | inl old ↦
                          ap (find_one (has_key m'.container m'.placeholder)) e
                          ∙ append_some _ s.by_key m m' (v.keyed x m' old)
                      | inr (_, same) ↦
                          subst
                            (λ y. find_one (has_key y.container y.placeholder) s'.by_key ≡ some y)
                            same
                            (ap (find_one (has_key m.container m.placeholder)) e
                              ∙ ap (λ d. find_one (has_key d m.placeholder) (s.by_key ++ m ∷ []))
                                  mine
                              ∙ own)
                    ];
              hashed = λ x m' h eh r.
                  elim (append_cases (has_hash x c) s.by_key m m'
                    (ap (find_one (has_hash x c)) (sym e) ∙ r)) [
                      | inl old ↦ v.hashed x m' h eh old
                      | inr (is, same) ↦
                          subst (λ y. x ≡ h y.kind y.original) same
                            (hash x h (ground (arith, is)) eh)
                    ];
              among = λ x m' r.
                  elim (append_cases (has_hash x c) s.by_key m m'
                    (ap (find_one (has_hash x c)) (sym e) ∙ r)) [
                      | inl old ↦ v.among x m' old
                      | inr (_, same) ↦ subst (λ y. V y.kind y.original) same held
                    ];
            };
            fresh = λ k j le.
                let (a, (most, (unused, other))) = fresh k j (omega (arith, le)) in
                let apart : draw k j a ≢ draw m.kind n b = other m.kind n b (omega (arith, le)) in
                (
                  a,
                  (most, (at_key (draw k j a) ∙ ap original_of (later k j a unused apart), other)),
                );
          }
