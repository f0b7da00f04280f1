-- ===== src/Core/Audit/Laws.antt =====
-- What the chain shows: a log that was appended verifies, and a log that verifies is one that was
-- appended, so an edit, a deletion, an insertion or a new order shows up.
use busyclaw.Prelude.{
  ℕ, ◌+◌, ◌≡◌, refl, ◌↔◌, some, List, [], ◌∷◌, ◌++◌, length, Ident, arith, ap, sym, ◌∙◌, subst,
  append-nil, append_assoc, length-append,
}
use busyclaw.Core.Audit.{
  Snapshot, AuditEntry, AuditInput, AuditChainProblem, verified, report, genesis, last, hash_of,
  append, append_all, AnchorProof, head_of, check_entry, check_chain, check_anchors,
  verify_audit_chain, next_entry,
}

module _ (hash_entry : Snapshot → Ident) where
  -- A log that chains from a previous hash and a number.
  abbrev pub IsChain : List AuditEntry → Ident → ℕ → Type 0
  IsChain [] expected index = Unit
  IsChain (e ∷ es) expected index =
      (e.snapshot.prev_hash ≡ expected)
      × (e.hash ≡ hash_entry e.snapshot)
      × (e.snapshot.seq ≡ index)
      × IsChain es e.hash (index + 1)

  check_entry_iff :
      (e : AuditEntry) (expected : Ident) (index : ℕ) (ps : List AuditChainProblem)
      → (check_entry hash_entry e expected index ++ ps ≡ []) ↔ (
          (e.snapshot.prev_hash ≡ expected)
          × (e.hash ≡ hash_entry e.snapshot)
          × (e.snapshot.seq ≡ index)
          × (ps ≡ []))
  check_entry_iff e expected index ps = ground arith

  check_chain_sound :
      (es : List AuditEntry) (expected : Ident) (index : ℕ)
      → check_chain hash_entry es expected index ≡ []
      → IsChain es expected index
  unfolding check_chain
  check_chain_sound [] expected index p = tt
  check_chain_sound (e ∷ es) expected index p =
      let (link, hash, seq, rest) =
        (check_entry_iff e expected index (check_chain hash_entry es e.hash (index + 1))).0 p in
      (link, hash, seq, check_chain_sound es e.hash (index + 1) rest)

  check_chain_complete :
      (es : List AuditEntry) (expected : Ident) (index : ℕ)
      → IsChain es expected index
      → check_chain hash_entry es expected index ≡ []
  unfolding check_chain
  check_chain_complete [] expected index c = refl
  check_chain_complete (e ∷ es) expected index (link, hash, seq, c) =
      (check_entry_iff e expected index _).1
        (link, hash, seq, check_chain_complete es e.hash (index + 1) c)

  report_none : (n : ℕ) (ps : List AuditChainProblem) (m : ℕ) → report n ps ≡ verified m → ps ≡ []
  report_none n [] m p = refl
  report_none n (x ∷ ps) m p = absurd (cc p)

  append_none : (ps qs : List AuditChainProblem) → ps ++ qs ≡ [] → (ps ≡ []) × (qs ≡ [])
  append_none [] qs p = (refl, p)
  append_none (x ∷ ps) qs p = absurd (cc p)

  -- A log that verifies is a chain from the genesis, and its anchors have no problem.
  pub verified-IsChain :
      (es : List AuditEntry) (anchors : List AnchorProof) (m : ℕ)
      → verify_audit_chain hash_entry es anchors ≡ verified m
      → IsChain es genesis 0 × (check_anchors es anchors ≡ [])
  unfolding verify_audit_chain
  verified-IsChain es anchors m p =
      let (chain, rest) =
        append_none (check_chain hash_entry es genesis 0) (check_anchors es anchors)
          (report_none (length es) _ m p) in
      (check_chain_sound es genesis 0 chain, rest)

  -- What the sink writes for inputs, from a previous hash and a number.
  abbrev pub written : List AuditInput → Ident → ℕ → List AuditEntry
  written [] expected index = []
  written (input ∷ inputs) expected index =
      let s : Snapshot = record {
        ts = input.ts;
        content = input.content;
        seq = index;
        prev_hash = expected;
      } in
      record { snapshot = s; hash = hash_entry s } ∷ written inputs (hash_entry s) (index + 1)

  abbrev pub inputs_of : List AuditEntry → List AuditInput
  inputs_of [] = []
  inputs_of (e ∷ es) = record { ts = e.snapshot.ts; content = e.snapshot.content } ∷ inputs_of es

  last-append : (log : List AuditEntry) (e : AuditEntry) → last (log ++ e ∷ []) ≡ some e
  last-append [] e = refl
  last-append (f ∷ []) e = refl
  last-append (f ∷ g ∷ log) e = last-append (g ∷ log) e

  append_all-written :
      (inputs : List AuditInput) (log : List AuditEntry)
      → append_all hash_entry inputs log ≡ log ++ written inputs (hash_of (last log)) (length log)
  unfolding append_all append
  append_all-written [] log = sym (append-nil log)
  append_all-written (input ∷ inputs) log =
      let e = next_entry hash_entry log input in
      append_all-written inputs (log ++ e ∷ [])
      ∙ (rw (last-append log e, length-append log (e ∷ []))
          (append_assoc log (e ∷ []) (written inputs e.hash (length log + 1))))

  written-IsChain :
      (inputs : List AuditInput) (expected : Ident) (index : ℕ)
      → IsChain (written inputs expected index) expected index
  written-IsChain [] expected index = tt
  written-IsChain (input ∷ inputs) expected index =
      (refl, refl, refl, written-IsChain inputs _ (index + 1))

  chain_written :
      (es : List AuditEntry) (expected : Ident) (index : ℕ)
      → IsChain es expected index
      → es ≡ written (inputs_of es) expected index
  chain_written [] expected index c = refl
  chain_written (e ∷ es) expected index (link, hash, seq, c) =
      let s : Snapshot = record {
        ts = e.snapshot.ts;
        content = e.snapshot.content;
        seq = index;
        prev_hash = expected;
      } in
      let same : e.snapshot ≡ s = ground (arith, link, seq) in
      let own : e.hash ≡ hash_entry s = hash ∙ ap hash_entry same in
      let rest =
        chain_written es e.hash (index + 1) c
        ∙ ap (λ h. written (inputs_of es) h (index + 1)) own in
      ground (arith, same, own, rest)

  -- A log without anchors verifies exactly when it is the log that the sink writes for its own contents,
  -- in its order, from the start: every log that was only appended to verifies, and nothing else does.
  pub verifies_iff :
      (es : List AuditEntry)
      → (verify_audit_chain hash_entry es [] ≡ verified (length es))
        ↔ (es ≡ append_all hash_entry (inputs_of es) [])
  unfolding verify_audit_chain
  verifies_iff es = (
    λ p.
        chain_written es genesis 0 (verified-IsChain es [] _ p).0
        ∙ sym (append_all-written (inputs_of es) []),
    λ p.
        let chain =
          subst (λ x. IsChain x genesis 0) (sym (p ∙ append_all-written (inputs_of es) []))
            (written-IsChain (inputs_of es) genesis 0) in
        rw (check_chain_complete es genesis 0 chain) refl,
  )

  -- The hash that a chain ends on.
  abbrev tip : List AuditEntry → Ident → Ident
  tip [] x = x
  tip (e ∷ es) x = tip es e.hash

  tip-last : (es : List AuditEntry) → tip es genesis ≡ hash_of (last es)
  tip-last [] = refl
  tip-last (e ∷ []) = refl
  tip-last (e ∷ f ∷ es) = tip-last (f ∷ es)

  -- No two different records at the same place of the two logs have the same hash.
  abbrev pub NoCollision : List AuditEntry → List AuditEntry → Type 0
  NoCollision [] fs = Unit
  NoCollision (e ∷ es) [] = Unit
  NoCollision (e ∷ es) (f ∷ fs) =
      (hash_entry e.snapshot ≡ hash_entry f.snapshot → e.snapshot ≡ f.snapshot) × NoCollision es fs

  pins :
      (es fs : List AuditEntry) (x y : Ident) (i : ℕ)
      → NoCollision es fs
      → length es ≡ length fs
      → IsChain es x i
      → IsChain fs y i
      → tip es x ≡ tip fs y
      → (es ≡ fs) × (x ≡ y)
  pins [] [] x y i n l c d t = (refl, t)
  pins [] (f ∷ fs) x y i n l c d t = absurd (omega (arith, l))
  pins (e ∷ es) [] x y i n l c d t = absurd (omega (arith, l))
  pins (e ∷ es) (f ∷ fs) x y i n l c d t =
      let (rest, hash) = pins es fs e.hash f.hash (i + 1) n.1 (omega (arith, l)) c.3 d.3 t in
      let same = n.0 (sym c.1 ∙ hash ∙ d.1) in
      (ground (arith, rest, hash, same), sym c.0 ∙ ap (λ (s : Snapshot). s.prev_hash) same ∙ d.0)

  -- A published head pins the whole log: two logs that verify and have the same head (the hash of the
  -- last record and the number of records) are the same log, unless two different records at the same
  -- place have the same hash.
  pub head_pins :
      (es fs : List AuditEntry) (m n : ℕ)
      → NoCollision es fs
      → verify_audit_chain hash_entry es [] ≡ verified m
      → verify_audit_chain hash_entry fs [] ≡ verified n
      → head_of es ≡ head_of fs
      → es ≡ fs
  unfolding head_of
  head_pins es fs m n free p q h =
      let (count, hash) = heads es fs h in
      (pins es fs genesis genesis 0 free count (verified-IsChain es [] m p).0
        (verified-IsChain fs [] n q).0 (tip-last es ∙ hash ∙ sym (tip-last fs))).0
    where
      last_cons :
          (x : AuditEntry) (xs : List AuditEntry) → (e : AuditEntry) × (last (x ∷ xs) ≡ some e)
      last_cons x [] = (x, refl)
      last_cons x (y ∷ xs) = last_cons y xs

      heads :
          (xs ys : List AuditEntry)
          → head_of xs ≡ head_of ys
          → (length xs ≡ length ys) × (hash_of (last xs) ≡ hash_of (last ys))
      heads [] [] h = (refl, refl)
      heads [] (y ∷ ys) h = let (e, p) = last_cons y ys in absurd (ground (arith, p, h))
      heads (x ∷ xs) [] h = let (e, p) = last_cons x xs in absurd (ground (arith, p, h))
      heads (x ∷ xs) (y ∷ ys) h =
          let (e, p) = last_cons x xs in
          let (f, q) = last_cons y ys in (ground (arith, p, q, h), ground (arith, p, q, h))
