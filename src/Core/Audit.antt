-- ===== src/Core/Audit.antt =====
-- The hash-chained audit log: packages/foundation/core/src/audit.ts, `append`, `headOf`,
-- `verifyAuditChain`. The fields of a record that the chain does not look into are one number; the
-- hash of a record's serialised fields (SHA-256 of its JSON, third-party functions) is a parameter.
pub mod Laws
use busyclaw.Prelude.{
  ℕ, ◌+◌, Bool, true, false, Option, none, some, List, [], ◌∷◌, ◌++◌, ◌==◌, if◌then◌else◌, length,
  Ident, Timestamp,
}

-- An `AuditEntry`, less its hash: what the hash is taken of. `content` is the rest of the record.
pub record Snapshot : Type 0 where
  pub ts : Timestamp
  pub content : Ident
  pub seq : ℕ
  pub prev_hash : Ident

pub record AuditEntry : Type 0 where
  pub snapshot : Snapshot
  pub hash : Ident

-- `AuditInput`, as its validation leaves it.
pub record AuditInput : Type 0 where
  pub ts : Timestamp
  pub content : Ident

pub record AuditHead : Type 0 where
  pub seq : ℕ
  pub hash : Ident
  pub ts : Timestamp
  pub count : ℕ

pub data AuditChainProblem : Type 0 where
  broken_link hash_mismatch : (seq : ℕ) (expected actual : Ident) → AuditChainProblem
  seq_gap : (seq expected : ℕ) → AuditChainProblem
  anchor_missing : (seq : ℕ) (anchored : Ident) → AuditChainProblem
  anchor_mismatch : (seq : ℕ) (expected actual : Ident) → AuditChainProblem
  anchor_invalid : AuditChainProblem

-- An anchor as it is read back: a head, or a row that does not parse.
pub data AnchorProof : Type 0 where
  anchored : AuditHead → AnchorProof
  corrupt : AnchorProof

pub data AuditChainVerification : Type 0 where
  verified : (entries : ℕ) → AuditChainVerification
  problems_found : (entries : ℕ) → List AuditChainProblem → AuditChainVerification

abbrev pub genesis : Ident
genesis = 0

-- `log.at(-1)`.
abbrev pub last : List AuditEntry → Option AuditEntry
last [] = none
last (e ∷ []) = some e
last (e ∷ f ∷ es) = last (f ∷ es)

abbrev pub hash_of : Option AuditEntry → Ident
hash_of none = genesis
hash_of (some e) = e.hash

unfoldable pub head_of : List AuditEntry → Option AuditHead
head_of entries = elim (last entries) [
  | none ↦ none
  | some e ↦
      some
        (record { seq = e.snapshot.seq; hash = e.hash; ts = e.snapshot.ts; count = length entries })
]

-- `hashBySeq`: the last entry of a number gives its hash.
abbrev pub hash_by_seq : ℕ → List AuditEntry → Option Ident
hash_by_seq seq [] = none
hash_by_seq seq (e ∷ es) = elim (hash_by_seq seq es) [
  | some h ↦ some h
  | none ↦ if e.snapshot.seq == seq then some e.hash else none
]

abbrev pub check_anchor : List AuditEntry → AnchorProof → List AuditChainProblem
check_anchor entries corrupt = anchor_invalid ∷ []
check_anchor entries (anchored head) = elim (hash_by_seq head.seq entries) [
  | none ↦ anchor_missing head.seq head.hash ∷ []
  | some present ↦
      if present == head.hash then [] else anchor_mismatch head.seq head.hash present ∷ []
]

abbrev pub check_anchors : List AuditEntry → List AnchorProof → List AuditChainProblem
check_anchors entries [] = []
check_anchors entries (a ∷ anchors) = check_anchor entries a ++ check_anchors entries anchors

abbrev pub report : ℕ → List AuditChainProblem → AuditChainVerification
report n [] = verified n
report n (p ∷ ps) = problems_found n (p ∷ ps)

module _ (hash_entry : Snapshot → Ident) where
  abbrev pub next_entry : List AuditEntry → AuditInput → AuditEntry
  next_entry log input =
      let snapshot : Snapshot = record {
        ts = input.ts;
        content = input.content;
        seq = length log;
        prev_hash = hash_of (last log);
      } in
      record { snapshot = snapshot; hash = hash_entry snapshot }

  -- `append` of the in-memory sink, the new log.
  unfoldable pub append : AuditInput → List AuditEntry → List AuditEntry
  append input log = log ++ next_entry log input ∷ []

  unfoldable pub append_all : List AuditInput → List AuditEntry → List AuditEntry
  unfolding append
  append_all [] log = log
  append_all (input ∷ inputs) log = append_all inputs (append input log)

  -- The problems of one entry, where the previous one's hash and its number are these.
  abbrev pub check_entry : AuditEntry → Ident → ℕ → List AuditChainProblem
  check_entry e expected index =
      (if e.snapshot.prev_hash == expected
        then []
        else broken_link e.snapshot.seq expected e.snapshot.prev_hash ∷ [])
      ++ (if hash_entry e.snapshot == e.hash
          then []
          else hash_mismatch e.snapshot.seq (hash_entry e.snapshot) e.hash ∷ [])
      ++ (if e.snapshot.seq == index then [] else seq_gap e.snapshot.seq index ∷ [])

  -- The walk down the log.
  unfoldable pub check_chain : List AuditEntry → Ident → ℕ → List AuditChainProblem
  check_chain [] expected index = []
  check_chain (e ∷ es) expected index =
      check_entry e expected index ++ check_chain es e.hash (index + 1)

  unfoldable pub verify_audit_chain : List AuditEntry → List AnchorProof → AuditChainVerification
  unfolding check_chain
  verify_audit_chain entries anchors =
      report (length entries) (check_chain entries genesis 0 ++ check_anchors entries anchors)
