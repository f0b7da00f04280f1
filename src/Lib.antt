-- ===== src/Lib.antt =====
-- Busyclaw runs agents whose work has to survive crashes and whose actions have to be governed. This
-- library models the parts on which both rest, and proves what they promise.
--
-- The parts, and the files that model them:
--   * Prelude: the shared names: Boolean tests on numbers, the conditional, lists, instants.
--   * Contracts.Approval: packages/foundation/contracts/src/governance/approval.ts, the approval row.
--   * Storage.Table: packages/storage/core/src/index.ts, one model of the in-memory adapter: findOne,
--     findMany, update, delete, deleteMany, create. Storage.Table.Laws has the laws of its compare-and-set, on which
--     every store stands; Storage.Machine runs a store's operations in any order.
--   * Durable.Approval: packages/storage/durable/src/approval.ts: create, grant, deny, claim, heartbeat,
--     complete, list. Lifecycle, Fencing and Claim are its theorems.
--   * Durable.Effect: packages/storage/durable/src/effect.ts: claim, heartbeat, complete, fail, with
--     Lifecycle, Lease and Claim.
--   * Durable.Checkpoint: packages/storage/durable/src/run-checkpoint.ts: create, latestPendingForRun,
--     claim, complete with its sweep, deleteForRuns. Rows, History, Single, Successor and Continue are
--     its theorems.
--   * Engine: packages/engines/sql/src/store.ts: Schema (its tables), Runs (createRun,
--     updateRunIfStatus, enqueueTask), Claim (attemptClaim, claimTask, claimDueTasks), Lease
--     (validateLease, heartbeatLease, completeTask, failTask), Reap (reapExpiredLeases), Inbox
--     (admitMessage, drainMessages, maxMessageSeq, hasPendingInterrupt; Adopt: adoptThreadInbox),
--     Control (controlRun of packages/engines/sql/src/engine.ts, deadLetterPendingTasks, updateRun) and
--     Prune (pruneRuns, whose deletes an adapter may lack), Idempotency (getIdempotency,
--     saveIdempotency). Invariant, Exclusion, Ended, Finish and Sweep are theorems; Invariant.Reach is
--     the relation of the states that the operations reach.
--   * Core.Gates and Core.Pipeline: packages/foundation/core/src/governance.ts: the registration of
--     gates, the before-gates, runGoverned. Core.Audit: packages/foundation/core/src/audit.ts, the
--     hash chain.
--   * Core.Redact: packages/foundation/core/src/redact.ts: Distance (editDistance), Repair (repairWord,
--     repairKind, candidateCodes, recoverFrame), Mapping (createMemoryPiiMappingStore), Redactor
--     (cleanSpans, withoutPlaceholderOverlaps, mintPlaceholder, lookupOrMint, redactText,
--     rehydrateText). A text is a list of characters; the two placeholder patterns, the detector, the
--     keyed hash and the random draws are parameters, and so are the word lists of
--     packages/foundation/core/src/wordlist.ts, of which the theorems use their minimal distance.
--   * Egress: packages/foundation/egress/src/index.ts: Address (parseIPv4, expandIPv6), Ranges
--     (blockedIPv4, blockedIPv6, blockedAddressReason), Floor (assertEgressAllowed). A text is the list
--     of its character codes; the URL parser of the platform and the resolver are parameters.
--   * Detectors.Regex: packages/foundation/detectors/src/regex/index.ts: luhnValid, mod97, ibanValid,
--     regexDetector. What the four patterns match and toUpperCase are parameters.
--   * Subagents: packages/plugins/subagents/src: Barrier (store.ts and schema.ts: openJoin, settleJoin,
--     recordArrival, arrivals, openWait, armWait, fireWait, waitForJoin, waitForRun), Wake (join.ts:
--     settleIfMet, wakeForInbox, wakeArmedWait, and the arm of a park in reconcile.ts). The engine and
--     the reader of checkpoints are parameters.
--   * Authz.Router: packages/foundation/authz/src/router.ts, the cache of policy bundles;
--     Authz.Router.Refinement is what it promises. The key of a bundle, the engine that is compiled for
--     it and the builds that are rejected are parameters.
--
-- The engine, the three durable stores and the barrier meet the database only through the adapter's
-- operations, so they share Storage.Table; governance parks calls in the approval store and meets the demands that an
-- approval was granted for. A write with a where list is one atomic step, as the adapter promises, and
-- the operations are sequences of such steps on an explicit state.
--
-- How the model reads the source:
--   * An instant is its number of milliseconds. The source keeps it as an ISO 8601 text in UTC, whose
--     order is the same. Identifiers, tokens, hashes and JSON payloads that no code here looks into are
--     numbers; the empty text is 0.
--   * Readings of the clock and random ids and tokens are arguments. A random lease id is assumed fresh
--     where a theorem needs it, as a hypothesis.
--   * SHA-256 is a parameter. Where a property needs that it has no collisions it says for which values.
--   * A gate, a tool and an after-gate are functions that the models take; awaiting them is a call.
--   * Loops go down the lists that the source goes down. The attempts of admitMessage are counted down
--     from their bound (8 in the source), and running out of them is the error that the source throws.
--   * A where list and its update are one write. What a call reads it may read earlier than it writes: a
--     claim of a task acts on an older candidate, controlRun on an older row of its run, a wake on older
--     tables, and a build of a policy bundle reads later than its key. Taken as one step are: the writes of
--     controlRun; the mint and the insert of an admission, and the read and the write of its seed; the
--     statements of a sweep, of the claim of one task, of a drain and of a pruning.
--   * Of the hooks only resumeRun, a tool and the after-gates may throw.
--
-- Not modelled: starting and resuming runs and the worker's loop of the engine's driver; the runtime; the
-- plugins but for the barrier of sub-agents, and the adapters of databases, which are I/O or glue; the
-- governed fetch, which performs what the floor allowed; the compilation of policies, whose evaluation
-- is a third-party engine; the validation of JSON by schemas; the walk of the redactor over structured
-- values, its latch on concurrent redactions, and its word lists, which are data.
mod Prelude
pub mod Contracts
pub mod Storage
pub mod Durable
pub mod Engine
pub mod Core
pub mod Authz
pub mod Egress
pub mod Detectors
pub mod Subagents
