-- ===== src/Lib.antt =====
-- A verification library for conxian-nexus, a node that tracks sequenced transactions, proves them
-- to clients, and guards settlement, ERP synchronisation, Lightning recovery and billing.
--
-- The parts, and the files that model them (paths from the root of the repository):
--
-- * State (src/state/mod.rs). State/Crypto is the interface to `sha2` and `hex`, with the laws that
--   digests are bytes and that decoding undoes encoding. State/Tree has the levels of the Merkle
--   tree, the paths of proofs and their verification; State/Mmr the mountain range (`add_leaf`,
--   `get_root`); State/Node the record `NexusState` and its methods. State/Mountains, Counting and
--   MmrLaws relate a range to the leaves that it stands for, TreeLaws and NodeLaws do so for the
--   tree and the whole state. State/Positions has the free helpers on positions, PositionLaws and
--   Peaks their laws.
-- * Lightning (src/executor/lightning.rs, src/orchestrator.rs). Payment has the states, failures
--   and `process_recovery`; Audit the loop of `audit_lightning_payments` over the two tables, each
--   statement of which may fail; Recovery, Tables and AuditLaws have the laws.
-- * Erp (src/api/erp.rs). Attestation has the checks and the signed text, Sync the handler and the
--   interface to the replay store; Canonical, Signed, Window and Replay have the laws.
-- * Settlement (src/api/settlement.rs). Policy, Validate and Extract are the routing policy; Trigger
--   and Handler the settlement trigger, whose calls of the database, Kwil and the oracle end as the
--   record `Outside` says; PolicyLaws and TriggerLaws have the laws.
-- * Safety (src/safety/mod.rs, src/executor/mod.rs). Monitor is the heartbeat and its keys in Redis,
--   Executor the sequencer's admission, which the safety mode stops; MonitorLaws and ExecutorLaws
--   have the laws.
-- * Billing (src/api/billing/mod.rs). Quota has the limit and the grace period, Keys the two
--   handlers over the hashes in Redis; QuotaLaws, HashLaws and KeysLaws have the laws.
-- * Admin (src/api/admin.rs). Auth has the bearer tokens and scopes, Signatures the two signatures
--   of an approval, Registration the registration and claim of agents, Routes every route; AuthLaws,
--   SignatureLaws, Kept, Claims and Grants have the laws. The two maps behind locks are one `Store`.
-- * Kwil (src/storage/kwil.rs). Requests has the signed texts and the requests, RequestLaws what the
--   texts determine.
-- * Sync (src/sync/mod.rs). Microblock takes a block into the state tracker, Redis and Kwil.
-- * Adapters (src/executor/rgb.rs, evm.rs, cosmos.rs, stacks.rs, fedimint.rs, bitvm.rs). One file for
--   each adapter with its table; AdapterLaws and BitVmLaws have the laws.
-- * Rest (src/api/rest.rs). Proofs has the handlers over the state tracker, Routes those over the
--   executor and the adapters; ProofLaws has the laws.
-- * Config (src/config.rs, src/storage/mod.rs). Env has `from_env` over a list of variables, Boundary
--   the checks of `Storage::new`, BoundaryLaws both together.
-- * Services (src/api/identity.rs, src/api/dlc.rs). Identity and Dlc have the two handlers, ServiceLaws
--   their laws.
-- * Grpc (src/api/grpc.rs). Flags has what the service reads of Redis and its cache of counts, Service
--   the methods and the interceptor, ServiceLaws what `execute` lets through.
-- * Api/Http has the status codes and the JSON library as an interface; Prelude the shared lists,
--   texts, machine words, integers and results; Tests the concrete instances and the inputs at
--   which the theorems are applied.
--
-- A handler takes the state and the replies of the world outside, and returns the new state and its
-- answer. Locks are taken in one order by every method of the state tracker, so a method is one
-- step. A panic is `none`. Unsigned words are native numbers with their wrap-around written out,
-- and sums of `i64` wrap as in a release build (Prelude/I64); a time is an integer number of the
-- unit that its file names. A text is a list of code points.
--
-- Fuel: the levels of the tree are built with the number of leaves as fuel, which is enough since
-- each round shrinks a level of two or more. The loop for the siblings of a mountain range node
-- halves a 64-bit number, so it has 64 rounds. The loops over positions have 64 rounds as well:
-- each round of `get_mmr_peaks` clears a bit, each of `get_mmr_path` goes down one tree, and
-- heights stay below 63. All other recursion is on lists. The bound of 2^62 leaves keeps node
-- counts below 2^64.
--
-- Not modelled: the wiring of routers and servers, logging, SQL beyond the statements above, the f32
-- and f64 tests (inputs or parameters), the web socket of the block synchronisation, which drops what
-- it reads, the migrations, and the interfaces for ZKML, services, security and analytics.
pub mod Prelude
pub mod State
pub mod Lightning
pub mod Api
pub mod Erp
pub mod Settlement
pub mod Safety
pub mod Billing
pub mod Config
pub mod Services
pub mod Grpc
pub mod Kwil
pub mod Sync
pub mod Rest
pub mod Adapters
pub mod Admin
pub mod Tests
