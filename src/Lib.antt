-- ===== src/Lib.antt =====
-- Verification library of the Supabase connector.
--
-- The connector receives the slice of a graph that it owns, validates it, reads the operation journal
-- and the target database, and builds an immutable plan of the operations that bring the target to the
-- desired level. The plan is persisted for review, and then applied one operation at a time.
--
-- Files and code:
-- - Common and its children: lists over native numbers, Rust's Result and format strings, texts as
--   UTF-8 bytes, ordered sets and maps (BTreeSet, BTreeMap), decimal numbers and machine words.
-- - Json: serde_json values.
-- - External: what is called and not implemented here (SHA-256, BLAKE3, hex, serde_json, the derived
--   encodings, the protobuf encoding, the iddqd maps), one field of a record each. The definitions take
--   the record, and where a theorem relies on a law of a field, the law is a hypothesis.
-- - Context, Context/Ids, Context/Sql, Context/Boundary, Context/Issues:
--   crates/reconciler/src/context.rs (validate_boundary, the identity rules, forbidden_sql_verb,
--   plan_issues).
-- - Slice, Slice/Parse, Slice/Digest: crates/reconciler/src/slice.rs (from_request, from_view,
--   parse_component, desired_digest).
-- - Journal, Journal/Fold, Journal/Stream, Journal/Connect: crates/reconciler/src/journal.rs
--   (JournalSnapshot::apply, OperationJournal::load, append, connect and evidence_uri).
-- - Target, Target/Digest, Target/Satisfied, Target/Sql, Target/Provider, Target/Observe,
--   Target/Connect, Target/Transaction: crates/reconciler/src/target.rs, its data, migration_checksum, digest,
--   operation_satisfied, the quoting functions, the statements of execute, provider_or_unavailable,
--   observe_with over a Client by the rows that its queries answer, and apply over a Database whose
--   answers are parameters; the reconciler takes the answers of observe and apply from the outside.
-- - Plan, Plan/Validate, Plan/Inputs, Plan/Draft, Plan/Build, Plan/Digest:
--   crates/reconciler/src/plan.rs. build_plan is split along its loops; Plan.Draft.Draft holds the
--   variables that they change.
-- - Review: crates/reconciler/src/review.rs (persist, load, projection, markdown), over a map from paths
--   to bytes.
-- - Reconciler, Reconciler/Monad, Store, Delivery, Level, Receipts, Reports, Apply, Pass, Resume:
--   crates/reconciler/src/reconciler.rs. A call is a function of a World (the checkpoint files, the
--   loaded slices, the effects so far) that returns a result and the World it leaves; every answer of
--   the journal, the target, the core and the files is a function of the effects so far.
--   accept and retire are in Level, publish and deliver_pending_report in Delivery, the apply phase of
--   reconcile_once in Apply, its plan phase and the whole pass in Pass, resume and
--   CoreReporter::fetch_slice in Resume. Reconciler/Reach has the runs: any calls, one after the other,
--   with restarts between. A scheduled pass is an effect.
-- - Service: crates/reconciler/src/lib.rs (reconcile_slice, retire_slice, connect_error).
-- - Server: services/server/src/main.rs up to the bound socket, with Reconciler::new and
--   CoreReporter::new. The variables of the environment are a function, and what the process is given
--   by its platform is the record Platform.
-- - The files of the tree that are not named here hold the proofs about their part.
-- - The Tests modules, Reconciler/RunTests and Fixtures: concrete external
--   functions, a slice, a journal and an observation for the tests.
--
-- Static texts of messages are kept as structured pieces (Common.Message), so that a message is compared
-- by its parts. The ordered maps keep their entries in ascending order of the keys, as the code's trees
-- iterate them. The loop that reads the journal runs on fuel, the number of the records of the stream:
-- every round reads a record.
--
-- accept, retire and reconcile_once hold the lock of their graph, and retire and reconcile_once that of
-- the target from where they read the journal. resume takes no lock; it runs before the server serves,
-- and the passes that it schedules are taken to run after it.
-- Reconciler/Locks models how calls get the lock of their graph, interleaved in any order; the calls of
-- the other files run one after the other. A panic is an error or none.
--
-- Not modelled: the network clients, the transport, tracing, and the server's routes and signal handler,
-- which only call libraries.
pub mod Common
pub mod Json
pub mod Context
pub mod Slice
pub mod Journal
pub mod Target
pub mod Plan
pub mod External
pub mod Reconciler
pub mod Service
pub mod Server
pub mod Review
mod Fixtures
