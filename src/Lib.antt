-- ===== src/Lib.antt =====
-- The archive service of Ratatoskr for ChatGPT exports: how an uploaded archive is received, how
-- the parsed snapshots of an account are reconciled, and how the facts about them are published.
--
-- Parts and files. `crates/chatgpt-archive/src` is written `…` below.
--   Prelude          shared names of the libraries, Boolean tests, list lemmas
--   Effect           operations that may fail over a state, and relations that they keep
--   Import           …/receipt/state.rs: the stages of an import run and the guarded move `advance`
--   Receipt.World    what the receipt reads and writes: the rows of schema.sql's tables accounts,
--                    exports, import_runs and platform_operation_imports, the staging files, the
--                    blob objects, and the schedule of failures and of other writers
--   Receipt.Mode     …/receipt/mod.rs: `AcquisitionMode`
--   Receipt.Records, Receipt.Sql, Receipt.Repository, Receipt.Publish
--                    …/receipt/repository.rs and …/receipt/pg.rs: the records of the persistence
--                    seam, its statements and transactions, and its eight operations
--   Receipt.BlobStore
--                    …/blob_store.rs and …/blob_protocol.rs: `store`, `verify`, `erase`, and
--                    `register_blobs` of one staged blob
--   Receipt.Staging, Receipt.Settle, Receipt.Receiver, Receipt.Resume
--                    …/receipt/mod.rs: `stream_to_staging` and `hash_file`; `settle_hashed`,
--                    `publish_staged` and `fail_run`; `receive_inner` and its public forms; `resume`,
--                    `verify_staged` and `sweep_interrupted`
--   Receipt.Orderly, Receipt.Moves, Receipt.Soundness
--                    the orders on the rows that a receipt is held against
--   Reconciliation.Model
--                    …/synthetic_parser/model.rs, …/reconciliation/model.rs and report.rs
--   Reconciliation.OrderedMap
--                    what is used of `BTreeMap`
--   Reconciliation.Observe, .Conversations, .Graph, .Report, .Core
--                    …/reconciliation/core.rs, function by function under the names it gives them
--   Json             a JSON document
--   Parser.Input, .Decode, .Parts, .Assets, .Archive
--                    …/synthetic_parser: input.rs, decode.rs, parts.rs, assets.rs and mod.rs
--   Parser.Registry  …/parser_registry.rs
--   Outbox.Model, Outbox.Store
--                    the tables outbox_events and announced_subjects of schema.sql, the memory of the
--                    pump, what the broker answers, and statements and transactions over them
--   Outbox.Subject, Outbox.Marks, Outbox.Carry, Outbox.Pump
--                    …/receipt/outbox: subject.rs, marks.rs, carry.rs, and publish.rs with mod.rs,
--                    from `publish_pending_once` down
--   Outbox.Erasure, Outbox.Removal
--                    …/stream_erasure.rs and …/privacy_deletion/erasure.rs
--   Outbox.Acks, Outbox.Announced, Outbox.Events
--                    …/deletion_ack.rs with deletion_ack/consumer.rs, …/announced_subjects.rs and
--                    …/outbox.rs
--   Outbox.Copies    where the pump keeps count of the copies that it answers for
--   Reconciliation.Chain, .Fold, .Growth
--                    the chain of revisions of one identity, and how a map of histories grows
--
-- How the state is modelled. An asynchronous method is a function from a world to a result and a
-- world, so that what it did stays done when it fails. Each call of the database or the disk takes
-- one entry of a schedule, which says whether it fails and, for a statement outside a transaction
-- or the begin of one, what other tasks did to the rows and the objects just before it; a schedule
-- that is used up lets every further call succeed alone. Within a transaction nobody else writes
-- and an error puts the rows back; blob objects stay. A guard in SQL (`WHERE … AND state = $3`) is
-- the test of an update, and the constraints of the schema refuse a statement. The receiver and
-- the repository meet in the records of `Receipt.Records`; the receiver's stages are `Import`'s.
--
-- The outbox has a state and a schedule of its own, made the same way: a commit that fails may have
-- taken effect, a row may be held by another transaction, and the broker answers each publish by an
-- acknowledgement with its stream sequence or by a failure. The carry stays when a transaction is
-- rolled back, as the pump's memory does. `Store.delivered` stands for the erasure commands that are
-- published and gone. A producer, a deletion and the consumer of acknowledgements meet the pump in
-- the rows of `Outbox.Model.Store` only; `Outbox.Removal` shows what a deletion leaves there.
--
-- Bounds. Lengths are natural numbers with the source's saturation at 2^64 - 1 and at 2^63 - 1
-- where a length enters a column; a stream sequence above 2^63 - 1 is refused. Instants and waits
-- count seconds. Every loop runs over a list; only the decimal spelling of a chunk's index runs on
-- fuel, one more than the index, and each round divides it by ten.
--
-- Parameters. SHA-256, the grammar of media types, the generator of identities and the configured
-- maximum are fields of `Receipt.World.Env`; the digests of …/reconciliation/digest.rs are those of
-- `Reconciliation.Model.Digests`, and the display of a number is `Observe.Display`. Nothing is
-- assumed of them but, where said, that the maximum is below 2^64 - 1. `Outbox.Model.Env` holds what
-- the envelope, identifier and JSON crates answer; it is assumed, where said, that the identity of an
-- envelope is a UUID and that an erasure command's document names the command's sequences.
--
-- The parser reads its documents by `Parser.Input.Readers`, which stand for serde_json, and verifies
-- a declared file in the blob store of `Receipt.BlobStore` over the same world as a receipt; what it
-- returns is what `Reconciliation` observes. A floating-point number stands for its text.
--
-- Not modelled: the deletion of data beyond its outbox rows, the inspection of an archive's entries,
-- the persistence of parsed records, contract projection and the HTTP surface, which are parts of their own; logs and metrics,
-- which nothing reads back; the part files of the blob store and the path checks of its `erase`; and
-- what other transactions commit between two statements of one transaction: a transaction sees the
-- rows as they were when it began.
pub mod Json
pub mod Parser
pub mod Outbox
pub mod Prelude
pub mod Import
pub mod Effect
pub mod Receipt
pub mod Reconciliation
