-- ===== src/Lib.antt =====
-- Verification library of skeg-rigging, the extension points of the skeg memory engines.
--
-- The program has three crates. crates/skeg-rigging declares the capabilities of a tenant (filtered
-- query, iteration, quota, events, write side) and has an in-memory tenant; crates/skeg-rigging-skeg
-- implements the capabilities over the vector index of skeg; crates/skeg-rigging-ingest cuts files
-- into chunks, embeds them and writes them through the write side of any tenant.
--
-- The parts and their files:
--   Base      shared helpers: tests, lists, machine words, results, a stable sort (Base/Sort, with
--             linear orders in Base/Sort/Unique) and vectors of records with a unique key (Base/Keyed:
--             find, overwrite or push, retain; Base/Keyed/Maps).
--   Text      strings as lists of code points, with the std functions that the sources call: UTF-8
--             length, lines, words, paths and decimal numbers.
--   Ids, Quota, Error, Filter, Write
--             ids.rs, accounting.rs, error.rs, filter.rs and write.rs of crates/skeg-rigging/src: plain
--             data, conversions, texts of ids (Ids/Hex reads them back), and the traits TenantWrite and
--             Embed as records of operations.
--   Iter      what iter.rs of crates/skeg-rigging/src asks of iter_vectors, record_count and
--             embedding_dim, and what ties the hits of filter.rs to them.
--   Float     f32 as a parameter: its operations, and that its comparison orders the numbers.
--   Event     crates/skeg-rigging/src/events.rs. Event/Channel is the store of std::sync::mpsc channels
--             that tenants and streams share, and emit's loop over the senders; Event/Stream has
--             recv, try_recv and next, Event/Stream/Timed has recv_timeout.
--   Mock      crates/skeg-rigging/src/mock.rs: insert, delete, subscribe, set_quota and the counters in
--             Mock.antt, iter_vectors and query_filtered in Mock/Query. The other files are about: Records
--             (the map of the ids), Valid (the invariant), Caps, Rejects and Overwrites (the quota),
--             Hits and Yielded (the query, and its hits against the iteration), Runs, Broadcasts and
--             Replay (what a subscriber sees, and what it then knows).
--   Fs        the calls of std::fs that the adapter makes, on a map from paths to directories: files,
--             folders and other entries by name, with a table of the accesses that fail and of what they
--             leave. Fs/Copy has
--             copy_dir_contents and Fs/Sizes sum_dir_bytes of crates/skeg-rigging-skeg/src/tenant.rs;
--             Clones, Copies and Shapes are about a copy and its source.
--   Tenant    crates/skeg-rigging-skeg/src/tenant.rs, with meta_sidecar.rs in Tenant/Sidecar. The index
--             DiskVamanaIndex of the package skeg-vector is a parameter (Tenant/Engine). Writes has the
--             effect of the writes, Complete what iter_vectors finds, Hits the query, Yielded its hits
--             against the iteration. Tenant/Lifecycle has open, open_readonly_at, flush, create_new,
--             restore_from, snapshot and destroy, and the reading and writing of meta.json, where
--             serde_json and the opening of an index are the record Host; open is open_tenant there, since the word is reserved. Reopen, Opened, Stored,
--             Restore and Destroyed are about these, and HostLaws in Reopen says what they rely on: JSON
--             is read back as it was written, and an index that wrote its files is opened from them.
--             Tenant/Steps has the calls on an open tenant as a step relation, and the runs of them with
--             the sidecar that was flushed last; Durable and Recovered hold a run against what a later
--             opening finds (WritesThrough in Steps says that an index keeps its files in step, FixedDim
--             in Durable that it keeps its dimension). Flushes that tear the sidecar's file are no steps
--             there: Tests/Interrupted shows what comes of one.
--             Tenant/Threads has insert and delete as two locks, between which other threads may come,
--             and Tenant/Interleaved what such a run amounts to, with Locks about one lock against the
--             whole call and Heard about the subscribers.
--             Tenant/Writer is the tenant as a TenantWrite, Flushed its file after a flush, Ingested
--             what an ingest into it leaves.
--   Twin      the in-memory tenant and the adapter side by side, under the same calls: Twin/Alike says
--             when they hold the same, Twin/Step and Twin/Calls are about one call and many. What the two
--             answer to an insert of another dimension, a panic and an error, is written out in Twin.
--   StubEmbed StubEmbed of crates/skeg-rigging-ingest/src/embed.rs, and its vectors by the counts of the
--             words (StubEmbed/Buckets).
--   OllamaEmbed
--             OllamaEmbed of the same file, with ureq and serde_json as parameters.
--   Async     crates/skeg-rigging/src/asyncs.rs: the bridge SyncToAsync over any ReadOnlyView, with
--             tokio's spawn_blocking as a parameter; Async/Views has the two tenants as such views,
--             Async/Traits the asynchronous traits, which the bridge fills.
--   Chunk     crates/skeg-rigging-ingest/src/chunk.rs: Paragraphs, with one round of its loop in Rounds,
--             and Windows are about the two modes.
--   Disk      a tree of named files and directories, as the ingest reads it.
--   Ingest    crates/skeg-rigging-ingest/src/lib.rs: collect_files, ingest_file and ingest_tree, over
--             any TenantWrite and any Embed; Ingest/Watch has the loop of watch_tree. Ingest/Collected
--             holds the walk against the list of all files, Ingest/Order two runs over disks that list
--             their directories in different orders, and Ingest/Chunks and Ingest/Plan a run against
--             the records that are planned for it.
--   Manage    the traits of lifecycle.rs, accounting.rs and events.rs by which an orchestrator manages a
--             tenant, which Mock/Managed and Tenant/Managed fill.
--   Suite     the unit tests of mock.rs, asyncs.rs and ids.rs as definitions that return or panic.
--   Tests     concrete runs and the witnesses of the theorems.
--
-- How the code is read: a method that takes a shared or a mutable self takes and returns the tenant,
-- and the store of channels where it sends; a mutex is the field that it guards, since each method
-- locks it for one statement or for its whole body. Insert and delete of the adapter take two locks one
-- after the other: a call is whole in all files but Tenant/Threads and Tenant/Interleaved. u64 sums
-- wrap, as in a release build; u32 casts reduce. The counters files, chunks and words of an ingest,
-- which are usize, are counted without bound: to reach it, a run would have to write more than any disk
-- holds. A panic is an outcome of its own, also that of Instant + Duration past the platform's latest
-- time, which is a parameter. An I/O error is its kind; texts of errors are left out.
--
-- Loops are structural. The sliding window of chunk.rs runs on fuel, a round for each line and one
-- more, and ends within it for a positive step. A blocking receive that no queued event ends is the
-- answer `waits`; collecting from a stream takes a number of rounds, of which one more than the
-- pending events is enough.
--
-- Directories of tenants are apart: none is inside another, and a snapshot goes to a directory other
-- than the tenant's. A call of std::fs either takes effect or fails; a write or a copy that fails can
-- leave its file with any bytes, and a removal any part of the directory. Path::exists is false where
-- the access fails.
--
-- Not modelled: what sets up the watcher of watch_tree; processes that use one directory at once; a query or a flush from one thread between the two locks of another's
-- write; the texts of the errors; the integration tests and the benches.
pub mod Base
pub mod Ids
pub mod Event
pub mod Text
pub mod Error
pub mod Quota
pub mod Float
pub mod Filter
pub mod Mock
pub mod Chunk
pub mod Write
pub mod Disk
pub mod Ingest
pub mod Fs
pub mod StubEmbed
pub mod OllamaEmbed
pub mod Iter
pub mod Manage
pub mod Async
pub mod Twin
pub mod Suite
pub mod Tenant
mod Tests
