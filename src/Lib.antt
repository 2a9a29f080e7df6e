-- ===== src/Lib.antt =====
-- Verification library of patwari-server, the archive of session snapshots (crates/patwari-server).
--
-- The program. A client creates an upload by a manifest that declares its artifacts, sends the
-- artifacts in chunks of a negotiated size, and completes the upload, which makes a snapshot of it.
-- Snapshots are listed page by page with opaque cursors, deleted with a tombstone, and the blobs
-- that no live snapshot refers to are collected later. Handlers run concurrently; stripes of locks
-- keep those apart that touch the same upload, snapshot or blob.
--
-- The files, and the code each one models:
--   Prelude, Prelude/*       shared names; texts as their bytes, results with `ApiError`
--                            (crates/patwari-server/src/error.rs), u64 and i64 as SQLite stores it
--   Contract, Contract/*     documents and stored names (crates/patwari-server/src/contract.rs)
--   Config, Config/*         settings, their parsers, `from_values`, `validate`
--                            (crates/patwari-server/src/config.rs)
--   Validation, Validation/* field validators, logical paths, `normalize_manifest`
--                            (crates/patwari-server/src/validation.rs)
--   Chunks, Chunks/Cover     `chunk_count`, `expected_chunk_length`
--                            (crates/patwari-server/src/ingestion.rs)
--   Digest, Digest/*         `hex_digest`, forms of a digest, names of compressions
--                            (crates/patwari-server/src/ingestion.rs)
--   Uploads, Uploads/*       the upload handlers (crates/patwari-server/src/ingestion.rs):
--                            World the tables and files, Layout `upload_layout`, Reuse, Session,
--                            NewRow and Create `persist_upload` and what it calls, Request and
--                            Transfer `put_artifact_chunk` and what it calls, Record the chunk rows
--                            and the status, Terminal abandonment, expiry and audits, Status
--                            `get_upload_status` with the bitmap of accepted chunks
--   Completion, Completion/* what `complete_upload` calls (crates/patwari-server/src/ingestion.rs):
--                            Checks the limits and the projection, Layout, Assemble and Prepare the
--                            artifacts, Store the tables and blob files of the commit, Blobs,
--                            Provenance, Finalize and Commit `record_completed_upload`
--   Maintenance, Maintenance/*
--                            the gate between requests and a backup, its lease and its file lock
--                            (crates/patwari-server/src/maintenance.rs); System has requests and
--                            backups as processes of a step relation
--   Locks, Locks/*           lock stripes (crates/patwari-server/src/service.rs) and the handlers
--                            as tasks that lock and unlock (Waiting)
--   Pagination, Pagination/* cursors and pages (crates/patwari-server/src/pagination.rs, with the
--                            query of `list_tombstones` in crates/patwari-server/src/deletion.rs)
--   Deletion, Deletion/*     `delete_snapshot` and `collect_orphaned_blobs_at`
--                            (crates/patwari-server/src/deletion.rs)
--   Tests, Tests/*           the theorems applied to concrete inputs
--
-- State. The tables are records of lists of rows, in the order of insertion; a query is a filter of
-- the list, an INSERT with a conflict clause looks for the row in the way first, and a DELETE of an
-- upload takes the rows that refer to it along. A handler takes a `World` (tables and chunk files)
-- to a result and the next world; a transaction that fails restores the tables and keeps the files.
-- Under an upload's lock no other handler touches the upload, so what a handler commits is a step,
-- also when it fails or is dropped by the request timeout; `Reach` is any sequence of creations,
-- arrivals of chunks, status requests, completions (their UPDATE of the upload), abandonments and
-- expiries. The recovery after a start is not among its steps. The record of a completion, on its
-- own tables, takes what other handlers do meanwhile as arguments. Locks are modelled apart, as
-- sequences of locks and unlocks that interleave.
--
-- Numbers. Machine integers are natural numbers with their checks written out: a checked sum or
-- product past 2 ^ 64 is an error as in the code, a conversion to an SQLite column fails from 2 ^ 63
-- on, and the FNV hash wraps at 2 ^ 64. Columns are integers.
--
-- Fuel. `has_parent_in`, which climbs from a path to its parents, has fuel: a parent is shorter than
-- its path, so the length of the path and one is enough, which is proved. `wait_for_lock`, which tries
-- a lock until 15 minutes have passed, has fuel too: its rounds are 100 milliseconds apart at least, so
-- that 9001 are enough, which is proved.
--
-- External code is a parameter: RFC 3339 times, media types, UUIDs, base64, JSON, SHA-256, zstd, the
-- reads that deliver a file, the parser of socket addresses. What a theorem assumes of it is named in
-- its statement.
--
-- Not modelled: the body of `complete_upload` that calls its parts, the fingerprint, the response of
-- a completion, the recovery after a start, registration of clients, retrieval, integrity scans,
-- backups, inventory, health, the router and the process, and failures of the database. They are I/O,
-- or wait for the tables that they read. Of the failures of files, those are modelled that the code
-- goes on from: a temporary file that stays, an artifact that is written in part.
pub mod Prelude
pub mod Contract
pub mod Chunks
pub mod Config
pub mod Validation
pub mod Locks
pub mod Pagination
pub mod Digest
pub mod Uploads
pub mod Deletion
pub mod Maintenance
pub mod Completion
pub mod Tests
