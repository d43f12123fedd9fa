-- ===== src/Lib.antt =====
-- rust-local-storage-cdn: an object store over HTTP. Files live on disk under
-- `<storage path>/<bucket>/<key>`, their rows in PostgreSQL, hot entries in a cache (memory or Redis).
-- An upload is deduplicated by its BLAKE3 hash, compressed, encrypted, written through a temporary
-- file, recorded and cached; a read goes the other way, whole or by a byte range.
--
-- How the parts interact: a router gives a request to a handler (local-storage/src/handlers, or
-- local-storage/src/s3 after its signature is verified), which checks the read token and calls the
-- storage manager (local-storage/src/storage.rs), which calls the key store
-- (local-storage/src/encryption_keys.rs), the database (local-storage/src/database.rs), the cache
-- (local-storage/src/cache.rs), the compressor (local-storage/src/compression.rs) and the ciphers
-- (local-storage/src/crypto.rs).
--
-- Prelude: Boolean tests, lists, texts as lists of bytes, UTF-8, decimals and signed 64-bit numbers,
--   results, over the native numbers.
-- Errors, S3.Errors: local-storage/src/errors.rs and local-storage/src/s3/error.rs.
-- Models, Config: the rows of local-storage/src/models.rs, the settings of local-storage/src/config.rs;
--   Config.Load is `Config::load` over the environment variables as a function.
-- Codec, Compression: flate2 and zstd as a record of operations with their documented behaviour;
--   `compress`, `decompress` and `decompress_range`. The loops that read a decoder run on fuel: each
--   round takes at least one byte, so the bytes wanted, or one more than the bytes left, are enough.
-- Crypto: the cipher set-up and the four encryption functions; the AEAD crates are a record.
-- World: the tables, the disk, the cache, the clock and the random draws as one state, and the
--   environment: the crates as parameters and, by call site, which outside call fails. An action
--   (World.Actions) passes that state on and returns a result; what it changed before an error stays.
-- Database: the SQL statements as functions on the list of rows; Database.Search is `search_files` and
--   the totals, Database.Order is about ORDER BY. LIKE and ILIKE are parameters.
-- Cache: `CacheManager`'s entries, under the same texts as keys; Cache.Preload is the loop of the
--   preloading service and its writes, Cache.Stats the statistics and the generic get and set.
-- Keys: `EncryptionKeyManager`.
-- Storage.Paths, Storage.Disk: paths, and the atomic write of
--   local-storage/src/performance_optimizations.rs.
--   The disk maps canonical paths to bytes: `canonical` of the environment says which file a path names,
--   whatever its spelling.
-- Storage.Encode, Storage.Store: the stages, and `store_file` of `StorageManager`.
-- Storage.Fetch: `get_file`, `get_file_range_if_plain`, `get_compressed_file_range`, `get_file_info`.
-- Storage.Remove, Storage.Buckets: `delete_file`, `sweep_expired_files`, the operations on buckets.
-- Storage.Manage: search, counts, health and the encryption keys through `StorageManager`.
-- Handlers.Range, Handlers.Download: `parse_range_header`, the read token and `handle_file_request`.
-- Handlers.Upload, Handlers.Filename: `upload_file` and `handle_file_delete`; the name of an upload.
-- Handlers.Manage: bucket_handlers.rs, key_handlers.rs, health_handler.rs and the listings, in
--   local-storage/src/handlers.
-- S3.Auth: the header, the comparison (Compare), the canonical request (Canonical) and `verify_sigv4`
--   (Verify) of local-storage/src/s3/auth.rs.
-- S3.Actions, S3.Xml, S3.Handlers, S3.Router: local-storage/src/s3/handlers.rs, xml.rs and mod.rs. The
--   children of S3.Handlers are the operations on an object (Objects), the deletion of many (Batch) and
--   what is proved of them; the XML and header crates are a record.
-- Startup: the retries of the migrations, the check for orphaned files and the ticks of the sweep in
--   local-storage/src/main.rs. The retries run on fuel 31, the first run and the 30 retries after it.
--   Startup.Serving is `main` from the settings to the listener.
-- Machine: the storage manager as a state machine whose steps are its operations, and the abstract store,
--   a map from bucket and key to a BLAKE3 hash. Machine.Frames says what a call leaves alone,
--   Machine.Tables is about the tables, Machine.Invariant and Machine.Refinement about the steps.
-- Concurrent: requests to the storage manager that run at once. A request is a process (Processes) whose
--   steps are the outside calls of local-storage/src/storage.rs with the code before them (Steps), since
--   the handlers share the manager through a read lock and any other request may come in where one
--   awaits; a transaction is seen at its commit. A request that is dropped takes no further step. Alone
--   compares the steps with the operations of Storage, Follows says how a step may touch the abstract
--   store, Removals, Stores and Reads that those of each operation do so, and Linear puts them together.
-- App: local-storage/src/app.rs, a request by its route and what the server answers, behind the limiter.
--   Keeps, Downloads, Objects, Preloads and Invariant follow the tables through every handler and the
--   background tasks; RoundTrip follows a file from its upload to a request for it.
-- Tests: concrete crates, settings and worlds, and the theorems applied to them.
--
-- Numbers are natural numbers: sizes and lengths are far below 2^63, and each subtraction of the
-- source either saturates, as here, or is guarded. Times are microseconds. A transaction commits
-- whole or not at all. `IsCalm` says that no outside call fails; theorems without it hold whichever
-- calls do. `IsSound` says what the crates document: decoders undo encoders, a nonce has 12 bytes.
--
-- Not modelled: which route the HTTP framework matches, its time limit and the count of permits of the
-- semaphore (whether there is one is an argument), the CORS headers, logging, the TypeScript client,
-- floating-point ratios in reports, types that no code uses, migrations as SQL.
-- Concurrent follows the operations of Operation that act on files and buckets; listings, range reads
-- and the preloading service are followed one at a time.
pub mod Prelude
pub mod Errors
pub mod Models
pub mod Concurrent
pub mod Config
pub mod Codec
pub mod Crypto
pub mod World
pub mod Database
pub mod Cache
pub mod Keys
pub mod Storage
pub mod Compression
pub mod S3
pub mod Handlers
pub mod Tests
pub mod Machine
pub mod Startup
pub mod App
