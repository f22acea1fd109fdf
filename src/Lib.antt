-- ===== src/Lib.antt =====
-- baleforgit keeps the large files of a git repository in content-addressed storage: a server
-- (crates/bale-server-*) stores xorbs (bodies of compressed chunks) and shards (binary records that
-- say which chunks make up a file), and a client (crates/git-bale) is git's filter process, which
-- talks packet lines. A file's hash is looked up as terms, each a range of a xorb's chunks; the server
-- reads those frames of the body and decompresses them.
--
-- `Prelude`: lists, bytes, bits, UTF-8, and Rust's `Result`.
-- `Core`: crates/bale-server-core/src/lib.rs, the domain types. A string is the list of its UTF-8
-- bytes and a hash the list of its bytes.
-- `Wire`: crates/bale-server-wire/src/lib.rs, `encode_hash` and `decode_hash`.
-- `Shard`: crates/bale-server-shard/src/lib.rs. `Shard.Cursor` is `Cursor`, as a state monad over the
-- position; `Shard.Parse.parse` and `Shard.Serialize.serialize` are `parse` and `serialize`, each
-- loop of theirs a function. `Canonical` says which shards the format can carry.
-- `Xorb`: crates/bale-server-shard/src/xorb.rs. The decompressors and hash functions of the crate
-- xet_core_structures are the parameter `Codec`; nothing is asked of them.
-- `Storage`: crates/bale-server-storage-mem/src/lib.rs, `MemBlobStore`, its two maps as tables
-- (`Table`); `Storage.Puts` is the relation of a successful put, and
-- `Storage.Abstract` the abstract store.
-- `Meta`: crates/bale-server-meta-sqlite/src/lib.rs, the tables and statements of
-- `SqliteMetadataStore`: `Meta` has the tables, the files and the terms, `Meta.Xorbs` the xorbs, chunks
-- and frames, `Meta.Usage` the sums and quotas, `Meta.Hashes` the list of an `IN`. A statement is what
-- it does to the list of a table's rows; which row a `LIMIT 1` returns is the engine's, a parameter.
-- `Tokens`: crates/bale-server-tokens/src/lib.rs, `mint` and `verify`. The signature is a parameter.
-- `Authz`: crates/bale-server-authz-mem/src/lib.rs, `ConfigAuthz`, its maps as tables; `Authz.History`
-- says what a sequence of grants amounts to.
-- `Http`: crates/bale-server-http/src/lib.rs, over `Meta` and `Storage`. `Http` has a term's byte range
-- and the transfer of it, `Http.Uploads` the upload of a xorb, `Http.ShardUploads` that of a shard,
-- `Http.Downloads` the download of a file, `Http.Auth` the middleware before them, and
-- `Http.Usage` the endpoints of usage and quota. A handler that has written before it refuses returns
-- the service with what it wrote. HMAC, the clock, BLAKE3 and the forge are parameters, and so
-- is what the database fails at in `upload_shard`, the one handler modelled that asks the database again
-- after it has written. Elsewhere a failing statement ends the request and is not modelled.
-- `Pkt`: crates/git-bale/src/pktline.rs. A stream is the list of the bytes to come.
-- `Filter`: crates/git-bale/src/filter_process.rs, the clean and the smudge over `Pkt`, with the pointer
-- file (`Filter.Pointer`, pointer.rs), the clean cache (`Filter.CleanCache`, clean_cache.rs), the
-- manifests (manifest_cache.rs) and the chunk cache (local_reconstruct.rs). `Filter.Xet` has what the
-- crates do, over a type of stored objects that is a parameter.
-- `Reader`: crates/git-bale/src/mount/reader.rs, `BaleLru`, the cache of the mount. Its map and order are
-- lists.
-- `Gc`: crates/git-bale/src/gc.rs, and the markers of crates/git-bale/src/staging.rs. `Gc` has the walk
-- over what git has, which is the parameter `Git`, and `Gc.Reconcile` what is removed after it.
-- `Tests`: the theorems at concrete inputs.
--
-- A loop whose length the input decides takes fuel, one more than the bytes it has before it, and
-- each round takes some of them; `stuck` is the result of a run without fuel. A `u32` or `u64` is a
-- native number, and where the source casts or wraps the remainder is written out; `usize` is taken to
-- have 64 bits. Allocation, the text of error messages, and I/O errors other than the end of the input
-- are not modelled. Nor are the stores on a file system, S3 and PostgreSQL and the
-- authorisation over HTTP, which do the same through I/O; the client's commands, push and prune; the
-- mount but for its cache; and the start-up, telemetry and metrics of the server.
pub mod Prelude
pub mod Core
pub mod Table
pub mod Wire
pub mod Shard
pub mod Xorb
pub mod Pkt
pub mod Authz
pub mod Filter
pub mod Gc
pub mod Http
pub mod Meta
pub mod Reader
pub mod Storage
pub mod Tokens
pub mod Tests
