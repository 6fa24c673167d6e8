-- ===== src/Lib.antt =====
-- dropbox-lite: content-defined chunking, delta computation and the synchronisation server.
--
-- The parts, and how they interact. A client cuts a file into chunks (Chunker, with the rolling hash
-- and SHA-256 of Hash), compares their hashes with the server's (DeltaEngine) and streams the missing
-- ones to the service (SyncServiceImpl). The service hands each chunk to the storage (StorageManager),
-- which keeps one copy per hash and a database for each client (MetadataDB); at the end of the stream
-- the storage puts the file together and writes its record. Clients ask for what has changed, and
-- conflicting versions are settled by ConflictResolver.
--
-- What models what:
--   Hash, Hash/Rolling: include/common/hash.h, src/common/hash.cpp. `sha256`, `sha256_file` and the
--     hexadecimal form; `RollingHash` with `new`, `reset`, `update`, `append`.
--   Chunker: include/common/chunker.h, src/common/chunker.cpp. `chunk_data` is chunkData: `State` are
--     its local variables, `scan` its loop, `step` the body, `create_chunk` the branch that cuts.
--   Delta: include/core/delta_engine.h, src/core/delta_engine.cpp. `compute_delta`, `apply_delta`,
--     `are_files_identical`.
--   Conflict, Conflict/FilePath: include/core/conflict_resolver.h, src/core/conflict_resolver.cpp, and
--     the decomposition of std::filesystem::path that it uses.
--   Metadata, Metadata/Transactions: include/core/metadata_db.h, src/core/metadata_db.cpp. One function
--     for each statement, on tables that are lists of rows; the transaction guard.
--   Storage, Storage/Paths: include/server/storage_manager.h, src/server/storage_manager.cpp. The
--     state is the files, the databases on disk and the open databases; every operation passes it on.
--   Storage/Writing, Storage/Restart: the write of a chunk in two steps, `open_chunk` and `close_chunk`;
--     the constructor, `initialize`, and a new manager over the directory of one that has ended
--     (`restart`, which is no code of its own: the databases are closed, and what is on the disk stays).
--     Storage/Racing has several threads that store one content, as steps.
--   Sync: include/server/sync_service.h, src/server/sync_service.cpp, proto/sync.proto. A stream is a
--     list of requests; `receive` is the loop of UploadFile and `finish` what follows it.
--   Storage/Opening: the database of a client as it is opened, from the tables in its file or from none.
--   Sync/Handler, Sync/Jobs: UploadFile read by read (`handle`), and the handlers of two uploads over one
--     storage, with a schedule that says whose turn it is (`run_both`). Sync/Calls has histories of calls
--     (`serve_all`), with the ends of the server between them.
--   ThreadPool: include/common/thread_pool.h, src/common/thread_pool.cpp. `Step` is what one thread does
--     under the lock or on the counter; `Reachable` is any interleaving of such steps. ThreadPool/Futures
--     has the packaged tasks: a task ends with a value or an exception, which its future then holds.
--   RateLimiter: include/common/rate_limiter.h, src/common/rate_limiter.cpp. A token bucket; the time is
--     an argument of each call, and `acquire` is its loop. RateLimiter/Threads has several threads in
--     `acquire`, as steps.
--   Compression: include/common/compression.h, src/common/compression.cpp, over zlib.
--   Metrics: include/common/metrics.h, src/common/metrics.cpp. Counters, gauges, latencies, throughput,
--     the report, and ScopedTimer.
--   Errors: include/common/error.h. Error codes, their messages, and Result.
--   Logger: include/common/logger.h, src/common/logger.cpp. Levels, and the lines that are written.
--   Server: src/server/main.cpp. What the server's process does from its arguments to its exit code.
--   Bench/Dedup, Bench/Delta: benchmarks/bench_dedup.cpp and benchmarks/bench_delta_sync.cpp. The files that
--     they make and change, and what they count.
--   Prelude: machine integers, byte texts, maps, tests and list lemmas. Tests: concrete runs.
--
-- Numbers: size_t and uint64_t are natural numbers with their wrap-around modulo 2^64 written out
-- where a sum or a product can reach it; the positions in a buffer that is held in memory cannot.
-- int32_t and int64_t are integers, with the narrowing of a size_t to int32_t written out. Bytes are
-- natural numbers. The `double` avg_size is a fraction. The `double` tokens of the rate limiter are whole
-- billionths of a byte, so that elapsed nanoseconds times a rate is exact; what rounding would do to
-- them, and a sleep of more milliseconds than an int64_t holds, are left out.
--
-- Loops over a container are recursions on the list. The loop that reads a file in blocks of 8192 bytes
-- runs on fuel, one round for each byte and one more: each round but the last takes at least one byte.
-- The loops of `acquire`, of decompress and of main run on rounds: the sleep is a quotient rounded down to
-- milliseconds, so that two of them cover what is missing; the room doubles in each round, from at least
-- 4 bytes; main reads the flag once in each.
--
-- Outside: OpenSSL is the record `Ssl`, its functions with their documented laws. SQLite's result
-- codes are the argument `Rc` of each statement, and a failed write changes nothing; the rollback
-- that SQLite makes on its own after some errors is `automatic_rollback`, for the scopes of
-- Metadata/Transactions (the service opens no transaction). The file system is a map from path
-- texts to contents; which paths can be written, the clock, and the value of an unset field are
-- fields of `Env`, one for each call. A write that has been opened stores all its bytes, but in
-- Storage/Writing.
--
-- Paths are compared as texts, so two spellings of one path are two files, and the databases are
-- kept beside the files, not in them. In the code an upload of `metadata.db` writes over the
-- client's database, and a client `./c` opens the one of `c`. Storage/Plain has the names and
-- paths for which a text is one file (`IsName`, `IsPlain`) and where a database is kept
-- (`db_path`); Sync/Databases has what an upload of such a path writes. The other theorems on
-- uploads are to be read for such names too.
--
-- gRPC is the lists that it delivers. zlib is the record `Zlib`, its functions with what its
-- manual says of them. How a number is printed is the record `Format`.
--
-- Not modelled: two threads inside one call of the storage, but for the write of a chunk; the
-- local time, which the logger is given formatted; the notifications of the thread pool, so that a
-- thread that waits takes its step once its condition holds, and a notification that is lost does
-- not show; the rounding of doubles, and the ratios that the benchmarks print; memory that runs
-- out. benchmarks/bench_chunking.cpp only takes times, and the unit tests call the parts above.
pub mod Prelude
pub mod Hash
pub mod Chunker
pub mod Delta
pub mod Conflict
pub mod Metadata
pub mod Storage
pub mod Sync
pub mod ThreadPool
pub mod RateLimiter
pub mod Compression
pub mod Errors
pub mod Metrics
pub mod Logger
pub mod Server
pub mod Tests
pub mod Bench
