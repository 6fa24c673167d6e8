-- ===== src/Bench.antt =====
-- The benchmarks (benchmarks/bench_dedup.cpp, benchmarks/bench_delta_sync.cpp): the files that they make, how
-- they change them, and what they count. Times, the text that they print, and how a ratio is rounded are
-- left out.
pub mod Dedup
pub mod Stored
pub mod Delta
pub mod Transfer
