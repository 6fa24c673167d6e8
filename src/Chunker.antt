-- ===== src/Chunker.antt =====
-- Chunker (include/common/chunker.h, src/common/chunker.cpp): content-defined chunking of a buffer
-- and of a file. The average of the statistics, a `double` there, is kept as a fraction.
pub mod Pieces
pub mod Partition
pub mod Resync
pub mod Prefix
pub mod Stats
pub mod Boundary
use dropbox_lite.Prelude.{
  ℕ, zero, suc, ◌+◌, ◌-◌, ◌*◌, ◌/◌, ◌^◌, List, [], ◌∷◌, ◌++◌, Option, none, some, Bool, true, false,
  ◌&&◌, ◌||◌, Bytes, Str, length, take, drop, ltb, leb, ◌==◌, if◌then◌else◌, bit_and,
}
use dropbox_lite.Hash.{Ssl, sha256}
use dropbox_lite.Hash.Rolling
use dropbox_lite.Hash.Rolling.{RollingHash}

pub record ChunkInfo : Type 0 where
  pub offset : ℕ
  pub size : ℕ
  pub hash : Str

abbrev pub k_min_chunk_size : ℕ
k_min_chunk_size = 4 * 1024

abbrev pub k_avg_chunk_size : ℕ
k_avg_chunk_size = 64 * 1024

abbrev pub k_max_chunk_size : ℕ
k_max_chunk_size = 1024 * 1024

abbrev pub k_mask : ℕ
k_mask = 2 ^ 16 - 1

pub record Fraction : Type 0 where
  pub num : ℕ
  pub den : ℕ

pub record ChunkStats : Type 0 where
  pub total_chunks : ℕ
  pub min_size : ℕ
  pub max_size : ℕ
  pub avg_size : Fraction

-- The local variables of `chunkData`.
pub record State : Type 0 where
  pub chunks : List ChunkInfo
  pub rolling_hash : RollingHash
  pub chunk_start : ℕ
  pub min_size : ℕ
  pub max_size : ℕ
  pub total_size : ℕ

abbrev pub normalized_chunk_size : ℕ
normalized_chunk_size = k_min_chunk_size + (k_avg_chunk_size - k_min_chunk_size) / 2

-- `is_boundary`: the half mask in the early region, the full mask after it, never before the minimum.
unfoldable pub is_boundary : ℕ → ℕ → Bool
is_boundary hash chunk_size =
    if leb k_min_chunk_size chunk_size && ltb chunk_size normalized_chunk_size
    then bit_and hash (k_mask / 2) == 0
    else if leb normalized_chunk_size chunk_size
    then bit_and hash k_mask == 0
    else false

-- `isChunkBoundary`, which nothing calls.
unfoldable pub is_chunk_boundary : ℕ → ℕ → Bool
is_chunk_boundary hash current_size =
    if ltb current_size k_min_chunk_size
    then false
    else if ltb current_size k_avg_chunk_size
    then bit_and hash (k_mask / 2) == 0
    else bit_and hash k_mask == 0

-- [data.begin() + start, data.begin() + stop)
abbrev pub slice : Bytes → ℕ → ℕ → Bytes
slice bytes start stop = take (stop - start) (drop start bytes)

-- A fresh loop state; the window is 48 bytes.
unfoldable pub start : State
start = record {
  chunks = [];
  rolling_hash = Rolling.new 48;
  chunk_start = 0;
  min_size = 0;
  max_size = 0;
  total_size = 0;
}

unfoldable pub stats_of : State → ChunkStats
stats_of s = record {
  total_chunks = length s.chunks;
  min_size = s.min_size;
  max_size = s.max_size;
  avg_size =
      if length s.chunks == 0
      then record { num = 0; den = 1 }
      else record { num = s.total_size; den = length s.chunks };
}

module _ (ssl : Ssl) where
  unfoldable pub create_chunk : Bytes → ℕ → State → State
  create_chunk bytes i s =
      let chunk_data = slice bytes s.chunk_start (i + 1) in
      let size = length chunk_data in
      record {
        chunks =
            s.chunks
            ++ (record { offset = s.chunk_start; size = size; hash = sha256 ssl chunk_data }) ∷ [];
        rolling_hash = Rolling.reset s.rolling_hash;
        chunk_start = i + 1;
        min_size = if s.min_size == 0 || ltb size s.min_size then size else s.min_size;
        max_size = if ltb s.max_size size then size else s.max_size;
        total_size = s.total_size + size;
      }

  -- The body of the loop.
  unfoldable pub step : Bytes → ℕ → ℕ → State → State
  step bytes i byte s =
      let rolling = Rolling.append s.rolling_hash byte in
      let chunk_size = i + 1 - s.chunk_start in
      let s' = record s { rolling_hash = rolling } in
      if is_boundary rolling.hash chunk_size
        || leb k_max_chunk_size chunk_size
        || (i == (length bytes - 1))
      then create_chunk bytes i s'
      else s'

  -- The loop from index `i`, over the bytes that are left.
  unfoldable pub scan : Bytes → ℕ → Bytes → State → State
  scan bytes i [] s = s
  scan bytes i (b ∷ rest) s = scan bytes (i + 1) rest (step bytes i b s)

  -- The chunks, and the statistics left in `last_stats_`.
  unfoldable pub chunk_data : Bytes → List ChunkInfo × ChunkStats
  chunk_data [] = (
    [],
    record { total_chunks = 0; min_size = 0; max_size = 0; avg_size = record { num = 0; den = 1 } },
  )
  chunk_data (b ∷ bs) = let s = scan (b ∷ bs) 0 (b ∷ bs) start in (s.chunks, stats_of s)

  -- A file that cannot be opened gives no chunk and leaves the statistics alone.
  unfoldable pub chunk_file : ChunkStats → Option Bytes → List ChunkInfo × ChunkStats
  chunk_file last_stats none = ([], last_stats)
  chunk_file last_stats (some content) = chunk_data content
