-- ===== src/Compression.antt =====
-- Compression (include/common/compression.h, src/common/compression.cpp). zlib is the parameter `Zlib`:
-- its `compress`, `compressBound` and `uncompress`. An exception is an outcome; memory does not run out.
pub mod RoundTrip
use dropbox_lite.Prelude.{
  ℕ, zero, suc, ◌+◌, ◌*◌, ◌≤◌, ◌<◌, ◌≡◌, ◌≢◌, List, [], ◌∷◌, Bool, Bytes, length, leb,
  if◌then◌else◌,
}
use dropbox_lite.Prelude.Words.{mul64}

-- What a call of zlib answers, with what it has written.
pub data Code : Type 0 where
  z_ok : Bytes → Code
  z_buf_error : Bytes → Code
  z_failed : Code

-- What the code calls of zlib, and what the manual promises of it.
pub record Zlib : Type 0 where
  pub compress_bound : ℕ → ℕ
  -- Source, and the room in the destination.
  pub compress : Bytes → ℕ → Code
  pub uncompress : Bytes → ℕ → Code
  -- "compressBound() returns an upper bound on the compressed size."
  pub compress_fits :
      (d : Bytes) (room : ℕ)
      → compress_bound (length d) ≤ room
      → (c : Bytes) × (compress d room ≡ z_ok c) × (c ≢ []) × (length c ≤ room)
  -- With enough room a compressed text comes back; without, the room is filled with its beginning.
  pub uncompress_compress :
      (d c : Bytes) (room size : ℕ)
      → compress d room ≡ z_ok c
      → length d ≤ size
      → uncompress c size ≡ z_ok d
  pub uncompress_short :
      (d c : Bytes) (room size : ℕ)
      → compress d room ≡ z_ok c
      → size < length d
      → (part : Bytes) × (uncompress c size ≡ z_buf_error part) × (length part ≡ size)

abbrev pub k_min_compression_size : ℕ
k_min_compression_size = 1024

-- How a call ends: with bytes, by an exception, or not within the rounds looked at.
pub data Outcome : Type 0 where
  bytes : Bytes → Outcome
  thrown : Outcome
  looping : Outcome

-- One round of `decompress`, by what zlib answered: it comes back with what has been written, and the
-- room for the next round is twice that.
abbrev pub after_uncompress : (ℕ → Outcome) → Code → Outcome
after_uncompress next (z_ok d) = bytes d
after_uncompress next (z_buf_error part) = next (mul64 (length part) 2)
after_uncompress next z_failed = thrown

abbrev pub after_compress : Code → Outcome
after_compress (z_ok c) = bytes c
after_compress _ = thrown

module _ (z : Zlib) where
  unfoldable pub compress : Bytes → Outcome
  compress [] = bytes []
  compress (b ∷ bs) = after_compress (z.compress (b ∷ bs) (z.compress_bound (length (b ∷ bs))))

  -- The loop, on the rounds looked at and the room.
  unfoldable pub decompress_loop : ℕ → Bytes → ℕ → Outcome
  decompress_loop zero src room = looping
  decompress_loop (suc rounds) src room =
      after_uncompress (decompress_loop rounds src) (z.uncompress src room)

  unfoldable pub decompress : ℕ → Bytes → Outcome
  decompress rounds [] = bytes []
  decompress rounds (b ∷ bs) = decompress_loop rounds (b ∷ bs) (mul64 (length (b ∷ bs)) 4)

unfoldable pub should_compress : ℕ → Bool
should_compress data_size = leb k_min_compression_size data_size
