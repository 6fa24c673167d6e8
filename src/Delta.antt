-- ===== src/Delta.antt =====
-- DeltaEngine (include/core/delta_engine.h, src/core/delta_engine.cpp). Files come in as their
-- content (`none` cannot be opened), and the file that `applyDelta` writes goes out.
pub mod Compute
pub mod Edit
pub mod Apply
pub mod Identical
use dropbox_lite.Prelude.{
  ℕ, ◌+◌, ◌≡◌, List, [], ◌∷◌, ◌++◌, Option, none, some, Bool, true, false, not, ◌&&◌, ◌||◌, Bytes,
  Str, ◌^◌, length, leb, ltb, ◌==◌, if◌then◌else◌, str_eq, take, drop,
}
use dropbox_lite.Prelude.Words.{add64}
use dropbox_lite.Hash.{Ssl, sha256_file}
use dropbox_lite.Chunker.{ChunkInfo, ChunkStats, chunk_file}

pub record DeltaInfo : Type 0 where
  pub new_chunks : List ChunkInfo
  pub existing_chunks : List ChunkInfo
  pub bytes_to_transfer : ℕ

-- `std::set::find`, and `std::set`'s constructor from a range, which keeps one of equal elements.
unfoldable pub contains : List Str → Str → Bool
contains [] h = false
contains (x ∷ xs) h = str_eq x h || contains xs h

unfoldable pub convert_to_set : List Str → List Str
convert_to_set [] = []
convert_to_set (h ∷ hs) = let rest = convert_to_set hs in if contains rest h then rest else h ∷ rest

-- The body of the loop over the local chunks.
unfoldable pub classify : List Str → DeltaInfo → ChunkInfo → DeltaInfo
classify server delta chunk =
    if contains server chunk.hash
    then record delta { existing_chunks = delta.existing_chunks ++ chunk ∷ [] }
    else record delta {
      new_chunks = delta.new_chunks ++ chunk ∷ [];
      bytes_to_transfer = add64 delta.bytes_to_transfer chunk.size;
    }

unfoldable pub classify_all : List Str → DeltaInfo → List ChunkInfo → DeltaInfo
classify_all server delta [] = delta
classify_all server delta (c ∷ cs) = classify_all server (classify server delta c) cs

-- What `applyDelta` comes to: `true` or `false` with what the file then holds, or no file.
pub data Applied : Type 0 where
  written : Bytes → Applied
  refused : Bytes → Applied
  not_opened : Applied

-- The stream: whether it is good, and what it has written.
pub record Ofstream : Type 0 where
  pub good : Bool
  pub content : Bytes

-- `file.write` of the first `size` bytes from a position. The size is converted to the signed
-- `std::streamsize`: from 2^63 on it is negative, which sets the bad bit, and a stream that is not good
-- writes nothing.
unfoldable pub file_write : Ofstream → ℕ → Bytes → Ofstream
file_write out size bytes =
    if out.good && ltb size (2 ^ 63)
    then record out { content = out.content ++ take size bytes }
    else record out { good = false }

-- The loop, on the position in the buffer and the stream, which is never looked at. The guard's sum is
-- a `size_t`; a buffer has fewer than 2^63 bytes, so that what is written lies within it.
unfoldable pub apply_loop : ℕ → Ofstream → List ChunkInfo → Bytes → Applied
unfolding file_write
apply_loop data_offset out [] bytes = written out.content
apply_loop data_offset out (c ∷ cs) bytes =
    let next =
      apply_loop (add64 data_offset c.size) (file_write out c.size (drop data_offset bytes)) cs
        bytes in
    if ltb (length bytes) (add64 data_offset c.size) then refused out.content else next

abbrev pub opened_stream : Bytes → Ofstream
opened_stream content = record { good = true; content = content }

unfoldable pub apply_delta : Bool → List ChunkInfo → Bytes → Applied
apply_delta opened chunks bytes =
    if opened then apply_loop 0 (opened_stream []) chunks bytes else not_opened

module _ (ssl : Ssl) where
  -- With the statistics that the engine's chunker is left with.
  unfoldable pub compute_delta : ChunkStats → Option Bytes → List Str → DeltaInfo × ChunkStats
  compute_delta last_stats file server_chunk_hashes =
      let (local_chunks, stats) = chunk_file ssl last_stats file in
      let empty =
        let d : DeltaInfo = record {
          new_chunks = [];
          existing_chunks = [];
          bytes_to_transfer = 0;
        } in
        d in
      (classify_all (convert_to_set server_chunk_hashes) empty local_chunks, stats)

  unfoldable pub are_files_identical : Option Bytes → Option Bytes → Option Bool
  are_files_identical file1 file2 = elim (sha256_file ssl file1) [
    | none ↦ none
    | some hash1 ↦ elim (sha256_file ssl file2) [
      | none ↦ none
      | some hash2 ↦ some (not (str_eq hash1 []) && str_eq hash1 hash2)
    ]
  ]
