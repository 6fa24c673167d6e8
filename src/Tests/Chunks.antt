-- ===== src/Tests/Chunks.antt =====
-- Chunking.
use dropbox_lite.Prelude.{◌≡◌, refl, [], ◌∷◌, Bytes}
use dropbox_lite.Chunker.{chunk_data, scan, step, is_boundary, start, create_chunk}
use dropbox_lite.Chunker.Partition.{
  IsPartition, InLimits, sizes, chunk_data-IsPartition, chunk_data-InLimits,
}
use dropbox_lite.Chunker.Resync.{bodies, chunk_data_resync}
use dropbox_lite.Tests.{toy}

abbrev pub sample : Bytes
sample = 1 ∷ 2 ∷ 3 ∷ []

sizes-chunk_data : sizes (chunk_data toy sample).0 ≡ 3 ∷ []
unfolding chunk_data scan step is_boundary start create_chunk
sizes-chunk_data = refl

chunk_data-IsPartition_example : IsPartition toy 0 (chunk_data toy sample).0 sample
chunk_data-IsPartition_example = chunk_data-IsPartition toy sample

chunk_data-InLimits_example : InLimits (sizes (chunk_data toy sample).0)
chunk_data-InLimits_example = chunk_data-InLimits toy sample

chunk_data_resync_example : bodies (chunk_data toy sample).0 ≡ bodies (chunk_data toy sample).0
chunk_data_resync_example =
    chunk_data_resync toy sample sample [] (chunk_data toy sample).0 [] (chunk_data toy sample).0
      refl refl refl
