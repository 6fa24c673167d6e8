-- ===== src/Chunker/Boundary.antt =====
-- The two tests for a cut.
use dropbox_lite.Prelude.{ℕ, ◌≤◌, ◌<◌, ◌≡◌, ◌⊎◌, arith}
use dropbox_lite.Chunker.{is_boundary, is_chunk_boundary, normalized_chunk_size, k_avg_chunk_size}

-- The test inside the loop and the member function for it agree below the normalized size and from the
-- average size on.
pub is_chunk_boundary-eq-is_boundary :
    (hash size : ℕ)
    → (size < normalized_chunk_size) ⊎ (k_avg_chunk_size ≤ size)
    → is_chunk_boundary hash size ≡ is_boundary hash size
unfolding is_chunk_boundary is_boundary
is_chunk_boundary-eq-is_boundary hash size h = ground arith
