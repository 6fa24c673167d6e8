-- ===== src/Tests/Deltas.antt =====
-- Deltas.
use dropbox_lite.Prelude.{ℕ, ◌≡◌, refl, [], ◌∷◌, some, none, true, arith, ◌-◌, ◌^◌}
use dropbox_lite.Chunker.{ChunkInfo, ChunkStats, chunk_data}
use dropbox_lite.Chunker.Partition.{total}
use dropbox_lite.Delta.{written, refused, apply_delta, apply_loop, compute_delta}
use dropbox_lite.Delta.Compute.{Splits, compute_delta-Splits}
use dropbox_lite.Delta.Apply.{Outcome, apply_delta-Outcome, apply_delta_cut_short}
use dropbox_lite.Tests.{toy}
use dropbox_lite.Tests.Chunks.{sample}

abbrev pub stats : ChunkStats
stats = record {
  total_chunks = 0;
  min_size = 0;
  max_size = 0;
  avg_size = record { num = 0; den = 1 };
}

-- The chunk of `sample` is the first one that is missing.
compute_delta_example :
    Splits [] (chunk_data toy sample).0 (compute_delta toy stats (some sample) []).0
    × Splits [] [] (compute_delta toy stats none []).0
compute_delta_example = compute_delta-Splits toy stats sample [] (omega arith)

abbrev chunk : ℕ → ChunkInfo
chunk n = record { offset = 0; size = n; hash = [] }

apply_delta_short : apply_delta true (chunk 2 ∷ chunk 2 ∷ []) sample ≡ refused (1 ∷ 2 ∷ [])
unfolding apply_delta apply_loop
apply_delta_short = refl

apply_delta-Outcome_example :
    Outcome
      (total (chunk 2 ∷ chunk 1 ∷ []))
      sample
      (apply_delta true (chunk 2 ∷ chunk 1 ∷ []) sample)
apply_delta-Outcome_example =
    apply_delta-Outcome (chunk 2 ∷ chunk 1 ∷ []) sample (omega arith) (unfold total in omega arith)

apply_delta_cut_short_example :
    apply_delta true (chunk 1 ∷ chunk (2 ^ 64 - 1) ∷ chunk 2 ∷ []) sample ≡ written (1 ∷ [])
unfolding total
apply_delta_cut_short_example =
    apply_delta_cut_short (chunk 1 ∷ []) (chunk (2 ^ 64 - 1)) (chunk 2 ∷ []) sample (omega arith)
      (omega arith) (omega arith) (omega arith)
