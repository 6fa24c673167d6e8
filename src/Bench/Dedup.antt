-- ===== src/Bench/Dedup.antt =====
-- benchmarks/bench_dedup.cpp.
use dropbox_lite.Prelude.{
  ℕ, zero, suc, ◌+◌, List, [], ◌∷◌, ◌++◌, Option, Str, Bytes, codes, ◌≡◌, arith, if◌then◌else◌,
  str_eq_iff,
}
use dropbox_lite.Prelude.Words.{add64}
use dropbox_lite.Prelude.Dict.{Dict, put}
use dropbox_lite.Hash.{Ssl}
use dropbox_lite.Chunker.{ChunkInfo, ChunkStats, chunk_file}
use dropbox_lite.Delta.{contains}

-- `std::to_string` is an argument.
module _ (show : ℕ → Str) where
  -- The lines from a number on.
  unfoldable pub base_lines : ℕ → ℕ → Bytes
  base_lines zero i = []
  base_lines (suc n) i =
      (codes "This is line " ++ (show i ++ (codes " of the document." ++ 10 ∷ [])))
      ++ base_lines n (i + 1)

  unfoldable pub unique_lines : ℕ → ℕ → ℕ → Bytes
  unique_lines file zero j = []
  unique_lines file (suc n) j =
      (codes "Unique content for file " ++ (show file ++ (codes " line " ++ (show j ++ 10 ∷ []))))
      ++ unique_lines file n (j + 1)

  unfoldable pub file_path : Str → ℕ → Str
  file_path base_path i = base_path ++ (codes "_" ++ (show i ++ codes ".txt"))

  -- The loop of `createSimilarFiles`, with how many files are left.
  unfoldable pub create_files : Str → ℕ → ℕ → Dict Bytes → Dict Bytes
  unfolding base_lines unique_lines file_path
  create_files base_path zero i files = files
  create_files base_path (suc n) i files =
      create_files base_path n (i + 1)
        (put files (file_path base_path i) (base_lines 10000 0 ++ unique_lines i 1000 0))

  unfoldable pub create_similar_files : Str → ℕ → Dict Bytes → Dict Bytes
  unfolding create_files
  create_similar_files base_path count files = create_files base_path count 0 files

-- `std::set::insert`.
abbrev pub insert : Str → List Str → List Str
insert h set = if contains set h then set else h ∷ set

pub contains-insert :
    (h k : Str) (set : List Str) → contains (insert h set) k ≡ contains (h ∷ set) k
unfolding contains
contains-insert h k set = ground (arith, str_eq_iff h k)

-- The local variables of `main`.
pub record Measured : Type 0 where
  pub unique_chunks : List Str
  pub total_chunks : ℕ
  pub total_bytes : ℕ
  pub unique_bytes : ℕ

abbrev pub nothing_measured : Measured
nothing_measured = record {
  unique_chunks = [];
  total_chunks = 0;
  total_bytes = 0;
  unique_bytes = 0;
}

unfoldable pub measure_chunk : Measured → ChunkInfo → Measured
measure_chunk m chunk = record {
  unique_chunks = insert chunk.hash m.unique_chunks;
  total_chunks = m.total_chunks + 1;
  total_bytes = add64 m.total_bytes chunk.size;
  unique_bytes =
      if contains m.unique_chunks chunk.hash
      then m.unique_bytes
      else add64 m.unique_bytes chunk.size;
}

unfoldable pub measure_chunks : Measured → List ChunkInfo → Measured
unfolding measure_chunk
measure_chunks m [] = m
measure_chunks m (c ∷ cs) = measure_chunks (measure_chunk m c) cs

module _ (ssl : Ssl) where
  -- The loop over the files, each as it is found, with one chunker for all.
  unfoldable pub measure_files : ChunkStats → Measured → List (Option Bytes) → Measured
  unfolding measure_chunks
  measure_files st m [] = m
  measure_files st m (f ∷ fs) =
      let (chunks, st') = chunk_file ssl st f in measure_files st' (measure_chunks m chunks) fs
