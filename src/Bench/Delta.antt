-- ===== src/Bench/Delta.antt =====
-- benchmarks/bench_delta_sync.cpp.
use dropbox_lite.Prelude.{
  ℕ, zero, suc, ◌+◌, ◌*◌, ◌/◌, ◌%◌, List, [], ◌∷◌, ◌++◌, Option, Str, Bytes, length, ltb,
  if◌then◌else◌,
}
use dropbox_lite.Prelude.Words.{add64}
use dropbox_lite.Hash.{Ssl}
use dropbox_lite.Chunker.{ChunkInfo, ChunkStats, chunk_file}
use dropbox_lite.Delta.{contains}
use dropbox_lite.Bench.Dedup.{insert}

-- One row of `createFile`, from a column on, and the rows from a number on. A `char` holds each sum.
unfoldable pub create_row : ℕ → ℕ → ℕ → Bytes
create_row i zero j = []
create_row i (suc n) j = (65 + (i + j) % 26) ∷ create_row i n (j + 1)

unfoldable pub create_rows : ℕ → ℕ → Bytes
unfolding create_row
create_rows zero i = []
create_rows (suc n) i = create_row i 1024 0 ++ create_rows n (i + 1)

unfoldable pub create_file : ℕ → Bytes
unfolding create_rows
create_file size_kb = create_rows size_kb 0

-- `data[i] = b`.
unfoldable pub set_byte : ℕ → ℕ → Bytes → Bytes
set_byte i b [] = []
set_byte zero b (x ∷ xs) = b ∷ xs
set_byte (suc i) b (x ∷ xs) = x ∷ set_byte i b xs

-- The loop of `modifyFile`, on the bytes that are left to modify.
unfoldable pub modify_loop : ℕ → ℕ → ℕ → Bytes → Bytes
unfolding set_byte
modify_loop zero start_pos i bytes = bytes
modify_loop (suc n) start_pos i bytes =
    let rest = modify_loop n start_pos (i + 1) (set_byte (start_pos + i) 88 bytes) in
    if ltb (start_pos + i) (length bytes) then rest else bytes

-- The share to modify in thousandths.
unfoldable pub modify_file : ℕ → Bytes → Bytes
unfolding modify_loop
modify_file share bytes = modify_loop (length bytes * share / 1000) (length bytes / 2) 0 bytes

-- The local variables of `main` for one share.
pub record Measured : Type 0 where
  pub original_chunks : ℕ
  pub modified_chunks : ℕ
  pub original_bytes : ℕ
  pub new_chunks : ℕ
  pub new_bytes : ℕ

unfoldable pub original_set : List Str → List ChunkInfo → List Str
original_set set [] = set
original_set set (c ∷ cs) = original_set (insert c.hash set) cs

unfoldable pub sum_sizes : ℕ → List ChunkInfo → ℕ
sum_sizes n [] = n
sum_sizes n (c ∷ cs) = sum_sizes (add64 n c.size) cs

-- The loop over the modified chunks, on how many are new and their bytes.
unfoldable pub count_one : List Str → ℕ × ℕ → ChunkInfo → ℕ × ℕ
count_one set (new_chunks, new_bytes) c =
    if contains set c.hash
    then (new_chunks, new_bytes)
    else (new_chunks + 1, add64 new_bytes c.size)

unfoldable pub count_new : List Str → ℕ × ℕ → List ChunkInfo → ℕ × ℕ
unfolding count_one
count_new set counted [] = counted
count_new set counted (c ∷ cs) = count_new set (count_one set counted c) cs

module _ (ssl : Ssl) where
  unfoldable pub measure : ChunkStats → Option Bytes → Option Bytes → Measured
  unfolding original_set sum_sizes count_new
  measure st original modified =
      let (original_list, st') = chunk_file ssl st original in
      let (modified_list, _) = chunk_file ssl st' modified in
      let (new_chunks, new_bytes) =
        count_new (original_set [] original_list) (0, 0) modified_list in
      record {
        original_chunks = length original_list;
        modified_chunks = length modified_list;
        original_bytes = sum_sizes 0 original_list;
        new_chunks = new_chunks;
        new_bytes = new_bytes;
      }
