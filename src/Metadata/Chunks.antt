-- ===== src/Metadata/Chunks.antt =====
-- The table `chunks`: a file's chunk list.
use dropbox_lite.Prelude.{
  suc, ◌≡◌, refl, ap, ◌∙◌, List, [], ◌∷◌, ◌++◌, map, Str, All, arith, length, Bool-cases, inl, inr,
  str_eq, str_eq_iff,
}
use dropbox_lite.Prelude.Int.{ℤ, ◌<ℤ◌}
use mathlib.Core.List.{map-append}
use dropbox_lite.Metadata.{
  ChunkRow, chunk_row, Db, done, c_str, is_row, other_chunks, chunks_of, insert_row, order_rows,
  insert_chunk, get_file_chunks,
}

-- Every row of these is before the index.
abbrev pub Before : ℤ → List ChunkRow → Type 0
Before i = All (λ r. r.chunk_index <ℤ i)

-- An index that the file has not reached removes none of its rows.
chunks_of-other_chunks :
    (p : Str) (i : ℤ) (rs : List ChunkRow)
    → Before i (chunks_of p rs)
    → chunks_of p (other_chunks p i rs) ≡ chunks_of p rs
unfolding chunks_of other_chunks is_row
chunks_of-other_chunks p i [] h = refl
chunks_of-other_chunks p i (r ∷ rs) h = elim (Bool-cases (str_eq r.file_path p)) [
  | inl same ↦ ground (arith, chunks_of-other_chunks p i rs)
  | inr other ↦ ground (arith, chunks_of-other_chunks p i rs)
]

pub chunks_of-append_same :
    (p : Str) (rs : List ChunkRow) (r : ChunkRow)
    → r.file_path ≡ p
    → chunks_of p (rs ++ r ∷ []) ≡ chunks_of p rs ++ r ∷ []
unfolding chunks_of
chunks_of-append_same p [] r e = ground (arith, str_eq_iff r.file_path p)
chunks_of-append_same p (s ∷ rs) r e = ground (arith, chunks_of-append_same p rs r e)

insert_row-last :
    (x r : ChunkRow) (rs : List ChunkRow)
    → x.chunk_index <ℤ r.chunk_index
    → insert_row x (rs ++ r ∷ []) ≡ insert_row x rs ++ r ∷ []
unfolding insert_row
insert_row-last x r [] h = ground arith
insert_row-last x r (s ∷ rs) h = ground (arith, insert_row-last x r rs h)

order_rows-last :
    (rs : List ChunkRow) (r : ChunkRow)
    → Before r.chunk_index rs
    → order_rows (rs ++ r ∷ []) ≡ order_rows rs ++ r ∷ []
unfolding order_rows
order_rows-last [] r h = unfold insert_row in refl
order_rows-last (s ∷ rs) r h =
    rw (order_rows-last rs r h.1) (insert_row-last s r (order_rows rs) h.0)

-- A chunk with an index above those of the file's other chunks becomes the last of its list.
pub get_file_chunks-insert :
    (path hash : Str) (index offset size : ℤ) (db : Db)
    → Before index (chunks_of (c_str path) db.tables.chunks)
    → get_file_chunks done path (insert_chunk done path index hash offset size db).1
      ≡ get_file_chunks done path db ++ c_str hash ∷ []
unfolding get_file_chunks insert_chunk
get_file_chunks-insert path hash index offset size db h =
    let p = c_str path in
    let rs = db.tables.chunks in
    let r = chunk_row path index hash offset size in
    let own : chunks_of p (other_chunks p index rs ++ r ∷ []) ≡ chunks_of p rs ++ r ∷ [] =
      chunks_of-append_same p (other_chunks p index rs) r refl
      ∙ ap (λ (t : List ChunkRow). t ++ r ∷ []) (chunks_of-other_chunks p index rs h) in
    ap (λ (t : List ChunkRow). map (λ (x : ChunkRow). x.hash) t)
      (ap order_rows own ∙ order_rows-last (chunks_of p rs) r h)
    ∙ map-append (λ (x : ChunkRow). x.hash) (order_rows (chunks_of p rs)) (r ∷ [])

-- The rows of the file are then those before, and the new one at the end.
pub chunks_of-insert :
    (path hash : Str) (index offset size : ℤ) (db : Db)
    → Before index (chunks_of (c_str path) db.tables.chunks)
    → (r : ChunkRow) × (chunks_of
          (c_str path)
          (insert_chunk done path index hash offset size db).1.tables.chunks
        ≡ chunks_of (c_str path) db.tables.chunks ++ r ∷ [])
      × (r.chunk_index ≡ index)
unfolding insert_chunk
chunks_of-insert path hash index offset size db h =
    let r = chunk_row path index hash offset size in
    (
      r,
      chunks_of-append_same (c_str path) (other_chunks (c_str path) index db.tables.chunks) r refl
          ∙ ap (λ (t : List ChunkRow). t ++ r ∷ [])
              (chunks_of-other_chunks (c_str path) index db.tables.chunks h),
      refl,
    )

length-insert_row : (x : ChunkRow) (rs : List ChunkRow) → length (insert_row x rs) ≡ suc (length rs)
unfolding insert_row
length-insert_row x [] = refl
length-insert_row x (s ∷ rs) = ground (arith, length-insert_row x rs)

length-order_rows : (rs : List ChunkRow) → length (order_rows rs) ≡ length rs
unfolding order_rows
length-order_rows [] = refl
length-order_rows (r ∷ rs) = length-insert_row r (order_rows rs) ∙ ap suc (length-order_rows rs)

length-hashes : (rs : List ChunkRow) → length (map (λ (r : ChunkRow). r.hash) rs) ≡ length rs
length-hashes [] = refl
length-hashes (r ∷ rs) = ap suc (length-hashes rs)

-- The list has one hash for each row of the file.
pub length-get_file_chunks :
    (path : Str) (db : Db)
    → length (get_file_chunks done path db) ≡ length (chunks_of (c_str path) db.tables.chunks)
unfolding get_file_chunks
length-get_file_chunks path db = length-hashes _ ∙ length-order_rows _
