-- ===== src/Metadata/Order.antt =====
-- The order in which the chunks of a file come in does not show in its chunk list.
use dropbox_lite.Prelude.{
  ◌≡◌, ◌≢◌, refl, sym, ap, ◌∙◌, List, [], ◌∷◌, ◌++◌, map, false, Str, arith, str_eq_iff,
}
use dropbox_lite.Prelude.Int.{ℤ, eqb_ℤ_iff}
use dropbox_lite.Metadata.{
  ChunkRow, chunk_row, Db, done, c_str, is_row, other_chunks, chunks_of, insert_row, order_rows,
  insert_chunk, get_file_chunks,
}

other_chunks-keep :
    (p : Str) (i : ℤ) (rs : List ChunkRow) (r : ChunkRow)
    → is_row p i r ≡ false
    → other_chunks p i (rs ++ r ∷ []) ≡ other_chunks p i rs ++ r ∷ []
unfolding other_chunks
other_chunks-keep p i [] r e = rw e
other_chunks-keep p i (s ∷ rs) r e = ground (arith, other_chunks-keep p i rs r e)

other_chunks_comm :
    (p : Str) (i j : ℤ) (rs : List ChunkRow)
    → other_chunks p i (other_chunks p j rs) ≡ other_chunks p j (other_chunks p i rs)
unfolding other_chunks
other_chunks_comm p i j [] = refl
other_chunks_comm p i j (r ∷ rs) = ground (arith, other_chunks_comm p i j rs)

chunks_of-two :
    (p : Str) (rs : List ChunkRow) (a b : ChunkRow)
    → a.file_path ≡ p
    → b.file_path ≡ p
    → chunks_of p ((rs ++ a ∷ []) ++ b ∷ []) ≡ chunks_of p rs ++ (a ∷ b ∷ [])
unfolding chunks_of
chunks_of-two p [] a b ea eb = ground (arith, str_eq_iff a.file_path p, str_eq_iff b.file_path p)
chunks_of-two p (r ∷ rs) a b ea eb = ground (arith, chunks_of-two p rs a b ea eb)

order_rows-swap :
    (rs : List ChunkRow) (a b : ChunkRow)
    → a.chunk_index ≢ b.chunk_index
    → order_rows (rs ++ (a ∷ b ∷ [])) ≡ order_rows (rs ++ (b ∷ a ∷ []))
unfolding order_rows
order_rows-swap [] a b ne = unfold insert_row in ground arith
order_rows-swap (r ∷ rs) a b ne = ap (insert_row r) (order_rows-swap rs a b ne)

-- The rows of a file after two insertions.
rows-insert :
    (p : Str) (i j : ℤ) (rs : List ChunkRow) (a b : ChunkRow)
    → a.file_path ≡ p
    → b.file_path ≡ p
    → a.chunk_index ≡ i
    → i ≢ j
    → chunks_of p (other_chunks p j (other_chunks p i rs ++ a ∷ []) ++ b ∷ [])
      ≡ chunks_of p (other_chunks p j (other_chunks p i rs)) ++ (a ∷ b ∷ [])
rows-insert p i j rs a b ea eb ei ne =
    let kept : is_row p j a ≡ false = unfold is_row in ground (arith, eqb_ℤ_iff a.chunk_index j) in
    ap (λ (t : List ChunkRow). chunks_of p (t ++ b ∷ []))
      (other_chunks-keep p j (other_chunks p i rs) a kept)
    ∙ chunks_of-two p (other_chunks p j (other_chunks p i rs)) a b ea eb

-- Two chunks of a file with different indices may come in either order: the chunk list is the same.
pub get_file_chunks-insert_comm :
    (path h k : Str) (i j o o' n n' : ℤ) (db : Db)
    → i ≢ j
    → get_file_chunks done path
        (insert_chunk done path j k o' n' (insert_chunk done path i h o n db).1).1
      ≡ get_file_chunks done path
          (insert_chunk done path i h o n (insert_chunk done path j k o' n' db).1).1
unfolding get_file_chunks insert_chunk
get_file_chunks-insert_comm path h k i j o o' n n' db ne =
    let p = c_str path in
    let rs = db.tables.chunks in
    let a = chunk_row path i h o n in
    let b = chunk_row path j k o' n' in
    ap (λ (t : List ChunkRow). map (λ (r : ChunkRow). r.hash) t)
      (ap order_rows (rows-insert p i j rs a b refl refl refl ne)
        ∙ (order_rows-swap (chunks_of p (other_chunks p j (other_chunks p i rs))) a b ne
            ∙ (ap (λ (t : List ChunkRow). order_rows (chunks_of p t ++ (b ∷ a ∷ [])))
                  (other_chunks_comm p j i rs)
                ∙ ap order_rows (sym (rows-insert p j i rs b a refl refl refl (λ e. ne (sym e)))))))
