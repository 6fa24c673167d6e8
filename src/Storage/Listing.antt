-- ===== src/Storage/Listing.antt =====
-- The chunk list of a file to which chunks come in order.
use dropbox_lite.Prelude.{
  ℕ, ◌≤◌, ◌≡◌, refl, sym, ap, subst, ◌∙◌, List, [], ◌∷◌, ◌++◌, none, true, Str, All, All-append,
  length, length-append, arith,
}
use dropbox_lite.Prelude.Int.{ℤ, pos}
use dropbox_lite.Hash.Hex.{IsHexDigit}
use dropbox_lite.Metadata.{Db, ChunkRow, done, c_str, chunks_of, get_file_chunks, insert_chunk}
use dropbox_lite.Metadata.Chunks.{Before, get_file_chunks-insert, chunks_of-insert}

-- A text without a NUL is bound whole.
pub c_str-hex : (h : Str) → All IsHexDigit h → c_str h ≡ h
unfolding c_str
c_str-hex [] a = refl
c_str-hex (c ∷ cs) a = ground (arith, c_str-hex cs a.1)

Before-next : (n m : ℕ) (rs : List ChunkRow) → n ≤ m → Before (pos n) rs → Before (pos m) rs
Before-next n m [] h b = tt
Before-next n m (r ∷ rs) h b = (omega arith, Before-next n m rs h b.1)

-- The chunk list of a file in one database: the hashes, at the indices from 0 on.
pub record Listed (path : Str) (hashes : List Str) (db : Db) : Type 0 where
  pub listed : get_file_chunks done path db ≡ hashes
  pub before : Before (pos (length hashes)) (chunks_of (c_str path) db.tables.chunks)
  pub settled : db.saved ≡ none

pub insert_chunk-Listed :
    (path hash : Str) (hashes : List Str) (size : ℤ) (db : Db)
    → c_str hash ≡ hash
    → Listed path hashes db
    → ((insert_chunk done path (pos (length hashes)) hash (pos 0) size db).0 ≡ true)
      × Listed path
          (hashes ++ hash ∷ [])
          (insert_chunk done path (pos (length hashes)) hash (pos 0) size db).1
insert_chunk-Listed path hash hashes size db eh v = (
  unfold insert_chunk in refl,
  record {
    listed =
        get_file_chunks-insert path hash (pos (length hashes)) (pos 0) size db v.before
        ∙ (ap (λ (t : List Str). t ++ c_str hash ∷ []) v.listed
            ∙ ap (λ (t : Str). hashes ++ t ∷ []) eh);
    before = rows;
    settled = unfold insert_chunk in v.settled;
  },
)
  where
    new :
        (r : ChunkRow) × (chunks_of
            (c_str path)
            (insert_chunk done path (pos (length hashes)) hash (pos 0) size db).1.tables.chunks
          ≡ chunks_of (c_str path) db.tables.chunks ++ r ∷ [])
        × (r.chunk_index ≡ pos (length hashes))
    new = chunks_of-insert path hash (pos (length hashes)) (pos 0) size db v.before

    rows : Before (pos (length (hashes ++ hash ∷ []))) (
        chunks_of
          (c_str path)
          (insert_chunk done path (pos (length hashes)) hash (pos 0) size db).1.tables.chunks)
    rows = subst (Before (pos (length (hashes ++ hash ∷ [])))) (sym new.1) (
        All-append _ (chunks_of (c_str path) db.tables.chunks) (new.0 ∷ [])
          (Before-next (length hashes) (length (hashes ++ hash ∷ []))
            (chunks_of (c_str path) db.tables.chunks)
            (omega (arith, length-append {0} hashes (hash ∷ []))) v.before)
          (rw new.2 (omega (arith, length-append {0} hashes (hash ∷ []))), tt))
