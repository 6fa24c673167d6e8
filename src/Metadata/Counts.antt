-- ===== src/Metadata/Counts.antt =====
-- How many chunks a file has.
use dropbox_lite.Prelude.{
  ◌+◌, ◌≤◌, ◌≡◌, refl, ap, List, [], ◌∷◌, ◌++◌, map, true, false, Str, arith, length, length-append,
  append-nil, ◌⊎◌, if◌then◌else◌, if_both, Bool-cases, inl, inr, str_eq, str_eq_iff,
}
use dropbox_lite.Prelude.Int.{ℤ}
use dropbox_lite.Metadata.{
  ChunkRow, chunk_row, order_rows, Db, done, c_str, is_row, other_chunks, chunks_of, insert_chunk,
  get_file_chunks,
}
use dropbox_lite.Metadata.Chunks.{length-get_file_chunks}
use dropbox_lite.Metadata.Keys.{NoRow, DistinctRows, HasKeys}

other_chunks-NoRow :
    (p : Str) (i : ℤ) (rs : List ChunkRow) → NoRow p i rs → other_chunks p i rs ≡ rs
unfolding other_chunks
other_chunks-NoRow p i [] h = refl
other_chunks-NoRow p i (r ∷ rs) h = rw h.0 (ap (◌∷◌ r) (other_chunks-NoRow p i rs h.1))

-- The row `r` is not the one that the key names, where the key is another row's.
NoRow-key :
    (p : Str) (i : ℤ) (r : ChunkRow) (rs : List ChunkRow)
    → is_row p i r ≡ true
    → NoRow r.file_path r.chunk_index rs
    → NoRow p i rs
unfolding is_row
NoRow-key p i r [] e h = tt
NoRow-key p i r (s ∷ rs) e h = (
  ground (
    arith,
    str_eq_iff r.file_path p,
    str_eq_iff s.file_path p,
    str_eq_iff s.file_path r.file_path,
  ),
  NoRow-key p i r rs e h.1,
)

-- A replaced key takes at most one row away.
length-other_chunks :
    (p q : Str) (i : ℤ) (rs : List ChunkRow)
    → DistinctRows rs
    → length (chunks_of p rs) ≤ length (chunks_of p (other_chunks q i rs)) + 1
unfolding chunks_of other_chunks
length-other_chunks p q i [] d = omega arith
length-other_chunks p q i (r ∷ rs) d = elim (Bool-cases (is_row q i r)) [
  | inl hit ↦
      rw (hit, other_chunks-NoRow q i rs (NoRow-key q i r rs hit d.0))
        (if_both (λ (t : List ChunkRow). length t ≤ length (chunks_of p rs) + 1)
          (str_eq r.file_path p) (omega arith) (omega arith))
  | inr miss ↦ rw miss (ground (arith, length-other_chunks p q i rs d.1))
]

pub chunks_of-other_path :
    (p q : Str) (i : ℤ) (rs : List ChunkRow)
    → str_eq q p ≡ false
    → chunks_of p (other_chunks q i rs) ≡ chunks_of p rs
unfolding chunks_of other_chunks is_row
chunks_of-other_path p q i [] h = refl
chunks_of-other_path p q i (r ∷ rs) h = ground (
  arith,
  chunks_of-other_path p q i rs h,
  str_eq_iff r.file_path q,
  str_eq_iff r.file_path p,
  str_eq_iff q p,
)

pub chunks_of-append :
    (p : Str) (rs : List ChunkRow) (r : ChunkRow)
    → chunks_of p (rs ++ r ∷ []) ≡ chunks_of p rs ++ (if str_eq r.file_path p then r ∷ [] else [])
unfolding chunks_of
chunks_of-append p [] r = ground arith
chunks_of-append p (s ∷ rs) r = ground (arith, chunks_of-append p rs r)

-- An insertion, whatever its index, never makes the chunk list of any file shorter, and leaves the
-- list of any other file alone.
pub length-get_file_chunks-insert :
    (path other hash : Str) (index offset size : ℤ) (db : Db)
    → HasKeys db.tables
    → (length (get_file_chunks done other db)
        ≤ length (get_file_chunks done other (insert_chunk done path index hash offset size db).1))
      × (str_eq (c_str path) (c_str other) ≡ false
          → get_file_chunks done other (insert_chunk done path index hash offset size db).1
            ≡ get_file_chunks done other db)
unfolding insert_chunk
length-get_file_chunks-insert path other hash index offset size db v = (
  omega (
    arith,
    length-get_file_chunks other db,
    length-get_file_chunks other (insert_chunk done path index hash offset size db).1,
    grown (Bool-cases (str_eq q p)),
  ),
  λ e.
      unfold get_file_chunks in
      ap (λ (t : List ChunkRow). map (λ (x : ChunkRow). x.hash) (order_rows t)) (kept e),
)
  where
    p : Str
    p = c_str other

    q : Str
    q = c_str path

    rs : List ChunkRow
    rs = db.tables.chunks

    r : ChunkRow
    r = chunk_row path index hash offset size

    kept : str_eq q p ≡ false → chunks_of p (other_chunks q index rs ++ r ∷ []) ≡ chunks_of p rs
    kept e =
        rw
          (
            chunks_of-append p (other_chunks q index rs) r,
            e,
            append-nil (chunks_of p (other_chunks q index rs)),
          )
          (chunks_of-other_path p q index rs e)

    grown :
        (str_eq q p ≡ true) ⊎ (str_eq q p ≡ false)
        → length (chunks_of p rs) ≤ length (chunks_of p (other_chunks q index rs ++ r ∷ []))
    grown (inl e) =
        rw
          (
            chunks_of-append p (other_chunks q index rs) r,
            e,
            length-append {0} (chunks_of p (other_chunks q index rs)) (r ∷ []),
          )
          (omega (arith, length-other_chunks p q index rs v.chunks_distinct))
    grown (inr e) = rw (kept e) (omega arith)
