-- ===== src/Metadata/Keys.antt =====
-- The primary keys: no two rows share one.
use dropbox_lite.Prelude.{
  ◌≡◌, refl, List, [], ◌∷◌, ◌++◌, false, Str, All, All-append, arith, if_both, Bool-cases, inl, inr,
  str_eq, str_eq_iff,
}
use dropbox_lite.Prelude.Int.{ℤ}
use dropbox_lite.Metadata.{
  FileRecord, ChunkRow, chunk_row, write, prepare_failed, step_failed, Tables, Db, Rc, done, c_str,
  bound, is_row, other_files, other_chunks, mark_deleted, insert_chunk, insert_or_update_file,
  delete_file, update_last_sync_time,
}

abbrev pub NoFile : Str → List FileRecord → Type 0
NoFile p = All (λ r. str_eq r.path p ≡ false)

abbrev pub DistinctFiles : List FileRecord → Type 0
DistinctFiles [] = Unit
DistinctFiles (r ∷ rs) = NoFile r.path rs × DistinctFiles rs

abbrev pub NoRow : Str → ℤ → List ChunkRow → Type 0
NoRow p i = All (λ r. is_row p i r ≡ false)

abbrev pub DistinctRows : List ChunkRow → Type 0
DistinctRows [] = Unit
DistinctRows (r ∷ rs) = NoRow r.file_path r.chunk_index rs × DistinctRows rs

-- The primary keys of the schema.
pub record HasKeys (t : Tables) : Type 0 where
  pub files_distinct : DistinctFiles t.files
  pub chunks_distinct : DistinctRows t.chunks

NoRow-other_chunks_self : (p : Str) (i : ℤ) (rs : List ChunkRow) → NoRow p i (other_chunks p i rs)
unfolding other_chunks
NoRow-other_chunks_self p i [] = tt
NoRow-other_chunks_self p i (r ∷ rs) = elim (Bool-cases (is_row p i r)) [
  | inl hit ↦ rw hit (NoRow-other_chunks_self p i rs)
  | inr miss ↦ rw miss (miss, NoRow-other_chunks_self p i rs)
]

NoRow-other_chunks :
    (p q : Str) (i j : ℤ) (rs : List ChunkRow) → NoRow p i rs → NoRow p i (other_chunks q j rs)
unfolding other_chunks
NoRow-other_chunks p q i j [] h = tt
NoRow-other_chunks p q i j (r ∷ rs) h =
    if_both (NoRow p i) (is_row q j r) (NoRow-other_chunks p q i j rs h.1)
      (h.0, NoRow-other_chunks p q i j rs h.1)

DistinctRows-other_chunks :
    (p : Str) (i : ℤ) (rs : List ChunkRow) → DistinctRows rs → DistinctRows (other_chunks p i rs)
unfolding other_chunks
DistinctRows-other_chunks p i [] h = tt
DistinctRows-other_chunks p i (r ∷ rs) h =
    if_both DistinctRows (is_row p i r) (DistinctRows-other_chunks p i rs h.1) (
      NoRow-other_chunks r.file_path p r.chunk_index i rs h.0,
      DistinctRows-other_chunks p i rs h.1,
    )

is_row_sym :
    (r s : ChunkRow)
    → is_row r.file_path r.chunk_index s ≡ false
    → is_row s.file_path s.chunk_index r ≡ false
unfolding is_row
is_row_sym r s h =
    ground (arith, str_eq_iff r.file_path s.file_path, str_eq_iff s.file_path r.file_path)

DistinctRows-append :
    (rs : List ChunkRow) (r : ChunkRow)
    → NoRow r.file_path r.chunk_index rs
    → DistinctRows rs
    → DistinctRows (rs ++ r ∷ [])
DistinctRows-append [] r h d = (tt, tt)
DistinctRows-append (s ∷ rs) r h d =
    (All-append _ rs (r ∷ []) d.0 (is_row_sym r s h.0, tt), DistinctRows-append rs r h.1 d.1)

NoFile-other_files_self : (p : Str) (rs : List FileRecord) → NoFile p (other_files p rs)
unfolding other_files
NoFile-other_files_self p [] = tt
NoFile-other_files_self p (r ∷ rs) = elim (Bool-cases (str_eq r.path p)) [
  | inl hit ↦ rw hit (NoFile-other_files_self p rs)
  | inr miss ↦ rw miss (miss, NoFile-other_files_self p rs)
]

NoFile-other_files : (p q : Str) (rs : List FileRecord) → NoFile p rs → NoFile p (other_files q rs)
unfolding other_files
NoFile-other_files p q [] h = tt
NoFile-other_files p q (r ∷ rs) h =
    if_both (NoFile p) (str_eq r.path q) (NoFile-other_files p q rs h.1)
      (h.0, NoFile-other_files p q rs h.1)

DistinctFiles-other_files :
    (p : Str) (rs : List FileRecord) → DistinctFiles rs → DistinctFiles (other_files p rs)
unfolding other_files
DistinctFiles-other_files p [] h = tt
DistinctFiles-other_files p (r ∷ rs) h =
    if_both DistinctFiles (str_eq r.path p) (DistinctFiles-other_files p rs h.1)
      (NoFile-other_files r.path p rs h.0, DistinctFiles-other_files p rs h.1)

DistinctFiles-append :
    (rs : List FileRecord) (r : FileRecord)
    → NoFile r.path rs
    → DistinctFiles rs
    → DistinctFiles (rs ++ r ∷ [])
DistinctFiles-append [] r h d = (tt, tt)
DistinctFiles-append (s ∷ rs) r h d = (
  All-append _ rs (r ∷ []) d.0
      (ground (arith, str_eq_iff r.path s.path, str_eq_iff s.path r.path), tt),
  DistinctFiles-append rs r h.1 d.1,
)

NoFile-mark_deleted :
    (p q : Str) (rs : List FileRecord) → NoFile p rs → NoFile p (mark_deleted q rs)
unfolding mark_deleted
NoFile-mark_deleted p q [] h = tt
NoFile-mark_deleted p q (r ∷ rs) h = (ground arith, NoFile-mark_deleted p q rs h.1)

DistinctFiles-mark_deleted :
    (q : Str) (rs : List FileRecord) → DistinctFiles rs → DistinctFiles (mark_deleted q rs)
unfolding mark_deleted
DistinctFiles-mark_deleted q [] h = tt
DistinctFiles-mark_deleted q (r ∷ rs) h =
    let rest = mark_deleted q rs in
    if_both (λ (x : FileRecord). NoFile x.path rest × DistinctFiles rest) (str_eq r.path q)
      (NoFile-mark_deleted r.path q rs h.0, DistinctFiles-mark_deleted q rs h.1)
      (NoFile-mark_deleted r.path q rs h.0, DistinctFiles-mark_deleted q rs h.1)

pub saved-write : (rc : Rc) (f : Tables → Tables) (db : Db) → (write rc f db).1.saved ≡ db.saved
saved-write prepare_failed f db = refl
saved-write (step_failed n) f db = refl
saved-write done f db = refl

-- A statement that writes, however it ends, keeps the primary keys distinct.
pub write-HasKeys :
    (rc : Rc) (f : Tables → Tables) (db : Db)
    → HasKeys db.tables
    → (HasKeys db.tables → HasKeys (f db.tables))
    → HasKeys (write rc f db).1.tables
write-HasKeys prepare_failed f db v k = v
write-HasKeys (step_failed n) f db v k = v
write-HasKeys done f db v k = k v

pub insert_chunk-HasKeys :
    (rc : Rc) (path hash : Str) (index offset size : ℤ) (db : Db)
    → HasKeys db.tables
    → HasKeys (insert_chunk rc path index hash offset size db).1.tables
unfolding insert_chunk
insert_chunk-HasKeys rc path hash index offset size db v = write-HasKeys rc _ db v (λ k. record {
  files_distinct = k.files_distinct;
  chunks_distinct =
      DistinctRows-append (other_chunks (c_str path) index db.tables.chunks)
        (chunk_row path index hash offset size)
        (NoRow-other_chunks_self (c_str path) index db.tables.chunks)
        (DistinctRows-other_chunks (c_str path) index db.tables.chunks k.chunks_distinct);
})

pub insert_file-HasKeys :
    (rc : Rc) (r : FileRecord) (db : Db)
    → HasKeys db.tables
    → HasKeys (insert_or_update_file rc r db).1.tables
unfolding insert_or_update_file bound
insert_file-HasKeys rc r db v = write-HasKeys rc _ db v (λ k. record {
  files_distinct =
      DistinctFiles-append (other_files (c_str r.path) db.tables.files) (bound r)
        (NoFile-other_files_self (c_str r.path) db.tables.files)
        (DistinctFiles-other_files (c_str r.path) db.tables.files k.files_distinct);
  chunks_distinct = k.chunks_distinct;
})

pub delete_file-HasKeys :
    (rc : Rc) (path : Str) (db : Db) → HasKeys db.tables → HasKeys (delete_file rc path db).1.tables
unfolding delete_file
delete_file-HasKeys rc path db v = write-HasKeys rc _ db v (λ k. record {
  files_distinct = DistinctFiles-mark_deleted (c_str path) db.tables.files k.files_distinct;
  chunks_distinct = k.chunks_distinct;
})

-- Every statement that writes keeps the primary keys: at most one row for each path, and at most one for
-- each path and chunk index, whether the statement is carried out or fails.
pub writes-HasKeys :
    (rc : Rc) (r : FileRecord) (path hash : Str) (index offset size : ℤ) (db : Db)
    → HasKeys db.tables
    → HasKeys (insert_or_update_file rc r db).1.tables
      × HasKeys (delete_file rc path db).1.tables
      × HasKeys (insert_chunk rc path index hash offset size db).1.tables
      × HasKeys (update_last_sync_time rc index db).1.tables
unfolding update_last_sync_time
writes-HasKeys rc r path hash index offset size db v = (
  insert_file-HasKeys rc r db v,
  delete_file-HasKeys rc path db v,
  insert_chunk-HasKeys rc path hash index offset size db v,
  write-HasKeys rc _ db v
      (λ k. record { files_distinct = k.files_distinct; chunks_distinct = k.chunks_distinct }),
)
