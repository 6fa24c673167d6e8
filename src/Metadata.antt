-- ===== src/Metadata.antt =====
-- MetadataDB (include/core/metadata_db.h, src/core/metadata_db.cpp): the tables of the schema, and
-- one function for each statement. SQLite itself is outside: whether a statement is prepared and how
-- its steps end is the argument `Rc`; the rows that a statement reads or writes are those that its
-- SQL text names. A row that is replaced is deleted and appended, as `INSERT OR REPLACE` does.
pub mod Files
pub mod Chunks
pub mod Keys
pub mod Counts
pub mod Order
pub mod Arrival
pub mod Transactions
use dropbox_lite.Prelude.{
  ℕ, ◌≡◌, List, [], ◌∷◌, ◌++◌, map, Option, none, some, Bool, true, false, not, ◌&&◌, Str, take,
  str_eq, if◌then◌else◌, ◌==◌,
}
use dropbox_lite.Prelude.Int.{ℤ, pos, ltb_ℤ, eqb_ℤ}

pub record FileRecord : Type 0 where
  pub path : Str
  pub size : ℤ
  pub modified_time : ℤ
  pub hash : Str
  pub version : ℤ
  pub is_directory : Bool
  pub deleted : Bool
  pub last_sync_time : ℤ

-- A row of the table `chunks`.
pub record ChunkRow : Type 0 where
  pub file_path : Str
  pub chunk_index : ℤ
  pub hash : Str
  pub offset : ℤ
  pub size : ℤ

-- Of `sync_state` only the key `last_sync_time` is used.
pub record Tables : Type 0 where
  pub files : List FileRecord
  pub chunks : List ChunkRow
  pub last_sync : Option ℤ

-- A connection: the tables as it sees them, and those to go back to while a transaction is open.
pub record Db : Type 0 where
  pub tables : Tables
  pub saved : Option Tables

-- How a statement ends: not prepared, an error after some rows, or to its end.
pub data Rc : Type 0 where
  prepare_failed : Rc
  step_failed : ℕ → Rc
  done : Rc

-- `c_str()`: the text up to the first NUL.
unfoldable pub c_str : Str → Str
c_str [] = []
c_str (c ∷ cs) = if c == 0 then [] else c ∷ c_str cs

-- A statement that writes: it succeeds or changes nothing.
abbrev pub write : Rc → (Tables → Tables) → Db → Bool × Db
write done f db = (true, record db { tables = f db.tables })
write _ f db = (false, db)

-- The rows that a loop over `sqlite3_step` sees.
abbrev pub rows {ℓ} : {A : Type ℓ} → Rc → List A → List A
rows prepare_failed xs = []
rows (step_failed n) xs = take n xs
rows done xs = xs

abbrev pub empty_tables : Tables
empty_tables = record { files = []; chunks = []; last_sync = none }

-- The statements of the schema, over a database file that has no tables yet or has them: with `IF NOT
-- EXISTS` a table that is there is kept and is no error.
unfoldable pub create_tables : Option Tables → Bool × Tables
create_tables none = (true, empty_tables)
create_tables (some stored) = (true, stored)

-- `sqlite3_open` and the schema. Whether the file opens, and whether SQLite carries statements out on it, are
-- arguments.
unfoldable pub initialize : Bool → Bool → Option Tables → Bool × Db
unfolding create_tables
initialize opened carried_out stored =
    let (created, tables) = create_tables stored in
    (opened && (carried_out && created), record { tables = tables; saved = none })

-- `sqlite3_close`, in the destructor, undoes a transaction that is still open.
unfoldable pub close : Db → Db
close db = elim db.saved [ none ↦ db | some before ↦ record { tables = before; saved = none } ]

unfoldable pub other_files : Str → List FileRecord → List FileRecord
other_files path [] = []
other_files path (r ∷ rs) =
    let rest = other_files path rs in if str_eq r.path path then rest else r ∷ rest

-- The record as it is bound: texts end at a NUL.
unfoldable pub bound : FileRecord → FileRecord
bound r = record r { path = c_str r.path; hash = c_str r.hash }

unfoldable pub insert_or_update_file : Rc → FileRecord → Db → Bool × Db
insert_or_update_file rc r =
    write rc (λ t. record t { files = other_files (c_str r.path) t.files ++ bound r ∷ [] })

unfoldable pub find_file : Str → List FileRecord → Option FileRecord
find_file path [] = none
find_file path (r ∷ rs) = if str_eq r.path path then some r else find_file path rs

unfoldable pub get_file : Rc → Str → Db → Option FileRecord
unfolding find_file
get_file done path db = find_file (c_str path) db.tables.files
get_file _ path db = none

unfoldable pub live_files : List FileRecord → List FileRecord
live_files [] = []
live_files (r ∷ rs) = let rest = live_files rs in if r.deleted then rest else r ∷ rest

unfoldable pub get_all_files : Rc → Db → List FileRecord
get_all_files rc db = rows rc (live_files db.tables.files)

unfoldable pub modified_files : ℤ → List FileRecord → List FileRecord
modified_files t [] = []
modified_files t (r ∷ rs) =
    let rest = modified_files t rs in if ltb_ℤ t r.modified_time then r ∷ rest else rest

unfoldable pub get_modified_since : Rc → ℤ → Db → List FileRecord
get_modified_since rc timestamp db = rows rc (modified_files timestamp db.tables.files)

unfoldable pub mark_deleted : Str → List FileRecord → List FileRecord
mark_deleted path = map (λ r. if str_eq r.path path then record r { deleted = true } else r)

unfoldable pub delete_file : Rc → Str → Db → Bool × Db
delete_file rc path = write rc (λ t. record t { files = mark_deleted (c_str path) t.files })

unfoldable pub is_row : Str → ℤ → ChunkRow → Bool
is_row path index r = str_eq r.file_path path && eqb_ℤ r.chunk_index index

unfoldable pub other_chunks : Str → ℤ → List ChunkRow → List ChunkRow
other_chunks path index [] = []
other_chunks path index (r ∷ rs) =
    let rest = other_chunks path index rs in if is_row path index r then rest else r ∷ rest

-- The row as it is bound.
abbrev pub chunk_row : Str → ℤ → Str → ℤ → ℤ → ChunkRow
chunk_row file_path index hash offset size = record {
  file_path = c_str file_path;
  chunk_index = index;
  hash = c_str hash;
  offset = offset;
  size = size;
}

unfoldable pub insert_chunk : Rc → Str → ℤ → Str → ℤ → ℤ → Db → Bool × Db
insert_chunk rc file_path index hash offset size = write rc (λ t. record t {
  chunks =
      other_chunks (c_str file_path) index t.chunks
      ++ chunk_row file_path index hash offset size ∷ [];
})

unfoldable pub chunks_of : Str → List ChunkRow → List ChunkRow
chunks_of path [] = []
chunks_of path (r ∷ rs) =
    let rest = chunks_of path rs in if str_eq r.file_path path then r ∷ rest else rest

-- ORDER BY chunk_index
unfoldable pub insert_row : ChunkRow → List ChunkRow → List ChunkRow
insert_row r [] = r ∷ []
insert_row r (s ∷ rs) =
    let rest = insert_row r rs in if ltb_ℤ s.chunk_index r.chunk_index then s ∷ rest else r ∷ s ∷ rs

unfoldable pub order_rows : List ChunkRow → List ChunkRow
order_rows [] = []
order_rows (r ∷ rs) = insert_row r (order_rows rs)

unfoldable pub get_file_chunks : Rc → Str → Db → List Str
get_file_chunks rc file_path db =
    map (λ r. r.hash) (rows rc (order_rows (chunks_of (c_str file_path) db.tables.chunks)))

unfoldable pub any_hash : Str → List ChunkRow → Bool
any_hash hash [] = false
any_hash hash (r ∷ rs) = if str_eq r.hash hash then true else any_hash hash rs

unfoldable pub has_chunk : Rc → Str → Db → Bool
has_chunk done hash db = any_hash (c_str hash) db.tables.chunks
has_chunk _ hash db = false

unfoldable pub update_last_sync_time : Rc → ℤ → Db → Bool × Db
update_last_sync_time rc timestamp = write rc (λ t. record t { last_sync = some timestamp })

unfoldable pub get_last_sync_time : Rc → Db → ℤ
get_last_sync_time done db = elim db.tables.last_sync [ none ↦ pos 0 | some t ↦ t ]
get_last_sync_time _ db = pos 0
