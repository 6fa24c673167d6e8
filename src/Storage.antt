-- ===== src/Storage.antt =====
-- StorageManager (include/server/storage_manager.h, src/server/storage_manager.cpp): the chunk store,
-- a database for each client, and the reconstruction of files. The file system is a map from paths,
-- compared as texts, to contents; directories are there when they are needed. What the environment
-- decides in a call is the argument `Env`. A write that has been opened stores all its
-- bytes; Storage/Writing has those that do not.
pub mod Paths
pub mod Opening
pub mod Store
pub mod Neighbours
pub mod Overwrite
pub mod Listing
pub mod Stored
pub mod Upload
pub mod Assembled
pub mod Finalize
pub mod Dedup
pub mod Isolation
pub mod Stats
pub mod Truncation
pub mod Elsewhere
pub mod Frame
pub mod Writing
pub mod Racing
pub mod Restart
pub mod Closed
pub mod Records
pub mod Plain
use dropbox_lite.Prelude.{
  ℕ, suc, ◌+◌, ◌≡◌, List, [], ◌∷◌, ◌++◌, Option, none, some, Bool, true, false, ◌&&◌, ◌||◌, Bytes,
  Str, length, take, codes, str_eq, if◌then◌else◌, ◌==◌,
}
use dropbox_lite.Prelude.Int.{ℤ, pos, to_size, to_int32}
use dropbox_lite.Prelude.Dict.{Dict, get, put, has}
use dropbox_lite.Hash.{Ssl, sha256_file}
use dropbox_lite.Metadata.{FileRecord, Tables, Db, Rc, empty_tables}
use dropbox_lite.Metadata
use Paths.{get_chunk_path, get_temp_file_path, starts_with}

-- One call's environment: which paths open for writing, whether a client's database opens and carries
-- out the schema's statements, how the call's statements end (`record_rc` is for the one that writes a
-- file's record), the clock in seconds, and what an unset field holds.
pub record Env : Type 0 where
  pub can_write : Str → Bool
  pub db_opens : Str → Bool
  pub db_created : Str → Bool
  pub rc : Rc
  pub record_rc : Rc
  pub now : ℤ
  pub unset : ℤ

-- `dbs` are the databases on disk, `client_dbs` the clients whose database is open.
pub record Storage : Type 0 where
  pub storage_root : Str
  pub files : Dict Bytes
  pub dbs : Dict Db
  pub client_dbs : List Str

unfoldable pub is_open : List Str → Str → Bool
is_open [] client = false
is_open (c ∷ cs) client = str_eq c client || is_open cs client

abbrev pub or_new : Option Db → Db
or_new none = record { tables = empty_tables; saved = none }
or_new (some db) = db

-- A client's database, as it stands on disk; a new one has empty tables.
unfoldable pub db_of : Storage → Str → Db
db_of s client = or_new (get s.dbs client)

-- The tables in a client's database file, if there is one.
abbrev pub stored_tables : Option Db → Option Tables
stored_tables none = none
stored_tables (some db) = some db.tables

abbrev pub with_db : Storage → Str → Db → Storage
with_db s client db = record s { dbs = put s.dbs client db }

unfoldable pub get_client_db : Env → Str → Storage → Bool × Storage
get_client_db env client s =
    if is_open s.client_dbs client
    then (true, s)
    else let (ok, db) =
        Metadata.initialize (env.db_opens client) (env.db_created client)
          (stored_tables (get s.dbs client)) in
      if ok
      then (true, record s { dbs = put s.dbs client db; client_dbs = client ∷ s.client_dbs })
      else (false, s)

unfoldable pub has_chunk : Str → Storage → Bool
has_chunk hash s = has s.files (get_chunk_path s.storage_root hash)

abbrev pub or_nothing : Option Bytes → Bytes
or_nothing none = []
or_nothing (some d) = d

unfoldable pub get_chunk : Str → Storage → Bytes
get_chunk hash s = or_nothing (get s.files (get_chunk_path s.storage_root hash))

-- The first half of `storeChunk`: a chunk that is there is kept as it is.
unfoldable pub write_chunk : Env → Bytes → Str → Storage → Bool × Storage
write_chunk env bytes hash s =
    if has_chunk hash s
    then (true, s)
    else if env.can_write (get_chunk_path s.storage_root hash)
    then (true, record s { files = put s.files (get_chunk_path s.storage_root hash) bytes })
    else (false, s)

-- A statement on an open client's database.
unfoldable pub on_db : Str → (Db → Bool × Db) → Storage → Bool × Storage
on_db client f s = let (ok, db) = f (db_of s client) in (ok, with_db s client db)

unfoldable pub store_chunk : Env → Str → Str → ℤ → Bytes → Str → Storage → Bool × Storage
store_chunk env client filepath chunk_index bytes hash s =
    let (written, s1) = write_chunk env bytes hash s in
    if written
    then (let (ok, s2) = get_client_db env client s1 in
        if ok
        then on_db client
            (Metadata.insert_chunk env.rc filepath chunk_index hash (pos 0)
              (to_int32 (length bytes)))
            s2
        else (false, s2))
    else (false, s1)

-- The reconstruction loop: each chunk is appended to the file at `temp`; an empty or missing one
-- gives up and leaves what was written.
unfoldable pub assemble : Str → List Str → Storage → Bool × Storage
assemble temp [] s = (true, s)
assemble temp (h ∷ hs) s =
    let bytes = get_chunk h s in
    let rest =
      assemble temp hs
        (record s { files = put s.files temp (or_nothing (get s.files temp) ++ bytes) }) in
    if length bytes == 0 then (false, s) else rest

module _ (ssl : Ssl) where
  -- The record of a file that has been reconstructed. `last_sync_time` is never set.
  unfoldable pub file_record : Env → Str → Option Bytes → FileRecord
  file_record env filepath content = record {
    path = filepath;
    size = pos (length (or_nothing content));
    modified_time = env.now;
    hash = or_nothing (sha256_file ssl content);
    version = pos 1;
    is_directory = false;
    deleted = false;
    last_sync_time = env.unset;
  }

  unfoldable pub finalize_file : Env → Str → Str → ℤ → Storage → Bool × Storage
  finalize_file env client filepath total_chunks s =
      let (ok, s1) = get_client_db env client s in
      let hashes = Metadata.get_file_chunks env.rc filepath (db_of s1 client) in
      let temp = get_temp_file_path s1.storage_root client filepath in
      if ok
      then (if length hashes == to_size total_chunks
          then (if env.can_write temp
              then (let (whole, s2) =
                    assemble temp hashes (record s1 { files = put s1.files temp [] }) in
                  if whole
                  then on_db client
                      (Metadata.insert_or_update_file env.record_rc
                        (file_record env filepath (get s2.files temp)))
                      s2
                  else (false, s2))
              else (false, s1))
          else (false, s1))
      else (false, s1)

unfoldable pub get_file_metadata : Env → Str → Str → Storage → Option FileRecord × Storage
get_file_metadata env client filepath s =
    let (ok, s1) = get_client_db env client s in
    (if ok then Metadata.get_file env.rc filepath (db_of s1 client) else none, s1)

unfoldable pub list_files : Env → Str → Storage → List FileRecord × Storage
list_files env client s =
    let (ok, s1) = get_client_db env client s in
    (if ok then Metadata.get_all_files env.rc (db_of s1 client) else [], s1)

unfoldable pub delete_file : Env → Str → Str → Storage → Bool × Storage
delete_file env client filepath s =
    let (ok, s1) = get_client_db env client s in
    if ok then on_db client (Metadata.delete_file env.rc filepath) s1 else (false, s1)

pub record StorageStats : Type 0 where
  pub total_files : ℕ
  pub total_chunks : ℕ
  pub total_bytes : ℕ
  pub deduplicated_bytes : ℕ

-- The files below the chunks directory.
unfoldable pub count_chunks : Str → Dict Bytes → StorageStats
unfolding starts_with
count_chunks dir [] = record {
  total_files = 0;
  total_chunks = 0;
  total_bytes = 0;
  deduplicated_bytes = 0;
}
count_chunks dir ((p, d) ∷ fs) =
    let st = count_chunks dir fs in
    if starts_with dir p
    then record st { total_chunks = st.total_chunks + 1; total_bytes = st.total_bytes + length d }
    else st

unfoldable pub get_stats : Storage → StorageStats
unfolding count_chunks
get_stats s = count_chunks (s.storage_root ++ codes "/chunks/") s.files
