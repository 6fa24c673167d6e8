-- ===== src/Storage/Restart.antt =====
-- The server ends and starts again over the same directory: the constructors of the service and of the
-- storage, and the destructor that closes each database (src/core/metadata_db.cpp). What is on the disk stays.
use dropbox_lite.Prelude.{
  ◌≡◌, refl, sym, ap, subst, ◌∙◌, List, [], ◌∷◌, map, none, Bool, true, Bytes, Str, arith, str_eq,
  Bool-cases, inl, inr,
}
use dropbox_lite.Prelude.Dict.{Dict, get}
use dropbox_lite.Metadata.{Db, Tables, Rc, done, get_file, get_all_files, close}
use dropbox_lite.Hash.{Ssl, sha256}
use dropbox_lite.Storage.{Env, Storage, db_of, or_new, get_client_db, get_file_metadata, list_files}
use dropbox_lite.Storage.Opening.{get_client_db-opening}
use dropbox_lite.Storage.Store.{Works}
use dropbox_lite.Storage.Listing.{Listed}
use dropbox_lite.Storage.Upload.{Uploaded}
use dropbox_lite.Storage.Isolation.{get_client_db-tables}

-- The constructor, and the directories of `initialize`, over what is on the disk.
unfoldable pub create : Str → Dict Bytes → Dict Db → Storage
create storage_root files dbs = record {
  storage_root = storage_root;
  files = files;
  dbs = dbs;
  client_dbs = [];
}

-- `initialize` makes directories, which are there when they are needed here.
unfoldable pub initialize : Storage → Bool × Storage
initialize s = (true, s)

-- The constructor of the service, which does not look at the answer.
unfoldable pub service : Str → Dict Bytes → Dict Db → Storage
service storage_root files dbs = (initialize (create storage_root files dbs)).1

-- The databases are closed with the manager.
unfoldable pub close_all : Dict Db → Dict Db
close_all [] = []
close_all ((client, db) ∷ dbs) = (client, close db) ∷ close_all dbs

unfoldable pub restart : Storage → Storage
restart s = service s.storage_root s.files (close_all s.dbs)

pub close-settled : (db : Db) → db.saved ≡ none → close db ≡ db
unfolding close
close-settled db h = ground (arith, h)

get-close_all :
    (dbs : Dict Db) (client : Str)
    → (or_new (get dbs client)).saved ≡ none
    → or_new (get (close_all dbs) client) ≡ or_new (get dbs client)
unfolding close_all get close
get-close_all [] client h = refl
get-close_all ((c, db) ∷ dbs) client h = elim (Bool-cases (str_eq c client)) [
  | inl same ↦ let settled : db.saved ≡ none = rw same at h in rw same (close-settled db settled)
  | inr other ↦
      let rest : (or_new (get dbs client)).saved ≡ none = rw other at h in
      rw other (get-close_all dbs client rest)
]

get_client_db-opens :
    (env : Env) (client : Str) (s : Storage) → Works env → (get_client_db env client s).0 ≡ true
get_client_db-opens env client s w =
    rw (get_client_db-opening env client s) (ground (arith, w.opens client, w.creates client))

db_of-restart :
    (s : Storage) (client : Str)
    → (db_of s client).saved ≡ none
    → db_of (restart s) client ≡ db_of s client
unfolding db_of restart service initialize create
db_of-restart s client settled = get-close_all s.dbs client settled

-- A client's files are read from the tables of its database.
pub list_files-tables :
    (env : Env) (client : Str) (s : Storage)
    → Works env
    → (list_files env client s).0
      ≡ get_all_files done (record { tables = (db_of s client).tables; saved = none })
unfolding list_files get_all_files
list_files-tables env client s w =
    let opens = get_client_db-opens env client s w in
    let tables = get_client_db-tables env client client s in
    let read = λ (rc : Rc) (t : Tables). get_all_files rc (record { tables = t; saved = none }) in
    rw opens (
      ap (λ (rc : Rc). read rc (db_of (get_client_db env client s).1 client).tables) w.answers
      ∙ ap (read done) tables)

get_file_metadata-tables :
    (env : Env) (client path : Str) (s : Storage)
    → Works env
    → (get_file_metadata env client path s).0
      ≡ get_file done path (record { tables = (db_of s client).tables; saved = none })
unfolding get_file_metadata get_file
get_file_metadata-tables env client path s w =
    let opens = get_client_db-opens env client s w in
    let tables = get_client_db-tables env client client s in
    let d = db_of (get_client_db env client s).1 client in
    let read = λ (t : Tables). get_file done path (record { tables = t; saved = none }) in
    rw opens (ap (λ (rc : Rc). get_file rc path d) w.answers ∙ ap read tables)

-- The chunks of an upload that were stored before a restart, and their rows, are there after it.
pub restart-Uploaded :
    (ssl : Ssl) (P : Bytes → Type 0) (root client path : Str) (qs : List Bytes) (s : Storage)
    → Uploaded ssl P root client path qs s
    → Uploaded ssl P root client path qs (restart s)
unfolding restart service initialize create
restart-Uploaded ssl P root client path qs s v = record {
  rooted = v.rooted;
  addressed = v.addressed;
  present = v.present;
  recorded =
      subst (Listed path (map (sha256 ssl) qs)) (sym (db_of-restart s client v.recorded.settled))
        v.recorded;
}

-- The files of a client whose database had no transaction open are listed and found as before it.
pub restart-files :
    (env : Env) (client path : Str) (s : Storage)
    → Works env
    → (db_of s client).saved ≡ none
    → ((list_files env client (restart s)).0 ≡ (list_files env client s).0)
      × ((get_file_metadata env client path (restart s)).0
          ≡ (get_file_metadata env client path s).0)
restart-files env client path s w settled =
    let tables = ap (λ (d : Db). d.tables) (db_of-restart s client settled) in
    (
      list_files-tables env client (restart s) w
          ∙ (ap (λ (t : Tables). get_all_files done (record { tables = t; saved = none })) tables
              ∙ sym (list_files-tables env client s w)),
      get_file_metadata-tables env client path (restart s) w
          ∙ (ap (λ (t : Tables). get_file done path (record { tables = t; saved = none })) tables
              ∙ sym (get_file_metadata-tables env client path s w)),
    )
