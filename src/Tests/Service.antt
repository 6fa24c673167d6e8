-- ===== src/Tests/Service.antt =====
-- The service.
use dropbox_lite.Prelude.{
  ◌≡◌, ◌≢◌, All, Str, inl, refl, [], ◌∷◌, some, none, true, false, arith, codes, str_eq,
}
use dropbox_lite.Prelude.Int.{pos}
use dropbox_lite.Prelude.Dict.{get, has}
use dropbox_lite.Chunker.{is_boundary}
use dropbox_lite.Chunker.Pieces.{pieces, split, cut}
use dropbox_lite.Metadata.{c_str, is_row, get_file_chunks, chunks_of, order_rows, insert_row}
use dropbox_lite.Storage.{
  Storage, delete_file, finalize_file, db_of, Env, store_chunk, write_chunk, has_chunk,
}
use dropbox_lite.Storage.Paths.{
  get_temp_file_path, get_chunk_path, get_client_storage_path, starts_with,
}
use dropbox_lite.Storage.Plain.{IsName, components, db_path}
use dropbox_lite.Sync.Databases.{InPlace}
use dropbox_lite.Storage.Truncation.{finalize_file-missing}
use dropbox_lite.Storage.Finalize.{Finalized}
use dropbox_lite.Sync.{
  FileMetadata, UploadChunkRequest, receive, note_request, start, finish, upload_file,
}
use dropbox_lite.Sync.Upload.{requests, upload_file_roundtrip}
use dropbox_lite.Sync.Isolation.{upload_file_isolated}
use dropbox_lite.Sync.Failure.{records, upload_file_failed}
use dropbox_lite.Sync.Reupload.{HasMore, tables_of, upload_file_shorter}
use dropbox_lite.Tests.{toy}
use dropbox_lite.Tests.Server.{
  good, good-Works, empty_server, one, two, Sent, Sent-NoCollision, nothing_yet,
}
use dropbox_lite.Tests.Database.{one_file, a_row, b_row}

one_piece : pieces one ≡ one ∷ []
unfolding pieces split cut is_boundary
one_piece = refl

roundtrip_example :
    (s' : Storage) × (upload_file toy
        (requests toy Sent (codes "me") (codes "a") (pos 1) 0 0 ((good, one) ∷ []))
        good
        empty_server
      ≡ (record { success = true; message = []; chunks_received = pos 1 }, s'))
    × Finalized toy Sent
        (get_temp_file_path (codes "r") (codes "me") (codes "a"))
        (codes "me")
        (codes "a")
        one
        (true, s')
unfolding pieces split cut is_boundary
roundtrip_example =
    upload_file_roundtrip toy Sent (codes "r") (codes "me") (codes "a") one (good, one) [] good
      empty_server Sent-NoCollision refl (good-Works, tt) good-Works (inl refl, tt) (omega arith)
      (unfold str_eq in refl) nothing_yet

abbrev pub server : Storage
server = record empty_server { dbs = (codes "me", one_file) ∷ [] }

abbrev pub mine : FileMetadata
mine = record {
  path = codes "a";
  size = pos 3;
  modified_time = pos 5;
  hash = codes "ee";
  version = pos 1;
  is_directory = false;
  deleted = false;
}

-- Nothing can be written.
abbrev full_disk : Env
full_disk = record good { can_write = λ p. false }

abbrev pub sent : UploadChunkRequest
sent = record {
  client_id = codes "me";
  file_path = codes "a";
  chunk = record { index = pos 0; offset = pos 0; size = pos 2; hash = codes "abc"; bytes = one };
  total_chunks = pos 1;
}

abbrev OnlyNames : Str → Type 0
OnlyNames n = All (λ c. (c ≢ b'/') × (c ≢ 0)) n

letters-IsName :
    (n : Str)
    → OnlyNames n
    → str_eq [] n ≡ false
    → str_eq (codes ".") n ≡ false
    → str_eq (codes "..") n ≡ false
    → IsName n
letters-IsName n h e1 e2 e3 = record { named = e1; not_here = e2; not_above = e3; whole = h }

sent-InPlace : InPlace sent
unfolding components starts_with str_eq
sent-InPlace = record {
  client_named = letters-IsName (codes "me") (omega arith) refl refl refl;
  path_plain = record {
    names = (letters-IsName (codes "a") (omega arith) refl refl refl, tt);
    own = refl;
  };
  hash_named = letters-IsName (codes "abc") (omega arith) refl refl refl;
}

you-IsName : IsName (codes "you")
unfolding str_eq
you-IsName = letters-IsName (codes "you") (omega arith) refl refl refl

me-IsName : IsName (codes "me")
unfolding str_eq
me-IsName = letters-IsName (codes "me") (omega arith) refl refl refl

upload_failed_example :
    (records (codes "me") (upload_file toy ((full_disk, sent) ∷ []) good server).1
      ≡ records (codes "me") server)
    × (get
          (upload_file toy ((full_disk, sent) ∷ []) good server).1.files
          (db_path (codes "r") (codes "me"))
        ≡ get server.files (db_path (codes "r") (codes "me")))
unfolding upload_file receive note_request start store_chunk write_chunk finish has has_chunk
upload_failed_example =
    upload_file_failed toy ((full_disk, sent) ∷ []) good (codes "me") server (sent-InPlace, tt)
      me-IsName refl

-- Two chunks of the file are known.
abbrev two_chunks : Storage
two_chunks = record server {
  dbs =
      (
        codes "me",
        record {
          tables = record { files = []; chunks = a_row ∷ b_row ∷ []; last_sync = none };
          saved = none;
        },
      )
      ∷ [];
}

two_chunks-HasMore : HasMore 1 (codes "a") (tables_of (codes "me") two_chunks)
unfolding db_of get str_eq is_row get_file_chunks chunks_of order_rows insert_row c_str
two_chunks-HasMore = record {
  keyed = record { files_distinct = tt; chunks_distinct = ((refl, tt), (tt, tt)) };
  more = omega arith;
}

upload_shorter_example : (upload_file toy ((good, sent) ∷ []) good two_chunks).0.success ≡ false
upload_shorter_example =
    upload_file_shorter toy 1 good sent [] good two_chunks (unfold str_eq in refl) refl
      (omega arith) two_chunks-HasMore refl

isolated_example :
    (db_of (upload_file toy ((good, sent) ∷ []) good server).1 (codes "you")
      ≡ db_of server (codes "you"))
    × (get
          (upload_file toy ((good, sent) ∷ []) good server).1.files
          (db_path (codes "r") (codes "you"))
        ≡ get server.files (db_path (codes "r") (codes "you")))
    × (db_of (delete_file good (codes "me") (codes "a") server).1 (codes "you")
        ≡ db_of server (codes "you"))
isolated_example =
    upload_file_isolated toy (codes "you") ((good, sent) ∷ []) good (codes "me") (codes "a") server
      you-IsName (sent-InPlace, tt) (unfold str_eq in refl, tt) me-IsName (unfold str_eq in refl)

-- An earlier copy of the file, and none of its chunks.
abbrev lossy : Storage
lossy = record server {
  files = (get_temp_file_path (codes "r") (codes "me") (codes "a"), two) ∷ [];
}

missing_example :
    let r = finalize_file toy good (codes "me") (codes "a") (pos 1) lossy in
    (r.0 ≡ false)
    × (get r.1.files (get_temp_file_path (codes "r") (codes "me") (codes "a")) ≡ some [])
    × (db_of r.1 (codes "me") ≡ db_of lossy (codes "me"))
missing_example =
    finalize_file-missing toy good (codes "me") (codes "a") (codes "ff") [] lossy good-Works
      (unfold db_of get str_eq in refl)
      (unfold db_of get str_eq get_file_chunks chunks_of order_rows insert_row c_str in refl)
      (omega arith)
      (unfold get str_eq get_chunk_path get_temp_file_path get_client_storage_path in refl)
