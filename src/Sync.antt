-- ===== src/Sync.antt =====
-- SyncServiceImpl (include/server/sync_service.h, src/server/sync_service.cpp) and the messages of
-- proto/sync.proto. A stream of requests is a list, each request with the environment of its call.
pub mod Requests
pub mod Upload
pub mod Parts
pub mod Resume
pub mod Unordered
pub mod Changes
pub mod Calls
pub mod Told
pub mod Announced
pub mod Replies
pub mod Databases
pub mod Failure
pub mod Reupload
pub mod Isolation
pub mod Handler
pub mod Jobs
pub mod Reads
pub mod Interleaved
pub mod Turns
pub mod Mixed
use dropbox_lite.Prelude.{
  ℕ, suc, ◌+◌, ◌≡◌, List, [], ◌∷◌, ◌++◌, Option, none, some, Bool, true, false, not, ◌&&◌, Bytes,
  Str, codes, str_eq, if◌then◌else◌,
}
use dropbox_lite.Prelude.Int.{ℤ, pos, ltb_ℤ, to_int32}
use dropbox_lite.Hash.{Ssl}
use dropbox_lite.Metadata.{FileRecord}
use dropbox_lite.Storage.{Env, Storage, store_chunk, finalize_file, get_file_metadata, list_files}

pub record FileMetadata : Type 0 where
  pub path : Str
  pub size : ℤ
  pub modified_time : ℤ
  pub hash : Str
  pub version : ℤ
  pub is_directory : Bool
  pub deleted : Bool

pub record Chunk : Type 0 where
  pub index : ℤ
  pub offset : ℤ
  pub size : ℤ
  pub hash : Str
  pub bytes : Bytes

pub data ChangeType : Type 0 where
  created modified deleted renamed : ChangeType

-- The fields that the service sets; `old_path` and `metadata` keep their defaults.
pub record FileChange : Type 0 where
  pub path : Str
  pub change_type : ChangeType

pub record UploadChunkRequest : Type 0 where
  pub client_id : Str
  pub file_path : Str
  pub chunk : Chunk
  pub total_chunks : ℤ

pub record UploadChunkResponse : Type 0 where
  pub success : Bool
  pub message : Str
  pub chunks_received : ℤ

-- The local variables of `UploadFile`.
pub record Progress : Type 0 where
  pub client_id : Str
  pub filepath : Str
  pub total_chunks : ℤ
  pub chunks_received : ℕ

unfoldable pub start : Progress
start = record { client_id = []; filepath = []; total_chunks = pos 0; chunks_received = 0 }

-- The file is named by the first request with a client.
unfoldable pub note_request : UploadChunkRequest → Progress → Progress
note_request r p =
    if str_eq p.client_id []
    then record p { client_id = r.client_id; filepath = r.file_path; total_chunks = r.total_chunks }
    else p

-- The reading loop: `none` where a chunk could not be stored.
unfoldable pub receive :
    List (Env × UploadChunkRequest) → Progress → Storage → Option Progress × Storage
receive [] p s = (some p, s)
receive ((env, r) ∷ rs) p s =
    let q = note_request r p in
    let (ok, s') =
      store_chunk env q.client_id q.filepath r.chunk.index r.chunk.bytes r.chunk.hash s in
    let rest = receive rs (record q { chunks_received = q.chunks_received + 1 }) s' in
    if ok then rest else (none, s')

abbrev pub failed : Str → UploadChunkResponse
failed message = record { success = false; message = message; chunks_received = pos 0 }

module _ (ssl : Ssl) where
  -- The end of `UploadFile`, after the stream.
  unfoldable pub finish : Env → Option Progress × Storage → UploadChunkResponse × Storage
  finish env (none, s) = (failed (codes "Failed to store chunk"), s)
  finish env (some p, s) =
      let (ok, s') = finalize_file ssl env p.client_id p.filepath p.total_chunks s in
      (
        if ok
            then record {
              success = true;
              message = [];
              chunks_received = to_int32 p.chunks_received;
            }
            else failed (codes "Failed to finalize file"),
        s',
      )

  unfoldable pub upload_file :
      List (Env × UploadChunkRequest) → Env → Storage → UploadChunkResponse × Storage
  upload_file requests env s = finish env (receive requests start s)

-- The first local file with the path.
unfoldable pub find_local : Str → List FileMetadata → Option FileMetadata
find_local path [] = none
find_local path (l ∷ ls) = if str_eq l.path path then some l else find_local path ls

-- What one server file adds to the changes, with the client's file of that path.
unfoldable pub change_for : Option FileMetadata → ℤ → FileRecord → List FileChange
change_for none last_sync_time r =
    if ltb_ℤ last_sync_time r.modified_time
    then (record { path = r.path; change_type = created }) ∷ []
    else []
change_for (some l) last_sync_time r =
    if not (str_eq l.hash r.hash)
    then (record { path = r.path; change_type = modified }) ∷ []
    else []

unfoldable pub changes_of : List FileMetadata → ℤ → List FileRecord → List FileChange
changes_of local_files last_sync_time [] = []
changes_of local_files last_sync_time (r ∷ rs) =
    change_for (find_local r.path local_files) last_sync_time r
    ++ changes_of local_files last_sync_time rs

unfoldable pub compute_changes :
    Env → Str → List FileMetadata → ℤ → Storage → List FileChange × Storage
compute_changes env client_id local_files last_sync_time s =
    let (server_files, s') = list_files env client_id s in
    (changes_of local_files last_sync_time server_files, s')

pub record SyncResponse : Type 0 where
  pub changes : List FileChange
  pub server_time : ℤ
  pub conflicts : List Str

-- The list of files is asked for twice; the first answer is not used.
unfoldable pub sync : Env → Str → List FileMetadata → ℤ → Storage → SyncResponse × Storage
sync env client_id local_files last_sync_time s =
    let (_, s1) = list_files env client_id s in
    let (changes, s2) = compute_changes env client_id local_files last_sync_time s1 in
    (record { changes = changes; server_time = env.now; conflicts = [] }, s2)

unfoldable pub detect_conflict : FileMetadata → FileRecord → Bool
detect_conflict l server =
    not (str_eq l.hash server.hash) && (ltb_ℤ (pos 0) l.version && ltb_ℤ (pos 0) server.version)

pub data Status : Type 0 where
  ok : Status
  not_found : Str → Status

-- The one message of a download: the chunk keeps its default, which has no bytes.
pub record DownloadResponse : Type 0 where
  pub chunk : Option Chunk
  pub is_last : Bool

unfoldable pub answer : Option FileRecord → Status × List DownloadResponse
answer none = (not_found (codes "File not found"), [])
answer (some f) = (ok, (record { chunk = none; is_last = true }) ∷ [])

unfoldable pub download_file : Env → Str → Str → Storage → Status × List DownloadResponse × Storage
download_file env client_id file_path s =
    let (metadata, s') = get_file_metadata env client_id file_path s in
    let (status, sent) = answer metadata in (status, sent, s')

pub data Strategy : Type 0 where
  keep_local keep_remote keep_both : Strategy

pub record ConflictResolutionResponse : Type 0 where
  pub success : Bool
  pub resolved_path : Str

unfoldable pub resolve_conflict : Str → Strategy → ConflictResolutionResponse
resolve_conflict file_path strategy = record { success = true; resolved_path = file_path }

-- `StreamSync` reads the changes to the end of the stream and answers none.
unfoldable pub stream_sync : List FileChange → List FileChange
stream_sync [] = []
stream_sync (change ∷ rest) = stream_sync rest

unfoldable pub heartbeat : Env → ℤ
heartbeat env = env.now
