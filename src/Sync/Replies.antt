-- ===== src/Sync/Replies.antt =====
-- The replies to a download and to a conflict.
use dropbox_lite.Prelude.{
  ◌≡◌, ◌≢◌, refl, ◌↔◌, sym, List, [], ◌∷◌, ◌++◌, Option, none, some, Bytes, Str, str_eq_iff, arith,
}
use dropbox_lite.Metadata.{FileRecord}
use dropbox_lite.Conflict.{ConflictInfo, has_conflict, resolve}
use dropbox_lite.Conflict
use dropbox_lite.Conflict.FilePath.{Lacks}
use dropbox_lite.Conflict.Name.{resolve-keep_both}
use dropbox_lite.Storage.{Env, Storage, get_file_metadata}
use dropbox_lite.Sync.{
  FileMetadata, ok, DownloadResponse, download_file, answer, keep_both, resolve_conflict,
  detect_conflict,
}

-- The bytes that a download sends.
unfoldable pub payload : List DownloadResponse → Bytes
payload [] = []
payload (r ∷ rs) = (elim r.chunk [ none ↦ [] | some c ↦ c.bytes ]) ++ payload rs

payload-answer :
    (found : Option FileRecord)
    → ((answer found).0 ≡ ok ↔ found ≢ none) × (payload (answer found).1 ≡ [])
unfolding answer payload
payload-answer none = (ground arith, refl)
payload-answer (some f) = (ground arith, refl)

-- A download answers `ok` exactly where the client's database has a row for the path, and sends no
-- byte of the file in either case.
pub download_file_empty :
    (env : Env) (client path : Str) (s : Storage)
    → ((download_file env client path s).0 ≡ ok ↔ (get_file_metadata env client path s).0 ≢ none)
      × (payload (download_file env client path s).1 ≡ [])
unfolding download_file
download_file_empty env client path s = payload-answer (get_file_metadata env client path s).0

-- The conflict as the resolver sees it.
abbrev pub conflict_of : FileMetadata → FileRecord → ConflictInfo
conflict_of l server = record {
  path = server.path;
  local_hash = l.hash;
  remote_hash = server.hash;
  local_modified_time = l.modified_time;
  remote_modified_time = server.modified_time;
  local_version = l.version;
  remote_version = server.version;
}

-- The service and the resolver agree on what a conflict is.
pub detect_conflict-eq-has_conflict :
    (l : FileMetadata) (server : FileRecord)
    → detect_conflict l server ≡ has_conflict (conflict_of l server)
unfolding detect_conflict has_conflict
detect_conflict-eq-has_conflict l server = ground (arith, str_eq_iff l.hash server.hash)

-- Keeping both sides: the service answers the path of the conflict, where the resolver makes a new name.
pub resolve_conflict-ne-resolve :
    (info : ConflictInfo) (now : Str)
    → Lacks b'/' now
    → (resolve_conflict info.path keep_both).resolved_path ≢ resolve info Conflict.keep_both now
unfolding resolve_conflict
resolve_conflict-ne-resolve info now h = λ e. resolve-keep_both info now h (sym e)
