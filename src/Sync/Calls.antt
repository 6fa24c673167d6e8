-- ===== src/Sync/Calls.antt =====
-- Everything that a server is called for, in any order, and what holds of its databases all along.
use dropbox_lite.Prelude.{
  ◌+◌, ◌≡◌, refl, List, [], ◌∷◌, Option, none, some, Str, if_both, sym, subst, ◌∙◌,
}
use dropbox_lite.Prelude.Int.{ℤ}
use dropbox_lite.Hash.{Ssl}
use dropbox_lite.Metadata.{
  FileRecord, Db, Rc, prepare_failed, step_failed, done, insert_chunk, insert_or_update_file,
  update_last_sync_time, close,
}
use dropbox_lite.Metadata
use dropbox_lite.Metadata.Keys.{
  HasKeys, saved-write, insert_chunk-HasKeys, insert_file-HasKeys, delete_file-HasKeys,
}
use dropbox_lite.Storage.{Env, Storage, db_of, store_chunk, delete_file, list_files}
use dropbox_lite.Storage.Restart.{restart, close-settled}
use dropbox_lite.Prelude.Dict.{get}
use dropbox_lite.Storage.Closed.{
  IsClosed, Everywhere, store_chunk-Everywhere, finalize_file-Everywhere, delete_file-Everywhere,
  list_files-Everywhere, get_file_metadata-Everywhere, restart-Everywhere,
}
use dropbox_lite.Sync.{
  FileMetadata, UploadChunkRequest, Progress, start, note_request, receive, finish, upload_file,
  compute_changes, sync, download_file,
}

-- A call of the service, of the storage, or the end of the server and its start over the same directory.
pub data Call : Type 0 where
  upload : List (Env × UploadChunkRequest) → Env → Call
  synchronise : Env → Str → List FileMetadata → ℤ → Call
  download : Env → Str → Str → Call
  remove : Env → Str → Str → Call
  restarted : Call

module _ (ssl : Ssl) where
  unfoldable pub serve : Call → Storage → Storage
  unfolding upload_file sync download_file delete_file restart
  serve (upload requests last) s = (upload_file ssl requests last s).1
  serve (synchronise env client ls last) s = (sync env client ls last s).1
  serve (download env client path) s = (download_file env client path s).2
  serve (remove env client path) s = (delete_file env client path s).1
  serve restarted s = restart s

  unfoldable pub serve_all : List Call → Storage → Storage
  unfolding serve
  serve_all [] s = s
  serve_all (c ∷ cs) s = serve_all cs (serve c s)

  module _ {ℓ} (Q : Db → Type ℓ) (k : IsClosed Q) where
    receive-Everywhere :
        (rs : List (Env × UploadChunkRequest)) (p : Progress) (s : Storage)
        → Everywhere Q k s
        → Everywhere Q k (receive rs p s).1
    unfolding receive
    receive-Everywhere [] p s h = h
    receive-Everywhere ((env, r) ∷ rs) p s h =
        let q = note_request r p in
        let stored =
          store_chunk env q.client_id q.filepath r.chunk.index r.chunk.bytes r.chunk.hash s in
        let h' =
          store_chunk-Everywhere Q k env q.client_id q.filepath r.chunk.index r.chunk.bytes
            r.chunk.hash s h in
        if_both (λ (t : Option Progress × Storage). Everywhere Q k t.1) stored.0
          (receive-Everywhere rs (record q { chunks_received = q.chunks_received + 1 }) stored.1 h')
          h'

    finish-Everywhere :
        (env : Env) (r : Option Progress × Storage)
        → Everywhere Q k r.1
        → Everywhere Q k (finish ssl env r).1
    unfolding finish
    finish-Everywhere env (none, s) h = h
    finish-Everywhere env (some p, s) h =
        finalize_file-Everywhere Q k ssl env p.client_id p.filepath p.total_chunks s h

    pub serve-Everywhere : (c : Call) (s : Storage) → Everywhere Q k s → Everywhere Q k (serve c s)
    unfolding serve upload_file sync compute_changes download_file
    serve-Everywhere (upload rs last) s h =
        finish-Everywhere last (receive rs start s) (receive-Everywhere rs start s h)
    serve-Everywhere (synchronise env client ls last) s h =
        list_files-Everywhere Q k env client (list_files env client s).1
          (list_files-Everywhere Q k env client s h)
    serve-Everywhere (download env client path) s h =
        get_file_metadata-Everywhere Q k env client path s h
    serve-Everywhere (remove env client path) s h = delete_file-Everywhere Q k env client path s h
    serve-Everywhere restarted s h = restart-Everywhere Q k s h

    pub serve_all-Everywhere :
        (cs : List Call) (s : Storage) → Everywhere Q k s → Everywhere Q k (serve_all cs s)
    unfolding serve_all
    serve_all-Everywhere [] s h = h
    serve_all-Everywhere (c ∷ cs) s h = serve_all-Everywhere cs (serve c s) (serve-Everywhere c s h)

-- The primary keys, and no transaction left open.
pub record IsSettled (d : Db) : Type 0 where
  pub keyed : HasKeys d.tables
  pub settled : d.saved ≡ none

pub IsSettled-IsClosed : IsClosed IsSettled
unfolding insert_chunk insert_or_update_file Metadata.delete_file
IsSettled-IsClosed = record {
  opened = λ d h. record { keyed = h.keyed; settled = refl };
  closed = λ d h. subst IsSettled (sym (close-settled d h.settled)) h;
  chunk = λ rc path hash i o n d h. record {
    keyed = insert_chunk-HasKeys rc path hash i o n d h.keyed;
    settled = saved-write rc _ d ∙ h.settled;
  };
  file = λ rc r d h. record {
    keyed = insert_file-HasKeys rc r d h.keyed;
    settled = saved-write rc _ d ∙ h.settled;
  };
  removal = λ rc path d h. record {
    keyed = delete_file-HasKeys rc path d h.keyed;
    settled = saved-write rc _ d ∙ h.settled;
  };
}

-- A server that has just been set up.
abbrev pub fresh : Str → Storage
fresh root = record { storage_root = root; files = []; dbs = []; client_dbs = [] }

pub serve_all-IsSettled :
    (ssl : Ssl) (cs : List Call) (root client : Str)
    → IsSettled (db_of (serve_all ssl cs (fresh root)) client)
serve_all-IsSettled ssl cs root client =
    serve_all-Everywhere ssl IsSettled IsSettled-IsClosed cs (fresh root)
      (λ c.
        unfold db_of get in
        record { keyed = record { files_distinct = tt; chunks_distinct = tt }; settled = refl })
      client
