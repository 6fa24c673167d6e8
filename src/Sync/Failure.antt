-- ===== src/Sync/Failure.antt =====
-- An upload that fails.
use dropbox_lite.Prelude.{
  ◌≡◌, ◌∙◌, refl, ◌+◌, List, [], ◌∷◌, Option, none, some, true, false, Str, arith, if_both,
  Bool-cases, inl, inr,
}
use dropbox_lite.Hash.{Ssl}
use dropbox_lite.Metadata.{FileRecord}
use dropbox_lite.Storage.{Env, Storage, db_of, store_chunk, finalize_file}
use dropbox_lite.Prelude.Dict.{get}
use dropbox_lite.Storage.Plain.{IsName, db_path}
use dropbox_lite.Sync.Databases.{AllInPlace, upload_file-Untouched}
use dropbox_lite.Storage.Records.{store_chunk-files, finalize_file-files}
use dropbox_lite.Sync.{
  UploadChunkRequest, Progress, start, note_request, receive, finish, upload_file,
}

-- The records of a client's files.
abbrev pub records : Str → Storage → List FileRecord
records c s = (db_of s c).tables.files

receive-records :
    (c : Str) (rs : List (Env × UploadChunkRequest)) (p : Progress) (s : Storage)
    → records c (receive rs p s).1 ≡ records c s
unfolding receive
receive-records c [] p s = refl
receive-records c ((env, r) ∷ rs) p s =
    let q = note_request r p in
    let s1 =
      (store_chunk env q.client_id q.filepath r.chunk.index r.chunk.bytes r.chunk.hash s).1 in
    let e =
      store_chunk-files env q.client_id c q.filepath r.chunk.index r.chunk.bytes r.chunk.hash s in
    if_both (λ (t : Option Progress × Storage). records c t.1 ≡ records c s)
      (store_chunk env q.client_id q.filepath r.chunk.index r.chunk.bytes r.chunk.hash s).0
      (receive-records c rs (record q { chunks_received = q.chunks_received + 1 }) s1 ∙ e) e

finish-records :
    (ssl : Ssl) (env : Env) (c : Str) (p : Option Progress) (s : Storage)
    → (finish ssl env (p, s)).0.success ≡ false
    → records c (finish ssl env (p, s)).1 ≡ records c s
unfolding finish
finish-records ssl env c none s h = refl
finish-records ssl env c (some p) s h =
    elim (Bool-cases (finalize_file ssl env p.client_id p.filepath p.total_chunks s).0) [
      | inl ok ↦ let h' : true ≡ false = rw ok at h in absurd (ground arith)
      | inr failed ↦ finalize_file-files ssl env p.client_id c p.filepath p.total_chunks s failed
    ]

-- An upload that answers without success has changed no record of any file of any client, at whichever
-- request or step it failed, and has not written over the file of any client's database. The clients and
-- the hashes are single names, and the paths lead to no database.
pub upload_file_failed :
    (ssl : Ssl) (requests : List (Env × UploadChunkRequest)) (last : Env) (c : Str) (s : Storage)
    → AllInPlace requests
    → IsName c
    → (upload_file ssl requests last s).0.success ≡ false
    → (records c (upload_file ssl requests last s).1 ≡ records c s)
      × (get (upload_file ssl requests last s).1.files (db_path s.storage_root c)
          ≡ get s.files (db_path s.storage_root c))
upload_file_failed ssl requests last c s plain named h = (
  unfold upload_file in
      finish-records ssl last c (receive requests start s).0 (receive requests start s).1 h
      ∙ receive-records c requests start s,
  (upload_file-Untouched ssl requests last c s plain named).1,
)
