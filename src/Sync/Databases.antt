-- ===== src/Sync/Databases.antt =====
-- What an upload (`UploadFile` of src/server/sync_service.cpp) writes, and the files of the databases.
use dropbox_lite.Prelude.{refl, List, [], ◌∷◌, ◌+◌, Option, none, some, Str, All, if_both, str_eq}
use dropbox_lite.Hash.{Ssl}
use dropbox_lite.Storage.{Env, Storage, store_chunk}
use dropbox_lite.Storage.Paths.{NoSlash}
use dropbox_lite.Storage.Plain.{
  IsName, IsPlain, IsName-NoSlash, NotDatabase, IsPlain-NotDatabase, Untouched, Untouched-trans,
  store_chunk-Untouched, finalize_file-Untouched,
}
use dropbox_lite.Sync.{
  UploadChunkRequest, Progress, start, note_request, receive, finish, upload_file,
}

-- A request whose client, path and hash stay in their own directories.
pub record InPlace (r : UploadChunkRequest) : Type 0 where
  pub client_named : IsName r.client_id
  pub path_plain : IsPlain r.file_path
  pub hash_named : IsName r.chunk.hash

abbrev pub AllInPlace : List (Env × UploadChunkRequest) → Type 0
AllInPlace = All (λ m. InPlace m.1)

-- The file that an upload is of, or none yet.
abbrev OfFile : Option Progress → Type 0
OfFile none = Unit
OfFile (some p) = NoSlash p.client_id × NotDatabase p.filepath

note_request-OfFile :
    (r : UploadChunkRequest) (p : Progress)
    → InPlace r
    → OfFile (some p)
    → OfFile (some (note_request r p))
unfolding note_request
note_request-OfFile r p h k =
    if_both (λ (q : Progress). OfFile (some q)) (str_eq p.client_id [])
      (IsName-NoSlash r.client_id h.client_named, IsPlain-NotDatabase r.file_path h.path_plain) k

receive-Untouched :
    (c : Str) (rs : List (Env × UploadChunkRequest)) (p : Progress) (s : Storage)
    → AllInPlace rs
    → OfFile (some p)
    → OfFile (receive rs p s).0 × Untouched c s (receive rs p s).1
unfolding receive
receive-Untouched c [] p s h k = (k, (refl, refl))
receive-Untouched c ((env, r) ∷ rs) p s h k =
    let q = note_request r p in
    let of_file = note_request-OfFile r p h.0 k in
    let stored =
      store_chunk env q.client_id q.filepath r.chunk.index r.chunk.bytes r.chunk.hash s in
    let kept =
      store_chunk-Untouched env q.client_id c q.filepath r.chunk.index r.chunk.bytes r.chunk.hash
        s in
    let q' = record q { chunks_received = q.chunks_received + 1 } in
    let (of_file', rest) = receive-Untouched c rs q' stored.1 h.1 of_file in
    if_both (λ (t : Option Progress × Storage). OfFile t.0 × Untouched c s t.1) stored.0
      (of_file', Untouched-trans c s stored.1 (receive rs q' stored.1).1 kept rest) (tt, kept)

finish-Untouched :
    (ssl : Ssl) (env : Env) (c : Str) (p : Option Progress) (s : Storage)
    → NoSlash c
    → OfFile p
    → Untouched c s (finish ssl env (p, s)).1
unfolding finish
finish-Untouched ssl env c none s hc h = (refl, refl)
finish-Untouched ssl env c (some p) s hc h =
    finalize_file-Untouched ssl env p.client_id c p.filepath p.total_chunks s hc h.0 h.1

-- Uploads of plain paths write over no client's database.
pub upload_file-Untouched :
    (ssl : Ssl) (requests : List (Env × UploadChunkRequest)) (last : Env) (c : Str) (s : Storage)
    → AllInPlace requests
    → IsName c
    → Untouched c s (upload_file ssl requests last s).1
unfolding upload_file start
upload_file-Untouched ssl requests last c s h hc =
    let (of_file, kept) = receive-Untouched c requests start s h (tt, λ e. cc) in
    let r = receive requests start s in
    Untouched-trans c s r.1 (finish ssl last r).1 kept
      (finish-Untouched ssl last c r.0 r.1 (IsName-NoSlash c hc) of_file)
