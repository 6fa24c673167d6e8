-- ===== src/Sync/Isolation.antt =====
-- What an upload leaves alone: the other clients.
use dropbox_lite.Prelude.{
  ◌≡◌, refl, ◌∙◌, List, [], ◌∷◌, ◌+◌, Option, none, some, false, All, Str, if_both, str_eq,
}
use dropbox_lite.Prelude.Int.{pos}
use dropbox_lite.Hash.{Ssl}
use dropbox_lite.Storage.{Env, Storage, db_of, store_chunk, delete_file}
use dropbox_lite.Prelude.Dict.{get}
use dropbox_lite.Storage.Plain.{IsName, db_path}
use dropbox_lite.Sync.Databases.{AllInPlace, upload_file-Untouched}
use dropbox_lite.Storage.Isolation.{client_dbs_isolated}
use dropbox_lite.Sync.{
  UploadChunkRequest, Progress, start, note_request, receive, finish, upload_file,
}

module _ (ssl : Ssl) (c : Str) where
  -- The upload is not of a file of `c`.
  abbrev Elsewhere : Option Progress → Type 0
  Elsewhere none = Unit
  Elsewhere (some p) = str_eq p.client_id c ≡ false

  abbrev pub NotOf : Env × UploadChunkRequest → Type 0
  NotOf (env, r) = str_eq r.client_id c ≡ false

  note_request-Elsewhere :
      (r : UploadChunkRequest) (p : Progress)
      → str_eq r.client_id c ≡ false
      → Elsewhere (some p)
      → Elsewhere (some (note_request r p))
  unfolding note_request
  note_request-Elsewhere r p h k =
      if_both (λ (q : Progress). str_eq q.client_id c ≡ false) (str_eq p.client_id []) h k

  receive-Elsewhere :
      (rs : List (Env × UploadChunkRequest)) (p : Progress) (s : Storage)
      → All NotOf rs
      → Elsewhere (some p)
      → Elsewhere (receive rs p s).0 × (db_of (receive rs p s).1 c ≡ db_of s c)
  unfolding receive
  receive-Elsewhere [] p s h k = (k, refl)
  receive-Elsewhere ((env, r) ∷ rs) p s h k =
      let q = note_request r p in
      let away = note_request-Elsewhere r p h.0 k in
      let stored =
        store_chunk env q.client_id q.filepath r.chunk.index r.chunk.bytes r.chunk.hash s in
      let kept : db_of stored.1 c ≡ db_of s c =
        (client_dbs_isolated ssl env q.client_id c q.filepath r.chunk.hash r.chunk.index (pos 0)
          r.chunk.bytes s away).0 in
      let (away', rest) =
        receive-Elsewhere rs (record q { chunks_received = q.chunks_received + 1 }) stored.1 h.1
          away in
      if_both (λ (t : Option Progress × Storage). Elsewhere t.0 × (db_of t.1 c ≡ db_of s c))
        stored.0 (away', rest ∙ kept) (tt, kept)

  finish-other :
      (env : Env) (p : Option Progress) (s : Storage)
      → Elsewhere p
      → db_of (finish ssl env (p, s)).1 c ≡ db_of s c
  unfolding finish
  finish-other env none s h = refl
  finish-other env (some p) s h =
      (client_dbs_isolated ssl env p.client_id c p.filepath [] (pos 0) p.total_chunks [] s h).1

  -- An upload whose requests do not name the client `c` leaves the database of `c` and the file that it is
  -- kept in as they were, whether it succeeds or fails, and the deletion of another client's file leaves
  -- the database. The clients and the hashes are single names, and the paths lead to no database.
  pub upload_file_isolated :
      (requests : List (Env × UploadChunkRequest)) (last : Env) (client path : Str) (s : Storage)
      → IsName c
      → AllInPlace requests
      → All NotOf requests
      → IsName client
      → str_eq client c ≡ false
      → (db_of (upload_file ssl requests last s).1 c ≡ db_of s c)
        × (get (upload_file ssl requests last s).1.files (db_path s.storage_root c)
            ≡ get s.files (db_path s.storage_root c))
        × (db_of (delete_file last client path s).1 c ≡ db_of s c)
  upload_file_isolated requests last client path s named plain others single other =
      let (away, kept) = receive-Elsewhere requests start s others (unfold start in named.named) in
      (
        unfold upload_file in
            finish-other last (receive requests start s).0 (receive requests start s).1 away ∙ kept,
        (upload_file-Untouched ssl requests last c s plain named).1,
        (client_dbs_isolated ssl last client c path [] (pos 0) (pos 0) [] s other).2,
      )
