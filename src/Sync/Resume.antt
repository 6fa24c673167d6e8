-- ===== src/Sync/Resume.antt =====
-- An upload that the end of the server has cut (`UploadFile` of src/server/sync_service.cpp), taken up again.
use mathlib.Core.List.{flatten}
use dropbox_lite.Prelude.{
  ℕ, ◌+◌, ◌<◌, ◌^◌, ◌≡◌, ◌≢◌, refl, ap, ◌∙◌, List, [], ◌∷◌, ◌++◌, some, true, false, Bytes, Str,
  All, length, length-append, str_eq, arith,
}
use dropbox_lite.Prelude.Int.{pos}
use dropbox_lite.Hash.{Ssl}
use dropbox_lite.Storage.{Env, Storage, finalize_file, list_files, get_file_metadata}
use dropbox_lite.Storage.Paths.{get_temp_file_path}
use dropbox_lite.Storage.Store.{Works, NoCollision}
use dropbox_lite.Storage.Upload.{Uploaded}
use dropbox_lite.Storage.Finalize.{Finalized, finalize_file-Uploaded}
use dropbox_lite.Storage.Restart.{restart, restart-Uploaded, restart-files}
use dropbox_lite.Sync.{finish, upload_file}
use dropbox_lite.Sync.Requests.{named, contents, length-contents, finish-some}
use dropbox_lite.Sync.Upload.{requests, receive-Uploaded, receive-first}

module _ (ssl : Ssl) (P : Bytes → Type 0) where
  -- The server ends after the chunks `qs` of an upload and starts again over the same directory. Its
  -- databases are opened with their tables: the client's files are listed and found as before. An upload of
  -- the chunks that are missing, from the next index on and announcing all, succeeds and counts its own; the
  -- server's copy is the contents of both calls joined, with a record of their hash and length. Nothing
  -- fails in the calls after the restart, no content is empty, they are no more than an `int32_t` counts, and
  -- no two have a hash in common.
  pub upload_file_resumed :
      (root client path other : Str) (qs : List Bytes) (o : ℕ) (c : Env × Bytes)
      (cs : List (Env × Bytes)) (last env : Env) (s : Storage)
      → NoCollision ssl P
      → All (λ e. Works e.0) (c ∷ cs)
      → Works last
      → Works env
      → All P qs
      → All P (contents (c ∷ cs))
      → All (λ q. q ≢ []) (qs ++ contents (c ∷ cs))
      → length (qs ++ contents (c ∷ cs)) < 2 ^ 31
      → str_eq client [] ≡ false
      → Uploaded ssl P root client path qs s
      → ((list_files env client (restart s)).0 ≡ (list_files env client s).0)
        × ((get_file_metadata env client other (restart s)).0
            ≡ (get_file_metadata env client other s).0)
        × ((s' : Storage) × (upload_file ssl
                (requests ssl P client path
                  (pos (length (qs ++ contents (c ∷ cs))))
                  (length qs)
                  o
                  (c ∷ cs))
                last
                (restart s)
              ≡ (
                record { success = true; message = []; chunks_received = pos (length (c ∷ cs)) },
                s',
              ))
            × Finalized ssl P
                (get_temp_file_path root client path)
                client
                path
                (flatten (qs ++ contents (c ∷ cs)))
                (true, s'))
  unfolding upload_file
  upload_file_resumed root client path other qs o c cs last env s sep w wl we hq hp full few ne v =
      let n = length (qs ++ contents (c ∷ cs)) in
      let v0 = restart-Uploaded ssl P root client path qs s v in
      let (listed, found) = restart-files env client other s we v.recorded.settled in
      let (s1, went, v1) =
        receive-Uploaded ssl P root client path (pos n) o (length qs) 0 (c ∷ cs) qs
          (named client path (pos n) 0) (restart s) sep w hq hp ne v0 refl refl in
      let finalized =
        finalize_file-Uploaded ssl P last root client path (qs ++ contents (c ∷ cs)) s1 wl v1 full
          few in
      let zero_first : 0 + length (c ∷ cs) ≡ length (c ∷ cs) = omega arith in
      (
        listed,
        found,
        (
          (finalize_file ssl last client path (pos n) s1).1,
          ap (finish ssl last) (
                receive-first ssl P root client path (pos n) (length qs) o c cs (restart s) ne
                ∙ (went ∙ ap (λ j. (some (named client path (pos n) j), s1)) zero_first))
              ∙ finish-some ssl last (named client path (pos n) (length (c ∷ cs))) s1 finalized.0 (
                  omega (
                    arith,
                    few,
                    length-append {0} qs (contents (c ∷ cs)),
                    length-contents (c ∷ cs),
                  )),
          (refl, finalized.1, finalized.2),
        ),
      )
