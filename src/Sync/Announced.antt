-- ===== src/Sync/Announced.antt =====
-- From an upload to the clients that synchronise after it.
use mathlib.Core.List.{flatten}
use dropbox_lite.Prelude.{
  ◌^◌, ◌<◌, ◌≡◌, ◌≢◌, ap, ◌∙◌, List, [], ◌∷◌, Option, none, some, true, false, Bytes, Str, All,
  length, str_eq, if◌then◌else◌,
}
use dropbox_lite.Prelude.Int.{ℤ, pos, ltb_ℤ}
use dropbox_lite.Hash.{Ssl, sha256}
use dropbox_lite.Metadata.{FileRecord, done, c_str, get_file}
use dropbox_lite.Storage.{Env, Storage, db_of}
use dropbox_lite.Storage.Store.{Works, NoCollision}
use dropbox_lite.Storage.Upload.{Uploaded}
use dropbox_lite.Storage.Finalize.{IsRecordOf}
use dropbox_lite.Sync.{
  FileMetadata, FileChange, created, modified, UploadChunkResponse, find_local, upload_file, sync,
}
use dropbox_lite.Sync.Requests.{contents}
use dropbox_lite.Sync.Upload.{requests, upload_file-Finalized}
use dropbox_lite.Sync.Calls.{
  Call, upload, serve, serve-Everywhere, serve_all, fresh, IsSettled, IsSettled-IsClosed,
  serve_all-IsSettled,
}
use dropbox_lite.Sync.Told.{about, told, sync-told}

-- What is told of a path whose file was uploaded with the hash `h` at the time `t`, to a client that has
-- `found` there and was last synchronised at `since`.
abbrev pub announced : Str → Option FileMetadata → ℤ → Str → ℤ → List FileChange
announced p none since h t =
    if ltb_ℤ since t then (record { path = p; change_type = created }) ∷ [] else []
announced p (some l) since h t =
    if str_eq l.hash h then [] else (record { path = p; change_type = modified }) ∷ []

told-announced :
    (p h : Str) (found : Option FileMetadata) (since t : ℤ) (f : FileRecord)
    → f.deleted ≡ false
    → f.hash ≡ h
    → f.modified_time ≡ t
    → told p found since (some f) ≡ announced p found since h t
told-announced p h none since t f e1 e2 e3 = rw (e1, e3)
told-announced p h (some l) since t f e1 e2 e3 = rw (e1, e2)

module _ (ssl : Ssl) (P : Bytes → Type 0) where
  -- After whatever history, a file is uploaded to a server that has no chunks of it, and nothing fails. Its
  -- row has the SHA-256 and the length of what was uploaded, and the server's time at the end of the
  -- upload. A synchronisation under the same client id that comes next is told of the path just this: one
  -- `modified` if its own file there has another hash, none if it has this one, and, if it has no such
  -- file, one `created` where it was last synchronised before that time and none where it was not. No
  -- content is empty, they are no more than an `int32_t` counts, and no two have a hash in common.
  pub upload_announced :
      (history : List Call) (root client path : Str) (c : Env × Bytes) (cs : List (Env × Bytes))
      (last later : Env) (ls : List FileMetadata) (since : ℤ)
      → NoCollision ssl P
      → All (λ e. Works e.0) (c ∷ cs)
      → Works last
      → Works later
      → All P (contents (c ∷ cs))
      → All (λ q. q ≢ []) (contents (c ∷ cs))
      → length (contents (c ∷ cs)) < 2 ^ 31
      → str_eq client [] ≡ false
      → Uploaded ssl P root client path [] (serve_all ssl history (fresh root))
      → let (r, s) =
          upload_file ssl
            (requests ssl P client path (pos (length (contents (c ∷ cs)))) 0 0 (c ∷ cs))
            last
            (serve_all ssl history (fresh root)) in
        (r.success ≡ true)
        × ((f : FileRecord) × (get_file done path (db_of s client) ≡ some f)
            × IsRecordOf ssl P path (flatten (contents (c ∷ cs))) f
            × (f.modified_time ≡ last.now))
        × (about (c_str path) (sync later client ls since s).0.changes
            ≡ announced
                (c_str path)
                (find_local (c_str path) ls)
                since
                (c_str (sha256 ssl (flatten (contents (c ∷ cs)))))
                last.now)
  upload_announced history root client path c cs last later ls since sep w wl wt hp full few ne v =
      let before = serve_all ssl history (fresh root) in
      let rs = requests ssl P client path (pos (length (contents (c ∷ cs)))) 0 0 (c ∷ cs) in
      let (s', went, timed, (_, _, (f, found, law))) =
        upload_file-Finalized ssl P root client path c cs last before sep w wl hp full few ne v in
      let answered = ap (λ (t : UploadChunkResponse × Storage). t.0.success) went in
      let there : get_file done path (db_of (upload_file ssl rs last before).1 client) ≡ some f =
        ap (λ (t : UploadChunkResponse × Storage). get_file done path (db_of t.1 client)) went
        ∙ found in
      let settled : IsSettled (db_of (upload_file ssl rs last before).1 client) =
        unfold serve in
        serve-Everywhere ssl IsSettled IsSettled-IsClosed (upload rs last) before
          (serve_all-IsSettled ssl history root) client in
      let mine = find_local (c_str path) ls in
      let now = timed f found in
      (
        answered,
        (f, there, law, now),
        sync-told later client path ls since (upload_file ssl rs last before).1 wt settled
            ∙ (ap (told (c_str path) mine since) there
                ∙ told-announced (c_str path) (c_str (sha256 ssl (flatten (contents (c ∷ cs)))))
                    mine since last.now f law.3 law.1 now),
      )
