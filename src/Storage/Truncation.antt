-- ===== src/Storage/Truncation.antt =====
-- A reconstruction that finds a chunk missing.
use dropbox_lite.Prelude.{
  ◌%◌, ◌^◌, ◌<◌, ◌≡◌, refl, sym, ap, subst, ◌∙◌, List, [], ◌∷◌, none, some, Bool, true, false,
  Bytes, Str, arith, length, ◌==◌, ==_iff, Bool-cases, inl, inr, str_eq,
}
use dropbox_lite.Prelude.Int.{ℤ, pos, to_size}
use dropbox_lite.Prelude.Dict.{Dict, get, put, get-put, get-put_self}
use dropbox_lite.Hash.{Ssl}
use dropbox_lite.Metadata.{Rc, done, get_file_chunks}
use dropbox_lite.Storage.{Env, Storage, db_of, get_client_db, get_chunk, assemble, finalize_file}
use dropbox_lite.Storage.Paths.{get_chunk_path, get_temp_file_path}
use dropbox_lite.Storage.Isolation.{db_of-dbs}
use dropbox_lite.Storage.Store.{Works, get_client_db-Works}

-- The state in which the file has been opened for writing.
abbrev emptied : Str → Storage → Storage
emptied temp s = record s { files = put s.files temp [] }

assemble-missing :
    (temp h : Str) (hs : List Str) (s : Storage)
    → get s.files (get_chunk_path s.storage_root h) ≡ none
    → assemble temp (h ∷ hs) (emptied temp s) ≡ (false, emptied temp s)
unfolding assemble get_chunk
assemble-missing temp h hs s missing =
    elim (Bool-cases (str_eq temp (get_chunk_path s.storage_root h))) [
      | inl same ↦ rw (get-put s.files temp (get_chunk_path s.storage_root h) [], same) refl
      | inr other ↦
          rw (get-put s.files temp (get_chunk_path s.storage_root h) [], other, missing) refl
    ]

-- The tests of `finalizeFile` up to the loop, passed; and the loop, given up.
finalize_file-stops :
    (ssl : Ssl) (env : Env) (client path : Str) (total : ℤ) (hs : List Str) (s s1 s2 : Storage)
    → get_client_db env client s ≡ (true, s1)
    → get_file_chunks env.rc path (db_of s1 client) ≡ hs
    → (length hs == to_size total) ≡ true
    → env.can_write (get_temp_file_path s1.storage_root client path) ≡ true
    → assemble
        (get_temp_file_path s1.storage_root client path)
        hs
        (emptied (get_temp_file_path s1.storage_root client path) s1)
      ≡ (false, s2)
    → finalize_file ssl env client path total s ≡ (false, s2)
unfolding finalize_file
finalize_file-stops ssl env client path total hs s s1 s2 opened listed counted writes gave_up =
    rw (opened, listed, counted, writes, gave_up) refl

-- A file whose chunks have all been announced, the first of which the server has lost, is not put together:
-- the answer is `false`, the record of the file stays, and its copy on the server is empty, whatever it
-- was before. Nothing else fails and no transaction is open.
pub finalize_file-missing :
    (ssl : Ssl) (env : Env) (client path h : Str) (hs : List Str) (s : Storage)
    → Works env
    → (db_of s client).saved ≡ none
    → get_file_chunks done path (db_of s client) ≡ h ∷ hs
    → length (h ∷ hs) < 2 ^ 31
    → get s.files (get_chunk_path s.storage_root h) ≡ none
    → let r = finalize_file ssl env client path (pos (length (h ∷ hs))) s in
      (r.0 ≡ false)
      × (get r.1.files (get_temp_file_path s.storage_root client path) ≡ some [])
      × (db_of r.1 client ≡ db_of s client)
finalize_file-missing ssl env client path h hs s works settled listed few lost =
    let (opened, files, root, db) = get_client_db-Works env client s works settled in
    let s1 = (get_client_db env client s).1 in
    let temp = get_temp_file_path s1.storage_root client path in
    let missing : get s1.files (get_chunk_path s1.storage_root h) ≡ none =
      subst (λ (r : Str). get s1.files (get_chunk_path r h) ≡ none) (sym root)
        (ap (λ (f : Dict Bytes). get f (get_chunk_path s.storage_root h)) files ∙ lost) in
    let stops : finalize_file ssl env client path (pos (length (h ∷ hs))) s
        ≡ (false, emptied temp s1) =
      finalize_file-stops ssl env client path (pos (length (h ∷ hs))) (h ∷ hs) s s1
        (emptied temp s1) (λ i. (opened i, s1))
        (ap (λ (rc : Rc). get_file_chunks rc path (db_of s1 client)) works.answers
          ∙ (ap (get_file_chunks done path) db ∙ listed))
        ((==_iff (length (h ∷ hs)) (length (h ∷ hs) % 2 ^ 64)).1 (omega arith)) (works.writes temp)
        (assemble-missing temp h hs s1 missing) in
    subst
      (λ (r : Bool × Storage).
        (r.0 ≡ false)
        × (get r.1.files (get_temp_file_path s.storage_root client path) ≡ some [])
        × (db_of r.1 client ≡ db_of s client))
      (sym stops)
      (
        refl,
        subst (λ (r : Str). get (put s1.files temp []) (get_temp_file_path r client path) ≡ some [])
            root (get-put_self s1.files temp []),
        db_of-dbs (emptied temp s1) s1 client refl ∙ db,
      )
