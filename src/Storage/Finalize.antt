-- ===== src/Storage/Finalize.antt =====
-- Reconstructing a file from its chunks.
use mathlib.Core.List.{flatten}
use dropbox_lite.Prelude.{
  ◌%◌, ◌^◌, ◌<◌, ◌≡◌, ◌≢◌, refl, sym, ap, subst, ◌∙◌, List, [], map, none, some, Bool, true, false,
  Bytes, Str, All, length, str_eq_self, arith, ◌==◌, ==_iff,
}
use dropbox_lite.Prelude.Int.{ℤ, pos, to_size}
use dropbox_lite.Prelude.Dict.{Dict, get, put, get-put_self}
use dropbox_lite.Hash.{Ssl, sha256}
use dropbox_lite.Hash.Stream.{sha256_file-eq-sha256}
use dropbox_lite.Metadata.{
  FileRecord, done, c_str, bound, get_file_chunks, get_file, insert_or_update_file,
}
use dropbox_lite.Metadata.Files.{get_file-insert}
use dropbox_lite.Storage.{
  Env, Storage, db_of, get_client_db, or_nothing, on_db, assemble, file_record, finalize_file,
}
use dropbox_lite.Storage.Paths.{get_temp_file_path}
use dropbox_lite.Storage.Store.{Works, get_client_db-Works, db_of-with_db}
use dropbox_lite.Storage.Upload.{Uploaded, length-hashes}
use dropbox_lite.Storage.Stored.{Present}
use dropbox_lite.Storage.Assembled.{Present-temp, assemble-Present}

module _ (ssl : Ssl) (P : Bytes → Type 0) where
  -- The record that a reconstructed file gets.
  abbrev pub IsRecordOf : Str → Bytes → FileRecord → Type 0
  IsRecordOf path content r =
      (r.path ≡ c_str path)
      × (r.hash ≡ c_str (sha256 ssl content))
      × (r.size ≡ pos (length content))
      × (r.deleted ≡ false)
      × (r.is_directory ≡ false)
      × (r.version ≡ pos 1)

  file_record-IsRecordOf :
      (env : Env) (path : Str) (content : Bytes)
      → IsRecordOf path content (bound (file_record ssl env path (some content)))
  unfolding bound file_record
  file_record-IsRecordOf env path content = (
    refl,
    ap (λ h. c_str (or_nothing h)) (sha256_file-eq-sha256 ssl content).0,
    refl,
    refl,
    refl,
    refl,
  )

  -- The steps of `finalizeFile` where nothing fails and the count is right.
  finalize_file-through :
      (env : Env) (client path temp : Str) (total : ℤ) (s s1 : Storage) (hashes : List Str)
      (files : Dict Bytes)
      → get_client_db env client s ≡ (true, s1)
      → get_file_chunks env.rc path (db_of s1 client) ≡ hashes
      → (length hashes == to_size total) ≡ true
      → get_temp_file_path s1.storage_root client path ≡ temp
      → env.can_write temp ≡ true
      → assemble temp hashes (record s1 { files = put s1.files temp [] })
        ≡ (true, record s1 { files = files })
      → finalize_file ssl env client path total s
        ≡ on_db client
            (insert_or_update_file env.record_rc (file_record ssl env path (get files temp)))
            (record s1 { files = files })
  unfolding finalize_file
  finalize_file-through env client path temp total s s1 hashes files e1 e2 e3 e4 e5 e6 =
      rw (e1, e2, e3, e4, e5, e6)

  -- What finalizing a file comes to.
  abbrev pub Finalized : Str → Str → Str → Bytes → Bool × Storage → Type 0
  Finalized temp client path content r =
      (r.0 ≡ true)
      × (get r.1.files temp ≡ some content)
      × ((f : FileRecord) × (get_file done path (db_of r.1 client) ≡ some f)
          × IsRecordOf path content f)

  -- The record is written and reads back.
  insert-Finalized :
      (client path temp : Str) (content : Bytes) (f : FileRecord) (s : Storage)
      → get s.files temp ≡ some content
      → IsRecordOf path content (bound f)
      → c_str f.path ≡ c_str path
      → Finalized temp client path content (on_db client (insert_or_update_file done f) s)
  unfolding on_db
  insert-Finalized client path temp content f s e h ep = (
    unfold insert_or_update_file in refl,
    e,
    (
      bound f,
      ap (get_file done path)
            (db_of-with_db s client (insert_or_update_file done f (db_of s client)).1)
          ∙ (get_file-insert f path (db_of s client) ∙ rw (ep, str_eq_self (c_str path))),
      h,
    ),
  )

  -- When all the chunks of a file are there and listed, none of them empty and no more than an `int32_t`
  -- counts, finalizing it succeeds where nothing fails: its bytes are the chunks joined in order, and its
  -- record has their hash and length.
  pub finalize_file-Present :
      (env : Env) (root client path : Str) (qs : List Bytes) (s : Storage)
      → Works env
      → s.storage_root ≡ root
      → Present ssl P root s.files qs
      → (db_of s client).saved ≡ none
      → get_file_chunks done path (db_of s client) ≡ map (sha256 ssl) qs
      → All (λ q. q ≢ []) qs
      → length qs < 2 ^ 31
      → Finalized
          (get_temp_file_path root client path)
          client
          path
          (flatten qs)
          (finalize_file ssl env client path (pos (length qs)) s)
  finalize_file-Present env root client path qs s w rooted there settled listed ne few =
      let (opened, files1, root1, db1) = get_client_db-Works env client s w settled in
      let s1 = (get_client_db env client s).1 in
      let e1 : ◌≡◌ {A = Bool × Storage} (get_client_db env client s) (true, s1) =
        λ i. (opened i, s1) in
      let er = root1 ∙ rooted in
      let present = subst (λ t. Present ssl P root t qs) (sym files1) there in
      let (files, whole, content) =
        assemble-Present ssl P root client path [] qs (record s1 { files = put s1.files temp [] })
          er (Present-temp ssl P root client path s1.files [] qs present) ne
          (get-put_self s1.files temp []) in
      let through =
        finalize_file-through env client path temp (pos (length qs)) s s1 (map (sha256 ssl) qs)
          files e1
          (ap (λ rc. get_file_chunks rc path (db_of s1 client)) w.answers
            ∙ (ap (get_file_chunks done path) db1 ∙ listed))
          counted (ap (λ r. get_temp_file_path r client path) er) (w.writes temp) whole in
      subst (Finalized temp client path (flatten qs)) (sym through) (
        subst
          (λ rc. Finalized temp client path (flatten qs) (
            on_db client (insert_or_update_file rc (file_record ssl env path (get files temp)))
              (record s1 { files = files })))
          (sym w.records)
          (insert-Finalized client path temp (flatten qs)
            (file_record ssl env path (get files temp)) (record s1 { files = files }) content
            (subst (λ t. IsRecordOf path (flatten qs) (bound (file_record ssl env path t)))
              (sym content) (file_record-IsRecordOf env path (flatten qs)))
            (unfold file_record in refl)))
    where
      temp : Str
      temp = get_temp_file_path root client path

      counted : (length (map (sha256 ssl) qs) == to_size (pos (length qs))) ≡ true
      counted =
          let e : length (map (sha256 ssl) qs) ≡ length qs % 2 ^ 64 =
            omega (arith, length-hashes (sha256 ssl) qs) in
          (==_iff (length (map (sha256 ssl) qs)) (length qs % 2 ^ 64)).1 e

  pub finalize_file-Uploaded :
      (env : Env) (root client path : Str) (qs : List Bytes) (s : Storage)
      → Works env
      → Uploaded ssl P root client path qs s
      → All (λ q. q ≢ []) qs
      → length qs < 2 ^ 31
      → Finalized
          (get_temp_file_path root client path)
          client
          path
          (flatten qs)
          (finalize_file ssl env client path (pos (length qs)) s)
  finalize_file-Uploaded env root client path qs s w v ne few =
      finalize_file-Present env root client path qs s w v.rooted v.present v.recorded.settled
        v.recorded.listed ne few
