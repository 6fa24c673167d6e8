-- ===== src/Storage/Elsewhere.antt =====
-- Which files a call of the storage writes.
use dropbox_lite.Prelude.{
  ◌≡◌, ◌≢◌, refl, sym, ap, subst, ◌∙◌, List, [], ◌∷◌, ◌++◌, Bool, false, Bytes, Str, length, arith,
  ◌==◌, if_both, str_eq_iff,
}
use dropbox_lite.Prelude.Int.{ℤ, to_size}
use dropbox_lite.Prelude.Dict.{Dict, get, put, get-put}
use dropbox_lite.Hash.{Ssl}
use dropbox_lite.Metadata.{get_file_chunks}
use dropbox_lite.Storage.{
  Env, Storage, db_of, get_client_db, get_chunk, or_nothing, write_chunk, on_db, store_chunk,
  assemble, finalize_file,
}
use dropbox_lite.Storage.Paths.{get_temp_file_path}
use dropbox_lite.Storage.Isolation.{opened_db, get_client_db_either}

get_client_db-files :
    (env : Env) (client : Str) (s : Storage)
    → ((get_client_db env client s).1.files ≡ s.files)
      × ((get_client_db env client s).1.storage_root ≡ s.storage_root)
unfolding opened_db
get_client_db-files env client s =
    get_client_db_either (λ r. (r.files ≡ s.files) × (r.storage_root ≡ s.storage_root)) env client s
      (refl, refl) (refl, refl)

-- A chunk that is stored shows in the files as its writing did.
pub store_chunk-write :
    (env : Env) (client path : Str) (i : ℤ) (d : Bytes) (h : Str) (s : Storage)
    → ((store_chunk env client path i d h s).1.files ≡ (write_chunk env d h s).1.files)
      × ((store_chunk env client path i d h s).1.storage_root
          ≡ (write_chunk env d h s).1.storage_root)
unfolding store_chunk on_db
store_chunk-write env client path i d h s =
    let s1 = (write_chunk env d h s).1 in
    let same = get_client_db-files env client s1 in
    let P = λ (r : Bool × Storage). (r.1.files ≡ s1.files) × (r.1.storage_root ≡ s1.storage_root) in
    if_both P (write_chunk env d h s).0 (if_both P (get_client_db env client s1).0 same same)
      (refl, refl)

-- Only the file at `temp` is written.
abbrev pub Elsewhere : Str → Storage → Storage → Type 0
Elsewhere temp s r =
    (r.storage_root ≡ s.storage_root) × ((k : Str) → k ≢ temp → get r.files k ≡ get s.files k)

put-elsewhere :
    (temp k : Str) (d : Bytes) (files : Dict Bytes)
    → k ≢ temp
    → get (put files temp d) k ≡ get files k
put-elsewhere temp k d files ne =
    ground (arith, get-put files temp k d, str_eq_iff temp k, λ (e : temp ≡ k). ne (sym e))

assemble-Elsewhere :
    (temp : Str) (hs : List Str) (s : Storage) → Elsewhere temp s (assemble temp hs s).1
unfolding assemble
assemble-Elsewhere temp [] s = (refl, λ k ne. refl)
assemble-Elsewhere temp (h ∷ hs) s =
    let d = or_nothing (get s.files temp) ++ get_chunk h s in
    let s1 = record s { files = put s.files temp d } in
    let (root, files) = assemble-Elsewhere temp hs s1 in
    if_both (λ (r : Bool × Storage). Elsewhere temp s r.1) (length (get_chunk h s) == 0)
      (refl, λ k ne. refl) (root, λ k ne. files k ne ∙ put-elsewhere temp k d s.files ne)

pub finalize_file-Elsewhere :
    (ssl : Ssl) (env : Env) (client path : Str) (total : ℤ) (s : Storage)
    → Elsewhere
        (get_temp_file_path s.storage_root client path)
        s
        (finalize_file ssl env client path total s).1
unfolding finalize_file on_db
finalize_file-Elsewhere ssl env client path total s =
    let (files1, root1) = get_client_db-files env client s in
    let s1 = (get_client_db env client s).1 in
    let hashes = get_file_chunks env.rc path (db_of s1 client) in
    let temp = get_temp_file_path s1.storage_root client path in
    let emptied = record s1 { files = put s1.files temp [] } in
    let P = λ (r : Bool × Storage). Elsewhere temp s r.1 in
    let opened : P (false, s1) = (root1, λ k ne. ap (λ (f : Dict Bytes). get f k) files1) in
    let (root2, files2) = assemble-Elsewhere temp hashes emptied in
    let written : P (false, (assemble temp hashes emptied).1) = (
      root2 ∙ root1,
      λ k ne. files2 k ne ∙ (put-elsewhere temp k [] s1.files ne ∙ opened.1 k ne),
    ) in
    subst
      (λ (root : Str).
        Elsewhere (get_temp_file_path root client path) s
          (finalize_file ssl env client path total s).1)
      root1
      (if_both P (get_client_db env client s).0
        (if_both P (length hashes == to_size total)
          (if_both P (env.can_write temp)
            (if_both P (assemble temp hashes emptied).0 written written) opened)
          opened)
        opened)
