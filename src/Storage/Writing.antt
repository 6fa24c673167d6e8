-- ===== src/Storage/Writing.antt =====
-- The content part of `storeChunk`, opened and closed: between the two, other threads see the file, and
-- not every byte need reach the disk, since the stream is not asked whether they did.
use dropbox_lite.Prelude.{
  ℕ, zero, suc, ◌≤◌, ◌≡◌, refl, ap, ◌∙◌, List, [], ◌∷◌, some, Bool, true, false, Bytes, Str, take,
  length, arith, str_eq, str_eq_self, if◌then◌else◌, Bool-cases, inl, inr,
}
use dropbox_lite.Prelude.Dict.{Dict, get, put, get-put, get-put_self, has-get}
use dropbox_lite.Storage.{Env, Storage, has_chunk, get_chunk, or_nothing, write_chunk, assemble}
use dropbox_lite.Storage.Paths.{get_chunk_path}

-- What the test and the opening come to.
pub data Writing : Type 0 where
  found opened refused : Writing

-- The test for the file, and its opening, which makes it empty.
unfoldable pub open_chunk : Env → Str → Storage → Writing × Storage
open_chunk env hash s =
    if has_chunk hash s
    then (found, s)
    else if env.can_write (get_chunk_path s.storage_root hash)
    then (opened, record s { files = put s.files (get_chunk_path s.storage_root hash) [] })
    else (refused, s)

-- The write and the end of the stream, of which the first `n` bytes reach the disk.
unfoldable pub close_chunk : ℕ → Bytes → Str → Writing → Storage → Bool × Storage
close_chunk n bytes hash found s = (true, s)
close_chunk n bytes hash refused s = (false, s)
close_chunk n bytes hash opened s =
    (true, record s { files = put s.files (get_chunk_path s.storage_root hash) (take n bytes) })

put-put : (files : Dict Bytes) (k : Str) (d e : Bytes) → put (put files k d) k e ≡ put files k e
unfolding put
put-put [] k d e = ground (arith, str_eq_self k)
put-put ((j, w) ∷ files) k d e = ground (arith, put-put files k d e, str_eq_self k)

take_all : (n : ℕ) (bytes : Bytes) → length bytes ≤ n → take n bytes ≡ bytes
take_all zero [] h = refl
take_all zero (b ∷ bytes) h = absurd (omega arith)
take_all (suc n) [] h = refl
take_all (suc n) (b ∷ bytes) h = ap (◌∷◌ b) (take_all n bytes (omega arith))

-- When no other thread comes between and every byte is stored, the two are the one step of `write_chunk`.
pub close_chunk-open_chunk :
    (n : ℕ) (env : Env) (bytes : Bytes) (hash : Str) (s : Storage)
    → length bytes ≤ n
    → let (w, s1) = open_chunk env hash s in
      close_chunk n bytes hash w s1 ≡ write_chunk env bytes hash s
unfolding open_chunk write_chunk close_chunk
close_chunk-open_chunk n env bytes hash s whole =
    let path = get_chunk_path s.storage_root hash in
    let all : put (put s.files path []) path (take n bytes) ≡ put s.files path bytes =
      put-put s.files path [] (take n bytes) ∙ ap (put s.files path) (take_all n bytes whole) in
    elim (Bool-cases (has_chunk hash s)) [
      | inl there ↦ rw there refl
      | inr new ↦ elim (Bool-cases (env.can_write path)) [
        | inl writes ↦
            rw (new, writes) (ap (λ (f : Dict Bytes). (true, record s { files = f })) all)
        | inr not_written ↦ rw (new, not_written) refl
      ]
    ]

-- A later call for the same hash, with whatever content, is answered `true` and writes nothing.
write_chunk-there :
    (env : Env) (bytes : Bytes) (hash : Str) (d : Bytes) (s : Storage)
    → get s.files (get_chunk_path s.storage_root hash) ≡ some d
    → write_chunk env bytes hash s ≡ (true, s)
unfolding write_chunk has_chunk
write_chunk-there env bytes hash d s e =
    ground (arith, has-get s.files (get_chunk_path s.storage_root hash), e)

-- A chunk that is empty ends the reconstruction of a file.
assemble-empty :
    (temp hash : Str) (hs : List Str) (s : Storage)
    → get s.files (get_chunk_path s.storage_root hash) ≡ some []
    → (assemble temp (hash ∷ hs) (record s { files = put s.files temp [] })).0 ≡ false
unfolding assemble get_chunk
assemble-empty temp hash hs s e =
    let path = get_chunk_path s.storage_root hash in
    elim (Bool-cases (str_eq temp path)) [
      | inl same ↦ rw (get-put s.files temp path [], same) refl
      | inr other ↦ rw (get-put s.files temp path [], other, e) refl
    ]

-- A new chunk while it is being written, and after a write of which only `n` bytes reached the disk. While
-- it is open another thread that stores a chunk under the same hash is answered `true`, finds nothing in
-- it, and cannot put its file together. Afterwards the answer is `true` all the same, the chunk reads as
-- the `n` bytes, and no later call under its hash mends it.
pub chunk_torn :
    (n : ℕ) (env env' : Env) (bytes other : Bytes) (hash temp : Str) (hs : List Str) (s : Storage)
    → has_chunk hash s ≡ false
    → env.can_write (get_chunk_path s.storage_root hash) ≡ true
    → let (w, s1) = open_chunk env hash s in
      let (ok, s2) = close_chunk n bytes hash w s1 in
      (write_chunk env' other hash s1 ≡ (true, s1))
      × (get_chunk hash s1 ≡ [])
      × ((assemble temp (hash ∷ hs) (record s1 { files = put s1.files temp [] })).0 ≡ false)
      × (ok ≡ true)
      × (get_chunk hash s2 ≡ take n bytes)
      × (write_chunk env' other hash s2 ≡ (true, s2))
unfolding open_chunk close_chunk get_chunk
chunk_torn n env env' bytes other hash temp hs s new writes =
    let path = get_chunk_path s.storage_root hash in
    let s1 = record s { files = put s.files path [] } in
    let s2 = record s1 { files = put s1.files path (take n bytes) } in
    let empty = get-put_self s.files path [] in
    let torn = get-put_self s1.files path (take n bytes) in
    rw (new, writes)
      (
        write_chunk-there env' other hash [] s1 empty,
        ap or_nothing empty,
        assemble-empty temp hash hs s1 empty,
        refl,
        ap or_nothing torn,
        write_chunk-there env' other hash (take n bytes) s2 torn,
      )
