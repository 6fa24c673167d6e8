-- ===== src/Storage/Stats.antt =====
-- What the statistics say of the chunk store.
use dropbox_lite.Prelude.{
  ◌+◌, ◌≡◌, refl, subst, [], ◌∷◌, ◌++◌, true, false, Bytes, Str, codes, take, length, arith,
  if◌then◌else◌, append_assoc, Bool-cases, inl, inr,
}
use dropbox_lite.Prelude.Dict.{Dict, put, has}
use dropbox_lite.Storage.{Env, Storage, has_chunk, write_chunk, count_chunks, get_stats}
use dropbox_lite.Storage.Paths.{get_chunk_path, starts_with}

starts_with-append : (d r : Str) → starts_with d (d ++ r) ≡ true
unfolding starts_with
starts_with-append [] r = refl
starts_with-append (c ∷ cs) r = ground (arith, starts_with-append cs r)

-- One more file below the directory, or elsewhere.
count_chunks-put :
    (dir k : Str) (d : Bytes) (fs : Dict Bytes)
    → has fs k ≡ false
    → starts_with dir k ≡ true
    → ((count_chunks dir (put fs k d)).total_chunks ≡ (count_chunks dir fs).total_chunks + 1)
      × ((count_chunks dir (put fs k d)).total_bytes ≡ (count_chunks dir fs).total_bytes + length d)
unfolding count_chunks has put
count_chunks-put dir k d [] h e = ground arith
count_chunks-put dir k d ((j, c) ∷ fs) h e = ground (arith, count_chunks-put dir k d fs)

get_chunk_path-below :
    (root hash : Str) → starts_with (root ++ codes "/chunks/") (get_chunk_path root hash) ≡ true
unfolding get_chunk_path
get_chunk_path-below root hash =
    let file = take 2 hash ++ (codes "/" ++ hash) in
    subst (λ (p : Str). starts_with (root ++ codes "/chunks/") p ≡ true)
      (append_assoc root (codes "/chunks/") file)
      (starts_with-append (root ++ codes "/chunks/") file)

-- A chunk that is new to the store adds one to the number of chunks and its size to their bytes, where its
-- file can be written; one whose hash is there already adds nothing.
pub get_stats-write_chunk :
    (env : Env) (d : Bytes) (hash : Str) (s : Storage)
    → env.can_write (get_chunk_path s.storage_root hash) ≡ true
    → let st = get_stats s in
      let st' = get_stats (write_chunk env d hash s).1 in
      (st'.total_chunks ≡ st.total_chunks + (if has_chunk hash s then 0 else 1))
      × (st'.total_bytes ≡ st.total_bytes + (if has_chunk hash s then 0 else length d))
unfolding get_stats write_chunk has_chunk
get_stats-write_chunk env d hash s w =
    elim (Bool-cases (has s.files (get_chunk_path s.storage_root hash))) [
      | inl there ↦ rw there (omega arith, omega arith)
      | inr new ↦
          rw (new, w)
            (count_chunks-put (s.storage_root ++ codes "/chunks/")
              (get_chunk_path s.storage_root hash) d s.files new
              (get_chunk_path-below s.storage_root hash))
    ]
