-- ===== src/Storage/Assembled.antt =====
-- The reconstruction loop over chunks that are there.
use mathlib.Core.List.{flatten}
use dropbox_lite.Prelude.{
  ◌≡◌, ◌≢◌, refl, sym, ap, ◌∙◌, List, [], ◌∷◌, ◌++◌, map, some, true, Bytes, Str, All, str_eq_iff,
  arith, append-nil, append_assoc,
}
use dropbox_lite.Prelude.Dict.{Dict, get, put, get-put, get-put_self}
use dropbox_lite.Hash.{Ssl, sha256}
use dropbox_lite.Storage.{Storage, get_chunk, or_nothing, assemble}
use dropbox_lite.Storage.Paths.{get_chunk_path, get_temp_file_path, get_chunk_path-ne-temp}
use dropbox_lite.Storage.Stored.{Present}

-- One round over a chunk that is there and not empty.
assemble-cons :
    (temp hash : Str) (hashes : List Str) (acc q : Bytes) (s : Storage)
    → get_chunk hash s ≡ q
    → q ≢ []
    → get s.files temp ≡ some acc
    → assemble temp (hash ∷ hashes) s
      ≡ assemble temp hashes (record s { files = put s.files temp (acc ++ q) })
unfolding assemble
assemble-cons temp hash hashes acc [] s found ne e = absurd (ne refl)
assemble-cons temp hash hashes acc (x ∷ xs) s found ne e = rw (found, e) (ground arith)

module _ (ssl : Ssl) (P : Bytes → Type 0) where
  pub Present-temp :
      (root client path : Str) (files : Dict Bytes) (d : Bytes) (qs : List Bytes)
      → Present ssl P root files qs
      → Present ssl P root (put files (get_temp_file_path root client path) d) qs
  Present-temp root client path files d [] h = tt
  Present-temp root client path files d (q ∷ qs) h =
      let temp = get_temp_file_path root client path in
      let there = get_chunk_path root (sha256 ssl q) in
      (
        ground (
          arith,
          get-put files temp there d,
          str_eq_iff temp there,
          λ (e : temp ≡ there). get_chunk_path-ne-temp root (sha256 ssl q) client path (sym e),
          h.0,
        ),
        Present-temp root client path files d qs h.1,
      )

  -- The loop over chunks that are there, none empty, appends them all.
  pub assemble-Present :
      (root client path : Str) (acc : Bytes) (qs : List Bytes) (s : Storage)
      → s.storage_root ≡ root
      → Present ssl P root s.files qs
      → All (λ q. q ≢ []) qs
      → get s.files (get_temp_file_path root client path) ≡ some acc
      → (files : Dict Bytes) × (assemble
            (get_temp_file_path root client path)
            (map (sha256 ssl) qs)
            s
          ≡ (true, record s { files = files }))
        × (get files (get_temp_file_path root client path) ≡ some (acc ++ flatten qs))
  unfolding flatten
  assemble-Present root client path acc [] s er h ne e =
      (s.files, unfold assemble in refl, e ∙ ap some (sym (append-nil acc)))
  assemble-Present root client path acc (q ∷ qs) s er h ne e =
      let temp = get_temp_file_path root client path in
      let found : get_chunk (sha256 ssl q) s ≡ q =
        unfold get_chunk in
        ap or_nothing (ap (λ r. get s.files (get_chunk_path r (sha256 ssl q))) er ∙ h.0) in
      let next = record s { files = put s.files temp (acc ++ q) } in
      let (files, whole, content) =
        assemble-Present root client path (acc ++ q) qs next er
          (Present-temp root client path s.files (acc ++ q) qs h.1) ne.1
          (get-put_self s.files temp (acc ++ q)) in
      (
        files,
        assemble-cons temp (sha256 ssl q) (map (sha256 ssl) qs) acc q s found ne.0 e ∙ whole,
        content ∙ ap some (append_assoc acc q (flatten qs)),
      )
