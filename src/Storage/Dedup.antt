-- ===== src/Storage/Dedup.antt =====
-- One copy of each chunk.
use dropbox_lite.Prelude.{◌≡◌, refl, ap, true, false, Bytes, Str, arith}
use dropbox_lite.Prelude.Dict.{put, get-put_self, has-get}
use dropbox_lite.Storage.{Env, Storage, has_chunk, get_chunk, write_chunk, or_nothing}
use dropbox_lite.Storage.Paths.{get_chunk_path}

-- The first content stored under a hash stays: it is read back, and a later store under the same hash
-- answers `true` and changes nothing, whatever bytes it brings. No content is compared with its hash.
pub write_chunk_first :
    (env later : Env) (first second : Bytes) (hash : Str) (s : Storage)
    → has_chunk hash s ≡ false
    → env.can_write (get_chunk_path s.storage_root hash) ≡ true
    → ((write_chunk env first hash s).0 ≡ true)
      × (get_chunk hash (write_chunk env first hash s).1 ≡ first)
      × (write_chunk later second hash (write_chunk env first hash s).1
          ≡ (true, (write_chunk env first hash s).1))
unfolding write_chunk has_chunk get_chunk
write_chunk_first env later first second hash s absent w =
    let path = get_chunk_path s.storage_root hash in
    let stored = get-put_self s.files path first in
    let there = has-get (put s.files path first) path in
    rw (absent, w) (refl, ap or_nothing stored, ground (arith, there, stored))
