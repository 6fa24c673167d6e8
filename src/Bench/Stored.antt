-- ===== src/Bench/Stored.antt =====
-- What the deduplication benchmark measures, beside what a server stores.
use dropbox_lite.Prelude.{◌≤◌, ◌≡◌, List, [], ◌∷◌, map, Bytes, Str, length}
use dropbox_lite.Prelude.Int.{ℤ}
use dropbox_lite.Prelude.Dict.{Dict}
use dropbox_lite.Hash.{Ssl, sha256}
use dropbox_lite.Chunker.{ChunkInfo}
use dropbox_lite.Delta.{contains}
use dropbox_lite.Storage.{Env, Storage, has_chunk, store_chunk, get_stats}
use dropbox_lite.Bench.Dedup.{Measured}

-- A content to store, for whichever file of whichever client.
pub record Sent : Type 0 where
  pub env : Env
  pub client : Str
  pub path : Str
  pub index : ℤ
  pub content : Bytes

module _ (ssl : Ssl) where
  unfoldable pub store_all : List Sent → Storage → Storage
  unfolding store_chunk
  store_all [] s = s
  store_all (x ∷ xs) s =
      store_all xs (store_chunk x.env x.client x.path x.index x.content (sha256 ssl x.content) s).1

  abbrev pub chunk_of : Bytes → ChunkInfo
  chunk_of p = record { offset = 0; size = length p; hash = sha256 ssl p }

  -- The benchmark's counts are those of the server's statistics.
  record Agrees (m : Measured) (s : Storage) : Type 0 where
    present : (h : Str) → 2 ≤ length h → has_chunk h s ≡ contains m.unique_chunks h
    chunks : (get_stats s).total_chunks ≡ length m.unique_chunks
    bytes : (get_stats s).total_bytes ≡ m.unique_bytes

  abbrev contents : List Sent → List Bytes
  contents = map (λ x. x.content)
