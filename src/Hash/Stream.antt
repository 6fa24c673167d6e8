-- ===== src/Hash/Stream.antt =====
-- Hashing a file block by block.
use dropbox_lite.Prelude.{
  ℕ, zero, suc, ◌<◌, ◌≡◌, refl, [], ◌∷◌, none, some, Bytes, length, take, drop, take-append-drop,
  length-drop, arith,
}
use dropbox_lite.Hash.{Ssl, sha256, sha256_file, read_loop, buffer_size}

module _ (ssl : Ssl) where
  -- Whatever the block size, the loop hands the whole rest of the file over, in order.
  read_loop_total :
      (fuel size : ℕ) (c : ssl.Ctx) (rest : Bytes)
      → 0 < size
      → length rest < fuel
      → read_loop ssl fuel size c rest ≡ some (ssl.update c rest)
  unfolding read_loop
  read_loop_total zero size c rest h f = absurd (omega arith)
  read_loop_total (suc fuel) zero c rest h f = absurd (omega arith)
  read_loop_total (suc fuel) (suc size) c [] h f = rw (ssl.update-nil c)
  read_loop_total (suc fuel) (suc size) c (x ∷ xs) h f = ground (
    arith,
    read_loop_total fuel (suc size) (ssl.update c (x ∷ take size xs)) (drop size xs) h
        (omega (arith, length-drop size xs)),
    ssl.update-append c (x ∷ take size xs) (drop size xs),
    take-append-drop size xs,
  )

  -- Hashing a file that can be opened returns, and is the hash of its content; a file that cannot be
  -- opened has the empty hash.
  pub sha256_file-eq-sha256 :
      (content : Bytes)
      → (sha256_file ssl (some content) ≡ some (sha256 ssl content))
        × (sha256_file ssl none ≡ some [])
  unfolding sha256_file sha256
  sha256_file-eq-sha256 content = (
    ground (
      arith,
      read_loop_total (suc (length content)) buffer_size ssl.init content (omega arith)
          (omega arith),
      ssl.final-update content,
    ),
    refl,
  )
