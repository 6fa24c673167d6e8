-- ===== src/Tests/Hashes.antt =====
-- Hashes.
use dropbox_lite.Prelude.{◌≡◌, refl, [], ◌∷◌, arith, none, some}
use dropbox_lite.Hash.{to_hex, sha256, sha256_file}
use dropbox_lite.Hash.Stream.{sha256_file-eq-sha256}
use dropbox_lite.Hash.Rolling.{new, append_all, update}
use dropbox_lite.Hash.Rolling.Slide.{update_slides}
use dropbox_lite.Tests.{toy}

to_hex_a5 : to_hex (165 ∷ 15 ∷ []) ≡ b'a' ∷ b'5' ∷ b'0' ∷ b'f' ∷ []
unfolding to_hex
to_hex_a5 = refl

sha256_file_example :
    (sha256_file toy (some (1 ∷ 2 ∷ 3 ∷ [])) ≡ some (sha256 toy (1 ∷ 2 ∷ 3 ∷ [])))
    × (sha256_file toy none ≡ some [])
sha256_file_example = sha256_file-eq-sha256 toy (1 ∷ 2 ∷ 3 ∷ [])

update_example :
    update (append_all (new 3) (7 ∷ 8 ∷ 9 ∷ [])) 10 7 ≡ append_all (new 3) (8 ∷ 9 ∷ 10 ∷ [])
update_example =
    update_slides 10 7 (8 ∷ 9 ∷ []) (omega arith) (omega arith, (omega arith, (omega arith, tt)))
      (omega arith)
