-- ===== src/Tests.antt =====
-- The theorems at concrete inputs. OpenSSL is a toy here: a context collects the bytes, and a digest
-- is the first 32 of them, filled up with zeros.
mod Hashes
mod Chunks
mod Deltas
mod Conflicts
mod Database
mod Server
mod Service
mod Pools
mod Limits
mod Measures
mod Threads
mod History
use dropbox_lite.Prelude.{
  ℕ, zero, suc, ◌+◌, ◌%◌, ◌<◌, ◌≡◌, refl, List, [], ◌∷◌, ◌++◌, Bytes, All, length, take, arith,
  append-nil, append_assoc,
}
use dropbox_lite.Hash.{Ssl}

-- The first `n` bytes, filled up.
unfoldable pub fill : ℕ → Bytes → Bytes
fill zero bs = []
fill (suc n) [] = 0 ∷ fill n []
fill (suc n) (b ∷ bs) = b % 256 ∷ fill n bs

pub length-fill : (n : ℕ) (bs : Bytes) → length (fill n bs) ≡ n
unfolding fill
length-fill zero bs = refl
length-fill (suc n) [] = omega (arith, length-fill n [])
length-fill (suc n) (b ∷ bs) = omega (arith, length-fill n bs)

pub fill_bytes : (n : ℕ) (bs : Bytes) → All (λ b. b < 256) (fill n bs)
unfolding fill
fill_bytes zero bs = tt
fill_bytes (suc n) [] = (omega arith, fill_bytes n [])
fill_bytes (suc n) (b ∷ bs) = (omega arith, fill_bytes n bs)

abbrev pub toy : Ssl
toy = record {
  Ctx = Bytes;
  init = [];
  update = λ c bs. c ++ bs;
  final = fill 32;
  digest = fill 32;
  update-nil = append-nil;
  update-append = λ c a b. append_assoc c a b;
  final-update = λ d. refl;
  length-digest = length-fill 32;
  digest_bytes = fill_bytes 32;
}
