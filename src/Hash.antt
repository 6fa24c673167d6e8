-- ===== src/Hash.antt =====
-- Hash (include/common/hash.h, src/common/hash.cpp): SHA-256 in hexadecimal, of a buffer and of a
-- file. OpenSSL is the parameter `Ssl`: its one-shot function and its incremental context. A file
-- that cannot be opened is `none`.
pub mod Rolling
pub mod Hex
pub mod Stream
use dropbox_lite.Prelude.{
  ℕ, zero, suc, ◌+◌, ◌*◌, ◌/◌, ◌%◌, ◌<◌, ◌≡◌, List, [], ◌∷◌, ◌++◌, Option, none, some, Bytes, Str,
  All, length, take, drop, ltb, ◌==◌, if◌then◌else◌,
}

-- What the code calls of OpenSSL, and what its documentation promises of it.
pub record Ssl : Type 1 where
  pub Ctx : Type 0
  pub init : Ctx
  pub update : Ctx → Bytes → Ctx
  pub final : Ctx → Bytes
  -- The one-shot `SHA256`.
  pub digest : Bytes → Bytes
  -- Data may be hashed in pieces.
  pub update-nil : (c : Ctx) → update c [] ≡ c
  pub update-append : (c : Ctx) (a b : Bytes) → update (update c a) b ≡ update c (a ++ b)
  pub final-update : (d : Bytes) → final (update init d) ≡ digest d
  -- SHA256_DIGEST_LENGTH bytes.
  pub length-digest : (d : Bytes) → length (digest d) ≡ 32
  pub digest_bytes : (d : Bytes) → All (λ b. b < 256) (digest d)

-- `std::hex` for one digit.
unfoldable pub hex_digit : ℕ → ℕ
hex_digit n = if ltb n 10 then n + 48 else n + 87

-- `std::setw(2) << std::setfill('0') << (int)hash[i]`, for each byte.
unfoldable pub to_hex : Bytes → Str
unfolding hex_digit
to_hex [] = []
to_hex (b ∷ bs) = hex_digit (b / 16) ∷ hex_digit (b % 16) ∷ to_hex bs

abbrev pub buffer_size : ℕ
buffer_size = 8192

module _ (ssl : Ssl) where
  open ssl use {Ctx}

  unfoldable pub sha256 : Bytes → Str
  unfolding to_hex
  sha256 d = to_hex (ssl.digest d)

  -- The reading loop: a block of up to `size` bytes is read until none is left.
  unfoldable pub read_loop : ℕ → ℕ → Ctx → Bytes → Option Ctx
  read_loop zero size c rest = none
  read_loop (suc fuel) size c rest =
      let block = take size rest in
      let more = read_loop fuel size (ssl.update c block) (drop size rest) in
      if length block == 0 then some c else more

  -- One round for each byte is enough fuel, and one for the end.
  unfoldable pub sha256_file : Option Bytes → Option Str
  unfolding to_hex
  sha256_file none = some []
  sha256_file (some content) =
      elim (read_loop (suc (length content)) buffer_size ssl.init content) [
        | none ↦ none
        | some c ↦ some (to_hex (ssl.final c))
      ]
