-- ===== src/Hash/Hex.antt =====
-- The hexadecimal form of a digest.
use dropbox_lite.Prelude.{
  ℕ, ◌*◌, ◌/◌, ◌%◌, ◌≤◌, ◌<◌, ◌≡◌, refl, ◌⊎◌, [], ◌∷◌, Bytes, All, length, arith,
}
use dropbox_lite.Hash.{Ssl, hex_digit, to_hex, sha256}

length-to_hex : (d : Bytes) → length (to_hex d) ≡ 2 * length d
unfolding to_hex
length-to_hex [] = omega arith
length-to_hex (b ∷ bs) = omega (arith, length-to_hex bs)

-- '0'..'9' and 'a'..'f'
abbrev pub IsHexDigit : ℕ → Type 0
IsHexDigit c = ((48 ≤ c) × (c ≤ 57)) ⊎ ((97 ≤ c) × (c ≤ 102))

hex_digit-IsHexDigit : (n : ℕ) → n < 16 → IsHexDigit (hex_digit n)
unfolding hex_digit
hex_digit-IsHexDigit n h = ground arith

hex_digit-injective : (a b : ℕ) → a < 16 → b < 16 → hex_digit a ≡ hex_digit b → a ≡ b
unfolding hex_digit
hex_digit-injective a b ha hb e = ground arith

to_hex-IsHexDigit : (d : Bytes) → All (λ b. b < 256) d → All IsHexDigit (to_hex d)
unfolding to_hex
to_hex-IsHexDigit [] h = tt
to_hex-IsHexDigit (b ∷ bs) h = (
  hex_digit-IsHexDigit (b / 16) (omega arith),
  (hex_digit-IsHexDigit (b % 16) (omega arith), to_hex-IsHexDigit bs h.1),
)

-- Different digests have different hexadecimal forms.
pub to_hex-injective :
    (d e : Bytes) → All (λ b. b < 256) d → All (λ b. b < 256) e → to_hex d ≡ to_hex e → d ≡ e
unfolding to_hex
to_hex-injective [] [] hd he p = refl
to_hex-injective [] (b ∷ bs) hd he p = cc
to_hex-injective (a ∷ as') [] hd he p = cc
to_hex-injective (a ∷ as') (b ∷ bs) hd he p =
    let high = hex_digit-injective (a / 16) (b / 16) (omega arith) (omega arith) (cc) in
    let low = hex_digit-injective (a % 16) (b % 16) (omega arith) (omega arith) (cc) in
    let same : a ≡ b = omega arith in cc (to_hex-injective as' bs hd.1 he.1 (cc))

module _ (ssl : Ssl) where
  -- A hash is 64 hexadecimal digits.
  pub sha256_form : (d : Bytes) → (length (sha256 ssl d) ≡ 64) × All IsHexDigit (sha256 ssl d)
  unfolding sha256
  sha256_form d = (
    omega (arith, length-to_hex (ssl.digest d), ssl.length-digest d),
    to_hex-IsHexDigit (ssl.digest d) (ssl.digest_bytes d),
  )
