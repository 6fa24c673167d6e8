-- ===== src/Compression/RoundTrip.antt =====
-- What is compressed is decompressed to itself.
use dropbox_lite.Prelude.{
  ℕ, zero, suc, ◌*◌, ◌^◌, ◌≤◌, ◌<◌, ◌≡◌, ◌≢◌, refl, ap, ◌∙◌, [], ◌∷◌, Bytes, length, arith, dec_lt,
}
use dropbox_lite.Compression.{
  Zlib, z_ok, bytes, compress, decompress, decompress_loop, after_uncompress, after_compress,
}

-- The room after so many rounds.
abbrev pub doubled : ℕ → ℕ → ℕ
doubled zero room = room
doubled (suc n) room = doubled n (room * 2)

room-enough : (size n : ℕ) → size < 2 ^ 63 → 0 < n → size ≤ doubled 62 (n * 4)
room-enough size n h k = omega arith

length_pos : (c : Bytes) → c ≢ [] → 0 < length c
length_pos [] ne = absurd (ne refl)
length_pos (b ∷ bs) ne = omega arith

module _ (z : Zlib) where
  loop-enough :
      (d c : Bytes) (bound rounds room : ℕ)
      → z.compress d bound ≡ z_ok c
      → length d ≤ room
      → decompress_loop z (suc rounds) c room ≡ bytes d
  unfolding decompress_loop
  loop-enough d c bound rounds room e enough =
      ap (after_uncompress (decompress_loop z rounds c))
        (z.uncompress_compress d c bound room e enough)

  loop-short :
      (d c : Bytes) (bound rounds room : ℕ)
      → z.compress d bound ≡ z_ok c
      → room < length d
      → length d < 2 ^ 63
      → decompress_loop z (suc rounds) c room ≡ decompress_loop z rounds c (room * 2)
  unfolding decompress_loop
  loop-short d c bound rounds room e short small =
      let (part, r, filled) = z.uncompress_short d c bound room e short in
      ap (after_uncompress (decompress_loop z rounds c)) r
      ∙ ap (decompress_loop z rounds c) (omega (arith, filled))

  -- Each round that does not end doubles the room.
  loop_total :
      (d c : Bytes) (bound rounds room : ℕ)
      → z.compress d bound ≡ z_ok c
      → length d < 2 ^ 63
      → length d ≤ doubled rounds room
      → decompress_loop z (suc rounds) c room ≡ bytes d
  loop_total d c bound zero room e small enough = loop-enough d c bound zero room e enough
  loop_total d c bound (suc rounds) room e small enough = elim (dec_lt room (length d)) [
    | no fits ↦ loop-enough d c bound (suc rounds) room e (omega arith)
    | yes short ↦
        loop-short d c bound (suc rounds) room e short small
        ∙ loop_total d c bound rounds (room * 2) e small enough
  ]

  decompress-loop :
      (c : Bytes) (rounds : ℕ)
      → c ≢ []
      → length c < 2 ^ 62
      → decompress z rounds c ≡ decompress_loop z rounds c (length c * 4)
  unfolding decompress
  decompress-loop [] rounds ne small = absurd (ne refl)
  decompress-loop (b ∷ bs) rounds ne small = ap (decompress_loop z rounds (b ∷ bs)) (omega arith)

  -- Compressing a buffer returns bytes, and decompressing these returns the buffer, within 63 rounds of
  -- the loop, wherever it starts. The buffer is below 2^63 bytes and zlib's bound for it below 2^62.
  pub decompress-compress :
      (d : Bytes)
      → length d < 2 ^ 63
      → z.compress_bound (length d) < 2 ^ 62
      → (c : Bytes) × (compress z d ≡ bytes c) × (decompress z 63 c ≡ bytes d)
  unfolding compress
  decompress-compress [] small bounded = ([], refl, unfold decompress in refl)
  decompress-compress (b ∷ bs) small bounded =
      let d = b ∷ bs in
      let bound = z.compress_bound (length d) in
      let (c, e, ne, fits) = z.compress_fits d bound (omega arith) in
      (
        c,
        ap after_compress e,
        decompress-loop c 63 ne (omega arith)
            ∙ loop_total d c bound 62 (length c * 4) e small
                (room-enough (length d) (length c) small (length_pos c ne)),
      )
