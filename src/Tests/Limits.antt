-- ===== src/Tests/Limits.antt =====
-- The rate limiter and the compression, with a zlib that puts a byte before what it is given.
use dropbox_lite.Prelude.{
  ℕ, ◌<◌, ◌+◌, ◌-◌, ◌*◌, ◌≤◌, ◌≡◌, ◌≢◌, refl, sym, ap, List, [], ◌∷◌, Bytes, take, length-take,
  arith, length, leb, if◌then◌else◌, Bool-cases, inl, inr,
}
use dropbox_lite.RateLimiter.{second, Limiter, acquire}
use dropbox_lite.RateLimiter.Bucket.{run, run_bounded}
use dropbox_lite.RateLimiter.Acquire.{Returns, acquire_three}
use dropbox_lite.Compression.{Zlib, Code, z_ok, z_buf_error, z_failed, bytes, compress, decompress}
use dropbox_lite.Compression.RoundTrip.{decompress-compress}

abbrev full : Limiter
full = record {
  bytes_per_second = 1000;
  burst_size = 1000;
  tokens = 1000 * second;
  last_refill = 0;
}

abbrev drained : Limiter
drained = record full { tokens = 0 }

abbrev asked : List (ℕ × ℕ)
asked = (0, 600) ∷ (0, 600) ∷ (second, 400) ∷ []

run_bounded_example :
    (run 0 asked (run 0 ((0, 100) ∷ []) full).2).0 * second
    ≤ full.burst_size * second
      + ((run 0 asked (run 0 ((0, 100) ∷ []) full).2).1 - 0) * full.bytes_per_second
unfolding run
run_bounded_example = run_bounded 0 ((0, 100) ∷ []) asked full refl (omega arith)

acquire_three_example : Returns (acquire 3 (λ i. 0) 500 0 drained)
acquire_three_example =
    acquire_three 0 (λ i. 0) 500 0 drained (omega arith) (omega arith) (omega arith)

abbrev pack : Bytes → ℕ → Code
pack d room = if leb (length d + 1) room then z_ok (1 ∷ d) else z_failed

abbrev unpack : Bytes → ℕ → Code
unpack [] size = z_failed
unpack (_ ∷ d) size = if leb (length d) size then z_ok d else z_buf_error (take size d)

-- What a call has written.
abbrev written : Code → Bytes
written (z_ok c) = c
written _ = []

pack-z_ok : (d c : Bytes) (room : ℕ) → pack d room ≡ z_ok c → c ≡ 1 ∷ d
pack-z_ok d c room e = elim (Bool-cases (leb (length d + 1) room)) [
  | inl fits ↦ let e' : z_ok (1 ∷ d) ≡ z_ok c = rw fits at e in sym (ap written e')
  | inr short ↦ let e' : z_failed ≡ z_ok c = rw short at e in cc
]

short_take : (size : ℕ) (d : Bytes) → size < length d → length (take size d) ≡ size
short_take size d h = omega (arith, length-take size d)

pack-fits : (d : Bytes) (room : ℕ) → length d + 1 ≤ room → pack d room ≡ z_ok (1 ∷ d)
pack-fits d room h = ground arith

unpack-fits :
    (d c : Bytes) (room size : ℕ) → pack d room ≡ z_ok c → length d ≤ size → unpack c size ≡ z_ok d
unpack-fits d c room size e h = rw (pack-z_ok d c room e) (ground arith)

unpack_short :
    (d c : Bytes) (room size : ℕ)
    → pack d room ≡ z_ok c
    → size < length d
    → unpack c size ≡ z_buf_error (take size d)
unpack_short d c room size e h = rw (pack-z_ok d c room e) (ground arith)

nonempty : (d : Bytes) → 1 ∷ d ≢ []
nonempty d e = cc

abbrev packer : Zlib
packer = record {
  compress_bound = λ n. n + 1;
  compress = pack;
  uncompress = unpack;
  compress_fits = λ d room h. (1 ∷ d, pack-fits d room h, nonempty d, omega arith);
  uncompress_compress = λ d c room size e h. unpack-fits d c room size e h;
  uncompress_short =
      λ d c room size e h. (take size d, unpack_short d c room size e h, short_take size d h);
}

decompress-compress_example :
    (c : Bytes) × (compress packer (7 ∷ 7 ∷ []) ≡ bytes c)
    × (decompress packer 63 c ≡ bytes (7 ∷ 7 ∷ []))
decompress-compress_example = decompress-compress packer (7 ∷ 7 ∷ []) (omega arith) (omega arith)
