-- ===== src/Delta/Apply.antt =====
-- What `applyDelta` writes.
use dropbox_lite.Prelude.{
  ℕ, zero, suc, ◌+◌, ◌^◌, ◌≤◌, ◌<◌, ◌≡◌, refl, sym, ap, ◌∙◌, List, [], ◌∷◌, ◌++◌, true, false,
  Bytes, length, take, drop, arith, inl, inr, ◌⊎◌, dec_lt, take-length,
}
use dropbox_lite.Prelude.Words.{add64}
use dropbox_lite.Hash.{Ssl}
use dropbox_lite.Chunker.{ChunkInfo, chunk_data}
use dropbox_lite.Chunker.Partition.{total, total-IsPartition, chunk_data-IsPartition}
use dropbox_lite.Delta.{
  Applied, written, refused, Ofstream, opened_stream, file_write, apply_loop, apply_delta,
}

-- The next `n` bytes after those already taken.
take-add {ℓ} :
    {A : Type ℓ} (m n : ℕ) (xs : List A) → take (m + n) xs ≡ take m xs ++ take n (drop m xs)
take-add zero n xs = let e : zero + n ≡ n = omega arith in rw e
take-add (suc m) zero [] = let e : suc m + 0 ≡ suc m = omega arith in rw e
take-add (suc m) (suc n) [] = let e : suc m + suc n ≡ suc (m + suc n) = omega arith in rw e
take-add (suc m) n (x ∷ xs) =
    let e : suc m + n ≡ suc (m + n) = omega arith in rw e (ap (◌∷◌ x) (take-add m n xs))

file_write-good :
    (file from : Bytes) (n : ℕ)
    → n < 2 ^ 63
    → file_write (opened_stream file) n from ≡ opened_stream (file ++ take n from)
unfolding file_write
file_write-good file from n small = ground arith

apply_loop-fits :
    (offset : ℕ) (file : Bytes) (c : ChunkInfo) (cs : List ChunkInfo) (bytes : Bytes)
    → length bytes < 2 ^ 63
    → offset + c.size ≤ length bytes
    → apply_loop offset (opened_stream file) (c ∷ cs) bytes
      ≡ apply_loop
          (offset + c.size)
          (opened_stream (file ++ take c.size (drop offset bytes)))
          cs
          bytes
unfolding apply_loop
apply_loop-fits offset file c cs bytes small fits =
    let e : add64 offset c.size ≡ offset + c.size = omega arith in
    let w = file_write-good file (drop offset bytes) c.size (omega arith) in
    rw (e, w) (ground arith)

apply_loop-short :
    (offset : ℕ) (out : Ofstream) (c : ChunkInfo) (cs : List ChunkInfo) (bytes : Bytes)
    → offset + c.size < 2 ^ 64
    → length bytes < offset + c.size
    → apply_loop offset out (c ∷ cs) bytes ≡ refused out.content
unfolding apply_loop
apply_loop-short offset out c cs bytes small short =
    let e : add64 offset c.size ≡ offset + c.size = omega arith in rw e (ground arith)

-- What comes of chunks that want `t` bytes in all: the first `t` bytes are written, or the buffer is
-- shorter, and a part of it is left in the file.
abbrev pub Outcome : ℕ → Bytes → Applied → Type 0
Outcome t bytes r =
    ((t ≤ length bytes) × (r ≡ written (take t bytes)))
    ⊎ ((length bytes < t) × ((n : ℕ) × (n ≤ length bytes) × (r ≡ refused (take n bytes))))

apply_loop-Outcome :
    (offset t : ℕ) (file : Bytes) (cs : List ChunkInfo) (bytes : Bytes)
    → length bytes < 2 ^ 63
    → offset ≤ length bytes
    → t < 2 ^ 64
    → t ≡ offset + total cs
    → file ≡ take offset bytes
    → Outcome t bytes (apply_loop offset (opened_stream file) cs bytes)
unfolding total
apply_loop-Outcome offset t file [] bytes held h small e f =
    let e' : t ≡ offset = omega arith in
    inl (omega arith, unfold apply_loop in ap written (f ∙ ap (λ (n : ℕ). take n bytes) (sym e')))
apply_loop-Outcome offset t file (c ∷ cs) bytes held h small e f =
    elim (dec_lt (length bytes) (offset + c.size)) [
      | yes short ↦ inr (
        omega arith,
        (
          offset,
          h,
          apply_loop-short offset (opened_stream file) c cs bytes (omega arith) short
              ∙ ap refused f,
        ),
      )
      | no fits ↦ rw (apply_loop-fits offset file c cs bytes held (omega arith)) (
          apply_loop-Outcome (offset + c.size) t (file ++ take c.size (drop offset bytes)) cs bytes
            held (omega arith) small (omega arith)
            (ap (λ (x : Bytes). x ++ take c.size (drop offset bytes)) f
              ∙ sym (take-add offset c.size bytes)))
    ]

-- Sizes that together stay below 2^64, and a buffer below 2^63 bytes: the file gets exactly the first
-- bytes that the chunks ask for, or the buffer is too short, `false` comes back, and a prefix of the
-- buffer has been written.
pub apply_delta-Outcome :
    (cs : List ChunkInfo) (bytes : Bytes)
    → length bytes < 2 ^ 63
    → total cs < 2 ^ 64
    → Outcome (total cs) bytes (apply_delta true cs bytes)
unfolding apply_delta
apply_delta-Outcome cs bytes held small =
    apply_loop-Outcome 0 (total cs) [] cs bytes held (omega arith) small (omega arith) refl

module _ (ssl : Ssl) where
  -- Applying all the chunks of a buffer to the buffer itself writes the buffer back.
  pub apply_delta-chunk_data :
      (bytes : Bytes)
      → length bytes < 2 ^ 63
      → apply_delta true (chunk_data ssl bytes).0 bytes ≡ written bytes
  apply_delta-chunk_data bytes held =
      elim (apply_delta-Outcome cs bytes held (omega (arith, all))) [
        | inl (_, e) ↦ e ∙ ap written (ap (λ (n : ℕ). take n bytes) all ∙ take-length bytes)
        | inr (short, _) ↦ absurd (omega (arith, all))
      ]
    where
      cs : List ChunkInfo
      cs = (chunk_data ssl bytes).0

      all : total cs ≡ length bytes
      all = total-IsPartition ssl 0 cs bytes (chunk_data-IsPartition ssl bytes)

-- A stream that is not good stays as it is to the end of the loop.
apply_loop-bad :
    (offset : ℕ) (file : Bytes) (cs : List ChunkInfo) (bytes : Bytes)
    → length bytes < 2 ^ 63
    → offset + total cs ≤ length bytes
    → apply_loop offset (record { good = false; content = file }) cs bytes ≡ written file
unfolding apply_loop file_write total
apply_loop-bad offset file [] bytes held fits = refl
apply_loop-bad offset file (c ∷ cs) bytes held fits =
    let e : add64 offset c.size ≡ offset + c.size = omega arith in
    rw e (ground (arith, apply_loop-bad (offset + c.size) file cs bytes))

-- The chunks before the one that wraps are written, and nothing after them.
apply_loop-wraps :
    (offset : ℕ) (file : Bytes) (as' : List ChunkInfo) (b : ChunkInfo) (cs : List ChunkInfo)
    (bytes : Bytes)
    → length bytes < 2 ^ 63
    → offset + total as' ≤ length bytes
    → offset + total as' + b.size ≡ 2 ^ 64
    → total cs ≤ length bytes
    → file ≡ take offset bytes
    → apply_loop offset (opened_stream file) (as' ++ b ∷ cs) bytes
      ≡ written (take (offset + total as') bytes)
unfolding total
apply_loop-wraps offset file [] b cs bytes held fits wraps rest f =
    let e : add64 offset b.size ≡ 0 = omega arith in
    let e' : offset + 0 ≡ offset = omega arith in
    let bad : file_write (opened_stream file) b.size (drop offset bytes)
        ≡ record { good = false; content = file } =
      unfold file_write in ground arith in
    unfold apply_loop in
    rw (e, bad, e')
      (ground (arith, apply_loop-bad 0 file cs bytes held (omega arith) ∙ ap written f))
apply_loop-wraps offset file (a ∷ as') b cs bytes held fits wraps rest f =
    let e : offset + (a.size + total as') ≡ offset + a.size + total as' = omega arith in
    rw e (
      apply_loop-fits offset file a (as' ++ b ∷ cs) bytes held (omega arith)
      ∙ apply_loop-wraps (offset + a.size) (file ++ take a.size (drop offset bytes)) as' b cs bytes
          held (omega arith) (omega arith) rest
          (ap (λ (x : Bytes). x ++ take a.size (drop offset bytes)) f
            ∙ sym (take-add offset a.size bytes)))

-- The guard's sum wraps: a chunk whose size is 2^64 less those of the chunks before it, which fit into a
-- buffer below 2^63 bytes, passes it and breaks the stream. If the chunks after it are together no
-- longer than the buffer, the answer is `true`, and the file ends where that chunk begins.
pub apply_delta_cut_short :
    (as' : List ChunkInfo) (b : ChunkInfo) (cs : List ChunkInfo) (bytes : Bytes)
    → length bytes < 2 ^ 63
    → total as' ≤ length bytes
    → total as' + b.size ≡ 2 ^ 64
    → total cs ≤ length bytes
    → apply_delta true (as' ++ b ∷ cs) bytes ≡ written (take (total as') bytes)
unfolding apply_delta
apply_delta_cut_short as' b cs bytes held fits wraps rest =
    let e : 0 + total as' ≡ total as' = omega arith in
    rw (← e) (apply_loop-wraps 0 [] as' b cs bytes held (omega arith) (omega arith) rest refl)
