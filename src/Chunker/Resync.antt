-- ===== src/Chunker/Resync.antt =====
-- Content-defined chunking: where two buffers agree from a cut of each to their ends, so do their
-- chunks, wherever the two cuts lie.
use mathlib.Core.List.{flatten}
use dropbox_lite.Prelude.{
  ℕ, zero, suc, ◌+◌, ◌≡◌, refl, sym, ap, ◌∙◌, inl, inr, List, [], ◌∷◌, ◌++◌, Bytes, Str, length,
  drop, arith, map, drop-append, Bool-cases,
}
use dropbox_lite.Hash.{Ssl, sha256}
use dropbox_lite.Hash.Rolling
use dropbox_lite.Hash.Rolling.{RollingHash}
use dropbox_lite.Chunker.{ChunkInfo, chunk_data}
use dropbox_lite.Chunker.Pieces.{cut, fresh, split, pieces, locate, chunk_data-eq-pieces}
use dropbox_lite.Chunker.Partition.{total, flatten-pieces, flatten-split}

-- After the first piece, the rest is chunked as if it stood alone.
tail-split :
    (r : RollingHash) (current rest p : Bytes) (ps : List Bytes)
    → split r current rest ≡ p ∷ ps
    → ps ≡ pieces (flatten ps)
unfolding split pieces flatten
tail-split r current [] p ps e = cc
tail-split r current (b ∷ []) p ps e = let last : [] ≡ ps = cc in rw (← last)
tail-split r current (b ∷ c ∷ rest) p ps e =
    elim (Bool-cases (cut (Rolling.append r b) (length (current ++ b ∷ [])))) [
      | inl hit ↦
          let found : split fresh [] (c ∷ rest) ≡ ps = ground (arith) in
          rw (← found) (ap (split fresh []) (sym (flatten-split fresh [] c rest)))
      | inr miss ↦
          tail-split (Rolling.append r b) (current ++ b ∷ []) (c ∷ rest) p ps (rw miss at e)
    ]

-- A chunk without its place in the file.
abbrev pub body : ChunkInfo → ℕ × Str
body c = (c.size, c.hash)

abbrev pub bodies : List ChunkInfo → List (ℕ × Str)
bodies = map body

drop-add {ℓ} : {A : Type ℓ} (m n : ℕ) (xs : List A) → drop (m + n) xs ≡ drop n (drop m xs)
drop-add zero n xs = let e : zero + n ≡ n = omega arith in rw e
drop-add (suc m) zero [] = let e : suc m + 0 ≡ suc m = omega arith in rw e
drop-add (suc m) (suc n) [] = let e : suc m + suc n ≡ suc (m + suc n) = omega arith in rw e
drop-add (suc m) n (x ∷ xs) =
    let e : suc m + n ≡ suc (m + n) = omega arith in rw e (drop-add m n xs)

module _ (ssl : Ssl) where
  bodies-locate : (a b : ℕ) (ps : List Bytes) → bodies (locate ssl a ps) ≡ bodies (locate ssl b ps)
  unfolding locate
  bodies-locate a b [] = refl
  bodies-locate a b (p ∷ ps) =
      ap (◌∷◌ (length p, sha256 ssl p)) (bodies-locate (a + length p) (b + length p) ps)

  -- What stands behind some first chunks depends only on the bytes behind them.
  bodies-suffix :
      (offset : ℕ) (bytes : Bytes) (ps : List Bytes) (cs ds : List ChunkInfo)
      → pieces bytes ≡ ps
      → locate ssl offset ps ≡ cs ++ ds
      → bodies ds ≡ bodies (locate ssl 0 (pieces (drop (total cs) bytes)))
  unfolding locate total flatten pieces
  bodies-suffix offset bytes ps [] ds e h = rw (← h, e) (bodies-locate offset 0 ps)
  bodies-suffix offset bytes [] (c ∷ cs) ds e h = cc
  bodies-suffix offset bytes (p ∷ ps) (c ∷ cs) ds e h =
      let size : c.size ≡ length p = cc in
      let rest : drop (length p) bytes ≡ flatten ps =
        rw (sym (flatten-pieces bytes) ∙ ap flatten e) (drop-append p (flatten ps)) in
      rw (size, drop-add (length p) (total cs) bytes, rest)
        (bodies-suffix (offset + length p) (flatten ps) ps cs ds
          (sym (tail-split fresh [] bytes p ps e)) (cc))

  -- If two buffers agree from a cut of the one and a cut of the other to their ends, the chunks from
  -- there on have the same sizes and hashes, in the same order.
  pub chunk_data_resync :
      (x y : Bytes) (cs ds cs' ds' : List ChunkInfo)
      → (chunk_data ssl x).0 ≡ cs ++ ds
      → (chunk_data ssl y).0 ≡ cs' ++ ds'
      → drop (total cs) x ≡ drop (total cs') y
      → bodies ds ≡ bodies ds'
  chunk_data_resync x y cs ds cs' ds' hx hy same =
      bodies-suffix 0 x (pieces x) cs ds refl (sym (chunk_data-eq-pieces ssl x) ∙ hx)
      ∙ (ap (λ (t : Bytes). bodies (locate ssl 0 (pieces t))) same
          ∙ sym (bodies-suffix 0 y (pieces y) cs' ds' refl (sym (chunk_data-eq-pieces ssl y) ∙ hy)))
