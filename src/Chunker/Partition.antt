-- ===== src/Chunker/Partition.antt =====
-- The chunks cover the buffer without gap or overlap, and keep to the size limits.
use mathlib.Core.List.{flatten}
use dropbox_lite.Prelude.{
  ℕ, ◌+◌, ◌≤◌, ◌<◌, ◌≡◌, refl, ap, ◌∙◌, List, [], ◌∷◌, ◌++◌, true, false, Bytes, length, take, drop,
  arith, append_assoc, append-nil, length-append, length-drop, inl, inr, Bool-cases, take-append,
  drop-append, map,
}
use dropbox_lite.Hash.{Ssl, sha256}
use dropbox_lite.Hash.Rolling
use dropbox_lite.Hash.Rolling.{RollingHash}
use dropbox_lite.Chunker.{ChunkInfo, is_boundary, k_min_chunk_size, k_max_chunk_size, chunk_data}
use dropbox_lite.Chunker.Pieces.{cut, fresh, split, pieces, locate, chunk_data-eq-pieces}

pub flatten-split :
    (r : RollingHash) (current : Bytes) (b : ℕ) (rest : Bytes)
    → flatten (split r current (b ∷ rest)) ≡ current ++ b ∷ rest
unfolding split flatten
flatten-split r current b [] = append-nil (current ++ b ∷ [])
flatten-split r current b (c ∷ rest) =
    elim (Bool-cases (cut (Rolling.append r b) (length (current ++ b ∷ [])))) [
      | inl hit ↦ rw hit (
          ap (λ (t : Bytes). (current ++ b ∷ []) ++ t) (flatten-split fresh [] c rest)
          ∙ append_assoc current (b ∷ []) (c ∷ rest))
      | inr miss ↦ rw miss (
          flatten-split (Rolling.append r b) (current ++ b ∷ []) c rest
          ∙ append_assoc current (b ∷ []) (c ∷ rest))
    ]

-- The pieces of a buffer, joined, are the buffer.
pub flatten-pieces : (bytes : Bytes) → flatten (pieces bytes) ≡ bytes
unfolding pieces split flatten
flatten-pieces [] = refl
flatten-pieces (b ∷ bs) = flatten-split fresh [] b bs

-- A cut is never made before the minimum size.
cut-min : (r : RollingHash) (n : ℕ) → cut r n ≡ true → k_min_chunk_size ≤ n
unfolding cut is_boundary
cut-min r n h = ground arith

cut-max : (r : RollingHash) (n : ℕ) → cut r n ≡ false → n < k_max_chunk_size
unfolding cut
cut-max r n h = ground arith

-- The limits that a list of sizes keeps to: only the last may be below the minimum.
abbrev pub InLimits : List ℕ → Type 0
InLimits [] = Unit
InLimits (n ∷ []) = (0 < n) × (n ≤ k_max_chunk_size)
InLimits (n ∷ m ∷ ns) = (k_min_chunk_size ≤ n) × (n ≤ k_max_chunk_size) × InLimits (m ∷ ns)

InLimits-cons :
    (n : ℕ) (ns : List ℕ)
    → k_min_chunk_size ≤ n
    → n ≤ k_max_chunk_size
    → InLimits ns
    → InLimits (n ∷ ns)
InLimits-cons n [] h k v = (omega arith, k)
InLimits-cons n (m ∷ ns) h k v = (h, k, v)

abbrev pub lengths : List Bytes → List ℕ
lengths = map length

split-InLimits :
    (r : RollingHash) (current : Bytes) (rest : Bytes)
    → length current < k_max_chunk_size
    → InLimits (lengths (split r current rest))
unfolding split
split-InLimits r current [] h = tt
split-InLimits r current (b ∷ []) h = (
  omega (arith, length-append {0} current (b ∷ [])),
  omega (arith, length-append {0} current (b ∷ [])),
)
split-InLimits r current (b ∷ c ∷ rest) h =
    elim (Bool-cases (cut (Rolling.append r b) (length (current ++ b ∷ [])))) [
      | inl hit ↦ rw hit (
          InLimits-cons (length (current ++ b ∷ [])) (lengths (split fresh [] (c ∷ rest)))
            (cut-min (Rolling.append r b) (length (current ++ b ∷ [])) hit)
            (omega (arith, length-append {0} current (b ∷ [])))
            (split-InLimits fresh [] (c ∷ rest) (omega arith)))
      | inr miss ↦ rw miss (
          split-InLimits (Rolling.append r b) (current ++ b ∷ []) (c ∷ rest)
            (cut-max (Rolling.append r b) (length (current ++ b ∷ [])) miss))
    ]

pub pieces-InLimits : (bytes : Bytes) → InLimits (lengths (pieces bytes))
pieces-InLimits bytes = unfold pieces in split-InLimits fresh [] bytes (omega arith)

-- The chunks `cs`, from an offset on, describe the bytes exactly: each starts where the one before it
-- ends, its hash is that of the bytes it covers, and nothing is left over.
abbrev pub IsPartition : Ssl → ℕ → List ChunkInfo → Bytes → Type 0
IsPartition ssl offset [] bytes = bytes ≡ []
IsPartition ssl offset (c ∷ cs) bytes =
    (c.offset ≡ offset)
    × (c.size ≤ length bytes)
    × (c.hash ≡ sha256 ssl (take c.size bytes))
    × IsPartition ssl (offset + c.size) cs (drop c.size bytes)

abbrev pub sizes : List ChunkInfo → List ℕ
sizes = map (λ c. c.size)

unfoldable pub total : List ChunkInfo → ℕ
total [] = 0
total (c ∷ cs) = c.size + total cs

module _ (ssl : Ssl) where
  locate-IsPartition :
      (offset : ℕ) (ps : List Bytes) → IsPartition ssl offset (locate ssl offset ps) (flatten ps)
  unfolding locate flatten
  locate-IsPartition offset [] = refl
  locate-IsPartition offset (p ∷ ps) = (
    refl,
    omega (arith, length-append {0} p (flatten ps)),
    rw (take-append p (flatten ps)),
    rw (drop-append p (flatten ps)) (locate-IsPartition (offset + length p) ps),
  )

  sizes-locate : (offset : ℕ) (ps : List Bytes) → sizes (locate ssl offset ps) ≡ lengths ps
  unfolding locate
  sizes-locate offset [] = refl
  sizes-locate offset (p ∷ ps) = ap (◌∷◌ (length p)) (sizes-locate (offset + length p) ps)

  -- The chunks of a buffer lie one behind the other from offset 0, cover it to its last byte, and
  -- each has the SHA-256 of the bytes that it covers.
  pub chunk_data-IsPartition : (bytes : Bytes) → IsPartition ssl 0 (chunk_data ssl bytes).0 bytes
  chunk_data-IsPartition bytes =
      rw (chunk_data-eq-pieces ssl bytes)
        (rw (flatten-pieces bytes) at (locate-IsPartition 0 (pieces bytes)))

  -- No chunk is empty or above the maximum, and none but the last is below the minimum.
  pub chunk_data-InLimits : (bytes : Bytes) → InLimits (sizes (chunk_data ssl bytes).0)
  chunk_data-InLimits bytes =
      rw (chunk_data-eq-pieces ssl bytes, sizes-locate 0 (pieces bytes)) (pieces-InLimits bytes)

  pub total-IsPartition :
      (offset : ℕ) (cs : List ChunkInfo) (bytes : Bytes)
      → IsPartition ssl offset cs bytes
      → total cs ≡ length bytes
  unfolding total
  total-IsPartition offset [] bytes h = rw h
  total-IsPartition offset (c ∷ cs) bytes h = omega (
    arith,
    total-IsPartition (offset + c.size) cs (drop c.size bytes) h.3,
    length-drop c.size bytes,
  )
