-- ===== src/Chunker/Stats.antt =====
-- The statistics that a run leaves behind.
use dropbox_lite.Prelude.{
  ℕ, ◌+◌, ◌≤◌, ◌<◌, ◌≡◌, refl, sym, ap, subst, lt→ltb, ◌∙◌, ◌⊎◌, inl, List, [], ◌∷◌, ◌++◌, ◌||◌,
  Bytes, length, All, arith, if◌then◌else◌, ◌==◌, ltb, if_both,
}
use mathlib.Core.List.{map-append}
use dropbox_lite.Hash.{Ssl}
use dropbox_lite.Hash.Rolling
use dropbox_lite.Chunker.{
  ChunkInfo, ChunkStats, Fraction, State, create_chunk, step, scan, start, stats_of, chunk_data,
}
use dropbox_lite.Chunker.Partition.{
  total, sizes, InLimits, total-IsPartition, chunk_data-IsPartition, chunk_data-InLimits,
}

run_min : ℕ → List ℕ → ℕ
run_min m [] = m
run_min m (x ∷ xs) = run_min (if m == 0 || ltb x m then x else m) xs

run_max : ℕ → List ℕ → ℕ
run_max m [] = m
run_max m (x ∷ xs) = run_max (if ltb m x then x else m) xs

run_min-append :
    (m : ℕ) (xs : List ℕ) (x : ℕ)
    → run_min m (xs ++ x ∷ [])
      ≡ (if run_min m xs == 0 || ltb x (run_min m xs) then x else run_min m xs)
unfolding run_min
run_min-append m [] x = refl
run_min-append m (y ∷ xs) x = run_min-append (if m == 0 || ltb y m then y else m) xs x

run_max-append :
    (m : ℕ) (xs : List ℕ) (x : ℕ)
    → run_max m (xs ++ x ∷ []) ≡ (if ltb (run_max m xs) x then x else run_max m xs)
unfolding run_max
run_max-append m [] x = refl
run_max-append m (y ∷ xs) x = run_max-append (if ltb m y then y else m) xs x

total-nil : total [] ≡ 0
unfolding total
total-nil = refl

total-append : (cs : List ChunkInfo) (c : ChunkInfo) → total (cs ++ c ∷ []) ≡ total cs + c.size
unfolding total
total-append [] c = omega arith
total-append (d ∷ cs) c = omega (arith, total-append cs c)

-- `n` is one of the numbers.
abbrev pub Has : ℕ → List ℕ → Type 0
Has n [] = ⊥
Has n (x ∷ xs) = (n ≡ x) ⊎ Has n xs

abbrev Positive : List ℕ → Type 0
Positive = All (λ n. 0 < n)

run_min-Has :
    (m : ℕ) (xs : List ℕ)
    → 0 < m
    → Positive xs
    → (run_min m xs ≤ m)
      × (0 < run_min m xs)
      × All (λ n. run_min m xs ≤ n) xs
      × ((run_min m xs ≡ m) ⊎ Has (run_min m xs) xs)
unfolding run_min
run_min-Has m [] h ps = (omega arith, h, tt, inl refl)
run_min-Has m (x ∷ xs) h ps = ground (arith, run_min-Has (if m == 0 || ltb x m then x else m) xs)

run_max-Has :
    (m : ℕ) (xs : List ℕ)
    → (m ≤ run_max m xs)
      × All (λ n. n ≤ run_max m xs) xs
      × ((run_max m xs ≡ m) ⊎ Has (run_max m xs) xs)
unfolding run_max
run_max-Has m [] = (omega arith, tt, inl refl)
run_max-Has m (x ∷ xs) = ground (arith, run_max-Has (if ltb m x then x else m) xs)

InLimits-Positive : (ns : List ℕ) → InLimits ns → Positive ns
InLimits-Positive [] h = tt
InLimits-Positive (n ∷ []) h = (h.0, tt)
InLimits-Positive (n ∷ m ∷ ns) h = (omega arith, InLimits-Positive (m ∷ ns) h.2)

-- The counters of the loop are those of the chunks made so far.
record Counted (s : State) : Type 0 where
  smallest : s.min_size ≡ run_min 0 (sizes s.chunks)
  largest : s.max_size ≡ run_max 0 (sizes s.chunks)
  summed : s.total_size ≡ total s.chunks

module _ (ssl : Ssl) where
  create_chunk-Counted :
      (bytes : Bytes) (i : ℕ) (s : State) → Counted s → Counted (create_chunk ssl bytes i s)
  unfolding create_chunk
  create_chunk-Counted bytes i s v = record {
    smallest = rw (map-append, run_min-append, v.smallest);
    largest = rw (map-append, run_max-append, v.largest);
    summed = rw (total-append, v.summed);
  }

  step-Counted : (bytes : Bytes) (i b : ℕ) (s : State) → Counted s → Counted (step ssl bytes i b s)
  unfolding step
  step-Counted bytes i b s v =
      if_both Counted _
        (create_chunk-Counted bytes i (record s { rolling_hash = Rolling.append s.rolling_hash b })
          read)
        read
    where
      read : Counted (record s { rolling_hash = Rolling.append s.rolling_hash b })
      read = record { smallest = v.smallest; largest = v.largest; summed = v.summed }

  scan-Counted :
      (bytes : Bytes) (i : ℕ) (rest : Bytes) (s : State)
      → Counted s
      → Counted (scan ssl bytes i rest s)
  unfolding scan
  scan-Counted bytes i [] s v = v
  scan-Counted bytes i (b ∷ rest) s v =
      scan-Counted bytes (i + 1) rest (step ssl bytes i b s) (step-Counted bytes i b s v)

  start-Counted : Counted start
  unfolding start run_min run_max total
  start-Counted = record { smallest = refl; largest = refl; summed = refl }

-- What the statistics say of a list of chunks: their number, bounds of their sizes that are
-- themselves sizes, and the sum of the sizes over their number.
pub record Describes (st : ChunkStats) (cs : List ChunkInfo) : Type 0 where
  pub counted : st.total_chunks ≡ length cs
  pub at_least : All (λ n. st.min_size ≤ n) (sizes cs)
  pub at_most : All (λ n. n ≤ st.max_size) (sizes cs)
  pub least : Has st.min_size (sizes cs)
  pub most : Has st.max_size (sizes cs)
  pub average : st.avg_size ≡ record { num = total cs; den = length cs }

run_min-All :
    (x : ℕ) (xs : List ℕ)
    → Positive (x ∷ xs)
    → All (λ n. run_min 0 (x ∷ xs) ≤ n) (x ∷ xs) × Has (run_min 0 (x ∷ xs)) (x ∷ xs)
unfolding run_min
run_min-All x xs ps = ground (arith, run_min-Has x xs)

run_max-first : (x : ℕ) (xs : List ℕ) → 0 < x → run_max 0 (x ∷ xs) ≡ run_max x xs
unfolding run_max
run_max-first x xs h = rw (lt→ltb 0 x h)

run_max-All :
    (x : ℕ) (xs : List ℕ)
    → Positive (x ∷ xs)
    → All (λ n. n ≤ run_max 0 (x ∷ xs)) (x ∷ xs) × Has (run_max 0 (x ∷ xs)) (x ∷ xs)
run_max-All x xs ps =
    let h = run_max-Has x xs in
    subst (λ t. All (λ n. n ≤ t) (x ∷ xs) × Has t (x ∷ xs)) (sym (run_max-first x xs ps.0))
      ((h.0, h.1), h.2)

Counted-Describes :
    (s : State) (c : ChunkInfo) (cs : List ChunkInfo)
    → s.chunks ≡ c ∷ cs
    → Positive (sizes (c ∷ cs))
    → Counted s
    → Describes (stats_of s) (c ∷ cs)
unfolding stats_of
Counted-Describes s c cs e ps v =
    let small : s.min_size ≡ run_min 0 (sizes (c ∷ cs)) =
      v.smallest ∙ ap (λ (t : List ChunkInfo). run_min 0 (sizes t)) e in
    let large : s.max_size ≡ run_max 0 (sizes (c ∷ cs)) =
      v.largest ∙ ap (λ (t : List ChunkInfo). run_max 0 (sizes t)) e in
    let low = run_min-All c.size (sizes cs) ps in
    let high = run_max-All c.size (sizes cs) ps in
    record {
      counted = ap length e;
      at_least = subst (λ t. All (λ n. t ≤ n) (sizes (c ∷ cs))) (sym small) low.0;
      at_most = subst (λ t. All (λ n. n ≤ t) (sizes (c ∷ cs))) (sym large) high.0;
      least = subst (λ t. Has t (sizes (c ∷ cs))) (sym small) low.1;
      most = subst (λ t. Has t (sizes (c ∷ cs))) (sym large) high.1;
      average = rw (v.summed, e) (ground arith);
    }

module _ (ssl : Ssl) where
  -- The statistics of a run over a buffer that is not empty describe the chunks it returned: their
  -- number, their least and greatest size, and the length of the buffer over their number.
  pub chunk_data-Describes :
      (b : ℕ) (bs : Bytes)
      → Describes (chunk_data ssl (b ∷ bs)).1 (chunk_data ssl (b ∷ bs)).0
        × ((chunk_data ssl (b ∷ bs)).1.avg_size.num ≡ length (b ∷ bs))
  unfolding chunk_data
  chunk_data-Describes b bs = go (scan ssl (b ∷ bs) 0 (b ∷ bs) start).chunks refl
    where
      s : State
      s = scan ssl (b ∷ bs) 0 (b ∷ bs) start

      v : Counted s
      v = scan-Counted ssl (b ∷ bs) 0 (b ∷ bs) start (start-Counted ssl)

      all : total s.chunks ≡ length (b ∷ bs)
      all = total-IsPartition ssl 0 s.chunks (b ∷ bs) (chunk_data-IsPartition ssl (b ∷ bs))

      go :
          (cs : List ChunkInfo)
          → s.chunks ≡ cs
          → Describes (stats_of s) s.chunks × ((stats_of s).avg_size.num ≡ length (b ∷ bs))
      go [] e = absurd (omega (arith, sym all ∙ ap total e, total-nil))
      go (c ∷ cs) e =
          let ps = InLimits-Positive (sizes s.chunks) (chunk_data-InLimits ssl (b ∷ bs)) in
          let d = Counted-Describes s c cs e (subst (λ t. Positive (sizes t)) e ps) v in
          (
            subst (Describes (stats_of s)) (sym e) d,
            ap (λ (f : Fraction). f.num) d.average ∙ (ap total (sym e) ∙ all),
          )
