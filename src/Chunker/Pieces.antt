-- ===== src/Chunker/Pieces.antt =====
-- An independent description of chunking: the data is split into pieces, each cut by what has been
-- read since the last cut, and the pieces are then numbered. `chunk_data` computes it.
use dropbox_lite.Prelude.{
  ℕ, ◌+◌, ◌-◌, ◌≡◌, refl, sym, ap, ◌∙◌, List, [], ◌∷◌, ◌++◌, Bool, true, false, ◌≢◌, ◌||◌, Bytes,
  length, leb, if◌then◌else◌, arith, append_assoc, append-nil, length-append, inl, inr, Bool-cases,
  take-append, drop-append,
}
use dropbox_lite.Hash.{Ssl, sha256}
use dropbox_lite.Hash.Rolling
use dropbox_lite.Hash.Rolling.{RollingHash}
use dropbox_lite.Chunker.{
  ChunkInfo, State, is_boundary, k_max_chunk_size, slice, create_chunk, step, scan, start,
  chunk_data,
}

-- Whether a chunk of `n` bytes with this rolling hash ends here.
unfoldable pub cut : RollingHash → ℕ → Bool
cut r n = is_boundary r.hash n || leb k_max_chunk_size n

abbrev pub fresh : RollingHash
fresh = Rolling.new 48

-- The pieces of `rest`, where `current` has been read since the last cut.
unfoldable pub split : RollingHash → Bytes → Bytes → List Bytes
split r current [] = []
split r current (b ∷ []) = (current ++ b ∷ []) ∷ []
split r current (b ∷ c ∷ rest) =
    let r' = Rolling.append r b in
    let current' = current ++ b ∷ [] in
    let fresh_rest = split fresh [] (c ∷ rest) in
    let more = split r' current' (c ∷ rest) in
    if cut r' (length current') then current' ∷ fresh_rest else more

unfoldable pub pieces : Bytes → List Bytes
unfolding split
pieces bytes = split fresh [] bytes

pub split-cut :
    (r : RollingHash) (current : Bytes) (b c : ℕ) (rest : Bytes)
    → cut (Rolling.append r b) (length (current ++ b ∷ [])) ≡ true
    → split r current (b ∷ c ∷ rest) ≡ (current ++ b ∷ []) ∷ split fresh [] (c ∷ rest)
unfolding split
split-cut r current b c rest h = rw h

pub split-keep :
    (r : RollingHash) (current : Bytes) (b c : ℕ) (rest : Bytes)
    → cut (Rolling.append r b) (length (current ++ b ∷ [])) ≡ false
    → split r current (b ∷ c ∷ rest) ≡ split (Rolling.append r b) (current ++ b ∷ []) (c ∷ rest)
unfolding split
split-keep r current b c rest h = rw h

module _ (ssl : Ssl) where
  -- The pieces as chunks, from an offset on.
  unfoldable pub locate : ℕ → List Bytes → List ChunkInfo
  locate offset [] = []
  locate offset (p ∷ ps) =
      record { offset = offset; size = length p; hash = sha256 ssl p }
      ∷ locate (offset + length p) ps

  -- The piece that a cut makes is the slice of the data from the last cut.
  slice-current :
      (pre current rest : Bytes) (b : ℕ)
      → slice (pre ++ ((current ++ b ∷ []) ++ rest)) (length pre) (length pre + length current + 1)
        ≡ current ++ b ∷ []
  slice-current pre current rest b =
      let e : length pre + length current + 1 - length pre ≡ length (current ++ b ∷ []) =
        omega (arith, length-append {0} current (b ∷ [])) in
      rw (e, drop-append pre ((current ++ b ∷ []) ++ rest)) (take-append (current ++ b ∷ []) rest)

  abbrev read : State → ℕ → State
  read s b = record s { rolling_hash = Rolling.append s.rolling_hash b }

  step-last :
      (bytes : Bytes) (i b : ℕ) (s : State)
      → i ≡ length bytes - 1
      → step ssl bytes i b s ≡ create_chunk ssl bytes i (read s b)
  unfolding step
  step-last bytes i b s e = ground arith

  step-cut :
      (bytes : Bytes) (i b : ℕ) (s : State)
      → cut (Rolling.append s.rolling_hash b) (i + 1 - s.chunk_start) ≡ true
      → step ssl bytes i b s ≡ create_chunk ssl bytes i (read s b)
  unfolding step cut
  step-cut bytes i b s e = ground arith

  step-keep :
      (bytes : Bytes) (i b : ℕ) (s : State)
      → cut (Rolling.append s.rolling_hash b) (i + 1 - s.chunk_start) ≡ false
      → i ≢ length bytes - 1
      → step ssl bytes i b s ≡ read s b
  unfolding step cut
  step-keep bytes i b s e h = ground arith

  -- What a cut adds to the chunks.
  chunks-create_chunk :
      (bytes pre current rest : Bytes) (i b : ℕ) (s : State)
      → bytes ≡ pre ++ ((current ++ b ∷ []) ++ rest)
      → s.chunk_start ≡ length pre
      → i ≡ length pre + length current
      → (create_chunk ssl bytes i s).chunks
        ≡ s.chunks ++ locate (length pre) ((current ++ b ∷ []) ∷ [])
  unfolding create_chunk locate
  chunks-create_chunk bytes pre current rest i b s e es ei =
      rw (e, es, ei, slice-current pre current rest b)

  reset-new : (w : ℕ) → Rolling.reset (Rolling.new w) ≡ Rolling.new w
  unfolding Rolling.reset Rolling.new
  reset-new w = refl

  reset-append : (r : RollingHash) (b : ℕ) → Rolling.reset (Rolling.append r b) ≡ Rolling.reset r
  unfolding Rolling.reset Rolling.append
  reset-append r b = refl

  chunk_start-create_chunk :
      (bytes : Bytes) (i : ℕ) (s : State) → (create_chunk ssl bytes i s).chunk_start ≡ i + 1
  unfolding create_chunk
  chunk_start-create_chunk bytes i s = refl

  rolling_hash-create_chunk :
      (bytes : Bytes) (i : ℕ) (s : State)
      → (create_chunk ssl bytes i s).rolling_hash ≡ Rolling.reset s.rolling_hash
  unfolding create_chunk
  rolling_hash-create_chunk bytes i s = refl

  locate-cut :
      (xs : List ChunkInfo) (pre p : Bytes) (ps : List Bytes)
      → (xs ++ locate (length pre) (p ∷ [])) ++ locate (length (pre ++ p)) ps
        ≡ xs ++ locate (length pre) (p ∷ ps)
  unfolding locate
  locate-cut xs pre p ps =
      rw (length-append pre p)
        (append_assoc xs (locate (length pre) (p ∷ [])) (locate (length pre + length p) ps))

  -- The loop adds the pieces of what is left, from the middle of any chunk on.
  scan-split :
      (bytes pre current rest : Bytes) (i : ℕ) (s : State)
      → bytes ≡ pre ++ (current ++ rest)
      → s.chunk_start ≡ length pre
      → i ≡ length pre + length current
      → Rolling.reset s.rolling_hash ≡ fresh
      → (scan ssl bytes i rest s).chunks
        ≡ s.chunks ++ locate (length pre) (split s.rolling_hash current rest)
  unfolding scan split locate
  scan-split bytes pre current [] i s e es ei er = rw append-nil
  scan-split bytes pre current (b ∷ []) i s e es ei er =
      rw
        (step-last bytes i b s (
          omega (
            arith,
            ap length e,
            length-append {0} pre (current ++ b ∷ []),
            length-append {0} current (b ∷ []),
          )))
        (chunks-create_chunk bytes pre current [] i b (read s b)
          (e ∙ ap (λ (t : Bytes). pre ++ t) (sym (append-nil (current ++ b ∷ [])))) es ei)
  scan-split bytes pre current (b ∷ c ∷ rest) i s e es ei er =
      elim (Bool-cases (cut r' (i + 1 - s.chunk_start))) [
        | inl hit ↦
            let hit' : cut r' (length current') ≡ true = rw n at hit in
            ap after (step-cut bytes i b s hit)
            ∙ (scan-split bytes (pre ++ current') [] (c ∷ rest) (i + 1) cut_state
                  (regrouped ∙ sym (append_assoc pre current' (c ∷ rest)))
                  (chunk_start-create_chunk bytes i (read s b) ∙ next) next'
                  (ap Rolling.reset rolled ∙ reset_fresh)
                ∙ (ap
                      (λ (t : RollingHash).
                        cut_state.chunks
                        ++ locate (length (pre ++ current')) (split t [] (c ∷ rest)))
                      rolled
                    ∙ (ap
                          (λ (t : List ChunkInfo).
                            t ++ locate (length (pre ++ current')) (split fresh [] (c ∷ rest)))
                          (chunks-create_chunk bytes pre current (c ∷ rest) i b (read s b) regrouped
                            es ei)
                        ∙ (locate-cut s.chunks pre current' (split fresh [] (c ∷ rest))
                            ∙ ap found (sym (split-cut s.rolling_hash current b c rest hit'))))))
        | inr miss ↦
            let miss' : cut r' (length current') ≡ false = rw n at miss in
            ap after (step-keep bytes i b s miss not_last)
            ∙ (scan-split bytes pre current' (c ∷ rest) (i + 1) (read s b) regrouped es
                  (omega (arith, length-append {0} current (b ∷ [])))
                  (reset-append s.rolling_hash b ∙ er)
                ∙ ap found (sym (split-keep s.rolling_hash current b c rest miss')))
      ]
    where
      r' : RollingHash
      r' = Rolling.append s.rolling_hash b

      current' : Bytes
      current' = current ++ b ∷ []

      not_last : i ≢ length bytes - 1
      not_last = omega (
        arith,
        ap length e,
        length-append {0} pre (current ++ b ∷ c ∷ rest),
        length-append {0} current (b ∷ c ∷ rest),
      )

      found : List Bytes → List ChunkInfo
      found t = s.chunks ++ locate (length pre) t

      after : State → List ChunkInfo
      after t = (scan ssl bytes (i + 1) (c ∷ rest) t).chunks

      cut_state : State
      cut_state = create_chunk ssl bytes i (read s b)

      rolled : cut_state.rolling_hash ≡ fresh
      rolled = rolling_hash-create_chunk bytes i (read s b) ∙ (reset-append s.rolling_hash b ∙ er)

      next : i + 1 ≡ length (pre ++ current')
      next = omega (arith, length-append {0} current (b ∷ []), length-append {0} pre current')

      next' : i + 1 ≡ length (pre ++ current') + 0
      next' = omega (arith, next)

      reset_fresh : Rolling.reset fresh ≡ fresh
      reset_fresh = reset-new 48

      n : i + 1 - s.chunk_start ≡ length (current ++ b ∷ [])
      n = omega (arith, length-append {0} current (b ∷ []))

      regrouped : bytes ≡ pre ++ ((current ++ b ∷ []) ++ (c ∷ rest))
      regrouped = e ∙ ap (λ (t : Bytes). pre ++ t) (sym (append_assoc current (b ∷ []) (c ∷ rest)))

  -- The chunks of a buffer are its pieces, one after another.
  pub chunk_data-eq-pieces : (bytes : Bytes) → (chunk_data ssl bytes).0 ≡ locate 0 (pieces bytes)
  unfolding chunk_data pieces split locate
  chunk_data-eq-pieces [] = refl
  chunk_data-eq-pieces (b ∷ bs) =
      unfold start in
      scan-split (b ∷ bs) [] [] (b ∷ bs) 0 start refl refl (omega arith) (reset-new 48)
