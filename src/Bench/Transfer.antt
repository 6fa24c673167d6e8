-- ===== src/Bench/Transfer.antt =====
-- What the delta benchmark measures.
use dropbox_lite.Prelude.{
  ℕ, zero, suc, ◌+◌, ◌-◌, ◌/◌, ◌≤◌, ◌≡◌, refl, sym, ap, subst, ◌∙◌, List, [], ◌∷◌, ◌++◌, some, ◌||◌,
  Bytes, Str, take, length-take, drop, take-append-drop, ◌*◌, length, length-append, arith, ltb,
  Bool-cases, inl, inr,
}
use dropbox_lite.Prelude.Words.{add64}
use dropbox_lite.Hash.{Ssl}
use dropbox_lite.Chunker.{ChunkInfo, ChunkStats, k_max_chunk_size, chunk_data, chunk_file}
use dropbox_lite.Delta.{DeltaInfo, contains, convert_to_set, classify, classify_all, compute_delta}
use dropbox_lite.Delta.Compute.{contains-convert_to_set}
use dropbox_lite.Delta.Edit.{hashes_of, compute_delta_bounded}
use dropbox_lite.Bench.Dedup.{insert, contains-insert}
use dropbox_lite.Bench.Delta.{
  set_byte, modify_loop, modify_file, original_set, count_one, count_new, measure,
}

contains-nil : (h : Str) (hs : List Str) → (contains [] h || contains hs h) ≡ contains hs h
unfolding contains
contains-nil h hs = refl

contains-original_set :
    (set : List Str) (cs : List ChunkInfo) (h : Str)
    → contains (original_set set cs) h ≡ (contains set h || contains (hashes_of cs) h)
unfolding original_set contains
contains-original_set set [] h = ground arith
contains-original_set set (c ∷ cs) h =
    ground (arith, contains-original_set (insert c.hash set) cs h, contains-insert c.hash h set)

-- Two sets of the same hashes classify alike.
count_new-classify_all :
    (set server : List Str) (d : DeltaInfo) (cs : List ChunkInfo)
    → ((h : Str) → contains set h ≡ contains server h)
    → count_new set (length d.new_chunks, d.bytes_to_transfer) cs
      ≡ (length (classify_all server d cs).new_chunks, (classify_all server d cs).bytes_to_transfer)
unfolding count_new classify_all
count_new-classify_all set server d [] same = refl
count_new-classify_all set server d (c ∷ cs) same =
    let one : count_one set (length d.new_chunks, d.bytes_to_transfer) c
        ≡ (length (classify server d c).new_chunks, (classify server d c).bytes_to_transfer) =
      unfold count_one classify in
      elim (Bool-cases (contains server c.hash)) [
        | inl there ↦ rw (same c.hash, there) refl
        | inr new ↦
            rw (same c.hash, new)
              (ap (λ (n : ℕ). (n, add64 d.bytes_to_transfer c.size))
                (omega (arith, length-append {0} d.new_chunks (c ∷ []))))
      ] in
    ap (λ (m : ℕ × ℕ). count_new set m cs) one
    ∙ count_new-classify_all set server (classify server d c) cs same

module _ (ssl : Ssl) where
  -- The benchmark's counts are those of `computeDelta`, given the hashes of the original.
  measure-compute_delta :
      (st st' : ChunkStats) (u v : Bytes)
      → let m = measure ssl st (some u) (some v) in
        let d = (compute_delta ssl st' (some v) (hashes_of (chunk_data ssl u).0)).0 in
        (m.new_chunks ≡ length d.new_chunks) × (m.new_bytes ≡ d.bytes_to_transfer)
  unfolding measure compute_delta chunk_file
  measure-compute_delta st st' u v =
      let original = (chunk_data ssl u).0 in
      let none_sent : DeltaInfo = record {
        new_chunks = [];
        existing_chunks = [];
        bytes_to_transfer = 0;
      } in
      let e =
        count_new-classify_all (original_set [] original) (convert_to_set (hashes_of original))
          none_sent (chunk_data ssl v).0
          (λ h.
            contains-original_set [] original h
            ∙ (contains-nil h (hashes_of original)
                ∙ sym (contains-convert_to_set (hashes_of original) h))) in
      (ap (λ (m : ℕ × ℕ). m.0) e, ap (λ (m : ℕ × ℕ). m.1) e)

set_byte-append : (x y : Bytes) (i b : ℕ) → set_byte (length x + i) b (x ++ y) ≡ x ++ set_byte i b y
unfolding set_byte
set_byte-append [] y i b = let e : 0 + i ≡ i = omega arith in ap (λ (n : ℕ). set_byte n b y) e
set_byte-append (a ∷ x) y i b =
    let e : suc (length x) + i ≡ suc (length x + i) = omega arith in
    ap (λ (n : ℕ). set_byte n b (a ∷ (x ++ y))) e ∙ ap (◌∷◌ a) (set_byte-append x y i b)

length-set_byte : (i b : ℕ) (y : Bytes) → length (set_byte i b y) ≡ length y
unfolding set_byte
length-set_byte i b [] = refl
length-set_byte zero b (x ∷ xs) = refl
length-set_byte (suc i) b (x ∷ xs) = ap suc (length-set_byte i b xs)

-- The loop leaves what is before its start, and the length.
modify_loop-append :
    (n i : ℕ) (x y : Bytes)
    → (z : Bytes) × (modify_loop n (length x) i (x ++ y) ≡ x ++ z) × (length z ≡ length y)
unfolding modify_loop
modify_loop-append zero i x y = (y, refl, refl)
modify_loop-append (suc n) i x y =
    let y' = set_byte i 88 y in
    let (z, e, same) = modify_loop-append n (i + 1) x y' in
    elim (Bool-cases (ltb (length x + i) (length (x ++ y)))) [
      | inl within ↦ (
        z,
        rw within (ap (modify_loop n (length x) (i + 1)) (set_byte-append x y i 88) ∙ e),
        same ∙ length-set_byte i 88 y,
      )
      | inr past ↦ (y, rw past refl, refl)
    ]

modify_file_half :
    (share : ℕ) (bytes : Bytes)
    → (z : Bytes) × (modify_file share bytes ≡ take (length bytes / 2) bytes ++ z)
      × (length z ≡ length (drop (length bytes / 2) bytes))
unfolding modify_file
modify_file_half share bytes =
    let half = length bytes / 2 in
    let whole : take half bytes ++ drop half bytes ≡ bytes = take-append-drop half bytes in
    let start : length (take half bytes) ≡ half = omega (arith, length-take half bytes) in
    let n = length bytes * share / 1000 in
    let (z, e, same) = modify_loop-append n 0 (take half bytes) (drop half bytes) in
    let loop : modify_loop n half 0 bytes ≡ take half bytes ++ z =
      subst (λ (t : Bytes). modify_loop n half 0 t ≡ take half bytes ++ z) whole
        (subst
          (λ (m : ℕ). modify_loop n m 0 (take half bytes ++ drop half bytes) ≡ take half bytes ++ z)
          start e) in
    (z, loop, same)

module _ (ssl : Ssl) where
  -- The benchmark that modifies a share of a file counts the chunks and bytes that `computeDelta` would send
  -- of the modified file to a server that has the original; and these bytes are no more than half of the
  -- file, rounded up, and one chunk of the greatest size.
  pub measure-modify_file :
      (st st' : ChunkStats) (share : ℕ) (bytes : Bytes)
      → let m = measure ssl st (some bytes) (some (modify_file share bytes)) in
        let d =
          (compute_delta ssl st'
            (some (modify_file share bytes))
            (hashes_of (chunk_data ssl bytes).0)).0 in
        (m.new_chunks ≡ length d.new_chunks)
        × (m.new_bytes ≡ d.bytes_to_transfer)
        × (m.new_bytes ≤ length bytes - length bytes / 2 + k_max_chunk_size)
  measure-modify_file st st' share bytes =
      let half = length bytes / 2 in
      let (z, e, same) = modify_file_half share bytes in
      let (chunks, sent) = measure-compute_delta ssl st st' bytes (modify_file share bytes) in
      let whole : take half bytes ++ drop half bytes ≡ bytes = take-append-drop half bytes in
      let start : length (take half bytes) ≡ half = omega (arith, length-take half bytes) in
      let all = length-append {0} (take half bytes) (drop half bytes) in
      let bound =
        subst
          (λ (t : Bytes).
            (compute_delta ssl st' (some t)
              (hashes_of (chunk_data ssl bytes).0)).0.bytes_to_transfer
            ≤ length z + k_max_chunk_size)
          (sym e)
          (subst
            (λ (u : Bytes).
              (compute_delta ssl st' (some (take half bytes ++ z))
                (hashes_of (chunk_data ssl u).0)).0.bytes_to_transfer
              ≤ length z + k_max_chunk_size)
            whole (compute_delta_bounded ssl st' (take half bytes) (drop half bytes) z)) in
      (chunks, sent, omega (arith, bound, sent, same, all, start, ap length whole))
