-- ===== src/Delta/Compute.antt =====
-- What `computeDelta` sends and what it leaves.
use mathlib.Core.List.{Perm, perm_middle, perm_append_singleton}
use mathlib.Core.List.Perm
use dropbox_lite.Prelude.{
  ◌+◌, ◌^◌, ◌≤◌, ◌<◌, ◌≡◌, refl, sym, ◌∙◌, List, [], ◌∷◌, ◌++◌, none, some, true, false, Bytes, Str,
  All, All-append, length, str_eq_iff, arith, append-nil, append_assoc, Bool-cases, if_both, inl,
  inr,
}
use dropbox_lite.Hash.{Ssl}
use dropbox_lite.Chunker.{ChunkInfo, ChunkStats, chunk_file, chunk_data}
use dropbox_lite.Chunker.Partition.{total, total-IsPartition, chunk_data-IsPartition}
use dropbox_lite.Delta.{DeltaInfo, contains, convert_to_set, classify, classify_all, compute_delta}

-- The set answers as the list that it was made from.
pub contains-convert_to_set :
    (hs : List Str) (h : Str) → contains (convert_to_set hs) h ≡ contains hs h
unfolding contains convert_to_set
contains-convert_to_set [] h = refl
contains-convert_to_set (x ∷ xs) h =
    ground (arith, contains-convert_to_set xs h, contains-convert_to_set xs x, str_eq_iff x h)

-- A delta splits the chunks `cs` by what the server has: nothing is lost or doubled, what is sent is
-- missing there, what is left is there, and the bytes to transfer are the sizes of what is sent.
pub record Splits (server : List Str) (cs : List ChunkInfo) (d : DeltaInfo) : Type 0 where
  pub complete : Perm (d.new_chunks ++ d.existing_chunks) cs
  pub missing : All (λ c. contains server c.hash ≡ false) d.new_chunks
  pub present : All (λ c. contains server c.hash ≡ true) d.existing_chunks
  pub counted : d.bytes_to_transfer ≡ total d.new_chunks

total-append : (xs ys : List ChunkInfo) → total (xs ++ ys) ≡ total xs + total ys
unfolding total
total-append [] ys = omega arith
total-append (x ∷ xs) ys = omega (arith, total-append xs ys)

total-one : (c : ChunkInfo) → total (c ∷ []) ≡ c.size
unfolding total
total-one c = omega arith

classify-Splits :
    (server set : List Str) (cs : List ChunkInfo) (c : ChunkInfo) (d : DeltaInfo)
    → ((h : Str) → contains set h ≡ contains server h)
    → total d.new_chunks + c.size < 2 ^ 64
    → Splits server cs d
    → Splits server (cs ++ c ∷ []) (classify set d c)
unfolding classify
classify-Splits server set cs c d same fits v = elim (Bool-cases (contains set c.hash)) [
  | inl there ↦ rw there (record {
    complete =
        rw (← append_assoc d.new_chunks d.existing_chunks (c ∷ []))
          (Perm.append_right (c ∷ []) v.complete);
    missing = v.missing;
    present = All-append _ d.existing_chunks (c ∷ []) v.present (sym (same c.hash) ∙ there, tt);
    counted = v.counted;
  })
  | inr new ↦ rw new (record {
    complete = rw (append_assoc d.new_chunks (c ∷ []) d.existing_chunks) (
        Perm.trans (perm_middle d.new_chunks d.existing_chunks)
          (Perm.trans (Perm.cons c v.complete) (Perm.symm (perm_append_singleton c cs))));
    missing = All-append _ d.new_chunks (c ∷ []) v.missing (sym (same c.hash) ∙ new, tt);
    present = v.present;
    counted = omega (arith, v.counted, total-append d.new_chunks (c ∷ []), total-one c);
  })
]

total-classify :
    (set : List Str) (d : DeltaInfo) (c : ChunkInfo)
    → total (classify set d c).new_chunks ≤ total d.new_chunks + c.size
unfolding classify
total-classify set d c =
    if_both (λ (t : DeltaInfo). total t.new_chunks ≤ total d.new_chunks + c.size)
      (contains set c.hash) (omega arith)
      (omega (arith, total-append d.new_chunks (c ∷ []), total-one c))

classify_all-Splits :
    (server set : List Str) (cs rest : List ChunkInfo) (d : DeltaInfo)
    → ((h : Str) → contains set h ≡ contains server h)
    → total d.new_chunks + total rest < 2 ^ 64
    → Splits server cs d
    → Splits server (cs ++ rest) (classify_all set d rest)
unfolding classify_all total
classify_all-Splits server set cs [] d same fits v = rw (append-nil cs) v
classify_all-Splits server set cs (c ∷ rest) d same fits v = rw (← append_assoc cs (c ∷ []) rest) (
    classify_all-Splits server set (cs ++ c ∷ []) rest (classify set d c) same
      (omega (arith, total-classify set d c))
      (classify-Splits server set cs c d same (omega arith) v))

module _ (ssl : Ssl) where
  -- Computing the delta of a readable file splits the chunks of its content by the hashes that the
  -- server sent, whatever their order and repetitions; an unreadable file gives an empty delta.
  pub compute_delta-Splits :
      (st : ChunkStats) (content : Bytes) (server : List Str)
      → length content < 2 ^ 64
      → Splits server (chunk_data ssl content).0 (compute_delta ssl st (some content) server).0
        × Splits server [] (compute_delta ssl st none server).0
  unfolding compute_delta chunk_file
  compute_delta-Splits st content server fits =
      (split (chunk_data ssl content).0 (omega (arith, size)), split [] (omega (arith, no_size)))
    where
      size : total (chunk_data ssl content).0 ≡ length content
      size =
          total-IsPartition ssl 0 (chunk_data ssl content).0 content
            (chunk_data-IsPartition ssl content)

      no_size : total [] ≡ 0
      no_size = unfold total in refl

      none_sent : DeltaInfo
      none_sent = record { new_chunks = []; existing_chunks = []; bytes_to_transfer = 0 }

      split :
          (cs : List ChunkInfo)
          → total cs < 2 ^ 64
          → Splits server cs (classify_all (convert_to_set server) none_sent cs)
      split cs small =
          classify_all-Splits server (convert_to_set server) [] cs none_sent
            (contains-convert_to_set server) (omega (arith, no_size))
            (record { complete = Perm.nil; missing = tt; present = tt; counted = sym no_size })
