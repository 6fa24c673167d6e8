-- ===== src/Delta/Edit.antt =====
-- What has to be sent of a file that has been edited.
use mathlib.Core.List.{flatten}
use dropbox_lite.Prelude.{
  ℕ, ◌+◌, ◌≤◌, ◌≡◌, refl, sym, ap, subst, ◌∙◌, List, [], ◌∷◌, ◌++◌, map, some, true, Bytes, Str,
  All, arith, length, length-append, str_eq_self, if_both, append_assoc,
}
use dropbox_lite.Hash.{Ssl, sha256}
use dropbox_lite.Chunker.{ChunkInfo, ChunkStats, k_max_chunk_size, chunk_data, chunk_file}
use dropbox_lite.Chunker.Pieces.{locate, chunk_data-eq-pieces}
use dropbox_lite.Chunker.Partition.{flatten-pieces}
use dropbox_lite.Chunker.Prefix.{pieces_prefix}
use dropbox_lite.Delta.{DeltaInfo, contains, convert_to_set, classify, classify_all, compute_delta}
use dropbox_lite.Delta.Compute.{contains-convert_to_set}

abbrev pub hashes_of : List ChunkInfo → List Str
hashes_of = map (λ c. c.hash)

flatten-append : (ps qs : List Bytes) → flatten (ps ++ qs) ≡ flatten ps ++ flatten qs
unfolding flatten
flatten-append [] qs = refl
flatten-append (p ∷ ps) qs =
    ap (λ (t : Bytes). p ++ t) (flatten-append ps qs)
    ∙ sym (append_assoc p (flatten ps) (flatten qs))

-- The chunks that a set has all of, and those that it need not have.
sent-known :
    (set : List Str) (d : DeltaInfo) (cs : List ChunkInfo)
    → All (λ c. contains set c.hash ≡ true) cs
    → (classify_all set d cs).bytes_to_transfer ≡ d.bytes_to_transfer
unfolding classify_all classify
sent-known set d [] h = refl
sent-known set d (c ∷ cs) h =
    let next = record d { existing_chunks = d.existing_chunks ++ c ∷ [] } in
    let kept : classify set d c ≡ next = rw h.0 refl in
    ap (λ (t : DeltaInfo). (classify_all set t cs).bytes_to_transfer) kept
    ∙ sent-known set next cs h.1

module _ (ssl : Ssl) where
  sent-most :
      (set : List Str) (d : DeltaInfo) (offset : ℕ) (ps : List Bytes)
      → (classify_all set d (locate ssl offset ps)).bytes_to_transfer
        ≤ d.bytes_to_transfer + length (flatten ps)
  unfolding classify_all classify locate flatten
  sent-most set d offset [] = omega arith
  sent-most set d offset (p ∷ ps) =
      let c : ChunkInfo = record { offset = offset; size = length p; hash = sha256 ssl p } in
      let ih = sent-most set (classify set d c) (offset + length p) ps in
      let one : (classify set d c).bytes_to_transfer ≤ d.bytes_to_transfer + length p =
        if_both (λ (e : DeltaInfo). e.bytes_to_transfer ≤ d.bytes_to_transfer + length p)
          (contains set (sha256 ssl p)) (omega arith) (omega arith) in
      omega (arith, ih, one, length-append {0} p (flatten ps))

  classify_all-append :
      (set : List Str) (d : DeltaInfo) (cs ds : List ChunkInfo)
      → classify_all set d (cs ++ ds) ≡ classify_all set (classify_all set d cs) ds
  unfolding classify_all
  classify_all-append set d [] ds = refl
  classify_all-append set d (c ∷ cs) ds = classify_all-append set (classify set d c) cs ds

  locate-append :
      (offset : ℕ) (ps qs : List Bytes)
      → locate ssl offset (ps ++ qs)
        ≡ locate ssl offset ps ++ locate ssl (offset + length (flatten ps)) qs
  unfolding locate flatten
  locate-append offset [] qs = ap (λ (n : ℕ). locate ssl n qs) (omega arith)
  locate-append offset (p ∷ ps) qs =
      let c : ChunkInfo = record { offset = offset; size = length p; hash = sha256 ssl p } in
      let e : offset + length p + length (flatten ps) ≡ offset + length (p ++ flatten ps) =
        omega (arith, length-append {0} p (flatten ps)) in
      ap (◌∷◌ c) (
        locate-append (offset + length p) ps qs
        ∙ ap (λ (n : ℕ). locate ssl (offset + length p) ps ++ locate ssl n qs) e)

  widen :
      (h : Str) (hs : List Str) (cs : List ChunkInfo)
      → All (λ c. contains hs c.hash ≡ true) cs
      → All (λ c. contains (h ∷ hs) c.hash ≡ true) cs
  unfolding contains
  widen h hs [] v = tt
  widen h hs (c ∷ cs) v = (ground (arith, v.0), widen h hs cs v.1)

  -- A list of hashes contains those of its first chunks, wherever they lie.
  first_contained :
      (o o' : ℕ) (ps : List Bytes) (ds : List ChunkInfo)
      → All (λ c. contains (hashes_of (locate ssl o ps ++ ds)) c.hash ≡ true) (locate ssl o' ps)
  unfolding locate contains
  first_contained o o' [] ds = tt
  first_contained o o' (p ∷ ps) ds = (
    ground (arith, str_eq_self (sha256 ssl p)),
    widen (sha256 ssl p) (hashes_of (locate ssl (o + length p) ps ++ ds))
        (locate ssl (o' + length p) ps) (first_contained (o + length p) (o' + length p) ps ds),
  )

  set_contains :
      (hs : List Str) (cs : List ChunkInfo)
      → All (λ c. contains hs c.hash ≡ true) cs
      → All (λ c. contains (convert_to_set hs) c.hash ≡ true) cs
  set_contains hs [] v = tt
  set_contains hs (c ∷ cs) v = (contains-convert_to_set hs c.hash ∙ v.0, set_contains hs cs v.1)

  -- The delta of an edited file: whatever follows where the edit begins and whatever was there before, no
  -- more has to be sent than what follows, and one chunk of the greatest size.
  pub compute_delta_bounded :
      (st : ChunkStats) (before old new : Bytes)
      → (compute_delta ssl st
          (some (before ++ new))
          (hashes_of (chunk_data ssl (before ++ old)).0)).0.bytes_to_transfer
        ≤ length new + k_max_chunk_size
  unfolding compute_delta chunk_file
  compute_delta_bounded st before old new =
      let (ps, qs, qs', e, e', near) = pieces_prefix before old new in
      let o = 0 + length (flatten ps) in
      let none_sent : DeltaInfo = record {
        new_chunks = [];
        existing_chunks = [];
        bytes_to_transfer = 0;
      } in
      let server = hashes_of (chunk_data ssl (before ++ old)).0 in
      let there : server ≡ hashes_of (locate ssl 0 ps ++ locate ssl o qs) = ap hashes_of (
        chunk_data-eq-pieces ssl (before ++ old) ∙ (ap (locate ssl 0) e ∙ locate-append 0 ps qs)) in
      let here : (chunk_data ssl (before ++ new)).0 ≡ locate ssl 0 ps ++ locate ssl o qs' =
        chunk_data-eq-pieces ssl (before ++ new)
        ∙ (ap (locate ssl 0) e' ∙ locate-append 0 ps qs') in
      let set = convert_to_set server in
      let known : All (λ c. contains set c.hash ≡ true) (locate ssl 0 ps) =
        set_contains server (locate ssl 0 ps) (
          subst (λ (hs : List Str). All (λ c. contains hs c.hash ≡ true) (locate ssl 0 ps))
            (sym there) (first_contained 0 0 ps (locate ssl o qs))) in
      let first = classify_all set none_sent (locate ssl 0 ps) in
      let parts : (classify_all set none_sent (chunk_data ssl (before ++ new)).0)
          ≡ classify_all set first (locate ssl o qs') =
        ap (classify_all set none_sent) here
        ∙ classify_all-append set none_sent (locate ssl 0 ps) (locate ssl o qs') in
      let whole : length (flatten ps ++ flatten qs') ≡ length (before ++ new) =
        ap length
          (sym (flatten-append ps qs') ∙ (ap flatten (sym e') ∙ flatten-pieces (before ++ new))) in
      omega (
        arith,
        ap (λ (d : DeltaInfo). d.bytes_to_transfer) parts,
        sent-known set none_sent (locate ssl 0 ps) known,
        sent-most set first o qs',
        whole,
        near,
        length-append {0} (flatten ps) (flatten qs'),
        length-append {0} before new,
      )
