-- ===== src/Metadata/Arrival.antt =====
-- The chunks of a file may come in whatever order.
use mathlib.Core.List.{Permᴰ}
use dropbox_lite.Prelude.{
  ◌≡◌, ◌≢◌, refl, sym, ap, subst, ◌∙◌, List, [], ◌∷◌, ◌++◌, map, All, All-append, append_assoc,
  append-nil, Str, arith, str_eq, Bool-cases, inl, inr,
}
use dropbox_lite.Prelude.Int.{ℤ, ◌<ℤ◌, eqb_ℤ_iff}
use dropbox_lite.Metadata.{
  ChunkRow, chunk_row, Db, done, c_str, is_row, other_chunks, chunks_of, insert_row, order_rows,
  insert_chunk, get_file_chunks,
}
use dropbox_lite.Metadata.Chunks.{chunks_of-append_same}

-- What is inserted of a chunk.
pub record Piece : Type 0 where
  pub index : ℤ
  pub hash : Str
  pub offset : ℤ
  pub size : ℤ

unfoldable pub insert_all : Str → List Piece → Db → Db
insert_all path [] db = db
insert_all path (c ∷ cs) db =
    insert_all path cs (insert_chunk done path c.index c.hash c.offset c.size db).1

abbrev pub row : Str → Piece → ChunkRow
row path c = chunk_row path c.index c.hash c.offset c.size

abbrev pub Distinct : List Piece → Type 0
Distinct [] = Unit
Distinct (c ∷ cs) = All (λ d. c.index ≢ d.index) cs × Distinct cs

-- The indices go up.
abbrev pub Increasing : List Piece → Type 0
Increasing [] = Unit
Increasing (c ∷ cs) = All (λ d. c.index <ℤ d.index) cs × Increasing cs

All-ne :
    (c : Piece) (cs : List Piece)
    → All (λ d. c.index <ℤ d.index) cs
    → All (λ d. c.index ≢ d.index) cs
All-ne c [] h = tt
All-ne c (d ∷ cs) h = (λ e. ground arith, All-ne c cs h.1)

Increasing-Distinct : (cs : List Piece) → Increasing cs → Distinct cs
Increasing-Distinct [] h = tt
Increasing-Distinct (c ∷ cs) h = (All-ne c cs h.0, Increasing-Distinct cs h.1)

pub All-Perm {ℓ κ} :
    {A : Type ℓ} (P : A → Type κ) {xs ys : List A} → Permᴰ xs ys → All P ys → All P xs
All-Perm P Permᴰ.nil h = h
All-Perm P (Permᴰ.cons e p) h = (subst P (sym e) h.0, All-Perm P p h.1)
All-Perm P (Permᴰ.swap e e') h = (subst P (sym e) h.1.0, (subst P (sym e') h.0, h.1.1))
All-Perm P (Permᴰ.trans p q) h = All-Perm P p (All-Perm P q h)

Distinct-Perm : {xs ys : List Piece} → Permᴰ xs ys → Distinct ys → Distinct xs
Distinct-Perm Permᴰ.nil h = h
Distinct-Perm (Permᴰ.cons {a} {b} {l₁} e p) h = (
  subst (λ (z : Piece). All (λ d. z.index ≢ d.index) l₁) (sym e)
      (All-Perm (λ d. b.index ≢ d.index) p h.0),
  Distinct-Perm p h.1,
)
Distinct-Perm (Permᴰ.swap {l = l} e e') h =
    let index = λ (z : Piece). z.index in
    (
      (
        λ x. h.0.0 (sym (ap index e') ∙ (sym x ∙ ap index e)),
        subst (λ (z : Piece). All (λ d. z.index ≢ d.index) l) (sym e) h.1.0,
      ),
      (subst (λ (z : Piece). All (λ d. z.index ≢ d.index) l) (sym e') h.0.1, h.1.1),
    )
Distinct-Perm (Permᴰ.trans p q) h = Distinct-Perm p (Distinct-Perm q h)

insert_row_comm :
    (a b : ChunkRow) (rs : List ChunkRow)
    → a.chunk_index ≢ b.chunk_index
    → insert_row a (insert_row b rs) ≡ insert_row b (insert_row a rs)
unfolding insert_row
insert_row_comm a b [] ne = ground arith
insert_row_comm a b (s ∷ rs) ne = ground (arith, insert_row_comm a b rs ne)

order_rows-Perm :
    (path : Str) {xs ys : List Piece}
    → Permᴰ xs ys
    → Distinct ys
    → order_rows (map (row path) xs) ≡ order_rows (map (row path) ys)
unfolding order_rows
order_rows-Perm path Permᴰ.nil h = refl
order_rows-Perm path (Permᴰ.cons {a} {b} {l₁} e p) h =
    ap (λ (z : Piece). insert_row (row path z) (order_rows (map (row path) l₁))) e
    ∙ ap (insert_row (row path b)) (order_rows-Perm path p h.1)
order_rows-Perm path (Permᴰ.swap {b = b} {a'} {b'} {l} e e') h =
    let rest = order_rows (map (row path) l) in
    ap (λ (z : Piece). insert_row (row path z) (insert_row (row path b) rest)) e
    ∙ (ap (λ (z : Piece). insert_row (row path b') (insert_row (row path z) rest)) e'
        ∙ insert_row_comm (row path b') (row path a') rest (λ x. h.0.0 (sym x)))
order_rows-Perm path (Permᴰ.trans p q) h =
    order_rows-Perm path p (Distinct-Perm q h) ∙ order_rows-Perm path q h

order_rows-Increasing :
    (path : Str) (cs : List Piece)
    → Increasing cs
    → order_rows (map (row path) cs) ≡ map (row path) cs
unfolding order_rows
order_rows-Increasing path [] h = refl
order_rows-Increasing path (c ∷ []) h = unfold insert_row in refl
order_rows-Increasing path (c ∷ d ∷ cs) h =
    ap (insert_row (row path c)) (order_rows-Increasing path (d ∷ cs) h.1)
    ∙ (unfold insert_row in ground arith)

-- No row has the index.
abbrev Absent : ℤ → List ChunkRow → Type 0
Absent i = All (λ r. r.chunk_index ≢ i)

chunks_of-other_chunks-Absent :
    (p : Str) (i : ℤ) (rs : List ChunkRow)
    → Absent i (chunks_of p rs)
    → chunks_of p (other_chunks p i rs) ≡ chunks_of p rs
unfolding chunks_of other_chunks is_row
chunks_of-other_chunks-Absent p i [] h = refl
chunks_of-other_chunks-Absent p i (r ∷ rs) h = elim (Bool-cases (str_eq r.file_path p)) [
  | inl same ↦ ground (arith, chunks_of-other_chunks-Absent p i rs, eqb_ℤ_iff r.chunk_index i)
  | inr other ↦ ground (arith, chunks_of-other_chunks-Absent p i rs)
]

-- No row of the file has the index of a piece.
abbrev New : List ChunkRow → List Piece → Type 0
New rs = All (λ c. Absent c.index rs)

New-append :
    (path : Str) (rs : List ChunkRow) (c : Piece) (cs : List Piece)
    → New rs cs
    → All (λ d. c.index ≢ d.index) cs
    → New (rs ++ row path c ∷ []) cs
New-append path rs c [] h k = tt
New-append path rs c (d ∷ cs) h k =
    (All-append _ rs (row path c ∷ []) h.0 (k.0, tt), New-append path rs c cs h.1 k.1)

-- The rows of the file are then those before, and the pieces as they came.
chunks_of-insert_all :
    (path : Str) (cs : List Piece) (db : Db)
    → Distinct cs
    → New (chunks_of (c_str path) db.tables.chunks) cs
    → chunks_of (c_str path) (insert_all path cs db).tables.chunks
      ≡ chunks_of (c_str path) db.tables.chunks ++ map (row path) cs
unfolding insert_all insert_chunk
chunks_of-insert_all path [] db d n = sym (append-nil (chunks_of (c_str path) db.tables.chunks))
chunks_of-insert_all path (c ∷ cs) db d n =
    let p = c_str path in
    let rs = db.tables.chunks in
    let db' = (insert_chunk done path c.index c.hash c.offset c.size db).1 in
    let e : chunks_of p db'.tables.chunks ≡ chunks_of p rs ++ row path c ∷ [] =
      chunks_of-append_same p (other_chunks p c.index rs) (row path c) refl
      ∙ ap (λ (t : List ChunkRow). t ++ row path c ∷ [])
          (chunks_of-other_chunks-Absent p c.index rs n.0) in
    chunks_of-insert_all path cs db' d.1 (
      subst (λ (t : List ChunkRow). New t cs) (sym e)
        (New-append path (chunks_of p rs) c cs n.1 d.0))
    ∙ (ap (λ (t : List ChunkRow). t ++ map (row path) cs) e
        ∙ append_assoc (chunks_of p rs) (row path c ∷ []) (map (row path) cs))

New-none : (cs : List Piece) → New [] cs
New-none [] = tt
New-none (c ∷ cs) = (tt, New-none cs)

hashes-rows :
    (path : Str) (cs : List Piece)
    → map (λ (r : ChunkRow). r.hash) (map (row path) cs) ≡ map (λ (c : Piece). c_str c.hash) cs
hashes-rows path [] = refl
hashes-rows path (c ∷ cs) = ap (◌∷◌ (c_str c.hash)) (hashes-rows path cs)

-- The chunks of a file that has none yet may be stored in whatever order: the chunk list has them in the
-- order of their indices, each once.
pub get_file_chunks-insert_all :
    (path : Str) (sent cs : List Piece) (db : Db)
    → Permᴰ sent cs
    → Increasing cs
    → chunks_of (c_str path) db.tables.chunks ≡ []
    → get_file_chunks done path (insert_all path sent db) ≡ map (λ c. c_str c.hash) cs
unfolding get_file_chunks
get_file_chunks-insert_all path sent cs db p up none =
    let d = Distinct-Perm p (Increasing-Distinct cs up) in
    let hashes = map (λ (r : ChunkRow). r.hash) in
    let e : chunks_of (c_str path) (insert_all path sent db).tables.chunks ≡ map (row path) sent =
      chunks_of-insert_all path sent db d
        (subst (λ (t : List ChunkRow). New t sent) (sym none) (New-none sent))
      ∙ ap (λ (t : List ChunkRow). t ++ map (row path) sent) none in
    ap hashes (
      ap order_rows e
      ∙ (order_rows-Perm path p (Increasing-Distinct cs up) ∙ order_rows-Increasing path cs up))
    ∙ hashes-rows path cs
