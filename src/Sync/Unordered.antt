-- ===== src/Sync/Unordered.antt =====
-- An upload whose requests come in another order than the chunks lie in the file.
use mathlib.Core.List.{flatten, Permᴰ}
use mathlib.Core.List.Permᴰ
use dropbox_lite.Prelude.{
  ℕ, suc, ◌+◌, ◌<◌, ◌^◌, ◌≡◌, ◌≢◌, refl, ap, subst, ◌∙◌, List, [], ◌∷◌, map, none, some, true,
  false, Bytes, Str, All, length, arith, str_eq,
}
use dropbox_lite.Prelude.Int.{ℤ, pos}
use dropbox_lite.Hash.{Ssl, sha256}
use dropbox_lite.Hash.Hex.{sha256_form}
use dropbox_lite.Metadata.{Db, done, c_str, chunks_of, get_file_chunks}
use dropbox_lite.Metadata.Arrival.{Piece, Increasing, All-Perm, get_file_chunks-insert_all}
use dropbox_lite.Storage.{Env, Storage, db_of, finalize_file}
use dropbox_lite.Prelude.Dict.{get}
use dropbox_lite.Storage.Paths.{get_chunk_path, get_temp_file_path}
use dropbox_lite.Storage.Store.{Works, NoCollision, Addressed}
use dropbox_lite.Storage.Listing.{c_str-hex}
use dropbox_lite.Storage.Stored.{Stored}
use dropbox_lite.Storage.Finalize.{Finalized, finalize_file-Present}
use dropbox_lite.Sync.{start, note_request, receive, finish, upload_file}
use dropbox_lite.Sync.Requests.{named, finish-some}
use dropbox_lite.Sync.Parts.{
  Part, contents_of, length-contents_of, piece_of, requests_of, receive-Stored,
}

module _ (ssl : Ssl) (P : Bytes → Type 0) where
  All-contents :
      (Q : Bytes → Type 0) {xs ys : List Part}
      → Permᴰ xs ys
      → All Q (contents_of ys)
      → All Q (contents_of xs)
  All-contents Q {xs} {ys} p h = contents_All xs (All-Perm (λ c. Q c.content) p (All_contents ys h))
    where
      contents_All : (cs : List Part) → All (λ c. Q c.content) cs → All Q (contents_of cs)
      contents_All [] k = tt
      contents_All (c ∷ cs) k = (k.0, contents_All cs k.1)

      All_contents : (cs : List Part) → All Q (contents_of cs) → All (λ c. Q c.content) cs
      All_contents [] k = tt
      All_contents (c ∷ cs) k = (k.0, All_contents cs k.1)

  pieces-Permᴰ :
      {xs ys : List Part} → Permᴰ xs ys → Permᴰ (map (piece_of ssl P) xs) (map (piece_of ssl P) ys)
  pieces-Permᴰ Permᴰ.nil = Permᴰ.nil
  pieces-Permᴰ (Permᴰ.cons e p) = Permᴰ.cons (ap (piece_of ssl P) e) (pieces-Permᴰ p)
  pieces-Permᴰ (Permᴰ.swap e e') = Permᴰ.swap (ap (piece_of ssl P) e) (ap (piece_of ssl P) e')
  pieces-Permᴰ (Permᴰ.trans p q) = Permᴰ.trans (pieces-Permᴰ p) (pieces-Permᴰ q)

  length-Permᴰ : {xs ys : List Part} → Permᴰ xs ys → length xs ≡ length ys
  length-Permᴰ Permᴰ.nil = refl
  length-Permᴰ (Permᴰ.cons e p) = ap suc (length-Permᴰ p)
  length-Permᴰ (Permᴰ.swap e e') = refl
  length-Permᴰ (Permᴰ.trans p q) = length-Permᴰ p ∙ length-Permᴰ q

  hashes-pieces :
      (cs : List Part)
      → map (λ (c : Piece). c_str c.hash) (map (piece_of ssl P) cs)
        ≡ map (sha256 ssl) (contents_of cs)
  hashes-pieces [] = refl
  hashes-pieces (c ∷ cs) =
      ap (λ (h : Str). h ∷ map (λ (d : Piece). c_str d.hash) (map (piece_of ssl P) cs))
        (c_str-hex (sha256 ssl c.content) (sha256_form ssl c.content).1)
      ∙ ap (◌∷◌ (sha256 ssl c.content)) (hashes-pieces cs)

  -- A server that has no chunks of a file yet.
  pub record Untouched (root client path : Str) (s : Storage) : Type 0 where
    pub rooted : s.storage_root ≡ root
    pub addressed : Addressed ssl P root s.files
    pub no_rows : chunks_of (c_str path) (db_of s client).tables.chunks ≡ []
    pub settled : (db_of s client).saved ≡ none

  -- The first request names the file.
  receive_first :
      (client path : Str) (total : ℤ) (c : Part) (cs : List Part) (s : Storage)
      → str_eq client [] ≡ false
      → receive (requests_of ssl P client path total (c ∷ cs)) start s
        ≡ receive (requests_of ssl P client path total (c ∷ cs)) (named client path total 0) s
  unfolding receive note_request str_eq start
  receive_first client path total c cs s ne = rw ne refl

  -- The chunks of a file may arrive in whatever order, each under its own hash and index: the upload
  -- succeeds, and the server's copy is the contents joined in the order of their indices, with a record
  -- of their hash and length. Nothing fails, the server has no chunks of the file yet, the indices differ,
  -- no content is empty, they are no more than an `int32_t` counts, and no two have a hash in common.
  pub upload_file_unordered :
      (root client path : Str) (c : Part) (cs ordered : List Part) (last : Env) (s : Storage)
      → NoCollision ssl P
      → All (λ x. Works x.env) (c ∷ cs)
      → Works last
      → Permᴰ (c ∷ cs) ordered
      → Increasing (map (piece_of ssl P) ordered)
      → All P (contents_of ordered)
      → All (λ q. q ≢ []) (contents_of ordered)
      → length ordered < 2 ^ 31
      → str_eq client [] ≡ false
      → Untouched root client path s
      → (s' : Storage) × (upload_file ssl
            (requests_of ssl P client path (pos (length ordered)) (c ∷ cs))
            last
            s
          ≡ (record { success = true; message = []; chunks_received = pos (length ordered) }, s'))
        × Finalized ssl P
            (get_temp_file_path root client path)
            client
            path
            (flatten (contents_of ordered))
            (true, s')
  unfolding upload_file
  upload_file_unordered root client path c cs ordered last s sep w wl p up hp full few ne v =
      let n = length ordered in
      let db = db_of s client in
      let none_yet : Stored ssl P root client [] db s = record {
        rooted = v.rooted;
        addressed = v.addressed;
        present = tt;
        database = refl;
      } in
      let (s1, went, stored, settled) =
        receive-Stored ssl P root client path (pos n) 0 (c ∷ cs) [] s db sep w tt
          (All-contents P p hp) ne none_yet v.settled in
      let listed : get_file_chunks done path (db_of s1 client)
          ≡ map (sha256 ssl) (contents_of ordered) =
        ap (get_file_chunks done path) stored.database
        ∙ (get_file_chunks-insert_all path (map (piece_of ssl P) (c ∷ cs))
              (map (piece_of ssl P) ordered) db (pieces-Permᴰ p) up v.no_rows
            ∙ hashes-pieces ordered) in
      let present =
        All-contents (λ q. get s1.files (get_chunk_path root (sha256 ssl q)) ≡ some q)
          (Permᴰ.symm p) stored.present in
      let count : length (contents_of ordered) ≡ n = length-contents_of ordered in
      let done_at =
        finalize_file-Present ssl P last root client path (contents_of ordered) s1 wl stored.rooted
          present (ap (λ (d : Db). d.saved) stored.database ∙ settled) listed full
          (omega (arith, few, count)) in
      let finalized =
        subst
          (λ (k : ℕ).
            Finalized ssl P (get_temp_file_path root client path) client path
              (flatten (contents_of ordered)) (finalize_file ssl last client path (pos k) s1))
          count done_at in
      let e : 0 + length (c ∷ cs) ≡ n = omega (arith, length-Permᴰ p) in
      (
        (finalize_file ssl last client path (pos n) s1).1,
        ap (finish ssl last) (
              receive_first client path (pos n) c cs s ne
              ∙ (went ∙ ap (λ (k : ℕ). (some (named client path (pos n) k), s1)) e))
            ∙ finish-some ssl last (named client path (pos n) n) s1 finalized.0 few,
        (refl, finalized.1, finalized.2),
      )
