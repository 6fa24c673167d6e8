-- ===== src/Sync/Parts.antt =====
-- A stream of chunks in any order, and what the loop of `UploadFile` stores of it.
use dropbox_lite.Prelude.{
  ℕ, suc, ◌+◌, ◌≡◌, refl, sym, ap, subst, ◌∙◌, List, [], ◌∷◌, ◌++◌, map, none, some, false, Bytes,
  Str, All, All-append, length, arith, str_eq, append-nil, append_assoc,
}
use dropbox_lite.Prelude.Int.{ℤ, pos, to_int32}
use dropbox_lite.Hash.{Ssl, sha256}
use dropbox_lite.Metadata.{Db, insert_chunk}
use dropbox_lite.Metadata.Arrival.{Piece, insert_all}
use dropbox_lite.Storage.{Env, Storage, store_chunk}
use dropbox_lite.Storage.Store.{Works, NoCollision}
use dropbox_lite.Storage.Stored.{Stored, inserted, store_chunk-Stored}
use dropbox_lite.Sync.{UploadChunkRequest, note_request, receive}
use dropbox_lite.Sync.Requests.{named, receive-cons}
use dropbox_lite.Sync.Upload.{request}

-- A chunk of a file on its way, with the environment of its call.
pub record Part : Type 0 where
  pub env : Env
  pub index : ℕ
  pub offset : ℕ
  pub content : Bytes

abbrev pub contents_of : List Part → List Bytes
contents_of = map (λ c. c.content)

pub length-contents_of : (cs : List Part) → length (contents_of cs) ≡ length cs
length-contents_of [] = refl
length-contents_of (c ∷ cs) = ap suc (length-contents_of cs)

module _ (ssl : Ssl) (P : Bytes → Type 0) where
  abbrev pub piece_of : Part → Piece
  piece_of c = record {
    index = pos c.index;
    hash = sha256 ssl c.content;
    offset = pos 0;
    size = to_int32 (length c.content);
  }

  abbrev pub requests_of : Str → Str → ℤ → List Part → List (Env × UploadChunkRequest)
  requests_of client path total =
      map (λ c. (c.env, request ssl P client path total c.index c.offset c.content))

  -- All chunks are stored, in the order of their arrival.
  pub receive-Stored :
      (root client path : Str) (total : ℤ) (n : ℕ) (cs : List Part) (qs : List Bytes) (s : Storage)
      (db : Db)
      → NoCollision ssl P
      → All (λ c. Works c.env) cs
      → All P qs
      → All P (contents_of cs)
      → str_eq client [] ≡ false
      → Stored ssl P root client qs db s
      → db.saved ≡ none
      → (s' : Storage) × (receive (requests_of client path total cs) (named client path total n) s
          ≡ (some (named client path total (n + length cs)), s'))
        × Stored ssl P root client (qs ++ contents_of cs) (insert_all path (map piece_of cs) db) s'
        × ((insert_all path (map piece_of cs) db).saved ≡ none)
  unfolding insert_all
  receive-Stored root client path total n [] qs s db sep w hq hc ne v settled =
      let e : n ≡ n + 0 = omega arith in
      (
        s,
        unfold receive in ap (λ (k : ℕ). (some (named client path total k), s)) e,
        subst (λ t. Stored ssl P root client t db s) (sym (append-nil qs)) v,
        settled,
      )
  receive-Stored root client path total n (c ∷ cs) qs s db sep w hq hc ne v settled =
      let p = c.content in
      let (ok, v1) =
        store_chunk-Stored ssl P c.env root client path (pos c.index) qs p s db sep w.0 hq hc.0 v
          settled in
      let s1 = (store_chunk c.env client path (pos c.index) p (sha256 ssl p) s).1 in
      let db1 = inserted ssl P path (pos c.index) p db in
      let settled1 : db1.saved ≡ none = unfold insert_chunk in settled in
      let (s2, went, v2, settled2) =
        receive-Stored root client path total (n + 1) cs (qs ++ p ∷ []) s1 db1 sep w.1
          (All-append P qs (p ∷ []) hq (hc.0, tt)) hc.1 ne v1 settled1 in
      let r = request ssl P client path total c.index c.offset p in
      let here = named client path total n in
      let e : n + 1 + length cs ≡ n + suc (length cs) = omega arith in
      (
        s2,
        receive-cons c.env r (requests_of client path total cs) here here s s1
              (unfold note_request in rw ne refl) (λ i. (ok i, s1))
            ∙ (went ∙ ap (λ (k : ℕ). (some (named client path total k), s2)) e),
        subst (λ t. Stored ssl P root client t (insert_all path (map piece_of cs) db1) s2)
            (append_assoc qs (p ∷ []) (contents_of cs)) v2,
        settled2,
      )
