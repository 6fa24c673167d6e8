-- ===== src/Storage/Overwrite.antt =====
-- A chunk that takes the place of another with the same index of the same file.
use dropbox_lite.Prelude.{
  ◌≡◌, sym, ap, subst, ◌∙◌, List, [], ◌∷◌, ◌++◌, map, none, true, Bytes, Str, All, length, arith,
  str_eq_self,
}
use dropbox_lite.Prelude.Int.{ℤ, pos, to_int32, eqb_ℤ_iff}
use dropbox_lite.Hash.{Ssl, sha256}
use dropbox_lite.Metadata.{Db, ChunkRow, done, c_str, is_row, other_chunks, chunk_row, insert_chunk}
use dropbox_lite.Storage.{Env, Storage, db_of, store_chunk}
use dropbox_lite.Storage.Store.{Works, NoCollision, Addressed}
use dropbox_lite.Storage.Listing.{Listed}
use dropbox_lite.Storage.Upload.{Uploaded, inserted-Listed, store_chunk-Listed}
use dropbox_lite.Storage.Stored.{Present, inserted}

other_chunks-again :
    (p : Str) (i : ℤ) (rs : List ChunkRow) (r : ChunkRow)
    → is_row p i r ≡ true
    → other_chunks p i (other_chunks p i rs ++ r ∷ []) ≡ other_chunks p i rs
unfolding other_chunks
other_chunks-again p i [] r e = ground (arith, e)
other_chunks-again p i (x ∷ rs) r e = ground (arith, e, other_chunks-again p i rs r e)

is_row-chunk_row :
    (path hash : Str) (i offset size : ℤ)
    → is_row (c_str path) i (chunk_row path i hash offset size) ≡ true
unfolding is_row
is_row-chunk_row path hash i offset size = ground (arith, str_eq_self (c_str path), eqb_ℤ_iff i i)

-- Of two rows for one index the later stays.
insert_chunk-again :
    (path hash other : Str) (i offset offset' size size' : ℤ) (db : Db)
    → (insert_chunk done path i hash offset size
        (insert_chunk done path i other offset' size' db).1).1
      ≡ (insert_chunk done path i hash offset size db).1
unfolding insert_chunk
insert_chunk-again path hash other i offset offset' size size' db =
    let e =
      other_chunks-again (c_str path) i db.tables.chunks (chunk_row path i other offset' size')
        (is_row-chunk_row path other i offset' size') in
    ap
      (λ (rs : List ChunkRow). record db {
        tables = record db.tables { chunks = rs ++ chunk_row path i hash offset size ∷ [] };
      })
      e

module _ (ssl : Ssl) (P : Bytes → Type 0) where
  -- In the place of the last of a file's chunks `qs ++ other ∷ []`, of which `qs` were listed in `db`.
  pub store_chunk-again :
      (env : Env) (root client path : Str) (qs : List Bytes) (p other : Bytes) (s : Storage)
      (db : Db)
      → NoCollision ssl P
      → Works env
      → All P qs
      → P p
      → s.storage_root ≡ root
      → Addressed ssl P root s.files
      → Present ssl P root s.files qs
      → Listed path (map (sha256 ssl) qs) db
      → db_of s client ≡ inserted ssl P path (pos (length qs)) other db
      → ((store_chunk env client path (pos (length qs)) p (sha256 ssl p) s).0 ≡ true)
        × Uploaded ssl P root client path
            (qs ++ p ∷ [])
            (store_chunk env client path (pos (length qs)) p (sha256 ssl p) s).1
  store_chunk-again env root client path qs p other s db sep w hq hp rooted addressed present v e =
      let i = pos (length qs) in
      let twice : inserted ssl P path i p (db_of s client) ≡ inserted ssl P path i p db =
        ap (inserted ssl P path i p) e
        ∙ insert_chunk-again path (sha256 ssl p) (sha256 ssl other) i (pos 0) (pos 0)
            (to_int32 (length p)) (to_int32 (length other)) db in
      let settled : (db_of s client).saved ≡ none =
        ap (λ (d : Db). d.saved) e ∙ unfold insert_chunk in v.settled in
      let (ok, stored, _) =
        store_chunk-Listed ssl P env root client path i qs p s sep w hq hp rooted addressed present
          settled
          (subst (Listed path (map (sha256 ssl) (qs ++ p ∷ []))) (sym twice)
            (inserted-Listed ssl P path qs p db v)) in
      (ok, stored)
