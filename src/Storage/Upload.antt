-- ===== src/Storage/Upload.antt =====
-- Storing the chunks of a file one after another, in order.
use mathlib.Core.List.{map-append}
use dropbox_lite.Prelude.{
  suc, ◌≡◌, refl, sym, ap, subst, List, [], ◌∷◌, ◌++◌, map, none, true, Bytes, Str, All, length,
}
use dropbox_lite.Prelude.Int.{ℤ, pos, to_int32}
use dropbox_lite.Hash.{Ssl, sha256}
use dropbox_lite.Hash.Hex.{sha256_form}
use dropbox_lite.Metadata.{Db}
use dropbox_lite.Storage.{Env, Storage, db_of, store_chunk}
use dropbox_lite.Storage.Store.{Works, NoCollision, Addressed}
use dropbox_lite.Storage.Listing.{c_str-hex, Listed, insert_chunk-Listed}
use dropbox_lite.Storage.Stored.{Present, inserted, store_chunk-Stored}

pub length-hashes : (f : Bytes → Str) (qs : List Bytes) → length (map f qs) ≡ length qs
length-hashes f [] = refl
length-hashes f (q ∷ qs) = ap suc (length-hashes f qs)

module _ (ssl : Ssl) (P : Bytes → Type 0) where
  -- The state after the chunks `qs` of a client's file have been stored.
  pub record Uploaded (root client path : Str) (qs : List Bytes) (s : Storage) : Type 0 where
    pub rooted : s.storage_root ≡ root
    pub addressed : Addressed ssl P root s.files
    pub present : Present ssl P root s.files qs
    pub recorded : Listed path (map (sha256 ssl) qs) (db_of s client)

  -- So it is for a file whose chunk list the insertion continues.
  pub store_chunk-Listed :
      (env : Env) (root client path : Str) (i : ℤ) (qs : List Bytes) (p : Bytes) (s : Storage)
      → NoCollision ssl P
      → Works env
      → All P qs
      → P p
      → s.storage_root ≡ root
      → Addressed ssl P root s.files
      → Present ssl P root s.files qs
      → (db_of s client).saved ≡ none
      → Listed path (map (sha256 ssl) (qs ++ p ∷ [])) (inserted ssl P path i p (db_of s client))
      → ((store_chunk env client path i p (sha256 ssl p) s).0 ≡ true)
        × Uploaded root client path
            (qs ++ p ∷ [])
            (store_chunk env client path i p (sha256 ssl p) s).1
        × (db_of (store_chunk env client path i p (sha256 ssl p) s).1 client
            ≡ inserted ssl P path i p (db_of s client))
  store_chunk-Listed env root client path i qs p s sep w hq hp rooted addressed present settled
        listed =
      let (ok, v) =
        store_chunk-Stored ssl P env root client path i qs p s (db_of s client) sep w hq hp
          (record { rooted = rooted; addressed = addressed; present = present; database = refl })
          settled in
      (
        ok,
        record {
          rooted = v.rooted;
          addressed = v.addressed;
          present = v.present;
          recorded = subst (Listed path (map (sha256 ssl) (qs ++ p ∷ []))) (sym v.database) listed;
        },
        v.database,
      )

  pub inserted-Listed :
      (path : Str) (qs : List Bytes) (p : Bytes) (db : Db)
      → Listed path (map (sha256 ssl) qs) db
      → Listed path (map (sha256 ssl) (qs ++ p ∷ [])) (inserted ssl P path (pos (length qs)) p db)
  inserted-Listed path qs p db v =
      rw (← length-hashes (sha256 ssl) qs, map-append (sha256 ssl) qs (p ∷ []))
        (insert_chunk-Listed path (sha256 ssl p) (map (sha256 ssl) qs) (to_int32 (length p)) db
          (c_str-hex (sha256 ssl p) (sha256_form ssl p).1) v).1

  -- The next chunk, sent under its own hash and with the next index, is stored: the answer is `true`,
  -- it stands under its hash beside those before it, and the file's chunk list ends with it.
  pub store_chunk-Uploaded :
      (env : Env) (root client path : Str) (qs : List Bytes) (p : Bytes) (s : Storage)
      → NoCollision ssl P
      → Works env
      → All P qs
      → P p
      → Uploaded root client path qs s
      → ((store_chunk env client path (pos (length qs)) p (sha256 ssl p) s).0 ≡ true)
        × Uploaded root client path
            (qs ++ p ∷ [])
            (store_chunk env client path (pos (length qs)) p (sha256 ssl p) s).1
  store_chunk-Uploaded env root client path qs p s sep w hq hp v =
      let (ok, stored, _) =
        store_chunk-Listed env root client path (pos (length qs)) qs p s sep w hq hp v.rooted
          v.addressed v.present v.recorded.settled
          (inserted-Listed path qs p (db_of s client) v.recorded) in
      (ok, stored)
