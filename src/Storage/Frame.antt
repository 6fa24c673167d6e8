-- ===== src/Storage/Frame.antt =====
-- What the calls made for one file leave of another file's upload, of the same client or of another.
use dropbox_lite.Prelude.{
  ◌≡◌, ◌≢◌, sym, ap, subst, ◌∙◌, List, [], ◌∷◌, map, Bool, true, Bytes, Str, All, length, arith,
  str_eq_iff,
}
use dropbox_lite.Prelude.Int.{ℤ, pos}
use dropbox_lite.Prelude.Dict.{Dict, get}
use dropbox_lite.Hash.{Ssl, sha256}
use dropbox_lite.Metadata.{ChunkRow, c_str, order_rows, get_file_chunks}
use dropbox_lite.Storage.{Env, Storage, db_of, store_chunk, finalize_file}
use dropbox_lite.Storage.Paths.{
  NoSlash, get_chunk_path, get_temp_file_path, get_chunk_path-ne-temp, get_temp_file_path-injective,
  get_temp_file_path-cancel,
}
use dropbox_lite.Storage.Store.{Works, NoCollision, Addressed, write_chunk-Works, Addressed-write}
use dropbox_lite.Storage.Upload.{Uploaded}
use dropbox_lite.Storage.Stored.{Present, Present-write}
use dropbox_lite.Storage.Finalize.{Finalized}
use dropbox_lite.Storage.Neighbours.{Apart, IsKept, store_chunk-IsKept, finalize_file-IsKept}
use dropbox_lite.Metadata.Chunks.{Before}
use dropbox_lite.Storage.Elsewhere.{store_chunk-write, finalize_file-Elsewhere}

module _ (ssl : Ssl) (P : Bytes → Type 0) where
  -- What the upload of the other file goes by is as it was.
  pub record Unseen (root client path : Str) (s r : Storage) : Type 0 where
    pub rooted : r.storage_root ≡ s.storage_root
    pub addressed : Addressed ssl P root r.files
    pub kept :
        (qs : List Bytes) → All P qs → Present ssl P root s.files qs → Present ssl P root r.files qs
    pub copy :
        get r.files (get_temp_file_path root client path)
        ≡ get s.files (get_temp_file_path root client path)
    pub listed : IsKept path (db_of s client) (db_of r client)

  pub Uploaded-Unseen :
      (root client path : Str) (qs : List Bytes) (s r : Storage)
      → All P qs
      → Unseen root client path s r
      → Uploaded ssl P root client path qs s
      → Uploaded ssl P root client path qs r
  Uploaded-Unseen root client path qs s r hq u v = record {
    rooted = u.rooted ∙ v.rooted;
    addressed = u.addressed;
    present = u.kept qs hq v.present;
    recorded = record {
      listed =
          unfold get_file_chunks in
          ap (λ t. map (λ (x : ChunkRow). x.hash) (order_rows t)) u.listed.rows ∙ v.recorded.listed;
      before =
          subst (Before (pos (length (map (sha256 ssl) qs)))) (sym u.listed.rows) v.recorded.before;
      settled = u.listed.settles v.recorded.settled;
    };
  }

  pub Finalized-Unseen :
      (root client path : Str) (content : Bytes) (s r : Storage)
      → Unseen root client path s r
      → Finalized ssl P (get_temp_file_path root client path) client path content (true, s)
      → Finalized ssl P (get_temp_file_path root client path) client path content (true, r)
  Finalized-Unseen root client path content s r u (ok, copy, (f, found, h)) =
      (ok, u.copy ∙ copy, (f, u.listed.row ∙ found, h))

  -- A chunk of another file, stored under its own hash.
  pub store_chunk-Unseen :
      (env : Env) (root client path c q : Str) (i : ℤ) (p : Bytes) (s : Storage)
      → NoCollision ssl P
      → Works env
      → P p
      → s.storage_root ≡ root
      → Addressed ssl P root s.files
      → Apart c q client path
      → Unseen root client path s (store_chunk env c q i p (sha256 ssl p) s).1
  store_chunk-Unseen env root client path c q i p s sep w hp er a ne =
      let t = store_chunk env c q i p (sha256 ssl p) s in
      subst (λ (r : Str). Unseen r client path s t.1) er
        (stored (subst (λ (r : Str). Addressed ssl P r s.files) (sym er) a))
    where
      stored :
          Addressed ssl P s.storage_root s.files
          → Unseen s.storage_root client path s (store_chunk env c q i p (sha256 ssl p) s).1
      stored a' =
          let root' = s.storage_root in
          let (files, wrote, law) = write_chunk-Works ssl P env p s sep w a' hp in
          let (files', roots) = store_chunk-write env c q i p (sha256 ssl p) s in
          let same = files' ∙ ap (λ (t : Bool × Storage). t.1.files) wrote in
          let temp = get_temp_file_path root' client path in
          record {
            rooted = roots ∙ ap (λ (t : Bool × Storage). t.1.storage_root) wrote;
            addressed =
                subst (Addressed ssl P root') (sym same)
                  (Addressed-write ssl P root' s.files files p a' hp law);
            kept = λ qs hq h.
                subst (λ (t : Dict Bytes). Present ssl P root' t qs) (sym same)
                  (Present-write ssl P root' s.files files p qs sep hp hq law h);
            copy =
                ap (λ (t : Dict Bytes). get t temp) same
                ∙ ground (
                  arith,
                  law temp,
                  str_eq_iff (get_chunk_path root' (sha256 ssl p)) temp,
                  get_chunk_path-ne-temp root' (sha256 ssl p) client path,
                );
            listed = store_chunk-IsKept env c q client path i p (sha256 ssl p) s ne;
          }

  get_temp_file_path-Apart :
      (root c q client path : Str)
      → NoSlash client
      → NoSlash c
      → Apart c q client path
      → get_temp_file_path root client path ≢ get_temp_file_path root c q
  get_temp_file_path-Apart root c q client path hn hc ne e =
      let same : client ≡ c = get_temp_file_path-injective root client c path q hn hc e in
      let alike : path ≡ q =
        get_temp_file_path-cancel root client path q
          (e ∙ ap (λ (n : Str). get_temp_file_path root n q) (sym same)) in
      absurd (
        ground (
          arith,
          ne,
          str_eq_iff c client,
          str_eq_iff (c_str q) (c_str path),
          sym same,
          ap c_str (sym alike),
        ))

  Present-Elsewhere :
      (root c q : Str) (s t : Storage) (qs : List Bytes)
      → ((k : Str) → k ≢ get_temp_file_path root c q → get t.files k ≡ get s.files k)
      → Present ssl P root s.files qs
      → Present ssl P root t.files qs
  Present-Elsewhere root c q s t [] files h = tt
  Present-Elsewhere root c q s t (p ∷ qs) files h = (
    files (get_chunk_path root (sha256 ssl p)) (get_chunk_path-ne-temp root (sha256 ssl p) c q)
        ∙ h.0,
    Present-Elsewhere root c q s t qs files h.1,
  )

  -- Another file, put together or not.
  pub finalize_file-Unseen :
      (env : Env) (root client path c q : Str) (total : ℤ) (s : Storage)
      → s.storage_root ≡ root
      → Addressed ssl P root s.files
      → NoSlash client
      → NoSlash c
      → Apart c q client path
      → Unseen root client path s (finalize_file ssl env c q total s).1
  finalize_file-Unseen env root client path c q total s er a hn hc ne =
      let t = finalize_file ssl env c q total s in
      subst (λ (r : Str). Unseen r client path s t.1) er
        (finalized (subst (λ (r : Str). Addressed ssl P r s.files) (sym er) a))
    where
      finalized :
          Addressed ssl P s.storage_root s.files
          → Unseen s.storage_root client path s (finalize_file ssl env c q total s).1
      finalized a' =
          let root' = s.storage_root in
          let t = (finalize_file ssl env c q total s).1 in
          let (roots, files) = finalize_file-Elsewhere ssl env c q total s in
          record {
            rooted = roots;
            addressed = λ h d long e.
                a' h d long
                  (sym (files (get_chunk_path root' h) (get_chunk_path-ne-temp root' h c q)) ∙ e);
            kept = λ qs hq h. Present-Elsewhere root' c q s t qs files h;
            copy =
                files (get_temp_file_path root' client path)
                  (get_temp_file_path-Apart root' c q client path hn hc ne);
            listed = finalize_file-IsKept ssl env c q client path total s ne;
          }
