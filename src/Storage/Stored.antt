-- ===== src/Storage/Stored.antt =====
-- Storing one chunk under its own hash.
use dropbox_lite.Prelude.{
  ◌≡◌, refl, sym, ap, subst, ◌∙◌, inl, inr, List, [], ◌∷◌, ◌++◌, none, some, Bool, true, Bytes, Str,
  All, All-append, length, str_eq, str_eq_iff, str_eq_self, if◌then◌else◌, arith, Bool-cases,
}
use dropbox_lite.Prelude.Int.{ℤ, pos, to_int32}
use dropbox_lite.Prelude.Dict.{Dict, get}
use dropbox_lite.Hash.{Ssl, sha256}
use dropbox_lite.Metadata.{Db, done, insert_chunk}
use dropbox_lite.Storage.{Env, Storage, db_of, get_client_db, write_chunk, on_db, store_chunk}
use dropbox_lite.Storage.Paths.{get_chunk_path, get_chunk_path-injective}
use dropbox_lite.Storage.Store.{
  Works, get_client_db-Works, db_of-with_db, NoCollision, Addressed, long_hash, write_chunk-Works,
  Addressed-write,
}

-- The steps of `storeChunk` where nothing fails.
store_chunk-through :
    (env : Env) (client path : Str) (i : ℤ) (bytes : Bytes) (hash : Str) (s s1 : Storage)
    → write_chunk env bytes hash s ≡ (true, s1)
    → (get_client_db env client s1).0 ≡ true
    → store_chunk env client path i bytes hash s
      ≡ on_db client
          (insert_chunk env.rc path i hash (pos 0) (to_int32 (length bytes)))
          (get_client_db env client s1).1
unfolding store_chunk
store_chunk-through env client path i bytes hash s s1 e e' = ground arith

pub db_of-files :
    (s : Storage) (files : Dict Bytes) (client : Str)
    → db_of (record s { files = files }) client ≡ db_of s client
unfolding db_of
db_of-files s files client = refl

module _ (ssl : Ssl) (P : Bytes → Type 0) where
  -- Every one of these contents stands under its hash.
  abbrev pub Present : Str → Dict Bytes → List Bytes → Type 0
  Present root files = All (λ q. get files (get_chunk_path root (sha256 ssl q)) ≡ some q)

  -- A database with this chunk inserted.
  abbrev pub inserted : Str → ℤ → Bytes → Db → Db
  inserted path i p db =
      (insert_chunk done path i (sha256 ssl p) (pos 0) (to_int32 (length p)) db).1

  pub Present-write :
      (root : Str) (files files' : Dict Bytes) (p : Bytes) (qs : List Bytes)
      → NoCollision ssl P
      → P p
      → All P qs
      → ((k : Str)
          → get files' k
            ≡ (if str_eq (get_chunk_path root (sha256 ssl p)) k then some p else get files k))
      → Present root files qs
      → Present root files' qs
  Present-write root files files' p [] sep hp hq law a = tt
  Present-write root files files' p (q ∷ qs) sep hp hq law a = (
    elim (Bool-cases
        (str_eq (get_chunk_path root (sha256 ssl p)) (get_chunk_path root (sha256 ssl q)))) [
          | inl same ↦
              let e : p ≡ q = sep p q hp hq.0 (
                get_chunk_path-injective root (sha256 ssl p) (sha256 ssl q) (long_hash ssl P p)
                  (long_hash ssl P q) ((str_eq_iff _ _).0 same)) in
              ground (arith, law (get_chunk_path root (sha256 ssl q)))
          | inr other ↦ ground (arith, law (get_chunk_path root (sha256 ssl q)))
        ],
    Present-write root files files' p qs sep hp hq.1 law a.1,
  )

  -- The state after the contents `qs` have been stored for whatever files, with a client's database.
  pub record Stored (root client : Str) (qs : List Bytes) (db : Db) (s : Storage) : Type 0 where
    pub rooted : s.storage_root ≡ root
    pub addressed : Addressed ssl P root s.files
    pub present : Present root s.files qs
    pub database : db_of s client ≡ db

  -- The last step, over any statement.
  on_db-Stored :
      (root client : Str) (qs : List Bytes) (f : Db → Bool × Db) (s : Storage) (files : Dict Bytes)
      (db : Db)
      → s.files ≡ files
      → s.storage_root ≡ root
      → db_of s client ≡ db
      → Addressed ssl P root files
      → Present root files qs
      → (f db).0 ≡ true
      → ((on_db client f s).0 ≡ true) × Stored root client qs (f db).1 (on_db client f s).1
  unfolding on_db
  on_db-Stored root client qs f s files db ef er ed a h ok = (
    ap (λ (d : Db). (f d).0) ed ∙ ok,
    record {
      rooted = er;
      addressed = subst (Addressed ssl P root) (sym ef) a;
      present = subst (λ t. Present root t qs) (sym ef) h;
      database = db_of-with_db s client (f (db_of s client)).1 ∙ ap (λ (d : Db). (f d).1) ed;
    },
  )

  -- A chunk under its own hash, for whichever file and with whatever index: the answer is `true`, it stands
  -- under its hash beside those before it, and the database is as the insertion leaves it.
  pub store_chunk-Stored :
      (env : Env) (root client path : Str) (i : ℤ) (qs : List Bytes) (p : Bytes) (s : Storage)
      (db : Db)
      → NoCollision ssl P
      → Works env
      → All P qs
      → P p
      → Stored root client qs db s
      → db.saved ≡ none
      → ((store_chunk env client path i p (sha256 ssl p) s).0 ≡ true)
        × Stored root client
            (qs ++ p ∷ [])
            (inserted path i p db)
            (store_chunk env client path i p (sha256 ssl p) s).1
  store_chunk-Stored env root client path i qs p s db sep w hq hp v settled =
      let here = subst (λ r. Addressed ssl P r s.files) (sym v.rooted) v.addressed in
      let (files, wrote, law) = write_chunk-Works ssl P env p s sep w here hp in
      let s1 = record s { files = files } in
      let e1 = db_of-files s files client ∙ v.database in
      let (opened, files2, root2, db2) =
        get_client_db-Works env client s1 w (ap (λ (d : Db). d.saved) e1 ∙ settled) in
      let law' = subst (λ r. Law r files) v.rooted law in
      let s2 = (get_client_db env client s1).1 in
      let same : (insert db).1 ≡ inserted path i p db = rw w.answers refl in
      let (ok, stored) =
        on_db-Stored root client (qs ++ p ∷ []) insert s2 files db files2 (root2 ∙ v.rooted)
          (db2 ∙ e1) (Addressed-write ssl P root s.files files p v.addressed hp law')
          (All-append _ qs (p ∷ []) (Present-write root s.files files p qs sep hp hq law' v.present)
            (
              ground (
                arith,
                law' (get_chunk_path root (sha256 ssl p)),
                str_eq_self (get_chunk_path root (sha256 ssl p)),
              ),
              tt,
            ))
          (rw w.answers (unfold insert_chunk in refl)) in
      subst Done (sym (store_chunk-through env client path i p (sha256 ssl p) s s1 wrote opened)) (
        ok,
        subst (λ (d : Db). Stored root client (qs ++ p ∷ []) d (on_db client insert s2).1) same
            stored,
      )
    where
      Law : Str → Dict Bytes → Type 0
      Law r files =
          (k : Str)
          → get files k
            ≡ (if str_eq (get_chunk_path r (sha256 ssl p)) k then some p else get s.files k)

      Done : Bool × Storage → Type 0
      Done r = (r.0 ≡ true) × Stored root client (qs ++ p ∷ []) (inserted path i p db) r.1

      insert : Db → Bool × Db
      insert = insert_chunk env.rc path i (sha256 ssl p) (pos 0) (to_int32 (length p))
