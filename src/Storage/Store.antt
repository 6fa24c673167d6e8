-- ===== src/Storage/Store.antt =====
-- Storing one chunk, step by step.
use dropbox_lite.Prelude.{
  ◌≤◌, ◌≡◌, refl, sym, ap, subst, ◌∙◌, inl, inr, Option, none, some, true, Bytes, Str, length,
  str_eq, str_eq_iff, if◌then◌else◌, arith, Bool-cases,
}
use dropbox_lite.Prelude.Dict.{Dict, get, put, get-put, get-put_self, has-get}
use dropbox_lite.Hash.{Ssl, sha256}
use dropbox_lite.Hash.Hex.{sha256_form}
use dropbox_lite.Metadata.{Db, done}
use dropbox_lite.Storage.{
  Env, Storage, is_open, db_of, or_new, with_db, get_client_db, write_chunk, has_chunk,
}
use dropbox_lite.Storage.Opening.{get_client_db-opening}
use dropbox_lite.Storage.Paths.{get_chunk_path, get_chunk_path-injective}

-- An environment in which nothing fails.
pub record Works (env : Env) : Type 0 where
  pub writes : (p : Str) → env.can_write p ≡ true
  pub opens : (c : Str) → env.db_opens c ≡ true
  pub creates : (c : Str) → env.db_created c ≡ true
  pub answers : env.rc ≡ done
  pub records : env.record_rc ≡ done

-- The database of a client is opened as it stands on disk; the files stay.
pub get_client_db-Works :
    (env : Env) (client : Str) (s : Storage)
    → Works env
    → (db_of s client).saved ≡ none
    → ((get_client_db env client s).0 ≡ true)
      × ((get_client_db env client s).1.files ≡ s.files)
      × ((get_client_db env client s).1.storage_root ≡ s.storage_root)
      × (db_of (get_client_db env client s).1 client ≡ db_of s client)
unfolding db_of
get_client_db-Works env client s w e =
    rw (get_client_db-opening env client s) (elim (Bool-cases (is_open s.client_dbs client)) [
      | inl there ↦ rw there (refl, refl, refl, refl)
      | inr new ↦
          rw (new, w.opens client, w.creates client)
            (refl, refl, refl, ap or_new (get-put_self s.dbs client _) ∙ closed)
    ])
  where
    closed :
        ◌≡◌ {A = Db}
          (record { tables = (or_new (get s.dbs client)).tables; saved = none })
          (or_new (get s.dbs client))
    closed = λ i. record { tables = (or_new (get s.dbs client)).tables; saved = sym e i }

pub db_of-with_db : (s : Storage) (client : Str) (db : Db) → db_of (with_db s client db) client ≡ db
unfolding db_of
db_of-with_db s client db = ap or_new (get-put_self s.dbs client db)

module _ (ssl : Ssl) (P : Bytes → Type 0) where
  -- The contents `P` in play: no two of them have the same hash.
  abbrev pub NoCollision : Type 0
  NoCollision = (p q : Bytes) → P p → P q → sha256 ssl p ≡ sha256 ssl q → p ≡ q

  -- What is stored under a hash has that hash.
  abbrev pub Addressed : Str → Dict Bytes → Type 0
  Addressed root files =
      (h : Str) (d : Bytes)
      → 2 ≤ length h
      → get files (get_chunk_path root h) ≡ some d
      → (h ≡ sha256 ssl d) × P d

  pub long_hash : (d : Bytes) → 2 ≤ length (sha256 ssl d)
  long_hash d = omega (arith, (sha256_form ssl d).0)

  -- Writing a chunk under its own hash leaves that content there, whether it was there before or not,
  -- and every other file as it was.
  pub write_chunk-Works :
      (env : Env) (p : Bytes) (s : Storage)
      → NoCollision
      → Works env
      → Addressed s.storage_root s.files
      → P p
      → (files : Dict Bytes) × (write_chunk env p (sha256 ssl p) s
          ≡ (true, record s { files = files }))
        × ((k : Str)
            → get files k ≡ (
                if str_eq (get_chunk_path s.storage_root (sha256 ssl p)) k
                then some p
                else get s.files k))
  unfolding write_chunk has_chunk
  write_chunk-Works env p s sep w a hp = go (get s.files path) refl
    where
      path : Str
      path = get_chunk_path s.storage_root (sha256 ssl p)

      go :
          (found : Option Bytes)
          → get s.files path ≡ found
          → (files : Dict Bytes) × (write_chunk env p (sha256 ssl p) s
              ≡ (true, record s { files = files }))
            × ((k : Str) → get files k ≡ (if str_eq path k then some p else get s.files k))
      go none e = (
        put s.files path p,
        ground (arith, has-get s.files path, w.writes path),
        λ k. get-put s.files path k p,
      )
      go (some d) e =
          let same : p ≡ d =
            sep p d hp (a (sha256 ssl p) d (long_hash p) e).1
              (a (sha256 ssl p) d (long_hash p) e).0 in
          (s.files, ground (arith, has-get s.files path), λ k. ground (arith, str_eq_iff path k))

  -- So the store stays addressed.
  pub Addressed-write :
      (root : Str) (files files' : Dict Bytes) (p : Bytes)
      → Addressed root files
      → P p
      → ((k : Str)
          → get files' k
            ≡ (if str_eq (get_chunk_path root (sha256 ssl p)) k then some p else get files k))
      → Addressed root files'
  Addressed-write root files files' p a hp law h d hl e =
      elim (Bool-cases (str_eq (get_chunk_path root (sha256 ssl p)) (get_chunk_path root h))) [
        | inl same ↦
            let eh : sha256 ssl p ≡ h =
              get_chunk_path-injective root (sha256 ssl p) h (long_hash p) hl
                ((str_eq_iff _ _).0 same) in
            let ed : p ≡ d = ground (arith, law (get_chunk_path root h)) in
            (sym eh ∙ ap (sha256 ssl) ed, subst P ed hp)
        | inr other ↦ a h d hl (ground (arith, law (get_chunk_path root h)))
      ]
