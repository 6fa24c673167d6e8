-- ===== src/Storage/Closed.antt =====
-- What holds of every client's database, whatever is called: a predicate that each statement keeps.
use dropbox_lite.Prelude.{
  ◌≡◌, sym, subst, List, [], ◌∷◌, none, Bool, Bytes, Str, length, str_eq, Bool-cases, inl, inr,
  if_both,
}
use dropbox_lite.Prelude.Int.{ℤ, pos, to_int32}
use dropbox_lite.Prelude.Dict.{Dict, get, put}
use dropbox_lite.Hash.{Ssl}
use dropbox_lite.Metadata.{FileRecord, Db, Rc, insert_chunk, insert_or_update_file, close}
use dropbox_lite.Metadata
use dropbox_lite.Storage.{
  Env, Storage, or_new, db_of, get_client_db, write_chunk, on_db, store_chunk, finalize_file,
  delete_file, list_files, get_file_metadata,
}
use dropbox_lite.Storage.Isolation.{
  db_of-put, opened_db, get_client_db_either, write_chunk-dbs, db_of-dbs, finalize_file_either,
}
use dropbox_lite.Storage.Restart.{close_all, restart, service, create, initialize}

-- It holds of an opened and of a closed database, and after each statement, however that ends.
pub record IsClosed {ℓ} (Q : Db → Type ℓ) : Type ℓ where
  pub opened : (d : Db) → Q d → Q (record { tables = d.tables; saved = none })
  pub closed : (d : Db) → Q d → Q (close d)
  pub chunk :
      (rc : Rc) (path hash : Str) (index offset size : ℤ) (d : Db)
      → Q d
      → Q (insert_chunk rc path index hash offset size d).1
  pub file : (rc : Rc) (r : FileRecord) (d : Db) → Q d → Q (insert_or_update_file rc r d).1
  pub removal : (rc : Rc) (path : Str) (d : Db) → Q d → Q (Metadata.delete_file rc path d).1

module _ {ℓ} (Q : Db → Type ℓ) (k : IsClosed Q) where
  abbrev pub Everywhere : Storage → Type ℓ
  Everywhere s = (c : Str) → Q (db_of s c)

  replaced :
      (client : Str) (db : Db) (open_ones : List Str) (s : Storage)
      → Q db
      → Everywhere s
      → Everywhere (record s { dbs = put s.dbs client db; client_dbs = open_ones })
  replaced client db open_ones s q h c = elim (Bool-cases (str_eq client c)) [
    | inl same ↦ rw (db_of-put s client c db open_ones, same) q
    | inr other ↦ rw (db_of-put s client c db open_ones, other) (h c)
  ]

  unmoved : (s t : Storage) → t.dbs ≡ s.dbs → Everywhere s → Everywhere t
  unmoved s t e h c = subst Q (sym (db_of-dbs t s c e)) (h c)

  pub get_client_db-Everywhere :
      (env : Env) (client : Str) (s : Storage)
      → Everywhere s
      → Everywhere (get_client_db env client s).1
  unfolding opened_db
  get_client_db-Everywhere env client s h = get_client_db_either Everywhere env client s h (
      replaced client (record { tables = (db_of s client).tables; saved = none })
        (client ∷ s.client_dbs) s (k.opened (db_of s client) (h client)) h)

  on_db-Everywhere :
      (client : Str) (f : Db → Bool × Db) (s : Storage)
      → ((d : Db) → Q d → Q (f d).1)
      → Everywhere s
      → Everywhere (on_db client f s).1
  unfolding on_db
  on_db-Everywhere client f s keeps h =
      replaced client (f (db_of s client)).1 s.client_dbs s (keeps (db_of s client) (h client)) h

  pub store_chunk-Everywhere :
      (env : Env) (client path : Str) (i : ℤ) (d : Bytes) (hash : Str) (s : Storage)
      → Everywhere s
      → Everywhere (store_chunk env client path i d hash s).1
  unfolding store_chunk
  store_chunk-Everywhere env client path i d hash s h =
      let P = λ (r : Bool × Storage). Everywhere r.1 in
      let s1 = (write_chunk env d hash s).1 in
      let h1 = unmoved s s1 (write_chunk-dbs env d hash s) h in
      let h2 = get_client_db-Everywhere env client s1 h1 in
      let size = to_int32 (length d) in
      if_both P (write_chunk env d hash s).0
        (if_both P (get_client_db env client s1).0
          (on_db-Everywhere client (insert_chunk env.rc path i hash (pos 0) size)
            (get_client_db env client s1).1 (k.chunk env.rc path hash i (pos 0) size) h2)
          h2)
        h1

  pub finalize_file-Everywhere :
      (ssl : Ssl) (env : Env) (client path : Str) (total : ℤ) (s : Storage)
      → Everywhere s
      → Everywhere (finalize_file ssl env client path total s).1
  finalize_file-Everywhere ssl env client path total s h =
      let s1 = (get_client_db env client s).1 in
      let h1 = get_client_db-Everywhere env client s h in
      finalize_file_either ssl (λ r. Everywhere r.1) env client path total s
        (λ t e. unmoved s1 t e h1)
        (λ t r named timed e.
          on_db-Everywhere client (insert_or_update_file env.record_rc r) t (k.file env.record_rc r)
            (unmoved s1 t e h1))

  pub delete_file-Everywhere :
      (env : Env) (client path : Str) (s : Storage)
      → Everywhere s
      → Everywhere (delete_file env client path s).1
  unfolding delete_file
  delete_file-Everywhere env client path s h =
      let h1 = get_client_db-Everywhere env client s h in
      if_both (λ (r : Bool × Storage). Everywhere r.1) (get_client_db env client s).0
        (on_db-Everywhere client (Metadata.delete_file env.rc path) (get_client_db env client s).1
          (k.removal env.rc path) h1)
        h1

  pub list_files-Everywhere :
      (env : Env) (client : Str) (s : Storage)
      → Everywhere s
      → Everywhere (list_files env client s).1
  unfolding list_files
  list_files-Everywhere env client s h = get_client_db-Everywhere env client s h

  pub get_file_metadata-Everywhere :
      (env : Env) (client path : Str) (s : Storage)
      → Everywhere s
      → Everywhere (get_file_metadata env client path s).1
  unfolding get_file_metadata
  get_file_metadata-Everywhere env client path s h = get_client_db-Everywhere env client s h

  closed_at :
      (dbs : Dict Db) (c : Str) → Q (or_new (get dbs c)) → Q (or_new (get (close_all dbs) c))
  unfolding close_all get
  closed_at [] c q = q
  closed_at ((n, d) ∷ dbs) c q = elim (Bool-cases (str_eq n c)) [
    | inl same ↦ let q' : Q d = rw same at q in rw same (k.closed d q')
    | inr other ↦
        let rest : Q (or_new (get dbs c)) = rw other at q in rw other (closed_at dbs c rest)
  ]

  pub restart-Everywhere : (s : Storage) → Everywhere s → Everywhere (restart s)
  unfolding restart service initialize create db_of
  restart-Everywhere s h c = closed_at s.dbs c (h c)
