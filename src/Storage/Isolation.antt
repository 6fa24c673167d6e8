-- ===== src/Storage/Isolation.antt =====
-- What a call on behalf of one client leaves alone: the other clients' databases.
use dropbox_lite.Prelude.{
  ◌≡◌, refl, ap, ◌∙◌, List, [], ◌∷◌, ◌++◌, none, Bool, false, ◌&&◌, Bytes, Str, arith, length, ◌==◌,
  str_eq, str_eq_iff, if◌then◌else◌, Bool-cases, inl, inr, if_both,
}
use dropbox_lite.Prelude.Int.{ℤ, pos, to_size, to_int32}
use dropbox_lite.Prelude.Dict.{Dict, get, put, get-put}
use dropbox_lite.Hash.{Ssl}
use dropbox_lite.Metadata.{
  FileRecord, Db, Tables, Rc, write, prepare_failed, step_failed, done, insert_chunk,
  insert_or_update_file, get_file_chunks,
}
use dropbox_lite.Metadata
use dropbox_lite.Storage.{
  Env, Storage, is_open, or_new, db_of, get_client_db, write_chunk, on_db, store_chunk, assemble,
  file_record, get_chunk, or_nothing, finalize_file, delete_file,
}
use dropbox_lite.Storage.Opening.{get_client_db-opening}
use dropbox_lite.Storage.Paths.{get_temp_file_path}

pub db_of-put :
    (s : Storage) (client c : Str) (db : Db) (open_ones : List Str)
    → db_of (record s { dbs = put s.dbs client db; client_dbs = open_ones }) c
      ≡ (if str_eq client c then db else db_of s c)
unfolding db_of
db_of-put s client c db open_ones = elim (Bool-cases (str_eq client c)) [
  | inl same ↦ rw (get-put s.dbs client c db, same)
  | inr other ↦ rw (get-put s.dbs client c db, other)
]

unfoldable pub opened_db : Str → Storage → Storage
opened_db client s = record s {
  dbs = put s.dbs client (record { tables = (db_of s client).tables; saved = none });
  client_dbs = client ∷ s.client_dbs;
}

-- A call opens the database, or changes nothing.
pub get_client_db_either {κ} :
    (P : Storage → Type κ) (env : Env) (client : Str) (s : Storage)
    → P s
    → P (opened_db client s)
    → P (get_client_db env client s).1
unfolding opened_db db_of
get_client_db_either P env client s h k = rw (get_client_db-opening env client s) (
    if_both (λ (r : Bool × Storage). P r.1) (is_open s.client_dbs client) h
      (if_both (λ (r : Bool × Storage). P r.1) (env.db_opens client && env.db_created client) k h))

-- Opening a database shows no one other tables.
pub get_client_db-tables :
    (env : Env) (client c : Str) (s : Storage)
    → (db_of (get_client_db env client s).1 c).tables ≡ (db_of s c).tables
unfolding opened_db
get_client_db-tables env client c s =
    get_client_db_either (λ r. (db_of r c).tables ≡ (db_of s c).tables) env client s refl
      (elim (Bool-cases (str_eq client c)) [
        | inl same ↦
            let e : client ≡ c = (str_eq_iff client c).0 same in
            rw
              (
                db_of-put s client c (record { tables = (db_of s client).tables; saved = none })
                    (client ∷ s.client_dbs),
                same,
              )
              (ap (λ (n : Str). (db_of s n).tables) e)
        | inr other ↦ rw (
          db_of-put s client c (record { tables = (db_of s client).tables; saved = none })
              (client ∷ s.client_dbs),
          other,
        )
      ])

pub get_client_db-other :
    (env : Env) (client c : Str) (s : Storage)
    → str_eq client c ≡ false
    → db_of (get_client_db env client s).1 c ≡ db_of s c
unfolding opened_db
get_client_db-other env client c s ne =
    get_client_db_either (λ r. db_of r c ≡ db_of s c) env client s refl
      (rw (
        db_of-put s client c (record { tables = (db_of s client).tables; saved = none })
            (client ∷ s.client_dbs),
        ne,
      ))

on_db-other :
    (client c : Str) (f : Db → Bool × Db) (s : Storage)
    → str_eq client c ≡ false
    → db_of (on_db client f s).1 c ≡ db_of s c
unfolding on_db
on_db-other client c f s ne = rw (db_of-put s client c (f (db_of s client)).1 s.client_dbs, ne)

pub write_chunk-dbs :
    (env : Env) (d : Bytes) (h : Str) (s : Storage) → (write_chunk env d h s).1.dbs ≡ s.dbs
unfolding write_chunk
write_chunk-dbs env d h s = ground arith

assemble-dbs : (temp : Str) (hs : List Str) (s : Storage) → (assemble temp hs s).1.dbs ≡ s.dbs
unfolding assemble
assemble-dbs temp [] s = refl
assemble-dbs temp (h ∷ hs) s =
    if_both (λ (r : Bool × Storage). r.1.dbs ≡ s.dbs) (length (get_chunk h s) == 0) refl
      (assemble-dbs temp hs
        (record s { files = put s.files temp (or_nothing (get s.files temp) ++ get_chunk h s) }))

-- Databases are read from the map of databases alone.
pub db_of-dbs : (s t : Storage) (c : Str) → s.dbs ≡ t.dbs → db_of s c ≡ db_of t c
unfolding db_of
db_of-dbs s t c e = ap (λ (m : Dict Db). or_new (get m c)) e

store_chunk-other :
    (env : Env) (client c path : Str) (i : ℤ) (d : Bytes) (h : Str) (s : Storage)
    → str_eq client c ≡ false
    → db_of (store_chunk env client path i d h s).1 c ≡ db_of s c
unfolding store_chunk
store_chunk-other env client c path i d h s ne =
    let s1 = (write_chunk env d h s).1 in
    let e1 = db_of-dbs s1 s c (write_chunk-dbs env d h s) in
    let s2 = (get_client_db env client s1).1 in
    let e2 = get_client_db-other env client c s1 ne ∙ e1 in
    let insert = insert_chunk env.rc path i h (pos 0) (to_int32 (length d)) in
    if_both (λ (r : Bool × Storage). db_of r.1 c ≡ db_of s c) (write_chunk env d h s).0
      (if_both (λ (r : Bool × Storage). db_of r.1 c ≡ db_of s c) (get_client_db env client s1).0
        (on_db-other client c insert s2 ne ∙ e2) e2)
      e1

-- How `finalizeFile` ends: by `false` with the databases as the opening left them, or by writing a record.
pub finalize_file_either {κ} :
    (ssl : Ssl) (P : Bool × Storage → Type κ) (env : Env) (client path : Str) (total : ℤ)
    (s : Storage)
    → ((t : Storage) → t.dbs ≡ (get_client_db env client s).1.dbs → P (false, t))
    → ((t : Storage) (r : FileRecord)
        → r.path ≡ path
        → r.modified_time ≡ env.now
        → t.dbs ≡ (get_client_db env client s).1.dbs
        → P (on_db client (insert_or_update_file env.record_rc r) t))
    → P (finalize_file ssl env client path total s)
unfolding finalize_file
finalize_file_either ssl P env client path total s failed recorded =
    let s1 = (get_client_db env client s).1 in
    let hashes = get_file_chunks env.rc path (db_of s1 client) in
    let temp = get_temp_file_path s1.storage_root client path in
    let s2 = (assemble temp hashes (record s1 { files = put s1.files temp [] })).1 in
    let e = assemble-dbs temp hashes (record s1 { files = put s1.files temp [] }) in
    if_both P (get_client_db env client s).0
      (if_both P (length hashes == to_size total)
        (if_both P (env.can_write temp)
          (if_both P (assemble temp hashes (record s1 { files = put s1.files temp [] })).0
            (recorded s2 (file_record ssl env path (get s2.files temp)) (unfold file_record in refl)
              (unfold file_record in refl) e)
            (failed s2 e))
          (failed s1 refl))
        (failed s1 refl))
      (failed s1 refl)

delete_file-other :
    (env : Env) (client c path : Str) (s : Storage)
    → str_eq client c ≡ false
    → db_of (delete_file env client path s).1 c ≡ db_of s c
unfolding delete_file
delete_file-other env client c path s ne =
    let e = get_client_db-other env client c s ne in
    if_both (λ (r : Bool × Storage). db_of r.1 c ≡ db_of s c) (get_client_db env client s).0
      (on_db-other client c (Metadata.delete_file env.rc path) (get_client_db env client s).1 ne
        ∙ e)
      e

-- Storing a chunk, finalizing a file and deleting one for a client leave the database of every other client
-- as it was, whatever fails.
pub client_dbs_isolated :
    (ssl : Ssl) (env : Env) (client c path hash : Str) (i total : ℤ) (d : Bytes) (s : Storage)
    → str_eq client c ≡ false
    → (db_of (store_chunk env client path i d hash s).1 c ≡ db_of s c)
      × (db_of (finalize_file ssl env client path total s).1 c ≡ db_of s c)
      × (db_of (delete_file env client path s).1 c ≡ db_of s c)
client_dbs_isolated ssl env client c path hash i total d s ne =
    let e = get_client_db-other env client c s ne in
    (
      store_chunk-other env client c path i d hash s ne,
      finalize_file_either ssl (λ r. db_of r.1 c ≡ db_of s c) env client path total s
          (λ t h. db_of-dbs t (get_client_db env client s).1 c h ∙ e)
          (λ t r named timed h.
            on_db-other client c (insert_or_update_file env.record_rc r) t ne
            ∙ (db_of-dbs t (get_client_db env client s).1 c h ∙ e)),
      delete_file-other env client c path s ne,
    )
