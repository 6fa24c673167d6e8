-- ===== src/Storage/Records.antt =====
-- Which calls change the records of files.
use dropbox_lite.Prelude.{
  ◌≡◌, refl, sym, ap, subst, ◌∙◌, some, Bool, true, false, Bytes, Str, length, str_eq, str_eq_iff,
  str_eq_self, Bool-cases, inl, inr, if_both, arith,
}
use dropbox_lite.Prelude.Int.{ℤ, pos, to_int32}
use dropbox_lite.Hash.{Ssl}
use dropbox_lite.Metadata.{
  FileRecord, Db, Tables, Rc, write, prepare_failed, step_failed, done, insert_chunk,
  insert_or_update_file, get_file, c_str, bound,
}
use dropbox_lite.Metadata.Files.{get_file-insert}
use dropbox_lite.Storage.Store.{db_of-with_db}
use dropbox_lite.Storage.{
  Env, Storage, db_of, get_client_db, write_chunk, on_db, store_chunk, finalize_file,
}
use dropbox_lite.Storage.Isolation.{
  db_of-put, write_chunk-dbs, db_of-dbs, finalize_file_either, get_client_db-tables,
}

write_failed :
    (rc : Rc) (f : Tables → Tables) (db : Db) → (write rc f db).0 ≡ false → (write rc f db).1 ≡ db
write_failed prepare_failed f db h = refl
write_failed (step_failed n) f db h = refl
write_failed done f db h = cc

insert_failed :
    (rc : Rc) (r : FileRecord) (db : Db)
    → (insert_or_update_file rc r db).0 ≡ false
    → (insert_or_update_file rc r db).1 ≡ db
unfolding insert_or_update_file
insert_failed rc r db h = write_failed rc _ db h

on_db-tables :
    (client c : Str) (f : Db → Bool × Db) (s : Storage)
    → (f (db_of s client)).1.tables.files ≡ (db_of s client).tables.files
    → (db_of (on_db client f s).1 c).tables.files ≡ (db_of s c).tables.files
unfolding on_db
on_db-tables client c f s h = elim (Bool-cases (str_eq client c)) [
  | inl same ↦
      rw (db_of-put s client c (f (db_of s client)).1 s.client_dbs, same)
        (h ∙ ap (λ (n : Str). (db_of s n).tables.files) ((str_eq_iff client c).0 same))
  | inr other ↦ rw (db_of-put s client c (f (db_of s client)).1 s.client_dbs, other)
]

insert_chunk-files :
    (rc : Rc) (path : Str) (i : ℤ) (h : Str) (o n : ℤ) (db : Db)
    → (insert_chunk rc path i h o n db).1.tables.files ≡ db.tables.files
unfolding insert_chunk
insert_chunk-files prepare_failed path i h o n db = refl
insert_chunk-files (step_failed k) path i h o n db = refl
insert_chunk-files done path i h o n db = refl

opened-files :
    (env : Env) (client c : Str) (s t : Storage)
    → t.dbs ≡ (get_client_db env client s).1.dbs
    → (db_of t c).tables.files ≡ (db_of s c).tables.files
opened-files env client c s t e =
    ap (λ (d : Db). d.tables.files) (db_of-dbs t (get_client_db env client s).1 c e)
    ∙ ap (λ (t : Tables). t.files) (get_client_db-tables env client c s)

-- Storing a chunk changes no record of a file.
pub store_chunk-files :
    (env : Env) (client c path : Str) (i : ℤ) (d : Bytes) (h : Str) (s : Storage)
    → (db_of (store_chunk env client path i d h s).1 c).tables.files ≡ (db_of s c).tables.files
unfolding store_chunk
store_chunk-files env client c path i d h s =
    let s1 = (write_chunk env d h s).1 in
    let s2 = (get_client_db env client s1).1 in
    let e1 = ap (λ (d : Db). d.tables.files) (db_of-dbs s1 s c (write_chunk-dbs env d h s)) in
    let e2 = opened-files env client c s1 s2 refl ∙ e1 in
    let insert = insert_chunk env.rc path i h (pos 0) (to_int32 (length d)) in
    let P = λ (r : Bool × Storage). (db_of r.1 c).tables.files ≡ (db_of s c).tables.files in
    if_both P (write_chunk env d h s).0
      (if_both P (get_client_db env client s1).0
        (on_db-tables client c insert s2
            (insert_chunk-files env.rc path i h (pos 0) (to_int32 (length d)) (db_of s2 client))
          ∙ e2)
        e2)
      e1

-- The record that a call of `finalizeFile` has written carries the time of the call.
pub finalize_file-time :
    (ssl : Ssl) (env : Env) (client path : Str) (total : ℤ) (s : Storage) (f : FileRecord)
    → env.record_rc ≡ done
    → (finalize_file ssl env client path total s).0 ≡ true
    → get_file done path (db_of (finalize_file ssl env client path total s).1 client) ≡ some f
    → f.modified_time ≡ env.now
finalize_file-time ssl env client path total s f answers =
    finalize_file_either ssl
      (λ r. r.0 ≡ true → get_file done path (db_of r.1 client) ≡ some f → f.modified_time ≡ env.now)
      env client path total s (λ t e h. absurd (ground arith))
      (λ t r named timed e h found.
        written t r named (
          subst
            (λ (rc : Rc).
              get_file done path (db_of (on_db client (insert_or_update_file rc r) t).1 client)
              ≡ some f)
            answers found)
        ∙ timed)
  where
    written :
        (t : Storage) (r : FileRecord)
        → r.path ≡ path
        → get_file done path (db_of (on_db client (insert_or_update_file done r) t).1 client)
          ≡ some f
        → f.modified_time ≡ r.modified_time
    written t r named found =
        let db = (insert_or_update_file done r (db_of t client)).1 in
        let reads : db_of (on_db client (insert_or_update_file done r) t).1 client ≡ db =
          unfold on_db in db_of-with_db t client db in
        let row : get_file done path db ≡ some (bound r) =
          get_file-insert r path (db_of t client) ∙ rw (named, str_eq_self (c_str path)) refl in
        let same : some f ≡ some (bound r) = sym found ∙ (ap (get_file done path) reads ∙ row) in
        let one : f ≡ bound r = cc in
        ap (λ (x : FileRecord). x.modified_time) one ∙ (unfold bound in refl)

-- A call of `finalizeFile` that answers `false` changes no record of a file.
pub finalize_file-files :
    (ssl : Ssl) (env : Env) (client c path : Str) (total : ℤ) (s : Storage)
    → (finalize_file ssl env client path total s).0 ≡ false
    → (db_of (finalize_file ssl env client path total s).1 c).tables.files
      ≡ (db_of s c).tables.files
finalize_file-files ssl env client c path total s =
    finalize_file_either ssl
      (λ r. r.0 ≡ false → (db_of r.1 c).tables.files ≡ (db_of s c).tables.files) env client path
      total s (λ t e h. opened-files env client c s t e)
      (λ t r named timed e h.
        on_db-tables client c (insert_or_update_file env.record_rc r) t (
          ap (λ (d : Db). d.tables.files)
            (insert_failed env.record_rc r (db_of t client) (unfold on_db in h)))
        ∙ opened-files env client c s t e)
