-- ===== src/Storage/Neighbours.antt =====
-- What a call made for one file leaves of another file's rows, be it another client's or the same client's.
use dropbox_lite.Prelude.{
  ◌≡◌, refl, sym, subst, ◌∙◌, ◌∷◌, none, Bool, true, false, ◌&&◌, Bytes, Str, arith, length, str_eq,
  str_eq_iff, Bool-cases, inl, inr, if_both, append-nil,
}
use dropbox_lite.Prelude.Int.{ℤ, pos, to_int32}
use dropbox_lite.Hash.{Ssl}
use dropbox_lite.Metadata.{
  FileRecord, Db, Rc, prepare_failed, step_failed, done, c_str, chunks_of, other_chunks, chunk_row,
  get_file, insert_chunk, insert_or_update_file,
}
use dropbox_lite.Metadata.Files.{get_file-insert}
use dropbox_lite.Metadata.Counts.{chunks_of-append, chunks_of-other_path}
use dropbox_lite.Storage.{
  Env, Storage, db_of, get_client_db, write_chunk, on_db, store_chunk, finalize_file,
}
use dropbox_lite.Storage.Isolation.{
  db_of-put, opened_db, get_client_db_either, write_chunk-dbs, db_of-dbs, finalize_file_either,
}

-- Not the same file: another client, or another path as SQLite reads it.
abbrev pub Apart : Str → Str → Str → Str → Type 0
Apart c q client path = (str_eq c client && str_eq (c_str q) (c_str path)) ≡ false

pub Apart-swap : (c q client path : Str) → Apart c q client path → Apart client path c q
Apart-swap c q client path apart = ground (
  arith,
  apart,
  str_eq_iff c client,
  str_eq_iff client c,
  str_eq_iff (c_str q) (c_str path),
  str_eq_iff (c_str path) (c_str q),
)

-- The rows of a file are as they were, and no transaction is left open.
pub record IsKept (path : Str) (d e : Db) : Type 0 where
  pub rows : chunks_of (c_str path) e.tables.chunks ≡ chunks_of (c_str path) d.tables.chunks
  pub row : get_file done path e ≡ get_file done path d
  pub settles : d.saved ≡ none → e.saved ≡ none

unchanged : (path : Str) (d e : Db) → e ≡ d → IsKept path d e
unchanged path d e same =
    subst (IsKept path d) (sym same) (record { rows = refl; row = refl; settles = λ h. h })

then-IsKept : (path : Str) (d e f : Db) → IsKept path d e → IsKept path e f → IsKept path d f
then-IsKept path d e f h k = record {
  rows = k.rows ∙ h.rows;
  row = k.row ∙ h.row;
  settles = λ s. k.settles (h.settles s);
}

insert_chunk-IsKept :
    (rc : Rc) (path q hash : Str) (index offset size : ℤ) (d : Db)
    → str_eq (c_str q) (c_str path) ≡ false
    → IsKept path d (insert_chunk rc q index hash offset size d).1
unfolding insert_chunk
insert_chunk-IsKept prepare_failed path q hash index offset size d ne = unchanged path d d refl
insert_chunk-IsKept (step_failed n) path q hash index offset size d ne = unchanged path d d refl
insert_chunk-IsKept done path q hash index offset size d ne =
    let p = c_str path in
    let others = other_chunks (c_str q) index d.tables.chunks in
    record {
      rows =
          chunks_of-append p others (chunk_row q index hash offset size)
          ∙ rw (ne, append-nil (chunks_of p others))
              (chunks_of-other_path p (c_str q) index d.tables.chunks ne);
      row = unfold get_file in refl;
      settles = λ h. h;
    }

insert_file-IsKept :
    (rc : Rc) (path : Str) (r : FileRecord) (d : Db)
    → str_eq (c_str r.path) (c_str path) ≡ false
    → IsKept path d (insert_or_update_file rc r d).1
unfolding insert_or_update_file
insert_file-IsKept prepare_failed path r d ne = unchanged path d d refl
insert_file-IsKept (step_failed n) path r d ne = unchanged path d d refl
insert_file-IsKept done path r d ne = record {
  rows = refl;
  row = get_file-insert r path d ∙ rw ne refl;
  settles = λ h. h;
}

get_client_db-IsKept :
    (env : Env) (c client path : Str) (s : Storage)
    → IsKept path (db_of s client) (db_of (get_client_db env c s).1 client)
unfolding opened_db
get_client_db-IsKept env c client path s =
    let K = λ (r : Storage). IsKept path (db_of s client) (db_of r client) in
    let opened : Db = record { tables = (db_of s c).tables; saved = none } in
    let one = unchanged path (db_of s client) (db_of s client) refl in
    get_client_db_either K env c s one (elim (Bool-cases (str_eq c client)) [
      | inl same ↦
          let e : c ≡ client = (str_eq_iff c client).0 same in
          rw (db_of-put s c client opened (c ∷ s.client_dbs), same)
            (subst (λ (n : Str). IsKept path (db_of s n) opened) e
              (record { rows = refl; row = unfold get_file in refl; settles = λ h. refl }))
      | inr other ↦ rw (db_of-put s c client opened (c ∷ s.client_dbs), other) one
    ])

on_db-IsKept :
    (c client path : Str) (f : Db → Bool × Db) (s : Storage)
    → (str_eq c client ≡ true → (d : Db) → IsKept path d (f d).1)
    → IsKept path (db_of s client) (db_of (on_db c f s).1 client)
unfolding on_db
on_db-IsKept c client path f s keeps = elim (Bool-cases (str_eq c client)) [
  | inl same ↦
      let e : c ≡ client = (str_eq_iff c client).0 same in
      rw (db_of-put s c client (f (db_of s c)).1 s.client_dbs, same)
        (subst (λ (n : Str). IsKept path (db_of s n) (f (db_of s c)).1) e (keeps same (db_of s c)))
  | inr other ↦
      rw (db_of-put s c client (f (db_of s c)).1 s.client_dbs, other)
        (unchanged path (db_of s client) (db_of s client) refl)
]

other_path :
    (c q client path : Str)
    → Apart c q client path
    → str_eq c client ≡ true
    → str_eq (c_str q) (c_str path) ≡ false
other_path c q client path apart same = ground (arith, same, apart)

pub store_chunk-IsKept :
    (env : Env) (c q client path : Str) (i : ℤ) (d : Bytes) (h : Str) (s : Storage)
    → Apart c q client path
    → IsKept path (db_of s client) (db_of (store_chunk env c q i d h s).1 client)
unfolding store_chunk
store_chunk-IsKept env c q client path i d h s apart =
    let K = λ (r : Bool × Storage). IsKept path (db_of s client) (db_of r.1 client) in
    let s1 = (write_chunk env d h s).1 in
    let s2 = (get_client_db env c s1).1 in
    let insert = insert_chunk env.rc q i h (pos 0) (to_int32 (length d)) in
    let k1 =
      unchanged path (db_of s client) (db_of s1 client)
        (db_of-dbs s1 s client (write_chunk-dbs env d h s)) in
    let k2 =
      then-IsKept path (db_of s client) (db_of s1 client) (db_of s2 client) k1
        (get_client_db-IsKept env c client path s1) in
    let k3 = on_db-IsKept c client path insert s2 (λ same e.
      insert_chunk-IsKept env.rc path q h i (pos 0) (to_int32 (length d)) e
        (other_path c q client path apart same)) in
    if_both K (write_chunk env d h s).0
      (if_both K (get_client_db env c s1).0
        (then-IsKept path (db_of s client) (db_of s2 client) (db_of (on_db c insert s2).1 client) k2
          k3)
        k2)
      k1

module _ (ssl : Ssl) where
  pub finalize_file-IsKept :
      (env : Env) (c q client path : Str) (total : ℤ) (s : Storage)
      → Apart c q client path
      → IsKept path (db_of s client) (db_of (finalize_file ssl env c q total s).1 client)
  finalize_file-IsKept env c q client path total s apart =
      let K = λ (r : Bool × Storage). IsKept path (db_of s client) (db_of r.1 client) in
      let s1 = (get_client_db env c s).1 in
      let k1 = get_client_db-IsKept env c client path s in
      let kept = λ (t : Storage) (e : t.dbs ≡ s1.dbs).
        subst (IsKept path (db_of s client)) (sym (db_of-dbs t s1 client e)) k1 in
      finalize_file_either ssl K env c q total s kept (λ t r named timed e.
        let f = insert_or_update_file env.record_rc r in
        then-IsKept path (db_of s client) (db_of t client) (db_of (on_db c f t).1 client) (kept t e)
          (on_db-IsKept c client path f t (λ same d.
            insert_file-IsKept env.record_rc path r d
              (rw named (other_path c q client path apart same)))))
