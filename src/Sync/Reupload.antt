-- ===== src/Sync/Reupload.antt =====
-- Uploading a file again with fewer chunks than the server has of it.
use dropbox_lite.Prelude.{
  ℕ, ◌+◌, ◌^◌, ◌<◌, ◌≡◌, refl, sym, ap, subst, List, [], ◌∷◌, Option, none, some, Bool, false,
  Bytes, Str, arith, length, ◌==◌, str_eq, if_both,
}
use dropbox_lite.Prelude.Dict.{put}
use dropbox_lite.Storage.Paths.{get_temp_file_path}
use dropbox_lite.Prelude.Int.{ℤ, pos, to_size, to_int32}
use dropbox_lite.Hash.{Ssl}
use dropbox_lite.Metadata.{
  Db, Tables, Rc, prepare_failed, step_failed, done, get_file_chunks, insert_chunk,
}
use dropbox_lite.Metadata.Keys.{HasKeys, insert_chunk-HasKeys}
use dropbox_lite.Metadata.Counts.{length-get_file_chunks-insert}
use dropbox_lite.Storage.{
  Env, Storage, db_of, get_client_db, write_chunk, on_db, store_chunk, finalize_file,
}
use dropbox_lite.Storage.Store.{db_of-with_db}
use dropbox_lite.Storage.Isolation.{get_client_db-tables, write_chunk-dbs, db_of-dbs}
use dropbox_lite.Sync.{
  UploadChunkRequest, Progress, start, note_request, receive, finish, upload_file,
}

-- The database has its keys, and more than `n` chunks of the file.
pub record HasMore (n : ℕ) (path : Str) (t : Tables) : Type 0 where
  pub keyed : HasKeys t
  pub more : n < length (get_file_chunks done path (record { tables = t; saved = none }))

abbrev pub tables_of : Str → Storage → Tables
tables_of client s = (db_of s client).tables

insert_chunk-HasMore :
    (n : ℕ) (rc : Rc) (path h : Str) (i o k : ℤ) (db : Db)
    → HasMore n path db.tables
    → HasMore n path (insert_chunk rc path i h o k db).1.tables
unfolding insert_chunk get_file_chunks
insert_chunk-HasMore n prepare_failed path h i o k db v = v
insert_chunk-HasMore n (step_failed e) path h i o k db v = v
insert_chunk-HasMore n done path h i o k db v = record {
  keyed = insert_chunk-HasKeys done path h i o k db v.keyed;
  more = omega (arith, v.more, (length-get_file_chunks-insert path path h i o k db v.keyed).0);
}

store_chunk-HasMore :
    (n : ℕ) (env : Env) (client path : Str) (i : ℤ) (d : Bytes) (h : Str) (s : Storage)
    → HasMore n path (tables_of client s)
    → HasMore n path (tables_of client (store_chunk env client path i d h s).1)
unfolding store_chunk on_db
store_chunk-HasMore n env client path i d h s v =
    let s1 = (write_chunk env d h s).1 in
    let s2 = (get_client_db env client s1).1 in
    let e1 = ap (λ (d : Db). d.tables) (db_of-dbs s1 s client (write_chunk-dbs env d h s)) in
    let v1 = subst (HasMore n path) (sym e1) v in
    let v2 = subst (HasMore n path) (sym (get_client_db-tables env client client s1)) v1 in
    let db = (insert_chunk env.rc path i h (pos 0) (to_int32 (length d)) (db_of s2 client)).1 in
    let P = λ (r : Bool × Storage). HasMore n path (tables_of client r.1) in
    if_both P (write_chunk env d h s).0
      (if_both P (get_client_db env client s1).0
        (subst (λ (b : Db). HasMore n path b.tables) (sym (db_of-with_db s2 client db))
          (insert_chunk-HasMore n env.rc path h i (pos 0) (to_int32 (length d)) (db_of s2 client)
            v2))
        v2)
      v1

more_listed :
    (n : ℕ) (env : Env) (client path : Str) (s : Storage)
    → env.rc ≡ done
    → HasMore n path (tables_of client s)
    → n < length (get_file_chunks env.rc path (db_of (get_client_db env client s).1 client))
unfolding get_file_chunks
more_listed n env client path s works v =
    let R = λ (rc : Rc) (t : Tables).
      n < length (get_file_chunks rc path (record { tables = t; saved = none })) in
    subst (λ (rc : Rc). R rc (tables_of client (get_client_db env client s).1)) (sym works)
      (subst (R done) (sym (get_client_db-tables env client client s)) v.more)

-- Such a file cannot be finalized with `n` chunks.
finalize_file-HasMore :
    (n : ℕ) (ssl : Ssl) (env : Env) (client path : Str) (s : Storage)
    → env.rc ≡ done
    → n < 2 ^ 31
    → HasMore n path (tables_of client s)
    → (finalize_file ssl env client path (pos n) s).0 ≡ false
unfolding finalize_file
finalize_file-HasMore n ssl env client path s works small v =
    let s1 = (get_client_db env client s).1 in
    let hashes = get_file_chunks env.rc path (db_of s1 client) in
    let s0 = record s1 {
      files = put s1.files (get_temp_file_path s1.storage_root client path) [];
    } in
    let P = λ (r : Bool × Storage). r.0 ≡ false in
    let more : n < length hashes = more_listed n env client path s works v in
    let differ : (length hashes == to_size (pos n)) ≡ false = ground (arith, more) in
    if_both P (get_client_db env client s).0 (rw differ refl) refl

-- The upload has failed already, or is of a file that has more chunks than it announces.
abbrev IsShorter : ℕ → Option Progress × Storage → Type 0
IsShorter n (none, s) = Unit
IsShorter n (some p, s) = HasMore n p.filepath (tables_of p.client_id s) × (p.total_chunks ≡ pos n)

receive-IsShorter :
    (n : ℕ) (rs : List (Env × UploadChunkRequest)) (p : Progress) (s : Storage)
    → str_eq p.client_id [] ≡ false
    → p.total_chunks ≡ pos n
    → HasMore n p.filepath (tables_of p.client_id s)
    → IsShorter n (receive rs p s)
unfolding receive note_request
receive-IsShorter n [] p s named total v = (v, total)
receive-IsShorter n ((env, r) ∷ rs) p s named total v =
    let stored =
      store_chunk env p.client_id p.filepath r.chunk.index r.chunk.bytes r.chunk.hash s in
    rw named (
      if_both (IsShorter n) stored.0
        (receive-IsShorter n rs (record p { chunks_received = p.chunks_received + 1 }) stored.1
          named total
          (store_chunk-HasMore n env p.client_id p.filepath r.chunk.index r.chunk.bytes r.chunk.hash
            s v))
        tt)

finish-IsShorter :
    (n : ℕ) (ssl : Ssl) (env : Env) (r : Option Progress × Storage)
    → env.rc ≡ done
    → n < 2 ^ 31
    → IsShorter n r
    → (finish ssl env r).0.success ≡ false
unfolding finish
finish-IsShorter n ssl env (none, s) works small v = refl
finish-IsShorter n ssl env (some p, s) works small v =
    rw (v.1, finalize_file-HasMore n ssl env p.client_id p.filepath s works small v.0) refl

-- An upload that announces fewer chunks than the server has rows for the file answers without success,
-- whatever its chunks are: nothing takes the rows of the earlier version away. The first request names a
-- client and announces less than 2^31 chunks, the database has its keys, and the statements of the last
-- call succeed.
pub upload_file_shorter :
    (ssl : Ssl) (n : ℕ) (env : Env) (r : UploadChunkRequest)
    (requests : List (Env × UploadChunkRequest)) (last : Env) (s : Storage)
    → str_eq r.client_id [] ≡ false
    → r.total_chunks ≡ pos n
    → n < 2 ^ 31
    → HasMore n r.file_path (tables_of r.client_id s)
    → last.rc ≡ done
    → (upload_file ssl ((env, r) ∷ requests) last s).0.success ≡ false
unfolding upload_file receive note_request start str_eq
upload_file_shorter ssl n env r requests last s named total small v works =
    let stored =
      store_chunk env r.client_id r.file_path r.chunk.index r.chunk.bytes r.chunk.hash s in
    let p = record (note_request r start) { chunks_received = 1 } in
    finish-IsShorter n ssl last (receive ((env, r) ∷ requests) start s) works small (
      if_both (IsShorter n) stored.0
        (receive-IsShorter n requests p stored.1 named total (
          store_chunk-HasMore n env r.client_id r.file_path r.chunk.index r.chunk.bytes r.chunk.hash
            s v))
        tt)
