-- ===== src/Sync/Changes.antt =====
-- What a client is told of the server's files.
use dropbox_lite.Prelude.{
  sym, subst, ◌≡◌, ◌≢◌, refl, ap, ◌∙◌, ◌⊎◌, List, [], ◌∷◌, Option, none, some, true, false, not,
  Str, All, All-append, arith, inl, inr, str_eq, if_both,
}
use dropbox_lite.Prelude.Int.{ℤ, ltb_ℤ}
use dropbox_lite.Metadata.{FileRecord, Db, done, c_str, get_all_files}
use dropbox_lite.Metadata.Files.{Unlisted, delete_file_lem}
use dropbox_lite.Metadata
use dropbox_lite.Storage.{Env, Storage, db_of, list_files, delete_file, get_client_db, on_db}
use dropbox_lite.Storage.Store.{Works, get_client_db-Works, db_of-with_db}
use dropbox_lite.Sync.{
  sync, compute_changes, FileMetadata, FileChange, created, modified, find_local, change_for,
  changes_of,
}

-- A change says what the two sides show: a created file is one that the client does not have, and a
-- modified one is known to it.
abbrev pub Known : List FileMetadata → FileChange → Type 0
Known ls c =
    ((c.change_type ≡ created) × (find_local c.path ls ≡ none))
    ⊎ ((c.change_type ≡ modified) × (find_local c.path ls ≢ none))

change_for-Known :
    (ls : List FileMetadata) (last : ℤ) (r : FileRecord) (found : Option FileMetadata)
    → find_local r.path ls ≡ found
    → All (Known ls) (change_for found last r)
unfolding change_for
change_for-Known ls last r none e =
    if_both (All (Known ls)) (ltb_ℤ last r.modified_time) (inl (refl, e), tt) tt
change_for-Known ls last r (some l) e =
    if_both (All (Known ls)) (not (str_eq l.hash r.hash))
      (inr (refl, λ n. ground (arith, e, n)), tt) tt

-- No change is reported of a path that the server does not list.
abbrev pub Silent : Str → List FileChange → Type 0
Silent path = All (λ c. str_eq c.path path ≡ false)

change_for-Silent :
    (path : Str) (last : ℤ) (r : FileRecord) (found : Option FileMetadata)
    → str_eq r.path path ≡ false
    → Silent path (change_for found last r)
unfolding change_for
change_for-Silent path last r none h = if_both (Silent path) (ltb_ℤ last r.modified_time) (h, tt) tt
change_for-Silent path last r (some l) h =
    if_both (Silent path) (not (str_eq l.hash r.hash)) (h, tt) tt

changes_of-Known :
    (ls : List FileMetadata) (last : ℤ) (rs : List FileRecord)
    → All (Known ls) (changes_of ls last rs)
unfolding changes_of
changes_of-Known ls last [] = tt
changes_of-Known ls last (r ∷ rs) =
    All-append (Known ls) (change_for (find_local r.path ls) last r) (changes_of ls last rs)
      (change_for-Known ls last r (find_local r.path ls) refl) (changes_of-Known ls last rs)

changes_of-Silent :
    (path : Str) (ls : List FileMetadata) (last : ℤ) (rs : List FileRecord)
    → Unlisted path rs
    → Silent path (changes_of ls last rs)
unfolding changes_of
changes_of-Silent path ls last [] h = tt
changes_of-Silent path ls last (r ∷ rs) h =
    All-append _ (change_for (find_local r.path ls) last r) (changes_of ls last rs)
      (change_for-Silent path last r (find_local r.path ls) h.0)
      (changes_of-Silent path ls last rs h.1)

-- Every change of a synchronisation says what the two sides show: `created` of a path that the client
-- did not send, `modified` of one that it did. Nothing is ever reported deleted or renamed.
pub sync-Known :
    (env : Env) (client : Str) (ls : List FileMetadata) (last : ℤ) (s : Storage)
    → All (Known ls) (sync env client ls last s).0.changes
unfolding sync compute_changes
sync-Known env client ls last s =
    let s1 = (list_files env client s).1 in changes_of-Known ls last (list_files env client s1).0

-- The steps of a deletion and of a list of files on a working server.
delete_file-db :
    (env : Env) (client path : Str) (s s1 : Storage)
    → get_client_db env client s ≡ (true, s1)
    → db_of (delete_file env client path s).1 client
      ≡ (Metadata.delete_file env.rc path (db_of s1 client)).1
unfolding delete_file on_db
delete_file-db env client path s s1 e =
    rw e (db_of-with_db s1 client (Metadata.delete_file env.rc path (db_of s1 client)).1)

list_files-db :
    (env : Env) (client : Str) (s s1 : Storage)
    → get_client_db env client s ≡ (true, s1)
    → (list_files env client s).0 ≡ get_all_files env.rc (db_of s1 client)
unfolding list_files
list_files-db env client s s1 e = rw e refl

opened :
    (env : Env) (client : Str) (s : Storage)
    → Works env
    → (db_of s client).saved ≡ none
    → get_client_db env client s ≡ (true, (get_client_db env client s).1)
opened env client s w e =
    λ i. ((get_client_db-Works env client s w e).0 i, (get_client_db env client s).1)

-- The database after a deletion, on a working server.
delete_file-db_of :
    (env : Env) (client path : Str) (s : Storage)
    → Works env
    → (db_of s client).saved ≡ none
    → db_of (delete_file env client path s).1 client
      ≡ (Metadata.delete_file done path (db_of s client)).1
delete_file-db_of env client path s w e =
    delete_file-db env client path s (get_client_db env client s).1 (opened env client s w e)
    ∙ (ap (λ rc. (Metadata.delete_file rc path (db_of (get_client_db env client s).1 client)).1)
          w.answers
        ∙ ap (λ (d : Db). (Metadata.delete_file done path d).1)
            (get_client_db-Works env client s w e).3)

-- A file that has been deleted is never reported: a client that still has it is not told to drop it.
-- The server works and no transaction is open.
pub compute_changes_deleted :
    (env later : Env) (client path : Str) (ls : List FileMetadata) (last : ℤ) (s : Storage)
    → Works env
    → Works later
    → (db_of s client).saved ≡ none
    → Silent (c_str path) (compute_changes later client ls last (delete_file env client path s).1).0
unfolding compute_changes
compute_changes_deleted env later client path ls last s w w' e =
    let s1 = (delete_file env client path s).1 in
    let e1 = delete_file-db_of env client path s w e in
    let settled : (db_of s1 client).saved ≡ none =
      ap (λ (d : Db). d.saved) e1 ∙ (unfold Metadata.delete_file in e) in
    let listed : (list_files later client s1).0
        ≡ get_all_files done (Metadata.delete_file done path (db_of s client)).1 =
      list_files-db later client s1 (get_client_db later client s1).1
        (opened later client s1 w' settled)
      ∙ (ap (λ rc. get_all_files rc (db_of (get_client_db later client s1).1 client)) w'.answers
          ∙ ap (get_all_files done) ((get_client_db-Works later client s1 w' settled).3 ∙ e1)) in
    changes_of-Silent (c_str path) ls last (list_files later client s1).0
      (subst (Unlisted (c_str path)) (sym listed) (delete_file_lem path path (db_of s client)).2)
