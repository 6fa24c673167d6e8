-- ===== src/Sync/Told.antt =====
-- What a synchronisation says of one file, on a server with any history.
use dropbox_lite.Prelude.{
  ◌≡◌, refl, sym, ap, subst, ◌∙◌, List, [], ◌∷◌, ◌++◌, Option, none, some, true, false, Str, arith,
  str_eq, str_eq_iff, if◌then◌else◌, Bool-cases, inl, inr, append-nil,
}
use dropbox_lite.Prelude.Int.{ℤ, ltb_ℤ}
use dropbox_lite.Metadata.{
  FileRecord, Tables, done, c_str, find_file, live_files, get_file, get_all_files,
}
use dropbox_lite.Metadata.Keys.{NoFile, DistinctFiles}
use dropbox_lite.Storage.{Env, Storage, db_of, list_files}
use dropbox_lite.Storage.Store.{Works}
use dropbox_lite.Storage.Isolation.{get_client_db-tables}
use dropbox_lite.Storage.Restart.{list_files-tables}
use dropbox_lite.Sync.{
  FileMetadata, FileChange, created, modified, find_local, change_for, changes_of, compute_changes,
  sync,
}
use dropbox_lite.Sync.Calls.{IsSettled}

-- The changes of one path.
abbrev pub about : Str → List FileChange → List FileChange
about p [] = []
about p (c ∷ cs) = let rest = about p cs in if str_eq c.path p then c ∷ rest else rest

-- What a client that has `found` at a path, and was last synchronised at `last`, is to be told of the
-- server's row for it.
abbrev pub told : Str → Option FileMetadata → ℤ → Option FileRecord → List FileChange
told p found last none = []
told p none last (some r) =
    if r.deleted
    then []
    else if ltb_ℤ last r.modified_time
    then (record { path = p; change_type = created }) ∷ []
    else []
told p (some l) last (some r) =
    if r.deleted
    then []
    else if str_eq l.hash r.hash
    then []
    else (record { path = p; change_type = modified }) ∷ []

about-append : (p : Str) (cs ds : List FileChange) → about p (cs ++ ds) ≡ about p cs ++ about p ds
about-append p [] ds = refl
about-append p (c ∷ cs) ds = ground (arith, about-append p cs ds)

about-change_for :
    (p : Str) (found : Option FileMetadata) (last : ℤ) (r : FileRecord)
    → (str_eq r.path p ≡ true
        → r.deleted ≡ false
        → about p (change_for found last r) ≡ told p found last (some r))
      × (str_eq r.path p ≡ false → about p (change_for found last r) ≡ [])
      × (r.deleted ≡ true → told p found last (some r) ≡ [])
      × (told p found last none ≡ [])
unfolding change_for
about-change_for p none last r = ground (arith, str_eq_iff r.path p)
about-change_for p (some l) last r = ground (arith, str_eq_iff r.path p)

find_file-NoFile : (p : Str) (rs : List FileRecord) → NoFile p rs → find_file p rs ≡ none
unfolding find_file
find_file-NoFile p [] h = refl
find_file-NoFile p (r ∷ rs) h = rw h.0 (find_file-NoFile p rs h.1)

live_files-cons :
    (r : FileRecord) (rs : List FileRecord)
    → (r.deleted ≡ true → live_files (r ∷ rs) ≡ live_files rs)
      × (r.deleted ≡ false → live_files (r ∷ rs) ≡ r ∷ live_files rs)
unfolding live_files
live_files-cons r rs = ground arith

about-changes_of :
    (p : Str) (ls : List FileMetadata) (last : ℤ) (rs : List FileRecord)
    → DistinctFiles rs
    → about p (changes_of ls last (live_files rs)) ≡ told p (find_local p ls) last (find_file p rs)
unfolding changes_of find_file
about-changes_of p ls last [] h = unfold live_files in refl
about-changes_of p ls last (r ∷ rs) h =
    let ih = about-changes_of p ls last rs h.1 in
    let found = find_local r.path ls in
    let (self, other, gone, none_told) = about-change_for p found last r in
    let tell = λ (fs : List FileRecord). about p (changes_of ls last fs) in
    let parts = about-append p (change_for found last r) (changes_of ls last (live_files rs)) in
    elim (Bool-cases (str_eq r.path p)) [
      | inl same ↦
          let e : r.path ≡ p = (str_eq_iff r.path p).0 same in
          let absent : find_file p rs ≡ none =
            find_file-NoFile p rs (subst (λ (q : Str). NoFile q rs) e h.0) in
          let at = ap (λ (q : Str). told p (find_local q ls) last (some r)) e in
          let nothing : about p (changes_of ls last (live_files rs)) ≡ [] =
            ih
            ∙ (ap (told p (find_local p ls) last) absent
                ∙ (ap (λ (q : Str). told p (find_local q ls) last none) (sym e) ∙ none_told)) in
          elim (Bool-cases r.deleted) [
            | inl dead ↦
                rw same
                  (ap tell ((live_files-cons r rs).0 dead) ∙ (nothing ∙ (sym (gone dead) ∙ at)))
            | inr live ↦ rw same (
                ap tell ((live_files-cons r rs).1 live)
                ∙ (parts
                    ∙ (ap (λ (cs : List FileChange). about p (change_for found last r) ++ cs)
                          nothing
                        ∙ (append-nil (about p (change_for found last r))
                            ∙ (self same live ∙ at)))))
          ]
      | inr differs ↦ elim (Bool-cases r.deleted) [
        | inl dead ↦ rw differs (ap tell ((live_files-cons r rs).0 dead) ∙ ih)
        | inr live ↦ rw differs (
            ap tell ((live_files-cons r rs).1 live)
            ∙ (parts
                ∙ (ap (λ (cs : List FileChange). cs ++ about p (changes_of ls last (live_files rs)))
                      (other differs)
                    ∙ ih)))
      ]
    ]

-- A synchronisation tells a client of each path just what the comparison of its own file with the server's
-- row asks for: nothing where there is no row, the row is marked deleted or the hashes agree, one
-- `modified` where they differ, and one `created` where the client has no file and the row is newer than
-- the last synchronisation. The server answers, and the client's database has its keys.
pub sync-told :
    (env : Env) (client path : Str) (ls : List FileMetadata) (last : ℤ) (s : Storage)
    → Works env
    → IsSettled (db_of s client)
    → about (c_str path) (sync env client ls last s).0.changes
      ≡ told (c_str path) (find_local (c_str path) ls) last (get_file done path (db_of s client))
unfolding sync compute_changes get_file
sync-told env client path ls last s w h =
    let s1 = (list_files env client s).1 in
    let files = λ (t : Tables). get_all_files done (record { tables = t; saved = none }) in
    let same : (db_of s1 client).tables ≡ (db_of s client).tables =
      unfold list_files in get_client_db-tables env client client s in
    let listed : (list_files env client s1).0 ≡ files (db_of s client).tables =
      list_files-tables env client s1 w ∙ ap files same in
    ap (λ (rs : List FileRecord). about (c_str path) (changes_of ls last rs)) listed
    ∙ (unfold get_all_files in
        about-changes_of (c_str path) ls last (db_of s client).tables.files h.keyed.files_distinct)
