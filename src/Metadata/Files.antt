-- ===== src/Metadata/Files.antt =====
-- The table `files`: what is read after a write.
use mathlib.Core.Option
use dropbox_lite.Prelude.{
  ◌≡◌, refl, List, [], ◌∷◌, ◌++◌, some, true, false, Str, All, arith, if◌then◌else◌, if_both,
  Bool-cases, inl, inr, str_eq, str_eq_iff,
}
use dropbox_lite.Metadata.{
  FileRecord, Db, done, c_str, bound, other_files, find_file, live_files, mark_deleted,
  insert_or_update_file, get_file, get_all_files, delete_file,
}

find_file-replace :
    (p q : Str) (b : FileRecord) (fs : List FileRecord)
    → b.path ≡ q
    → find_file p (other_files q fs ++ b ∷ []) ≡ (if str_eq q p then some b else find_file p fs)
unfolding find_file other_files
find_file-replace p q b [] e = ground arith
find_file-replace p q b (r ∷ rs) e =
    ground (
      arith,
      find_file-replace p q b rs e,
      str_eq_iff r.path q,
      str_eq_iff r.path p,
      str_eq_iff q p,
    )

-- A file reads back as it was written, its texts cut at a NUL, and the others are unchanged.
pub get_file-insert :
    (r : FileRecord) (path : Str) (db : Db)
    → get_file done path (insert_or_update_file done r db).1
      ≡ (if str_eq (c_str r.path) (c_str path) then some (bound r) else get_file done path db)
unfolding get_file insert_or_update_file
get_file-insert r path db =
    find_file-replace (c_str path) (c_str r.path) (bound r) db.tables.files (unfold bound in refl)

abbrev pub tombstone : FileRecord → FileRecord
tombstone r = record r { deleted = true }

find_file-mark_deleted :
    (p q : Str) (fs : List FileRecord)
    → find_file p (mark_deleted q fs)
      ≡ (if str_eq q p then Option.map tombstone (find_file p fs) else find_file p fs)
unfolding find_file mark_deleted
find_file-mark_deleted p q [] = ground arith
find_file-mark_deleted p q (r ∷ rs) =
    ground (
      arith,
      find_file-mark_deleted p q rs,
      str_eq_iff r.path q,
      str_eq_iff r.path p,
      str_eq_iff q p,
    )

-- No listed file has this path.
abbrev pub Unlisted : Str → List FileRecord → Type 0
Unlisted path = All (λ r. str_eq r.path path ≡ false)

live_files-mark_deleted :
    (p : Str) (fs : List FileRecord) → Unlisted p (live_files (mark_deleted p fs))
unfolding live_files mark_deleted
live_files-mark_deleted p [] = tt
live_files-mark_deleted p (r ∷ rs) = elim (Bool-cases (str_eq r.path p)) [
  | inl same ↦ rw same (live_files-mark_deleted p rs)
  | inr other ↦ rw other (
      if_both (Unlisted p) r.deleted (live_files-mark_deleted p rs)
        (other, live_files-mark_deleted p rs))
]

-- Deleting a file keeps its row, marked, and every other row; the list of files no longer has it.
-- The answer is `true` whether or not there was such a file.
pub delete_file_lem :
    (path other : Str) (db : Db)
    → ((delete_file done path db).0 ≡ true)
      × (get_file done other (delete_file done path db).1 ≡ (
          if str_eq (c_str path) (c_str other)
          then Option.map tombstone (get_file done other db)
          else get_file done other db))
      × Unlisted (c_str path) (get_all_files done (delete_file done path db).1)
unfolding get_file delete_file get_all_files
delete_file_lem path other db = (
  refl,
  find_file-mark_deleted (c_str other) (c_str path) db.tables.files,
  live_files-mark_deleted (c_str path) db.tables.files,
)
