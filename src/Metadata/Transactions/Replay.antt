-- ===== src/Metadata/Transactions/Replay.antt =====
-- The tables, seen as a function from paths to records and a time: what any run of statements does to it.
use mathlib.Core.Option
use dropbox_lite.Prelude.{
  ℕ, ◌≡◌, refl, ap, ◌∙◌, List, [], ◌∷◌, Option, some, Str, str_eq, if◌then◌else◌,
}
use dropbox_lite.Prelude.Int.{ℤ}
use dropbox_lite.Metadata.{
  FileRecord, Db, Rc, prepare_failed, step_failed, done, c_str, bound, get_file,
  insert_or_update_file, delete_file, insert_chunk, update_last_sync_time, get_last_sync_time,
}
use dropbox_lite.Metadata.Files.{tombstone, get_file-insert, delete_file_lem}
use dropbox_lite.Metadata.Transactions.{
  Statement, put_file, remove_file, put_chunk, stamp, execute, run,
}

-- What a statement makes of the record at a path.
abbrev pub file_op : Str → Rc × Statement → Option FileRecord → Option FileRecord
file_op path (done, put_file r) f = if str_eq (c_str r.path) (c_str path) then some (bound r) else f
file_op path (done, remove_file p) f =
    if str_eq (c_str p) (c_str path) then Option.map tombstone f else f
file_op path _ f = f

-- What it makes of the time of the last synchronisation.
abbrev pub time_op : Rc × Statement → ℤ → ℤ
time_op (done, stamp t) _ = t
time_op _ t = t

unfoldable pub replay {ℓ} : {A : Type ℓ} → (Rc × Statement → A → A) → List (Rc × Statement) → A → A
replay f [] a = a
replay f (s ∷ ss) a = replay f ss (f s a)

-- A statement that fails changes nothing.
execute-prepare_failed : (s : Statement) (db : Db) → (execute prepare_failed s db).1 ≡ db
unfolding execute
execute-prepare_failed (put_file r) db = refl
execute-prepare_failed (remove_file p) db = refl
execute-prepare_failed (put_chunk p i h o n) db = refl
execute-prepare_failed (stamp t) db = refl

execute-step_failed : (n : ℕ) (s : Statement) (db : Db) → (execute (step_failed n) s db).1 ≡ db
unfolding execute
execute-step_failed n (put_file r) db = refl
execute-step_failed n (remove_file p) db = refl
execute-step_failed n (put_chunk p i h o k) db = refl
execute-step_failed n (stamp t) db = refl

execute-file_op :
    (path : Str) (rc : Rc) (s : Statement) (db : Db)
    → get_file done path (execute rc s db).1 ≡ file_op path (rc, s) (get_file done path db)
unfolding execute
execute-file_op path done (put_file r) db = get_file-insert r path db
execute-file_op path done (remove_file p) db = (delete_file_lem p path db).1
execute-file_op path done (put_chunk p i h o n) db = unfold get_file insert_chunk in refl
execute-file_op path done (stamp t) db = unfold get_file update_last_sync_time in refl
execute-file_op path prepare_failed s db = ap (get_file done path) (execute-prepare_failed s db)
execute-file_op path (step_failed n) s db = ap (get_file done path) (execute-step_failed n s db)

execute-time_op :
    (rc : Rc) (s : Statement) (db : Db)
    → get_last_sync_time done (execute rc s db).1 ≡ time_op (rc, s) (get_last_sync_time done db)
unfolding execute get_last_sync_time
execute-time_op done (put_file r) db = unfold insert_or_update_file in refl
execute-time_op done (remove_file p) db = unfold delete_file in refl
execute-time_op done (put_chunk p i h o n) db = unfold insert_chunk in refl
execute-time_op done (stamp t) db = unfold update_last_sync_time in refl
execute-time_op prepare_failed s db = ap (get_last_sync_time done) (execute-prepare_failed s db)
execute-time_op (step_failed n) s db = ap (get_last_sync_time done) (execute-step_failed n s db)

-- The database implements a function from paths to records beside one time: after any run of statements,
-- each of which may fail, a path reads as the last record written under it, marked if it was deleted
-- since, and the time as the last one stored.
pub run-replay :
    (path : Str) (ss : List (Rc × Statement)) (db : Db)
    → (get_file done path (run ss db) ≡ replay (file_op path) ss (get_file done path db))
      × (get_last_sync_time done (run ss db) ≡ replay time_op ss (get_last_sync_time done db))
unfolding run replay
run-replay path [] db = (refl, refl)
run-replay path ((rc, s) ∷ ss) db =
    let (file, time) = run-replay path ss (execute rc s db).1 in
    (
      file ∙ ap (replay (file_op path) ss) (execute-file_op path rc s db),
      time ∙ ap (replay time_op ss) (execute-time_op rc s db),
    )
