-- ===== src/Tests/Database.antt =====
-- The metadata database.
use dropbox_lite.Prelude.{◌≡◌, refl, List, [], ◌∷◌, some, none, true, false, codes}
use dropbox_lite.Prelude.Int.{pos}
use dropbox_lite.Metadata.{
  FileRecord, ChunkRow, Db, Rc, done, step_failed, get_file, get_last_sync_time, chunk_row,
}
use dropbox_lite.Metadata.Keys.{HasKeys}
use dropbox_lite.Metadata.Transactions.{
  Statement, remove_file, stamp, run, within, transaction_new, transaction_commit,
  transaction_rollback, transaction_drop, interrupted,
}
use dropbox_lite.Metadata.Transactions.Replay.{replay, file_op, time_op, run-replay}
use dropbox_lite.Metadata.Transactions.Scope.{transaction_atomic}

abbrev pub a_file : FileRecord
a_file = record {
  path = codes "a";
  size = pos 3;
  modified_time = pos 7;
  hash = codes "ff";
  version = pos 1;
  is_directory = false;
  deleted = false;
  last_sync_time = pos 0;
}

abbrev pub a_row : ChunkRow
a_row = chunk_row (codes "a") (pos 0) (codes "ff") (pos 0) (pos 3)

-- A second chunk of the file.
abbrev pub b_row : ChunkRow
b_row = chunk_row (codes "a") (pos 1) (codes "ee") (pos 0) (pos 3)

abbrev pub one_file : Db
one_file = record {
  tables = record { files = a_file ∷ []; chunks = a_row ∷ []; last_sync = none };
  saved = none;
}

one_file-HasKeys : HasKeys one_file.tables
one_file-HasKeys = record { files_distinct = (tt, tt); chunks_distinct = (tt, tt) }

abbrev body : List (Rc × Statement)
body = (done, remove_file (codes "a")) ∷ (step_failed 0, stamp (pos 9)) ∷ []

abbrev later : List (Rc × Statement)
later = (done, stamp (pos 8)) ∷ []

transaction_atomic_example :
    (transaction_drop true (within body (transaction_new true one_file)) ≡ one_file)
    × (transaction_drop true
          (transaction_rollback true (within body (transaction_new true one_file)))
        ≡ one_file)
    × (transaction_drop true
          (transaction_commit true (within body (transaction_new true one_file))).1
        ≡ record {
          tables = (run body (record one_file { saved = some one_file.tables })).tables;
          saved = none;
        })
    × (transaction_drop true
          (transaction_commit false (within body (transaction_new true one_file))).1
        ≡ one_file)
    × (transaction_drop true
          (within later (interrupted (within body (transaction_new true one_file))))
        ≡ run later one_file)
    × (transaction_drop true (within body (transaction_new false one_file)) ≡ run body one_file)
transaction_atomic_example = transaction_atomic body later one_file refl

run-replay_example :
    (get_file done (codes "a") (run body one_file)
      ≡ replay (file_op (codes "a")) body (get_file done (codes "a") one_file))
    × (get_last_sync_time done (run body one_file)
        ≡ replay time_op body (get_last_sync_time done one_file))
run-replay_example = run-replay (codes "a") body one_file
