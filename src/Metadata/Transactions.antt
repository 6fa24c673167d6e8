-- ===== src/Metadata/Transactions.antt =====
-- Transactions: BEGIN, COMMIT and ROLLBACK, and the RAII guard MetadataDB::Transaction.
pub mod Scope
pub mod Replay
use dropbox_lite.Prelude.{
  ℕ, List, [], ◌∷◌, Option, none, some, Bool, true, false, Str, if◌then◌else◌,
}
use dropbox_lite.Prelude.Int.{ℤ}
use dropbox_lite.Metadata.{
  FileRecord, Db, Rc, insert_or_update_file, delete_file, insert_chunk, update_last_sync_time,
}

-- The commands that `executeSQL` hands to SQLite.
pub data Command : Type 0 where
  sql_begin sql_commit sql_rollback : Command

-- Whether SQLite carries the command out is the first argument. It refuses BEGIN inside a transaction, and
-- COMMIT and ROLLBACK outside one.
unfoldable pub execute_sql : Bool → Command → Db → Bool × Db
execute_sql ok sql_begin db = elim db.saved [
  | none ↦ if ok then (true, record db { saved = some db.tables }) else (false, db)
  | some t ↦ (false, db)
]
execute_sql ok sql_commit db = elim db.saved [
  | none ↦ (false, db)
  | some t ↦ if ok then (true, record db { saved = none }) else (false, db)
]
execute_sql ok sql_rollback db = elim db.saved [
  | none ↦ (false, db)
  | some t ↦ if ok then (true, record { tables = t; saved = none }) else (false, db)
]

unfoldable pub begin_transaction : Bool → Db → Bool × Db
begin_transaction ok db = execute_sql ok sql_begin db

unfoldable pub commit : Bool → Db → Bool × Db
commit ok db = execute_sql ok sql_commit db

unfoldable pub rollback : Bool → Db → Bool × Db
rollback ok db = execute_sql ok sql_rollback db

-- The guard, with the database that it refers to.
pub record Transaction : Type 0 where
  pub db : Db
  pub committed : Bool

-- The constructor drops what BEGIN answers.
unfoldable pub transaction_new : Bool → Db → Transaction
unfolding begin_transaction execute_sql
transaction_new ok db = record { db = (begin_transaction ok db).1; committed = false }

unfoldable pub transaction_commit : Bool → Transaction → Bool × Transaction
unfolding commit execute_sql
transaction_commit ok t =
    let (done, db) = commit ok t.db in
    if done then (true, record { db = db; committed = true }) else (false, record t { db = db })

unfoldable pub transaction_rollback : Bool → Transaction → Transaction
unfolding rollback execute_sql
transaction_rollback ok t =
    if t.committed then t else record { db = (rollback ok t.db).1; committed = true }

-- The destructor.
unfoldable pub transaction_drop : Bool → Transaction → Db
unfolding rollback execute_sql
transaction_drop ok t = if t.committed then t.db else (rollback ok t.db).1

-- The statements that write.
pub data Statement : Type 0 where
  put_file : FileRecord → Statement
  remove_file : Str → Statement
  put_chunk : Str → ℤ → Str → ℤ → ℤ → Statement
  stamp : ℤ → Statement

unfoldable pub execute : Rc → Statement → Db → Bool × Db
unfolding insert_or_update_file delete_file insert_chunk update_last_sync_time
execute rc (put_file r) db = insert_or_update_file rc r db
execute rc (remove_file path) db = delete_file rc path db
execute rc (put_chunk path index hash offset size) db =
    insert_chunk rc path index hash offset size db
execute rc (stamp t) db = update_last_sync_time rc t db

-- Several in a row, each with how it ends.
unfoldable pub run : List (Rc × Statement) → Db → Db
unfolding execute
run [] db = db
run ((rc, s) ∷ rest) db = run rest (execute rc s db).1

-- What SQLite does on its own where a statement ends in one of the errors that its manual lists for this
-- (a full disk, input or output, memory, an interrupt): the open transaction is rolled back.
unfoldable pub automatic_rollback : Db → Db
automatic_rollback db = elim db.saved [ none ↦ db | some t ↦ record { tables = t; saved = none } ]

abbrev pub interrupted : Transaction → Transaction
interrupted t = record t { db = automatic_rollback t.db }

-- The body of a scope with a guard in it.
abbrev pub within : List (Rc × Statement) → Transaction → Transaction
within body t = record t { db = run body t.db }
