-- ===== src/Metadata/Transactions/Scope.antt =====
-- Scopes with a guard (`MetadataDB::Transaction` of src/core/metadata_db.cpp), and how their statements end.
use dropbox_lite.Prelude.{◌≡◌, refl, ◌∙◌, List, [], ◌∷◌, none, some, Bool, true, false, arith}
use dropbox_lite.Metadata.Keys.{saved-write}
use dropbox_lite.Metadata.{Db, Tables, Rc}
use dropbox_lite.Metadata.Transactions.{
  execute_sql, Statement, put_file, remove_file, put_chunk, stamp, execute, run, within,
  transaction_new, transaction_commit, transaction_rollback, transaction_drop, automatic_rollback,
  interrupted,
}

saved-execute : (rc : Rc) (s : Statement) (db : Db) → (execute rc s db).1.saved ≡ db.saved
unfolding execute
saved-execute rc (put_file r) db = saved-write rc _ db
saved-execute rc (remove_file path) db = saved-write rc _ db
saved-execute rc (put_chunk path index hash offset size) db = saved-write rc _ db
saved-execute rc (stamp t) db = saved-write rc _ db

-- Statements leave alone what a rollback goes back to.
saved-run : (body : List (Rc × Statement)) (db : Db) → (run body db).saved ≡ db.saved
unfolding run
saved-run [] db = refl
saved-run ((rc, s) ∷ rest) db = saved-run rest (execute rc s db).1 ∙ saved-execute rc s db

-- After a rollback that SQLite made on its own the statements are on their own too.
run-interrupted :
    (rest : List (Rc × Statement)) (db : Db) (before : Tables) (ended : Bool)
    → db.saved ≡ some before
    → transaction_drop ended (within rest (interrupted (record { db = db; committed = false })))
      ≡ run rest (record { tables = before; saved = none })
unfolding transaction_drop automatic_rollback execute_sql
run-interrupted rest db before ended e =
    let kept = saved-run rest (record { tables = before; saved = none }) in
    rw e (ground (arith, kept))

-- A scope in which no other transaction is open, whose statements succeed or change nothing, and whose
-- ROLLBACK is carried out. Where its BEGIN is carried out: without a commit, and after an explicit
-- rollback, whatever the statements did is undone; with a COMMIT that is carried out it all stays, and the
-- destructor undoes none; with one that is refused, the destructor undoes all. Where a failed statement
-- makes SQLite roll the transaction back on its own, the statements before it are undone and those after
-- it stay, uncommitted. Where BEGIN fails, which the constructor does not look at, they all stay.
pub transaction_atomic :
    (body rest : List (Rc × Statement)) (db : Db)
    → db.saved ≡ none
    → (transaction_drop true (within body (transaction_new true db)) ≡ db)
      × (transaction_drop true (transaction_rollback true (within body (transaction_new true db)))
          ≡ db)
      × (transaction_drop true (transaction_commit true (within body (transaction_new true db))).1
          ≡ record {
            tables = (run body (record db { saved = some db.tables })).tables;
            saved = none;
          })
      × (transaction_drop true (transaction_commit false (within body (transaction_new true db))).1
          ≡ db)
      × (transaction_drop true (within rest (interrupted (within body (transaction_new true db))))
          ≡ run rest db)
      × (transaction_drop true (within body (transaction_new false db)) ≡ run body db)
unfolding transaction_new transaction_drop transaction_commit transaction_rollback execute_sql
transaction_atomic body rest db e = (
  ground (arith, inside),
  ground (arith, inside),
  ground (arith, inside),
  ground (arith, inside),
  ground (
    arith,
    inside,
    run-interrupted rest (run body (record db { saved = some db.tables })) db.tables true inside,
  ),
  ground (arith, saved-run body db),
)
  where
    inside : (run body (record db { saved = some db.tables })).saved ≡ some db.tables
    inside = saved-run body (record db { saved = some db.tables })

-- A guard made while a transaction is open does not notice that its BEGIN was refused: dropped
-- without a commit it rolls the outer transaction back, and its commit ends the outer one.
pub transaction_nested :
    (body : List (Rc × Statement)) (db : Db) (outer : Tables)
    → db.saved ≡ some outer
    → (transaction_drop true (within body (transaction_new true db))
        ≡ record { tables = outer; saved = none })
      × (transaction_drop true (transaction_commit true (within body (transaction_new true db))).1
          ≡ record { tables = (run body db).tables; saved = none })
unfolding transaction_new transaction_drop transaction_commit execute_sql
transaction_nested body db outer e =
    (ground (arith, saved-run body db), ground (arith, saved-run body db))
