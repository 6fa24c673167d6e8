-- ===== src/Storage/Opening.antt =====
-- `getClientDB` (src/server/storage_manager.cpp) over a database file that is there or is not: the schema
-- finds its tables or makes them.
use dropbox_lite.Prelude.{
  ◌≡◌, refl, ◌∷◌, Bool, true, false, ◌&&◌, Option, none, some, Str, if◌then◌else◌,
}
use dropbox_lite.Prelude.Dict.{get, put}
use dropbox_lite.Metadata.{Db, initialize}
use dropbox_lite.Storage.{Env, Storage, is_open, or_new, stored_tables, get_client_db}

-- What a client's database is opened as.
abbrev pub as_opened : Option Db → Db
as_opened d = record { tables = (or_new d).tables; saved = none }

initialize-stored :
    (opened carried_out : Bool) (d : Option Db)
    → initialize opened carried_out (stored_tables d) ≡ (opened && carried_out, as_opened d)
unfolding initialize
initialize-stored opened true none = refl
initialize-stored opened true (some db) = refl
initialize-stored opened false none = refl
initialize-stored opened false (some db) = refl

abbrev pub opening : Env → Str → Storage → Bool × Storage
opening env client s =
    if is_open s.client_dbs client
    then (true, s)
    else if env.db_opens client && env.db_created client
    then (
      true,
      record s {
        dbs = put s.dbs client (as_opened (get s.dbs client));
        client_dbs = client ∷ s.client_dbs;
      },
    )
    else (false, s)

-- A database is opened with the tables that are in its file, or with empty ones.
pub get_client_db-opening :
    (env : Env) (client : Str) (s : Storage) → get_client_db env client s ≡ opening env client s
unfolding get_client_db
get_client_db-opening env client s =
    rw (initialize-stored (env.db_opens client) (env.db_created client) (get s.dbs client)) refl
