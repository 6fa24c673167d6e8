-- ===== src/Server.antt =====
-- The server's main function (src/server/main.cpp): what it does, in order, and the code it returns.
-- gRPC builds a server or none; the flag `running` is read once a second.
pub mod Exit
use dropbox_lite.Prelude.{
  ℕ, zero, suc, ◌≡◌, List, [], ◌∷◌, ◌++◌, Option, none, some, Bool, true, false, Str, codes,
  if◌then◌else◌,
}
use dropbox_lite.Logger.{LogLevel, info, error}

pub data Action : Type 0 where
  usage : Action
  set_level : LogLevel → Action
  set_log_file : Str → Action
  log : LogLevel → Str → Action
  -- The service is made for a storage root and registered at an address.
  create_service : Str → Action
  listen : Str → Action
  -- SIGINT and SIGTERM clear the flag from here on.
  handle_signals : Action
  sleep : Action
  shut_down : Action

abbrev pub server_address : Str → Str
server_address port = codes "0.0.0.0:" ++ port

-- The loop, on the rounds looked at, from the reading `i` of the flag on.
unfoldable pub wait_loop : ℕ → (ℕ → Bool) → ℕ → Option (List Action)
wait_loop zero running i = none
wait_loop (suc rounds) running i = elim (running i) [
  | false ↦ some []
  | true ↦ elim (wait_loop rounds running (suc i)) [ none ↦ none | some as' ↦ some (sleep ∷ as') ]
]

abbrev pub starting : Str → Str → List Action
starting storage_root port =
    set_level info
    ∷ set_log_file (codes "dropbox_server.log")
    ∷ log info (codes "Starting Dropbox Lite Server")
    ∷ log info (codes "Storage root: " ++ storage_root)
    ∷ log info (codes "Listening on: " ++ server_address port)
    ∷ create_service storage_root
    ∷ listen (server_address port)
    ∷ []

abbrev pub stopping : List Action
stopping = log info (codes "Shutting down server...") ∷ shut_down ∷ []

abbrev pub serving : List Action
serving = log info (codes "Server started successfully") ∷ handle_signals ∷ []

-- The arguments after the program's name; `none` where the flag is not seen cleared in the rounds.
unfoldable pub main : ℕ → List Str → Bool → (ℕ → Bool) → Option (List Action × ℕ)
main rounds [] built running = some (usage ∷ [], 1)
main rounds (storage_root ∷ []) built running = some (usage ∷ [], 1)
main rounds (storage_root ∷ port ∷ _) built running = elim built [
  | false ↦ some (starting storage_root port ++ log error (codes "Failed to start server") ∷ [], 1)
  | true ↦ elim (wait_loop rounds running 0) [
    | none ↦ none
    | some waits ↦ some (starting storage_root port ++ (serving ++ (waits ++ stopping)), 0)
  ]
]
