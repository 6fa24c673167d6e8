-- ===== src/Sync/Jobs.antt =====
-- Two handlers of uploads over one storage. Each call of the storage runs as one step, and a schedule says
-- whose turn it is.
use mathlib.Core.List.{flatten}
use dropbox_lite.Prelude.{
  ℕ, suc, ◌<◌, ◌^◌, ◌≡◌, ◌≢◌, List, [], ◌∷◌, Option, Bool, true, false, Bytes, Str, All, length,
  str_eq,
}
use dropbox_lite.Prelude.Int.{pos}
use dropbox_lite.Hash.{Ssl}
use dropbox_lite.Storage.{Env, Storage}
use dropbox_lite.Storage.Paths.{NoSlash, get_temp_file_path}
use dropbox_lite.Storage.Store.{Works}
use dropbox_lite.Storage.Finalize.{Finalized}
use dropbox_lite.Sync.{UploadChunkRequest}
use dropbox_lite.Sync.Requests.{contents}
use dropbox_lite.Sync.Upload.{requests}
use dropbox_lite.Sync.Handler.{Handler, answered, handle, stream}

-- Both handlers over one storage: `true` is a turn of the first. A turn of a stream at its end is idle.
module _ (ssl : Ssl) where
  unfoldable pub run_both :
      List Bool
      → List (Env × Option UploadChunkRequest)
      → List (Env × Option UploadChunkRequest)
      → Handler
      → Handler
      → Storage
      → Handler × Handler × Storage
  run_both [] ms ns h k s = (h, k, s)
  run_both (true ∷ turns) [] ns h k s = run_both turns [] ns h k s
  run_both (true ∷ turns) ((env, m) ∷ ms) ns h k s =
      let (h', s') = handle ssl env m h s in run_both turns ms ns h' k s'
  run_both (false ∷ turns) ms [] h k s = run_both turns ms [] h k s
  run_both (false ∷ turns) ms ((env, m) ∷ ns) h k s =
      let (k', s') = handle ssl env m k s in run_both turns ms ns h k' s'

-- How many turns each gets.
abbrev pub turns_of : Bool → List Bool → ℕ
turns_of b [] = 0
turns_of true (true ∷ ts) = suc (turns_of true ts)
turns_of true (false ∷ ts) = turns_of true ts
turns_of false (true ∷ ts) = turns_of false ts
turns_of false (false ∷ ts) = suc (turns_of false ts)

-- An upload of a file: the contents, each with the environment of its call, and that of the end.
pub record Job : Type 0 where
  pub client : Str
  pub path : Str
  pub sent : List (Env × Bytes)
  pub last : Env

abbrev pub total_of : Job → ℕ
total_of j = length (contents j.sent)

module _ (ssl : Ssl) (P : Bytes → Type 0) (root : Str) where
  abbrev pub messages : Job → List (Env × Option UploadChunkRequest)
  messages j = stream ssl (requests ssl P j.client j.path (pos (total_of j)) 0 0 j.sent) j.last

  -- What an upload needs: it has content, none of it empty or colliding, and nothing fails in its calls.
  pub record IsSound (j : Job) : Type 0 where
    pub works : All (λ c. Works c.0) j.sent
    pub ends : Works j.last
    pub known : All P (contents j.sent)
    pub full : All (λ q. q ≢ []) (contents j.sent)
    pub some_content : j.sent ≢ []
    pub few : total_of j < 2 ^ 31
    pub client_named : str_eq j.client [] ≡ false
    pub one_component : NoSlash j.client

  -- What its handler has answered, and what the storage has then.
  abbrev pub IsDone : Job → Handler → Storage → Type 0
  IsDone j h s =
      (h ≡ answered (record { success = true; message = []; chunks_received = pos (total_of j) }))
      × Finalized ssl P (get_temp_file_path root j.client j.path) j.client j.path
          (flatten (contents j.sent)) (true, s)
