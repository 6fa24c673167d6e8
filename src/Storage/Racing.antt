-- ===== src/Storage/Racing.antt =====
-- Several threads that store the same content under its hash at the same time: the test for the file, its
-- opening and its writing are steps of their own, between which other threads take theirs.
pub mod Progress
use dropbox_lite.Prelude.{
  sum_over, sum_over-move, if_both, ℕ, ◌<◌, ◌≡◌, ◌⊎◌, refl, ap, List, [], ◌∷◌, ◌++◌, Option, none,
  some, Bool, true, false, suc, Bytes, Str, arith, if◌then◌else◌, inl, inr,
}
use dropbox_lite.Prelude.Dict.{get, put, get-put_self, has-get}
use dropbox_lite.Storage.{Storage, has_chunk, get_chunk, or_nothing}
use dropbox_lite.Storage.Paths.{get_chunk_path}

-- Where a thread is in `storeChunk`: before the test, before the opening, before the write, or past them.
pub data Stage : Type 0 where
  testing absent opened : Stage
  past : Bool → Stage

pub record World : Type 0 where
  pub storage : Storage
  pub threads : List Stage

abbrev pub tested : Str → Storage → Stage
tested hash s = if has_chunk hash s then past true else absent

abbrev pub with_chunk : Str → Bytes → Storage → Storage
with_chunk hash d s = record s { files = put s.files (get_chunk_path s.storage_root hash) d }

pub data Step (bytes : Bytes) (hash : Str) : World → World → Type 0 where
  test :
      (w : World) (us vs : List Stage)
      → w.threads ≡ us ++ testing ∷ vs
      → Step bytes hash w (record w { threads = us ++ tested hash w.storage ∷ vs })
  make :
      (w : World) (us vs : List Stage)
      → w.threads ≡ us ++ absent ∷ vs
      → Step bytes hash w
          (record { storage = with_chunk hash [] w.storage; threads = us ++ opened ∷ vs })
  refuse :
      (w : World) (us vs : List Stage)
      → w.threads ≡ us ++ absent ∷ vs
      → Step bytes hash w (record w { threads = us ++ past false ∷ vs })
  write :
      (w : World) (us vs : List Stage)
      → w.threads ≡ us ++ opened ∷ vs
      → Step bytes hash w
          (record { storage = with_chunk hash bytes w.storage; threads = us ++ past true ∷ vs })

-- What is reached by so many steps.
pub data Reachable (bytes : Bytes) (hash : Str) (start : World) : ℕ → World → Type 0 where
  begun : Reachable bytes hash start 0 start
  stepped :
      (k : ℕ) (w v : World)
      → Reachable bytes hash start k w
      → Step bytes hash w v
      → Reachable bytes hash start (suc k) v

-- Whether a thread has the file open, and whether it has been answered `true`.
abbrev pub is_writing : Stage → ℕ
is_writing opened = 1
is_writing _ = 0

abbrev pub is_stored : Stage → ℕ
is_stored (past true) = 1
is_stored _ = 0

abbrev pub started : Storage → List Stage → World
started s threads = record { storage = s; threads = threads }

module _ (bytes : Bytes) (hash : Str) where
  abbrev found : Storage → Option Bytes
  found s = get s.files (get_chunk_path s.storage_root hash)

  -- The chunk is not there and no one has it, or it is empty and someone has it open, or it is whole.
  abbrev IsSafe : World → Type 0
  IsSafe w =
      ((found w.storage ≡ none)
        × (sum_over is_writing w.threads ≡ 0)
        × (sum_over is_stored w.threads ≡ 0))
      ⊎ (((found w.storage ≡ some []) × (0 < sum_over is_writing w.threads))
          ⊎ (found w.storage ≡ some bytes))

  tested-none : (s : Storage) → found s ≡ none → tested hash s ≡ absent
  tested-none s e =
      unfold has_chunk in ground (arith, has-get s.files (get_chunk_path s.storage_root hash), e)

  tested-writing : (s : Storage) → is_writing (tested hash s) ≡ 0
  tested-writing s = if_both (λ (t : Stage). is_writing t ≡ 0) (has_chunk hash s) refl refl

  Step-IsSafe : (w v : World) → Step bytes hash w v → IsSafe w → IsSafe v
  Step-IsSafe w _ (test _ us vs e) (inl (gone, writing, done)) =
      let t = tested-none w.storage gone in
      inl (
        gone,
        omega (
          arith,
          writing,
          ap is_writing t,
          sum_over-move is_writing w.threads us vs testing (tested hash w.storage) e,
        ),
        omega (
          arith,
          done,
          ap is_stored t,
          sum_over-move is_stored w.threads us vs testing (tested hash w.storage) e,
        ),
      )
  Step-IsSafe w _ (test _ us vs e) (inr (inl (empty, writing))) = inr (
      inl (
        empty,
        omega (
          arith,
          writing,
          tested-writing w.storage,
          sum_over-move is_writing w.threads us vs testing (tested hash w.storage) e,
        ),
      ))
  Step-IsSafe w _ (test _ us vs e) (inr (inr whole)) = inr (inr whole)
  Step-IsSafe w _ (make _ us vs e) h = inr (
      inl (
        get-put_self w.storage.files (get_chunk_path w.storage.storage_root hash) [],
        omega (arith, sum_over-move is_writing w.threads us vs absent opened e),
      ))
  Step-IsSafe w _ (refuse _ us vs e) (inl (gone, writing, done)) = inl (
    gone,
    omega (arith, writing, sum_over-move is_writing w.threads us vs absent (past false) e),
    omega (arith, done, sum_over-move is_stored w.threads us vs absent (past false) e),
  )
  Step-IsSafe w _ (refuse _ us vs e) (inr (inl (empty, writing))) = inr (
      inl (
        empty,
        omega (arith, writing, sum_over-move is_writing w.threads us vs absent (past false) e),
      ))
  Step-IsSafe w _ (refuse _ us vs e) (inr (inr whole)) = inr (inr whole)
  Step-IsSafe w _ (write _ us vs e) h =
      inr (inr (get-put_self w.storage.files (get_chunk_path w.storage.storage_root hash) bytes))

  Reachable-IsSafe :
      (s : World) (k : ℕ) (w : World) → Reachable bytes hash s k w → IsSafe s → IsSafe w
  Reachable-IsSafe s _ _ begun h = h
  Reachable-IsSafe s _ v (stepped k w _ r st) h = Step-IsSafe w v st (Reachable-IsSafe s k w r h)

  -- A chunk that was not there, or was whole, when no thread had begun to write it: after any steps, and as
  -- soon as no thread has it open, either it reads as the content, or no thread has been answered `true`.
  pub racing_whole :
      (s : Storage) (threads : List Stage) (k : ℕ) (w : World)
      → (has_chunk hash s ≡ false) ⊎ (get s.files (get_chunk_path s.storage_root hash) ≡ some bytes)
      → sum_over is_writing threads ≡ 0
      → sum_over is_stored threads ≡ 0
      → Reachable bytes hash (started s threads) k w
      → sum_over is_writing w.threads ≡ 0
      → (get_chunk hash w.storage ≡ bytes) ⊎ (sum_over is_stored w.threads ≡ 0)
  unfolding get_chunk
  racing_whole s threads k w before none_writing none_stored r ended =
      let start : IsSafe (started s threads) = elim before [
        | inl gone ↦ inl (
          unfold has_chunk in
              ground (arith, has-get s.files (get_chunk_path s.storage_root hash), gone),
          none_writing,
          none_stored,
        )
        | inr whole ↦ inr (inr whole)
      ] in
      elim (Reachable-IsSafe (started s threads) k w r start) [
        | inl (_, _, none_yet) ↦ inr none_yet
        | inr (inl (_, writing)) ↦ absurd (omega (arith, writing, ended))
        | inr (inr whole) ↦ inl (ap or_nothing whole)
      ]
