-- ===== src/Storage/Racing/Progress.antt =====
-- Threads that store the same content come to an end of it.
use dropbox_lite.Prelude.{
  sum_over, sum_over-move, replicate, ℕ, zero, suc, ◌+◌, ◌*◌, ◌≤◌, ◌<◌, ◌≡◌, ◌⊎◌, refl, ap, List,
  [], ◌∷◌, ◌++◌, some, true, false, Bytes, Str, arith, if_both, inl, inr,
}
use dropbox_lite.Prelude.Dict.{get}
use dropbox_lite.Storage.{Storage, has_chunk, get_chunk}
use dropbox_lite.Storage.Paths.{get_chunk_path}
use dropbox_lite.Storage.Racing.{
  Stage, testing, absent, opened, past, World, Step, test, make, refuse, write, tested, with_chunk,
  Reachable, begun, stepped, is_writing, is_stored, started, racing_whole,
}

-- How many steps a thread has before it at most.
abbrev pub ahead : Stage → ℕ
ahead testing = 3
ahead absent = 2
ahead opened = 1
ahead (past b) = 0

-- The threads that have all begun to store the content.
abbrev pub calls : ℕ → List Stage
calls n = replicate n testing

-- A thread that is not past the call, and those on its two sides.
abbrev Going : List Stage → Type 0
Going ts = (us : List Stage) × (t : Stage) × (vs : List Stage) × (ts ≡ us ++ t ∷ vs) × (0 < ahead t)

Going-cons : (t : Stage) (ts : List Stage) → Going ts → Going (t ∷ ts)
Going-cons t ts (us, u, vs, e, h) = (t ∷ us, u, vs, ap (◌∷◌ t) e, h)

over_or_Going : (ts : List Stage) → (sum_over ahead ts ≡ 0) ⊎ Going ts
unfolding sum_over
over_or_Going [] = inl refl
over_or_Going (testing ∷ ts) = inr ([], testing, ts, refl, omega arith)
over_or_Going (absent ∷ ts) = inr ([], absent, ts, refl, omega arith)
over_or_Going (opened ∷ ts) = inr ([], opened, ts, refl, omega arith)
over_or_Going (past b ∷ ts) = elim (over_or_Going ts) [
  | inl over ↦ inl (omega (arith, over))
  | inr going ↦ inr (Going-cons (past b) ts going)
]

calls-ahead : (n : ℕ) → sum_over ahead (calls n) ≡ n * 3
unfolding sum_over
calls-ahead zero = refl
calls-ahead (suc n) = omega (arith, calls-ahead n)

calls-is_writing : (n : ℕ) → sum_over is_writing (calls n) ≡ 0
unfolding sum_over
calls-is_writing zero = refl
calls-is_writing (suc n) = omega (arith, calls-is_writing n)

calls-is_stored : (n : ℕ) → sum_over is_stored (calls n) ≡ 0
unfolding sum_over
calls-is_stored zero = refl
calls-is_stored (suc n) = omega (arith, calls-is_stored n)

over-is_writing : (ts : List Stage) → sum_over ahead ts ≡ 0 → sum_over is_writing ts ≡ 0
unfolding sum_over
over-is_writing [] e = refl
over-is_writing (testing ∷ ts) e = absurd (omega (arith, e))
over-is_writing (absent ∷ ts) e = absurd (omega (arith, e))
over-is_writing (opened ∷ ts) e = absurd (omega (arith, e))
over-is_writing (past b ∷ ts) e = omega (arith, over-is_writing ts (omega (arith, e)))

module _ (bytes : Bytes) (hash : Str) where
  tested-ahead : (s : Storage) → ahead (tested hash s) ≤ 2
  tested-ahead s =
      if_both (λ (t : Stage). ahead t ≤ 2) (has_chunk hash s) (omega arith) (omega arith)

  Step-ahead :
      (w v : World) → Step bytes hash w v → sum_over ahead v.threads < sum_over ahead w.threads
  Step-ahead w _ (test _ us vs e) = omega (
    arith,
    tested-ahead w.storage,
    sum_over-move ahead w.threads us vs testing (tested hash w.storage) e,
  )
  Step-ahead w _ (make _ us vs e) =
      omega (arith, sum_over-move ahead w.threads us vs absent opened e)
  Step-ahead w _ (refuse _ us vs e) =
      omega (arith, sum_over-move ahead w.threads us vs absent (past false) e)
  Step-ahead w _ (write _ us vs e) =
      omega (arith, sum_over-move ahead w.threads us vs opened (past true) e)

  Reachable-ahead :
      (s : World) (k : ℕ) (w : World)
      → Reachable bytes hash s k w
      → k + sum_over ahead w.threads ≤ sum_over ahead s.threads
  Reachable-ahead s _ _ begun = omega arith
  Reachable-ahead s _ v (stepped k w _ r st) =
      omega (arith, Step-ahead w v st, Reachable-ahead s k w r)

  go_on : (w : World) → Going w.threads → (v : World) × Step bytes hash w v
  go_on w (us, testing, vs, e, h) =
      (record w { threads = us ++ tested hash w.storage ∷ vs }, test w us vs e)
  go_on w (us, absent, vs, e, h) = (
    record { storage = with_chunk hash [] w.storage; threads = us ++ opened ∷ vs },
    make w us vs e,
  )
  go_on w (us, opened, vs, e, h) = (
    record { storage = with_chunk hash bytes w.storage; threads = us ++ past true ∷ vs },
    write w us vs e,
  )
  go_on w (us, past b, vs, e, h) = absurd (omega (arith, h))

  -- Several threads store the same content under its hash, and the test for the file, its opening and its
  -- writing are steps between which the others take theirs. In whatever order, there are at most three
  -- steps for each thread; as long as a thread is not past its call a step can be taken, and when all are,
  -- the chunk reads as the content, unless no thread was answered `true`. The chunk was not there, or whole,
  -- before; a write that is done is done to its end.
  pub racing_ends :
      (s : Storage) (n k : ℕ) (w : World)
      → (has_chunk hash s ≡ false) ⊎ (get s.files (get_chunk_path s.storage_root hash) ≡ some bytes)
      → Reachable bytes hash (started s (calls n)) k w
      → (k ≤ n * 3)
        × (((v : World) × Step bytes hash w v)
            ⊎ ((sum_over ahead w.threads ≡ 0)
                × ((get_chunk hash w.storage ≡ bytes) ⊎ (sum_over is_stored w.threads ≡ 0))))
  racing_ends s n k w before r = (
    omega (arith, Reachable-ahead (started s (calls n)) k w r, calls-ahead n),
    elim (over_or_Going w.threads) [
      | inl over ↦ inr (
        over,
        racing_whole bytes hash s (calls n) k w before (calls-is_writing n) (calls-is_stored n) r
            (over-is_writing w.threads over),
      )
      | inr going ↦ inl (go_on w going)
    ],
  )
