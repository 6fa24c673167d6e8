-- ===== src/Server/Exit.antt =====
-- When the server exits.
use dropbox_lite.Prelude.{
  ℕ, zero, suc, ◌+◌, ◌<◌, ◌≡◌, refl, ap, subst, ◌∙◌, List, [], ◌∷◌, ◌++◌, Option, none, some, Bool,
  true, false, Str, arith,
}
use dropbox_lite.Server.{Action, sleep, wait_loop, starting, serving, stopping, main}

abbrev pub sleeps : ℕ → List Action
sleeps zero = []
sleeps (suc n) = sleep ∷ sleeps n

-- One more sleep, where the rest of the loop ends.
abbrev later : Option (List Action) → Option (List Action)
later none = none
later (some as') = some (sleep ∷ as')

wait_loop-off :
    (rounds : ℕ) (running : ℕ → Bool) (i : ℕ)
    → running i ≡ false
    → wait_loop (suc rounds) running i ≡ some []
unfolding wait_loop
wait_loop-off rounds running i e = ground arith

wait_loop-on :
    (rounds : ℕ) (running : ℕ → Bool) (i : ℕ)
    → running i ≡ true
    → wait_loop (suc rounds) running i ≡ later (wait_loop rounds running (suc i))
unfolding wait_loop
wait_loop-on rounds running i e = ground arith

wait_loop-sleeps :
    (n rounds : ℕ) (running : ℕ → Bool) (i : ℕ)
    → n < rounds
    → ((k : ℕ) → k < n → running (i + k) ≡ true)
    → running (i + n) ≡ false
    → wait_loop rounds running i ≡ some (sleeps n)
wait_loop-sleeps n zero running i h up down = absurd (omega arith)
wait_loop-sleeps zero (suc rounds) running i h up down =
    wait_loop-off rounds running i (subst (λ (k : ℕ). running k ≡ false) (omega arith) down)
wait_loop-sleeps (suc n) (suc rounds) running i h up down =
    wait_loop-on rounds running i
      (subst (λ (k : ℕ). running k ≡ true) (omega arith) (up 0 (omega arith)))
    ∙ ap later (
        wait_loop-sleeps n rounds running (suc i) (omega arith)
          (λ k small. subst (λ (j : ℕ). running j ≡ true) (omega arith) (up (suc k) (omega arith)))
          (subst (λ (j : ℕ). running j ≡ false) (omega arith) down))

-- With a storage root and a port the server exits: with 1 and an error where none could be built, and
-- otherwise with 0, once the flag is cleared, after a sleep for each second before; the flag is cleared at
-- the reading `n`, and one round for each reading is enough.
pub main_exits :
    (n rounds : ℕ) (storage_root port : Str) (more : List Str) (running : ℕ → Bool)
    → n < rounds
    → ((k : ℕ) → k < n → running k ≡ true)
    → running n ≡ false
    → (main rounds (storage_root ∷ port ∷ more) true running
        ≡ some (starting storage_root port ++ (serving ++ (sleeps n ++ stopping)), 0))
      × ((acts : List Action) × (main rounds (storage_root ∷ port ∷ more) false running
            ≡ some (acts, 1)))
unfolding main
main_exits n rounds storage_root port more running h up down =
    let waits =
      wait_loop-sleeps n rounds running 0 h
        (λ k small. subst (λ (j : ℕ). running j ≡ true) (omega arith) (up k small))
        (subst (λ (j : ℕ). running j ≡ false) (omega arith) down) in
    (ground arith, (_, refl))
