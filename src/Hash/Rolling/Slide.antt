-- ===== src/Hash/Rolling/Slide.antt =====
-- The rolling hash computes the polynomial modulo the prime, its 64-bit arithmetic never wraps, and
-- `update` moves the window.
use dropbox_lite.Prelude.{
  ℕ, zero, suc, ◌+◌, ◌*◌, ◌-◌, ◌%◌, ◌^◌, ◌<◌, ◌≡◌, refl, ap, ◌∙◌, [], ◌∷◌, ◌++◌, Bytes, All, length,
  arith, All-append,
}
use dropbox_lite.Prelude.Words.{add64, sub64, mul64}
use dropbox_lite.Hash.Rolling.{
  RollingHash, k_prime, k_mod, power_loop, new, update, append, append_all, reset,
}
use dropbox_lite.Hash.Rolling.Poly.{
  horner, pow31, horner_linear, horner-append, horner-mod, mul-mod,
}

-- Both numbers of the state are below the prime.
pub record IsReduced (r : RollingHash) : Type 0 where
  pub hash_reduced : r.hash < k_mod
  pub power_reduced : r.power < k_mod

power_loop-eq-pow31 : (n p : ℕ) → p < k_mod → power_loop n p ≡ (p * pow31 n) % k_mod
unfolding power_loop pow31
power_loop-eq-pow31 zero p h = omega arith
power_loop-eq-pow31 (suc n) p h =
    power_loop-eq-pow31 n (p * 31 % 2 ^ 64 % k_mod) (omega arith)
    ∙ reduce (p * 31 % 2 ^ 64 % k_mod) (omega arith)
  where
    reduce : (q : ℕ) → q ≡ (p * 31) % k_mod → (q * pow31 n) % k_mod ≡ (p * (31 * pow31 n)) % k_mod
    reduce q e = rw e (
        let c : (p * 31) % k_mod * pow31 n ≡ pow31 n * ((p * 31) % k_mod) = omega arith in
        let d : p * (31 * pow31 n) ≡ pow31 n * (p * 31) = omega arith in
        rw (c, d) (mul-mod (pow31 n) (p * 31) k_mod))

hash-append :
    (r : RollingHash) (b : ℕ)
    → r.hash < k_mod
    → b < 256
    → (append r b).hash ≡ (r.hash * 31 + b) % k_mod
unfolding append
hash-append r b h hb = omega arith

-- A run of `append` is Horner's scheme modulo the prime, and keeps the rest of the state.
pub append_all-eq-horner :
    (r : RollingHash) (xs : Bytes)
    → r.hash < k_mod
    → All (λ b. b < 256) xs
    → append_all r xs ≡ record r { hash = horner r.hash xs % k_mod }
unfolding append_all horner append
append_all-eq-horner r [] h bs = ground arith
append_all-eq-horner r (x ∷ xs) h bs =
    append_all-eq-horner (append r x) xs (omega (arith, hash-append r x)) bs.1
    ∙ ap (λ (t : ℕ). record r { hash = t })
        (ap (λ (t : ℕ). horner t xs % k_mod) (hash-append r x h bs.0)
          ∙ horner-mod (r.hash * 31 + x) xs)

-- The arithmetic of `update`, over the product `q` that it takes out.
slide_arith :
    (h q t rest byte_in : ℕ)
    → byte_in < 256
    → q < 2 ^ 64
    → q % k_mod ≡ t % k_mod
    → h ≡ (t + rest) % k_mod
    → add64 (mul64 (sub64 (add64 h k_mod) (q % 2 ^ 64 % k_mod) % k_mod) k_prime) byte_in % k_mod
      ≡ (rest * 31 + byte_in) % k_mod
slide_arith h q t rest byte_in hi hq e hh =
    let x : ℕ = sub64 (add64 h k_mod) (q % 2 ^ 64 % k_mod) % k_mod in
    let taken : x ≡ rest % k_mod = omega arith in rw taken (omega arith)

product_fits : (a b : ℕ) → a < 256 → b < k_mod → a * b < 2 ^ 64
product_fits a b ha hb = grind arith

-- Taking the oldest byte out of the polynomial, modulo the prime.
hash-update :
    (r : RollingHash) (byte_in byte_out p rest : ℕ)
    → byte_in < 256
    → byte_out < 256
    → r.power ≡ p % k_mod
    → r.hash ≡ (byte_out * p + rest) % k_mod
    → (update r byte_in byte_out).hash ≡ (rest * 31 + byte_in) % k_mod
unfolding update
hash-update r byte_in byte_out p rest hi ho hp hh =
    slide_arith r.hash (byte_out * r.power) (byte_out * p) rest byte_in hi
      (product_fits byte_out r.power ho (omega arith)) (rw hp (mul-mod byte_out p k_mod)) hh

power-new : (n : ℕ) → suc n < 2 ^ 64 → (new (suc n)).power ≡ pow31 n % k_mod
unfolding new
power-new n h =
    let e : sub64 (suc n) 1 ≡ n = omega arith in
    rw e (power_loop-eq-pow31 n 1 (omega arith) ∙ ap (λ (t : ℕ). t % k_mod) (omega arith))

hash-new : (w : ℕ) → (new w).hash ≡ 0
unfolding new
hash-new w = refl

-- The window that `update` leaves, from a state that has just been reset.
slides_from :
    (r : RollingHash) (byte_in byte_out : ℕ) (xs : Bytes)
    → r.hash ≡ 0
    → r.power ≡ pow31 (length xs) % k_mod
    → byte_in < 256
    → All (λ b. b < 256) (byte_out ∷ xs)
    → update (append_all r (byte_out ∷ xs)) byte_in byte_out ≡ append_all r (xs ++ byte_in ∷ [])
unfolding update horner
slides_from r byte_in byte_out xs h0 hp hi bs =
    let full = append_all-eq-horner r (byte_out ∷ xs) (omega arith) bs in
    let slid =
      append_all-eq-horner r (xs ++ byte_in ∷ []) (omega arith)
        (All-append (λ (b : ℕ). b < 256) xs (byte_in ∷ []) bs.1 (hi, tt)) in
    let s = record r { hash = horner r.hash (byte_out ∷ xs) % k_mod } in
    rw (full, slid)
      (ap (λ (t : ℕ). record r { hash = t })
        (hash-update s byte_in byte_out (pow31 (length xs)) (horner 0 xs) hi bs.0 hp (
            rw h0 (
              ap (λ (t : ℕ). t % k_mod)
                (horner_linear (0 * 31 + byte_out) xs
                  ∙ ap (λ (t : ℕ). t * pow31 (length xs) + horner 0 xs) (omega arith))))
          ∙ rw (horner-append r.hash xs byte_in, h0)))

-- `update` slides the window: over a window full of bytes it has the effect of hashing the window
-- without its oldest byte and with the new one.
pub update_slides :
    (byte_in byte_out : ℕ) (xs : Bytes)
    → byte_in < 256
    → All (λ b. b < 256) (byte_out ∷ xs)
    → suc (length xs) < 2 ^ 64
    → update (append_all (new (suc (length xs))) (byte_out ∷ xs)) byte_in byte_out
      ≡ append_all (new (suc (length xs))) (xs ++ byte_in ∷ [])
update_slides byte_in byte_out xs hi bs fits =
    slides_from (new (suc (length xs))) byte_in byte_out xs (hash-new (suc (length xs)))
      (power-new (length xs) fits) hi bs

-- The state stays below the prime under every operation, and the operations are then the unbounded
-- arithmetic modulo the prime: the 64-bit steps of the C++ never wrap.
pub roll-IsReduced :
    (r : RollingHash) (byte_in byte_out : ℕ)
    → IsReduced r
    → byte_in < 256
    → byte_out < 256
    → IsReduced (append r byte_in)
      × ((append r byte_in).hash ≡ (r.hash * 31 + byte_in) % k_mod)
      × IsReduced (update r byte_in byte_out)
      × ((update r byte_in byte_out).hash
          ≡ ((r.hash + k_mod - byte_out * r.power % k_mod) * 31 + byte_in) % k_mod)
      × IsReduced (reset r)
unfolding append update reset
roll-IsReduced r byte_in byte_out v hi ho =
    let fits = product_fits byte_out r.power ho v.power_reduced in
    (omega arith, omega arith, omega arith, omega (arith, fits), omega arith)
