-- ===== src/Hash/Rolling/Poly.antt =====
-- The polynomial that the rolling hash computes, without the modulus: Horner's scheme in base 31.
use native.Mathlib.Nat.{add-mul-mod_self_right, div-add-mod}
use dropbox_lite.Prelude.{
  ℕ, zero, suc, ◌+◌, ◌*◌, ◌/◌, ◌%◌, ◌≡◌, refl, sym, ap, ◌∙◌, [], ◌∷◌, ◌++◌, Bytes, length, arith,
}
use dropbox_lite.Hash.Rolling.{k_mod}

-- h * 31^n + Σ x_i * 31^(n - 1 - i)
unfoldable pub horner : ℕ → Bytes → ℕ
horner h [] = h
horner h (x ∷ xs) = horner (h * 31 + x) xs

unfoldable pub pow31 : ℕ → ℕ
pow31 zero = 1
pow31 (suc n) = 31 * pow31 n

pub horner_linear : (h : ℕ) (xs : Bytes) → horner h xs ≡ h * pow31 (length xs) + horner 0 xs
unfolding horner pow31
horner_linear h [] = omega arith
horner_linear h (x ∷ xs) =
    omega (arith, horner_linear (h * 31 + x) xs, horner_linear (0 * 31 + x) xs)

pub horner-append : (h : ℕ) (xs : Bytes) (y : ℕ) → horner h (xs ++ y ∷ []) ≡ horner h xs * 31 + y
unfolding horner
horner-append h [] y = refl
horner-append h (x ∷ xs) y = horner-append (h * 31 + x) xs y

-- Reducing the start changes nothing modulo the prime.
pub horner-mod : (h : ℕ) (xs : Bytes) → horner (h % k_mod) xs % k_mod ≡ horner h xs % k_mod
unfolding horner
horner-mod h [] = omega arith
horner-mod h (x ∷ xs) =
    let e : (h % k_mod * 31 + x) % k_mod ≡ (h * 31 + x) % k_mod = omega arith in
    sym (horner-mod (h % k_mod * 31 + x) xs) ∙ rw e (horner-mod (h * 31 + x) xs)

-- A factor may be reduced before it is multiplied.
pub mul-mod : (a b m : ℕ) → (a * (b % m)) % m ≡ (a * b) % m
mul-mod a b m =
    let e : a * b ≡ a * (b % m) + a * (b / m) * m =
      omega (arith, ap (λ (t : ℕ). a * t) (div-add-mod b m)) in
    rw e (sym (add-mul-mod_self_right (a * (b % m)) (a * (b / m)) m))
