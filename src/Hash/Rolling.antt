-- ===== src/Hash/Rolling.antt =====
-- Hash::RollingHash (include/common/hash.h, src/common/hash.cpp): Rabin-Karp over a byte window.
pub mod Poly
pub mod Slide
use dropbox_lite.Prelude.{ℕ, zero, suc, ◌%◌, [], ◌∷◌, Bytes}
use dropbox_lite.Prelude.Words.{add64, sub64, mul64}

abbrev pub k_prime : ℕ
k_prime = 31

abbrev pub k_mod : ℕ
k_mod = 1000000009

pub record RollingHash : Type 0 where
  pub window_size : ℕ
  pub hash : ℕ
  pub power : ℕ

-- The constructor's loop, on the rounds left.
unfoldable pub power_loop : ℕ → ℕ → ℕ
power_loop zero p = p
power_loop (suc n) p = power_loop n (mul64 p k_prime % k_mod)

-- The loop's bound `window_size_ - 1` is a `size_t`, so a window of 0 wraps round.
unfoldable pub new : ℕ → RollingHash
unfolding power_loop
new window_size = record {
  window_size = window_size;
  hash = 0;
  power = power_loop (sub64 window_size 1) 1;
}

unfoldable pub reset : RollingHash → RollingHash
reset r = record r { hash = 0 }

unfoldable pub update : RollingHash → ℕ → ℕ → RollingHash
update r byte_in byte_out =
    let h = sub64 (add64 r.hash k_mod) (mul64 byte_out r.power % k_mod) % k_mod in
    record r { hash = add64 (mul64 h k_prime) byte_in % k_mod }

unfoldable pub append : RollingHash → ℕ → RollingHash
append r byte = record r { hash = add64 (mul64 r.hash k_prime) byte % k_mod }

-- A run of `append` over a buffer.
unfoldable pub append_all : RollingHash → Bytes → RollingHash
unfolding append
append_all r [] = r
append_all r (b ∷ bs) = append_all (append r b) bs
