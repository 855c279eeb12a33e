-- ===== src/Bootstrap/BitLength.antt =====
-- `int.bit_length`
use native.Mathlib.Nat.{pow-suc}
use lattica_studio.Prelude.{ℕ, zero, suc, ◌/◌, ◌^◌, ◌<◌, ◌≤◌, ◌≡◌, ◌==◌, if◌then◌else◌, arith}

-- A number has at most as many bits as its value, so that value is fuel enough.
unfoldable pub bits_with : ℕ → ℕ → ℕ
bits_with zero n = 0
bits_with (suc fuel) n = let rest = bits_with fuel (n / 2) in if n == 0 then 0 else suc rest

unfoldable pub bit_length : ℕ → ℕ
unfolding bits_with
bit_length n = bits_with n n

bits_zero : (fuel n : ℕ) → n ≤ fuel → bits_with fuel n ≡ 0 → n ≡ 0
unfolding bits_with
bits_zero zero n h e = omega arith
bits_zero (suc fuel) n h e = ground arith

bits_bound : (fuel n k : ℕ) → n ≤ fuel → bits_with fuel n ≡ suc k → (2 ^ k ≤ n) × (n < 2 ^ suc k)
unfolding bits_with
bits_bound zero n k h e = absurd (omega arith)
bits_bound (suc fuel) n zero h e = ground (arith, bits_zero fuel (n / 2))
bits_bound (suc fuel) n (suc j) h e =
    ground (arith, bits_bound fuel (n / 2) j, pow-suc 2 j, pow-suc 2 (suc j))

-- `n.bit_length() - 1` is the logarithm, rounded down.
pub bit_length_bounds : (n k : ℕ) → bit_length n ≡ suc k → (2 ^ k ≤ n) × (n < 2 ^ suc k)
unfolding bit_length
bit_length_bounds n k h = bits_bound n n k (omega arith) h
