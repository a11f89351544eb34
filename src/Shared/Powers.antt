-- ===== src/Shared/Powers.antt =====
-- Powers of two, as the shifts of the backoffs read them.
use Prim.Native.Nat.{ℕ, zero, suc, ◌+◌, ◌-◌, ◌^◌, ◌≤◌}
use mathlib.Core.Path.{◌≡◌}
use native.Mathlib.Nat.{pow-suc}
use native.Mathlib.Omega.{arith}

pub pow2-pos : (n : ℕ) → 1 ≤ 2 ^ n
pow2-pos zero = omega arith
pow2-pos (suc n) = omega (arith, pow2-pos n, pow-suc 2 n)

pow2-add : (n k : ℕ) → 2 ^ n ≤ 2 ^ (k + n)
pow2-add n zero = let e : zero + n ≡ n = omega arith in rw e (omega arith)
pow2-add n (suc k) =
    let e : suc k + n ≡ suc (k + n) = omega arith in
    rw e (omega (arith, pow2-add n k, pow-suc 2 (k + n)))

pub pow2_mono : (n m : ℕ) → n ≤ m → 2 ^ n ≤ 2 ^ m
pow2_mono n m h = let e : m ≡ (m - n) + n = omega arith in rw e (pow2-add n (m - n))
