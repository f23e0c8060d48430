-- ===== src/Base/Words.antt =====
-- Powers of two and fields of machine words.
use Prim.Native.Nat.{ℕ, zero, suc, ◌+◌, ◌*◌, ◌/◌, ◌%◌, ◌^◌, ◌<◌}
use mathlib.Core.Path.{◌≡◌, ap}
use native.Mathlib.Nat.{pow-suc, add-suc, add-zero, div-lt_iff_lt-mul, mod-lt}
use native.Mathlib.Omega.{arith}

pub pow_pos : (n : ℕ) → 0 < 2 ^ n
pow_pos zero = omega arith
pow_pos (suc n) = rw pow-suc (omega (arith, pow_pos n))

pub pow-add : (a b : ℕ) → 2 ^ (a + b) ≡ 2 ^ a * 2 ^ b
pow-add a zero = rw add-zero (omega arith)
pow-add a (suc b) =
    rw add-suc
      (omega (arith, pow-suc 2 (a + b), pow-add a b, ap (λ (t : ℕ). 2 ^ a * t) (pow-suc 2 b)))

-- The upper `a` bits of the lower `a + b` bits.
pub field-lt : (x a b : ℕ) → (x % 2 ^ (a + b)) / 2 ^ b < 2 ^ a
field-lt x a b = (div-lt_iff_lt-mul (pow_pos b)).1 (rw (← pow-add a b) (mod-lt x (pow_pos (a + b))))
