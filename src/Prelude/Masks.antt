-- ===== src/Prelude/Masks.antt =====
-- What the code's tests and updates by a mask say of the digits of a number.
use Prim.Native.Nat.{ℕ, zero, suc, ◌-◌, ◌*◌, ◌/◌, ◌^◌, ◌≤◌, ◌<◌, min, bit_and, bit_or}
use mathlib.Core.Path.{◌≡◌, refl, ◌∙◌}
use mathlib.Core.Logic.{◌≢◌}
use native.Mathlib.Omega.{arith}
use native.Mathlib.Nat.{one-le-pow, pow-suc}
use ntb_cxl.Prelude.Tests.{◌==◌, is_nonzero, not32, not64}
use ntb_cxl.Prelude.Bits.{bit, bit-le, bit-bit_and, bit-bit_or, bit-complement, bit_and-pow}

nonzero_mul : (b p : ℕ) → b ≤ 1 → 1 ≤ p → is_nonzero (b * p) ≡ (b == 1)
nonzero_mul zero p h q = ground arith
nonzero_mul (suc zero) (suc p) h q = ground arith
nonzero_mul (suc zero) zero h q = absurd (omega arith)
nonzero_mul (suc (suc b)) p h q = absurd (omega arith)

-- `x & (1 << k)` is true when digit `k` is 1.
pub test_bit : (x k : ℕ) → is_nonzero (bit_and x (2 ^ k)) ≡ (bit x k == 1)
test_bit x k =
    rw (bit_and-pow x k) (nonzero_mul (bit x k) (2 ^ k) (bit-le x k) (one-le-pow k 2 (omega arith)))

flip_eq : (b c : ℕ) → b ≤ 1 → c ≡ 1 - b → (c == 1) ≡ (b == 0)
flip_eq b c h e = ground arith

-- `~x & (1 << k)` is true when digit `k` is 0.
pub test_not32 :
    (x k : ℕ) → x < 2 ^ 32 → k < 32 → is_nonzero (bit_and (not32 x) (2 ^ k)) ≡ (bit x k == 0)
test_not32 x k h lt =
    test_bit (not32 x) k ∙ flip_eq (bit x k) _ (bit-le x k) (bit-complement 32 x k h lt)

pub test_not64 :
    (x k : ℕ) → x < 2 ^ 64 → k < 64 → is_nonzero (bit_and (not64 x) (2 ^ k)) ≡ (bit x k == 0)
test_not64 x k h lt =
    test_bit (not64 x) k ∙ flip_eq (bit x k) _ (bit-le x k) (bit-complement 64 x k h lt)

-- Digit `k` of the mask `1 << k`, and its other digits.
pub bit-pow_self : (k : ℕ) → bit (2 ^ k) k ≡ 1
unfolding bit
bit-pow_self zero = refl
bit-pow_self (suc k) =
    let halved : 2 ^ suc k / 2 ≡ 2 ^ k = omega (arith, pow-suc 2 k) in rw halved (bit-pow_self k)

bit-zero : (j : ℕ) → bit 0 j ≡ 0
unfolding bit
bit-zero zero = refl
bit-zero (suc j) = bit-zero j

bit-one : (j : ℕ) → bit 1 (suc j) ≡ 0
unfolding bit
bit-one j = bit-zero j

pub bit-pow_ne : (k j : ℕ) → j ≢ k → bit (2 ^ k) j ≡ 0
unfolding bit
bit-pow_ne zero zero ne = absurd (ne refl)
bit-pow_ne zero (suc j) ne = bit-zero j
bit-pow_ne (suc k) zero ne = omega (arith, pow-suc 2 k)
bit-pow_ne (suc k) (suc j) ne =
    let halved : 2 ^ suc k / 2 ≡ 2 ^ k = omega (arith, pow-suc 2 k) in
    rw halved (bit-pow_ne k j (λ e. ne (omega (arith, e))))

-- `x |= 1 << k` sets digit `k` and keeps the others.
pub set_bit_self : (x k : ℕ) → bit (bit_or x (2 ^ k)) k ≡ 1
set_bit_self x k = omega (arith, bit-bit_or x (2 ^ k) k, bit-pow_self k, bit-le x k)

pub set_bit_ne : (x k j : ℕ) → j ≢ k → bit (bit_or x (2 ^ k)) j ≡ bit x j
set_bit_ne x k j ne = omega (arith, bit-bit_or x (2 ^ k) j, bit-pow_ne k j ne)

-- `x &= ~val` clears the digits that are 1 in `val`, and keeps the others.
pub clear_bits :
    (x val k : ℕ)
    → val < 2 ^ 64
    → k < 64
    → bit (bit_and x (not64 val)) k ≡ min (bit x k) (1 - bit val k)
clear_bits x val k h lt = rw (bit-bit_and x (not64 val) k, bit-complement 64 val k h lt)
