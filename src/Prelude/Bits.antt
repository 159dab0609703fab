-- ===== src/Prelude/Bits.antt =====
-- The binary digits of `&`, `|` and `~` at variables.
use Prim.Native.Nat.{
  ℕ, zero, suc, ◌+◌, ◌-◌, ◌*◌, ◌/◌, ◌%◌, ◌^◌, ◌≤◌, ◌<◌, min, max, bit_and, bit_or, digits, bitwise,
  bit_and-bitwise, bit_or-bitwise,
}
use mathlib.Core.Path.{◌≡◌, refl, ap, ◌∙◌}
use native.Mathlib.Nat.{pow-suc}
use native.Mathlib.Omega.{arith}

-- The fuel of the native operation: one round more than enough changes nothing, nor do more.
spare_round :
    (z : ℕ → ℕ) (op : ℕ → ℕ → ℕ) (rounds x y : ℕ)
    → x ≤ rounds
    → digits z op (suc rounds) x y ≡ digits z op rounds x y
spare_round z op rounds zero y enough =
    elim rounds as (λ r. digits z op (suc r) 0 y ≡ digits z op r 0 y) [ zero ↦ refl | suc _ ↦ refl ]
spare_round z op zero (suc x) y enough = absurd (omega arith)
spare_round z op (suc rounds) (suc x) y enough =
    ap (λ (high : ℕ). high * 2 + op (suc x % 2) (y % 2))
      (spare_round z op rounds (suc x / 2) (y / 2) (omega arith))

spare_rounds :
    (z : ℕ → ℕ) (op : ℕ → ℕ → ℕ) (k rounds x y : ℕ)
    → x ≤ rounds
    → digits z op (k + rounds) x y ≡ digits z op rounds x y
spare_rounds z op zero rounds x y enough = ap (λ r. digits z op r x y) (omega arith)
spare_rounds z op (suc k) rounds x y enough =
    ap (λ r. digits z op r x y) {y = suc (k + rounds)} (omega arith)
    ∙ (spare_round z op (k + rounds) x y (omega arith) ∙ spare_rounds z op k rounds x y enough)

-- The lowest digit of the result, and its other digits.
bitwise_split :
    (z : ℕ → ℕ) (op : ℕ → ℕ → ℕ) (x y : ℕ)
    → 0 < x
    → bitwise z op x y ≡ op (x % 2) (y % 2) + 2 * bitwise z op (x / 2) (y / 2)
bitwise_split z op zero y some_digit = absurd (omega arith)
bitwise_split z op (suc x) y some_digit =
    let half = suc x / 2 in
    let rest : digits z op x half (y / 2) ≡ bitwise z op half (y / 2) =
      ap (λ r. digits z op r half (y / 2)) (omega arith)
      ∙ spare_rounds z op (x - half) half half (y / 2) (omega arith) in
    omega (arith, rest)

or_split : (x y : ℕ) → bit_or x y ≡ max (x % 2) (y % 2) + 2 * bit_or (x / 2) (y / 2)
or_split zero y = omega (arith, bit_or-bitwise 0 y, bit_or-bitwise 0 (y / 2))
or_split (suc x) y = omega (
  arith,
  bitwise_split (λ rest. rest) max (suc x) y,
  bit_or-bitwise (suc x) y,
  bit_or-bitwise (suc x / 2) (y / 2),
)

and_split : (x y : ℕ) → bit_and x y ≡ min (x % 2) (y % 2) + 2 * bit_and (x / 2) (y / 2)
and_split zero y = omega (arith, bit_and-bitwise 0 y, bit_and-bitwise 0 (y / 2))
and_split (suc x) y = omega (
  arith,
  bitwise_split (λ rest. 0) min (suc x) y,
  bit_and-bitwise (suc x) y,
  bit_and-bitwise (suc x / 2) (y / 2),
)

pub zero-bit_and : (b : ℕ) → bit_and 0 b ≡ 0
zero-bit_and = bit_and-bitwise 0

-- Binary digit `k` of a number: 0 or 1.
unfoldable pub bit : ℕ → ℕ → ℕ
bit x zero = x % 2
bit x (suc k) = bit (x / 2) k

pub bit-le : (x k : ℕ) → bit x k ≤ 1
unfolding bit
bit-le x zero = omega arith
bit-le x (suc k) = bit-le (x / 2) k

pub bit-bit_and : (a b k : ℕ) → bit (bit_and a b) k ≡ min (bit a k) (bit b k)
unfolding bit
bit-bit_and a b zero = omega (arith, and_split a b)
bit-bit_and a b (suc k) =
    let halves : bit_and a b / 2 ≡ bit_and (a / 2) (b / 2) = omega (arith, and_split a b) in
    rw halves (bit-bit_and (a / 2) (b / 2) k)

pub bit-bit_or : (a b k : ℕ) → bit (bit_or a b) k ≡ max (bit a k) (bit b k)
unfolding bit
bit-bit_or a b zero = omega (arith, or_split a b)
bit-bit_or a b (suc k) =
    let halves : bit_or a b / 2 ≡ bit_or (a / 2) (b / 2) = omega (arith, or_split a b) in
    rw halves (bit-bit_or (a / 2) (b / 2) k)

-- `~x` in `w` bits turns each digit below `w` over.
pub bit-complement : (w x k : ℕ) → x < 2 ^ w → k < w → bit (2 ^ w - 1 - x) k ≡ 1 - bit x k
unfolding bit
bit-complement zero x k fits lt = absurd (omega arith)
bit-complement (suc w) x zero fits lt = omega (arith, pow-suc 2 w)
bit-complement (suc w) x (suc k) fits lt =
    let halves : (2 ^ suc w - 1 - x) / 2 ≡ 2 ^ w - 1 - x / 2 = omega (arith, pow-suc 2 w) in
    rw halves (bit-complement w (x / 2) k (omega (arith, pow-suc 2 w)) (omega arith))

-- An operand of `&` bounds it.
pub bit_and-le : (n a b : ℕ) → a ≤ n → bit_and a b ≤ a
bit_and-le n zero b h = omega (arith, and_split 0 b, bit_and-bitwise 0 b)
bit_and-le zero (suc a) b h = absurd (omega arith)
bit_and-le (suc n) (suc a) b h =
    omega (arith, and_split (suc a) b, bit_and-le n (suc a / 2) (b / 2) (omega arith))

-- No digit of 0 survives.
bit_and-nothing : (bound x : ℕ) → x ≤ bound → bit_and x 0 ≡ 0
bit_and-nothing bound zero small = zero-bit_and 0
bit_and-nothing (suc bound) (suc x) small =
    let high = bit_and-nothing bound (suc x / 2) (omega arith) in
    omega (arith, and_split (suc x) 0, high)
bit_and-nothing zero (suc x) small = absurd (omega arith)

-- A test of one digit by a mask.
pub bit_and-pow : (x k : ℕ) → bit_and x (2 ^ k) ≡ bit x k * 2 ^ k
unfolding bit
bit_and-pow x zero = omega (arith, and_split x 1, bit_and-nothing (x / 2) (x / 2) (omega arith))
bit_and-pow x (suc k) =
    let halved : 2 ^ suc k / 2 ≡ 2 ^ k = omega (arith, pow-suc 2 k) in
    let next : bit_and x (2 ^ suc k) ≡ bit_and (x / 2) (2 ^ suc k / 2) * 2 =
      omega (arith, and_split x (2 ^ suc k), pow-suc 2 k) in
    next
    ∙ rw (halved, bit_and-pow (x / 2) k)
        (omega (arith, ap (λ (t : ℕ). bit (x / 2) k * t) (pow-suc 2 k)))

pub bit_or-lt : (w a b : ℕ) → a < 2 ^ w → b < 2 ^ w → bit_or a b < 2 ^ w
bit_or-lt zero zero zero p q = omega arith
bit_or-lt zero zero (suc b) p q = absurd (omega arith)
bit_or-lt zero (suc a) b p q = absurd (omega arith)
bit_or-lt (suc w) a b p q = omega (
  arith,
  or_split a b,
  bit_or-lt w (a / 2) (b / 2) (omega (arith, pow-suc 2 w)) (omega (arith, pow-suc 2 w)),
  pow-suc 2 w,
)
