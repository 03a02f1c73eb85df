-- ===== src/Prelude/Digits.antt =====
-- The native bit operations, one binary digit at a time.
use Prim.Native.Nat.{ℕ, zero, suc, ◌+◌, ◌*◌, ◌/◌, ◌%◌, ◌≤◌, min, max}
use Prim.Native.Nat.{bit_and, bit_or, bit_xor, digits, differ}
use Prim.Native.Nat.{bit_and-bitwise, bit_or-bitwise, bit_xor-bitwise}
use mathlib.Core.Path.{◌≡◌, refl}
use native.Mathlib.Omega.{arith}

module _ (ends : ℕ → ℕ) (op : ℕ → ℕ → ℕ) where
  -- A count of digits that is large enough may be replaced by another.
  digits_enough : (b a k l : ℕ) → a ≤ l → a ≤ k → digits ends op l a b ≡ digits ends op k a b
  digits_enough b (suc a) zero l hl hk = absurd (omega arith)
  digits_enough b (suc a) (suc k) zero hl hk = absurd (omega arith)
  digits_enough b (suc a) (suc k) (suc l) hl hk =
      rw (digits_enough (b / 2) (suc a / 2) k l (omega arith) (omega arith))
  digits_enough b zero zero zero hl hk = refl
  digits_enough b zero zero (suc l) hl hk = refl
  digits_enough b zero (suc k) zero hl hk = refl
  digits_enough b zero (suc k) (suc l) hl hk = refl

  -- The lowest digit, and the digits above it.
  lowest :
      (a b : ℕ)
      → digits ends op (suc a) (suc a) b
        ≡ op (suc a % 2) (b % 2) + 2 * digits ends op (suc a / 2) (suc a / 2) (b / 2)
  lowest a b =
      omega (arith, digits_enough (b / 2) (suc a / 2) a (suc a / 2) (omega arith) (omega arith))

pub bit_and_step : (a b : ℕ) → bit_and a b ≡ min (a % 2) (b % 2) + 2 * bit_and (a / 2) (b / 2)
bit_and_step zero b = omega (arith, bit_and-bitwise 0 (b / 2), bit_and-bitwise 0 b)
bit_and_step (suc a) b = omega (
  arith,
  lowest (λ _. zero) min a b,
  bit_and-bitwise (suc a / 2) (b / 2),
  bit_and-bitwise (suc a) b,
)

pub bit_or_step : (a b : ℕ) → bit_or a b ≡ max (a % 2) (b % 2) + 2 * bit_or (a / 2) (b / 2)
bit_or_step zero b = omega (arith, bit_or-bitwise 0 (b / 2), bit_or-bitwise 0 b)
bit_or_step (suc a) b =
    omega
      (arith, lowest (λ y. y) max a b, bit_or-bitwise (suc a / 2) (b / 2), bit_or-bitwise (suc a) b)

pub bit_xor_step : (a b : ℕ) → bit_xor a b ≡ differ (a % 2) (b % 2) + 2 * bit_xor (a / 2) (b / 2)
bit_xor_step zero b = ground (arith, bit_xor-bitwise 0 (b / 2), bit_xor-bitwise 0 b)
bit_xor_step (suc a) b = omega (
  arith,
  lowest (λ y. y) differ a b,
  bit_xor-bitwise (suc a / 2) (b / 2),
  bit_xor-bitwise (suc a) b,
)

pub differ-le_one : (x y : ℕ) → x ≤ 1 → y ≤ 1 → differ x y ≤ 1
differ-le_one zero y hx hy = hy
differ-le_one (suc x) zero hx hy = hx
differ-le_one (suc x) (suc y) hx hy = differ-le_one x y (omega arith) (omega arith)
