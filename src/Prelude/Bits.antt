-- ===== src/Prelude/Bits.antt =====
-- `&`, `|` and `^` as arithmetic: masks are remainders, disjoint fields are sums, and a result
-- has no more bits than its operands. For every width.
use native.Mathlib.Nat.{pow-suc, one-le-pow, div-div-eq-div-mul, div-add-mod, mul_comm}
use Prim.Native.Nat.{ℕ, zero, suc, ◌+◌, ◌-◌, ◌*◌, ◌/◌, ◌%◌, ◌^◌, ◌≤◌, ◌<◌}
use Prim.Native.Nat.{bit_and, bit_or, bit_xor, bit_and-bitwise, bit_xor-bitwise}
use mathlib.Core.Path.{◌≡◌, refl, ap, sym, ◌∙◌}
use native.Mathlib.Omega.{arith}
use riscv64_emulator.Prelude.Digits.{bit_and_step, bit_or_step, bit_xor_step, differ-le_one}

-- A fact that holds at 0 and passes from `a / 2` to `a` holds of every number.
halving_induction :
    (P : ℕ → Type 0) → P 0 → ((a : ℕ) → P (suc a / 2) → P (suc a)) → (n a : ℕ) → a ≤ n → P a
halving_induction P base next n zero h = base
halving_induction P base next zero (suc a) h = absurd (omega arith)
halving_induction P base next (suc n) (suc a) h =
    next a (halving_induction P base next n (suc a / 2) (omega arith))

pub bit_and-zero : (a : ℕ) → bit_and a 0 ≡ 0
bit_and-zero a =
    halving_induction (λ x. bit_and x 0 ≡ 0) refl (λ x ih. omega (arith, bit_and_step (suc x) 0)) a
      a (omega arith)

pub bit_or-zero : (a : ℕ) → bit_or a 0 ≡ a
bit_or-zero a =
    halving_induction (λ x. bit_or x 0 ≡ x) refl (λ x ih. omega (arith, bit_or_step (suc x) 0)) a a
      (omega arith)

pub zero-bit_or : (a : ℕ) → bit_or 0 a ≡ a
zero-bit_or a =
    halving_induction (λ x. bit_or 0 x ≡ x) refl (λ x ih. omega (arith, bit_or_step 0 (suc x))) a a
      (omega arith)

pub bit_and-le : (a b : ℕ) → bit_and a b ≤ a
bit_and-le a b =
    halving_induction (λ x. (y : ℕ) → bit_and x y ≤ x) (λ y. omega (arith, bit_and-bitwise 0 y))
      (λ x ih y. omega (arith, bit_and_step (suc x) y, ih (y / 2))) a a (omega arith) b

-- Multiplying by `2 ^ suc k` is doubling and multiplying by `2 ^ k`.
mul-pow_suc : (q k : ℕ) → q * 2 ^ suc k ≡ 2 * (q * 2 ^ k)
mul-pow_suc q k = omega (arith, ap (λ (t : ℕ). q * t) (pow-suc 2 k))

half_mask : (k : ℕ) → (2 ^ suc k - 1) / 2 ≡ 2 ^ k - 1
half_mask k = omega (arith, pow-suc 2 k, one-le-pow k 2)

div-pow_suc : (a k : ℕ) → a / 2 ^ suc k ≡ a / 2 / 2 ^ k
div-pow_suc a k =
    rw (ap (λ (t : ℕ). a / t) (pow-suc 2 k ∙ mul_comm (2 ^ k) 2))
      (sym (div-div-eq-div-mul a 2 (2 ^ k)))

mod-pow_suc : (a k : ℕ) → a % 2 ^ suc k ≡ a / 2 % 2 ^ k * 2 + a % 2
mod-pow_suc a k = omega (
  arith,
  div-add-mod a (2 ^ suc k),
  div-add-mod (a / 2) (2 ^ k),
  ap (λ (t : ℕ). t * (a / 2 / 2 ^ k)) (pow-suc 2 k),
  ap (λ (t : ℕ). 2 ^ suc k * t) (div-pow_suc a k),
)

half_double : (q k : ℕ) → q * 2 ^ suc k / 2 ≡ q * 2 ^ k
half_double q k = omega (arith, mul-pow_suc q k)

-- `x & (2 ^ k - 1)` keeps the low `k` bits.
pub bit_and_mask : (k a : ℕ) → bit_and a (2 ^ k - 1) ≡ a % 2 ^ k
bit_and_mask zero a = omega (arith, bit_and-zero a)
bit_and_mask (suc k) a = omega (
  arith,
  bit_and_step a (2 ^ suc k - 1),
  pow-suc 2 k,
  one-le-pow k 2,
  mod-pow_suc a k,
  half_mask k,
  ap (λ (t : ℕ). bit_and (a / 2) t) (half_mask k),
  bit_and_mask k (a / 2),
)

-- `lo | (hi << k)` of a `lo` that fits `k` bits is their sum.
pub bit_or_fields : (k lo hi : ℕ) → lo < 2 ^ k → bit_or lo (hi * 2 ^ k) ≡ lo + hi * 2 ^ k
bit_or_fields zero lo hi h = ground (arith, zero-bit_or (hi * 1))
bit_or_fields (suc k) lo hi h = omega (
  arith,
  bit_or_step lo (hi * 2 ^ suc k),
  mul-pow_suc hi k,
  ap (λ (t : ℕ). bit_or (lo / 2) t) (half_double hi k),
  bit_or_fields k (lo / 2) hi (omega (arith, pow-suc 2 k)),
)

-- A mask with `k` low zeros clears the low `k` bits.
pub bit_and_high : (k a m : ℕ) → bit_and a (m * 2 ^ k) ≡ bit_and (a / 2 ^ k) m * 2 ^ k
bit_and_high zero a m =
    let one_m : m * 2 ^ 0 ≡ m = omega arith in
    let one_a : a / 2 ^ 0 ≡ a = omega arith in
    omega (arith, ap (λ (t : ℕ). bit_and a t) one_m, ap (λ (t : ℕ). bit_and t m) one_a)
bit_and_high (suc k) a m = omega (
  arith,
  bit_and_step a (m * 2 ^ suc k),
  mul-pow_suc m k,
  mul-pow_suc (bit_and (a / 2 ^ suc k) m) k,
  ap (λ (t : ℕ). bit_and (a / 2) t) (half_double m k),
  ap (λ (t : ℕ). bit_and t m * 2 ^ k) (div-pow_suc a k),
  bit_and_high k (a / 2) m,
)

pub bit_or-lt : (k a b : ℕ) → a < 2 ^ k → b < 2 ^ k → bit_or a b < 2 ^ k
bit_or-lt zero a b ha hb = ground (arith, bit_or-zero 0)
bit_or-lt (suc k) a b ha hb = omega (
  arith,
  bit_or_step a b,
  pow-suc 2 k,
  bit_or-lt k (a / 2) (b / 2) (omega (arith, pow-suc 2 k)) (omega (arith, pow-suc 2 k)),
)

pub bit_xor-lt : (k a b : ℕ) → a < 2 ^ k → b < 2 ^ k → bit_xor a b < 2 ^ k
bit_xor-lt zero a b ha hb = ground (arith, bit_xor-bitwise 0 0)
bit_xor-lt (suc k) a b ha hb = omega (
  arith,
  bit_xor_step a b,
  pow-suc 2 k,
  differ-le_one (a % 2) (b % 2) (omega arith) (omega arith),
  bit_xor-lt k (a / 2) (b / 2) (omega (arith, pow-suc 2 k)) (omega (arith, pow-suc 2 k)),
)
