-- ===== src/Interpreter/Manual.antt =====
-- The arithmetic of the RISC-V manual on integers, against the inner switches of
-- src/vm/Interpreter.cpp.
use native.Mathlib.Nat.{pow-suc, one-le-pow}
use riscv64_emulator.Prelude.{
  ℕ, zero, suc, ◌+◌, ◌-◌, ◌*◌, ◌/◌, ◌%◌, ◌^◌, ◌≤◌, ◌<◌, ◌≡◌, ◌≢◌, refl, arith, leb, if◌then◌else◌,
  bit_and, bit_or, bit_xor,
}
use riscv64_emulator.Prelude.Bits.{bit_and_mask, bit_and-le, bit_or-lt, bit_xor-lt}
use riscv64_emulator.Prelude.Word.{ℤ, pos, negsuc, signed, to_word, u32}
use riscv64_emulator.Prelude.Result.{ok}
use riscv64_emulator.Instruction.Kinds.{InstructionType as IT}
use riscv64_emulator.Interpreter.Alu.{immediate_result, shift_result, register_result}
use riscv64_emulator.Interpreter.Values.{IsImmediate, IsShift, IsRegister}

-- a - b as an integer.
abbrev pub sub_ℕ : ℕ → ℕ → ℤ
sub_ℕ a b = if leb b a then pos (a - b) else negsuc (b - a - 1)

infixl 65 ◌+ℤ◌ ◌-ℤ◌
abbrev pub ◌+ℤ◌ : ℤ → ℤ → ℤ
pos a +ℤ pos b = pos (a + b)
pos a +ℤ negsuc b = sub_ℕ a (suc b)
negsuc a +ℤ pos b = sub_ℕ b (suc a)
negsuc a +ℤ negsuc b = negsuc (suc (a + b))

abbrev pub ◌-ℤ◌ : ℤ → ℤ → ℤ
pos a -ℤ pos b = sub_ℕ a b
pos a -ℤ negsuc b = pos (a + suc b)
negsuc a -ℤ pos b = negsuc (a + b)
negsuc a -ℤ negsuc b = sub_ℕ b a

-- The quotient rounded down: an arithmetic shift right by k divides by 2 ^ k so.
abbrev pub floor_div : ℤ → ℕ → ℤ
floor_div (pos a) d = pos (a / d)
floor_div (negsuc a) d = negsuc (a / d)

-- The integer of the low 32 bits.
abbrev pub word : ℕ → ℤ
word x = signed 32 (x % 2 ^ 32)

-- The integer that an instruction computes from two register values, or from a register value and
-- an immediate or shift amount; the destination holds its low 64 bits.
abbrev pub manual : IT → ℕ → ℕ → ℤ
manual IT.add a b = signed 64 a +ℤ signed 64 b
manual IT.addi a b = signed 64 a +ℤ signed 64 b
manual IT.sub a b = signed 64 a -ℤ signed 64 b
manual IT.xor a b = pos (bit_xor a b)
manual IT.xori a b = pos (bit_xor a b)
manual IT.or a b = pos (bit_or a b)
manual IT.ori a b = pos (bit_or a b)
manual IT.and a b = pos (bit_and a b)
manual IT.andi a b = pos (bit_and a b)
manual IT.addw a b = word (to_word 32 (word a +ℤ word b))
manual IT.addiw a b = word (to_word 32 (word a +ℤ word b))
manual IT.subw a b = word (to_word 32 (word a -ℤ word b))
manual IT.sll a b = pos (a * 2 ^ (b % 64))
manual IT.slli a b = pos (a * 2 ^ b)
manual IT.srl a b = pos (a / 2 ^ (b % 64))
manual IT.srli a b = pos (a / 2 ^ b)
manual IT.sra a b = floor_div (signed 64 a) (2 ^ (b % 64))
manual IT.srai a b = floor_div (signed 64 a) (2 ^ b)
manual IT.sllw a b = word (a % 2 ^ 32 * 2 ^ (b % 32))
manual IT.slliw a b = word (a % 2 ^ 32 * 2 ^ b)
manual IT.srlw a b = word (a % 2 ^ 32 / 2 ^ (b % 32))
manual IT.srliw a b = word (a % 2 ^ 32 / 2 ^ b)
manual IT.sraw a b = floor_div (word a) (2 ^ (b % 32))
manual IT.sraiw a b = floor_div (word a) (2 ^ b)
manual _ a b = pos 0

mask5 : (b : ℕ) → bit_and b 31 ≡ b % 32
mask5 b = bit_and_mask 5 b

mask6 : (b : ℕ) → bit_and b 63 ≡ b % 64
mask6 b = bit_and_mask 6 b

div-le : (a b : ℕ) → a / b ≤ a
div-le a b = grind arith

register_result-manual :
    (t : IT) (a b : ℕ)
    → IsRegister t
    → t ≢ IT.sra
    → a < 2 ^ 64
    → b < 2 ^ 64
    → register_result t a b ≡ ok (to_word 64 (manual t a b))
unfolding register_result
register_result-manual IT.add a b h ne ha hb = ground arith
register_result-manual IT.sub a b h ne ha hb = ground arith
register_result-manual IT.xor a b h ne ha hb = ground (arith, bit_xor-lt 64 a b)
register_result-manual IT.or a b h ne ha hb = ground (arith, bit_or-lt 64 a b)
register_result-manual IT.and a b h ne ha hb = ground (arith, bit_and-le a b)
register_result-manual IT.sll a b h ne ha hb = rw (mask6 b) (ground arith)
register_result-manual IT.srl a b h ne ha hb =
    rw (mask6 b) (ground (arith, div-le a (2 ^ (b % 64))))
register_result-manual IT.sra a b h ne ha hb = absurd (ne refl)
register_result-manual IT.addw a b h ne ha hb = ground arith
register_result-manual IT.subw a b h ne ha hb = ground arith
register_result-manual IT.sllw a b h ne ha hb = rw (mask5 b) (ground arith)
register_result-manual IT.srlw a b h ne ha hb =
    rw (mask5 b) (ground (arith, div-le (u32 a) (2 ^ (b % 32))))
register_result-manual IT.sraw a b h ne ha hb =
    rw (mask5 b)
      (ground (arith, div-le (u32 a) (2 ^ (b % 32)), div-le (2 ^ 32 - 1 - u32 a) (2 ^ (b % 32))))
register_result-manual _ a b h ne ha hb = absurd h

immediate_result-manual :
    (t : IT) (a b : ℕ)
    → IsImmediate t
    → a < 2 ^ 64
    → b < 2 ^ 64
    → immediate_result t a b ≡ ok (to_word 64 (manual t a b))
unfolding immediate_result
immediate_result-manual IT.addi a b h ha hb = ground arith
immediate_result-manual IT.xori a b h ha hb = ground (arith, bit_xor-lt 64 a b)
immediate_result-manual IT.ori a b h ha hb = ground (arith, bit_or-lt 64 a b)
immediate_result-manual IT.andi a b h ha hb = ground (arith, bit_and-le a b)
immediate_result-manual IT.addiw a b h ha hb = ground arith
immediate_result-manual _ a b h ha hb = absurd h

shift_result-manual :
    (t : IT) (a k : ℕ)
    → IsShift t k
    → t ≢ IT.srai
    → a < 2 ^ 64
    → shift_result t a k ≡ ok (to_word 64 (manual t a k))
unfolding shift_result
shift_result-manual IT.slli a k h ne ha = ground arith
shift_result-manual IT.srli a k h ne ha = ground (arith, div-le a (2 ^ k))
shift_result-manual IT.srai a k h ne ha = absurd (ne refl)
shift_result-manual IT.slliw a k h ne ha = ground arith
shift_result-manual IT.srliw a k h ne ha = ground (arith, div-le (u32 a) (2 ^ k))
shift_result-manual IT.sraiw a k h ne ha =
    ground (arith, div-le (u32 a) (2 ^ k), div-le (2 ^ 32 - 1 - u32 a) (2 ^ k))
shift_result-manual _ a k h ne ha = absurd h

-- On 64-bit operands the inner switches for register, immediate and shift instructions other than
-- sra and srai, with a shift amount below the width, return the low 64 bits of the integer that
-- the manual gives.
pub results-manual :
    (t : IT) (a b : ℕ)
    → t ≢ IT.sra
    → t ≢ IT.srai
    → a < 2 ^ 64
    → b < 2 ^ 64
    → (IsRegister t → register_result t a b ≡ ok (to_word 64 (manual t a b)))
      × (IsImmediate t → immediate_result t a b ≡ ok (to_word 64 (manual t a b)))
      × (IsShift t b → shift_result t a b ≡ ok (to_word 64 (manual t a b)))
results-manual t a b sra srai ha hb = (
  λ h. register_result-manual t a b h sra ha hb,
  λ h. immediate_result-manual t a b h ha hb,
  λ h. shift_result-manual t a b h srai ha,
)

shl-ne-sar : (a p : ℕ) → 0 < a → 2 ≤ p → a * p < 2 ^ 63 → (a * p) % 2 ^ 64 ≢ (a / p) % 2 ^ 64
shl-ne-sar a p pos_a two small =
    let grows : a * 2 ≤ a * p = grind arith in omega (arith, div-le a p)

le-mul : (a p : ℕ) → 2 ≤ p → a ≤ a * p
le-mul a p h = grind arith

pow-ge_two : (k : ℕ) → 0 < k → 2 ≤ 2 ^ k
pow-ge_two zero h = absurd (omega arith)
pow-ge_two (suc k) h = omega (arith, pow-suc 2 k, one-le-pow k 2)

-- srai and sra shift left: for every positive number and every positive amount below the width for
-- which the product with the power of two is below 2 ^ 63, both return that product, and it is
-- another value than the manual gives.
pub arithmetic_shift-ne-manual :
    (a k : ℕ)
    → 0 < a
    → 0 < k
    → k < 64
    → a * 2 ^ k < 2 ^ 63
    → (shift_result IT.srai a k ≡ ok (a * 2 ^ k))
      × (register_result IT.sra a k ≡ ok (a * 2 ^ k))
      × (shift_result IT.srai a k ≢ ok (to_word 64 (manual IT.srai a k)))
      × (register_result IT.sra a k ≢ ok (to_word 64 (manual IT.sra a k)))
unfolding shift_result register_result
arithmetic_shift-ne-manual a k ha hk h small =
    let wide : k % 64 ≡ k = omega arith in
    let below : a < 2 ^ 63 = omega (arith, le-mul a (2 ^ k) (pow-ge_two k hk)) in
    (
      ground arith,
      rw (mask6 k, wide) (ground arith),
      ground (arith, shl-ne-sar a (2 ^ k) ha (pow-ge_two k hk)),
      rw (mask6 k, wide) (ground (arith, shl-ne-sar a (2 ^ k) ha (pow-ge_two k hk))),
    )
