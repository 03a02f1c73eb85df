-- ===== src/Interpreter/Values.antt =====
-- The inner switches of src/vm/Interpreter.cpp give 64-bit values for the instruction types that
-- they are reached with, and the undefined divisions of C++ are the only ones without a value.
use riscv64_emulator.Prelude.{
  ℕ, ◌+◌, ◌/◌, ◌%◌, ◌^◌, ◌≤◌, ◌<◌, ◌≡◌, ◌⊎◌, inl, inr, refl, arith, Bool, true, false, ◌==◌, ◌||◌,
  bit_and,
}
use riscv64_emulator.Prelude.Bits.{bit_and-le, bit_or-lt, bit_xor-lt, bit_and_mask}
use riscv64_emulator.Prelude.Word.{ℤ, pos, negsuc, u32, u64, signed, to_word, quot, rem, overflows}
use riscv64_emulator.Prelude.Result.{Result, ok, undefined_behaviour}
use riscv64_emulator.Instruction.Kinds.{InstructionType as IT}
use riscv64_emulator.Interpreter.Alu.{
  signextend32, branch_taken, shifted, immediate_result, shift_result, register_result,
  multiply_result,
}

-- The result is a 64-bit value.
abbrev pub HasValue : Result ℕ → Type 0
HasValue r = (v : ℕ) × (r ≡ ok v) × (v < 2 ^ 64)

-- The labels of the cases of the outer switch.
abbrev pub IsBranch : IT → Type 0
IsBranch IT.beq = Unit
IsBranch IT.bne = Unit
IsBranch IT.blt = Unit
IsBranch IT.bge = Unit
IsBranch IT.bltu = Unit
IsBranch IT.bgeu = Unit
IsBranch _ = ⊥

abbrev pub IsLoad : IT → Type 0
IsLoad IT.lb = Unit
IsLoad IT.lh = Unit
IsLoad IT.lw = Unit
IsLoad IT.ld = Unit
IsLoad IT.lbu = Unit
IsLoad IT.lhu = Unit
IsLoad IT.lwu = Unit
IsLoad _ = ⊥

abbrev pub IsStore : IT → Type 0
IsStore IT.sb = Unit
IsStore IT.sh = Unit
IsStore IT.sw = Unit
IsStore IT.sd = Unit
IsStore _ = ⊥

abbrev pub IsImmediate : IT → Type 0
IsImmediate IT.addi = Unit
IsImmediate IT.xori = Unit
IsImmediate IT.ori = Unit
IsImmediate IT.andi = Unit
IsImmediate IT.addiw = Unit
IsImmediate _ = ⊥

-- Shifts by an immediate, with the width that bounds the shift amount.
abbrev pub IsShift : IT → ℕ → Type 0
IsShift IT.slli k = k < 64
IsShift IT.srli k = k < 64
IsShift IT.srai k = k < 64
IsShift IT.slliw k = k < 32
IsShift IT.srliw k = k < 32
IsShift IT.sraiw k = k < 32
IsShift _ k = ⊥

abbrev pub IsRegister : IT → Type 0
IsRegister IT.add = Unit
IsRegister IT.sub = Unit
IsRegister IT.xor = Unit
IsRegister IT.or = Unit
IsRegister IT.and = Unit
IsRegister IT.sll = Unit
IsRegister IT.srl = Unit
IsRegister IT.sra = Unit
IsRegister IT.addw = Unit
IsRegister IT.subw = Unit
IsRegister IT.sllw = Unit
IsRegister IT.srlw = Unit
IsRegister IT.sraw = Unit
IsRegister _ = ⊥

-- The operands of a division that C++ leaves undefined: a zero divisor, or the smallest number
-- by -1. `none` for a type that is no division; mulw divides in this interpreter.
abbrev pub is_undefined_division : IT → ℕ → ℕ → Bool
is_undefined_division IT.mulw a b = u32 b == 0
is_undefined_division IT.div a b = b == 0 || overflows 64 a b
is_undefined_division IT.divw a b = u32 b == 0 || overflows 32 (u32 a) (u32 b)
is_undefined_division IT.divu a b = b == 0
is_undefined_division IT.divuw a b = u32 b == 0
is_undefined_division IT.rem a b = b == 0 || overflows 64 a b
is_undefined_division IT.remw a b = u32 b == 0 || overflows 32 (u32 a) (u32 b)
is_undefined_division IT.remu a b = b == 0
is_undefined_division IT.remuw a b = u32 b == 0
is_undefined_division _ a b = false

abbrev pub IsMultiply : IT → Type 0
IsMultiply IT.mul = Unit
IsMultiply IT.mulw = Unit
IsMultiply IT.div = Unit
IsMultiply IT.divw = Unit
IsMultiply IT.divu = Unit
IsMultiply IT.divuw = Unit
IsMultiply IT.rem = Unit
IsMultiply IT.remu = Unit
IsMultiply IT.remw = Unit
IsMultiply IT.remuw = Unit
IsMultiply _ = ⊥

pub signextend32-lt : (v : ℕ) → signextend32 v < 2 ^ 64
unfolding signextend32
signextend32-lt v = ground arith

div-le : (a b : ℕ) → a / b ≤ a
div-le a b = grind arith

mod-le_self : (a b : ℕ) → a % b ≤ a
mod-le_self a b = grind arith

pub branch_value : (t : IT) (a b : ℕ) → IsBranch t → (c : Bool) × (branch_taken t a b ≡ ok c)
unfolding branch_taken
branch_value IT.beq a b h = (_, refl)
branch_value IT.bne a b h = (_, refl)
branch_value IT.blt a b h = (_, refl)
branch_value IT.bge a b h = (_, refl)
branch_value IT.bltu a b h = (_, refl)
branch_value IT.bgeu a b h = (_, refl)
branch_value _ a b h = absurd h

pub immediate_value :
    (t : IT) (a b : ℕ) → a < 2 ^ 64 → b < 2 ^ 64 → IsImmediate t → HasValue (immediate_result t a b)
unfolding immediate_result
immediate_value IT.addi a b ha hb h = (_, refl, omega arith)
immediate_value IT.xori a b ha hb h = (_, refl, bit_xor-lt 64 a b ha hb)
immediate_value IT.ori a b ha hb h = (_, refl, bit_or-lt 64 a b ha hb)
immediate_value IT.andi a b ha hb h = (_, refl, omega (arith, bit_and-le a b))
immediate_value IT.addiw a b ha hb h = (_, refl, signextend32-lt (u64 (a + b)))
immediate_value _ a b ha hb h = absurd h

-- A shift below the width is defined.
shifted_value : (w k v : ℕ) → k < w → v < 2 ^ 64 → HasValue (shifted w k v)
shifted_value w k v hk hv = (v, ground arith, hv)

pub shift_value : (t : IT) (a k : ℕ) → a < 2 ^ 64 → IsShift t k → HasValue (shift_result t a k)
unfolding shift_result
shift_value IT.slli a k ha h = shifted_value 64 k _ h (omega arith)
shift_value IT.srli a k ha h = shifted_value 64 k _ h (omega (arith, div-le a (2 ^ k)))
shift_value IT.srai a k ha h = shifted_value 64 k _ h (omega arith)
shift_value IT.slliw a k ha h = shifted_value 32 k _ h (signextend32-lt _)
shift_value IT.srliw a k ha h = shifted_value 32 k _ h (signextend32-lt _)
shift_value IT.sraiw a k ha h = shifted_value 32 k _ h (signextend32-lt _)
shift_value _ a k ha h = absurd h

pub register_value :
    (t : IT) (a b : ℕ) → a < 2 ^ 64 → b < 2 ^ 64 → IsRegister t → HasValue (register_result t a b)
unfolding register_result
register_value IT.add a b ha hb h = (_, refl, omega arith)
register_value IT.sub a b ha hb h = (_, refl, omega arith)
register_value IT.xor a b ha hb h = (_, refl, bit_xor-lt 64 a b ha hb)
register_value IT.or a b ha hb h = (_, refl, bit_or-lt 64 a b ha hb)
register_value IT.and a b ha hb h = (_, refl, omega (arith, bit_and-le a b))
register_value IT.sll a b ha hb h =
    shifted_value 64 _ _ (omega (arith, bit_and_mask 6 b)) (omega arith)
register_value IT.srl a b ha hb h =
    shifted_value 64 _ _ (omega (arith, bit_and_mask 6 b))
      (omega (arith, div-le a (2 ^ bit_and b 63)))
register_value IT.sra a b ha hb h =
    shifted_value 64 _ _ (omega (arith, bit_and_mask 6 b)) (omega arith)
register_value IT.addw a b ha hb h = (_, refl, signextend32-lt _)
register_value IT.subw a b ha hb h = (_, refl, signextend32-lt _)
register_value IT.sllw a b ha hb h =
    shifted_value 32 _ _ (omega (arith, bit_and_mask 5 b)) (signextend32-lt _)
register_value IT.srlw a b ha hb h =
    shifted_value 32 _ _ (omega (arith, bit_and_mask 5 b)) (signextend32-lt _)
register_value IT.sraw a b ha hb h =
    shifted_value 32 _ _ (omega (arith, bit_and_mask 5 b)) (signextend32-lt _)
register_value _ a b ha hb h = absurd h

to_word-lt : (z : ℤ) → to_word 64 z < 2 ^ 64
to_word-lt (pos n) = omega arith
to_word-lt (negsuc n) = omega arith

-- A division ends in a 64-bit value, or is undefined for just the operands that `bad` tells.
abbrev pub Divides : Bool → Result ℕ → Type 0
Divides bad r = ((bad ≡ false) × HasValue r) ⊎ ((bad ≡ true) × (r ≡ undefined_behaviour))

divides :
    (bad : Bool) (r : Result ℕ) (v : ℕ)
    → (bad ≡ false → r ≡ ok v)
    → (bad ≡ true → r ≡ undefined_behaviour)
    → v < 2 ^ 64
    → Divides bad r
divides true r v good undef h = inr (refl, undef refl)
divides false r v good undef h = inl (refl, (v, good refl, h))

pub multiply_value :
    (t : IT) (a b : ℕ)
    → a < 2 ^ 64
    → b < 2 ^ 64
    → IsMultiply t
    → Divides (is_undefined_division t a b) (multiply_result t a b)
unfolding multiply_result
multiply_value IT.mul a b ha hb h = inl (refl, (_, refl, omega arith))
multiply_value IT.mulw a b ha hb h =
    divides _ _ (signextend32 (u32 a / u32 b)) (λ e. ground arith) (λ e. ground arith)
      (signextend32-lt _)
multiply_value IT.div a b ha hb h =
    divides _ _ (to_word 64 (quot (signed 64 a) (signed 64 b))) (λ e. ground arith)
      (λ e. ground arith) (to_word-lt _)
multiply_value IT.divw a b ha hb h =
    divides _ _ (signextend32 (to_word 32 (quot (signed 32 (u32 a)) (signed 32 (u32 b)))))
      (λ e. ground arith) (λ e. ground arith) (signextend32-lt _)
multiply_value IT.divu a b ha hb h =
    divides _ _ (a / b) (λ e. ground arith) (λ e. ground arith) (omega (arith, div-le a b))
multiply_value IT.divuw a b ha hb h =
    divides _ _ (signextend32 (u32 a / u32 b)) (λ e. ground arith) (λ e. ground arith)
      (signextend32-lt _)
multiply_value IT.rem a b ha hb h =
    divides _ _ (to_word 64 (rem (signed 64 a) (signed 64 b))) (λ e. ground arith)
      (λ e. ground arith) (to_word-lt _)
multiply_value IT.remu a b ha hb h =
    divides _ _ (a % b) (λ e. ground arith) (λ e. ground arith) (omega (arith, mod-le_self a b))
multiply_value IT.remw a b ha hb h =
    divides _ _ (signextend32 (to_word 32 (rem (signed 32 (u32 a)) (signed 32 (u32 b)))))
      (λ e. ground arith) (λ e. ground arith) (signextend32-lt _)
multiply_value IT.remuw a b ha hb h =
    divides _ _ (signextend32 (u32 a % u32 b)) (λ e. ground arith) (λ e. ground arith)
      (signextend32-lt _)
multiply_value _ a b ha hb h = absurd h
