-- ===== src/Jit/A64.antt =====
-- What the code generator of src/vm/jit/aarch64 uses of asmlib, the assembler library, which is not
-- part of the repository: the calls that it makes, and the documented effect of the instructions on
-- the registers. Values are 64-bit patterns.
use riscv64_emulator.Prelude.{
  ℕ, ◌+◌, ◌-◌, ◌*◌, ◌/◌, ◌%◌, ◌^◌, ◌≡◌, Bool, not, List, ltb, ◌==◌, if◌then◌else◌, bit_and, bit_or,
  bit_xor,
}
use riscv64_emulator.Prelude.Word.{u32, sar, sign_extend, signed, to_word, quot}
use riscv64_emulator.Interpreter.Alu.{signed_lt}
use riscv64_emulator.Jit.Assembler.{A64R, xreg, xzr, Assembler}
use riscv64_emulator.Jit.RegisterCache.{update}

-- Whether the operands are the X registers or, after `cast_to_32bit`, the W registers.
pub data Width : Type 0 where
  w32 w64 : Width

pub data Operation : Type 0 where
  add sub eor orr and_ lsl lsr asr mul sdiv udiv : Operation

-- enum class Condition.
pub data Condition : Type 0 where
  equal not_equal less greater_equal unsigned_less unsigned_greater_equal not_zero : Condition

-- Loads and stores with a register offset, by their names; `ldr_w` and `str_w` have a W register.
pub data Load : Type 0 where
  ldrsb ldrsh ldrsw ldr ldrb ldrh ldr_w : Load

pub data Store : Type 0 where
  strb strh str_w str : Store

-- A call of the assembler with its arguments, the destination first.
pub data Call : Type 0 where
  macro_mov mov_i : A64R → ℕ → Call
  mov sxtw : A64R → A64R → Call
  op : Width → Operation → A64R → A64R → A64R → Call
  op_i : Width → Operation → A64R → A64R → ℕ → Call
  msub : Width → A64R → A64R → A64R → A64R → Call
  cmp : Width → A64R → A64R → Call
  cmp_i tst_i : A64R → ℕ → Call
  cset : A64R → Condition → Call
  b : Condition → ℕ → Call
  cbz : A64R → ℕ → Call
  br : A64R → Call
  ret : Call
  insert_label : ℕ → Call
  load : Load → A64R → A64R → A64R → Call
  ldar : A64R → A64R → Call
  store : Store → A64R → A64R → A64R → Call

abbrev pub read : (ℕ → ℕ) → A64R → ℕ
read registers (xreg n) = registers n
read registers xzr = 0

abbrev pub set : (ℕ → ℕ) → A64R → ℕ → ℕ → ℕ
set registers (xreg n) value = update registers n value
set registers xzr value = registers

-- Operations on k bits: shifts take the amount modulo k, and a division by zero gives 0.
abbrev pub result_of_bits : ℕ → Operation → ℕ → ℕ → ℕ
result_of_bits k add x y = (x + y) % 2 ^ k
result_of_bits k sub x y = (x + 2 ^ k - y) % 2 ^ k
result_of_bits k eor x y = bit_xor x y
result_of_bits k orr x y = bit_or x y
result_of_bits k and_ x y = bit_and x y
result_of_bits k lsl x y = (x * 2 ^ (y % k)) % 2 ^ k
result_of_bits k lsr x y = x / 2 ^ (y % k)
result_of_bits k asr x y = sar k x (y % k)
result_of_bits k mul x y = (x * y) % 2 ^ k
result_of_bits k sdiv x y = if y == 0 then 0 else to_word k (quot (signed k x) (signed k y))
result_of_bits k udiv x y = if y == 0 then 0 else x / y

-- A W register is the low half of its X register, and a write to it clears the high half.
abbrev pub result_of : Width → Operation → ℕ → ℕ → ℕ
result_of w64 o x y = result_of_bits 64 o x y
result_of w32 o x y = result_of_bits 32 o (u32 x) (u32 y)

abbrev pub subtracted : Width → ℕ → ℕ → ℕ → ℕ
subtracted w64 x y z = (z + 2 ^ 64 - (x * y) % 2 ^ 64) % 2 ^ 64
subtracted w32 x y z = (u32 z + 2 ^ 32 - u32 (u32 x * u32 y)) % 2 ^ 32

-- What an instruction without a memory access, flags or a jump leaves in the registers.
abbrev pub after : Call → (ℕ → ℕ) → ℕ → ℕ
after (macro_mov d k) registers = set registers d k
after (mov_i d k) registers = set registers d k
after (mov d a) registers = set registers d (read registers a)
after (sxtw d a) registers = set registers d (sign_extend 32 (u32 (read registers a)))
after (op w o d a c) registers =
    set registers d (result_of w o (read registers a) (read registers c))
after (op_i w o d a k) registers = set registers d (result_of w o (read registers a) k)
after (msub w d a c e) registers =
    set registers d (subtracted w (read registers a) (read registers c) (read registers e))
after _ registers = registers

-- A register that is not xzr, whose number is the stack pointer's in some instructions.
abbrev pub IsGeneral : A64R → Type 0
IsGeneral (xreg n) = Unit
IsGeneral xzr = ⊥

-- The instructions with an immediate in which no operand is the stack pointer: addition and
-- subtraction take it as destination and as first operand in place of xzr, and the bitwise ones as
-- destination.
abbrev pub HasImmediateForm : Operation → A64R → A64R → Type 0
HasImmediateForm add d a = IsGeneral d × IsGeneral a
HasImmediateForm sub d a = IsGeneral d × IsGeneral a
HasImmediateForm eor d a = IsGeneral d
HasImmediateForm orr d a = IsGeneral d
HasImmediateForm and_ d a = IsGeneral d
HasImmediateForm lsl d a = Unit
HasImmediateForm lsr d a = Unit
HasImmediateForm asr d a = Unit
HasImmediateForm _ d a = ⊥

-- The instructions that `after` describes.
abbrev pub IsPlain : Call → Type 0
IsPlain (macro_mov d k) = Unit
IsPlain (mov_i d k) = Unit
IsPlain (mov d a) = Unit
IsPlain (sxtw d a) = Unit
IsPlain (op w o d a c) = Unit
IsPlain (op_i w o d a k) = HasImmediateForm o d a
IsPlain (msub w d a c e) = Unit
IsPlain _ = ⊥

-- Whether a condition holds after `cmp x, y`.
abbrev pub holds : Condition → ℕ → ℕ → Bool
holds equal x y = x == y
holds not_equal x y = not (x == y)
holds less x y = signed_lt x y
holds greater_equal x y = not (signed_lt x y)
holds unsigned_less x y = ltb x y
holds unsigned_greater_equal x y = not (ltb x y)
holds not_zero x y = not (x == y)

-- The assembler: `emit` appends an instruction or defines a label. The functions called try_… append
-- the instruction if its immediate can be encoded. `value` is what a register holds when the code so
-- far has run without a jump.
pub record A64 : Type 1 where
  pub base : Assembler
  pub clear : base.Code
  pub emit : base.Code → Call → base.Code
  pub allocate_label : base.Code → ℕ × base.Code
  pub assembled_instructions : base.Code → List ℕ
  pub encodable : Operation → ℕ → Bool
  pub encodable_cmp : ℕ → Bool
  pub value-emit :
      (c : base.Code) (i : Call) (n : ℕ)
      → IsPlain i
      → base.value (emit c i) n ≡ after i (base.value c) n
  pub table-emit :
      (c : base.Code) (i : Call) (q : ℕ) → IsPlain i → base.table (emit c i) q ≡ base.table c q
  pub value-cset :
      (c : base.Code) (x y d : A64R) (e : Condition) (n : ℕ)
      → base.value (emit (emit c (cmp w64 x y)) (cset d e)) n
        ≡ set
            (base.value c)
            d
            (if holds e (read (base.value c) x) (read (base.value c) y) then 1 else 0)
            n
  pub table-cset :
      (c : base.Code) (x y d : A64R) (e : Condition) (q : ℕ)
      → base.table (emit (emit c (cmp w64 x y)) (cset d e)) q ≡ base.table c q
