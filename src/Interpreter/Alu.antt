-- ===== src/Interpreter/Alu.antt =====
-- The inner switches of src/vm/Interpreter.cpp: what an instruction computes from its operands.
-- Values are 64-bit patterns. A shift by the width or more is undefined in C++.
use riscv64_emulator.Prelude.{
  ℕ, ◌+◌, ◌-◌, ◌*◌, ◌^◌, Bool, not, ltb, ◌==◌, if◌then◌else◌, bit_and, bit_or, bit_xor,
}
use riscv64_emulator.Prelude.Word.{
  u32, u64, shr, shl32, shl64, sar, sign_extend, signed, ltℤ, unsigned_div, unsigned_rem,
  signed_div, signed_rem,
}
use riscv64_emulator.Prelude.Result.{
  Result, ok, fatal, undefined_behaviour, ◌>>=◌, entered_unreachable_code,
}
use riscv64_emulator.Instruction.Kinds.{InstructionType as IT}

unfoldable pub signextend32 : ℕ → ℕ
signextend32 value = sign_extend 32 (u32 value)

-- `int64_t(a) < int64_t(b)`.
abbrev pub signed_lt : ℕ → ℕ → Bool
signed_lt a b = ltℤ (signed 64 a) (signed 64 b)

unfoldable pub branch_taken : IT → ℕ → ℕ → Result Bool
branch_taken IT.beq a b = ok (a == b)
branch_taken IT.bne a b = ok (not (a == b))
branch_taken IT.blt a b = ok (signed_lt a b)
branch_taken IT.bge a b = ok (not (signed_lt a b))
branch_taken IT.bltu a b = ok (ltb a b)
branch_taken IT.bgeu a b = ok (not (ltb a b))
branch_taken _ a b = fatal entered_unreachable_code

-- A shift by `k` of a value of `w` bits.
abbrev pub shifted : ℕ → ℕ → ℕ → Result ℕ
shifted w k value = if ltb k w then ok value else undefined_behaviour

unfoldable pub immediate_result : IT → ℕ → ℕ → Result ℕ
unfolding signextend32
immediate_result IT.addi a b = ok (u64 (a + b))
immediate_result IT.xori a b = ok (bit_xor a b)
immediate_result IT.ori a b = ok (bit_or a b)
immediate_result IT.andi a b = ok (bit_and a b)
immediate_result IT.addiw a b = ok (signextend32 (u64 (a + b)))
immediate_result _ a b = fatal entered_unreachable_code

unfoldable pub shift_result : IT → ℕ → ℕ → Result ℕ
unfolding signextend32
shift_result IT.slli a k = shifted 64 k (shl64 a k)
shift_result IT.srli a k = shifted 64 k (shr a k)
shift_result IT.srai a k = shifted 64 k (shl64 a k)
shift_result IT.slliw a k = shifted 32 k (signextend32 (shl32 (u32 a) k))
shift_result IT.srliw a k = shifted 32 k (signextend32 (shr (u32 a) k))
shift_result IT.sraiw a k = shifted 32 k (signextend32 (sar 32 (u32 a) k))
shift_result _ a k = fatal entered_unreachable_code

-- Slt and Slti compare as signed, Sltu and Sltiu as unsigned.
unfoldable pub compare_result : IT → ℕ → ℕ → Bool
compare_result IT.slt a b = signed_lt a b
compare_result IT.slti a b = signed_lt a b
compare_result _ a b = ltb a b

unfoldable pub register_result : IT → ℕ → ℕ → Result ℕ
unfolding signextend32
register_result IT.add a b = ok (u64 (a + b))
register_result IT.sub a b = ok (u64 (a + 2 ^ 64 - b))
register_result IT.xor a b = ok (bit_xor a b)
register_result IT.or a b = ok (bit_or a b)
register_result IT.and a b = ok (bit_and a b)
register_result IT.sll a b = shifted 64 (bit_and b 63) (shl64 a (bit_and b 63))
register_result IT.srl a b = shifted 64 (bit_and b 63) (shr a (bit_and b 63))
register_result IT.sra a b = shifted 64 (bit_and b 63) (shl64 a (bit_and b 63))
register_result IT.addw a b = ok (signextend32 (u32 (u32 a + u32 b)))
register_result IT.subw a b = ok (signextend32 (u32 (u32 a + 2 ^ 32 - u32 b)))
register_result IT.sllw a b =
    shifted 32 (bit_and b 31) (signextend32 (shl32 (u32 a) (bit_and b 31)))
register_result IT.srlw a b = shifted 32 (bit_and b 31) (signextend32 (shr (u32 a) (bit_and b 31)))
register_result IT.sraw a b =
    shifted 32 (bit_and b 31) (signextend32 (sar 32 (u32 a) (bit_and b 31)))
register_result _ a b = fatal entered_unreachable_code

unfoldable pub multiply_result : IT → ℕ → ℕ → Result ℕ
unfolding signextend32
multiply_result IT.mul a b = ok (u64 (a * b))
multiply_result IT.mulw a b = do q ← unsigned_div (u32 a) (u32 b); ok (signextend32 q)
multiply_result IT.div a b = signed_div 64 a b
multiply_result IT.divw a b = do q ← signed_div 32 (u32 a) (u32 b); ok (signextend32 q)
multiply_result IT.divu a b = unsigned_div a b
multiply_result IT.divuw a b = do q ← unsigned_div (u32 a) (u32 b); ok (signextend32 q)
multiply_result IT.rem a b = signed_rem 64 a b
multiply_result IT.remu a b = unsigned_rem a b
multiply_result IT.remw a b = do r ← signed_rem 32 (u32 a) (u32 b); ok (signextend32 r)
multiply_result IT.remuw a b = do r ← unsigned_rem (u32 a) (u32 b); ok (signextend32 r)
multiply_result _ a b = fatal entered_unreachable_code
