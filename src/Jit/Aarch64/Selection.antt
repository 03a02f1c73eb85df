-- ===== src/Jit/Aarch64/Selection.antt =====
-- src/vm/jit/aarch64/CodeGenerator.cpp: the inner switches of `generate_instruction`, which choose
-- the instructions of the host for the registers that were locked.
use riscv64_emulator.Prelude.{ℕ, List, [], ◌∷◌}
use riscv64_emulator.Prelude.Result.{Result, ok, fatal, entered_unreachable_code}
use riscv64_emulator.Instruction.Kinds.{InstructionType as IT}
use riscv64_emulator.Jit.Assembler.{A64R}
use riscv64_emulator.Jit.A64.{
  Call, Condition, w32, w64, add, sub, eor, orr, and_, lsl, lsr, asr, mul, sdiv, udiv, sxtw, op,
  op_i, msub, load, store, ldrsb, ldrsh, ldrsw, ldr, ldrb, ldrh, ldr_w, strb, strh, str_w, str,
  less, unsigned_less,
}
use riscv64_emulator.Jit.Aarch64.{memory_base, a_reg}

module _ (dest a : A64R) where
  module _ (c : A64R) where
    unfoldable pub register_calls : IT → Result (List Call)
    register_calls IT.add = ok (op w64 add dest a c ∷ [])
    register_calls IT.sub = ok (op w64 sub dest a c ∷ [])
    register_calls IT.xor = ok (op w64 eor dest a c ∷ [])
    register_calls IT.or = ok (op w64 orr dest a c ∷ [])
    register_calls IT.and = ok (op w64 and_ dest a c ∷ [])
    register_calls IT.sll = ok (op w64 lsl dest a c ∷ [])
    register_calls IT.srl = ok (op w64 lsr dest a c ∷ [])
    register_calls IT.sra = ok (op w64 asr dest a c ∷ [])
    register_calls IT.addw = ok (op w32 add dest a c ∷ sxtw dest dest ∷ [])
    register_calls IT.subw = ok (op w32 sub dest a c ∷ sxtw dest dest ∷ [])
    register_calls IT.sllw = ok (op w32 lsl dest a c ∷ sxtw dest dest ∷ [])
    register_calls IT.srlw = ok (op w32 lsr dest a c ∷ sxtw dest dest ∷ [])
    register_calls IT.sraw = ok (op w32 asr dest a c ∷ sxtw dest dest ∷ [])
    register_calls _ = fatal entered_unreachable_code

    unfoldable pub multiply_calls : IT → Result (List Call)
    multiply_calls IT.mul = ok (op w64 mul dest a c ∷ [])
    multiply_calls IT.mulw = ok (op w32 mul dest a c ∷ sxtw dest dest ∷ [])
    multiply_calls IT.div = ok (op w64 sdiv dest a c ∷ [])
    multiply_calls IT.divw = ok (op w32 sdiv dest a c ∷ sxtw dest dest ∷ [])
    multiply_calls IT.divu = ok (op w64 udiv dest a c ∷ [])
    multiply_calls IT.divuw = ok (op w32 udiv dest a c ∷ sxtw dest dest ∷ [])
    multiply_calls IT.rem = ok (op w64 sdiv a_reg a c ∷ msub w64 dest a_reg c a ∷ [])
    multiply_calls IT.remu = ok (op w64 udiv a_reg a c ∷ msub w64 dest a_reg c a ∷ [])
    multiply_calls IT.remw =
        ok (op w32 sdiv a_reg a c ∷ msub w32 dest a_reg c a ∷ sxtw dest dest ∷ [])
    multiply_calls IT.remuw =
        ok (op w32 udiv a_reg a c ∷ msub w32 dest a_reg c a ∷ sxtw dest dest ∷ [])
    multiply_calls _ = fatal entered_unreachable_code

    -- For an immediate that had to be loaded into a register.
    unfoldable pub loaded_immediate_calls : IT → Result (List Call)
    loaded_immediate_calls IT.addi = ok (op w64 add dest a c ∷ [])
    loaded_immediate_calls IT.xori = ok (op w64 eor dest a c ∷ [])
    loaded_immediate_calls IT.ori = ok (op w64 orr dest a c ∷ [])
    loaded_immediate_calls IT.andi = ok (op w64 and_ dest a c ∷ [])
    loaded_immediate_calls IT.addiw = ok (op w64 add dest a c ∷ sxtw dest dest ∷ [])
    loaded_immediate_calls _ = fatal entered_unreachable_code

  unfoldable pub shift_calls : ℕ → IT → Result (List Call)
  shift_calls shamt IT.slli = ok (op_i w64 lsl dest a shamt ∷ [])
  shift_calls shamt IT.srli = ok (op_i w64 lsr dest a shamt ∷ [])
  shift_calls shamt IT.srai = ok (op_i w64 asr dest a shamt ∷ [])
  shift_calls shamt IT.slliw = ok (op_i w32 lsl dest a shamt ∷ sxtw dest dest ∷ [])
  shift_calls shamt IT.srliw = ok (op_i w32 lsr dest a shamt ∷ sxtw dest dest ∷ [])
  shift_calls shamt IT.sraiw = ok (op_i w32 asr dest a shamt ∷ sxtw dest dest ∷ [])
  shift_calls shamt _ = fatal entered_unreachable_code

  -- The access itself, at the address in the register `a`.
  unfoldable pub load_calls : IT → Result (List Call)
  load_calls IT.lb = ok (load ldrsb dest memory_base a ∷ [])
  load_calls IT.lh = ok (load ldrsh dest memory_base a ∷ [])
  load_calls IT.lw = ok (load ldrsw dest memory_base a ∷ [])
  load_calls IT.ld = ok (load ldr dest memory_base a ∷ [])
  load_calls IT.lbu = ok (load ldrb dest memory_base a ∷ [])
  load_calls IT.lhu = ok (load ldrh dest memory_base a ∷ [])
  load_calls IT.lwu = ok (load ldr_w dest memory_base a ∷ [])
  load_calls _ = fatal entered_unreachable_code

  -- A store of the register `dest`.
  unfoldable pub store_calls : IT → Result (List Call)
  store_calls IT.sb = ok (store strb dest memory_base a ∷ [])
  store_calls IT.sh = ok (store strh dest memory_base a ∷ [])
  store_calls IT.sw = ok (store str_w dest memory_base a ∷ [])
  store_calls IT.sd = ok (store str dest memory_base a ∷ [])
  store_calls _ = fatal entered_unreachable_code

-- The condition of `cset` for slt, sltu, slti and sltiu.
abbrev pub less_condition : IT → Condition
less_condition IT.sltu = unsigned_less
less_condition IT.sltiu = unsigned_less
less_condition _ = less
