-- ===== src/Interpreter.antt =====
-- `Interpreter::step` of src/vm/Interpreter.cpp.
pub mod Alu
pub mod Values
pub mod Steps
pub mod Step
pub mod Manual
pub mod Division
pub mod Computed
pub mod Accesses
pub mod Loads
pub mod Stores
pub mod Jumps
use riscv64_emulator.Prelude.{
  ℕ, ◌+◌, ◌-◌, ◌^◌, Bool, true, false, not, Option, none, some, ◌==◌, if◌then◌else◌, bit_and,
}
use riscv64_emulator.Prelude.Word.{u64, sign_extend}
use riscv64_emulator.Prelude.Result.{
  Result, ok, fatal, ◌>>=◌, entered_unreachable_code, multiply_high_not_supported,
}
use riscv64_emulator.Cpu.{Register, Cpu, pc_reg, reg, set_reg, pc}
use riscv64_emulator.Memory.{Memory, flag_read, flag_write, flag_execute, read_value, write_value}
use riscv64_emulator.Exit.{
  Reason, Exit, unaligned_pc, instruction_fetch_fault, undefined_instruction, memory_read_fault,
  memory_write_fault,
}
use riscv64_emulator.Instruction.{Instruction, type_of, rd, rs1, rs2, imm, shamt}
use riscv64_emulator.Instruction.Kinds.{InstructionType as IT}
use riscv64_emulator.Instruction.Decoder.{decode}
use Alu.{
  branch_taken, immediate_result, shift_result, compare_result, register_result, multiply_result,
}

-- The three objects that `step` is given by reference.
pub record State : Type 0 where
  pub memory : Memory
  pub cpu : Cpu
  pub exit : Exit

-- A return of `false`, with the reason noted, or with the address and the register too.
abbrev pub stop : Reason → State → Result (Bool × State)
stop reason s = let e = s.exit in ok (false, record s { exit = record e { reason = reason } })

abbrev pub stop_at : Reason → ℕ → Register → State → Result (Bool × State)
stop_at reason address target s = ok (
  false,
  record s {
    exit = record { reason = reason; faulty_address = address; target_register = target };
  },
)

-- The end of `step`.
abbrev pub advance : ℕ → State → Result (Bool × State)
advance next_pc s = ok (true, record s { cpu = set_reg s.cpu pc_reg next_pc })

-- `cpu.set_reg(instruction.rd(), result)` and the end of `step`.
abbrev pub write_rd : Instruction → ℕ → State → ℕ → Result (Bool × State)
write_rd i next_pc s result = advance next_pc (record s { cpu = set_reg s.cpu (rd i) result })

-- The cases of `read<type>(address, MemoryFlags::Read, v)` and of `uint64_t(v)`.
unfoldable pub load : IT → Memory → ℕ → Result (Option ℕ)
load IT.lb m address = do
  v ← read_value m address flag_read 1
  ok (elim v [ none ↦ none | some x ↦ some (sign_extend 8 x) ])
load IT.lh m address = do
  v ← read_value m address flag_read 2
  ok (elim v [ none ↦ none | some x ↦ some (sign_extend 16 x) ])
load IT.lw m address = do
  v ← read_value m address flag_read 4
  ok (elim v [ none ↦ none | some x ↦ some (sign_extend 32 x) ])
load IT.ld m address = read_value m address flag_read 8
load IT.lbu m address = read_value m address flag_read 1
load IT.lhu m address = read_value m address flag_read 2
load IT.lwu m address = read_value m address flag_read 4
load _ m address = fatal entered_unreachable_code

unfoldable pub store : IT → Memory → ℕ → ℕ → Result (Bool × Memory)
store IT.sb m address value = write_value m address flag_write 1 value
store IT.sh m address value = write_value m address flag_write 2 value
store IT.sw m address value = write_value m address flag_write 4 value
store IT.sd m address value = write_value m address flag_write 8 value
store _ m address value = fatal entered_unreachable_code

-- `cpu.reg(instruction.rs1()) + instruction.imm()`.
abbrev pub rs1_plus_imm : State → Instruction → ℕ
rs1_plus_imm s i = u64 (reg s.cpu (rs1 i) + imm i)

module _ (current_pc next_pc : ℕ) (i : Instruction) (s : State) where
  abbrev pub a_operand : ℕ
  a_operand = reg s.cpu (rs1 i)

  abbrev pub b_operand : ℕ
  b_operand = reg s.cpu (rs2 i)

  unfoldable pub run_branch : IT → Result (Bool × State)
  run_branch t = do
    taken ← branch_taken t a_operand b_operand
    advance (if taken then u64 (current_pc + imm i) else next_pc) s

  unfoldable pub run_load : IT → Result (Bool × State)
  run_load t = do
    loaded ← load t s.memory (rs1_plus_imm s i)
    elim loaded [
      | none ↦ stop_at memory_read_fault (rs1_plus_imm s i) (rd i) s
      | some result ↦ write_rd i next_pc s result
    ]

  unfoldable pub run_store : IT → Result (Bool × State)
  run_store t = do
    (success, m') ← store t s.memory (rs1_plus_imm s i) b_operand
    let s' = record s { memory = m' }
    if success then advance next_pc s' else stop_at memory_write_fault (rs1_plus_imm s i) (rs2 i) s'

  unfoldable pub run_immediate : IT → Result (Bool × State)
  run_immediate t = immediate_result t a_operand (imm i) >>= write_rd i next_pc s

  unfoldable pub run_shift : IT → Result (Bool × State)
  run_shift t = shift_result t a_operand (shamt i) >>= write_rd i next_pc s

  unfoldable pub run_compare : IT → ℕ → Result (Bool × State)
  run_compare t b = write_rd i next_pc s (if compare_result t a_operand b then 1 else 0)

  unfoldable pub run_register : IT → Result (Bool × State)
  run_register t = register_result t a_operand b_operand >>= write_rd i next_pc s

  unfoldable pub run_multiply : IT → Result (Bool × State)
  run_multiply t = multiply_result t a_operand b_operand >>= write_rd i next_pc s

  -- The outer switch.
  unfoldable pub execute : IT → Result (Bool × State)
  execute IT.lui = write_rd i next_pc s (imm i)
  execute IT.auipc = write_rd i next_pc s (u64 (current_pc + imm i))
  execute IT.jal =
      advance (u64 (current_pc + imm i)) (record s { cpu = set_reg s.cpu (rd i) next_pc })
  execute IT.jalr =
      advance (bit_and (rs1_plus_imm s i) (2 ^ 64 - 2))
        (record s { cpu = set_reg s.cpu (rd i) next_pc })
  execute IT.beq = run_branch IT.beq
  execute IT.bne = run_branch IT.bne
  execute IT.blt = run_branch IT.blt
  execute IT.bge = run_branch IT.bge
  execute IT.bltu = run_branch IT.bltu
  execute IT.bgeu = run_branch IT.bgeu
  execute IT.lb = run_load IT.lb
  execute IT.lh = run_load IT.lh
  execute IT.lw = run_load IT.lw
  execute IT.ld = run_load IT.ld
  execute IT.lbu = run_load IT.lbu
  execute IT.lhu = run_load IT.lhu
  execute IT.lwu = run_load IT.lwu
  execute IT.sb = run_store IT.sb
  execute IT.sh = run_store IT.sh
  execute IT.sw = run_store IT.sw
  execute IT.sd = run_store IT.sd
  execute IT.addi = run_immediate IT.addi
  execute IT.xori = run_immediate IT.xori
  execute IT.ori = run_immediate IT.ori
  execute IT.andi = run_immediate IT.andi
  execute IT.addiw = run_immediate IT.addiw
  execute IT.slli = run_shift IT.slli
  execute IT.srli = run_shift IT.srli
  execute IT.srai = run_shift IT.srai
  execute IT.slliw = run_shift IT.slliw
  execute IT.srliw = run_shift IT.srliw
  execute IT.sraiw = run_shift IT.sraiw
  execute IT.slt = run_compare IT.slt b_operand
  execute IT.sltu = run_compare IT.sltu b_operand
  execute IT.slti = run_compare IT.slti (imm i)
  execute IT.sltiu = run_compare IT.sltiu (imm i)
  execute IT.add = run_register IT.add
  execute IT.sub = run_register IT.sub
  execute IT.xor = run_register IT.xor
  execute IT.or = run_register IT.or
  execute IT.and = run_register IT.and
  execute IT.sll = run_register IT.sll
  execute IT.srl = run_register IT.srl
  execute IT.sra = run_register IT.sra
  execute IT.addw = run_register IT.addw
  execute IT.subw = run_register IT.subw
  execute IT.sllw = run_register IT.sllw
  execute IT.srlw = run_register IT.srlw
  execute IT.sraw = run_register IT.sraw
  execute IT.mul = run_multiply IT.mul
  execute IT.mulw = run_multiply IT.mulw
  execute IT.div = run_multiply IT.div
  execute IT.divw = run_multiply IT.divw
  execute IT.divu = run_multiply IT.divu
  execute IT.divuw = run_multiply IT.divuw
  execute IT.rem = run_multiply IT.rem
  execute IT.remu = run_multiply IT.remu
  execute IT.remw = run_multiply IT.remw
  execute IT.remuw = run_multiply IT.remuw
  execute IT.mulh = fatal multiply_high_not_supported
  execute IT.mulhu = fatal multiply_high_not_supported
  execute IT.mulhsu = fatal multiply_high_not_supported
  execute IT.ecall = stop Reason.ecall s
  execute IT.ebreak = stop Reason.ebreak s
  execute IT.undefined = stop undefined_instruction s
  execute IT.fence = advance next_pc s

-- The switch on `instruction.type()`; a number that is no enumerator reaches its `default`.
abbrev pub dispatch : ℕ → ℕ → Instruction → State → Option IT → Result (Bool × State)
dispatch current_pc next_pc i s none = fatal entered_unreachable_code
dispatch current_pc next_pc i s (some t) = execute current_pc next_pc i s t

unfoldable pub step : State → Result (Bool × State)
step s =
    let current_pc = pc s.cpu in
    if not (bit_and current_pc 3 == 0) then stop unaligned_pc s else do
      fetched ← read_value s.memory current_pc flag_execute 4
      elim fetched [
        | none ↦ stop instruction_fetch_fault s
        | some word ↦
            dispatch current_pc (u64 (current_pc + 4)) (decode word) s (type_of (decode word))
      ]
