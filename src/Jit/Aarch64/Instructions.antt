-- ===== src/Jit/Aarch64/Instructions.antt =====
-- `generate_instruction` of src/vm/jit/aarch64/CodeGenerator.cpp. The result says whether the block
-- goes on.
use riscv64_emulator.Prelude.{
  ℕ, ◌+◌, Bool, true, false, Option, none, some, [], ◌∷◌, ◌==◌, if◌then◌else◌,
}
use riscv64_emulator.Prelude.Word.{u64}
use riscv64_emulator.Prelude.Result.{Result, ok, fatal, ◌>>=◌, unknown_instruction}
use riscv64_emulator.Cpu.{zero_reg}
use riscv64_emulator.Instruction.{Instruction, type_of, rd, rs1, rs2, imm}
use riscv64_emulator.Instruction.Kinds.{InstructionType as IT}
use riscv64_emulator.Jit.Assembler.{A64R, Sort}
use riscv64_emulator.Jit.Utilities.{memory_access_size_log2}
use riscv64_emulator.Jit.A64.{A64, w64, mov, cmp, b, insert_label}
use riscv64_emulator.Jit.Aarch64.{
  CodeGenerator, Block, unsupported_instruction, undefined_instruction, ecall, ebreak, a_reg, b_reg,
  c_reg, read_of, write_only_of, emit, emit_all, allocate_label, load_immediate,
  add_offset_to_register, lock_one_of, lock_two, unlock,
}
use riscv64_emulator.Jit.Aarch64.Accesses.{generate_validate_memory_access}
use riscv64_emulator.Jit.Aarch64.Branches.{
  skip_condition, is_same, generate_static_branch, generate_dynamic_branch,
}
use riscv64_emulator.Jit.Aarch64.Selection.{load_calls, store_calls}
use riscv64_emulator.Jit.Aarch64.Arithmetic.{
  generate_immediate, generate_shift, generate_compare, generate_compare_immediate,
  generate_register, generate_multiply, exit_with,
}

module _ (a64 : A64) (std : Sort) (block : Block) where
  abbrev pub Generator : Type 0
  Generator = CodeGenerator a64

  -- A register that gets an immediate, dirty; nothing for register zero.
  unfoldable pub generate_constant : Instruction → Generator → ℕ → Result Generator
  generate_constant i g immediate = if rd i == zero_reg then ok g else (do
    (r, g1) ← lock_one_of a64 std g (write_only_of (rd i))
    unlock a64 (load_immediate a64 block g1 r immediate) r true)

  unfoldable pub generate_jal : Instruction → Generator → Result (Bool × Generator)
  generate_jal i g = do
    g1 ← generate_constant i g (u64 (block.current_pc + 4))
    g2 ← generate_static_branch a64 block g1 (u64 (block.current_pc + imm i)) a_reg
    ok (false, g2)

  -- Jalr: the link, which may be written to the register that holds the target.
  unfoldable pub generate_link : Instruction → Generator → A64R → Result (A64R × Generator)
  generate_link i g offseted = if rd i == zero_reg then ok (offseted, g) else (do
    (dest, g1) ← lock_one_of a64 std g (write_only_of (rd i))
    let moved = if is_same dest offseted then emit a64 g1 (mov a_reg offseted) else g1
    let target = if is_same dest offseted then a_reg else offseted
    g2 ← unlock a64 (load_immediate a64 block moved dest (u64 (block.current_pc + 4))) dest true
    ok (target, g2))

  unfoldable pub generate_jalr : Instruction → Generator → Result (Bool × Generator)
  generate_jalr i g = do
    (target_reg, g1) ← lock_one_of a64 std g (read_of (rs1 i))
    let (offseted, g2) = add_offset_to_register a64 block g1 target_reg a_reg (imm i)
    (target, g3) ← generate_link i g2 offseted
    g4 ← generate_dynamic_branch a64 block g3 target b_reg
    g5 ← unlock a64 g4 target_reg false
    ok (false, g5)

  unfoldable pub generate_branch : IT → Instruction → Generator → Result (Bool × Generator)
  generate_branch t i g = do
    condition ← skip_condition t
    (x, y, g1) ← lock_two a64 std g (read_of (rs1 i)) (read_of (rs2 i))
    let (skip_label, g2) = allocate_label a64 g1
    let compared = emit_all a64 g2 (cmp w64 x y ∷ b condition skip_label ∷ [])
    g3 ← generate_static_branch a64 block compared (u64 (block.current_pc + imm i)) a_reg
    g4 ← unlock a64 (emit a64 g3 (insert_label skip_label)) x false
    g5 ← unlock a64 g4 y false
    ok (true, g5)

  unfoldable pub generate_load : IT → Instruction → Generator → Result (Bool × Generator)
  generate_load t i g = if rd i == zero_reg then ok (true, g) else (do
    (unoffseted, dest, g1) ← lock_two a64 std g (read_of (rs1 i)) (write_only_of (rd i))
    let (address, g2) = add_offset_to_register a64 block g1 unoffseted a_reg (imm i)
    size ← memory_access_size_log2 t
    g3 ← generate_validate_memory_access a64 block g2 address b_reg c_reg size false
    calls ← load_calls dest address t
    g4 ← unlock a64 (emit_all a64 g3 calls) unoffseted false
    g5 ← unlock a64 g4 dest true
    ok (true, g5))

  unfoldable pub generate_store : IT → Instruction → Generator → Result (Bool × Generator)
  generate_store t i g = do
    (unoffseted, value, g1) ← lock_two a64 std g (read_of (rs1 i)) (read_of (rs2 i))
    let (address, g2) = add_offset_to_register a64 block g1 unoffseted a_reg (imm i)
    size ← memory_access_size_log2 t
    g3 ← generate_validate_memory_access a64 block g2 address b_reg c_reg size true
    calls ← store_calls value address t
    g4 ← unlock a64 (emit_all a64 g3 calls) unoffseted false
    g5 ← unlock a64 g4 value false
    ok (true, g5)

  abbrev pub and_go_on : Result Generator → Result (Bool × Generator)
  and_go_on r = do g ← r; ok (true, g)

  -- The switch on the instruction type.
  unfoldable pub generate : Instruction → Generator → IT → Result (Bool × Generator)
  generate i g IT.lui = and_go_on (generate_constant i g (imm i))
  generate i g IT.auipc = and_go_on (generate_constant i g (u64 (block.current_pc + imm i)))
  generate i g IT.jal = generate_jal i g
  generate i g IT.jalr = generate_jalr i g
  generate i g IT.beq = generate_branch IT.beq i g
  generate i g IT.bne = generate_branch IT.bne i g
  generate i g IT.blt = generate_branch IT.blt i g
  generate i g IT.bge = generate_branch IT.bge i g
  generate i g IT.bltu = generate_branch IT.bltu i g
  generate i g IT.bgeu = generate_branch IT.bgeu i g
  generate i g IT.lb = generate_load IT.lb i g
  generate i g IT.lh = generate_load IT.lh i g
  generate i g IT.lw = generate_load IT.lw i g
  generate i g IT.ld = generate_load IT.ld i g
  generate i g IT.lbu = generate_load IT.lbu i g
  generate i g IT.lhu = generate_load IT.lhu i g
  generate i g IT.lwu = generate_load IT.lwu i g
  generate i g IT.sb = generate_store IT.sb i g
  generate i g IT.sh = generate_store IT.sh i g
  generate i g IT.sw = generate_store IT.sw i g
  generate i g IT.sd = generate_store IT.sd i g
  generate i g IT.addi = generate_immediate a64 std block IT.addi i g
  generate i g IT.xori = generate_immediate a64 std block IT.xori i g
  generate i g IT.ori = generate_immediate a64 std block IT.ori i g
  generate i g IT.andi = generate_immediate a64 std block IT.andi i g
  generate i g IT.addiw = generate_immediate a64 std block IT.addiw i g
  generate i g IT.slli = generate_shift a64 std block IT.slli i g
  generate i g IT.srli = generate_shift a64 std block IT.srli i g
  generate i g IT.srai = generate_shift a64 std block IT.srai i g
  generate i g IT.slliw = generate_shift a64 std block IT.slliw i g
  generate i g IT.srliw = generate_shift a64 std block IT.srliw i g
  generate i g IT.sraiw = generate_shift a64 std block IT.sraiw i g
  generate i g IT.slt = generate_compare a64 std block IT.slt i g
  generate i g IT.sltu = generate_compare a64 std block IT.sltu i g
  generate i g IT.slti = generate_compare_immediate a64 std block IT.slti i g
  generate i g IT.sltiu = generate_compare_immediate a64 std block IT.sltiu i g
  generate i g IT.mul = generate_multiply a64 std block IT.mul i g
  generate i g IT.mulw = generate_multiply a64 std block IT.mulw i g
  generate i g IT.div = generate_multiply a64 std block IT.div i g
  generate i g IT.divw = generate_multiply a64 std block IT.divw i g
  generate i g IT.divu = generate_multiply a64 std block IT.divu i g
  generate i g IT.divuw = generate_multiply a64 std block IT.divuw i g
  generate i g IT.rem = generate_multiply a64 std block IT.rem i g
  generate i g IT.remu = generate_multiply a64 std block IT.remu i g
  generate i g IT.remw = generate_multiply a64 std block IT.remw i g
  generate i g IT.remuw = generate_multiply a64 std block IT.remuw i g
  generate i g IT.mulh = exit_with a64 std block unsupported_instruction g
  generate i g IT.mulhu = exit_with a64 std block unsupported_instruction g
  generate i g IT.mulhsu = exit_with a64 std block unsupported_instruction g
  generate i g IT.fence = ok (true, g)
  generate i g IT.ecall = exit_with a64 std block ecall g
  generate i g IT.ebreak = exit_with a64 std block ebreak g
  generate i g IT.undefined = exit_with a64 std block undefined_instruction g
  generate i g t = generate_register a64 std block t i g

  abbrev pub generate_for : Instruction → Generator → Option IT → Result (Bool × Generator)
  generate_for i g none = fatal unknown_instruction
  generate_for i g (some t) = generate i g t

  unfoldable pub generate_instruction : Instruction → Generator → Result (Bool × Generator)
  generate_instruction i g = generate_for i g (type_of i)
