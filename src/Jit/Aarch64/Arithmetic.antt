-- ===== src/Jit/Aarch64/Arithmetic.antt =====
-- `generate_instruction` of src/vm/jit/aarch64/CodeGenerator.cpp: the cases of instructions that
-- only compute. The result says whether the block goes on.
use riscv64_emulator.Prelude.{ℕ, Bool, true, false, List, [], ◌∷◌, ltb, ◌==◌, if◌then◌else◌}
use riscv64_emulator.Prelude.Word.{signed, ltℤ, pos}
use riscv64_emulator.Prelude.Result.{Result, ok, fatal, ◌>>=◌, entered_unreachable_code}
use riscv64_emulator.Cpu.{zero_reg}
use riscv64_emulator.Instruction.{Instruction, rd, rs1, rs2, imm, shamt}
use riscv64_emulator.Instruction.Kinds.{InstructionType as IT}
use riscv64_emulator.Jit.Assembler.{A64R, xreg, xzr, Sort}
use riscv64_emulator.Jit.A64.{A64, Call, w64, add, eor, orr, and_, mov, sxtw, cmp, cmp_i, cset}
use riscv64_emulator.Jit.Aarch64.{
  CodeGenerator, Block, ArchExitReason, unsupported_instruction, a_reg, read_of, write_only_of,
  emit, emit_all, try_op, load_immediate, load_immediate_or_zero, generate_exit, lock_one_of,
  lock_two, lock_three, unlock,
}
use riscv64_emulator.Jit.Aarch64.Selection.{
  register_calls, multiply_calls, loaded_immediate_calls, shift_calls, less_condition,
}

module _ (a64 : A64) (std : Sort) (block : Block) where
  abbrev pub Generator : Type 0
  Generator = CodeGenerator a64

  -- The addition of an immediate: `mov` for 0, a load of the immediate for the zero register.
  abbrev pub try_add : Generator → A64R → A64R → ℕ → Bool × Generator
  try_add g dest xzr k =
      if k == 0
      then (true, emit a64 g (mov dest xzr))
      else (true, load_immediate a64 block g dest k)
  try_add g dest (xreg n) k =
      if k == 0 then (true, emit a64 g (mov dest (xreg n))) else try_op a64 g add dest (xreg n) k

  -- The first inner switch of Addi, …: whether it succeeded.
  unfoldable pub try_immediate : IT → Generator → A64R → A64R → ℕ → Result (Bool × Generator)
  try_immediate IT.addi g dest x k = ok (try_add g dest x k)
  try_immediate IT.addiw g dest x k =
      let (added, g') = try_add g dest x k in
      ok (if added then (true, emit a64 g' (sxtw dest dest)) else (false, g'))
  try_immediate IT.xori g dest x k = ok (try_op a64 g eor dest x k)
  try_immediate IT.ori g dest x k = ok (try_op a64 g orr dest x k)
  try_immediate IT.andi g dest x k = ok (try_op a64 g and_ dest x k)
  try_immediate _ g dest x k = fatal entered_unreachable_code

  -- The second, after the immediate is loaded.
  abbrev pub finish_immediate : IT → A64R → A64R → ℕ → Bool × Generator → Result Generator
  finish_immediate t dest x k (true, g) = ok g
  finish_immediate t dest x k (false, g) =
      let (y, g') = load_immediate_or_zero a64 block g a_reg k in
      do calls ← loaded_immediate_calls dest x y t; ok (emit_all a64 g' calls)

  unfoldable pub generate_immediate : IT → Instruction → Generator → Result (Bool × Generator)
  generate_immediate t i g = if rd i == zero_reg then ok (true, g) else (do
    (x, dest, g1) ← lock_two a64 std g (read_of (rs1 i)) (write_only_of (rd i))
    tried ← try_immediate t g1 dest x (imm i)
    g2 ← finish_immediate t dest x (imm i) tried
    g3 ← unlock a64 g2 x false
    g4 ← unlock a64 g3 dest true
    ok (true, g4))

  unfoldable pub generate_shift : IT → Instruction → Generator → Result (Bool × Generator)
  generate_shift t i g = if rd i == zero_reg then ok (true, g) else (do
    (x, dest, g1) ← lock_two a64 std g (read_of (rs1 i)) (write_only_of (rd i))
    calls ← shift_calls dest x (shamt i) t
    g2 ← unlock a64 (emit_all a64 g1 calls) x false
    g3 ← unlock a64 g2 dest true
    ok (true, g3))

  -- Slt and Sltu.
  unfoldable pub generate_compare : IT → Instruction → Generator → Result (Bool × Generator)
  generate_compare t i g = if rd i == zero_reg then ok (true, g) else (do
    (x, y, dest, g1) ←
        lock_three a64 std g (read_of (rs1 i)) (read_of (rs2 i)) (write_only_of (rd i))
    let compared = emit_all a64 g1 (cmp w64 x y ∷ cset dest (less_condition t) ∷ [])
    g2 ← unlock a64 compared x false
    g3 ← unlock a64 g2 y false
    g4 ← unlock a64 g3 dest true
    ok (true, g4))

  -- `0 < imm` as signed for Slti, as unsigned for Sltiu.
  abbrev pub zero_less : IT → ℕ → ℕ
  zero_less IT.slti k = if ltℤ (pos 0) (signed 64 k) then 1 else 0
  zero_less _ k = if ltb 0 k then 1 else 0

  -- The comparison with an immediate, which is loaded if it cannot be encoded.
  abbrev pub compare_with : Generator → A64R → ℕ → Generator
  compare_with g x k =
      let (y, g') = load_immediate_or_zero a64 block g a_reg k in
      let loaded = emit a64 g' (cmp w64 x y) in
      if a64.encodable_cmp k then emit a64 g (cmp_i x k) else loaded

  -- Slti and Sltiu.
  unfoldable pub generate_compare_immediate :
      IT → Instruction → Generator → Result (Bool × Generator)
  generate_compare_immediate t i g =
      if rd i == zero_reg
      then ok (true, g)
      else if rs1 i == zero_reg
      then (do
        (dest, g1) ← lock_one_of a64 std g (write_only_of (rd i))
        g2 ← unlock a64 (load_immediate a64 block g1 dest (zero_less t (imm i))) dest true
        ok (true, g2))
      else (do
        (x, dest, g1) ← lock_two a64 std g (read_of (rs1 i)) (write_only_of (rd i))
        let compared = emit a64 (compare_with g1 x (imm i)) (cset dest (less_condition t))
        g2 ← unlock a64 compared x false
        g3 ← unlock a64 g2 dest true
        ok (true, g3))

  -- The instructions with three registers: `choose` is the inner switch.
  unfoldable pub generate_three :
      (A64R → A64R → A64R → Result (List Call)) → Instruction → Generator → Result Generator
  generate_three choose i g = do
    (x, y, dest, g1) ←
        lock_three a64 std g (read_of (rs1 i)) (read_of (rs2 i)) (write_only_of (rd i))
    calls ← choose dest x y
    g2 ← unlock a64 (emit_all a64 g1 calls) x false
    g3 ← unlock a64 g2 y false
    unlock a64 g3 dest true

  unfoldable pub generate_register : IT → Instruction → Generator → Result (Bool × Generator)
  generate_register t i g =
      if rd i == zero_reg
      then ok (true, g)
      else (do g' ← generate_three (λ dest x y. register_calls dest x y t) i g; ok (true, g'))

  abbrev pub exit_with : ArchExitReason → Generator → Result (Bool × Generator)
  exit_with reason g = do g' ← generate_exit a64 block g reason block.current_pc; ok (false, g')

  -- Multiplications and divisions; without a destination control falls through to the next case.
  unfoldable pub generate_multiply : IT → Instruction → Generator → Result (Bool × Generator)
  generate_multiply t i g =
      if rd i == zero_reg
      then exit_with unsupported_instruction g
      else (do g' ← generate_three (λ dest x y. multiply_calls dest x y t) i g; ok (true, g'))
