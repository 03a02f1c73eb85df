-- ===== src/Jit/Aarch64/Branches.antt =====
-- src/vm/jit/aarch64/CodeGenerator.cpp: jumps to a block that is known and to one in a register.
use riscv64_emulator.Prelude.{
  ℕ, ◌-◌, ◌*◌, ◌/◌, ◌^◌, Bool, true, false, not, List, [], ◌∷◌, leb, ◌==◌, if◌then◌else◌, bit_and,
}
use riscv64_emulator.Prelude.Result.{
  Result, ok, fatal, ◌>>=◌, ◌>>◌, verify, entered_unreachable_code, same_register,
}
use riscv64_emulator.Instruction.Kinds.{InstructionType as IT}
use riscv64_emulator.Jit.Assembler.{A64R, xreg, xzr}
use riscv64_emulator.Jit.A64.{
  A64, Call, Condition, w64, add, and_, op, op_i, cmp, tst_i, load, ldr_w, ldar, cbz, br, b, equal,
  not_equal, less, greater_equal, unsigned_less, unsigned_greater_equal, not_zero,
}
use riscv64_emulator.Jit.Aarch64.{
  CodeGenerator, Block, block_base, code_base, max_executable_pc, unaligned_pc, out_of_bounds_pc,
  single_step, block_not_generated, emit, emit_all, allocate_label, load_immediate, flush_current,
  generate_exit, generate_exit_to, add_pending_exit,
}

-- The condition under which a branch is not taken.
unfoldable pub skip_condition : IT → Result Condition
skip_condition IT.beq = ok not_equal
skip_condition IT.bne = ok equal
skip_condition IT.blt = ok greater_equal
skip_condition IT.bge = ok less
skip_condition IT.bltu = ok unsigned_greater_equal
skip_condition IT.bgeu = ok unsigned_less
skip_condition _ = fatal entered_unreachable_code

-- Registers are compared by the value of their enumerator.
abbrev pub is_same : A64R → A64R → Bool
is_same (xreg n) (xreg k) = n == k
is_same (xreg n) xzr = false
is_same xzr (xreg k) = false
is_same xzr xzr = true

module _ (a64 : A64) (block : Block) where
  -- The load of the code's offset from the table of blocks.
  abbrev pub offset_load : CodeGenerator a64 → A64R → List Call
  offset_load g block_offset_reg =
      if block.multithreaded
      then op w64 add block_offset_reg block_base block_offset_reg
        ∷ ldar block_offset_reg block_offset_reg
        ∷ []
      else load ldr_w block_offset_reg block_base block_offset_reg ∷ []

  unfoldable pub generate_validated_branch : CodeGenerator a64 → A64R → ℕ × CodeGenerator a64
  generate_validated_branch g block_offset_reg =
      let loaded = emit_all a64 g (offset_load g block_offset_reg) in
      let (no_block_label, labelled) = allocate_label a64 loaded in
      (
        no_block_label,
        emit_all a64 labelled (
            cbz block_offset_reg no_block_label
            ∷ op w64 add block_offset_reg code_base block_offset_reg
            ∷ br block_offset_reg
            ∷ []),
      )

  unfoldable pub generate_static_branch : CodeGenerator a64 → ℕ → A64R → Result (CodeGenerator a64)
  generate_static_branch g target_pc scratch_reg =
      if not (bit_and target_pc 3 == 0)
      then generate_exit a64 block g unaligned_pc block.current_pc
      else if leb block.code_buffer.max_blocks (target_pc / 4)
      then generate_exit a64 block g out_of_bounds_pc block.current_pc
      else if block.single_step
      then generate_exit a64 block g single_step target_pc
      else (do
        g' ← flush_current a64 (load_immediate a64 block g scratch_reg (target_pc / 4 * 4))
        let (exit_label, g'') = generate_validated_branch g' scratch_reg
        add_pending_exit a64 g'' exit_label block_not_generated false xzr target_pc)

  -- What follows the checks of `generate_dynamic_branch`.
  abbrev pub leave_to : CodeGenerator a64 → A64R → A64R → Result (CodeGenerator a64)
  leave_to g target_pc scratch_reg =
      if block.single_step
      then generate_exit_to a64 block g single_step target_pc
      else (let (exit_label, g') = generate_validated_branch g scratch_reg in
          add_pending_exit a64 g' exit_label block_not_generated false target_pc 0)

  unfoldable pub generate_dynamic_branch :
      CodeGenerator a64 → A64R → A64R → Result (CodeGenerator a64)
  generate_dynamic_branch g target_pc scratch_reg = do
    verify (not (is_same target_pc scratch_reg)) same_register
    let (oob_label, g1) = allocate_label a64 g
    let (unaligned_label, g2) = allocate_label a64 g1
    g3 ← flush_current a64 (emit a64 g2 (op_i w64 and_ scratch_reg target_pc (2 ^ 64 - 2)))
    let checked = emit_all a64 g3 (
        tst_i scratch_reg 3
        ∷ b not_zero unaligned_label
        ∷ cmp w64 scratch_reg max_executable_pc
        ∷ b unsigned_greater_equal oob_label
        ∷ [])
    g4 ← leave_to checked target_pc scratch_reg
    g5 ← add_pending_exit a64 g4 oob_label out_of_bounds_pc false target_pc 0
    add_pending_exit a64 g5 unaligned_label unaligned_pc false target_pc 0
