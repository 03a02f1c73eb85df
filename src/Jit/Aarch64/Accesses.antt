-- ===== src/Jit/Aarch64/Accesses.antt =====
-- src/vm/jit/aarch64/CodeGenerator.cpp: the checks before a memory access.
use riscv64_emulator.Prelude.{
  ℕ, zero, suc, ◌+◌, ◌-◌, ◌*◌, ◌^◌, Bool, true, [], ◌∷◌, ltb, if◌then◌else◌, bit_or,
}
use riscv64_emulator.Prelude.Word.{shl64}
use riscv64_emulator.Prelude.Result.{Result, ok, fatal, ◌>>=◌, entered_unreachable_code}
use riscv64_emulator.Memory.{Flags, flag_read, flag_write}
use riscv64_emulator.Jit.Assembler.{A64R, xzr}
use riscv64_emulator.Jit.A64.{
  A64, Load, w32, w64, and_, cmp, tst_i, mov_i, op, load, b, not_zero, not_equal,
  unsigned_greater_equal, ldrb, ldrh, ldr_w, ldr, Width,
}
use riscv64_emulator.Jit.Aarch64.{
  CodeGenerator, Block, memory_read_fault, memory_write_fault, permissions_base, memory_size,
  emit_all, allocate_label, add_pending_exit,
}

-- The loop that repeats the flags in the bytes i, i + 1, ….
unfoldable pub repeat_flags : ℕ → ℕ → Flags → ℕ → ℕ
repeat_flags zero i uflags mask = mask
repeat_flags (suc left) i uflags mask =
    repeat_flags left (i + 1) uflags (bit_or mask (shl64 uflags (i * 8)))

-- The mask of `load_memory_permission_mask`, and what it returns: whether to truncate to 32 bits.
unfoldable pub permission_mask : Flags → ℕ → Result (ℕ × Width)
permission_mask uflags zero = ok (uflags, w64)
permission_mask uflags (suc zero) = ok (bit_or (shl64 uflags 8) uflags, w64)
permission_mask uflags (suc (suc zero)) = ok (repeat_flags 8 0 uflags 0, w32)
permission_mask uflags (suc (suc (suc zero))) = ok (repeat_flags 8 0 uflags 0, w64)
permission_mask uflags (suc (suc (suc (suc more)))) = fatal entered_unreachable_code

-- The switch that loads the permissions of the bytes of an access.
abbrev pub permissions_load : ℕ → Result Load
permissions_load zero = ok ldrb
permissions_load (suc zero) = ok ldrh
permissions_load (suc (suc zero)) = ok ldr_w
permissions_load (suc (suc (suc zero))) = ok ldr
permissions_load (suc (suc (suc (suc more)))) = fatal entered_unreachable_code

module _ (a64 : A64) (block : Block) where
  -- The permission check: every byte must have the flag.
  unfoldable pub check_permissions :
      CodeGenerator a64 → ℕ → A64R → A64R → A64R → ℕ → Bool → Result (CodeGenerator a64)
  check_permissions g fault_label address_reg perms_reg mask_reg access_size_log2 write = do
    loading ← permissions_load access_size_log2
    (mask, width) ← permission_mask (if write then flag_write else flag_read) access_size_log2
    ok (
        emit_all a64 g (
          load loading perms_reg permissions_base address_reg
          ∷ mov_i mask_reg mask
          ∷ op width and_ perms_reg perms_reg mask_reg
          ∷ cmp width perms_reg mask_reg
          ∷ b not_equal fault_label
          ∷ []))

  unfoldable pub generate_validate_memory_access :
      CodeGenerator a64 → A64R → A64R → A64R → ℕ → Bool → Result (CodeGenerator a64)
  generate_validate_memory_access g address_reg scratch_reg scratch_reg2 access_size_log2 write = do
    let (fault_label, g') = allocate_label a64 g
    let aligned =
        if ltb 0 access_size_log2
        then emit_all a64 g'
            (tst_i address_reg (2 ^ access_size_log2 - 1) ∷ b not_zero fault_label ∷ [])
        else g'
    let inside =
        emit_all a64 aligned
          (cmp w64 address_reg memory_size ∷ b unsigned_greater_equal fault_label ∷ [])
    permitted ←
        (if block.skip_permission_checks
          then ok inside
          else check_permissions inside fault_label address_reg scratch_reg scratch_reg2
              access_size_log2 write)
    add_pending_exit a64 permitted fault_label
        (if write then memory_write_fault else memory_read_fault) true xzr block.current_pc
