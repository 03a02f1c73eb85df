-- ===== src/Jit/Utilities.antt =====
-- src/vm/jit/Utilities.cpp.
use riscv64_emulator.Prelude.{ℕ}
use riscv64_emulator.Prelude.Result.{Result, ok, fatal, entered_unreachable_code}
use riscv64_emulator.Instruction.Kinds.{InstructionType as IT}

unfoldable pub memory_access_size_log2 : IT → Result ℕ
memory_access_size_log2 IT.sb = ok 0
memory_access_size_log2 IT.lb = ok 0
memory_access_size_log2 IT.lbu = ok 0
memory_access_size_log2 IT.sh = ok 1
memory_access_size_log2 IT.lh = ok 1
memory_access_size_log2 IT.lhu = ok 1
memory_access_size_log2 IT.sw = ok 2
memory_access_size_log2 IT.lw = ok 2
memory_access_size_log2 IT.lwu = ok 2
memory_access_size_log2 IT.sd = ok 3
memory_access_size_log2 IT.ld = ok 3
memory_access_size_log2 _ = fatal entered_unreachable_code
