-- ===== src/Exit.antt =====
-- src/vm/Exit.hpp: why the virtual machine stopped.
use riscv64_emulator.Prelude.{ℕ}
use riscv64_emulator.Cpu.{Register, zero_reg}

pub data Reason : Type 0 where
  none unaligned_pc out_of_bounds_pc instruction_fetch_fault undefined_instruction : Reason
  memory_read_fault memory_write_fault ecall ebreak : Reason

pub record Exit : Type 0 where
  pub reason : Reason
  pub faulty_address : ℕ
  pub target_register : Register

-- `Exit exit{}`.
abbrev pub no_exit : Exit
no_exit = record { reason = none; faulty_address = 0; target_register = zero_reg }
