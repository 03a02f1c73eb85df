-- ===== src/Tests/Samples.antt =====
-- A memory of 64 bytes that permits everything and holds a short program at address 0, as an
-- assembler encodes it.
use riscv64_emulator.Prelude.{ℕ, List, [], ◌∷◌, get_or, leb, if◌then◌else◌, arith}
use riscv64_emulator.Cpu.{initial}
use riscv64_emulator.Cpu.Laws.{initial-IsValid}
use riscv64_emulator.Exit.{no_exit}
use riscv64_emulator.Memory.{Memory}
use riscv64_emulator.Memory.Bytes.{get_or-lt}
use riscv64_emulator.Memory.Accepts as MemoryAccepts
use riscv64_emulator.Interpreter.{State}
use riscv64_emulator.Interpreter.Steps as Steps

-- addi a0, zero, 5; sd a0, 16(zero); ecall.
abbrev pub program : List ℕ
program = 0x13 ∷ 0x05 ∷ 0x50 ∷ 0x00 ∷ 0x23 ∷ 0x38 ∷ 0xa0 ∷ 0x00 ∷ 0x73 ∷ 0x00 ∷ 0x00 ∷ 0x00 ∷ []

abbrev pub memory : Memory
memory = record {
  size = 64;
  block_count = 8;
  raw = λ j. if leb 64 j then 7 else get_or program j 0;
}

pub memory-IsValid : MemoryAccepts.IsValid memory
memory-IsValid = record {
  fits = omega arith;
  host_size = omega arith;
  is_bytes = λ j. ground (arith, get_or-lt program j (omega arith));
}

abbrev pub start : State
start = record { memory = memory; cpu = initial; exit = no_exit }

pub start-IsValid : Steps.IsValid start
start-IsValid = record { valid_memory = memory-IsValid; valid_cpu = initial-IsValid }
