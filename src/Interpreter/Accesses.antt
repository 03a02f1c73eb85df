-- ===== src/Interpreter/Accesses.antt =====
-- Where and how the loads and the stores of src/vm/Interpreter.cpp access the memory.
use riscv64_emulator.Prelude.{ℕ, ◌+◌, ◌^◌, ◌<◌, ◌≡◌, arith}
use riscv64_emulator.Prelude.Word.{u64, sign_extend}
use riscv64_emulator.Cpu.{reg}
use riscv64_emulator.Exit.{Reason}
use riscv64_emulator.Instruction.Kinds.{InstructionType as IT}
use riscv64_emulator.Interpreter.{State}

-- How many bytes a load or a store accesses.
abbrev pub width : IT → ℕ
width IT.lb = 1
width IT.lbu = 1
width IT.sb = 1
width IT.lh = 2
width IT.lhu = 2
width IT.sh = 2
width IT.lw = 4
width IT.lwu = 4
width IT.sw = 4
width _ = 8

pub width-lt : (t : IT) → width t < 2 ^ 63
width-lt IT.lb = omega arith
width-lt _ = omega arith

-- Where a load or a store accesses the memory: the register plus the immediate, extended by its
-- sign, in 64 bits.
abbrev pub accessed : State → ℕ → ℕ → ℕ
accessed s s1 k = u64 (reg s.cpu s1 + sign_extend 32 k)

-- Only the exit structure was filled in.
pub record Faulted (s s' : State) (reason : Reason) (address target : ℕ) : Type 0 where
  pub same_memory : s'.memory ≡ s.memory
  pub same_cpu : s'.cpu ≡ s.cpu
  pub filled :
      s'.exit ≡ record { reason = reason; faulty_address = address; target_register = target }
