-- ===== src/Vm/Run.antt =====
-- `Vm::run` of src/vm/Vm.cpp, around the JIT executor that `use_jit` installs.
use riscv64_emulator.Prelude.{ℕ, zero, suc, Option, none, some}
use riscv64_emulator.Prelude.Result.{Result, ok}
use riscv64_emulator.Cpu.{Cpu}
use riscv64_emulator.Memory.{Memory}
use riscv64_emulator.Exit.{Reason, Exit, no_exit}
use riscv64_emulator.Interpreter.{State, step}
use riscv64_emulator.Vm.{after_step, run_interpreter}

-- enum class vm::jit::ExitReason (src/vm/jit/Exit.hpp).
pub data ExitReason : Type 0 where
  unaligned_pc out_of_bounds_pc instruction_fetch_fault undefined_instruction : ExitReason
  unsupported_instruction memory_read_fault memory_write_fault ecall ebreak : ExitReason

-- The reasons that `run` passes on with `simple_exit`; for the others it takes one step.
abbrev pub simple_exit : ExitReason → Option Reason
simple_exit ExitReason.unaligned_pc = some Reason.unaligned_pc
simple_exit ExitReason.out_of_bounds_pc = some Reason.out_of_bounds_pc
simple_exit ExitReason.instruction_fetch_fault = some Reason.instruction_fetch_fault
simple_exit ExitReason.undefined_instruction = some Reason.undefined_instruction
simple_exit ExitReason.ecall = some Reason.ecall
simple_exit ExitReason.ebreak = some Reason.ebreak
simple_exit ExitReason.unsupported_instruction = none
simple_exit ExitReason.memory_read_fault = none
simple_exit ExitReason.memory_write_fault = none

abbrev pub with_reason : Exit → Reason → Exit
with_reason e reason = record e { reason = reason }

-- class vm::jit::Executor (src/vm/jit/Executor.hpp): `run` is virtual and changes the executor, the
-- memory and the cpu.
pub record Executor : Type 1 where
  pub Self : Type 0
  pub run : Self → Memory → Cpu → ExitReason × Self × Memory × Cpu

module _ (jit : Executor) where
  abbrev pub leave :
      (jit.Self → State → Option (Result State))
      → State
      → (ExitReason × jit.Self × Memory × Cpu)
      → Option (Result State)
  leave again s (why, x', m', c') =
      let s' = record s { memory = m'; cpu = c' } in
      let stepped = after_step (again x') (step s') in
      elim (simple_exit why) [
        | some reason ↦ some (ok (record s' { exit = with_reason s.exit reason }))
        | none ↦ stepped
      ]

  -- The `while (true)` of `run`, with fuel.
  unfoldable pub run_jit : ℕ → jit.Self → State → Option (Result State)
  run_jit zero x s = none
  run_jit (suc fuel) x s = leave (run_jit fuel) s (jit.run x s.memory s.cpu)

  -- `run`: without an executor it is `run_interpreter`.
  unfoldable pub run : ℕ → Option jit.Self → Memory → Cpu → Option (Result State)
  run fuel none memory cpu = run_interpreter fuel memory cpu
  run fuel (some x) memory cpu =
      run_jit fuel x (record { memory = memory; cpu = cpu; exit = no_exit })
