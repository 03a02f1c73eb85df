-- ===== src/Vm.antt =====
-- class Vm of src/vm/Vm.cpp: the loop around the interpreter.
pub mod Interpreted
pub mod Run
use riscv64_emulator.Prelude.{ℕ, zero, suc, Bool, true, false, Option, none, some}
use riscv64_emulator.Prelude.Result.{
  Result, ok, fatal, undefined_behaviour, ◌>>=◌, ◌>>◌, verify, vmexit_not_filled,
}
use riscv64_emulator.Cpu.{Cpu}
use riscv64_emulator.Memory.{Memory}
use riscv64_emulator.Exit.{Reason, Exit, no_exit}
use riscv64_emulator.Interpreter.{State, step}

-- `reason != Exit::Reason::None`.
abbrev pub is_filled : Reason → Bool
is_filled Reason.none = false
is_filled _ = true

-- What the loop does with the result of a step; `again` is its next round.
abbrev pub after_step :
    (State → Option (Result State)) → Result (Bool × State) → Option (Result State)
after_step again (ok (true, s)) = again s
after_step again (ok (false, s)) = some (ok s)
after_step again (fatal m) = some (fatal m)
after_step again undefined_behaviour = some undefined_behaviour

-- `while (true)`, with fuel: `none` if the program has not stopped after so many steps.
unfoldable pub run_loop : ℕ → State → Option (Result State)
run_loop zero s = none
run_loop (suc fuel) s = let again = run_loop fuel in after_step again (step s)

-- The final `verify`.
abbrev pub check_exit : Result State → Result State
check_exit r = do s ← r; verify (is_filled s.exit.reason) vmexit_not_filled; ok s

abbrev pub checked : Option (Result State) → Option (Result State)
checked none = none
checked (some r) = some (check_exit r)

unfoldable pub run_interpreter : ℕ → Memory → Cpu → Option (Result State)
run_interpreter fuel memory cpu =
    checked (run_loop fuel (record { memory = memory; cpu = cpu; exit = no_exit }))
