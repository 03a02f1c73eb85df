-- ===== src/Tests/Machine.antt =====
-- Steps and runs.
use riscv64_emulator.Prelude.{ℕ, ◌≡◌, refl, arith, false, Option, none, some}
use riscv64_emulator.Prelude.Result.{Result, ok, undefined_behaviour}
use riscv64_emulator.Prelude.Word.{sign_extend}
use riscv64_emulator.Cpu.{pc, reg, initial, set_reg}
use riscv64_emulator.Cpu.Laws.{initial-IsValid}
use riscv64_emulator.Exit.{Reason, no_exit}
use riscv64_emulator.Memory.{
  read_value, read, out_of_range, verify_permissions, permissions_loop, copy_out, write_value,
  write, copy_in,
}
use riscv64_emulator.Instruction.{set_decoded, type_of, rd, rs1, rs2, imm}
use riscv64_emulator.Instruction.Kinds.{InstructionType as IT}
use riscv64_emulator.Instruction.Encoding.{encode}
use riscv64_emulator.Instruction.Fields.{
  sign32, rd_field, rs1_field, rs2_field, funct3_field, itype_imm, stype_imm,
}
use riscv64_emulator.Instruction.Decoder.{
  decode, decode_itype, decode_op_imm, decode_system, decode_stype,
}
use riscv64_emulator.Interpreter.{State, step, execute, run_immediate, run_store, store}
use riscv64_emulator.Interpreter.Alu.{immediate_result}
use riscv64_emulator.Vm.{run_loop, run_interpreter}
use riscv64_emulator.Vm.Interpreted.{Reaches, RunEnds, run_interpreter-RunEnds, run_loop_complete}
use riscv64_emulator.Interpreter.Step.{StepEnds, step-StepEnds, Fetches}
use riscv64_emulator.Interpreter.Values.{IsRegister, IsImmediate, IsShift}
use riscv64_emulator.Interpreter.Computed.{Computes, step-Computes}
use riscv64_emulator.Tests.Samples.{start, start-IsValid, memory, memory-IsValid}

step-StepEnds_example : StepEnds start (step start)
step-StepEnds_example = step-StepEnds start start-IsValid

start-Fetches : Fetches start (encode IT.addi 10 0 0 5)
unfolding pc reg initial read_value read out_of_range verify_permissions permissions_loop copy_out
    encode
start-Fetches = (refl, refl)

step-Computes_example :
    (IsRegister IT.addi → Computes start IT.addi 10 (reg initial 0) (reg initial 0))
    × (IsImmediate IT.addi → Computes start IT.addi 10 (reg initial 0) (sign_extend 32 5))
    × (IsShift IT.addi 5 → Computes start IT.addi 10 (reg initial 0) 5)
step-Computes_example =
    step-Computes start IT.addi 10 0 0 5 start-IsValid (cc) (cc) (cc)
      (omega arith, omega arith, omega arith, omega arith) (omega arith) (omega arith) (omega arith)
      start-Fetches

-- The program stores 5 at address 16 and stops at its ecall, in the third step.
abbrev result_of : Option (Result State) → Result State
result_of none = undefined_behaviour
result_of (some r) = r

final : Result State
final = result_of (run_interpreter 3 memory initial)

runs : run_interpreter 3 memory initial ≡ some final
unfolding final run_interpreter run_loop step execute run_immediate run_store store immediate_result
    decode decode_itype decode_op_imm decode_stype decode_system rd_field rs1_field rs2_field
    funct3_field itype_imm stype_imm sign32 set_decoded type_of rd rs1 rs2 imm pc reg set_reg
    initial read_value write_value read write out_of_range verify_permissions permissions_loop
    copy_out copy_in
runs = refl

run_interpreter-RunEnds_example : RunEnds start final
run_interpreter-RunEnds_example =
    run_interpreter-RunEnds 3 memory initial final memory-IsValid initial-IsValid runs

-- A program counter that is not a multiple of 4 stops the first step.
abbrev misplaced : State
misplaced = record { memory = memory; cpu = set_reg initial 32 2; exit = no_exit }

run_loop_complete_example :
    (fuel : ℕ) × (run_loop fuel misplaced
      ≡ some (
          ok (record misplaced {
            exit = record { reason = Reason.unaligned_pc; faulty_address = 0; target_register = 0 };
          })))
run_loop_complete_example = run_loop_complete _ Reaches.here stops
  where
    stops :
        step misplaced
        ≡ ok (
          false,
          record misplaced {
            exit = record { reason = Reason.unaligned_pc; faulty_address = 0; target_register = 0 };
          },
        )
    stops = unfold step pc reg set_reg initial in refl
