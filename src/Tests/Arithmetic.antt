-- ===== src/Tests/Arithmetic.antt =====
-- Arithmetic of the interpreter.
use riscv64_emulator.Prelude.{
  ◌≡◌, ◌≢◌, ◌*◌, ◌^◌, ℕ, refl, arith, [], ◌∷◌, List, get_or, leb, if◌then◌else◌,
}
use riscv64_emulator.Prelude.Word.{u32, to_word}
use riscv64_emulator.Prelude.Result.{ok, undefined_behaviour}
use riscv64_emulator.Cpu.{initial, pc, reg}
use riscv64_emulator.Exit.{no_exit}
use riscv64_emulator.Memory.{
  read_value, read, out_of_range, verify_permissions, permissions_loop, copy_out,
}
use riscv64_emulator.Instruction.Kinds.{InstructionType as IT}
use riscv64_emulator.Instruction.Encoding.{encode}
use riscv64_emulator.Interpreter.{State, step}
use riscv64_emulator.Interpreter.Alu.{
  register_result, immediate_result, shift_result, multiply_result,
}
use riscv64_emulator.Interpreter.Values.{IsRegister, IsImmediate, IsShift}
use riscv64_emulator.Interpreter.Manual.{manual, results-manual, arithmetic_shift-ne-manual}
use riscv64_emulator.Interpreter.Division.{step-divide_by_zero, mulw-ne-product}
use riscv64_emulator.Interpreter.Step.{Fetches}

results-manual_example :
    (IsRegister IT.sraw
      → register_result IT.sraw 0xffff_fff8 2 ≡ ok (to_word 64 (manual IT.sraw 0xffff_fff8 2)))
    × (IsImmediate IT.sraw
        → immediate_result IT.sraw 0xffff_fff8 2 ≡ ok (to_word 64 (manual IT.sraw 0xffff_fff8 2)))
    × (IsShift IT.sraw 2
        → shift_result IT.sraw 0xffff_fff8 2 ≡ ok (to_word 64 (manual IT.sraw 0xffff_fff8 2)))
results-manual_example = results-manual IT.sraw 0xffff_fff8 2 (cc) (cc) (omega arith) (omega arith)

arithmetic_shift-ne-manual_example :
    (shift_result IT.srai 64 3 ≡ ok (64 * 2 ^ 3))
    × (register_result IT.sra 64 3 ≡ ok (64 * 2 ^ 3))
    × (shift_result IT.srai 64 3 ≢ ok (to_word 64 (manual IT.srai 64 3)))
    × (register_result IT.sra 64 3 ≢ ok (to_word 64 (manual IT.sra 64 3)))
arithmetic_shift-ne-manual_example =
    arithmetic_shift-ne-manual 64 3 (omega arith) (omega arith) (omega arith) (omega arith)

mulw-ne-product_example : multiply_result IT.mulw 6 7 ≢ ok (u32 6 * u32 7)
mulw-ne-product_example = mulw-ne-product 6 7 (omega arith) (omega arith) (omega arith)

-- div a0, a1, zero, as an assembler encodes it.
abbrev division : List ℕ
division = 0x33 ∷ 0xc5 ∷ 0x05 ∷ 0x02 ∷ []

abbrev divides : State
divides = record {
  memory = record {
    size = 64;
    block_count = 8;
    raw = λ j. if leb 64 j then 7 else get_or division j 0;
  };
  cpu = initial;
  exit = no_exit;
}

divides-Fetches : Fetches divides (encode IT.div 10 11 0 0)
unfolding pc reg initial read_value read out_of_range verify_permissions permissions_loop copy_out
    encode
divides-Fetches = (refl, refl)

zero_register : reg initial 0 ≡ 0
unfolding reg initial
zero_register = refl

step-divide_by_zero_example : step divides ≡ undefined_behaviour
step-divide_by_zero_example =
    step-divide_by_zero divides IT.div 10 11 0 tt (omega arith) (omega arith) (omega arith)
      zero_register divides-Fetches
