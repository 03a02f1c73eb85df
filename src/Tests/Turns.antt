-- ===== src/Tests/Turns.antt =====
-- A branch that is taken, and a jump through the register that it links to.
use riscv64_emulator.Prelude.{
  ℕ, ◌+◌, ◌-◌, ◌^◌, ◌≡◌, refl, arith, true, List, [], ◌∷◌, get_or, leb, if◌then◌else◌,
}
use riscv64_emulator.Prelude.Word.{u64, sign_extend}
use riscv64_emulator.Prelude.Result.{ok}
use riscv64_emulator.Cpu.{initial, reg, set_reg, pc}
use riscv64_emulator.Cpu.Laws.{initial-IsValid, set_reg-IsValid}
use riscv64_emulator.Exit.{no_exit}
use riscv64_emulator.Memory.{
  read_value, read, out_of_range, verify_permissions, permissions_loop, copy_out,
}
use riscv64_emulator.Memory.Bytes.{get_or-lt}
use riscv64_emulator.Instruction.Kinds.{InstructionType as IT}
use riscv64_emulator.Instruction.Encoding.{encode}
use riscv64_emulator.Interpreter.{State, step}
use riscv64_emulator.Interpreter.Steps as Steps
use riscv64_emulator.Interpreter.Step.{Fetches}
use riscv64_emulator.Interpreter.Jumps.{Jumped, takes, jump_target, step-branch, step-jump}

-- blt a0, zero, 8 and jalr a0, 4(a0), as an assembler encodes them.
abbrev branch_bytes : List ℕ
branch_bytes = 0x63 ∷ 0x44 ∷ 0x05 ∷ 0x00 ∷ []

abbrev jump_bytes : List ℕ
jump_bytes = 0x67 ∷ 0x05 ∷ 0x45 ∷ 0x00 ∷ []

-- The program at address 0, with a value in a0.
abbrev with_program : List ℕ → ℕ → State
with_program bytes a0 = record {
  memory = record {
    size = 64;
    block_count = 8;
    raw = λ j. if leb 64 j then 7 else get_or bytes j 0;
  };
  cpu = set_reg initial 10 a0;
  exit = no_exit;
}

abbrev branches : State
branches = with_program branch_bytes (2 ^ 64 - 1)

abbrev jumps : State
jumps = with_program jump_bytes 33

branches-IsValid : Steps.IsValid branches
branches-IsValid = record {
  valid_memory = record {
    fits = omega arith;
    host_size = omega arith;
    is_bytes = λ j. ground (arith, get_or-lt branch_bytes j (omega arith));
  };
  valid_cpu = set_reg-IsValid initial 10 (2 ^ 64 - 1) initial-IsValid (omega arith);
}

jumps-IsValid : Steps.IsValid jumps
jumps-IsValid = record {
  valid_memory = record {
    fits = omega arith;
    host_size = omega arith;
    is_bytes = λ j. ground (arith, get_or-lt jump_bytes j (omega arith));
  };
  valid_cpu = set_reg-IsValid initial 10 33 initial-IsValid (omega arith);
}

branches-Fetches : Fetches branches (encode IT.blt 0 10 0 8)
unfolding pc reg initial set_reg read_value read out_of_range verify_permissions permissions_loop
    copy_out encode
branches-Fetches = (refl, refl)

jumps-Fetches : Fetches jumps (encode IT.jalr 10 10 0 4)
unfolding pc reg initial set_reg read_value read out_of_range verify_permissions permissions_loop
    copy_out encode
jumps-Fetches = (refl, refl)

step-branch_example :
    (s' : State) × (step branches ≡ ok (true, s'))
    × Jumped branches s' 0 0 (
        if takes IT.blt (reg branches.cpu 10) (reg branches.cpu 0)
        then u64 (pc branches.cpu + sign_extend 32 8)
        else u64 (pc branches.cpu + 4))
step-branch_example =
    step-branch branches IT.blt 10 0 8 branches-IsValid tt
      (omega arith, omega arith, omega arith, omega arith, omega arith) (omega arith) (omega arith)
      branches-Fetches

step-jump_example :
    (s' : State) × (step jumps ≡ ok (true, s'))
    × Jumped jumps s' 10 (u64 (pc jumps.cpu + 4)) (jump_target jumps IT.jalr 10 4)
step-jump_example =
    step-jump jumps IT.jalr 10 10 4 jumps-IsValid tt
      (omega arith, omega arith, omega arith, omega arith) (omega arith) (omega arith) jumps-Fetches

-- -1 is below 0, and the lowest bit of 37 is cleared.
turns : (takes IT.blt (2 ^ 64 - 1) 0 ≡ true) × (jump_target jumps IT.jalr 10 4 ≡ 36)
unfolding reg set_reg initial
turns = (refl, refl)
