-- ===== src/Tests/Moves.antt =====
-- A load of a negative number, and a store.
use riscv64_emulator.Prelude.{
  ℕ, ◌-◌, ◌^◌, ◌≡◌, refl, arith, true, false, List, [], ◌∷◌, get_or, leb, if◌then◌else◌,
}
use riscv64_emulator.Prelude.Result.{ok}
use riscv64_emulator.Cpu.{initial, reg, set_reg, pc}
use riscv64_emulator.Cpu.Laws.{initial-IsValid, set_reg-IsValid}
use riscv64_emulator.Exit.{Reason, no_exit}
use riscv64_emulator.Memory.{
  Memory, flag_read, flag_write, bytes_at, from_bytes, read_value, read, out_of_range,
  verify_permissions, permissions_loop, copy_out,
}
use riscv64_emulator.Memory.Bytes.{get_or-lt}
use riscv64_emulator.Memory.Accepts.{CanAccess}
use riscv64_emulator.Instruction.Kinds.{InstructionType as IT}
use riscv64_emulator.Instruction.Encoding.{encode}
use riscv64_emulator.Interpreter.{State, step}
use riscv64_emulator.Interpreter.Steps as Steps
use riscv64_emulator.Interpreter.Step.{Fetches}
use riscv64_emulator.Interpreter.Computed.{Computed}
use riscv64_emulator.Interpreter.Accesses.{width, accessed, Faulted}
use riscv64_emulator.Interpreter.Loads.{extended, step-load}
use riscv64_emulator.Interpreter.Stores.{Stored, step-store}

-- lh a0, 16(zero) and sd a0, 16(zero), as an assembler encodes them, with -2 at address 16.
abbrev load_bytes : List ℕ
load_bytes =
    0x03 ∷ 0x15 ∷ 0x00 ∷ 0x01 ∷ 0 ∷ 0 ∷ 0 ∷ 0 ∷ 0 ∷ 0 ∷ 0 ∷ 0 ∷ 0 ∷ 0 ∷ 0 ∷ 0 ∷ 0xfe ∷ 0xff ∷ []

abbrev store_bytes : List ℕ
store_bytes = 0x23 ∷ 0x38 ∷ 0xa0 ∷ 0x00 ∷ []

abbrev holding : List ℕ → Memory
holding bytes = record {
  size = 64;
  block_count = 8;
  raw = λ j. if leb 64 j then 7 else get_or bytes j 0;
}

abbrev loads : State
loads = record { memory = holding load_bytes; cpu = initial; exit = no_exit }

abbrev stores : State
stores = record { memory = holding store_bytes; cpu = set_reg initial 10 0x1234; exit = no_exit }

loads-IsValid : Steps.IsValid loads
loads-IsValid = record {
  valid_memory = record {
    fits = omega arith;
    host_size = omega arith;
    is_bytes = λ j. ground (arith, get_or-lt load_bytes j (omega arith));
  };
  valid_cpu = initial-IsValid;
}

stores-IsValid : Steps.IsValid stores
stores-IsValid = record {
  valid_memory = record {
    fits = omega arith;
    host_size = omega arith;
    is_bytes = λ j. ground (arith, get_or-lt store_bytes j (omega arith));
  };
  valid_cpu = set_reg-IsValid initial 10 0x1234 initial-IsValid (omega arith);
}

loads-Fetches : Fetches loads (encode IT.lh 10 0 0 16)
unfolding pc reg initial read_value read out_of_range verify_permissions permissions_loop copy_out
    encode
loads-Fetches = (refl, refl)

stores-Fetches : Fetches stores (encode IT.sd 0 0 10 16)
unfolding pc reg initial set_reg read_value read out_of_range verify_permissions permissions_loop
    copy_out encode
stores-Fetches = (refl, refl)

step-load_example :
    (CanAccess loads.memory (accessed loads 0 16) (width IT.lh) flag_read
      → (s' : State) × (step loads ≡ ok (true, s'))
        × Computed loads s' 10 (
            extended IT.lh
              (from_bytes (bytes_at loads.memory.raw (accessed loads 0 16) (width IT.lh)))))
    × (¬ CanAccess loads.memory (accessed loads 0 16) (width IT.lh) flag_read
        → (s' : State) × (step loads ≡ ok (false, s'))
          × Faulted loads s' Reason.memory_read_fault (accessed loads 0 16) 10)
step-load_example =
    step-load loads IT.lh 10 0 16 loads-IsValid tt
      (omega arith, omega arith, omega arith, omega arith) (omega arith) (omega arith) loads-Fetches

step-store_example :
    (CanAccess stores.memory (accessed stores 0 16) (width IT.sd) flag_write
      → (s' : State) × (step stores ≡ ok (true, s'))
        × Stored stores s' (accessed stores 0 16) (width IT.sd) (reg stores.cpu 10))
    × (¬ CanAccess stores.memory (accessed stores 0 16) (width IT.sd) flag_write
        → (s' : State) × (step stores ≡ ok (false, s'))
          × Faulted stores s' Reason.memory_write_fault (accessed stores 0 16) 10)
step-store_example =
    step-store stores IT.sd 0 10 16 stores-IsValid tt
      (omega arith, omega arith, omega arith, omega arith) (omega arith) (omega arith)
      stores-Fetches

-- The load gives -2.
loaded : extended IT.lh (from_bytes (bytes_at loads.memory.raw 16 (width IT.lh))) ≡ 2 ^ 64 - 2
loaded = refl
