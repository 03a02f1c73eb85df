-- ===== src/Display/Names.antt =====
-- `register_name` of src/vm/private/InstructionDisplay.cpp and
-- `exit_reason_representation` of src/vm/Exit.cpp.
use Prim.Native.String.{String}
use riscv64_emulator.Prelude.{none, some, List, [], ◌∷◌, get_elem?}
use riscv64_emulator.Prelude.Result.{Result, ok, fatal, entered_unreachable_code}
use riscv64_emulator.Cpu.{Register}
use riscv64_emulator.Exit.{Reason}

-- The cases of the switch, in the order of the enumerators.
abbrev pub register_names : List String
register_names =
    "zero" ∷ "ra" ∷ "sp" ∷ "gp" ∷ "tp" ∷ "t0" ∷ "t1" ∷ "t2" ∷ "s0" ∷ "s1" ∷ "a0" ∷ "a1" ∷ "a2"
    ∷ "a3" ∷ "a4" ∷ "a5" ∷ "a6" ∷ "a7" ∷ "s2" ∷ "s3" ∷ "s4" ∷ "s5" ∷ "s6" ∷ "s7" ∷ "s8" ∷ "s9"
    ∷ "s10" ∷ "s11" ∷ "t3" ∷ "t4" ∷ "t5" ∷ "t6" ∷ "pc" ∷ []

unfoldable pub register_name : Register → Result String
register_name r = elim (get_elem? register_names r) [
  | none ↦ fatal entered_unreachable_code
  | some name ↦ ok name
]

unfoldable pub exit_reason_representation : Reason → String
exit_reason_representation Reason.none = "None"
exit_reason_representation Reason.unaligned_pc = "UnalignedPc"
exit_reason_representation Reason.out_of_bounds_pc = "OutOfBoundsPc"
exit_reason_representation Reason.instruction_fetch_fault = "InstructionFetchFault"
exit_reason_representation Reason.undefined_instruction = "UndefinedInstruction"
exit_reason_representation Reason.memory_read_fault = "MemoryReadFault"
exit_reason_representation Reason.memory_write_fault = "MemoryWriteFault"
exit_reason_representation Reason.ecall = "Ecall"
exit_reason_representation Reason.ebreak = "Ebreak"
