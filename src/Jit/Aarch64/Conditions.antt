-- ===== src/Jit/Aarch64/Conditions.antt =====
-- src/vm/jit/aarch64/CodeGenerator.cpp: the condition of a branch, against the interpreter.
use riscv64_emulator.Prelude.{ℕ, ◌≡◌, refl, Bool, not, arith, ltb, ◌==◌}
use riscv64_emulator.Prelude.Result.{ok}
use riscv64_emulator.Instruction.Kinds.{InstructionType as IT}
use riscv64_emulator.Interpreter.Alu.{branch_taken}
use riscv64_emulator.Interpreter.Values.{IsBranch}
use riscv64_emulator.Jit.A64.{Condition, holds}
use riscv64_emulator.Jit.Aarch64.Branches.{skip_condition}

not-not : (b : Bool) → b ≡ not (not b)
not-not b = ground arith

-- For every branch there is a condition under which the generated code skips it, and after a
-- comparison of the two operands it holds exactly when the interpreter does not take the branch.
pub skip_condition-branch_taken :
    (t : IT) (a b : ℕ)
    → IsBranch t
    → (c : Condition) × (taken : Bool) × (skip_condition t ≡ ok c)
      × (branch_taken t a b ≡ ok taken)
      × (holds c a b ≡ not taken)
unfolding skip_condition branch_taken
skip_condition-branch_taken IT.beq a b h = (_, _, refl, refl, refl)
skip_condition-branch_taken IT.bne a b h = (_, _, refl, refl, not-not (a == b))
skip_condition-branch_taken IT.blt a b h = (_, _, refl, refl, refl)
skip_condition-branch_taken IT.bge a b h = (_, _, refl, refl, not-not _)
skip_condition-branch_taken IT.bltu a b h = (_, _, refl, refl, refl)
skip_condition-branch_taken IT.bgeu a b h = (_, _, refl, refl, not-not (ltb a b))
skip_condition-branch_taken _ a b h = absurd h
