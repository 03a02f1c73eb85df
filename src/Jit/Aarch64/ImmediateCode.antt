-- ===== src/Jit/Aarch64/ImmediateCode.antt =====
-- src/vm/jit/aarch64/CodeGenerator.cpp: the code for instructions on a register and an immediate or a
-- shift amount.
use riscv64_emulator.Prelude.{
  ℕ, ◌^◌, ◌<◌, ◌≡◌, ◌≢◌, ◌⊎◌, inl, inr, refl, arith, true, some, ◌==◌, Bool-cases,
}
use riscv64_emulator.Prelude.Result.{ok}
use riscv64_emulator.Cpu.{zero_reg}
use riscv64_emulator.Instruction.{Instruction, type_of, rd, rs1, imm, shamt}
use riscv64_emulator.Instruction.Kinds.{InstructionType as IT}
use riscv64_emulator.Interpreter.Values.{IsImmediate, IsShift}
use riscv64_emulator.Jit.Assembler.{A64R, Sort}
use riscv64_emulator.Jit.A64.{A64}
use riscv64_emulator.Jit.Aarch64.{CodeGenerator, Block, read_of, write_only_of, lock_two}
use riscv64_emulator.Jit.Aarch64.Computing.{manual_word}
use riscv64_emulator.Jit.Aarch64.Ready.{Ready}
use riscv64_emulator.Jit.Aarch64.Registers.{written}
use riscv64_emulator.Jit.Aarch64.Arithmetic.{generate_immediate, generate_shift}
use riscv64_emulator.Jit.Aarch64.Instructions.{generate, generate_instruction}
use riscv64_emulator.Jit.Aarch64.Operands.{generate_shift-Done, generate_immediate-Done}

-- The second operand of an instruction on a register and an immediate or a shift amount.
abbrev pub IsTwo : IT → Instruction → Type 0
IsTwo t i = IsImmediate t ⊎ IsShift t (shamt i)

abbrev pub second : IT → Instruction → ℕ
second IT.addi i = imm i
second IT.xori i = imm i
second IT.ori i = imm i
second IT.andi i = imm i
second IT.addiw i = imm i
second t i = shamt i

-- A type for two registers is generated by one of the two.
generate-two :
    (a64 : A64) (std : Sort) (block : Block) (i : Instruction) (g : CodeGenerator a64) (t : IT)
    → IsTwo t i
    → (((generate a64 std block i g t ≡ generate_immediate a64 std block t i g)
          × (second t i ≡ imm i)
          × IsImmediate t)
        ⊎ ((generate a64 std block i g t ≡ generate_shift a64 std block t i g)
            × (second t i ≡ shamt i)
            × IsShift t (shamt i)))
unfolding generate
generate-two a64 std block i g IT.addi h = inl (refl, refl, tt)
generate-two a64 std block i g IT.xori h = inl (refl, refl, tt)
generate-two a64 std block i g IT.ori h = inl (refl, refl, tt)
generate-two a64 std block i g IT.andi h = inl (refl, refl, tt)
generate-two a64 std block i g IT.addiw h = inl (refl, refl, tt)
generate-two a64 std block i g IT.slli (inl h) = absurd h
generate-two a64 std block i g IT.slli (inr h) = inr (refl, refl, h)
generate-two a64 std block i g IT.srli (inl h) = absurd h
generate-two a64 std block i g IT.srli (inr h) = inr (refl, refl, h)
generate-two a64 std block i g IT.srai (inl h) = absurd h
generate-two a64 std block i g IT.srai (inr h) = inr (refl, refl, h)
generate-two a64 std block i g IT.slliw (inl h) = absurd h
generate-two a64 std block i g IT.slliw (inr h) = inr (refl, refl, h)
generate-two a64 std block i g IT.srliw (inl h) = absurd h
generate-two a64 std block i g IT.srliw (inr h) = inr (refl, refl, h)
generate-two a64 std block i g IT.sraiw (inl h) = absurd h
generate-two a64 std block i g IT.sraiw (inr h) = inr (refl, refl, h)
generate-two a64 std block i g _ (inl h) = absurd h
generate-two a64 std block i g _ (inr h) = absurd h

without_dest :
    (a64 : A64) (std : Sort) (block : Block) (i : Instruction) (g : CodeGenerator a64) (t : IT)
    → IsTwo t i
    → rd i ≡ 0
    → generate a64 std block i g t ≡ ok (true, g)
unfolding generate_immediate generate_shift
without_dest a64 std block i g t h z = elim (generate-two a64 std block i g t h) [
  | inl (e, v, r) ↦ rw (e, z) refl
  | inr (e, v, r) ↦ rw (e, z) refl
]

-- An instruction on two registers whose destination is not register zero can lock them.
abbrev pub CanLockTwo : (a64 : A64) → Sort → CodeGenerator a64 → Instruction → Type 0
CanLockTwo a64 std g i =
    rd i ≢ 0
    → (x dest : A64R) × (g1 : CodeGenerator a64) × (lock_two a64 std g (read_of (rs1 i))
          (write_only_of (rd i))
        ≡ ok (x, dest, g1))

-- The code generated for addi, xori, ori, andi, addiw and the shifts by an immediate, with an amount
-- below the width: if the register cache holds the guest's registers, which are 64-bit values with 0
-- in register zero, the program counter of the block and the immediate are 64-bit values, and the
-- two registers can be locked unless the destination is register zero, code is generated, the block
-- goes on, no exit is added, and the cache then holds the guest's registers with the destination
-- changed to the value that the manual gives, whichever immediates the assembler can encode.
pub generate_instruction-two :
    (a64 : A64) (std : Sort) (block : Block) (guest : ℕ → ℕ) (i : Instruction)
    (g : CodeGenerator a64) (t : IT)
    → type_of i ≡ some t
    → IsTwo t i
    → guest 0 ≡ 0
    → ((q : ℕ) → guest q < 2 ^ 64)
    → block.base_pc < 2 ^ 64
    → imm i < 2 ^ 64
    → Ready a64.base block.base_pc guest g.register_cache
    → CanLockTwo a64 std g i
    → (g' : CodeGenerator a64) × (generate_instruction a64 std block i g ≡ ok (true, g'))
      × Ready a64.base block.base_pc
          (written guest (rd i) (manual_word t (guest (rs1 i)) (second t i)))
          g'.register_cache
      × (g'.pending_exits ≡ g.pending_exits)
unfolding generate_instruction
generate_instruction-two a64 std block guest i g t typed h zero_guest bound small hk ready can =
    elim (Bool-cases (rd i == zero_reg)) [
      | inl no_dest ↦
          (g, rw typed (without_dest a64 std block i g t h (ground arith)), rw no_dest ready, refl)
      | inr some_dest ↦
          let general : rd i ≢ 0 = ground arith in
          let (x, dest, g1, locked) = can general in
          elim (generate-two a64 std block i g t h) [
            | inl (e, v, r) ↦
                let (g', e', done) =
                  generate_immediate-Done a64 std block guest i g g1 x dest zero_guest bound ready
                    general locked t r small hk in
                (g', rw (typed, e) e', rw (some_dest, v) done.0, done.1)
            | inr (e, v, r) ↦
                let (g', e', done) =
                  generate_shift-Done a64 std block guest i g g1 x dest zero_guest bound ready
                    general locked t r in
                (g', rw (typed, e) e', rw (some_dest, v) done.0, done.1)
          ]
    ]
