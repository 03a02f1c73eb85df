-- ===== src/Jit/Aarch64/Multiplications.antt =====
-- The code that src/vm/jit/aarch64/CodeGenerator.cpp generates for multiplications and divisions, and
-- the interpreter's results (src/vm/Interpreter.cpp).
use riscv64_emulator.Prelude.{ℕ, ◌^◌, ◌<◌, ◌≡◌, ◌≢◌, refl, arith, true, false, some, ◌==◌}
use riscv64_emulator.Prelude.Result.{ok}
use riscv64_emulator.Cpu.{zero_reg}
use riscv64_emulator.Instruction.{Instruction, type_of, rd, rs1, rs2}
use riscv64_emulator.Instruction.Kinds.{InstructionType as IT}
use riscv64_emulator.Interpreter.Alu.{multiply_result, signextend32}
use riscv64_emulator.Interpreter.Values.{IsMultiply}
use riscv64_emulator.Jit.Assembler.{Sort}
use riscv64_emulator.Jit.RegisterCache.{update}
use riscv64_emulator.Jit.A64.{A64}
use riscv64_emulator.Jit.Aarch64.{CodeGenerator, Block}
use riscv64_emulator.Jit.Aarch64.Ready.{Ready}
use riscv64_emulator.Jit.Aarch64.Registers.{CanLock, generate_three-Done}
use riscv64_emulator.Jit.Aarch64.Selection.{multiply_calls}
use riscv64_emulator.Jit.Aarch64.Multiplying.{multiplied, multiply_calls-Computes}
use riscv64_emulator.Jit.Aarch64.Arithmetic.{generate_multiply}
use riscv64_emulator.Jit.Aarch64.Instructions.{generate, generate_instruction}

-- The types are generated by `generate_multiply`.
generate-multiply :
    (a64 : A64) (std : Sort) (block : Block) (i : Instruction) (g : CodeGenerator a64) (t : IT)
    → IsMultiply t
    → generate a64 std block i g t ≡ generate_multiply a64 std block t i g
unfolding generate
generate-multiply a64 std block i g IT.mul h = refl
generate-multiply a64 std block i g IT.mulw h = refl
generate-multiply a64 std block i g IT.div h = refl
generate-multiply a64 std block i g IT.divw h = refl
generate-multiply a64 std block i g IT.divu h = refl
generate-multiply a64 std block i g IT.divuw h = refl
generate-multiply a64 std block i g IT.rem h = refl
generate-multiply a64 std block i g IT.remu h = refl
generate-multiply a64 std block i g IT.remw h = refl
generate-multiply a64 std block i g IT.remuw h = refl
generate-multiply a64 std block i g _ h = absurd h

-- Where the interpreter's result is defined, and but for mulw, it is that of the generated code.
multiply_result-multiplied :
    (t : IT) (a b v : ℕ)
    → IsMultiply t
    → t ≢ IT.mulw
    → multiply_result t a b ≡ ok v
    → multiplied t a b ≡ v
unfolding multiply_result signextend32
multiply_result-multiplied IT.mul a b v h ne e = cc
multiply_result-multiplied IT.mulw a b v h ne e = absurd (ne refl)
multiply_result-multiplied IT.div a b v h ne e = ground arith
multiply_result-multiplied IT.divw a b v h ne e = ground arith
multiply_result-multiplied IT.divu a b v h ne e = ground arith
multiply_result-multiplied IT.divuw a b v h ne e = ground arith
multiply_result-multiplied IT.rem a b v h ne e = ground arith
multiply_result-multiplied IT.remu a b v h ne e = ground arith
multiply_result-multiplied IT.remw a b v h ne e = ground arith
multiply_result-multiplied IT.remuw a b v h ne e = ground arith
multiply_result-multiplied _ a b v h ne e = absurd h

-- The code generated for mul, div, divu, rem, remu and their 32-bit forms: if the register cache holds
-- the guest's registers, which are 64-bit values with 0 in register zero, the destination is not
-- register zero and the three registers can be locked, code is generated, the block goes on, no exit
-- is added, and the cache then holds the guest's registers with the destination changed: to the low
-- bits of the product, to the quotient rounded towards zero, which is 0 for a zero divisor, or to the
-- remainder. But for mulw, that is the interpreter's result where the interpreter has one.
pub generate_instruction-multiply :
    (a64 : A64) (std : Sort) (block : Block) (guest : ℕ → ℕ) (i : Instruction)
    (g : CodeGenerator a64) (t : IT)
    → type_of i ≡ some t
    → IsMultiply t
    → rd i ≢ 0
    → guest 0 ≡ 0
    → ((q : ℕ) → guest q < 2 ^ 64)
    → Ready a64.base block.base_pc guest g.register_cache
    → CanLock a64 std g i
    → (g' : CodeGenerator a64) × (generate_instruction a64 std block i g ≡ ok (true, g'))
      × Ready a64.base block.base_pc
          (update guest (rd i) (multiplied t (guest (rs1 i)) (guest (rs2 i))))
          g'.register_cache
      × (g'.pending_exits ≡ g.pending_exits)
      × ((v : ℕ)
          → t ≢ IT.mulw
          → multiply_result t (guest (rs1 i)) (guest (rs2 i)) ≡ ok v
          → multiplied t (guest (rs1 i)) (guest (rs2 i)) ≡ v)
unfolding generate_instruction generate_multiply
generate_instruction-multiply a64 std block guest i g t typed h general zero_guest bound ready can =
    let (x, y, dest, g1, locked) = can general in
    let (g', e, done) =
      generate_three-Done a64 std block guest i g g1 x y dest zero_guest bound ready general locked
        (λ d a b. multiply_calls d a b t) (multiplied t) (multiply_calls-Computes t h) in
    let some_dest : rd i == zero_reg ≡ false = ground arith in
    (
      g',
      rw (typed, generate-multiply a64 std block i g t h, some_dest, e) refl,
      done.0,
      done.1,
      λ v ne r. multiply_result-multiplied t (guest (rs1 i)) (guest (rs2 i)) v h ne r,
    )
