-- ===== src/Interpreter/Division.antt =====
-- Divisions in src/vm/Interpreter.cpp: mulw, and a divisor of zero.
use riscv64_emulator.Prelude.{ℕ, ◌+◌, ◌*◌, ◌/◌, ◌^◌, ◌≤◌, ◌<◌, ◌≡◌, ◌≢◌, ◌∙◌, arith}
use riscv64_emulator.Prelude.Word.{u32, u64}
use riscv64_emulator.Prelude.Result.{ok, undefined_behaviour}
use riscv64_emulator.Cpu.{reg, pc}
use riscv64_emulator.Instruction.{set_decoded, rs1}
use riscv64_emulator.Instruction.Kinds.{InstructionType as IT}
use riscv64_emulator.Instruction.Packing.{rs2-set_decoded}
use riscv64_emulator.Instruction.Encoding.{Fits, encoding_of, encode}
use riscv64_emulator.Interpreter.{State, execute, run_multiply, step}
use riscv64_emulator.Interpreter.Alu.{multiply_result}
use riscv64_emulator.Interpreter.Step.{Fetches, step-encode}

-- The divisions of the manual.
abbrev pub IsDivision : IT → Type 0
IsDivision IT.div = Unit
IsDivision IT.divw = Unit
IsDivision IT.divu = Unit
IsDivision IT.divuw = Unit
IsDivision IT.rem = Unit
IsDivision IT.remu = Unit
IsDivision IT.remw = Unit
IsDivision IT.remuw = Unit
IsDivision _ = ⊥

multiply_result-zero : (t : IT) (a : ℕ) → IsDivision t → multiply_result t a 0 ≡ undefined_behaviour
unfolding multiply_result
multiply_result-zero IT.div a h = ground arith
multiply_result-zero IT.divw a h = ground arith
multiply_result-zero IT.divu a h = ground arith
multiply_result-zero IT.divuw a h = ground arith
multiply_result-zero IT.rem a h = ground arith
multiply_result-zero IT.remu a h = ground arith
multiply_result-zero IT.remw a h = ground arith
multiply_result-zero IT.remuw a h = ground arith
multiply_result-zero _ a h = absurd h

module _ (s : State) (d s1 s2 : ℕ) (hd : d < 32) (h1 : s1 < 32) (h2 : s2 < 32)
    (divides_by_zero : reg s.cpu s2 ≡ 0) where
  run_multiply-zero :
      (t : IT) (current next : ℕ)
      → IsDivision t
      → run_multiply current next (set_decoded t d s1 s2 0) s t ≡ undefined_behaviour
  unfolding run_multiply
  run_multiply-zero t current next h = rw (
    rs2-set_decoded t d s1 s2 0 hd h1 h2,
    divides_by_zero,
    multiply_result-zero t (reg s.cpu (rs1 (set_decoded t d s1 s2 0))) h,
  )

  execute-zero :
      (t : IT) (current next : ℕ)
      → IsDivision t
      → execute current next (set_decoded t d s1 s2 0) s t ≡ undefined_behaviour
  unfolding execute
  execute-zero IT.div c n h = run_multiply-zero IT.div c n h
  execute-zero IT.divw c n h = run_multiply-zero IT.divw c n h
  execute-zero IT.divu c n h = run_multiply-zero IT.divu c n h
  execute-zero IT.divuw c n h = run_multiply-zero IT.divuw c n h
  execute-zero IT.rem c n h = run_multiply-zero IT.rem c n h
  execute-zero IT.remu c n h = run_multiply-zero IT.remu c n h
  execute-zero IT.remw c n h = run_multiply-zero IT.remw c n h
  execute-zero IT.remuw c n h = run_multiply-zero IT.remuw c n h
  execute-zero _ c n h = absurd h

IsDivision-ne : (t : IT) → IsDivision t → t ≢ IT.sraiw
IsDivision-ne IT.sraiw h = absurd h
IsDivision-ne _ h = cc

IsDivision-Fits :
    (t : IT) (d s1 s2 : ℕ)
    → IsDivision t
    → d < 32
    → s1 < 32
    → s2 < 32
    → Fits (encoding_of t) d s1 s2 0
IsDivision-Fits IT.div d s1 s2 h a b c = omega arith
IsDivision-Fits IT.divw d s1 s2 h a b c = omega arith
IsDivision-Fits IT.divu d s1 s2 h a b c = omega arith
IsDivision-Fits IT.divuw d s1 s2 h a b c = omega arith
IsDivision-Fits IT.rem d s1 s2 h a b c = omega arith
IsDivision-Fits IT.remu d s1 s2 h a b c = omega arith
IsDivision-Fits IT.remw d s1 s2 h a b c = omega arith
IsDivision-Fits IT.remuw d s1 s2 h a b c = omega arith
IsDivision-Fits _ d s1 s2 h a b c = absurd h

-- A step on the encoding of a division or remainder whose second source register holds 0 is
-- undefined behaviour, where the manual defines the result.
pub step-divide_by_zero :
    (s : State) (t : IT) (d s1 s2 : ℕ)
    → IsDivision t
    → d < 32
    → s1 < 32
    → s2 < 32
    → reg s.cpu s2 ≡ 0
    → Fetches s (encode t d s1 s2 0)
    → step s ≡ undefined_behaviour
step-divide_by_zero s t d s1 s2 h hd h1 h2 zero_divisor f =
    step-encode s t d s1 s2 0 (IsDivision-ne t h) (IsDivision-Fits t d s1 s2 h hd h1 h2) hd h1 h2 f
    ∙ execute-zero s d s1 s2 hd h1 h2 zero_divisor t (pc s.cpu) (u64 (pc s.cpu + 4)) h

two_mul-le : (x y : ℕ) → 1 < y → x * 2 ≤ x * y
two_mul-le x y h = grind arith

div-le : (x y : ℕ) → x / y ≤ x
div-le x y = grind arith

-- mulw divides: for operands whose low halves are other than 0 and have a product below 2 ^ 31,
-- the second above 1, the result is not the product that the manual gives.
pub mulw-ne-product :
    (a b : ℕ)
    → 0 < u32 a
    → 1 < u32 b
    → u32 a * u32 b < 2 ^ 31
    → multiply_result IT.mulw a b ≢ ok (u32 a * u32 b)
unfolding multiply_result
mulw-ne-product a b ha hb small =
    ground (arith, two_mul-le (u32 a) (u32 b) hb, div-le (u32 a) (u32 b))
