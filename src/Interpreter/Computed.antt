-- ===== src/Interpreter/Computed.antt =====
-- A whole step of src/vm/Interpreter.cpp on the encodings of the arithmetic instructions.
use riscv64_emulator.Prelude.{ℕ, ◌+◌, ◌^◌, ◌<◌, ◌≡◌, ◌≢◌, ◌⊎◌, refl, ◌∙◌, arith, true}
use riscv64_emulator.Prelude.Word.{u64, sign_extend, to_word}
use riscv64_emulator.Prelude.Result.{ok}
use riscv64_emulator.Cpu.{reg, set_reg, pc, pc_reg}
use riscv64_emulator.Cpu.Laws.{reg-set_reg}
use riscv64_emulator.Instruction.{Instruction, set_decoded, rd}
use riscv64_emulator.Instruction.Kinds.{InstructionType as IT}
use riscv64_emulator.Instruction.Packing.{
  rd-set_decoded, rs1-set_decoded, rs2-set_decoded, imm-set_decoded, shamt-set_decoded,
}
use riscv64_emulator.Instruction.Encoding.{Fits, encoding_of, encode}
use riscv64_emulator.Interpreter.{
  State, write_rd, run_register, run_immediate, run_shift, execute, step,
}
use riscv64_emulator.Interpreter.Alu.{register_result, immediate_result, shift_result}
use riscv64_emulator.Interpreter.Values.{IsRegister, IsImmediate, IsShift}
use riscv64_emulator.Interpreter.Steps.{IsValid}
use riscv64_emulator.Interpreter.Step.{Fetches, step-encode}
use riscv64_emulator.Interpreter.Manual.{manual, results-manual}

-- The value is in register d, unless that is register zero, the program counter is on the next
-- word, and all else is as it was.
pub record Computed (s s' : State) (d value : ℕ) : Type 0 where
  pub same_memory : s'.memory ≡ s.memory
  pub same_exit : s'.exit ≡ s.exit
  pub next_pc : pc s'.cpu ≡ u64 (pc s.cpu + 4)
  pub result : d ≢ 0 → reg s'.cpu d ≡ value
  pub others : (q : ℕ) → q ≢ pc_reg → (q ≢ d) ⊎ (q ≡ 0) → reg s'.cpu q ≡ reg s.cpu q

-- The step goes on with the integer of the manual for two operands in register d.
abbrev pub Computes : State → IT → ℕ → ℕ → ℕ → Type 0
Computes s t d a b =
    (s' : State) × (step s ≡ ok (true, s')) × Computed s s' d (to_word 64 (manual t a b))

pub write_rd-Computed :
    (s : State) (i : Instruction) (d value : ℕ)
    → rd i ≡ d
    → d < 32
    → (s' : State) × (write_rd i (u64 (pc s.cpu + 4)) s value ≡ ok (true, s'))
      × Computed s s' d value
unfolding pc
write_rd-Computed s i d value e lt =
    let written = set_reg s.cpu (rd i) value in
    let next = u64 (pc s.cpu + 4) in
    (
      record s { cpu = set_reg written pc_reg next },
      refl,
      record {
        same_memory = refl;
        same_exit = refl;
        next_pc = ground (arith, reg-set_reg written pc_reg pc_reg next);
        result = λ some_register.
            ground (arith, reg-set_reg written pc_reg d next, reg-set_reg s.cpu (rd i) d value, e);
        others = λ q ne apart.
            ground (arith, reg-set_reg written pc_reg q next, reg-set_reg s.cpu (rd i) q value, e);
      },
    )

execute-register :
    (c n : ℕ) (i : Instruction) (s : State) (t : IT)
    → IsRegister t
    → execute c n i s t ≡ run_register c n i s t
unfolding execute
execute-register c n i s IT.add h = refl
execute-register c n i s IT.sub h = refl
execute-register c n i s IT.xor h = refl
execute-register c n i s IT.or h = refl
execute-register c n i s IT.and h = refl
execute-register c n i s IT.sll h = refl
execute-register c n i s IT.srl h = refl
execute-register c n i s IT.sra h = refl
execute-register c n i s IT.addw h = refl
execute-register c n i s IT.subw h = refl
execute-register c n i s IT.sllw h = refl
execute-register c n i s IT.srlw h = refl
execute-register c n i s IT.sraw h = refl
execute-register c n i s _ h = absurd h

execute-immediate :
    (c n : ℕ) (i : Instruction) (s : State) (t : IT)
    → IsImmediate t
    → execute c n i s t ≡ run_immediate c n i s t
unfolding execute
execute-immediate c n i s IT.addi h = refl
execute-immediate c n i s IT.xori h = refl
execute-immediate c n i s IT.ori h = refl
execute-immediate c n i s IT.andi h = refl
execute-immediate c n i s IT.addiw h = refl
execute-immediate c n i s _ h = absurd h

execute-shift :
    (c n : ℕ) (i : Instruction) (s : State) (t : IT) (k : ℕ)
    → IsShift t k
    → execute c n i s t ≡ run_shift c n i s t
unfolding execute
execute-shift c n i s IT.slli k h = refl
execute-shift c n i s IT.srli k h = refl
execute-shift c n i s IT.srai k h = refl
execute-shift c n i s IT.slliw k h = refl
execute-shift c n i s IT.srliw k h = refl
execute-shift c n i s IT.sraiw k h = refl
execute-shift c n i s _ k h = absurd h

-- The immediate and the shift amount of the two formats.
immediate-lt :
    (t : IT) (d s1 s2 k : ℕ) → IsImmediate t → Fits (encoding_of t) d s1 s2 k → k < 2 ^ 32
immediate-lt IT.addi d s1 s2 k h fits = omega (arith, fits.3)
immediate-lt IT.xori d s1 s2 k h fits = omega (arith, fits.3)
immediate-lt IT.ori d s1 s2 k h fits = omega (arith, fits.3)
immediate-lt IT.andi d s1 s2 k h fits = omega (arith, fits.3)
immediate-lt IT.addiw d s1 s2 k h fits = omega (arith, fits.3)
immediate-lt _ d s1 s2 k h fits = absurd h

shift-lt : (t : IT) (k : ℕ) → IsShift t k → k < 64
shift-lt IT.slli k h = h
shift-lt IT.srli k h = h
shift-lt IT.srai k h = h
shift-lt IT.slliw k h = omega arith
shift-lt IT.srliw k h = omega arith
shift-lt IT.sraiw k h = omega arith
shift-lt _ k h = absurd h

module _ (s : State) (t : IT) (d s1 s2 k : ℕ) (hd : d < 32) (h1 : s1 < 32) (h2 : s2 < 32) where
  abbrev decoded : Instruction
  decoded = set_decoded t d s1 s2 k

  abbrev Wrote : ℕ → Type 0
  Wrote value =
      execute (pc s.cpu) (u64 (pc s.cpu + 4)) decoded s t
      ≡ write_rd decoded (u64 (pc s.cpu + 4)) s value

  register-Wrote :
      (value : ℕ)
      → IsRegister t
      → register_result t (reg s.cpu s1) (reg s.cpu s2) ≡ ok value
      → Wrote value
  unfolding run_register
  register-Wrote value h e =
      execute-register (pc s.cpu) (u64 (pc s.cpu + 4)) decoded s t h
      ∙ rw (rs1-set_decoded t d s1 s2 k hd h1 h2, rs2-set_decoded t d s1 s2 k hd h1 h2, e)

  immediate-Wrote :
      (value : ℕ)
      → IsImmediate t
      → immediate_result t (reg s.cpu s1) (sign_extend 32 k) ≡ ok value
      → Wrote value
  unfolding run_immediate
  immediate-Wrote value h e =
      execute-immediate (pc s.cpu) (u64 (pc s.cpu + 4)) decoded s t h
      ∙ rw (rs1-set_decoded t d s1 s2 k hd h1 h2, imm-set_decoded t d s1 s2 k, e)

  shift-Wrote : (value : ℕ) → IsShift t k → shift_result t (reg s.cpu s1) k ≡ ok value → Wrote value
  unfolding run_shift
  shift-Wrote value h e =
      execute-shift (pc s.cpu) (u64 (pc s.cpu + 4)) decoded s t k h
      ∙ rw (rs1-set_decoded t d s1 s2 k hd h1 h2, shamt-set_decoded t d s1 s2 k, e)

-- From a valid state, a step on the manual's encoding of a register, immediate or shift instruction
-- other than sra, srai and sraiw goes on, and leaves in the destination the low 64 bits of the
-- integer that the manual gives for the first source register and, as its kind has it, the second
-- one, the immediate extended by its sign, or the shift amount. Register zero stays as it is, the
-- program counter is on the next word, and the other registers, the memory and the exit stay.
pub step-Computes :
    (s : State) (t : IT) (d s1 s2 k : ℕ)
    → IsValid s
    → t ≢ IT.sra
    → t ≢ IT.srai
    → t ≢ IT.sraiw
    → Fits (encoding_of t) d s1 s2 k
    → d < 32
    → s1 < 32
    → s2 < 32
    → Fetches s (encode t d s1 s2 k)
    → (IsRegister t → Computes s t d (reg s.cpu s1) (reg s.cpu s2))
      × (IsImmediate t → Computes s t d (reg s.cpu s1) (sign_extend 32 k))
      × (IsShift t k → Computes s t d (reg s.cpu s1) k)
step-Computes s t d s1 s2 k v sra srai sraiw fits hd h1 h2 f = (
  λ h. computed (reg s.cpu s2) (
      register-Wrote s t d s1 s2 k hd h1 h2 _ h (
        (results-manual t (reg s.cpu s1) (reg s.cpu s2) sra srai (v.valid_cpu.is_64_bit s1)
            (v.valid_cpu.is_64_bit s2)).0
          h)),
  λ h. computed (sign_extend 32 k) (
      immediate-Wrote s t d s1 s2 k hd h1 h2 _ h (
        (results-manual t (reg s.cpu s1) (sign_extend 32 k) sra srai (v.valid_cpu.is_64_bit s1)
            (ground (arith, immediate-lt t d s1 s2 k h fits))).1
          h)),
  λ h. computed k (
      shift-Wrote s t d s1 s2 k hd h1 h2 _ h (
        (results-manual t (reg s.cpu s1) k sra srai (v.valid_cpu.is_64_bit s1)
            (omega (arith, shift-lt t k h))).2
          h)),
)
  where
    computed :
        (b : ℕ)
        → Wrote s t d s1 s2 k hd h1 h2 (to_word 64 (manual t (reg s.cpu s1) b))
        → Computes s t d (reg s.cpu s1) b
    computed b e =
        let (s', w, c) =
          write_rd-Computed s (set_decoded t d s1 s2 k) d (to_word 64 (manual t (reg s.cpu s1) b))
            (rd-set_decoded t d s1 s2 k hd h1 h2) hd in
        (s', step-encode s t d s1 s2 k sraiw fits hd h1 h2 f ∙ e ∙ w, c)
