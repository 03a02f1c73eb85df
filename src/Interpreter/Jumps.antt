-- ===== src/Interpreter/Jumps.antt =====
-- A whole step of src/vm/Interpreter.cpp on the encodings of the branches and of jal and jalr.
use riscv64_emulator.Prelude.{
  ℕ, ◌+◌, ◌-◌, ◌*◌, ◌/◌, ◌%◌, ◌^◌, ◌<◌, ◌≡◌, ◌≢◌, ◌⊎◌, refl, ◌∙◌, arith, Bool, true, not, ltb, ◌==◌,
  if◌then◌else◌, bit_and,
}
use riscv64_emulator.Prelude.Bits.{bit_and_mask, bit_and_high}
use riscv64_emulator.Prelude.Word.{u64, sign_extend}
use riscv64_emulator.Prelude.Result.{ok}
use riscv64_emulator.Cpu.{reg, set_reg, pc, pc_reg}
use riscv64_emulator.Cpu.Laws.{reg-set_reg}
use riscv64_emulator.Instruction.{Instruction, set_decoded}
use riscv64_emulator.Instruction.Kinds.{InstructionType as IT}
use riscv64_emulator.Instruction.Packing.{
  rd-set_decoded, rs1-set_decoded, rs2-set_decoded, imm-set_decoded,
}
use riscv64_emulator.Instruction.Encoding.{Fits, encoding_of, encode}
use riscv64_emulator.Interpreter.{State, advance, run_branch, execute, step}
use riscv64_emulator.Interpreter.Alu.{branch_taken}
use riscv64_emulator.Interpreter.Values.{IsBranch}
use riscv64_emulator.Interpreter.Steps.{IsValid}
use riscv64_emulator.Interpreter.Step.{Fetches, step-encode}

-- With the sign bit inverted, signed numbers are in the order of unsigned ones.
abbrev pub biased : ℕ → ℕ
biased a = (a + 2 ^ 63) % 2 ^ 64

-- When a branch of the manual is taken.
abbrev pub takes : IT → ℕ → ℕ → Bool
takes IT.beq a b = a == b
takes IT.bne a b = not (a == b)
takes IT.blt a b = ltb (biased a) (biased b)
takes IT.bge a b = not (ltb (biased a) (biased b))
takes IT.bltu a b = ltb a b
takes _ a b = not (ltb a b)

branch_taken-takes :
    (t : IT) (a b : ℕ)
    → IsBranch t
    → a < 2 ^ 64
    → b < 2 ^ 64
    → branch_taken t a b ≡ ok (takes t a b)
unfolding branch_taken
branch_taken-takes IT.beq a b h ha hb = refl
branch_taken-takes IT.bne a b h ha hb = refl
branch_taken-takes IT.blt a b h ha hb = ground arith
branch_taken-takes IT.bge a b h ha hb = ground arith
branch_taken-takes IT.bltu a b h ha hb = refl
branch_taken-takes IT.bgeu a b h ha hb = refl
branch_taken-takes _ a b h ha hb = absurd h

-- The program counter is the target and register d, unless it is register zero, the value.
pub record Jumped (s s' : State) (d value target : ℕ) : Type 0 where
  pub same_memory : s'.memory ≡ s.memory
  pub same_exit : s'.exit ≡ s.exit
  pub at_target : pc s'.cpu ≡ target
  pub linked : d ≢ 0 → reg s'.cpu d ≡ value
  pub others : (q : ℕ) → q ≢ pc_reg → (q ≢ d) ⊎ (q ≡ 0) → reg s'.cpu q ≡ reg s.cpu q

advance-Jumped :
    (s : State) (d value target : ℕ)
    → d < 32
    → (s' : State) × (advance target (record s { cpu = set_reg s.cpu d value }) ≡ ok (true, s'))
      × Jumped s s' d value target
unfolding pc
advance-Jumped s d value target lt =
    let written = set_reg s.cpu d value in
    (
      _,
      refl,
      record {
        same_memory = refl;
        same_exit = refl;
        at_target = ground (arith, reg-set_reg written pc_reg pc_reg target);
        linked = λ some_register.
            ground (arith, reg-set_reg written pc_reg d target, reg-set_reg s.cpu d d value);
        others = λ q ne apart.
            ground (arith, reg-set_reg written pc_reg q target, reg-set_reg s.cpu d q value);
      },
    )

advance-branch :
    (s : State) (target : ℕ)
    → (s' : State) × (advance target s ≡ ok (true, s')) × Jumped s s' 0 0 target
unfolding pc
advance-branch s target = (
  _,
  refl,
  record {
    same_memory = refl;
    same_exit = refl;
    at_target = ground (arith, reg-set_reg s.cpu pc_reg pc_reg target);
    linked = λ some_register. absurd (some_register refl);
    others = λ q ne apart. ground (arith, reg-set_reg s.cpu pc_reg q target);
  },
)

execute-branch :
    (c n : ℕ) (i : Instruction) (s : State) (t : IT)
    → IsBranch t
    → execute c n i s t ≡ run_branch c n i s t
unfolding execute
execute-branch c n i s IT.beq h = refl
execute-branch c n i s IT.bne h = refl
execute-branch c n i s IT.blt h = refl
execute-branch c n i s IT.bge h = refl
execute-branch c n i s IT.bltu h = refl
execute-branch c n i s IT.bgeu h = refl
execute-branch c n i s _ h = absurd h

IsBranch-ne : (t : IT) → IsBranch t → t ≢ IT.sraiw
IsBranch-ne IT.sraiw h = absurd h
IsBranch-ne _ h = cc

-- From a valid state, a step on the encoding of a branch goes on: at the program counter plus the
-- offset, extended by its sign, if the two registers compare as the branch has it, as signed or
-- unsigned numbers, and at the next word if they do not. Nothing else changes.
pub step-branch :
    (s : State) (t : IT) (s1 s2 k : ℕ)
    → IsValid s
    → IsBranch t
    → Fits (encoding_of t) 0 s1 s2 k
    → s1 < 32
    → s2 < 32
    → Fetches s (encode t 0 s1 s2 k)
    → (s' : State) × (step s ≡ ok (true, s'))
      × Jumped s s' 0 0 (
          if takes t (reg s.cpu s1) (reg s.cpu s2)
          then u64 (pc s.cpu + sign_extend 32 k)
          else u64 (pc s.cpu + 4))
unfolding run_branch
step-branch s t s1 s2 k v h fits h1 h2 f =
    let target =
      if takes t (reg s.cpu s1) (reg s.cpu s2)
      then u64 (pc s.cpu + sign_extend 32 k)
      else u64 (pc s.cpu + 4) in
    let (s', e, j) = advance-branch s target in
    (
      s',
      step-encode s t 0 s1 s2 k (IsBranch-ne t h) fits (omega arith) h1 h2 f
          ∙ execute-branch (pc s.cpu) (u64 (pc s.cpu + 4)) (set_decoded t 0 s1 s2 k) s t h
          ∙ rw
              (
                rs1-set_decoded t 0 s1 s2 k (omega arith) h1 h2,
                rs2-set_decoded t 0 s1 s2 k (omega arith) h1 h2,
                branch_taken-takes t (reg s.cpu s1) (reg s.cpu s2) h (v.valid_cpu.is_64_bit s1)
                    (v.valid_cpu.is_64_bit s2),
                imm-set_decoded t 0 s1 s2 k,
              )
              e,
      j,
    )

abbrev pub IsJump : IT → Type 0
IsJump IT.jal = Unit
IsJump IT.jalr = Unit
IsJump _ = ⊥

-- jal is relative to the program counter; jalr clears the lowest bit of a sum with a register.
abbrev pub jump_target : State → IT → ℕ → ℕ → ℕ
jump_target s IT.jal s1 k = u64 (pc s.cpu + sign_extend 32 k)
jump_target s _ s1 k = u64 (reg s.cpu s1 + sign_extend 32 k) / 2 * 2

clear_lowest : (x : ℕ) → x < 2 ^ 64 → bit_and x (2 ^ 64 - 2) ≡ x / 2 * 2
clear_lowest x h =
    let high : bit_and x (2 ^ 64 - 2) ≡ bit_and (x / 2) (2 ^ 63 - 1) * 2 =
      bit_and_high 1 x (2 ^ 63 - 1) in
    omega (arith, high, bit_and_mask 63 (x / 2))

-- From a valid state, a step on the encoding of jal or jalr goes on at its target, which for jalr is
-- taken from the register as it was before the step, with the address of the next word in the
-- destination, unless that is register zero. Nothing else changes.
pub step-jump :
    (s : State) (t : IT) (d s1 k : ℕ)
    → IsValid s
    → IsJump t
    → Fits (encoding_of t) d s1 0 k
    → d < 32
    → s1 < 32
    → Fetches s (encode t d s1 0 k)
    → (s' : State) × (step s ≡ ok (true, s'))
      × Jumped s s' d (u64 (pc s.cpu + 4)) (jump_target s t s1 k)
unfolding execute
step-jump s IT.jal d s1 k v h fits hd h1 f =
    let (s', e, j) =
      advance-Jumped s d (u64 (pc s.cpu + 4)) (u64 (pc s.cpu + sign_extend 32 k)) hd in
    (
      s',
      step-encode s IT.jal d s1 0 k (cc) fits hd h1 (omega arith) f
          ∙ rw (rd-set_decoded IT.jal d s1 0 k hd h1 (omega arith), imm-set_decoded IT.jal d s1 0 k)
              e,
      j,
    )
step-jump s IT.jalr d s1 k v h fits hd h1 f =
    let target = u64 (reg s.cpu s1 + sign_extend 32 k) in
    let (s', e, j) = advance-Jumped s d (u64 (pc s.cpu + 4)) (target / 2 * 2) hd in
    (
      s',
      step-encode s IT.jalr d s1 0 k (cc) fits hd h1 (omega arith) f
          ∙ rw
              (
                rd-set_decoded IT.jalr d s1 0 k hd h1 (omega arith),
                rs1-set_decoded IT.jalr d s1 0 k hd h1 (omega arith),
                imm-set_decoded IT.jalr d s1 0 k,
                clear_lowest target (omega arith),
              )
              e,
      j,
    )
step-jump s _ d s1 k v h fits hd h1 f = absurd h
