-- ===== src/Instruction/Packing.antt =====
-- What `set_decoded` packs, the accessors of the class Instruction give back.
use riscv64_emulator.Prelude.{ℕ, ◌+◌, ◌*◌, ◌^◌, ◌<◌, ◌≡◌, refl, ◌∙◌, ap, arith, some, bit_and}
use riscv64_emulator.Prelude.Bits.{bit_and_mask, bit_or_fields}
use riscv64_emulator.Prelude.Word.{shl32, shr, sign_extend}
use riscv64_emulator.Instruction.{set_decoded, type_of, rd, rs1, rs2, imm, shamt}
use riscv64_emulator.Instruction.Kinds.{
  InstructionType, to_code, of_code, to_code-lt, of_code-to_code,
}

module _ (t : InstructionType) (d s1 s2 i : ℕ) (hd : d < 32) (h1 : s1 < 32) (h2 : s2 < 32) where
  abbrev two_fields : ℕ
  two_fields = to_code t + d * 2 ^ 16

  abbrev three_fields : ℕ
  three_fields = to_code t + d * 2 ^ 16 + s1 * 2 ^ 21

  shift_rd : shl32 d 16 ≡ d * 2 ^ 16
  shift_rd = omega arith

  shift_rs1 : shl32 s1 21 ≡ s1 * 2 ^ 21
  shift_rs1 = omega arith

  shift_rs2 : shl32 s2 26 ≡ s2 * 2 ^ 26
  shift_rs2 = omega arith

  packed_sum : (set_decoded t d s1 s2 i).a ≡ to_code t + d * 2 ^ 16 + s1 * 2 ^ 21 + s2 * 2 ^ 26
  unfolding set_decoded
  packed_sum = rw (
    shift_rd,
    shift_rs1,
    shift_rs2,
    bit_or_fields 16 (to_code t) d (omega (arith, to_code-lt t)),
    bit_or_fields 21 two_fields s1 (omega (arith, to_code-lt t)),
    bit_or_fields 26 three_fields s2 (omega (arith, to_code-lt t)),
  )

  pub type_of-set_decoded : type_of (set_decoded t d s1 s2 i) ≡ some t
  unfolding type_of
  type_of-set_decoded = ap of_code code ∙ of_code-to_code t
    where
      code : bit_and (set_decoded t d s1 s2 i).a 0xffff ≡ to_code t
      code = omega (arith, packed_sum, bit_and_mask 16 (set_decoded t d s1 s2 i).a, to_code-lt t)

  pub rd-set_decoded : rd (set_decoded t d s1 s2 i) ≡ d
  unfolding rd
  rd-set_decoded =
      omega (arith, packed_sum, bit_and_mask 5 (shr (set_decoded t d s1 s2 i).a 16), to_code-lt t)

  pub rs1-set_decoded : rs1 (set_decoded t d s1 s2 i) ≡ s1
  unfolding rs1
  rs1-set_decoded =
      omega (arith, packed_sum, bit_and_mask 5 (shr (set_decoded t d s1 s2 i).a 21), to_code-lt t)

  pub rs2-set_decoded : rs2 (set_decoded t d s1 s2 i) ≡ s2
  unfolding rs2
  rs2-set_decoded =
      omega (arith, packed_sum, bit_and_mask 5 (shr (set_decoded t d s1 s2 i).a 26), to_code-lt t)

pub imm-set_decoded :
    (t : InstructionType) (d s1 s2 i : ℕ) → imm (set_decoded t d s1 s2 i) ≡ sign_extend 32 i
unfolding imm set_decoded
imm-set_decoded t d s1 s2 i = refl

pub shamt-set_decoded : (t : InstructionType) (d s1 s2 i : ℕ) → shamt (set_decoded t d s1 s2 i) ≡ i
unfolding shamt set_decoded
shamt-set_decoded t d s1 s2 i = refl

-- What `set_decoded` packs into two words, the accessors give back: the type, three registers below
-- 32, and the immediate, which `imm` extends by its sign and `shamt` does not.
pub accessors-set_decoded :
    (t : InstructionType) (d s1 s2 i : ℕ)
    → d < 32
    → s1 < 32
    → s2 < 32
    → (type_of (set_decoded t d s1 s2 i) ≡ some t)
      × (rd (set_decoded t d s1 s2 i) ≡ d)
      × (rs1 (set_decoded t d s1 s2 i) ≡ s1)
      × (rs2 (set_decoded t d s1 s2 i) ≡ s2)
      × (imm (set_decoded t d s1 s2 i) ≡ sign_extend 32 i)
      × (shamt (set_decoded t d s1 s2 i) ≡ i)
accessors-set_decoded t d s1 s2 i hd h1 h2 = (
  type_of-set_decoded t d s1 s2 i hd h1 h2,
  rd-set_decoded t d s1 s2 i hd h1 h2,
  rs1-set_decoded t d s1 s2 i hd h1 h2,
  rs2-set_decoded t d s1 s2 i hd h1 h2,
  imm-set_decoded t d s1 s2 i,
  shamt-set_decoded t d s1 s2 i,
)
