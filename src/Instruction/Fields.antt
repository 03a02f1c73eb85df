-- ===== src/Instruction/Fields.antt =====
-- The fields of an instruction word, as the functions of struct InstructionDecoder
-- (src/vm/Instruction.cpp) name them. `w` is the word, `instruction` in the source.
use riscv64_emulator.Prelude.{ℕ, bit_and, bit_or}
use riscv64_emulator.Prelude.Word.{shr, shl32, sar}

-- `uint32_t(int32_t(value & 0x8000'0000) >> 31)`.
unfoldable pub sign32 : ℕ → ℕ
sign32 value = sar 32 (bit_and value 0x8000_0000) 31

unfoldable pub rd_field : ℕ → ℕ
rd_field w = bit_and (shr w 7) 0b11111

unfoldable pub rs1_field : ℕ → ℕ
rs1_field w = bit_and (shr w 15) 0b11111

unfoldable pub rs2_field : ℕ → ℕ
rs2_field w = bit_and (shr w 20) 0b11111

unfoldable pub funct3_field : ℕ → ℕ
funct3_field w = bit_and (shr w 12) 0b111

unfoldable pub funct7_field : ℕ → ℕ
funct7_field w = bit_and (shr w 25) 0b111_1111

unfoldable pub shamt_field : ℕ → ℕ
shamt_field w = bit_and (shr w 20) 0b11_1111

unfoldable pub shtype_field : ℕ → ℕ
shtype_field w = bit_and (shr w 26) 0b11_1111

unfoldable pub shamt32_field : ℕ → ℕ
shamt32_field w = bit_and (shr w 20) 0b1_1111

unfoldable pub shtype32_field : ℕ → ℕ
shtype32_field w = bit_and (shr w 25) 0b111_1111

unfoldable pub itype_imm : ℕ → ℕ
itype_imm w = bit_or (bit_and (shr w 20) 0b111_1111_1111) (shl32 (sign32 w) 11)

unfoldable pub stype_imm : ℕ → ℕ
stype_imm w =
    bit_or (bit_or (bit_and (shr w 7) 0b11111) (shl32 (bit_and (shr w 25) 0b11_1111) 5))
      (shl32 (sign32 w) 11)

unfoldable pub btype_imm : ℕ → ℕ
btype_imm w =
    bit_or
      (bit_or (bit_or (shl32 (bit_and (shr w 8) 0b1111) 1) (shl32 (bit_and (shr w 25) 0b11_1111) 5))
        (shl32 (bit_and (shr w 7) 0b1) 11))
      (shl32 (sign32 w) 12)

unfoldable pub jtype_imm : ℕ → ℕ
jtype_imm w =
    bit_or
      (bit_or
        (bit_or (shl32 (bit_and (shr w 21) 0b11_1111_1111) 1) (shl32 (bit_and (shr w 20) 0b1) 11))
        (shl32 (bit_and (shr w 12) 0b1111_1111) 12))
      (shl32 (sign32 w) 20)

unfoldable pub utype_imm : ℕ → ℕ
utype_imm w = bit_and w 0xffff_f000
