-- ===== src/Instruction.antt =====
-- src/vm/Instruction.hpp: the decoded instruction, packed into two 32-bit words.
pub mod Kinds
pub mod Packing
pub mod Fields
pub mod Words
pub mod Encoding
pub mod Decoder
pub mod Decoded
pub mod Gaps
use riscv64_emulator.Prelude.{ℕ, Option, bit_and, bit_or}
use riscv64_emulator.Prelude.Word.{shr, shl32, sign_extend}
use Kinds.{InstructionType, to_code, of_code}

pub record Instruction : Type 0 where
  pub a : ℕ
  pub b : ℕ

-- `InstructionDecoder::set_decoded` (src/vm/Instruction.cpp).
unfoldable pub set_decoded : InstructionType → ℕ → ℕ → ℕ → ℕ → Instruction
set_decoded type rd rs1 rs2 imm = record {
  a = bit_or (bit_or (bit_or (to_code type) (shl32 rd 16)) (shl32 rs1 21)) (shl32 rs2 26);
  b = imm;
}

unfoldable pub type_of : Instruction → Option InstructionType
type_of i = of_code (bit_and i.a 0xffff)

unfoldable pub rd : Instruction → ℕ
rd i = bit_and (shr i.a 16) 0b11111

unfoldable pub rs1 : Instruction → ℕ
rs1 i = bit_and (shr i.a 21) 0b11111

unfoldable pub rs2 : Instruction → ℕ
rs2 i = bit_and (shr i.a 26) 0b11111

-- `int64_t(int32_t(b))`, as the 64-bit pattern that all its uses convert it to.
unfoldable pub imm : Instruction → ℕ
imm i = sign_extend 32 i.b

unfoldable pub shamt : Instruction → ℕ
shamt i = i.b
