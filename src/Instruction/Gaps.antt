-- ===== src/Instruction/Gaps.antt =====
-- Where the decoder of src/vm/Instruction.cpp departs from the formats of the RISC-V manual.
use riscv64_emulator.Prelude.{ℕ, ◌<◌, ◌≡◌, ◌≢◌, arith, bit_and}
use riscv64_emulator.Instruction.{set_decoded}
use riscv64_emulator.Instruction.Kinds.{InstructionType as IT}
use riscv64_emulator.Instruction.Fields.{rd_field, rs1_field, funct3_field, shtype_field, itype_imm}
use riscv64_emulator.Instruction.Words.{Selects, join-Selects}
use riscv64_emulator.Instruction.Encoding.{encoding_of, parts, encode}
use riscv64_emulator.Instruction.Decoder.{
  undecoded, decode, decode_itype, decode_op_imm, decode_load, decode_op_imm_32,
}

-- A word of opcode OP-IMM with the funct3 of a shift and an unknown upper field is no instruction
-- in the manual. The missing `break` decodes it as a load: lh for funct3 1 and lhu for funct3 5.
pub decode-bad_shift :
    (w : ℕ)
    → bit_and w 0b111_1111 ≡ 0b001_0011
    → shtype_field w ≢ 0
    → ((funct3_field w ≡ 1
          → decode w ≡ set_decoded IT.lh (rd_field w) (rs1_field w) 0 (itype_imm w))
        × (funct3_field w ≡ 5
            → shtype_field w ≢ 16
            → decode w ≡ set_decoded IT.lhu (rd_field w) (rs1_field w) 0 (itype_imm w)))
unfolding decode decode_itype decode_op_imm decode_load
decode-bad_shift w op bad = (λ f3. ground arith, λ f3 worse. ground arith)

decode-eq-undecoded :
    (d s1 imm w : ℕ) → Selects w (parts (encoding_of IT.sraiw) d s1 0 imm) → decode w ≡ undecoded
unfolding decode decode_itype decode_op_imm_32
decode-eq-undecoded d s1 imm w sel = ground arith

-- The manual's encoding of sraiw is decoded as an undefined instruction, whatever the operands.
pub decode-encode_sraiw :
    (d s1 imm : ℕ) → d < 32 → s1 < 32 → imm < 32 → decode (encode IT.sraiw d s1 0 imm) ≡ undecoded
unfolding encode
decode-encode_sraiw d s1 imm hd h1 hi =
    decode-eq-undecoded d s1 imm _
      (join-Selects (parts (encoding_of IT.sraiw) d s1 0 imm) (omega arith))
