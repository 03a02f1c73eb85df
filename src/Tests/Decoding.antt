-- ===== src/Tests/Decoding.antt =====
-- The decoder on words that an assembler makes.
use riscv64_emulator.Prelude.{◌≡◌, ◌≢◌, refl, arith, some}
use riscv64_emulator.Instruction.{set_decoded, type_of, rd, rs1, rs2, imm, shamt}
use riscv64_emulator.Instruction.Kinds.{InstructionType as IT}
use riscv64_emulator.Instruction.Packing.{accessors-set_decoded}
use riscv64_emulator.Instruction.Fields.{
  sign32, rd_field, rs1_field, rs2_field, funct3_field, shtype_field, itype_imm, btype_imm,
}
use riscv64_emulator.Instruction.Encoding.{encode}
use riscv64_emulator.Instruction.Encoding.Decodes.{decode-encode}
use riscv64_emulator.Instruction.Decoder.{
  undecoded, decode, decode_itype, decode_op_imm, decode_btype,
}
use riscv64_emulator.Instruction.Decoded.{IsDecoded, decode-IsDecoded}
use riscv64_emulator.Instruction.Gaps.{decode-bad_shift, decode-encode_sraiw}

-- addi a0, a0, -1.
decode_addi : decode 0xfff50513 ≡ set_decoded IT.addi 10 10 0 0xffff_ffff
unfolding decode decode_itype decode_op_imm rd_field rs1_field funct3_field itype_imm sign32
decode_addi = refl

-- bne a5, zero, -8.
decode_bne : decode 0xfe079ce3 ≡ set_decoded IT.bne 0 15 0 0xffff_fff8
unfolding decode decode_btype rs1_field rs2_field funct3_field btype_imm sign32
decode_bne = refl

encode_sd : encode IT.sd 0 2 8 24 ≡ 0x00813c23
unfolding encode
encode_sd = refl

decode-encode_example :
    decode (encode IT.beq 0 10 11 0xffff_fffc) ≡ set_decoded IT.beq 0 10 11 0xffff_fffc
decode-encode_example = decode-encode IT.beq 0 10 11 0xffff_fffc (cc) (omega arith)

decode-IsDecoded_example : IsDecoded (decode 0x40155513)
decode-IsDecoded_example = decode-IsDecoded 0x40155513 (omega arith)

accessors-set_decoded_example :
    (type_of (set_decoded IT.sub 3 4 5 7) ≡ some IT.sub)
    × (rd (set_decoded IT.sub 3 4 5 7) ≡ 3)
    × (rs1 (set_decoded IT.sub 3 4 5 7) ≡ 4)
    × (rs2 (set_decoded IT.sub 3 4 5 7) ≡ 5)
    × (imm (set_decoded IT.sub 3 4 5 7) ≡ 7)
    × (shamt (set_decoded IT.sub 3 4 5 7) ≡ 7)
accessors-set_decoded_example =
    accessors-set_decoded IT.sub 3 4 5 7 (omega arith) (omega arith) (omega arith)

-- 0x80151513 has the funct3 of a left shift and 0b10'0000 above the shift amount.
decode-bad_shift_example :
    ((funct3_field 0x80151513 ≡ 1
        → decode 0x80151513
          ≡ set_decoded IT.lh (rd_field 0x80151513) (rs1_field 0x80151513) 0 (itype_imm 0x80151513))
      × (funct3_field 0x80151513 ≡ 5
          → shtype_field 0x80151513 ≢ 16
          → decode 0x80151513
            ≡ set_decoded IT.lhu
                (rd_field 0x80151513)
                (rs1_field 0x80151513)
                0
                (itype_imm 0x80151513)))
unfolding shtype_field
decode-bad_shift_example = decode-bad_shift 0x80151513 refl (omega arith)

decode-encode_sraiw_example : decode (encode IT.sraiw 10 10 0 1) ≡ undecoded
decode-encode_sraiw_example = decode-encode_sraiw 10 10 1 (omega arith) (omega arith) (omega arith)
