-- ===== src/Instruction/Encoding/Decodes.antt =====
-- Decoding undoes encoding.
use riscv64_emulator.Prelude.{ℕ, ◌+◌, ◌*◌, ◌/◌, ◌%◌, ◌≡◌, ◌≢◌, ◌∙◌, arith}
use riscv64_emulator.Instruction.{Instruction, set_decoded}
use riscv64_emulator.Instruction.Kinds.{InstructionType as IT}
use riscv64_emulator.Instruction.Decoder.{
  undecoded, decode, decode_itype, decode_op_imm, decode_load, decode_op_imm_32, decode_system,
  decode_utype, decode_rtype, decode_op_base, decode_op_alternate, decode_op_multiply, decode_op_32,
  decode_stype, decode_btype, decode_jtype,
}
use riscv64_emulator.Instruction.Fields.{
  rd_field, rs1_field, rs2_field, shamt_field, shamt32_field, itype_imm, stype_imm, btype_imm,
  jtype_imm, utype_imm,
}
use riscv64_emulator.Instruction.Encoding.{
  Encoding, unencoded, r, i, shift, shift_w, s, b, u, j, system, IsExtended, Fits, encoding_of,
  parts, encode,
}
use riscv64_emulator.Instruction.Words.{
  IsInRange, Selects, Reads, join-Reads, join-Selects, extended, branch_offset, jump_offset,
}

parts-IsInRange :
    (t : IT) (d s1 s2 imm : ℕ)
    → Fits (encoding_of t) d s1 s2 imm
    → IsInRange (parts (encoding_of t) d s1 s2 imm)
parts-IsInRange IT.undefined d s1 s2 imm h = absurd h
parts-IsInRange _ d s1 s2 imm h = omega arith

-- The operands that the decoder takes from the word of an instruction with this encoding.
abbrev operands : Encoding → IT → ℕ → Instruction
operands unencoded t w = undecoded
operands (r op f3 f7) t w = set_decoded t (rd_field w) (rs1_field w) (rs2_field w) 0
operands (i op f3) t w = set_decoded t (rd_field w) (rs1_field w) 0 (itype_imm w)
operands (shift f3 f6) t w = set_decoded t (rd_field w) (rs1_field w) 0 (shamt_field w)
operands (shift_w f3 f7) t w = set_decoded t (rd_field w) (rs1_field w) 0 (shamt32_field w)
operands (s f3) t w = set_decoded t 0 (rs1_field w) (rs2_field w) (stype_imm w)
operands (b f3) t w = set_decoded t 0 (rs1_field w) (rs2_field w) (btype_imm w)
operands (u op) t w = set_decoded t (rd_field w) 0 0 (utype_imm w)
operands j t w = set_decoded t (rd_field w) 0 0 (jtype_imm w)
operands (system n) t w = set_decoded t 0 0 0 0

-- The fields that a system instruction fixes.
record IsSystem (n w : ℕ) : Type 0 where
  no_rd : rd_field w ≡ 0
  no_rs1 : rs1_field w ≡ 0
  number : itype_imm w ≡ n

abbrev SystemFields : Encoding → ℕ → Type 0
SystemFields (system n) w = IsSystem n w
SystemFields _ w = Unit

decode-eq-operands :
    (t : IT) (d s1 s2 imm w : ℕ)
    → t ≢ IT.sraiw
    → Fits (encoding_of t) d s1 s2 imm
    → SystemFields (encoding_of t) w
    → Selects w (parts (encoding_of t) d s1 s2 imm)
    → decode w ≡ operands (encoding_of t) t w
unfolding decode decode_itype decode_op_imm decode_load decode_op_imm_32 decode_system decode_utype
    decode_rtype decode_op_base decode_op_alternate decode_op_multiply decode_op_32 decode_stype
    decode_btype decode_jtype
decode-eq-operands IT.undefined d s1 s2 imm w ne h sys sel = absurd h
decode-eq-operands _ d s1 s2 imm w ne h sys sel = ground arith

itype_value :
    (imm : ℕ)
    → IsExtended 12 imm
    → extended 12 (imm / 32 % 128) (imm % 32 + imm / 32 % 128 * 32) ≡ imm
itype_value imm h = ground arith

btype_value :
    (f3 s1 s2 imm : ℕ)
    → IsExtended 13 imm
    → imm % 2 ≡ 0
    → extended 12 (parts (b f3) 0 s1 s2 imm).f7 (branch_offset (parts (b f3) 0 s1 s2 imm)) ≡ imm
btype_value f3 s1 s2 imm h even = ground arith

jtype_value :
    (d imm : ℕ)
    → IsExtended 21 imm
    → imm % 2 ≡ 0
    → extended 20 (parts j d 0 0 imm).f7 (jump_offset (parts j d 0 0 imm)) ≡ imm
jtype_value d imm h even = ground arith

system_fields :
    (e : Encoding) (d s1 s2 imm w : ℕ)
    → Fits e d s1 s2 imm
    → Reads w (parts e d s1 s2 imm)
    → SystemFields e w
system_fields (system n) d s1 s2 imm w h reads = record {
  no_rd = reads.rd;
  no_rs1 = reads.rs1;
  number = ground (arith, reads.itype);
}
system_fields _ d s1 s2 imm w h reads = tt

operands_read :
    (e : Encoding) (t : IT) (d s1 s2 imm w : ℕ)
    → Fits e d s1 s2 imm
    → Reads w (parts e d s1 s2 imm)
    → operands e t w ≡ set_decoded t d s1 s2 imm
operands_read unencoded t d s1 s2 imm w h reads = absurd h
operands_read (r op f3 f7) t d s1 s2 imm w h reads = rw (reads.rd, reads.rs1, reads.rs2, h.3)
operands_read (i op f3) t d s1 s2 imm w h reads =
    rw (reads.rd, reads.rs1, reads.itype, h.2, itype_value imm h.3)
operands_read (shift f3 f6) t d s1 s2 imm w h reads =
    let e : shamt_field w ≡ imm = omega (arith, reads.shamt) in rw (reads.rd, reads.rs1, h.2, e)
operands_read (shift_w f3 f7) t d s1 s2 imm w h reads = rw (reads.rd, reads.rs1, h.2, reads.shamt32)
operands_read (s f3) t d s1 s2 imm w h reads =
    rw (h.0, reads.rs1, reads.rs2, reads.stype, itype_value imm h.3)
operands_read (b f3) t d s1 s2 imm w h reads =
    rw (h.0, reads.rs1, reads.rs2, reads.btype, btype_value f3 s1 s2 imm h.3 h.4)
operands_read (u op) t d s1 s2 imm w h reads =
    let e : utype_imm w ≡ imm = omega (arith, reads.utype) in rw (reads.rd, h.1, h.2, e)
operands_read j t d s1 s2 imm w h reads =
    rw (reads.rd, h.1, h.2, reads.jtype, jtype_value d imm h.3 h.4)
operands_read (system n) t d s1 s2 imm w h reads = rw (h.0, h.1, h.2, h.3)

-- Every instruction but sraiw, encoded as the RISC-V manual says with operands that its format can
-- hold, is decoded to that instruction with those operands.
pub decode-encode :
    (t : IT) (d s1 s2 imm : ℕ)
    → t ≢ IT.sraiw
    → Fits (encoding_of t) d s1 s2 imm
    → decode (encode t d s1 s2 imm) ≡ set_decoded t d s1 s2 imm
unfolding encode
decode-encode t d s1 s2 imm ne h =
    let range = parts-IsInRange t d s1 s2 imm h in
    decode-eq-operands t d s1 s2 imm _ ne h
      (system_fields (encoding_of t) d s1 s2 imm _ h (join-Reads _ range)) (join-Selects _ range)
    ∙ operands_read (encoding_of t) t d s1 s2 imm _ h (join-Reads _ range)
