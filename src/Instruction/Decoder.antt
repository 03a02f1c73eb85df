-- ===== src/Instruction/Decoder.antt =====
-- struct InstructionDecoder of src/vm/Instruction.cpp. The object under construction starts as
-- `undecoded` and each switch returns the instruction that it sets, or what a `break` leaves.
-- A case that ends without `break` goes on into the next: the next case is its argument `next`.
use riscv64_emulator.Prelude.{ℕ, bit_and, ◌==◌, if◌then◌else◌, ◌&&◌, ◌||◌}
use riscv64_emulator.Instruction.{Instruction, set_decoded}
use riscv64_emulator.Instruction.Kinds.{InstructionType as IT}
use riscv64_emulator.Instruction.Fields.{
  rd_field, rs1_field, rs2_field, funct3_field, funct7_field, shamt_field, shtype_field,
  shamt32_field, shtype32_field, itype_imm, stype_imm, btype_imm, jtype_imm, utype_imm,
}

abbrev pub undecoded : Instruction
undecoded = set_decoded IT.undefined 0 0 0 0

-- case 0b001'0011 of `decode_itype`.
unfoldable pub decode_op_imm : ℕ → Instruction → Instruction
decode_op_imm w next =
    let decoded = λ (t : IT) (i : ℕ). set_decoded t (rd_field w) (rs1_field w) 0 i in
    let funct3 = funct3_field w in
    let shtype = shtype_field w in
    if funct3 == 0b000
    then decoded IT.addi (itype_imm w)
    else if funct3 == 0b010
    then decoded IT.slti (itype_imm w)
    else if funct3 == 0b011
    then decoded IT.sltiu (itype_imm w)
    else if funct3 == 0b100
    then decoded IT.xori (itype_imm w)
    else if funct3 == 0b110
    then decoded IT.ori (itype_imm w)
    else if funct3 == 0b111
    then decoded IT.andi (itype_imm w)
    else if funct3 == 0b001
    then (if shtype == 0b00_0000 then decoded IT.slli (shamt_field w) else next)
    else if funct3 == 0b101
    then (if shtype == 0b00_0000 || shtype == 0b01_0000
        then decoded (if shtype == 0b00_0000 then IT.srli else IT.srai) (shamt_field w)
        else next)
    else next

-- case 0b000'0011.
unfoldable pub decode_load : ℕ → Instruction → Instruction
decode_load w next =
    let decoded = λ (t : IT). set_decoded t (rd_field w) (rs1_field w) 0 (itype_imm w) in
    let funct3 = funct3_field w in
    if funct3 == 0b000
    then decoded IT.lb
    else if funct3 == 0b001
    then decoded IT.lh
    else if funct3 == 0b010
    then decoded IT.lw
    else if funct3 == 0b100
    then decoded IT.lbu
    else if funct3 == 0b101
    then decoded IT.lhu
    else if funct3 == 0b110
    then decoded IT.lwu
    else if funct3 == 0b011
    then decoded IT.ld
    else next

-- case 0b001'1011. The second test of the last case reads `shtype`, not `shtype32`.
unfoldable pub decode_op_imm_32 : ℕ → Instruction
decode_op_imm_32 w =
    let funct3 = funct3_field w in
    let shtype32 = shtype32_field w in
    if funct3 == 0b000
    then set_decoded IT.addiw (rd_field w) (rs1_field w) 0 (itype_imm w)
    else if funct3 == 0b001
    then (if shtype32 == 0b000_0000
        then set_decoded IT.slliw (rd_field w) (rs1_field w) 0 (shamt32_field w)
        else undecoded)
    else if funct3 == 0b101
    then (if shtype32 == 0b000_0000 || shtype_field w == 0b010_0000
        then set_decoded (if shtype32 == 0b000_0000 then IT.srliw else IT.sraiw) (rd_field w)
            (rs1_field w) 0 (shamt32_field w)
        else undecoded)
    else undecoded

-- case 0b111'0011.
unfoldable pub decode_system : ℕ → Instruction
decode_system w =
    if funct3_field w == 0 && rs1_field w == 0 && rd_field w == 0
    then if itype_imm w == 0 || itype_imm w == 1
      then set_decoded (if itype_imm w == 0 then IT.ecall else IT.ebreak) 0 0 0 0
      else undecoded
    else undecoded

unfoldable pub decode_itype : ℕ → ℕ → Instruction
decode_itype w opcode =
    if opcode == 0b001_0011
    then decode_op_imm w (decode_load w (decode_op_imm_32 w))
    else if opcode == 0b000_0011
    then decode_load w (decode_op_imm_32 w)
    else if opcode == 0b001_1011
    then decode_op_imm_32 w
    else if opcode == 0b111_0011
    then decode_system w
    else if opcode == 0b000_1111
    then (if funct3_field w == 0
        then set_decoded IT.fence (rd_field w) (rs1_field w) 0 (itype_imm w)
        else undecoded)
    else if opcode == 0b110_0111
    then (if funct3_field w == 0
        then set_decoded IT.jalr (rd_field w) (rs1_field w) 0 (itype_imm w)
        else undecoded)
    else undecoded

unfoldable pub decode_utype : ℕ → ℕ → Instruction
decode_utype w opcode =
    if opcode == 0b011_0111
    then set_decoded IT.lui (rd_field w) 0 0 (utype_imm w)
    else if opcode == 0b001_0111
    then set_decoded IT.auipc (rd_field w) 0 0 (utype_imm w)
    else undecoded

-- The switches on funct3 under opcode 0b011'0011, one for each funct7.
unfoldable pub decode_op_base : (IT → Instruction) → ℕ → Instruction → Instruction
decode_op_base decoded funct3 next =
    if funct3 == 0b000
    then decoded IT.add
    else if funct3 == 0b001
    then decoded IT.sll
    else if funct3 == 0b010
    then decoded IT.slt
    else if funct3 == 0b011
    then decoded IT.sltu
    else if funct3 == 0b100
    then decoded IT.xor
    else if funct3 == 0b101
    then decoded IT.srl
    else if funct3 == 0b110
    then decoded IT.or
    else if funct3 == 0b111
    then decoded IT.and
    else next

unfoldable pub decode_op_alternate : (IT → Instruction) → ℕ → Instruction
decode_op_alternate decoded funct3 =
    if funct3 == 0b000
    then decoded IT.sub
    else if funct3 == 0b101
    then decoded IT.sra
    else undecoded

unfoldable pub decode_op_multiply : (IT → Instruction) → ℕ → Instruction
decode_op_multiply decoded funct3 =
    if funct3 == 0b000
    then decoded IT.mul
    else if funct3 == 0b001
    then decoded IT.mulh
    else if funct3 == 0b010
    then decoded IT.mulhsu
    else if funct3 == 0b011
    then decoded IT.mulhu
    else if funct3 == 0b100
    then decoded IT.div
    else if funct3 == 0b101
    then decoded IT.divu
    else if funct3 == 0b110
    then decoded IT.rem
    else if funct3 == 0b111
    then decoded IT.remu
    else undecoded

-- The switches under opcode 0b011'1011.
unfoldable pub decode_op_32 : (IT → Instruction) → ℕ → ℕ → Instruction
decode_op_32 decoded funct7 funct3 =
    if funct7 == 0b000_0000
    then (if funct3 == 0b000
        then decoded IT.addw
        else if funct3 == 0b001
        then decoded IT.sllw
        else if funct3 == 0b101
        then decoded IT.srlw
        else undecoded)
    else if funct7 == 0b010_0000
    then (if funct3 == 0b000
        then decoded IT.subw
        else if funct3 == 0b101
        then decoded IT.sraw
        else undecoded)
    else if funct7 == 0b000_0001
    then (if funct3 == 0b000
        then decoded IT.mulw
        else if funct3 == 0b100
        then decoded IT.divw
        else if funct3 == 0b101
        then decoded IT.divuw
        else if funct3 == 0b110
        then decoded IT.remw
        else if funct3 == 0b111
        then decoded IT.remuw
        else undecoded)
    else undecoded

unfoldable pub decode_rtype : ℕ → ℕ → Instruction
decode_rtype w opcode =
    let funct3 = funct3_field w in
    let funct7 = funct7_field w in
    let decoded = λ (t : IT). set_decoded t (rd_field w) (rs1_field w) (rs2_field w) 0 in
    if opcode == 0b011_0011
    then (if funct7 == 0b000_0000
        then decode_op_base decoded funct3 (decode_op_alternate decoded funct3)
        else if funct7 == 0b010_0000
        then decode_op_alternate decoded funct3
        else if funct7 == 0b000_0001
        then decode_op_multiply decoded funct3
        else undecoded)
    else if opcode == 0b011_1011
    then decode_op_32 decoded funct7 funct3
    else undecoded

unfoldable pub decode_stype : ℕ → ℕ → Instruction
decode_stype w opcode =
    let funct3 = funct3_field w in
    let decoded = λ (t : IT). set_decoded t 0 (rs1_field w) (rs2_field w) (stype_imm w) in
    if opcode == 0b010_0011
    then (if funct3 == 0b000
        then decoded IT.sb
        else if funct3 == 0b001
        then decoded IT.sh
        else if funct3 == 0b010
        then decoded IT.sw
        else if funct3 == 0b011
        then decoded IT.sd
        else undecoded)
    else undecoded

unfoldable pub decode_btype : ℕ → ℕ → Instruction
decode_btype w opcode =
    let funct3 = funct3_field w in
    let decoded = λ (t : IT). set_decoded t 0 (rs1_field w) (rs2_field w) (btype_imm w) in
    if opcode == 0b110_0011
    then (if funct3 == 0b000
        then decoded IT.beq
        else if funct3 == 0b001
        then decoded IT.bne
        else if funct3 == 0b100
        then decoded IT.blt
        else if funct3 == 0b101
        then decoded IT.bge
        else if funct3 == 0b110
        then decoded IT.bltu
        else if funct3 == 0b111
        then decoded IT.bgeu
        else undecoded)
    else undecoded

unfoldable pub decode_jtype : ℕ → ℕ → Instruction
decode_jtype w opcode =
    if opcode == 0b110_1111 then set_decoded IT.jal (rd_field w) 0 0 (jtype_imm w) else undecoded

-- `Instruction::Instruction(encoded_instruction)`, that is `decode`.
unfoldable pub decode : ℕ → Instruction
decode w =
    let opcode = bit_and w 0b111_1111 in
    if opcode == 0b000_0011
      || opcode == 0b000_1111
      || opcode == 0b001_0011
      || opcode == 0b001_1011
      || opcode == 0b111_0011
      || opcode == 0b110_0111
    then decode_itype w opcode
    else if opcode == 0b001_0111 || opcode == 0b011_0111
    then decode_utype w opcode
    else if opcode == 0b011_0011 || opcode == 0b011_1011
    then decode_rtype w opcode
    else if opcode == 0b010_0011
    then decode_stype w opcode
    else if opcode == 0b110_0011
    then decode_btype w opcode
    else if opcode == 0b110_1111
    then decode_jtype w opcode
    else undecoded
