-- ===== src/Instruction/Encoding.antt =====
-- The instruction formats of the RISC-V manual, as an encoder that is independent of the decoder
-- in src/vm/Instruction.cpp.
pub mod Decodes
use riscv64_emulator.Prelude.{ℕ, ◌+◌, ◌-◌, ◌*◌, ◌/◌, ◌%◌, ◌^◌, ◌≤◌, ◌<◌, ◌≡◌, ◌⊎◌}
use riscv64_emulator.Instruction.Kinds.{InstructionType as IT}
use riscv64_emulator.Instruction.Words.{Parts, part, join}

-- opcode, funct3 and funct7 (funct6 for the 64-bit shifts), as far as the format has them.
pub data Encoding : Type 0 where
  unencoded : Encoding
  r : ℕ → ℕ → ℕ → Encoding
  i : ℕ → ℕ → Encoding
  shift : ℕ → ℕ → Encoding
  shift_w : ℕ → ℕ → Encoding
  s : ℕ → Encoding
  b : ℕ → Encoding
  u : ℕ → Encoding
  j : Encoding
  system : ℕ → Encoding

abbrev pub encoding_of : IT → Encoding
encoding_of IT.undefined = unencoded
encoding_of IT.lui = u 0b011_0111
encoding_of IT.auipc = u 0b001_0111
encoding_of IT.jal = j
encoding_of IT.jalr = i 0b110_0111 0
encoding_of IT.beq = b 0
encoding_of IT.bne = b 1
encoding_of IT.blt = b 4
encoding_of IT.bge = b 5
encoding_of IT.bltu = b 6
encoding_of IT.bgeu = b 7
encoding_of IT.lb = i 0b000_0011 0
encoding_of IT.lh = i 0b000_0011 1
encoding_of IT.lw = i 0b000_0011 2
encoding_of IT.ld = i 0b000_0011 3
encoding_of IT.lbu = i 0b000_0011 4
encoding_of IT.lhu = i 0b000_0011 5
encoding_of IT.lwu = i 0b000_0011 6
encoding_of IT.sb = s 0
encoding_of IT.sh = s 1
encoding_of IT.sw = s 2
encoding_of IT.sd = s 3
encoding_of IT.addi = i 0b001_0011 0
encoding_of IT.xori = i 0b001_0011 4
encoding_of IT.ori = i 0b001_0011 6
encoding_of IT.andi = i 0b001_0011 7
encoding_of IT.addiw = i 0b001_1011 0
encoding_of IT.slli = shift 1 0
encoding_of IT.srli = shift 5 0
encoding_of IT.srai = shift 5 0b01_0000
encoding_of IT.slliw = shift_w 1 0
encoding_of IT.srliw = shift_w 5 0
encoding_of IT.sraiw = shift_w 5 0b010_0000
encoding_of IT.slti = i 0b001_0011 2
encoding_of IT.sltiu = i 0b001_0011 3
encoding_of IT.slt = r 0b011_0011 2 0
encoding_of IT.sltu = r 0b011_0011 3 0
encoding_of IT.add = r 0b011_0011 0 0
encoding_of IT.sub = r 0b011_0011 0 0b010_0000
encoding_of IT.xor = r 0b011_0011 4 0
encoding_of IT.or = r 0b011_0011 6 0
encoding_of IT.and = r 0b011_0011 7 0
encoding_of IT.sll = r 0b011_0011 1 0
encoding_of IT.srl = r 0b011_0011 5 0
encoding_of IT.sra = r 0b011_0011 5 0b010_0000
encoding_of IT.addw = r 0b011_1011 0 0
encoding_of IT.subw = r 0b011_1011 0 0b010_0000
encoding_of IT.sllw = r 0b011_1011 1 0
encoding_of IT.srlw = r 0b011_1011 5 0
encoding_of IT.sraw = r 0b011_1011 5 0b010_0000
encoding_of IT.ebreak = system 1
encoding_of IT.ecall = system 0
encoding_of IT.fence = i 0b000_1111 0
encoding_of IT.mul = r 0b011_0011 0 1
encoding_of IT.mulw = r 0b011_1011 0 1
encoding_of IT.mulh = r 0b011_0011 1 1
encoding_of IT.mulhu = r 0b011_0011 3 1
encoding_of IT.mulhsu = r 0b011_0011 2 1
encoding_of IT.div = r 0b011_0011 4 1
encoding_of IT.divu = r 0b011_0011 5 1
encoding_of IT.divw = r 0b011_1011 4 1
encoding_of IT.divuw = r 0b011_1011 5 1
encoding_of IT.rem = r 0b011_0011 6 1
encoding_of IT.remu = r 0b011_0011 7 1
encoding_of IT.remw = r 0b011_1011 6 1
encoding_of IT.remuw = r 0b011_1011 7 1

-- A 32-bit immediate that is the sign extension of `k` bits.
abbrev pub IsExtended : ℕ → ℕ → Type 0
IsExtended k imm = (imm < 2 ^ (k - 1)) ⊎ ((2 ^ 32 - 2 ^ (k - 1) ≤ imm) × (imm < 2 ^ 32))

-- The operands that the format can hold; those that it lacks are 0.
abbrev pub Fits : Encoding → ℕ → ℕ → ℕ → ℕ → Type 0
Fits unencoded rd rs1 rs2 imm = ⊥
Fits (r op f3 f7) rd rs1 rs2 imm = (rd < 32) × (rs1 < 32) × (rs2 < 32) × (imm ≡ 0)
Fits (i op f3) rd rs1 rs2 imm = (rd < 32) × (rs1 < 32) × (rs2 ≡ 0) × IsExtended 12 imm
Fits (shift f3 f6) rd rs1 rs2 imm = (rd < 32) × (rs1 < 32) × (rs2 ≡ 0) × (imm < 64)
Fits (shift_w f3 f7) rd rs1 rs2 imm = (rd < 32) × (rs1 < 32) × (rs2 ≡ 0) × (imm < 32)
Fits (s f3) rd rs1 rs2 imm = (rd ≡ 0) × (rs1 < 32) × (rs2 < 32) × IsExtended 12 imm
Fits (b f3) rd rs1 rs2 imm = (rd ≡ 0) × (rs1 < 32) × (rs2 < 32) × IsExtended 13 imm × (imm % 2 ≡ 0)
Fits (u op) rd rs1 rs2 imm = (rd < 32) × (rs1 ≡ 0) × (rs2 ≡ 0) × (imm < 2 ^ 32) × (imm % 2 ^ 12 ≡ 0)
Fits j rd rs1 rs2 imm = (rd < 32) × (rs1 ≡ 0) × (rs2 ≡ 0) × IsExtended 21 imm × (imm % 2 ≡ 0)
Fits (system n) rd rs1 rs2 imm = (rd ≡ 0) × (rs1 ≡ 0) × (rs2 ≡ 0) × (imm ≡ 0)

-- What each format stores in the six parts of the word; `imm[k]` of the manual is
-- `imm / 2 ^ k % 2`.
abbrev pub parts : Encoding → ℕ → ℕ → ℕ → ℕ → Parts
parts unencoded rd rs1 rs2 imm = part 0 0 0 0 0 0
parts (r op f3 f7) rd rs1 rs2 imm = part op rd f3 rs1 rs2 f7
parts (i op f3) rd rs1 rs2 imm = part op rd f3 rs1 (imm % 32) (imm / 32 % 128)
parts (shift f3 f6) rd rs1 rs2 imm = part 0b001_0011 rd f3 rs1 (imm % 32) (f6 * 2 + imm / 32 % 2)
parts (shift_w f3 f7) rd rs1 rs2 imm = part 0b001_1011 rd f3 rs1 imm f7
parts (s f3) rd rs1 rs2 imm = part 0b010_0011 (imm % 32) f3 rs1 rs2 (imm / 32 % 128)
parts (b f3) rd rs1 rs2 imm =
    part 0b110_0011 (imm / 2 % 16 * 2 + imm / 2 ^ 11 % 2) f3 rs1 rs2
      (imm / 32 % 64 + imm / 2 ^ 12 % 2 * 64)
parts (u op) rd rs1 rs2 imm =
    part op rd (imm / 2 ^ 12 % 8) (imm / 2 ^ 15 % 32) (imm / 2 ^ 20 % 32) (imm / 2 ^ 25 % 128)
parts j rd rs1 rs2 imm =
    part 0b110_1111 rd (imm / 2 ^ 12 % 8) (imm / 2 ^ 15 % 32) (imm / 2 ^ 11 % 2 + imm / 2 % 16 * 2)
      (imm / 2 ^ 5 % 64 + imm / 2 ^ 20 % 2 * 64)
parts (system n) rd rs1 rs2 imm = part 0b111_0011 0 0 0 n 0

-- The word of an instruction with the given operands.
unfoldable pub encode : IT → ℕ → ℕ → ℕ → ℕ → ℕ
encode t rd rs1 rs2 imm = join (parts (encoding_of t) rd rs1 rs2 imm)
