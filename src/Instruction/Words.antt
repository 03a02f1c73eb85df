-- ===== src/Instruction/Words.antt =====
-- The fields of a word that is put together from seven-, five- and three-bit parts.
use riscv64_emulator.Prelude.{
  ℕ, ◌+◌, ◌-◌, ◌*◌, ◌/◌, ◌%◌, ◌^◌, ◌<◌, ◌≡◌, arith, bit_and, ltb, if◌then◌else◌,
}
use riscv64_emulator.Prelude.Bits.{bit_and_mask, bit_and_high, bit_or_fields, bit_or-zero}
use riscv64_emulator.Prelude.Word.{shr}
use riscv64_emulator.Instruction.Fields.{
  sign32, rd_field, rs1_field, rs2_field, funct3_field, funct7_field, shamt_field, shtype_field,
  shamt32_field, shtype32_field, itype_imm, stype_imm, btype_imm, jtype_imm, utype_imm,
}

-- opcode, rd, funct3, rs1, rs2, funct7 from the low bits up: the R format of the RISC-V manual.
pub record Parts : Type 0 where
  pub op : ℕ
  pub d : ℕ
  pub f3 : ℕ
  pub s1 : ℕ
  pub s2 : ℕ
  pub f7 : ℕ

abbrev pub part : ℕ → ℕ → ℕ → ℕ → ℕ → ℕ → Parts
part op d f3 s1 s2 f7 = record { op = op; d = d; f3 = f3; s1 = s1; s2 = s2; f7 = f7 }

pub record IsInRange (p : Parts) : Type 0 where
  pub op_range : p.op < 128
  pub d_range : p.d < 32
  pub f3_range : p.f3 < 8
  pub s1_range : p.s1 < 32
  pub s2_range : p.s2 < 32
  pub f7_range : p.f7 < 128

abbrev pub join : Parts → ℕ
join p = p.op + p.d * 2 ^ 7 + p.f3 * 2 ^ 12 + p.s1 * 2 ^ 15 + p.s2 * 2 ^ 20 + p.f7 * 2 ^ 25

-- `value` with its sign in bit `k - 1` extended to 32 bits.
abbrev pub extended : ℕ → ℕ → ℕ → ℕ
extended k f7 value = if ltb f7 64 then value else value + 2 ^ 32 - 2 ^ k

-- The offset of a branch: bit 11 stands in the low bit of rd, and bit 0 is not stored.
abbrev pub branch_offset : Parts → ℕ
branch_offset p = p.d / 2 * 2 + p.f7 % 64 * 32 + p.d % 2 * 2 ^ 11

-- The offset of a jump, whose bits the word holds in four pieces.
abbrev pub jump_offset : Parts → ℕ
jump_offset p = p.s2 / 2 * 2 + p.f7 % 64 * 32 + p.s2 % 2 * 2 ^ 11 + p.f3 * 2 ^ 12 + p.s1 * 2 ^ 15

-- What the decoder's field functions read from a word: first the fields that it branches on.
pub record Selects (w : ℕ) (p : Parts) : Type 0 where
  pub opcode : bit_and w 0b111_1111 ≡ p.op
  pub funct3 : funct3_field w ≡ p.f3
  pub funct7 : funct7_field w ≡ p.f7
  pub shtype : shtype_field w ≡ p.f7 / 2
  pub shtype32 : shtype32_field w ≡ p.f7

pub record Reads (w : ℕ) (p : Parts) : Type 0 where
  pub rd : rd_field w ≡ p.d
  pub rs1 : rs1_field w ≡ p.s1
  pub rs2 : rs2_field w ≡ p.s2
  pub shamt : shamt_field w ≡ p.s2 + p.f7 % 2 * 32
  pub shamt32 : shamt32_field w ≡ p.s2
  pub itype : itype_imm w ≡ extended 12 p.f7 (p.s2 + p.f7 * 32)
  pub stype : stype_imm w ≡ extended 12 p.f7 (p.d + p.f7 * 32)
  pub btype : btype_imm w ≡ extended 12 p.f7 (branch_offset p)
  pub jtype : jtype_imm w ≡ extended 20 p.f7 (jump_offset p)
  pub utype : utype_imm w ≡ p.f3 * 2 ^ 12 + p.s1 * 2 ^ 15 + p.s2 * 2 ^ 20 + p.f7 * 2 ^ 25

sign32_lem : (w : ℕ) → w < 2 ^ 32 → sign32 w ≡ (if ltb w (2 ^ 31) then 0 else 2 ^ 32 - 1)
unfolding sign32
sign32_lem w h = ground (arith, bit_and_high 31 w 1, bit_and_mask 1 (w / 2 ^ 31))

module _ (p : Parts) (h : IsInRange p) where
  abbrev word : ℕ
  word = join p

  low_itype : bit_and (shr word 20) 0b111_1111_1111 ≡ p.s2 + p.f7 % 64 * 32
  low_itype = omega (arith, bit_and_mask 11 (shr word 20))

  low_stype : bit_and (shr word 7) 0b11111 ≡ p.d
  low_stype = omega (arith, bit_and_mask 5 (shr word 7))

  high_stype : bit_and (shr word 25) 0b11_1111 ≡ p.f7 % 64
  high_stype = omega (arith, bit_and_mask 6 (shr word 25))

  low_btype : bit_and (shr word 8) 0b1111 ≡ p.d / 2
  low_btype = omega (arith, bit_and_mask 4 (shr word 8))

  bit_btype : bit_and (shr word 7) 0b1 ≡ p.d % 2
  bit_btype = omega (arith, bit_and_mask 1 (shr word 7))

  low_jtype : bit_and (shr word 21) 0b11_1111_1111 ≡ p.s2 / 2 + p.f7 % 64 * 16
  low_jtype = omega (arith, bit_and_mask 10 (shr word 21))

  bit_jtype : bit_and (shr word 20) 0b1 ≡ p.s2 % 2
  bit_jtype = omega (arith, bit_and_mask 1 (shr word 20))

  high_jtype : bit_and (shr word 12) 0b1111_1111 ≡ p.f3 + p.s1 * 8
  high_jtype = omega (arith, bit_and_mask 8 (shr word 12))

  reads_itype : itype_imm (join p) ≡ extended 12 p.f7 (p.s2 + p.f7 * 32)
  unfolding itype_imm
  reads_itype = ground (
    arith,
    sign32_lem word (omega arith),
    low_itype,
    bit_or-zero (p.s2 + p.f7 % 64 * 32),
    bit_or_fields 11 (p.s2 + p.f7 % 64 * 32) (2 ^ 21 - 1) (omega arith),
  )

  reads_stype : stype_imm (join p) ≡ extended 12 p.f7 (p.d + p.f7 * 32)
  unfolding stype_imm
  reads_stype = ground (
    arith,
    sign32_lem word (omega arith),
    low_stype,
    high_stype,
    bit_or_fields 5 p.d (p.f7 % 64) (omega arith),
    bit_or-zero (p.d + p.f7 % 64 * 32),
    bit_or_fields 11 (p.d + p.f7 % 64 * 32) (2 ^ 21 - 1) (omega arith),
  )

  reads_btype : btype_imm (join p) ≡ extended 12 p.f7 (branch_offset p)
  unfolding btype_imm
  reads_btype = ground (
    arith,
    sign32_lem word (omega arith),
    low_btype,
    high_stype,
    bit_btype,
    bit_or_fields 5 (p.d / 2 * 2) (p.f7 % 64) (omega arith),
    bit_or_fields 11 (p.d / 2 * 2 + p.f7 % 64 * 32) (p.d % 2) (omega arith),
    bit_or-zero (branch_offset p),
    bit_or_fields 12 (branch_offset p) (2 ^ 20 - 1) (omega arith),
  )

  -- The two lower pieces of a jump's offset.
  abbrev jump_low : ℕ
  jump_low = (p.s2 / 2 + p.f7 % 64 * 16) * 2

  reads_jtype : jtype_imm (join p) ≡ extended 20 p.f7 (jump_offset p)
  unfolding jtype_imm
  reads_jtype = ground (
    arith,
    sign32_lem word (omega arith),
    low_jtype,
    bit_jtype,
    high_jtype,
    bit_or_fields 11 jump_low (p.s2 % 2) (omega arith),
    bit_or_fields 12 (jump_low + p.s2 % 2 * 2 ^ 11) (p.f3 + p.s1 * 8) (omega arith),
    bit_or-zero (jump_low + p.s2 % 2 * 2 ^ 11 + (p.f3 + p.s1 * 8) * 2 ^ 12),
    bit_or_fields 20 (jump_low + p.s2 % 2 * 2 ^ 11 + (p.f3 + p.s1 * 8) * 2 ^ 12) (2 ^ 12 - 1)
        (omega arith),
  )

  pub join-Selects : Selects (join p) p
  unfolding funct3_field funct7_field shtype_field shtype32_field
  join-Selects = record {
    opcode = omega (arith, bit_and_mask 7 word);
    funct3 = omega (arith, bit_and_mask 3 (shr word 12));
    funct7 = omega (arith, bit_and_mask 7 (shr word 25));
    shtype = omega (arith, bit_and_mask 6 (shr word 26));
    shtype32 = omega (arith, bit_and_mask 7 (shr word 25));
  }

  pub join-Reads : Reads (join p) p
  unfolding rd_field rs1_field rs2_field shamt_field shamt32_field utype_imm
  join-Reads = record {
    rd = omega (arith, bit_and_mask 5 (shr word 7));
    rs1 = omega (arith, bit_and_mask 5 (shr word 15));
    rs2 = omega (arith, bit_and_mask 5 (shr word 20));
    shamt = omega (arith, bit_and_mask 6 (shr word 20));
    shamt32 = omega (arith, bit_and_mask 5 (shr word 20));
    itype = reads_itype;
    stype = reads_stype;
    btype = reads_btype;
    jtype = reads_jtype;
    utype = omega (arith, bit_and_high 12 word (2 ^ 20 - 1), bit_and_mask 20 (shr word 12));
  }
