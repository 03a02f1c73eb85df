-- ===== src/Instruction/Decoded.antt =====
-- What every decoded instruction satisfies: its registers, its immediate and, if it shifts by an
-- immediate, its shift amount are in range.
use riscv64_emulator.Prelude.{ℕ, ◌^◌, ◌<◌, arith, Bool, true, false, if◌then◌else◌}
use riscv64_emulator.Prelude.Bits.{bit_and_mask, bit_or-lt, bit_and-le}
use riscv64_emulator.Prelude.Word.{shr}
use riscv64_emulator.Instruction.{Instruction, set_decoded}
use riscv64_emulator.Instruction.Kinds.{InstructionType as IT}
use riscv64_emulator.Instruction.Decoder.{
  undecoded, decode, decode_itype, decode_op_imm, decode_load, decode_op_imm_32, decode_system,
  decode_utype, decode_rtype, decode_op_base, decode_op_alternate, decode_op_multiply, decode_op_32,
  decode_stype, decode_btype, decode_jtype,
}
use riscv64_emulator.Instruction.Fields.{
  rd_field, rs1_field, rs2_field, shamt_field, shamt32_field, itype_imm, stype_imm, btype_imm,
  jtype_imm, utype_imm,
}

-- The bound on the immediate: the width for the shifts, 2 ^ 32 for all others.
abbrev pub immediate_limit : IT → ℕ
immediate_limit IT.slli = 64
immediate_limit IT.srli = 64
immediate_limit IT.srai = 64
immediate_limit IT.slliw = 32
immediate_limit IT.srliw = 32
immediate_limit IT.sraiw = 32
immediate_limit _ = 2 ^ 32

pub data IsDecoded : Instruction → Type 0 where
  packed :
      (t : IT) (d s1 s2 imm : ℕ)
      → d < 32
      → s1 < 32
      → s2 < 32
      → imm < immediate_limit t
      → IsDecoded (set_decoded t d s1 s2 imm)

rd_field-lt : (w : ℕ) → rd_field w < 32
unfolding rd_field
rd_field-lt w = omega (arith, bit_and_mask 5 (shr w 7))

rs1_field-lt : (w : ℕ) → rs1_field w < 32
unfolding rs1_field
rs1_field-lt w = omega (arith, bit_and_mask 5 (shr w 15))

rs2_field-lt : (w : ℕ) → rs2_field w < 32
unfolding rs2_field
rs2_field-lt w = omega (arith, bit_and_mask 5 (shr w 20))

shamt_field-lt : (w : ℕ) → shamt_field w < 64
unfolding shamt_field
shamt_field-lt w = omega (arith, bit_and_mask 6 (shr w 20))

shamt32_field-lt : (w : ℕ) → shamt32_field w < 32
unfolding shamt32_field
shamt32_field-lt w = omega (arith, bit_and_mask 5 (shr w 20))

itype_imm-lt : (w : ℕ) → itype_imm w < 2 ^ 32
unfolding itype_imm
itype_imm-lt w = bit_or-lt 32 _ _ (omega (arith, bit_and_mask 11 (shr w 20))) (omega arith)

stype_imm-lt : (w : ℕ) → stype_imm w < 2 ^ 32
unfolding stype_imm
stype_imm-lt w =
    bit_or-lt 32 _ _ (bit_or-lt 32 _ _ (omega (arith, bit_and_mask 5 (shr w 7))) (omega arith))
      (omega arith)

btype_imm-lt : (w : ℕ) → btype_imm w < 2 ^ 32
unfolding btype_imm
btype_imm-lt w =
    bit_or-lt 32 _ _ (bit_or-lt 32 _ _ (bit_or-lt 32 _ _ (omega arith) (omega arith)) (omega arith))
      (omega arith)

jtype_imm-lt : (w : ℕ) → jtype_imm w < 2 ^ 32
unfolding jtype_imm
jtype_imm-lt w =
    bit_or-lt 32 _ _ (bit_or-lt 32 _ _ (bit_or-lt 32 _ _ (omega arith) (omega arith)) (omega arith))
      (omega arith)

utype_imm-lt : (w : ℕ) → w < 2 ^ 32 → utype_imm w < 2 ^ 32
unfolding utype_imm
utype_imm-lt w h = omega (arith, bit_and-le w 0xffff_f000)

undecoded-IsDecoded : IsDecoded undecoded
undecoded-IsDecoded =
    packed IT.undefined 0 0 0 0 (omega arith) (omega arith) (omega arith) (omega arith)

zero_register : 0 < 32
zero_register = omega arith

if-IsDecoded :
    (c : Bool) (x y : Instruction) → IsDecoded x → IsDecoded y → IsDecoded (if c then x else y)
if-IsDecoded true x y hx hy = hx
if-IsDecoded false x y hx hy = hy

zero-lt-immediate_limit : (t : IT) → 0 < immediate_limit t
zero-lt-immediate_limit IT.slli = omega arith
zero-lt-immediate_limit _ = omega arith

right_shift-lt :
    (c : Bool) (w : ℕ) → shamt_field w < immediate_limit (if c then IT.srli else IT.srai)
right_shift-lt true w = shamt_field-lt w
right_shift-lt false w = shamt_field-lt w

right_shift32-lt :
    (c : Bool) (w : ℕ) → shamt32_field w < immediate_limit (if c then IT.srliw else IT.sraiw)
right_shift32-lt true w = shamt32_field-lt w
right_shift32-lt false w = shamt32_field-lt w

system-lt : (c : Bool) → 0 < immediate_limit (if c then IT.ecall else IT.ebreak)
system-lt c = zero-lt-immediate_limit _

ruleset ranges = (
  rd_field-lt, rs1_field-lt, rs2_field-lt, shamt_field-lt, shamt32_field-lt, right_shift-lt,
  right_shift32-lt, system-lt, itype_imm-lt, stype_imm-lt, btype_imm-lt, jtype_imm-lt, utype_imm-lt,
  zero-lt-immediate_limit, zero_register, packed, if-IsDecoded, undecoded-IsDecoded,
)

decode_load-IsDecoded :
    (w : ℕ) (next : Instruction) → IsDecoded next → IsDecoded (decode_load w next)
unfolding decode_load
decode_load-IsDecoded w next hn = search ranges depth 20

decode_op_imm-IsDecoded :
    (w : ℕ) (next : Instruction) → IsDecoded next → IsDecoded (decode_op_imm w next)
unfolding decode_op_imm
decode_op_imm-IsDecoded w next hn = search ranges depth 20

decode_op_imm_32-IsDecoded : (w : ℕ) → IsDecoded (decode_op_imm_32 w)
unfolding decode_op_imm_32
decode_op_imm_32-IsDecoded w = search ranges depth 20

decode_system-IsDecoded : (w : ℕ) → IsDecoded (decode_system w)
unfolding decode_system
decode_system-IsDecoded w = search ranges depth 20

decode_itype-IsDecoded : (w op : ℕ) → IsDecoded (decode_itype w op)
unfolding decode_itype
decode_itype-IsDecoded w op =
    search
      (
        ranges, decode_load-IsDecoded, decode_op_imm-IsDecoded, decode_op_imm_32-IsDecoded,
        decode_system-IsDecoded,
      )
      depth 20

decode_utype-IsDecoded : (w op : ℕ) → w < 2 ^ 32 → IsDecoded (decode_utype w op)
unfolding decode_utype
decode_utype-IsDecoded w op h = search ranges depth 20

module _ (decoded : IT → Instruction) (each : (t : IT) → IsDecoded (decoded t)) where
  decode_op_base-IsDecoded :
      (f3 : ℕ) (next : Instruction) → IsDecoded next → IsDecoded (decode_op_base decoded f3 next)
  unfolding decode_op_base
  decode_op_base-IsDecoded f3 next hn = search (if-IsDecoded, each) depth 20

  decode_op_alternate-IsDecoded : (f3 : ℕ) → IsDecoded (decode_op_alternate decoded f3)
  unfolding decode_op_alternate
  decode_op_alternate-IsDecoded f3 = search (if-IsDecoded, each, undecoded-IsDecoded) depth 20

  decode_op_multiply-IsDecoded : (f3 : ℕ) → IsDecoded (decode_op_multiply decoded f3)
  unfolding decode_op_multiply
  decode_op_multiply-IsDecoded f3 = search (if-IsDecoded, each, undecoded-IsDecoded) depth 20

  decode_op_32-IsDecoded : (f7 f3 : ℕ) → IsDecoded (decode_op_32 decoded f7 f3)
  unfolding decode_op_32
  decode_op_32-IsDecoded f7 f3 = search (if-IsDecoded, each, undecoded-IsDecoded) depth 20

decode_rtype-IsDecoded : (w op : ℕ) → IsDecoded (decode_rtype w op)
unfolding decode_rtype
decode_rtype-IsDecoded w op =
    search
      (
        if-IsDecoded,
        undecoded-IsDecoded,
        decode_op_base-IsDecoded _ each,
        decode_op_alternate-IsDecoded _ each,
        decode_op_multiply-IsDecoded _ each,
        decode_op_32-IsDecoded _ each,
      )
      depth 20
  where
    each : (t : IT) → IsDecoded (set_decoded t (rd_field w) (rs1_field w) (rs2_field w) 0)
    each t = search ranges

decode_stype-IsDecoded : (w op : ℕ) → IsDecoded (decode_stype w op)
unfolding decode_stype
decode_stype-IsDecoded w op = search ranges depth 20

decode_btype-IsDecoded : (w op : ℕ) → IsDecoded (decode_btype w op)
unfolding decode_btype
decode_btype-IsDecoded w op = search ranges depth 20

decode_jtype-IsDecoded : (w op : ℕ) → IsDecoded (decode_jtype w op)
unfolding decode_jtype
decode_jtype-IsDecoded w op = search ranges depth 20

-- Every 32-bit word is decoded to some instruction type with registers below 32 and an immediate
-- below the limit of its type: 64 for a 64-bit shift by an immediate, 32 for a 32-bit one.
pub decode-IsDecoded : (w : ℕ) → w < 2 ^ 32 → IsDecoded (decode w)
unfolding decode
decode-IsDecoded w h =
    search
      (
        if-IsDecoded, undecoded-IsDecoded, decode_itype-IsDecoded, decode_utype-IsDecoded,
        decode_rtype-IsDecoded, decode_stype-IsDecoded, decode_btype-IsDecoded,
        decode_jtype-IsDecoded,
      )
      depth 20
