-- ===== src/Display.antt =====
-- src/vm/private/InstructionDisplay.cpp: the text of an instruction.
pub mod Names
use Prim.Native.String.{String, ◌++◌}
use Names.{register_name}
use riscv64_emulator.Prelude.{ℕ, Bool, Option, none, some, ◌==◌, if◌then◌else◌, leb, ◌&&◌}
use riscv64_emulator.Prelude.Result.{Result, ok, fatal, ◌>>=◌, entered_unreachable_code}
use riscv64_emulator.Cpu.{Register}
use riscv64_emulator.Instruction.{Instruction, type_of, rd, rs1, rs2, imm}
use riscv64_emulator.Instruction.Kinds.{InstructionType as IT, to_code}

unfoldable pub instruction_name : IT → String
instruction_name IT.undefined = "undefined"
instruction_name IT.lui = "lui"
instruction_name IT.auipc = "auipc"
instruction_name IT.jal = "jal"
instruction_name IT.jalr = "jalr"
instruction_name IT.beq = "beq"
instruction_name IT.bne = "bne"
instruction_name IT.blt = "blt"
instruction_name IT.bge = "bge"
instruction_name IT.bltu = "bltu"
instruction_name IT.bgeu = "bgeu"
instruction_name IT.lb = "lb"
instruction_name IT.lh = "lh"
instruction_name IT.lw = "lw"
instruction_name IT.ld = "ld"
instruction_name IT.lbu = "lbu"
instruction_name IT.lhu = "lhu"
instruction_name IT.lwu = "lwu"
instruction_name IT.sb = "sb"
instruction_name IT.sh = "sh"
instruction_name IT.sw = "sw"
instruction_name IT.sd = "sd"
instruction_name IT.addi = "addi"
instruction_name IT.xori = "xori"
instruction_name IT.ori = "ori"
instruction_name IT.andi = "andi"
instruction_name IT.addiw = "addiw"
instruction_name IT.slli = "slli"
instruction_name IT.srli = "srli"
instruction_name IT.srai = "srai"
instruction_name IT.slliw = "slliw"
instruction_name IT.srliw = "srliw"
instruction_name IT.sraiw = "sraiw"
instruction_name IT.slti = "slti"
instruction_name IT.sltiu = "sltiu"
instruction_name IT.slt = "slt"
instruction_name IT.sltu = "sltu"
instruction_name IT.add = "add"
instruction_name IT.sub = "sub"
instruction_name IT.xor = "xor"
instruction_name IT.or = "or"
instruction_name IT.and = "and"
instruction_name IT.sll = "sll"
instruction_name IT.srl = "srl"
instruction_name IT.sra = "sra"
instruction_name IT.addw = "addw"
instruction_name IT.subw = "subw"
instruction_name IT.sllw = "sllw"
instruction_name IT.srlw = "srlw"
instruction_name IT.sraw = "sraw"
instruction_name IT.ebreak = "ebreak"
instruction_name IT.ecall = "ecall"
instruction_name IT.fence = "fence"
instruction_name IT.mul = "mul"
instruction_name IT.mulw = "mulw"
instruction_name IT.mulh = "mulh"
instruction_name IT.mulhu = "mulhu"
instruction_name IT.mulhsu = "mulhsu"
instruction_name IT.div = "div"
instruction_name IT.divu = "divu"
instruction_name IT.divw = "divw"
instruction_name IT.divuw = "divuw"
instruction_name IT.rem = "rem"
instruction_name IT.remu = "remu"
instruction_name IT.remw = "remw"
instruction_name IT.remuw = "remuw"

-- enum class InstructionDisplay::Format.
pub data Format : Type 0 where
  standalone store load rd_imm rd_rs1_imm rs1_rs2_imm rd_rs1_rs2 : Format

unfoldable pub instruction_between : IT → IT → IT → Bool
instruction_between type first last =
    leb (to_code first) (to_code type) && leb (to_code type) (to_code last)

unfoldable pub instruction_format : IT → Result Format
instruction_format type =
    if to_code type == to_code IT.undefined
    then ok Format.standalone
    else if instruction_between type IT.lui IT.jal
    then ok Format.rd_imm
    else if to_code type == to_code IT.jalr
    then ok Format.rd_rs1_imm
    else if instruction_between type IT.beq IT.bgeu
    then ok Format.rs1_rs2_imm
    else if instruction_between type IT.lb IT.lwu
    then ok Format.load
    else if instruction_between type IT.sb IT.sd
    then ok Format.store
    else if instruction_between type IT.addi IT.sltiu
    then ok Format.rd_rs1_imm
    else if instruction_between type IT.slt IT.sraw
    then ok Format.rd_rs1_rs2
    else if instruction_between type IT.ebreak IT.ecall
    then ok Format.standalone
    else if to_code type == to_code IT.fence
    then ok Format.rd_rs1_imm
    else if instruction_between type IT.mul IT.remuw
    then ok Format.rd_rs1_rs2
    else fatal entered_unreachable_code

-- `unreachable()` for a type that is no enumerator.
abbrev pub known_type : Option IT → Result IT
known_type none = fatal entered_unreachable_code
known_type (some type) = ok type

-- The switch on the format. `to_hex` is the formatting library's `{:#x}` of a signed number, given
-- as its 64-bit pattern.
unfoldable pub format_operands : (ℕ → String) → String → Instruction → Format → Result String
format_operands to_hex name i Format.standalone = ok name
format_operands to_hex name i Format.store = do
  value ← register_name (rs2 i)
  base ← register_name (rs1 i)
  ok (name ++ " " ++ value ++ ", " ++ to_hex (imm i) ++ "(" ++ base ++ ")")
format_operands to_hex name i Format.load = do
  target ← register_name (rd i)
  base ← register_name (rs1 i)
  ok (name ++ " " ++ target ++ ", " ++ to_hex (imm i) ++ "(" ++ base ++ ")")
format_operands to_hex name i Format.rd_imm = do
  target ← register_name (rd i)
  ok (name ++ " " ++ target ++ ", " ++ to_hex (imm i))
format_operands to_hex name i Format.rd_rs1_imm = do
  target ← register_name (rd i)
  first ← register_name (rs1 i)
  ok (name ++ " " ++ target ++ ", " ++ first ++ ", " ++ to_hex (imm i))
format_operands to_hex name i Format.rs1_rs2_imm = do
  first ← register_name (rs1 i)
  second ← register_name (rs2 i)
  ok (name ++ " " ++ first ++ ", " ++ second ++ ", " ++ to_hex (imm i))
format_operands to_hex name i Format.rd_rs1_rs2 = do
  target ← register_name (rd i)
  first ← register_name (rs1 i)
  second ← register_name (rs2 i)
  ok (name ++ " " ++ target ++ ", " ++ first ++ ", " ++ second)

unfoldable pub format_instruction : (ℕ → String) → Instruction → Result String
format_instruction to_hex i = do
  type ← known_type (type_of i)
  format ← instruction_format type
  format_operands to_hex (instruction_name type) i format
