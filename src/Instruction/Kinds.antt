-- ===== src/Instruction/Kinds.antt =====
-- InstructionType of src/vm/Instruction.hpp, and the number that each enumerator stands for.
use riscv64_emulator.Prelude.{ℕ, ◌≡◌, refl, ◌<◌, arith, Option, some, List, [], ◌∷◌, get_elem?}

pub data InstructionType : Type 0 where
  undefined lui auipc jal jalr beq bne blt bge bltu bgeu : InstructionType
  lb lh lw ld lbu lhu lwu sb sh sw sd : InstructionType
  addi xori ori andi addiw slli srli srai slliw srliw sraiw : InstructionType
  slti sltiu slt sltu add sub xor or and sll srl : InstructionType
  sra addw subw sllw srlw sraw ebreak ecall fence mul mulw : InstructionType
  mulh mulhu mulhsu div divu divw divuw rem remu remw remuw : InstructionType

-- The enumerators in the order of their declaration.
abbrev pub all_types : List InstructionType
all_types =
    undefined ∷ lui ∷ auipc ∷ jal ∷ jalr ∷ beq ∷ bne ∷ blt ∷ bge ∷ bltu ∷ bgeu ∷ lb ∷ lh ∷ lw ∷ ld
    ∷ lbu ∷ lhu ∷ lwu ∷ sb ∷ sh ∷ sw ∷ sd ∷ addi ∷ xori ∷ ori ∷ andi ∷ addiw ∷ slli ∷ srli ∷ srai
    ∷ slliw ∷ srliw ∷ sraiw ∷ slti ∷ sltiu ∷ slt ∷ sltu ∷ add ∷ sub ∷ xor ∷ or ∷ and ∷ sll ∷ srl
    ∷ sra ∷ addw ∷ subw ∷ sllw ∷ srlw ∷ sraw ∷ ebreak ∷ ecall ∷ fence ∷ mul ∷ mulw ∷ mulh ∷ mulhu
    ∷ mulhsu ∷ div ∷ divu ∷ divw ∷ divuw ∷ rem ∷ remu ∷ remw ∷ remuw ∷ []

-- `uint32_t(type)`.
abbrev pub to_code : InstructionType → ℕ
to_code undefined = 0
to_code lui = 1
to_code auipc = 2
to_code jal = 3
to_code jalr = 4
to_code beq = 5
to_code bne = 6
to_code blt = 7
to_code bge = 8
to_code bltu = 9
to_code bgeu = 10
to_code lb = 11
to_code lh = 12
to_code lw = 13
to_code ld = 14
to_code lbu = 15
to_code lhu = 16
to_code lwu = 17
to_code sb = 18
to_code sh = 19
to_code sw = 20
to_code sd = 21
to_code addi = 22
to_code xori = 23
to_code ori = 24
to_code andi = 25
to_code addiw = 26
to_code slli = 27
to_code srli = 28
to_code srai = 29
to_code slliw = 30
to_code srliw = 31
to_code sraiw = 32
to_code slti = 33
to_code sltiu = 34
to_code slt = 35
to_code sltu = 36
to_code add = 37
to_code sub = 38
to_code xor = 39
to_code or = 40
to_code and = 41
to_code sll = 42
to_code srl = 43
to_code sra = 44
to_code addw = 45
to_code subw = 46
to_code sllw = 47
to_code srlw = 48
to_code sraw = 49
to_code ebreak = 50
to_code ecall = 51
to_code fence = 52
to_code mul = 53
to_code mulw = 54
to_code mulh = 55
to_code mulhu = 56
to_code mulhsu = 57
to_code div = 58
to_code divu = 59
to_code divw = 60
to_code divuw = 61
to_code rem = 62
to_code remu = 63
to_code remw = 64
to_code remuw = 65

-- `InstructionType(code)`; `none` for a number that is no enumerator.
abbrev pub of_code : ℕ → Option InstructionType
of_code n = get_elem? all_types n

pub of_code-to_code : (t : InstructionType) → of_code (to_code t) ≡ some t
of_code-to_code undefined = refl
of_code-to_code _ = refl

pub to_code-lt : (t : InstructionType) → to_code t < 128
to_code-lt undefined = omega arith
to_code-lt _ = omega arith
