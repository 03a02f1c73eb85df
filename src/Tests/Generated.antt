-- ===== src/Tests/Generated.antt =====
-- The code generator on a computer, for instructions at program counter 4096.
use riscv64_emulator.Prelude.{
  ◌-◌, ℕ, ◌*◌, ◌%◌, ◌^◌, ◌<◌, ◌≡◌, inl, refl, ◌∙◌, sym, subst, arith, Bool, true, false, [], none,
  some, not, ◌==◌,
}
use riscv64_emulator.Prelude.Result.{Result, ok}
use riscv64_emulator.Memory as Memory
use riscv64_emulator.Memory.{Memory}
use riscv64_emulator.Instruction.{Instruction, set_decoded, type_of, rd, rs1, rs2, imm}
use riscv64_emulator.Instruction.Kinds.{InstructionType as IT}
use riscv64_emulator.Interpreter.Alu.{branch_taken}
use riscv64_emulator.Jit.Assembler.{A64R, xzr}
use riscv64_emulator.Jit.CodeBuffer.{CodeBuffer}
use riscv64_emulator.Jit.RegisterCache.{
  RegisterCache, empty_slot, host, lock_registers_internal, reserve_registers, note_registers,
  read_registers, lock_each, lock_one, fill_slot, emit_register_load, acquire_cache_slot,
}
use riscv64_emulator.Jit.RegisterCache.Release as Release
use riscv64_emulator.Jit.RegisterCache.Release.{add_slots}
use riscv64_emulator.Jit.RegisterCache.Coherence.{Tracks}
use riscv64_emulator.Jit.RegisterCache.Created.{create-Tracks}
use riscv64_emulator.Jit.RegisterCache.Unlocking.{KnowsHosts}
use riscv64_emulator.Jit.A64.{Condition, holds, result_of, Width, and_}
use riscv64_emulator.Jit.Aarch64.{
  Block, CodeGenerator, lock_two, lock_three, read_of, write_only_of,
}
use riscv64_emulator.Jit.Aarch64.Accesses.{permission_mask}
use riscv64_emulator.Jit.Aarch64.Branches.{skip_condition}
use riscv64_emulator.Jit.Aarch64.Instructions.{generate_instruction}
use riscv64_emulator.Jit.Aarch64.Blocks.{generate_block_code}
use riscv64_emulator.Jit.Aarch64.Ready.{nothing, Ready}
use riscv64_emulator.Jit.Aarch64.Computing.{manual_word}
use riscv64_emulator.Jit.Aarch64.Registers.{computed, written, CanLock, generate_instruction-three}
use riscv64_emulator.Jit.Aarch64.ImmediateCode.{second, CanLockTwo, generate_instruction-two}
use riscv64_emulator.Jit.Aarch64.Conditions.{skip_condition-branch_taken}
use riscv64_emulator.Jit.Aarch64.Masks.{low, flag_of, permission_mask-permissions_loop}
use riscv64_emulator.Jit.Aarch64.Returns.{Returns, generate_block_code-Returns}
use riscv64_emulator.Prelude.{◌≢◌}
use riscv64_emulator.Jit.RegisterCache.{update}
use riscv64_emulator.Interpreter.Alu.{multiply_result}
use riscv64_emulator.Jit.Aarch64.Multiplying.{multiplied}
use riscv64_emulator.Jit.Aarch64.Multiplications.{generate_instruction-multiply}
use riscv64_emulator.Tests.Host.{insertion, value_or, is_ok-value}
use riscv64_emulator.Tests.Computer.{computer_base, computer, blank_computer}

abbrev guest_values : ℕ → ℕ
guest_values r = r * 8 % 2 ^ 64

abbrev memory_of_32 : Memory
memory_of_32 = record { size = 32; block_count = 4; raw = λ _. 3 }

abbrev code_of_64 : CodeBuffer
code_of_64 = record {
  block_to_offset = λ _. 0;
  max_blocks = 8;
  executable_buffer = record { size = 64; memory = λ _. 0 };
  next_free_offset = 8;
}

abbrev block_4096 : Block
block_4096 = record {
  memory = memory_of_32;
  code_buffer = code_of_64;
  multithreaded = false;
  skip_permission_checks = false;
  single_step = false;
  base_pc = 4096;
  current_pc = 4096;
}

abbrev blank : RegisterCache computer_base
blank = record {
  as_code = blank_computer;
  program_counter = 0;
  slots = λ _. empty_slot;
  register_to_slot = λ _. none;
  platform_register_to_slot = λ _. none;
  free_slots = [];
}

abbrev new_cache : RegisterCache computer_base
new_cache = value_or blank (Release.create computer_base blank_computer)

new_cache-ok : Release.create computer_base blank_computer ≡ ok new_cache
unfolding Release.create add_slots host
new_cache-ok = is_ok-value blank (Release.create computer_base blank_computer) refl

new_cache-based : computer_base.value new_cache.as_code 7 ≡ 4096
unfolding Release.create add_slots host
new_cache-based = refl

new_cache-Ready : Ready computer_base 4096 guest_values new_cache
new_cache-Ready =
    let (c, e, t, k, code, free, empty, unmapped) =
      create-Tracks computer_base blank_computer guest_values (λ r. refl) in
    let same : c ≡ new_cache =
      let eq : ◌≡◌ {A = Result (RegisterCache computer_base)} (ok c) (ok new_cache) =
        sym e ∙ new_cache-ok in
      cc in
    let both =
      subst (λ x. Tracks computer_base nothing x guest_values × KnowsHosts x) same (t, k) in
    record { tracks = both.0; hosts = both.1; based = new_cache-based }

abbrev generator : CodeGenerator computer
generator = record { pending_exits = []; register_cache = new_cache }

abbrev sub_5_6_7 : Instruction
sub_5_6_7 = set_decoded IT.sub 5 6 7 0

sub_5_6_7-type : type_of sub_5_6_7 ≡ some IT.sub
unfolding type_of set_decoded
sub_5_6_7-type = refl

guest_values-lt : (q : ℕ) → guest_values q < 2 ^ 64
guest_values-lt q = omega arith

abbrev three_locked : A64R × A64R × A64R × CodeGenerator computer
three_locked =
    value_or (xzr, xzr, xzr, generator)
      (lock_three computer insertion generator (read_of (rs1 sub_5_6_7)) (read_of (rs2 sub_5_6_7))
        (write_only_of (rd sub_5_6_7)))

three_locked-CanLock : CanLock computer insertion generator sub_5_6_7
unfolding Release.create add_slots host lock_three lock_registers_internal reserve_registers
    note_registers read_registers lock_each lock_one fill_slot emit_register_load acquire_cache_slot
    rs1 rs2 rd set_decoded
three_locked-CanLock general = (
  _,
  _,
  _,
  _,
  is_ok-value (xzr, xzr, xzr, generator)
      (lock_three computer insertion generator (read_of (rs1 sub_5_6_7)) (read_of (rs2 sub_5_6_7))
        (write_only_of (rd sub_5_6_7)))
      refl,
)

generate_instruction-three_example :
    (g' : CodeGenerator computer) × (generate_instruction computer insertion block_4096 sub_5_6_7
        generator
      ≡ ok (true, g'))
    × Ready computer_base 4096
        (written guest_values
          (rd sub_5_6_7)
          (computed IT.sub (guest_values (rs1 sub_5_6_7)) (guest_values (rs2 sub_5_6_7))))
        g'.register_cache
    × (g'.pending_exits ≡ [])
generate_instruction-three_example =
    generate_instruction-three computer insertion block_4096 guest_values sub_5_6_7 generator IT.sub
      sub_5_6_7-type tt refl guest_values-lt new_cache-Ready three_locked-CanLock

abbrev rem_5_6_7 : Instruction
rem_5_6_7 = set_decoded IT.rem 5 6 7 0

rem_5_6_7-type : type_of rem_5_6_7 ≡ some IT.rem
unfolding type_of set_decoded
rem_5_6_7-type = refl

rem_5_6_7-rd : rd rem_5_6_7 ≢ 0
unfolding rd set_decoded
rem_5_6_7-rd = λ e. omega arith

rem_locked-CanLock : CanLock computer insertion generator rem_5_6_7
unfolding Release.create add_slots host lock_three lock_registers_internal reserve_registers
    note_registers read_registers lock_each lock_one fill_slot emit_register_load acquire_cache_slot
    rs1 rs2 rd set_decoded
rem_locked-CanLock general = (
  _,
  _,
  _,
  _,
  is_ok-value (xzr, xzr, xzr, generator)
      (lock_three computer insertion generator (read_of (rs1 rem_5_6_7)) (read_of (rs2 rem_5_6_7))
        (write_only_of (rd rem_5_6_7)))
      refl,
)

generate_instruction-multiply_example :
    (g' : CodeGenerator computer) × (generate_instruction computer insertion block_4096 rem_5_6_7
        generator
      ≡ ok (true, g'))
    × Ready computer_base 4096
        (update guest_values
          (rd rem_5_6_7)
          (multiplied IT.rem (guest_values (rs1 rem_5_6_7)) (guest_values (rs2 rem_5_6_7))))
        g'.register_cache
    × (g'.pending_exits ≡ [])
    × ((v : ℕ)
        → IT.rem ≢ IT.mulw
        → multiply_result IT.rem (guest_values (rs1 rem_5_6_7)) (guest_values (rs2 rem_5_6_7))
          ≡ ok v
        → multiplied IT.rem (guest_values (rs1 rem_5_6_7)) (guest_values (rs2 rem_5_6_7)) ≡ v)
generate_instruction-multiply_example =
    generate_instruction-multiply computer insertion block_4096 guest_values rem_5_6_7 generator
      IT.rem rem_5_6_7-type tt rem_5_6_7-rd refl guest_values-lt new_cache-Ready rem_locked-CanLock

abbrev addi_5_6 : Instruction
addi_5_6 = set_decoded IT.addi 5 6 0 0xffff_f000

addi_5_6-type : type_of addi_5_6 ≡ some IT.addi
unfolding type_of set_decoded
addi_5_6-type = refl

addi_5_6-imm : imm addi_5_6 < 2 ^ 64
unfolding imm set_decoded
addi_5_6-imm = omega arith

two_locked-CanLockTwo : CanLockTwo computer insertion generator addi_5_6
unfolding Release.create add_slots host lock_two lock_registers_internal reserve_registers
    note_registers read_registers lock_each lock_one fill_slot emit_register_load acquire_cache_slot
    rs1 rd set_decoded
two_locked-CanLockTwo general = (
  _,
  _,
  _,
  is_ok-value (xzr, xzr, generator)
      (lock_two computer insertion generator (read_of (rs1 addi_5_6)) (write_only_of (rd addi_5_6)))
      refl,
)

generate_instruction-two_example :
    (g' : CodeGenerator computer) × (generate_instruction computer insertion block_4096 addi_5_6
        generator
      ≡ ok (true, g'))
    × Ready computer_base 4096
        (written guest_values
          (rd addi_5_6)
          (manual_word IT.addi (guest_values (rs1 addi_5_6)) (second IT.addi addi_5_6)))
        g'.register_cache
    × (g'.pending_exits ≡ [])
generate_instruction-two_example =
    generate_instruction-two computer insertion block_4096 guest_values addi_5_6 generator IT.addi
      addi_5_6-type (inl tt) refl guest_values-lt (omega arith) addi_5_6-imm new_cache-Ready
      two_locked-CanLockTwo

skip_condition-branch_taken_example :
    (c : Condition) × (taken : Bool) × (skip_condition IT.blt ≡ ok c)
    × (branch_taken IT.blt (2 ^ 64 - 1) 0 ≡ ok taken)
    × (holds c (2 ^ 64 - 1) 0 ≡ not taken)
skip_condition-branch_taken_example = skip_condition-branch_taken IT.blt (2 ^ 64 - 1) 0 tt

permission_mask-permissions_loop_example :
    (mask : ℕ) × (width : Width) × (permission_mask (flag_of true) 2 ≡ ok (mask, width))
    × (Memory.permissions_loop memory_of_32 (flag_of true) (2 ^ 2) 36
        ≡ ok (
            result_of width and_
              (Memory.from_bytes (Memory.bytes_at memory_of_32.raw 36 (2 ^ 2)))
              mask
            == low width mask))
permission_mask-permissions_loop_example =
    permission_mask-permissions_loop memory_of_32 true 2 36 (λ j. omega arith) (omega arith)
      (omega arith)

generate_block_code-Returns_example :
    Returns (generate_block_code computer insertion 9 code_of_64 true false memory_of_32 true 16)
generate_block_code-Returns_example =
    generate_block_code-Returns computer insertion 8 code_of_64 true false true memory_of_32 16
      (omega arith) (omega arith)
