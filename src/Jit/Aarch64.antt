-- ===== src/Jit/Aarch64.antt =====
-- src/vm/jit/aarch64/CodeGenerator.cpp: the state of the code generator, immediates and exits. The
-- assembler is the parameter `a64`; the code is the one that the register cache appends to.
pub mod Accesses
pub mod Branches
pub mod Selection
pub mod Arithmetic
pub mod Instructions
pub mod Blocks
pub mod Emitted
pub mod Computing
pub mod Ready
pub mod Held
pub mod Unlocked
pub mod Registers
pub mod Immediates
pub mod Additions
pub mod Operands
pub mod ImmediateCode
pub mod Conditions
pub mod Masks
pub mod Returns
pub mod Remainders
pub mod SignedRemainder
pub mod Multiplying
pub mod Multiplications
use riscv64_emulator.Prelude.{
  ℕ, zero, suc, ◌+◌, ◌-◌, ◌^◌, Bool, true, false, ◌&&◌, ◌||◌, List, [], ◌∷◌, ◌++◌, ltb, leb, ◌==◌,
  if◌then◌else◌,
}
use riscv64_emulator.Prelude.Word.{u64}
use riscv64_emulator.Prelude.Result.{Result, ok, undefined_behaviour, ◌>>=◌}
use riscv64_emulator.Cpu.{Register}
use riscv64_emulator.Memory.{Memory}
use riscv64_emulator.Jit.CodeBuffer.{CodeBuffer}
use riscv64_emulator.Jit.Assembler.{A64R, xreg, xzr, Sort}
use riscv64_emulator.Jit.RegisterCache.{RegisterCache, RegisterToLock, lock_registers_internal}
use riscv64_emulator.Jit.RegisterCache.Release.{
  StateSnapshot, take_state_snapshot, unlock_register, flush_registers, flush_current_registers,
}
use riscv64_emulator.Jit.A64.{
  A64, Call, Operation, add, w64, macro_mov, mov, op, op_i, ret, insert_label,
}

-- enum class ArchExitReason (Exit.hpp).
pub data ArchExitReason : Type 0 where
  unaligned_pc out_of_bounds_pc instruction_fetch_fault block_not_generated : ArchExitReason
  single_step undefined_instruction unsupported_instruction memory_read_fault : ArchExitReason
  memory_write_fault ecall ebreak : ArchExitReason

-- `uint64_t(reason)`.
abbrev pub reason_number : ArchExitReason → ℕ
reason_number unaligned_pc = 0
reason_number out_of_bounds_pc = 1
reason_number instruction_fetch_fault = 2
reason_number block_not_generated = 3
reason_number single_step = 4
reason_number undefined_instruction = 5
reason_number unsupported_instruction = 6
reason_number memory_read_fault = 7
reason_number memory_write_fault = 8
reason_number ecall = 9
reason_number ebreak = 10

-- class RegisterAllocation (Registers.hpp), less the registers of the cache.
abbrev pub exit_reason : A64R
exit_reason = xreg 0

abbrev pub exit_pc : A64R
exit_pc = xreg 1

abbrev pub memory_base : A64R
memory_base = xreg 1

abbrev pub permissions_base : A64R
permissions_base = xreg 2

abbrev pub memory_size : A64R
memory_size = xreg 3

abbrev pub block_base : A64R
block_base = xreg 4

abbrev pub max_executable_pc : A64R
max_executable_pc = xreg 5

abbrev pub code_base : A64R
code_base = xreg 6

abbrev pub base_pc_reg : A64R
base_pc_reg = xreg 7

abbrev pub a_reg : A64R
a_reg = xreg 8

abbrev pub b_reg : A64R
b_reg = xreg 9

abbrev pub c_reg : A64R
c_reg = xreg 10

-- struct CodegenContext::Exit.
pub record PendingExit : Type 0 where
  pub label : ℕ
  pub reason : ArchExitReason
  pub pc_register : A64R
  pub pc_value : ℕ
  pub snapshot : StateSnapshot

-- `StateSnapshot{}`.
abbrev pub empty_snapshot : StateSnapshot
empty_snapshot = 0 ∷ 0 ∷ 0 ∷ 0 ∷ 0 ∷ 0 ∷ 0 ∷ 0 ∷ 0 ∷ 0 ∷ 0 ∷ 0 ∷ 0 ∷ 0 ∷ 0 ∷ 0 ∷ 0 ∷ []

-- What struct CodeGenerator refers to and does not change while it generates an instruction, with
-- the flags of the code buffer.
pub record Block : Type 0 where
  pub memory : Memory
  pub code_buffer : CodeBuffer
  pub multithreaded : Bool
  pub skip_permission_checks : Bool
  pub single_step : Bool
  pub base_pc : ℕ
  pub current_pc : ℕ

-- What it changes; `pending_exits` begins with the last.
pub record CodeGenerator (a64 : A64) : Type 0 where
  pub pending_exits : List PendingExit
  pub register_cache : RegisterCache a64.base

-- `pc_offset >= -max_pc_delta && pc_offset <= max_pc_delta`.
abbrev pub is_near : ℕ → Bool
is_near pc_offset = leb pc_offset 32767 || leb (2 ^ 64 - 32767) pc_offset

abbrev pub is_zero_register : A64R → Bool
is_zero_register (xreg n) = false
is_zero_register xzr = true

abbrev pub read_of : Register → RegisterToLock
read_of r = record { reg = r; write_only = false }

abbrev pub write_only_of : Register → RegisterToLock
write_only_of r = record { reg = r; write_only = true }

module _ (a64 : A64) where
  abbrev pub with_code : CodeGenerator a64 → a64.base.Code → CodeGenerator a64
  with_code g code =
      let c = g.register_cache in record g { register_cache = record c { as_code = code } }

  abbrev pub emit : CodeGenerator a64 → Call → CodeGenerator a64
  emit g i = with_code g (a64.emit g.register_cache.as_code i)

  abbrev pub emit_all : CodeGenerator a64 → List Call → CodeGenerator a64
  emit_all g [] = g
  emit_all g (i ∷ calls) = emit_all (emit g i) calls

  abbrev pub allocate_label : CodeGenerator a64 → ℕ × CodeGenerator a64
  allocate_label g =
      let (label, code) = a64.allocate_label g.register_cache.as_code in (label, with_code g code)

  -- The functions of the assembler called try_….
  abbrev pub try_op : CodeGenerator a64 → Operation → A64R → A64R → ℕ → Bool × CodeGenerator a64
  try_op g o target a k =
      if a64.encodable o k then (true, emit g (op_i w64 o target a k)) else (false, g)

  -- `flush_current_registers` of the cache.
  abbrev pub flush_current : CodeGenerator a64 → Result (CodeGenerator a64)
  flush_current g = do
    c ← flush_current_registers a64.base g.register_cache
    ok (record g { register_cache = c })

  -- `add_pending_exit`: the register is the zero register if the program counter is known.
  unfoldable pub add_pending_exit :
      CodeGenerator a64 → ℕ → ArchExitReason → Bool → A64R → ℕ → Result (CodeGenerator a64)
  add_pending_exit g label reason flush pc_register pc_value = do
    snapshot ← if flush then take_state_snapshot a64.base g.register_cache else ok empty_snapshot
    ok (record g {
      pending_exits =
          record {
            label = label;
            reason = reason;
            pc_register = pc_register;
            pc_value = pc_value;
            snapshot = snapshot;
          }
          ∷ g.pending_exits;
    })

  -- `register_cache.lock_register(s)` and `unlock_register`; the registers are returned in an array.
  abbrev pub one_of :
      CodeGenerator a64 → RegisterCache a64.base → List A64R → Result (A64R × CodeGenerator a64)
  one_of g c (a ∷ []) = ok (a, record g { register_cache = c })
  one_of g c _ = undefined_behaviour

  abbrev pub two_of :
      CodeGenerator a64
      → RegisterCache a64.base
      → List A64R
      → Result (A64R × A64R × CodeGenerator a64)
  two_of g c (a ∷ b ∷ []) = ok (a, b, record g { register_cache = c })
  two_of g c _ = undefined_behaviour

  abbrev pub three_of :
      CodeGenerator a64
      → RegisterCache a64.base
      → List A64R
      → Result (A64R × A64R × A64R × CodeGenerator a64)
  three_of g c (a ∷ b ∷ d ∷ []) = ok (a, b, d, record g { register_cache = c })
  three_of g c _ = undefined_behaviour

  unfoldable pub lock_one_of :
      Sort → CodeGenerator a64 → RegisterToLock → Result (A64R × CodeGenerator a64)
  lock_one_of std g x = do
    (outs, c) ← lock_registers_internal a64.base std (x ∷ []) g.register_cache
    one_of g c outs

  unfoldable pub lock_two :
      Sort
      → CodeGenerator a64
      → RegisterToLock
      → RegisterToLock
      → Result (A64R × A64R × CodeGenerator a64)
  lock_two std g x y = do
    (outs, c) ← lock_registers_internal a64.base std (x ∷ y ∷ []) g.register_cache
    two_of g c outs

  unfoldable pub lock_three :
      Sort
      → CodeGenerator a64
      → RegisterToLock
      → RegisterToLock
      → RegisterToLock
      → Result (A64R × A64R × A64R × CodeGenerator a64)
  lock_three std g x y z = do
    (outs, c) ← lock_registers_internal a64.base std (x ∷ y ∷ z ∷ []) g.register_cache
    three_of g c outs

  unfoldable pub unlock : CodeGenerator a64 → A64R → Bool → Result (CodeGenerator a64)
  unlock g r make_dirty = do
    c ← unlock_register a64.base g.register_cache r make_dirty
    ok (record g { register_cache = c })

module _ (a64 : A64) (block : Block) where
  -- The immediate is what the assembler is told to add to the program counter of the block, if that
  -- is near.
  abbrev pub immediate_call : A64R → ℕ → Call
  immediate_call target immediate =
      let pc_offset = u64 (immediate + 2 ^ 64 - block.base_pc) in
      if is_near pc_offset && a64.encodable add pc_offset
      then op_i w64 add target base_pc_reg pc_offset
      else macro_mov target immediate

  unfoldable pub load_immediate : CodeGenerator a64 → A64R → ℕ → CodeGenerator a64
  load_immediate g target immediate = emit a64 g (immediate_call target immediate)

  unfoldable pub load_immediate_or_zero : CodeGenerator a64 → A64R → ℕ → A64R × CodeGenerator a64
  load_immediate_or_zero g target immediate =
      if immediate == 0 then (xzr, g) else (target, load_immediate g target immediate)

  unfoldable pub add_offset_to_register :
      CodeGenerator a64 → A64R → A64R → ℕ → A64R × CodeGenerator a64
  add_offset_to_register g xzr scratch_reg offset =
      (scratch_reg, load_immediate g scratch_reg offset)
  add_offset_to_register g (xreg n) scratch_reg offset =
      let (added, g') = try_op a64 g add scratch_reg (xreg n) offset in
      let g'' = load_immediate g' scratch_reg offset in
      if offset == 0
      then (xreg n, g)
      else if added
      then (scratch_reg, g')
      else (scratch_reg, emit a64 g'' (op w64 add scratch_reg (xreg n) scratch_reg))

  -- `generate_exit(reason, pc)` for a program counter that is known, and for one in a register.
  unfoldable pub generate_exit : CodeGenerator a64 → ArchExitReason → ℕ → Result (CodeGenerator a64)
  generate_exit g reason pc = do
    g' ← flush_current a64 g
    let at_pc = load_immediate g' exit_pc pc
    ok (emit a64 (load_immediate at_pc exit_reason (reason_number reason)) ret)

  unfoldable pub generate_exit_to :
      CodeGenerator a64 → ArchExitReason → A64R → Result (CodeGenerator a64)
  generate_exit_to g reason pc = do
    g' ← flush_current a64 g
    let at_pc = emit a64 g' (mov exit_pc pc)
    ok (emit a64 (load_immediate at_pc exit_reason (reason_number reason)) ret)

  -- The body of the loop of `generate_pending_exits`.
  unfoldable pub generate_pending_exit : CodeGenerator a64 → PendingExit → CodeGenerator a64
  generate_pending_exit g e =
      let labelled = emit a64 g (insert_label e.label) in
      let flushed = record labelled {
        register_cache = flush_registers a64.base labelled.register_cache e.snapshot;
      } in
      let at_pc =
        if is_zero_register e.pc_register
        then load_immediate flushed exit_pc e.pc_value
        else emit a64 flushed (mov exit_pc e.pc_register) in
      emit a64 (load_immediate at_pc exit_reason (reason_number e.reason)) ret

  -- From the first pending exit, which is at the end of the list, to the last.
  unfoldable pub generate_exits_of : List PendingExit → CodeGenerator a64 → CodeGenerator a64
  generate_exits_of [] g = g
  generate_exits_of (e ∷ earlier) g = generate_pending_exit (generate_exits_of earlier g) e

  unfoldable pub generate_pending_exits : CodeGenerator a64 → CodeGenerator a64
  generate_pending_exits g = generate_exits_of g.pending_exits g
