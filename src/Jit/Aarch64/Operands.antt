-- ===== src/Jit/Aarch64/Operands.antt =====
-- The code that src/vm/jit/aarch64/CodeGenerator.cpp generates for an instruction on a register and
-- an immediate or a shift amount computes what the instruction does.
use riscv64_emulator.Prelude.{
  ℕ, ◌-◌, ◌/◌, ◌^◌, ◌≤◌, ◌<◌, ◌≡◌, ◌≢◌, refl, sym, subst, arith, true, false, List, ◌==◌,
}
use riscv64_emulator.Prelude.Word.{u32}
use riscv64_emulator.Prelude.Result.{ok, ◌>>=◌, >>=-eq-ok}
use riscv64_emulator.Cpu.{zero_reg}
use riscv64_emulator.Instruction.{Instruction, rd, rs1, imm, shamt}
use riscv64_emulator.Instruction.Kinds.{InstructionType as IT}
use riscv64_emulator.Interpreter.Values.{IsImmediate, IsShift}
use riscv64_emulator.Jit.Assembler.{A64R, xreg, Sort}
use riscv64_emulator.Jit.RegisterCache.{host, update}
use riscv64_emulator.Jit.A64.{A64, Call, read}
use riscv64_emulator.Jit.Aarch64.{
  CodeGenerator, Block, read_of, write_only_of, emit_all, lock_two, unlock,
}
use riscv64_emulator.Jit.Aarch64.Emitted.{run}
use riscv64_emulator.Jit.Aarch64.Computing.{manual_word}
use riscv64_emulator.Jit.Aarch64.Ready.{Ready, Stands-ne_scratch}
use riscv64_emulator.Jit.Aarch64.Held.{Held, Operand, lock_two-Held}
use riscv64_emulator.Jit.Aarch64.Unlocked.{Writes, emit_all-Writes, unlock_two-Unlocked}
use riscv64_emulator.Jit.Aarch64.Selection.{shift_calls}
use riscv64_emulator.Jit.Aarch64.Arithmetic.{
  generate_immediate, generate_shift, try_immediate, finish_immediate,
}
use riscv64_emulator.Jit.Aarch64.Immediates.{PutsImmediate}
use riscv64_emulator.Jit.Aarch64.Additions.{try_immediate-PutsImmediate}

div-le : (a b : ℕ) → a / b ≤ a
div-le a b = grind arith

-- The inner switch for shifts by an immediate.
shift_calls-PutsImmediate :
    (a64 : A64) (block : Block) (t : IT) (d k : ℕ) (x : A64R)
    → IsShift t k
    → (calls : List Call) × (shift_calls (xreg d) x k t ≡ ok calls)
      × PutsImmediate a64 block d x k (manual_word t) calls
unfolding shift_calls
shift_calls-PutsImmediate a64 block IT.slli d k x h =
    (_, refl, record { plain = (tt, tt); result = λ registers n based hx ne. ground arith })
shift_calls-PutsImmediate a64 block IT.srli d k x h = (
  _,
  refl,
  record {
    plain = (tt, tt);
    result = λ registers n based hx ne. ground (arith, div-le (read registers x) (2 ^ k));
  },
)
shift_calls-PutsImmediate a64 block IT.srai d k x h = (
  _,
  refl,
  record {
    plain = (tt, tt);
    result = λ registers n based hx ne.
        ground (
          arith,
          div-le (read registers x) (2 ^ k),
          div-le (2 ^ 64 - 1 - read registers x) (2 ^ k),
        );
  },
)
shift_calls-PutsImmediate a64 block IT.slliw d k x h =
    (_, refl, record { plain = (tt, (tt, tt)); result = λ registers n based hx ne. ground arith })
shift_calls-PutsImmediate a64 block IT.srliw d k x h = (
  _,
  refl,
  record {
    plain = (tt, (tt, tt));
    result = λ registers n based hx ne. ground (arith, div-le (u32 (read registers x)) (2 ^ k));
  },
)
shift_calls-PutsImmediate a64 block IT.sraiw d k x h = (
  _,
  refl,
  record {
    plain = (tt, (tt, tt));
    result = λ registers n based hx ne. ground (
      arith,
      div-le (u32 (read registers x)) (2 ^ k),
      div-le (2 ^ 32 - 1 - u32 (read registers x)) (2 ^ k),
    );
  },
)
shift_calls-PutsImmediate a64 block _ d k x h = absurd h

module _ (a64 : A64) (std : Sort) (block : Block) (guest : ℕ → ℕ) (i : Instruction)
    (g g1 : CodeGenerator a64) (x dest : A64R) (zero_guest : guest 0 ≡ 0)
    (bound : (q : ℕ) → guest q < 2 ^ 64)
    (ready : Ready a64.base block.base_pc guest g.register_cache) (general : rd i ≢ 0)
    (locked : lock_two a64 std g (read_of (rs1 i)) (write_only_of (rd i)) ≡ ok (x, dest, g1)) where
  abbrev pub Done : ℕ → CodeGenerator a64 → Type 0
  Done v g' =
      Ready a64.base block.base_pc (update guest (rd i) v) g'.register_cache
      × (g'.pending_exits ≡ g.pending_exits)

  -- Unlocking after instructions that put the result in the destination.
  put-Done :
      (held : Held a64 block.base_pc guest (rd i) g g1 dest)
      (ox : Operand a64 block.base_pc guest g1 x (rs1 i)) (k : ℕ) (v : ℕ → ℕ → ℕ)
      (calls : List Call)
      → PutsImmediate a64 block (host held.slot) x k v calls
      → (g3 g' : CodeGenerator a64) × (unlock a64 (emit_all a64 g1 calls) x false ≡ ok g3)
        × (unlock a64 g3 dest true ≡ ok g')
        × Done (v (guest (rs1 i)) k) g'
  put-Done held ox k v calls puts =
      let w = v (guest (rs1 i)) k in
      let values = a64.base.value g1.register_cache.as_code in
      let result : (n : ℕ) → n ≢ 8 → run calls values n ≡ update values (host held.slot) w n =
        λ n ne.
          rw ox.holds_value at
            (puts.result values n held.holding.based (rw ox.holds_value (bound (rs1 i))) ne) in
      let writes = emit_all-Writes a64 (host held.slot) w g1 calls puts.plain result in
      let (g3, g', e3, e', u) =
        unlock_two-Unlocked a64 block.base_pc guest (rd i) g g1 (emit_all a64 g1 calls) dest w held
          (subst (λ r. Writes a64 r w g1 (emit_all a64 g1 calls)) (sym held.is_slot) writes) x
          (rs1 i) ox in
      (g3, g', e3, e', (u.ready, u.exits))

  pub generate_shift-Done :
      (t : IT)
      → IsShift t (shamt i)
      → (g' : CodeGenerator a64) × (generate_shift a64 std block t i g ≡ ok (true, g'))
        × Done (manual_word t (guest (rs1 i)) (shamt i)) g'
  unfolding generate_shift
  generate_shift-Done t h =
      let (held, ox) =
        lock_two-Held a64 block.base_pc guest std g ready zero_guest (rd i) (rs1 i) x dest g1
          general locked in
      let (calls, chosen, puts) =
        shift_calls-PutsImmediate a64 block t (host held.slot) (shamt i) x h in
      let (g3, g', e3, e', done) = put-Done held ox (shamt i) (manual_word t) calls puts in
      let chosen' : shift_calls dest x (shamt i) t ≡ ok calls = rw held.is_slot chosen in
      let some_dest : rd i == zero_reg ≡ false = ground arith in
      (g', rw (some_dest, locked, chosen', e3, e') refl, done)

  pub generate_immediate-Done :
      (t : IT)
      → IsImmediate t
      → block.base_pc < 2 ^ 64
      → imm i < 2 ^ 64
      → (g' : CodeGenerator a64) × (generate_immediate a64 std block t i g ≡ ok (true, g'))
        × Done (manual_word t (guest (rs1 i)) (imm i)) g'
  unfolding generate_immediate
  generate_immediate-Done t h small hk =
      let pc = block.base_pc in
      let (held, ox) =
        lock_two-Held a64 pc guest std g ready zero_guest (rd i) (rs1 i) x dest g1 general locked in
      let (calls, chosen, puts) =
        try_immediate-PutsImmediate a64 block std small (host held.slot) (imm i) hk t g1 x h
          (Stands-ne_scratch a64.base pc guest g1.register_cache x (rs1 i) ox.stands) in
      let chosen' : ◌>>=◌ {B = CodeGenerator a64} (try_immediate a64 std block t g1 dest x (imm i))
            (finish_immediate a64 std block t dest x (imm i))
          ≡ ok (emit_all a64 g1 calls) =
        rw held.is_slot chosen in
      let (tried, e1, e2) = >>=-eq-ok (try_immediate a64 std block t g1 dest x (imm i)) _ chosen' in
      let (g3, g', e3, e', done) = put-Done held ox (imm i) (manual_word t) calls puts in
      let some_dest : rd i == zero_reg ≡ false = ground arith in
      (g', rw (some_dest, locked, e1, e2, e3, e') refl, done)
