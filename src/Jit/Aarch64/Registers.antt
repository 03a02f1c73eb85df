-- ===== src/Jit/Aarch64/Registers.antt =====
-- The code that src/vm/jit/aarch64/CodeGenerator.cpp generates for an instruction with three
-- registers computes what the instruction does.
use riscv64_emulator.Prelude.{
  ℕ, ◌^◌, ◌<◌, ◌≡◌, ◌≢◌, ◌⊎◌, inl, inr, refl, sym, subst, arith, true, false, List, [], ◌∷◌, some,
  ltb, ◌==◌, if◌then◌else◌, Bool-cases,
}
use riscv64_emulator.Prelude.Word.{signed, ltℤ, to_word}
use riscv64_emulator.Prelude.Result.{Result, ok}
use riscv64_emulator.Cpu.{zero_reg}
use riscv64_emulator.Instruction.{Instruction, type_of, rd, rs1, rs2}
use riscv64_emulator.Instruction.Kinds.{InstructionType as IT}
use riscv64_emulator.Interpreter.Values.{IsRegister}
use riscv64_emulator.Interpreter.Manual.{manual}
use riscv64_emulator.Jit.Assembler.{A64R, xreg, Sort}
use riscv64_emulator.Jit.RegisterCache.{host, update}
use riscv64_emulator.Jit.A64.{A64, Call, cmp, cset, w64, holds}
use riscv64_emulator.Jit.Aarch64.{
  CodeGenerator, Block, read_of, write_only_of, emit_all, lock_three,
}
use riscv64_emulator.Jit.Aarch64.Emitted.{run}
use riscv64_emulator.Jit.Aarch64.Computing.{Computes, register_calls-Computes}
use riscv64_emulator.Jit.Aarch64.Ready.{Ready, Stands-ne_scratch}
use riscv64_emulator.Jit.Aarch64.Held.{lock_three-Held}
use riscv64_emulator.Jit.Aarch64.Unlocked.{Writes, emit_all-Writes, unlock_three-Unlocked}
use riscv64_emulator.Jit.Aarch64.Selection.{register_calls, less_condition}
use riscv64_emulator.Jit.Aarch64.Arithmetic.{generate_three, generate_register, generate_compare}
use riscv64_emulator.Jit.Aarch64.Instructions.{generate, generate_instruction}

-- Instructions that compute a value from two registers.
abbrev pub IsThree : IT → Type 0
IsThree IT.slt = Unit
IsThree IT.sltu = Unit
IsThree t = IsRegister t

-- The value.
abbrev pub computed : IT → ℕ → ℕ → ℕ
computed IT.slt a b = if ltℤ (signed 64 a) (signed 64 b) then 1 else 0
computed IT.sltu a b = if ltb a b then 1 else 0
computed t a b = to_word 64 (manual t a b)

-- A write to register zero has no effect.
abbrev pub written : (ℕ → ℕ) → ℕ → ℕ → ℕ → ℕ
written guest d v = if d == zero_reg then guest else update guest d v

module _ (a64 : A64) (std : Sort) (block : Block) (guest : ℕ → ℕ) (i : Instruction)
    (g g1 : CodeGenerator a64) (x y dest : A64R) (zero_guest : guest 0 ≡ 0)
    (bound : (q : ℕ) → guest q < 2 ^ 64)
    (ready : Ready a64.base block.base_pc guest g.register_cache) (general : rd i ≢ 0)
    (locked : lock_three a64 std g (read_of (rs1 i)) (read_of (rs2 i)) (write_only_of (rd i))
      ≡ ok (x, y, dest, g1)) where
  abbrev pub Done : ℕ → CodeGenerator a64 → Type 0
  Done v g' =
      Ready a64.base block.base_pc (update guest (rd i) v) g'.register_cache
      × (g'.pending_exits ≡ g.pending_exits)

  pub generate_three-Done :
      (choose : A64R → A64R → A64R → Result (List Call)) (v : ℕ → ℕ → ℕ)
      → Computes choose v
      → (g' : CodeGenerator a64) × (generate_three a64 std block choose i g ≡ ok g')
        × Done (v (guest (rs1 i)) (guest (rs2 i))) g'
  unfolding generate_three
  generate_three-Done choose v computes =
      let pc = block.base_pc in
      let (held, ox, oy) =
        lock_three-Held a64 pc guest std g ready zero_guest (rd i) (rs1 i) (rs2 i) x y dest g1
          general locked in
      let (calls, chosen, puts) =
        computes (host held.slot) x y
          (Stands-ne_scratch a64.base pc guest g1.register_cache x (rs1 i) ox.stands)
          (Stands-ne_scratch a64.base pc guest g1.register_cache y (rs2 i) oy.stands) in
      let w = v (guest (rs1 i)) (guest (rs2 i)) in
      let result : (n : ℕ)
          → n ≢ 8
          → run calls (a64.base.value g1.register_cache.as_code) n
            ≡ update (a64.base.value g1.register_cache.as_code) (host held.slot) w n =
        λ n ne.
          rw (ox.holds_value, oy.holds_value) at
            (puts.result (a64.base.value g1.register_cache.as_code) n
              (rw ox.holds_value (bound (rs1 i))) (rw oy.holds_value (bound (rs2 i))) ne) in
      let writes = emit_all-Writes a64 (host held.slot) w g1 calls puts.plain result in
      let (g3, g4, g', e3, e4, e', u) =
        unlock_three-Unlocked a64 pc guest (rd i) g g1 (emit_all a64 g1 calls) dest w held
          (subst (λ r. Writes a64 r w g1 (emit_all a64 g1 calls)) (sym held.is_slot) writes) x y
          (rs1 i) (rs2 i) ox oy in
      let chosen' : choose dest x y ≡ ok calls = rw held.is_slot chosen in
      (g', rw (locked, chosen', e3, e4, e') refl, (u.ready, u.exits))

  generate_register-Done :
      (t : IT)
      → IsRegister t
      → (g' : CodeGenerator a64) × (generate_register a64 std block t i g ≡ ok (true, g'))
        × Done (to_word 64 (manual t (guest (rs1 i)) (guest (rs2 i)))) g'
  unfolding generate_register
  generate_register-Done t h =
      let (g', e, done) =
        generate_three-Done (λ d a b. register_calls d a b t) (λ a b. to_word 64 (manual t a b))
          (register_calls-Computes t h) in
      let some_dest : rd i == zero_reg ≡ false = ground arith in (g', rw (some_dest, e) refl, done)

  -- The comparison's flags are read by the next instruction.
  generate_compare-Done :
      (t : IT) (v : ℕ)
      → v ≡ (if holds (less_condition t) (guest (rs1 i)) (guest (rs2 i)) then 1 else 0)
      → (g' : CodeGenerator a64) × (generate_compare a64 std block t i g ≡ ok (true, g'))
        × Done v g'
  unfolding generate_compare
  generate_compare-Done t v is_v =
      let pc = block.base_pc in
      let (held, ox, oy) =
        lock_three-Held a64 pc guest std g ready zero_guest (rd i) (rs1 i) (rs2 i) x y dest g1
          general locked in
      let code = g1.register_cache.as_code in
      let cond = less_condition t in
      let g2 = emit_all a64 g1 (cmp w64 x y ∷ cset dest cond ∷ []) in
      let writes : Writes a64 dest v g1 g2 = record {
        code = a64.emit (a64.emit code (cmp w64 x y)) (cset dest cond);
        only_code = refl;
        values = λ k n e ne. rw e (
            rw (ox.holds_value, oy.holds_value, ← is_v) at
              (a64.value-cset code x y (xreg k) cond n));
        tables = λ q. a64.table-cset code x y dest cond q;
      } in
      let (g3, g4, g', e3, e4, e', u) =
        unlock_three-Unlocked a64 pc guest (rd i) g g1 g2 dest v held writes x y (rs1 i) (rs2 i) ox
          oy in
      let some_dest : rd i == zero_reg ≡ false = ground arith in
      (g', rw (some_dest, locked, e3, e4, e') refl, (u.ready, u.exits))

-- A type for three registers is generated by one of the two.
generate-three :
    (a64 : A64) (std : Sort) (block : Block) (i : Instruction) (g : CodeGenerator a64) (t : IT)
    → IsThree t
    → ((IsRegister t
          × (generate a64 std block i g t ≡ generate_register a64 std block t i g)
          × (computed t ≡ (λ a b. to_word 64 (manual t a b))))
        ⊎ ((generate a64 std block i g t ≡ generate_compare a64 std block t i g)
            × ((a b : ℕ) → computed t a b ≡ (if holds (less_condition t) a b then 1 else 0))))
unfolding generate
generate-three a64 std block i g IT.slt h = inr (refl, λ a b. refl)
generate-three a64 std block i g IT.sltu h = inr (refl, λ a b. refl)
generate-three a64 std block i g IT.add h = inl (tt, refl, refl)
generate-three a64 std block i g IT.sub h = inl (tt, refl, refl)
generate-three a64 std block i g IT.xor h = inl (tt, refl, refl)
generate-three a64 std block i g IT.or h = inl (tt, refl, refl)
generate-three a64 std block i g IT.and h = inl (tt, refl, refl)
generate-three a64 std block i g IT.sll h = inl (tt, refl, refl)
generate-three a64 std block i g IT.srl h = inl (tt, refl, refl)
generate-three a64 std block i g IT.sra h = inl (tt, refl, refl)
generate-three a64 std block i g IT.addw h = inl (tt, refl, refl)
generate-three a64 std block i g IT.subw h = inl (tt, refl, refl)
generate-three a64 std block i g IT.sllw h = inl (tt, refl, refl)
generate-three a64 std block i g IT.srlw h = inl (tt, refl, refl)
generate-three a64 std block i g IT.sraw h = inl (tt, refl, refl)
generate-three a64 std block i g _ h = absurd h

-- An instruction on three registers whose destination is not register zero can lock them.
abbrev pub CanLock : (a64 : A64) → Sort → CodeGenerator a64 → Instruction → Type 0
CanLock a64 std g i =
    rd i ≢ 0
    → (x y dest : A64R) × (g1 : CodeGenerator a64) × (lock_three a64 std g (read_of (rs1 i))
          (read_of (rs2 i)) (write_only_of (rd i))
        ≡ ok (x, y, dest, g1))

without_dest :
    (a64 : A64) (std : Sort) (block : Block) (i : Instruction) (g : CodeGenerator a64) (t : IT)
    → IsThree t
    → rd i ≡ 0
    → generate a64 std block i g t ≡ ok (true, g)
unfolding generate_register generate_compare
without_dest a64 std block i g t h z = elim (generate-three a64 std block i g t h) [
  | inl (r, e, v) ↦ rw (e, z) refl
  | inr (e, v) ↦ rw (e, z) refl
]

-- The code generated for add, sub, xor, or, and, the shifts by a register, their 32-bit forms, slt
-- and sltu: if the register cache holds the guest's registers, which are 64-bit values with 0 in
-- register zero, and the three registers can be locked unless the destination is register zero, code
-- is generated, the block goes on, no exit is added, and the cache then holds the guest's registers
-- with the destination changed to the value that the manual gives.
pub generate_instruction-three :
    (a64 : A64) (std : Sort) (block : Block) (guest : ℕ → ℕ) (i : Instruction)
    (g : CodeGenerator a64) (t : IT)
    → type_of i ≡ some t
    → IsThree t
    → guest 0 ≡ 0
    → ((q : ℕ) → guest q < 2 ^ 64)
    → Ready a64.base block.base_pc guest g.register_cache
    → CanLock a64 std g i
    → (g' : CodeGenerator a64) × (generate_instruction a64 std block i g ≡ ok (true, g'))
      × Ready a64.base block.base_pc
          (written guest (rd i) (computed t (guest (rs1 i)) (guest (rs2 i))))
          g'.register_cache
      × (g'.pending_exits ≡ g.pending_exits)
unfolding generate_instruction
generate_instruction-three a64 std block guest i g t typed h zero_guest bound ready can =
    elim (Bool-cases (rd i == zero_reg)) [
      | inl no_dest ↦
          (g, rw typed (without_dest a64 std block i g t h (ground arith)), rw no_dest ready, refl)
      | inr some_dest ↦
          let general : rd i ≢ 0 = ground arith in
          let (x, y, dest, g1, locked) = can general in
          elim (generate-three a64 std block i g t h) [
            | inl (r, e, v) ↦
                let (g', e', done) =
                  generate_register-Done a64 std block guest i g g1 x y dest zero_guest bound ready
                    general locked t r in
                (g', rw (typed, e) e', rw (some_dest, v) done.0, done.1)
            | inr (e, v) ↦
                let (g', e', done) =
                  generate_compare-Done a64 std block guest i g g1 x y dest zero_guest bound ready
                    general locked t _ (v (guest (rs1 i)) (guest (rs2 i))) in
                (g', rw (typed, e) e', rw some_dest done.0, done.1)
          ]
    ]
