-- ===== src/Interpreter/Steps.antt =====
-- What a step of the interpreter (src/vm/Interpreter.cpp) does to a valid state, on every branch.
use riscv64_emulator.Prelude.{
  ℕ, ◌+◌, ◌-◌, ◌^◌, ◌<◌, ◌≡◌, ◌≢◌, ◌⊎◌, inl, inr, refl, arith, Bool, true, false, Option, none,
  some, if◌then◌else◌,
}
use riscv64_emulator.Prelude.Bits.{bit_and-le}
use riscv64_emulator.Prelude.Word.{u64, sign_extend}
use riscv64_emulator.Prelude.Result.{
  Result, ok, fatal, undefined_behaviour, multiply_high_not_supported,
}
use riscv64_emulator.Cpu.{pc_reg, reg, set_reg}
use riscv64_emulator.Cpu.Laws.{set_reg-IsValid}
use riscv64_emulator.Cpu.Laws as CpuLaws
use riscv64_emulator.Memory.{Memory, flag_read, flag_write, read_value}
use riscv64_emulator.Memory.Accepts as MemoryAccepts
use riscv64_emulator.Memory.Total.{read_value_total, write_value_total}
use riscv64_emulator.Exit.{Reason}
use riscv64_emulator.Instruction.{Instruction, type_of, rd, rs1, rs2, imm, shamt}
use riscv64_emulator.Instruction.Kinds.{InstructionType as IT}
use riscv64_emulator.Instruction.Decoded.{immediate_limit}
use riscv64_emulator.Interpreter.{
  State, stop, advance, write_rd, load, store, rs1_plus_imm, run_branch, run_load, run_store,
  run_immediate, run_shift, run_compare, run_register, run_multiply, execute,
}
use riscv64_emulator.Interpreter.Values.{
  IsBranch, IsImmediate, IsShift, IsRegister, IsMultiply, IsLoad, IsStore, is_undefined_division,
  branch_value, immediate_value, shift_value, register_value, multiply_value,
}

pub record IsValid (s : State) : Type 0 where
  pub valid_memory : MemoryAccepts.IsValid s.memory
  pub valid_cpu : CpuLaws.IsValid s.cpu

-- What the processor executes, `i`, is a division that C++ leaves undefined.
abbrev pub UndefinedDivision : State → Instruction → Type 0
UndefinedDivision s i =
    (t : IT) × (type_of i ≡ some t)
    × (is_undefined_division t (reg s.cpu (rs1 i)) (reg s.cpu (rs2 i)) ≡ true)

-- The ways in which the execution of `i` in `s` may end.
pub data Ends (s : State) (i : Instruction) : Result (Bool × State) → Type 0 where
  goes_on : {s' : State} → IsValid s' → s'.exit ≡ s.exit → Ends s i (ok (true, s'))
  exits :
      {s' : State}
      → s'.memory ≡ s.memory
      → s'.cpu ≡ s.cpu
      → s'.exit.reason ≢ Reason.none
      → Ends s i (ok (false, s'))
  unsupported : Ends s i (fatal multiply_high_not_supported)
  divides_badly : UndefinedDivision s i → Ends s i undefined_behaviour

module _ (s : State) (v : IsValid s) (i : Instruction) (current_pc next_pc : ℕ)
    (current_range : current_pc < 2 ^ 64) (next_range : next_pc < 2 ^ 64) where
  write_rd-Ends : (result : ℕ) → result < 2 ^ 64 → Ends s i (write_rd i next_pc s result)
  write_rd-Ends result h =
      goes_on
        (record {
          valid_memory = v.valid_memory;
          valid_cpu =
              set_reg-IsValid _ pc_reg next_pc (set_reg-IsValid s.cpu (rd i) result v.valid_cpu h)
                next_range;
        })
        refl

  advance-Ends : (target : ℕ) → target < 2 ^ 64 → Ends s i (advance target s)
  advance-Ends target h =
      goes_on
        (record {
          valid_memory = v.valid_memory;
          valid_cpu = set_reg-IsValid s.cpu pc_reg target v.valid_cpu h;
        })
        refl

  jump-Ends :
      (target : ℕ)
      → target < 2 ^ 64
      → Ends s i (advance target (record s { cpu = set_reg s.cpu (rd i) next_pc }))
  jump-Ends target h =
      goes_on
        (record {
          valid_memory = v.valid_memory;
          valid_cpu =
              set_reg-IsValid _ pc_reg target
                (set_reg-IsValid s.cpu (rd i) next_pc v.valid_cpu next_range) h;
        })
        refl

  stop-Ends : (reason : Reason) → reason ≢ Reason.none → Ends s i (stop reason s)
  stop-Ends reason h = exits refl refl h

  run_branch-Ends : (t : IT) → IsBranch t → Ends s i (run_branch current_pc next_pc i s t)
  unfolding run_branch
  run_branch-Ends t h =
      let taken = branch_value t (reg s.cpu (rs1 i)) (reg s.cpu (rs2 i)) h in
      rw taken.1 (advance-Ends _ (target taken.0))
    where
      target : (c : Bool) → (if c then u64 (current_pc + imm i) else next_pc) < 2 ^ 64
      target true = omega arith
      target false = next_range

  run_immediate-Ends :
      (t : IT) → imm i < 2 ^ 64 → IsImmediate t → Ends s i (run_immediate current_pc next_pc i s t)
  unfolding run_immediate
  run_immediate-Ends t hi h =
      let value = immediate_value t (reg s.cpu (rs1 i)) (imm i) (v.valid_cpu.is_64_bit _) hi h in
      rw value.1 (write_rd-Ends value.0 value.2)

  run_shift-Ends : (t : IT) → IsShift t (shamt i) → Ends s i (run_shift current_pc next_pc i s t)
  unfolding run_shift
  run_shift-Ends t h =
      let value = shift_value t (reg s.cpu (rs1 i)) (shamt i) (v.valid_cpu.is_64_bit _) h in
      rw value.1 (write_rd-Ends value.0 value.2)

  run_compare-Ends : (t : IT) (b : ℕ) → Ends s i (run_compare current_pc next_pc i s t b)
  unfolding run_compare
  run_compare-Ends t b = write_rd-Ends _ (ground arith)

  run_register-Ends : (t : IT) → IsRegister t → Ends s i (run_register current_pc next_pc i s t)
  unfolding run_register
  run_register-Ends t h =
      let value =
        register_value t (reg s.cpu (rs1 i)) (reg s.cpu (rs2 i)) (v.valid_cpu.is_64_bit _)
          (v.valid_cpu.is_64_bit _) h in
      rw value.1 (write_rd-Ends value.0 value.2)

  run_multiply-Ends :
      (t : IT)
      → type_of i ≡ some t
      → IsMultiply t
      → Ends s i (run_multiply current_pc next_pc i s t)
  unfolding run_multiply
  run_multiply-Ends t e h =
      elim (multiply_value t (reg s.cpu (rs1 i)) (reg s.cpu (rs2 i)) (v.valid_cpu.is_64_bit _)
        (v.valid_cpu.is_64_bit _) h) [
          | inl (good, value) ↦ rw value.1 (write_rd-Ends value.0 value.2)
          | inr (bad, undef) ↦ rw undef (divides_badly (t, e, bad))
        ]

  address_range : rs1_plus_imm s i < 2 ^ 64
  address_range = omega arith

  -- A load gives nothing or a 64-bit value.
  abbrev Loads : Result (Option ℕ) → Type 0
  Loads r = (r ≡ ok none) ⊎ ((x : ℕ) × (r ≡ ok (some x)) × (x < 2 ^ 64))

  raw_load :
      (n : ℕ)
      → n < 2 ^ 63
      → (read_value s.memory (rs1_plus_imm s i) flag_read n ≡ ok none)
        ⊎ ((x : ℕ) × (read_value s.memory (rs1_plus_imm s i) flag_read n ≡ ok (some x))
            × (x < 256 ^ n))
  raw_load n h = read_value_total s.memory v.valid_memory _ flag_read n address_range h

  load_total : (t : IT) → IsLoad t → Loads (load t s.memory (rs1_plus_imm s i))
  unfolding load
  load_total IT.lb h = elim (raw_load 1 (omega arith)) [
    | inl e ↦ inl (rw e)
    | inr (x, e, lt) ↦ inr (sign_extend 8 x, rw e, ground arith)
  ]
  load_total IT.lh h = elim (raw_load 2 (omega arith)) [
    | inl e ↦ inl (rw e)
    | inr (x, e, lt) ↦ inr (sign_extend 16 x, rw e, ground arith)
  ]
  load_total IT.lw h = elim (raw_load 4 (omega arith)) [
    | inl e ↦ inl (rw e)
    | inr (x, e, lt) ↦ inr (sign_extend 32 x, rw e, ground arith)
  ]
  load_total IT.ld h = raw_load 8 (omega arith)
  load_total IT.lbu h = elim (raw_load 1 (omega arith)) [
    | inl e ↦ inl e
    | inr (x, e, lt) ↦ inr (x, e, omega arith)
  ]
  load_total IT.lhu h = elim (raw_load 2 (omega arith)) [
    | inl e ↦ inl e
    | inr (x, e, lt) ↦ inr (x, e, omega arith)
  ]
  load_total IT.lwu h = elim (raw_load 4 (omega arith)) [
    | inl e ↦ inl e
    | inr (x, e, lt) ↦ inr (x, e, omega arith)
  ]
  load_total _ h = absurd h

  run_load-Ends : (t : IT) → IsLoad t → Ends s i (run_load current_pc next_pc i s t)
  unfolding run_load
  run_load-Ends t h = elim (load_total t h) [
    | inl e ↦ rw e (exits refl refl (cc))
    | inr (x, e, lt) ↦ rw e (write_rd-Ends x lt)
  ]

  store_total :
      (t : IT) (value : ℕ)
      → IsStore t
      → (store t s.memory (rs1_plus_imm s i) value ≡ ok (false, s.memory))
        ⊎ ((m' : Memory) × (store t s.memory (rs1_plus_imm s i) value ≡ ok (true, m'))
            × MemoryAccepts.IsValid m')
  unfolding store
  store_total IT.sb value h =
      write_value_total s.memory v.valid_memory _ flag_write 1 value address_range (omega arith)
  store_total IT.sh value h =
      write_value_total s.memory v.valid_memory _ flag_write 2 value address_range (omega arith)
  store_total IT.sw value h =
      write_value_total s.memory v.valid_memory _ flag_write 4 value address_range (omega arith)
  store_total IT.sd value h =
      write_value_total s.memory v.valid_memory _ flag_write 8 value address_range (omega arith)
  store_total _ value h = absurd h

  run_store-Ends : (t : IT) → IsStore t → Ends s i (run_store current_pc next_pc i s t)
  unfolding run_store
  run_store-Ends t h = elim (store_total t (reg s.cpu (rs2 i)) h) [
    | inl e ↦ rw e (exits refl refl (cc))
    | inr (m', e, valid) ↦ rw e (
        goes_on
          (record {
            valid_memory = valid;
            valid_cpu = set_reg-IsValid s.cpu pc_reg next_pc v.valid_cpu next_range;
          })
          refl)
  ]

  -- The outer switch, for an instruction that the decoder made.
  pub execute-Ends :
      (t : IT)
      → type_of i ≡ some t
      → imm i < 2 ^ 64
      → shamt i < immediate_limit t
      → Ends s i (execute current_pc next_pc i s t)
  unfolding execute
  execute-Ends IT.lui e hi hs = write_rd-Ends _ hi
  execute-Ends IT.auipc e hi hs = write_rd-Ends _ (omega arith)
  execute-Ends IT.jal e hi hs = jump-Ends _ (omega arith)
  execute-Ends IT.jalr e hi hs =
      jump-Ends _ (omega (arith, bit_and-le (rs1_plus_imm s i) (2 ^ 64 - 2), address_range))
  execute-Ends IT.beq e hi hs = run_branch-Ends IT.beq tt
  execute-Ends IT.bne e hi hs = run_branch-Ends IT.bne tt
  execute-Ends IT.blt e hi hs = run_branch-Ends IT.blt tt
  execute-Ends IT.bge e hi hs = run_branch-Ends IT.bge tt
  execute-Ends IT.bltu e hi hs = run_branch-Ends IT.bltu tt
  execute-Ends IT.bgeu e hi hs = run_branch-Ends IT.bgeu tt
  execute-Ends IT.lb e hi hs = run_load-Ends IT.lb tt
  execute-Ends IT.lh e hi hs = run_load-Ends IT.lh tt
  execute-Ends IT.lw e hi hs = run_load-Ends IT.lw tt
  execute-Ends IT.ld e hi hs = run_load-Ends IT.ld tt
  execute-Ends IT.lbu e hi hs = run_load-Ends IT.lbu tt
  execute-Ends IT.lhu e hi hs = run_load-Ends IT.lhu tt
  execute-Ends IT.lwu e hi hs = run_load-Ends IT.lwu tt
  execute-Ends IT.sb e hi hs = run_store-Ends IT.sb tt
  execute-Ends IT.sh e hi hs = run_store-Ends IT.sh tt
  execute-Ends IT.sw e hi hs = run_store-Ends IT.sw tt
  execute-Ends IT.sd e hi hs = run_store-Ends IT.sd tt
  execute-Ends IT.addi e hi hs = run_immediate-Ends IT.addi hi tt
  execute-Ends IT.xori e hi hs = run_immediate-Ends IT.xori hi tt
  execute-Ends IT.ori e hi hs = run_immediate-Ends IT.ori hi tt
  execute-Ends IT.andi e hi hs = run_immediate-Ends IT.andi hi tt
  execute-Ends IT.addiw e hi hs = run_immediate-Ends IT.addiw hi tt
  execute-Ends IT.slli e hi hs = run_shift-Ends IT.slli hs
  execute-Ends IT.srli e hi hs = run_shift-Ends IT.srli hs
  execute-Ends IT.srai e hi hs = run_shift-Ends IT.srai hs
  execute-Ends IT.slliw e hi hs = run_shift-Ends IT.slliw hs
  execute-Ends IT.srliw e hi hs = run_shift-Ends IT.srliw hs
  execute-Ends IT.sraiw e hi hs = run_shift-Ends IT.sraiw hs
  execute-Ends IT.add e hi hs = run_register-Ends IT.add tt
  execute-Ends IT.sub e hi hs = run_register-Ends IT.sub tt
  execute-Ends IT.xor e hi hs = run_register-Ends IT.xor tt
  execute-Ends IT.or e hi hs = run_register-Ends IT.or tt
  execute-Ends IT.and e hi hs = run_register-Ends IT.and tt
  execute-Ends IT.sll e hi hs = run_register-Ends IT.sll tt
  execute-Ends IT.srl e hi hs = run_register-Ends IT.srl tt
  execute-Ends IT.sra e hi hs = run_register-Ends IT.sra tt
  execute-Ends IT.addw e hi hs = run_register-Ends IT.addw tt
  execute-Ends IT.subw e hi hs = run_register-Ends IT.subw tt
  execute-Ends IT.sllw e hi hs = run_register-Ends IT.sllw tt
  execute-Ends IT.srlw e hi hs = run_register-Ends IT.srlw tt
  execute-Ends IT.sraw e hi hs = run_register-Ends IT.sraw tt
  execute-Ends IT.mul e hi hs = run_multiply-Ends IT.mul e tt
  execute-Ends IT.mulw e hi hs = run_multiply-Ends IT.mulw e tt
  execute-Ends IT.div e hi hs = run_multiply-Ends IT.div e tt
  execute-Ends IT.divw e hi hs = run_multiply-Ends IT.divw e tt
  execute-Ends IT.divu e hi hs = run_multiply-Ends IT.divu e tt
  execute-Ends IT.divuw e hi hs = run_multiply-Ends IT.divuw e tt
  execute-Ends IT.rem e hi hs = run_multiply-Ends IT.rem e tt
  execute-Ends IT.remu e hi hs = run_multiply-Ends IT.remu e tt
  execute-Ends IT.remw e hi hs = run_multiply-Ends IT.remw e tt
  execute-Ends IT.remuw e hi hs = run_multiply-Ends IT.remuw e tt
  execute-Ends IT.slt e hi hs = run_compare-Ends IT.slt _
  execute-Ends IT.sltu e hi hs = run_compare-Ends IT.sltu _
  execute-Ends IT.slti e hi hs = run_compare-Ends IT.slti _
  execute-Ends IT.sltiu e hi hs = run_compare-Ends IT.sltiu _
  execute-Ends IT.mulh e hi hs = unsupported
  execute-Ends IT.mulhu e hi hs = unsupported
  execute-Ends IT.mulhsu e hi hs = unsupported
  execute-Ends IT.ecall e hi hs = stop-Ends Reason.ecall (cc)
  execute-Ends IT.ebreak e hi hs = stop-Ends Reason.ebreak (cc)
  execute-Ends IT.undefined e hi hs = stop-Ends Reason.undefined_instruction (cc)
  execute-Ends IT.fence e hi hs = advance-Ends next_pc next_range
