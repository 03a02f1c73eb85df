-- ===== src/Interpreter/Stores.antt =====
-- A whole step of src/vm/Interpreter.cpp on the encodings of the stores.
use riscv64_emulator.Prelude.{
  ℕ, zero, suc, ◌+◌, ◌-◌, ap, sym, List, length, get_or, ◌%◌, ◌/◌, ◌^◌, ◌<◌, ◌≤◌, ◌⊎◌, ◌≡◌, ◌≢◌,
  refl, ◌∙◌, arith, true, false,
}
use riscv64_emulator.Prelude.Word.{u64}
use riscv64_emulator.Prelude.Result.{ok}
use riscv64_emulator.Cpu.{reg, pc, pc_reg}
use riscv64_emulator.Cpu.Laws.{reg-set_reg}
use riscv64_emulator.Memory.{Memory, flag_write, to_bytes, write_value}
use riscv64_emulator.Memory.Bytes.{length-to_bytes, div-pow256, overwrite_outside}
use riscv64_emulator.Memory.Accepts.{CanAccess}
use riscv64_emulator.Memory.Access.{stored, write_granted, write_refused}
use riscv64_emulator.Exit.{Reason}
use riscv64_emulator.Instruction.{Instruction, set_decoded}
use riscv64_emulator.Instruction.Kinds.{InstructionType as IT}
use riscv64_emulator.Instruction.Packing.{rs1-set_decoded, rs2-set_decoded, imm-set_decoded}
use riscv64_emulator.Instruction.Encoding.{Fits, encoding_of, encode}
use riscv64_emulator.Interpreter.{State, store, run_store, execute, step, stop_at, advance}
use riscv64_emulator.Interpreter.Values.{IsStore}
use riscv64_emulator.Interpreter.Steps.{IsValid}
use riscv64_emulator.Interpreter.Step.{Fetches, step-encode}
use riscv64_emulator.Interpreter.Accesses.{width, width-lt, accessed, Faulted}

store-width :
    (t : IT) (m : Memory) (address value : ℕ)
    → IsStore t
    → store t m address value ≡ write_value m address flag_write (width t) value
unfolding store
store-width IT.sb m address value h = refl
store-width IT.sh m address value h = refl
store-width IT.sw m address value h = refl
store-width IT.sd m address value h = refl
store-width _ m address value h = absurd h

execute-store :
    (c n : ℕ) (i : Instruction) (s : State) (t : IT)
    → IsStore t
    → execute c n i s t ≡ run_store c n i s t
unfolding execute
execute-store c n i s IT.sb h = refl
execute-store c n i s IT.sh h = refl
execute-store c n i s IT.sw h = refl
execute-store c n i s IT.sd h = refl
execute-store c n i s _ h = absurd h

IsStore-ne : (t : IT) → IsStore t → t ≢ IT.sraiw
IsStore-ne IT.sraiw h = absurd h
IsStore-ne _ h = cc

-- The bytes of the value are in the memory from the address on, lowest first, and the rest of the
-- memory, its permissions, and the registers are as they were, but for the program counter.
pub record Stored (s s' : State) (address n value : ℕ) : Type 0 where
  pub bytes : (i : ℕ) → i < n → s'.memory.raw (address + i) ≡ value / 256 ^ i % 256
  pub others : (j : ℕ) → (j < address) ⊎ (address + n ≤ j) → s'.memory.raw j ≡ s.memory.raw j
  pub same_size : s'.memory.size ≡ s.memory.size
  pub same_blocks : s'.memory.block_count ≡ s.memory.block_count
  pub same_exit : s'.exit ≡ s.exit
  pub next_pc : pc s'.cpu ≡ u64 (pc s.cpu + 4)
  pub same_registers : (q : ℕ) → q ≢ pc_reg → reg s'.cpu q ≡ reg s.cpu q

get_or-to_bytes : (n value i : ℕ) → i < n → get_or (to_bytes n value) i 0 ≡ value / 256 ^ i % 256
get_or-to_bytes zero value i lt = absurd (omega arith)
get_or-to_bytes (suc n) value zero lt = ground arith
get_or-to_bytes (suc n) value (suc i) lt =
    get_or-to_bytes n (value / 256) i (omega arith)
    ∙ ap (λ (x : ℕ). x % 256) (sym (div-pow256 value i))

module _ (s : State) (t : IT) (s1 s2 k : ℕ) (v : IsValid s) (h : IsStore t)
    (fits : Fits (encoding_of t) 0 s1 s2 k) (h1 : s1 < 32) (h2 : s2 < 32)
    (f : Fetches s (encode t 0 s1 s2 k)) where
  abbrev store_decoded : Instruction
  store_decoded = set_decoded t 0 s1 s2 k

  step-run_store : step s ≡ run_store (pc s.cpu) (u64 (pc s.cpu + 4)) store_decoded s t
  step-run_store =
      step-encode s t 0 s1 s2 k (IsStore-ne t h) fits (omega arith) h1 h2 f
      ∙ execute-store (pc s.cpu) (u64 (pc s.cpu + 4)) store_decoded s t h

  abbrev value_bytes : List ℕ
  value_bytes = to_bytes (width t) (reg s.cpu s2)

  step-stored :
      CanAccess s.memory (accessed s s1 k) (width t) flag_write
      → step s
        ≡ advance
            (u64 (pc s.cpu + 4))
            (record s { memory = stored s.memory (accessed s s1 k) value_bytes })
  unfolding run_store write_value
  step-stored can =
      let len : length value_bytes ≡ width t = length-to_bytes (width t) (reg s.cpu s2) in
      let done =
        write_granted s.memory v.valid_memory (accessed s s1 k) flag_write value_bytes
          (rw len can) in
      step-run_store
      ∙ rw (
        rs1-set_decoded t 0 s1 s2 k (omega arith) h1 h2,
        rs2-set_decoded t 0 s1 s2 k (omega arith) h1 h2,
        imm-set_decoded t 0 s1 s2 k,
        store-width t s.memory (accessed s s1 k) (reg s.cpu s2) h,
        done,
      )

  step-store_refused :
      ¬ CanAccess s.memory (accessed s s1 k) (width t) flag_write
      → step s ≡ stop_at Reason.memory_write_fault (accessed s s1 k) s2 s
  unfolding run_store write_value
  step-store_refused cannot =
      let len : length value_bytes ≡ width t = length-to_bytes (width t) (reg s.cpu s2) in
      let done =
        write_refused s.memory v.valid_memory (accessed s s1 k) flag_write value_bytes (omega arith)
          (omega (arith, len, width-lt t)) (rw len cannot) in
      step-run_store
      ∙ rw (
        rs1-set_decoded t 0 s1 s2 k (omega arith) h1 h2,
        rs2-set_decoded t 0 s1 s2 k (omega arith) h1 h2,
        imm-set_decoded t 0 s1 s2 k,
        store-width t s.memory (accessed s s1 k) (reg s.cpu s2) h,
        done,
      )

-- From a valid state, a step on the encoding of a store to an address whose bytes can be written
-- leaves the low bytes of the second source register there, lowest first, and changes nothing else
-- but the program counter; where they cannot be written, it stops with the write fault, the address
-- and that register in the exit, and changes nothing else.
pub step-store :
    (s : State) (t : IT) (s1 s2 k : ℕ)
    → IsValid s
    → IsStore t
    → Fits (encoding_of t) 0 s1 s2 k
    → s1 < 32
    → s2 < 32
    → Fetches s (encode t 0 s1 s2 k)
    → (CanAccess s.memory (accessed s s1 k) (width t) flag_write
        → (s' : State) × (step s ≡ ok (true, s'))
          × Stored s s' (accessed s s1 k) (width t) (reg s.cpu s2))
      × (¬ CanAccess s.memory (accessed s s1 k) (width t) flag_write
          → (s' : State) × (step s ≡ ok (false, s'))
            × Faulted s s' Reason.memory_write_fault (accessed s s1 k) s2)
unfolding pc
step-store s t s1 s2 k v h fits h1 h2 f = (
  λ can. (
    _,
    step-stored s t s1 s2 k v h fits h1 h2 f can,
    record {
      bytes = λ i lt.
          let at_i = get_or-to_bytes (width t) (reg s.cpu s2) i lt in
          let here : accessed s s1 k + i - accessed s s1 k ≡ i = omega arith in
          ground (arith, len, ap (λ (j : ℕ). get_or value j 0) here, at_i);
      others = λ j apart.
          overwrite_outside s.memory.raw (accessed s s1 k) (length value) (λ i. get_or value i 0) j
            (rw len apart);
      same_size = refl;
      same_blocks = refl;
      same_exit = refl;
      next_pc = ground (arith, reg-set_reg s.cpu pc_reg pc_reg (u64 (pc s.cpu + 4)));
      same_registers = λ q ne. ground (arith, reg-set_reg s.cpu pc_reg q (u64 (pc s.cpu + 4)));
    },
  ),
  λ cannot. (
    _,
    step-store_refused s t s1 s2 k v h fits h1 h2 f cannot,
    record { same_memory = refl; same_cpu = refl; filled = refl },
  ),
)
  where
    value : List ℕ
    value = to_bytes (width t) (reg s.cpu s2)

    len : length value ≡ width t
    len = length-to_bytes (width t) (reg s.cpu s2)
