-- ===== src/Interpreter/Loads.antt =====
-- A whole step of src/vm/Interpreter.cpp on the encodings of the loads.
use riscv64_emulator.Prelude.{ℕ, ◌+◌, ◌^◌, ◌<◌, ◌≡◌, ◌≢◌, refl, ◌∙◌, arith, true, false, none, some}
use riscv64_emulator.Prelude.Word.{u64, signed, to_word}
use riscv64_emulator.Prelude.Result.{ok}
use riscv64_emulator.Cpu.{pc}
use riscv64_emulator.Memory.{Memory, flag_read, bytes_at, from_bytes, read_value}
use riscv64_emulator.Memory.Bytes.{from_bytes-lt}
use riscv64_emulator.Memory.Accepts.{CanAccess}
use riscv64_emulator.Memory.Access.{read_granted, read_refused}
use riscv64_emulator.Exit.{Reason}
use riscv64_emulator.Instruction.{Instruction, set_decoded}
use riscv64_emulator.Instruction.Kinds.{InstructionType as IT}
use riscv64_emulator.Instruction.Packing.{rd-set_decoded, rs1-set_decoded, imm-set_decoded}
use riscv64_emulator.Instruction.Encoding.{Fits, encoding_of, encode}
use riscv64_emulator.Interpreter.{State, load, run_load, execute, step, write_rd, stop_at}
use riscv64_emulator.Interpreter.Values.{IsLoad}
use riscv64_emulator.Interpreter.Steps.{IsValid}
use riscv64_emulator.Interpreter.Step.{Fetches, step-encode}
use riscv64_emulator.Interpreter.Computed.{Computed, write_rd-Computed}
use riscv64_emulator.Interpreter.Accesses.{width, width-lt, accessed, Faulted}

-- What a load makes of the bytes: the signed loads take them as a signed number.
abbrev pub extended : IT → ℕ → ℕ
extended IT.lb x = to_word 64 (signed 8 x)
extended IT.lh x = to_word 64 (signed 16 x)
extended IT.lw x = to_word 64 (signed 32 x)
extended _ x = x

load-some :
    (t : IT) (m : Memory) (address x : ℕ)
    → IsLoad t
    → x < 256 ^ width t
    → read_value m address flag_read (width t) ≡ ok (some x)
    → load t m address ≡ ok (some (extended t x))
unfolding load
load-some IT.lb m address x h lt e = rw e (ground arith)
load-some IT.lh m address x h lt e = rw e (ground arith)
load-some IT.lw m address x h lt e = rw e (ground arith)
load-some IT.ld m address x h lt e = e
load-some IT.lbu m address x h lt e = e
load-some IT.lhu m address x h lt e = e
load-some IT.lwu m address x h lt e = e
load-some _ m address x h lt e = absurd h

load-none :
    (t : IT) (m : Memory) (address : ℕ)
    → IsLoad t
    → read_value m address flag_read (width t) ≡ ok none
    → load t m address ≡ ok none
unfolding load
load-none IT.lb m address h e = rw e refl
load-none IT.lh m address h e = rw e refl
load-none IT.lw m address h e = rw e refl
load-none IT.ld m address h e = e
load-none IT.lbu m address h e = e
load-none IT.lhu m address h e = e
load-none IT.lwu m address h e = e
load-none _ m address h e = absurd h

execute-load :
    (c n : ℕ) (i : Instruction) (s : State) (t : IT)
    → IsLoad t
    → execute c n i s t ≡ run_load c n i s t
unfolding execute
execute-load c n i s IT.lb h = refl
execute-load c n i s IT.lh h = refl
execute-load c n i s IT.lw h = refl
execute-load c n i s IT.ld h = refl
execute-load c n i s IT.lbu h = refl
execute-load c n i s IT.lhu h = refl
execute-load c n i s IT.lwu h = refl
execute-load c n i s _ h = absurd h

IsLoad-ne : (t : IT) → IsLoad t → t ≢ IT.sraiw
IsLoad-ne IT.sraiw h = absurd h
IsLoad-ne _ h = cc

module _ (s : State) (t : IT) (d s1 k : ℕ) (v : IsValid s) (h : IsLoad t)
    (fits : Fits (encoding_of t) d s1 0 k) (hd : d < 32) (h1 : s1 < 32)
    (f : Fetches s (encode t d s1 0 k)) where
  abbrev load_decoded : Instruction
  load_decoded = set_decoded t d s1 0 k

  step-run_load : step s ≡ run_load (pc s.cpu) (u64 (pc s.cpu + 4)) load_decoded s t
  step-run_load =
      step-encode s t d s1 0 k (IsLoad-ne t h) fits hd h1 (omega arith) f
      ∙ execute-load (pc s.cpu) (u64 (pc s.cpu + 4)) load_decoded s t h

  step-loaded :
      CanAccess s.memory (accessed s s1 k) (width t) flag_read
      → (let x = from_bytes (bytes_at s.memory.raw (accessed s s1 k) (width t)) in
          step s ≡ write_rd load_decoded (u64 (pc s.cpu + 4)) s (extended t x))
  unfolding run_load read_value
  step-loaded can =
      let x = from_bytes (bytes_at s.memory.raw (accessed s s1 k) (width t)) in
      let lt : x < 256 ^ width t =
        from_bytes-lt s.memory.raw v.valid_memory.is_bytes (accessed s s1 k) (width t) in
      let got : read_value s.memory (accessed s s1 k) flag_read (width t) ≡ ok (some x) =
        rw (read_granted s.memory v.valid_memory (accessed s s1 k) flag_read (width t) can) refl in
      step-run_load
      ∙ rw (
        rs1-set_decoded t d s1 0 k hd h1 (omega arith),
        imm-set_decoded t d s1 0 k,
        load-some t s.memory (accessed s s1 k) x h lt got,
      )

  step-refused :
      ¬ CanAccess s.memory (accessed s s1 k) (width t) flag_read
      → step s ≡ stop_at Reason.memory_read_fault (accessed s s1 k) d s
  unfolding run_load read_value
  step-refused cannot =
      let got : read_value s.memory (accessed s s1 k) flag_read (width t) ≡ ok none =
        rw
          (read_refused s.memory v.valid_memory (accessed s s1 k) flag_read (width t) (omega arith)
            (width-lt t) cannot)
          refl in
      step-run_load
      ∙ rw (
        rs1-set_decoded t d s1 0 k hd h1 (omega arith),
        imm-set_decoded t d s1 0 k,
        load-none t s.memory (accessed s s1 k) h got,
        rs1-set_decoded t d s1 0 k hd h1 (omega arith),
        imm-set_decoded t d s1 0 k,
        rd-set_decoded t d s1 0 k hd h1 (omega arith),
      )

-- From a valid state, a step on the encoding of a load from an address whose bytes can be read puts
-- their little-endian value, extended as the instruction has it, in the destination, and changes
-- nothing else but the program counter; where they cannot be read, it stops with the read fault, the
-- address and the destination in the exit, and changes nothing else.
pub step-load :
    (s : State) (t : IT) (d s1 k : ℕ)
    → IsValid s
    → IsLoad t
    → Fits (encoding_of t) d s1 0 k
    → d < 32
    → s1 < 32
    → Fetches s (encode t d s1 0 k)
    → (CanAccess s.memory (accessed s s1 k) (width t) flag_read
        → (s' : State) × (step s ≡ ok (true, s'))
          × Computed s s' d
              (extended t (from_bytes (bytes_at s.memory.raw (accessed s s1 k) (width t)))))
      × (¬ CanAccess s.memory (accessed s s1 k) (width t) flag_read
          → (s' : State) × (step s ≡ ok (false, s'))
            × Faulted s s' Reason.memory_read_fault (accessed s s1 k) d)
step-load s t d s1 k v h fits hd h1 f = (
  λ can.
      let (s', e, c) =
        write_rd-Computed s (set_decoded t d s1 0 k) d
          (extended t (from_bytes (bytes_at s.memory.raw (accessed s s1 k) (width t))))
          (rd-set_decoded t d s1 0 k hd h1 (omega arith)) hd in
      (s', step-loaded s t d s1 k v h fits hd h1 f can ∙ e, c),
  λ cannot. (
    _,
    step-refused s t d s1 k v h fits hd h1 f cannot,
    record { same_memory = refl; same_cpu = refl; filled = refl },
  ),
)
