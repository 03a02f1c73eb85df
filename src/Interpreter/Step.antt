-- ===== src/Interpreter/Step.antt =====
-- The whole of `Interpreter::step`: fetch, decode and execute.
use riscv64_emulator.Prelude.{
  ℕ, ◌+◌, ◌^◌, ◌≤◌, ◌<◌, ◌≡◌, ◌≢◌, inl, inr, ◌∙◌, arith, Bool, ◌==◌, none, some, bit_and,
  Bool-cases,
}
use riscv64_emulator.Prelude.Word.{u64}
use riscv64_emulator.Prelude.Result.{Result, ok}
use riscv64_emulator.Cpu.{pc}
use riscv64_emulator.Memory.{flag_execute, read_value}
use riscv64_emulator.Memory.Total.{read_value_total}
use riscv64_emulator.Exit.{Reason}
use riscv64_emulator.Instruction.{Instruction, set_decoded, type_of}
use riscv64_emulator.Instruction.Kinds.{InstructionType as IT}
use riscv64_emulator.Instruction.Packing.{type_of-set_decoded, imm-set_decoded, shamt-set_decoded}
use riscv64_emulator.Instruction.Encoding.{Fits, encoding_of, encode}
use riscv64_emulator.Instruction.Encoding.Decodes.{decode-encode}
use riscv64_emulator.Instruction.Decoder.{decode}
use riscv64_emulator.Instruction.Decoded.{IsDecoded, packed, immediate_limit, decode-IsDecoded}
use riscv64_emulator.Interpreter.{State, execute, dispatch, stop, step}
use riscv64_emulator.Interpreter.Steps.{IsValid, Ends, execute-Ends}

-- The word that is fetched at the program counter.
abbrev pub Fetches : State → ℕ → Type 0
Fetches s w =
    (bit_and (pc s.cpu) 3 ≡ 0) × (read_value s.memory (pc s.cpu) flag_execute 4 ≡ ok (some w))

pub step-Fetches :
    (s : State) (w : ℕ)
    → Fetches s w
    → step s ≡ dispatch (pc s.cpu) (u64 (pc s.cpu + 4)) (decode w) s (type_of (decode w))
unfolding step
step-Fetches s w f = ground (arith, f.0, f.1)

immediate_limit-le : (t : IT) → immediate_limit t ≤ 2 ^ 32
immediate_limit-le IT.slli = omega arith
immediate_limit-le _ = omega arith

pub pc-lt : (s : State) → IsValid s → pc s.cpu < 2 ^ 64
unfolding pc
pc-lt s v = v.valid_cpu.is_64_bit 32

dispatch-Ends :
    (s : State) (i : Instruction)
    → IsValid s
    → IsDecoded i
    → Ends s i (dispatch (pc s.cpu) (u64 (pc s.cpu + 4)) i s (type_of i))
dispatch-Ends s _ v (packed t d s1 s2 k hd h1 h2 hk) = rw e (
    execute-Ends s v (set_decoded t d s1 s2 k) (pc s.cpu) (u64 (pc s.cpu + 4)) (pc-lt s v)
      (omega arith) t e (rw (imm-set_decoded t d s1 s2 k) (ground (arith, immediate_limit-le t)))
      (rw (shamt-set_decoded t d s1 s2 k) hk))
  where
    e : type_of (set_decoded t d s1 s2 k) ≡ some t
    e = type_of-set_decoded t d s1 s2 k hd h1 h2

-- The ways in which a step may end.
pub data StepEnds (s : State) : Result (Bool × State) → Type 0 where
  unaligned : bit_and (pc s.cpu) 3 ≢ 0 → StepEnds s (stop Reason.unaligned_pc s)
  fetch_fault :
      bit_and (pc s.cpu) 3 ≡ 0
      → read_value s.memory (pc s.cpu) flag_execute 4 ≡ ok none
      → StepEnds s (stop Reason.instruction_fetch_fault s)
  executed : {r : Result (Bool × State)} (w : ℕ) → Fetches s w → Ends s (decode w) r → StepEnds s r

step_unaligned : (s : State) → bit_and (pc s.cpu) 3 ≢ 0 → step s ≡ stop Reason.unaligned_pc s
unfolding step
step_unaligned s h = ground arith

step_fetch_fault :
    (s : State)
    → bit_and (pc s.cpu) 3 ≡ 0
    → read_value s.memory (pc s.cpu) flag_execute 4 ≡ ok none
    → step s ≡ stop Reason.instruction_fetch_fault s
unfolding step
step_fetch_fault s h e = ground (arith, h, e)

-- From a valid state, in which register zero is 0, every register has 64 bits and the memory
-- fits its allocation, a step ends in one of these ways: it goes on in a valid state with the exit
-- structure as it was; it returns false with memory and registers as they were and a reason other
-- than None; it stops at an unsupported multiplication; or it is undefined behaviour, and then the
-- instruction is a division whose operands C++ leaves undefined.
pub step-StepEnds : (s : State) → IsValid s → StepEnds s (step s)
step-StepEnds s v = elim (Bool-cases (bit_and (pc s.cpu) 3 == 0)) [
  | inr odd ↦
      let bad : bit_and (pc s.cpu) 3 ≢ 0 = ground arith in rw (step_unaligned s bad) (unaligned bad)
  | inl even ↦
      let aligned : bit_and (pc s.cpu) 3 ≡ 0 = ground arith in
      elim (read_value_total s.memory v.valid_memory (pc s.cpu) flag_execute 4 (pc-lt s v)
        (omega arith)) [
          | inl e ↦ rw (step_fetch_fault s aligned e) (fetch_fault aligned e)
          | inr (w, e, lt) ↦ rw (step-Fetches s w (aligned, e)) (
              executed w (aligned, e)
                (dispatch-Ends s (decode w) v (decode-IsDecoded w (omega arith))))
        ]
]

-- Where the word at the program counter is the manual's encoding of an instruction other than
-- sraiw, a step executes that instruction with those operands.
pub step-encode :
    (s : State) (t : IT) (d s1 s2 k : ℕ)
    → t ≢ IT.sraiw
    → Fits (encoding_of t) d s1 s2 k
    → d < 32
    → s1 < 32
    → s2 < 32
    → Fetches s (encode t d s1 s2 k)
    → step s ≡ execute (pc s.cpu) (u64 (pc s.cpu + 4)) (set_decoded t d s1 s2 k) s t
step-encode s t d s1 s2 k ne fits hd h1 h2 f =
    step-Fetches s (encode t d s1 s2 k) f
    ∙ rw (decode-encode t d s1 s2 k ne fits, type_of-set_decoded t d s1 s2 k hd h1 h2)
