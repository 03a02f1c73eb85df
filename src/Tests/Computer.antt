-- ===== src/Tests/Computer.antt =====
-- A machine that the code generator can run on.
use riscv64_emulator.Prelude.{ℕ, ◌+◌, ◌*◌, ◌%◌, ◌^◌, ◌≡◌, refl, arith, [], ◌==◌, if◌then◌else◌, ltb}
use riscv64_emulator.Jit.Assembler.{A64R, xreg, xzr, Assembler}
use riscv64_emulator.Jit.RegisterCache.{update}
use riscv64_emulator.Jit.A64.{
  A64, Call, IsPlain, after, read, set, holds, macro_mov, mov_i, mov, sxtw, op, op_i, msub, cmp,
  cmp_i, cset,
}
use riscv64_emulator.Tests.Host.{numbered, numbered-injective}

-- The registers, the guest register table by offsets, what was compared last, and how many labels
-- there are.
pub record Computer : Type 0 where
  pub registers : ℕ → ℕ
  pub memory : ℕ → ℕ
  pub first : ℕ
  pub second : ℕ
  pub labels : ℕ

abbrev pub load : Computer → A64R → ℕ → Computer
load m (xreg n) offset = record m { registers = update m.registers n (m.memory offset) }
load m xzr offset = m

abbrev pub store : Computer → A64R → ℕ → Computer
store m (xreg n) offset = record m { memory = update m.memory offset (m.registers n) }
store m xzr offset = record m { memory = update m.memory offset 0 }

abbrev pub run_call : Computer → Call → Computer
run_call m (cmp w x y) = record m { first = read m.registers x; second = read m.registers y }
run_call m (cmp_i x k) = record m { first = read m.registers x; second = k }
run_call m (cset d e) = record m {
  registers = set m.registers d (if holds e m.first m.second then 1 else 0);
}
run_call m i = record m { registers = after i m.registers }

pub run_call-after :
    (m : Computer) (i : Call) (n : ℕ)
    → IsPlain i
    → (run_call m i).registers n ≡ after i m.registers n
run_call-after m (macro_mov d k) n h = refl
run_call-after m (mov_i d k) n h = refl
run_call-after m (mov d a) n h = refl
run_call-after m (sxtw d a) n h = refl
run_call-after m (op w o d a c) n h = refl
run_call-after m (op_i w o d a k) n h = refl
run_call-after m (msub w d a c e) n h = refl
run_call-after m _ n h = absurd h

pub run_call-memory :
    (m : Computer) (i : Call) (q : ℕ) → IsPlain i → (run_call m i).memory q ≡ m.memory q
run_call-memory m (macro_mov d k) n h = refl
run_call-memory m (mov_i d k) n h = refl
run_call-memory m (mov d a) n h = refl
run_call-memory m (sxtw d a) n h = refl
run_call-memory m (op w o d a c) n h = refl
run_call-memory m (op_i w o d a k) n h = refl
run_call-memory m (msub w d a c e) n h = refl
run_call-memory m _ n h = absurd h

abbrev pub computer_base : Assembler
computer_base = record {
  Code = Computer;
  ldr = load;
  str = store;
  value = λ m n. m.registers n;
  table = λ m r. m.memory (r * 8);
  value-ldr_self = λ m n r. ground arith;
  value-ldr_other = λ m n k r differ. ground arith;
  table-ldr = λ m n r q. refl;
  value-str = λ m n k r. refl;
  table-str_self = λ m n r. ground arith;
  table-str_other = λ m n r q differ. ground arith;
  number = numbered;
  number_injective = numbered-injective;
  number_lt = λ n h. omega arith;
}

abbrev pub blank_computer : Computer
blank_computer = record {
  registers = λ n. if n == 7 then 4096 else 0;
  memory = λ offset. offset % 2 ^ 64;
  first = 0;
  second = 0;
  labels = 0;
}

abbrev pub computer : A64
computer = record {
  base = computer_base;
  clear = blank_computer;
  emit = run_call;
  allocate_label = λ m. (m.labels, record m { labels = m.labels + 1 });
  assembled_instructions = λ m. [];
  encodable = λ o k. ltb k 4096;
  encodable_cmp = λ k. ltb k 4096;
  value-emit = run_call-after;
  table-emit = λ m i q h. run_call-memory m i (q * 8) h;
  value-cset = λ m x y d e n. refl;
  table-cset = λ m x y d e q. refl;
}
