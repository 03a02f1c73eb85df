-- ===== src/Jit/Aarch64/Computing.antt =====
-- The instructions that the inner switches of src/vm/jit/aarch64/CodeGenerator.cpp choose, against
-- the arithmetic of the RISC-V manual.
use riscv64_emulator.Prelude.{ℕ, ◌-◌, ◌/◌, ◌%◌, ◌^◌, ◌≤◌, ◌<◌, ◌≡◌, ◌≢◌, refl, ap, arith, List}
use riscv64_emulator.Prelude.Bits.{bit_and-le, bit_or-lt, bit_xor-lt}
use riscv64_emulator.Prelude.Word.{to_word, u32}
use riscv64_emulator.Prelude.Result.{Result, ok}
use riscv64_emulator.Instruction.Kinds.{InstructionType as IT}
use riscv64_emulator.Interpreter.Manual.{manual}
use riscv64_emulator.Interpreter.Values.{IsRegister}
use riscv64_emulator.Jit.Assembler.{A64R, xreg, xzr}
use riscv64_emulator.Jit.RegisterCache.{update}
use riscv64_emulator.Jit.A64.{Call, read}
use riscv64_emulator.Jit.Aarch64.{a_reg}
use riscv64_emulator.Jit.Aarch64.Emitted.{AllPlain, run}
use riscv64_emulator.Jit.Aarch64.Selection.{register_calls}

-- The instructions chosen for registers d, x and y put the value v of the operands in d, and change
-- no other register but X8.
pub record Puts (d : ℕ) (x y : A64R) (v : ℕ → ℕ → ℕ) (calls : List Call) : Type 0 where
  pub plain : AllPlain calls
  pub result :
      (registers : ℕ → ℕ) (n : ℕ)
      → read registers x < 2 ^ 64
      → read registers y < 2 ^ 64
      → n ≢ 8
      → run calls registers n ≡ update registers d (v (read registers x) (read registers y)) n

-- A switch that does so whatever the registers, which are not X8.
abbrev pub Computes : (A64R → A64R → A64R → Result (List Call)) → (ℕ → ℕ → ℕ) → Type 0
Computes choose v =
    (d : ℕ) (x y : A64R)
    → x ≢ a_reg
    → y ≢ a_reg
    → (calls : List Call) × (choose (xreg d) x y ≡ ok calls) × Puts d x y v calls

-- A register other than X8 keeps its value when X8 is written.
pub read-update :
    (x : A64R)
    → x ≢ a_reg
    → (registers : ℕ → ℕ) (k : ℕ) → read (update registers 8 k) x ≡ read registers x
read-update xzr nx registers k = refl
read-update (xreg n) nx registers k = let ne : n ≢ 8 = λ e. nx (ap xreg e) in ground arith

div-le : (a b : ℕ) → a / b ≤ a
div-le a b = grind arith

abbrev pub manual_word : IT → ℕ → ℕ → ℕ
manual_word t a b = to_word 64 (manual t a b)

-- The inner switch for register instructions, sra included, puts the low 64 bits of the integer
-- that the manual gives in the destination.
pub register_calls-Computes :
    (t : IT) → IsRegister t → Computes (λ dest x y. register_calls dest x y t) (manual_word t)
unfolding register_calls
register_calls-Computes IT.add h d x y nx ny =
    (_, refl, record { plain = (tt, tt); result = λ registers n hx hy ne. ground arith })
register_calls-Computes IT.sub h d x y nx ny =
    (_, refl, record { plain = (tt, tt); result = λ registers n hx hy ne. ground arith })
register_calls-Computes IT.xor h d x y nx ny = (
  _,
  refl,
  record {
    plain = (tt, tt);
    result =
        λ registers n hx hy ne. ground (arith, bit_xor-lt 64 (read registers x) (read registers y));
  },
)
register_calls-Computes IT.or h d x y nx ny = (
  _,
  refl,
  record {
    plain = (tt, tt);
    result =
        λ registers n hx hy ne. ground (arith, bit_or-lt 64 (read registers x) (read registers y));
  },
)
register_calls-Computes IT.and h d x y nx ny = (
  _,
  refl,
  record {
    plain = (tt, tt);
    result =
        λ registers n hx hy ne. ground (arith, bit_and-le (read registers x) (read registers y));
  },
)
register_calls-Computes IT.sll h d x y nx ny =
    (_, refl, record { plain = (tt, tt); result = λ registers n hx hy ne. ground arith })
register_calls-Computes IT.srl h d x y nx ny = (
  _,
  refl,
  record {
    plain = (tt, tt);
    result = λ registers n hx hy ne.
        ground (arith, div-le (read registers x) (2 ^ (read registers y % 64)));
  },
)
register_calls-Computes IT.sra h d x y nx ny = (
  _,
  refl,
  record {
    plain = (tt, tt);
    result = λ registers n hx hy ne. ground (
      arith,
      div-le (read registers x) (2 ^ (read registers y % 64)),
      div-le (2 ^ 64 - 1 - read registers x) (2 ^ (read registers y % 64)),
    );
  },
)
register_calls-Computes IT.addw h d x y nx ny =
    (_, refl, record { plain = (tt, (tt, tt)); result = λ registers n hx hy ne. ground arith })
register_calls-Computes IT.subw h d x y nx ny =
    (_, refl, record { plain = (tt, (tt, tt)); result = λ registers n hx hy ne. ground arith })
register_calls-Computes IT.sllw h d x y nx ny =
    (_, refl, record { plain = (tt, (tt, tt)); result = λ registers n hx hy ne. ground arith })
register_calls-Computes IT.srlw h d x y nx ny = (
  _,
  refl,
  record {
    plain = (tt, (tt, tt));
    result = λ registers n hx hy ne.
        ground (arith, div-le (u32 (read registers x)) (2 ^ (read registers y % 32)));
  },
)
register_calls-Computes IT.sraw h d x y nx ny = (
  _,
  refl,
  record {
    plain = (tt, (tt, tt));
    result = λ registers n hx hy ne. ground (
      arith,
      div-le (u32 (read registers x)) (2 ^ (read registers y % 32)),
      div-le (2 ^ 32 - 1 - u32 (read registers x)) (2 ^ (read registers y % 32)),
    );
  },
)
register_calls-Computes _ h d x y nx ny = absurd h
