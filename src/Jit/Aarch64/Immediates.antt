-- ===== src/Jit/Aarch64/Immediates.antt =====
-- The instructions that src/vm/jit/aarch64/CodeGenerator.cpp appends for an immediate, and for an
-- instruction on a register and an immediate, against the arithmetic of the RISC-V manual.
use riscv64_emulator.Prelude.{
  ℕ, ◌+◌, ◌-◌, ◌^◌, ◌<◌, ◌≡◌, ◌≢◌, inl, inr, refl, ap, ◌∙◌, arith, Bool, true, false, ◌&&◌, List,
  ◌∷◌, ◌==◌, if◌then◌else◌, Bool-cases,
}
use riscv64_emulator.Prelude.Word.{u64}
use riscv64_emulator.Prelude.Result.{Result, ok}
use riscv64_emulator.Instruction.Kinds.{InstructionType as IT}
use riscv64_emulator.Jit.Assembler.{A64R, xreg, xzr, Sort}
use riscv64_emulator.Jit.RegisterCache.{update}
use riscv64_emulator.Jit.A64.{A64, Call, read, set, after, IsPlain, w64, add, op, op_i, macro_mov}
use riscv64_emulator.Jit.A64.{Operation, result_of_bits, IsGeneral, HasImmediateForm}
use riscv64_emulator.Jit.Aarch64.{
  CodeGenerator, Block, a_reg, base_pc_reg, is_near, emit_all, immediate_call, load_immediate,
  load_immediate_or_zero,
}
use riscv64_emulator.Jit.Aarch64.Computing.{read-update}
use riscv64_emulator.Jit.Aarch64.Emitted.{AllPlain, run}
use riscv64_emulator.Jit.Aarch64.Selection.{loaded_immediate_calls}
use riscv64_emulator.Jit.Aarch64.Arithmetic.{finish_immediate}

module _ (a64 : A64) (block : Block) where
  pub immediate_call-IsPlain :
      (target : A64R) (k : ℕ) → IsGeneral target → IsPlain (immediate_call a64 block target k)
  immediate_call-IsPlain target k general = go (
      is_near (u64 (k + 2 ^ 64 - block.base_pc))
      && a64.encodable add (u64 (k + 2 ^ 64 - block.base_pc)))
    where
      go :
          (b : Bool)
          → IsPlain (
              if b
              then op_i w64 add target base_pc_reg (u64 (k + 2 ^ 64 - block.base_pc))
              else macro_mov target k)
      go true = (general, tt)
      go false = tt

  -- Whether it is added to X7 or moved, the immediate is in the target.
  pub after-immediate_call :
      (target : A64R) (k : ℕ) (registers : ℕ → ℕ)
      → registers 7 ≡ block.base_pc
      → block.base_pc < 2 ^ 64
      → k < 2 ^ 64
      → after (immediate_call a64 block target k) registers ≡ set registers target k
  after-immediate_call target k registers based small hk = go (
      is_near (u64 (k + 2 ^ 64 - block.base_pc))
      && a64.encodable add (u64 (k + 2 ^ 64 - block.base_pc)))
    where
      go :
          (b : Bool)
          → after
              (if b
                then op_i w64 add target base_pc_reg (u64 (k + 2 ^ 64 - block.base_pc))
                else macro_mov target k)
              registers
            ≡ set registers target k
      go true = ap (set registers target) (omega arith)
      go false = refl

  -- The instructions put the value v of the operand and the immediate in register d, and change no
  -- other register but X8.
  pub record PutsImmediate (d : ℕ) (x : A64R) (k : ℕ) (v : ℕ → ℕ → ℕ) (calls : List Call)
      : Type 0 where
    pub plain : AllPlain calls
    pub result :
        (registers : ℕ → ℕ) (n : ℕ)
        → registers 7 ≡ block.base_pc
        → read registers x < 2 ^ 64
        → n ≢ 8
        → run calls registers n ≡ update registers d (v (read registers x) k) n

  module _ (std : Sort) (small : block.base_pc < 2 ^ 64) (d k : ℕ) (hk : k < 2 ^ 64) (t : IT)
      (o : Operation) (v : ℕ → ℕ → ℕ) (tail : List Call) (plain_tail : AllPlain tail)
      (tail_result : (a : ℕ) (registers : ℕ → ℕ) (n : ℕ)
        → a < 2 ^ 64
        → run tail (update registers d (result_of_bits 64 o a k)) n
          ≡ update registers d (v a k) n) where
    abbrev pub Chosen : CodeGenerator a64 → A64R → Result (CodeGenerator a64) → Type 0
    Chosen g x done =
        (calls : List Call) × (done ≡ ok (emit_all a64 g calls)) × PutsImmediate d x k v calls

    -- The run after the immediate was loaded into X8.
    loaded_result :
        (x : A64R)
        → x ≢ a_reg
        → (registers : ℕ → ℕ) (n : ℕ) → registers 7 ≡ block.base_pc
        → read registers x < 2 ^ 64
        → n ≢ 8
        → run (immediate_call a64 block a_reg k ∷ op w64 o (xreg d) x a_reg ∷ tail) registers n
          ≡ update registers d (v (read registers x) k) n
    loaded_result x nx registers n based hx ne =
        let same = read-update x nx registers k in
        let loaded = update registers 8 k in
        ap (λ (r : ℕ → ℕ). run (op w64 o (xreg d) x a_reg ∷ tail) r n)
          (after-immediate_call a_reg k registers based small hk)
        ∙ tail_result (read loaded x) loaded n (rw same hx)
        ∙ (rw same (ground arith))

    zero_result :
        0 ≡ k
        → (a : ℕ) (registers : ℕ → ℕ) (n : ℕ) → a < 2 ^ 64
        → run tail (update registers d (result_of_bits 64 o a 0)) n ≡ update registers d (v a k) n
    zero_result z a registers n ha =
        ap (λ m. run tail (update registers d (result_of_bits 64 o a m)) n) z
        ∙ tail_result a registers n ha

    -- The operation, with the immediate or with the register that it was loaded into.
    pub operation-Chosen :
        (g : CodeGenerator a64) (x : A64R)
        → x ≢ a_reg
        → HasImmediateForm o (xreg d) x
        → ((y : A64R) → loaded_immediate_calls (xreg d) x y t ≡ ok (op w64 o (xreg d) x y ∷ tail))
        → Chosen g x (
            finish_immediate a64 std block t (xreg d) x k (
              if a64.encodable o k
              then (true, emit_all a64 g (op_i w64 o (xreg d) x k ∷ tail))
              else (false, g)))
    unfolding load_immediate load_immediate_or_zero
    operation-Chosen g x nx form loaded = elim (Bool-cases (a64.encodable o k)) [
      | inl fits ↦ (
        op_i w64 o (xreg d) x k ∷ tail,
        rw fits refl,
        record {
          plain = (form, plain_tail);
          result = λ registers n based hx ne. tail_result (read registers x) registers n hx;
        },
      )
      | inr too_big ↦ elim (Bool-cases (k == 0)) [
        | inl z ↦ (
          op w64 o (xreg d) x xzr ∷ tail,
          rw (too_big, z, loaded xzr) refl,
          record {
            plain = (tt, plain_tail);
            result = λ registers n based hx ne.
                zero_result (ground arith) (read registers x) registers n hx;
          },
        )
        | inr nz ↦ (
          immediate_call a64 block a_reg k ∷ op w64 o (xreg d) x a_reg ∷ tail,
          rw (too_big, nz, loaded a_reg) refl,
          record {
            plain = (immediate_call-IsPlain a_reg k tt, (tt, plain_tail));
            result = λ registers n based hx ne. loaded_result x nx registers n based hx ne;
          },
        )
      ]
    ]
