-- ===== src/Jit/Aarch64/Additions.antt =====
-- src/vm/jit/aarch64/CodeGenerator.cpp: additions of an immediate, and the choice of instructions for
-- addi, xori, ori, andi and addiw.
use riscv64_emulator.Prelude.{
  ℕ, ◌^◌, ◌<◌, ◌≡◌, ◌≢◌, inl, inr, refl, ap, ◌∙◌, sym, subst, arith, Bool, true, false, List, [],
  ◌∷◌, ◌==◌, if◌then◌else◌, Bool-cases,
}
use riscv64_emulator.Prelude.Bits.{bit_and-le, bit_or-lt, bit_xor-lt}
use riscv64_emulator.Prelude.Result.{ok, ◌>>=◌}
use riscv64_emulator.Instruction.Kinds.{InstructionType as IT}
use riscv64_emulator.Interpreter.Values.{IsImmediate}
use riscv64_emulator.Jit.Assembler.{A64R, xreg, xzr, Sort}
use riscv64_emulator.Jit.RegisterCache.{update}
use riscv64_emulator.Jit.A64.{A64, Call, w64, add, eor, orr, and_, op, op_i, mov, sxtw}
use riscv64_emulator.Jit.A64.{result_of_bits}
use riscv64_emulator.Jit.Aarch64.{
  CodeGenerator, Block, a_reg, emit, emit_all, try_op, immediate_call, load_immediate,
}
use riscv64_emulator.Jit.Aarch64.Emitted.{AllPlain, run}
use riscv64_emulator.Jit.Aarch64.Computing.{manual_word}
use riscv64_emulator.Jit.Aarch64.Selection.{loaded_immediate_calls}
use riscv64_emulator.Jit.Aarch64.Arithmetic.{try_add, try_immediate, finish_immediate}
use riscv64_emulator.Jit.Aarch64.Immediates.{
  PutsImmediate, immediate_call-IsPlain, after-immediate_call, operation-Chosen,
}

-- What `try_add` does, with the instructions that follow it if it succeeds.
abbrev added :
    (a64 : A64)
    → Block
    → Sort
    → ℕ
    → ℕ
    → List Call
    → CodeGenerator a64
    → A64R
    → Bool × CodeGenerator a64
added a64 block std d k tail g x =
    let (b, g') = try_add a64 std block g (xreg d) x k in
    if b then (true, emit_all a64 g' tail) else (false, g')

added-nothing :
    (a64 : A64) (block : Block) (std : Sort) (d k : ℕ) (g : CodeGenerator a64) (x : A64R)
    → added a64 block std d k [] g x ≡ try_add a64 std block g (xreg d) x k
added-nothing a64 block std d k g x = go (try_add a64 std block g (xreg d) x k)
  where
    go :
        (p : Bool × CodeGenerator a64)
        → ◌≡◌ {A = Bool × CodeGenerator a64} (if p.0 then (true, p.1) else (false, p.1)) p
    go (true, g') = refl
    go (false, g') = refl

-- The same for an addition, which `mov` and a load of the immediate replace.
module _ (a64 : A64) (block : Block) (std : Sort) (small : block.base_pc < 2 ^ 64) (d k : ℕ)
    (hk : k < 2 ^ 64) (t : IT) (v : ℕ → ℕ → ℕ) (tail : List Call) (plain_tail : AllPlain tail)
    (tail_result : (a : ℕ) (registers : ℕ → ℕ) (n : ℕ)
      → a < 2 ^ 64
      → run tail (update registers d (result_of_bits 64 add a k)) n
        ≡ update registers d (v a k) n) where
  mov-result :
      0 ≡ k
      → (a : ℕ) (registers : ℕ → ℕ) (n : ℕ) → a < 2 ^ 64
      → run tail (update registers d a) n ≡ update registers d (v a k) n
  mov-result z a registers n ha =
      ap (λ m. run tail (update registers d m) n) (omega arith) ∙ tail_result a registers n ha

  tried_op :
      (g : CodeGenerator a64) (m : ℕ)
      → (let (b, g') = try_op a64 g add (xreg d) (xreg m) k in
          ◌≡◌ {A = Bool × CodeGenerator a64}
            (if b then (true, emit_all a64 g' tail) else (false, g'))
            (if a64.encodable add k
              then (true, emit_all a64 g (op_i w64 add (xreg d) (xreg m) k ∷ tail))
              else (false, g)))
  tried_op g m = go (a64.encodable add k)
    where
      go :
          (c : Bool)
          → (let p : Bool × CodeGenerator a64 =
                if c then (true, emit a64 g (op_i w64 add (xreg d) (xreg m) k)) else (false, g) in
              ◌≡◌ {A = Bool × CodeGenerator a64}
                (if p.0 then (true, emit_all a64 p.1 tail) else (false, p.1))
                (if c
                  then (true, emit_all a64 g (op_i w64 add (xreg d) (xreg m) k ∷ tail))
                  else (false, g)))
      go true = refl
      go false = refl

  addition-Chosen :
      (g : CodeGenerator a64) (x : A64R)
      → x ≢ a_reg
      → ((y : A64R) → loaded_immediate_calls (xreg d) x y t ≡ ok (op w64 add (xreg d) x y ∷ tail))
      → (calls : List Call) × (finish_immediate a64 std block t
            (xreg d)
            x
            k
            (added a64 block std d k tail g x)
          ≡ ok (emit_all a64 g calls))
        × PutsImmediate a64 block d x k v calls
  unfolding load_immediate
  addition-Chosen g xzr nx loaded = elim (Bool-cases (k == 0)) [
    | inl z ↦ (
      mov (xreg d) xzr ∷ tail,
      rw z refl,
      record {
        plain = (tt, plain_tail);
        result = λ registers n based hx ne. mov-result (ground arith) 0 registers n hx;
      },
    )
    | inr nz ↦ (
      immediate_call a64 block (xreg d) k ∷ tail,
      rw nz refl,
      record {
        plain = (immediate_call-IsPlain a64 block (xreg d) k tt, plain_tail);
        result = λ registers n based hx ne.
            ap (λ (r : ℕ → ℕ). run tail r n)
              (after-immediate_call a64 block (xreg d) k registers based small hk)
            ∙ ap (λ m. run tail (update registers d m) n) (omega arith)
            ∙ tail_result 0 registers n hx;
      },
    )
  ]
  addition-Chosen g (xreg m) nx loaded = elim (Bool-cases (k == 0)) [
    | inl z ↦ (
      mov (xreg d) (xreg m) ∷ tail,
      rw z refl,
      record {
        plain = (tt, plain_tail);
        result = λ registers n based hx ne. mov-result (ground arith) (registers m) registers n hx;
      },
    )
    | inr nz ↦ rw nz (
        subst
          (λ p.
            (calls : List Call) × (finish_immediate a64 std block t (xreg d) (xreg m) k p
              ≡ ok (emit_all a64 g calls))
            × PutsImmediate a64 block d (xreg m) k v calls)
          (sym (tried_op g m))
          (operation-Chosen a64 block std small d k hk t add v tail plain_tail tail_result g
            (xreg m) nx (tt, tt) loaded))
  ]

module _ (a64 : A64) (block : Block) (std : Sort) (small : block.base_pc < 2 ^ 64) (d k : ℕ)
    (hk : k < 2 ^ 64) where
  pub try_immediate-PutsImmediate :
      (t : IT) (g : CodeGenerator a64) (x : A64R)
      → IsImmediate t
      → x ≢ a_reg
      → (calls : List Call) × (◌>>=◌ {B = CodeGenerator a64}
            (try_immediate a64 std block t g (xreg d) x k)
            (finish_immediate a64 std block t (xreg d) x k)
          ≡ ok (emit_all a64 g calls))
        × PutsImmediate a64 block d x k (manual_word t) calls
  unfolding try_immediate loaded_immediate_calls
  try_immediate-PutsImmediate IT.xori g x h nx =
      operation-Chosen a64 block std small d k hk IT.xori eor (manual_word IT.xori) [] tt
        (λ a registers n ha. ground (arith, bit_xor-lt 64 a k)) g x nx tt (λ y. refl)
  try_immediate-PutsImmediate IT.ori g x h nx =
      operation-Chosen a64 block std small d k hk IT.ori orr (manual_word IT.ori) [] tt
        (λ a registers n ha. ground (arith, bit_or-lt 64 a k)) g x nx tt (λ y. refl)
  try_immediate-PutsImmediate IT.andi g x h nx =
      operation-Chosen a64 block std small d k hk IT.andi and_ (manual_word IT.andi) [] tt
        (λ a registers n ha. ground (arith, bit_and-le a k)) g x nx tt (λ y. refl)
  try_immediate-PutsImmediate IT.addiw g x h nx =
      addition-Chosen a64 block std small d k hk IT.addiw (manual_word IT.addiw)
        (sxtw (xreg d) (xreg d) ∷ []) (tt, tt) (λ a registers n ha. ground arith) g x nx (λ y. refl)
  try_immediate-PutsImmediate IT.addi g x h nx = rw (← added-nothing a64 block std d k g x) (
      addition-Chosen a64 block std small d k hk IT.addi (manual_word IT.addi) [] tt
        (λ a registers n ha. ground arith) g x nx (λ y. refl))
  try_immediate-PutsImmediate _ g x h nx = absurd h
