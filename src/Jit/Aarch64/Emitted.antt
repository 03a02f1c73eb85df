-- ===== src/Jit/Aarch64/Emitted.antt =====
-- What instructions that are appended to the code of a block (src/vm/jit/aarch64/CodeGenerator.cpp)
-- leave in the registers of the host.
use mathlib.Core.Path.{fun_ext}
use riscv64_emulator.Prelude.{ℕ, ◌≡◌, refl, ap, ◌∙◌, List, [], ◌∷◌}
use riscv64_emulator.Jit.A64.{A64, Call, IsPlain, after}
use riscv64_emulator.Jit.Aarch64.{CodeGenerator, with_code, emit_all}

abbrev pub AllPlain : List Call → Type 0
AllPlain [] = Unit
AllPlain (i ∷ calls) = IsPlain i × AllPlain calls

-- The registers after instructions without a memory access, flags or a jump.
abbrev pub run : List Call → (ℕ → ℕ) → ℕ → ℕ
run [] registers = registers
run (i ∷ calls) registers = run calls (after i registers)

module _ (a64 : A64) where
  abbrev pub appended : a64.base.Code → List Call → a64.base.Code
  appended code [] = code
  appended code (i ∷ calls) = appended (a64.emit code i) calls

  pub emit_all-appended :
      (g : CodeGenerator a64) (calls : List Call)
      → emit_all a64 g calls ≡ with_code a64 g (appended g.register_cache.as_code calls)
  emit_all-appended g [] = refl
  emit_all-appended g (i ∷ calls) =
      emit_all-appended (with_code a64 g (a64.emit g.register_cache.as_code i)) calls

  pub value-appended :
      (code : a64.base.Code) (calls : List Call)
      → AllPlain calls
      → a64.base.value (appended code calls) ≡ run calls (a64.base.value code)
  value-appended code [] plain = refl
  value-appended code (i ∷ calls) plain =
      value-appended (a64.emit code i) calls plain.1
      ∙ ap (run calls) (fun_ext (λ n. a64.value-emit code i n plain.0))

  pub table-appended :
      (code : a64.base.Code) (calls : List Call) (q : ℕ)
      → AllPlain calls
      → a64.base.table (appended code calls) q ≡ a64.base.table code q
  table-appended code [] q plain = refl
  table-appended code (i ∷ calls) q plain =
      table-appended (a64.emit code i) calls q plain.1 ∙ a64.table-emit code i q plain.0
