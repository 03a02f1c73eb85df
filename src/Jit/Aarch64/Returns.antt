-- ===== src/Jit/Aarch64/Returns.antt =====
-- src/vm/jit/aarch64/CodeGenerator.cpp: the loop of `generate_block` ends.
use riscv64_emulator.Prelude.{
  ℕ, zero, suc, ◌+◌, ◌*◌, ◌^◌, ◌≤◌, ◌<◌, ◌≡◌, inl, inr, refl, arith, Bool, true, ◌||◌, Option, none,
  some, ltb, Bool-cases,
}
use riscv64_emulator.Prelude.Word.{u64}
use riscv64_emulator.Prelude.Result.{Result, ok, fatal, undefined_behaviour, ◌>>=◌}
use riscv64_emulator.Memory.{Memory, flag_execute, read, read_value, out_of_range}
use riscv64_emulator.Jit.Assembler.{Sort}
use riscv64_emulator.Jit.CodeBuffer.{CodeBuffer}
use riscv64_emulator.Jit.RegisterCache.{RegisterCache}
use riscv64_emulator.Jit.RegisterCache.Release as Release
use riscv64_emulator.Jit.A64.{A64}
use riscv64_emulator.Jit.Aarch64.{CodeGenerator, Block, instruction_fetch_fault, generate_exit}
use riscv64_emulator.Jit.Aarch64.Blocks.{
  Round, ended, goes_on, generate_round, next_block, continue_with, generate_block, generate_code,
  with_cache, finish_code, generate_block_code,
}

abbrev pub Returns : {A : Type 0} → Option A → Type 0
Returns {A} r = (a : A) × (r ≡ some a)

-- There is nothing to fetch where four bytes would leave the memory.
fetch_past_end :
    (m : Memory) (pc : ℕ)
    → m.size + 8 ≤ 2 ^ 64
    → m.size < pc + 4
    → read_value m pc flag_execute 4 ≡ ok none
unfolding read_value read out_of_range
fetch_past_end m pc fits past =
    let out : (ltb m.size pc || ltb m.size (u64 (pc + 4))) ≡ true = ground arith in rw out refl

module _ (a64 : A64) (std : Sort) where
  -- A round that has nothing to fetch does not go on.
  round_past_end :
      (block : Block) (g : CodeGenerator a64)
      (again : CodeGenerator a64 → Option (Result (CodeGenerator a64)))
      → block.memory.size + 8 ≤ 2 ^ 64
      → block.memory.size < block.current_pc + 4
      → Returns (continue_with a64 std again (generate_round a64 std block g))
  unfolding generate_round
  round_past_end block g again fits past =
      rw (fetch_past_end block.memory block.current_pc fits past)
        (go (generate_exit a64 block g instruction_fetch_fault block.current_pc))
    where
      go :
          (r : Result (CodeGenerator a64))
          → Returns
              (continue_with a64 std again (◌>>=◌ {B = Round a64 std} r (λ g'. ok (ended g'))))
      go (ok g') = (_, refl)
      go (fatal message) = (_, refl)
      go undefined_behaviour = (_, refl)

  continue_with-Returns :
      (again : CodeGenerator a64 → Option (Result (CodeGenerator a64))) (r : Result (Round a64 std))
      → ((g : CodeGenerator a64) → Returns (again g))
      → Returns (continue_with a64 std again r)
  continue_with-Returns again (ok (ended g)) returns = (_, refl)
  continue_with-Returns again (ok (goes_on g)) returns = returns g
  continue_with-Returns again (fatal message) returns = (_, refl)
  continue_with-Returns again undefined_behaviour returns = (_, refl)

  generate_block-Returns :
      (n : ℕ) (block : Block) (g : CodeGenerator a64)
      → block.memory.size + 8 ≤ 2 ^ 64
      → block.memory.size < block.current_pc + (n * 4 + 4)
      → Returns (generate_block a64 std (suc n) block g)
  unfolding generate_block
  generate_block-Returns zero block g fits near =
      round_past_end block g (generate_block a64 std zero (next_block a64 std block)) fits
        (omega arith)
  generate_block-Returns (suc n) block g fits near =
      elim (Bool-cases (ltb block.memory.size (block.current_pc + 4))) [
        | inl past ↦
            round_past_end block g (generate_block a64 std (suc n) (next_block a64 std block)) fits
              (ground arith)
        | inr inside ↦
            continue_with-Returns (generate_block a64 std (suc n) (next_block a64 std block))
              (generate_round a64 std block g)
              (λ g'. generate_block-Returns n (next_block a64 std block) g' fits (ground arith))
      ]

  finish_code-Returns :
      (block : Block) (r : Option (Result (CodeGenerator a64)))
      → Returns r
      → Returns (finish_code a64 std block r)
  finish_code-Returns block none (a, e) = absurd (cc)
  finish_code-Returns block (some r) returns = (_, refl)

  with_cache-Returns :
      (n : ℕ) (block : Block) (r : Result (RegisterCache a64.base))
      → block.memory.size + 8 ≤ 2 ^ 64
      → block.memory.size < n * 4 + 4
      → Returns (with_cache a64 std (suc n) block r)
  unfolding generate_code
  with_cache-Returns n block (ok c) fits enough =
      finish_code-Returns block _ (generate_block-Returns n block _ fits (omega arith))
  with_cache-Returns n block (fatal message) fits enough = (_, refl)
  with_cache-Returns n block undefined_behaviour fits enough = (_, refl)

  -- If no address of the memory is near 2 ^ 64, generating the code of a block returns from any
  -- program counter, with fuel for one round more than the words of the memory.
  pub generate_block_code-Returns :
      (n : ℕ) (code_buffer : CodeBuffer) (multithreaded skip one_step : Bool) (memory : Memory)
      (pc : ℕ)
      → memory.size + 8 ≤ 2 ^ 64
      → memory.size < n * 4 + 4
      → Returns
          (generate_block_code a64 std (suc n) code_buffer multithreaded skip memory one_step pc)
  unfolding generate_block_code
  generate_block_code-Returns n code_buffer multithreaded skip one_step memory pc fits enough =
      with_cache-Returns n _ (Release.create a64.base a64.clear) fits enough
