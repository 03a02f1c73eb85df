-- ===== src/Jit/Aarch64/Blocks.antt =====
-- src/vm/jit/aarch64/CodeGenerator.cpp: the code of a block, from a program counter on.
use riscv64_emulator.Prelude.{ℕ, zero, suc, ◌+◌, Bool, Option, none, some, List, [], if◌then◌else◌}
use riscv64_emulator.Prelude.Word.{u64}
use riscv64_emulator.Prelude.Result.{Result, ok, fatal, undefined_behaviour, ◌>>=◌}
use riscv64_emulator.Memory.{Memory, flag_execute, read_value}
use riscv64_emulator.Instruction.Decoder.{decode}
use riscv64_emulator.Jit.Assembler.{Sort}
use riscv64_emulator.Jit.CodeBuffer.{CodeBuffer}
use riscv64_emulator.Jit.RegisterCache.{RegisterCache}
use riscv64_emulator.Jit.RegisterCache.Release as Release
use riscv64_emulator.Jit.RegisterCache.Release.{finish_instruction}
use riscv64_emulator.Jit.A64.{A64, macro_mov}
use riscv64_emulator.Jit.Aarch64.{
  CodeGenerator, Block, base_pc_reg, single_step, instruction_fetch_fault, emit, generate_exit,
  generate_pending_exits,
}
use riscv64_emulator.Jit.Aarch64.Instructions.{generate_instruction}

module _ (a64 : A64) (std : Sort) where
  -- What one round of the loop leads to: the end of the block, or the next instruction.
  pub data Round : Type 0 where
    ended : CodeGenerator a64 → Round
    goes_on : CodeGenerator a64 → Round

  -- After an instruction whose code lets the block go on.
  abbrev pub after_instruction : Block → CodeGenerator a64 → Result Round
  after_instruction block g =
      if block.single_step
      then (do
        g' ← generate_exit a64 block g single_step (u64 (block.current_pc + 4))
        ok (ended g'))
      else ok (goes_on g)

  abbrev pub round_for : Block → CodeGenerator a64 → Option ℕ → Result Round
  round_for block g none = do
    g' ← generate_exit a64 block g instruction_fetch_fault block.current_pc
    ok (ended g')
  round_for block g (some word) = do
    (continue_execution, g1) ← generate_instruction a64 std block (decode word) g
    c ← finish_instruction a64.base g1.register_cache
    let g2 = record g1 { register_cache = c }
    if continue_execution then after_instruction block g2 else ok (ended g2)

  -- The body of the loop of `generate_block`.
  unfoldable pub generate_round : Block → CodeGenerator a64 → Result Round
  generate_round block g = do
    fetched ← read_value block.memory block.current_pc flag_execute 4
    round_for block g fetched

  -- `current_pc += 4`.
  abbrev pub next_block : Block → Block
  next_block block = record block { current_pc = u64 (block.current_pc + 4) }

  abbrev pub continue_with :
      (CodeGenerator a64 → Option (Result (CodeGenerator a64)))
      → Result Round
      → Option (Result (CodeGenerator a64))
  continue_with again (ok (ended g)) = some (ok g)
  continue_with again (ok (goes_on g)) = again g
  continue_with again (fatal message) = some (fatal message)
  continue_with again undefined_behaviour = some undefined_behaviour

  -- The `while (true)` of `generate_block`, with fuel.
  unfoldable pub generate_block :
      ℕ → Block → CodeGenerator a64 → Option (Result (CodeGenerator a64))
  generate_block zero block g = none
  generate_block (suc fuel) block g =
      let again = generate_block fuel (next_block block) in
      continue_with again (generate_round block g)

  abbrev pub finish_code : Block → Option (Result (CodeGenerator a64)) → Option (Result (List ℕ))
  finish_code block none = none
  finish_code block (some r) = some (do
    g ← r
    let done = generate_pending_exits a64 block g
    ok (a64.assembled_instructions done.register_cache.as_code))

  -- `generate_code`, for a generator that is new.
  unfoldable pub generate_code : ℕ → Block → CodeGenerator a64 → Option (Result (List ℕ))
  generate_code fuel block g =
      finish_code block
        (generate_block fuel block (emit a64 g (macro_mov base_pc_reg block.base_pc)))

  abbrev pub with_cache : ℕ → Block → Result (RegisterCache a64.base) → Option (Result (List ℕ))
  with_cache fuel block (ok c) =
      generate_code fuel block (record { pending_exits = []; register_cache = c })
  with_cache fuel block (fatal message) = some (fatal message)
  with_cache fuel block undefined_behaviour = some undefined_behaviour

  -- `generate_block_code`: a generator for an assembler that is cleared.
  unfoldable pub generate_block_code :
      ℕ → CodeBuffer → Bool → Bool → Memory → Bool → ℕ → Option (Result (List ℕ))
  generate_block_code fuel code_buffer multithreaded skip memory one_step pc =
      with_cache fuel
        (record {
          memory = memory;
          code_buffer = code_buffer;
          multithreaded = multithreaded;
          skip_permission_checks = skip;
          single_step = one_step;
          base_pc = pc;
          current_pc = pc;
        })
        (Release.create a64.base a64.clear)
