-- ===== src/Jit/RegisterCache/Release.antt =====
-- The other operations of src/vm/jit/aarch64/RegisterCache.cpp: the constructor, unlocking,
-- snapshots and flushing.
use riscv64_emulator.Prelude.{
  ℕ, zero, suc, ◌+◌, Bool, true, false, not, ◌||◌, List, [], ◌∷◌, Option, none, some, ltb, leb,
  ◌==◌, if◌then◌else◌,
}
use riscv64_emulator.Prelude.Word.{u8, u32}
use riscv64_emulator.Prelude.Result.{
  Result, ok, fatal, undefined_behaviour, ◌>>=◌, ◌>>◌, verify, not_part_of_cache, register_locked,
  register_does_not_fit, invalid_platform_register,
}
use riscv64_emulator.Cpu.{Register, zero_reg}
use riscv64_emulator.Jit.Assembler.{A64R, xreg, xzr, Assembler}
use riscv64_emulator.Jit.RegisterCache.{
  RegisterCache, Slot, empty_slot, cache_size, host, update, emit_register_store,
}

-- struct StateSnapshot: for each slot its register if it is dirty, and Register::Zero otherwise.
abbrev pub StateSnapshot : Type 0
StateSnapshot = List Register

unfoldable pub snapshot_from : (ℕ → Slot) → ℕ → ℕ → Result StateSnapshot
snapshot_from slots zero i = ok []
snapshot_from slots (suc left) i =
    let rest = snapshot_from slots left (i + 1) in
    if (slots i).reg == zero_reg || not (slots i).dirty
    then (do others ← rest; ok (zero_reg ∷ others))
    else (do
      verify (leb (slots i).reg 255) register_does_not_fit
      others ← rest
      ok (u8 (slots i).reg ∷ others))

unfoldable pub none_locked : (ℕ → Slot) → ℕ → ℕ → Bool
none_locked slots zero i = true
none_locked slots (suc left) i =
    let rest = none_locked slots left (i + 1) in if (slots i).locked then false else rest

module _ (asm : Assembler) where
  -- The loop of the constructor, over the slots i, i + 1, ….
  unfoldable pub add_slots : ℕ → ℕ → RegisterCache asm → Result (RegisterCache asm)
  unfolding host
  add_slots zero i c = ok c
  add_slots (suc left) i c = do
    verify (ltb (asm.number (xreg (host i))) 32) invalid_platform_register
    add_slots left (i + 1) (record c {
      platform_register_to_slot =
          update c.platform_register_to_slot (asm.number (xreg (host i))) (some i);
      free_slots = i ∷ c.free_slots;
    })

  unfoldable pub create : asm.Code → Result (RegisterCache asm)
  create as_code = add_slots cache_size 0 (record {
    as_code = as_code;
    program_counter = 0;
    slots = λ _. empty_slot;
    register_to_slot = λ _. none;
    platform_register_to_slot = λ _. none;
    free_slots = [];
  })

  abbrev pub release : RegisterCache asm → Bool → Option ℕ → Result (RegisterCache asm)
  release c make_dirty none = fatal not_part_of_cache
  release c make_dirty (some slot_id) =
      let s = c.slots slot_id in
      ok (record c {
        slots = update c.slots slot_id (record s { locked = false; dirty = s.dirty || make_dirty });
      })

  -- `unlock_register`; the table of host registers has 32 entries.
  unfoldable pub unlock_register : RegisterCache asm → A64R → Bool → Result (RegisterCache asm)
  unlock_register c xzr make_dirty = ok c
  unlock_register c (xreg n) make_dirty =
      if ltb (asm.number (xreg n)) 32
      then release c make_dirty (c.platform_register_to_slot (asm.number (xreg n)))
      else undefined_behaviour

  unfoldable pub take_state_snapshot : RegisterCache asm → Result StateSnapshot
  take_state_snapshot c = snapshot_from c.slots cache_size 0

  -- The loop of `flush_registers`, over the slots i, i + 1, ….
  unfoldable pub flush_from : StateSnapshot → ℕ → RegisterCache asm → RegisterCache asm
  unfolding emit_register_store host
  flush_from [] i c = c
  flush_from (r ∷ rs) i c =
      flush_from rs (i + 1)
        (if r == zero_reg then c else emit_register_store asm c r (xreg (host i)))

  unfoldable pub flush_registers : RegisterCache asm → StateSnapshot → RegisterCache asm
  flush_registers c snapshot = flush_from snapshot 0 c

  unfoldable pub flush_current_registers : RegisterCache asm → Result (RegisterCache asm)
  flush_current_registers c = do snapshot ← take_state_snapshot c; ok (flush_registers c snapshot)

  unfoldable pub finish_instruction : RegisterCache asm → Result (RegisterCache asm)
  finish_instruction c = do
    verify (none_locked c.slots cache_size 0) register_locked
    ok (record c { program_counter = u32 (c.program_counter + 1) })
