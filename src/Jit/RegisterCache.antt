-- ===== src/Jit/RegisterCache.antt =====
-- src/vm/jit/aarch64/RegisterCache.cpp: guest registers are kept in 17 registers of the host. The
-- vectors of slots are lists that begin with their back; the sets of registers are lists without
-- repetition.
pub mod Release
pub mod Coherence
pub mod Evicting
pub mod Reserving
pub mod Replacement
pub mod Locking
pub mod Locked
pub mod Locks
pub mod Flushing
pub mod Unlocking
pub mod Created
pub mod Frame
use riscv64_emulator.Prelude.{
  ℕ, zero, suc, ◌+◌, ◌-◌, ◌*◌, ◌%◌, ◌^◌, Bool, true, false, not, ◌&&◌, ◌||◌, List, [], ◌∷◌, length,
  get_or, Option, none, some, ltb, leb, ◌==◌, if◌then◌else◌,
}
use riscv64_emulator.Prelude.Word.{u8, u32}
use riscv64_emulator.Prelude.Result.{
  Result, ok, fatal, undefined_behaviour, ◌>>=◌, ◌>>◌, verify, register_cache_full,
  not_enough_available_slots, not_part_of_cache, register_locked, static_vector_full,
  register_number_too_large, register_does_not_fit,
}
use riscv64_emulator.Cpu.{Register, zero_reg}
use riscv64_emulator.Jit.Assembler.{A64R, xreg, xzr, Assembler, Sort}

-- RegisterAllocation::cache (src/vm/jit/aarch64/Registers.hpp).
abbrev pub cache : List ℕ
cache = 11 ∷ 12 ∷ 13 ∷ 14 ∷ 15 ∷ 16 ∷ 17 ∷ 19 ∷ 20 ∷ 21 ∷ 22 ∷ 23 ∷ 24 ∷ 25 ∷ 26 ∷ 27 ∷ 28 ∷ []

abbrev pub cache_size : ℕ
cache_size = 17

unfoldable pub host : ℕ → ℕ
host slot_id = get_or cache slot_id 0

pub record Slot : Type 0 where
  pub last_use : ℕ
  pub reg : Register
  pub locked : Bool
  pub dirty : Bool

abbrev pub empty_slot : Slot
empty_slot = record { last_use = 0; reg = zero_reg; locked = false; dirty = false }

-- struct RegisterToLock: a register to be read, or `WriteOnly`.
pub record RegisterToLock : Type 0 where
  pub reg : Register
  pub write_only : Bool

abbrev pub update {ℓ} : {A : Type ℓ} → (ℕ → A) → ℕ → A → ℕ → A
update f k new j = if j == k then new else f j

abbrev pub contains : ℕ → List ℕ → Bool
contains a [] = false
contains a (b ∷ bs) = a == b || contains a bs

abbrev pub insert : ℕ → List ℕ → List ℕ
insert a bs = if contains a bs then bs else a ∷ bs

pub record RegisterCache (asm : Assembler) : Type 0 where
  pub as_code : asm.Code
  pub program_counter : ℕ
  pub slots : ℕ → Slot
  pub register_to_slot : Register → Option ℕ
  pub platform_register_to_slot : ℕ → Option ℕ
  pub free_slots : List ℕ

module _ (asm : Assembler) where
  unfoldable pub emit_register_load : RegisterCache asm → A64R → Register → RegisterCache asm
  emit_register_load c target source = record c { as_code = asm.ldr c.as_code target (source * 8) }

  unfoldable pub emit_register_store : RegisterCache asm → Register → A64R → RegisterCache asm
  emit_register_store c target source = record c { as_code = asm.str c.as_code source (target * 8) }

  -- `free_slots.back()` and `pop_back()`.
  unfoldable pub acquire_cache_slot : RegisterCache asm → Result (ℕ × RegisterCache asm)
  acquire_cache_slot c = elim c.free_slots [
    | [] ↦ fatal register_cache_full
    | slot_id ∷ rest ↦ ok (slot_id, record c { free_slots = rest })
  ]

  -- The slots i, i + 1, … that may be evicted.
  unfoldable pub available_slots : (ℕ → Slot) → ℕ → ℕ → List ℕ
  available_slots slots zero i = []
  available_slots slots (suc left) i =
      let rest = available_slots slots left (i + 1) in
      if not (slots i).locked && not ((slots i).reg == zero_reg) then i ∷ rest else rest

  unfoldable pub store_if_dirty : RegisterCache asm → ℕ → RegisterCache asm
  unfolding emit_register_store host
  store_if_dirty c slot_id =
      if (c.slots slot_id).dirty
      then emit_register_store c (c.slots slot_id).reg (xreg (host slot_id))
      else c

  -- The body of the loop that evicts.
  unfoldable pub evict_slot : RegisterCache asm → ℕ → Result (RegisterCache asm)
  evict_slot c slot_id =
      let stored = store_if_dirty c slot_id in
      if ltb (length c.free_slots) cache_size
      then ok (record stored {
        register_to_slot = update c.register_to_slot (c.slots slot_id).reg none;
        slots = update c.slots slot_id empty_slot;
        free_slots = slot_id ∷ c.free_slots;
      })
      else fatal static_vector_full

  unfoldable pub evict : ℕ → List ℕ → RegisterCache asm → Result (RegisterCache asm)
  evict zero order c = ok c
  evict (suc n) [] c = undefined_behaviour
  evict (suc n) (slot_id ∷ order) c = do c' ← evict_slot c slot_id; evict n order c'

  unfoldable pub free_cache_slots : Sort → ℕ → RegisterCache asm → Result (RegisterCache asm)
  free_cache_slots std n c = do
    let available = available_slots c.slots cache_size 0
    verify (leb n (length available)) not_enough_available_slots
    evict n (std.sort (λ i. (c.slots i).last_use) available) c

  abbrev pub lock_slot : RegisterCache asm → ℕ → RegisterCache asm
  lock_slot c slot_id =
      let s = c.slots slot_id in
      record c { slots = update c.slots slot_id (record s { locked = true }) }

  -- `register_to_slot[size_t(reg)]`: the table has 32 entries.
  abbrev pub slot_of : RegisterCache asm → Register → Result (Option ℕ)
  slot_of c r = if ltb r 32 then ok (c.register_to_slot r) else undefined_behaviour

  abbrev pub note_register :
      RegisterCache asm → List ℕ → Register → Option ℕ → Result (List ℕ × RegisterCache asm)
  note_register c missing r (some slot_id) = ok (missing, lock_slot c slot_id)
  note_register c missing r none =
      verify (ltb r 64) register_number_too_large >> ok (insert r missing, c)

  -- The first loop of `reserve_registers`.
  unfoldable pub note_registers :
      List RegisterToLock → List ℕ → RegisterCache asm → Result (List ℕ × RegisterCache asm)
  note_registers [] missing c = ok (missing, c)
  note_registers (l ∷ ls) missing c =
      let rest = note_registers ls in
      if l.reg == zero_reg then rest missing c else do
        found ← slot_of c l.reg
        (missing', c') ← note_register c missing l.reg found
        rest missing' c'

  unfoldable pub reserve_registers :
      Sort → List RegisterToLock → RegisterCache asm → Result (RegisterCache asm)
  reserve_registers std ls c = do
    (missing, c') ← note_registers ls [] c
    if ltb (length c'.free_slots) (length missing)
        then free_cache_slots std (length missing - length c'.free_slots) c'
        else ok c'

  -- `read_registers_set`.
  unfoldable pub read_registers : List RegisterToLock → List ℕ → Result (List ℕ)
  read_registers [] read = ok read
  read_registers (l ∷ ls) read =
      let rest = read_registers ls in
      if l.reg == zero_reg || l.write_only
      then rest read
      else (verify (ltb l.reg 64) register_number_too_large >> rest (insert l.reg read))

  -- A slot for a register that has none.
  unfoldable pub fill_slot : List ℕ → RegisterCache asm → Register → ℕ → RegisterCache asm
  unfolding emit_register_load host
  fill_slot read c r slot_id =
      let s = c.slots slot_id in
      let c' = record c {
        slots =
            update c.slots slot_id
              (record s { reg = r; locked = true; last_use = c.program_counter });
        register_to_slot = update c.register_to_slot r (some slot_id);
      } in
      if contains r read then emit_register_load c' (xreg (host slot_id)) r else c'

  abbrev pub lock_found :
      List ℕ → RegisterCache asm → Register → Option ℕ → Result (A64R × RegisterCache asm)
  lock_found read c r (some slot_id) =
      let s = c.slots slot_id in
      ok (
        xreg (host slot_id),
        record c {
          slots = update c.slots slot_id (record s { locked = true; last_use = c.program_counter });
        },
      )
  lock_found read c r none = do
    (slot_id, c') ← acquire_cache_slot c
    ok (xreg (host slot_id), fill_slot read c' r slot_id)

  -- The body of the loop of `lock_registers_internal`.
  unfoldable pub lock_one :
      List ℕ → RegisterCache asm → Register → Result (A64R × RegisterCache asm)
  lock_one read c r =
      if r == zero_reg then ok (xzr, c) else do found ← slot_of c r; lock_found read c r found

  unfoldable pub lock_each :
      List ℕ → List RegisterToLock → RegisterCache asm → Result (List A64R × RegisterCache asm)
  lock_each read [] c = ok ([], c)
  lock_each read (l ∷ ls) c = do
    (out, c') ← lock_one read c l.reg
    (outs, c'') ← lock_each read ls c'
    ok (out ∷ outs, c'')

  unfoldable pub lock_registers_internal :
      Sort → List RegisterToLock → RegisterCache asm → Result (List A64R × RegisterCache asm)
  lock_registers_internal std ls c = do
    c' ← reserve_registers std ls c
    read ← read_registers ls []
    lock_each read ls c'
