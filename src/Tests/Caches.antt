-- ===== src/Tests/Caches.antt =====
-- The register cache on a small machine, with an insertion sort.
use riscv64_emulator.Prelude.{
  ℕ, ◌+◌, ◌*◌, ◌==◌, ◌≤◌, ◌<◌, ◌≡◌, ◌≢◌, refl, ◌∙◌, sym, subst, arith, true, false, List, [], ◌∷◌,
  none, some, if◌then◌else◌, length, not, ◌&&◌,
}
use riscv64_emulator.Prelude.Result.{Result, ok}
use riscv64_emulator.Jit.Assembler.{A64R, xreg, count}
use riscv64_emulator.Jit.RegisterCache.Replacement.{free_cache_slots-oldest}
use riscv64_emulator.Jit.RegisterCache.{
  free_cache_slots, available_slots, evict, evict_slot, store_if_dirty, emit_register_store,
}
use riscv64_emulator.Jit.RegisterCache.Release.{
  create, add_slots, unlock_register, StateSnapshot, take_state_snapshot, flush_registers,
}
use riscv64_emulator.Jit.RegisterCache.Coherence.{Tracks, host_injective}
use riscv64_emulator.Jit.RegisterCache.Unlocking.{KnowsHosts, unlock_register-Tracks}
use riscv64_emulator.Jit.RegisterCache.Created.{create-Tracks}
use riscv64_emulator.Jit.RegisterCache.Locks.{Locks, lock_registers_internal-Locks}
use riscv64_emulator.Jit.RegisterCache.Flushing.{flush_registers-restores}
use riscv64_emulator.Jit.RegisterCache.{
  reserve_registers, note_registers, read_registers, lock_each, lock_one, fill_slot,
  emit_register_load, acquire_cache_slot, RegisterCache, RegisterToLock, Slot, empty_slot, host,
  update, lock_registers_internal,
}
use riscv64_emulator.Tests.Host.{Machine, machine, insertion, value_or, is_ok-value}

abbrev guest_registers : ℕ → ℕ
guest_registers r = r * 8

abbrev start : Machine
start = record { registers = λ _. 0; memory = λ offset. offset }

abbrev blank : RegisterCache machine
blank = record {
  as_code = start;
  program_counter = 0;
  slots = λ _. empty_slot;
  register_to_slot = λ _. none;
  platform_register_to_slot = λ _. none;
  free_slots = [];
}

abbrev new_cache : RegisterCache machine
new_cache = value_or blank (create machine start)

new_cache-ok : create machine start ≡ ok new_cache
unfolding create add_slots host
new_cache-ok = is_ok-value blank (create machine start) refl

start-guest : (r : ℕ) → machine.table start r ≡ guest_registers r
start-guest r = refl

create-Tracks_example :
    (c : RegisterCache machine) × (create machine start ≡ ok c)
    × Tracks machine (λ _. false) c guest_registers
    × KnowsHosts c
    × (c.as_code ≡ start)
    × ((i : ℕ) → i < 17 → count i c.free_slots ≡ 1)
    × ((i : ℕ) → c.slots i ≡ empty_slot)
    × ((r : ℕ) → c.register_to_slot r ≡ none)
create-Tracks_example = create-Tracks machine start guest_registers start-guest

new_cache-Tracks : Tracks machine (λ _. false) new_cache guest_registers × KnowsHosts new_cache
new_cache-Tracks =
    let (c, e, t, k, code, free, empty, unmapped) =
      create-Tracks machine start guest_registers start-guest in
    let same : c ≡ new_cache =
      let eq : ◌≡◌ {A = Result (RegisterCache machine)} (ok c) (ok new_cache) =
        sym e ∙ new_cache-ok in
      cc in
    subst (λ x. Tracks machine (λ _. false) x guest_registers × KnowsHosts x) same (t, k)

abbrev instruction_registers : List RegisterToLock
instruction_registers =
    record { reg = 5; write_only = false }
    ∷ record { reg = 6; write_only = true }
    ∷ record { reg = 0; write_only = false }
    ∷ []

abbrev locked : List A64R × RegisterCache machine
locked =
    value_or ([], blank) (lock_registers_internal machine insertion instruction_registers new_cache)

locked-ok :
    lock_registers_internal machine insertion instruction_registers new_cache
    ≡ ok (locked.0, locked.1)
unfolding create add_slots host lock_registers_internal reserve_registers note_registers
    read_registers lock_each lock_one fill_slot emit_register_load acquire_cache_slot
locked-ok =
    is_ok-value ([], blank)
      (lock_registers_internal machine insertion instruction_registers new_cache) refl

lock_registers_internal-Locks_example :
    Locks machine (λ _. false) guest_registers instruction_registers locked.0 locked.1
lock_registers_internal-Locks_example =
    lock_registers_internal-Locks machine insertion (λ _. false) guest_registers
      instruction_registers new_cache locked.1 locked.0 new_cache-Tracks.0 locked-ok

-- The code that follows writes 42 to the host register of x6.
abbrev after : Machine
after = record {
  registers = update locked.1.as_code.registers (host 15) 42;
  memory = λ offset. offset;
}

locked-x6 : locked.1.register_to_slot 6 ≡ some 15
unfolding create add_slots host lock_registers_internal reserve_registers note_registers
    read_registers lock_each lock_one fill_slot emit_register_load acquire_cache_slot
locked-x6 = refl

locked-table : (r : ℕ) → machine.table locked.1.as_code r ≡ r * 8
unfolding create add_slots host lock_registers_internal reserve_registers note_registers
    read_registers lock_each lock_one fill_slot emit_register_load acquire_cache_slot
locked-table r = refl

locked-KnowsHosts : KnowsHosts locked.1
unfolding create add_slots host lock_registers_internal reserve_registers note_registers
    read_registers lock_each lock_one fill_slot emit_register_load acquire_cache_slot
locked-KnowsHosts = λ i h. new_cache-Tracks.1 i h

locking : Locks machine (λ _. false) guest_registers instruction_registers locked.0 locked.1
locking =
    lock_registers_internal-Locks machine insertion (λ _. false) guest_registers
      instruction_registers new_cache locked.1 locked.0 new_cache-Tracks.0 locked-ok

unlock_register-Tracks_example :
    (c' : RegisterCache machine) × (unlock_register machine
        (record locked.1 { as_code = after })
        (xreg (host 15))
        true
      ≡ ok c')
    × Tracks machine
        (update locking.next 6 false)
        c'
        (update guest_registers 6 (after.registers (host 15)))
    × ((c'.slots 15).locked ≡ false)
    × ((c'.slots 15).dirty ≡ true)
    × ((c'.slots 15).reg ≡ 6)
    × ((c'.slots 15).last_use ≡ (locked.1.slots 15).last_use)
    × ((j : ℕ) → j ≢ 15 → c'.slots j ≡ locked.1.slots j)
    × ((q : ℕ) → c'.register_to_slot q ≡ locked.1.register_to_slot q)
    × (c'.free_slots ≡ locked.1.free_slots)
    × (c'.as_code ≡ after)
unlock_register-Tracks_example =
    unlock_register-Tracks machine locking.next guest_registers locked.1 after 6 15 locking.tracks
      locked-KnowsHosts locked-x6
      (λ j h differ. ground (arith, host_injective j 15 h (omega arith)))
      (λ q. sym (locked-table q))

unlocked :
    (c' : RegisterCache machine) × (unlock_register machine
        (record locked.1 { as_code = after })
        (xreg (host 15))
        true
      ≡ ok c')
    × Tracks machine
        (update locking.next 6 false)
        c'
        (update guest_registers 6 (after.registers (host 15)))
unlocked =
    let (c', e, t, unlocked, dirty, same_reg, last, slots, mapping, free, code) =
      unlock_register-Tracks machine locking.next guest_registers locked.1 after 6 15 locking.tracks
        locked-KnowsHosts locked-x6
        (λ j h differ. ground (arith, host_injective j 15 h (omega arith)))
        (λ q. sym (locked-table q)) in
    (c', e, t)

flush_registers-restores_example :
    (s : StateSnapshot) × (take_state_snapshot machine unlocked.0 ≡ ok s)
    × (machine.table (flush_registers machine unlocked.0 s).as_code 6 ≡ 42)
unfolding host
flush_registers-restores_example =
    flush_registers-restores machine (update locking.next 6 false) (update guest_registers 6 42)
      unlocked.0 unlocked.0 6 unlocked.2 (λ i h. refl) (λ q. refl) (omega arith) (omega arith)

-- x5 in slot 0, used in instruction 3, and x6 in slot 1, used in instruction 1 and then written.
abbrev used_slots : ℕ → Slot
used_slots i =
    if i == 0
    then record { last_use = 3; reg = 5; locked = false; dirty = false }
    else if i == 1
    then record { last_use = 1; reg = 6; locked = false; dirty = true }
    else empty_slot

abbrev used : RegisterCache machine
used = record blank {
  slots = used_slots;
  register_to_slot = λ r. if r == 5 then some 0 else if r == 6 then some 1 else none;
}

abbrev freed : RegisterCache machine
freed = value_or blank (free_cache_slots machine insertion 1 used)

freed-ok : free_cache_slots machine insertion 1 used ≡ ok freed
unfolding free_cache_slots available_slots evict evict_slot store_if_dirty emit_register_store host
freed-ok = is_ok-value blank (free_cache_slots machine insertion 1 used) refl

freed-slots : ((freed.slots 1).reg ≡ 0) × ((freed.slots 0).reg ≡ 5)
unfolding free_cache_slots available_slots evict evict_slot store_if_dirty emit_register_store host
freed-slots = (refl, refl)

free_cache_slots-oldest_example :
    (length freed.free_slots ≡ 1 + length used.free_slots)
    × ((i : ℕ)
        → count i freed.free_slots
          ≡ count i used.free_slots
            + (if not ((used.slots i).reg == 0) && (freed.slots i).reg == 0 then 1 else 0))
    × ((i : ℕ) → (used.slots i).reg ≢ 0 → (freed.slots i).reg ≡ 0 → (used.slots i).locked ≡ false)
    × ((i j : ℕ)
        → (used.slots i).reg ≢ 0
        → (freed.slots i).reg ≡ 0
        → j < 17
        → (used.slots j).locked ≡ false
        → (freed.slots j).reg ≢ 0
        → (used.slots i).last_use ≤ (used.slots j).last_use)
free_cache_slots-oldest_example = free_cache_slots-oldest machine insertion 1 used freed freed-ok
