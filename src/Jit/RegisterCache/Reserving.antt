-- ===== src/Jit/RegisterCache/Reserving.antt =====
-- `free_cache_slots` and `reserve_registers` of src/vm/jit/aarch64/RegisterCache.cpp.
use riscv64_emulator.Prelude.{
  ℕ, zero, suc, ◌+◌, ◌-◌, ◌≤◌, ◌<◌, ◌≡◌, ◌≢◌, inl, inr, ◌∙◌, sym, subst, arith, Bool, true, false,
  List, [], ◌∷◌, length, Option, none, some, ltb, leb, ◌==◌, if◌then◌else◌, Bool-cases,
}
use riscv64_emulator.Prelude.Result.{
  Result, ok, ◌>>=◌, >>=-eq-ok, verify-eq-ok, not_enough_available_slots, register_number_too_large,
}
use riscv64_emulator.Cpu.{Register, zero_reg}
use riscv64_emulator.Jit.Assembler.{Assembler, Sort, count}
use riscv64_emulator.Jit.RegisterCache.{
  RegisterCache, RegisterToLock, Slot, cache_size, insert, evict_slot, evict, available_slots,
  free_cache_slots, lock_slot, slot_of, note_register, note_registers, reserve_registers,
}
use riscv64_emulator.Jit.RegisterCache.Coherence.{Tracks}
use riscv64_emulator.Jit.RegisterCache.Evicting.{evicted, evict_slot-evicted, evicted-Tracks}

-- The slots i, i + 1, … that may be evicted hold registers, and each is listed once.
pub available-range :
    (asm : Assembler) (slots : ℕ → Slot) (left i j : ℕ)
    → i + left ≤ 17
    → (0 < count j (available_slots asm slots left i) → (i ≤ j) × (j < 17) × ((slots j).reg ≢ 0))
      × (count j (available_slots asm slots left i) ≤ 1)
unfolding available_slots
available-range asm slots zero i j h = (λ listed. absurd (omega arith), omega arith)
available-range asm slots (suc left) i j h =
    ground (arith, available-range asm slots left (i + 1) j)

-- Slots that are listed once, and hold registers.
abbrev CanEvict : {asm : Assembler} → RegisterCache asm → List ℕ → Type 0
CanEvict c order =
    (j : ℕ) → (0 < count j order → (j < 17) × ((c.slots j).reg ≢ 0)) × (count j order ≤ 1)

module _ (asm : Assembler) (pending : ℕ → Bool) (guest : ℕ → ℕ) where
  CanEvict-tail :
      (c : RegisterCache asm) (k : ℕ) (order : List ℕ)
      → CanEvict c (k ∷ order)
      → CanEvict (evicted asm c k) order
  CanEvict-tail c k order can j = ground (arith, can j, can k)

  evict-Tracks :
      (n : ℕ) (order : List ℕ) (c c' : RegisterCache asm)
      → Tracks asm pending c guest
      → CanEvict c order
      → evict asm n order c ≡ ok c'
      → Tracks asm pending c' guest
  unfolding evict
  evict-Tracks zero order c c' t can e =
      let same : c ≡ c' = cc in subst (λ d. Tracks asm pending d guest) same t
  evict-Tracks (suc n) [] c c' t can e = cc
  evict-Tracks (suc n) (k ∷ order) c c' t can e =
      let (d, first, rest) = >>=-eq-ok (evict_slot asm c k) _ e in
      let same : evicted asm c k ≡ d = evict_slot-evicted asm c k d first in
      let here = (can k).0 (ground arith) in
      evict-Tracks n order (evicted asm c k) c'
        (evicted-Tracks asm c k pending guest t here.0 here.1) (CanEvict-tail c k order can)
        (rw (← same) at rest)

  free_cache_slots-Tracks :
      (std : Sort) (n : ℕ) (c c' : RegisterCache asm)
      → Tracks asm pending c guest
      → free_cache_slots asm std n c ≡ ok c'
      → Tracks asm pending c' guest
  unfolding free_cache_slots
  free_cache_slots-Tracks std n c c' t e =
      let available = available_slots asm c.slots cache_size 0 in
      let key = λ (i : ℕ). (c.slots i).last_use in
      evict-Tracks n (std.sort key available) c c' t
        (λ j. rw (std.sort_count key available j) (
          let r = available-range asm c.slots 17 0 j (omega arith) in
          (λ listed. ((r.0 listed).1, (r.0 listed).2), r.1)))
        (verify-eq-ok (leb n (length available)) not_enough_available_slots _ e).1

  -- Only the registers and the dirty bits of the slots matter.
  pub relabel-Tracks :
      (c : RegisterCache asm) (slots' : ℕ → Slot) (counter : ℕ)
      → Tracks asm pending c guest
      → ((i : ℕ) → ((slots' i).reg ≡ (c.slots i).reg) × ((slots' i).dirty ≡ (c.slots i).dirty))
      → Tracks asm pending (record c { slots = slots'; program_counter = counter }) guest
  relabel-Tracks c slots' counter t same = record {
    slot_mapped = λ i h busy. rw (same i).0 (t.slot_mapped i h (rw (same i).0 at busy));
    mapped_slot = λ r i e. rw (same i).0 (t.mapped_slot r i e);
    free_empty = λ i h. rw (same i).0 (t.free_empty i h);
    free_once = t.free_once;
    empty_clean = λ i e. (same i).1 ∙ t.empty_clean i (sym (same i).0 ∙ e);
    absent = t.absent;
    clean = λ r i e d. t.clean r i e (sym (same i).1 ∙ d);
    cached = t.cached;
    written = λ r i e d. t.written r i e (sym (same i).1 ∙ d);
  }

  lock_slot-Tracks :
      (c : RegisterCache asm) (k : ℕ)
      → Tracks asm pending c guest
      → Tracks asm pending (lock_slot asm c k) guest
  lock_slot-Tracks c k t =
      relabel-Tracks c (lock_slot asm c k).slots c.program_counter t (λ i. ground arith)

  note_register-Tracks :
      (c c' : RegisterCache asm) (missing missing' : List ℕ) (r : Register) (found : Option ℕ)
      → Tracks asm pending c guest
      → note_register asm c missing r found ≡ ok (missing', c')
      → Tracks asm pending c' guest
  note_register-Tracks c c' missing missing' r none t e =
      let rest : ◌≡◌ {A = Result (List ℕ × RegisterCache asm)} (ok (insert r missing, c))
          (ok (missing', c')) =
        (verify-eq-ok (ltb r 64) register_number_too_large _ e).1 in
      let same : c ≡ c' = cc in subst (λ d. Tracks asm pending d guest) same t
  note_register-Tracks c c' missing missing' r (some k) t e =
      let same : lock_slot asm c k ≡ c' = cc in
      subst (λ d. Tracks asm pending d guest) same (lock_slot-Tracks c k t)

  note_registers-Tracks :
      (ls : List RegisterToLock) (missing missing' : List ℕ) (c c' : RegisterCache asm)
      → Tracks asm pending c guest
      → note_registers asm ls missing c ≡ ok (missing', c')
      → Tracks asm pending c' guest
  unfolding note_registers
  note_registers-Tracks [] missing missing' c c' t e =
      let same : c ≡ c' = cc in subst (λ d. Tracks asm pending d guest) same t
  note_registers-Tracks (l ∷ ls) missing missing' c c' t e = elim (Bool-cases (l.reg == zero_reg)) [
    | inl zero_register ↦ note_registers-Tracks ls missing missing' c c' t (rw zero_register at e)
    | inr other ↦
        let e' : (slot_of asm c l.reg >>= λ found.
        note_register asm c missing l.reg found >>= λ r. note_registers asm ls r.0 r.1)
            ≡ ok (missing', c') =
          rw other at e in
        let (found, _, e1) = >>=-eq-ok (slot_of asm c l.reg) _ e' in
        let (r, e2, e3) = >>=-eq-ok (note_register asm c missing l.reg found) _ e1 in
        note_registers-Tracks ls r.0 missing' r.1 c'
          (note_register-Tracks c r.1 missing r.0 l.reg found t e2) e3
  ]

  pub reserve_registers-Tracks :
      (std : Sort) (ls : List RegisterToLock) (c c' : RegisterCache asm)
      → Tracks asm pending c guest
      → reserve_registers asm std ls c ≡ ok c'
      → Tracks asm pending c' guest
  unfolding reserve_registers
  reserve_registers-Tracks std ls c c' t e =
      let (r, e1, e2) = >>=-eq-ok (note_registers asm ls [] c) _ e in
      let noted = note_registers-Tracks ls [] r.0 c r.1 t e1 in
      go r.0 r.1 noted (ltb (length r.1.free_slots) (length r.0)) e2
    where
      go :
          (missing : List ℕ) (d : RegisterCache asm)
          → Tracks asm pending d guest
          → (b : Bool)
          → (if b then free_cache_slots asm std (length missing - length d.free_slots) d else ok d)
            ≡ ok c'
          → Tracks asm pending c' guest
      go missing d noted true e' = free_cache_slots-Tracks std _ d c' noted e'
      go missing d noted false e' =
          let same : d ≡ c' = cc in subst (λ x. Tracks asm pending x guest) same noted
