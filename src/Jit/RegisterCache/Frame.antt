-- ===== src/Jit/RegisterCache/Frame.antt =====
-- What locking registers leaves alone (src/vm/jit/aarch64/RegisterCache.cpp): the table of host
-- registers, and the host registers that are not the cache's.
use riscv64_emulator.Prelude.{
  ℕ, zero, suc, ◌-◌, ◌≤◌, ◌<◌, ◌≡◌, ◌≢◌, ◌⊎◌, inl, inr, refl, ◌∙◌, subst, arith, Bool, true, false,
  List, [], ◌∷◌, All, length, get_or, Option, none, some, ltb, ◌==◌, if◌then◌else◌, Bool-cases,
}
use riscv64_emulator.Prelude.Result.{
  Result, ok, fatal, ◌>>=◌, >>=-eq-ok, verify-eq-ok, not_enough_available_slots,
  register_number_too_large, register_cache_full,
}
use riscv64_emulator.Cpu.{Register, zero_reg}
use riscv64_emulator.Jit.Assembler.{A64R, xreg, xzr, Assembler, Sort}
use riscv64_emulator.Jit.RegisterCache.{
  RegisterCache, RegisterToLock, cache, host, contains, insert, emit_register_load,
  emit_register_store, acquire_cache_slot, store_if_dirty, evict_slot, evict, free_cache_slots,
  lock_slot, slot_of, note_register, note_registers, reserve_registers, read_registers, fill_slot,
  lock_found, lock_one, lock_each, lock_registers_internal,
}
use riscv64_emulator.Jit.RegisterCache.Evicting.{evicted, evict_slot-evicted}

-- X1 to X10 are no registers of the cache.
high_or_none :
    (xs : List ℕ) (j : ℕ) → All (λ x. 11 ≤ x) xs → (get_or xs j 0 ≡ 0) ⊎ (11 ≤ get_or xs j 0)
high_or_none [] j all = inl refl
high_or_none (x ∷ xs) zero all = inr all.0
high_or_none (x ∷ xs) (suc j) all = high_or_none xs j all.1

pub host-ne : (j n : ℕ) → 0 < n → n < 11 → n ≢ host j
unfolding host
host-ne j n lo hi = ground (arith, high_or_none cache j (omega arith))

pub record Frame (asm : Assembler) (c c' : RegisterCache asm) : Type 0 where
  pub platform : c'.platform_register_to_slot ≡ c.platform_register_to_slot
  pub apart : (n : ℕ) → 0 < n → n < 11 → asm.value c'.as_code n ≡ asm.value c.as_code n

module _ (asm : Assembler) where
  Frame-refl : (c : RegisterCache asm) → Frame asm c c
  Frame-refl c = record { platform = refl; apart = λ n lo hi. refl }

  Frame-same : (c c' : RegisterCache asm) → c ≡ c' → Frame asm c c'
  Frame-same c c' e = subst (Frame asm c) e (Frame-refl c)

  Frame-trans : (c d e : RegisterCache asm) → Frame asm c d → Frame asm d e → Frame asm c e
  Frame-trans c d e f g = record {
    platform = g.platform ∙ f.platform;
    apart = λ n lo hi. g.apart n lo hi ∙ f.apart n lo hi;
  }

  evicted-Frame : (c : RegisterCache asm) (k : ℕ) → Frame asm c (evicted asm c k)
  unfolding store_if_dirty emit_register_store
  evicted-Frame c k = record {
    platform = by_dirty (c.slots k).dirty;
    apart = λ n lo hi. stored_value (c.slots k).dirty n;
  }
    where
      after_store : Bool → RegisterCache asm
      after_store b = if b then emit_register_store asm c (c.slots k).reg (xreg (host k)) else c

      by_dirty :
          (b : Bool) → (after_store b).platform_register_to_slot ≡ c.platform_register_to_slot
      by_dirty true = refl
      by_dirty false = refl

      stored_value :
          (b : Bool) (n : ℕ) → asm.value (after_store b).as_code n ≡ asm.value c.as_code n
      stored_value true n = asm.value-str c.as_code (host k) n (c.slots k).reg
      stored_value false n = refl

  evict-Frame :
      (n : ℕ) (order : List ℕ) (c c' : RegisterCache asm)
      → evict asm n order c ≡ ok c'
      → Frame asm c c'
  unfolding evict
  evict-Frame zero order c c' e = Frame-same c c' (cc)
  evict-Frame (suc n) [] c c' e = cc
  evict-Frame (suc n) (k ∷ order) c c' e =
      let (d, first, rest) = >>=-eq-ok (evict_slot asm c k) _ e in
      let same : evicted asm c k ≡ d = evict_slot-evicted asm c k d first in
      Frame-trans c (evicted asm c k) c' (evicted-Frame c k)
        (evict-Frame n order (evicted asm c k) c' (rw (← same) at rest))

  note_register-Frame :
      (c c' : RegisterCache asm) (missing missing' : List ℕ) (r : Register) (found : Option ℕ)
      → note_register asm c missing r found ≡ ok (missing', c')
      → Frame asm c c'
  note_register-Frame c c' missing missing' r none e =
      let rest : ◌≡◌ {A = Result (List ℕ × RegisterCache asm)} (ok (insert r missing, c))
          (ok (missing', c')) =
        (verify-eq-ok (ltb r 64) register_number_too_large _ e).1 in
      Frame-same c c' (cc)
  note_register-Frame c c' missing missing' r (some k) e =
      let same : lock_slot asm c k ≡ c' = cc in
      subst (Frame asm c) same (record { platform = refl; apart = λ n lo hi. refl })

  note_registers-Frame :
      (ls : List RegisterToLock) (missing missing' : List ℕ) (c c' : RegisterCache asm)
      → note_registers asm ls missing c ≡ ok (missing', c')
      → Frame asm c c'
  unfolding note_registers
  note_registers-Frame [] missing missing' c c' e = Frame-same c c' (cc)
  note_registers-Frame (l ∷ ls) missing missing' c c' e = elim (Bool-cases (l.reg == zero_reg)) [
    | inl zero_register ↦ note_registers-Frame ls missing missing' c c' (rw zero_register at e)
    | inr other ↦
        let e' : (slot_of asm c l.reg >>= λ found.
        note_register asm c missing l.reg found >>= λ r. note_registers asm ls r.0 r.1)
            ≡ ok (missing', c') =
          rw other at e in
        let (found, _, e1) = >>=-eq-ok (slot_of asm c l.reg) _ e' in
        let (r, e2, e3) = >>=-eq-ok (note_register asm c missing l.reg found) _ e1 in
        Frame-trans c r.1 c' (note_register-Frame c r.1 missing r.0 l.reg found e2)
          (note_registers-Frame ls r.0 missing' r.1 c' e3)
  ]

  reserve_registers-Frame :
      (std : Sort) (ls : List RegisterToLock) (c c' : RegisterCache asm)
      → reserve_registers asm std ls c ≡ ok c'
      → Frame asm c c'
  unfolding reserve_registers free_cache_slots
  reserve_registers-Frame std ls c c' e =
      let (r, e1, e2) = >>=-eq-ok (note_registers asm ls [] c) _ e in
      Frame-trans c r.1 c' (note_registers-Frame ls [] r.0 c r.1 e1)
        (go r.0 r.1 (ltb (length r.1.free_slots) (length r.0)) e2)
    where
      go :
          (missing : List ℕ) (d : RegisterCache asm) (b : Bool)
          → (if b then free_cache_slots asm std (length missing - length d.free_slots) d else ok d)
            ≡ ok c'
          → Frame asm d c'
      go missing d true e' = evict-Frame _ _ d c' (verify-eq-ok _ not_enough_available_slots _ e').1
      go missing d false e' = Frame-same d c' (cc)

  fill_slot-Frame :
      (read : List ℕ) (c : RegisterCache asm) (r k : ℕ) → Frame asm c (fill_slot asm read c r k)
  unfolding fill_slot emit_register_load
  fill_slot-Frame read c r k = go (contains r read)
    where
      go :
          (b : Bool)
          → (let s = c.slots k in
              let c' : RegisterCache asm = record c {
                slots = λ j.
                    if j == k
                    then record s { reg = r; locked = true; last_use = c.program_counter }
                    else c.slots j;
                register_to_slot = λ j. if j == r then some k else c.register_to_slot j;
              } in
              Frame asm c (if b then emit_register_load asm c' (xreg (host k)) r else c'))
      go true = record {
        platform = refl;
        apart = λ n lo hi. asm.value-ldr_other c.as_code (host k) n r (host-ne k n lo hi);
      }
      go false = record { platform = refl; apart = λ n lo hi. refl }

  lock_one-Frame :
      (read : List ℕ) (c c' : RegisterCache asm) (r : Register) (out : A64R)
      → lock_one asm read c r ≡ ok (out, c')
      → Frame asm c c'
  unfolding lock_one acquire_cache_slot
  lock_one-Frame read c c' r out e = elim (Bool-cases (r == zero_reg)) [
    | inl zero_register ↦
        let same : ◌≡◌ {A = Result (A64R × RegisterCache asm)} (ok (xzr, c)) (ok (out, c')) =
          rw zero_register at e in
        Frame-same c c' (cc)
    | inr general ↦
        let e' : (slot_of asm c r >>= λ found. lock_found asm read c r found) ≡ ok (out, c') =
          rw general at e in
        let (found, e1, e2) = >>=-eq-ok (slot_of asm c r) _ e' in by_slot found e2
  ]
    where
      by_free :
          (free : List ℕ)
          → ◌>>=◌ {B = A64R × RegisterCache asm}
              (elim free as (λ _. Result (ℕ × RegisterCache asm)) [
                | [] ↦ fatal register_cache_full
                | k ∷ rest ↦ ok (k, record c { free_slots = rest })
              ])
              (λ taken. ok (xreg (host taken.0), fill_slot asm read taken.1 r taken.0))
            ≡ ok (out, c')
          → Frame asm c c'
      by_free [] e' = cc
      by_free (k ∷ rest) e' =
          let same : fill_slot asm read (record c { free_slots = rest }) r k ≡ c' = cc in
          let f = fill_slot-Frame read (record c { free_slots = rest }) r k in
          subst (Frame asm c) same (record { platform = f.platform; apart = f.apart })

      by_slot : (found : Option ℕ) → lock_found asm read c r found ≡ ok (out, c') → Frame asm c c'
      by_slot (some k) e' =
          let s = c.slots k in
          let same : record c {
            slots = λ j.
                if j == k
                then record s { locked = true; last_use = c.program_counter }
                else c.slots j;
          }
              ≡ c' =
            cc in
          subst (Frame asm c) same (record { platform = refl; apart = λ n lo hi. refl })
      by_slot none e' = by_free c.free_slots e'

  lock_each-Frame :
      (read : List ℕ) (ls : List RegisterToLock) (c c' : RegisterCache asm) (outs : List A64R)
      → lock_each asm read ls c ≡ ok (outs, c')
      → Frame asm c c'
  unfolding lock_each
  lock_each-Frame read [] c c' outs e = Frame-same c c' (cc)
  lock_each-Frame read (l ∷ ls) c c' outs e =
      let ((out, d), e1, e2) = >>=-eq-ok (lock_one asm read c l.reg) _ e in
      let ((more, d'), e3, e4) = >>=-eq-ok (lock_each asm read ls d) _ e2 in
      let same : d' ≡ c' = cc in
      subst (Frame asm c) same (
        Frame-trans c d d' (lock_one-Frame read c d l.reg out e1)
          (lock_each-Frame read ls d d' more e3))

  pub lock_registers_internal-Frame :
      (std : Sort) (ls : List RegisterToLock) (c c' : RegisterCache asm) (outs : List A64R)
      → lock_registers_internal asm std ls c ≡ ok (outs, c')
      → Frame asm c c'
  unfolding lock_registers_internal
  lock_registers_internal-Frame std ls c c' outs e =
      let (d, e1, e2) = >>=-eq-ok (reserve_registers asm std ls c) _ e in
      let (read, e3, e4) = >>=-eq-ok (read_registers asm ls []) _ e2 in
      Frame-trans c d c' (reserve_registers-Frame std ls c d e1)
        (lock_each-Frame read ls d c' outs e4)
