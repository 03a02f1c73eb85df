-- ===== src/Jit/RegisterCache/Locked.antt =====
-- What locking registers in the cache gives (src/vm/jit/aarch64/RegisterCache.cpp).
use riscv64_emulator.Prelude.{
  ℕ, ◌<◌, ◌≡◌, ◌≢◌, ◌⊎◌, inl, inr, refl, ap, ◌∙◌, sym, subst, arith, Bool, true, false, List, [],
  ◌∷◌, Option, none, some, ◌==◌, Bool-cases,
}
use riscv64_emulator.Prelude.Result.{Result, ok, fatal, register_cache_full, ◌>>=◌, >>=-eq-ok}
use riscv64_emulator.Cpu.{Register, zero_reg}
use riscv64_emulator.Jit.Assembler.{A64R, xreg, xzr, Assembler}
use riscv64_emulator.Jit.RegisterCache.{
  RegisterCache, host, update, contains, slot_of, acquire_cache_slot, fill_slot, lock_found,
  lock_one,
}
use riscv64_emulator.Jit.RegisterCache.Coherence.{Tracks}
use riscv64_emulator.Jit.RegisterCache.Reserving.{relabel-Tracks}
use riscv64_emulator.Jit.RegisterCache.Locking.{
  pending_with, fill_slot-filled, filled-Tracks, mapped-ne,
}

-- The host register `out` stands for guest register r: the zero register for register zero, and
-- otherwise a locked slot that holds r.
abbrev pub StandsFor : {asm : Assembler} → RegisterCache asm → A64R → Register → Type 0
StandsFor c out r =
    ((r ≡ 0) × (out ≡ xzr))
    ⊎ ((i : ℕ) × (c.register_to_slot r ≡ some i)
        × (out ≡ xreg (host i))
        × ((c.slots i).locked ≡ true))

-- Slots that were locked are still locked, with their registers.
abbrev pub KeepsLocked : {asm : Assembler} → RegisterCache asm → RegisterCache asm → Type 0
KeepsLocked c c' =
    (r i : ℕ)
    → c.register_to_slot r ≡ some i
    → (c.slots i).locked ≡ true
    → (c'.register_to_slot r ≡ some i) × ((c'.slots i).locked ≡ true)

pub StandsFor-KeepsLocked :
    {asm : Assembler} (c c' : RegisterCache asm) (out : A64R) (r : Register)
    → KeepsLocked c c'
    → StandsFor c out r
    → StandsFor c' out r
StandsFor-KeepsLocked c c' out r keeps (inl zero_register) = inl zero_register
StandsFor-KeepsLocked c c' out r keeps (inr (i, mapped, e, locked)) =
    let k = keeps r i mapped locked in inr (i, k.0, e, k.1)

-- What locking one register does; what becomes pending is the register, if it is not to be read.
pub record LocksOne (asm : Assembler) (pending : ℕ → Bool) (guest : ℕ → ℕ) (read : List ℕ)
    (r : Register) (c : RegisterCache asm) (out : A64R) (c' : RegisterCache asm) : Type 0 where
  pub next : ℕ → Bool
  pub tracks : Tracks asm next c' guest
  pub bounded : (q : ℕ) → next q ≡ true → (pending q ≡ true) ⊎ ((q ≡ r) × (contains r read ≡ false))
  pub stands : StandsFor c' out r
  pub keeps : KeepsLocked c c'

acquire-eq-ok :
    (asm : Assembler) (c d : RegisterCache asm) (k : ℕ) (xs : List ℕ)
    → c.free_slots ≡ xs
    → acquire_cache_slot asm c ≡ ok (k, d)
    → (rest : List ℕ) × (c.free_slots ≡ k ∷ rest) × (record c { free_slots = rest } ≡ d)
unfolding acquire_cache_slot
acquire-eq-ok asm c d k [] free e =
    let e' : ◌≡◌ {A = Result (ℕ × RegisterCache asm)} (fatal register_cache_full) (ok (k, d)) =
      rw free at e in
    cc
acquire-eq-ok asm c d k (j ∷ rest) free e =
    let e' : ◌≡◌ {A = Result (ℕ × RegisterCache asm)} (ok (j, record c { free_slots = rest }))
        (ok (k, d)) =
      rw free at e in
    let same : j ≡ k = cc in (rest, free ∙ ap (λ i. i ∷ rest) same, cc)

module _ (asm : Assembler) (pending : ℕ → Bool) (guest : ℕ → ℕ) (read : List ℕ)
    (c : RegisterCache asm) (t : Tracks asm pending c guest) where
  zero-LocksOne : (r : Register) → r ≡ 0 → LocksOne asm pending guest read r c xzr c
  zero-LocksOne r e = record {
    next = pending;
    tracks = t;
    bounded = λ q p. inl p;
    stands = inl (e, refl);
    keeps = λ q i mapped locked. (mapped, locked);
  }

  -- A register that has a slot.
  abbrev relocked : ℕ → RegisterCache asm
  relocked k =
      let s = c.slots k in
      record c {
        slots = update c.slots k (record s { locked = true; last_use = c.program_counter });
      }

  found-LocksOne :
      (r k : ℕ)
      → c.register_to_slot r ≡ some k
      → LocksOne asm pending guest read r c (xreg (host k)) (relocked k)
  found-LocksOne r k mapped = record {
    next = pending;
    tracks =
        relabel-Tracks asm pending guest c (relocked k).slots c.program_counter t
          (λ i. ground arith);
    bounded = λ q p. inl p;
    stands = inr (k, mapped, refl, ground arith);
    keeps = λ q i m locked. (m, ground arith);
  }

  -- A register that has none, with the slot that is free next.
  new-LocksOne :
      (r k : ℕ) (rest : List ℕ)
      → c.free_slots ≡ k ∷ rest
      → r < 32
      → r ≢ 0
      → c.register_to_slot r ≡ none
      → LocksOne asm pending guest read r c
          (xreg (host k))
          (fill_slot asm read (record c { free_slots = rest }) r k)
  new-LocksOne r k rest free range general missing =
      subst (LocksOne asm pending guest read r c (xreg (host k)))
        (sym (fill_slot-filled asm pending guest c t read r k rest free range general missing))
        (record {
          next = pending_with pending r read;
          tracks = filled-Tracks asm pending guest c t read r k rest free range general missing;
          bounded = λ q p. ground arith;
          stands = inr (k, ground arith, refl, ground arith);
          keeps = λ q i m locked.
              let ne =
                mapped-ne asm pending guest c t read r k rest free range general missing q i m in
              (ground arith, ground arith);
        })

  pub lock_one-LocksOne :
      (r : Register) (out : A64R) (c' : RegisterCache asm)
      → lock_one asm read c r ≡ ok (out, c')
      → LocksOne asm pending guest read r c out c'
  unfolding lock_one
  lock_one-LocksOne r out c' e = elim (Bool-cases (r == zero_reg)) [
    | inl zero_register ↦
        let same : ◌≡◌ {A = Result (A64R × RegisterCache asm)} (ok (xzr, c)) (ok (out, c')) =
          rw zero_register at e in
        let pair : ◌≡◌ {A = A64R × RegisterCache asm} (xzr, c) (out, c') = cc in
        subst (λ p. LocksOne asm pending guest read r c p.0 p.1) pair
          (zero-LocksOne r (ground arith))
    | inr general ↦
        let e' : (slot_of asm c r >>= λ found. lock_found asm read c r found) ≡ ok (out, c') =
          rw general at e in
        let (found, e1, e2) = >>=-eq-ok (slot_of asm c r) _ e' in
        by_slot found (ground arith) (ground arith) (ground arith) e2
  ]
    where
      by_slot :
          (found : Option ℕ)
          → c.register_to_slot r ≡ found
          → r < 32
          → r ≢ 0
          → lock_found asm read c r found ≡ ok (out, c')
          → LocksOne asm pending guest read r c out c'
      by_slot (some k) mapped range ne e' =
          let pair : ◌≡◌ {A = A64R × RegisterCache asm} (xreg (host k), relocked k) (out, c') =
            cc in
          subst (λ p. LocksOne asm pending guest read r c p.0 p.1) pair (found-LocksOne r k mapped)
      by_slot none missing range ne e' =
          let ((k, d), e1, e2) = >>=-eq-ok (acquire_cache_slot asm c) _ e' in
          let (rest, free, same) = acquire-eq-ok asm c d k c.free_slots refl e1 in
          let pair : ◌≡◌ {A = A64R × RegisterCache asm}
              (xreg (host k), fill_slot asm read (record c { free_slots = rest }) r k) (out, c') =
            cc in
          subst (λ p. LocksOne asm pending guest read r c p.0 p.1) pair
            (new-LocksOne r k rest free range ne missing)
