-- ===== src/Jit/RegisterCache/Locks.antt =====
-- Locking several registers at once (src/vm/jit/aarch64/RegisterCache.cpp): the code that follows
-- finds in the host registers the values that it is to read.
use riscv64_emulator.Prelude.{
  ℕ, ◌≡◌, ◌≢◌, ◌⊎◌, inl, inr, subst, arith, Bool, true, false, not, ◌&&◌, ◌||◌, List, [], ◌∷◌, ltb,
  ◌==◌, Bool-cases,
}
use riscv64_emulator.Prelude.Result.{
  ok, ◌>>◌, verify, >>=-eq-ok, verify-eq-ok, register_number_too_large,
}
use riscv64_emulator.Cpu.{Register, zero_reg}
use riscv64_emulator.Jit.Assembler.{A64R, xreg, Assembler, Sort}
use riscv64_emulator.Jit.RegisterCache.{
  RegisterCache, RegisterToLock, host, contains, insert, lock_one, reserve_registers,
  read_registers, lock_each, lock_registers_internal,
}
use riscv64_emulator.Jit.RegisterCache.Coherence.{Tracks}
use riscv64_emulator.Jit.RegisterCache.Reserving.{reserve_registers-Tracks}
use riscv64_emulator.Jit.RegisterCache.Locked.{
  StandsFor, KeepsLocked, StandsFor-KeepsLocked, lock_one-LocksOne,
}

-- Whether register q is named, and whether it is named to be read.
abbrev pub names : Register → List RegisterToLock → Bool
names q [] = false
names q (l ∷ ls) = q == l.reg || names q ls

abbrev pub reads : Register → List RegisterToLock → Bool
reads q [] = false
reads q (l ∷ ls) = (q == l.reg && not l.write_only) || reads q ls

contains-insert : (q a : ℕ) (bs : List ℕ) → contains q (insert a bs) ≡ (q == a || contains q bs)
contains-insert q a bs = ground arith

read_registers-reads :
    (asm : Assembler) (ls : List RegisterToLock) (known read : List ℕ) (q : Register)
    → q ≢ 0
    → read_registers asm ls known ≡ ok read
    → contains q read ≡ (reads q ls || contains q known)
unfolding read_registers
read_registers-reads asm [] known read q ne e = let same : known ≡ read = cc in rw same
read_registers-reads asm (l ∷ ls) known read q ne e =
    elim (Bool-cases (l.reg == zero_reg || l.write_only)) [
      | inl skipped ↦
          let rest = read_registers-reads asm ls known read q ne (rw skipped at e) in ground arith
      | inr kept ↦
          let e' : (verify (ltb l.reg 64) register_number_too_large
                >> read_registers asm ls (insert l.reg known))
              ≡ ok read =
            rw kept at e in
          let inner = (verify-eq-ok (ltb l.reg 64) register_number_too_large _ e').1 in
          let rest = read_registers-reads asm ls (insert l.reg known) read q ne inner in
          ground (arith, contains-insert q l.reg known)
    ]

-- What each host register stands for, in the order of the registers that were named. One that is
-- to be read holds the guest's value, unless it was pending before.
abbrev pub Outputs :
    {asm : Assembler}
    → (ℕ → Bool)
    → (ℕ → ℕ)
    → RegisterCache asm
    → List RegisterToLock
    → List RegisterToLock
    → List A64R
    → Type 0
Outputs pending guest c all [] [] = Unit
Outputs pending guest c all [] (out ∷ outs) = ⊥
Outputs pending guest c all (l ∷ ls) [] = ⊥
Outputs {asm} pending guest c all (l ∷ ls) (out ∷ outs) =
    StandsFor c out l.reg
    × (l.reg ≢ 0
        → reads l.reg all ≡ true
        → pending l.reg ≡ false
        → (n : ℕ) × (out ≡ xreg n) × (asm.value c.as_code n ≡ guest l.reg))
    × Outputs pending guest c all ls outs

-- Locking the registers `ls` leads from c to c' and gives `outs`.
pub record Locks (asm : Assembler) (pending : ℕ → Bool) (guest : ℕ → ℕ) (ls : List RegisterToLock)
    (outs : List A64R) (c' : RegisterCache asm) : Type 0 where
  pub next : ℕ → Bool
  pub tracks : Tracks asm next c' guest
  pub bounded :
      (q : ℕ)
      → q ≢ 0
      → next q ≡ true
      → (pending q ≡ true) ⊎ ((names q ls ≡ true) × (reads q ls ≡ false))
  pub outputs : Outputs pending guest c' ls ls outs

-- The loop, for a part of the registers.
abbrev AllStand : {asm : Assembler} → RegisterCache asm → List RegisterToLock → List A64R → Type 0
AllStand c [] [] = Unit
AllStand c [] (out ∷ outs) = ⊥
AllStand c (l ∷ ls) [] = ⊥
AllStand c (l ∷ ls) (out ∷ outs) = StandsFor c out l.reg × AllStand c ls outs

record LocksEach (asm : Assembler) (pending : ℕ → Bool) (guest : ℕ → ℕ) (read : List ℕ)
    (ls : List RegisterToLock) (c : RegisterCache asm) (outs : List A64R) (c' : RegisterCache asm)
    : Type 0 where
  next : ℕ → Bool
  tracks : Tracks asm next c' guest
  bounded :
      (q : ℕ)
      → next q ≡ true
      → (pending q ≡ true) ⊎ ((names q ls ≡ true) × (contains q read ≡ false))
  stand : AllStand c' ls outs
  keeps : KeepsLocked c c'

module _ (asm : Assembler) (guest : ℕ → ℕ) (read : List ℕ) where
  lock_each-LocksEach :
      (ls : List RegisterToLock) (pending : ℕ → Bool) (c c' : RegisterCache asm) (outs : List A64R)
      → Tracks asm pending c guest
      → lock_each asm read ls c ≡ ok (outs, c')
      → LocksEach asm pending guest read ls c outs c'
  unfolding lock_each
  lock_each-LocksEach [] pending c c' outs t e =
      let pair : ◌≡◌ {A = List A64R × RegisterCache asm} ([], c) (outs, c') = cc in
      subst (λ p. LocksEach asm pending guest read [] c p.0 p.1) pair
        (record {
          next = pending;
          tracks = t;
          bounded = λ q p. inl p;
          stand = tt;
          keeps = λ q i m locked. (m, locked);
        })
  lock_each-LocksEach (l ∷ ls) pending c c' outs t e =
      let ((out, d), e1, e2) = >>=-eq-ok (lock_one asm read c l.reg) _ e in
      let ((more, d'), e3, e4) = >>=-eq-ok (lock_each asm read ls d) _ e2 in
      let one = lock_one-LocksOne asm pending guest read c t l.reg out d e1 in
      let rest = lock_each-LocksEach ls one.next d d' more one.tracks e3 in
      let pair : ◌≡◌ {A = List A64R × RegisterCache asm} (out ∷ more, d') (outs, c') = cc in
      subst (λ p. LocksEach asm pending guest read (l ∷ ls) c p.0 p.1) pair
        (record {
          next = rest.next;
          tracks = rest.tracks;
          bounded = λ q p. ground (arith, rest.bounded q p, one.bounded q);
          stand = (StandsFor-KeepsLocked d d' out l.reg rest.keeps one.stands, rest.stand);
          keeps = λ q i m locked. let k = one.keeps q i m locked in rest.keeps q i k.0 k.1;
        })

-- A register whose value is up to date stands for the guest's.
StandsFor-value :
    (asm : Assembler) (next : ℕ → Bool) (guest : ℕ → ℕ) (c : RegisterCache asm) (out : A64R)
    (r : Register)
    → Tracks asm next c guest
    → StandsFor c out r
    → r ≢ 0
    → next r ≡ false
    → (n : ℕ) × (out ≡ xreg n) × (asm.value c.as_code n ≡ guest r)
StandsFor-value asm next guest c out r t (inl zero_register) busy up = absurd (busy zero_register.0)
StandsFor-value asm next guest c out r t (inr (i, mapped, e, locked)) busy up =
    (host i, e, t.cached r i mapped up)

module _ (asm : Assembler) (pending next : ℕ → Bool) (guest : ℕ → ℕ) (c : RegisterCache asm)
    (all : List RegisterToLock) (t : Tracks asm next c guest)
    (bounded : (q : ℕ)
      → q ≢ 0
      → next q ≡ true
      → (pending q ≡ true) ⊎ ((names q all ≡ true) × (reads q all ≡ false))) where
  up_to_date : (q : ℕ) → q ≢ 0 → reads q all ≡ true → pending q ≡ false → next q ≡ false
  up_to_date q busy read settled = elim (Bool-cases (next q)) [
    | inl late ↦ ground (arith, bounded q busy late)
    | inr up ↦ up
  ]

  AllStand-Outputs :
      (ls : List RegisterToLock) (outs : List A64R)
      → AllStand c ls outs
      → Outputs pending guest c all ls outs
  AllStand-Outputs [] [] stand = tt
  AllStand-Outputs [] (out ∷ outs) stand = stand
  AllStand-Outputs (l ∷ ls) [] stand = stand
  AllStand-Outputs (l ∷ ls) (out ∷ outs) stand = (
    stand.0,
    λ busy read settled.
        StandsFor-value asm next guest c out l.reg t stand.0 busy
          (up_to_date l.reg busy read settled),
    AllStand-Outputs ls outs stand.1,
  )

-- If locking the registers `ls` succeeds, the invariant still holds for the guest's registers; each
-- output stands for the register named, in a locked slot; those to be read hold the guest's values;
-- and only registers named as written only, and those that were pending, are pending afterwards.
pub lock_registers_internal-Locks :
    (asm : Assembler) (std : Sort) (pending : ℕ → Bool) (guest : ℕ → ℕ) (ls : List RegisterToLock)
    (c c' : RegisterCache asm) (outs : List A64R)
    → Tracks asm pending c guest
    → lock_registers_internal asm std ls c ≡ ok (outs, c')
    → Locks asm pending guest ls outs c'
unfolding lock_registers_internal
lock_registers_internal-Locks asm std pending guest ls c c' outs t e =
    let (d, e1, e2) = >>=-eq-ok (reserve_registers asm std ls c) _ e in
    let (read, e3, e4) = >>=-eq-ok (read_registers asm ls []) _ e2 in
    let each =
      lock_each-LocksEach asm guest read ls pending d c' outs
        (reserve_registers-Tracks asm pending guest std ls c d t e1) e4 in
    let bounded : (q : ℕ)
        → q ≢ 0
        → each.next q ≡ true
        → (pending q ≡ true) ⊎ ((names q ls ≡ true) × (reads q ls ≡ false)) =
      λ q busy late.
        ground (arith, each.bounded q late, read_registers-reads asm ls [] read q busy e3) in
    record {
      next = each.next;
      tracks = each.tracks;
      bounded = bounded;
      outputs =
          AllStand-Outputs asm pending each.next guest c' ls each.tracks bounded ls outs each.stand;
    }
