-- ===== src/Jit/Aarch64/Ready.antt =====
-- The invariant of the code generator between two instructions (src/vm/jit/aarch64/CodeGenerator.cpp):
-- its register cache holds the guest's registers, and X7 the program counter of the block.
use riscv64_emulator.Prelude.{
  ℕ, ◌<◌, ◌≡◌, ◌≢◌, ◌⊎◌, inl, inr, refl, ◌∙◌, sym, subst, arith, Bool, true, false, ◌||◌, List,
  some, Bool-cases,
}
use riscv64_emulator.Prelude.Result.{ok}
use riscv64_emulator.Cpu.{Register}
use riscv64_emulator.Jit.Assembler.{A64R, xreg, xzr, Assembler, Sort}
use riscv64_emulator.Jit.RegisterCache.{
  RegisterCache, RegisterToLock, host, update, lock_registers_internal,
}
use riscv64_emulator.Jit.RegisterCache.Release.{unlock_register}
use riscv64_emulator.Jit.RegisterCache.Coherence.{Tracks, host_injective}
use riscv64_emulator.Jit.RegisterCache.Reserving.{relabel-Tracks}
use riscv64_emulator.Jit.RegisterCache.Locked.{StandsFor}
use riscv64_emulator.Jit.RegisterCache.Locks.{names, reads, Outputs, lock_registers_internal-Locks}
use riscv64_emulator.Jit.RegisterCache.Unlocking.{
  KnowsHosts, unlock_register-release, written-Tracks, written_slots,
}
use riscv64_emulator.Jit.RegisterCache.Frame.{lock_registers_internal-Frame, host-ne}
use riscv64_emulator.Jit.A64.{read}

abbrev pub nothing : ℕ → Bool
nothing r = false

pub record Ready (asm : Assembler) (base_pc : ℕ) (guest : ℕ → ℕ) (c : RegisterCache asm)
    : Type 0 where
  pub tracks : Tracks asm nothing c guest
  pub hosts : KnowsHosts c
  pub based : asm.value c.as_code 7 ≡ base_pc

-- The register cache while the registers `ls` are locked, of which only `dest` is not up to date.
pub record Holding (asm : Assembler) (base_pc : ℕ) (guest : ℕ → ℕ) (dest : Register)
    (c : RegisterCache asm) : Type 0 where
  pub pending : ℕ → Bool
  pub tracks : Tracks asm pending c guest
  pub only : (q : ℕ) → q ≢ 0 → pending q ≡ true → q ≡ dest
  pub hosts : KnowsHosts c
  pub based : asm.value c.as_code 7 ≡ base_pc

settled-Tracks :
    (asm : Assembler) (pending : ℕ → Bool) (guest : ℕ → ℕ) (c : RegisterCache asm)
    → ((q : ℕ) → q ≢ 0 → pending q ≡ false)
    → Tracks asm pending c guest
    → Tracks asm nothing c guest
settled-Tracks asm pending guest c none_pending t = record {
  slot_mapped = t.slot_mapped;
  mapped_slot = t.mapped_slot;
  free_empty = t.free_empty;
  free_once = t.free_once;
  empty_clean = t.empty_clean;
  absent = t.absent;
  clean = t.clean;
  cached = λ r i m e. t.cached r i m (none_pending r (t.mapped_slot r i m).2);
  written = λ r i m e. refl;
}

module _ (asm : Assembler) (base_pc : ℕ) (guest : ℕ → ℕ) where
  -- Locking registers of which only `dest` is named but not read.
  pub lock_registers_internal-Holding :
      (std : Sort) (dest : Register) (ls : List RegisterToLock) (c c' : RegisterCache asm)
      (outs : List A64R)
      → ((q : ℕ) → q ≢ 0 → names q ls ≡ true → reads q ls ≡ false → q ≡ dest)
      → Ready asm base_pc guest c
      → lock_registers_internal asm std ls c ≡ ok (outs, c')
      → Holding asm base_pc guest dest c' × Outputs nothing guest c' ls ls outs
  lock_registers_internal-Holding std dest ls c c' outs one ready e =
      let locks = lock_registers_internal-Locks asm std nothing guest ls c c' outs ready.tracks e in
      let frame = lock_registers_internal-Frame asm std ls c c' outs e in
      (
        record {
          pending = locks.next;
          tracks = locks.tracks;
          only = λ q ne late. ground (arith, locks.bounded q ne late, one q ne);
          hosts = λ i h. rw frame.platform (ready.hosts i h);
          based = frame.apart 7 (omega arith) (omega arith) ∙ ready.based;
        },
        locks.outputs,
      )

  -- A register that is to be read holds the guest's value, in the zero register or one of the cache.
  pub StandsFor-read :
      (pending : ℕ → Bool) (c : RegisterCache asm) (out : A64R) (r : Register)
      → Tracks asm pending c guest
      → guest 0 ≡ 0
      → StandsFor c out r
      → (r ≢ 0 → (n : ℕ) × (out ≡ xreg n) × (asm.value c.as_code n ≡ guest r))
      → read (asm.value c.as_code) out ≡ guest r
  StandsFor-read pending c out r t zero_guest (inl (z, e)) value = rw (e, z) (sym zero_guest)
  StandsFor-read pending c out r t zero_guest (inr (i, m, e, l)) value =
      let (n, e', v) = value (t.mapped_slot r i m).2 in rw e' v

  -- Where the host register of r is.
  abbrev pub Stands : RegisterCache asm → A64R → Register → Type 0
  Stands c out r =
      ((r ≡ 0) × (out ≡ xzr)) ⊎ ((i : ℕ) × (c.register_to_slot r ≡ some i) × (out ≡ xreg (host i)))

  pub StandsFor-Stands :
      (c : RegisterCache asm) (out : A64R) (r : Register) → StandsFor c out r → Stands c out r
  StandsFor-Stands c out r (inl z) = inl z
  StandsFor-Stands c out r (inr (i, m, e, l)) = inr (i, m, e)

  -- None of them is X8.
  pub Stands-ne_scratch :
      (c : RegisterCache asm) (out : A64R) (r : Register) → Stands c out r → out ≢ xreg 8
  Stands-ne_scratch c out r (inl (z, e)) same = cc
  Stands-ne_scratch c out r (inr (i, m, e)) same =
      let h = host-ne i 8 (omega arith) (omega arith) in
      let k : xreg (host i) ≡ xreg 8 = cc in absurd (h (cc))

  -- Unlocking a register that was read.
  pub unlock_register-Holding :
      (dest : Register) (c : RegisterCache asm) (code : asm.Code) (out : A64R) (r : Register)
      → Holding asm base_pc guest dest c
      → Stands c out r
      → (d : RegisterCache asm) × (unlock_register asm (record c { as_code = code }) out false
          ≡ ok (record d { as_code = code }))
        × Holding asm base_pc guest dest d
        × (d.register_to_slot ≡ c.register_to_slot)
        × (d.as_code ≡ c.as_code)
  unfolding unlock_register
  unlock_register-Holding dest c code out r h (inl (z, e)) = (c, rw e refl, h, refl, refl)
  unlock_register-Holding dest c code out r h (inr (i, m, e)) =
      let s = c.slots i in
      let slots' = update c.slots i (record s { locked = false; dirty = s.dirty || false }) in
      let d = record c { slots = slots' } in
      (
        d,
        rw e (
            unlock_register-release asm (record c { as_code = code }) i false h.hosts
              (h.tracks.mapped_slot r i m).0),
        record {
          pending = h.pending;
          tracks =
              relabel-Tracks asm h.pending guest c slots' c.program_counter h.tracks
                (λ j. ground arith);
          only = h.only;
          hosts = h.hosts;
          based = h.based;
        },
        refl,
        refl,
      )

  -- Unlocking the register that was written, as dirty: the cache holds the new value.
  pub unlock_register-Ready :
      (dest : Register) (c : RegisterCache asm) (code : asm.Code) (i v : ℕ)
      → Holding asm base_pc guest dest c
      → c.register_to_slot dest ≡ some i
      → ((n : ℕ) → n ≢ 8 → asm.value code n ≡ update (asm.value c.as_code) (host i) v n)
      → ((q : ℕ) → asm.table code q ≡ asm.table c.as_code q)
      → (c' : RegisterCache asm) × (unlock_register asm
            (record c { as_code = code })
            (xreg (host i))
            true
          ≡ ok c')
        × Ready asm base_pc (update guest dest v) c'
  unlock_register-Ready dest c code i v h m values tables =
      let at = h.tracks.mapped_slot dest i m in
      let high = λ (j n : ℕ). host-ne j n in
      let here : asm.value code (host i) ≡ v =
        values (host i) (λ e. high i 8 (omega arith) (omega arith) (sym e)) ∙ (ground arith) in
      let others : (j : ℕ)
          → j < 17
          → j ≢ i
          → asm.value code (host j) ≡ asm.value c.as_code (host j) =
        λ j small ne.
          let apart : host j ≢ host i = λ e. ne (host_injective j i small at.0 e) in
          values (host j) (λ e. high j 8 (omega arith) (omega arith) (sym e)) ∙ (ground arith) in
      let t = written-Tracks asm h.pending guest c code dest i h.tracks m others tables in
      let d = record c {
        as_code = code;
        slots = written_slots asm h.pending guest c code dest i h.tracks m others tables;
      } in
      (
        d,
        unlock_register-release asm (record c { as_code = code }) i true h.hosts at.0,
        record {
          tracks =
              settled-Tracks asm (update h.pending dest false) (update guest dest v) d
                (λ q ne. settled q ne (Bool-cases (h.pending q)))
                (subst (λ w. Tracks asm (update h.pending dest false) d (update guest dest w)) here
                  t);
          hosts = h.hosts;
          based = values 7 (omega arith) ∙ ground (arith, high i 7, h.based);
        },
      )
    where
      settled :
          (q : ℕ)
          → q ≢ 0
          → (h.pending q ≡ true) ⊎ (h.pending q ≡ false)
          → update h.pending dest false q ≡ false
      settled q ne (inl late) = let e = h.only q ne late in ground arith
      settled q ne (inr up) = ground arith
