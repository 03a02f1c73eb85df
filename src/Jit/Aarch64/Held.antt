-- ===== src/Jit/Aarch64/Held.antt =====
-- What an instruction of src/vm/jit/aarch64/CodeGenerator.cpp finds in the registers that it locked,
-- and what unlocking them leaves.
use riscv64_emulator.Prelude.{ℕ, ◌≡◌, ◌≢◌, inl, inr, refl, subst, arith, List, [], ◌∷◌, some}
use riscv64_emulator.Prelude.Result.{ok, >>=-eq-ok}
use riscv64_emulator.Cpu.{Register}
use riscv64_emulator.Jit.Assembler.{A64R, xreg, Sort}
use riscv64_emulator.Jit.RegisterCache.{RegisterCache, host, lock_registers_internal}
use riscv64_emulator.Jit.RegisterCache.Locks.{Outputs}
use riscv64_emulator.Jit.RegisterCache.Locked.{StandsFor}
use riscv64_emulator.Jit.A64.{A64, read}
use riscv64_emulator.Jit.Aarch64.{
  CodeGenerator, read_of, write_only_of, lock_one_of, lock_two, lock_three, one_of, two_of,
  three_of,
}
use riscv64_emulator.Jit.Aarch64.Ready.{
  nothing, Ready, Holding, Stands, StandsFor-Stands, StandsFor-read,
  lock_registers_internal-Holding,
}

module _ (a64 : A64) (base_pc : ℕ) (guest : ℕ → ℕ) where
  -- The generator g1 after locking from g, with `dest` for guest register d.
  pub record Held (d : Register) (g g1 : CodeGenerator a64) (dest : A64R) : Type 0 where
    pub slot : ℕ
    pub is_slot : dest ≡ xreg (host slot)
    pub mapped : g1.register_cache.register_to_slot d ≡ some slot
    pub holding : Holding a64.base base_pc guest d g1.register_cache
    pub exits : g1.pending_exits ≡ g.pending_exits

  -- A register that the instruction reads.
  pub record Operand (g1 : CodeGenerator a64) (x : A64R) (r : Register) : Type 0 where
    pub stands : Stands a64.base base_pc guest g1.register_cache x r
    pub holds_value : read (a64.base.value g1.register_cache.as_code) x ≡ guest r

  Held-Stands :
      (d : Register) (g g1 : CodeGenerator a64) (dest : A64R)
      → d ≢ 0
      → Holding a64.base base_pc guest d g1.register_cache
      → StandsFor g1.register_cache dest d
      → g1.pending_exits ≡ g.pending_exits
      → Held d g g1 dest
  Held-Stands d g g1 dest general h (inl z) exits = absurd (general z.0)
  Held-Stands d g g1 dest general h (inr (k, m, e, l)) exits = record {
    slot = k;
    is_slot = e;
    mapped = m;
    holding = h;
    exits = exits;
  }

  StandsFor-Operand :
      (d : Register) (g1 : CodeGenerator a64) (x : A64R) (r : Register)
      → guest 0 ≡ 0
      → Holding a64.base base_pc guest d g1.register_cache
      → StandsFor g1.register_cache x r
      → (r ≢ 0 → (n : ℕ) × (x ≡ xreg n) × (a64.base.value g1.register_cache.as_code n ≡ guest r))
      → Operand g1 x r
  StandsFor-Operand d g1 x r zero_guest h stands value = record {
    stands = StandsFor-Stands a64.base base_pc guest g1.register_cache x r stands;
    holds_value =
        StandsFor-read a64.base base_pc guest h.pending g1.register_cache x r h.tracks zero_guest
          stands value;
  }

  module _ (std : Sort) (g : CodeGenerator a64)
      (ready : Ready a64.base base_pc guest g.register_cache) (zero_guest : guest 0 ≡ 0) where
    pub lock_one_of-Held :
        (d : Register) (dest : A64R) (g1 : CodeGenerator a64)
        → d ≢ 0
        → lock_one_of a64 std g (write_only_of d) ≡ ok (dest, g1)
        → Held d g g1 dest
    unfolding lock_one_of
    lock_one_of-Held d dest g1 general e =
        let ls = write_only_of d ∷ [] in
        let ((outs, c), e1, e2) =
          >>=-eq-ok (lock_registers_internal a64.base std ls g.register_cache) _ e in
        let (h, outs_hold) =
          lock_registers_internal-Holding a64.base base_pc guest std d ls g.register_cache c outs
            (λ q ne named unread. ground arith) ready e1 in
        go outs c h outs_hold e2
      where
        go :
            (outs : List A64R) (c : RegisterCache a64.base)
            → Holding a64.base base_pc guest d c
            → Outputs nothing guest c (write_only_of d ∷ []) (write_only_of d ∷ []) outs
            → one_of a64 g c outs ≡ ok (dest, g1)
            → Held d g g1 dest
        go [] c h outs_hold e' = absurd outs_hold
        go (o ∷ []) c h outs_hold e' =
            let pair : ◌≡◌ {A = A64R × CodeGenerator a64} (o, record g { register_cache = c })
                (dest, g1) =
              cc in
            subst (λ p. Held d g p.1 p.0) pair
              (Held-Stands d g (record g { register_cache = c }) o general h outs_hold.0 refl)
        go (o ∷ z ∷ more) c h outs_hold e' = absurd outs_hold.2

    pub lock_two-Held :
        (d r : Register) (x dest : A64R) (g1 : CodeGenerator a64)
        → d ≢ 0
        → lock_two a64 std g (read_of r) (write_only_of d) ≡ ok (x, dest, g1)
        → Held d g g1 dest × Operand g1 x r
    unfolding lock_two
    lock_two-Held d r x dest g1 general e =
        let ls = read_of r ∷ write_only_of d ∷ [] in
        let ((outs, c), e1, e2) =
          >>=-eq-ok (lock_registers_internal a64.base std ls g.register_cache) _ e in
        let (h, outs_hold) =
          lock_registers_internal-Holding a64.base base_pc guest std d ls g.register_cache c outs
            (λ q ne named unread. ground arith) ready e1 in
        go outs c h outs_hold e2
      where
        go :
            (outs : List A64R) (c : RegisterCache a64.base)
            → Holding a64.base base_pc guest d c
            → Outputs nothing guest c
                (read_of r ∷ write_only_of d ∷ [])
                (read_of r ∷ write_only_of d ∷ [])
                outs
            → two_of a64 g c outs ≡ ok (x, dest, g1)
            → Held d g g1 dest × Operand g1 x r
        go [] c h outs_hold e' = absurd outs_hold
        go (a ∷ []) c h outs_hold e' = absurd outs_hold.2
        go (a ∷ o ∷ []) c h outs_hold e' =
            let pair : ◌≡◌ {A = A64R × A64R × CodeGenerator a64}
                (a, o, record g { register_cache = c }) (x, dest, g1) =
              cc in
            subst (λ p. Held d g p.2 p.1 × Operand p.2 p.0 r) pair
              ((
                Held-Stands d g (record g { register_cache = c }) o general h outs_hold.2.0 refl,
                StandsFor-Operand d (record g { register_cache = c }) a r zero_guest h outs_hold.0
                    (λ ne. outs_hold.1 ne (ground arith) refl),
              ))
        go (a ∷ o ∷ z ∷ more) c h outs_hold e' = absurd outs_hold.2.2

    pub lock_three-Held :
        (d r s : Register) (x y dest : A64R) (g1 : CodeGenerator a64)
        → d ≢ 0
        → lock_three a64 std g (read_of r) (read_of s) (write_only_of d) ≡ ok (x, y, dest, g1)
        → Held d g g1 dest × Operand g1 x r × Operand g1 y s
    unfolding lock_three
    lock_three-Held d r s x y dest g1 general e =
        let ls = read_of r ∷ read_of s ∷ write_only_of d ∷ [] in
        let ((outs, c), e1, e2) =
          >>=-eq-ok (lock_registers_internal a64.base std ls g.register_cache) _ e in
        let (h, outs_hold) =
          lock_registers_internal-Holding a64.base base_pc guest std d ls g.register_cache c outs
            (λ q ne named unread. ground arith) ready e1 in
        go outs c h outs_hold e2
      where
        go :
            (outs : List A64R) (c : RegisterCache a64.base)
            → Holding a64.base base_pc guest d c
            → Outputs nothing guest c
                (read_of r ∷ read_of s ∷ write_only_of d ∷ [])
                (read_of r ∷ read_of s ∷ write_only_of d ∷ [])
                outs
            → three_of a64 g c outs ≡ ok (x, y, dest, g1)
            → Held d g g1 dest × Operand g1 x r × Operand g1 y s
        go [] c h outs_hold e' = absurd outs_hold
        go (a ∷ []) c h outs_hold e' = absurd outs_hold.2
        go (a ∷ b ∷ []) c h outs_hold e' = absurd outs_hold.2.2
        go (a ∷ b ∷ o ∷ []) c h outs_hold e' =
            let pair : ◌≡◌ {A = A64R × A64R × A64R × CodeGenerator a64}
                (a, b, o, record g { register_cache = c }) (x, y, dest, g1) =
              cc in
            subst (λ p. Held d g p.3 p.2 × Operand p.3 p.0 r × Operand p.3 p.1 s) pair
              ((
                Held-Stands d g (record g { register_cache = c }) o general h outs_hold.2.2.0 refl,
                StandsFor-Operand d (record g { register_cache = c }) a r zero_guest h outs_hold.0
                    (λ ne. outs_hold.1 ne (ground arith) refl),
                StandsFor-Operand d (record g { register_cache = c }) b s zero_guest h outs_hold.2.0
                    (λ ne. outs_hold.2.1 ne (ground arith) refl),
              ))
        go (a ∷ b ∷ o ∷ z ∷ more) c h outs_hold e' = absurd outs_hold.2.2.2
