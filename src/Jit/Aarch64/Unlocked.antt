-- ===== src/Jit/Aarch64/Unlocked.antt =====
-- Unlocking the registers of an instruction of src/vm/jit/aarch64/CodeGenerator.cpp after its code
-- was appended.
use riscv64_emulator.Prelude.{ℕ, ◌≡◌, ◌≢◌, refl, ap, ◌∙◌, sym, subst, true, false, List}
use riscv64_emulator.Prelude.Result.{ok}
use riscv64_emulator.Jit.Assembler.{A64R, xreg}
use riscv64_emulator.Jit.RegisterCache.{RegisterCache, host, update}
use riscv64_emulator.Jit.A64.{A64, Call}
use riscv64_emulator.Jit.Aarch64.{CodeGenerator, with_code, emit_all, unlock}
use riscv64_emulator.Jit.Aarch64.Emitted.{
  AllPlain, run, appended, emit_all-appended, value-appended, table-appended,
}
use riscv64_emulator.Jit.Aarch64.Ready.{
  Ready, Holding, unlock_register-Holding, unlock_register-Ready,
}
use riscv64_emulator.Jit.Aarch64.Held.{Held, Operand}

module _ (a64 : A64) where
  -- The code that leads from g1 to g2 puts v in `dest`, and changes no other register but X8, and
  -- nothing else.
  pub record Writes (dest : A64R) (v : ℕ) (g1 g2 : CodeGenerator a64) : Type 0 where
    pub code : a64.base.Code
    pub only_code : g2 ≡ with_code a64 g1 code
    pub values :
        (k n : ℕ)
        → dest ≡ xreg k
        → n ≢ 8
        → a64.base.value code n ≡ update (a64.base.value g1.register_cache.as_code) k v n
    pub tables : (q : ℕ) → a64.base.table code q ≡ a64.base.table g1.register_cache.as_code q

  pub emit_all-Writes :
      (k v : ℕ) (g1 : CodeGenerator a64) (calls : List Call)
      → AllPlain calls
      → ((n : ℕ)
          → n ≢ 8
          → run calls (a64.base.value g1.register_cache.as_code) n
            ≡ update (a64.base.value g1.register_cache.as_code) k v n)
      → Writes (xreg k) v g1 (emit_all a64 g1 calls)
  emit_all-Writes k v g1 calls plain result = record {
    code = appended a64 g1.register_cache.as_code calls;
    only_code = emit_all-appended a64 g1 calls;
    values = λ j n e ne.
        ap (λ (f : ℕ → ℕ). f n) (value-appended a64 g1.register_cache.as_code calls plain)
        ∙ result n ne
        ∙ ap (λ m. update (a64.base.value g1.register_cache.as_code) m v n) (cc);
    tables = λ q. table-appended a64 g1.register_cache.as_code calls q plain;
  }

module _ (a64 : A64) (base_pc : ℕ) (guest : ℕ → ℕ) (d : ℕ) (g g1 g2 : CodeGenerator a64)
    (dest : A64R) (v : ℕ) (held : Held a64 base_pc guest d g g1 dest)
    (writes : Writes a64 dest v g1 g2) where
  -- The generator after the instruction: the guest's d is v, and no exit was added.
  pub record Unlocked (g' : CodeGenerator a64) : Type 0 where
    pub ready : Ready a64.base base_pc (update guest d v) g'.register_cache
    pub exits : g'.pending_exits ≡ g.pending_exits

  -- Unlocking `dest` in a cache that differs from the one after locking by what is locked.
  dest-Unlocked :
      (c : RegisterCache a64.base)
      → Holding a64.base base_pc guest d c
      → c.register_to_slot ≡ g1.register_cache.register_to_slot
      → c.as_code ≡ g1.register_cache.as_code
      → (g' : CodeGenerator a64) × (unlock a64
            (record g1 { register_cache = record c { as_code = writes.code } })
            dest
            true
          ≡ ok g')
        × Unlocked g'
  unfolding unlock
  dest-Unlocked c h m a =
      let (c', e, ready) =
        unlock_register-Ready a64.base base_pc guest d c writes.code held.slot v h
          (rw m held.mapped)
          (λ n ne.
            writes.values (host held.slot) n held.is_slot ne
            ∙ ap (λ code. update (a64.base.value code) (host held.slot) v n) (sym a))
          (λ q. writes.tables q ∙ ap (λ code. a64.base.table code q) (sym a)) in
      (
        record g1 { register_cache = c' },
        rw (held.is_slot, e) refl,
        record { ready = ready; exits = held.exits },
      )

  pub unlock-Unlocked : (g' : CodeGenerator a64) × (unlock a64 g2 dest true ≡ ok g') × Unlocked g'
  unlock-Unlocked =
      let (g', e, u) = dest-Unlocked g1.register_cache held.holding refl refl in
      (g', subst (λ m. unlock a64 m dest true ≡ ok g') (sym writes.only_code) e, u)

  pub unlock_two-Unlocked :
      (x : A64R) (r : ℕ)
      → Operand a64 base_pc guest g1 x r
      → (g3 g' : CodeGenerator a64) × (unlock a64 g2 x false ≡ ok g3)
        × (unlock a64 g3 dest true ≡ ok g')
        × Unlocked g'
  unfolding unlock
  unlock_two-Unlocked x r o =
      let (c, e, h, m, a) =
        unlock_register-Holding a64.base base_pc guest d g1.register_cache writes.code x r
          held.holding o.stands in
      let (g', e', u) = dest-Unlocked c h m a in
      (
        record g1 { register_cache = record c { as_code = writes.code } },
        g',
        rw (writes.only_code, e) refl,
        e',
        u,
      )

  pub unlock_three-Unlocked :
      (x y : A64R) (r s : ℕ)
      → Operand a64 base_pc guest g1 x r
      → Operand a64 base_pc guest g1 y s
      → (g3 g4 g' : CodeGenerator a64) × (unlock a64 g2 x false ≡ ok g3)
        × (unlock a64 g3 y false ≡ ok g4)
        × (unlock a64 g4 dest true ≡ ok g')
        × Unlocked g'
  unfolding unlock
  unlock_three-Unlocked x y r s o p =
      let (c, e, h, m, a) =
        unlock_register-Holding a64.base base_pc guest d g1.register_cache writes.code x r
          held.holding o.stands in
      let (c', e', h', m', a') =
        unlock_register-Holding a64.base base_pc guest d c writes.code y s h (rw m p.stands) in
      let (g', e'', u) = dest-Unlocked c' h' (m' ∙ m) (a' ∙ a) in
      (
        record g1 { register_cache = record c { as_code = writes.code } },
        record g1 { register_cache = record c' { as_code = writes.code } },
        g',
        rw (writes.only_code, e) refl,
        rw e' refl,
        e'',
        u,
      )
