-- ===== src/Jit/RegisterCache/Locking.antt =====
-- `lock_registers_internal` of src/vm/jit/aarch64/RegisterCache.cpp.
use riscv64_emulator.Prelude.{
  ℕ, ◌*◌, ◌≤◌, ◌<◌, ◌≡◌, ◌≢◌, ◌⊎◌, inl, inr, refl, ◌∙◌, sym, arith, Bool, true, false, not, ◌&&◌,
  ◌||◌, List, ◌∷◌, none, some, ◌==◌, if◌then◌else◌,
}
use native.Mathlib.Decide.{ℕ_discrete}
use riscv64_emulator.Jit.Assembler.{xreg, Assembler, count}
use riscv64_emulator.Jit.RegisterCache.{
  RegisterCache, host, update, contains, emit_register_load, fill_slot,
}
use riscv64_emulator.Jit.RegisterCache.Coherence.{Tracks, host_injective}

-- The registers that are pending once register r has a slot: r too, unless it is to be read.
abbrev pub pending_with : (ℕ → Bool) → ℕ → List ℕ → ℕ → Bool
pending_with pending r read q = pending q || (q == r && not (contains r read))

module _ (asm : Assembler) (pending : ℕ → Bool) (guest : ℕ → ℕ) (c : RegisterCache asm)
    (t : Tracks asm pending c guest) (read : List ℕ) (r k : ℕ) (rest : List ℕ)
    (free : c.free_slots ≡ k ∷ rest) (range : r < 32) (general : r ≢ 0)
    (missing : c.register_to_slot r ≡ none) where
  -- The code after the load, if the register is to be read.
  abbrev pub code_if : Bool → asm.Code
  code_if b = if b then asm.ldr c.as_code (xreg (host k)) (r * 8) else c.as_code

  -- The cache with the free slot taken.
  abbrev pub filled : RegisterCache asm
  filled =
      let s = c.slots k in
      record c {
        as_code = code_if (contains r read);
        slots =
            update c.slots k (record s { reg = r; locked = true; last_use = c.program_counter });
        register_to_slot = update c.register_to_slot r (some k);
        free_slots = rest;
      }

  pub fill_slot-filled : fill_slot asm read (record c { free_slots = rest }) r k ≡ filled
  unfolding fill_slot
  fill_slot-filled = go (contains r read)
    where
      go :
          (b : Bool)
          → (let s = c.slots k in
              let c' : RegisterCache asm = record c {
                slots =
                    update c.slots k
                      (record s { reg = r; locked = true; last_use = c.program_counter });
                register_to_slot = update c.register_to_slot r (some k);
                free_slots = rest;
              } in
              ((if b then emit_register_load asm c' (xreg (host k)) r else c')
                ≡ record c' { as_code = code_if b }))
      go true = refl
      go false = refl

  slot_range : (k < 17) × ((c.slots k).reg ≡ 0)
  slot_range = t.free_empty k (rw free (ground arith))

  taken : count k rest ≡ 0
  taken = let once : count k (k ∷ rest) ≤ 1 = rw free at (t.free_once k) in ground arith

  -- The other slots hold other registers.
  pub mapped-ne : (q i : ℕ) → c.register_to_slot q ≡ some i → (q ≢ r) × (i ≢ k)
  mapped-ne q i e = (
    λ same. let found : c.register_to_slot r ≡ some i = rw same at e in cc,
    λ same.
        let m = t.mapped_slot q i e in
        let empty : (c.slots i).reg ≡ 0 = rw same slot_range.1 in m.2 (sym m.1 ∙ empty),
  )

  code_if-table : (b : Bool) (q : ℕ) → asm.table (code_if b) q ≡ asm.table c.as_code q
  code_if-table true q = asm.table-ldr c.as_code (host k) r q
  code_if-table false q = refl

  code_if-other :
      (b : Bool) (i : ℕ)
      → i < 17
      → i ≢ k
      → asm.value (code_if b) (host i) ≡ asm.value c.as_code (host i)
  code_if-other true i h ne =
      asm.value-ldr_other c.as_code (host k) (host i) r
        (λ e. ne (host_injective i k h slot_range.0 e))
  code_if-other false i h ne = refl

  code_if_self : (b : Bool) → b ≡ true → asm.value (code_if b) (host k) ≡ asm.table c.as_code r
  code_if_self true e = asm.value-ldr_self c.as_code (host k) r
  code_if_self false e = cc

  -- A slot of the filled cache: the new one, or one of before.
  filled-mapped :
      (q i : ℕ)
      → filled.register_to_slot q ≡ some i
      → ((q ≡ r) × (i ≡ k)) ⊎ ((q ≢ r) × (i ≢ k) × (c.register_to_slot q ≡ some i))
  filled-mapped q i e = elim (ℕ_discrete q r) [
    | yes same ↦ inl (same, ground arith)
    | no other ↦
        let before : c.register_to_slot q ≡ some i = ground arith in
        inr (other, (mapped-ne q i before).1, before)
  ]

  table_r : asm.table c.as_code r ≡ guest r
  table_r = t.absent r range general missing

  pub filled-Tracks : Tracks asm (pending_with pending r read) filled guest
  filled-Tracks = record {
    slot_mapped = λ i h busy. ground (arith, t.slot_mapped i, mapped-ne (c.slots i).reg i, range);
    mapped_slot =
        λ q i e. ground (arith, filled-mapped q i e, t.mapped_slot q i, slot_range, general);
    free_empty = λ i h.
        let before = t.free_empty i (rw free (ground arith)) in ground (arith, before, taken);
    free_once = λ i. let once : count i (k ∷ rest) ≤ 1 = rw free at (t.free_once i) in ground arith;
    empty_clean = λ i e. ground (arith, t.empty_clean i, general);
    absent = λ q lt ne e. code_if-table (contains r read) q ∙ t.absent q lt ne (ground arith);
    clean = λ q i e d. elim (filled-mapped q i e) [
      | inl (same, here) ↦ code_if-table (contains r read) q ∙ rw same table_r
      | inr (ne, other, before) ↦
          code_if-table (contains r read) q ∙ t.clean q i before (ground arith)
    ];
    cached = λ q i e p. elim (filled-mapped q i e) [
      | inl (same, here) ↦ rw here (code_if_self (contains r read) (ground arith) ∙ rw same table_r)
      | inr (ne, other, before) ↦
          code_if-other (contains r read) i (t.mapped_slot q i before).0 other
          ∙ t.cached q i before (ground arith)
    ];
    written = λ q i e d. elim (filled-mapped q i e) [
      | inl (same, here) ↦ ground (arith, t.empty_clean k slot_range.1)
      | inr (ne, other, before) ↦ let old = t.written q i before (ground arith) in ground arith
    ];
  }
