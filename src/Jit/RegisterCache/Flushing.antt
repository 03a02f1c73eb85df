-- ===== src/Jit/RegisterCache/Flushing.antt =====
-- Snapshots and flushing (src/vm/jit/aarch64/RegisterCache.cpp): the guest register table gets back
-- every register that a slot holds.
use riscv64_emulator.Prelude.{
  ℕ, zero, suc, ◌+◌, ◌<◌, ◌≡◌, ◌≢◌, inl, inr, refl, ap, ◌∙◌, sym, arith, Bool, true, false, not,
  ◌||◌, [], ◌∷◌, get_or, some, ltb, leb, ◌==◌, if◌then◌else◌, Bool-cases, Option-cases,
}
use riscv64_emulator.Prelude.Word.{u8}
use riscv64_emulator.Prelude.Result.{ok}
use riscv64_emulator.Cpu.{Register, zero_reg}
use riscv64_emulator.Jit.Assembler.{xreg, Assembler}
use riscv64_emulator.Jit.RegisterCache.{RegisterCache, Slot, host, emit_register_store}
use riscv64_emulator.Jit.RegisterCache.Release.{
  StateSnapshot, snapshot_from, take_state_snapshot, flush_from, flush_registers,
}
use riscv64_emulator.Jit.RegisterCache.Coherence.{Tracks}

-- What a snapshot holds for a slot.
abbrev noted : Slot → Register
noted s = if s.dirty then s.reg else 0

noted-below :
    (left i : ℕ) (slots : ℕ → Slot)
    → ((j : ℕ) → j < i + suc left → (slots j).reg < 32)
    → (j : ℕ) → j < (i + 1) + left
    → (slots j).reg < 32
noted-below left i slots small j h = small j (omega arith)

noted-cons :
    (left i : ℕ) (slots : ℕ → Slot) (s : StateSnapshot)
    → ((j : ℕ) → get_or s j 0 ≡ (if ltb j left then noted (slots (i + 1 + j)) else 0))
    → (j : ℕ)
    → get_or (noted (slots i) ∷ s) j 0 ≡ (if ltb j (suc left) then noted (slots (i + j)) else 0)
noted-cons left i slots s entries zero = ground arith
noted-cons left i slots s entries (suc j) =
    entries j
    ∙ let same : i + 1 + j ≡ i + suc j = omega arith in
      ground (arith, same, ap (λ k. noted (slots k)) same)

snapshot_from-ok :
    (slots : ℕ → Slot) (left i : ℕ) (s : StateSnapshot)
    → (slots i).reg < 32
    → snapshot_from slots left (i + 1) ≡ ok s
    → snapshot_from slots (suc left) i ≡ ok (noted (slots i) ∷ s)
unfolding snapshot_from
snapshot_from-ok slots left i s small e =
    elim (Bool-cases ((slots i).reg == zero_reg || not (slots i).dirty)) [
      | inl skip ↦
          let zero_noted : zero_reg ≡ noted (slots i) = ground arith in
          rw (skip, e) (ap (λ r. ok (r ∷ s)) zero_noted)
      | inr keep ↦
          let fits : leb (slots i).reg 255 ≡ true = ground arith in
          let same : u8 (slots i).reg ≡ noted (slots i) = ground arith in
          rw (keep, fits, e) (ap (λ r. ok (r ∷ s)) same)
    ]

-- A snapshot succeeds when the slots hold registers below 32, and its entries are those.
snapshot_from-noted :
    (slots : ℕ → Slot) (left i : ℕ)
    → ((j : ℕ) → j < i + left → (slots j).reg < 32)
    → (s : StateSnapshot) × (snapshot_from slots left i ≡ ok s)
      × ((j : ℕ) → get_or s j 0 ≡ (if ltb j left then noted (slots (i + j)) else 0))
unfolding snapshot_from
snapshot_from-noted slots zero i small = ([], refl, λ j. ground arith)
snapshot_from-noted slots (suc left) i small =
    let (s, e, entries) = snapshot_from-noted slots left (i + 1) (noted-below left i slots small) in
    (
      noted (slots i) ∷ s,
      snapshot_from-ok slots left i s (small i (omega arith)) e,
      noted-cons left i slots s entries,
    )

module _ (asm : Assembler) where
  -- One step of the loop.
  abbrev store_noted : Register → ℕ → RegisterCache asm → RegisterCache asm
  store_noted r i c = if r == zero_reg then c else emit_register_store asm c r (xreg (host i))

  store_noted-value :
      (r i k : ℕ) (c : RegisterCache asm)
      → asm.value (store_noted r i c).as_code k ≡ asm.value c.as_code k
  unfolding emit_register_store
  store_noted-value r i k c = go (r == zero_reg)
    where
      go :
          (b : Bool)
          → asm.value (if b then c else emit_register_store asm c r (xreg (host i))).as_code k
            ≡ asm.value c.as_code k
      go true = refl
      go false = asm.value-str c.as_code (host i) k r

  store_noted-other :
      (r i q : ℕ) (c : RegisterCache asm)
      → q ≢ r
      → asm.table (store_noted r i c).as_code q ≡ asm.table c.as_code q
  unfolding emit_register_store
  store_noted-other r i q c other = go (r == zero_reg)
    where
      go :
          (b : Bool)
          → asm.table (if b then c else emit_register_store asm c r (xreg (host i))).as_code q
            ≡ asm.table c.as_code q
      go true = refl
      go false = asm.table-str_other c.as_code (host i) r q other

  store_noted_self :
      (r i : ℕ) (c : RegisterCache asm)
      → r ≢ 0
      → asm.table (store_noted r i c).as_code r ≡ asm.value c.as_code (host i)
  unfolding emit_register_store
  store_noted_self r i c busy = go (r == zero_reg) (ground arith)
    where
      go :
          (b : Bool)
          → b ≡ false
          → asm.table (if b then c else emit_register_store asm c r (xreg (host i))).as_code r
            ≡ asm.value c.as_code (host i)
      go true e = absurd (ground arith)
      go false e = asm.table-str_self c.as_code (host i) r

  flush_from-other :
      (s : StateSnapshot) (i q : ℕ) (c : RegisterCache asm)
      → q ≢ 0
      → ((j : ℕ) → get_or s j 0 ≢ q)
      → asm.table (flush_from asm s i c).as_code q ≡ asm.table c.as_code q
  unfolding flush_from
  flush_from-other [] i q c busy differ = refl
  flush_from-other (r ∷ s) i q c busy differ =
      flush_from-other s (i + 1) q (store_noted r i c) busy (λ j. differ (suc j))
      ∙ store_noted-other r i q c (λ e. differ 0 (sym e))

  flush_from_self :
      (s : StateSnapshot) (i j q : ℕ) (c : RegisterCache asm)
      → q ≢ 0
      → get_or s j 0 ≡ q
      → ((k : ℕ) → get_or s k 0 ≡ q → k ≡ j)
      → asm.table (flush_from asm s i c).as_code q ≡ asm.value c.as_code (host (i + j))
  unfolding flush_from
  flush_from_self [] i j q c busy found only = absurd (busy (sym found))
  flush_from_self (r ∷ s) i zero q c busy found only =
      flush_from-other s (i + 1) q (store_noted r i c) busy (λ k e. ground (arith, only (suc k) e))
      ∙ ground (arith, store_noted_self r i c, ap (λ n. n) found)
  flush_from_self (r ∷ s) i (suc j) q c busy found only =
      flush_from_self s (i + 1) j q (store_noted r i c) busy found
        (λ k e. ground (arith, only (suc k) e))
      ∙ ground (arith, store_noted-value r i (host (i + 1 + j)) c)

  -- Every slot's register is below 32.
  slots-small :
      (pending : ℕ → Bool) (guest : ℕ → ℕ) (c : RegisterCache asm)
      → Tracks asm pending c guest
      → (j : ℕ) → j < 17
      → (c.slots j).reg < 32
  slots-small pending guest c t j h = ground (arith, t.slot_mapped j h)

  module _ (pending : ℕ → Bool) (guest : ℕ → ℕ) (c d : RegisterCache asm)
      (t : Tracks asm pending c guest)
      (same_value : (i : ℕ) → i < 17 → asm.value d.as_code (host i) ≡ asm.value c.as_code (host i))
      (same_table : (q : ℕ) → asm.table d.as_code q ≡ asm.table c.as_code q) where
    module _ (s : StateSnapshot)
        (entries : (j : ℕ) → get_or s j 0 ≡ (if ltb j 17 then noted (c.slots j) else 0)) where
      -- The slot that a snapshot's entry names.
      entry-slot :
          (q k : ℕ)
          → q ≢ 0
          → get_or s k 0 ≡ q
          → (c.register_to_slot q ≡ some k) × ((c.slots k).dirty ≡ true)
      entry-slot q k busy e = ground (arith, entries k, t.slot_mapped k)

      flushed-guest :
          (r : Register) → r < 32 → r ≢ 0 → asm.table (flush_from asm s 0 d).as_code r ≡ guest r
      flushed-guest r small busy = elim (Option-cases (c.register_to_slot r)) [
        | inl none_mapped ↦
            flush_from-other s 0 r d busy (λ j e. ground (arith, entry-slot r j busy e))
            ∙ same_table r
            ∙ t.absent r small busy none_mapped
        | inr (i, mapped) ↦ elim (Bool-cases (c.slots i).dirty) [
          | inl dirty ↦
              let stored =
                flush_from_self s 0 i r d busy (ground (arith, entries i, t.mapped_slot r i mapped))
                  (λ k e. ground (arith, entry-slot r k busy e)) in
              stored
              ∙ ap (λ k. asm.value d.as_code (host k)) (omega arith)
              ∙ same_value i (t.mapped_slot r i mapped).0
              ∙ t.cached r i mapped (t.written r i mapped dirty)
          | inr clean ↦
              flush_from-other s 0 r d busy (λ j e. ground (arith, entry-slot r j busy e))
              ∙ same_table r
              ∙ t.clean r i mapped clean
        ]
      ]

  -- A snapshot of c can be taken, and flushing it with the cache d gives the table every register
  -- of the guest, if d's code leaves the cache's registers and the table as c's does.
  pub flush_registers-restores :
      (pending : ℕ → Bool) (guest : ℕ → ℕ) (c d : RegisterCache asm) (r : Register)
      → Tracks asm pending c guest
      → ((i : ℕ) → i < 17 → asm.value d.as_code (host i) ≡ asm.value c.as_code (host i))
      → ((q : ℕ) → asm.table d.as_code q ≡ asm.table c.as_code q)
      → r < 32
      → r ≢ 0
      → (s : StateSnapshot) × (take_state_snapshot asm c ≡ ok s)
        × (asm.table (flush_registers asm d s).as_code r ≡ guest r)
  unfolding take_state_snapshot flush_registers
  flush_registers-restores pending guest c d r t same_value same_table small busy =
      let (s, e, entries) = snapshot_from-noted c.slots 17 0 (slots-small pending guest c t) in
      (
        s,
        e,
        flushed-guest pending guest c d t same_value same_table s (λ j. ground (arith, entries j)) r
            small busy,
      )
