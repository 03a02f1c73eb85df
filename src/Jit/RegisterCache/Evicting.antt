-- ===== src/Jit/RegisterCache/Evicting.antt =====
-- Eviction from the register cache (src/vm/jit/aarch64/RegisterCache.cpp).
use riscv64_emulator.Prelude.{
  ℕ, ◌<◌, ◌≡◌, ◌≢◌, inl, inr, refl, ap, ◌∙◌, arith, Bool, true, false, ◌∷◌, length, none, some, ltb,
  if◌then◌else◌, Bool-cases,
}
use native.Mathlib.Decide.{ℕ_discrete}
use riscv64_emulator.Prelude.Result.{ok, fatal, static_vector_full}
use riscv64_emulator.Jit.Assembler.{xreg, Assembler, count}
use riscv64_emulator.Jit.RegisterCache.{
  RegisterCache, empty_slot, cache_size, host, update, evict_slot, store_if_dirty,
  emit_register_store,
}
use riscv64_emulator.Jit.RegisterCache.Coherence.{Tracks}

module _ (asm : Assembler) (c : RegisterCache asm) (k : ℕ) where
  abbrev pub stored_code : asm.Code
  stored_code = (store_if_dirty asm c k).as_code

  -- Both ways of `store_if_dirty`.
  abbrev code_if : Bool → asm.Code
  code_if b = (if b then emit_register_store asm c (c.slots k).reg (xreg (host k)) else c).as_code

  code_if-value : (b : Bool) (n : ℕ) → asm.value (code_if b) n ≡ asm.value c.as_code n
  unfolding emit_register_store
  code_if-value true n = asm.value-str c.as_code (host k) n (c.slots k).reg
  code_if-value false n = refl

  code_if-other :
      (b : Bool) (r : ℕ) → r ≢ (c.slots k).reg → asm.table (code_if b) r ≡ asm.table c.as_code r
  unfolding emit_register_store
  code_if-other true r ne = asm.table-str_other c.as_code (host k) (c.slots k).reg r ne
  code_if-other false r ne = refl

  code_if_self :
      (b : Bool) → b ≡ true → asm.table (code_if b) (c.slots k).reg ≡ asm.value c.as_code (host k)
  unfolding emit_register_store
  code_if_self true e = asm.table-str_self c.as_code (host k) (c.slots k).reg
  code_if_self false e = cc

  code_if-clean : (b : Bool) → b ≡ false → code_if b ≡ c.as_code
  code_if-clean true e = cc
  code_if-clean false e = refl

  stored-value : (n : ℕ) → asm.value stored_code n ≡ asm.value c.as_code n
  unfolding store_if_dirty
  stored-value n = code_if-value (c.slots k).dirty n

  stored-other : (r : ℕ) → r ≢ (c.slots k).reg → asm.table stored_code r ≡ asm.table c.as_code r
  unfolding store_if_dirty
  stored-other r ne = code_if-other (c.slots k).dirty r ne

  stored_self :
      (c.slots k).dirty ≡ true
      → asm.table stored_code (c.slots k).reg ≡ asm.value c.as_code (host k)
  unfolding store_if_dirty
  stored_self dirty = code_if_self (c.slots k).dirty dirty

  stored-clean : (c.slots k).dirty ≡ false → stored_code ≡ c.as_code
  unfolding store_if_dirty
  stored-clean clean = code_if-clean (c.slots k).dirty clean

  -- The cache after slot k is evicted.
  abbrev pub evicted : RegisterCache asm
  evicted =
      let stored = store_if_dirty asm c k in
      record stored {
        register_to_slot = update c.register_to_slot (c.slots k).reg none;
        slots = update c.slots k empty_slot;
        free_slots = k ∷ c.free_slots;
      }

  pub evict_slot-evicted : (c' : RegisterCache asm) → evict_slot asm c k ≡ ok c' → evicted ≡ c'
  unfolding evict_slot
  evict_slot-evicted c' e = go (ltb (length c.free_slots) cache_size) e
    where
      go :
          (b : Bool)
          → (if b
              then ok (record (store_if_dirty asm c k) {
                register_to_slot = update c.register_to_slot (c.slots k).reg none;
                slots = update c.slots k empty_slot;
                free_slots = k ∷ c.free_slots;
              })
              else fatal static_vector_full)
            ≡ ok c'
          → evicted ≡ c'
      go true e' = cc
      go false e' = cc

  module _ (pending : ℕ → Bool) (guest : ℕ → ℕ) (t : Tracks asm pending c guest) (range : k < 17)
      (used : (c.slots k).reg ≢ 0) where
    was_mapped : c.register_to_slot (c.slots k).reg ≡ some k
    was_mapped = (t.slot_mapped k range used).1

    -- The slot of another register is another slot.
    other_slot :
        (r i : ℕ)
        → evicted.register_to_slot r ≡ some i
        → (c.register_to_slot r ≡ some i) × (r ≢ (c.slots k).reg) × (i ≢ k)
    other_slot r i e = ground (arith, t.mapped_slot r i)

    not_free : count k c.free_slots ≡ 0
    not_free = ground (arith, t.free_empty k)

    evicted-slots : (i : ℕ) → i ≢ k → evicted.slots i ≡ c.slots i
    evicted-slots i ne = ground arith

    evicted-mapped :
        (r : ℕ)
        → r ≢ (c.slots k).reg
        → evicted.register_to_slot r ≡ none
        → c.register_to_slot r ≡ none
    evicted-mapped r ne e = ground arith

    -- The register that was evicted is in the table now.
    evicted-table : asm.table stored_code (c.slots k).reg ≡ guest (c.slots k).reg
    evicted-table = elim (Bool-cases (c.slots k).dirty) [
      | inl dirty ↦
          stored_self dirty
          ∙ t.cached (c.slots k).reg k was_mapped (t.written (c.slots k).reg k was_mapped dirty)
      | inr clean ↦
          ap (λ code. asm.table code (c.slots k).reg) (stored-clean clean)
          ∙ t.clean (c.slots k).reg k was_mapped clean
    ]

    pub evicted-Tracks : Tracks asm pending evicted guest
    evicted-Tracks = record {
      slot_mapped = λ i h busy. ground (arith, t.slot_mapped i, was_mapped);
      mapped_slot = λ r i e. ground (arith, other_slot r i e, t.mapped_slot r i);
      free_empty = λ i h. ground (arith, t.free_empty i, range);
      free_once = λ i. ground (arith, t.free_once i, not_free);
      empty_clean = λ i e. ground (arith, t.empty_clean i);
      absent = λ r lt ne e. elim (ℕ_discrete r (c.slots k).reg) [
        | yes same ↦ rw same evicted-table
        | no other ↦ stored-other r other ∙ t.absent r lt ne (evicted-mapped r other e)
      ];
      clean = λ r i e d.
          let o = other_slot r i e in stored-other r o.1 ∙ t.clean r i o.0 (ground (arith, o.2));
      cached = λ r i e p. stored-value (host i) ∙ t.cached r i (other_slot r i e).0 p;
      written = λ r i e d. let o = other_slot r i e in t.written r i o.0 (ground (arith, o.2));
    }
