-- ===== src/Jit/RegisterCache/Coherence.antt =====
-- The invariant of the register cache (src/vm/jit/aarch64/RegisterCache.cpp): its tables agree with
-- each other, and the host registers and the guest register table hold the guest's registers.
use riscv64_emulator.Prelude.{
  ℕ, zero, suc, ◌-◌, ◌≤◌, ◌<◌, ◌≡◌, ◌≢◌, refl, ap, arith, Bool, true, false, ◌&&◌, none, some, ltb,
  ◌==◌, if◌then◌else◌,
}
use riscv64_emulator.Jit.Assembler.{Assembler, count}
use riscv64_emulator.Jit.RegisterCache.{RegisterCache, host}

-- Every register in `pending` was locked to be written only, and its slot is not yet written.
pub record Tracks (asm : Assembler) (pending : ℕ → Bool) (c : RegisterCache asm) (guest : ℕ → ℕ)
    : Type 0 where
  pub slot_mapped :
      (i : ℕ)
      → i < 17
      → (c.slots i).reg ≢ 0
      → ((c.slots i).reg < 32) × (c.register_to_slot (c.slots i).reg ≡ some i)
  pub mapped_slot :
      (r i : ℕ) → c.register_to_slot r ≡ some i → (i < 17) × ((c.slots i).reg ≡ r) × (r ≢ 0)
  pub free_empty : (i : ℕ) → 0 < count i c.free_slots → (i < 17) × ((c.slots i).reg ≡ 0)
  pub free_once : (i : ℕ) → count i c.free_slots ≤ 1
  pub empty_clean : (i : ℕ) → (c.slots i).reg ≡ 0 → (c.slots i).dirty ≡ false
  pub absent :
      (r : ℕ) → r < 32 → r ≢ 0 → c.register_to_slot r ≡ none → asm.table c.as_code r ≡ guest r
  pub clean :
      (r i : ℕ)
      → c.register_to_slot r ≡ some i
      → (c.slots i).dirty ≡ false
      → asm.table c.as_code r ≡ guest r
  pub cached :
      (r i : ℕ)
      → c.register_to_slot r ≡ some i
      → pending r ≡ false
      → asm.value c.as_code (host i) ≡ guest r
  pub written :
      (r i : ℕ) → c.register_to_slot r ≡ some i → (c.slots i).dirty ≡ true → pending r ≡ false

-- A slot is told by its host register.
host_index : ℕ → ℕ
host_index n = if ltb n 18 then n - 11 else n - 12

indexed_below : ℕ → Bool
indexed_below zero = true
indexed_below (suc n) = host_index (host n) == n && indexed_below n

indexed_below_sound : (n i : ℕ) → indexed_below n ≡ true → i < n → host_index (host i) ≡ i
unfolding indexed_below
indexed_below_sound zero i all h = absurd (omega arith)
indexed_below_sound (suc n) i all h = ground (arith, indexed_below_sound n i)

all_indexed : indexed_below 17 ≡ true
unfolding indexed_below host_index host
all_indexed = refl

pub host_injective : (i j : ℕ) → i < 17 → j < 17 → host i ≡ host j → i ≡ j
host_injective i j hi hj e = omega (
  arith,
  indexed_below_sound 17 i all_indexed hi,
  indexed_below_sound 17 j all_indexed hj,
  ap host_index e,
)
