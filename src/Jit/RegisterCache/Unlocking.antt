-- ===== src/Jit/RegisterCache/Unlocking.antt =====
-- Unlocking a register of src/vm/jit/aarch64/RegisterCache.cpp that an instruction wrote.
use riscv64_emulator.Prelude.{
  ℕ, zero, suc, ◌<◌, ◌≡◌, ◌≢◌, refl, ap, arith, Bool, true, false, ◌&&◌, ◌||◌, some, ltb,
}
use riscv64_emulator.Prelude.Result.{ok}
use riscv64_emulator.Jit.Assembler.{xreg, Assembler}
use riscv64_emulator.Jit.RegisterCache.{RegisterCache, Slot, host, update}
use riscv64_emulator.Jit.RegisterCache.Release.{release, unlock_register}
use riscv64_emulator.Jit.RegisterCache.Coherence.{Tracks}

host_below : ℕ → Bool
host_below zero = true
host_below (suc n) = ltb (host n) 31 && host_below n

host_below_sound : (n i : ℕ) → host_below n ≡ true → i < n → host i < 31
unfolding host_below
host_below_sound zero i all h = absurd (omega arith)
host_below_sound (suc n) i all h = ground (arith, host_below_sound n i)

all_below : host_below 17 ≡ true
unfolding host_below host
all_below = refl

pub host_lt : (i : ℕ) → i < 17 → host i < 31
host_lt i h = host_below_sound 17 i all_below h

-- The host registers of the cache are known to the table of host registers.
abbrev pub KnowsHosts : {asm : Assembler} → RegisterCache asm → Type 0
KnowsHosts {asm} c =
    (i : ℕ) → i < 17 → c.platform_register_to_slot (asm.number (xreg (host i))) ≡ some i

pub unlock_register-release :
    (asm : Assembler) (c : RegisterCache asm) (i : ℕ) (make_dirty : Bool)
    → KnowsHosts c
    → i < 17
    → unlock_register asm c (xreg (host i)) make_dirty ≡ release asm c make_dirty (some i)
unfolding unlock_register
unlock_register-release asm c i make_dirty knows h =
    let small : ltb (asm.number (xreg (host i))) 32 ≡ true =
      ground (arith, asm.number_lt (host i) (host_lt i h)) in
    rw (small, knows i h)

module _ (asm : Assembler) (pending : ℕ → Bool) (guest : ℕ → ℕ) (c : RegisterCache asm)
    (code : asm.Code) (r i : ℕ) (t : Tracks asm pending c guest)
    (mapped : c.register_to_slot r ≡ some i)
    (same_value : (j : ℕ) → j < 17 → j ≢ i → asm.value code (host j) ≡ asm.value c.as_code (host j))
    (same_table : (q : ℕ) → asm.table code q ≡ asm.table c.as_code q) where
  abbrev pub written_slots : ℕ → Slot
  written_slots =
      let s = c.slots i in update c.slots i (record s { locked = false; dirty = s.dirty || true })

  -- Only this register is in the slot.
  only_here : (q j : ℕ) → c.register_to_slot q ≡ some j → q ≢ r → j ≢ i
  only_here q j at differ e = ground (arith, t.mapped_slot q j at, t.mapped_slot r i mapped)

  pub written-Tracks :
      Tracks asm
        (update pending r false)
        (record c { as_code = code; slots = written_slots })
        (update guest r (asm.value code (host i)))
  written-Tracks = record {
    slot_mapped = λ j h busy. ground (arith, t.slot_mapped j);
    mapped_slot = λ q j e. ground (arith, t.mapped_slot q j);
    free_empty = λ j h. ground (arith, t.free_empty j);
    free_once = λ j. t.free_once j;
    empty_clean = λ j e. ground (arith, t.empty_clean j, t.mapped_slot r i mapped);
    absent = λ q small busy e. ground (arith, t.absent q, same_table q);
    clean = λ q j at e. ground (arith, t.clean q j, same_table q, only_here q j, t.mapped_slot q j);
    cached = λ q j at e. ground (
      arith,
      t.cached q j at,
      same_value j (t.mapped_slot q j at).0,
      only_here q j at,
      t.mapped_slot q j at,
      λ (h : j ≡ i). ap host h,
    );
    written = λ q j at e. ground (arith, t.written q j at, only_here q j at);
  }

-- When the code after locking has put a value in the host register of r, and left the other host
-- registers of the cache and the table alone, unlocking it as dirty succeeds and the guest's r has
-- that value; the slot of r is then unlocked, dirty and otherwise as it was, the other slots, the
-- map and the free list are the same, and no code is emitted.
pub unlock_register-Tracks :
    (asm : Assembler) (pending : ℕ → Bool) (guest : ℕ → ℕ) (c : RegisterCache asm) (code : asm.Code)
    (r i : ℕ)
    → Tracks asm pending c guest
    → KnowsHosts c
    → c.register_to_slot r ≡ some i
    → ((j : ℕ) → j < 17 → j ≢ i → asm.value code (host j) ≡ asm.value c.as_code (host j))
    → ((q : ℕ) → asm.table code q ≡ asm.table c.as_code q)
    → (c' : RegisterCache asm) × (unlock_register asm
          (record c { as_code = code })
          (xreg (host i))
          true
        ≡ ok c')
      × Tracks asm (update pending r false) c' (update guest r (asm.value code (host i)))
      × ((c'.slots i).locked ≡ false)
      × ((c'.slots i).dirty ≡ true)
      × ((c'.slots i).reg ≡ r)
      × ((c'.slots i).last_use ≡ (c.slots i).last_use)
      × ((j : ℕ) → j ≢ i → c'.slots j ≡ c.slots j)
      × ((q : ℕ) → c'.register_to_slot q ≡ c.register_to_slot q)
      × (c'.free_slots ≡ c.free_slots)
      × (c'.as_code ≡ code)
unlock_register-Tracks asm pending guest c code r i t knows mapped same_value same_table =
    let s = c.slots i in
    (
      record c {
        as_code = code;
        slots = update c.slots i (record s { locked = false; dirty = s.dirty || true });
      },
      unlock_register-release asm (record c { as_code = code }) i true knows
          (t.mapped_slot r i mapped).0,
      written-Tracks asm pending guest c code r i t mapped same_value same_table,
      ground arith,
      ground arith,
      ground (arith, t.mapped_slot r i mapped),
      ground arith,
      λ j differ. ground arith,
      λ q. refl,
      refl,
      refl,
    )
