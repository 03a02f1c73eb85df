-- ===== src/Memory/Permissions.antt =====
-- `set_permissions` of src/vm/Memory.cpp.
use riscv64_emulator.Prelude.{ℕ, ◌+◌, ◌≤◌, ◌<◌, ◌≡◌, ◌⊎◌, ◌↔◌, inl, refl, arith, true, bit_and}
use riscv64_emulator.Prelude.Word.{u8}
use riscv64_emulator.Prelude.Result.{ok}
use riscv64_emulator.Memory.{
  Memory, Flags, permissions_base, bytes_at, overwrite, fill, set_permissions,
}
use riscv64_emulator.Memory.Bytes.{bytes_at_ext, overwrite_outside}
use riscv64_emulator.Memory.Accepts.{IsValid, Permits, in_range}

abbrev pub protected : Memory → ℕ → ℕ → Flags → Memory
protected m address n flags = record m {
  raw = overwrite m.raw (permissions_base m + address) n (λ _. u8 flags);
}

module _ (m : Memory) (v : IsValid m) (address n : ℕ) (flags : Flags)
    (h : address + n ≤ m.size) where
  pub set_permissions_lem :
      set_permissions m address n flags ≡ ok (true, protected m address n flags)
  unfolding set_permissions fill
  set_permissions_lem = ground (arith, in_range m v address n h, v.fits)

  pub protected-IsValid : IsValid (protected m address n flags)
  protected-IsValid = record {
    fits = v.fits;
    host_size = v.host_size;
    is_bytes = λ j. ground (arith, v.is_bytes j);
  }

-- Setting the permissions of a range inside the memory succeeds and keeps the size of the memory and
-- of its allocation. The permissions of every byte of the range are then the flags, and every other
-- byte of the allocation, contents and permissions, is what it was: a range that is not empty
-- permits an access if and only if the flags have what it requires, a range apart from it permits
-- what it did and no more, and all contents stay.
pub Permits-set_permissions :
    (m : Memory) (address n start k : ℕ) (flags required : Flags)
    → IsValid m
    → address + n ≤ m.size
    → flags < 256
    → (m' : Memory) × (set_permissions m address n flags ≡ ok (true, m'))
      × (m'.size ≡ m.size)
      × (m'.block_count ≡ m.block_count)
      × ((i : ℕ) → i < n → m'.raw (permissions_base m + address + i) ≡ flags)
      × ((j : ℕ)
          → (j < permissions_base m + address) ⊎ (permissions_base m + address + n ≤ j)
          → m'.raw j ≡ m.raw j)
      × (0 < n → Permits m' address n required ↔ (bit_and flags required ≡ required))
      × ((start + k ≤ address) ⊎ (address + n ≤ start)
          → Permits m' start k required ↔ Permits m start k required)
      × (start + k ≤ m.size → bytes_at m'.raw start k ≡ bytes_at m.raw start k)
Permits-set_permissions m address n start k flags required v h small = (
  protected m address n flags,
  set_permissions_lem m v address n flags h,
  refl,
  refl,
  inside,
  outside,
  λ filled.
      (λ permits. rw (inside 0 filled) at (permits 0 filled), λ has i lt. rw (inside i lt) has),
  λ apart. (
    λ permits i lt. rw (elsewhere apart i lt) at (permits i lt),
    λ permits i lt. rw (elsewhere apart i lt) (permits i lt),
  ),
  λ below. bytes_at_ext _ m.raw start k (λ i lt. outside (start + i) (inl (omega (arith, v.fits)))),
)
  where
    inside :
        (i : ℕ)
        → i < n
        → (protected m address n flags).raw (permissions_base m + address + i) ≡ flags
    inside i lt = ground arith

    outside :
        (j : ℕ)
        → (j < permissions_base m + address) ⊎ (permissions_base m + address + n ≤ j)
        → (protected m address n flags).raw j ≡ m.raw j
    outside j apart =
        overwrite_outside m.raw (permissions_base m + address) n (λ _. u8 flags) j apart

    elsewhere :
        (start + k ≤ address) ⊎ (address + n ≤ start)
        → (i : ℕ) → i < k
        → (protected m address n flags).raw (permissions_base m + start + i)
          ≡ m.raw (permissions_base m + start + i)
    elsewhere apart i lt = outside (permissions_base m + start + i) (ground arith)
