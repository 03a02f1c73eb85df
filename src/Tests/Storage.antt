-- ===== src/Tests/Storage.antt =====
-- The memory and the registers.
use riscv64_emulator.Prelude.{
  ℕ, ◌+◌, ◌^◌, ◌≤◌, ◌<◌, ◌≡◌, ◌⊎◌, ◌↔◌, ◌-◌, inl, refl, arith, true, some, none, [], ◌∷◌, bit_and,
}
use riscv64_emulator.Prelude.Result.{ok, undefined_behaviour}
use riscv64_emulator.Memory.{
  Memory, permissions_base, bytes_at, flag_read, flag_write, flag_execute, read, write, read_value,
  write_value, set_permissions, read_unchecked, copy_in, out_of_range, verify_permissions,
  permissions_loop,
}
use riscv64_emulator.Memory.Accepts.{Permits, CanAccess}
use riscv64_emulator.Memory.Access.{stored, read_value-write_value, read-write_apart}
use riscv64_emulator.Memory.Total.{read_lem}
use riscv64_emulator.Memory.Permissions.{Permits-set_permissions}
use riscv64_emulator.Memory.Overflow.{set_permissions_wraps}
use riscv64_emulator.Tests.Samples.{memory, memory-IsValid}

-- The samples permit reading and writing everywhere.
readable : (address n : ℕ) → address + n ≤ 64 → CanAccess memory address n flag_read
readable address n h = (h, λ i lt. ground arith)

writable : (address n : ℕ) → address + n ≤ 64 → CanAccess memory address n flag_write
writable address n h = (h, λ i lt. ground arith)

read_lem_example :
    (CanAccess memory 0 4 flag_read
      → read memory 0 flag_read 4 ≡ ok (some (bytes_at memory.raw 0 4)))
    × (¬ CanAccess memory 0 4 flag_read → read memory 0 flag_read 4 ≡ ok none)
read_lem_example = read_lem memory 0 4 flag_read memory-IsValid (omega arith) (omega arith)

read_value-write_value_example :
    (m' : Memory) × (write_value memory 40 flag_write 4 0x1_0000_0007 ≡ ok (true, m'))
    × (read_value m' 40 flag_read 4 ≡ ok (some 7))
read_value-write_value_example =
    read_value-write_value memory 40 4 0x1_0000_0007 flag_write flag_read memory-IsValid
      (writable 40 4 (omega arith)) (readable 40 4 (omega arith))

written : write memory 40 flag_write (1 ∷ 2 ∷ []) ≡ ok (true, stored memory 40 (1 ∷ 2 ∷ []))
unfolding write copy_in out_of_range verify_permissions permissions_loop
written = refl

read-write_apart_example :
    read (stored memory 40 (1 ∷ 2 ∷ [])) 0 flag_read 8 ≡ read memory 0 flag_read 8
read-write_apart_example =
    read-write_apart memory (stored memory 40 (1 ∷ 2 ∷ [])) 40 0 8 (1 ∷ 2 ∷ []) flag_write flag_read
      memory-IsValid (writable 40 2 (omega arith)) (readable 0 8 (omega arith)) (inl (omega arith))
      (omega arith) written

Permits-set_permissions_example :
    (m' : Memory) × (set_permissions memory 0 16 5 ≡ ok (true, m'))
    × (m'.size ≡ 64)
    × (m'.block_count ≡ memory.block_count)
    × ((i : ℕ) → i < 16 → m'.raw (permissions_base memory + 0 + i) ≡ 5)
    × ((j : ℕ)
        → (j < permissions_base memory + 0) ⊎ (permissions_base memory + 0 + 16 ≤ j)
        → m'.raw j ≡ memory.raw j)
    × (0 < 16 → Permits m' 0 16 flag_execute ↔ (bit_and 5 flag_execute ≡ flag_execute))
    × ((16 + 8 ≤ 0) ⊎ (16 ≤ 16) → Permits m' 16 8 flag_execute ↔ Permits memory 16 8 flag_execute)
    × (16 + 8 ≤ 64 → bytes_at m'.raw 16 8 ≡ bytes_at memory.raw 16 8)
Permits-set_permissions_example =
    Permits-set_permissions memory 0 16 16 8 5 flag_execute memory-IsValid (omega arith)
      (omega arith)

set_permissions_wraps_example :
    (set_permissions memory 16 (2 ^ 64 - 8) 7 ≡ undefined_behaviour)
    × (read_unchecked memory 16 (2 ^ 64 - 8) ≡ undefined_behaviour)
set_permissions_wraps_example =
    set_permissions_wraps memory 16 (2 ^ 64 - 8) 7 memory-IsValid (omega arith) (omega arith)
      (omega arith)
