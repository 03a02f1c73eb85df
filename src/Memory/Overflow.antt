-- ===== src/Memory/Overflow.antt =====
-- The range test of src/vm/Memory.cpp adds in 64 bits. A size that wraps past the end passes it.
use riscv64_emulator.Prelude.{ℕ, ◌+◌, ◌^◌, ◌≤◌, ◌<◌, ◌≡◌, arith}
use riscv64_emulator.Prelude.Result.{undefined_behaviour}
use riscv64_emulator.Memory.{
  Memory, Flags, out_of_range, fill, copy_out, read_unchecked, set_permissions,
}
use riscv64_emulator.Memory.Accepts.{IsValid}

-- `set_permissions` with a size so large that the end of the range wraps to a small number is not
-- refused: the memset runs out of the allocation.
pub set_permissions_wraps :
    (m : Memory) (address n : ℕ) (flags : Flags)
    → IsValid m
    → address ≤ m.size
    → n < 2 ^ 64
    → 2 ^ 64 ≤ address + n
    → (set_permissions m address n flags ≡ undefined_behaviour)
      × (read_unchecked m address n ≡ undefined_behaviour)
unfolding set_permissions read_unchecked fill copy_out out_of_range
set_permissions_wraps m address n flags v ha hn wraps =
    (ground (arith, v.fits, v.host_size), ground (arith, v.fits, v.host_size))
