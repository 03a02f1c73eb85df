-- ===== src/ElfLoader/Headers.antt =====
-- Reading from an ELF file (src/ElfLoader.cpp).
use riscv64_emulator.Prelude.{ℕ, ◌+◌, ◌^◌, ◌≤◌, ◌<◌, ◌≡◌, arith, length}
use riscv64_emulator.Prelude.Lists.{take, drop}
use riscv64_emulator.Prelude.Result.{ok, fatal, undefined_behaviour, reading_out_of_bounds}
use riscv64_emulator.Memory.{from_bytes}
use riscv64_emulator.ElfLoader.{View, read}

-- Reading n bytes of a file at an offset: the value if they lie in the file, a failed `verify` if
-- they leave it, and undefined behaviour if the offset is so large that the end wraps to 0 or
-- just above it.
pub read_cases :
    (view : View) (offset n : ℕ)
    → n ≤ 8
    → offset < 2 ^ 64
    → length view < 2 ^ 64
    → (offset + n ≤ length view → read view offset n ≡ ok (from_bytes (take n (drop offset view))))
      × (length view < offset + n
          → offset + n < 2 ^ 64
          → read view offset n ≡ fatal reading_out_of_bounds)
      × (2 ^ 64 ≤ offset + n → 8 ≤ length view → read view offset n ≡ undefined_behaviour)
unfolding read
read_cases view offset n hn ho hl = (λ h. ground arith, λ h lt. ground arith, λ h big. ground arith)
