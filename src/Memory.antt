-- ===== src/Memory.antt =====
-- src/vm/Memory.hpp and Memory.cpp. One allocation of 16 * block_count bytes holds the contents in
-- its lower and the permissions in its upper half; it is read and written by offsets into it, and
-- an access that leaves it is undefined behaviour.
pub mod Bytes
pub mod Accepts
pub mod Access
pub mod Total
pub mod Permissions
pub mod Overflow
use riscv64_emulator.Prelude.{
  ℕ, zero, suc, ◌+◌, ◌-◌, ◌*◌, ◌/◌, ◌%◌, ◌^◌, Bool, true, false, ◌&&◌, ◌||◌, not, List, [], ◌∷◌,
  length, get_or, Option, none, some, ltb, leb, ◌==◌, if◌then◌else◌, bit_and,
}
use riscv64_emulator.Prelude.Word.{u8, u64}
use riscv64_emulator.Prelude.Result.{Result, ok, undefined_behaviour, ◌>>=◌}

-- enum class MemoryFlags, as sets of bits.
abbrev pub Flags : Type 0
Flags = ℕ

abbrev pub flag_read : Flags
flag_read = 1

abbrev pub flag_write : Flags
flag_write = 2

abbrev pub flag_execute : Flags
flag_execute = 4

pub record Memory : Type 0 where
  pub size : ℕ
  pub block_count : ℕ
  pub raw : ℕ → ℕ

abbrev pub raw_size : Memory → ℕ
raw_size m = m.block_count * 2 * 8

-- `permissions()`: where the upper half starts.
abbrev pub permissions_base : Memory → ℕ
permissions_base m = m.block_count * 8

-- The constructor: `make_unique` zeroes the allocation. That it fails is not modelled.
unfoldable pub create : ℕ → Memory
create size = record { size = size; block_count = u64 (size + 8 - 1) / 8; raw = λ _. 0 }

-- Bytes `start`, `start + 1`, … of the allocation.
abbrev pub bytes_at : (ℕ → ℕ) → ℕ → ℕ → List ℕ
bytes_at raw start zero = []
bytes_at raw start (suc n) = raw start ∷ bytes_at raw (start + 1) n

abbrev pub overwrite : (ℕ → ℕ) → ℕ → ℕ → (ℕ → ℕ) → ℕ → ℕ
overwrite raw start n new j = if leb start j && ltb j (start + n) then new (j - start) else raw j

-- memcpy from the allocation, memcpy into it, and memset.
unfoldable pub copy_out : Memory → ℕ → ℕ → Result (List ℕ)
copy_out m start n =
    if leb (start + n) (raw_size m) then ok (bytes_at m.raw start n) else undefined_behaviour

unfoldable pub copy_in : Memory → ℕ → List ℕ → Result Memory
copy_in m start bytes =
    if leb (start + length bytes) (raw_size m)
    then ok (record m { raw = overwrite m.raw start (length bytes) (λ k. get_or bytes k 0) })
    else undefined_behaviour

unfoldable pub fill : Memory → ℕ → ℕ → ℕ → Result Memory
fill m start n byte =
    if leb (start + n) (raw_size m)
    then ok (record m { raw = overwrite m.raw start n (λ _. u8 byte) })
    else undefined_behaviour

-- `address > size_ || address + size > size_`, in 64 bits.
unfoldable pub out_of_range : Memory → ℕ → ℕ → Bool
out_of_range m address n = ltb m.size address || ltb m.size (u64 (address + n))

-- `read(address, data, size)`: `none` is a return of false.
unfoldable pub read_unchecked : Memory → ℕ → ℕ → Result (Option (List ℕ))
read_unchecked m address n =
    if out_of_range m address n then ok none else do bytes ← copy_out m address n; ok (some bytes)

unfoldable pub write_unchecked : Memory → ℕ → List ℕ → Result (Bool × Memory)
write_unchecked m address bytes =
    if out_of_range m address (length bytes)
    then ok (false, m)
    else do m' ← copy_in m address bytes; ok (true, m')

-- The loop of `verify_permissions`, over the bytes that are left.
unfoldable pub permissions_loop : Memory → Flags → ℕ → ℕ → Result Bool
permissions_loop m required zero p = ok true
permissions_loop m required (suc left) p =
    let rest = permissions_loop m required left (p + 1) in
    if ltb p (raw_size m)
    then (if bit_and (m.raw p) required == required then rest else ok false)
    else undefined_behaviour

unfoldable pub verify_permissions : Memory → ℕ → ℕ → Flags → Result Bool
verify_permissions m address n required =
    if out_of_range m address n
    then ok false
    else permissions_loop m required n (permissions_base m + address)

-- `read(address, required_flags, data, size)`.
unfoldable pub read : Memory → ℕ → Flags → ℕ → Result (Option (List ℕ))
read m address required n = if out_of_range m address n then ok none else do
  allowed ← verify_permissions m address n required
  if allowed then (do bytes ← copy_out m address n; ok (some bytes)) else ok none

unfoldable pub write : Memory → ℕ → Flags → List ℕ → Result (Bool × Memory)
write m address required bytes = if out_of_range m address (length bytes) then ok (false, m) else do
  allowed ← verify_permissions m address (length bytes) required
  if allowed then (do m' ← copy_in m address bytes; ok (true, m')) else ok (false, m)

unfoldable pub set_permissions : Memory → ℕ → ℕ → Flags → Result (Bool × Memory)
set_permissions m address n flags =
    if out_of_range m address n
    then ok (false, m)
    else do m' ← fill m (permissions_base m + address) n flags; ok (true, m')

-- A value of an unsigned type of n bytes, lowest byte first, as the little-endian hosts of the
-- emulator store it. `to_bytes` cuts off what does not fit.
abbrev pub from_bytes : List ℕ → ℕ
from_bytes [] = 0
from_bytes (x ∷ xs) = x + from_bytes xs * 256

abbrev pub to_bytes : ℕ → ℕ → List ℕ
to_bytes zero v = []
to_bytes (suc n) v = v % 256 ∷ to_bytes n (v / 256)

-- `read<T>` and `write<T>` with sizeof(T) = n.
unfoldable pub read_value : Memory → ℕ → Flags → ℕ → Result (Option ℕ)
read_value m address required n = do
  bytes ← read m address required n
  ok (elim bytes [ none ↦ none | some bs ↦ some (from_bytes bs) ])

unfoldable pub write_value : Memory → ℕ → Flags → ℕ → ℕ → Result (Bool × Memory)
write_value m address required n v = write m address required (to_bytes n v)
