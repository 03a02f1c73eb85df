-- ===== src/Memory/Access.antt =====
-- Checked reads and writes of src/vm/Memory.cpp: what they return, and how they interact.
use riscv64_emulator.Prelude.{
  ℕ, ◌+◌, ◌-◌, ◌%◌, ◌^◌, ◌≤◌, ◌<◌, ◌≡◌, ◌⊎◌, inr, sym, ap, ◌∙◌, arith, true, false, List, length,
  get_or, All, none, some,
}
use native.Mathlib.Decide.{dec_le}
use riscv64_emulator.Prelude.Result.{ok}
use riscv64_emulator.Memory.{
  Memory, Flags, permissions_base, bytes_at, overwrite, copy_out, copy_in, read, write, to_bytes,
  read_value, write_value,
}
use riscv64_emulator.Memory.Bytes.{
  bytes_at_ext, bytes_at-overwrite, overwrite_outside, length-to_bytes, to_bytes-All, get_or-lt,
  from_bytes-to_bytes,
}
use riscv64_emulator.Memory.Accepts.{
  IsValid, Permits, CanAccess, in_range, not_in_range, verify_granted, verify_refused,
}

-- The memory after the bytes are stored.
abbrev pub stored : Memory → ℕ → List ℕ → Memory
stored m address bytes = record m {
  raw = overwrite m.raw address (length bytes) (λ k. get_or bytes k 0);
}

module _ (m : Memory) (v : IsValid m) (address : ℕ) (required : Flags) where
  pub read_granted :
      (n : ℕ)
      → CanAccess m address n required
      → read m address required n ≡ ok (some (bytes_at m.raw address n))
  unfolding read copy_out
  read_granted n can =
      ground
        (arith, in_range m v address n can.0, verify_granted m v address n required can, v.fits)

  pub read_refused :
      (n : ℕ)
      → address < 2 ^ 64
      → n < 2 ^ 63
      → ¬ CanAccess m address n required
      → read m address required n ≡ ok none
  unfolding read
  read_refused n ha hn cannot = elim (dec_le (address + n) m.size) [
    | yes h ↦ rw (in_range m v address n h, verify_refused m v address n required h cannot)
    | no h ↦ rw (not_in_range m v address n ha hn h)
  ]

  pub write_granted :
      (bytes : List ℕ)
      → CanAccess m address (length bytes) required
      → write m address required bytes ≡ ok (true, stored m address bytes)
  unfolding write copy_in
  write_granted bytes can = ground (
    arith,
    in_range m v address (length bytes) can.0,
    verify_granted m v address (length bytes) required can,
    v.fits,
  )

  pub write_refused :
      (bytes : List ℕ)
      → address < 2 ^ 64
      → length bytes < 2 ^ 63
      → ¬ CanAccess m address (length bytes) required
      → write m address required bytes ≡ ok (false, m)
  unfolding write
  write_refused bytes ha hn cannot = elim (dec_le (address + length bytes) m.size) [
    | yes h ↦ rw (
      in_range m v address (length bytes) h,
      verify_refused m v address (length bytes) required h cannot,
    )
    | no h ↦ rw (not_in_range m v address (length bytes) ha hn h)
  ]

module _ (m : Memory) (v : IsValid m) (address : ℕ) (bytes : List ℕ) where
  -- A store inside the memory leaves the permissions alone, which lie in the upper half.
  pub stored-Permits :
      (start n : ℕ) (flags : Flags)
      → address + length bytes ≤ m.size
      → Permits m start n flags
      → Permits (stored m address bytes) start n flags
  stored-Permits start n flags h permits i lt =
      rw
        (overwrite_outside m.raw address (length bytes) (λ k. get_or bytes k 0)
          (permissions_base m + start + i) (inr (omega (arith, v.fits))))
        (permits i lt)

  pub stored-IsValid : All (λ b. b < 256) bytes → IsValid (stored m address bytes)
  stored-IsValid small = record {
    fits = v.fits;
    host_size = v.host_size;
    is_bytes = λ j. ground (arith, v.is_bytes j, get_or-lt bytes (j - address) small);
  }

  pub stored-CanAccess :
      (start n : ℕ) (flags : Flags)
      → address + length bytes ≤ m.size
      → CanAccess m start n flags
      → CanAccess (stored m address bytes) start n flags
  stored-CanAccess start n flags h can = (can.0, stored-Permits start n flags h can.1)

-- A value written where writing and reading are permitted is read back, cut to the width.
pub read_value-write_value :
    (m : Memory) (address n : ℕ) (value : ℕ) (required allowed : Flags)
    → IsValid m
    → CanAccess m address n required
    → CanAccess m address n allowed
    → (m' : Memory) × (write_value m address required n value ≡ ok (true, m'))
      × (read_value m' address allowed n ≡ ok (some (value % 256 ^ n)))
unfolding write_value read_value
read_value-write_value m address n value required allowed v can also = (
  m',
  write_granted m v address required bytes (rw len can),
  rw (got, from_bytes-to_bytes n value),
)
  where
    bytes : List ℕ
    bytes = to_bytes n value

    len : length bytes ≡ n
    len = length-to_bytes n value

    m' : Memory
    m' = stored m address bytes

    v' : IsValid m'
    v' = stored-IsValid m v address bytes (to_bytes-All n value)

    got : read m' address allowed n ≡ ok (some bytes)
    got =
        read_granted m' v' address allowed n
          (stored-CanAccess m v address bytes address n allowed (rw len can.0) also)
        ∙ ap (λ bs. ok (some bs))
            (ap (bytes_at m'.raw address) (sym len) ∙ bytes_at-overwrite m.raw address bytes)

-- A write changes nothing that is read from a range apart from it.
pub read-write_apart :
    (m m' : Memory) (address start n : ℕ) (bytes : List ℕ) (required allowed : Flags)
    → IsValid m
    → CanAccess m address (length bytes) required
    → CanAccess m start n allowed
    → (start + n ≤ address) ⊎ (address + length bytes ≤ start)
    → All (λ b. b < 256) bytes
    → write m address required bytes ≡ ok (true, m')
    → read m' start allowed n ≡ read m start allowed n
read-write_apart m m' address start n bytes required allowed v can also apart small e =
    rw (← same) (
      read_granted after (stored-IsValid m v address bytes small) start allowed n
        (stored-CanAccess m v address bytes start n allowed can.0 also)
      ∙ ap (λ bs. ok (some bs)) unchanged
      ∙ sym (read_granted m v start allowed n also))
  where
    after : Memory
    after = stored m address bytes

    same : stored m address bytes ≡ m'
    same = cc (write_granted m v address required bytes can)

    unchanged : bytes_at after.raw start n ≡ bytes_at m.raw start n
    unchanged = bytes_at_ext after.raw m.raw start n (λ i lt.
        overwrite_outside m.raw address (length bytes) (λ k. get_or bytes k 0) (start + i)
          (ground arith))
