-- ===== src/Memory/Total.antt =====
-- Reads and writes of a valid memory always return.
use riscv64_emulator.Prelude.{
  ℕ, ◌+◌, ◌^◌, ◌<◌, ◌≡◌, ◌⊎◌, inl, inr, arith, true, false, Bool-cases, length, none, some,
}
use native.Mathlib.Decide.{dec_le}
use riscv64_emulator.Prelude.Result.{ok}
use riscv64_emulator.Memory.{
  Memory, Flags, bytes_at, read, from_bytes, to_bytes, read_value, write_value,
}
use riscv64_emulator.Memory.Bytes.{from_bytes-lt, length-to_bytes, to_bytes-All}
use riscv64_emulator.Memory.Accepts.{IsValid, CanAccess, verify_in_range}
use riscv64_emulator.Memory.Access.{
  stored, stored-IsValid, read_granted, read_refused, write_granted, write_refused,
}

module _ (m : Memory) (v : IsValid m) (address : ℕ) (required : Flags) where
  pub CanAccess-cases :
      (n : ℕ) → CanAccess m address n required ⊎ (¬ CanAccess m address n required)
  CanAccess-cases n = elim (dec_le (address + n) m.size) [
    | no h ↦ inr (λ can. h can.0)
    | yes h ↦
        let checked = verify_in_range m v address n required h in
        elim (Bool-cases checked.0) [
          | inl granted ↦ inl (h, checked.2.0 granted)
          | inr refused ↦ inr (λ can. cc (checked.2.1 can.1))
        ]
  ]

  pub read_value_total :
      (n : ℕ)
      → address < 2 ^ 64
      → n < 2 ^ 63
      → (read_value m address required n ≡ ok none)
        ⊎ ((x : ℕ) × (read_value m address required n ≡ ok (some x)) × (x < 256 ^ n))
  unfolding read_value
  read_value_total n ha hn = elim (CanAccess-cases n) [
    | inl can ↦ inr (
      from_bytes (bytes_at m.raw address n),
      rw (read_granted m v address required n can),
      from_bytes-lt m.raw v.is_bytes address n,
    )
    | inr cannot ↦ inl (rw (read_refused m v address required n ha hn cannot))
  ]

  pub write_value_total :
      (n value : ℕ)
      → address < 2 ^ 64
      → n < 2 ^ 63
      → (write_value m address required n value ≡ ok (false, m))
        ⊎ ((m' : Memory) × (write_value m address required n value ≡ ok (true, m')) × IsValid m')
  unfolding write_value
  write_value_total n value ha hn =
      let bytes = to_bytes n value in
      let len : length bytes ≡ n = length-to_bytes n value in
      elim (CanAccess-cases (length bytes)) [
        | inl can ↦ inr (
          stored m address bytes,
          write_granted m v address required bytes can,
          stored-IsValid m v address bytes (to_bytes-All n value),
        )
        | inr cannot ↦ inl (write_refused m v address required bytes ha (omega (arith, len)) cannot)
      ]

-- A checked read of a valid memory gives the bytes of the range if the range lies in the memory
-- and has the required flags, and refuses any other range; it is never undefined behaviour.
pub read_lem :
    (m : Memory) (address n : ℕ) (required : Flags)
    → IsValid m
    → address < 2 ^ 64
    → n < 2 ^ 63
    → (CanAccess m address n required
        → read m address required n ≡ ok (some (bytes_at m.raw address n)))
      × (¬ CanAccess m address n required → read m address required n ≡ ok none)
read_lem m address n required v ha hn =
    (read_granted m v address required n, read_refused m v address required n ha hn)
