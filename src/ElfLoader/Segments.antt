-- ===== src/ElfLoader/Segments.antt =====
-- What loading one segment does to the memory (src/ElfLoader.cpp).
use riscv64_emulator.Prelude.{
  ℕ, ◌+◌, ◌-◌, ◌%◌, ◌^◌, ◌≤◌, ◌<◌, ◌≡◌, ◌⊎◌, inl, inr, refl, ap, subst, arith, Bool, true, false,
  Bool-cases, List, length, get_or, ltb, All,
}
use riscv64_emulator.Prelude.Result.{
  Result, ok, ◌>>=◌, ◌>>◌, verify, fatal, undefined_behaviour, Message, writing_segment_failed,
  setting_permissions_failed,
}
use riscv64_emulator.Memory.{
  Memory, Flags, permissions_base, copy_in, fill, out_of_range, write_unchecked, set_permissions,
}
use riscv64_emulator.Memory.Bytes.{overwrite_outside}
use riscv64_emulator.Memory.Accepts.{IsValid}
use riscv64_emulator.Memory.Access.{stored, stored-IsValid}
use riscv64_emulator.Memory.Permissions.{protected, protected-IsValid}
use riscv64_emulator.ElfLoader.{Segment, permissions_of, copy_segment, protect_segment}

write_unchecked-eq-ok :
    (m m' : Memory) (address : ℕ) (bytes : List ℕ)
    → IsValid m
    → write_unchecked m address bytes ≡ ok (true, m')
    → (address + length bytes ≤ m.size) × (m' ≡ stored m address bytes)
unfolding write_unchecked copy_in out_of_range
write_unchecked-eq-ok m m' address bytes v e =
    (ground (arith, v.host_size), ground (arith, v.host_size))

set_permissions-eq-ok :
    (m m' : Memory) (address n : ℕ) (flags : Flags)
    → IsValid m
    → set_permissions m address n flags ≡ ok (true, m')
    → (address + n ≤ m.size) × (m' ≡ protected m address n flags)
unfolding set_permissions fill out_of_range
set_permissions-eq-ok m m' address n flags v e =
    (ground (arith, v.host_size, v.fits), ground (arith, v.host_size))

-- `m'` is `m` with the bytes stored at the address: nothing else changes, and bytes that are
-- there lie in the memory.
pub record Copies (m m' : Memory) (address : ℕ) (bytes : List ℕ) : Type 0 where
  pub valid : IsValid m'
  pub same_size : m'.size ≡ m.size
  pub same_blocks : m'.block_count ≡ m.block_count
  pub inside : 0 < length bytes → address + length bytes ≤ m.size
  pub contents : (i : ℕ) → i < length bytes → m'.raw (address + i) ≡ get_or bytes i 0
  pub others : (j : ℕ) → (j < address) ⊎ (address + length bytes ≤ j) → m'.raw j ≡ m.raw j

-- The checked call of an operation on the memory.
abbrev insist : Result (Bool × Memory) → Message → Result Memory
insist r message = do (success, m') ← r; verify success message; ok m'

insist-eq-ok :
    (r : Result (Bool × Memory)) (message : Message) {m' : Memory}
    → insist r message ≡ ok m'
    → r ≡ ok (true, m')
insist-eq-ok (ok (true, m)) message e = cc
insist-eq-ok (ok (false, m)) message e = cc
insist-eq-ok (fatal other) message e = cc
insist-eq-ok undefined_behaviour message e = cc

stored-Copies :
    (m : Memory) (address : ℕ) (bytes : List ℕ)
    → IsValid m
    → All (λ b. b < 256) bytes
    → address + length bytes ≤ m.size
    → Copies m (stored m address bytes) address bytes
stored-Copies m address bytes v small h = record {
  valid = stored-IsValid m v address bytes small;
  same_size = refl;
  same_blocks = refl;
  inside = λ filled. h;
  contents = λ i lt.
      let e : address + i - address ≡ i = omega arith in
      ground (arith, ap (λ (k : ℕ). get_or bytes k 0) e);
  others =
      λ j apart. overwrite_outside m.raw address (length bytes) (λ k. get_or bytes k 0) j apart;
}

unchanged-Copies :
    (m : Memory) (address : ℕ) (bytes : List ℕ)
    → IsValid m
    → ¬ (0 < length bytes)
    → Copies m m address bytes
unchanged-Copies m address bytes v h = record {
  valid = v;
  same_size = refl;
  same_blocks = refl;
  inside = λ filled. absurd (h filled);
  contents = λ i lt. absurd (omega arith);
  others = λ j apart. refl;
}

pub copy_segment-Copies :
    (m m' : Memory) (address : ℕ) (bytes : List ℕ)
    → IsValid m
    → All (λ b. b < 256) bytes
    → copy_segment m address bytes ≡ ok m'
    → Copies m m' address bytes
unfolding copy_segment
copy_segment-Copies m m' address bytes v small e = elim (Bool-cases (ltb 0 (length bytes))) [
  | inl filled ↦
      let written =
        write_unchecked-eq-ok m m' address bytes v (
          insist-eq-ok (write_unchecked m address bytes) writing_segment_failed (rw filled at e)) in
      rw written.1 (stored-Copies m address bytes v small written.0)
  | inr empty ↦
      let same : ok m ≡ ok m' = rw empty at e in
      let eq : m ≡ m' = cc in
      subst (λ x. Copies m x address bytes) eq (unchanged-Copies m address bytes v (ground arith))
]

-- `m'` is `m` with the permissions of the segment set: nothing else changes.
pub record Protects (m m' : Memory) (address n : ℕ) (flags : Flags) : Type 0 where
  pub valid : IsValid m'
  pub same_size : m'.size ≡ m.size
  pub same_blocks : m'.block_count ≡ m.block_count
  pub inside : 0 < n → address + n ≤ m.size
  pub permissions : (i : ℕ) → i < n → m'.raw (permissions_base m + address + i) ≡ flags % 2 ^ 8
  pub others :
      (j : ℕ)
      → (j < permissions_base m + address) ⊎ (permissions_base m + address + n ≤ j)
      → m'.raw j ≡ m.raw j

protected-Protects :
    (m : Memory) (address n : ℕ) (flags : Flags)
    → IsValid m
    → address + n ≤ m.size
    → Protects m (protected m address n flags) address n flags
protected-Protects m address n flags v h = record {
  valid = protected-IsValid m v address n flags h;
  same_size = refl;
  same_blocks = refl;
  inside = λ filled. h;
  permissions = λ i lt. ground arith;
  others = λ j apart.
      overwrite_outside m.raw (permissions_base m + address) n (λ _. flags % 2 ^ 8) j apart;
}

pub protect_segment-Protects :
    (m m' : Memory) (s : Segment)
    → IsValid m
    → protect_segment m s ≡ ok m'
    → Protects m m' s.memory_address s.memory_size (permissions_of s.flags)
unfolding protect_segment
protect_segment-Protects m m' s v e = elim (Bool-cases (ltb 0 s.memory_size)) [
  | inl filled ↦
      let done =
        set_permissions-eq-ok m m' s.memory_address s.memory_size (permissions_of s.flags) v (
          insist-eq-ok (set_permissions m s.memory_address s.memory_size (permissions_of s.flags))
            setting_permissions_failed (rw filled at e)) in
      rw done.1
        (protected-Protects m s.memory_address s.memory_size (permissions_of s.flags) v done.0)
  | inr empty ↦
      let same : ok m ≡ ok m' = rw empty at e in
      let eq : m ≡ m' = cc in
      subst (λ x. Protects m x s.memory_address s.memory_size (permissions_of s.flags)) eq
        (record {
          valid = v;
          same_size = refl;
          same_blocks = refl;
          inside = λ filled. ground arith;
          permissions = λ i lt. ground arith;
          others = λ j apart. refl;
        })
]
