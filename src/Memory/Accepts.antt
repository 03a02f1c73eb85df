-- ===== src/Memory/Accepts.antt =====
-- When the checks of src/vm/Memory.cpp pass: the range test without wrap-around, and the loop over
-- the permission bytes.
use riscv64_emulator.Prelude.{
  ℕ, zero, suc, ◌+◌, ◌*◌, ◌^◌, ◌≤◌, ◌<◌, ◌≡◌, ◌↔◌, inl, inr, refl, ap, ◌∙◌, arith, Bool, true,
  false, Bool-cases, ==_iff, bit_and, ◌==◌,
}
use riscv64_emulator.Prelude.Result.{ok}
use riscv64_emulator.Memory.{
  Memory, Flags, create, raw_size, permissions_base, out_of_range, permissions_loop,
  verify_permissions,
}

-- The contents fit the lower half of the allocation, whose size a 64-bit host can hold.
pub record IsValid (m : Memory) : Type 0 where
  pub fits : m.size ≤ m.block_count * 8
  pub host_size : m.block_count * 2 * 8 < 2 ^ 63
  pub is_bytes : (j : ℕ) → m.raw j < 256

pub create-IsValid : (size : ℕ) → size < 2 ^ 60 → IsValid (create size)
unfolding create
create-IsValid size h = record {
  fits = omega arith;
  host_size = omega arith;
  is_bytes = λ j. omega arith;
}

-- Every byte of the range has the required flags.
abbrev pub Permits : Memory → ℕ → ℕ → Flags → Type 0
Permits m address n required =
    (i : ℕ) → i < n → bit_and (m.raw (permissions_base m + address + i)) required ≡ required

-- The range lies in the memory and permits the access.
abbrev pub CanAccess : Memory → ℕ → ℕ → Flags → Type 0
CanAccess m address n required = (address + n ≤ m.size) × Permits m address n required

module _ (m : Memory) (v : IsValid m) where
  pub in_range : (address n : ℕ) → address + n ≤ m.size → out_of_range m address n ≡ false
  unfolding out_of_range
  in_range address n h = ground (arith, v.fits, v.host_size)

  pub not_in_range :
      (address n : ℕ)
      → address < 2 ^ 64
      → n < 2 ^ 63
      → ¬ (address + n ≤ m.size)
      → out_of_range m address n ≡ true
  unfolding out_of_range
  not_in_range address n ha hn h = ground (arith, v.fits, v.host_size)

-- The bytes from `p` on have the required flags.
abbrev AllFrom : Memory → Flags → ℕ → ℕ → Type 0
AllFrom m required p n = (i : ℕ) → i < n → bit_and (m.raw (p + i)) required ≡ required

module _ (m : Memory) (required : Flags) (p left : ℕ) where
  AllFrom-suc :
      bit_and (m.raw p) required ≡ required
      → AllFrom m required (p + 1) left
      → AllFrom m required p (suc left)
  AllFrom-suc first others zero lt =
      let e : p + 0 ≡ p = omega arith in rw (ap (λ (j : ℕ). bit_and (m.raw j) required) e) first
  AllFrom-suc first others (suc i) lt =
      let e : p + suc i ≡ p + 1 + i = omega arith in
      rw (ap (λ (j : ℕ). bit_and (m.raw j) required) e) (others i (omega arith))

  AllFrom-first : AllFrom m required p (suc left) → bit_and (m.raw p) required ≡ required
  AllFrom-first all =
      let e : p ≡ p + 0 = omega arith in
      ap (λ (j : ℕ). bit_and (m.raw j) required) e ∙ all 0 (omega arith)

  AllFrom-tail : AllFrom m required p (suc left) → AllFrom m required (p + 1) left
  AllFrom-tail all i lt =
      let e : p + 1 + i ≡ p + suc i = omega arith in
      ap (λ (j : ℕ). bit_and (m.raw j) required) e ∙ all (suc i) (omega arith)

-- The loop ends, and with true exactly if all the bytes have the flags.
pub permissions_loop_lem :
    (m : Memory) (required : Flags) (left p : ℕ)
    → p + left ≤ raw_size m
    → (b : Bool) × (permissions_loop m required left p ≡ ok b)
      × ((b ≡ true) ↔ AllFrom m required p left)
unfolding permissions_loop
permissions_loop_lem m required zero p h =
    (true, refl, (λ e i lt. absurd (omega arith), λ all. refl))
permissions_loop_lem m required (suc left) p h =
    let rest = permissions_loop_lem m required left (p + 1) (omega arith) in
    elim (Bool-cases (bit_and (m.raw p) required == required)) [
      | inl here ↦ (
        rest.0,
        ground (arith, rest.1),
        (
          λ e. AllFrom-suc m required p left ((==_iff _ required).0 here) (rest.2.0 e),
          λ all. rest.2.1 (AllFrom-tail m required p left all),
        ),
      )
      | inr missing ↦ (
        false,
        ground arith,
        (λ e. cc, λ all. ground (arith, AllFrom-first m required p left all)),
      )
    ]

module _ (m : Memory) (v : IsValid m) where
  -- The loop over the permissions of a range inside the memory.
  pub verify_in_range :
      (address n : ℕ) (required : Flags)
      → address + n ≤ m.size
      → (b : Bool) × (verify_permissions m address n required ≡ ok b)
        × ((b ≡ true) ↔ Permits m address n required)
  unfolding verify_permissions
  verify_in_range address n required h =
      rw (in_range m v address n h)
        (permissions_loop_lem m required n (permissions_base m + address) (omega (arith, v.fits)))

  pub verify_granted :
      (address n : ℕ) (required : Flags)
      → CanAccess m address n required
      → verify_permissions m address n required ≡ ok true
  verify_granted address n required can =
      let checked = verify_in_range address n required can.0 in
      checked.1 ∙ ap ok (checked.2.1 can.1)

  pub verify_refused :
      (address n : ℕ) (required : Flags)
      → address + n ≤ m.size
      → ¬ CanAccess m address n required
      → verify_permissions m address n required ≡ ok false
  verify_refused address n required h cannot =
      let checked = verify_in_range address n required h in
      elim (Bool-cases checked.0) [
        | inl granted ↦ absurd (cannot (h, checked.2.0 granted))
        | inr refused ↦ checked.1 ∙ ap ok refused
      ]
