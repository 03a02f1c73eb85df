-- ===== src/Jit/Assembler.antt =====
-- What the register cache uses of asmlib, the assembler library, and of `std::sort`: neither is
-- part of the repository, so both are parameters, with their documented behaviour as laws.
use riscv64_emulator.Prelude.{ℕ, ◌*◌, ◌≤◌, ◌<◌, ◌≡◌, ◌≢◌, List, [], ◌∷◌, ◌==◌, if◌then◌else◌, suc}

-- asmlib::a64::Register, as far as the cache handles it: X0, X1, … and the zero register.
pub data A64R : Type 0 where
  xreg : ℕ → A64R
  xzr : A64R

-- How often a number is in a list.
abbrev pub count : ℕ → List ℕ → ℕ
count a [] = 0
count a (b ∷ bs) = let rest = count a bs in if a == b then suc rest else rest

-- The assembler: `ldr` and `str` append the instruction that loads a register from an offset of the
-- guest register table, or stores it there. `value` and `table` are what the registers and the
-- table hold when the code so far has run; offsets are multiples of 8.
pub record Assembler : Type 1 where
  pub Code : Type 0
  pub ldr : Code → A64R → ℕ → Code
  pub str : Code → A64R → ℕ → Code
  pub value : Code → ℕ → ℕ
  pub table : Code → ℕ → ℕ
  pub value-ldr_self : (c : Code) (n r : ℕ) → value (ldr c (xreg n) (r * 8)) n ≡ table c r
  pub value-ldr_other :
      (c : Code) (n k r : ℕ) → k ≢ n → value (ldr c (xreg n) (r * 8)) k ≡ value c k
  pub table-ldr : (c : Code) (n r q : ℕ) → table (ldr c (xreg n) (r * 8)) q ≡ table c q
  pub value-str : (c : Code) (n k r : ℕ) → value (str c (xreg n) (r * 8)) k ≡ value c k
  pub table-str_self : (c : Code) (n r : ℕ) → table (str c (xreg n) (r * 8)) r ≡ value c n
  pub table-str_other :
      (c : Code) (n r q : ℕ) → q ≢ r → table (str c (xreg n) (r * 8)) q ≡ table c q
  -- The enumerators have distinct values; the general registers are below 32.
  pub number : A64R → ℕ
  pub number_injective : (a b : A64R) → number a ≡ number b → a ≡ b
  pub number_lt : (n : ℕ) → n < 31 → number (xreg n) < 32

-- A list in which no element has a larger key than one behind it.
abbrev pub Least : (ℕ → ℕ) → ℕ → List ℕ → Type 0
Least key a [] = Unit
Least key a (b ∷ bs) = (key a ≤ key b) × Least key a bs

abbrev pub Sorted : (ℕ → ℕ) → List ℕ → Type 0
Sorted key [] = Unit
Sorted key (a ∷ xs) = Least key a xs × Sorted key xs

-- `std::sort` by a key, the largest first; the list is read from its end. The order of equal keys is
-- not specified.
pub record Sort : Type 0 where
  pub sort : (ℕ → ℕ) → List ℕ → List ℕ
  pub sort_count : (key : ℕ → ℕ) (xs : List ℕ) (a : ℕ) → count a (sort key xs) ≡ count a xs
  pub sort_ordered : (key : ℕ → ℕ) (xs : List ℕ) → Sorted key (sort key xs)
