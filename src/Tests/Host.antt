-- ===== src/Tests/Host.antt =====
-- A machine that the register cache can run on, and an insertion sort.
use riscv64_emulator.Prelude.{
  ℕ, ◌+◌, ◌*◌, ◌≤◌, ◌≡◌, refl, ap, arith, Bool, true, false, List, [], ◌∷◌, leb, if◌then◌else◌,
}
use riscv64_emulator.Prelude.Result.{Result, ok, fatal, undefined_behaviour}
use riscv64_emulator.Jit.Assembler.{A64R, xreg, xzr, Assembler, Sort, Sorted, Least, count}
use riscv64_emulator.Jit.RegisterCache.{update}

-- The registers and the bytes' offsets of the guest register table.
pub record Machine : Type 0 where
  pub registers : ℕ → ℕ
  pub memory : ℕ → ℕ

abbrev pub load : Machine → A64R → ℕ → Machine
load m (xreg n) offset = record m { registers = update m.registers n (m.memory offset) }
load m xzr offset = m

abbrev pub store : Machine → A64R → ℕ → Machine
store m (xreg n) offset = record m { memory = update m.memory offset (m.registers n) }
store m xzr offset = record m { memory = update m.memory offset 0 }

abbrev pub numbered : A64R → ℕ
numbered (xreg n) = n + 1
numbered xzr = 0

pub numbered-injective : (a b : A64R) → numbered a ≡ numbered b → a ≡ b
numbered-injective (xreg n) (xreg k) e = ap xreg (omega arith)
numbered-injective (xreg n) xzr e = absurd (omega arith)
numbered-injective xzr (xreg k) e = absurd (omega arith)
numbered-injective xzr xzr e = refl

abbrev pub machine : Assembler
machine = record {
  Code = Machine;
  ldr = load;
  str = store;
  value = λ m n. m.registers n;
  table = λ m r. m.memory (r * 8);
  value-ldr_self = λ m n r. ground arith;
  value-ldr_other = λ m n k r differ. ground arith;
  table-ldr = λ m n r q. refl;
  value-str = λ m n k r. refl;
  table-str_self = λ m n r. ground arith;
  table-str_other = λ m n r q differ. ground arith;
  number = numbered;
  number_injective = numbered-injective;
  number_lt = λ n h. omega arith;
}

-- Insertion sort.
abbrev pub place : (ℕ → ℕ) → ℕ → List ℕ → List ℕ
place key a [] = a ∷ []
place key a (b ∷ bs) =
    let rest = place key a bs in if leb (key a) (key b) then a ∷ b ∷ bs else b ∷ rest

abbrev pub insertion_sort : (ℕ → ℕ) → List ℕ → List ℕ
insertion_sort key [] = []
insertion_sort key (a ∷ xs) = place key a (insertion_sort key xs)

pub place-count :
    (key : ℕ → ℕ) (a : ℕ) (bs : List ℕ) (k : ℕ) → count k (place key a bs) ≡ count k (a ∷ bs)
place-count key a [] k = refl
place-count key a (b ∷ bs) k = ground (arith, place-count key a bs k)

pub sort-count : (key : ℕ → ℕ) (xs : List ℕ) (k : ℕ) → count k (insertion_sort key xs) ≡ count k xs
sort-count key [] k = refl
sort-count key (a ∷ xs) k =
    ground (arith, place-count key a (insertion_sort key xs) k, sort-count key xs k)

pub Least-le :
    (key : ℕ → ℕ) (a b : ℕ) (bs : List ℕ) → key a ≤ key b → Least key b bs → Least key a bs
Least-le key a b [] h l = tt
Least-le key a b (c ∷ bs) h l = (omega (arith, l.0), Least-le key a b bs h l.1)

pub place-Least :
    (key : ℕ → ℕ) (a b : ℕ) (bs : List ℕ)
    → key b ≤ key a
    → Least key b bs
    → Least key b (place key a bs)
place-Least key a b [] h l = (h, tt)
place-Least key a b (c ∷ bs) h l = ground (arith, place-Least key a b bs h l.1)

pub place-Sorted : (key : ℕ → ℕ) (a : ℕ) (bs : List ℕ) → Sorted key bs → Sorted key (place key a bs)
place-Sorted key a [] s = (tt, tt)
place-Sorted key a (b ∷ bs) s = go (place-Sorted key a bs s.1) (leb (key a) (key b)) refl
  where
    go :
        Sorted key (place key a bs)
        → (t : Bool) → leb (key a) (key b) ≡ t
        → Sorted key (if t then a ∷ b ∷ bs else b ∷ place key a bs)
    go rest true e = let h : key a ≤ key b = ground arith in ((h, Least-le key a b bs h s.0), s)
    go rest false e = let h : key b ≤ key a = ground arith in (place-Least key a b bs h s.0, rest)

pub sort-Sorted : (key : ℕ → ℕ) (xs : List ℕ) → Sorted key (insertion_sort key xs)
sort-Sorted key [] = tt
sort-Sorted key (a ∷ xs) = place-Sorted key a (insertion_sort key xs) (sort-Sorted key xs)

abbrev pub insertion : Sort
insertion = record { sort = insertion_sort; sort_count = sort-count; sort_ordered = sort-Sorted }

-- A run that succeeds gives its value.
abbrev pub value_or {ℓ} : {A : Type ℓ} → A → Result A → A
value_or d (ok a) = a
value_or d (fatal m) = d
value_or d undefined_behaviour = d

abbrev pub is_ok {ℓ} : {A : Type ℓ} → Result A → Bool
is_ok (ok a) = true
is_ok (fatal m) = false
is_ok undefined_behaviour = false

pub is_ok-value {ℓ} : {A : Type ℓ} (d : A) (r : Result A) → is_ok r ≡ true → r ≡ ok (value_or d r)
is_ok-value d (ok a) e = refl
is_ok-value d (fatal m) e = absurd (ground arith)
is_ok-value d undefined_behaviour e = absurd (ground arith)
